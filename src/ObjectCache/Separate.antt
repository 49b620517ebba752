-- ===== src/ObjectCache/Separate.antt =====
-- kernel/mm/cache.c: the held objects of a cache share no byte.
use vimix_os.Base.{
  ℕ, ◌+◌, ◌%◌, ◌<◌, ◌≤◌, ◌≡◌, ◌≢◌, ◌⊎◌, inl, inr, refl, ap, ◌∙◌, Bool-cases, List, [], ◌∷◌, All,
  arith, ◌==◌, ltb,
}
use vimix_os.Slab.{page_size, KmemSlab}
use vimix_os.Slab.Objects.{count}
use vimix_os.ObjectCache.{infer_slab, KmemCache}
use vimix_os.ObjectCache.Pages.{objects_on, slabs_on, IsPart}
use vimix_os.ObjectCache.Sound.{IsSound}

-- A slab in a page that the list has a slab in.
find-part :
    (P : KmemSlab → Type 0) (page : ℕ) (l : List KmemSlab)
    → All P l
    → 0 < slabs_on page l
    → (s : KmemSlab) × ((s.page ≡ page) × P s)
unfolding slabs_on
find-part P page [] h there = absurd (omega arith)
find-part P page (s ∷ l) h there = elim (Bool-cases (s.page == page)) [
  | inl same ↦ (s, (ground arith, h.0))
  | inr differ ↦ find-part P page l h.1 (ground arith)
]

count-objects_on : (a : ℕ) (held : List ℕ) → count a (objects_on (infer_slab a) held) ≡ count a held
unfolding count objects_on
count-objects_on a [] = refl
count-objects_on a (x ∷ held) =
    let ih = count-objects_on a held in
    let same = λ (h : a ≡ x). ap infer_slab h in ground (arith, same)

-- Each object is held once, and two of them share no byte.
abbrev pub AreSeparate : ℕ → List ℕ → Type 0
AreSeparate size held =
    ((a : ℕ) → count a held ≤ 1)
    × ((a b : ℕ) → 0 < count a held → 0 < count b held → a ≢ b → (a + size ≤ b) ⊎ (b + size ≤ a))

-- Objects in different pages.
far_apart :
    (p q a b size : ℕ)
    → p % page_size ≡ 0
    → q % page_size ≡ 0
    → p ≢ q
    → p ≤ a
    → q ≤ b
    → a + size ≤ p + page_size
    → b + size ≤ q + page_size
    → (a + size ≤ b) ⊎ (b + size ≤ a)
far_apart p q a b size aligned aligned' differ lo lo' hi hi' = elim (Bool-cases (ltb p q)) [
  | inl below ↦ inl (let h : p < q = ground arith in omega arith)
  | inr above ↦ inr (let h : q < p = ground arith in omega arith)
]

module _ (cache : KmemCache) (held : List ℕ) (sound : IsSound cache held) where
  -- the slab of a held object
  home :
      (a : ℕ)
      → 0 < count a held
      → (s : KmemSlab) × ((s.page ≡ infer_slab a) × IsPart cache.object_size held s)
  home a there =
      find-part (IsPart cache.object_size held) (infer_slab a) cache.slab_list sound.parts
        (sound.homes a there)

  on-page :
      (a : ℕ) (s : KmemSlab)
      → s.page ≡ infer_slab a
      → count a (objects_on s.page held) ≡ count a held
  on-page a s at = ap (λ p. count a (objects_on p held)) at ∙ count-objects_on a held

  pub separate : AreSeparate cache.object_size held
  separate = (
    λ a. elim (Bool-cases (ltb 0 (count a held))) [
      | inl there ↦
          let (s, (at, part)) = home a (ground arith) in
          let n = on-page a s at in let o = part.valid.once a in omega arith
      | inr none_held ↦ ground arith
    ],
    λ a b a_held b_held differ.
        (let (s, (at_s, part_s)) = home a a_held in
          let (t, (at_t, part_t)) = home b b_held in
          let n = on-page a s at_s in
          let m = on-page b t at_t in
          let p = part_s.valid.placed a (omega arith) in
          let q = part_t.valid.placed b (omega arith) in
          let e = part_s.valid.enough in
          let f = part_t.valid.enough in
          elim (Bool-cases (infer_slab a == infer_slab b)) [
            | inl same ↦
                let eq : infer_slab a ≡ infer_slab b = ground arith in
                let k = on-page b s (at_s ∙ eq) in
                let apart = part_s.valid.apart a b (omega arith) (omega arith) differ in omega arith
            | inr other ↦
                let other_page : s.page ≢ t.page = ground arith in
                let width : a + cache.object_size ≤ s.page + page_size = omega arith in
                let width' : b + cache.object_size ≤ t.page + page_size = omega arith in
                far_apart s.page t.page a b cache.object_size part_s.aligned part_t.aligned
                  other_page (omega arith) (omega arith) width width'
          ]),
  )

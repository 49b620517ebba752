-- ===== src/ObjectCache/Free.antt =====
-- kernel/mm/cache.c: an object goes back to its slab, which is deleted with its last object.
use vimix_os.Base.{
  ℕ, suc, ◌<◌, ◌≤◌, ◌≡◌, ◌≢◌, inl, inr, refl, sym, ap, ◌∙◌, subst, Bool, true, false, Bool-cases,
  List, [], ◌∷◌, ◌++◌, length, All, arith, ◌==◌, if◌then◌else◌,
}
use vimix_os.Slab.{KmemSlab, kmem_slab_free, kmem_slab_is_empty}
use vimix_os.Slab.Objects.{count}
use vimix_os.Slab.Holding.{IsValid, free-IsValid}
use vimix_os.ObjectCache.{infer_slab, free_in, sum_allocated}
use vimix_os.ObjectCache.Pages.{
  objects_on, slabs_on, IsPart, IsPart-elsewhere, parts-elsewhere, objects_on-append,
  objects_on-other, objects_on-same,
}
use vimix_os.ObjectCache.Alloc.{AreApart}

-- An object of a list is one of those in its page.
pub object-on :
    (a : ℕ) (held : List ℕ) → 0 < count a held → 0 < length (objects_on (infer_slab a) held)
unfolding count objects_on
object-on a [] there = absurd (omega arith)
object-on a (x ∷ held) there = let ih = object-on a held in ground arith

module _ (size o : ℕ) (held left xs ys : List ℕ) (positive : 0 < size) (e : held ≡ xs ++ (o ∷ ys))
    (f : left ≡ xs ++ ys) where
  -- One object of its page less, and nothing else.
  on-home :
      objects_on (infer_slab o) held
      ≡ objects_on (infer_slab o) xs ++ (o ∷ objects_on (infer_slab o) ys)
  on-home =
      ap (objects_on (infer_slab o)) e
      ∙ (objects_on-append (infer_slab o) xs (o ∷ ys)
          ∙ ap (λ l. objects_on (infer_slab o) xs ++ l) (objects_on-same (infer_slab o) o ys refl))

  left-on : (p : ℕ) → objects_on p left ≡ objects_on p xs ++ objects_on p ys
  left-on p = ap (objects_on p) f ∙ objects_on-append p xs ys

  on-other : (p : ℕ) → p ≢ infer_slab o → objects_on p held ≡ objects_on p left
  on-other p differ =
      ap (objects_on p) e
      ∙ (objects_on-append p xs (o ∷ ys)
          ∙ (ap (λ l. objects_on p xs ++ l) (sym (objects_on-other p o ys differ))
              ∙ sym (left-on p)))

  freed-IsValid :
      (s : KmemSlab)
      → s.page ≡ infer_slab o
      → IsPart size held s
      → IsValid s.page size (kmem_slab_free o s) (objects_on s.page left)
  freed-IsValid s home part =
      subst (λ p. IsValid p size (kmem_slab_free o s) (objects_on p left)) (sym home)
        (free-IsValid (infer_slab o) size s (objects_on (infer_slab o) held)
          (objects_on (infer_slab o) left) (objects_on (infer_slab o) xs)
          (objects_on (infer_slab o) ys) o
          (subst (λ p. IsValid p size s (objects_on p held)) home part.valid) on-home
          (left-on (infer_slab o)))

  -- What the loop leaves: one object less, each part with an object, and a slab for each object.
  abbrev Freed : List KmemSlab → List KmemSlab → Type 0
  Freed l after =
      All (IsPart size left) after
      × (((p : ℕ) → slabs_on p after ≤ slabs_on p l)
          × (((a : ℕ)
                → 0 < count a left
                → 0 < slabs_on (infer_slab a) l
                → 0 < slabs_on (infer_slab a) after)
              × (suc (sum_allocated after) ≡ sum_allocated l)))

  freed-here :
      (s : KmemSlab) (rest : List KmemSlab)
      → s.page ≡ infer_slab o
      → All (IsPart size held) (s ∷ rest)
      → AreApart (s ∷ rest)
      → Freed
          (s ∷ rest)
          (if kmem_slab_is_empty (kmem_slab_free o s) then rest else kmem_slab_free o s ∷ rest)
  unfolding kmem_slab_is_empty kmem_slab_free slabs_on sum_allocated
  freed-here s rest home parts apart =
      let valid = freed-IsValid s home parts.0 in
      let used = parts.0.used in
      let c = valid.counted in
      let others =
        parts-elsewhere size (infer_slab o) held left rest on-other
          (let a = apart (infer_slab o) in ground arith) parts.1 in
      by_test (kmem_slab_is_empty (kmem_slab_free o s))
        (λ empty. (
          others,
          (
            λ p. omega arith,
            (
              λ a there on. elim (Bool-cases (s.page == infer_slab a)) [
                | inl same ↦
                    let w = object-on a left there in
                    let h : s.page ≡ infer_slab a = ground arith in
                    let n = ap (λ p. length (objects_on p left)) h in absurd (ground arith)
                | inr differ ↦ ground arith
              ],
              ground arith,
            ),
          ),
        ))
        (λ some_left. (
          (record { aligned = parts.0.aligned; valid = valid; used = ground arith }, others),
          (λ p. omega arith, (λ a there on. on, omega arith)),
        ))
    where
      by_test :
          (t : Bool)
          → (t ≡ true → Freed (s ∷ rest) rest)
          → (t ≡ false → Freed (s ∷ rest) (kmem_slab_free o s ∷ rest))
          → Freed (s ∷ rest) (if t then rest else kmem_slab_free o s ∷ rest)
      by_test true p q = p refl
      by_test false p q = q refl

  pub free_in-Freed :
      (l : List KmemSlab)
      → All (IsPart size held) l
      → AreApart l
      → 0 < slabs_on (infer_slab o) l
      → Freed l (free_in (infer_slab o) o l)
  unfolding free_in slabs_on sum_allocated
  free_in-Freed [] parts apart there = absurd (omega arith)
  free_in-Freed (s ∷ rest) parts apart there =
      by_page (s.page == infer_slab o)
        (λ same. freed-here s rest (let h : s.page ≡ infer_slab o = ground arith in h) parts apart)
        (λ differ.
          (let other : s.page ≢ infer_slab o = ground arith in
            let (inside, (fewer, (homes, one_less))) =
              free_in-Freed rest parts.1 (λ p. (let a = apart p in omega arith)) (ground arith) in
            (
              (IsPart-elsewhere size held left s (on-other s.page other) parts.0, inside),
              (
                λ p. (let n = fewer p in omega arith),
                (λ a there on. (let n = homes a there in ground arith), omega arith),
              ),
            )))
    where
      by_page :
          (t : Bool)
          → (t ≡ true
              → Freed (s ∷ rest) (
                  if kmem_slab_is_empty (kmem_slab_free o s)
                  then rest
                  else kmem_slab_free o s ∷ rest))
          → (t ≡ false → Freed (s ∷ rest) (s ∷ free_in (infer_slab o) o rest))
          → Freed (s ∷ rest) (
              if t
              then (if kmem_slab_is_empty (kmem_slab_free o s)
                  then rest
                  else kmem_slab_free o s ∷ rest)
              else s ∷ free_in (infer_slab o) o rest)
      by_page true p q = p refl
      by_page false p q = q refl

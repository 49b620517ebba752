-- ===== src/ObjectCache/Alloc.antt =====
-- kernel/mm/cache.c: an object from a slab of the cache, or from a new one.
use vimix_os.Base.{
  ℕ, suc, ◌+◌, ◌%◌, ◌<◌, ◌≤◌, ◌≡◌, ◌≢◌, inl, inr, refl, sym, ap, ◌∙◌, subst, Option, none, some,
  List, [], ◌∷◌, All, arith,
}
use vimix_os.Slab.{page_size, KmemSlab, kmem_slab_alloc}
use vimix_os.Slab.Objects.{count}
use vimix_os.Slab.Holding.{IsValid, alloc-cases, alloc-IsValid}
use vimix_os.ObjectCache.{infer_slab, alloc_in, pick, keep, sum_allocated}
use vimix_os.ObjectCache.Pages.{
  objects_on, slabs_on, IsPart, infer-page, IsPart-elsewhere, parts-elsewhere, objects_on-other,
  objects_on-same,
}

-- No two slabs are in one page.
abbrev pub AreApart : List KmemSlab → Type 0
AreApart l = (p : ℕ) → slabs_on p l ≤ 1

-- What the loop gives: the parts hold one object more, in the page of one of them.
abbrev pub Gave : ℕ → List ℕ → List KmemSlab → Option (ℕ × List KmemSlab) → Type 0
Gave size held l none = Unit
Gave size held l (some (object, slabs)) =
    All (IsPart size (object ∷ held)) slabs
    × (((p : ℕ) → slabs_on p slabs ≡ slabs_on p l)
        × ((0 < slabs_on (infer_slab object) l) × (sum_allocated slabs ≡ suc (sum_allocated l))))

-- A slab with a free object.
pub taken-IsPart :
    (size : ℕ) (held : List ℕ) (s after : KmemSlab) (x : ℕ)
    → 0 < size
    → s.page % page_size ≡ 0
    → IsValid s.page size s (objects_on s.page held)
    → 0 < count x s.free_list
    → after.page ≡ s.page
    → after.objects_allocated ≡ s.objects_allocated + 1
    → kmem_slab_alloc s ≡ (some x, after)
    → IsPart size (x ∷ held) after × (infer_slab x ≡ s.page)
taken-IsPart size held s after x positive aligned valid free same more e =
    let home = infer-page size s (objects_on s.page held) x positive aligned valid (omega arith) in
    let taken = alloc-IsValid s.page size s after (objects_on s.page held) x valid e in
    (
      record {
        aligned = ap (λ p. p % page_size) same ∙ aligned;
        valid =
            subst (λ p. IsValid p size after (objects_on p (x ∷ held))) (sym same)
              (subst (IsValid s.page size after) (sym (objects_on-same s.page x held home)) taken);
        used = omega arith;
      },
      home,
    )

pub alloc_in-Gave :
    (size : ℕ) (held : List ℕ) (l : List KmemSlab)
    → 0 < size
    → All (IsPart size held) l
    → AreApart l
    → Gave size held l (alloc_in l)
unfolding alloc_in slabs_on sum_allocated count
alloc_in-Gave size held [] positive parts apart = tt
alloc_in-Gave size held (s ∷ rest) positive parts apart =
    let rest_apart : AreApart rest = λ p. (let a = apart p in omega arith) in
    let ih = alloc_in-Gave size held rest positive parts.1 rest_apart in
    elim (alloc-cases s) [
      | inl (full, e) ↦
          subst (Gave size held (s ∷ rest)) (ap (λ r. pick r rest (alloc_in rest)) (sym e))
            (kept (alloc_in rest) ih)
      | inr (x, (xs, (first, e))) ↦
          let c = ap (count x) first in
          let (part, home) =
            taken-IsPart size held s
              (record s { free_list = xs; objects_allocated = s.objects_allocated + 1 }) x positive
              parts.0.aligned parts.0.valid (ground arith) refl refl e in
          subst (Gave size held (s ∷ rest)) (ap (λ r. pick r rest (alloc_in rest)) (sym e)) (
            (
              part,
              parts-elsewhere size (infer_slab x) held (x ∷ held) rest
                  (λ p differ. objects_on-other p x held differ)
                  (let a = apart (infer_slab x) in ground arith) parts.1,
            ),
            (λ p. refl, (ground arith, omega arith)),
          )
    ]
  where
    kept :
        (r : Option (ℕ × List KmemSlab))
        → Gave size held rest r
        → Gave size held (s ∷ rest) (keep s r)
    kept none gave = tt
    kept (some (x, l)) (inside, (same, (there, more))) =
        let differ : s.page ≢ infer_slab x = (λ e. let a = apart (infer_slab x) in ground arith) in
        (
          (
            IsPart-elsewhere size held (x ∷ held) s (objects_on-other s.page x held differ) parts.0,
            inside,
          ),
          (λ p. (let e = same p in omega arith), (omega arith, omega arith)),
        )

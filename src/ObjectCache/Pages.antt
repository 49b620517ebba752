-- ===== src/ObjectCache/Pages.antt =====
-- kernel/mm/cache.c: which slab the held objects are in.
use vimix_os.Base.{
  ℕ, ◌+◌, ◌%◌, ◌<◌, ◌≡◌, ◌≢◌, refl, subst, List, [], ◌∷◌, ◌++◌, All, arith, ◌==◌, if◌then◌else◌,
}
use vimix_os.Slab.{page_size, KmemSlab}
use vimix_os.Slab.Objects.{count}
use vimix_os.Slab.Holding.{IsValid}
use vimix_os.ObjectCache.{infer_slab}

-- the objects of a list that are in a page
unfoldable pub objects_on : ℕ → List ℕ → List ℕ
unfolding infer_slab
objects_on page [] = []
objects_on page (a ∷ rest) =
    if infer_slab a == page then a ∷ objects_on page rest else objects_on page rest

-- how many slabs are in a page
unfoldable pub slabs_on : ℕ → List KmemSlab → ℕ
slabs_on page [] = 0
slabs_on page (s ∷ rest) = (if s.page == page then 1 else 0) + slabs_on page rest

-- A slab of a cache, with the objects of its page that callers hold, of which there is one at least.
pub record IsPart (size : ℕ) (held : List ℕ) (s : KmemSlab) : Type 0 where
  pub aligned : s.page % page_size ≡ 0
  pub valid : IsValid s.page size s (objects_on s.page held)
  pub used : 0 < s.objects_allocated

-- An object of a slab tells its page.
pub infer-page :
    (size : ℕ) (s : KmemSlab) (objects : List ℕ) (a : ℕ)
    → 0 < size
    → s.page % page_size ≡ 0
    → IsValid s.page size s objects
    → 0 < count a s.free_list + count a objects
    → infer_slab a ≡ s.page
unfolding infer_slab
infer-page size s objects a positive aligned valid there =
    let p = valid.placed a there in let e = valid.enough in omega arith

pub objects_on-append :
    (page : ℕ) (xs ys : List ℕ)
    → objects_on page (xs ++ ys) ≡ objects_on page xs ++ objects_on page ys
unfolding objects_on
objects_on-append page [] ys = refl
objects_on-append page (x ∷ xs) ys = let ih = objects_on-append page xs ys in ground arith

-- An object elsewhere changes nothing for a slab.
pub IsPart-elsewhere :
    (size : ℕ) (held held' : List ℕ) (s : KmemSlab)
    → objects_on s.page held ≡ objects_on s.page held'
    → IsPart size held s
    → IsPart size held' s
IsPart-elsewhere size held held' s e part = record {
  aligned = part.aligned;
  valid = subst (IsValid s.page size s) e part.valid;
  used = part.used;
}

pub parts-elsewhere :
    (size page : ℕ) (held held' : List ℕ) (l : List KmemSlab)
    → ((p : ℕ) → p ≢ page → objects_on p held ≡ objects_on p held')
    → slabs_on page l ≡ 0
    → All (IsPart size held) l
    → All (IsPart size held') l
unfolding slabs_on
parts-elsewhere size page held held' [] same away parts = tt
parts-elsewhere size page held held' (s ∷ l) same away parts =
    let differ : s.page ≢ page = ground arith in
    (
      IsPart-elsewhere size held held' s (same s.page differ) parts.0,
      parts-elsewhere size page held held' l same (omega arith) parts.1,
    )

pub objects_on-other :
    (page a : ℕ) (held : List ℕ)
    → page ≢ infer_slab a
    → objects_on page held ≡ objects_on page (a ∷ held)
unfolding objects_on infer_slab
objects_on-other page a held differ = ground arith

pub objects_on-same :
    (page a : ℕ) (held : List ℕ)
    → infer_slab a ≡ page
    → objects_on page (a ∷ held) ≡ a ∷ objects_on page held
unfolding objects_on infer_slab
objects_on-same page a held same = ground arith

-- ===== src/ObjectCache/Tests.antt =====
-- kernel/mm/cache.c: a cache with one slab.
use vimix_os.Base.{ℕ, ◌≡◌, refl, subst, ap, Option, none, some, List, [], ◌∷◌, arith, ◌%◌}
use vimix_os.Slab.{KmemSlab, page_size}
use vimix_os.ObjectCache.{KmemCache, kmem_cache_init, kmem_cache_alloc, kmem_cache_free}
use vimix_os.ObjectCache.Pages.{slabs_on}
use vimix_os.ObjectCache.Sound.{IsSound, IsFreshPage, Outcome}
use vimix_os.ObjectCache.Separate.{AreSeparate}
use vimix_os.ObjectCache.Holding.{
  Reachable, created, allocated, Reachable-IsSound, kmem_cache_alloc-Outcome,
}

abbrev cache_with : List KmemSlab → KmemCache
cache_with slabs = record { object_size = 1008; slab_list = slabs }

-- objects of 1000 bytes, of which a page has four
abbrev slab_of : List ℕ → ℕ → KmemSlab
slab_of free_list n = record {
  page = 8192;
  free_list = free_list;
  object_size = 1008;
  objects_allocated = n;
}

init_test : kmem_cache_init 1000 ≡ some (cache_with [])
unfolding kmem_cache_init
init_test = refl

first_test :
    kmem_cache_alloc (some 8192) (cache_with [])
    ≡ some (some 11264, cache_with (slab_of (10256 ∷ 9248 ∷ 8240 ∷ []) 1 ∷ []))
unfolding kmem_cache_alloc
first_test = refl

-- The last object goes back, and the slab with it.
last_test :
    kmem_cache_free 11264 (cache_with (slab_of (10256 ∷ 9248 ∷ 8240 ∷ []) 1 ∷ [])) ≡ cache_with []
unfolding kmem_cache_free
last_test = refl

no_page_test : kmem_cache_alloc none (cache_with []) ≡ some (none, cache_with [])
unfolding kmem_cache_alloc
no_page_test = refl

page_or : ℕ → Option ℕ → ℕ
page_or other none = other
page_or other (some p) = p

first_page : IsFreshPage (some 8192) (cache_with [])
unfolding slabs_on page_or
first_page p e =
    subst (λ q. (q % page_size ≡ 0) × (slabs_on q [] ≡ 0)) (ap (page_or 0) e) (omega arith, refl)

one_held : Reachable 1000 (cache_with (slab_of (10256 ∷ 9248 ∷ 8240 ∷ []) 1 ∷ [])) (11264 ∷ [])
one_held = allocated {object = 11264} (some 8192) (created init_test) first_page first_test

separate_example :
    AreSeparate 1008 (11264 ∷ [])
    × IsSound (cache_with (slab_of (10256 ∷ 9248 ∷ 8240 ∷ []) 1 ∷ [])) (11264 ∷ [])
separate_example =
    Reachable-IsSound 1000 (cache_with (slab_of (10256 ∷ 9248 ∷ 8240 ∷ []) 1 ∷ [])) (11264 ∷ [])
      (omega arith) one_held

cache_outcome_example :
    (r : Option ℕ × KmemCache) × ((kmem_cache_alloc none
          (cache_with (slab_of (10256 ∷ 9248 ∷ 8240 ∷ []) 1 ∷ []))
        ≡ some r)
      × Outcome none (cache_with (slab_of (10256 ∷ 9248 ∷ 8240 ∷ []) 1 ∷ [])) (11264 ∷ []) r)
cache_outcome_example =
    kmem_cache_alloc-Outcome 1000 (cache_with (slab_of (10256 ∷ 9248 ∷ 8240 ∷ []) 1 ∷ []))
      (11264 ∷ []) none (omega arith) one_held (λ p e. absurd (ground arith))

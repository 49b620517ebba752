-- ===== src/Slab/Tests.antt =====
-- A slab for objects of 1000 bytes, for the theorems about kernel/mm/slab.c.
use vimix_os.Base.{ℕ, ◌≡◌, refl, some, List, [], ◌∷◌, arith}
use vimix_os.Slab.{KmemSlab, kmem_slab_create, kmem_slab_alloc, kmem_slab_free}
use vimix_os.Slab.Holding.{Reachable, created, allocated, freed, IsValid, Tells, Reachable-IsValid}

-- a slab in page 8192 for objects of 1000 bytes, of which four fit
abbrev slab_with : List ℕ → ℕ → KmemSlab
slab_with free_list n = record {
  page = 8192;
  free_list = free_list;
  object_size = 1008;
  objects_allocated = n;
}

fits_four : kmem_slab_create 8192 1000 ≡ some (slab_with (11264 ∷ 10256 ∷ 9248 ∷ 8240 ∷ []) 0)
unfolding kmem_slab_create
fits_four = refl

-- Two are allocated and the first of them is given back.
one_held : Reachable 8192 1000 (kmem_slab_free 11264 (slab_with (9248 ∷ 8240 ∷ []) 2)) (10256 ∷ [])
unfolding kmem_slab_alloc
one_held =
    freed 11264 (10256 ∷ []) []
      (allocated {object = 10256} (allocated {object = 11264} (created fits_four) refl) refl) refl
      refl

slab_example :
    IsValid 8192 1000 (kmem_slab_free 11264 (slab_with (9248 ∷ 8240 ∷ []) 2)) (10256 ∷ [])
    × Tells (kmem_slab_free 11264 (slab_with (9248 ∷ 8240 ∷ []) 2)) (10256 ∷ [])
slab_example =
    Reachable-IsValid 8192 1000 (kmem_slab_free 11264 (slab_with (9248 ∷ 8240 ∷ []) 2)) (10256 ∷ [])
      (omega arith) one_held

-- ===== src/ObjectCache.antt =====
-- kernel/mm/cache.c: a cache of objects of one size, on the slabs of kernel/mm/slab.c. Each operation runs
-- under the cache's lock.
pub mod Pages
pub mod Alloc
pub mod Free
pub mod Sound
pub mod Calls
pub mod Separate
pub mod Holding
mod Tests
use vimix_os.Base.{
  ℕ, zero, suc, ◌+◌, ◌*◌, ◌/◌, ltb, Bool, true, false, Option, none, some, List, [], ◌∷◌, ◌++◌,
  ◌==◌, if◌then◌else◌, length,
}
use vimix_os.Slab.{
  page_size, max_slab_size, round_to_min_slab_size, KmemSlab, kmem_slab_create, kmem_slab_alloc,
  kmem_slab_free, kmem_slab_is_empty,
}

-- `struct kmem_cache`
pub record KmemCache : Type 0 where
  pub object_size : ℕ
  pub slab_list : List KmemSlab

-- none for the panic
unfoldable pub kmem_cache_init : ℕ → Option KmemCache
kmem_cache_init requested =
    let size = round_to_min_slab_size requested in
    if ltb max_slab_size size then none else some (record { object_size = size; slab_list = [] })

unfoldable pub keep : KmemSlab → Option (ℕ × List KmemSlab) → Option (ℕ × List KmemSlab)
keep slab none = none
keep slab (some (object, rest)) = some (object, slab ∷ rest)

-- One slab in the loop of kmem_cache_alloc: what it gives, the slabs behind it, and what the loop gets there.
unfoldable pub pick :
    Option ℕ × KmemSlab → List KmemSlab → Option (ℕ × List KmemSlab) → Option (ℕ × List KmemSlab)
unfolding keep
pick (some object, slab) rest later = some (object, slab ∷ rest)
pick (none, slab) rest later = keep slab later

unfoldable pub alloc_in : List KmemSlab → Option (ℕ × List KmemSlab)
unfolding pick kmem_slab_alloc
alloc_in [] = none
alloc_in (slab ∷ rest) = pick (kmem_slab_alloc slab) rest (alloc_in rest)

-- A new slab at the end of the list; none for a panic.
unfoldable pub add_slab : Option KmemSlab → KmemCache → Option (Option ℕ × KmemCache)
unfolding kmem_slab_alloc
add_slab none cache = none
add_slab (some new_slab) cache = some (
  (kmem_slab_alloc new_slab).0,
  record cache { slab_list = cache.slab_list ++ ((kmem_slab_alloc new_slab).1 ∷ []) },
)

-- The page is what the page allocator gives kmem_slab_create.
unfoldable pub grow : Option ℕ → KmemCache → Option (Option ℕ × KmemCache)
unfolding add_slab kmem_slab_create
grow none cache = some (none, cache)
grow (some page) cache = add_slab (kmem_slab_create page cache.object_size) cache

unfoldable pub alloc_found :
    Option ℕ → Option (ℕ × List KmemSlab) → KmemCache → Option (Option ℕ × KmemCache)
unfolding grow
alloc_found page none cache = grow page cache
alloc_found page (some (object, slabs)) cache =
    some (some object, record cache { slab_list = slabs })

unfoldable pub kmem_cache_alloc : Option ℕ → KmemCache → Option (Option ℕ × KmemCache)
unfolding alloc_found alloc_in
kmem_cache_alloc page cache = alloc_found page (alloc_in cache.slab_list) cache

-- `kmem_slab_infer_slab`, the address of the page
unfoldable pub infer_slab : ℕ → ℕ
infer_slab object = object / page_size * page_size

-- A slab that is empty now is taken out and deleted.
unfoldable pub free_in : ℕ → ℕ → List KmemSlab → List KmemSlab
unfolding kmem_slab_free kmem_slab_is_empty
free_in page object [] = []
free_in page object (slab ∷ rest) =
    if slab.page == page
    then (if kmem_slab_is_empty (kmem_slab_free object slab)
        then rest
        else kmem_slab_free object slab ∷ rest)
    else slab ∷ free_in page object rest

unfoldable pub kmem_cache_free : ℕ → KmemCache → KmemCache
unfolding free_in infer_slab
kmem_cache_free object cache = record cache {
  slab_list = free_in (infer_slab object) object cache.slab_list;
}

unfoldable pub kmem_cache_get_slab_count : KmemCache → ℕ
kmem_cache_get_slab_count cache = length cache.slab_list

unfoldable pub sum_allocated : List KmemSlab → ℕ
sum_allocated [] = 0
sum_allocated (slab ∷ rest) = slab.objects_allocated + sum_allocated rest

unfoldable pub kmem_cache_get_object_count : KmemCache → ℕ
unfolding sum_allocated
kmem_cache_get_object_count cache = sum_allocated cache.slab_list

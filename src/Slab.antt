-- ===== src/Slab.antt =====
-- kernel/mm/slab.c: objects of one size in one page. The list of free objects, which is linked through the
-- objects, is a list of their addresses; the contents of objects are left out.
pub mod Objects
pub mod Holding
mod Tests
use vimix_os.Base.{
  ℕ, zero, suc, ◌+◌, ◌-◌, ◌*◌, ◌/◌, leb, ltb, Bool, true, false, Option, none, some, List, [], ◌∷◌,
  ◌==◌, if◌then◌else◌,
}

abbrev pub page_size : ℕ
page_size = 4096

-- `sizeof(struct kmem_slab)` on a 64-bit machine
abbrev pub slab_bytes : ℕ
slab_bytes = 48

abbrev pub max_slab_size : ℕ
max_slab_size = 1280

-- `ROUND_TO_MIN_SLAB_SIZE`
abbrev pub round_to_min_slab_size : ℕ → ℕ
round_to_min_slab_size size = (size + 16 - 1) / 16 * 16

-- `struct kmem_slab`, with the address of its page
pub record KmemSlab : Type 0 where
  pub page : ℕ
  pub free_list : List ℕ
  pub object_size : ℕ
  pub objects_allocated : ℕ

-- the loop that builds the free list, with a number of rounds that is enough
pub add_objects : ℕ → ℕ → ℕ → ℕ → List ℕ → List ℕ
add_objects zero page size next_object free_list = free_list
add_objects (suc rounds) page size next_object free_list =
    let rest =
      add_objects rounds page size (next_object + size) ((page + next_object) ∷ free_list) in
    if leb (next_object + size) page_size then rest else free_list

-- A slab in a page that alloc_page gave; none for the panic.
unfoldable pub kmem_slab_create : ℕ → ℕ → Option KmemSlab
unfolding add_objects
kmem_slab_create page requested =
    let size = round_to_min_slab_size requested in
    if ltb max_slab_size size
    then none
    else some (record {
      page = page;
      free_list = add_objects page_size page size (round_to_min_slab_size slab_bytes) [];
      object_size = size;
      objects_allocated = 0;
    })

-- an allocation by the free list
unfoldable pub take_first : List ℕ → KmemSlab → Option ℕ × KmemSlab
take_first [] slab = (none, slab)
take_first (object ∷ rest) slab =
    (some object, record slab { free_list = rest; objects_allocated = slab.objects_allocated + 1 })

unfoldable pub kmem_slab_alloc : KmemSlab → Option ℕ × KmemSlab
unfolding take_first
kmem_slab_alloc slab = take_first slab.free_list slab

unfoldable pub kmem_slab_free : ℕ → KmemSlab → KmemSlab
kmem_slab_free object slab = record slab {
  free_list = object ∷ slab.free_list;
  objects_allocated = slab.objects_allocated - 1;
}

unfoldable pub kmem_slab_get_max_objects : KmemSlab → ℕ
kmem_slab_get_max_objects slab = (page_size - slab_bytes) / slab.object_size

pub kmem_slab_get_free_count : KmemSlab → ℕ
unfolding kmem_slab_get_max_objects
kmem_slab_get_free_count slab = kmem_slab_get_max_objects slab - slab.objects_allocated

unfoldable pub kmem_slab_is_empty : KmemSlab → Bool
kmem_slab_is_empty slab = slab.objects_allocated == 0

unfoldable pub is_nil : List ℕ → Bool
is_nil [] = true
is_nil (object ∷ rest) = false

pub kmem_slab_is_full : KmemSlab → Bool
unfolding is_nil
kmem_slab_is_full slab = is_nil slab.free_list

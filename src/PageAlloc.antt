-- ===== src/PageAlloc.antt =====
-- kernel/mm/kalloc.c: the buddy allocator of whole pages. `list_of_free_memory` is the list of the
-- free lists by order; a function that works at an order takes the lists from that order up, so that
-- the last list is the one of PAGE_ALLOC_MAX_ORDER and none is left above it.
pub mod Counting
pub mod Alloc
pub mod Free
pub mod Region
mod Tests
use vimix_os.Base.{
  ℕ, zero, suc, ◌+◌, ◌-◌, ◌*◌, ◌/◌, ◌%◌, ◌^◌, min, Bool, true, false, Option, none, some, List, [],
  ◌∷◌, ◌==◌, leb, ltb, ◌&&◌, if◌then◌else◌,
}

abbrev pub page_shift : ℕ
page_shift = 12

abbrev pub page_size : ℕ
page_size = 4096

abbrev pub page_alloc_max_order : ℕ
page_alloc_max_order = 9

-- `PAGE_SIZE * (1 << order)`
abbrev pub bytes : ℕ → ℕ
bytes order = page_size * 2 ^ order

-- `pa ^ (1 << bit_pos)`
pub flip_bit : ℕ → ℕ → ℕ
flip_bit pa bit_pos = if pa / 2 ^ bit_pos % 2 == 0 then pa + 2 ^ bit_pos else pa - 2 ^ bit_pos

-- The left half of a block of the next order is returned and the right half becomes free.
split : ℕ → Option ℕ → List (List ℕ) → Option ℕ × List (List ℕ)
split order none lists = (none, [] ∷ lists)
split order (some double_alloc) lists =
    (some double_alloc, ((double_alloc + bytes order) ∷ []) ∷ lists)

-- `__alloc_pages` on the lists from the order up
pub alloc_from : ℕ → List (List ℕ) → Option ℕ × List (List ℕ)
unfolding split
alloc_from order [] = (none, [])
alloc_from order ((block ∷ blocks) ∷ lists) = (some block, blocks ∷ lists)
alloc_from order ([] ∷ lists) =
    let (double_alloc, lists1) = alloc_from (suc order) lists in split order double_alloc lists1

keep : ℕ → Option (List ℕ) → Option (List ℕ)
keep block none = none
keep block (some blocks) = some (block ∷ blocks)

-- the block at an address taken from a free list
pub get_specific_page : ℕ → List ℕ → Option (List ℕ)
unfolding keep
get_specific_page pa [] = none
get_specific_page pa (block ∷ blocks) =
    let rest = get_specific_page pa blocks in if pa == block then some blocks else keep block rest

pub free_from : ℕ → ℕ → List (List ℕ) → List (List ℕ)
unfolding flip_bit get_specific_page
free_from pa order [] = []
free_from pa order (blocks ∷ []) = (pa ∷ blocks) ∷ []
free_from pa order (blocks ∷ (next ∷ lists)) =
    let buddy = flip_bit pa (page_shift + order) in
    elim (get_specific_page buddy blocks) [
      | none ↦ (pa ∷ blocks) ∷ (next ∷ lists)
      | some blocks1 ↦ blocks1 ∷ free_from (min pa buddy) (suc order) (next ∷ lists)
    ]

-- the allocator's work at `order`, which is `skip` lists above the first
pub alloc_at : ℕ → ℕ → List (List ℕ) → Option ℕ × List (List ℕ)
unfolding alloc_from
alloc_at zero order lists = alloc_from order lists
alloc_at (suc skip) order [] = (none, [])
alloc_at (suc skip) order (blocks ∷ lists) =
    let (pages, lists1) = alloc_at skip order lists in (pages, blocks ∷ lists1)

pub free_at : ℕ → ℕ → ℕ → List (List ℕ) → List (List ℕ)
unfolding free_from
free_at zero pa order lists = free_from pa order lists
free_at (suc skip) pa order [] = []
free_at (suc skip) pa order (blocks ∷ lists) = blocks ∷ free_at skip pa order lists

-- the part of `struct kernel_memory` the page allocator uses
pub record KernelMemory : Type 0 where
  pub list_of_free_memory : List (List ℕ)
  pub pages_allocated : ℕ

-- `atomic_fetch_add` on a size_t
abbrev pub fetch_add : ℕ → ℕ → ℕ
fetch_add count n = (count + n) % 2 ^ 64

account : ℕ → Option ℕ → List (List ℕ) → KernelMemory → Option ℕ × KernelMemory
account order none lists mem =
    (none, record { list_of_free_memory = lists; pages_allocated = mem.pages_allocated })
account order (some pages) lists mem = (
  some pages,
  record {
    list_of_free_memory = lists;
    pages_allocated = fetch_add mem.pages_allocated (2 ^ order);
  },
)

-- The contents of the pages, zeroed on demand, are left out.
pub alloc_pages : ℕ → KernelMemory → Option ℕ × KernelMemory
unfolding alloc_at account
alloc_pages order mem =
    let (pages, lists) = alloc_at order order mem.list_of_free_memory in
    account order pages lists mem

-- `none` is the panic on an invalid order.
pub free_pages : ℕ → ℕ → KernelMemory → Option KernelMemory
unfolding free_at
free_pages kva order mem =
    if ltb page_alloc_max_order order
    then none
    else some record {
      list_of_free_memory = free_at order kva order mem.list_of_free_memory;
      pages_allocated = fetch_add mem.pages_allocated (2 ^ 64 - 2 ^ order);
    }

-- the inner loop of `kalloc_init_memory_region`, with `fuel` orders to the largest one
pub order_of : ℕ → ℕ → ℕ
order_of zero tmp = 0
order_of (suc fuel) tmp =
    let order = order_of fuel (tmp / 2) in if tmp % 2 == 0 then suc order else 0

-- one round of `kalloc_init_memory_region` at `addr` adds this many pages as one block
pub region_order : ℕ → ℕ → ℕ
unfolding order_of
region_order addr mem_end =
    let order = order_of page_alloc_max_order (addr / 2 ^ page_shift) in
    if leb (addr + bytes order) mem_end then order else 0

-- `kalloc_init_memory_region`, for at most `fuel` rounds
pub init_region : ℕ → ℕ → ℕ → KernelMemory → Option KernelMemory
init_region zero addr mem_end mem = some mem
init_region (suc fuel) addr mem_end mem =
    if ltb addr mem_end
    then (let order = region_order addr mem_end in
        elim (free_pages addr order (record {
          list_of_free_memory = mem.list_of_free_memory;
          pages_allocated = fetch_add mem.pages_allocated (2 ^ order);
        })) [ none ↦ none | some mem1 ↦ init_region fuel (addr + bytes order) mem_end mem1 ])
    else some mem

-- each round adds a page or more
pub kalloc_init_memory_region : ℕ → ℕ → KernelMemory → Option KernelMemory
unfolding init_region
kalloc_init_memory_region mem_start mem_end mem =
    init_region ((mem_end - mem_start) / page_size + 1) mem_start mem_end mem

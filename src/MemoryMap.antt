-- ===== src/MemoryMap.antt =====
-- kernel/mm/memory_map.c: the regions of an address space as a list in the order of their virtual
-- addresses. Allocating a region never fails here, addresses are taken not to wrap, and every
-- call of `free_pages_range` is recorded.
pub mod Lookup
pub mod Add
pub mod Split
pub mod Remove
pub mod Ranges
mod Tests
use vimix_os.Base.{
  ◌++◌, ℕ, ◌+◌, ◌-◌, ◌/◌, min, max, ltb, leb, Bool, true, false, not, ◌&&◌, ◌||◌, Option, none,
  some, List, [], ◌∷◌, ◌==◌, if◌then◌else◌,
}

-- `enum MM_Region_Type`
pub data RegionType : Type 0 where
  reserved early_ram usable_ram kernel kernel_text kernel_text_pa kernel_ro_data kernel_data
        kernel_bss dtb initrd mmio :
      RegionType
  user_text user_rw_text user_ro_data user_data user_bss user_stack user_kstack user_trapframe
        user_trampoline :
      RegionType

-- `enum MM_Region_Mapped`
pub data Mapped : Type 0 where
  never_map marked_for_mapping partial_mapped is_mapped marked_for_unmapping : Mapped

-- the numbers of the two enumerations
pub number : RegionType → ℕ
number reserved = 0
number early_ram = 1
number usable_ram = 2
number kernel = 3
number kernel_text = 4
number kernel_text_pa = 5
number kernel_ro_data = 6
number kernel_data = 7
number kernel_bss = 8
number dtb = 9
number initrd = 10
number mmio = 11
number user_text = 12
number user_rw_text = 13
number user_ro_data = 14
number user_data = 15
number user_bss = 16
number user_stack = 17
number user_kstack = 18
number user_trapframe = 19
number user_trampoline = 20

pub mapped_number : Mapped → ℕ
mapped_number never_map = 0
mapped_number marked_for_mapping = 1
mapped_number partial_mapped = 2
mapped_number is_mapped = 3
mapped_number marked_for_unmapping = 4

-- `free_pages` of `g_region_attributes`
pub frees_pages : RegionType → Bool
frees_pages user_text = true
frees_pages user_rw_text = true
frees_pages user_ro_data = true
frees_pages user_data = true
frees_pages user_bss = true
frees_pages user_stack = true
frees_pages user_kstack = true
frees_pages _ = false

-- `struct MM_Region`
pub record Region : Type 0 where
  pub start_pa : ℕ
  pub start_va : ℕ
  pub size : ℕ
  pub type : RegionType
  pub mapped : Mapped
  pub free_on_unmap : Bool

initial_mapping : RegionType → Mapped
initial_mapping reserved = never_map
initial_mapping kernel = never_map
initial_mapping _ = marked_for_mapping

pub mm_region_init : ℕ → ℕ → ℕ → RegionType → Region
unfolding initial_mapping frees_pages
mm_region_init start_pa start_va size type = record {
  start_pa = start_pa;
  start_va = start_va;
  size = size;
  type = type;
  mapped = initial_mapping type;
  free_on_unmap = frees_pages type;
}

abbrev pub end_va : Region → ℕ
end_va r = r.start_va + r.size

abbrev pub end_pa : Region → ℕ
end_pa r = r.start_pa + r.size

pub mm_regions_can_be_merged : Region → Region → Bool
unfolding number mapped_number
mm_regions_can_be_merged a b =
    if not (number a.type == number b.type)
    then false
    else if number a.type == number mmio
    then false
    else if not (mapped_number a.mapped == mapped_number b.mapped)
    then false
    else ((end_va a == b.start_va && end_pa a == b.start_pa)
        || (end_va b == a.start_va && end_pa b == a.start_pa))

pub mm_region_fits_before : Region → Region → Bool
mm_region_fits_before a b = ltb (end_va a - 1) b.start_va

pub mm_regions_merge : Region → Region → Region
mm_regions_merge a b =
    let merged_start_va = min a.start_va b.start_va in
    record a {
      start_va = merged_start_va;
      start_pa = min a.start_pa b.start_pa;
      size = max (end_va a) (end_va b) - merged_start_va;
    }

pub memory_map_add_single_region : Region → List Region → List Region
unfolding mm_regions_can_be_merged mm_region_fits_before mm_regions_merge
memory_map_add_single_region new [] = new ∷ []
memory_map_add_single_region new (region ∷ regions) =
    let rest = memory_map_add_single_region new regions in
    if mm_regions_can_be_merged region new
    then mm_regions_merge region new ∷ regions
    else if mm_region_fits_before new region
    then new ∷ region ∷ regions
    else region ∷ rest

-- the old region behind the new one at its start
abbrev pub shortened : Region → Region → Region
shortened new region = record region {
  start_va = end_va new;
  start_pa = region.start_pa + new.size;
  size = region.size - new.size;
}

-- the old region in front of the new one, and what is left of it behind
abbrev pub front_part : Region → Region → Region
front_part new region = record region { size = new.start_va - region.start_va }

abbrev pub split_region : Region → Region → Region
split_region new region =
    let offset = new.size + (new.start_va - region.start_va) in
    record region {
      start_va = region.start_va + offset;
      start_pa = region.start_pa + offset;
      size = region.size - offset;
    }

pub memory_map_add_single_region_and_split : Region → List Region → List Region
unfolding mm_regions_can_be_merged mm_region_fits_before mm_regions_merge
memory_map_add_single_region_and_split new [] = new ∷ []
memory_map_add_single_region_and_split new (region ∷ regions) =
    let rest = memory_map_add_single_region_and_split new regions in
    if mm_regions_can_be_merged region new
    then mm_regions_merge region new ∷ regions
    else if new.start_va == region.start_va && new.size == region.size
    then new ∷ regions
    else if mm_region_fits_before new region
    then new ∷ region ∷ regions
    else if new.start_va == region.start_va && ltb (end_va new - 1) (end_va region - 1)
    then new ∷ shortened new region ∷ regions
    else if ltb region.start_va new.start_va && ltb (end_va new - 1) (end_va region - 1)
    then (if ltb 0 (split_region new region).size
        then front_part new region ∷ new ∷ split_region new region ∷ regions
        else front_part new region ∷ new ∷ regions)
    else region ∷ rest

pub memory_map_add_region_and_split : ℕ → ℕ → ℕ → RegionType → List Region → List Region
unfolding memory_map_add_single_region_and_split mm_region_init
memory_map_add_region_and_split start_pa start_va size type regions =
    if size == 0
    then regions
    else memory_map_add_single_region_and_split (mm_region_init start_pa start_va size type) regions

-- the calls of `free_pages_range`: a physical address and a number of pages
abbrev pub Freed : Type 0
Freed = List (ℕ × ℕ)

abbrev pub page_size : ℕ
page_size = 4096

freed_if : Bool → ℕ → ℕ → Freed
freed_if b pa bytes = if b then (pa, bytes / page_size) ∷ [] else []

-- `mm_region_remove`: what is freed
pub mm_region_remove : Region → Freed
unfolding freed_if
mm_region_remove r = freed_if r.free_on_unmap r.start_pa r.size

-- A region that shrinks to nothing is removed. The new region lies in the old one.
pub mm_region_resize : Region → ℕ → ℕ → Option Region × Freed
unfolding mm_region_remove freed_if
mm_region_resize r new_start_va new_size =
    let start_offset = new_start_va - r.start_va in
    let end_shrinks = end_va r - (new_start_va + new_size) in
    if new_size == 0 then (none, mm_region_remove r) else (
      some (record r {
        start_va = new_start_va;
        start_pa = r.start_pa + start_offset;
        size = new_size;
      }),
      freed_if (r.free_on_unmap && ltb 0 start_offset) r.start_pa start_offset
          ++ freed_if (r.free_on_unmap && ltb 0 end_shrinks) (end_pa r - end_shrinks) end_shrinks,
    )

-- what the loop of `memory_map_remove_regions` does with a region
pub data Outcome : Type 0 where
  -- what is left of it, and what was freed
  leaves : Option Region × Freed → Outcome
  -- the panic: the region would have to be split
  cannot_split : Outcome

pub remove_from : ℕ → ℕ → Region → Outcome
unfolding mm_region_remove mm_region_resize
remove_from start_va last_va r =
    let region_last_va = end_va r - 1 in
    if leb start_va r.start_va && leb region_last_va last_va
    then leaves (none, mm_region_remove r)
    else if ltb r.start_va start_va && (ltb start_va region_last_va && leb region_last_va last_va)
    then leaves (mm_region_resize r r.start_va (start_va - r.start_va))
    else if leb start_va r.start_va && (ltb r.start_va last_va && leb last_va region_last_va)
    then (let offset = last_va - r.start_va + 1 in
        leaves (mm_region_resize r (r.start_va + offset) (r.size - offset)))
    else if ltb r.start_va start_va && ltb last_va region_last_va
    then cannot_split
    else leaves (some r, [])

-- the region that is left, if any, in front of the others
pub put_back : Option Region → List Region → List Region
put_back none regions = regions
put_back (some r) regions = r ∷ regions

-- the rest of the loop runs behind a region unless it panics
pub joined : Outcome → Option (List Region × Freed) → Option (List Region × Freed)
unfolding put_back
joined cannot_split rest = none
joined (leaves (left, freed)) none = none
joined (leaves (left, freed)) (some (regions, freed1)) =
    some (put_back left regions, freed ++ freed1)

pub remove_all : ℕ → ℕ → List Region → Option (List Region × Freed)
unfolding remove_from joined
remove_all start_va last_va [] = some ([], [])
remove_all start_va last_va (r ∷ regions) =
    joined (remove_from start_va last_va r) (remove_all start_va last_va regions)

-- the regions left and the pages freed
pub memory_map_remove_regions : ℕ → ℕ → List Region → Option (List Region × Freed)
unfolding remove_all
memory_map_remove_regions start_va size regions = remove_all start_va (start_va + size - 1) regions

-- `memory_map_free`
pub memory_map_free : List Region → Freed
unfolding mm_region_remove
memory_map_free [] = []
memory_map_free (r ∷ regions) = mm_region_remove r ++ memory_map_free regions

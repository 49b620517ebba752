-- ===== src/MemoryMap/Tests.antt =====
-- Concrete maps for the theorems about kernel/mm/memory_map.c.
use Prim.{tt}
use vimix_os.Base.{◌≡◌, inl, inr, refl, some, List, [], ◌∷◌, All, arith}
use vimix_os.MemoryMap.{
  Region, usable_ram, kernel_text, user_data, user_stack, mm_region_init, mm_regions_can_be_merged,
  memory_map_add_single_region, memory_map_add_single_region_and_split, memory_map_remove_regions,
  Freed,
}
use vimix_os.MemoryMap.Lookup.{Ordered, Apart}
use vimix_os.MemoryMap.Add.{Maps, memory_map_add_single_region-Maps}
use vimix_os.MemoryMap.Split.{Fits, add_and_split-Maps}
use vimix_os.MemoryMap.Remove.{Removable}
use vimix_os.MemoryMap.Ranges.{Removes, memory_map_remove_regions-Removes}

abbrev data_region : Region
data_region = mm_region_init 81920 8192 16384 user_data

abbrev stack_region : Region
stack_region = mm_region_init 409600 65536 8192 user_stack

abbrev more_data : Region
more_data = mm_region_init 98304 24576 8192 user_data

abbrev two_regions : List Region
two_regions = data_region ∷ stack_region ∷ []

abbrev ram : Region
ram = mm_region_init 0 0 1048576 usable_ram

abbrev text : Region
text = mm_region_init 65536 65536 8192 kernel_text

-- the RAM from 128 KiB up
abbrev high_ram : Region
high_ram = mm_region_init 131072 131072 917504 usable_ram

abbrev last_text : Region
last_text = mm_region_init 1040384 1040384 8192 kernel_text

two_regions-Ordered : Ordered 0 two_regions
unfolding mm_region_init
two_regions-Ordered = (omega arith, (omega arith, (omega arith, (omega arith, tt))))

more_data-Apart : All (Apart more_data) two_regions
unfolding mm_region_init
more_data-Apart = (inr (omega arith), (inl (omega arith), tt))

Maps_example : Maps 0 more_data two_regions (memory_map_add_single_region more_data two_regions)
unfolding mm_region_init
Maps_example =
    memory_map_add_single_region-Maps 0 more_data two_regions two_regions-Ordered (omega arith)
      (omega arith) more_data-Apart

text-Fits : All (Fits text) (ram ∷ [])
unfolding mm_region_init mm_regions_can_be_merged
text-Fits = (record { unmerged = refl; placed = inr (inr (omega arith, omega arith)) }, tt)

split-Maps_example : Maps 0 text (ram ∷ []) (memory_map_add_single_region_and_split text (ram ∷ []))
unfolding mm_region_init
split-Maps_example =
    add_and_split-Maps 0 text (ram ∷ []) (omega arith, (omega arith, tt)) (omega arith)
      (omega arith) text-Fits

two_regions-Removable : All (Removable 16384 53248) two_regions
unfolding mm_region_init
two_regions-Removable = (
  record {
    start_page = refl;
    size_page = refl;
    positive = omega arith;
    unsplit = λ h. omega arith;
  },
  (
    record {
      start_page = refl;
      size_page = refl;
      positive = omega arith;
      unsplit = λ h. absurd (omega arith);
    },
    tt,
  ),
)

Removes_example :
    (result : List Region × Freed) × ((memory_map_remove_regions 16384 53248 two_regions
        ≡ some result)
      × Removes 16384 53248 0 two_regions result.0 result.1)
Removes_example =
    memory_map_remove_regions-Removes 16384 53248 0 two_regions refl refl (omega arith)
      two_regions-Ordered two_regions-Removable

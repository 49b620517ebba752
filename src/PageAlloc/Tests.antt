-- ===== src/PageAlloc/Tests.antt =====
-- The tests of kernel/mm/kalloc.c on a memory whose only free block has four pages.
use vimix_os.Base.{◌*◌, ℕ, ◌+◌, ◌-◌, ◌^◌, ◌≤◌, ◌≡◌, refl, some, [], ◌∷◌, arith}
use vimix_os.PageAlloc.{
  page_size, bytes, KernelMemory, alloc_pages, free_pages, fetch_add, kalloc_init_memory_region,
}
use vimix_os.PageAlloc.Counting.{inside, holders, AreAligned, AllAligned, IsValid}
use vimix_os.PageAlloc.Alloc.{Allocated, alloc_pages-Takes}
use vimix_os.PageAlloc.Region.{Added, kalloc_init_memory_region-Added}
use vimix_os.PageAlloc.Free.{free_pages-Gives}

abbrev empty_memory : KernelMemory
empty_memory = record {
  list_of_free_memory = [] ∷ [] ∷ [] ∷ [] ∷ [] ∷ [] ∷ [] ∷ [] ∷ [] ∷ [] ∷ [];
  pages_allocated = 5;
}

abbrev one_block : KernelMemory
one_block = record {
  list_of_free_memory = [] ∷ [] ∷ (16384 ∷ []) ∷ [] ∷ [] ∷ [] ∷ [] ∷ [] ∷ [] ∷ [] ∷ [];
  pages_allocated = 5;
}

abbrev a_page_taken : KernelMemory
a_page_taken = record {
  list_of_free_memory = (20480 ∷ []) ∷ (24576 ∷ []) ∷ [] ∷ [] ∷ [] ∷ [] ∷ [] ∷ [] ∷ [] ∷ [] ∷ [];
  pages_allocated = 6;
}

takes_left_page : alloc_pages 0 one_block ≡ (some 16384, a_page_taken)
unfolding alloc_pages
takes_left_page = refl

merges_again : free_pages 16384 0 a_page_taken ≡ some one_block
unfolding free_pages
merges_again = refl

one_region : kalloc_init_memory_region 16384 32768 empty_memory ≡ some one_block
unfolding kalloc_init_memory_region free_pages vimix_os.PageAlloc.region_order
one_region = refl

no_blocks : {order : ℕ} → AreAligned order []
no_blocks = AreAligned.nil

above_two : {order : ℕ} → AllAligned order ([] ∷ [] ∷ [] ∷ [] ∷ [] ∷ [] ∷ [] ∷ [])
above_two = AllAligned.cons no_blocks (
    AllAligned.cons no_blocks (
      AllAligned.cons no_blocks (
        AllAligned.cons no_blocks (
          AllAligned.cons no_blocks
            (AllAligned.cons no_blocks (AllAligned.cons no_blocks AllAligned.nil))))))

one_block_holders : (x : ℕ) → holders x 0 one_block.list_of_free_memory ≤ 1
unfolding holders
one_block_holders x = ground arith

one_block-IsValid : IsValid one_block
one_block-IsValid = record {
  orders = refl;
  aligned =
      AllAligned.cons no_blocks (
        AllAligned.cons no_blocks
          (AllAligned.cons (AreAligned.cons (1, refl) no_blocks) above_two));
  disjoint = one_block_holders;
}

alloc_pages-Takes_example :
    let (answer, mem1) = alloc_pages 0 one_block in Allocated 0 one_block answer mem1
alloc_pages-Takes_example = alloc_pages-Takes 0 one_block one_block-IsValid

beside : (x : ℕ) → inside x 32768 (bytes 1) + holders x 0 one_block.list_of_free_memory ≤ 1
unfolding holders
beside x = ground arith

free_pages-Gives_example :
    (mem1 : KernelMemory) × ((free_pages 32768 1 one_block ≡ some mem1)
      × (IsValid mem1
          × ((mem1.pages_allocated ≡ fetch_add 5 (2 ^ 64 - 2 ^ 1))
              × ((x : ℕ)
                  → holders x 0 mem1.list_of_free_memory
                    ≡ inside x 32768 (bytes 1) + holders x 0 one_block.list_of_free_memory))))
free_pages-Gives_example =
    free_pages-Gives 32768 1 one_block one_block-IsValid (omega arith) (4, refl) beside

in_range :
    (x : ℕ)
    → inside x (8 * page_size) ((16 - 8) * page_size) + holders x 0 one_block.list_of_free_memory
      ≤ 1
unfolding holders
in_range x = ground arith

region_example :
    Added 8 16 one_block (kalloc_init_memory_region (8 * page_size) (16 * page_size) one_block)
region_example = kalloc_init_memory_region-Added 8 16 one_block one_block-IsValid in_range

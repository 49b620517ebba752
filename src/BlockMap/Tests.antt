-- ===== src/BlockMap/Tests.antt =====
-- A small disk with an empty file, for the theorems about kernel/fs/vimixfs/bmap.c.
use vimix_os.Base.{ℕ, ◌≡◌, refl, ltb, some, [], arith}
use vimix_os.BlockMap.{Volume, block_alloc_init, alloc_from, scan_bits, bmap_get_block_address}
use vimix_os.BlockMap.Alloc.{Allocates, block_alloc_init-Allocates}
use vimix_os.BlockMap.Slots.{Slot, top, single, double, leaf, at, IsValid}
use vimix_os.BlockMap.Gives.{Gives}
use vimix_os.BlockMap.Lookup.{slot, bmap_get_block_address-Gives}

-- 100 blocks, of which 10 are in use
abbrev disk : Volume
disk = record {
  size = 100;
  bmapstart = 5;
  bit = λ k i. ltb i 10;
  words = λ b k. 0;
  logged = [];
  addrs = λ i. 0;
}

disk-IsValid : IsValid disk
unfolding at
disk-IsValid = record {
  boot = refl;
  used = λ u there. absurd (there (empty u));
  unshared = λ t u e there. absurd (there (empty t));
}
  where
    empty : (u : Slot) → at u disk ≡ 0
    empty (top i) = refl
    empty (single j) = refl
    empty (double i) = refl
    empty (leaf i j) = refl

takes_tenth : (block_alloc_init disk).0 ≡ 10
unfolding block_alloc_init alloc_from scan_bits
takes_tenth = refl

alloc_example : let (a, after) = block_alloc_init disk in Allocates disk a after
alloc_example = block_alloc_init-Allocates disk refl

-- block 300 is behind the double indirect block
lookup_example :
    (result : ℕ × Volume) × ((bmap_get_block_address 300 disk ≡ some result)
      × Gives (slot 300) disk result.0 result.1)
lookup_example = bmap_get_block_address-Gives 300 disk disk-IsValid (omega arith)

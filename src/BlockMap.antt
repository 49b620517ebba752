-- ===== src/BlockMap.antt =====
-- kernel/fs/vimixfs/bmap.c: the blocks of a file and the bitmap they are allocated from, for one
-- inode. `bit k i` is bit i % 8 of byte i / 8 of the bitmap's k-th block; the words of other blocks are
-- those of the buffers. A wait for a buffer changes nothing here.
pub mod Alloc
pub mod Free
pub mod Slots
pub mod Store
pub mod Gives
pub mod Lookup
mod Tests
use vimix_os.Base.{
  ℕ, zero, suc, ◌+◌, ◌-◌, ◌*◌, ◌/◌, ◌%◌, ltb, Bool, true, false, not, ◌&&◌, Option, none, some,
  List, [], ◌∷◌, ◌==◌, if◌then◌else◌,
}

-- `VIMIXFS_BMAP_BITS_PER_BLOCK`, `VIMIXFS_N_DIRECT_BLOCKS`, `VIMIXFS_N_INDIRECT_BLOCKS`
abbrev pub bits_per_block : ℕ
bits_per_block = 8192

abbrev pub n_direct : ℕ
n_direct = 20

abbrev pub n_indirect : ℕ
n_indirect = 256

abbrev pub indirect_idx : ℕ
indirect_idx = 20

abbrev pub double_indirect_idx : ℕ
double_indirect_idx = 21

-- the super block, the bitmap, the words of blocks, the block numbers given to `log_write` (latest
-- first), and the `addrs` of the inode
pub record Volume : Type 0 where
  pub size : ℕ
  pub bmapstart : ℕ
  pub bit : ℕ → ℕ → Bool
  pub words : ℕ → ℕ → ℕ
  pub logged : List ℕ
  pub addrs : ℕ → ℕ

abbrev pub update {ℓ} : {A : Type ℓ} → ℕ → A → (ℕ → A) → ℕ → A
update i v f j = if j == i then v else f j

abbrev pub log_write : ℕ → Volume → Volume
log_write b s = record s { logged = b ∷ s.logged }

pub block_zero : ℕ → Volume → Volume
block_zero b s = log_write b (record s { words = update b (λ _. 0) s.words })

-- the inner loop from bit bi on, of a bitmap block whose first bit is block b's
pub scan_bits : ℕ → ℕ → ℕ → (ℕ → Bool) → ℕ → Option ℕ
scan_bits zero bi b bits size = none
scan_bits (suc n) bi b bits size =
    let rest = scan_bits n (suc bi) b bits size in
    if ltb bi bits_per_block && ltb (b + bi) size
    then (if not (bits bi) then some bi else rest)
    else none

-- the bit set and logged, and the block zeroed
pub take_block : ℕ → ℕ → Volume → Volume
unfolding block_zero
take_block b bi s =
    let k = b / bits_per_block in
    block_zero (b + bi)
      (log_write (k + s.bmapstart) (record s { bit = update k (update bi true (s.bit k)) s.bit }))

-- what a round of the outer loop gives, from its inner loop and the rounds behind it
pub found : Option ℕ → ℕ → Volume → ℕ × Volume → ℕ × Volume
unfolding take_block
found none b s rest = rest
found (some bi) b s rest = (b + bi, take_block b bi s)

-- the outer loop, with a number of rounds that is enough
pub alloc_from : ℕ → ℕ → Volume → ℕ × Volume
unfolding found
alloc_from zero b s = (0, s)
alloc_from (suc n) b s =
    let rest = alloc_from n (b + bits_per_block) s in
    if ltb b s.size
    then found (scan_bits bits_per_block 0 b (s.bit (b / bits_per_block)) s.size) b s rest
    else (0, s)

pub block_alloc_init : Volume → ℕ × Volume
block_alloc_init s = alloc_from s.size 0 s

-- `block_free`
pub block_free : ℕ → Volume → Volume
block_free block_id s =
    let k = block_id / bits_per_block in
    let local_id = block_id % bits_per_block in
    log_write (k + s.bmapstart)
      (record s { bit = update k (update local_id false (s.bit k)) s.bit })

-- where an array of addresses stands: in the inode, or in the buffer of a block
pub data Place : Type 0 where
  in_inode : Place
  in_block : ℕ → Place

pub read : Place → ℕ → Volume → ℕ
read in_inode i s = s.addrs i
read (in_block b) i s = s.words b i

pub write : Place → ℕ → ℕ → Volume → Volume
write in_inode i addr s = record s { addrs = update i addr s.addrs }
write (in_block b) i addr s = record s { words = update b (update i addr (s.words b)) s.words }

-- the address, whether one was stored, and the volume
pub bmap_from_block_range : Place → ℕ → Volume → ℕ × Bool × Volume
unfolding read write
bmap_from_block_range p block_number s =
    let addr = read p block_number s in
    let (new, after) = block_alloc_init s in
    if addr == 0
    then (if not (new == 0) then (new, true, write p block_number new after) else (0, false, after))
    else (addr, false, s)

pub bmap_from_block : ℕ → ℕ → Volume → ℕ × Volume
unfolding bmap_from_block_range
bmap_from_block ib_addr block_number s =
    let (addr, did_allocate, after) = bmap_from_block_range (in_block ib_addr) block_number s in
    if ib_addr == 0 then (0, s) else (addr, if did_allocate then log_write ib_addr after else after)

-- `if (addrs[i] == 0) addrs[i] = block_alloc_init()`
pub with_block : ℕ → Volume → Volume
unfolding write
with_block i s =
    let (new, after) = block_alloc_init s in
    if s.addrs i == 0 then write in_inode i new after else s

-- The address of the n-th block of the file, allocated when there is none: 0 when the disk is
-- full, and no result for the panic.
pub bmap_get_block_address : ℕ → Volume → Option (ℕ × Volume)
unfolding bmap_from_block_range bmap_from_block with_block
bmap_get_block_address n s =
    let (direct, _, after) = bmap_from_block_range in_inode n s in
    let n1 = n - n_direct in
    let s1 = with_block indirect_idx s in
    let n2 = n1 - n_indirect in
    let s2 = with_block double_indirect_idx s in
    let (indirect_block, s3) =
      bmap_from_block (s2.addrs double_indirect_idx) (n2 / n_indirect) s2 in
    if ltb n n_direct
    then some (direct, after)
    else if ltb n1 n_indirect
    then some (bmap_from_block (s1.addrs indirect_idx) n1 s1)
    else if ltb n2 (n_indirect * n_indirect)
    then some (bmap_from_block indirect_block (n2 % n_indirect) s3)
    else none

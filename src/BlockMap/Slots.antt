-- ===== src/BlockMap/Slots.antt =====
-- kernel/fs/vimixfs/bmap.c: the addresses that an inode holds, directly and in its indirect blocks.
use vimix_os.Base.{ℕ, ◌≡◌, ◌≢◌, Bool, true, false, ◌&&◌, arith, ◌==◌, if◌then◌else◌, ap, ◌∙◌}
use vimix_os.BlockMap.{Volume, indirect_idx, double_indirect_idx}
use vimix_os.BlockMap.Alloc.{in_use}

-- An address of the inode, of its indirect block, of its double indirect block, and of an
-- indirect block that the last one names.
pub data Slot : Type 0 where
  top : ℕ → Slot
  single : ℕ → Slot
  double : ℕ → Slot
  leaf : ℕ → ℕ → Slot

unfoldable pub same : Slot → Slot → Bool
same (top i) (top j) = i == j
same (single i) (single j) = i == j
same (double i) (double j) = i == j
same (leaf i k) (leaf j l) = i == j && k == l
same _ _ = false

pub same_sound : (t u : Slot) → same t u ≡ true → t ≡ u
unfolding same
same_sound (top i) (top j) h = ap top (ground arith)
same_sound (single i) (single j) h = ap single (ground arith)
same_sound (double i) (double j) h = ap double (ground arith)
same_sound (leaf i k) (leaf j l) h =
    let e : i ≡ j = ground arith in
    let f : k ≡ l = ground arith in ap (λ z. leaf z k) e ∙ ap (leaf j) f
same_sound (top i) (single j) h = absurd (ground arith)
same_sound (top i) (double j) h = absurd (ground arith)
same_sound (top i) (leaf j l) h = absurd (ground arith)
same_sound (single i) (top j) h = absurd (ground arith)
same_sound (single i) (double j) h = absurd (ground arith)
same_sound (single i) (leaf j l) h = absurd (ground arith)
same_sound (double i) (top j) h = absurd (ground arith)
same_sound (double i) (single j) h = absurd (ground arith)
same_sound (double i) (leaf j l) h = absurd (ground arith)
same_sound (leaf i k) (top j) h = absurd (ground arith)
same_sound (leaf i k) (single j) h = absurd (ground arith)
same_sound (leaf i k) (double j) h = absurd (ground arith)

pub same_refl : (t : Slot) → same t t ≡ true
unfolding same
same_refl (top i) = ground arith
same_refl (single i) = ground arith
same_refl (double i) = ground arith
same_refl (leaf i k) = ground arith

-- the word of a block, if there is a block
abbrev pub through : (ℕ → ℕ → ℕ) → ℕ → ℕ → ℕ
through words a i = if a == 0 then 0 else words a i

-- The address at a slot; 0 when there is none.
unfoldable pub at : Slot → Volume → ℕ
at (top i) s = s.addrs i
at (single j) s = through s.words (s.addrs indirect_idx) j
at (double i) s = through s.words (s.addrs double_indirect_idx) i
at (leaf i j) s = through s.words (through s.words (s.addrs double_indirect_idx) i) j

-- Block 0 is in use, and every block that the file holds is in use and is held once. The model's blocks
-- have words behind their 256, of which the same is asked.
pub record IsValid (s : Volume) : Type 0 where
  pub boot : in_use s 0 ≡ true
  pub used : (u : Slot) → at u s ≢ 0 → in_use s (at u s) ≡ true
  pub unshared : (t u : Slot) → at t s ≡ at u s → at t s ≢ 0 → same t u ≡ true

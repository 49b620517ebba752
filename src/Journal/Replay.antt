-- ===== src/Journal/Replay.antt =====
-- What the loops of kernel/fs/vimixfs/log.c that copy blocks between the log and their home
-- locations do to the disk.
use vimix_os.Base.{
  ℕ, ◌+◌, ◌≤◌, ◌<◌, ◌≡◌, refl, ap, ◌∙◌, ◌⊎◌, inl, inr, Bool, true, false, ◌||◌, List, [], ◌∷◌,
  arith, length, ◌==◌, if◌then◌else◌, All, Bool-cases,
}
use vimix_os.BlockStore.{Block, Disk, Store, update, put_block, unpin, boot, update_ne}
use vimix_os.Journal.{
  write_head, read_head, install_trans, recover_from_log, decode_head, encode_head,
}

unfoldable pub contains : ℕ → List ℕ → Bool
contains b [] = false
contains b (c ∷ blocks) = b == c || contains b blocks

-- `d` with the logged blocks at their new contents
unfoldable pub overlay : List ℕ → Disk → Disk → Disk
unfolding contains
overlay blocks new d b = if contains b blocks then new b else d b

pub overlay-update :
    (new : Disk) (blocks : List ℕ) (b : ℕ) (x : Block) (d : Disk) (c : ℕ)
    → x ≡ new b
    → overlay blocks new (update d b x) c ≡ overlay (b ∷ blocks) new d c
unfolding overlay
overlay-update new blocks b x d c e = elim (Bool-cases (contains c blocks)) [
  | inl old ↦ rw old (ground arith)
  | inr other ↦ elim (Bool-cases (c == b)) [ inl same ↦ ground (arith, e) | inr ne ↦ ground arith ]
]

-- A log of `n` entries after the header at `start`.
module _ (start n : ℕ) where
  -- a block outside the log
  abbrev pub IsHome : ℕ → Type 0
  IsHome b = (b < start) ⊎ (start + n < b)

  -- a home block, or the header
  abbrev pub IsOther : ℕ → Type 0
  IsOther b = (b ≤ start) ⊎ (start + n < b)

  pub IsHome-IsOther : (b : ℕ) → IsHome b → IsOther b
  IsHome-IsOther b (inl h) = inl (omega arith)
  IsHome-IsOther b (inr h) = inr h

  -- the entries from `tail` on hold the new contents of `blocks`
  abbrev pub Holds : Disk → Disk → List ℕ → ℕ → Type 0
  Holds d new [] tail = Unit
  Holds d new (b ∷ blocks) tail = (d (start + tail + 1) ≡ new b) × Holds d new blocks (tail + 1)

  pub Holds-update :
      (d new : Disk) (blocks : List ℕ) (tail : ℕ) (c : ℕ) (x : Block)
      → IsOther c
      → tail + length blocks ≤ n
      → Holds d new blocks tail
      → Holds (update d c x) new blocks tail
  Holds-update d new [] tail c x out fit h = tt
  Holds-update d new (b ∷ blocks) tail c x out fit h =
      (ground (arith, h.0), Holds-update d new blocks (tail + 1) c x out (omega arith) h.1)

  -- Installing puts each logged block at its home, and changes no other home block.
  pub install_trans-disk :
      (recovering : Bool) (new : Disk) (blocks : List ℕ) (tail : ℕ) (s : Store) (c : ℕ)
      → All IsHome blocks
      → tail + length blocks ≤ n
      → Holds s.view new blocks tail
      → (install_trans start recovering blocks tail s).disk c ≡ overlay blocks new s.disk c
  unfolding install_trans overlay
  install_trans-disk recovering new [] tail s c homes fit h = refl
  install_trans-disk true new (b ∷ blocks) tail s c homes fit h =
      install_trans-disk true new blocks (tail + 1) (put_block b (s.view (start + tail + 1)) s) c
        homes.1 (omega arith)
        (Holds-update s.view new blocks (tail + 1) b _ (IsHome-IsOther b homes.0) (omega arith) h.1)
      ∙ overlay-update new blocks b (s.view (start + tail + 1)) s.disk c h.0
  install_trans-disk false new (b ∷ blocks) tail s c homes fit h =
      install_trans-disk false new blocks (tail + 1)
        (unpin b (put_block b (s.view (start + tail + 1)) s)) c homes.1 (omega arith)
        (Holds-update s.view new blocks (tail + 1) b _ (IsHome-IsOther b homes.0) (omega arith) h.1)
      ∙ overlay-update new blocks b (s.view (start + tail + 1)) s.disk c h.0

  -- Recovery from a disk whose header names `blocks` and whose entries hold their new contents
  -- gives every home block its new contents, whatever it held.
  pub recover-overlay :
      (new : Disk) (blocks : List ℕ) (d : Disk) (c : ℕ)
      → All IsHome blocks
      → length blocks ≤ n
      → IsHome c
      → decode_head (d start) ≡ blocks
      → Holds d new blocks 0
      → (recover_from_log start (boot d)).disk c ≡ overlay blocks new d c
  unfolding recover_from_log write_head read_head
  recover-overlay new blocks d c homes fit out head h =
      update_ne (install_trans start true (decode_head (d start)) 0 (boot d)).disk start
        (encode_head []) c (ground arith)
      ∙ ap (λ l. (install_trans start true l 0 (boot d)).disk c) head
      ∙ install_trans-disk true new blocks 0 (boot d) c homes (omega arith) h

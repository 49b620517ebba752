-- ===== src/Journal.antt =====
-- kernel/fs/vimixfs/log.c: the redo log of a vimixfs file system. This file has the disk side: the
-- header block, `commit` and the recovery at mount time.
pub mod Header
pub mod Replay
pub mod Writes
pub mod Prefix
pub mod Crash
mod Tests
use vimix_os.Base.{
  ℕ, zero, suc, ◌+◌, Bool, true, false, List, [], ◌∷◌, ◌++◌, if◌then◌else◌, get_or, take, drop,
  replicate, length,
}
use vimix_os.BlockStore.{Block, Store, put_block, unpin}

-- words in a block
abbrev pub block_words : ℕ
block_words = 256

-- the buffer of `write_head`: zeroed, then `n` and the block numbers stored
pub encode_head : List ℕ → Block
encode_head blocks = take block_words (length blocks ∷ (blocks ++ replicate block_words 0))

-- `read_head`: `n`, then the first `n` entries of the array
pub decode_head : Block → List ℕ
decode_head b = take (get_or b 0 0) (drop 1 b)

-- The log's first block is the header; the entries follow it.
module _ (start : ℕ) where
  pub write_head : List ℕ → Store → Store
  write_head blocks s = put_block start (encode_head blocks) s

  pub read_head : Store → List ℕ
  read_head s = decode_head (s.view start)

  -- `write_log` from entry `tail` on
  pub write_log : List ℕ → ℕ → Store → Store
  write_log [] tail s = s
  write_log (b ∷ blocks) tail s =
      write_log blocks (tail + 1) (put_block (start + tail + 1) (s.view b) s)

  -- `install_trans` from entry `tail` on
  pub install_trans : Bool → List ℕ → ℕ → Store → Store
  install_trans recovering [] tail s = s
  install_trans recovering (b ∷ blocks) tail s =
      let s' = put_block b (s.view (start + tail + 1)) s in
      install_trans recovering blocks (tail + 1) (if recovering then s' else unpin b s')

  pub recover_from_log : Store → Store
  unfolding install_trans write_head read_head
  recover_from_log s = write_head [] (install_trans true (read_head s) 0 s)

  -- `commit` of the logged blocks; with none it does nothing
  pub commit : List ℕ → Store → Store
  unfolding install_trans write_head write_log
  commit [] s = s
  commit (b ∷ blocks) s =
      write_head []
        (install_trans false (b ∷ blocks) 0 (write_head (b ∷ blocks) (write_log (b ∷ blocks) 0 s)))

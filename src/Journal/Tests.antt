-- ===== src/Journal/Tests.antt =====
-- Runs of `commit` and of the recovery of kernel/fs/vimixfs/log.c, and the theorems at a small disk.
use vimix_os.Base.{ℕ, ◌≡◌, refl, ◌⊎◌, List, [], ◌∷◌, arith, take, drop}
use vimix_os.BlockStore.{Disk, Store, Write, apply}
use vimix_os.Journal.{commit, recover_from_log, encode_head, decode_head}
use vimix_os.Journal.Header.{decode_head-encode_head}
use vimix_os.Journal.Replay.{overlay}
use vimix_os.Journal.Crash.{MountsTo, commit-Atomic, recover-Restarts}

-- a disk of empty blocks, whose log at block 2 is clear; the buffers hold new contents
abbrev dirty : Store
dirty = record { view = λ b. b ∷ []; disk = λ _. []; writes = []; pins = λ _. 1 }

abbrev two_blocks : List ℕ
two_blocks = 20 ∷ 21 ∷ []

abbrev all_writes : List Write
all_writes =
    (3, 20 ∷ [])
    ∷ (4, 21 ∷ [])
    ∷ (2, encode_head two_blocks)
    ∷ (20, 20 ∷ [])
    ∷ (21, 21 ∷ [])
    ∷ (2, encode_head [])
    ∷ []

commit_order : (commit 2 two_blocks dirty).writes ≡ all_writes
unfolding commit
commit_order = refl

commit_unpins : (commit 2 two_blocks dirty).pins 21 ≡ 0
unfolding commit
commit_unpins = refl

decode_head-encode_head_example : decode_head (encode_head two_blocks) ≡ two_blocks
decode_head-encode_head_example = decode_head-encode_head two_blocks (omega arith)

-- A power failure after the header and one home block.
commit-Atomic_example :
    MountsTo 2 5 (apply (take 4 all_writes) dirty.disk) dirty.disk
    ⊎ MountsTo 2 5 (apply (take 4 all_writes) dirty.disk) (overlay two_blocks dirty.view dirty.disk)
unfolding commit decode_head
commit-Atomic_example =
    commit-Atomic 2 5 20 (21 ∷ []) dirty (omega arith) (omega arith) (omega arith) refl
      (take 4 all_writes) (drop 4 all_writes) refl refl

-- the disk with a committed log
abbrev committed_disk : Disk
committed_disk = apply (take 3 all_writes) dirty.disk

recover-Restarts_example :
    MountsTo 2 5
      (apply ((20, 20 ∷ []) ∷ []) committed_disk)
      (overlay two_blocks dirty.view committed_disk)
unfolding recover_from_log encode_head decode_head
recover-Restarts_example =
    recover-Restarts 2 5 dirty.view two_blocks (omega arith) (omega arith) (omega arith)
      committed_disk ((20, 20 ∷ []) ∷ []) ((21, 21 ∷ []) ∷ (2, encode_head []) ∷ []) refl
      (refl, (refl, tt)) refl

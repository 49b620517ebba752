-- ===== src/Transactions/Full.antt =====
-- A log that its clients fill: kernel/fs/vimixfs/log.c counts `nlog` entries, but the header takes
-- one of the `nlog` blocks that mkfs (usr/bin/mkfs/libvimixfs.c) lays out.
use vimix_os.Base.{
  ℕ, suc, ◌+◌, ◌≡◌, refl, subst, true, false, List, [], ◌∷◌, ◌++◌, arith, length, length-append,
  All, Option-cases, inl, inr, leb,
}
use vimix_os.BlockStore.{Store}
use vimix_os.Journal.{write_log}
use vimix_os.Journal.Replay.{IsHome, Holds}
use vimix_os.Journal.Writes.{write_log-Logs}
use vimix_os.Transactions.{Log, find_client, is_logged, log_write, logged, panicked}

Holds-last :
    (start n : ℕ) (d new : ℕ → List ℕ) (blocks : List ℕ) (b tail : ℕ)
    → Holds start n d new (blocks ++ (b ∷ [])) tail
    → d (start + tail + length blocks + 1) ≡ new b
Holds-last start n d new [] b tail h =
    let e : start + tail + 1 ≡ start + tail + 0 + 1 = omega arith in subst (λ k. d k ≡ new b) e h.0
Holds-last start n d new (c ∷ blocks) b tail h =
    let e : start + (tail + 1) + length blocks + 1 ≡ start + tail + suc (length blocks) + 1 =
      omega arith in
    subst (λ k. d k ≡ new b) e (Holds-last start n d new blocks b (tail + 1) h.1)

-- With as many entries as `nlog`, none of them logged for the header's block at `start` or one of the
-- `nlog` blocks behind it, write_log puts what the last logged block holds at `start` + `nlog`.
pub full_log_overruns :
    (start : ℕ) (blocks : List ℕ) (b : ℕ) (s : Store)
    → All (IsHome start (length blocks + 1)) (blocks ++ (b ∷ []))
    → let nlog = length blocks + 1 in
      (write_log start (blocks ++ (b ∷ [])) 0 s).view (start + nlog) ≡ s.view b
full_log_overruns start blocks b s homes =
    let n = length blocks + 1 in
    let all = blocks ++ (b ∷ []) in
    let log =
      write_log-Logs start n s.view all 0 s homes (omega (arith, length-append blocks (b ∷ [])))
        (λ c h. refl) in
    let e : start + 0 + length blocks + 1 ≡ start + (length blocks + 1) = omega arith in
    subst (λ k. (write_log start all 0 s).view k ≡ s.view b) e
      (Holds-last start n (write_log start all 0 s).view s.view blocks b 0 log.held)

grows_by_one :
    (pid b : ℕ) (log : Log) (s : Store) {log' : Log} {s' : Store}
    → is_logged b log.lh_block ≡ false
    → log_write pid b log s ≡ logged log' s'
    → (length log'.lh_block ≡ length log.lh_block + 1) × (log'.size ≡ log.size)
unfolding log_write
grows_by_one pid b log s {log'} {s'} new e = elim (Option-cases (find_client pid log.clients)) [
  | inl missing ↦ absurd (ground arith)
  | inr (i, found) ↦ ground (arith, length-append log.lh_block (b ∷ []))
]

-- Where a process logged a new block and it filled the log, a further `log_write` by that process panics,
-- even for the block just logged.
pub full_log_panics :
    (pid b c : ℕ) (log : Log) (s : Store) {log' : Log} {s' : Store}
    → is_logged b log.lh_block ≡ false
    → length log.lh_block + 1 ≡ log.size
    → log_write pid b log s ≡ logged log' s'
    → log_write pid c log' s' ≡ panicked
unfolding log_write
full_log_panics pid b c log s {log'} {s'} new last e =
    let (longer, same) = grows_by_one pid b log s new e in
    let full : leb log'.size (length log'.lh_block) ≡ true = ground arith in rw full

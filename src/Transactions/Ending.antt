-- ===== src/Transactions/Ending.antt =====
-- The end of a transaction in kernel/fs/vimixfs/log.c: a client leaves, the last one commits.
use vimix_os.Base.{
  ℕ, ◌+◌, ◌%◌, ◌^◌, ◌<◌, ◌≡◌, ◌≢◌, refl, sym, ◌∙◌, inl, inr, Bool, true, false, some, List, [], ◌∷◌,
  arith, length, get_or, length-set, Bool-cases, ◌==◌,
}
use vimix_os.BlockStore.{Store}
use vimix_os.Transactions.{
  Log, find_client, available, leave, commit_log, Ended, left, commits, end_locked, end_commit,
}
use vimix_os.Transactions.Slots.{
  busy, AreSlots-set, AreSlots-get, sum-set, busy-leave, busy-le, all_idle, get_or-le-sum,
  find_client_found,
}
use vimix_os.Transactions.Inv.{IsValid, available_exact}

leave-IsValid :
    {log : Log} (i : ℕ)
    → IsValid log
    → i < length log.clients
    → get_or log.clients i 0 ≢ 0
    → IsValid (leave i log)
leave-IsValid {log} i v lt ne =
    let got = AreSlots-get log.clients log.blocks_used log.blocks_reserved i v.slots lt in
    let no_wrap : (log.used_old + get_or log.blocks_used i 0) % 2 ^ 32
        ≡ log.used_old + get_or log.blocks_used i 0 =
      omega (arith, v.fits, v.size_int, got.0, get_or-le-sum log.blocks_reserved i) in
    record {
      slots =
          AreSlots-set log.clients log.blocks_used log.blocks_reserved i 0 0 0 v.slots (omega arith)
            (λ e. refl);
      four = length-set log.clients i 0 ∙ v.four;
      size_int = v.size_int;
      counted = omega (arith, v.counted, no_wrap, sum-set log.blocks_used i 0 got.1);
      fits = omega (arith, v.fits, no_wrap, got.0, sum-set log.blocks_reserved i 0 got.2);
      running =
          omega (arith, v.running, v.four, busy-leave log.clients i lt ne, busy-le log.clients);
    }

-- How `log_end_fs_transaction` leaves the log under the lock: others go on, or nobody is left,
-- nothing is reserved, and every block in the log belongs to a past client.
abbrev pub Leaves : Ended → Type 0
Leaves Ended.unknown_client = ⊥
Leaves (left log) = IsValid log × (log.outstanding ≢ 0)
Leaves (commits log) =
    IsValid log
    × (log.committing ≡ true)
    × (busy log.clients ≡ 0)
    × (log.used_old ≡ length log.lh_block)

committing-IsValid : {log : Log} (c : Bool) → IsValid log → IsValid (record log { committing = c })
committing-IsValid c v = record {
  slots = v.slots;
  four = v.four;
  size_int = v.size_int;
  counted = v.counted;
  fits = v.fits;
  running = v.running;
}

-- Ending a transaction keeps the invariant, and the last client to leave starts the commit.
pub end_locked-Leaves :
    (pid : ℕ) (log : Log) {i : ℕ}
    → IsValid log
    → pid ≢ 0
    → find_client pid log.clients ≡ some i
    → Leaves (end_locked pid log)
unfolding end_locked
end_locked-Leaves pid log {i} v ne found =
    let (lt, mine) = find_client_found pid log.clients i found in
    let v' = leave-IsValid i v lt (λ e. ne (sym mine ∙ e)) in
    elim (Bool-cases ((leave i log).outstanding == 0)) [
      | inl last ↦
          let none_left : busy (leave i log).clients ≡ 0 = ground (arith, v'.running) in
          let idle =
            all_idle (leave i log).clients (leave i log).blocks_used (leave i log).blocks_reserved
              v'.slots none_left in
          rw (found, end_locked, last)
            (committing-IsValid true v', refl, none_left, omega (arith, v'.counted, idle.0))
      | inr others ↦ rw (found, end_locked, others) (v', λ e. ground arith)
    ]

-- Whether the log was empty or not, it is empty after `commit`.
commit_log-empties :
    (log : Log) (s : Store) (blocks : List ℕ)
    → log.lh_block ≡ blocks
    → log.used_old ≡ length blocks
    → (commit_log log s).0 ≡ record log { lh_block = []; used_old = 0 }
unfolding commit_log
commit_log-empties log s [] e old = rw (e, commit_log) (ground (arith, e, old))
commit_log-empties log s (b ∷ blocks) e old = rw (e, commit_log)

-- The commit that follows the last client empties the log, and the whole of it can be reserved
-- again.
pub end_commit-frees :
    (log : Log) (s : Store)
    → IsValid log
    → busy log.clients ≡ 0
    → let log' = (end_commit log s).0 in
      IsValid log' × (log'.lh_block ≡ []) × (log'.committing ≡ false) × (available log' ≡ log.size)
unfolding end_commit
end_commit-frees log s v idle =
    let none_left = all_idle log.clients log.blocks_used log.blocks_reserved v.slots idle in
    let emptied : Log = record log { lh_block = []; used_old = 0; committing = false } in
    let v' : IsValid emptied = record {
      slots = v.slots;
      four = v.four;
      size_int = v.size_int;
      counted = omega (arith, none_left.0);
      fits = omega (arith, none_left.1);
      running = v.running;
    } in
    rw (commit_log-empties log s log.lh_block refl (omega (arith, v.counted, none_left.0)))
      (v', refl, refl, omega (arith, available_exact v', none_left.1))

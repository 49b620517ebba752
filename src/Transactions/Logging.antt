-- ===== src/Transactions/Logging.antt =====
-- `log_write` of kernel/fs/vimixfs/log.c for a client that keeps to its reservation.
use vimix_os.Base.{
  ℕ, ◌+◌, ◌%◌, ◌^◌, ◌<◌, ◌≡◌, ◌≢◌, refl, sym, ◌∙◌, inl, inr, true, false, some, List, [], ◌∷◌, ◌++◌,
  arith, length, get_or, length-append, Bool-cases, leb,
}
use vimix_os.BlockStore.{Store}
use vimix_os.Transactions.{
  Log, find_client, Logged, logged, panicked, is_logged, none_outstanding, append_block, log_write,
}
use vimix_os.Transactions.Slots.{
  AreSlots-get, sum-set, busy-leave, busy-le, sum_used-lt, get_or-le-sum, AreSlots-set_used,
  find_client_found,
}
use vimix_os.Transactions.Inv.{IsValid}

append_block-IsValid :
    {log : Log} (b i : ℕ)
    → IsValid log
    → i < length log.clients
    → get_or log.blocks_used i 0 < get_or log.blocks_reserved i 0
    → IsValid (append_block b i log)
append_block-IsValid {log} b i v lt room =
    let got = AreSlots-get log.clients log.blocks_used log.blocks_reserved i v.slots lt in
    let used' = (get_or log.blocks_used i 0 + 1) % 2 ^ 32 in
    let small : used' ≡ get_or log.blocks_used i 0 + 1 =
      omega (arith, get_or-le-sum log.blocks_reserved i) in
    record {
      slots =
          AreSlots-set_used log.clients log.blocks_used log.blocks_reserved i used' v.slots
            (omega arith);
      four = v.four;
      size_int = v.size_int;
      counted = omega (
        arith,
        length-append log.lh_block (b ∷ []),
        v.counted,
        sum-set log.blocks_used i used' got.1,
        small,
      );
      fits = v.fits;
      running = v.running;
    }

is_logged-append : (b : ℕ) (blocks : List ℕ) → is_logged b (blocks ++ (b ∷ [])) ≡ true
unfolding is_logged
is_logged-append b [] = ground arith
is_logged-append b (c ∷ blocks) = ground (arith, is_logged-append b blocks)

-- What a client that keeps to its reservation gets from `log_write`.
abbrev pub Records : ℕ → Log → Logged → Type 0
Records b log (logged log' s') =
    IsValid log'
    × (is_logged b log'.lh_block ≡ true)
    × (log'.clients ≡ log.clients)
    × (log'.blocks_reserved ≡ log.blocks_reserved)
Records b log panicked = ⊥
Records b log Logged.unknown_client = ⊥

-- A client with blocks of its reservation left can log any block: no panic, the block is in the
-- log afterwards, and the reservations still fit.
pub log_write-Records :
    (pid b : ℕ) (log : Log) (s : Store) {i : ℕ}
    → IsValid log
    → pid ≢ 0
    → find_client pid log.clients ≡ some i
    → get_or log.blocks_used i 0 < get_or log.blocks_reserved i 0
    → Records b log (log_write pid b log s)
unfolding log_write
log_write-Records pid b log s {i} v ne found room =
    let (lt, mine) = find_client_found pid log.clients i found in
    let more = sum_used-lt log.clients log.blocks_used log.blocks_reserved i v.slots room in
    let not_full : leb log.size (length log.lh_block) ≡ false =
      ground (arith, v.counted, v.fits, more) in
    let active : none_outstanding log ≡ false = ground (
      arith,
      v.running,
      busy-leave log.clients i lt (λ e. ne (sym mine ∙ e)),
      busy-le log.clients,
      v.four,
    ) in
    elim (Bool-cases (is_logged b log.lh_block)) [
      | inl old ↦ rw (not_full, active, old) (v, old, refl, refl)
      | inr new ↦
          rw (not_full, active, new, found)
            (append_block-IsValid b i v lt room, is_logged-append b log.lh_block, refl, refl)
    ]

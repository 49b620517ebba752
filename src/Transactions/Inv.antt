-- ===== src/Transactions/Inv.antt =====
-- The reservations of the log of kernel/fs/vimixfs/log.c: each call keeps them within the log.
use vimix_os.Base.{
  ℕ, ◌+◌, ◌%◌, ◌^◌, ◌≤◌, ◌<◌, ◌≡◌, ◌≢◌, refl, ◌∙◌, inl, inr, min, some, arith, length, get_or,
  length-set, get_or-set_self, Option-cases,
}
use vimix_os.Transactions.{
  Log, max_clients, initial, find_client, available, started, enter, begin, client_available,
}
use vimix_os.Transactions.Slots.{
  sum, busy, AreSlots, AreSlots-set, AreSlots-get, sum-set, busy-enter, busy-le, sum_used-le,
  find_client_found, add_all-sum,
}

pub record IsValid (log : Log) : Type 0 where
  pub slots : AreSlots log.clients log.blocks_used log.blocks_reserved
  pub four : length log.clients ≡ max_clients
  pub size_int : log.size < 2 ^ 31
  -- the blocks in the log are those that past and present clients have used
  pub counted : length log.lh_block ≡ log.used_old + sum log.blocks_used
  -- what is used and what is reserved fits
  pub fits : log.used_old + sum log.blocks_reserved ≤ log.size
  pub running : log.outstanding ≡ busy log.clients

-- A log that `log_init` sets up has room for all its blocks.
pub initial-IsValid : (start size : ℕ) → size < 2 ^ 31 → IsValid (initial start size)
unfolding sum busy
initial-IsValid start size h = record {
  slots = omega arith;
  four = refl;
  size_int = h;
  counted = refl;
  fits = omega arith;
  running = refl;
}

-- What `log->size - reserved` says is the room left: the subtraction does not wrap.
pub available_exact :
    {log : Log} → IsValid log → available log + (log.used_old + sum log.blocks_reserved) ≡ log.size
unfolding available
available_exact {log} v = omega (arith, add_all-sum log.used_old log.blocks_reserved (omega arith))

-- `lh_n` stays within the log's size.
pub logged-le-size : {log : Log} → IsValid log → length log.lh_block ≤ log.size
logged-le-size {log} v =
    omega (arith, sum_used-le log.clients log.blocks_used log.blocks_reserved v.slots)

enter-IsValid :
    {log : Log} (pid i reserve : ℕ)
    → IsValid log
    → pid ≢ 0
    → i < length log.clients
    → get_or log.clients i 0 ≡ 0
    → reserve ≤ available log
    → IsValid (enter pid i reserve log)
enter-IsValid {log} pid i reserve v ne lt free le =
    let got = AreSlots-get log.clients log.blocks_used log.blocks_reserved i v.slots lt in
    let room = available_exact v in
    record {
      slots =
          AreSlots-set log.clients log.blocks_used log.blocks_reserved i pid 0 (reserve % 2 ^ 32)
            v.slots (omega arith) (λ e. absurd (ne e));
      four = length-set log.clients i pid ∙ v.four;
      size_int = v.size_int;
      counted = omega (arith, v.counted, got.0, got.3 free, sum-set log.blocks_used i 0 got.1);
      fits = omega (
        arith,
        v.fits,
        got.3 free,
        sum-set log.blocks_reserved i (reserve % 2 ^ 32) got.2,
        room,
        le,
      );
      running =
          omega (
            arith,
            busy-enter log.clients i pid lt free ne,
            busy-le log.clients,
            v.running,
            v.four,
          );
    }

begin_started :
    (log : Log) {log' : Log} (pid request_min request_ideal : ℕ) {i : ℕ}
    → begin pid request_min request_ideal log ≡ started i log'
    → (request_min ≤ available log)
      × (find_client 0 log.clients ≡ some i)
      × (log' ≡ enter pid i (min (available log) request_ideal) log)
unfolding begin
begin_started log {log'} pid request_min request_ideal {i} e =
    elim (Option-cases (find_client 0 log.clients)) [
      | inl full ↦ absurd (ground arith)
      | inr (j, found) ↦ ground arith
    ]

-- In a log that is valid, where the process id is not 0, a transaction that begins keeps the log valid,
-- so the reservations fit in it, and gets a slot in its name. It may use the smaller of what is
-- available and the ideal it asked for, and so at least the smaller of its minimum and its ideal.
pub begin-IsValid :
    {log log' : Log} (pid request_min request_ideal : ℕ) {i : ℕ}
    → IsValid log
    → pid ≢ 0
    → begin pid request_min request_ideal log ≡ started i log'
    → IsValid log'
      × (get_or log'.clients i 0 ≡ pid)
      × (min request_min request_ideal ≤ client_available i log')
      × (client_available i log' ≡ min (available log) request_ideal)
unfolding client_available
begin-IsValid {log} {log'} pid request_min request_ideal {i} v ne e =
    let (enough, found, is_log') = begin_started log pid request_min request_ideal e in
    let (lt, free) = find_client_found 0 log.clients i found in
    let got = AreSlots-get log.clients log.blocks_used log.blocks_reserved i v.slots lt in
    let granted = min (available log) request_ideal in
    let room = available_exact v in
    rw is_log' (
      enter-IsValid pid i granted v ne lt free (omega arith),
      get_or-set_self log.clients i pid 0 lt,
      omega (
        arith,
        enough,
        get_or-set_self log.blocks_reserved i (granted % 2 ^ 32) 0 got.2,
        get_or-set_self log.blocks_used i 0 0 got.1,
        room,
        v.size_int,
      ),
      omega (
        arith,
        get_or-set_self log.blocks_reserved i (granted % 2 ^ 32) 0 got.2,
        get_or-set_self log.blocks_used i 0 0 got.1,
        room,
        v.size_int,
      ),
    )

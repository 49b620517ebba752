-- ===== src/Transactions.antt =====
-- kernel/fs/vimixfs/log.c: the log's state in memory, shared by at most four clients, and the calls
-- that begin a transaction, log a block and end a transaction. The log's spin lock orders them.
pub mod Slots
pub mod Inv
pub mod Logging
pub mod Ending
pub mod Full
mod Tests
use vimix_os.Base.{
  ℕ, zero, suc, ◌+◌, ◌-◌, ◌%◌, ◌^◌, min, Bool, true, false, not, ◌||◌, Option, none, some, List, [],
  ◌∷◌, ◌++◌, ◌==◌, ltb, leb, if◌then◌else◌, get_or, set, length, replicate,
}
use vimix_os.BlockStore.{Store, pin}
use vimix_os.Journal.{commit, read_head, recover_from_log}

abbrev pub max_clients : ℕ
max_clients = 4

-- `struct log`; `lh_block` is the used part of the array, so `lh_n` is its length. The 32-bit
-- counters are their bit patterns.
pub record Log : Type 0 where
  pub start : ℕ
  pub size : ℕ
  pub outstanding : ℕ
  pub committing : Bool
  pub lh_block : List ℕ
  pub clients : List ℕ
  pub blocks_used : List ℕ
  pub blocks_reserved : List ℕ
  pub used_old : ℕ

-- `log_init` up to the recovery; the file system's private data was zeroed by its allocation
abbrev pub initial : ℕ → ℕ → Log
initial start size = record {
  start = start;
  size = size;
  outstanding = 0;
  committing = false;
  lh_block = [];
  clients = replicate max_clients 0;
  blocks_used = replicate max_clients 0;
  blocks_reserved = replicate max_clients 0;
  used_old = 0;
}

-- `log_init`: a log left on the disk is replayed first
pub init : ℕ → ℕ → Store → Log × Store
init start size s = (initial start size, recover_from_log start s)

-- `log_client_from_pid`; with pid 0 also the search for a free slot
pub find_client : ℕ → List ℕ → Option ℕ
find_client pid [] = none
find_client pid (c ∷ clients) =
    let rest = find_client pid clients in
    if c == pid then some 0 else elim rest [ none ↦ none | some i ↦ some (suc i) ]

-- the loop that adds up the reserved blocks, in `size_t`
pub add_all : ℕ → List ℕ → ℕ
add_all acc [] = acc
add_all acc (x ∷ xs) = add_all ((acc + x) % 2 ^ 64) xs

-- `log->size - reserved`, in `size_t`
pub available : Log → ℕ
unfolding add_all
available log = (log.size + 2 ^ 64 - add_all log.used_old log.blocks_reserved) % 2 ^ 64

pub data Begun : Type 0 where
  -- `sleep(log, &log->lock)`
  asleep : Begun
  -- the slot of the new client
  started : ℕ → Log → Begun

abbrev pub enter : ℕ → ℕ → ℕ → Log → Log
enter pid i reserve log = record log {
  clients = set log.clients i pid;
  blocks_reserved = set log.blocks_reserved i (reserve % 2 ^ 32);
  blocks_used = set log.blocks_used i 0;
  outstanding = (log.outstanding + 1) % 2 ^ 32;
}

-- One round of the loop of `log_begin_fs_transaction_explicit`.
pub begin : ℕ → ℕ → ℕ → Log → Begun
unfolding available find_client
begin pid request_min request_ideal log =
    if log.committing
    then asleep
    else if ltb (available log) request_min
    then asleep
    else elim (find_client 0 log.clients) [
      | none ↦ asleep
      | some i ↦ started i (enter pid i (min (available log) request_ideal) log)
    ]

pub data Logged : Type 0 where
  -- a call of `panic`
  panicked : Logged
  -- `client` is -1: stopped in debug builds, an access out of bounds in others
  unknown_client : Logged
  logged : Log → Store → Logged

pub is_logged : ℕ → List ℕ → Bool
is_logged b [] = false
is_logged b (c ∷ blocks) = c == b || is_logged b blocks

-- `log->outstanding < 1` on a signed counter
abbrev pub none_outstanding : Log → Bool
none_outstanding log = log.outstanding == 0 || leb (2 ^ 31) log.outstanding

abbrev pub append_block : ℕ → ℕ → Log → Log
append_block b i log = record log {
  lh_block = log.lh_block ++ (b ∷ []);
  blocks_used = set log.blocks_used i ((get_or log.blocks_used i 0 + 1) % 2 ^ 32);
}

pub log_write : ℕ → ℕ → Log → Store → Logged
unfolding is_logged find_client
log_write pid b log s =
    if leb log.size (length log.lh_block)
    then panicked
    else if none_outstanding log
    then panicked
    else if is_logged b log.lh_block
    then logged log s
    else elim (find_client pid log.clients) [
      | none ↦ unknown_client
      | some i ↦ logged (append_block b i log) (pin b s)
    ]

-- `log_get_client_available_blocks`
pub client_available : ℕ → Log → ℕ
client_available i log =
    (get_or log.blocks_reserved i 0 + 2 ^ 64 - get_or log.blocks_used i 0) % 2 ^ 64

-- the part of `log_end_fs_transaction` under the lock, for the client in slot `i`
abbrev pub leave : ℕ → Log → Log
leave i log = record log {
  outstanding = (log.outstanding + 2 ^ 32 - 1) % 2 ^ 32;
  clients = set log.clients i 0;
  used_old = (log.used_old + get_or log.blocks_used i 0) % 2 ^ 32;
  blocks_used = set log.blocks_used i 0;
  blocks_reserved = set log.blocks_reserved i 0;
}

-- `commit` with its effect on the log's state
pub commit_log : Log → Store → Log × Store
commit_log log s = elim log.lh_block [
  | [] ↦ (log, s)
  | _ ∷ _ ↦ (record log { lh_block = []; used_old = 0 }, commit log.start log.lh_block s)
]

pub data Ended : Type 0 where
  unknown_client : Ended
  -- others are still at work; `wakeup(log)`
  left : Log → Ended
  -- the last one commits; `committing` is set meanwhile
  commits : Log → Ended

pub end_locked : ℕ → Log → Ended
unfolding find_client
end_locked pid log = elim (find_client pid log.clients) [
  | none ↦ unknown_client
  | some i ↦
      if (leave i log).outstanding == 0
      then commits (record (leave i log) { committing = true })
      else left (leave i log)
]

-- what follows when the last client commits
pub end_commit : Log → Store → Log × Store
unfolding commit_log
end_commit log s = let (log', s') = commit_log log s in (record log' { committing = false }, s')

-- ===== src/Transactions/Tests.antt =====
-- Runs of the log's calls of kernel/fs/vimixfs/log.c, and the theorems at concrete states.
use vimix_os.Base.{◌≤◌, ◌≡◌, refl, [], ◌∷◌, arith, get_or, min}
use vimix_os.BlockStore.{Store, boot, pin}
use vimix_os.Journal.{write_log}
use vimix_os.Transactions.{
  Log, initial, find_client, begin, started, enter, log_write, logged, panicked, append_block,
  client_available, available, is_logged,
}
use vimix_os.Transactions.Inv.{IsValid, initial-IsValid, begin-IsValid}
use vimix_os.Transactions.Logging.{Records, log_write-Records}
use vimix_os.Transactions.Full.{full_log_overruns, full_log_panics}

-- a log of 5 blocks at block 2, as mkfs makes it for a tiny disk
abbrev fresh : Log
fresh = initial 2 5

abbrev one_client : Log
one_client = enter 7 0 5 fresh

abbrev one_block : Log
one_block = append_block 20 0 one_client

-- disk blocks that hold their own number
abbrev store : Store
store = boot (λ b. b ∷ [])

grants_whole_log : begin 7 1 10 fresh ≡ started 0 one_client
unfolding begin
grants_whole_log = refl

logs_block : log_write 7 20 one_client store ≡ logged one_block (pin 20 store)
unfolding log_write
logs_block = refl

one_client-IsValid : IsValid one_client
one_client-IsValid =
    (begin-IsValid 7 1 10 (initial-IsValid 2 5 (omega arith)) (omega arith) grants_whole_log).0

begin-IsValid_example :
    IsValid one_client
    × (get_or one_client.clients 0 0 ≡ 7)
    × (min 1 10 ≤ client_available 0 one_client)
    × (client_available 0 one_client ≡ min (available fresh) 10)
begin-IsValid_example =
    begin-IsValid 7 1 10 (initial-IsValid 2 5 (omega arith)) (omega arith) grants_whole_log

log_write-Records_example : Records 20 one_client (log_write 7 20 one_client store)
unfolding find_client
log_write-Records_example =
    log_write-Records 7 20 one_client store {i = 0} one_client-IsValid (omega arith) refl
      (omega arith)

-- Two blocks fill a log that mkfs gave two blocks, at 2 and 3; the second goes to block 4.
full_log_overruns_example : (write_log 2 (20 ∷ 21 ∷ []) 0 store).view 4 ≡ 21 ∷ []
full_log_overruns_example = full_log_overruns 2 (20 ∷ []) 21 store (omega arith)

full_log_panics_example : log_write 7 20 (record one_block { size = 1 }) (pin 20 store) ≡ panicked
unfolding is_logged log_write
full_log_panics_example =
    full_log_panics 7 20 20 (record one_client { size = 1 }) store refl refl refl

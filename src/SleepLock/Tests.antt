-- ===== src/SleepLock/Tests.antt =====
-- kernel/lib/sleeplock.c with two processes.
use vimix_os.Base.{ℕ, zero, suc, ◌≡◌, ◌↔◌, ◌⊎◌, refl, some, arith}
use vimix_os.SleepLock.{
  outside, wants, asleep, tries, holds, unlocks, SleepLock, sleep_lock_init, goes, step, advance,
  Reachable, start, calls_lock, advances,
}
use vimix_os.SleepLock.Safety.{HasLock, ComesTo, sleep_lock-Excludes, sleeper-Woken}
use vimix_os.SleepLock.Progress.{GoesOn, sleep_lock-GoesOn}
use vimix_os.SleepLock.Invariant.{is_sleeping}
use vimix_os.SleepLock.Waking.{run, wakeup-Wakes}
use vimix_os.Base.{Bool-cases, inl, inr, ◌==◌, false}
use vimix_os.SleepLock.{put}

-- some steps of one process
abbrev rounds : ℕ → ℕ → SleepLock → SleepLock
rounds zero i s = s
rounds (suc n) i s = rounds n i (advance 2 i s)

rounds-Reachable : (n i : ℕ) {s : SleepLock} → Reachable 2 s → Reachable 2 (rounds n i s)
rounds-Reachable zero i r = r
rounds-Reachable (suc n) i r = rounds-Reachable n i (advances i r)

-- Process 0 has the lock and process 1 sleeps.
abbrev asleep_state : SleepLock
asleep_state = rounds 4 1 (goes wants 1 (rounds 3 0 (goes wants 0 sleep_lock_init)))

asleep-Reachable : Reachable 2 asleep_state
unfolding sleep_lock_init advance step
asleep-Reachable =
    rounds-Reachable 4 1 (
      calls_lock 1 (rounds-Reachable 3 0 (calls_lock 0 start (omega arith) refl)) (omega arith)
        refl)

asleep_test : (asleep_state.phase 0 ≡ holds) × (asleep_state.phase 1 ≡ asleep)
unfolding sleep_lock_init advance step
asleep_test = (refl, refl)

-- It is awake when the other has unlocked, and gets the lock.
awake_test : (rounds 4 1 (rounds 5 0 (goes unlocks 0 asleep_state))).phase 1 ≡ holds
unfolding sleep_lock_init advance step
awake_test = refl

-- An attempt does not wait.
try_test : (rounds 2 1 (goes tries 1 (rounds 3 0 (goes wants 0 sleep_lock_init)))).phase 1 ≡ outside
unfolding sleep_lock_init advance step
try_test = refl

excludes_example :
    ((i j : ℕ) → HasLock asleep_state i → HasLock asleep_state j → i ≡ j)
    × ((i : ℕ) → HasLock asleep_state i ↔ (asleep_state.owner ≡ some i))
excludes_example = sleep_lock-Excludes 2 asleep_state asleep-Reachable

woken_example : ((j : ℕ) × HasLock asleep_state j) ⊎ ComesTo asleep_state 1
unfolding sleep_lock_init advance step
woken_example = sleeper-Woken 2 1 asleep_state asleep-Reachable refl

progress_example : GoesOn 2 asleep_state
unfolding sleep_lock_init advance step
progress_example = sleep_lock-GoesOn 2 1 asleep_state asleep-Reachable (ground arith)

-- Process 0 has unlocked and is in the loop of `wakeup`.
abbrev waking_state : SleepLock
waking_state = rounds 2 0 (goes unlocks 0 asleep_state)

no_guard : (x : ℕ) → waking_state.guard x ≡ false
unfolding sleep_lock_init advance step put
no_guard x = elim (Bool-cases (1 == x)) [ inl one ↦ ground arith | inr other ↦ ground arith ]

wakeup_example : is_sleeping ((run 2 0 2 waking_state).state 1) ≡ false
unfolding sleep_lock_init advance step
wakeup_example =
    wakeup-Wakes 2 1 0 0 waking_state refl (omega arith) (omega arith) (ground arith) no_guard

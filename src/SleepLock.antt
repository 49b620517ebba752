-- ===== src/SleepLock.antt =====
-- kernel/lib/sleeplock.c and the functions sleep, wakeup and proc_send_signal of kernel/kernel/proc.c, for
-- the processes that use one sleep lock. Their code runs in steps, in any order. What a process does under
-- a process's own lock is one step where no other lock changes hands in it; the locks of the process list
-- are left out, and SLEEPING is to sleep on the channel of this sleep lock.
pub mod Invariant
pub mod Steps
pub mod Sleeping
pub mod Advance
pub mod Safety
pub mod Progress
pub mod Waking
mod Tests
use vimix_os.Base.{
  ℕ, zero, suc, ◌+◌, ◌<◌, ◌≡◌, Bool, true, false, Option, none, some, ltb, ◌==◌, if◌then◌else◌,
}

-- where a process is between two steps
pub data Phase : Type 0 where
  -- in code that neither holds nor asks for the lock
  outside : Phase
  -- `sleep_lock` at its `spin_lock`, and behind it
  wants tests : Phase
  -- `sleep` behind its `spin_lock` on the process, and behind the `spin_unlock` of the other lock
  drops marks : Phase
  -- `sched` in `sleep`
  asleep : Phase
  -- `sleep_trylock` at its `spin_trylock`, and behind it
  tries probes : Phase
  -- `locked` is set, and not yet unlocked the spin lock
  grabs : Phase
  -- in code that holds the sleep lock
  holds : Phase
  -- `sleep_unlock` at its `spin_lock`, and behind it
  unlocks clears : Phase
  -- `wakeup` at a process of the list
  wakes : ℕ → Phase

-- `enum process_state`, as far as sleeping goes
pub data RunState : Type 0 where
  running runnable sleeping : RunState

-- `struct sleeplock`, and of each process its lock, its state and its place in the code
pub record SleepLock : Type 0 where
  -- which process holds the spin lock `lk`
  pub inner : Option ℕ
  -- `locked`, with the process that `pid` names
  pub owner : Option ℕ
  pub phase : ℕ → Phase
  pub state : ℕ → RunState
  -- whether the process holds its own `proc->lock`
  pub guard : ℕ → Bool

unfoldable pub put {ℓ} : {A : Type ℓ} → ℕ → A → (ℕ → A) → ℕ → A
put i v f j = if i == j then v else f j

pub sleep_lock_init : SleepLock
sleep_lock_init = record {
  inner = none;
  owner = none;
  phase = λ i. outside;
  state = λ i. running;
  guard = λ i. false;
}

unfoldable pub goes : Phase → ℕ → SleepLock → SleepLock
unfolding put
goes next i s = record s { phase = put i next s.phase }

-- `spin_lock(&lk->lk)`: a process that finds it held stays where it is
unfoldable pub take_inner : Option ℕ → Phase → ℕ → SleepLock → SleepLock
unfolding put
take_inner none next i s = record s { inner = some i; phase = put i next s.phase }
take_inner (some holder) next i s = s

-- `spin_unlock(&lk->lk)`
unfoldable pub drop_inner : Phase → ℕ → SleepLock → SleepLock
unfolding put
drop_inner next i s = record s { inner = none; phase = put i next s.phase }

-- `spin_trylock(&lk->lk)`
unfoldable pub try_inner : Option ℕ → ℕ → SleepLock → SleepLock
unfolding put goes
try_inner none i s = record s { inner = some i; phase = put i probes s.phase }
try_inner (some holder) i s = goes outside i s

-- the loop test of `sleep_lock`, and then `locked = true` or the beginning of `sleep`
unfoldable pub test_locked : Option ℕ → ℕ → SleepLock → SleepLock
unfolding put
test_locked none i s = record s { owner = some i; phase = put i grabs s.phase }
test_locked (some holder) i s = record s { guard = put i true s.guard; phase = put i drops s.phase }

-- the test of `sleep_trylock`
unfoldable pub probe_locked : Option ℕ → ℕ → SleepLock → SleepLock
unfolding put drop_inner
probe_locked none i s = record s { owner = some i; phase = put i grabs s.phase }
probe_locked (some holder) i s = drop_inner outside i s

-- `state = SLEEPING`, and the switch to the scheduler, which unlocks the process
unfoldable pub falls_asleep : ℕ → SleepLock → SleepLock
unfolding put
falls_asleep i s = record s {
  state = put i sleeping s.state;
  guard = put i false s.guard;
  phase = put i asleep s.phase;
}

unfoldable pub wake : RunState → RunState
wake sleeping = runnable
wake running = running
wake runnable = runnable

-- The scheduler runs a process that is RUNNABLE; `sleep` ends at the `spin_lock` of the other lock.
unfoldable pub scheduled : RunState → ℕ → SleepLock → SleepLock
unfolding put
scheduled runnable i s = record s { state = put i running s.state; phase = put i wants s.phase }
scheduled running i s = s
scheduled sleeping i s = s

-- One process in the loop of `wakeup`. The waking process is passed over; a process whose lock is held is
-- waited for.
unfoldable pub wake_one : ℕ → ℕ → SleepLock → SleepLock
unfolding put goes wake
wake_one k i s = if k == i then goes (wakes (suc k)) i s else if s.guard k then s else record s {
  state = put k (wake (s.state k)) s.state;
  phase = put i (wakes (suc k)) s.phase;
}

-- One step of process i, of n processes. Outside, and while it holds the lock, a process does nothing here.
unfoldable pub step : ℕ → Phase → ℕ → SleepLock → SleepLock
unfolding put take_inner drop_inner try_inner test_locked probe_locked falls_asleep scheduled
    wake_one
step n outside i s = s
step n wants i s = take_inner s.inner tests i s
step n tests i s = test_locked s.owner i s
step n drops i s = drop_inner marks i s
step n marks i s = falls_asleep i s
step n asleep i s = scheduled (s.state i) i s
step n tries i s = try_inner s.inner i s
step n probes i s = probe_locked s.owner i s
step n grabs i s = drop_inner holds i s
step n holds i s = s
step n unlocks i s = take_inner s.inner clears i s
step n clears i s = record s { owner = none; phase = put i (wakes 0) s.phase }
step n (wakes k) i s = if ltb k n then wake_one k i s else drop_inner outside i s

unfoldable pub advance : ℕ → ℕ → SleepLock → SleepLock
unfolding step
advance n i s = step n (s.phase i) i s

-- `proc_send_signal` to process i, where its `spin_trylock` succeeds
unfoldable pub signal : ℕ → SleepLock → SleepLock
unfolding put wake
signal i s = if s.guard i then s else record s { state = put i (wake (s.state i)) s.state }

-- The states that n processes reach, which call the functions and are sent signals in any order.
pub data Reachable (n : ℕ) : SleepLock → Type 0 where
  start : Reachable n sleep_lock_init
  calls_lock :
      {s : SleepLock} (i : ℕ)
      → Reachable n s
      → i < n
      → s.phase i ≡ outside
      → Reachable n (goes wants i s)
  calls_trylock :
      {s : SleepLock} (i : ℕ)
      → Reachable n s
      → i < n
      → s.phase i ≡ outside
      → Reachable n (goes tries i s)
  calls_unlock :
      {s : SleepLock} (i : ℕ) → Reachable n s → s.phase i ≡ holds → Reachable n (goes unlocks i s)
  advances : {s : SleepLock} (i : ℕ) → Reachable n s → Reachable n (advance n i s)
  is_signalled : {s : SleepLock} (i : ℕ) → Reachable n s → Reachable n (signal i s)

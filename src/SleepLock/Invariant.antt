-- ===== src/SleepLock/Invariant.antt =====
-- kernel/lib/sleeplock.c: who holds which lock where, and who is woken.
use vimix_os.Base.{ℕ, ◌≤◌, ◌≡◌, Bool, true, false, ◌&&◌, ◌||◌, Option, none, some, leb, ◌==◌}
use vimix_os.SleepLock.{
  Phase, outside, wants, tests, drops, marks, asleep, tries, probes, grabs, holds, unlocks, clears,
  wakes, RunState, running, runnable, sleeping, SleepLock,
}

-- where the code holds the spin lock
abbrev pub in_lock : Phase → Bool
in_lock outside = false
in_lock wants = false
in_lock tests = true
in_lock drops = true
in_lock marks = false
in_lock asleep = false
in_lock tries = false
in_lock probes = true
in_lock grabs = true
in_lock holds = false
in_lock unlocks = false
in_lock clears = true
in_lock (wakes k) = true

-- where the code holds the sleep lock
abbrev pub owning : Phase → Bool
owning outside = false
owning wants = false
owning tests = false
owning drops = false
owning marks = false
owning asleep = false
owning tries = false
owning probes = false
owning grabs = true
owning holds = true
owning unlocks = true
owning clears = true
owning (wakes k) = false

-- where a process holds its own lock
abbrev pub guarding : Phase → Bool
guarding outside = false
guarding wants = false
guarding tests = false
guarding drops = true
guarding marks = true
guarding asleep = false
guarding tries = false
guarding probes = false
guarding grabs = false
guarding holds = false
guarding unlocks = false
guarding clears = false
guarding (wakes k) = false

abbrev pub is_asleep : Phase → Bool
is_asleep outside = false
is_asleep wants = false
is_asleep tests = false
is_asleep drops = false
is_asleep marks = false
is_asleep asleep = true
is_asleep tries = false
is_asleep probes = false
is_asleep grabs = false
is_asleep holds = false
is_asleep unlocks = false
is_asleep clears = false
is_asleep (wakes k) = false

abbrev pub is_off : RunState → Bool
is_off running = false
is_off runnable = true
is_off sleeping = true

abbrev pub is_sleeping : RunState → Bool
is_sleeping running = false
is_sleeping runnable = false
is_sleeping sleeping = true

-- where the loop of `wakeup` has yet to come to process i
abbrev pub comes_to : ℕ → Phase → Bool
comes_to i outside = false
comes_to i wants = false
comes_to i tests = false
comes_to i drops = false
comes_to i marks = false
comes_to i asleep = false
comes_to i tries = false
comes_to i probes = false
comes_to i grabs = false
comes_to i holds = false
comes_to i unlocks = false
comes_to i clears = false
comes_to i (wakes k) = leb k i

abbrev pub names : Option ℕ → ℕ → Bool
names none i = false
names (some j) i = j == i

abbrev pub is_some : Option ℕ → Bool
is_some none = false
is_some (some j) = true

-- the holder of the spin lock is in `wakeup` and has yet to come to process i
abbrev pub will_wake : Option ℕ → (ℕ → Phase) → ℕ → Bool
will_wake none phase i = false
will_wake (some j) phase i = comes_to i (phase j)

-- about to sleep, or sleeping
abbrev pub needs_waker : Phase → RunState → Bool
needs_waker p r = guarding p || (is_asleep p && is_sleeping r)

-- Each lock is held where the code holds it; a process that sleeps, or is about to, is off the
-- processor only in `sleep`, and the lock is owned or a waker is to come; only n processes take part.
pub record IsSound (n : ℕ) (s : SleepLock) : Type 0 where
  pub inner : (x : ℕ) → in_lock (s.phase x) ≡ names s.inner x
  pub owner : (x : ℕ) → owning (s.phase x) ≡ names s.owner x
  pub guard : (x : ℕ) → guarding (s.phase x) ≡ s.guard x
  pub off : (x : ℕ) → is_asleep (s.phase x) ≡ is_off (s.state x)
  pub woken :
      (x : ℕ)
      → needs_waker (s.phase x) (s.state x) ≡ true
      → (is_some s.owner || will_wake s.inner s.phase x) ≡ true
  pub few : (x : ℕ) → n ≤ x → s.phase x ≡ outside

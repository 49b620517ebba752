-- ===== src/SleepLock/Safety.antt =====
-- kernel/lib/sleeplock.c: mutual exclusion, and no wakeup is lost.
use vimix_os.Base.{
  ℕ, ◌≤◌, ◌≡◌, ◌↔◌, ◌⊎◌, inl, inr, refl, sym, ◌∙◌, true, Option, none, some, Option-cases, arith,
}
use vimix_os.SleepLock.{
  Phase, outside, wants, tests, drops, marks, asleep, tries, probes, grabs, holds, unlocks, clears,
  wakes, SleepLock,
}
use vimix_os.SleepLock.Invariant.{owning, comes_to, names, will_wake, needs_waker}
use vimix_os.SleepLock.{Reachable}
use vimix_os.SleepLock.Advance.{Reachable-IsSound}

-- the lock is taken, by the code at least
abbrev pub HasLock : SleepLock → ℕ → Type 0
HasLock s i = owning (s.phase i) ≡ true

named : (o : Option ℕ) (i : ℕ) → names o i ≡ true → o ≡ some i
named none i h = ground arith
named (some j) i h = ground arith

-- Of any number of processes that lock, try, unlock, sleep and are sent signals in any order: at most one
-- has the sleep lock, from where it sets `locked` to where sleep_unlock clears it, and `locked` is set, with
-- that process, exactly while one has it.
pub sleep_lock-Excludes :
    (n : ℕ) (s : SleepLock)
    → Reachable n s
    → ((i j : ℕ) → HasLock s i → HasLock s j → i ≡ j) × ((i : ℕ) → HasLock s i ↔ (s.owner ≡ some i))
sleep_lock-Excludes n s r =
    let sound = Reachable-IsSound r in
    (
      λ i j first second.
          (let a = sound.owner i in
            let b = sound.owner j in
            let c = named s.owner i (sym a ∙ first) in
            let d = named s.owner j (sym b ∙ second) in ground arith),
      λ i. (
        λ has. named s.owner i (sym (sound.owner i) ∙ has),
        λ e. (let a = sound.owner i in ground arith),
      ),
    )

-- A process of which the loop of `wakeup` runs at place k.
abbrev pub ComesTo : SleepLock → ℕ → Type 0
ComesTo s i = (j : ℕ) × ((k : ℕ) × ((s.phase j ≡ wakes k) × (k ≤ i)))

waker-ComesTo : (o : Option ℕ) (s : SleepLock) (i : ℕ) → will_wake o s.phase i ≡ true → ComesTo s i
waker-ComesTo none s i h = absurd (ground arith)
waker-ComesTo (some j) s i h = by_phase (s.phase j) refl h
  where
    by_phase : (p : Phase) → s.phase j ≡ p → comes_to i p ≡ true → ComesTo s i
    by_phase (wakes k) at here = (j, (k, (at, ground arith)))
    by_phase outside at here = absurd (ground arith)
    by_phase wants at here = absurd (ground arith)
    by_phase tests at here = absurd (ground arith)
    by_phase drops at here = absurd (ground arith)
    by_phase marks at here = absurd (ground arith)
    by_phase asleep at here = absurd (ground arith)
    by_phase tries at here = absurd (ground arith)
    by_phase probes at here = absurd (ground arith)
    by_phase grabs at here = absurd (ground arith)
    by_phase holds at here = absurd (ground arith)
    by_phase unlocks at here = absurd (ground arith)
    by_phase clears at here = absurd (ground arith)

-- No wakeup is lost: while a process sleeps on the lock, or is in `sleep` behind its test, some process
-- has the lock, or is in the loop of `wakeup` and has not passed the sleeper.
pub sleeper-Woken :
    (n i : ℕ) (s : SleepLock)
    → Reachable n s
    → needs_waker (s.phase i) (s.state i) ≡ true
    → ((j : ℕ) × HasLock s j) ⊎ ComesTo s i
sleeper-Woken n i s r risk =
    let sound = Reachable-IsSound r in
    let waits = sound.woken i risk in
    elim (Option-cases s.owner) [
      | inr (j, owned) ↦ inl (j, let o = sound.owner j in ground arith)
      | inl free ↦ inr (waker-ComesTo s.inner s i (ground arith))
    ]

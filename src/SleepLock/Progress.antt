-- ===== src/SleepLock/Progress.antt =====
-- kernel/lib/sleeplock.c: the processes never block one another for good.
use vimix_os.Base.{
  ℕ, suc, ◌≡◌, ◌≢◌, ◌⊎◌, inl, inr, refl, sym, ap, ◌∙◌, true, Bool-cases, Option, none, some,
  Option-cases, ltb, ◌==◌, arith,
}
use vimix_os.SleepLock.{
  Phase, outside, wants, tests, drops, marks, asleep, tries, probes, grabs, holds, unlocks, clears,
  wakes, RunState, running, runnable, sleeping, SleepLock, put, goes, take_inner, drop_inner,
  try_inner, test_locked, probe_locked, falls_asleep, scheduled, wake_one, step, advance,
}
use vimix_os.SleepLock.Invariant.{in_lock, owning, names, IsSound}
use vimix_os.SleepLock.{drop_inner, Reachable}
use vimix_os.SleepLock.Advance.{Reachable-IsSound}

-- A step of process j takes it on.
abbrev pub Moves : ℕ → SleepLock → ℕ → Type 0
Moves n s j = (advance n j s).phase j ≢ s.phase j

-- Some process holds the lock, in code that may unlock it, or can take a step.
abbrev pub GoesOn : ℕ → SleepLock → Type 0
GoesOn n s = (j : ℕ) × ((s.phase j ≡ holds) ⊎ Moves n s j)

steps_to :
    (n j : ℕ) (s : SleepLock) (p q : Phase)
    → s.phase j ≡ p
    → (step n p j s).phase j ≡ q
    → q ≢ p
    → GoesOn n s
unfolding advance
steps_to n j s p q at to differ =
    (j, inr (λ same. differ (sym to ∙ (ap (λ x. (step n x j s).phase j) (sym at) ∙ (same ∙ at)))))

one_inner : (j k : ℕ) (o : Option ℕ) → names o j ≡ true → names o k ≡ true → k ≢ j → ⊥
one_inner j k none a b differ = ground arith
one_inner j k (some x) a b differ = ground arith

module _ (n : ℕ) (s : SleepLock) (sound : IsSound n s) where
  -- The spin lock is free, and the process i owns the lock.
  owner-GoesOn : (i : ℕ) (p : Phase) → s.inner ≡ none → s.phase i ≡ p → owning p ≡ true → GoesOn n s
  unfolding step put take_inner
  owner-GoesOn i holds free at owns = (i, inl at)
  owner-GoesOn i unlocks free at owns =
      steps_to n i s unlocks clears at (ground arith) (λ e. ground arith)
  owner-GoesOn i grabs free at owns = absurd (let h = sound.inner i in ground arith)
  owner-GoesOn i clears free at owns = absurd (let h = sound.inner i in ground arith)
  owner-GoesOn i outside free at owns = absurd (ground arith)
  owner-GoesOn i wants free at owns = absurd (ground arith)
  owner-GoesOn i tests free at owns = absurd (ground arith)
  owner-GoesOn i drops free at owns = absurd (ground arith)
  owner-GoesOn i marks free at owns = absurd (ground arith)
  owner-GoesOn i asleep free at owns = absurd (ground arith)
  owner-GoesOn i tries free at owns = absurd (ground arith)
  owner-GoesOn i probes free at owns = absurd (ground arith)
  owner-GoesOn i (wakes k) free at owns = absurd (ground arith)

  -- The spin lock is free, and the process i sleeps.
  asleep-GoesOn :
      (i : ℕ) (r : RunState) → s.inner ≡ none → s.phase i ≡ asleep → s.state i ≡ r → GoesOn n s
  unfolding step put scheduled
  asleep-GoesOn i running free at is = absurd (let h = sound.off i in ground arith)
  asleep-GoesOn i runnable free at is =
      steps_to n i s asleep wants at (ground arith) (λ e. ground arith)
  asleep-GoesOn i sleeping free at is = elim (Option-cases s.owner) [
    | inl unowned ↦ absurd (let h = sound.woken i (ground arith) in ground arith)
    | inr (j, owned) ↦ let h = sound.owner j in owner-GoesOn j (s.phase j) free refl (ground arith)
  ]

  -- The spin lock is free, and the process i is not outside.
  free-GoesOn : (i : ℕ) (p : Phase) → s.inner ≡ none → s.phase i ≡ p → p ≢ outside → GoesOn n s
  unfolding step put take_inner try_inner falls_asleep
  free-GoesOn i outside free at out = absurd (out refl)
  free-GoesOn i wants free at out = steps_to n i s wants tests at (ground arith) (λ e. ground arith)
  free-GoesOn i marks free at out =
      steps_to n i s marks asleep at (ground arith) (λ e. ground arith)
  free-GoesOn i tries free at out =
      steps_to n i s tries probes at (ground arith) (λ e. ground arith)
  free-GoesOn i unlocks free at out =
      steps_to n i s unlocks clears at (ground arith) (λ e. ground arith)
  free-GoesOn i holds free at out = (i, inl at)
  free-GoesOn i asleep free at out = asleep-GoesOn i (s.state i) free at refl
  free-GoesOn i tests free at out = absurd (let h = sound.inner i in ground arith)
  free-GoesOn i drops free at out = absurd (let h = sound.inner i in ground arith)
  free-GoesOn i probes free at out = absurd (let h = sound.inner i in ground arith)
  free-GoesOn i grabs free at out = absurd (let h = sound.inner i in ground arith)
  free-GoesOn i clears free at out = absurd (let h = sound.inner i in ground arith)
  free-GoesOn i (wakes k) free at out = absurd (let h = sound.inner i in ground arith)

  -- The process j is in the loop of `wakeup`, at a process other than itself.
  waits-GoesOn :
      (j k : ℕ) (p : Phase)
      → s.phase j ≡ wakes k
      → s.phase k ≡ p
      → k ≢ j
      → s.guard k ≡ true
      → GoesOn n s
  unfolding step put falls_asleep
  waits-GoesOn j k marks at there differ held =
      steps_to n k s marks asleep there (ground arith) (λ e. ground arith)
  waits-GoesOn j k drops at there differ held = absurd (
      let a = sound.inner j in
      let b = sound.inner k in
      one_inner j k s.inner (sym a ∙ ap in_lock at) (sym b ∙ ap in_lock there) differ)
  waits-GoesOn j k outside at there differ held = absurd (let h = sound.guard k in ground arith)
  waits-GoesOn j k wants at there differ held = absurd (let h = sound.guard k in ground arith)
  waits-GoesOn j k tests at there differ held = absurd (let h = sound.guard k in ground arith)
  waits-GoesOn j k asleep at there differ held = absurd (let h = sound.guard k in ground arith)
  waits-GoesOn j k tries at there differ held = absurd (let h = sound.guard k in ground arith)
  waits-GoesOn j k probes at there differ held = absurd (let h = sound.guard k in ground arith)
  waits-GoesOn j k grabs at there differ held = absurd (let h = sound.guard k in ground arith)
  waits-GoesOn j k holds at there differ held = absurd (let h = sound.guard k in ground arith)
  waits-GoesOn j k unlocks at there differ held = absurd (let h = sound.guard k in ground arith)
  waits-GoesOn j k clears at there differ held = absurd (let h = sound.guard k in ground arith)
  waits-GoesOn j k (wakes l) at there differ held = absurd (let h = sound.guard k in ground arith)

  wakes-GoesOn : (j k : ℕ) → s.phase j ≡ wakes k → GoesOn n s
  unfolding step put wake_one goes drop_inner
  wakes-GoesOn j k at = elim (Bool-cases (ltb k n)) [
    | inr behind ↦ steps_to n j s (wakes k) outside at (ground arith) (λ e. ground arith)
    | inl before ↦ elim (Bool-cases (k == j)) [
      | inl same ↦ steps_to n j s (wakes k) (wakes (suc k)) at (ground arith) (λ e. ground arith)
      | inr differ ↦ elim (Bool-cases (s.guard k)) [
        | inl held ↦ waits-GoesOn j k (s.phase k) at refl (ground arith) held
        | inr free ↦ steps_to n j s (wakes k) (wakes (suc k)) at (ground arith) (λ e. ground arith)
      ]
    ]
  ]

  -- The process j holds the spin lock.
  inner-GoesOn : (j : ℕ) (p : Phase) → s.inner ≡ some j → s.phase j ≡ p → GoesOn n s
  unfolding step put test_locked probe_locked drop_inner
  inner-GoesOn i (wakes k) held at = wakes-GoesOn i k at
  inner-GoesOn i tests held at = elim (Option-cases s.owner) [
    | inl unowned ↦ steps_to n i s tests grabs at (ground arith) (λ e. ground arith)
    | inr (k, owned) ↦ steps_to n i s tests drops at (ground arith) (λ e. ground arith)
  ]
  inner-GoesOn i probes held at = elim (Option-cases s.owner) [
    | inl unowned ↦ steps_to n i s probes grabs at (ground arith) (λ e. ground arith)
    | inr (k, owned) ↦ steps_to n i s probes outside at (ground arith) (λ e. ground arith)
  ]
  inner-GoesOn i drops held at = steps_to n i s drops marks at (ground arith) (λ e. ground arith)
  inner-GoesOn i grabs held at = steps_to n i s grabs holds at (ground arith) (λ e. ground arith)
  inner-GoesOn i clears held at =
      steps_to n i s clears (wakes 0) at (ground arith) (λ e. ground arith)
  inner-GoesOn i outside held at = absurd (let h = sound.inner i in ground arith)
  inner-GoesOn i wants held at = absurd (let h = sound.inner i in ground arith)
  inner-GoesOn i marks held at = absurd (let h = sound.inner i in ground arith)
  inner-GoesOn i asleep held at = absurd (let h = sound.inner i in ground arith)
  inner-GoesOn i tries held at = absurd (let h = sound.inner i in ground arith)
  inner-GoesOn i holds held at = absurd (let h = sound.inner i in ground arith)
  inner-GoesOn i unlocks held at = absurd (let h = sound.inner i in ground arith)

-- The processes never block one another for good: while one of them locks, tries, sleeps, wakes or
-- unlocks, some process holds the lock, in code that may unlock it, or some process can take a step.
pub sleep_lock-GoesOn : (n i : ℕ) (s : SleepLock) → Reachable n s → s.phase i ≢ outside → GoesOn n s
sleep_lock-GoesOn n i s r out =
    let sound = Reachable-IsSound r in
    elim (Option-cases s.inner) [
      | inl free ↦ free-GoesOn n s sound i (s.phase i) free refl out
      | inr (j, held) ↦ inner-GoesOn n s sound j (s.phase j) held refl
    ]

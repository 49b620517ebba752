-- ===== src/SleepLock/Advance.antt =====
-- kernel/lib/sleeplock.c: whatever a process does next keeps the locks sound.
use vimix_os.Base.{
  ℕ, suc, ◌<◌, ◌≡◌, ◌≢◌, inl, inr, refl, sym, ap, ◌∙◌, Bool, true, false, Bool-cases, Option, none,
  some, ltb, leb, ◌==◌, if◌then◌else◌, arith, subst,
}
use vimix_os.SleepLock.{
  Phase, outside, wants, tests, drops, marks, asleep, tries, probes, grabs, holds, unlocks, clears,
  wakes, RunState, running, runnable, sleeping, SleepLock, put, goes, take_inner, drop_inner,
  try_inner, test_locked, probe_locked, wake, scheduled, wake_one, step, advance,
}
use vimix_os.SleepLock.Invariant.{in_lock, owning, guarding, is_asleep, comes_to, IsSound}
use vimix_os.SleepLock.{
  drop_inner, sleep_lock_init, Reachable, start, calls_lock, calls_trylock, calls_unlock, advances,
  is_signalled,
}
use vimix_os.SleepLock.Steps.{goes-IsSound, take-IsSound, drop-IsSound, own-IsSound}
use vimix_os.SleepLock.Sleeping.{
  guard-IsSound, sleep-IsSound, schedule-IsSound, clear-IsSound, pass-IsSound, wake-IsSound,
  signal-IsSound,
}

if_case :
    (P : SleepLock → Type 0) (b : Bool) (x y : SleepLock)
    → (b ≡ true → P x)
    → (b ≡ false → P y)
    → P (if b then x else y)
if_case P true x y p q = p refl
if_case P false x y p q = q refl

module _ (n i : ℕ) (s : SleepLock) (sound : IsSound n s) (low : i < n) where
  -- The step of a phase is looked at where the process is in it.
  take-case :
      (o : Option ℕ) (q : Phase)
      → s.inner ≡ o
      → in_lock q ≡ true
      → owning q ≡ owning (s.phase i)
      → guarding q ≡ guarding (s.phase i)
      → is_asleep q ≡ is_asleep (s.phase i)
      → IsSound n (take_inner o q i s)
  unfolding take_inner
  take-case none q e a b c d = take-IsSound n i s q sound e a b c d low
  take-case (some holder) q e a b c d = sound

  test-case : (o : Option ℕ) → s.owner ≡ o → s.phase i ≡ tests → IsSound n (test_locked o i s)
  unfolding test_locked
  test-case none e at =
      own-IsSound n i s sound e (ap in_lock at) (ap guarding at) (ap is_asleep at) low
  test-case (some holder) e at = guard-IsSound n i s holder sound e at low

  probe-case : (o : Option ℕ) → s.owner ≡ o → s.phase i ≡ probes → IsSound n (probe_locked o i s)
  unfolding probe_locked
  probe-case none e at =
      own-IsSound n i s sound e (ap in_lock at) (ap guarding at) (ap is_asleep at) low
  probe-case (some holder) e at =
      drop-IsSound n i s outside sound (ap in_lock at) refl (sym (ap owning at))
        (sym (ap guarding at)) (sym (ap is_asleep at)) (λ x h. ap (comes_to x) at) low

  try-case : (o : Option ℕ) → s.inner ≡ o → s.phase i ≡ tries → IsSound n (try_inner o i s)
  unfolding try_inner
  try-case none e at =
      take-IsSound n i s probes sound e refl (sym (ap owning at)) (sym (ap guarding at))
        (sym (ap is_asleep at)) low
  try-case (some holder) e at =
      goes-IsSound n i s outside sound (sym (ap in_lock at)) (sym (ap owning at))
        (sym (ap guarding at)) (sym (ap is_asleep at)) refl low

  schedule-case : (r : RunState) → s.phase i ≡ asleep → IsSound n (scheduled r i s)
  unfolding scheduled
  schedule-case running at = sound
  schedule-case runnable at = schedule-IsSound n i s sound at low
  schedule-case sleeping at = sound

  wake-case : (k : ℕ) → s.phase i ≡ wakes k → IsSound n (wake_one k i s)
  unfolding wake_one
  wake-case k at =
      if_case (IsSound n) (k == i) (goes (wakes (suc k)) i s)
        (if s.guard k then s else record s {
          state = put k (wake (s.state k)) s.state;
          phase = put i (wakes (suc k)) s.phase;
        })
        (λ same.
          (let e : k ≡ i = ground arith in
            subst (λ j. IsSound n (goes (wakes (suc j)) i s)) (sym e)
              (pass-IsSound n i s sound (at ∙ ap wakes e) low)))
        (λ differ.
          if_case (IsSound n) (s.guard k) s
            (record s {
              state = put k (wake (s.state k)) s.state;
              phase = put i (wakes (suc k)) s.phase;
            })
            (λ busy. sound)
            (λ free.
              (let other : k ≢ i = ground arith in wake-IsSound n i s k sound at other free low)))

  step-case : (p : Phase) → s.phase i ≡ p → IsSound n (step n p i s)
  unfolding step
  step-case outside at = sound
  step-case wants at =
      take-case s.inner tests refl refl (sym (ap owning at)) (sym (ap guarding at))
        (sym (ap is_asleep at))
  step-case tests at = test-case s.owner refl at
  step-case drops at =
      drop-IsSound n i s marks sound (ap in_lock at) refl (sym (ap owning at))
        (sym (ap guarding at)) (sym (ap is_asleep at)) (λ x h. ap (comes_to x) at) low
  step-case marks at = sleep-IsSound n i s sound at low
  step-case asleep at = schedule-case (s.state i) at
  step-case tries at = try-case s.inner refl at
  step-case probes at = probe-case s.owner refl at
  step-case grabs at =
      drop-IsSound n i s holds sound (ap in_lock at) refl (sym (ap owning at))
        (sym (ap guarding at)) (sym (ap is_asleep at)) (λ x h. ap (comes_to x) at) low
  step-case holds at = sound
  step-case unlocks at =
      take-case s.inner clears refl refl (sym (ap owning at)) (sym (ap guarding at))
        (sym (ap is_asleep at))
  step-case clears at = clear-IsSound n i s sound at low
  step-case (wakes k) at =
      if_case (IsSound n) (ltb k n) (wake_one k i s) (drop_inner outside i s)
        (λ before. wake-case k at)
        (λ behind.
          drop-IsSound n i s outside sound (ap in_lock at) refl (sym (ap owning at))
            (sym (ap guarding at)) (sym (ap is_asleep at))
            (λ x h. ap (comes_to x) at ∙ (let l : leb k x ≡ false = ground arith in l)) low)

pub advance-IsSound : (n i : ℕ) (s : SleepLock) → IsSound n s → IsSound n (advance n i s)
unfolding advance step
advance-IsSound n i s sound = elim (Bool-cases (ltb i n)) [
  | inl low ↦ step-case n i s sound (ground arith) (s.phase i) refl
  | inr high ↦
      let out : s.phase i ≡ outside = sound.few i (ground arith) in
      subst (λ p. IsSound n (step n p i s)) (sym out) sound
]

takes_part : (n i : ℕ) (s : SleepLock) → IsSound n s → s.phase i ≡ holds → i < n
takes_part n i s sound at = elim (Bool-cases (ltb i n)) [
  | inl low ↦ ground arith
  | inr high ↦ absurd (let out = ap owning (sym at ∙ sound.few i (ground arith)) in ground arith)
]

pub Reachable-IsSound : {n : ℕ} {s : SleepLock} → Reachable n s → IsSound n s
unfolding sleep_lock_init
Reachable-IsSound start = record {
  inner = λ x. refl;
  owner = λ x. refl;
  guard = λ x. refl;
  off = λ x. refl;
  woken = λ x risk. absurd (ground arith);
  few = λ x high. refl;
}
Reachable-IsSound {n} (calls_lock {s = s} i r low at) =
    goes-IsSound n i s wants (Reachable-IsSound r) (sym (ap in_lock at)) (sym (ap owning at))
      (sym (ap guarding at)) (sym (ap is_asleep at)) refl low
Reachable-IsSound {n} (calls_trylock {s = s} i r low at) =
    goes-IsSound n i s tries (Reachable-IsSound r) (sym (ap in_lock at)) (sym (ap owning at))
      (sym (ap guarding at)) (sym (ap is_asleep at)) refl low
Reachable-IsSound {n} (calls_unlock {s = s} i r at) =
    let sound = Reachable-IsSound r in
    goes-IsSound n i s unlocks sound (sym (ap in_lock at)) (sym (ap owning at))
      (sym (ap guarding at)) (sym (ap is_asleep at)) refl (takes_part n i s sound at)
Reachable-IsSound {n} (advances {s = s} i r) = advance-IsSound n i s (Reachable-IsSound r)
Reachable-IsSound {n} (is_signalled {s = s} i r) = signal-IsSound n i s (Reachable-IsSound r)

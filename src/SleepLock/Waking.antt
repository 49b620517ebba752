-- ===== src/SleepLock/Waking.antt =====
-- kernel/kernel/proc.c: the loop of wakeup comes to every sleeper.
use vimix_os.Base.{
  ℕ, zero, suc, ◌+◌, ◌-◌, ◌<◌, ◌≤◌, ◌≡◌, ◌≢◌, refl, sym, ap, ◌∙◌, subst, true, false, arith, ltb,
  if◌then◌else◌,
}
use vimix_os.SleepLock.{
  wakes, outside, drop_inner, RunState, running, runnable, sleeping, SleepLock, put, goes, wake,
  wake_one, step, advance,
}
use vimix_os.SleepLock.Invariant.{is_sleeping}

-- some steps of one process
unfoldable pub run : ℕ → ℕ → ℕ → SleepLock → SleepLock
run n j zero s = s
run n j (suc rounds) s = run n j rounds (advance n j s)

not_asleep : (r : RunState) → is_sleeping (wake r) ≡ false
unfolding wake
not_asleep running = refl
not_asleep runnable = refl
not_asleep sleeping = refl

module _ (n j k : ℕ) (s : SleepLock) (at : s.phase j ≡ wakes k) (below : k < n)
    (free : (x : ℕ) → s.guard x ≡ false) where
  one_step : advance n j s ≡ wake_one k j s
  unfolding advance step
  one_step =
      ap (λ p. step n p j s) at
      ∙ ap (λ t. if t then wake_one k j s else drop_inner outside j s)
          (let h : ltb k n ≡ true = ground arith in h)

  next_phase : (wake_one k j s).phase j ≡ wakes (suc k)
  unfolding wake_one goes put
  next_phase = let f = free k in ground arith

  next_guard : (x : ℕ) → (wake_one k j s).guard x ≡ false
  unfolding wake_one goes put
  next_guard x = let f = free x in let g = free k in ground arith

  next_state : k ≢ j → is_sleeping ((wake_one k j s).state k) ≡ false
  unfolding wake_one put
  next_state other = let f = free k in let w = not_asleep (s.state k) in ground arith

comes :
    (n i j k rounds : ℕ) (s : SleepLock)
    → s.phase j ≡ wakes k
    → k + rounds ≡ i
    → i < n
    → i ≢ j
    → ((x : ℕ) → s.guard x ≡ false)
    → is_sleeping ((run n j (suc rounds) s).state i) ≡ false
unfolding run
comes n i j k zero s at sum below other free =
    let here : k ≡ i = omega arith in
    subst (λ x. is_sleeping ((advance n j s).state x) ≡ false) here
      (ap (λ t. is_sleeping (t.state k)) (one_step n j k s at (omega arith) free)
        ∙ next_state n j k s at (omega arith) free (λ e. other (sym here ∙ e)))
comes n i j k (suc rounds) s at sum below other free =
    ap (λ t. is_sleeping ((run n j (suc rounds) t).state i))
      (one_step n j k s at (omega arith) free)
    ∙ comes n i j (suc k) rounds (wake_one k j s) (next_phase n j k s at (omega arith) free)
        (omega arith) below other (next_guard n j k s at (omega arith) free)

-- Where no process is in the middle of falling asleep, the loop of wakeup, which is at process k, comes to
-- each process i from k on, but for the waking one, in i - k + 1 steps of its own, and i does not sleep
-- then.
pub wakeup-Wakes :
    (n i j k : ℕ) (s : SleepLock)
    → s.phase j ≡ wakes k
    → k ≤ i
    → i < n
    → i ≢ j
    → ((x : ℕ) → s.guard x ≡ false)
    → is_sleeping ((run n j (suc (i - k)) s).state i) ≡ false
wakeup-Wakes n i j k s at before below other free =
    comes n i j k (i - k) s at (omega arith) below other free

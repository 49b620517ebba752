-- ===== src/SleepLock/Sleeping.antt =====
-- kernel/kernel/proc.c: falling asleep, running again and waking keep the locks sound.
use vimix_os.Base.{ℕ, suc, ◌<◌, ◌≡◌, ◌≢◌, true, false, none, some, arith}
use vimix_os.SleepLock.{
  wants, tests, drops, marks, asleep, clears, wakes, running, SleepLock, put, goes, falls_asleep,
  wake, signal,
}
use vimix_os.SleepLock.Invariant.{IsSound}

-- A process is about to sleep, since the sleep lock is owned.
pub guard-IsSound :
    (n i : ℕ) (s : SleepLock) (holder : ℕ)
    → IsSound n s
    → s.owner ≡ some holder
    → s.phase i ≡ tests
    → i < n
    → IsSound n (record s { guard = put i true s.guard; phase = put i drops s.phase })
unfolding put
guard-IsSound n i s holder sound owned at low =
    let i_in = sound.inner i in
    let i_own = sound.owner i in
    let i_guard = sound.guard i in
    let i_off = sound.off i in
    let i_woken = sound.woken i in
    record {
      inner = λ x. let h = sound.inner x in ground arith;
      owner = λ x. let h = sound.owner x in ground arith;
      guard = λ x. let h = sound.guard x in ground arith;
      off = λ x. let h = sound.off x in ground arith;
      woken = λ x risk. let h = sound.woken x in let l = sound.few x in ground arith;
      few = λ x high. let h = sound.few x high in ground arith;
    }

-- A process sleeps.
pub sleep-IsSound :
    (n i : ℕ) (s : SleepLock)
    → IsSound n s
    → s.phase i ≡ marks
    → i < n
    → IsSound n (falls_asleep i s)
unfolding falls_asleep put
sleep-IsSound n i s sound at low =
    let i_in = sound.inner i in
    let i_own = sound.owner i in
    let i_guard = sound.guard i in
    let i_off = sound.off i in
    let i_woken = sound.woken i in
    record {
      inner = λ x. let h = sound.inner x in ground arith;
      owner = λ x. let h = sound.owner x in ground arith;
      guard = λ x. let h = sound.guard x in ground arith;
      off = λ x. let h = sound.off x in ground arith;
      woken = λ x risk. let h = sound.woken x in let l = sound.few x in ground arith;
      few = λ x high. let h = sound.few x high in ground arith;
    }

-- A process runs again.
pub schedule-IsSound :
    (n i : ℕ) (s : SleepLock)
    → IsSound n s
    → s.phase i ≡ asleep
    → i < n
    → IsSound n (record s { state = put i running s.state; phase = put i wants s.phase })
unfolding put
schedule-IsSound n i s sound at low =
    let i_in = sound.inner i in
    let i_own = sound.owner i in
    let i_guard = sound.guard i in
    let i_off = sound.off i in
    let i_woken = sound.woken i in
    record {
      inner = λ x. let h = sound.inner x in ground arith;
      owner = λ x. let h = sound.owner x in ground arith;
      guard = λ x. let h = sound.guard x in ground arith;
      off = λ x. let h = sound.off x in ground arith;
      woken = λ x risk. let h = sound.woken x in let l = sound.few x in ground arith;
      few = λ x high. let h = sound.few x high in ground arith;
    }

-- The sleep lock is given back, and all processes are to be woken.
pub clear-IsSound :
    (n i : ℕ) (s : SleepLock)
    → IsSound n s
    → s.phase i ≡ clears
    → i < n
    → IsSound n (record s { owner = none; phase = put i (wakes 0) s.phase })
unfolding put
clear-IsSound n i s sound at low =
    let i_in = sound.inner i in
    let i_own = sound.owner i in
    let i_guard = sound.guard i in
    let i_off = sound.off i in
    let i_woken = sound.woken i in
    record {
      inner = λ x. let h = sound.inner x in ground arith;
      owner = λ x. let h = sound.owner x in ground arith;
      guard = λ x. let h = sound.guard x in ground arith;
      off = λ x. let h = sound.off x in ground arith;
      woken = λ x risk. let h = sound.woken x in let l = sound.few x in ground arith;
      few = λ x high. let h = sound.few x high in ground arith;
    }

-- The waking process passes over itself.
pub pass-IsSound :
    (n i : ℕ) (s : SleepLock)
    → IsSound n s
    → s.phase i ≡ wakes i
    → i < n
    → IsSound n (goes (wakes (suc i)) i s)
unfolding goes put
pass-IsSound n i s sound at low =
    let i_in = sound.inner i in
    let i_own = sound.owner i in
    let i_guard = sound.guard i in
    let i_off = sound.off i in
    let i_woken = sound.woken i in
    record {
      inner = λ x. let h = sound.inner x in ground arith;
      owner = λ x. let h = sound.owner x in ground arith;
      guard = λ x. let h = sound.guard x in ground arith;
      off = λ x. let h = sound.off x in ground arith;
      woken = λ x risk. let h = sound.woken x in let l = sound.few x in ground arith;
      few = λ x high. let h = sound.few x high in ground arith;
    }

-- A process is woken.
pub wake-IsSound :
    (n i : ℕ) (s : SleepLock) (k : ℕ)
    → IsSound n s
    → s.phase i ≡ wakes k
    → k ≢ i
    → s.guard k ≡ false
    → i < n
    → IsSound n (record s {
      state = put k (wake (s.state k)) s.state;
      phase = put i (wakes (suc k)) s.phase;
    })
unfolding put wake
wake-IsSound n i s k sound at other free low =
    let i_in = sound.inner i in
    let i_own = sound.owner i in
    let i_guard = sound.guard i in
    let i_off = sound.off i in
    let i_woken = sound.woken i in
    let k_off = sound.off k in
    let k_guard = sound.guard k in
    record {
      inner = λ x. let h = sound.inner x in ground arith;
      owner = λ x. let h = sound.owner x in ground arith;
      guard = λ x. let h = sound.guard x in ground arith;
      off = λ x. let h = sound.off x in ground arith;
      woken = λ x risk. let h = sound.woken x in let l = sound.few x in ground arith;
      few = λ x high. let h = sound.few x high in ground arith;
    }

-- A signal wakes a process.
pub signal-IsSound : (n i : ℕ) (s : SleepLock) → IsSound n s → IsSound n (signal i s)
unfolding signal put wake
signal-IsSound n i s sound =
    let i_in = sound.inner i in
    let i_own = sound.owner i in
    let i_guard = sound.guard i in
    let i_off = sound.off i in
    let i_woken = sound.woken i in
    record {
      inner = λ x. let h = sound.inner x in ground arith;
      owner = λ x. let h = sound.owner x in ground arith;
      guard = λ x. let h = sound.guard x in ground arith;
      off = λ x. let h = sound.off x in ground arith;
      woken = λ x risk. let h = sound.woken x in let l = sound.few x in ground arith;
      few = λ x high. let h = sound.few x high in ground arith;
    }

-- ===== src/SleepLock/Steps.antt =====
-- kernel/lib/sleeplock.c: every step keeps the locks sound.
use vimix_os.Base.{ℕ, ◌<◌, ◌≡◌, sym, ◌∙◌, true, false, Option, none, some, arith}
use vimix_os.SleepLock.{Phase, grabs, SleepLock, put, goes, drop_inner}
use vimix_os.SleepLock.Invariant.{in_lock, owning, guarding, is_asleep, comes_to, names, IsSound}

-- A step that takes and drops no lock.
pub goes-IsSound :
    (n i : ℕ) (s : SleepLock) (q : Phase)
    → IsSound n s
    → in_lock q ≡ in_lock (s.phase i)
    → owning q ≡ owning (s.phase i)
    → guarding q ≡ guarding (s.phase i)
    → is_asleep q ≡ is_asleep (s.phase i)
    → in_lock q ≡ false
    → i < n
    → IsSound n (goes q i s)
unfolding goes put
goes-IsSound n i s q sound same_in same_own same_guard same_off not_in low =
    let i_in = sound.inner i in
    let i_own = sound.owner i in
    let i_guard = sound.guard i in
    let i_off = sound.off i in
    let i_woken = sound.woken i in
    record {
      inner = λ x. let h = sound.inner x in ground arith;
      owner = λ x. let h = sound.owner x in ground arith;
      guard = λ x. let h = sound.guard x in ground arith;
      off = λ x. let h = sound.off x in ground arith;
      woken = λ x risk. let h = sound.woken x in let l = sound.few x in ground arith;
      few = λ x high. let h = sound.few x high in ground arith;
    }

-- The spin lock is taken by a process.
pub take-IsSound :
    (n i : ℕ) (s : SleepLock) (q : Phase)
    → IsSound n s
    → s.inner ≡ none
    → in_lock q ≡ true
    → owning q ≡ owning (s.phase i)
    → guarding q ≡ guarding (s.phase i)
    → is_asleep q ≡ is_asleep (s.phase i)
    → i < n
    → IsSound n (record s { inner = some i; phase = put i q s.phase })
unfolding put
take-IsSound n i s q sound free is_in same_own same_guard same_off low =
    let i_in = sound.inner i in
    let i_own = sound.owner i in
    let i_guard = sound.guard i in
    let i_off = sound.off i in
    let i_woken = sound.woken i in
    record {
      inner = λ x. let h = sound.inner x in ground arith;
      owner = λ x. let h = sound.owner x in ground arith;
      guard = λ x. let h = sound.guard x in ground arith;
      off = λ x. let h = sound.off x in ground arith;
      woken = λ x risk. let h = sound.woken x in let l = sound.few x in ground arith;
      few = λ x high. let h = sound.few x high in ground arith;
    }

inner_is : (i : ℕ) (o : Option ℕ) → names o i ≡ true → o ≡ some i
inner_is i none h = ground arith
inner_is i (some j) h = ground arith

-- The spin lock is dropped where no process is left to wake.
pub drop-IsSound :
    (n i : ℕ) (s : SleepLock) (q : Phase)
    → IsSound n s
    → in_lock (s.phase i) ≡ true
    → in_lock q ≡ false
    → owning q ≡ owning (s.phase i)
    → guarding q ≡ guarding (s.phase i)
    → is_asleep q ≡ is_asleep (s.phase i)
    → ((x : ℕ) → x < n → comes_to x (s.phase i) ≡ false)
    → i < n
    → IsSound n (drop_inner q i s)
unfolding drop_inner put
drop-IsSound n i s q sound was_in not_in same_own same_guard same_off done low =
    let i_in = sound.inner i in
    let i_own = sound.owner i in
    let i_guard = sound.guard i in
    let i_off = sound.off i in
    let i_woken = sound.woken i in
    record {
      inner = λ x. let h = sound.inner x in ground arith;
      owner = λ x. let h = sound.owner x in ground arith;
      guard = λ x. let h = sound.guard x in ground arith;
      off = λ x. let h = sound.off x in ground arith;
      woken = λ x risk.
          let h = sound.woken x in
          let l = sound.few x in
          let d = done x in let at = inner_is i s.inner (sym i_in ∙ was_in) in ground arith;
      few = λ x high. let h = sound.few x high in ground arith;
    }

-- The sleep lock is taken.
pub own-IsSound :
    (n i : ℕ) (s : SleepLock)
    → IsSound n s
    → s.owner ≡ none
    → in_lock (s.phase i) ≡ true
    → guarding (s.phase i) ≡ false
    → is_asleep (s.phase i) ≡ false
    → i < n
    → IsSound n (record s { owner = some i; phase = put i grabs s.phase })
unfolding put
own-IsSound n i s sound free was_in not_guard not_off low =
    let i_in = sound.inner i in
    let i_own = sound.owner i in
    let i_guard = sound.guard i in
    let i_off = sound.off i in
    let i_woken = sound.woken i in
    record {
      inner = λ x. let h = sound.inner x in ground arith;
      owner = λ x. let h = sound.owner x in ground arith;
      guard = λ x. let h = sound.guard x in ground arith;
      off = λ x. let h = sound.off x in ground arith;
      woken = λ x risk. let h = sound.woken x in let l = sound.few x in ground arith;
      few = λ x high. let h = sound.few x high in ground arith;
    }

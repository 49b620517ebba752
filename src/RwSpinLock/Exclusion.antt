-- ===== src/RwSpinLock/Exclusion.antt =====
-- kernel/lib/rwspinlock.c: a writer excludes every other holder, in every interleaving.
use vimix_os.Base.{
  ℕ, ◌+◌, ◌-◌, ◌≤◌, ◌≡◌, ◌⊎◌, inl, inr, refl, ap, Bool, true, false, some, get_elem?, set, arith,
  Bool-cases, ==_iff, ◌==◌,
}
use vimix_os.RwSpinLock.{
  Phase, RwSpinLock, rwspin_lock_init, exchange, fetch_add, fetch_sub, release, load_readers, enter,
  advance, Step, Reachable,
}
use vimix_os.RwSpinLock.Counting.{
  has_lock, is_counted, is_writing, is_entered, bit, total, total-set, total_at, total_le,
  total-idle,
}

-- `locked` is set by at most one CPU, `readers` counts the readers, and there is none beside a writer.
pub record IsExclusive (lk : RwSpinLock) : Type 0 where
  pub one : total has_lock lk.cpus ≡ bit lk.locked
  pub counts : total is_counted lk.cpus ≡ lk.readers
  pub alone : (total is_writing lk.cpus ≡ 0) ⊎ (lk.readers ≡ 0)

-- one CPU changes its phase, and the lock as the phases tell
moves :
    (lk : RwSpinLock) (i : ℕ) (old new : Phase) (locked1 : Bool) (readers1 : ℕ)
    → IsExclusive lk
    → get_elem? lk.cpus i ≡ some old
    → bit locked1 + has_lock old ≡ bit lk.locked + has_lock new
    → readers1 + is_counted old ≡ lk.readers + is_counted new
    → (total is_writing (set lk.cpus i new) ≡ 0) ⊎ (readers1 ≡ 0)
    → IsExclusive (record { locked = locked1; readers = readers1; cpus = set lk.cpus i new })
moves lk i old new locked1 readers1 inv at lock_moves readers_move writer =
    let l = total-set has_lock lk.cpus i old new at in
    let c = total-set is_counted lk.cpus i old new at in
    let o = inv.one in
    let r = inv.counts in record { one = omega arith; counts = omega arith; alone = writer }

-- neither phase writes, and no reader comes
quiet :
    (lk : RwSpinLock) (i : ℕ) (old new : Phase) (readers1 : ℕ)
    → IsExclusive lk
    → get_elem? lk.cpus i ≡ some old
    → is_writing new ≤ is_writing old
    → readers1 ≤ lk.readers
    → (total is_writing (set lk.cpus i new) ≡ 0) ⊎ (readers1 ≡ 0)
quiet lk i old new readers1 inv at no_writer fewer =
    let w = total-set is_writing lk.cpus i old new at in
    elim inv.alone [ inl none_writes ↦ inl (omega arith) | inr none_reads ↦ inr (omega arith) ]

bit_le : (b : Bool) → bit b ≤ 1
unfolding bit
bit_le true = omega arith
bit_le false = omega arith

-- A CPU that holds the lock finds it set.
is_locked :
    (lk : RwSpinLock) (i : ℕ) (phase : Phase)
    → IsExclusive lk
    → get_elem? lk.cpus i ≡ some phase
    → has_lock phase ≡ 1
    → 1 ≡ bit lk.locked + 0
is_locked lk i phase inv at holds =
    let h = total_at has_lock lk.cpus i phase at in
    let o = inv.one in let one = bit_le lk.locked in omega arith

-- A CPU that spins goes on only where `locked` was not set.
exchange-IsExclusive :
    (lk : RwSpinLock) (i : ℕ) (spins entered : Phase)
    → IsExclusive lk
    → get_elem? lk.cpus i ≡ some spins
    → has_lock spins ≡ 0
    → is_counted spins ≡ 0
    → is_writing spins ≡ 0
    → has_lock entered ≡ 1
    → is_counted entered ≡ 0
    → is_writing entered ≡ 0
    → IsExclusive (exchange spins entered i lk)
unfolding exchange bit
exchange-IsExclusive lk i spins entered inv at s1 s2 s3 e1 e2 e3 = elim (Bool-cases lk.locked) [
  | inl held ↦ rw held (
      let locked_bit = ap bit held in
      moves lk i spins spins true lk.readers inv at (omega arith) (omega arith)
        (quiet lk i spins spins lk.readers inv at (omega arith) (omega arith)))
  | inr free ↦ rw free (
      let locked_bit = ap bit free in
      moves lk i spins entered true lk.readers inv at (omega arith) (omega arith)
        (quiet lk i spins entered lk.readers inv at (omega arith) (omega arith)))
]

load_readers-IsExclusive :
    (lk : RwSpinLock) (i : ℕ)
    → IsExclusive lk
    → get_elem? lk.cpus i ≡ some Phase.write_waits
    → IsExclusive (load_readers i lk)
unfolding load_readers has_lock is_counted
load_readers-IsExclusive lk i inv at = elim (Bool-cases (lk.readers == 0)) [
  | inl none_reads ↦ rw none_reads (
      moves lk i Phase.write_waits Phase.writing lk.locked lk.readers inv at refl refl
        (inr ((==_iff lk.readers 0).0 none_reads)))
  | inr some_read ↦ rw some_read inv
]

advance-IsExclusive :
    (lk : RwSpinLock) (i : ℕ) (phase : Phase) (w : Bool)
    → IsExclusive lk
    → get_elem? lk.cpus i ≡ some phase
    → IsExclusive (advance phase w i lk)
unfolding advance enter fetch_add fetch_sub release has_lock is_counted is_writing is_entered bit
advance-IsExclusive lk i Phase.idle false inv at =
    moves lk i Phase.idle Phase.read_spins lk.locked lk.readers inv at refl refl
      (quiet lk i Phase.idle Phase.read_spins lk.readers inv at (omega arith) (omega arith))
advance-IsExclusive lk i Phase.idle true inv at =
    moves lk i Phase.idle Phase.write_spins lk.locked lk.readers inv at refl refl
      (quiet lk i Phase.idle Phase.write_spins lk.readers inv at (omega arith) (omega arith))
advance-IsExclusive lk i Phase.read_spins w inv at =
    exchange-IsExclusive lk i Phase.read_spins Phase.read_entered inv at refl refl refl refl refl
      refl
advance-IsExclusive lk i Phase.write_spins w inv at =
    exchange-IsExclusive lk i Phase.write_spins Phase.write_waits inv at refl refl refl refl refl
      refl
advance-IsExclusive lk i Phase.read_entered w inv at =
    moves lk i Phase.read_entered Phase.read_counted lk.locked (lk.readers + 1) inv at refl
      (omega arith)
      (let e = total_at is_entered lk.cpus i Phase.read_entered at in
        let le = total_le lk.cpus in
        let one = bit_le lk.locked in
        let o = inv.one in
        let t = total-set is_writing lk.cpus i Phase.read_entered Phase.read_counted at in
        inl (omega arith))
advance-IsExclusive lk i Phase.read_counted w inv at =
    moves lk i Phase.read_counted Phase.reading false lk.readers inv at
      (is_locked lk i Phase.read_counted inv at refl) refl
      (quiet lk i Phase.read_counted Phase.reading lk.readers inv at (omega arith) (omega arith))
advance-IsExclusive lk i Phase.write_waits w inv at = load_readers-IsExclusive lk i inv at
advance-IsExclusive lk i Phase.reading w inv at =
    let c = total_at is_counted lk.cpus i Phase.reading at in
    let r = inv.counts in
    moves lk i Phase.reading Phase.idle lk.locked (lk.readers - 1) inv at refl (omega arith)
      (quiet lk i Phase.reading Phase.idle (lk.readers - 1) inv at (omega arith) (omega arith))
advance-IsExclusive lk i Phase.writing w inv at =
    moves lk i Phase.writing Phase.idle false lk.readers inv at
      (is_locked lk i Phase.writing inv at refl) refl
      (quiet lk i Phase.writing Phase.idle lk.readers inv at (omega arith) (omega arith))

-- Of any number of CPUs that take and release the lock in any order, in every state they reach at most
-- one is writing, and while one is, no CPU reads. The lock word is set exactly while one CPU
-- holds it, and the counter is the number of the CPUs that read.
pub Reachable-IsExclusive :
    {n : ℕ} {lk : RwSpinLock}
    → Reachable n lk
    → (total is_writing lk.cpus ≤ 1)
      × (((total is_writing lk.cpus ≡ 0) ⊎ (lk.readers ≡ 0))
          × ((total has_lock lk.cpus ≡ bit lk.locked) × (total is_counted lk.cpus ≡ lk.readers)))
unfolding rwspin_lock_init has_lock is_counted is_writing bit
Reachable-IsExclusive {n} {lk} r =
    let inv = reached r in
    let le = total_le lk.cpus in
    let one = bit_le lk.locked in let o = inv.one in (omega arith, (inv.alone, (o, inv.counts)))
  where
    reached : {k : ℕ} {m : RwSpinLock} → Reachable k m → IsExclusive m
    reached {k} Reachable.start = record {
      one = total-idle has_lock k refl;
      counts = total-idle is_counted k refl;
      alone = inl (total-idle is_writing k refl);
    }
    reached (Reachable.step_of before (Step.runs i phase w at)) =
        advance-IsExclusive _ i phase w (reached before) at

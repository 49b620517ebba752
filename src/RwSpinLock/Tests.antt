-- ===== src/RwSpinLock/Tests.antt =====
-- The tests of kernel/lib/rwspinlock.c: of two CPUs the first takes the lock for writing, the second spins.
use vimix_os.Base.{◌≤◌, ◌≡◌, ◌⊎◌, refl, true, false, [], ◌∷◌}
use vimix_os.RwSpinLock.{Phase, RwSpinLock, rwspin_lock_init, advance, Step, Reachable}
use vimix_os.RwSpinLock.Counting.{total, is_writing, has_lock, is_counted, bit}
use vimix_os.RwSpinLock.Exclusion.{Reachable-IsExclusive}

abbrev contended : RwSpinLock
contended = record { locked = true; readers = 0; cpus = Phase.writing ∷ Phase.read_spins ∷ [] }

contended-Reachable : Reachable 2 contended
unfolding rwspin_lock_init advance
contended-Reachable =
    Reachable.step_of
      (Reachable.step_of
        (Reachable.step_of
          (Reachable.step_of (Reachable.step_of Reachable.start (Step.runs 0 Phase.idle true refl))
            (Step.runs 0 Phase.write_spins true refl))
          (Step.runs 1 Phase.idle false refl))
        (Step.runs 1 Phase.read_spins false refl))
      (Step.runs 0 Phase.write_waits true refl)

exclusive_example :
    (total is_writing contended.cpus ≤ 1)
    × (((total is_writing contended.cpus ≡ 0) ⊎ (contended.readers ≡ 0))
        × ((total has_lock contended.cpus ≡ bit contended.locked)
            × (total is_counted contended.cpus ≡ contended.readers)))
exclusive_example = Reachable-IsExclusive contended-Reachable

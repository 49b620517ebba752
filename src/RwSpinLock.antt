-- ===== src/RwSpinLock.antt =====
-- kernel/lib/rwspinlock.c: CPUs that take and release a read-write spin lock, one atomic access to the
-- lock a step, in any order. The debug fields `cpu` and `name` are left out.
pub mod Counting
pub mod Exclusion
mod Tests
use vimix_os.Base.{
  ℕ, suc, ◌+◌, ◌-◌, ◌<◌, ◌≡◌, Bool, true, false, Option, none, some, List, [], ◌∷◌, get_elem?, set,
  replicate, ◌==◌, if◌then◌else◌,
}

-- where a CPU is between two atomic accesses
pub data Phase : Type 0 where
  -- outside of the functions, holding nothing
  idle : Phase
  -- in the first loop of `rwspin_read_lock` or `rwspin_write_lock`
  read_spins write_spins : Phase
  -- `rwspin_read_lock` behind its loop, and behind its fetch_add
  read_entered read_counted : Phase
  -- `rwspin_write_lock` in its second loop
  write_waits : Phase
  -- the lock functions have returned
  reading writing : Phase

pub record RwSpinLock : Type 0 where
  pub locked : Bool
  pub readers : ℕ
  pub cpus : List Phase

-- `rwspin_lock_init` on a machine of n CPUs
pub rwspin_lock_init : ℕ → RwSpinLock
rwspin_lock_init n = record { locked = false; readers = 0; cpus = replicate n Phase.idle }

-- `atomic_exchange_explicit(&lk->locked, true)` in a loop: a CPU that reads false goes on
pub exchange : Phase → Phase → ℕ → RwSpinLock → RwSpinLock
exchange spins entered i lk = record {
  locked = true;
  readers = lk.readers;
  cpus = elim lk.locked [ true ↦ set lk.cpus i spins | false ↦ set lk.cpus i entered ];
}

pub fetch_add : ℕ → RwSpinLock → RwSpinLock
fetch_add i lk = record {
  locked = lk.locked;
  readers = lk.readers + 1;
  cpus = set lk.cpus i Phase.read_counted;
}

pub fetch_sub : ℕ → RwSpinLock → RwSpinLock
fetch_sub i lk = record {
  locked = lk.locked;
  readers = lk.readers - 1;
  cpus = set lk.cpus i Phase.idle;
}

pub release : Phase → ℕ → RwSpinLock → RwSpinLock
release next i lk = record { locked = false; readers = lk.readers; cpus = set lk.cpus i next }

-- `atomic_load_explicit(&lk->readers)` in a loop
pub load_readers : ℕ → RwSpinLock → RwSpinLock
load_readers i lk = record {
  locked = lk.locked;
  readers = lk.readers;
  cpus = if lk.readers == 0 then set lk.cpus i Phase.writing else lk.cpus;
}

enter : Phase → ℕ → RwSpinLock → RwSpinLock
enter next i lk = record { locked = lk.locked; readers = lk.readers; cpus = set lk.cpus i next }

-- the next atomic access of a CPU in its phase; an idle one chooses the lock it wants by `wants_write`
pub advance : Phase → Bool → ℕ → RwSpinLock → RwSpinLock
unfolding exchange fetch_add fetch_sub release load_readers enter
advance Phase.idle false i lk = enter Phase.read_spins i lk
advance Phase.idle true i lk = enter Phase.write_spins i lk
advance Phase.read_spins w i lk = exchange Phase.read_spins Phase.read_entered i lk
advance Phase.write_spins w i lk = exchange Phase.write_spins Phase.write_waits i lk
advance Phase.read_entered w i lk = fetch_add i lk
advance Phase.read_counted w i lk = release Phase.reading i lk
advance Phase.write_waits w i lk = load_readers i lk
advance Phase.reading w i lk = fetch_sub i lk
advance Phase.writing w i lk = release Phase.idle i lk

-- One CPU takes its next step.
pub data Step (before : RwSpinLock) : RwSpinLock → Type 0 where
  runs :
      (i : ℕ) (phase : Phase) (wants_write : Bool)
      → get_elem? before.cpus i ≡ some phase
      → Step before (advance phase wants_write i before)

-- what any number of CPUs can reach
pub data Reachable (n : ℕ) : RwSpinLock → Type 0 where
  start : Reachable n (rwspin_lock_init n)
  step_of : {before after : RwSpinLock} → Reachable n before → Step before after → Reachable n after

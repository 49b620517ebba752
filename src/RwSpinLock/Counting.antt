-- ===== src/RwSpinLock/Counting.antt =====
-- Counting the CPUs of kernel/lib/rwspinlock.c that are in a phase.
use vimix_os.Base.{
  ℕ, zero, suc, ◌+◌, ◌≤◌, ◌≡◌, refl, ap, Bool, true, false, Option, none, some, List, [], ◌∷◌,
  get_elem?, set, replicate, arith,
}
use vimix_os.RwSpinLock.{Phase}

-- 1 for a CPU that has set `locked`
unfoldable pub has_lock : Phase → ℕ
has_lock Phase.read_entered = 1
has_lock Phase.read_counted = 1
has_lock Phase.write_waits = 1
has_lock Phase.writing = 1
has_lock _ = 0

-- 1 for a CPU that `readers` counts
unfoldable pub is_counted : Phase → ℕ
is_counted Phase.read_counted = 1
is_counted Phase.reading = 1
is_counted _ = 0

unfoldable pub is_writing : Phase → ℕ
is_writing Phase.writing = 1
is_writing _ = 0

-- the number of CPUs a test holds of
pub total : (Phase → ℕ) → List Phase → ℕ
total f [] = 0
total f (p ∷ ps) = f p + total f ps

unfoldable pub bit : Bool → ℕ
bit true = 1
bit false = 0

weight : (Phase → ℕ) → ℕ → Option Phase → ℕ
weight f other none = other
weight f other (some p) = f p

pub total-set :
    (f : Phase → ℕ) (ps : List Phase) (i : ℕ) (old new : Phase)
    → get_elem? ps i ≡ some old
    → total f (set ps i new) + f old ≡ total f ps + f new
unfolding total weight
total-set f [] i old new at = let no = ap (weight (λ p. 1) 0) at in absurd (omega arith)
total-set f (p ∷ ps) zero old new at = let same = ap (weight f 0) at in omega arith
total-set f (p ∷ ps) (suc i) old new at = let ih = total-set f ps i old new at in omega arith

pub total_at :
    (f : Phase → ℕ) (ps : List Phase) (i : ℕ) (p : Phase)
    → get_elem? ps i ≡ some p
    → f p ≤ total f ps
unfolding total weight
total_at f [] i p at = let no = ap (weight (λ p. 1) 0) at in absurd (omega arith)
total_at f (q ∷ ps) zero p at = let same = ap (weight f 0) at in omega arith
total_at f (q ∷ ps) (suc i) p at = let ih = total_at f ps i p at in omega arith

-- 1 for a CPU that is about to be counted
unfoldable pub is_entered : Phase → ℕ
is_entered Phase.read_entered = 1
is_entered _ = 0

entered_or_writing : (p : Phase) → is_entered p + is_writing p ≤ has_lock p
unfolding is_entered is_writing has_lock
entered_or_writing p = ground arith

pub total_le : (ps : List Phase) → total is_entered ps + total is_writing ps ≤ total has_lock ps
unfolding total
total_le [] = omega arith
total_le (p ∷ ps) = let here = entered_or_writing p in let ih = total_le ps in omega arith

pub total-idle : (f : Phase → ℕ) (n : ℕ) → f Phase.idle ≡ 0 → total f (replicate n Phase.idle) ≡ 0
unfolding total
total-idle f zero e = refl
total-idle f (suc n) e = let ih = total-idle f n e in omega arith

-- ===== src/Transactions/Slots.antt =====
-- The client slots of the log of kernel/fs/vimixfs/log.c: three arrays of one length.
use vimix_os.Base.{
  ℕ, zero, suc, ◌+◌, ◌≤◌, ◌<◌, ◌≡◌, ◌≢◌, refl, ap, some, List, [], ◌∷◌, arith, length, get_or, set,
  ◌==◌, if◌then◌else◌, ◌%◌, ◌^◌, ◌∙◌,
}
use vimix_os.Transactions.{find_client, add_all}

unfoldable pub sum : List ℕ → ℕ
sum [] = 0
sum (x ∷ xs) = x + sum xs

-- the number of slots in use
unfoldable pub busy : List ℕ → ℕ
busy [] = 0
busy (c ∷ clients) = (if c == 0 then 0 else 1) + busy clients

-- Slot by slot: no more blocks used than reserved, and a free slot has reserved none.
abbrev pub AreSlots : List ℕ → List ℕ → List ℕ → Type 0
AreSlots [] [] [] = Unit
AreSlots (c ∷ cs) (u ∷ us) (r ∷ rs) = (u ≤ r) × (c ≡ 0 → r ≡ 0) × AreSlots cs us rs
AreSlots _ _ _ = ⊥

pub AreSlots-set :
    (cs us rs : List ℕ) (i c u r : ℕ)
    → AreSlots cs us rs
    → u ≤ r
    → (c ≡ 0 → r ≡ 0)
    → AreSlots (set cs i c) (set us i u) (set rs i r)
AreSlots-set [] [] [] i c u r h le idle = h
AreSlots-set (_ ∷ cs) (_ ∷ us) (_ ∷ rs) zero c u r h le idle = (le, idle, h.2)
AreSlots-set (_ ∷ cs) (_ ∷ us) (_ ∷ rs) (suc i) c u r h le idle =
    (h.0, h.1, AreSlots-set cs us rs i c u r h.2 le idle)
AreSlots-set [] [] (_ ∷ rs) i c u r h le idle = absurd h
AreSlots-set [] (_ ∷ us) rs i c u r h le idle = absurd h
AreSlots-set (_ ∷ cs) [] rs i c u r h le idle = absurd h
AreSlots-set (_ ∷ cs) (_ ∷ us) [] i c u r h le idle = absurd h

pub AreSlots-get :
    (cs us rs : List ℕ) (i : ℕ)
    → AreSlots cs us rs
    → i < length cs
    → (get_or us i 0 ≤ get_or rs i 0)
      × (i < length us)
      × (i < length rs)
      × (get_or cs i 0 ≡ 0 → get_or rs i 0 ≡ 0)
AreSlots-get [] us rs i h lt = absurd (omega arith)
AreSlots-get (_ ∷ cs) (_ ∷ us) (_ ∷ rs) zero h lt = (h.0, omega arith, omega arith, h.1)
AreSlots-get (_ ∷ cs) (_ ∷ us) (_ ∷ rs) (suc i) h lt =
    let ih = AreSlots-get cs us rs i h.2 (omega arith) in (ih.0, omega arith, omega arith, ih.3)
AreSlots-get (_ ∷ cs) [] rs i h lt = absurd h
AreSlots-get (_ ∷ cs) (_ ∷ us) [] i h lt = absurd h

pub sum-set :
    (xs : List ℕ) (i v : ℕ) → i < length xs → sum (set xs i v) + get_or xs i 0 ≡ sum xs + v
unfolding sum
sum-set [] i v h = absurd (omega arith)
sum-set (x ∷ xs) zero v h = omega arith
sum-set (x ∷ xs) (suc i) v h = omega (arith, sum-set xs i v (omega arith))

pub busy-enter :
    (cs : List ℕ) (i pid : ℕ)
    → i < length cs
    → get_or cs i 0 ≡ 0
    → pid ≢ 0
    → busy (set cs i pid) ≡ busy cs + 1
unfolding busy
busy-enter [] i pid h e ne = absurd (omega arith)
busy-enter (c ∷ cs) zero pid h e ne = ground arith
busy-enter (c ∷ cs) (suc i) pid h e ne = omega (arith, busy-enter cs i pid (omega arith) e ne)

pub busy-leave :
    (cs : List ℕ) (i : ℕ) → i < length cs → get_or cs i 0 ≢ 0 → busy (set cs i 0) + 1 ≡ busy cs
unfolding busy
busy-leave [] i h ne = absurd (omega arith)
busy-leave (c ∷ cs) zero h ne = ground arith
busy-leave (c ∷ cs) (suc i) h ne = omega (arith, busy-leave cs i (omega arith) ne)

pub busy-le : (cs : List ℕ) → busy cs ≤ length cs
unfolding busy
busy-le [] = omega arith
busy-le (c ∷ cs) = ground (arith, busy-le cs)

-- When no slot is in use nothing is reserved or used.
pub all_idle : (cs us rs : List ℕ) → AreSlots cs us rs → busy cs ≡ 0 → (sum us ≡ 0) × (sum rs ≡ 0)
unfolding busy sum
all_idle [] [] [] h e = (refl, refl)
all_idle (c ∷ cs) (u ∷ us) (r ∷ rs) h e = ground (arith, h.1, all_idle cs us rs h.2)
all_idle [] [] (_ ∷ rs) h e = absurd h
all_idle [] (_ ∷ us) rs h e = absurd h
all_idle (_ ∷ cs) [] rs h e = absurd h
all_idle (_ ∷ cs) (_ ∷ us) [] h e = absurd h

pub sum_used-le : (cs us rs : List ℕ) → AreSlots cs us rs → sum us ≤ sum rs
unfolding sum
sum_used-le [] [] [] h = omega arith
sum_used-le (c ∷ cs) (u ∷ us) (r ∷ rs) h = omega (arith, h.0, sum_used-le cs us rs h.2)
sum_used-le [] [] (_ ∷ rs) h = absurd h
sum_used-le [] (_ ∷ us) rs h = absurd h
sum_used-le (_ ∷ cs) [] rs h = absurd h
sum_used-le (_ ∷ cs) (_ ∷ us) [] h = absurd h

-- The search gives the index of a slot that holds the pid.
pub find_client_found :
    (pid : ℕ) (cs : List ℕ) (i : ℕ)
    → find_client pid cs ≡ some i
    → (i < length cs) × (get_or cs i 0 ≡ pid)
unfolding find_client
find_client_found pid [] i e = cc
find_client_found pid (c ∷ cs) zero e = ground arith
find_client_found pid (c ∷ cs) (suc i) e = ground (arith, find_client_found pid cs i)

pub add_all-sum : (acc : ℕ) (xs : List ℕ) → acc + sum xs < 2 ^ 64 → add_all acc xs ≡ acc + sum xs
unfolding add_all sum
add_all-sum acc [] h = omega arith
add_all-sum acc (x ∷ xs) h =
    ap (λ k. add_all k xs) small ∙ add_all-sum (acc + x) xs (omega arith) ∙ omega arith
  where
    small : (acc + x) % 2 ^ 64 ≡ acc + x
    small = omega arith

pub AreSlots-set_used :
    (cs us rs : List ℕ) (i u : ℕ)
    → AreSlots cs us rs
    → u ≤ get_or rs i 0
    → AreSlots cs (set us i u) rs
AreSlots-set_used [] [] [] i u h le = h
AreSlots-set_used (_ ∷ cs) (_ ∷ us) (_ ∷ rs) zero u h le = (le, h.1, h.2)
AreSlots-set_used (_ ∷ cs) (_ ∷ us) (_ ∷ rs) (suc i) u h le =
    (h.0, h.1, AreSlots-set_used cs us rs i u h.2 le)
AreSlots-set_used [] [] (_ ∷ rs) i u h le = absurd h
AreSlots-set_used [] (_ ∷ us) rs i u h le = absurd h
AreSlots-set_used (_ ∷ cs) [] rs i u h le = absurd h
AreSlots-set_used (_ ∷ cs) (_ ∷ us) [] i u h le = absurd h

-- A client with room left leaves room in the whole.
pub sum_used-lt :
    (cs us rs : List ℕ) (i : ℕ)
    → AreSlots cs us rs
    → get_or us i 0 < get_or rs i 0
    → sum us < sum rs
unfolding sum
sum_used-lt [] [] [] i h lt = absurd (omega arith)
sum_used-lt (c ∷ cs) (u ∷ us) (r ∷ rs) zero h lt = omega (arith, sum_used-le cs us rs h.2)
sum_used-lt (c ∷ cs) (u ∷ us) (r ∷ rs) (suc i) h lt =
    omega (arith, h.0, sum_used-lt cs us rs i h.2 lt)
sum_used-lt [] [] (_ ∷ rs) i h lt = absurd h
sum_used-lt [] (_ ∷ us) rs i h lt = absurd h
sum_used-lt (_ ∷ cs) [] rs i h lt = absurd h
sum_used-lt (_ ∷ cs) (_ ∷ us) [] i h lt = absurd h

pub get_or-le-sum : (xs : List ℕ) (i : ℕ) → get_or xs i 0 ≤ sum xs
unfolding sum
get_or-le-sum [] i = omega arith
get_or-le-sum (x ∷ xs) zero = omega arith
get_or-le-sum (x ∷ xs) (suc i) = omega (arith, get_or-le-sum xs i)

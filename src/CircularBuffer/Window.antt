-- ===== src/CircularBuffer/Window.antt =====
-- The bytes between two indices of the circular buffer of kernel/lib/cbuffer.c.
use vimix_os.Base.{
  ℕ, zero, suc, ◌+◌, ◌-◌, ◌%◌, ◌<◌, ◌≤◌, ◌≡◌, ◌≢◌, refl, sym, ap, ◌∙◌, leb, false, List, [], ◌∷◌,
  ◌++◌, ◌==◌, if◌then◌else◌, arith, Bool-cases, inl, inr, ==_iff, drop,
}
use vimix_os.CircularBuffer.{store}

mod_self : (n : ℕ) → 0 < n → n % n ≡ 0
mod_self n positive = grind arith

mod_small : (a n : ℕ) → a < n → a % n ≡ a
mod_small a n below = grind arith

unfoldable pub next : ℕ → ℕ → ℕ
next capacity i = (i + 1) % capacity

pub next_lem :
    (capacity i : ℕ) → i < capacity → next capacity i ≡ (if i + 1 == capacity then 0 else i + 1)
unfolding next
next_lem capacity i below = elim (Bool-cases (i + 1 == capacity)) [
  | inl wraps ↦
      rw wraps (
        ap (λ n. n % capacity) ((==_iff (i + 1) capacity).0 wraps)
        ∙ mod_self capacity (omega arith))
  | inr stays ↦ rw stays (mod_small (i + 1) capacity (ground arith))
]

pub next_lt : (capacity i : ℕ) → i < capacity → next capacity i < capacity
next_lt capacity i below = let e = next_lem capacity i below in ground arith

-- the steps from index t to index h
abbrev pub distance : ℕ → ℕ → ℕ → ℕ
distance capacity t h = if leb t h then h - t else capacity - (t - h)

pub distance-next :
    (capacity t h : ℕ)
    → t < capacity
    → h < capacity
    → t ≢ h
    → distance capacity t h ≡ suc (distance capacity (next capacity t) h)
distance-next capacity t h tb hb apart = let e = next_lem capacity t tb in ground arith

-- n bytes from index t on
unfoldable pub window : (ℕ → ℕ) → ℕ → ℕ → ℕ → List ℕ
window buffer capacity t zero = []
window buffer capacity t (suc n) = buffer t ∷ window buffer capacity (next capacity t) n

pub window-store :
    (buffer : ℕ → ℕ) (capacity t h v n : ℕ)
    → t < capacity
    → h < capacity
    → n ≤ distance capacity t h
    → window (store h v buffer) capacity t n ≡ window buffer capacity t n
unfolding window store
window-store buffer capacity t h v zero tb hb near = refl
window-store buffer capacity t h v (suc n) tb hb near =
    let apart : t ≢ h = λ e. ground arith in
    let d = distance-next capacity t h tb hb apart in
    let other : t == h ≡ false = ground arith in
    rw other (
      ap (λ l. buffer t ∷ l)
        (window-store buffer capacity (next capacity t) h v n (next_lt capacity t tb) hb
          (omega arith)))

-- One byte more is the byte at the end.
pub window_end :
    (buffer : ℕ → ℕ) (capacity t h n : ℕ)
    → t < capacity
    → h < capacity
    → distance capacity t h ≡ n
    → window buffer capacity t (suc n) ≡ window buffer capacity t n ++ buffer h ∷ []
unfolding window
window_end buffer capacity t h zero tb hb d = ap (λ i. buffer i ∷ []) (ground arith)
window_end buffer capacity t h (suc n) tb hb d =
    let apart : t ≢ h = λ e. ground arith in
    let e = distance-next capacity t h tb hb apart in
    ap (λ l. buffer t ∷ l)
      (window_end buffer capacity (next capacity t) h n (next_lt capacity t tb) hb (omega arith))

store_self : (buffer : ℕ → ℕ) (h v : ℕ) → store h v buffer h ≡ v
unfolding store
store_self buffer h v = ground arith

-- what `distance` becomes when the head moves on
pub distance_room :
    (capacity t h : ℕ)
    → t < capacity
    → h < capacity
    → next capacity h ≢ t
    → (distance capacity t (next capacity h) ≡ suc (distance capacity t h))
      × (suc (distance capacity t h) < capacity)
distance_room capacity t h tb hb room =
    let e = next_lem capacity h hb in (ground arith, ground arith)

-- A byte stored at the head extends the window.
pub window_grows :
    (buffer : ℕ → ℕ) (capacity t h v : ℕ)
    → t < capacity
    → h < capacity
    → window (store h v buffer) capacity t (suc (distance capacity t h))
      ≡ window buffer capacity t (distance capacity t h) ++ v ∷ []
window_grows buffer capacity t h v tb hb =
    window_end (store h v buffer) capacity t h (distance capacity t h) tb hb refl
    ∙ (rw
        (
          store_self buffer h v,
          window-store buffer capacity t h v (distance capacity t h) tb hb (omega arith),
        )
        refl)

-- When the next head is the tail the window is as long as it can be, before and after.
pub distance_full :
    (capacity h : ℕ)
    → 1 < capacity
    → h < capacity
    → let t = next capacity h in
      (distance capacity t h ≡ capacity - 1)
      × ((distance capacity (next capacity t) h ≡ capacity - 2)
          × (distance capacity (next capacity t) t ≡ capacity - 1))
distance_full capacity h room hb =
    let e = next_lem capacity h hb in
    let e1 = next_lem capacity (next capacity h) (next_lt capacity h hb) in
    (ground arith, (ground arith, ground arith))

-- In a full buffer the byte stored at the head replaces the oldest one.
pub window_replaces :
    (buffer : ℕ → ℕ) (capacity h v : ℕ)
    → 1 < capacity
    → h < capacity
    → let t = next capacity h in
      window (store h v buffer) capacity (next capacity t) (distance capacity (next capacity t) t)
      ≡ drop 1 (window buffer capacity t (distance capacity t h)) ++ v ∷ []
unfolding window
window_replaces buffer capacity h v room hb =
    let t = next capacity h in
    let t1 = next capacity t in
    let (before, (shorter, after)) = distance_full capacity h room hb in
    let grown : distance capacity t1 t ≡ suc (distance capacity t1 h) = omega arith in
    let held : distance capacity t h ≡ suc (distance capacity t1 h) = omega arith in
    ap (window (store h v buffer) capacity t1) grown
    ∙ window_grows buffer capacity t1 h v (next_lt capacity t (next_lt capacity h hb)) hb
    ∙ ap (λ n. drop 1 (window buffer capacity t n) ++ v ∷ []) (sym held)

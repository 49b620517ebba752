-- ===== src/BufferCache/Lists.antt =====
-- The list of the buffer cache (kernel/kernel/bio.c): sums over it, and what an assignment through a
-- pointer, an unlinking and a move to the tail do to them.
use vimix_os.Base.{
  ℕ, ◌+◌, ◌-◌, ◌<◌, ◌≡◌, inl, inr, refl, sym, ap, Bool, true, false, Bool-cases, some, List, [],
  ◌∷◌, ◌++◌, ◌==◌, if◌then◌else◌, arith, All, subst,
}
use vimix_os.BufferCache.Buffers.{Buf, decrement, find_at, update, remove}
use vimix_os.BufferCache.Operations.{move_to_tail}

unfoldable pub total : (Buf → ℕ) → List Buf → ℕ
total weight [] = 0
total weight (b ∷ rest) = weight b + total weight rest

pub decrement_lem : (largest n : ℕ) → 0 < n → decrement largest n ≡ n - 1
unfolding decrement
decrement_lem largest n positive = ground arith

-- one for the buffer at an address
abbrev pub at : ℕ → Buf → ℕ
at a b = if b.address == a then 1 else 0

pub found_address : (a : ℕ) (b : Buf) (l : List Buf) → find_at a l ≡ some b → b.address ≡ a
unfolding find_at
found_address a b [] e = ground arith
found_address a b (x ∷ l) e = let ih = found_address a b l in ground arith

pub found_counted : (a : ℕ) (b : Buf) (l : List Buf) → find_at a l ≡ some b → 0 < total (at a) l
unfolding find_at total
found_counted a b [] e = ground arith
found_counted a b (x ∷ l) e = let ih = found_counted a b l in ground arith

pub counted-find : (a : ℕ) (l : List Buf) → 0 < total (at a) l → (b : Buf) × (find_at a l ≡ some b)
unfolding find_at total
counted-find a [] h = absurd (omega arith)
counted-find a (x ∷ l) h = elim (Bool-cases (x.address == a)) [
  | inl here ↦ (x, ground arith)
  | inr later ↦ let (b, e) = counted-find a l (ground arith) in (b, ground arith)
]

pub total-update :
    (weight : Buf → ℕ) (f : Buf → Buf) (a : ℕ) (b : Buf) (l : List Buf)
    → find_at a l ≡ some b
    → total weight (update f a l) + weight b ≡ total weight l + weight (f b)
unfolding total update find_at
total-update weight f a b [] e = ground arith
total-update weight f a b (x ∷ l) e = let ih = total-update weight f a b l in ground arith

pub total-remove :
    (weight : Buf → ℕ) (a : ℕ) (b : Buf) (l : List Buf)
    → find_at a l ≡ some b
    → total weight (remove a l) + weight b ≡ total weight l
unfolding total remove find_at
total-remove weight a b [] e = ground arith
total-remove weight a b (x ∷ l) e = let ih = total-remove weight a b l in ground arith

pub total-append :
    (weight : Buf → ℕ) (l : List Buf) (b : Buf)
    → total weight (l ++ (b ∷ [])) ≡ total weight l + weight b
unfolding total
total-append weight [] b = ground arith
total-append weight (x ∷ l) b = let ih = total-append weight l b in omega arith

pub move-found :
    (a : ℕ) (b : Buf) (l : List Buf)
    → find_at a l ≡ some b
    → move_to_tail a l ≡ remove a l ++ (b ∷ [])
unfolding move_to_tail
move-found a b l e = ground arith

pub total-move :
    (weight : Buf → ℕ) (a : ℕ) (b : Buf) (l : List Buf)
    → find_at a l ≡ some b
    → total weight (move_to_tail a l) ≡ total weight l
total-move weight a b l e =
    let t = ap (total weight) (move-found a b l e) in
    let m = total-remove weight a b l e in let n = total-append weight (remove a l) b in omega arith

-- A change that keeps the address is found behind the pointer.
pub find-update :
    (f : Buf → Buf) (a : ℕ) (b : Buf) (l : List Buf)
    → find_at a l ≡ some b
    → (f b).address ≡ a
    → find_at a (update f a l) ≡ some (f b)
unfolding update find_at
find-update f a b [] e h = ground arith
find-update f a b (x ∷ l) e h = let ih = find-update f a b l in ground arith

-- A property of all buffers, and of one of them.
module _ (P : Buf → Type 0) where
  All-if :
      (t : Bool) (xs ys : List Buf)
      → (t ≡ true → All P xs)
      → (t ≡ false → All P ys)
      → All P (if t then xs else ys)
  All-if true xs ys p q = p refl
  All-if false xs ys p q = q refl

  pub All-find : (a : ℕ) (b : Buf) (l : List Buf) → find_at a l ≡ some b → All P l → P b
  unfolding find_at
  All-find a b [] e h = absurd (ground arith)
  All-find a b (x ∷ l) e h = elim (Bool-cases (x.address == a)) [
    | inl here ↦ let same : x ≡ b = ground arith in subst P same h.0
    | inr later ↦ All-find a b l (ground arith) h.1
  ]

  pub All-update :
      (f : Buf → Buf) (a : ℕ) (b : Buf) (l : List Buf)
      → find_at a l ≡ some b
      → P (f b)
      → All P l
      → All P (update f a l)
  unfolding find_at update
  All-update f a b [] e p h = tt
  All-update f a b (x ∷ l) e p h =
      All-if (x.address == a) (f x ∷ l) (x ∷ update f a l)
        (λ here. (let same : x ≡ b = ground arith in subst (λ y. P (f y)) (sym same) p, h.1))
        (λ later. (h.0, All-update f a b l (ground arith) p h.1))

  pub All-remove : (a : ℕ) (l : List Buf) → All P l → All P (remove a l)
  unfolding remove
  All-remove a [] h = tt
  All-remove a (x ∷ l) h =
      All-if (x.address == a) l (x ∷ remove a l) (λ here. h.1) (λ later. (h.0, All-remove a l h.1))

  All-append : (l : List Buf) (b : Buf) → All P l → P b → All P (l ++ (b ∷ []))
  All-append [] b h p = (p, tt)
  All-append (x ∷ l) b h p = (h.0, All-append l b h.1 p)

  pub All-move :
      (a : ℕ) (b : Buf) (l : List Buf) → find_at a l ≡ some b → All P l → All P (move_to_tail a l)
  All-move a b l e h =
      subst (All P) (sym (move-found a b l e))
        (All-append (remove a l) b (All-remove a l h) (All-find a b l e h))

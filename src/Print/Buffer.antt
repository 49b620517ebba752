-- ===== src/Print/Buffer.antt =====
-- kernel/lib/print_impl.c: what stands at the end of a buffer that is filled from behind.
use vimix_os.Base.{
  ℕ, zero, suc, ◌-◌, ◌<◌, ◌≤◌, ◌≡◌, ◌⊎◌, inl, inr, refl, subst, leb, ltb, true, false, Option, none,
  some, List, ◌∷◌, ◌++◌, length, replicate, arith, ◌==◌, if◌then◌else◌, Bool-cases, ap,
}
use vimix_os.Print.{Buffer, store, put, pad_loop, text, emit}

-- The last characters of the buffer are these, or they do not fit and there is no result.
abbrev pub Shows : ℕ → Option (ℕ × Buffer) → List ℕ → Type 0
Shows max_len o t =
    ((length t ≤ max_len)
      × ((b : Buffer) × ((o ≡ some (length t, b)) × (text b (max_len - length t) (length t) ≡ t))))
    ⊎ ((max_len < length t) × (o ≡ none))

pub text-store :
    (b : Buffer) (i c from n : ℕ) → i < from → text (store i c b) from n ≡ text b from n
unfolding text
text-store b i c from zero below = refl
text-store b i c from (suc n) below =
    let other : (from == i) ≡ false = ground arith in
    rw (other, text-store b i c (suc from) n (omega arith)) refl

pub put-Shows :
    (max_len c : ℕ) (o : Option (ℕ × Buffer)) (t : List ℕ)
    → Shows max_len o t
    → Shows max_len (put max_len c o) (c ∷ t)
unfolding put text
put-Shows max_len c o t (inr (long, e)) = inr (omega arith, rw (e, put) refl)
put-Shows max_len c o t (inl (fits, (b, (e, same)))) = elim (Bool-cases (ltb (length t) max_len)) [
  | inl room ↦
      let here : (max_len - suc (length t) == max_len - length t - 1) ≡ true = ground arith in
      let next : suc (max_len - suc (length t)) ≡ max_len - length t = ground arith in
      inl (
        ground arith,
        (
          store (max_len - length t - 1) c b,
          (
            rw (e, room, put) refl,
            rw
                (
                  here,
                  next,
                  text-store b (max_len - length t - 1) c (max_len - length t) (length t)
                      (ground arith),
                  same,
                )
                refl,
          ),
        ),
      )
  | inr full ↦ inr (ground arith, rw (e, full, put) refl)
]

-- The padding loop puts its characters in front.
pub pad_loop-Shows :
    (max_len n c : ℕ) (o : Option (ℕ × Buffer)) (t : List ℕ)
    → Shows max_len o t
    → Shows max_len (pad_loop max_len n c o) (replicate n c ++ t)
unfolding pad_loop
pad_loop-Shows max_len zero c o t h = h
pad_loop-Shows max_len (suc n) c o t h =
    subst (Shows max_len (pad_loop max_len n c (put max_len c o))) (shift n c t)
      (pad_loop-Shows max_len n c (put max_len c o) (c ∷ t) (put-Shows max_len c o t h))
  where
    shift : (k c : ℕ) (xs : List ℕ) → replicate k c ++ (c ∷ xs) ≡ c ∷ (replicate k c ++ xs)
    shift zero c xs = refl
    shift (suc k) c xs = ap (λ ys. c ∷ ys) (shift k c xs)

pub emit-Shows :
    (max_len : ℕ) (o : Option (ℕ × Buffer)) (t : List ℕ)
    → Shows max_len o t
    → emit max_len o ≡ (if leb (length t) max_len then some t else none)
unfolding emit
emit-Shows max_len o t (inl (fits, (b, (e, same)))) =
    let f : leb (length t) max_len ≡ true = ground arith in rw (f, e, emit, same) refl
emit-Shows max_len o t (inr (long, e)) =
    let f : leb (length t) max_len ≡ false = ground arith in rw (f, e, emit) refl

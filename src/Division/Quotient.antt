-- ===== src/Division/Quotient.antt =====
-- kernel/lib/div64.c: div_u64 gives quotient and remainder.
use vimix_os.Base.{
  ℕ, zero, suc, ◌+◌, ◌-◌, ◌*◌, ◌/◌, ◌%◌, ◌^◌, ◌<◌, ◌≤◌, ◌≡◌, sym, ap, ◌∙◌, leb, Bool-cases,
  if◌then◌else◌, arith, inl, inr,
}
use native.Mathlib.Nat.{
  div-add-mod', div-div-eq-div-mul, mul-add-div_right, mul-add-mod_self_right, mod-eq_of_lt,
  div-eq_of_lt, mod-lt, mod-le, div-one, mul-div_cancel, div-le_self, zero-div, zero-mod,
}
use vimix_os.Division.{word, set_bit, shift_in, divide, div_u64}

power_positive : (i : ℕ) → 0 < 2 ^ i
power_positive zero = omega arith
power_positive (suc i) = let ih = power_positive i in omega arith

-- A quotient is known by its remainder.
divides_as : (m d k e : ℕ) → m ≡ k * d + e → e < d → (m / d ≡ k) × (m % d ≡ e)
divides_as m d k e h small = (
  ap (λ x. x / d) h
      ∙ (mul-add-div_right (omega arith) k e ∙ (let z = div-eq_of_lt small in omega (arith, z))),
  ap (λ x. x % d) h ∙ (mul-add-mod_self_right k d e ∙ mod-eq_of_lt small),
)

-- One more bit.
half : (n i : ℕ) → n / 2 ^ suc i ≡ n / 2 ^ i / 2
half n i = sym (div-div-eq-div-mul n (2 ^ i) 2 ∙ ap (λ x. n / x) (omega arith))

module _ (n d i : ℕ) (positive : 0 < d) (small : n < word) where
  shifted : shift_in i n (n / 2 ^ suc i % d) ≡ 2 * (n / 2 ^ suc i % d) + n / 2 ^ i % 2
  unfolding shift_in
  shifted =
      let h = half n i in
      let l = div-le_self n (2 ^ i) in let m = mod-le (n / 2 ^ suc i) d in omega arith

  next_larger :
      d ≤ 2 * (n / 2 ^ suc i % d) + n / 2 ^ i % 2
      → (n / 2 ^ i / d ≡ 2 * (n / 2 ^ suc i / d) + 1)
        × (n / 2 ^ i % d ≡ 2 * (n / 2 ^ suc i % d) + n / 2 ^ i % 2 - d)
  next_larger large =
      let h = half n i in
      let s = div-add-mod' (n / 2 ^ suc i) d in
      let r = mod-lt (n / 2 ^ suc i) positive in
      divides_as (n / 2 ^ i) d (2 * (n / 2 ^ suc i / d) + 1)
        (2 * (n / 2 ^ suc i % d) + n / 2 ^ i % 2 - d) (omega arith) (omega arith)

  next_smaller :
      2 * (n / 2 ^ suc i % d) + n / 2 ^ i % 2 < d
      → (n / 2 ^ i / d ≡ 2 * (n / 2 ^ suc i / d))
        × (n / 2 ^ i % d ≡ 2 * (n / 2 ^ suc i % d) + n / 2 ^ i % 2)
  next_smaller less =
      let h = half n i in
      let s = div-add-mod' (n / 2 ^ suc i) d in
      divides_as (n / 2 ^ i) d (2 * (n / 2 ^ suc i / d)) (2 * (n / 2 ^ suc i % d) + n / 2 ^ i % 2)
        (omega arith) less

twice : (q i : ℕ) → q * 2 ^ suc i ≡ 2 * q * 2 ^ i
twice q i =
    let p : 2 ^ suc i ≡ 2 * 2 ^ i = omega arith in
    ap (λ t. q * t) p ∙ (let r : q * (2 * 2 ^ i) ≡ 2 * q * 2 ^ i = omega arith in r)

set_bit_lem : (i q : ℕ) → set_bit i (q * 2 ^ suc i) ≡ (2 * q + 1) * 2 ^ i
unfolding set_bit
set_bit_lem i q =
    let e = twice q i in
    let m = mul-div_cancel (2 * q) (power_positive i) in
    let k = ap (λ x. x / 2 ^ i) e ∙ m in
    let b : q * 2 ^ suc i / 2 ^ i % 2 ≡ 0 = omega arith in ground arith

-- What a round makes of the quotient and the remainder.
module _ (n d i : ℕ) (positive : 0 < d) (small : n < word) where
  round_quot :
      (if leb d (shift_in i n (n / 2 ^ suc i % d))
        then set_bit i (n / 2 ^ suc i / d * 2 ^ suc i)
        else n / 2 ^ suc i / d * 2 ^ suc i)
      ≡ n / 2 ^ i / d * 2 ^ i
  round_quot =
      let s = shifted n d i positive small in
      elim (Bool-cases (leb d (shift_in i n (n / 2 ^ suc i % d)))) [
        | inl large ↦
            let b = set_bit_lem i (n / 2 ^ suc i / d) in
            let l = (next_larger n d i positive small (ground arith)).0 in
            let e = ap (λ t. t * 2 ^ i) l in ground arith
        | inr less ↦
            let l = (next_smaller n d i positive small (ground arith)).0 in
            let e = ap (λ t. t * 2 ^ i) l in let b = twice (n / 2 ^ suc i / d) i in ground arith
      ]

  round_rem :
      (if leb d (shift_in i n (n / 2 ^ suc i % d))
        then shift_in i n (n / 2 ^ suc i % d) - d
        else shift_in i n (n / 2 ^ suc i % d))
      ≡ n / 2 ^ i % d
  round_rem =
      let s = shifted n d i positive small in
      elim (Bool-cases (leb d (shift_in i n (n / 2 ^ suc i % d)))) [
        | inl large ↦ let l = (next_larger n d i positive small (ground arith)).1 in ground arith
        | inr less ↦ let l = (next_smaller n d i positive small (ground arith)).1 in ground arith
      ]

-- The loop, from the quotient and remainder of the bits above.
divide-loop :
    (i n d : ℕ)
    → 0 < d
    → n < word
    → divide i n d (n / 2 ^ i / d * 2 ^ i) (n / 2 ^ i % d) ≡ (n / d, n % d)
unfolding divide
divide-loop zero n d positive small =
    let one : n / 2 ^ 0 ≡ n = omega (arith, div-one n) in
    let q : n / 2 ^ 0 / d * 2 ^ 0 ≡ n / d = (let e = ap (λ x. x / d) one in omega arith) in
    λ j. (q j, one j % d)
divide-loop (suc i) n d positive small =
    (λ j. divide i n d (round_quot n d i positive small j) (round_rem n d i positive small j))
    ∙ divide-loop i n d positive small

-- Of two words div_u64 gives the quotient and the remainder, if the divisor is not 0.
pub div_u64-Divides : (n d : ℕ) → n < word → d < word → 0 < d → div_u64 n d ≡ (n / d, n % d)
unfolding div_u64
div_u64-Divides n d small divisor positive =
    let top : n / 2 ^ 64 ≡ 0 = div-eq_of_lt (let h : n < 2 ^ 64 = omega arith in h) in
    let q : 0 ≡ n / 2 ^ 64 / d * 2 ^ 64 =
      (let e = ap (λ x. x / d) top in let z = zero-div d in omega arith) in
    let r : 0 ≡ n / 2 ^ 64 % d =
      (let e = ap (λ x. x % d) top in let z = zero-mod d in omega arith) in
    (λ j. divide 64 n d (q j) (r j)) ∙ divide-loop 64 n d positive small

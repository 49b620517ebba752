-- ===== src/Division/Signed.antt =====
-- kernel/lib/div64.c: signed division on top of div_u64, in two's complement.
use vimix_os.Base.{
  ℕ, zero, suc, ◌+◌, ◌-◌, ◌/◌, ◌%◌, ◌<◌, ◌≤◌, ◌≡◌, ◌≢◌, refl, ap, ◌∙◌, true, false, ◌==◌, leb,
  arith,
}
use vimix_os.Division.{
  word, half, done, unfinished, is_negative, negate, first, second, negative_quotient, div_64,
  divdi3, moddi3,
}
use vimix_os.Division.Quotient.{div_u64-Divides}

-- The quotient that C asks for where -m is divided: rounded towards 0.
abbrev pub truncated : ℕ → ℕ → ℕ
truncated m d = negate (m / d)

positive_lem :
    (rounds m d : ℕ) → m < half → d < half → 0 < d → div_64 (suc rounds) m d ≡ done (m / d, m % d)
unfolding div_64 is_negative
positive_lem rounds m d small divisor positive =
    let nonzero : (d == 0) ≡ false = ground arith in
    let above : leb half d ≡ false = ground arith in
    let above1 : leb half m ≡ false = ground arith in
    rw (nonzero, above, above1) (ap done (div_u64-Divides m d (omega arith) (omega arith) positive))

negative_lem :
    (rounds n d : ℕ)
    → half ≤ n
    → d < half
    → 0 < d
    → div_64 (suc rounds) n d ≡ negative_quotient d (div_64 rounds (negate n) d)
unfolding div_64 is_negative
negative_lem rounds n d below divisor positive =
    let nonzero : (d == 0) ≡ false = ground arith in
    let above : leb half d ≡ false = ground arith in
    let under : leb half n ≡ true = ground arith in rw (nonzero, above, under) refl

negate-negate : (m : ℕ) → m < word → negate (negate m) ≡ m
unfolding negate
negate-negate m small = omega arith

negate-le : (m : ℕ) → 0 < m → m ≤ half → half ≤ negate m
unfolding negate
negate-le m positive small = omega arith

-- a dividend above LLONG_MIN: two calls
signed_lem :
    (rounds m d : ℕ)
    → 0 < m
    → m < half
    → d < half
    → 0 < d
    → div_64 (suc (suc rounds)) (negate m) d ≡ negative_quotient d (done (m / d, m % d))
signed_lem rounds m d below small divisor positive =
    negative_lem (suc rounds) (negate m) d (negate-le m below (omega arith)) divisor positive
    ∙ ap (λ n. negative_quotient d (div_64 (suc rounds) n d)) (negate-negate m (omega arith))
    ∙ ap (negative_quotient d) (positive_lem rounds m d small divisor positive)

-- LLONG_MIN is its own negation
minimum_lem : (rounds d : ℕ) → d < half → 0 < d → div_64 rounds half d ≡ unfinished
unfolding div_64 negate negative_quotient
minimum_lem zero d divisor positive = refl
minimum_lem (suc rounds) d divisor positive =
    negative_lem rounds half d (omega arith) divisor positive
    ∙ ap (negative_quotient d) (minimum_lem rounds d divisor positive)

minimum_negated : (m : ℕ) → m ≡ half → negate m ≡ half
unfolding negate
minimum_negated m e = omega arith

exact_quotient :
    (d quot r : ℕ) → r ≡ 0 → negative_quotient d (done (quot, r)) ≡ done (negate quot, 0)
unfolding negative_quotient
exact_quotient d quot r e = ground arith

rounded_quotient :
    (d quot r : ℕ)
    → r ≢ 0
    → r < d
    → d < half
    → quot < half
    → negative_quotient d (done (quot, r)) ≡ done (negate (quot + 1), d - r)
unfolding negative_quotient negate
rounded_quotient d quot r e rest divisor small =
    let nonzero : (r == 0) ≡ false = ground arith in
    let quotient : (((word - quot) % word) + word - 1) % word ≡ (word - (quot + 1)) % word =
      omega arith in
    let remainder : (d + word - r) % word ≡ d - r = omega arith in
    rw (nonzero, quotient, remainder) refl

not_truncated : (quot : ℕ) → quot < half → negate (quot + 1) ≢ negate quot
unfolding negate
not_truncated quot small e = omega arith

quotient_lt : (m d : ℕ) → m < half → 0 < d → (m / d < half) × (m % d < d)
quotient_lt m d small positive = (grind arith, grind arith)

-- Of a negative `long long` -m and a positive divisor __divdi3 and __moddi3 round down. For -m above
-- LLONG_MIN two nested calls of div_64 are enough: where the division has a rest, the quotient is not the
-- one of C, which rounds towards 0, but one less, and the remainder is d minus the rest; where it has
-- none, the quotient is right and the remainder 0. For LLONG_MIN div_64 ends at no depth of the recursion.
pub divdi3_rounds_down :
    (rounds m d : ℕ)
    → 0 < m
    → m ≤ half
    → d < half
    → 0 < d
    → (m ≢ half
        → m % d ≡ 0
        → (divdi3 (suc (suc rounds)) (negate m) d ≡ done (truncated m d))
          × (moddi3 (suc (suc rounds)) (negate m) d ≡ done 0))
      × ((m ≢ half
            → m % d ≢ 0
            → (divdi3 (suc (suc rounds)) (negate m) d ≡ done (negate (m / d + 1)))
              × ((moddi3 (suc (suc rounds)) (negate m) d ≡ done (d - m % d))
                  × (negate (m / d + 1) ≢ truncated m d)))
          × (m ≡ half
              → (divdi3 rounds (negate m) d ≡ unfinished)
                × (moddi3 rounds (negate m) d ≡ unfinished)))
unfolding divdi3 moddi3 first second
divdi3_rounds_down rounds m d below bound divisor positive = (
  λ above exact.
      (let small : m < half = omega arith in
        let e =
          signed_lem rounds m d below small divisor positive
          ∙ exact_quotient d (m / d) (m % d) exact in
        (ap first e, ap second e)),
  (
    λ above rest.
        (let small : m < half = omega arith in
          let (quot, lt) = quotient_lt m d small positive in
          let e =
            signed_lem rounds m d below small divisor positive
            ∙ rounded_quotient d (m / d) (m % d) rest lt divisor quot in
          (ap first e, (ap second e, not_truncated (m / d) quot))),
    λ least.
        (let e =
            ap (λ n. div_64 rounds n d) (minimum_negated m least)
            ∙ minimum_lem rounds d divisor positive in
          (ap first e, ap second e)),
  ),
)

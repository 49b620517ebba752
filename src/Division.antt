-- ===== src/Division.antt =====
-- kernel/lib/div64.c: 64-bit division for machines that have none.
pub mod Quotient
pub mod Signed
mod Tests
use vimix_os.Base.{
  ℕ, zero, suc, ◌+◌, ◌-◌, ◌*◌, ◌/◌, ◌%◌, ◌^◌, leb, Bool, true, false, ◌==◌, if◌then◌else◌,
}

-- 2 ^ 64
abbrev pub word : ℕ
word = 18446744073709551616

-- 2 ^ 63
abbrev pub half : ℕ
half = 9223372036854775808

-- `n | (1ll << i)`
unfoldable pub set_bit : ℕ → ℕ → ℕ
set_bit i n = if n / 2 ^ i % 2 == 0 then n + 2 ^ i else n

-- `rem << 1`, with bit i of n as its lowest bit
unfoldable pub shift_in : ℕ → ℕ → ℕ → ℕ
shift_in i n rem = (2 * rem + n / 2 ^ i % 2) % word

-- The loop of div_u64, from bit i - 1 down to bit 0. The signed variables are compared and subtracted as
-- unsigned words.
unfoldable pub divide : ℕ → ℕ → ℕ → ℕ → ℕ → ℕ × ℕ
unfolding set_bit shift_in
divide zero n d quot rem = (quot, rem)
divide (suc i) n d quot rem =
    divide i n d (if leb d (shift_in i n rem) then set_bit i quot else quot)
      (if leb d (shift_in i n rem) then shift_in i n rem - d else shift_in i n rem)

-- the quotient, and the remainder behind the pointer
unfoldable pub div_u64 : ℕ → ℕ → ℕ × ℕ
unfolding divide
div_u64 n d = divide 64 n d 0 0

-- What a call comes to: a result, the exception of a division by zero, or a recursion that the rounds do
-- not reach the end of.
pub data Outcome (A : Type 0) : Type 0 where
  done : A → Outcome A
  division_by_zero : Outcome A
  unfinished : Outcome A

-- A `long long` is a word in two's complement: `n < 0` and `-n`, which wraps.
unfoldable pub is_negative : ℕ → Bool
is_negative n = leb half n

unfoldable pub negate : ℕ → ℕ
negate n = (word - n) % word

-- The end of div_64 for a divisor below 0: the quotient is negated, the remainder is kept.
unfoldable pub negated_quotient : Outcome (ℕ × ℕ) → Outcome (ℕ × ℕ)
unfolding negate
negated_quotient (done (quot, r)) = done (negate quot, r)
negated_quotient division_by_zero = division_by_zero
negated_quotient unfinished = unfinished

-- The end of div_64 for n below 0, from the result for -n: `-quot`, or `-quot - 1` and `d - *r`.
unfoldable pub negative_quotient : ℕ → Outcome (ℕ × ℕ) → Outcome (ℕ × ℕ)
unfolding negate
negative_quotient d (done (quot, r)) =
    if r == 0
    then done (negate quot, r)
    else done ((negate quot + word - 1) % word, (d + word - r) % word)
negative_quotient d division_by_zero = division_by_zero
negative_quotient d unfinished = unfinished

-- The quotient, and the remainder behind the pointer, with a bound on the depth of the recursion.
unfoldable pub div_64 : ℕ → ℕ → ℕ → Outcome (ℕ × ℕ)
unfolding div_u64 is_negative negate negated_quotient negative_quotient
div_64 zero n d = unfinished
div_64 (suc rounds) n d =
    let by_negated = div_64 rounds n (negate d) in
    let of_negated = div_64 rounds (negate n) d in
    if d == 0
    then division_by_zero
    else if is_negative d
    then negated_quotient by_negated
    else if is_negative n
    then negative_quotient d of_negated
    else done (div_u64 n d)

unfoldable pub first : Outcome (ℕ × ℕ) → Outcome ℕ
first (done (quot, r)) = done quot
first division_by_zero = division_by_zero
first unfinished = unfinished

unfoldable pub second : Outcome (ℕ × ℕ) → Outcome ℕ
second (done (quot, r)) = done r
second division_by_zero = division_by_zero
second unfinished = unfinished

-- `__divdi3`
unfoldable pub divdi3 : ℕ → ℕ → ℕ → Outcome ℕ
unfolding first div_64
divdi3 rounds n d = first (div_64 rounds n d)

-- `__moddi3`
unfoldable pub moddi3 : ℕ → ℕ → ℕ → Outcome ℕ
unfolding second div_64
moddi3 rounds n d = second (div_64 rounds n d)

-- `__udivdi3`
unfoldable pub udivdi3 : ℕ → ℕ → ℕ
unfolding div_u64
udivdi3 n d = (div_u64 n d).0

-- `__umoddi3`
unfoldable pub umoddi3 : ℕ → ℕ → ℕ
unfolding div_u64
umoddi3 n d = (div_u64 n d).1

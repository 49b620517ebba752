-- ===== src/Division/Tests.antt =====
-- kernel/lib/div64.c on small numbers.
use vimix_os.Base.{◌+◌, ◌-◌, ◌/◌, ◌%◌, ◌≡◌, ◌≢◌, refl, arith}
use vimix_os.Division.{
  half, done, division_by_zero, unfinished, negate, div_u64, divdi3, moddi3, udivdi3, umoddi3,
  first, div_64,
}
use vimix_os.Division.Quotient.{div_u64-Divides}
use vimix_os.Division.Signed.{truncated, divdi3_rounds_down}

unsigned_test : (udivdi3 100 7 ≡ 14) × (umoddi3 100 7 ≡ 2)
unfolding udivdi3 umoddi3
unsigned_test = (refl, refl)

-- -7 / 2 and -7 % 2, which are -3 and -1 in C, and 7 / -2
negative_test :
    (divdi3 2 (negate 7) 2 ≡ done (negate 4))
    × ((moddi3 2 (negate 7) 2 ≡ done 1) × (divdi3 2 7 (negate 2) ≡ done (negate 3)))
unfolding divdi3 moddi3 negate
negative_test = (refl, (refl, refl))

zero_test : divdi3 1 5 0 ≡ division_by_zero
unfolding divdi3 first div_64
zero_test = refl

-- LLONG_MIN / 1 and 1 / LLONG_MIN
minimum_test : (divdi3 9 half 1 ≡ unfinished) × (divdi3 9 1 half ≡ unfinished)
unfolding divdi3 first
minimum_test = (refl, refl)

div_u64_example :
    div_u64 18446744073709551615 18446744073709551614
    ≡ (18446744073709551615 / 18446744073709551614, 18446744073709551615 % 18446744073709551614)
div_u64_example =
    div_u64-Divides 18446744073709551615 18446744073709551614 (omega arith) (omega arith)
      (omega arith)

divdi3_example :
    (7 ≢ half
      → 7 % 2 ≡ 0
      → (divdi3 2 (negate 7) 2 ≡ done (truncated 7 2)) × (moddi3 2 (negate 7) 2 ≡ done 0))
    × ((7 ≢ half
          → 7 % 2 ≢ 0
          → (divdi3 2 (negate 7) 2 ≡ done (negate (7 / 2 + 1)))
            × ((moddi3 2 (negate 7) 2 ≡ done (2 - 7 % 2)) × (negate (7 / 2 + 1) ≢ truncated 7 2)))
        × (7 ≡ half → (divdi3 0 (negate 7) 2 ≡ unfinished) × (moddi3 0 (negate 7) 2 ≡ unfinished)))
divdi3_example = divdi3_rounds_down 0 7 2 (omega arith) (omega arith) (omega arith) (omega arith)

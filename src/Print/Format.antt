-- ===== src/Print/Format.antt =====
-- kernel/lib/print_impl.c: print_impl and vsnprintf. A format is the list of its characters in front of the
-- 0. A read behind the 0, a missing argument and a store outside of a buffer have no result. The local
-- buffers start with the contents `buffer`.
use vimix_os.Base.{
  ℕ, zero, suc, ◌+◌, ◌-◌, ◌*◌, ◌%◌, ◌^◌, leb, ltb, Bool, false, ◌&&◌, ◌||◌, Option, none, some,
  List, [], ◌∷◌, ◌++◌, length, ◌==◌, if◌then◌else◌,
}
use vimix_os.Print.{
  Buffer, space_char, zero_char, print_unsigned_long_long, print_unsigned_hex, print_unsigned_octal,
  print_signed_long_long, fill_destination,
}

-- an argument: the 64 bits of a number, or the characters of a string in front of its 0
pub data Arg : Type 0 where
  number : ℕ → Arg
  chars : List ℕ → Arg

-- The test of the code, which leaves out the digit 9.
abbrev pub is_padding_digit : ℕ → Bool
is_padding_digit x = leb 48 x && ltb x 57

-- `ASCII_2_INT`, and 0 for what is no digit
abbrev pub digit_or_zero : ℕ → ℕ
digit_or_zero x = if leb 48 x && leb x 57 then x - 48 else 0

-- The padding, its character and the rest of the format; none where the format ends, which ends the loop.
unfoldable pub second_digit : ℕ → ℕ → List ℕ → Option (ℕ × ℕ × List ℕ)
second_digit padding c [] = none
second_digit padding c (x ∷ []) = if is_padding_digit x then none else some (padding, c, x ∷ [])
second_digit padding c (x ∷ y ∷ f) =
    if is_padding_digit x
    then some (padding * 10 + (x - 48), c, y ∷ f)
    else some (padding, c, x ∷ y ∷ f)

unfoldable pub first_digit : ℕ → List ℕ → Option (ℕ × ℕ × List ℕ)
unfolding second_digit
first_digit c [] = none
first_digit c (x ∷ f) = second_digit (digit_or_zero x) c f

unfoldable pub parse_padding : List ℕ → Option (ℕ × ℕ × List ℕ)
unfolding first_digit
parse_padding [] = none
parse_padding (x ∷ f) =
    if is_padding_digit x
    then (if x == zero_char then first_digit zero_char f else first_digit space_char (x ∷ f))
    else some (0, space_char, x ∷ f)

-- the l, L and z in front of a conversion: the length, and the rest of the format
unfoldable pub skip_l : ℕ → ℕ → List ℕ → ℕ × List ℕ
skip_l zero length_mod f = (length_mod, f)
skip_l (suc n) length_mod [] = (length_mod, [])
skip_l (suc n) length_mod (x ∷ f) =
    if x == 108 then skip_l n (suc length_mod) f else skip_l n length_mod (x ∷ f)

unfoldable pub skip_char : ℕ → ℕ → ℕ × List ℕ → ℕ × List ℕ
skip_char c new_mod (length_mod, []) = (length_mod, [])
skip_char c new_mod (length_mod, x ∷ f) = if x == c then (new_mod, f) else (length_mod, x ∷ f)

unfoldable pub length_modifier : List ℕ → ℕ × List ℕ
unfolding skip_l skip_char
length_modifier f = skip_char 122 1 (skip_char 76 2 (skip_l 2 0 f))

-- an `int` as a `long long`
abbrev extended : ℕ → ℕ
extended v = let low = v % 2 ^ 32 in if leb (2 ^ 31) low then low + 2 ^ 64 - 2 ^ 32 else low

-- A number printed, with the arguments that are left.
with_number : List Arg → (ℕ → Option (List ℕ)) → Option (List ℕ × List Arg)
with_number [] print = none
with_number (chars t ∷ args) print = none
with_number (number v ∷ args) print = elim (print v) [ none ↦ none | some t ↦ some (t, args) ]

with_string : List Arg → Option (List ℕ × List Arg)
with_string (chars t ∷ args) = some (t, args)
with_string _ = none

-- one conversion: the characters printed, and the arguments left
pub convert : ℕ → ℕ → ℕ → ℕ → List Arg → Buffer → Option (List ℕ × List Arg)
unfolding with_number with_string
convert conversion padding c length_mod args buffer =
    if conversion == 100 || conversion == 105
    then with_number args
        (λ v. print_signed_long_long padding c (if length_mod == 0 then extended v else v) buffer)
    else if conversion == 117
    then with_number args
        (λ v. print_unsigned_long_long padding c (if length_mod == 0 then v % 2 ^ 32 else v) buffer)
    else if conversion == 120 || conversion == 88
    then with_number args (λ v. print_unsigned_hex (conversion == 88) padding c v buffer)
    else if conversion == 112
    then with_number args (λ v. print_unsigned_hex false padding c v buffer)
    else if conversion == 115
    then with_string args
    else if conversion == 99
    then with_number args (λ v. some (v % 2 ^ 32 ∷ []))
    else if conversion == 111
    then with_number args (λ v. print_unsigned_octal padding c v buffer)
    else some ([], args)

-- what stands behind a %: the end of the loop, no result, or characters with the rest of the format and the
-- arguments left
pub data Directive : Type 0 where
  ends undefined : Directive
  prints : List ℕ → List ℕ → List Arg → Directive

-- A conversion at the end of the format is the 0, behind which the code goes on.
unfoldable pub at_conversion : ℕ → ℕ → List Arg → Buffer → ℕ × List ℕ → Directive
unfolding convert
at_conversion padding c args buffer (length_mod, []) = Directive.undefined
at_conversion padding c args buffer (length_mod, x ∷ f) =
    elim (convert x padding c length_mod args buffer) [
      | none ↦ Directive.undefined
      | some (t, left) ↦ Directive.prints t f left
    ]

unfoldable pub directive : List ℕ → List Arg → Buffer → Directive
unfolding parse_padding length_modifier at_conversion
directive f args buffer = elim (parse_padding f) [
  | none ↦ Directive.ends
  | some (padding, c, rest) ↦ at_conversion padding c args buffer (length_modifier rest)
]

-- what print_impl gives to the callback
pub data Printed : Type 0 where
  printed : List ℕ → Printed
  undefined : Printed
  out_of_rounds : Printed

unfoldable pub before : List ℕ → Printed → Printed
before t (printed cs) = printed (t ++ cs)
before t Printed.undefined = Printed.undefined
before t out_of_rounds = out_of_rounds

unfoldable pub print_from : ℕ → List ℕ → List Arg → Buffer → Printed
unfolding before directive
print_from zero f args buffer = out_of_rounds
print_from (suc n) [] args buffer = printed []
print_from (suc n) (x ∷ f) args buffer =
    let plain = print_from n f args buffer in
    if x == 37
    then elim (directive f args buffer) [
      | ends ↦ printed []
      | undefined ↦ Printed.undefined
      | prints t rest left ↦ before t (print_from n rest left buffer)
    ]
    else before (x ∷ []) plain

-- Each round takes a character of the format at least.
unfoldable pub print_impl : List ℕ → List Arg → Buffer → Printed
unfolding print_from
print_impl f args buffer = print_from (suc (length f)) f args buffer

-- the number of characters, which is returned, and the memory
unfoldable pub vsnprintf : ℕ → ℕ → List ℕ → List Arg → Buffer → (ℕ → ℕ) → Option (ℕ × (ℕ → ℕ))
unfolding print_impl
vsnprintf dst n f args buffer memory = elim (print_impl f args buffer) [
  | printed cs ↦ some (length cs, fill_destination dst n cs memory)
  | undefined ↦ none
  | out_of_rounds ↦ none
]

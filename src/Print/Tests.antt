-- ===== src/Print/Tests.antt =====
-- Numbers and texts for the theorems about kernel/lib/print_impl.c.
use vimix_os.Base.{
  ℕ, ◌-◌, ◌^◌, ◌≡◌, ◌⊎◌, refl, false, none, some, List, [], ◌∷◌, map, length, arith,
}
use vimix_os.Print.{
  Buffer, int_2_ascii, is_negative, magnitude, digit_loop, print_unsigned_long_long,
  print_unsigned_hex, print_unsigned_octal, hex_ascii, print_signed_long_long,
}
use vimix_os.Print.Digits.{IsNumeral}
use vimix_os.Print.Numbers.{
  Prints, fitting, signed_text, print_unsigned-Prints, print_signed_long_long-Prints,
}
use vimix_os.Print.Format.{Arg, number, Printed, printed, print_impl, vsnprintf}
use vimix_os.Print.Ending.{Bounded, vsnprintf-Ends}

abbrev blank : Buffer
blank = λ i. 0

-- "   42" and "00ff"
fills_up : print_unsigned_long_long 5 32 42 blank ≡ some (32 ∷ 32 ∷ 32 ∷ 52 ∷ 50 ∷ [])
unfolding print_unsigned_long_long
fills_up = refl

hex_digits : print_unsigned_hex false 4 48 255 blank ≡ some (48 ∷ 48 ∷ 102 ∷ 102 ∷ [])
unfolding print_unsigned_hex
hex_digits = refl

-- "-007"
negative : print_signed_long_long 4 48 (2 ^ 64 - 7) blank ≡ some (45 ∷ 48 ∷ 48 ∷ 55 ∷ [])
unfolding print_signed_long_long digit_loop
negative = refl

-- The sign of -10^18, of 19 digits, lies in front of the buffer.
sign_outside : print_signed_long_long 0 32 (2 ^ 64 - 10 ^ 18) blank ≡ none
unfolding print_signed_long_long digit_loop
sign_outside = refl

unsigned_example :
    Prints 10 int_2_ascii 20 5 32 42 (print_unsigned_long_long 5 32 42 blank)
    × (Prints 16 (hex_ascii false) 16 5 32 42 (print_unsigned_hex false 5 32 42 blank)
        × Prints 8 int_2_ascii 22 5 32 42 (print_unsigned_octal 5 32 42 blank))
unsigned_example = print_unsigned-Prints false 5 32 42 blank (omega arith)

signed_example :
    (ds : List ℕ) × (IsNumeral 10 (magnitude (2 ^ 64 - 7)) ds
      × (print_signed_long_long 4 48 (2 ^ 64 - 7) blank
          ≡ fitting 19 (signed_text 4 48 (is_negative (2 ^ 64 - 7)) (map int_2_ascii ds))))
signed_example = print_signed_long_long-Prints 4 48 (2 ^ 64 - 7) blank (omega arith)

-- "a%3d" and its argument
abbrev a_padded_number : List ℕ
a_padded_number = 97 ∷ 37 ∷ 51 ∷ 100 ∷ []

abbrev forty_two : List Arg
forty_two = number 42 ∷ []

-- "a 42", cut to two characters and a 0
formats : print_impl a_padded_number forty_two blank ≡ printed (97 ∷ 32 ∷ 52 ∷ 50 ∷ [])
unfolding print_impl digit_loop print_signed_long_long
formats = refl

-- A length modifier at the end of the format: the code goes on behind the 0.
reads_behind : print_impl (37 ∷ 108 ∷ []) [] blank ≡ Printed.undefined
unfolding print_impl
reads_behind = refl

-- The digit 9 is not read as padding: "%9d" prints the d.
nine_is_no_padding : print_impl (37 ∷ 57 ∷ 100 ∷ []) forty_two blank ≡ printed (100 ∷ [])
unfolding print_impl
nine_is_no_padding = refl

vsnprintf_example :
    ((print_impl a_padded_number forty_two blank ≡ Printed.undefined)
      × (vsnprintf 100 3 a_padded_number forty_two blank blank ≡ none))
    ⊎ ((cs : List ℕ) × ((print_impl a_padded_number forty_two blank ≡ printed cs)
          × ((after : ℕ → ℕ) × ((vsnprintf 100 3 a_padded_number forty_two blank blank
                  ≡ some (length cs, after))
                × Bounded 100 3 cs blank after))))
vsnprintf_example = vsnprintf-Ends 100 3 a_padded_number forty_two blank blank

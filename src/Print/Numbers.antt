-- ===== src/Print/Numbers.antt =====
-- kernel/lib/print_impl.c: what the functions for numbers print.
use vimix_os.Base.{
  ℕ, suc, ◌+◌, ◌-◌, ◌*◌, ◌/◌, ◌%◌, ◌^◌, ◌<◌, ◌≡◌, leb, ltb, Bool, false, ◌&&◌, inl, inr, Option,
  none, some, List, ◌∷◌, ◌++◌, map, length, replicate, arith, ◌==◌, if◌then◌else◌, Bool-cases, ap,
  sym,
}
use native.Mathlib.Numerals.{unary_clauses}
use vimix_os.Print.{
  Buffer, minus_char, space_char, zero_char, int_2_ascii, hex_ascii, digit_loop, put, pad_loop,
  print_digits, print_unsigned_long_long, print_unsigned_hex, print_unsigned_octal, sign_and_pad,
  is_negative, magnitude, print_signed_long_long,
}
use vimix_os.Print.Buffer.{Shows, put-Shows, pad_loop-Shows, emit-Shows}
use vimix_os.Print.Digits.{IsNumeral, digits-Shows}

-- text filled up to a width from the left
abbrev pub padded : ℕ → ℕ → List ℕ → List ℕ
padded width c t = replicate (width - length t) c ++ t

-- a text, if the buffer has room for it
abbrev pub fitting : ℕ → List ℕ → Option (List ℕ)
fitting max_len t = if leb (length t) max_len then some t else none

-- the digits of a number, printed with padding
abbrev pub Prints : ℕ → (ℕ → ℕ) → ℕ → ℕ → ℕ → ℕ → Option (List ℕ) → Type 0
Prints base ascii max_len padding padding_char value result =
    (ds : List ℕ) × (IsNumeral base value ds
      × (result ≡ fitting max_len (padded padding padding_char (map ascii ds))))

pad-Shows :
    (max_len padding c : ℕ) (o : Option (ℕ × Buffer)) (t : List ℕ) (num_len : ℕ)
    → num_len ≡ length t
    → Shows max_len o t
    → Shows max_len
        (if ltb num_len padding then pad_loop max_len (padding - num_len) c o else o)
        (padded padding c t)
pad-Shows max_len padding c o t num_len count h = elim (Bool-cases (ltb num_len padding)) [
  | inl e ↦ rw (e, sym count) (pad_loop-Shows max_len (padding - num_len) c o t h)
  | inr e ↦ let none_left : padding - length t ≡ 0 = ground arith in rw (e, none_left) h
]

print_digits-Prints :
    (base : ℕ) (ascii : ℕ → ℕ) (max_len : ℕ)
    → ((v : ℕ) → v / base * base + v % base ≡ v)
    → ((v : ℕ) → v % base < base)
    → ((v n : ℕ) → v < base ^ suc n → v / base < base ^ n)
    → 0 < max_len
    → (padding padding_char value : ℕ) (buffer : Buffer) → value < base ^ max_len
    → Prints base ascii max_len padding padding_char value
        (print_digits base ascii max_len padding padding_char value buffer)
unfolding print_digits
print_digits-Prints base ascii max_len splits below shrinks positive padding c value buffer small =
    let r = digit_loop base ascii max_len max_len 0 value buffer in
    let (ds, (numeral, (count, shows))) =
      digits-Shows base ascii max_len splits below shrinks value buffer positive small in
    (
      ds,
      (
        numeral,
        emit-Shows max_len
            (if ltb r.0 padding then pad_loop max_len (padding - r.0) c (some r) else some r)
            (padded padding c (map ascii ds))
            (pad-Shows max_len padding c (some r) (map ascii ds) r.0 count shows),
      ),
    )

shrinks_10 : (v n : ℕ) → v < 10 ^ suc n → v / 10 < 10 ^ n
shrinks_10 v n h = let k = (simp unary_clauses at h) in omega arith

shrinks_16 : (v n : ℕ) → v < 16 ^ suc n → v / 16 < 16 ^ n
shrinks_16 v n h = let k = (simp unary_clauses at h) in omega arith

shrinks_8 : (v n : ℕ) → v < 8 ^ suc n → v / 8 < 8 ^ n
shrinks_8 v n h = let k = (simp unary_clauses at h) in omega arith

-- An unsigned number below 2^64 is printed as its decimal, hexadecimal or octal digits, padded from the
-- left; when the padding is longer than the buffer, of 20, 16 or 22 bytes, a store lies outside of it.
pub print_unsigned-Prints :
    (upper_case : Bool) (padding padding_char value : ℕ) (buffer : Buffer)
    → value < 2 ^ 64
    → Prints 10 int_2_ascii 20 padding padding_char value
        (print_unsigned_long_long padding padding_char value buffer)
      × (Prints 16
            (hex_ascii upper_case)
            16
            padding
            padding_char
            value
            (print_unsigned_hex upper_case padding padding_char value buffer)
          × Prints 8 int_2_ascii 22 padding padding_char value
              (print_unsigned_octal padding padding_char value buffer))
unfolding print_unsigned_long_long print_unsigned_hex print_unsigned_octal
print_unsigned-Prints u padding c value buffer small = (
  print_digits-Prints 10 int_2_ascii 20 (λ v. omega arith) (λ v. omega arith) shrinks_10
      (omega arith) padding c value buffer (omega arith),
  (
    print_digits-Prints 16 (hex_ascii u) 16 (λ v. omega arith) (λ v. omega arith) shrinks_16
        (omega arith) padding c value buffer (omega arith),
    print_digits-Prints 8 int_2_ascii 22 (λ v. omega arith) (λ v. omega arith) shrinks_8
        (omega arith) padding c value buffer (omega arith),
  ),
)

-- the text of a signed number: its sign before the padding with zeros, behind that with spaces
pub signed_text : ℕ → ℕ → Bool → List ℕ → List ℕ
signed_text padding c print_minus t =
    if print_minus && c == space_char
    then padded padding c (minus_char ∷ t)
    else if print_minus && c == zero_char
    then minus_char ∷ padded (padding - 1) c t
    else padded padding c t

-- The padding leaves room for a sign.
pad_one_less-Shows :
    (max_len padding c : ℕ) (o : Option (ℕ × Buffer)) (t : List ℕ) (num_len : ℕ)
    → num_len ≡ length t
    → Shows max_len o t
    → Shows max_len
        (if ltb num_len padding then pad_loop max_len (padding - num_len - 1) c o else o)
        (padded (padding - 1) c t)
pad_one_less-Shows max_len padding c o t num_len count h = elim (Bool-cases (ltb num_len padding)) [
  | inl e ↦
      let left : padding - 1 - length t ≡ padding - num_len - 1 = omega arith in
      rw (e, left) (pad_loop-Shows max_len (padding - num_len - 1) c o t h)
  | inr e ↦ let none_left : padding - 1 - length t ≡ 0 = ground arith in rw (e, none_left) h
]

sign_and_pad-Shows :
    (padding c : ℕ) (print_minus : Bool) (r : ℕ × Buffer) (t : List ℕ)
    → r.0 ≡ length t
    → Shows 19 (some r) t
    → sign_and_pad padding c print_minus r ≡ fitting 19 (signed_text padding c print_minus t)
unfolding sign_and_pad signed_text
sign_and_pad-Shows padding c print_minus r t count shows =
    elim (Bool-cases (print_minus && c == space_char)) [
      | inl space ↦
          let no_zero : (print_minus && c == zero_char) ≡ false = ground arith in
          rw (space, no_zero, sign_and_pad, signed_text)
            (emit-Shows 19
              (if ltb (suc r.0) padding
                then pad_loop 19 (padding - suc r.0) c (put 19 minus_char (some r))
                else put 19 minus_char (some r))
              (padded padding c (minus_char ∷ t))
              (pad-Shows 19 padding c (put 19 minus_char (some r)) (minus_char ∷ t) (suc r.0)
                (ap suc count) (put-Shows 19 minus_char (some r) t shows)))
      | inr no_space ↦ elim (Bool-cases (print_minus && c == zero_char)) [
        | inl with_zero ↦
            let filled =
              if ltb r.0 padding then pad_loop 19 (padding - r.0 - 1) c (some r) else some r in
            rw (no_space, with_zero, sign_and_pad, signed_text)
              (emit-Shows 19 (put 19 minus_char filled) (minus_char ∷ padded (padding - 1) c t) (
                put-Shows 19 minus_char filled (padded (padding - 1) c t)
                  (pad_one_less-Shows 19 padding c (some r) t r.0 count shows)))
        | inr plain ↦
            rw (no_space, plain, sign_and_pad, signed_text)
              (emit-Shows 19
                (if ltb r.0 padding then pad_loop 19 (padding - r.0) c (some r) else some r)
                (padded padding c t) (pad-Shows 19 padding c (some r) t r.0 count shows))
      ]
    ]

-- A signed number is printed as its sign, the digits of its magnitude and the padding when these are at
-- most 19 characters; otherwise a store lies outside of the buffer.
pub print_signed_long_long-Prints :
    (padding padding_char value : ℕ) (buffer : Buffer)
    → value < 2 ^ 64
    → (ds : List ℕ) × (IsNumeral 10 (magnitude value) ds
        × (print_signed_long_long padding padding_char value buffer
            ≡ fitting 19
                (signed_text padding padding_char (is_negative value) (map int_2_ascii ds))))
unfolding print_signed_long_long
print_signed_long_long-Prints padding c value buffer small =
    let (ds, (numeral, (count, shows))) =
      digits-Shows 10 int_2_ascii 19 (λ v. omega arith) (λ v. omega arith) shrinks_10
        (magnitude value) buffer (omega arith) (ground arith) in
    (
      ds,
      (
        numeral,
        sign_and_pad-Shows padding c (is_negative value)
            (digit_loop 10 int_2_ascii 19 19 0 (magnitude value) buffer) (map int_2_ascii ds) count
            shows,
      ),
    )

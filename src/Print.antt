-- ===== src/Print.antt =====
-- kernel/lib/print_impl.c: numbers as text. A buffer is a function of the index, of which `max_len`
-- cells from 0 on are there: a store elsewhere, which C leaves undefined, has no result. The characters
-- go to the callback in order, so what a function gives is the list of them, whose length the source returns.
pub mod Buffer
pub mod Digits
pub mod Numbers
pub mod Bounded
pub mod Format
pub mod Ending
mod Tests
use vimix_os.Base.{
  ℕ, zero, suc, ◌+◌, ◌-◌, ◌/◌, ◌%◌, ◌^◌, leb, ltb, Bool, true, false, ◌&&◌, Option, none, some,
  List, [], ◌∷◌, ◌==◌, if◌then◌else◌,
}

abbrev pub Buffer : Type 0
Buffer = ℕ → ℕ

abbrev pub minus_char : ℕ
minus_char = 45

abbrev pub space_char : ℕ
space_char = 32

abbrev pub zero_char : ℕ
zero_char = 48

-- `INT_2_ASCII`
abbrev pub int_2_ascii : ℕ → ℕ
int_2_ascii x = x + 48

-- the character of a hexadecimal digit
pub hex_ascii : Bool → ℕ → ℕ
hex_ascii upper_case rem =
    let ascii_offset = if upper_case then 65 else 97 in
    if leb rem 9 then int_2_ascii rem else rem - 10 + ascii_offset

abbrev pub store : ℕ → ℕ → Buffer → Buffer
store i c buffer j = if j == i then c else buffer j

-- The loop over the digits, with `rounds` left: `num_len`, which is 0 when the loop ends without a break,
-- and the buffer.
pub digit_loop : ℕ → (ℕ → ℕ) → ℕ → ℕ → ℕ → ℕ → Buffer → ℕ × Buffer
digit_loop base ascii max_len zero i value buffer = (0, buffer)
digit_loop base ascii max_len (suc rounds) i value buffer =
    let stored = store (max_len - i - 1) (ascii (value % base)) buffer in
    let rest = digit_loop base ascii max_len rounds (suc i) (value / base) stored in
    if value / base == 0 then (i + 1, stored) else rest

-- `buffer[MAX_LEN - num_len - 1] = c; num_len++`
pub put : ℕ → ℕ → Option (ℕ × Buffer) → Option (ℕ × Buffer)
put max_len c none = none
put max_len c (some (num_len, buffer)) =
    if ltb num_len max_len then some (suc num_len, store (max_len - num_len - 1) c buffer) else none

-- the loop over the padding
pub pad_loop : ℕ → ℕ → ℕ → Option (ℕ × Buffer) → Option (ℕ × Buffer)
unfolding put
pad_loop max_len zero c state = state
pad_loop max_len (suc padding) c state = pad_loop max_len padding c (put max_len c state)

pub text : Buffer → ℕ → ℕ → List ℕ
text buffer i zero = []
text buffer i (suc n) = buffer i ∷ text buffer (suc i) n

-- the last loop, which gives `num_len` characters to the callback
pub emit : ℕ → Option (ℕ × Buffer) → Option (List ℕ)
unfolding text
emit max_len none = none
emit max_len (some (num_len, buffer)) = some (text buffer (max_len - num_len) num_len)

-- what the three functions for unsigned numbers share
pub print_digits : ℕ → (ℕ → ℕ) → ℕ → ℕ → ℕ → ℕ → Buffer → Option (List ℕ)
unfolding digit_loop pad_loop emit
print_digits base ascii max_len padding padding_char value buffer =
    let (num_len, digits) = digit_loop base ascii max_len max_len 0 value buffer in
    emit max_len (
      if ltb num_len padding
      then pad_loop max_len (padding - num_len) padding_char (some (num_len, digits))
      else some (num_len, digits))

pub print_unsigned_long_long : ℕ → ℕ → ℕ → Buffer → Option (List ℕ)
unfolding print_digits
print_unsigned_long_long = print_digits 10 int_2_ascii 20

pub print_unsigned_hex : Bool → ℕ → ℕ → ℕ → Buffer → Option (List ℕ)
unfolding print_digits hex_ascii
print_unsigned_hex upper_case = print_digits 16 (hex_ascii upper_case) 16

pub print_unsigned_octal : ℕ → ℕ → ℕ → Buffer → Option (List ℕ)
unfolding print_digits
print_unsigned_octal = print_digits 8 int_2_ascii 22

-- what follows the digits of a signed number
pub sign_and_pad : ℕ → ℕ → Bool → ℕ × Buffer → Option (List ℕ)
unfolding put pad_loop emit
sign_and_pad padding padding_char print_minus state =
    let num_len = state.0 in
    let with_space = print_minus && padding_char == space_char in
    let with_zero = print_minus && padding_char == zero_char in
    let len = if with_space then suc num_len else num_len in
    let first = if with_space then put 19 minus_char (some state) else some state in
    let padded =
      if ltb len padding
      then pad_loop 19 (if with_zero then padding - len - 1 else padding - len) padding_char first
      else first in
    emit 19 (if with_zero then put 19 minus_char padded else padded)

abbrev pub is_negative : ℕ → Bool
is_negative value = leb (2 ^ 63) value

-- The loop over the digits takes the absolute value of each remainder, so that it stores the digits of
-- the magnitude also for the smallest number, whose product with -1 is itself.
abbrev pub magnitude : ℕ → ℕ
magnitude value = if is_negative value then 2 ^ 64 - value else value

-- The value is a 64-bit pattern.
pub print_signed_long_long : ℕ → ℕ → ℕ → Buffer → Option (List ℕ)
unfolding sign_and_pad
print_signed_long_long padding padding_char value buffer =
    sign_and_pad padding padding_char (is_negative value)
      (digit_loop 10 int_2_ascii 19 19 0 (magnitude value) buffer)

-- `struct sprintf_payload`, and the memory by address
pub record SprintfPayload : Type 0 where
  pub n_left : ℕ
  pub dst_pos : ℕ
  pub memory : ℕ → ℕ

pub put_char_in_buffer : ℕ → SprintfPayload → SprintfPayload
put_char_in_buffer c p = if p.n_left == 0 then p else record {
  n_left = p.n_left - 1;
  dst_pos = p.dst_pos + 1;
  memory = store p.dst_pos (c % 256) p.memory;
}

-- the calls of the callback by print_impl, one for each character
pub put_all : List ℕ → SprintfPayload → SprintfPayload
unfolding put_char_in_buffer
put_all [] p = p
put_all (c ∷ cs) p = put_all cs (put_char_in_buffer c p)

-- The memory after vsnprintf, for the characters that print_impl gives to the callback.
pub fill_destination : ℕ → ℕ → List ℕ → (ℕ → ℕ) → ℕ → ℕ
unfolding put_all
fill_destination dst n printed memory =
    let p = put_all printed (record { n_left = n; dst_pos = dst; memory = memory }) in
    if ltb 0 n
    then (if p.n_left == 0 then store (p.dst_pos - 1) 0 p.memory else store p.dst_pos 0 p.memory)
    else p.memory

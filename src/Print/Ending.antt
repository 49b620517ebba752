-- ===== src/Print/Ending.antt =====
-- kernel/lib/print_impl.c: print_impl ends for every format, and what vsnprintf then leaves.
use Prim.{tt}
use vimix_os.Base.{
  ℕ, zero, suc, ◌+◌, ◌-◌, ◌%◌, ◌<◌, ◌≤◌, ◌≡◌, ◌⊎◌, inl, inr, refl, subst, min, Option, none, some,
  List, [], ◌∷◌, ◌++◌, get_or, length, arith, ◌==◌, Bool-cases, Option-cases,
}
use vimix_os.Print.{Buffer, fill_destination, space_char, zero_char}
use vimix_os.Print.Bounded.{fill_destination-Bounded}
use vimix_os.Print.Format.{
  Arg, is_padding_digit, digit_or_zero, second_digit, first_digit, parse_padding, skip_l, skip_char,
  length_modifier, convert, Directive, ends, prints, at_conversion, directive, Printed, printed,
  before, print_from, print_impl, vsnprintf,
}

-- What is left of a format is not longer than it.
abbrev Keeps : List ℕ → Option (ℕ × ℕ × List ℕ) → Type 0
Keeps f none = Unit {0}
Keeps f (some (padding, c, rest)) = length rest ≤ length f

second_digit-Keeps : (padding c : ℕ) (f : List ℕ) → Keeps f (second_digit padding c f)
unfolding second_digit
second_digit-Keeps padding c [] = tt
second_digit-Keeps padding c (x ∷ []) = elim (Bool-cases (is_padding_digit x)) [
  | inl e ↦ rw (e, second_digit) tt
  | inr e ↦ rw (e, second_digit) (omega arith)
]
second_digit-Keeps padding c (x ∷ y ∷ f) = elim (Bool-cases (is_padding_digit x)) [
  | inl e ↦ rw (e, second_digit) (omega arith)
  | inr e ↦ rw (e, second_digit) (omega arith)
]

Keeps-longer : (x : ℕ) (f : List ℕ) (o : Option (ℕ × ℕ × List ℕ)) → Keeps f o → Keeps (x ∷ f) o
Keeps-longer x f none h = tt
Keeps-longer x f (some (padding, c, rest)) h = omega arith

first_digit-Keeps : (c : ℕ) (f : List ℕ) → Keeps f (first_digit c f)
unfolding first_digit
first_digit-Keeps c [] = tt
first_digit-Keeps c (x ∷ f) =
    Keeps-longer x f (second_digit (digit_or_zero x) c f) (second_digit-Keeps (digit_or_zero x) c f)

parse_padding-Keeps : (f : List ℕ) → Keeps f (parse_padding f)
unfolding parse_padding
parse_padding-Keeps [] = tt
parse_padding-Keeps (x ∷ f) = elim (Bool-cases (is_padding_digit x)) [
  | inl e ↦ elim (Bool-cases (x == zero_char)) [
    | inl z ↦
        rw (e, z, parse_padding)
          (Keeps-longer x f (first_digit zero_char f) (first_digit-Keeps zero_char f))
    | inr z ↦ rw (e, z, parse_padding) (first_digit-Keeps space_char (x ∷ f))
  ]
  | inr e ↦ rw (e, parse_padding) (omega arith)
]

skip_l-length : (n m : ℕ) (f : List ℕ) → length (skip_l n m f).1 ≤ length f
unfolding skip_l
skip_l-length zero m f = omega arith
skip_l-length (suc n) m [] = omega arith
skip_l-length (suc n) m (x ∷ f) = elim (Bool-cases (x == 108)) [
  | inl e ↦ rw (e, skip_l) (let h = skip_l-length n (suc m) f in omega arith)
  | inr e ↦ rw (e, skip_l) (skip_l-length n m (x ∷ f))
]

skip_char-length : (c k m : ℕ) (f : List ℕ) → length (skip_char c k (m, f)).1 ≤ length f
unfolding skip_char
skip_char-length c k m [] = omega arith
skip_char-length c k m (x ∷ f) = elim (Bool-cases (x == c)) [
  | inl e ↦ rw (e, skip_char) (omega arith)
  | inr e ↦ rw (e, skip_char) (omega arith)
]

length_modifier-length : (f : List ℕ) → length (length_modifier f).1 ≤ length f
unfolding length_modifier
length_modifier-length f =
    let a = skip_l 2 0 f in
    let b = skip_char 76 2 a in
    let ha = skip_l-length 2 0 f in
    let hb = skip_char-length 76 2 a.0 a.1 in let hc = skip_char-length 122 1 b.0 b.1 in omega arith

-- A directive takes a character at least, behind its %.
abbrev Shrinks : List ℕ → Directive → Type 0
Shrinks f (prints t rest left) = length rest < length f
Shrinks f _ = Unit {0}

at_conversion-Shrinks :
    (f : List ℕ) (padding c : ℕ) (args : List Arg) (buffer : Buffer) (m : ℕ) (g : List ℕ)
    → length g ≤ length f
    → Shrinks f (at_conversion padding c args buffer (m, g))
unfolding at_conversion
at_conversion-Shrinks f padding c args buffer m [] h = tt
at_conversion-Shrinks f padding c args buffer m (x ∷ g) h =
    elim (Option-cases (convert x padding c m args buffer)) [
      | inl e ↦ rw (e, at_conversion) tt
      | inr ((t, left), e) ↦ rw (e, at_conversion) (omega arith)
    ]

directive-Shrinks :
    (f : List ℕ) (args : List Arg) (buffer : Buffer) → Shrinks f (directive f args buffer)
unfolding directive
directive-Shrinks f args buffer =
    let keeps = parse_padding-Keeps f in
    elim (Option-cases (parse_padding f)) [
      | inl e ↦ rw (e, directive) tt
      | inr ((padding, c, rest), e) ↦
          rw (e, directive)
            (let kept = subst (Keeps f) e keeps in
              let m = length_modifier-length rest in
              at_conversion-Shrinks f padding c args buffer (length_modifier rest).0
                (length_modifier rest).1 (omega arith))
    ]

Directive-cases :
    (d : Directive)
    → (d ≡ ends)
      ⊎ ((d ≡ Directive.undefined)
          ⊎ ((t : List ℕ) × ((rest : List ℕ) × ((left : List Arg) × (d ≡ prints t rest left)))))
Directive-cases ends = inl refl
Directive-cases Directive.undefined = inr (inl refl)
Directive-cases (prints t rest left) = inr (inr (t, (rest, (left, refl))))

-- It ended, with characters or where C leaves the rest undefined.
abbrev Ends : Printed → Type 0
Ends p = (p ≡ Printed.undefined) ⊎ ((cs : List ℕ) × (p ≡ printed cs))

before-Ends : (t : List ℕ) (p : Printed) → Ends p → Ends (before t p)
unfolding before
before-Ends t p (inl e) = inl (rw (e, before) refl)
before-Ends t p (inr (cs, e)) = inr (t ++ cs, rw (e, before) refl)

print_from-Ends :
    (n : ℕ) (f : List ℕ) (args : List Arg) (buffer : Buffer)
    → length f < n
    → Ends (print_from n f args buffer)
unfolding print_from
print_from-Ends zero f args buffer enough = absurd (omega arith)
print_from-Ends (suc n) [] args buffer enough = inr ([], refl)
print_from-Ends (suc n) (x ∷ f) args buffer enough =
    let shrinks = directive-Shrinks f args buffer in
    elim (Bool-cases (x == 37)) [
      | inl e ↦ elim (Directive-cases (directive f args buffer)) [
        | inl d ↦ rw (e, d, print_from) (inr ([], refl))
        | inr (inl d) ↦ rw (e, d, print_from) (inl refl)
        | inr (inr (t, (rest, (left, d)))) ↦
            let shorter = subst (Shrinks f) d shrinks in
            rw (e, d, print_from)
              (before-Ends t (print_from n rest left buffer)
                (print_from-Ends n rest left buffer (omega arith)))
      ]
      | inr e ↦
          rw (e, print_from)
            (before-Ends (x ∷ []) (print_from n f args buffer)
              (print_from-Ends n f args buffer (omega arith)))
    ]

-- The memory `after` has what `cs` leaves in n bytes from dst on, and nothing else changed.
abbrev pub Bounded : ℕ → ℕ → List ℕ → (ℕ → ℕ) → (ℕ → ℕ) → Type 0
Bounded dst n cs memory after =
    ((k : ℕ) → (k < dst) ⊎ (dst + n ≤ k) → after k ≡ memory k)
    × ((n ≡ 0)
        ⊎ (((i : ℕ) → i < min (n - 1) (length cs) → after (dst + i) ≡ get_or cs i 0 % 256)
            × (after (dst + min (n - 1) (length cs)) ≡ 0)))

-- For every format and arguments print_impl ends within a round for each character and one more, as
-- its result or where C leaves the rest undefined. vsnprintf then returns the number of its characters;
-- it changes no byte outside of the n from dst on, and when n is not 0 it leaves there the first n - 1
-- characters, or all when they are fewer, and a 0 behind them.
pub vsnprintf-Ends :
    (dst n : ℕ) (f : List ℕ) (args : List Arg) (buffer : Buffer) (memory : ℕ → ℕ)
    → ((print_impl f args buffer ≡ Printed.undefined)
        × (vsnprintf dst n f args buffer memory ≡ none))
      ⊎ ((cs : List ℕ) × ((print_impl f args buffer ≡ printed cs)
            × ((after : ℕ → ℕ) × ((vsnprintf dst n f args buffer memory ≡ some (length cs, after))
                  × Bounded dst n cs memory after))))
unfolding vsnprintf print_impl
vsnprintf-Ends dst n f args buffer memory =
    elim (print_from-Ends (suc (length f)) f args buffer (omega arith)) [
      | inl e ↦ inl (e, rw (e, vsnprintf) refl)
      | inr (cs, e) ↦ inr (
        cs,
        (
          e,
          (
            fill_destination dst n cs memory,
            (rw (e, vsnprintf) refl, fill_destination-Bounded dst n cs memory),
          ),
        ),
      )
    ]

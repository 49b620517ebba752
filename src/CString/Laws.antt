-- ===== src/CString/Laws.antt =====
-- kernel/lib/string.c: the length, comparison and copying of strings against functions of their
-- characters. A string in memory is its characters, a NUL, and anything behind it.
use vimix_os.Base.{
  ℕ, zero, suc, ◌-◌, ◌≡◌, ◌≢◌, refl, sym, ap, ◌∙◌, ◌==◌, if◌then◌else◌, arith, Bool-cases, inl, inr,
  false, List, [], ◌∷◌, ◌++◌, length, take, All, some, min, length-append, lt→ltb, ==_iff, ◌↔◌, set,
}
use vimix_os.CString.{
  subtract, bump, strlen, strnlen, strcmp, fill, strncpy, terminated, safestrcpy,
}
use vimix_os.Base.{ℤ, pos}

-- No character is NUL.
abbrev pub AreChars : List ℕ → Type 0
AreChars s = All (λ c. c ≢ 0) s

pub nonzero_lem : (c : ℕ) → c ≢ 0 → (c == 0) ≡ false
nonzero_lem c h = ground arith

-- `strlen` reads a string up to its NUL and returns the number of its characters.
pub strlen-length : (s rest : List ℕ) → AreChars s → strlen (s ++ 0 ∷ rest) ≡ some (length s)
unfolding strlen bump
strlen-length [] rest chars = refl
strlen-length (c ∷ s) rest (nonzero, chars) =
    rw (nonzero_lem c nonzero, strlen-length s rest chars) refl

pub strnlen-min :
    (s rest : List ℕ) (maxlen : ℕ)
    → AreChars s
    → strnlen (s ++ 0 ∷ rest) maxlen ≡ some (min (length s) maxlen)
unfolding strnlen bump
strnlen-min [] rest zero chars = refl
strnlen-min [] rest (suc maxlen) chars = ap some (omega arith)
strnlen-min (c ∷ s) rest zero chars = ap some (omega arith)
strnlen-min (c ∷ s) rest (suc maxlen) (nonzero, chars) =
    rw (nonzero_lem c nonzero, strnlen-min s rest maxlen chars) (ap some (omega arith))

-- the difference of two strings at the first place they differ in
pub difference : List ℕ → List ℕ → ℤ
difference [] [] = pos 0
difference [] (b ∷ t) = subtract 0 b
difference (a ∷ s) [] = subtract a 0
difference (a ∷ s) (b ∷ t) = let rest = difference s t in if a == b then rest else subtract a b

strcmp-difference :
    (s t rest rest1 : List ℕ)
    → AreChars s
    → AreChars t
    → strcmp (s ++ 0 ∷ rest) (t ++ 0 ∷ rest1) ≡ some (difference s t)
unfolding strcmp difference
strcmp-difference [] [] rest rest1 cs ct = refl
strcmp-difference [] (b ∷ t) rest rest1 cs (nonzero, ct) = refl
strcmp-difference (a ∷ s) [] rest rest1 (nonzero, cs) ct = rw (nonzero_lem a nonzero) refl
strcmp-difference (a ∷ s) (b ∷ t) rest rest1 (na, cs) (nb, ct) =
    rw (nonzero_lem a na, strcmp-difference s t rest rest1 cs ct) (ground arith)

difference_self : (s : List ℕ) → difference s s ≡ pos 0
unfolding difference
difference_self [] = refl
difference_self (a ∷ s) = rw (difference_self s) (ground arith)

subtract_zero : (a b : ℕ) → subtract a b ≡ pos 0 → a ≡ b
subtract_zero a b e = ground arith

difference_zero : (s t : List ℕ) → AreChars s → AreChars t → difference s t ≡ pos 0 → s ≡ t
unfolding difference
difference_zero [] [] cs ct e = refl
difference_zero [] (b ∷ t) cs (nb, ct) e = absurd (nb (sym (subtract_zero 0 b e)))
difference_zero (a ∷ s) [] (na, cs) ct e = absurd (na (subtract_zero a 0 e))
difference_zero (a ∷ s) (b ∷ t) (na, cs) (nb, ct) e = elim (Bool-cases (a == b)) [
  | inl same ↦ rw ((==_iff a b).0 same) (
      ap (λ u. b ∷ u)
        (difference_zero s t cs ct
          (sym (ap (λ q. if q then difference s t else subtract a b) same) ∙ e)))
  | inr other ↦
      let same =
        subtract_zero a b (sym (ap (λ q. if q then difference s t else subtract a b) other) ∙ e) in
      absurd (ground arith)
]

-- `strcmp` of two strings is the difference of the first characters that differ, where the NUL counts
-- as the character behind a string's last, and it is 0 exactly for equal strings.
pub strcmp_lem :
    (s t rest rest1 : List ℕ)
    → AreChars s
    → AreChars t
    → (strcmp (s ++ 0 ∷ rest) (t ++ 0 ∷ rest1) ≡ some (difference s t))
      × ((difference s t ≡ pos 0) ↔ (s ≡ t))
strcmp_lem s t rest rest1 cs ct = (
  strcmp-difference s t rest rest1 cs ct,
  (difference_zero s t cs ct, λ e. rw e (difference_self t)),
)

-- the first n characters of a string, filled up to n bytes with NULs
pub padded : List ℕ → ℕ → List ℕ
unfolding fill
padded s zero = []
padded [] (suc n) = fill (suc n)
padded (c ∷ s) (suc n) = c ∷ padded s n

strncpy-padded :
    (s rest : List ℕ) (n : ℕ) → AreChars s → strncpy (s ++ 0 ∷ rest) n ≡ some (padded s n)
unfolding strncpy padded
strncpy-padded s rest zero chars = refl
strncpy-padded [] rest (suc n) chars = refl
strncpy-padded (c ∷ s) rest (suc n) (nonzero, chars) =
    rw (nonzero_lem c nonzero, strncpy-padded s rest n chars) refl

length-padded : (s : List ℕ) (n : ℕ) → length (padded s n) ≡ n
unfolding padded fill
length-padded s zero = refl
length-padded [] (suc zero) = refl
length-padded [] (suc (suc n)) = ap suc (length-padded [] (suc n))
length-padded (c ∷ s) (suc n) = ap suc (length-padded s n)

-- the last of n + 1 padded bytes, set to NUL
set-padded : (s : List ℕ) (n : ℕ) → set (padded s (suc n)) n 0 ≡ padded s n ++ 0 ∷ []
unfolding padded fill
set-padded [] zero = refl
set-padded [] (suc zero) = refl
set-padded [] (suc (suc n)) = ap (λ l. 0 ∷ l) (set-padded [] (suc n))
set-padded (c ∷ s) zero = refl
set-padded (c ∷ s) (suc n) = ap (λ l. c ∷ l) (set-padded s n)

safestrcpy-padded :
    (s rest : List ℕ) (n : ℕ)
    → AreChars s
    → safestrcpy (s ++ 0 ∷ rest) (suc n) ≡ some (padded s n ++ 0 ∷ [])
unfolding safestrcpy terminated
safestrcpy-padded s rest n chars =
    ap (terminated (suc n)) (strncpy-padded s rest (suc n) chars)
    ∙ (let e : suc n - 1 ≡ n = omega arith in
        rw (lt→ltb 0 (suc n) (omega arith), e) (ap some (set-padded s n)))

strlen-padded :
    (s : List ℕ) (n : ℕ) → AreChars s → strlen (padded s n ++ 0 ∷ []) ≡ some (min (length s) n)
unfolding strlen padded fill
strlen-padded s zero chars = ap some (omega arith)
strlen-padded [] (suc n) chars = ap some (omega arith)
strlen-padded (c ∷ s) (suc n) (nonzero, chars) =
    rw (nonzero_lem c nonzero, strlen-padded s n chars) (ap some (omega arith))

take-padded : (s : List ℕ) (n : ℕ) → take (min (length s) n) (padded s n ++ 0 ∷ []) ≡ take n s
unfolding padded fill
take-padded [] zero = refl
take-padded (c ∷ s) zero =
    let e : min (suc (length s)) 0 ≡ 0 = omega arith in
    ap (λ k. take k (padded (c ∷ s) 0 ++ 0 ∷ [])) e
take-padded [] (suc n) =
    let e : min 0 (suc n) ≡ 0 = omega arith in ap (λ k. take k (padded [] (suc n) ++ 0 ∷ [])) e
take-padded (c ∷ s) (suc n) =
    let e : min (suc (length s)) (suc n) ≡ suc (min (length s) n) = omega arith in
    ap (λ k. take k (padded (c ∷ s) (suc n) ++ 0 ∷ [])) e ∙ ap (λ l. c ∷ l) (take-padded s n)

-- `safestrcpy` of a string into a buffer of n + 1 bytes reads the string up to its NUL at most and
-- writes the whole buffer, and the buffer then holds a string: the first n characters of the source,
-- or all of them if it is shorter.
pub safestrcpy-Terminates :
    (s rest : List ℕ) (n : ℕ)
    → AreChars s
    → (dst : List ℕ) × ((safestrcpy (s ++ 0 ∷ rest) (suc n) ≡ some dst)
        × ((length dst ≡ suc n)
            × ((strlen dst ≡ some (min (length s) n)) × (take (min (length s) n) dst ≡ take n s))))
safestrcpy-Terminates s rest n chars = (
  padded s n ++ 0 ∷ [],
  (
    safestrcpy-padded s rest n chars,
    (
      length-append (padded s n) (0 ∷ []) ∙ (let l = length-padded s n in omega arith),
      (strlen-padded s n chars, take-padded s n),
    ),
  ),
)

-- ===== src/Print/Digits.antt =====
-- kernel/lib/print_impl.c: the digits that the loops of the number functions store.
use Prim.{tt}
use vimix_os.Base.{
  ℕ, zero, suc, ◌+◌, ◌-◌, ◌*◌, ◌/◌, ◌%◌, ◌^◌, ◌<◌, ◌≤◌, ◌≡◌, ◌≢◌, inl, inr, refl, subst, true,
  false, some, List, [], ◌∷◌, ◌++◌, map, All, length, arith, ◌==◌, Bool-cases, ap, sym, ◌∙◌,
}
use native.Mathlib.Numerals.{unary_clauses}
use vimix_os.Print.{Buffer, store, digit_loop, text}
use vimix_os.Print.Buffer.{Shows}

-- the number that digits stand for, the first of the highest place
pub read_back : ℕ → ℕ → List ℕ → ℕ
read_back base value [] = value
read_back base value (d ∷ ds) = read_back base (value * base + d) ds

-- There is a digit, and only a single one may be 0 at the front.
abbrev pub IsMinimal : List ℕ → Type 0
IsMinimal [] = ⊥
IsMinimal (d ∷ []) = Unit {0}
IsMinimal (d ∷ e ∷ ds) = d ≢ 0

-- Digits below the base, without needless zeros, that read back as the value.
pub record IsNumeral (base value : ℕ) (ds : List ℕ) : Type 0 where
  pub reads : read_back base 0 ds ≡ value
  pub digits : All (λ d. d < base) ds
  pub minimal : IsMinimal ds

read_back-snoc :
    (base v d : ℕ) (ds : List ℕ)
    → read_back base v (ds ++ (d ∷ [])) ≡ read_back base v ds * base + d
unfolding read_back
read_back-snoc base v d [] = refl
read_back-snoc base v d (e ∷ ds) = read_back-snoc base (v * base + e) d ds

All-snoc :
    (base d : ℕ) (ds : List ℕ)
    → All (λ x. x < base) ds
    → d < base
    → All (λ x. x < base) (ds ++ (d ∷ []))
All-snoc base d [] h small = (small, tt)
All-snoc base d (e ∷ ds) (he, h) small = (he, All-snoc base d ds h small)

-- Digits of a number that is not 0 do not start with 0.
IsMinimal-snoc :
    (base v d : ℕ) (ds : List ℕ) → IsNumeral base v ds → v ≢ 0 → IsMinimal (ds ++ (d ∷ []))
unfolding read_back
IsMinimal-snoc base v d [] n nonzero = absurd n.minimal
IsMinimal-snoc base v d (e ∷ []) n nonzero = let r = n.reads in λ z. nonzero (omega arith)
IsMinimal-snoc base v d (e ∷ f ∷ ds) n nonzero = n.minimal

length-snoc : (d : ℕ) (ds : List ℕ) → length (ds ++ (d ∷ [])) ≡ suc (length ds)
length-snoc d [] = refl
length-snoc d (e ∷ ds) = ap suc (length-snoc d ds)

map-snoc : (f : ℕ → ℕ) (d : ℕ) (ds : List ℕ) → map f (ds ++ (d ∷ [])) ≡ map f ds ++ (f d ∷ [])
map-snoc f d [] = refl
map-snoc f d (e ∷ ds) = ap (λ xs. f e ∷ xs) (map-snoc f d ds)

length-map : (f : ℕ → ℕ) (ds : List ℕ) → length (map f ds) ≡ length ds
length-map f [] = refl
length-map f (d ∷ ds) = ap suc (length-map f ds)

text-snoc : (b : Buffer) (from n : ℕ) → text b from (suc n) ≡ text b from n ++ (b (from + n) ∷ [])
unfolding text
text-snoc b from zero = ap (λ i. b i ∷ []) (omega arith)
text-snoc b from (suc n) =
    ap (λ xs. b from ∷ xs)
      (text-snoc b (suc from) n ∙ ap (λ i. text b (suc from) n ++ (b i ∷ [])) (omega arith))

-- What the loop stores: the digits, at the end of the buffer, before what was there.
record Stores (base : ℕ) (ascii : ℕ → ℕ) (max_len i value : ℕ) (buffer : Buffer)
    (result : ℕ × Buffer) : Type 0 where
  ds : List ℕ
  numeral : IsNumeral base value ds
  counts : result.0 ≡ i + length ds
  fits : result.0 ≤ max_len
  shows : text result.1 (max_len - result.0) (length ds) ≡ map ascii ds
  others : (k : ℕ) → max_len - i ≤ k → result.1 k ≡ buffer k

module _ (base : ℕ) (ascii : ℕ → ℕ) (max_len : ℕ)
    (splits : (v : ℕ) → v / base * base + v % base ≡ v) (below : (v : ℕ) → v % base < base)
    (shrinks : (v n : ℕ) → v < base ^ suc n → v / base < base ^ n) where
  last-Stores :
      (i value : ℕ) (buffer : Buffer)
      → i < max_len
      → value / base ≡ 0
      → Stores base ascii max_len i value buffer
          (i + 1, store (max_len - i - 1) (ascii (value % base)) buffer)
  unfolding text read_back
  last-Stores i value buffer inside ends = record {
    ds = value % base ∷ [];
    numeral = record {
      reads = ap (λ q. q * base + value % base) (sym ends) ∙ splits value;
      digits = (below value, tt);
      minimal = tt;
    };
    counts = refl;
    fits = omega arith;
    shows =
        (let here : (max_len - (i + 1) == max_len - i - 1) ≡ true = ground arith in rw here refl);
    others = λ k h. (let other : (k == max_len - i - 1) ≡ false = ground arith in rw other refl);
  }

  more-Stores :
      (i value : ℕ) (buffer : Buffer) (r : ℕ × Buffer)
      → i < max_len
      → value / base ≢ 0
      → Stores base ascii max_len
          (suc i)
          (value / base)
          (store (max_len - i - 1) (ascii (value % base)) buffer)
          r
      → Stores base ascii max_len i value buffer r
  more-Stores i value buffer r inside goes rest = record {
    ds = rest.ds ++ (value % base ∷ []);
    numeral = record {
      reads =
          read_back-snoc base 0 (value % base) rest.ds
          ∙ (ap (λ q. q * base + value % base) rest.numeral.reads ∙ splits value);
      digits = All-snoc base (value % base) rest.ds rest.numeral.digits (below value);
      minimal = IsMinimal-snoc base (value / base) (value % base) rest.ds rest.numeral goes;
    };
    counts = (let c = rest.counts in let l = length-snoc (value % base) rest.ds in omega arith);
    fits = rest.fits;
    shows =
        rw
          (
            length-snoc (value % base) rest.ds,
            map-snoc ascii (value % base) rest.ds,
            text-snoc r.1 (max_len - r.0) (length rest.ds),
            rest.shows,
          )
          (ap (λ x. map ascii rest.ds ++ (x ∷ [])) digit);
    others = λ k h.
        rest.others k (omega arith)
        ∙ (let other : (k == max_len - i - 1) ≡ false = ground arith in rw other refl);
  }
    where
      digit : r.1 (max_len - r.0 + length rest.ds) ≡ ascii (value % base)
      digit =
          let c = rest.counts in
          let f = rest.fits in
          let place : max_len - r.0 + length rest.ds ≡ max_len - i - 1 = omega arith in
          let here : (max_len - i - 1 == max_len - i - 1) ≡ true = ground arith in
          rw place (rest.others (max_len - i - 1) (omega arith) ∙ rw here refl)

  rounds_left : (v n : ℕ) → v ≢ 0 → v < base ^ n → 0 < n
  rounds_left v zero nonzero small = absurd (let h = (simp unary_clauses at small) in omega arith)
  rounds_left v (suc n) nonzero small = omega arith

  digit_loop-Stores :
      (rounds i value : ℕ) (buffer : Buffer)
      → 0 < rounds
      → rounds + i ≡ max_len
      → value < base ^ rounds
      → Stores base ascii max_len i value buffer
          (digit_loop base ascii max_len rounds i value buffer)
  unfolding digit_loop
  digit_loop-Stores zero i value buffer positive total small = absurd (omega arith)
  digit_loop-Stores (suc rounds) i value buffer positive total small =
      elim (Bool-cases (value / base == 0)) [
        | inl ends ↦ rw (ends, digit_loop) (last-Stores i value buffer (omega arith) (ground arith))
        | inr goes ↦
            rw (goes, digit_loop)
              (let rest_small = shrinks value rounds small in
                more-Stores i value buffer
                  (digit_loop base ascii max_len rounds (suc i) (value / base)
                    (store (max_len - i - 1) (ascii (value % base)) buffer))
                  (omega arith) (λ z. absurd (ground arith))
                  (digit_loop-Stores rounds (suc i) (value / base)
                    (store (max_len - i - 1) (ascii (value % base)) buffer)
                    (rounds_left (value / base) rounds (λ z. absurd (ground arith)) rest_small)
                    (omega arith) rest_small))
      ]

  Stores-Shows :
      (value : ℕ) (buffer : Buffer) (r : ℕ × Buffer)
      → Stores base ascii max_len 0 value buffer r
      → (ds : List ℕ) × (IsNumeral base value ds
          × ((r.0 ≡ length (map ascii ds)) × Shows max_len (some r) (map ascii ds)))
  Stores-Shows value buffer r st =
      let l = length-map ascii st.ds in
      let c = st.counts in
      let f = st.fits in
      let count : r.0 ≡ length (map ascii st.ds) = omega arith in
      let total : length st.ds ≡ r.0 = omega arith in
      let shown : text r.1 (max_len - length (map ascii st.ds)) (length (map ascii st.ds))
          ≡ map ascii st.ds =
        subst (λ n. text r.1 (max_len - n) n ≡ map ascii st.ds) count
          (subst (λ n. text r.1 (max_len - r.0) n ≡ map ascii st.ds) total st.shows) in
      (
        st.ds,
        (st.numeral, (count, inl (omega arith, (r.1, (ap (λ n. some (n, r.1)) count, shown))))),
      )

  -- The buffer ends in the digits of the value.
  pub digits-Shows :
      (value : ℕ) (buffer : Buffer)
      → 0 < max_len
      → value < base ^ max_len
      → let r = digit_loop base ascii max_len max_len 0 value buffer in
        (ds : List ℕ) × (IsNumeral base value ds
          × ((r.0 ≡ length (map ascii ds)) × Shows max_len (some r) (map ascii ds)))
  digits-Shows value buffer positive small =
      Stores-Shows value buffer (digit_loop base ascii max_len max_len 0 value buffer)
        (digit_loop-Stores max_len 0 value buffer positive (omega arith) small)

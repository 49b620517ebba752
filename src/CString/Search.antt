-- ===== src/CString/Search.antt =====
-- kernel/lib/string.c: `strstr` and `strspn` on strings in memory that ends with their NUL.
use vimix_os.Base.{
  ℕ, suc, ◌≡◌, ◌≢◌, refl, ◌&&◌, ◌||◌, Bool, ◌==◌, if◌then◌else◌, arith, Bool-cases, inl, inr, true,
  false, List, [], ◌∷◌, ◌++◌, Option, none, some,
}
use vimix_os.CString.{bump, shift, decide, match_here, strstr, accepts, strspn}
use vimix_os.CString.Laws.{AreChars, nonzero_lem}

zero_lem : (c : ℕ) → c ≢ 0 → (0 == c) ≡ false
zero_lem c h = ground arith

pub same : List ℕ → List ℕ → Bool
same [] [] = true
same [] (b ∷ t) = false
same (a ∷ s) [] = false
same (a ∷ s) (b ∷ t) = b == a && same s t

pub begins : List ℕ → List ℕ → Bool
begins [] t = true
begins (a ∷ s) [] = false
begins (a ∷ s) (b ∷ t) = b == a && begins s t

-- What the search for a needle comes to: an index, no occurrence, or, where the haystack ends with the
-- first occurrence, a read behind both strings. The empty needle occurs at each place, at the end too.
pub search : List ℕ → List ℕ → Option (Option ℕ)
unfolding same begins shift
search [] needle = if same needle [] then none else some none
search (h ∷ hay) needle =
    let rest = search hay needle in
    if same needle (h ∷ hay)
    then none
    else if begins needle (h ∷ hay)
    then some (some 0)
    else shift rest

-- The comparison at one place decides as the reference does, whatever the search of the rest gives.
decide_lem :
    (hay needle : List ℕ) (rest : Option (Option ℕ))
    → AreChars hay
    → AreChars needle
    → decide (match_here (hay ++ 0 ∷ []) (needle ++ 0 ∷ [])) rest
      ≡ (if same needle hay then none else if begins needle hay then some (some 0) else shift rest)
unfolding decide match_here same begins
decide_lem [] [] rest ch cn = refl
decide_lem [] (p ∷ needle) rest ch (np, cn) = rw (zero_lem p np, nonzero_lem p np) refl
decide_lem (h ∷ hay) [] rest (nh, ch) cn = rw (nonzero_lem h nh) refl
decide_lem (h ∷ hay) (p ∷ needle) rest (nh, ch) (np, cn) = elim (Bool-cases (h == p)) [
  | inl equal ↦ rw equal (decide_lem hay needle rest ch cn)
  | inr other ↦ rw (other, nonzero_lem p np) refl
]

-- Of a needle that is not empty.
needle_lem :
    (p : ℕ) (hay needle : List ℕ)
    → AreChars hay
    → AreChars (p ∷ needle)
    → strstr (hay ++ 0 ∷ []) (p ∷ needle ++ 0 ∷ []) ≡ search hay (p ∷ needle)
unfolding strstr search same
needle_lem p [] needle ch cn = refl
needle_lem p (h ∷ hay) needle (nh, ch) cn =
    rw (nonzero_lem h nh, needle_lem p hay needle ch cn)
      (decide_lem (h ∷ hay) (p ∷ needle) (search hay (p ∷ needle)) (nh, ch) cn)

-- Of a haystack that is not empty and any needle, in memory that ends with their NUL, `strstr` gives what
-- the reference search gives: the index of the first occurrence, NULL where there is none, or a read out
-- of bounds where the haystack ends with the first occurrence. Of an empty haystack it gives NULL,
-- for the empty needle too.
pub strstr-search :
    (h : ℕ) (hay needle : List ℕ)
    → AreChars (h ∷ hay)
    → AreChars needle
    → (strstr (h ∷ hay ++ 0 ∷ []) (needle ++ 0 ∷ []) ≡ search (h ∷ hay) needle)
      × (strstr (0 ∷ []) (needle ++ 0 ∷ []) ≡ some none)
unfolding strstr search same begins decide match_here
strstr-search h hay [] (nh, ch) cn = (rw (nonzero_lem h nh) refl, refl)
strstr-search h hay (p ∷ needle) (nh, ch) cn = (needle_lem p (h ∷ hay) needle (nh, ch) cn, refl)

-- the number of leading characters that are in a set
pub span : (ℕ → Bool) → List ℕ → ℕ
span p [] = 0
span p (c ∷ s) = let rest = span p s in if p c then suc rest else 0

pub is_in : List ℕ → ℕ → Bool
is_in [] p = false
is_in (a ∷ accept) p = p == a || is_in accept p

accepts_lem :
    (p : ℕ) (accept rest : List ℕ)
    → AreChars accept
    → accepts p (accept ++ 0 ∷ rest) ≡ some (is_in accept p)
unfolding accepts is_in
accepts_lem p [] rest chars = refl
accepts_lem p (a ∷ accept) rest (nonzero, chars) =
    rw (nonzero_lem a nonzero, accepts_lem p accept rest chars) (ground arith)

-- `strspn` is the number of leading characters of the first string that occur in the second.
pub strspn-span :
    (s accept rest rest1 : List ℕ)
    → AreChars s
    → AreChars accept
    → strspn (s ++ 0 ∷ rest) (accept ++ 0 ∷ rest1) ≡ some (span (is_in accept) s)
unfolding strspn span bump
strspn-span [] accept rest rest1 cs ca = refl
strspn-span (c ∷ s) accept rest rest1 (nonzero, cs) ca =
    let accepted = accepts_lem c accept rest1 ca in
    elim (Bool-cases (is_in accept c)) [
      | inl t ↦ rw (nonzero_lem c nonzero, accepted, t, strspn-span s accept rest rest1 cs ca) refl
      | inr f ↦ rw (nonzero_lem c nonzero, accepted, f) refl
    ]

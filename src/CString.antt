-- ===== src/CString.antt =====
-- kernel/lib/string.c: strings and memory. A `const char *` is the list of the bytes from the pointer to
-- the end of its object, so that reading behind the end has no result (`none`).
pub mod Laws
pub mod Memory
pub mod Search
mod Tests
use vimix_os.Base.{
  ℕ, zero, suc, ◌+◌, ◌-◌, ltb, leb, Bool, true, false, not, ◌&&◌, ◌||◌, Option, none, some, List,
  [], ◌∷◌, ◌==◌, if◌then◌else◌, get_or, set, ◌<◌, ℤ, pos, negsuc,
}
use mathlib.Core.Option.{Option}

-- `a - b` of two bytes
abbrev pub subtract : ℕ → ℕ → ℤ
subtract a b = if ltb a b then negsuc (b - a - 1) else pos (a - b)

pub bump : Option ℕ → Option ℕ
bump none = none
bump (some n) = some (suc n)

pub strlen : List ℕ → Option ℕ
unfolding bump
strlen [] = none
strlen (c ∷ str) = let rest = strlen str in if c == 0 then some 0 else bump rest

pub strnlen : List ℕ → ℕ → Option ℕ
unfolding bump
strnlen str zero = some 0
strnlen [] (suc maxlen) = none
strnlen (c ∷ str) (suc maxlen) =
    let rest = strnlen str maxlen in if c == 0 then some 0 else bump rest

pub memcmp : List ℕ → List ℕ → ℕ → Option ℤ
memcmp s1 s2 zero = some (pos 0)
memcmp [] s2 (suc n) = none
memcmp (a ∷ s1) [] (suc n) = none
memcmp (a ∷ s1) (b ∷ s2) (suc n) =
    let rest = memcmp s1 s2 n in if a == b then rest else some (subtract a b)

pub strcmp : List ℕ → List ℕ → Option ℤ
strcmp [] s2 = none
strcmp (a ∷ s1) [] = none
strcmp (a ∷ s1) (b ∷ s2) =
    let rest = strcmp s1 s2 in if not (a == 0) && a == b then rest else some (subtract a b)

pub strncmp : List ℕ → List ℕ → ℕ → Option ℤ
strncmp s1 s2 zero = some (pos 0)
strncmp [] s2 (suc n) = none
strncmp (a ∷ s1) [] (suc n) = none
strncmp (a ∷ s1) (b ∷ s2) (suc n) =
    let rest = strncmp s1 s2 n in if not (a == 0) && a == b then rest else some (subtract a b)

pub cons_byte : ℕ → Option (List ℕ) → Option (List ℕ)
cons_byte c none = none
cons_byte c (some bytes) = some (c ∷ bytes)

-- the bytes written to `dst`, which does not overlap `src`
pub strcpy : List ℕ → Option (List ℕ)
unfolding cons_byte
strcpy [] = none
strcpy (c ∷ src) = let rest = strcpy src in if c == 0 then some (0 ∷ []) else cons_byte c rest

pub fill : ℕ → List ℕ
fill zero = []
fill (suc n) = 0 ∷ fill n

pub strncpy : List ℕ → ℕ → Option (List ℕ)
unfolding cons_byte fill
strncpy src zero = some []
strncpy [] (suc n) = none
strncpy (c ∷ src) (suc n) =
    let rest = strncpy src n in if c == 0 then some (0 ∷ fill n) else cons_byte c rest

terminated : ℕ → Option (List ℕ) → Option (List ℕ)
terminated n none = none
terminated n (some dst) = some (if ltb 0 n then set dst (n - 1) 0 else dst)

pub safestrcpy : List ℕ → ℕ → Option (List ℕ)
unfolding strncpy terminated
safestrcpy src n = terminated n (strncpy src n)

-- the index of the byte found, or `none` inside for NULL
pub strchr : List ℕ → ℕ → Option (Option ℕ)
unfolding bump
strchr [] c = none
strchr (a ∷ str) c =
    let rest = strchr str c in
    if a == 0
    then some none
    else if a == c
    then some (some 0)
    else elim rest [ none ↦ none | some found ↦ some (bump found) ]

pub memchr : List ℕ → ℕ → ℕ → Option (Option ℕ)
unfolding bump
memchr s c zero = some none
memchr [] c (suc n) = none
memchr (a ∷ s) c (suc n) =
    let rest = memchr s c n in
    if a == c then some (some 0) else elim rest [ none ↦ none | some found ↦ some (bump found) ]

-- the inner loop of `strspn`
pub accepts : ℕ → List ℕ → Option Bool
accepts p [] = none
accepts p (a ∷ accept) =
    let rest = accepts p accept in if a == 0 then some false else if p == a then some true else rest

-- neither pointer is NULL
pub strspn : List ℕ → List ℕ → Option ℕ
unfolding accepts bump
strspn [] accept = none
strspn (p ∷ s) accept =
    let rest = strspn s accept in
    if p == 0
    then some 0
    else elim (accepts p accept) [ none ↦ none | some false ↦ some 0 | some true ↦ bump rest ]

-- the inner loop of `strstr`: the byte of the needle at which the two differ
pub match_here : List ℕ → List ℕ → Option ℕ
match_here [] pin = none
match_here (h ∷ hay) [] = none
match_here (h ∷ hay) (p ∷ pin) = let rest = match_here hay pin in if h == p then rest else some p

shift : Option (Option ℕ) → Option (Option ℕ)
unfolding bump
shift none = none
shift (some found) = some (bump found)

-- The needle is found where the byte that differs is its NUL; the loop continues elsewhere.
decide : Option ℕ → Option (Option ℕ) → Option (Option ℕ)
unfolding shift
decide none rest = none
decide (some p) rest = if p == 0 then some (some 0) else shift rest

-- the index of the first match; neither pointer is NULL
pub strstr : List ℕ → List ℕ → Option (Option ℕ)
unfolding match_here decide
strstr [] needle = none
strstr (h ∷ hay) needle =
    let rest = strstr hay needle in
    if h == 0 then some none else decide (match_here (h ∷ hay) needle) rest

-- memory by address
abbrev pub Memory : Type 0
Memory = ℕ → ℕ

pub store : ℕ → ℕ → Memory → Memory
store a v mem x = if x == a then v else mem x

pub copy_up : ℕ → ℕ → ℕ → Memory → Memory
unfolding store
copy_up dst src zero mem = mem
copy_up dst src (suc n) mem = copy_up (suc dst) (suc src) n (store dst (mem src) mem)

-- `dst` and `src` are the ends of the ranges
pub copy_down : ℕ → ℕ → ℕ → Memory → Memory
unfolding store
copy_down dst src zero mem = mem
copy_down dst src (suc n) mem =
    copy_down (dst - 1) (src - 1) n (store (dst - 1) (mem (src - 1)) mem)

pub memmove : ℕ → ℕ → ℕ → Memory → Memory
unfolding copy_up copy_down
memmove dst src n mem =
    if ltb dst src then copy_up dst src n mem else copy_down (dst + n) (src + n) n mem

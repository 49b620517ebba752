-- ===== src/CString/Tests.antt =====
-- The tests of kernel/lib/string.c.
use Prim.{tt}
use vimix_os.Base.{ℕ, ◌≡◌, refl, none, some, List, [], ◌∷◌, ◌++◌, arith}
use vimix_os.CString.{Memory, strcmp, strstr}
use vimix_os.Base.{negsuc}
use vimix_os.CString.Laws.{AreChars}
use vimix_os.CString.Search.{search, strstr-search}

-- "ab" and "abc"
abbrev ab : List ℕ
ab = 97 ∷ 98 ∷ []

abbrev abc : List ℕ
abc = 97 ∷ 98 ∷ 99 ∷ []

ab-AreChars : AreChars ab
ab-AreChars = (omega arith, (omega arith, tt))

abc-AreChars : AreChars abc
abc-AreChars = (omega arith, (omega arith, (omega arith, tt)))

-- a test
finds_ab : strstr (abc ++ 0 ∷ []) (ab ++ 0 ∷ []) ≡ some (some 0)
unfolding strstr
finds_ab = refl

-- The needle is the end of the haystack.
overruns : strstr (ab ++ 0 ∷ []) (98 ∷ 0 ∷ []) ≡ none
unfolding strstr
overruns = refl

shorter : strcmp (ab ++ 0 ∷ []) (abc ++ 0 ∷ []) ≡ some (negsuc 98)
unfolding strcmp
shorter = refl

strstr_example :
    (strstr (abc ++ 0 ∷ []) (ab ++ 0 ∷ []) ≡ search abc ab)
    × (strstr (0 ∷ []) (ab ++ 0 ∷ []) ≡ some none)
strstr_example = strstr-search 97 (98 ∷ 99 ∷ []) ab abc-AreChars ab-AreChars

abbrev bytes_at : Memory
bytes_at x = x

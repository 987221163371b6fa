-- ===== src/Strings/Tests.antt =====
-- The string functions on short strings: 72 105 is "Hi", 105 102 is "if".
use os_xinu.Prelude.{ℕ, ◌≡◌, List, [], ◌∷◌, ◌++◌, arith, some}
use os_xinu.Strings.CString.{NonZero, first_occurrence}
use os_xinu.Strings.Scan.{strstr}
use os_xinu.Strings.Scan.Find.{to_ptr, strstr_lem}

abbrev hi : List ℕ
hi = 72 ∷ 105 ∷ []

hi-NonZero : NonZero hi
hi-NonZero = (omega arith, (omega arith, tt))

strstr_example :
    strstr (hi ++ (0 ∷ [])) (105 ∷ 0 ∷ []) ≡ some (to_ptr (first_occurrence (105 ∷ []) 0 hi))
strstr_example = strstr_lem hi 105 [] [] [] hi-NonZero (omega arith, tt)

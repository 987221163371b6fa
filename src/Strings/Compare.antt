-- ===== src/Strings/Compare.antt =====
-- lib/strcmp.c, strncmp.c and memcmp.c.
pub mod Order
use os_xinu.Prelude.{ℕ, zero, suc, ◌==◌, ltb, if◌then◌else◌}
use os_xinu.Prelude.{Option, none, some, List, [], ◌∷◌, ℤ, pos, negsuc, sub_ℕ}

pub strcmp : List ℕ → List ℕ → Option ℤ
strcmp [] str2 = none
strcmp (a ∷ str1) [] = none
strcmp (a ∷ str1) (b ∷ str2) =
    if a == b
    then (if a == 0 then some (pos 0) else strcmp str1 str2)
    else (if ltb a b then some (negsuc 0) else some (pos 1))

-- The rounds of a loop that counts an `int` n down to 0, or up to it.
abbrev pub rounds : ℤ → ℕ
rounds (pos n) = n
rounds (negsuc n) = 0

unfoldable pub strncmp_rounds : ℕ → List ℕ → List ℕ → Option ℤ
strncmp_rounds zero s1 s2 = some (pos 0)
strncmp_rounds (suc n) [] s2 = none
strncmp_rounds (suc n) (a ∷ s1) [] = none
strncmp_rounds (suc n) (a ∷ s1) (b ∷ s2) =
    if a == b then (if a == 0 then some (pos 0) else strncmp_rounds n s1 s2) else some (sub_ℕ a b)

unfoldable pub strncmp : List ℕ → List ℕ → ℤ → Option ℤ
unfolding strncmp_rounds
strncmp s1 s2 n = strncmp_rounds (rounds n) s1 s2

memcmp_rounds : ℕ → List ℕ → List ℕ → Option ℤ
memcmp_rounds zero c1 c2 = some (pos 0)
memcmp_rounds (suc n) [] c2 = none
memcmp_rounds (suc n) (a ∷ c1) [] = none
memcmp_rounds (suc n) (a ∷ c1) (b ∷ c2) = if a == b then memcmp_rounds n c1 c2 else some (sub_ℕ a b)

pub memcmp : List ℕ → List ℕ → ℤ → Option ℤ
unfolding memcmp_rounds
memcmp s1 s2 n = memcmp_rounds (rounds n) s1 s2

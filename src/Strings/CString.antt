-- ===== src/Strings/CString.antt =====
-- What the string functions are about: the bytes before a terminator, and where an item of them
-- stands.
use os_xinu.Prelude.{ℕ, ◌+◌, ◌<◌, Bool, true, false, ◌&&◌, ◌==◌, if◌then◌else◌, All}
use os_xinu.Prelude.{Option, none, some, List, [], ◌∷◌}

-- Bytes of a string do not include the terminator.
abbrev pub NonZero : List ℕ → Type 0
NonZero cs = All (λ c. 0 < c) cs

-- Lists the position of the first and of the last `c` in a list, counted from `i`.
unfoldable pub first_index : ℕ → ℕ → List ℕ → Option ℕ
first_index c i [] = none
first_index c i (x ∷ xs) = if x == c then some i else first_index c (i + 1) xs

unfoldable pub last_index : ℕ → ℕ → List ℕ → Option ℕ
last_index c i [] = none
last_index c i (x ∷ xs) = elim (last_index c (i + 1) xs) [
  | some j ↦ some j
  | none ↦ if x == c then some i else none
]

unfoldable pub is_prefix : List ℕ → List ℕ → Bool
is_prefix [] ys = true
is_prefix (x ∷ xs) [] = false
is_prefix (x ∷ xs) (y ∷ ys) = (x == y) && is_prefix xs ys

-- The first position, counted from `i`, where `xs` starts inside `ys`.
unfoldable pub first_occurrence : List ℕ → ℕ → List ℕ → Option ℕ
first_occurrence xs i [] = none
first_occurrence xs i (y ∷ ys) =
    if is_prefix xs (y ∷ ys) then some i else first_occurrence xs (i + 1) ys

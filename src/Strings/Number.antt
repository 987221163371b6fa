-- ===== src/Strings/Number.antt =====
-- lib/atoi.c. An `int` is its 32-bit pattern.
pub mod Decimal
use os_xinu.Prelude.{ℕ, ◌+◌, ◌-◌, ◌*◌, ◌%◌, ◌^◌, ◌&&◌, ◌||◌, ◌==◌, leb, if◌then◌else◌}
use os_xinu.Prelude.{Bool, true, false, Option, none, some, ◌>>=◌, List, [], ◌∷◌}

-- The first loop: blanks and tabs, then at most one sign. It yields `f != 0` and the new `p`.
atoi_sign : List ℕ → Option (Bool × List ℕ)
atoi_sign [] = none
atoi_sign (c ∷ p) =
    if (c == b' ') || (c == 9)
    then atoi_sign p
    else (if c == b'-'
        then some (true, p)
        else if c == b'+'
        then some (false, p)
        else some (false, c ∷ p))

atoi_digits : ℕ → List ℕ → Option ℕ
atoi_digits n [] = none
atoi_digits n (c ∷ p) =
    if leb b'0' c && leb c b'9' then atoi_digits ((n * 10 + c - b'0') % 2 ^ 32) p else some n

pub atoi : List ℕ → Option ℕ
unfolding atoi_sign atoi_digits
atoi p = do (f, q) ← atoi_sign p; n ← atoi_digits 0 q; some (if f then (2 ^ 32 - n) % 2 ^ 32 else n)

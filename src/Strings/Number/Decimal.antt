-- ===== src/Strings/Number/Decimal.antt =====
-- `atoi` against the value of a decimal numeral.
use os_xinu.Prelude.{ℕ, ◌+◌, ◌-◌, ◌*◌, ◌%◌, ◌^◌, ◌≤◌, ◌<◌, All, Bool, true, false, if◌then◌else◌}
use os_xinu.Prelude.{◌≡◌, arith, ◌⊎◌, sym, ap}
use mathlib.Core.Path.{◌≡⟨◌⟩◌, ◌∎}
use os_xinu.Prelude.{some, List, [], ◌∷◌, ◌++◌}
use os_xinu.Strings.Number.{atoi_sign, atoi_digits, atoi}

abbrev pub IsBlank : ℕ → Type 0
IsBlank c = (c ≡ 32) ⊎ (c ≡ 9)

abbrev pub IsDigit : ℕ → Type 0
IsDigit c = (48 ≤ c) × (c ≤ 57)

-- The numeral's value, added to ten times what stands to its left for each digit.
abbrev pub decimal : ℕ → List ℕ → ℕ
decimal n [] = n
decimal n (c ∷ ds) = decimal (n * 10 + (c - 48)) ds

decimal-mod : (n : ℕ) (ds : List ℕ) → decimal (n % 2 ^ 32) ds % 2 ^ 32 ≡ decimal n ds % 2 ^ 32
decimal-mod n [] = omega arith
decimal-mod n (c ∷ ds) =
    decimal ((n % 2 ^ 32) * 10 + (c - 48)) ds % 2 ^ 32
    ≡⟨ sym (decimal-mod ((n % 2 ^ 32) * 10 + (c - 48)) ds) ⟩
      decimal (((n % 2 ^ 32) * 10 + (c - 48)) % 2 ^ 32) ds % 2 ^ 32
    ≡⟨ ap (λ k. decimal k ds % 2 ^ 32) (omega arith) ⟩
      decimal ((n * 10 + (c - 48)) % 2 ^ 32) ds % 2 ^ 32
    ≡⟨ decimal-mod (n * 10 + (c - 48)) ds ⟩ decimal (n * 10 + (c - 48)) ds % 2 ^ 32 ∎

atoi_digits_lem :
    (n : ℕ) (ds : List ℕ) (c : ℕ) (rest : List ℕ)
    → All IsDigit ds
    → (c < 48) ⊎ (57 < c)
    → n < 2 ^ 32
    → atoi_digits n (ds ++ (c ∷ rest)) ≡ some (decimal n ds % 2 ^ 32)
unfolding atoi_digits
atoi_digits_lem n [] c rest h e b = ground arith
atoi_digits_lem n (d ∷ ds) c rest h e b = ground (
  arith,
  atoi_digits_lem ((n * 10 + d - 48) % 2 ^ 32) ds c rest h.1 e,
  decimal-mod (n * 10 + (d - 48)) ds,
)

-- What may stand before the digits, and whether it makes the number negative.
pub data Sign : Bool → List ℕ → Type 0 where
  minus : Sign true (45 ∷ [])
  plus : Sign false (43 ∷ [])
  bare : Sign false []

atoi_sign_lem :
    (f : Bool) (sgn bs : List ℕ) (d : ℕ) (rest : List ℕ)
    → Sign f sgn
    → All IsBlank bs
    → IsDigit d
    → atoi_sign (bs ++ (sgn ++ (d ∷ rest))) ≡ some (f, d ∷ rest)
unfolding atoi_sign
atoi_sign_lem _ _ [] d rest minus h k = ground arith
atoi_sign_lem _ _ [] d rest plus h k = ground arith
atoi_sign_lem _ _ [] d rest bare h k = ground arith
atoi_sign_lem f sgn (b ∷ bs) d rest s h k = ground (arith, atoi_sign_lem f sgn bs d rest s h.1 k)

-- Blanks and tabs, at most one sign, at least one digit and then a byte that is no digit: `atoi`
-- returns the value of the digits, negated if the sign is a minus, modulo 2 ^ 32.
atoi_lem :
    (f : Bool) (sgn bs : List ℕ) (d : ℕ) (ds : List ℕ) (c : ℕ) (rest : List ℕ)
    → Sign f sgn
    → All IsBlank bs
    → All IsDigit (d ∷ ds)
    → (c < 48) ⊎ (57 < c)
    → atoi (bs ++ (sgn ++ (d ∷ (ds ++ (c ∷ rest)))))
      ≡ some (
          if f
          then (2 ^ 32 - decimal 0 (d ∷ ds) % 2 ^ 32) % 2 ^ 32
          else decimal 0 (d ∷ ds) % 2 ^ 32)
unfolding atoi
atoi_lem f sgn bs d ds c rest s h k e = rw (
  atoi_sign_lem f sgn bs d (ds ++ (c ∷ rest)) s h k.0,
  atoi_digits_lem 0 (d ∷ ds) c rest k e (omega arith),
)

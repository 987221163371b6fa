-- ===== src/Prelude/Pigeonhole.antt =====
-- A list of different numbers below a bound is no longer than the bound.
use Prim.Native.Nat.{ℕ, zero, suc, ◌+◌, ◌≤◌, ◌<◌}
use mathlib.Core.Path.{◌≡◌, refl}
use mathlib.Core.Logic.{◌≢◌, inl, inr}
use mathlib.Core.List.{List, [], ◌∷◌}
use native.Mathlib.Omega.{arith}
use os_xinu.Prelude.Tests.{◌==◌, if◌then◌else◌, Bool-cases}
use os_xinu.Prelude.Lists.{length, All, All-map, Distinct}

without : ℕ → List ℕ → List ℕ
without k [] = []
without k (x ∷ xs) = let rest = without k xs in if x == k then rest else x ∷ rest

without-All {ℓ} :
    (P : ℕ → Type ℓ) (k : ℕ) (xs : List ℕ) → All P xs → All (λ y. P y × (y ≢ k)) (without k xs)
unfolding without
without-All P k [] h = tt
without-All P k (x ∷ xs) h = elim (Bool-cases (x == k)) [
  | inl e ↦ rw e (without-All P k xs h.1)
  | inr n ↦ rw n ((h.0, ground arith), without-All P k xs h.1)
]

without-Distinct : (k : ℕ) (xs : List ℕ) → Distinct xs → Distinct (without k xs)
unfolding without
without-Distinct k [] d = tt
without-Distinct k (x ∷ xs) d = elim (Bool-cases (x == k)) [
  | inl e ↦ rw e (without-Distinct k xs d.1)
  | inr n ↦ rw n (
    All-map (without k xs) (λ j p. p.0) (without-All (λ y. x ≢ y) k xs d.0),
    without-Distinct k xs d.1,
  )
]

without-absent : (k : ℕ) (xs : List ℕ) → All (λ y. k ≢ y) xs → without k xs ≡ xs
unfolding without
without-absent k [] h = refl
without-absent k (x ∷ xs) h = ground (arith, without-absent k xs h.1)

length-without : (k : ℕ) (xs : List ℕ) → Distinct xs → length xs ≤ length (without k xs) + 1
unfolding without
length-without k [] d = omega arith
length-without k (x ∷ xs) d = elim (Bool-cases (x == k)) [
  | inl e ↦ let y : x ≡ k = ground arith in rw (e, without-absent k xs (rw y at d.0)) (omega arith)
  | inr n ↦ rw n (omega (arith, length-without k xs d.1))
]

pub pigeonhole : (k : ℕ) (xs : List ℕ) → Distinct xs → All (λ x. x < k) xs → length xs ≤ k
pigeonhole zero [] d h = omega arith
pigeonhole zero (x ∷ xs) d h = absurd (omega arith)
pigeonhole (suc k) xs d h = omega (
  arith,
  length-without k xs d,
  pigeonhole k (without k xs) (without-Distinct k xs d)
      (All-map (without k xs) (λ y p. omega arith) (without-All (λ y. y < suc k) k xs h)),
)

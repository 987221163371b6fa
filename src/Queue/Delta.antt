-- ===== src/Queue/Delta.antt =====
-- system/insertd.c on a delta list: each key is the delay after the entry before it.
use os_xinu.Prelude.{
  ℕ, zero, suc, ◌+◌, ◌-◌, ◌%◌, ◌^◌, ◌<◌, ◌≤◌, ◌≡◌, refl, List, [], ◌∷◌, ◌++◌, arith,
}
use os_xinu.Prelude.{All, Bool-cases}
use os_xinu.Prelude.{inl, inr, length, leb, if◌then◌else◌}
use os_xinu.Queue.{Qtab, nproc, queuetail, insertd_position}
use os_xinu.Queue.Chain.{Chain, last_or, first_or, next-Chain}

-- The delays of the list are not negative as `int32`.
abbrev pub Delays : Qtab → List ℕ → Type 0
Delays t xs = All (λ x. (t x).key < 2 ^ 31) xs

-- When each process of the list wakes, counted from `now`.
abbrev pub wake : Qtab → ℕ → List ℕ → List ℕ
wake t now [] = []
wake t now (x ∷ xs) = (now + (t x).key) ∷ wake t (now + (t x).key) xs

abbrev pub total : Qtab → List ℕ → ℕ
total t [] = 0
total t (x ∷ xs) = (t x).key + total t xs

-- The entries that wake no later than after `key`, the rest, and the delay left behind the first.
pub sooner : Qtab → ℕ → List ℕ → List ℕ
sooner t key [] = []
sooner t key (x ∷ xs) =
    let more = sooner t (key - (t x).key) xs in if leb (t x).key key then x ∷ more else []

pub after : Qtab → ℕ → List ℕ → List ℕ
after t key [] = []
after t key (x ∷ xs) =
    let more = after t (key - (t x).key) xs in if leb (t x).key key then more else x ∷ xs

pub left_over : Qtab → ℕ → List ℕ → ℕ
left_over t key [] = key
left_over t key (x ∷ xs) =
    let more = left_over t (key - (t x).key) xs in if leb (t x).key key then more else key

pub sooner-append-after :
    (t : Qtab) (key : ℕ) (xs : List ℕ) → sooner t key xs ++ after t key xs ≡ xs
unfolding sooner after
sooner-append-after t key [] = refl
sooner-append-after t key (x ∷ xs) = ground (arith, sooner-append-after t (key - (t x).key) xs)

pub total-add-left_over :
    (t : Qtab) (key : ℕ) (xs : List ℕ) → total t (sooner t key xs) + left_over t key xs ≡ key
unfolding sooner left_over
total-add-left_over t key [] = omega arith
total-add-left_over t key (x ∷ xs) = ground (arith, total-add-left_over t (key - (t x).key) xs)

-- The first entry of the rest wakes after the new one.
abbrev pub Later : Qtab → ℕ → List ℕ → Type 0
Later t k [] = Unit
Later t k (x ∷ xs) = k < (t x).key

pub after-Later : (t : Qtab) (key : ℕ) (xs : List ℕ) → Later t (left_over t key xs) (after t key xs)
unfolding after left_over
after-Later t key [] = tt
after-Later t key (x ∷ xs) = elim (Bool-cases (leb (t x).key key)) [
  | inl e ↦ rw e (after-Later t (key - (t x).key) xs)
  | inr e ↦ rw e (ground arith)
]

pub insertd_position_lem :
    (fuel : ℕ) (t : Qtab) (q key p : ℕ) (xs : List ℕ)
    → Chain t p xs (queuetail q)
    → All (λ x. x < nproc) xs
    → nproc ≤ q
    → Delays t xs
    → key < 2 ^ 31
    → length xs < fuel
    → insertd_position fuel t q key p (first_or xs (queuetail q))
      ≡ (last_or p (sooner t key xs), first_or (after t key xs) (queuetail q), left_over t key xs)
unfolding insertd_position sooner after left_over
insertd_position_lem zero t q key p xs c b u d k f = absurd (omega arith)
insertd_position_lem (suc fuel) t q key p [] c b u d k f = ground arith
insertd_position_lem (suc fuel) t q key p (x ∷ xs) c b u d k f =
    elim (Bool-cases (leb (t x).key key)) [
      | inl e ↦
          let small : (t x).key ≤ key = ground arith in
          let key' : (key + 2 ^ 32 - (t x).key) % 2 ^ 32 ≡ key - (t x).key = omega (arith, d.0) in
          let step : (t x).next ≡ first_or xs (queuetail q) =
            next-Chain t x [] xs (queuetail q) c.2 in
          ground
            (arith, key', step, insertd_position_lem fuel t q (key - (t x).key) x xs c.2 b.1 u d.1)
      | inr e ↦ ground arith
    ]

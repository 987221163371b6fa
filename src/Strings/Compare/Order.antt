-- ===== src/Strings/Compare/Order.antt =====
-- The results of the comparing functions against the lexicographic order of lists.
use os_xinu.Prelude.{ℕ, zero, suc, ◌-◌, ◌≤◌, ◌<◌, Bool-cases, length, take, ltb}
use os_xinu.Prelude.{◌==◌, ◌≡◌, refl, inl, inr, arith, sub_ℕ, sym, leb, false, Option}
use os_xinu.Prelude.{some, List, [], ◌∷◌, ◌++◌, ℤ, pos, negsuc}
use os_xinu.Strings.CString.{NonZero}
use os_xinu.Strings.Compare.{strcmp, rounds, strncmp_rounds, strncmp, memcmp_rounds, memcmp}

pub data Less : List ℕ → List ℕ → Type 0 where
  shorter : {d : ℕ} {ds : List ℕ} → Less [] (d ∷ ds)
  smaller : {c d : ℕ} {cs ds : List ℕ} → c < d → Less (c ∷ cs) (d ∷ ds)
  later : {c d : ℕ} {cs ds : List ℕ} → c ≡ d → Less cs ds → Less (c ∷ cs) (d ∷ ds)

-- The sign of `r` tells how the two lists compare.
pub data Verdict (cs ds : List ℕ) : ℤ → Type 0 where
  same : cs ≡ ds → Verdict cs ds (pos 0)
  less : {k : ℕ} → Less cs ds → Verdict cs ds (negsuc k)
  more : {k : ℕ} → Less ds cs → Verdict cs ds (pos (suc k))

Verdict-cons :
    {c d : ℕ} {cs ds : List ℕ} {r : ℤ} → c ≡ d → Verdict cs ds r → Verdict (c ∷ cs) (d ∷ ds) r
Verdict-cons e (same p) = same (cc)
Verdict-cons e (less l) = less (later e l)
Verdict-cons e (more l) = more (later (sym e) l)

-- The difference of two bytes that are not equal.
Verdict-sub : (c d : ℕ) (cs ds : List ℕ) → (c == d) ≡ false → Verdict (c ∷ cs) (d ∷ ds) (sub_ℕ c d)
Verdict-sub c d cs ds ne = elim (Bool-cases (leb d c)) [
  | inl ge ↦
      let up : c - d ≡ suc (c - d - 1) = ground arith in rw (ge, up) (more (smaller (ground arith)))
  | inr lt ↦ rw lt (less (smaller (ground arith)))
]

-- The string that has ended shows its terminator.
Verdict-nil_left : (d : ℕ) (ds : List ℕ) → 0 < d → Verdict [] (d ∷ ds) (sub_ℕ 0 d)
Verdict-nil_left zero ds h = elim h [ ]
Verdict-nil_left (suc d) ds h =
    let e : sub_ℕ 0 (suc d) ≡ negsuc d = ground arith in rw e (less shorter)

Verdict-nil_right : (c : ℕ) (cs : List ℕ) → 0 < c → Verdict (c ∷ cs) [] (sub_ℕ c 0)
Verdict-nil_right zero cs h = elim h [ ]
Verdict-nil_right (suc c) cs h =
    let e : sub_ℕ (suc c) 0 ≡ pos (suc c) = ground arith in rw e (more shorter)

abbrev pub Decides : Option ℤ → List ℕ → List ℕ → Type 0
Decides call cs ds = (r : ℤ) × (call ≡ some r) × Verdict cs ds r

-- On two strings `strcmp` returns 0 if they are equal, a negative number if the first comes
-- before the second in lexicographic order, and a positive number if it comes after it.
strcmp_lem :
    (cs ds r r' : List ℕ)
    → NonZero cs
    → NonZero ds
    → Decides (strcmp (cs ++ (0 ∷ r)) (ds ++ (0 ∷ r'))) cs ds
unfolding strcmp
strcmp_lem [] [] r r' h k = (pos 0, refl, same refl)
strcmp_lem [] (d ∷ ds) r r' h k = (negsuc 0, ground arith, less shorter)
strcmp_lem (c ∷ cs) [] r r' h k = (pos 1, ground arith, more shorter)
strcmp_lem (c ∷ cs) (d ∷ ds) r r' h k = elim (Bool-cases (c == d)) [
  | inl e ↦
      let (s, eq, v) = strcmp_lem cs ds r r' h.1 k.1 in
      (s, ground arith, Verdict-cons (ground arith) v)
  | inr ne ↦ elim (Bool-cases (ltb c d)) [
    | inl l ↦ (negsuc 0, ground arith, less (smaller (ground arith)))
    | inr g ↦ (pos 1, ground arith, more (smaller (ground arith)))
  ]
]

strncmp_rounds_lem :
    (n : ℕ) (cs ds r r' : List ℕ)
    → NonZero cs
    → NonZero ds
    → Decides (strncmp_rounds n (cs ++ (0 ∷ r)) (ds ++ (0 ∷ r'))) (take n cs) (take n ds)
unfolding strncmp_rounds
strncmp_rounds_lem zero cs ds r r' h k = (pos 0, refl, same refl)
strncmp_rounds_lem (suc n) [] [] r r' h k = (pos 0, refl, same refl)
strncmp_rounds_lem (suc n) [] (d ∷ ds) r r' h k =
    (sub_ℕ 0 d, ground arith, Verdict-nil_left d (take n ds) k.0)
strncmp_rounds_lem (suc n) (c ∷ cs) [] r r' h k =
    (sub_ℕ c 0, ground arith, Verdict-nil_right c (take n cs) h.0)
strncmp_rounds_lem (suc n) (c ∷ cs) (d ∷ ds) r r' h k = elim (Bool-cases (c == d)) [
  | inl e ↦
      let (s, eq, v) = strncmp_rounds_lem n cs ds r r' h.1 k.1 in
      (s, ground arith, Verdict-cons (ground arith) v)
  | inr ne ↦ (sub_ℕ c d, ground arith, Verdict-sub c d _ _ ne)
]

-- On two strings `strncmp` compares their first `n` bytes in lexicographic order, none of them if
-- `n` is negative: 0 if these are equal, negative if the first come before, positive if after.
strncmp_lem :
    (n : ℤ) (cs ds r r' : List ℕ)
    → NonZero cs
    → NonZero ds
    → Decides (strncmp (cs ++ (0 ∷ r)) (ds ++ (0 ∷ r')) n) (take (rounds n) cs) (take (rounds n) ds)
unfolding strncmp
strncmp_lem n cs ds r r' h k = strncmp_rounds_lem (rounds n) cs ds r r' h k

memcmp_rounds_lem :
    (n : ℕ) (a b : List ℕ)
    → n ≤ length a
    → n ≤ length b
    → Decides (memcmp_rounds n a b) (take n a) (take n b)
unfolding memcmp_rounds
memcmp_rounds_lem zero a b h k = (pos 0, refl, same refl)
memcmp_rounds_lem (suc n) [] b h k = absurd (omega arith)
memcmp_rounds_lem (suc n) (x ∷ a) [] h k = absurd (omega arith)
memcmp_rounds_lem (suc n) (x ∷ a) (y ∷ b) h k = elim (Bool-cases (x == y)) [
  | inl e ↦
      let (s, eq, v) = memcmp_rounds_lem n a b (omega arith) (omega arith) in
      (s, ground arith, Verdict-cons (ground arith) v)
  | inr ne ↦ (sub_ℕ x y, ground arith, Verdict-sub x y _ _ ne)
]

-- On two objects of at least `n` bytes `memcmp` compares their first `n` bytes in lexicographic
-- order: 0 if these are equal, negative if the first come before, positive if after.
memcmp_lem :
    (n : ℤ) (a b : List ℕ)
    → rounds n ≤ length a
    → rounds n ≤ length b
    → Decides (memcmp a b n) (take (rounds n) a) (take (rounds n) b)
unfolding memcmp
memcmp_lem n a b h k = memcmp_rounds_lem (rounds n) a b h k

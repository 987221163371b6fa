-- ===== src/Strings/Copy/Contents.antt =====
-- The contents of the target after each copying call.
use os_xinu.Prelude.{ℕ, zero, suc, ◌+◌, ◌%◌, ◌≤◌, ◌<◌, length, take, drop, replicate}
use os_xinu.Prelude.{◌≡◌, refl, ap, arith}
use os_xinu.Prelude.{some, List, [], ◌∷◌, ◌++◌, ℤ}
use os_xinu.Strings.CString.{NonZero}
use os_xinu.Strings.Compare.{rounds}
use os_xinu.Strings.Copy.{
  strcpy, pad, strncpy_rounds, strncpy, append_rounds, strncat_rounds, strncat, memcpy_rounds,
  memcpy, memset_rounds, memset, bzero_rounds, bzero,
}

-- If the target has room for the string and its terminator, `strcpy` writes these, and leaves
-- the rest of the target alone.
strcpy_lem :
    (tar cs r : List ℕ)
    → NonZero cs
    → length cs < length tar
    → strcpy tar (cs ++ (0 ∷ r)) ≡ some (cs ++ (0 ∷ drop (length cs + 1) tar))
unfolding strcpy
strcpy_lem [] cs r h k = absurd (omega arith)
strcpy_lem (t ∷ tar) [] r h k = ground arith
strcpy_lem (t ∷ tar) (c ∷ cs) r h k = ground (arith, strcpy_lem tar cs r h.1)

pad_lem : (n : ℕ) (s1 : List ℕ) → n ≤ length s1 → pad n s1 ≡ some (replicate n 0 ++ drop n s1)
unfolding pad
pad_lem zero s1 h = refl
pad_lem (suc n) [] h = absurd (omega arith)
pad_lem (suc n) (t ∷ s1) h = ground (arith, pad_lem n s1)

-- The first `n` bytes of the string, and null bytes if there are not so many.
pub padded : ℕ → List ℕ → List ℕ
padded zero cs = []
padded (suc n) [] = 0 ∷ padded n []
padded (suc n) (c ∷ cs) = c ∷ padded n cs

padded-nil : (n : ℕ) → padded n [] ≡ replicate n 0
unfolding padded
padded-nil zero = refl
padded-nil (suc n) = ap (λ k. 0 ∷ k) (padded-nil n)

strncpy_rounds_lem :
    (n : ℕ) (s1 cs r : List ℕ)
    → NonZero cs
    → n ≤ length s1
    → strncpy_rounds n s1 (cs ++ (0 ∷ r)) ≡ some (padded n cs ++ drop n s1)
unfolding strncpy_rounds padded
strncpy_rounds_lem zero s1 cs r h k = refl
strncpy_rounds_lem (suc n) [] cs r h k = absurd (omega arith)
strncpy_rounds_lem (suc n) (t ∷ s1) [] r h k = ground (arith, pad_lem n s1, padded-nil n)
strncpy_rounds_lem (suc n) (t ∷ s1) (c ∷ cs) r h k =
    ground (arith, strncpy_rounds_lem n s1 cs r h.1)

-- If the target has `n` bytes, `strncpy` sets these to the first bytes of the string, filled up
-- with null bytes, and leaves the rest of the target alone.
strncpy_lem :
    (n : ℤ) (s1 cs r : List ℕ)
    → NonZero cs
    → rounds n ≤ length s1
    → strncpy s1 (cs ++ (0 ∷ r)) n ≡ some (padded (rounds n) cs ++ drop (rounds n) s1)
unfolding strncpy
strncpy_lem n s1 cs r h k = strncpy_rounds_lem (rounds n) s1 cs r h k

append_rounds_lem :
    (n : ℕ) (s1 ds r : List ℕ)
    → NonZero ds
    → length (take n ds) < length s1
    → append_rounds n s1 (ds ++ (0 ∷ r))
      ≡ some (take n ds ++ (0 ∷ drop (length (take n ds) + 1) s1))
unfolding append_rounds
append_rounds_lem n [] ds r h k = absurd (omega arith)
append_rounds_lem zero (t ∷ s1) [] r h k = ground arith
append_rounds_lem zero (t ∷ s1) (d ∷ ds) r h k = ground arith
append_rounds_lem (suc n) (t ∷ s1) [] r h k = ground arith
append_rounds_lem (suc n) (t ∷ s1) (d ∷ ds) r h k = ground (arith, append_rounds_lem n s1 ds r h.1)

strncat_rounds_lem :
    (n : ℕ) (cs s1 ds r : List ℕ)
    → NonZero cs
    → NonZero ds
    → length (take n ds) ≤ length s1
    → strncat_rounds n (cs ++ (0 ∷ s1)) (ds ++ (0 ∷ r))
      ≡ some (cs ++ (take n ds ++ (0 ∷ drop (length (take n ds)) s1)))
unfolding strncat_rounds
strncat_rounds_lem n [] s1 ds r h g k = ground (arith, append_rounds_lem n (0 ∷ s1) ds r g)
strncat_rounds_lem n (c ∷ cs) s1 ds r h g k = ground (arith, strncat_rounds_lem n cs s1 ds r h.1 g)

-- If the target has room behind its string, `strncat` appends the first `n` bytes of the other
-- string and a terminator, and leaves the rest of the target alone.
strncat_lem :
    (n : ℤ) (cs s1 ds r : List ℕ)
    → NonZero cs
    → NonZero ds
    → length (take (rounds n) ds) ≤ length s1
    → strncat (cs ++ (0 ∷ s1)) (ds ++ (0 ∷ r)) n
      ≡ some (cs ++ (take (rounds n) ds ++ (0 ∷ drop (length (take (rounds n) ds)) s1)))
unfolding strncat
strncat_lem n cs s1 ds r h g k = strncat_rounds_lem (rounds n) cs s1 ds r h g k

memcpy_rounds_lem :
    (n : ℕ) (s ct : List ℕ)
    → n ≤ length s
    → n ≤ length ct
    → memcpy_rounds n s ct ≡ some (take n ct ++ drop n s)
unfolding memcpy_rounds
memcpy_rounds_lem zero s ct h k = refl
memcpy_rounds_lem (suc n) [] ct h k = absurd (omega arith)
memcpy_rounds_lem (suc n) (t ∷ s) [] h k = absurd (omega arith)
memcpy_rounds_lem (suc n) (t ∷ s) (c ∷ ct) h k = ground (arith, memcpy_rounds_lem n s ct)

memset_rounds_lem :
    (n c : ℕ) (s : List ℕ)
    → n ≤ length s
    → memset_rounds n c s ≡ some (replicate n (c % 256) ++ drop n s)
unfolding memset_rounds
memset_rounds_lem zero c s h = refl
memset_rounds_lem (suc n) c [] h = absurd (omega arith)
memset_rounds_lem (suc n) c (t ∷ s) h = ground (arith, memset_rounds_lem n c s)

bzero_rounds_lem : (n : ℕ) (s : List ℕ) → n ≤ length s → bzero_rounds n s ≡ memset_rounds n 0 s
unfolding bzero_rounds memset_rounds
bzero_rounds_lem zero s h = refl
bzero_rounds_lem (suc n) [] h = absurd (omega arith)
bzero_rounds_lem (suc n) (t ∷ s) h = ground (arith, bzero_rounds_lem n s)

-- On objects with `n` bytes, `memcpy` replaces the first `n` bytes of the target by those of the
-- source, `memset` by the low byte of `c`, and `bzero` does what `memset` does with 0; the rest of
-- the target stays.
mem_contents :
    (n : ℤ) (c : ℕ) (s ct : List ℕ)
    → rounds n ≤ length s
    → rounds n ≤ length ct
    → (memcpy s ct n ≡ some (take (rounds n) ct ++ drop (rounds n) s))
      × (memset s c n ≡ some (replicate (rounds n) (c % 256) ++ drop (rounds n) s))
      × (bzero s n ≡ memset s 0 n)
unfolding memcpy memset bzero
mem_contents n c s ct h k = (
  memcpy_rounds_lem (rounds n) s ct h k,
  memset_rounds_lem (rounds n) c s h,
  bzero_rounds_lem (rounds n) s h,
)

-- ===== src/Strings/Scan/Find.antt =====
-- The scanning functions on strings: lemmas by induction, and what each call returns.
use os_xinu.Prelude.{ℕ, ◌+◌, ◌%◌, ◌<◌, min, length}
use os_xinu.Prelude.{◌≡◌, arith}
use os_xinu.Prelude.{Option, none, some, List, [], ◌∷◌, ◌++◌}
use os_xinu.Strings.CString.{NonZero, first_index, last_index, is_prefix, first_occurrence}
use os_xinu.Strings.Scan.{
  Ptr, null, at, strlen_from, strlen, strnlen_from, strnlen, strchr_from, strchr, strrchr_from,
  strrchr, memchr_from, memchr, match_at, matches, strstr_from, strstr,
}

abbrev pub to_ptr : Option ℕ → Ptr
to_ptr none = null
to_ptr (some i) = at i

strlen_from_lem :
    (len : ℕ) (cs rest : List ℕ)
    → NonZero cs
    → strlen_from len (cs ++ (0 ∷ rest)) ≡ some (len + length cs)
unfolding strlen_from
strlen_from_lem len [] rest h = ground arith
strlen_from_lem len (c ∷ cs) rest h = ground (arith, strlen_from_lem (len + 1) cs rest h.1)

-- On a string, that is, non-zero bytes and a terminator, `strlen` returns the number of the bytes.
pub strlen_lem : (cs rest : List ℕ) → NonZero cs → strlen (cs ++ (0 ∷ rest)) ≡ some (length cs)
unfolding strlen
strlen_lem cs rest h = ground (arith, strlen_from_lem 0 cs rest h)

strnlen_from_lem :
    (len n : ℕ) (cs rest : List ℕ)
    → NonZero cs
    → n < len + 1
    → strnlen_from len n (cs ++ (0 ∷ rest)) ≡ some (min (n + length cs) len)
unfolding strnlen_from
strnlen_from_lem len n [] rest h b = ground arith
strnlen_from_lem len n (c ∷ cs) rest h b = ground (arith, strnlen_from_lem len (n + 1) cs rest h.1)

-- On a string, `strnlen` returns its length or the limit, whichever is less.
pub strnlen_lem :
    (len : ℕ) (cs rest : List ℕ)
    → NonZero cs
    → strnlen (cs ++ (0 ∷ rest)) len ≡ some (min (length cs) len)
unfolding strnlen
strnlen_lem len cs rest h = ground (arith, strnlen_from_lem len 0 cs rest h)

strchr_from_lem :
    (c i : ℕ) (cs rest : List ℕ)
    → NonZero cs
    → strchr_from c i (cs ++ (0 ∷ rest)) ≡ some (to_ptr (first_index c i (cs ++ (0 ∷ []))))
unfolding strchr_from first_index
strchr_from_lem c i [] rest h = ground arith
strchr_from_lem c i (b ∷ cs) rest h = ground (arith, strchr_from_lem c (i + 1) cs rest h.1)

-- On a string, `strchr` points to the first byte equal to the low byte of `c`, the terminator
-- included, and is NULL if there is none.
pub strchr_lem :
    (c : ℕ) (cs rest : List ℕ)
    → NonZero cs
    → strchr (cs ++ (0 ∷ rest)) c ≡ some (to_ptr (first_index (c % 256) 0 (cs ++ (0 ∷ []))))
unfolding strchr
strchr_lem c cs rest h = strchr_from_lem (c % 256) 0 cs rest h

-- The last match, or `r` if there is none.
abbrev or_else : Ptr → Option ℕ → Ptr
or_else r none = r
or_else r (some i) = at i

strrchr_from_lem :
    (c : ℕ) (r : Ptr) (i : ℕ) (cs rest : List ℕ)
    → NonZero cs
    → strrchr_from c r i (cs ++ (0 ∷ rest)) ≡ some (or_else r (last_index c i (cs ++ (0 ∷ []))))
unfolding strrchr_from last_index
strrchr_from_lem c r i [] rest h = ground arith
strrchr_from_lem c r i (b ∷ cs) rest h =
    ground (
      arith,
      strrchr_from_lem c (at i) (i + 1) cs rest h.1,
      strrchr_from_lem c r (i + 1) cs rest h.1,
    )

-- On a string, `strrchr` points to the last byte equal to the low byte of `c`, the terminator
-- included, and is NULL if there is none.
strrchr_lem :
    (c : ℕ) (cs rest : List ℕ)
    → NonZero cs
    → strrchr (cs ++ (0 ∷ rest)) c ≡ some (to_ptr (last_index (c % 256) 0 (cs ++ (0 ∷ []))))
unfolding strrchr
strrchr_lem c cs rest h = ground (arith, strrchr_from_lem (c % 256) null 0 cs rest h)

memchr_from_lem :
    (c i : ℕ) (cs rest : List ℕ)
    → NonZero cs
    → memchr_from c i (cs ++ (0 ∷ rest)) ≡ some (to_ptr (first_index c i cs))
unfolding memchr_from first_index
memchr_from_lem c i [] rest h = ground arith
memchr_from_lem c i (b ∷ cs) rest h = ground (arith, memchr_from_lem c (i + 1) cs rest h.1)

-- For every count `n`, `memchr` searches exactly the bytes before the first null byte: it points
-- to the first of them that equals the low byte of `c`, and is NULL if there is none.
memchr_lem :
    (c n : ℕ) (cs rest : List ℕ)
    → NonZero cs
    → memchr (cs ++ (0 ∷ rest)) c n ≡ some (to_ptr (first_index (c % 256) 0 cs))
unfolding memchr
memchr_lem c n cs rest h = memchr_from_lem (c % 256) 0 cs rest h

match_at_lem :
    (cs ct r r' : List ℕ)
    → NonZero cs
    → NonZero ct
    → match_at (cs ++ (0 ∷ r)) (ct ++ (0 ∷ r')) ≡ some (is_prefix ct cs)
unfolding match_at is_prefix
match_at_lem [] [] r r' h k = ground arith
match_at_lem [] (d ∷ ct) r r' h k = ground arith
match_at_lem (c ∷ cs) [] r r' h k = ground arith
match_at_lem (c ∷ cs) (d ∷ ct) r r' h k = ground (arith, match_at_lem cs ct r r' h.1 k.1)

matches_lem :
    (c d : ℕ) (cs ct r r' : List ℕ)
    → NonZero (c ∷ cs)
    → NonZero (d ∷ ct)
    → matches (c ∷ cs ++ (0 ∷ r)) (d ∷ ct ++ (0 ∷ r')) ≡ some (is_prefix (d ∷ ct) (c ∷ cs))
unfolding matches is_prefix match_at
matches_lem c d cs ct r r' h k = ground (arith, match_at_lem cs ct r r' h.1 k.1)

strstr_from_lem :
    (d : ℕ) (ct : List ℕ) (i : ℕ) (cs r r' : List ℕ)
    → NonZero cs
    → NonZero (d ∷ ct)
    → strstr_from (d ∷ ct ++ (0 ∷ r')) i (cs ++ (0 ∷ r))
      ≡ some (to_ptr (first_occurrence (d ∷ ct) i cs))
unfolding strstr_from first_occurrence
strstr_from_lem d ct i [] r r' h k = ground arith
strstr_from_lem d ct i (c ∷ cs) r r' h k =
    ground (arith, matches_lem c d cs ct r r' h k, strstr_from_lem d ct (i + 1) cs r r' h.1 k)

-- On two strings, the second not empty, `strstr` points to the first place where the second
-- occurs in the first, and is NULL if it does not occur.
pub strstr_lem :
    (cs : List ℕ) (d : ℕ) (ct r r' : List ℕ)
    → NonZero cs
    → NonZero (d ∷ ct)
    → strstr (cs ++ (0 ∷ r)) (d ∷ ct ++ (0 ∷ r')) ≡ some (to_ptr (first_occurrence (d ∷ ct) 0 cs))
unfolding strstr
strstr_lem cs d ct r r' h k = strstr_from_lem d ct 0 cs r r' h k

strstr_from_empty :
    (i : ℕ) (cs r r' : List ℕ) → NonZero cs → strstr_from (0 ∷ r') i (cs ++ (0 ∷ r)) ≡ some null
unfolding strstr_from matches
strstr_from_empty i [] r r' h = ground arith
strstr_from_empty i (c ∷ cs) r r' h = ground (arith, strstr_from_empty (i + 1) cs r r' h.1)

-- An empty string is found nowhere: with it as the second string `strstr` is NULL.
strstr_empty : (cs r r' : List ℕ) → NonZero cs → strstr (cs ++ (0 ∷ r)) (0 ∷ r') ≡ some null
unfolding strstr
strstr_empty cs r r' h = strstr_from_empty 0 cs r r' h

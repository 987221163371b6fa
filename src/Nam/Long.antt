-- ===== src/Nam/Long.antt =====
-- namrepl of device/nam/nammap.c on a name whose length a `char` does not hold.
use mathlib.Core.List.{append-nil}
use os_xinu.Prelude.{
  suc, zero, sym, ℕ, ◌+◌, ◌<◌, ◌≡◌, refl, arith, leb, ◌==◌, false, List, [], ◌∷◌, ◌++◌, All, some,
  length, take, ℤ, ap, ◌∙◌,
}
use os_xinu.Nam.{
  minus, exceeds, count_of, namlen, nm_repllen, written, read, replaced, copy_parts, namrepl_from,
  namrepl, place, NmEntry, NameSpace, nm_maxlen,
}
use os_xinu.Nam.Replace.{Text, strip, Entries, Table, Mapping}
use os_xinu.Nam.Replace.Search.{
  compare_entry, namlen_entry, write_fits, minus_pos, read_append, namlen_text,
}

-- Bytes that are left behind the prefix once the length has become 0.
none_left : (plen : ℕ) → count_of (minus (ℤ.pos 0) plen) ≡ 0
none_left zero = refl
none_left (suc plen) = let q : leb (suc plen) 0 ≡ false = ground arith in rw q refl

never_exceeds :
    (n plen : ℕ) → n < nm_repllen → exceeds (ℤ.pos n) (minus (ℤ.pos 0) plen) nm_maxlen ≡ false
never_exceeds n zero l = ground arith
never_exceeds n (suc plen) l = ground arith

place_long :
    (e : NmEntry) (newname replacement optr : List ℕ) (plen : ℕ)
    → Text replacement e.nreplace
    → length replacement < nm_repllen
    → length newname ≡ nm_maxlen
    → place e newname plen optr (some (ℤ.pos 256)) (some (ℤ.pos (length replacement + 1)))
      ≡ some (written replacement newname, e.ndevice)
unfolding place copy_parts read
place_long e newname replacement optr plen t r n =
    let f : read (length replacement) e.nreplace ≡ some replacement =
      rw t.holds (read_append replacement (0 ∷ t.behind)) in
    rw
      (
        minus_pos (length replacement + 1) 1 (length replacement) (omega arith),
        never_exceeds (length replacement) plen r,
        none_left plen,
        f,
        append-nil replacement,
        write_fits replacement newname (omega (arith, r, n)),
      )
      refl

first_long :
    (m : Mapping) (ms : List Mapping) (es : List NmEntry) (name more newname remainder : List ℕ)
    → Entries (m ∷ ms) es
    → All (λ ch. (ch == 0) ≡ false) name
    → strip m.0 name ≡ some remainder
    → length name ≡ 255
    → length newname ≡ nm_maxlen
    → namrepl_from es (name ++ (0 ∷ more)) newname ≡ some (written m.1 newname, m.2)
unfolding namrepl_from replaced
first_long m ms [] name more newname remainder t h q l n = absurd t
first_long m ms (e ∷ es) name more newname remainder (ie, t) h q l n =
    let a : namlen (name ++ (0 ∷ more)) nm_maxlen ≡ some (ℤ.pos 256) =
      namlen_text name more 0 nm_maxlen h (omega arith) ∙ ap (λ k. some (ℤ.pos k)) (omega arith) in
    rw (compare_entry m e name more ie, q, a, namlen_entry m e ie)
      (place_long e newname m.1 (remainder ++ (0 ∷ more)) (0 + length m.0) ie.replacement ie.short n
        ∙ ap (λ d. some (written m.1 newname, d)) (sym ie.device))

-- A name of 255 characters, so of NM_MAXLEN bytes with its null, that the first mapping of the table fits, with a buffer of NM_MAXLEN
-- bytes, is replaced by the replacement alone: namrepl copies nothing of the rest of the name and no null behind it, and returns
-- the device of the mapping.
pub namrepl_long :
    (m : Mapping) (ms : List Mapping) (s : NameSpace) (name more newname remainder : List ℕ)
    → Table (m ∷ ms) s
    → All (λ ch. (ch == 0) ≡ false) name
    → strip m.0 name ≡ some remainder
    → length name ≡ 255
    → length newname ≡ nm_maxlen
    → namrepl s (name ++ (0 ∷ more)) newname ≡ some (written m.1 newname, m.2)
unfolding namrepl
namrepl_long m ms s name more newname remainder t h q l n =
    first_long m ms (take s.nnames s.nametab) name more newname remainder t h q l n

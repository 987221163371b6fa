-- ===== src/Nam/Replace/Search.antt =====
-- namrepl of device/nam/nammap.c against a search of a list of prefixes.
use mathlib.Core.List.{append_assoc}
use os_xinu.Prelude.{
  All-right, All-append, Option-cases, sym, leb, ℕ, zero, suc, ◌+◌, ◌%◌, ◌<◌, ◌≤◌, ◌≡◌, refl, arith,
  ltb, ◌==◌, Bool-cases, true, false, inl, inr, List, [], ◌∷◌, ◌++◌, All, Option, none, some,
  length, length-append, take, drop, ℤ, ap, ◌∙◌,
}
use os_xinu.Nam.Replace.{prefer, Answer, Entries, Table, IsEntry, Mapping, find, Text, strip}
use os_xinu.Nam.{
  namrepl, namrepl_from, namlen, replaced, minus, copy_parts, written, read, write, place,
  nm_repllen, NmEntry, NameSpace, Match, compare_prefix, namlen_from, nm_maxlen,
}

abbrev pub agreement : ℕ → Option (List ℕ) → List ℕ → Match
agreement plen none more = Match.differs
agreement plen (some remainder) more = Match.agrees plen (remainder ++ (0 ∷ more))

compare_prefix_lem :
    (k : ℕ) (prefix name more more' : List ℕ)
    → All (λ ch. (ch == 0) ≡ false) prefix
    → compare_prefix k (prefix ++ (0 ∷ more')) (name ++ (0 ∷ more))
      ≡ some (agreement (k + length prefix) (strip prefix name) more)
unfolding compare_prefix strip
compare_prefix_lem k [] [] more more' h = ap (λ n. some (Match.agrees n (0 ∷ more))) (omega arith)
compare_prefix_lem k [] (ch ∷ name) more more' h =
    ap (λ n. some (Match.agrees n (ch ∷ (name ++ (0 ∷ more))))) (omega arith)
compare_prefix_lem k (p ∷ prefix) [] more more' h = rw h.0 refl
compare_prefix_lem k (p ∷ prefix) (ch ∷ name) more more' h = elim (Bool-cases (p == ch)) [
  | inl e ↦
      let step : k + 1 + length prefix ≡ k + length (p ∷ prefix) = omega arith in
      rw (h.0, e, compare_prefix_lem (k + 1) prefix name more more' h.1, step) refl
  | inr e ↦ rw (h.0, e) refl
]

strip_append :
    (prefix name remainder : List ℕ)
    → strip prefix name ≡ some remainder
    → name ≡ prefix ++ remainder
unfolding strip
strip_append [] name remainder h = cc
strip_append (p ∷ prefix) [] remainder h = absurd (cc)
strip_append (p ∷ prefix) (ch ∷ name) remainder h = elim (Bool-cases (p == ch)) [
  | inl e ↦
      let same : p ≡ ch = ground arith in
      let rest = strip_append prefix name remainder (rw e at h) in rw (same, rest) refl
  | inr e ↦ absurd (cc (rw e at h))
]

pub namlen_text :
    (cs more : List ℕ) (i n : ℕ)
    → All (λ ch. (ch == 0) ≡ false) cs
    → length cs < n
    → namlen_from i (cs ++ (0 ∷ more)) n ≡ some (ℤ.pos (i + length cs + 1))
unfolding namlen_from
namlen_text cs more i zero h l = absurd (omega arith)
namlen_text [] more i (suc n) h l = ap (λ k. some (ℤ.pos k)) (omega arith)
namlen_text (ch ∷ cs) more i (suc n) h l =
    rw (h.0, namlen_text cs more (i + 1) n h.1 (omega arith))
      (ap (λ k. some (ℤ.pos k)) (omega arith))

pub read_append : (bytes more : List ℕ) → read (length bytes) (bytes ++ more) ≡ some bytes
unfolding read
read_append [] more = refl
read_append (ch ∷ bytes) more = rw (read_append bytes more) refl

pub write_fits :
    (bytes buffer : List ℕ)
    → length bytes ≤ length buffer
    → write bytes buffer ≡ some (written bytes buffer)
unfolding write
write_fits [] buffer l = refl
write_fits (ch ∷ bytes) [] l = absurd (omega arith)
write_fits (ch ∷ bytes) (_ ∷ buffer) l = rw (write_fits bytes buffer (omega arith)) refl

pub length-drop {ℓ} :
    {A : Type ℓ} (n : ℕ) (xs : List A) → n ≤ length xs → n + length (drop n xs) ≡ length xs
length-drop zero xs l = omega arith
length-drop (suc n) [] l = absurd (omega arith)
length-drop (suc n) (x ∷ xs) l = omega (arith, length-drop n xs (omega arith))

pub length-written :
    (bytes array : List ℕ)
    → length bytes ≤ length array
    → length (written bytes array) ≡ length array
length-written bytes array l =
    length-append bytes (drop (length bytes) array) ∙ length-drop (length bytes) array l

char_short : (n : ℕ) → n < 256 → n % 256 ≡ n
char_short n l = omega arith

pub minus_pos : (a b c : ℕ) → a ≡ b + c → minus (ℤ.pos a) b ≡ ℤ.pos c
minus_pos a b c e = let q : leb b a ≡ true = ground arith in rw q (ap ℤ.pos (omega arith))

-- The first mapping that agrees is applied.
place_lem :
    (e : NmEntry) (newname replacement remainder more : List ℕ) (plen : ℕ)
    → Text replacement e.nreplace
    → length replacement < nm_repllen
    → plen + length remainder < 161
    → length newname ≡ nm_maxlen
    → place e newname plen
        (remainder ++ (0 ∷ more))
        (some (ℤ.pos (plen + length remainder + 1)))
        (some (ℤ.pos (length replacement + 1)))
      ≡ some (written (replacement ++ (remainder ++ (0 ∷ []))) newname, e.ndevice)
unfolding place copy_parts
place_lem e newname replacement remainder more plen t r l n =
    let tail = remainder ++ (0 ∷ []) in
    let one : length tail ≡ length remainder + 1 = length-append remainder (0 ∷ []) in
    let both = length-append replacement tail in
    let d : ltb nm_maxlen (length replacement + length tail) ≡ false = ground arith in
    let f : read (length replacement) e.nreplace ≡ some replacement =
      rw t.holds (read_append replacement (0 ∷ t.behind)) in
    let g : read (length tail) (remainder ++ (0 ∷ more)) ≡ some tail =
      ap (read (length tail)) (sym (append_assoc remainder (0 ∷ []) more))
      ∙ read_append tail more in
    let w = write_fits (replacement ++ tail) newname (omega (arith, both, one, n, l, r)) in
    rw
      (
        char_short (plen + length remainder + 1) (omega arith),
        minus_pos (plen + length remainder + 1) plen (length tail) (omega arith),
        minus_pos (length replacement + 1) 1 (length replacement) (omega arith),
        d,
        f,
        g,
        w,
      )
      refl

pub namlen_entry :
    (m : Mapping) (e : NmEntry)
    → IsEntry m e
    → namlen e.nreplace nm_maxlen ≡ some (ℤ.pos (length m.1 + 1))
namlen_entry m e ie =
    ap (λ p. namlen p nm_maxlen) ie.replacement.holds
    ∙ namlen_text m.1 ie.replacement.behind 0 nm_maxlen ie.replacement.nonnull
        (omega (arith, ie.short))
    ∙ ap (λ k. some (ℤ.pos k)) (omega arith)

pub compare_entry :
    (m : Mapping) (e : NmEntry) (name more : List ℕ)
    → IsEntry m e
    → compare_prefix 0 e.nprefix (name ++ (0 ∷ more))
      ≡ some (agreement (0 + length m.0) (strip m.0 name) more)
compare_entry m e name more ie =
    ap (λ p. compare_prefix 0 p (name ++ (0 ∷ more))) ie.prefix.holds
    ∙ compare_prefix_lem 0 m.0 name more ie.prefix.behind ie.prefix.nonnull

placed :
    (e : NmEntry) (m : Mapping) (name remainder more newname : List ℕ)
    → IsEntry m e
    → All (λ ch. (ch == 0) ≡ false) name
    → length name < 161
    → length newname ≡ nm_maxlen
    → name ≡ m.0 ++ remainder
    → Answer (some (m.1 ++ remainder, m.2)) newname (
        place e newname
          (0 + length m.0)
          (remainder ++ (0 ∷ more))
          (namlen (name ++ (0 ∷ more)) nm_maxlen)
          (namlen e.nreplace nm_maxlen))
placed e m name remainder more newname ie h l n q =
    let tail = remainder ++ (0 ∷ []) in
    let size : length name ≡ length m.0 + length remainder =
      ap length q ∙ length-append m.0 remainder in
    let a : namlen (name ++ (0 ∷ more)) nm_maxlen
        ≡ some (ℤ.pos (0 + length m.0 + length remainder + 1)) =
      namlen_text name more 0 nm_maxlen h (omega arith)
      ∙ ap (λ k. some (ℤ.pos k)) (omega (arith, size)) in
    let p =
      place_lem e newname m.1 remainder more (0 + length m.0) ie.replacement ie.short
        (omega (arith, size, l)) n in
    (
      written (m.1 ++ tail) newname,
      rw (a, namlen_entry m e ie)
          (p ∙ ap (λ d. some (written (m.1 ++ tail) newname, d)) (sym ie.device)),
      record {
        nonnull =
            All-append (λ ch. (ch == 0) ≡ false) m.1 remainder ie.replacement.nonnull
              (All-right (λ ch. (ch == 0) ≡ false) m.0 remainder (rw q at h));
        behind = drop (length (m.1 ++ tail)) newname;
        holds =
            rw
              (
                append_assoc m.1 tail (drop (length (m.1 ++ tail)) newname),
                append_assoc remainder (0 ∷ []) (drop (length (m.1 ++ tail)) newname),
                append_assoc m.1 remainder (0 ∷ drop (length (m.1 ++ tail)) newname),
              )
              refl;
      },
      length-written (m.1 ++ tail) newname (
            omega (
              arith,
              length-append m.1 tail,
              length-append remainder (0 ∷ []),
              n,
              l,
              size,
              ie.short,
            ))
          ∙ n,
    )

replaced_lem :
    (e : NmEntry) (m : Mapping) (name more newname : List ℕ) (found : Option (List ℕ × ℕ))
    (rest : Option (List ℕ × ℕ))
    → IsEntry m e
    → All (λ ch. (ch == 0) ≡ false) name
    → length name < 161
    → length newname ≡ nm_maxlen
    → Answer found newname rest
    → Answer (prefer (strip m.0 name) m found) newname (
        replaced e
          (name ++ (0 ∷ more))
          newname
          rest
          (compare_prefix 0 e.nprefix (name ++ (0 ∷ more))))
unfolding replaced
replaced_lem e m name more newname found rest ie h l n a = elim (Option-cases (strip m.0 name)) [
  | inl s ↦ rw (compare_entry m e name more ie, s) a
  | inr (remainder, s) ↦
      rw (compare_entry m e name more ie, s)
        (placed e m name remainder more newname ie h l n (strip_append m.0 name remainder s))
]

namrepl_entries :
    (ms : List Mapping) (es : List NmEntry) (name more newname : List ℕ)
    → Entries ms es
    → All (λ ch. (ch == 0) ≡ false) name
    → length name < 161
    → length newname ≡ nm_maxlen
    → Answer (find ms name) newname (namrepl_from es (name ++ (0 ∷ more)) newname)
unfolding find namrepl_from
namrepl_entries [] [] name more newname t h l n = refl
namrepl_entries [] (e ∷ es) name more newname t h l n = absurd t
namrepl_entries (m ∷ ms) [] name more newname t h l n = absurd t
namrepl_entries (m ∷ ms) (e ∷ es) name more newname t h l n =
    replaced_lem e m name more newname (find ms name) (namrepl_from es (name ++ (0 ∷ more)) newname)
      t.0 h l n (namrepl_entries ms es name more newname t.1 h l n)

-- For a name of at most 160 characters and a buffer of NM_MAXLEN bytes, namrepl gives what the list of the mappings
-- in the table gives: the name with the first prefix it starts with replaced, and
-- the device of that prefix, or SYSERR and an unchanged buffer when no prefix fits.
pub namrepl_lem :
    (ms : List Mapping) (s : NameSpace) (name more newname : List ℕ)
    → Table ms s
    → All (λ ch. (ch == 0) ≡ false) name
    → length name < 161
    → length newname ≡ nm_maxlen
    → Answer (find ms name) newname (namrepl s (name ++ (0 ∷ more)) newname)
unfolding namrepl
namrepl_lem ms s name more newname t h l n =
    namrepl_entries ms (take s.nnames s.nametab) name more newname t h l n

pub find_empty :
    (ms : List Mapping) (es : List NmEntry) (name : List ℕ)
    → Entries ms es
    → es ≡ []
    → find ms name ≡ none
unfolding find
find_empty [] es name t q = refl
find_empty (m ∷ ms) [] name t q = absurd t
find_empty (m ∷ ms) (e ∷ es) name t q = absurd (cc q)

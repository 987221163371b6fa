-- ===== src/Nam/Mount.antt =====
-- device/nam/mount.c as an addition to the list of the mappings.
use mathlib.Core.List.{append_assoc}
use os_xinu.Prelude.{
  ℕ, zero, suc, ◌+◌, ◌^◌, ◌<◌, ◌≤◌, ◌≡◌, ◌⊎◌, refl, arith, ltb, leb, if◌then◌else◌, ◌==◌, ◌||◌,
  Bool-cases, Bool, true, false, inl, inr, List, [], ◌∷◌, ◌++◌, All, Option, some, length, take,
  drop, set, length-set, ℤ, ap, ◌∙◌,
}
use os_xinu.Nam.{
  add_entry, is_negative, nm_repllen, nm_prelen, written, max_names, NmEntry, NameSpace, mount,
  mount_sized, namlen, namlen_from,
}
use os_xinu.Nam.Replace.Search.{namlen_text}
use os_xinu.Nam.Replace.{Text, IsEntry, Entries, Table, Mapping}

-- A table of NNAMES entries, the first `nnames` of which hold these mappings.
pub record IsNames (ms : List Mapping) (s : NameSpace) : Type 0 where
  pub table : Table ms s
  pub size : length s.nametab ≡ max_names

namlen_long :
    (cs more : List ℕ) (i n : ℕ)
    → All (λ ch. (ch == 0) ≡ false) cs
    → n ≤ length cs
    → namlen_from i (cs ++ (0 ∷ more)) n ≡ some (ℤ.negsuc 0)
unfolding namlen_from
namlen_long cs more i zero h l = refl
namlen_long [] more i (suc n) h l = absurd (omega arith)
namlen_long (ch ∷ cs) more i (suc n) h l =
    rw (h.0, namlen_long cs more (i + 1) n h.1 (omega arith)) refl

-- What namlen gives for a text.
namlen_cases :
    (cs more : List ℕ) (n : ℕ)
    → All (λ ch. (ch == 0) ≡ false) cs
    → namlen (cs ++ (0 ∷ more)) n
      ≡ some (if ltb (length cs) n then ℤ.pos (length cs + 1) else ℤ.negsuc 0)
namlen_cases cs more n h = elim (Bool-cases (ltb (length cs) n)) [
  | inl b ↦ rw b (namlen_text cs more 0 n h (ground arith) ∙ ap (λ k. some (ℤ.pos k)) (omega arith))
  | inr b ↦ rw b (namlen_long cs more 0 n h (ground arith))
]

take-suc : (cs more : List ℕ) → take (suc (length cs)) (cs ++ (0 ∷ more)) ≡ cs ++ (0 ∷ [])
take-suc [] more = refl
take-suc (ch ∷ cs) more = ap (λ r. ch ∷ r) (take-suc cs more)

take_text : (cs more : List ℕ) → take (length cs + 1) (cs ++ (0 ∷ more)) ≡ cs ++ (0 ∷ [])
take_text cs more = let e : length cs + 1 ≡ suc (length cs) = omega arith in rw e (take-suc cs more)

Entries-append :
    (ms : List Mapping) (es : List NmEntry) (m : Mapping) (e : NmEntry)
    → Entries ms es
    → IsEntry m e
    → Entries (ms ++ (m ∷ [])) (es ++ (e ∷ []))
Entries-append [] [] m e t i = (i, tt)
Entries-append [] (_ ∷ _) m e t i = absurd t
Entries-append (_ ∷ _) [] m e t i = absurd t
Entries-append (m' ∷ ms) (e' ∷ es) m e t i = (t.0, Entries-append ms es m e t.1 i)

take-set {ℓ} :
    {A : Type ℓ} (xs : List A) (n : ℕ) (x : A)
    → n < length xs
    → take (suc n) (set xs n x) ≡ take n xs ++ (x ∷ [])
take-set [] n x l = absurd (omega arith)
take-set (y ∷ xs) zero x l = refl
take-set (y ∷ xs) (suc n) x l = ap (λ r. y ∷ r) (take-set xs n x (omega arith))

written-Text :
    (cs more old : List ℕ)
    → All (λ ch. (ch == 0) ≡ false) cs
    → Text cs (written (take (length cs + 1) (cs ++ (0 ∷ more))) old)
written-Text cs more old h = rw (take_text cs more) (record {
  nonnull = h;
  behind = drop (length (cs ++ (0 ∷ []))) old;
  holds = append_assoc cs (0 ∷ []) (drop (length (cs ++ (0 ∷ []))) old);
})

added :
    (ms : List Mapping) (s : NameSpace) (m : Mapping) (e : NmEntry)
    → IsNames ms s
    → s.nnames < max_names
    → IsEntry m e
    → Entries (ms ++ (m ∷ [])) (take (s.nnames + 1) (set s.nametab s.nnames e))
added ms s m e i f ie =
    let q : s.nnames + 1 ≡ suc s.nnames = omega arith in
    rw (q, take-set s.nametab s.nnames e (omega (arith, f, i.size)))
      (Entries-append ms (take s.nnames s.nametab) m e i.table ie)

-- The effect of `mount` on the list of the mappings.
pub record Mounted (ms : List Mapping) (m : Mapping) (o : Option (NameSpace × Bool)) : Type 0 where
  pub after : NameSpace
  pub returns : o ≡ some (after, true)
  pub names : IsNames (ms ++ (m ∷ [])) after

-- A prefix and a replacement that fit, for a device of the NDEVS devices, are added to the mappings behind those of
-- before as long as the table is not full, and mount returns OK.
pub mount_lem :
    (ndevs : ℕ) (ms : List Mapping) (s : NameSpace) (prefix replacement more more' : List ℕ)
    (device : ℕ)
    → IsNames ms s
    → All (λ ch. (ch == 0) ≡ false) prefix
    → All (λ ch. (ch == 0) ≡ false) replacement
    → length prefix < nm_prelen
    → length replacement < nm_repllen
    → device < ndevs
    → ndevs ≤ 2 ^ 31
    → s.nnames < max_names
    → Mounted ms
        (prefix, replacement, device)
        (mount ndevs s (prefix ++ (0 ∷ more)) (replacement ++ (0 ∷ more')) device)
unfolding mount mount_sized
mount_lem ndevs ms s prefix replacement more more' device i hp hr lp lr ld ln f =
    let a : ltb (length prefix) nm_prelen ≡ true = ground arith in
    let b : ltb (length replacement) nm_repllen ≡ true = ground arith in
    let c : (is_negative device || leb ndevs device) ≡ false = ground arith in
    let d : leb max_names s.nnames ≡ false = ground arith in
    let after =
      add_entry s (take (length prefix + 1) (prefix ++ (0 ∷ more)))
        (take (length replacement + 1) (replacement ++ (0 ∷ more'))) device in
    record {
      after = after;
      returns =
          rw
            (
              namlen_cases prefix more nm_prelen hp,
              namlen_cases replacement more' nm_repllen hr,
              a,
              b,
              c,
              d,
            )
            refl;
      names = record {
        table =
            added ms s (prefix, replacement, device) _ i f
              (record {
                prefix = written-Text prefix more _ hp;
                replacement = written-Text replacement more' _ hr;
                short = lr;
                device = refl;
              });
        size = length-set s.nametab s.nnames _ ∙ i.size;
      };
    }

-- mount returns SYSERR and changes nothing when the prefix or the replacement does not fit with its null,
-- when the device is none of the NDEVS devices, and when the table is full.
mount_refused :
    (ndevs : ℕ) (s : NameSpace) (prefix replacement more more' : List ℕ) (device : ℕ)
    → All (λ ch. (ch == 0) ≡ false) prefix
    → All (λ ch. (ch == 0) ≡ false) replacement
    → (nm_prelen ≤ length prefix)
      ⊎ (nm_repllen ≤ length replacement)
      ⊎ (ndevs ≤ device)
      ⊎ (max_names ≤ s.nnames)
    → mount ndevs s (prefix ++ (0 ∷ more)) (replacement ++ (0 ∷ more')) device ≡ some (s, false)
unfolding mount mount_sized
mount_refused ndevs s prefix replacement more more' device hp hr e =
    rw (namlen_cases prefix more nm_prelen hp, namlen_cases replacement more' nm_repllen hr)
      (ground arith)

-- ===== src/Nam/Replace.antt =====
-- The specification of the search of the name space: a list of prefixes.
pub mod Search
use mathlib.Core.List.{append_assoc}
use os_xinu.Prelude.{
  All-right, All-append, Option-cases, sym, leb, ℕ, zero, suc, ◌+◌, ◌%◌, ◌<◌, ◌≤◌, ◌≡◌, refl, arith,
  ltb, if◌then◌else◌, ◌==◌, Bool-cases, true, false, inl, inr, List, [], ◌∷◌, ◌++◌, All, Option,
  none, some, length, length-append, take, drop, ℤ, ap, ◌∙◌,
}
use os_xinu.Nam.{
  namrepl, namrepl_from, namlen, replaced, syserr, minus, to_char, copy_parts, written, read, write,
  place, nm_repllen, NmEntry, NameSpace, Match, compare_prefix, namlen_from, nm_maxlen,
}

-- The array starts with these characters and a null.
pub record Text (cs array : List ℕ) : Type 0 where
  pub nonnull : All (λ ch. (ch == 0) ≡ false) cs
  pub behind : List ℕ
  pub holds : array ≡ cs ++ (0 ∷ behind)

-- What a prefix leaves of a name.
unfoldable pub strip : List ℕ → List ℕ → Option (List ℕ)
strip [] name = some name
strip (p ∷ prefix) [] = none
strip (p ∷ prefix) (ch ∷ name) = let rest = strip prefix name in if p == ch then rest else none

-- A prefix, its replacement and its device.
abbrev pub Mapping : Type 0
Mapping = List ℕ × List ℕ × ℕ

abbrev pub prefer : Option (List ℕ) → Mapping → Option (List ℕ × ℕ) → Option (List ℕ × ℕ)
prefer none m rest = rest
prefer (some remainder) m rest = some (m.1 ++ remainder, m.2)

-- The first prefix that a name starts with is replaced.
unfoldable pub find : List Mapping → List ℕ → Option (List ℕ × ℕ)
unfolding strip
find [] name = none
find (m ∷ ms) name = prefer (strip m.0 name) m (find ms name)

-- The entry of the table holds the mapping.
pub record IsEntry (m : Mapping) (e : NmEntry) : Type 0 where
  pub prefix : Text m.0 e.nprefix
  pub replacement : Text m.1 e.nreplace
  pub short : length m.1 < nm_repllen
  pub device : m.2 ≡ e.ndevice

abbrev pub Entries : List Mapping → List NmEntry → Type 0
Entries [] [] = Unit
Entries (m ∷ ms) (e ∷ es) = IsEntry m e × Entries ms es
Entries _ _ = ⊥

-- The answer of the search, as namrepl gives it: the new name at the start of the buffer and its device,
-- or SYSERR and the buffer as it was.
abbrev pub Answer : Option (List ℕ × ℕ) → List ℕ → Option (List ℕ × ℕ) → Type 0
Answer none newname o = o ≡ some (newname, syserr)
Answer (some (cs, device)) newname o =
    (buffer : List ℕ) × (o ≡ some (buffer, device)) × Text cs buffer × (length buffer ≡ nm_maxlen)

-- The table holds these mappings.
abbrev pub Table : List Mapping → NameSpace → Type 0
Table ms s = Entries ms (take s.nnames s.nametab)

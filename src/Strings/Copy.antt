-- ===== src/Strings/Copy.antt =====
-- lib/strcpy.c, strncpy.c, strncat.c, memcpy.c, memset.c and bzero.c. Each returns the contents of
-- the target after the call.
pub mod Contents
use os_xinu.Prelude.{ℕ, zero, suc, ◌%◌, ◌==◌, if◌then◌else◌}
use os_xinu.Prelude.{Option, none, some, ◌>>=◌, List, [], ◌∷◌, ℤ}
use os_xinu.Strings.Compare.{rounds}

-- `*p++ = c`, and what the rest of the loop leaves behind it.
abbrev put : ℕ → Option (List ℕ) → Option (List ℕ)
put c rest = do tail ← rest; some (c ∷ tail)

pub strcpy : List ℕ → List ℕ → Option (List ℕ)
strcpy tar [] = none
strcpy [] (c ∷ src) = none
strcpy (t ∷ tar) (c ∷ src) = if c == 0 then some (c ∷ tar) else put c (strcpy tar src)

-- The inner loop of `strncpy`, which fills up with null bytes.
unfoldable pub pad : ℕ → List ℕ → Option (List ℕ)
pad zero s1 = some s1
pad (suc n) [] = none
pad (suc n) (t ∷ s1) = put 0 (pad n s1)

unfoldable pub strncpy_rounds : ℕ → List ℕ → List ℕ → Option (List ℕ)
strncpy_rounds zero s1 s2 = some s1
strncpy_rounds (suc n) s1 [] = none
strncpy_rounds (suc n) [] (c ∷ s2) = none
strncpy_rounds (suc n) (t ∷ s1) (c ∷ s2) =
    if c == 0 then put c (pad n s1) else put c (strncpy_rounds n s1 s2)

unfoldable pub strncpy : List ℕ → List ℕ → ℤ → Option (List ℕ)
unfolding strncpy_rounds pad
strncpy s1 s2 n = strncpy_rounds (rounds n) s1 s2

-- The second loop of `strncat`: the byte that is one too many is overwritten.
append_rounds : ℕ → List ℕ → List ℕ → Option (List ℕ)
append_rounds n [] s2 = none
append_rounds n (t ∷ s1) [] = none
append_rounds zero (t ∷ s1) (c ∷ s2) = if c == 0 then some (c ∷ s1) else some (0 ∷ s1)
append_rounds (suc n) (t ∷ s1) (c ∷ s2) =
    if c == 0 then some (c ∷ s1) else put c (append_rounds n s1 s2)

strncat_rounds : ℕ → List ℕ → List ℕ → Option (List ℕ)
strncat_rounds n [] s2 = none
strncat_rounds n (c ∷ s1) s2 =
    if c == 0 then append_rounds n (c ∷ s1) s2 else put c (strncat_rounds n s1 s2)

pub strncat : List ℕ → List ℕ → ℤ → Option (List ℕ)
unfolding strncat_rounds append_rounds
strncat s1 s2 n = strncat_rounds (rounds n) s1 s2

memcpy_rounds : ℕ → List ℕ → List ℕ → Option (List ℕ)
memcpy_rounds zero dst src = some dst
memcpy_rounds (suc n) dst [] = none
memcpy_rounds (suc n) [] (c ∷ src) = none
memcpy_rounds (suc n) (t ∷ dst) (c ∷ src) = put c (memcpy_rounds n dst src)

pub memcpy : List ℕ → List ℕ → ℤ → Option (List ℕ)
unfolding memcpy_rounds
memcpy s ct n = memcpy_rounds (rounds n) s ct

memset_rounds : ℕ → ℕ → List ℕ → Option (List ℕ)
memset_rounds zero c cp = some cp
memset_rounds (suc n) c [] = none
memset_rounds (suc n) c (t ∷ cp) = put (c % 256) (memset_rounds n c cp)

pub memset : List ℕ → ℕ → ℤ → Option (List ℕ)
unfolding memset_rounds
memset s c n = memset_rounds (rounds n) c s

-- `do … while (--n)`; it is entered only at n > 0.
bzero_rounds : ℕ → List ℕ → Option (List ℕ)
bzero_rounds zero pch = some pch
bzero_rounds (suc n) [] = none
bzero_rounds (suc n) (t ∷ pch) = put 0 (bzero_rounds n pch)

pub bzero : List ℕ → ℤ → Option (List ℕ)
unfolding bzero_rounds
bzero p len = bzero_rounds (rounds len) p

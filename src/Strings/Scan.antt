-- ===== src/Strings/Scan.antt =====
-- lib/strlen.c, strnlen.c, strchr.c, strrchr.c, memchr.c and strstr.c.
pub mod Find
use os_xinu.Prelude.{ℕ, ◌+◌, ◌%◌, Bool, false, ◌&&◌, not, ◌==◌, ltb, if◌then◌else◌}
use os_xinu.Prelude.{Option, none, some, ◌>>=◌, List, [], ◌∷◌}

-- A pointer into the object that was passed, as an offset from its start, or NULL.
pub data Ptr : Type 0 where
  null : Ptr
  at : ℕ → Ptr

unfoldable pub strlen_from : ℕ → List ℕ → Option ℕ
strlen_from len [] = none
strlen_from len (c ∷ s) = if not (c == 0) then strlen_from (len + 1) s else some len

unfoldable pub strlen : List ℕ → Option ℕ
unfolding strlen_from
strlen s = strlen_from 0 s

strnlen_from : ℕ → ℕ → List ℕ → Option ℕ
strnlen_from len n [] = none
strnlen_from len n (c ∷ s) =
    if not (c == 0) && ltb n len then strnlen_from len (n + 1) s else some n

pub strnlen : List ℕ → ℕ → Option ℕ
unfolding strnlen_from
strnlen s len = strnlen_from len 0 s

strchr_from : ℕ → ℕ → List ℕ → Option Ptr
strchr_from c i [] = none
strchr_from c i (b ∷ s) =
    if not (b == 0)
    then (if b == c then some (at i) else strchr_from c (i + 1) s)
    else (if c == b then some (at i) else some null)

-- The cast to `char` keeps the low byte of `c`.
pub strchr : List ℕ → ℕ → Option Ptr
unfolding strchr_from
strchr s c = strchr_from (c % 256) 0 s

-- `r` is the last match so far.
strrchr_from : ℕ → Ptr → ℕ → List ℕ → Option Ptr
strrchr_from c r i [] = none
strrchr_from c r i (b ∷ s) =
    if not (b == 0)
    then strrchr_from c (if b == c then at i else r) (i + 1) s
    else (if c == b then some (at i) else some r)

pub strrchr : List ℕ → ℕ → Option Ptr
unfolding strrchr_from
strrchr s c = strrchr_from (c % 256) null 0 s

memchr_from : ℕ → ℕ → List ℕ → Option Ptr
memchr_from c i [] = none
memchr_from c i (b ∷ s) =
    if not (b == 0) then (if b == c then some (at i) else memchr_from c (i + 1) s) else some null

-- The source takes a count as its third argument and does not read it.
pub memchr : List ℕ → ℕ → ℕ → Option Ptr
unfolding memchr_from
memchr cs c n = memchr_from (c % 256) 0 cs

-- The inner loop of `strstr`: does `ct` end before it differs from `cs`?
match_at : List ℕ → List ℕ → Option Bool
match_at [] cr = none
match_at (q ∷ cq) [] = none
match_at (q ∷ cq) (r ∷ cr) =
    if not (q == 0) && not (r == 0)
    then (if not (q == r) then some (0 == r) else match_at cq cr)
    else some (0 == r)

-- The test `*cs == *ct`, and the inner loop behind it.
matches : List ℕ → List ℕ → Option Bool
matches [] ct = none
matches (c ∷ cs) [] = none
matches (c ∷ cs) (d ∷ ct) = if c == d then match_at (c ∷ cs) (d ∷ ct) else some false

strstr_from : List ℕ → ℕ → List ℕ → Option Ptr
strstr_from ct i [] = none
strstr_from ct i (c ∷ cs) =
    let rest = strstr_from ct (i + 1) cs in
    if not (c == 0)
    then (matches (c ∷ cs) ct >>= λ found. if found then some (at i) else rest)
    else some null

pub strstr : List ℕ → List ℕ → Option Ptr
unfolding strstr_from matches match_at
strstr cs ct = strstr_from ct 0 cs

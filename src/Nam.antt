-- ===== src/Nam.antt =====
-- device/nam/mount.c and device/nam/nammap.c, with include/name.h: the name space, a table of prefixes
-- and their replacements.
-- A name is the list of the bytes from the pointer on, a buffer the list of its bytes. `none` is a
-- read or a write beyond these.
-- A device is a 32-bit pattern, and a length that can be negative a ℤ.
pub mod Replace
pub mod Mount
pub mod Map
pub mod Long
mod Tests
use mathlib.Core.Option
use os_xinu.Prelude.{
  negsuc, map, pos, ℕ, zero, suc, ◌+◌, ◌-◌, ◌%◌, ◌^◌, Bool, true, false, ◌||◌, ◌==◌, leb, ltb,
  if◌then◌else◌, List, [], ◌∷◌, ◌++◌, take, drop, length, set, Option, none, some,
}
use os_xinu.Prelude.{ℤ, sub_ℕ, get_or}
use os_xinu.Queue.{is_negative}

abbrev pub nm_prelen : ℕ
nm_prelen = 64

abbrev pub nm_repllen : ℕ
nm_repllen = 96

abbrev pub nm_maxlen : ℕ
nm_maxlen = 256

abbrev pub max_names : ℕ
max_names = 40

abbrev pub syserr : ℕ
syserr = 2 ^ 32 - 1

-- `struct nmentry`.
pub record NmEntry : Type 0 where
  pub nprefix : List ℕ
  pub nreplace : List ℕ
  pub ndevice : ℕ

-- `nametab` and `nnames`.
pub record NameSpace : Type 0 where
  pub nametab : List NmEntry
  pub nnames : ℕ

-- The loop of `namlen`, `i` rounds after its start.
pub namlen_from : ℕ → List ℕ → ℕ → Option ℤ
namlen_from i name zero = some (ℤ.negsuc 0)
namlen_from i [] (suc n) = none
namlen_from i (ch ∷ name) (suc n) =
    let rest = namlen_from (i + 1) name n in if ch == 0 then some (ℤ.pos (i + 1)) else rest

abbrev pub namlen : List ℕ → ℕ → Option ℤ
namlen name maxlen = namlen_from 0 name maxlen

abbrev pub count_of : ℤ → ℕ
count_of (ℤ.pos n) = n
count_of (ℤ.negsuc n) = 0

-- The bytes written to the start of an array; it keeps the others.
abbrev pub written : List ℕ → List ℕ → List ℕ
written bytes array = bytes ++ drop (length bytes) array

abbrev pub is_error : ℤ → Bool
is_error (ℤ.pos n) = false
is_error (ℤ.negsuc n) = n == 0

-- The entry of `mount`, and the step of the table.
abbrev pub add_entry : NameSpace → List ℕ → List ℕ → ℕ → NameSpace
add_entry s prefix replace device =
    let old = get_or s.nametab s.nnames (record { nprefix = []; nreplace = []; ndevice = 0 }) in
    record {
      nametab = set s.nametab s.nnames (record {
        nprefix = written prefix old.nprefix;
        nreplace = written replace old.nreplace;
        ndevice = device;
      });
      nnames = s.nnames + 1;
    }

-- `mount` once the two lengths are known; `ndevs` is NDEVS of the configuration.
pub mount_sized :
    ℕ → NameSpace → List ℕ → List ℕ → ℕ → Option ℤ → Option ℤ → Option (NameSpace × Bool)
mount_sized ndevs s prefix replace device none rsiz = none
mount_sized ndevs s prefix replace device (some psiz) none = none
mount_sized ndevs s prefix replace device (some psiz) (some rsiz) =
    if is_error psiz
      || is_error rsiz
      || (is_negative device || leb ndevs device)
      || leb max_names s.nnames
    then some (s, false)
    else some
        (add_entry s (take (count_of psiz) prefix) (take (count_of rsiz) replace) device, true)

pub mount : ℕ → NameSpace → List ℕ → List ℕ → ℕ → Option (NameSpace × Bool)
unfolding mount_sized namlen_from
mount ndevs s prefix replace device =
    mount_sized ndevs s prefix replace device (namlen prefix nm_prelen) (namlen replace nm_repllen)

-- The comparison of a prefix with a name: the length of the prefix, and the name behind it.
pub data Match : Type 0 where
  differs : Match
  agrees : ℕ → List ℕ → Match

pub compare_prefix : ℕ → List ℕ → List ℕ → Option Match
compare_prefix plen [] name = none
compare_prefix plen (p ∷ pptr) [] = if p == 0 then some (agrees plen []) else none
compare_prefix plen (p ∷ pptr) (ch ∷ optr) =
    let rest = compare_prefix (plen + 1) pptr optr in
    if p == 0 then some (agrees plen (ch ∷ optr)) else if p == ch then rest else some differs

-- The conversion of a length to `char`, which is 8 bits without a sign on the ARM.
abbrev pub to_char : ℤ → ℤ
to_char (ℤ.pos n) = ℤ.pos (n % 256)
to_char (ℤ.negsuc n) = ℤ.pos (255 - n % 256)

abbrev pub minus : ℤ → ℕ → ℤ
minus (ℤ.pos a) b = sub_ℕ a b
minus (ℤ.negsuc a) b = ℤ.negsuc (a + b)

abbrev pub exceeds : ℤ → ℤ → ℕ → Bool
exceeds (ℤ.pos a) (ℤ.pos b) n = ltb n (a + b)
exceeds (ℤ.pos a) (ℤ.negsuc b) n = ltb (n + b + 1) a
exceeds (ℤ.negsuc a) (ℤ.pos b) n = ltb (n + a + 1) b
exceeds (ℤ.negsuc a) (ℤ.negsuc b) n = false

-- A loop that copies bytes: those that it reads, and the buffer after the writes.
pub read : ℕ → List ℕ → Option (List ℕ)
read zero p = some []
read (suc n) [] = none
read (suc n) (ch ∷ p) = Option.map (λ bytes. ch ∷ bytes) (read n p)

pub write : List ℕ → List ℕ → Option (List ℕ)
write [] buffer = some buffer
write (ch ∷ bytes) [] = none
write (ch ∷ bytes) (_ ∷ buffer) = Option.map (λ rest. ch ∷ rest) (write bytes buffer)

-- The replacement and then the remainder of the name are copied.
pub copy_parts : Option (List ℕ) → Option (List ℕ) → List ℕ → Option (List ℕ)
unfolding write
copy_parts none remainder newname = none
copy_parts (some replacement) none newname = none
copy_parts (some replacement) (some remainder) newname = write (replacement ++ remainder) newname

-- `namrepl` from the prefix that agrees on: `olen` and `rlen` are the results of `namlen`.
pub place : NmEntry → List ℕ → ℕ → List ℕ → Option ℤ → Option ℤ → Option (List ℕ × ℕ)
unfolding copy_parts read
place e newname plen optr none rlen = none
place e newname plen optr (some olen) none = none
place e newname plen optr (some olen) (some rlen) =
    let remain = minus (to_char olen) plen in
    if exceeds (minus rlen 1) remain nm_maxlen
    then some (newname, syserr)
    else Option.map (λ buffer. (buffer, e.ndevice))
        (copy_parts (read (count_of (minus rlen 1)) e.nreplace) (read (count_of remain) optr)
          newname)

pub replaced : NmEntry → List ℕ → List ℕ → Option (List ℕ × ℕ) → Option Match → Option (List ℕ × ℕ)
unfolding place namlen_from
replaced e name newname rest none = none
replaced e name newname rest (some differs) = rest
replaced e name newname rest (some (agrees plen optr)) =
    place e newname plen optr (namlen name nm_maxlen) (namlen e.nreplace nm_maxlen)

-- The search of the table; the result is the buffer `newname` and the device.
pub namrepl_from : List NmEntry → List ℕ → List ℕ → Option (List ℕ × ℕ)
unfolding replaced compare_prefix
namrepl_from [] name newname = some (newname, syserr)
namrepl_from (e ∷ entries) name newname =
    replaced e name newname (namrepl_from entries name newname) (compare_prefix 0 e.nprefix name)

pub namrepl : NameSpace → List ℕ → List ℕ → Option (List ℕ × ℕ)
unfolding namrepl_from
namrepl s name newname = namrepl_from (take s.nnames s.nametab) name newname

-- The buffer after the copy, and whether a null has been copied.
pub namcpy : List ℕ → List ℕ → ℕ → Option (List ℕ × Bool)
namcpy newname oldname zero = some (newname, false)
namcpy [] oldname (suc n) = none
namcpy (_ ∷ newname) [] (suc n) = none
namcpy (_ ∷ newname) (ch ∷ oldname) (suc n) =
    let rest = namcpy newname oldname n in
    if ch == 0 then some (ch ∷ newname, true) else Option.map (λ r. (ch ∷ r.0, r.1)) rest

-- What a round of the loop of `nammap` does with the result of `namrepl`.
pub map_next :
    List ℕ → ℕ → (List ℕ → Option (List ℕ × ℕ)) → Option (List ℕ × ℕ) → Option (List ℕ × ℕ)
unfolding namcpy
map_next tmpname namdev more none = none
map_next tmpname namdev more (some (newname, newdev)) =
    if newdev == namdev
    then more newname
    else Option.map (λ _. (newname, newdev)) (namcpy tmpname newname nm_maxlen)

pub nammap_from : ℕ → NameSpace → List ℕ → ℕ → List ℕ → Option (List ℕ × ℕ)
unfolding map_next namrepl
nammap_from zero s tmpname namdev newname = some (newname, syserr)
nammap_from (suc n) s tmpname namdev newname =
    map_next tmpname namdev (nammap_from n s tmpname namdev) (namrepl s tmpname newname)

pub map_copied : NameSpace → ℕ → List ℕ → Option (List ℕ × Bool) → Option (List ℕ × ℕ)
unfolding nammap_from
map_copied s namdev newname none = none
map_copied s namdev newname (some (tmpname, copied)) =
    if copied then nammap_from s.nnames s tmpname namdev newname else some (newname, syserr)

-- `tmpname` is what the buffer on the stack holds at the start.
pub nammap : NameSpace → List ℕ → List ℕ → List ℕ → ℕ → Option (List ℕ × ℕ)
unfolding map_copied namcpy
nammap s tmpname name newname namdev = map_copied s namdev newname (namcpy tmpname name nm_maxlen)

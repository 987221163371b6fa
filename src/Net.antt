-- ===== src/Net.antt =====
-- net/dot2ip.c: an IP address in dotted decimal.
-- A string is the list of the bytes from the pointer on; `none` is a read beyond it.
pub mod Dotted
mod Tests
use os_xinu.Prelude.{
  ℕ, zero, suc, ◌+◌, ◌-◌, ◌*◌, ◌%◌, ◌^◌, ◌||◌, ◌==◌, leb, ltb, if◌then◌else◌, List, [], ◌∷◌, Option,
  none, some,
}

-- A segment: an error, or its value, the character that ends it and the string behind that.
pub data Segment : Type 0 where
  refused : Segment
  ends : ℕ → ℕ → List ℕ → Segment

-- The loop over the characters of a segment, with `rounds` of its four rounds left; `ch` is the
-- character read last.
pub segment : ℕ → ℕ → ℕ → ℕ → List ℕ → Option Segment
segment zero nch val ch dotted = some (ends val ch dotted)
segment (suc rounds) nch val ch [] = none
segment (suc rounds) nch val _ (ch ∷ dotted) =
    let rest = segment rounds (nch + 1) (10 * val + (ch - 48)) ch dotted in
    if (ch == 0) || (ch == 46)
    then some (if nch == 0 then refused else ends val ch dotted)
    else if leb 3 nch || ltb ch 48 || ltb 57 ch
    then some refused
    else rest

-- The result: SYSERR, or OK with the address.
pub data Address : Type 0 where
  syserr : Address
  ok : ℕ → Address

-- The end of a round of the loop over the segments. The low 8 bits of the shifted address are 0, so
-- `|` is a sum.
pub segment_next : (ℕ → List ℕ → Option Address) → ℕ → Option Segment → Option Address
segment_next more ipaddr none = none
segment_next more ipaddr (some refused) = some syserr
segment_next more ipaddr (some (ends val ch dotted)) =
    let rest = more ((ipaddr * 256) % 2 ^ 32 + val) dotted in
    if ltb 255 val
    then some syserr
    else if ch == 0
    then some (ok ((ipaddr * 256) % 2 ^ 32 + val))
    else rest

pub dot2ip_from : ℕ → ℕ → List ℕ → Option Address
unfolding segment_next segment
dot2ip_from zero ipaddr dotted = some syserr
dot2ip_from (suc segs) ipaddr dotted =
    segment_next (dot2ip_from segs) ipaddr (segment 4 0 0 0 dotted)

pub dot2ip : List ℕ → Option Address
unfolding dot2ip_from
dot2ip dotted = dot2ip_from 4 0 dotted

-- ===== src/Memory.antt =====
-- include/memory.h, system/getmem.c, freemem.c, getstk.c and meminit.c: the heap, a list of free
-- blocks kept in the blocks themselves.
-- The store gives the `struct memblk` at each address. NULL is never dereferenced, so its entry
-- serves for the static `memlist`: `prev = &memlist` is `prev = 0`. Addresses and lengths are
-- `uint32` and wrap. A block starts at a multiple of 8, so two of these records never overlap.
-- Each loop walks along the list with fuel for `max_blocks` nodes, more than an address space has.
pub mod Blocks
pub mod Allocate
pub mod FirstFit
pub mod Release
pub mod Coalesce
pub mod Merge
pub mod Bytes
pub mod Return
mod Tests
use os_xinu.Prelude.{ℕ, zero, suc, ◌+◌, ◌-◌, ◌*◌, ◌/◌, ◌%◌, ◌^◌, Bool, true, false, ◌&&◌, ◌||◌, not}
use os_xinu.Prelude.{◌==◌, ltb, leb, if◌then◌else◌}

-- `struct memblk`
pub record Memblk : Type 0 where
  pub mnext : ℕ
  pub mlength : ℕ

abbrev pub Store : Type 0
Store = ℕ → Memblk

abbrev pub memlist : ℕ
memlist = 0

abbrev pub max_blocks : ℕ
max_blocks = 2 ^ 29 + 1

-- `(char *) SYSERR`
abbrev pub syserr : ℕ
syserr = 2 ^ 32 - 1

abbrev pub add32 : ℕ → ℕ → ℕ
add32 a b = (a + b) % 2 ^ 32

abbrev pub sub32 : ℕ → ℕ → ℕ
sub32 a b = (a + 2 ^ 32 - b) % 2 ^ 32

-- `x & ~7` clears the three low bits.
abbrev pub truncmb : ℕ → ℕ
truncmb x = x / 8 * 8

abbrev pub roundmb : ℕ → ℕ
roundmb x = truncmb (add32 7 x)

-- Assignments to one field of a block.
abbrev pub set_mnext : Store → ℕ → ℕ → Store
set_mnext s a v j = if a == j then record { mnext = v; mlength = (s j).mlength } else s j

abbrev pub set_mlength : Store → ℕ → ℕ → Store
set_mlength s a v j = if a == j then record { mnext = (s j).mnext; mlength = v } else s j

-- The loop of `getmem`, from `curr` on.
unfoldable pub getmem_from : ℕ → Store → ℕ → ℕ → ℕ → Store × ℕ
getmem_from zero s nbytes prev curr = (s, syserr)
getmem_from (suc fuel) s nbytes prev curr =
    let rest = getmem_from fuel s nbytes curr (s curr).mnext in
    if not (curr == 0)
    then (if (s curr).mlength == nbytes
        then (let s1 = set_mnext s prev (s curr).mnext in
            (set_mlength s1 memlist (sub32 (s1 memlist).mlength nbytes), curr))
        else (if ltb nbytes (s curr).mlength
            then (let leftover = add32 curr nbytes in
                let s1 = set_mnext s prev leftover in
                let s2 = set_mnext s1 leftover (s1 curr).mnext in
                let s3 = set_mlength s2 leftover (sub32 (s2 curr).mlength nbytes) in
                (set_mlength s3 memlist (sub32 (s3 memlist).mlength nbytes), curr))
            else rest))
    else (s, syserr)

unfoldable pub getmem : Store → ℕ → Store × ℕ
getmem s nbytes =
    if nbytes == 0
    then (s, syserr)
    else getmem_from max_blocks s (roundmb nbytes) memlist (s memlist).mnext

-- The loop of `freemem`: the last block below `block`, and the one after it.
pub freemem_position : ℕ → Store → ℕ → ℕ → ℕ → ℕ × ℕ
freemem_position zero s block prev next = (prev, next)
freemem_position (suc fuel) s block prev next =
    let rest = freemem_position fuel s block next (s next).mnext in
    if not (next == 0) && ltb next block then rest else (prev, next)

-- The end of `freemem`: join `block` with the next block if they touch.
pub coalesce_next : Store → ℕ → ℕ → Store
coalesce_next s block next =
    if add32 block (s block).mlength == next
    then (let s1 = set_mlength s block (add32 (s block).mlength (s next).mlength) in
        set_mnext s1 block (s1 next).mnext)
    else s

-- The store behind the part that joins the block with the previous one or links it in.
pub attach : Store → ℕ → ℕ → ℕ → ℕ → ℕ → Store
attach s block nbytes prev next top =
    let s1 = set_mlength s memlist (add32 (s memlist).mlength nbytes) in
    if top == block
    then set_mlength s1 prev (add32 (s1 prev).mlength nbytes)
    else set_mnext (set_mlength (set_mnext s1 block next) block nbytes) prev block

-- The part of `freemem` behind the loop.
pub freemem_at : Store → ℕ → ℕ → ℕ → ℕ → Store × Bool
freemem_at s block nbytes prev next =
    let top = if prev == memlist then 0 else add32 prev (s prev).mlength in
    if (not (prev == memlist) && ltb block top)
      || (not (next == 0) && ltb next (add32 block nbytes))
    then (s, false)
    else (
      coalesce_next (attach s block nbytes prev next top) (if top == block then prev else block)
          next,
      true,
    )

-- `true` is OK.
unfoldable pub freemem : ℕ → ℕ → Store → ℕ → ℕ → Store × Bool
freemem minheap maxheap s blkaddr nbytes =
    if (nbytes == 0) || ltb blkaddr minheap || ltb maxheap blkaddr
    then (s, false)
    else (let (prev, next) = freemem_position max_blocks s blkaddr memlist (s memlist).mnext in
        freemem_at s blkaddr (roundmb nbytes) prev next)

-- The loop of `getstk`: the last block that fits and the one before it; 0 stands for NULL.
getstk_fits : ℕ → Store → ℕ → ℕ → ℕ → ℕ → ℕ → ℕ × ℕ
getstk_fits zero s nbytes prev curr fits fitsprev = (fits, fitsprev)
getstk_fits (suc fuel) s nbytes prev curr fits fitsprev =
    let rest =
      getstk_fits fuel s nbytes curr (s curr).mnext
        (if leb nbytes (s curr).mlength then curr else fits)
        (if leb nbytes (s curr).mlength then prev else fitsprev) in
    if not (curr == 0) then rest else (fits, fitsprev)

pub getstk : Store → ℕ → Store × ℕ
getstk s n =
    if n == 0
    then (s, syserr)
    else (let nbytes = roundmb n in
        let (fits, fitsprev) = getstk_fits max_blocks s nbytes memlist (s memlist).mnext 0 0 in
        if fits == 0
        then (s, syserr)
        else (let exact = nbytes == (s fits).mlength in
            let s1 =
              if exact
              then set_mnext s fitsprev (s fits).mnext
              else set_mlength s fits (sub32 (s fits).mlength nbytes) in
            let fits' = if exact then fits else add32 fits (s1 fits).mlength in
            (
              set_mlength s1 memlist (sub32 (s1 memlist).mlength nbytes),
              sub32 (add32 fits' nbytes) 4,
            )))

-- `end` is the first address behind the program, MAXADDR the platform's last one.
pub meminit : Store → ℕ → ℕ → Store
meminit s end max_addr =
    let s1 = set_mnext s memlist end in
    let memptr = (s1 memlist).mnext in
    set_mlength (set_mnext s1 memptr 0) memptr (sub32 max_addr end)

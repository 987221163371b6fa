-- ===== src/Bufpool.antt =====
-- system/bufinit.c, mkbufpool.c, getbuf.c and freebuf.c, with include/bufpool.h: pools of buffers of
-- one size, each a list of the free buffers and a semaphore that counts them.
-- `words` is the word at each address in use: the first of a buffer is `bpnext` while it is free, and
-- the pool when it is not. The heap keeps its own records in the free blocks only.
-- Sizes and numbers are 32-bit patterns. `none` is a use of a null pointer as a buffer.
pub mod Chain
pub mod Buffers
pub mod Make
mod Tests
use os_xinu.Prelude.{
  ℕ, zero, suc, ◌+◌, ◌-◌, ◌*◌, ◌/◌, ◌^◌, Bool, true, false, ◌||◌, ◌==◌, leb, ltb, if◌then◌else◌,
  Option, none, some,
}
use os_xinu.Queue.{empty, is_negative}
use os_xinu.Memory.{Store, getmem, syserr, add32, sub32}
use os_xinu.Kernel.{Kernel}
use os_xinu.Kernel.Sem.{wait, signal, semcreate}

abbrev pub max_pools : ℕ
max_pools = 20

abbrev pub bp_maxb : ℕ
bp_maxb = 8192

abbrev pub bp_minb : ℕ
bp_minb = 8

abbrev pub bp_maxn : ℕ
bp_maxn = 2048

-- `struct bpentry`, as an entry of `buftab`.
pub record BpEntry : Type 0 where
  pub bpnext : ℕ
  pub bpsem : ℕ
  pub bpsize : ℕ

pub record Pools : Type 0 where
  pub words : ℕ → ℕ
  pub buftab : ℕ → BpEntry
  pub nbpools : ℕ

abbrev pub set_word : (ℕ → ℕ) → ℕ → ℕ → ℕ → ℕ
set_word w a v j = if a == j then v else w j

abbrev pub set_pool : Pools → ℕ → BpEntry → Pools
set_pool s p e = record s { buftab = λ j. if p == j then e else s.buftab j }

abbrev pub bufinit : Pools → Pools
bufinit s = record s { nbpools = 0 }

-- The buffers from `buf` on are linked, `numbufs` behind the first.
pub link : ℕ → (ℕ → ℕ) → ℕ → ℕ → ℕ → ℕ
link zero w buf bufsiz = set_word w buf 0
link (suc numbufs) w buf bufsiz =
    link numbufs (set_word w buf (add32 buf bufsiz)) (add32 buf bufsiz) bufsiz

-- `mkbufpool` with its memory at `buf`.
pub make_at : Kernel → Pools → ℕ → ℕ → ℕ → Kernel × Pools × ℕ
unfolding link
make_at k s bufsiz numbufs buf =
    let poolid = s.nbpools in
    let (k1, sem) = semcreate k numbufs in
    let s1 =
      set_pool (record s { nbpools = poolid + 1 }) poolid
        (record { bpnext = buf; bpsem = sem; bpsize = bufsiz }) in
    if sem == empty
    then (k1, record s1 { nbpools = poolid }, syserr)
    else (k1, record s1 { words = link (numbufs - 1) s.words buf (bufsiz + 4) }, poolid)

-- The size as a multiple of 4.
abbrev pub round4 : ℕ → ℕ
round4 n = (n + 3) / 4 * 4

pub mkbufpool : Kernel → Store → Pools → ℕ → ℕ → Kernel × Store × Pools × ℕ
unfolding make_at
mkbufpool k h s bufsiz numbufs =
    if is_negative bufsiz
      || ltb bufsiz bp_minb
      || ltb bp_maxb bufsiz
      || (is_negative numbufs || ltb numbufs 1)
      || ltb bp_maxn numbufs
      || leb max_pools s.nbpools
    then (k, h, s, syserr)
    else (let (h1, buf) = getmem h (numbufs * (round4 bufsiz + 4)) in
        if buf == syserr
        then (k, h1, s, syserr)
        else (let (k1, s1, r) = make_at k s (round4 bufsiz) numbufs buf in (k1, h1, s1, r)))

-- `false` is the return of SYSERR. Otherwise `wait` is called, and what follows it is `getbuf_exit`.
abbrev pub getbuf_entry : Kernel → Pools → ℕ → Kernel × Bool
getbuf_entry k s poolid =
    if is_negative poolid || leb s.nbpools poolid
    then (k, false)
    else ((wait k (s.buftab poolid).bpsem).0, true)

pub getbuf_exit : Pools → ℕ → Option (Pools × ℕ)
getbuf_exit s poolid =
    let bufptr = (s.buftab poolid).bpnext in
    if bufptr == 0
    then none
    else (let s1 = set_pool s poolid (record (s.buftab poolid) { bpnext = s.words bufptr }) in
        some (record s1 { words = set_word s.words bufptr poolid }, add32 4 bufptr))

-- `freebuf` with the address of the buffer's first word.
pub release_at : Kernel → Pools → ℕ → Kernel × Pools × Bool
release_at k s buf =
    let poolid = s.words buf in
    if is_negative poolid || leb s.nbpools poolid
    then (k, s, false)
    else (let e = s.buftab poolid in
        let s1 = set_pool s poolid (record e { bpnext = buf }) in
        ((signal k e.bpsem).0, record s1 { words = set_word s.words buf e.bpnext }, true))

pub freebuf : Kernel → Pools → ℕ → Kernel × Pools × Bool
unfolding release_at
freebuf k s bufaddr = release_at k s (sub32 bufaddr 4)

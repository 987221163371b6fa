-- ===== src/Queue.antt =====
-- include/queue.h, system/queue.c, getitem.c, newqueue.c, insert.c and insertd.c: the process
-- queues, doubly linked lists in one table.
-- An index is the 32-bit pattern of a signed id, so EMPTY and SYSERR, both -1, are 2 ^ 32 - 1; the
-- 16-bit fields hold only -1 and indices below 2 ^ 15, which the conversions keep. The table is a
-- function of the index: an index from `nqent` on stands for memory outside the table.
pub mod Chain
pub mod Frame
pub mod Fifo
pub mod Order
pub mod Delta
pub mod Wake
pub mod Fresh
mod Tests
use os_xinu.Prelude.{ℕ, zero, suc, ◌+◌, ◌-◌, ◌%◌, ◌^◌, Bool, ◌&&◌, ◌||◌, not, ◌==◌, ltb, leb}
use os_xinu.Prelude.{true, false, if◌then◌else◌}

abbrev pub nproc : ℕ
nproc = 100

abbrev pub nsem : ℕ
nsem = 100

abbrev pub nfut : ℕ
nfut = 20

abbrev pub nqent : ℕ
nqent = nproc + 4 + nsem + nsem + nfut + nfut

-- EMPTY, and SYSERR as a process or queue id.
abbrev pub empty : ℕ
empty = 2 ^ 32 - 1

abbrev pub is_negative : ℕ → Bool
is_negative x = leb (2 ^ 31) x

-- The signed order of `int32` patterns is the order of these.
abbrev pub bias : ℕ → ℕ
bias k = (k + 2 ^ 31) % 2 ^ 32

abbrev pub max_key : ℕ
max_key = 0x7FFFFFFF

abbrev pub min_key : ℕ
min_key = 0x80000000

-- `struct qentry`
pub record Qentry : Type 0 where
  pub key : ℕ
  pub next : ℕ
  pub prev : ℕ

abbrev pub Qtab : Type 0
Qtab = ℕ → Qentry

-- Assignments to one field of an entry.
abbrev pub set_next : Qtab → ℕ → ℕ → Qtab
set_next t i v j = if i == j then record { key = (t j).key; next = v; prev = (t j).prev } else t j

abbrev pub set_prev : Qtab → ℕ → ℕ → Qtab
set_prev t i v j = if i == j then record { key = (t j).key; next = (t j).next; prev = v } else t j

abbrev pub set_key : Qtab → ℕ → ℕ → Qtab
set_key t i v j = if i == j then record { key = v; next = (t j).next; prev = (t j).prev } else t j

abbrev pub queuetail : ℕ → ℕ
queuetail q = q + 1

abbrev pub firstid : Qtab → ℕ → ℕ
firstid t q = (t q).next

abbrev pub lastid : Qtab → ℕ → ℕ
lastid t q = (t (queuetail q)).prev

-- The comparison with NPROC is signed.
abbrev pub isempty : Qtab → ℕ → Bool
isempty t q = leb nproc (firstid t q) && not (is_negative (firstid t q))

abbrev pub firstkey : Qtab → ℕ → ℕ
firstkey t q = (t (firstid t q)).key

abbrev pub isbadqid : ℕ → Bool
isbadqid x = is_negative x || leb (nqent - 1) x

-- `bad` is the verdict of `isbadpid` on the process, which reads the process table.
pub enqueue : Qtab → Bool → ℕ → ℕ → Qtab × ℕ
enqueue t bad pid q =
    if isbadqid q || bad
    then (t, empty)
    else (let tail = queuetail q in
        let prev = (t tail).prev in
        let t1 = set_next t pid tail in
        let t2 = set_prev t1 pid prev in
        let t3 = set_next t2 prev pid in (set_prev t3 tail pid, pid))

pub getitem : Qtab → ℕ → Qtab × ℕ
getitem t pid =
    let next = (t pid).next in
    let prev = (t pid).prev in (set_prev (set_next t prev next) next prev, pid)

pub getfirst : Qtab → ℕ → Qtab × ℕ
unfolding getitem
getfirst t q = if isempty t q then (t, empty) else getitem t (t q).next

pub getlast : Qtab → ℕ → Qtab × ℕ
unfolding getitem
getlast t q = if isempty t q then (t, empty) else getitem t (t (queuetail q)).prev

pub dequeue : Qtab → ℕ → Qtab × ℕ
unfolding getfirst
dequeue t q =
    if isbadqid q
    then (t, empty)
    else (if isempty t q
        then (t, empty)
        else (let (t1, pid) = getfirst t q in (set_next (set_prev t1 pid empty) pid empty, pid)))

-- `nextqid` is the static variable: the new table, the new value of `nextqid` and the result.
pub newqueue : Qtab → ℕ → Qtab × ℕ × ℕ
newqueue t nextqid =
    if ltb nqent nextqid
    then (t, nextqid, empty)
    else (let q = nextqid in
        let t1 = set_prev (set_next t q (queuetail q)) q empty in
        let t2 = set_key t1 q max_key in
        let t3 = set_prev (set_next t2 (queuetail q) empty) (queuetail q) q in
        (set_key t3 (queuetail q) min_key, nextqid + 2, q))

-- The loop of `insert`: the first entry from `curr` on whose key is below `key`.
pub insert_position : ℕ → Qtab → ℕ → ℕ → ℕ
insert_position zero t key curr = curr
insert_position (suc fuel) t key curr =
    let rest = insert_position fuel t key (t curr).next in
    if leb (bias key) (bias (t curr).key) then rest else curr

-- The list of a queue has fewer than `nqent` entries, so the loop ends before the fuel does.
pub insert : Qtab → Bool → ℕ → ℕ → ℕ → Qtab × Bool
insert t bad pid q key =
    if isbadqid q || bad
    then (t, false)
    else (let curr = insert_position nqent t key (firstid t q) in
        let prev = (t curr).prev in
        let t1 = set_prev (set_next t pid curr) pid prev in
        let t2 = set_key t1 pid key in (set_prev (set_next t2 prev pid) curr pid, true))

-- The loop of `insertd`: `prev`, `next` and the delay that is left.
pub insertd_position : ℕ → Qtab → ℕ → ℕ → ℕ → ℕ → ℕ × ℕ × ℕ
insertd_position zero t q key prev next = (prev, next, key)
insertd_position (suc fuel) t q key prev next =
    let rest =
      insertd_position fuel t q ((key + 2 ^ 32 - (t next).key) % 2 ^ 32) next (t next).next in
    if not (next == queuetail q) && leb (bias (t next).key) (bias key)
    then rest
    else (prev, next, key)

pub insertd : Qtab → Bool → ℕ → ℕ → ℕ → Qtab × Bool
insertd t bad pid q key =
    if isbadqid q || bad
    then (t, false)
    else (let (prev, next, left) = insertd_position nqent t q key q (t q).next in
        let t1 = set_prev (set_next t pid next) pid prev in
        let t2 = set_key t1 pid left in
        let t3 = set_prev (set_next t2 prev pid) next pid in
        (
          if not (next == queuetail q)
              then set_key t3 next (((t3 next).key + 2 ^ 32 - left) % 2 ^ 32)
              else t3,
          true,
        ))

-- ===== src/Ports.antt =====
-- system/ptinit.c, ptcreate.c, ptsend.c, ptrecv.c, ptclear.c, ptreset.c, ptdelete.c and ptcount.c, with
-- include/ports.h: ports, each a queue of messages in nodes that all ports share, with a semaphore for
-- the free places and one for the messages.
-- `ptmsg` and `ptnext` are the fields of the node at an address. Numbers are 32-bit patterns. `none` is a
-- panic or a use of a null pointer as a node.
-- ptsend and ptrecv are cut in two at their `wait`, ptreset and ptdelete after the calls on the
-- semaphores, since other processes may run there; ptcreate runs to its end.
pub mod Nodes
pub mod Moves
pub mod Sending
pub mod Receiving
pub mod Clearing
pub mod Delivery
pub mod Creating
pub mod Reset
pub mod Starting
mod Tests
use os_xinu.Kernel.Sem.{semcount, semdelete, semcreate, signal, wait, semreset}
use os_xinu.Bufpool.{link, set_word}
use os_xinu.Kernel.{sub32, add32, Kernel}
use os_xinu.Memory.{getmem, syserr, Store}
use os_xinu.Queue.{is_negative}
use os_xinu.Prelude.{
  ◌>>=◌, some, if◌then◌else◌, ◌||◌, ℕ, false, not, suc, true, none, ◌*◌, ◌^◌, ltb, Bool, ◌==◌, ◌-◌,
  ◌%◌, Option, leb, zero, ◌+◌, ◌&&◌,
}

abbrev pub nports : ℕ
nports = 30

abbrev pub pt_free : ℕ
pt_free = 1

abbrev pub pt_limbo : ℕ
pt_limbo = 2

abbrev pub pt_alloc : ℕ
pt_alloc = 3

-- `struct ptentry`.
pub record PtEntry : Type 0 where
  pub ptssem : ℕ
  pub ptrsem : ℕ
  pub ptstate : ℕ
  pub ptmaxcnt : ℕ
  pub ptseq : ℕ
  pub pthead : ℕ
  pub pttail : ℕ

-- The nodes, and the globals of ptinit.c.
pub record Ports : Type 0 where
  pub ptmsg : ℕ → ℕ
  pub ptnext : ℕ → ℕ
  pub ptfree : ℕ
  pub porttab : ℕ → PtEntry
  pub ptnextid : ℕ

abbrev pub set_port : Ports → ℕ → PtEntry → Ports
set_port s p e = record s { porttab = λ j. if p == j then e else s.porttab j }

abbrev pub isbadport : ℕ → Bool
isbadport portid = is_negative portid || leb nports portid

-- `isbadport(portid) || porttab[portid].ptstate != PT_ALLOC`
abbrev pub unusable : Ports → ℕ → Bool
unusable s portid = isbadport portid || not ((s.porttab portid).ptstate == pt_alloc)

-- The free nodes from `curr` on are linked, `n` behind the first.
abbrev pub link_nodes : ℕ → (ℕ → ℕ) → ℕ → ℕ → ℕ
link_nodes n ptnext curr = link n ptnext curr 8

abbrev pub cleared : Ports → Ports
cleared s = record s {
  porttab = λ i.
      if ltb i nports then record (s.porttab i) { ptstate = pt_free; ptseq = 0 } else s.porttab i;
  ptnextid = 0;
}

-- `ptinit` with the nodes at `a`.
abbrev pub init_at : Ports → ℕ → ℕ → Ports
init_at s maxmsgs a = record (cleared s) {
  ptfree = a;
  ptnext = link_nodes (if is_negative maxmsgs then 0 else maxmsgs - 1) s.ptnext a;
}

pub ptinit : Store → Ports → ℕ → Option (Store × Ports)
ptinit h s maxmsgs =
    let (h1, a) = getmem h (maxmsgs * 8 % 2 ^ 32) in
    if a == syserr then none else some (h1, init_at s maxmsgs a)

-- `ptmaxcnt` has 16 bits.
abbrev pub new_entry : PtEntry → ℕ → ℕ → ℕ → PtEntry
new_entry e ssem rsem count = record {
  ptssem = ssem;
  ptrsem = rsem;
  ptstate = pt_alloc;
  ptmaxcnt = count % 2 ^ 16;
  ptseq = add32 e.ptseq 1;
  pthead = 0;
  pttail = 0;
}

-- The port `ptnum` gets its semaphores.
abbrev pub create_at : Kernel → Ports → ℕ → ℕ → Kernel × Ports × ℕ
create_at k s ptnum count =
    let (k1, ssem) = semcreate k count in
    let (k2, rsem) = semcreate k1 0 in
    (k2, set_port s ptnum (new_entry (s.porttab ptnum) ssem rsem count), ptnum)

-- The loop over the ports.
pub create_from : ℕ → Kernel → Ports → ℕ → Kernel × Ports × ℕ
create_from zero k s count = (k, s, syserr)
create_from (suc rounds) k s count =
    let ptnum = s.ptnextid in
    let s1 = record s { ptnextid = if leb nports (ptnum + 1) then 0 else ptnum + 1 } in
    let rest = create_from rounds k s1 count in
    if (s1.porttab ptnum).ptstate == pt_free then create_at k s1 ptnum count else rest

pub ptcreate : Kernel → Ports → ℕ → Kernel × Ports × ℕ
unfolding create_from
ptcreate k s count = if is_negative count then (k, s, syserr) else create_from nports k s count

-- The sequence number of the port, and whether the call goes on after `wait`.
pub ptsend_entry : Kernel → Ports → ℕ → Kernel × ℕ × Bool
ptsend_entry k s portid =
    let e = s.porttab portid in
    if unusable s portid
    then (k, 0, false)
    else (let (k1, waited) = wait k e.ptssem in (k1, e.ptseq, waited))

-- The first free node is taken for the message, and linked behind the others of the port.
abbrev pub append_node : Ports → ℕ → ℕ → Ports
append_node s portid msg =
    let e = s.porttab portid in
    let node = s.ptfree in
    let next = set_word s.ptnext node 0 in
    let s1 = record s { ptfree = s.ptnext node; ptmsg = set_word s.ptmsg node msg } in
    if e.pttail == 0
    then set_port (record s1 { ptnext = next }) portid (record e { pthead = node; pttail = node })
    else set_port (record s1 { ptnext = set_word next e.pttail node }) portid
        (record e { pttail = node })

-- What follows `wait`; `true` is OK.
pub ptsend_exit : Kernel → Ports → ℕ → ℕ → ℕ → Option (Kernel × Ports × Bool)
ptsend_exit k s portid seq msg =
    let e = s.porttab portid in
    if not (e.ptstate == pt_alloc) || not (e.ptseq == seq)
    then some (k, s, false)
    else if s.ptfree == 0
    then none
    else some ((signal k e.ptrsem).0, append_node s portid msg, true)

pub ptrecv_entry : Kernel → Ports → ℕ → Kernel × ℕ × Bool
ptrecv_entry k s portid =
    let e = s.porttab portid in
    if unusable s portid
    then (k, 0, false)
    else (let (k1, waited) = wait k e.ptrsem in (k1, e.ptseq, waited))

-- The first node of the port goes to the free list.
abbrev pub remove_node : Ports → ℕ → Ports
remove_node s portid =
    let e = s.porttab portid in
    let node = e.pthead in
    let e1 =
      if e.pthead == e.pttail
      then record e { pthead = 0; pttail = 0 }
      else record e { pthead = s.ptnext node } in
    set_port (record s { ptnext = set_word s.ptnext node s.ptfree; ptfree = node }) portid e1

pub ptrecv_exit : Kernel → Ports → ℕ → ℕ → Option (Kernel × Ports × ℕ)
ptrecv_exit k s portid seq =
    let e = s.porttab portid in
    if not (e.ptstate == pt_alloc) || not (e.ptseq == seq)
    then some (k, s, syserr)
    else if e.pthead == 0
    then none
    else some ((signal k e.ptssem).0, remove_node s portid, s.ptmsg e.pthead)

-- The walk that calls `dispose` for each message, which changes a state of its own. A list without a
-- cycle has at most 2 ^ 32 nodes.
pub dispose_from {ℓ} : {D : Type ℓ} → (D → ℕ → D) → ℕ → Ports → ℕ → D → Option D
dispose_from dispose zero s walk d = none
dispose_from dispose (suc fuel) s walk d =
    let rest = dispose_from dispose fuel s (s.ptnext walk) (dispose d (s.ptmsg walk)) in
    if walk == 0 then some d else rest

-- The message list is linked into the free list.
abbrev pub free_nodes : Ports → ℕ → Ports
free_nodes s p =
    let e = s.porttab p in
    if e.pthead == 0
    then s
    else record s { ptnext = set_word s.ptnext e.pttail s.ptfree; ptfree = e.pthead }

-- The entry in limbo, with a new sequence number.
abbrev pub limbo_entry : PtEntry → ℕ → PtEntry
limbo_entry e newstate =
    let e1 = record e { ptstate = pt_limbo; ptseq = add32 e.ptseq 1 } in
    if newstate == pt_alloc then record e1 { pthead = 0; pttail = 0 } else e1

-- `_ptclear` until it comes to the semaphores. The entry is written at once.
pub ptclear_entry {ℓ} : {D : Type ℓ} → (D → ℕ → D) → Ports → ℕ → ℕ → D → Option (Ports × D)
ptclear_entry dispose s p newstate d = do
  d1 ← dispose_from dispose (2 ^ 32 + 1) s (s.porttab p).pthead d
  some (set_port (free_nodes s p) p (limbo_entry (s.porttab p) newstate), d1)

-- The semaphores of the port are reset, or deleted.
unfoldable pub clear_semaphores : Kernel → PtEntry → ℕ → Kernel
clear_semaphores k e newstate =
    if newstate == pt_alloc
    then (semreset (semreset k e.ptssem e.ptmaxcnt).0 e.ptrsem 0).0
    else (semdelete (semdelete k e.ptssem).0 e.ptrsem).0

-- The end of `_ptclear`.
pub ptclear_exit : Ports → ℕ → ℕ → Ports
ptclear_exit s p newstate = set_port s p (record (s.porttab p) { ptstate = newstate })

-- `true` is OK. What follows the calls on the semaphores is `ptreset_exit`.
pub ptreset_entry {ℓ} :
    {D : Type ℓ} → (D → ℕ → D) → Kernel → Ports → ℕ → D → Option (Kernel × Ports × D × Bool)
ptreset_entry disp k s portid d = if unusable s portid then some (k, s, d, false) else (do
  r ← ptclear_entry disp s portid pt_alloc d
  some (clear_semaphores k (s.porttab portid) pt_alloc, r.0, r.1, true))

pub ptreset_exit : Ports → ℕ → Ports
unfolding ptclear_exit
ptreset_exit s portid = ptclear_exit s portid pt_alloc

pub ptdelete_entry {ℓ} :
    {D : Type ℓ} → (D → ℕ → D) → Kernel → Ports → ℕ → D → Option (Kernel × Ports × D × Bool)
ptdelete_entry disp k s portid d = if unusable s portid then some (k, s, d, false) else (do
  r ← ptclear_entry disp s portid pt_free d
  some (clear_semaphores k (s.porttab portid) pt_free, r.0, r.1, true))

pub ptdelete_exit : Ports → ℕ → Ports
unfolding ptclear_exit
ptdelete_exit s portid = record (ptclear_exit s portid pt_free) { ptnextid = portid }

pub ptcount : Kernel → Ports → ℕ → ℕ
ptcount k s portid =
    let count = semcount k (s.porttab portid).ptrsem in
    let sndcnt = semcount k (s.porttab portid).ptssem in
    if unusable s portid
    then syserr
    else if not (is_negative count) && is_negative sndcnt
    then add32 count (sub32 0 sndcnt)
    else count

-- ===== src/Ports/Delivery.antt =====
-- ptsend and ptrecv of system/ptsend.c and ptrecv.c with their semaphores.
use os_xinu.Ports.Receiving.{remove_node-Moved, first_positive}
use os_xinu.Bufpool.Chain.{Linked}
use os_xinu.Ports.Sending.{append_node-Moved, Moved}
use os_xinu.Ports.Nodes.{messages, IsPorts}
use os_xinu.Kernel.Calls.{signal-passes, wait-passes}
use os_xinu.Kernel.{set_count, sub32, isbadsem}
use os_xinu.Prelude.{
  ◌∷◌, inr, some, [], Bool-cases, List, inl, map, sym, length, ◌||◌, ◌++◌, ◌<◌, refl, ◌&&◌, ◌≡◌, ap,
  ℕ, not, false, ◌-◌, suc, ◌≤◌, true, ◌==◌, ◌≢◌, ◌^◌, ◌∙◌, arith,
}
use os_xinu.Kernel.Calls.{semcount-used, wait-passes, signal-passes}
use os_xinu.Ports.{
  set_word, PtEntry, ptsend_entry, remove_node, append_node, ptrecv_entry, ptsend_exit, ptrecv_exit,
  signal, unusable, wait, is_negative, pt_alloc, Kernel, ptcount, nports, Ports,
}

-- A port in use with `n` messages, whose semaphores count the free places and the messages.
pub record Counted (k : Kernel) (s : Ports) (p n : ℕ) : Type 0 where
  pub live : (s.porttab p).ptstate ≡ pt_alloc
  pub ssem_valid : isbadsem (s.porttab p).ptssem ≡ false
  pub ssem_used : (k.semtab (s.porttab p).ptssem).used ≡ true
  pub rsem_valid : isbadsem (s.porttab p).ptrsem ≡ false
  pub rsem_used : (k.semtab (s.porttab p).ptrsem).used ≡ true
  pub apart : (s.porttab p).ptssem ≢ (s.porttab p).ptrsem
  pub room : n ≤ (s.porttab p).ptmaxcnt
  pub bound : (s.porttab p).ptmaxcnt < 2 ^ 16
  pub places : (k.semtab (s.porttab p).ptssem).scount ≡ (s.porttab p).ptmaxcnt - n
  pub count : (k.semtab (s.porttab p).ptrsem).scount ≡ n

pub usable :
    (s : Ports) (p : ℕ) → p < nports → (s.porttab p).ptstate ≡ pt_alloc → unusable s p ≡ false
usable s p l live = ground (arith, l, live)

pub ptcount-Counted :
    (k : Kernel) (s : Ports) (p n : ℕ) → p < nports → Counted k s p n → ptcount k s p ≡ n
unfolding ptcount
ptcount-Counted k s p n l c =
    let r = semcount-used k (s.porttab p).ptrsem c.rsem_valid c.rsem_used ∙ c.count in
    let t = semcount-used k (s.porttab p).ptssem c.ssem_valid c.ssem_used ∙ c.places in
    let u : (not (is_negative n) && is_negative ((s.porttab p).ptmaxcnt - n)) ≡ false =
      ground (arith, c.bound, c.room) in
    rw (usable s p l c.live, r, t, u) refl

-- `wait` on one of the semaphores and `signal` of the other, when nobody waits.
wait-signal :
    (k : Kernel) (a b m n : ℕ)
    → isbadsem a ≡ false
    → (k.semtab a).used ≡ true
    → isbadsem b ≡ false
    → (k.semtab b).used ≡ true
    → a ≢ b
    → (k.semtab a).scount ≡ suc m
    → (k.semtab b).scount ≡ n
    → m < 2 ^ 30
    → n < 2 ^ 30
    → let (k1, waited) = wait k a in
      let k2 = (signal k1 b).0 in
      (waited ≡ true)
      × ((k2.semtab a).used ≡ true)
      × ((k2.semtab b).used ≡ true)
      × ((k2.semtab a).scount ≡ m)
      × ((k2.semtab b).scount ≡ suc n)
wait-signal k a b m n ba ua bb ub ne ca cb l o =
    let d : sub32 (k.semtab a).scount 1 ≡ m = omega (arith, ca, l) in
    let k1 = set_count k a m in
    let e : wait k a ≡ (k1, true) =
      wait-passes k a ba ua (ground (arith, d, l)) ∙ ap (λ c. (set_count k a c, true)) d in
    let f : (a == b) ≡ false = ground (arith, ne) in
    let g : (b == a) ≡ false = ground (arith, ne) in
    let cb1 : (k1.semtab b).scount ≡ n = rw f cb in
    let t = signal-passes k1 b bb (rw f ub) (ground (arith, cb1, o)) in
    let aa : (a == a) ≡ true = ground arith in
    let same : (b == b) ≡ true = ground arith in
    rw (e, t)
      (refl, rw (g, aa) ua, rw (same, f) ub, rw (g, aa) refl, rw same (omega (arith, cb1, o)))

-- Only the list of a port changes.
record SameEntry (e e' : PtEntry) : Type 0 where
  ptssem : e'.ptssem ≡ e.ptssem
  ptrsem : e'.ptrsem ≡ e.ptrsem
  ptstate : e'.ptstate ≡ e.ptstate
  ptmaxcnt : e'.ptmaxcnt ≡ e.ptmaxcnt

append_node-SameEntry :
    (s : Ports) (p msg : ℕ) → SameEntry (s.porttab p) ((append_node s p msg).porttab p)
append_node-SameEntry s p msg =
    let same : (p == p) ≡ true = ground arith in
    elim (Bool-cases ((s.porttab p).pttail == 0)) [
      | inl c ↦
          rw (c, same) (record { ptssem = refl; ptrsem = refl; ptstate = refl; ptmaxcnt = refl })
      | inr c ↦
          rw (c, same) (record { ptssem = refl; ptrsem = refl; ptstate = refl; ptmaxcnt = refl })
    ]

remove_node-SameEntry : (s : Ports) (p : ℕ) → SameEntry (s.porttab p) ((remove_node s p).porttab p)
remove_node-SameEntry s p =
    let same : (p == p) ≡ true = ground arith in
    elim (Bool-cases ((s.porttab p).pthead == (s.porttab p).pttail)) [
      | inl c ↦
          rw (same, c) (record { ptssem = refl; ptrsem = refl; ptstate = refl; ptmaxcnt = refl })
      | inr c ↦
          rw (same, c) (record { ptssem = refl; ptrsem = refl; ptstate = refl; ptmaxcnt = refl })
    ]

-- The counts after a call that changes them for the port.
recounted :
    (k k' : Kernel) (s s' : Ports) (p n n' : ℕ)
    → Counted k s p n
    → SameEntry (s.porttab p) (s'.porttab p)
    → (k'.semtab (s.porttab p).ptssem).used ≡ true
    → (k'.semtab (s.porttab p).ptrsem).used ≡ true
    → (k'.semtab (s.porttab p).ptssem).scount ≡ (s.porttab p).ptmaxcnt - n'
    → (k'.semtab (s.porttab p).ptrsem).scount ≡ n'
    → n' ≤ (s.porttab p).ptmaxcnt
    → Counted k' s' p n'
recounted k k' s s' p n n' c e us ur cs cr l = record {
  live = e.ptstate ∙ c.live;
  ssem_valid = rw e.ptssem c.ssem_valid;
  ssem_used = rw e.ptssem us;
  rsem_valid = rw e.ptrsem c.rsem_valid;
  rsem_used = rw e.ptrsem ur;
  apart = rw (e.ptssem, e.ptrsem) c.apart;
  room = rw e.ptmaxcnt l;
  bound = rw e.ptmaxcnt c.bound;
  places = rw (e.ptssem, e.ptmaxcnt) cs;
  count = rw e.ptrsem cr;
}

-- The end of `ptsend` in any kernel, while the port is the same and a node is free.
pub ptsend_exit-eq :
    (k : Kernel) (s : Ports) (p msg : ℕ)
    → (s.porttab p).ptstate ≡ pt_alloc
    → 0 < s.ptfree
    → ptsend_exit k s p (s.porttab p).ptseq msg
      ≡ some ((signal k (s.porttab p).ptrsem).0, append_node s p msg, true)
unfolding ptsend_exit
ptsend_exit-eq k s p msg live some_free =
    let a : (not ((s.porttab p).ptstate == pt_alloc)
          || not ((s.porttab p).ptseq == (s.porttab p).ptseq))
        ≡ false =
      ground (arith, live) in
    let b : (s.ptfree == 0) ≡ false = ground (arith, some_free) in rw (a, b) refl

pub ptrecv_exit-eq :
    (k : Kernel) (s : Ports) (p : ℕ)
    → (s.porttab p).ptstate ≡ pt_alloc
    → 0 < (s.porttab p).pthead
    → ptrecv_exit k s p (s.porttab p).ptseq
      ≡ some ((signal k (s.porttab p).ptssem).0, remove_node s p, s.ptmsg (s.porttab p).pthead)
unfolding ptrecv_exit
ptrecv_exit-eq k s p live some_node =
    let a : (not ((s.porttab p).ptstate == pt_alloc)
          || not ((s.porttab p).ptseq == (s.porttab p).ptseq))
        ≡ false =
      ground (arith, live) in
    let b : ((s.porttab p).pthead == 0) ≡ false = ground (arith, some_node) in rw (a, b) refl

-- ptsend to a port that holds less than its ptmaxcnt messages, when nobody waits and a node is free: `wait` lets the caller
-- pass, the call returns OK, the message is behind the others of the port, the other ports keep their entries and messages, no
-- node is in two lists, the two semaphores count the free places and the messages again, and ptcount gives one more.
pub ptsend_lem :
    (k : Kernel) (s : Ports) (owner : ℕ → ℕ) (nodes : ℕ → List ℕ) (p msg : ℕ) (fs : List ℕ)
    → IsPorts s owner nodes
    → p < nports
    → Counted k s p (length (nodes p))
    → length (nodes p) < (s.porttab p).ptmaxcnt
    → nodes nports ≡ s.ptfree ∷ fs
    → let (k1, seq, waited) = ptsend_entry k s p in
      (k2 : Kernel) × (s' : Ports) × (waited ≡ true)
      × (ptsend_exit k1 s p seq msg ≡ some (k2, s', true))
      × Moved s s'
          (set_word owner s.ptfree p)
          nodes
          p
          (nodes p ++ (s.ptfree ∷ []))
          fs
          (messages s nodes p ++ (msg ∷ []))
      × Counted k2 s' p (suc (length (nodes p)))
      × (ptcount k2 s' p ≡ suc (length (nodes p)))
unfolding ptsend_entry
ptsend_lem k s owner nodes p msg fs i l c room e =
    let n = length (nodes p) in
    let x = s.porttab p in
    let w =
      wait-signal k x.ptssem x.ptrsem (x.ptmaxcnt - suc n) n c.ssem_valid c.ssem_used c.rsem_valid
        c.rsem_used c.apart (omega (arith, c.places, room)) c.count (omega (arith, c.bound))
        (omega (arith, c.bound, room)) in
    let k1 = (wait k x.ptssem).0 in
    let k2 = (signal k1 x.ptrsem).0 in
    let s' = append_node s p msg in
    let free : Linked s.ptnext s.ptfree (s.ptfree ∷ fs) = rw e at i.free in
    let c' : Counted k2 s' p (suc n) =
      recounted k k2 s s' p n (suc n) c (append_node-SameEntry s p msg) w.1 w.2 w.3 w.4
        (omega (arith, room)) in
    (
      k2,
      s',
      rw (usable s p l c.live) w.0,
      rw (usable s p l c.live) (ptsend_exit-eq k1 s p msg c.live free.1),
      append_node-Moved s owner nodes p fs i l c.live e (nodes p) refl msg,
      c',
      ptcount-Counted k2 s' p (suc n) l c',
    )

-- ptrecv from a port with messages, when nobody waits: `wait` lets the caller pass, the call returns the message that was sent first
-- and takes it from the port, its node is free, the other ports keep their entries and messages, no node is in two
-- lists, the two semaphores count the free places and the messages again, and ptcount gives one less.
pub ptrecv_lem :
    (k : Kernel) (s : Ports) (owner : ℕ → ℕ) (nodes : ℕ → List ℕ) (p : ℕ) (ns : List ℕ)
    → IsPorts s owner nodes
    → p < nports
    → Counted k s p (suc (length ns))
    → nodes p ≡ (s.porttab p).pthead ∷ ns
    → let (k1, seq, waited) = ptrecv_entry k s p in
      let first = (s.porttab p).pthead in
      (k2 : Kernel) × (s' : Ports) × (msg : ℕ) × (waited ≡ true)
      × (ptrecv_exit k1 s p seq ≡ some (k2, s', msg))
      × (messages s nodes p ≡ msg ∷ map s.ptmsg ns)
      × Moved s s' (set_word owner first nports) nodes p ns (first ∷ nodes nports) (map s.ptmsg ns)
      × Counted k2 s' p (length ns)
      × (ptcount k2 s' p ≡ length ns)
unfolding ptrecv_entry
ptrecv_lem k s owner nodes p ns i l c e =
    let n = length ns in
    let x = s.porttab p in
    let w =
      wait-signal k x.ptrsem x.ptssem n (x.ptmaxcnt - suc n) c.rsem_valid c.rsem_used c.ssem_valid
        c.ssem_used (λ z. c.apart (sym z)) c.count c.places (omega (arith, c.bound, c.room))
        (omega (arith, c.bound)) in
    let k1 = (wait k x.ptrsem).0 in
    let k2 = (signal k1 x.ptssem).0 in
    let s' = remove_node s p in
    let c' : Counted k2 s' p n =
      recounted k k2 s s' p (suc n) n c (remove_node-SameEntry s p) w.2 w.1
        (omega (arith, w.4, c.room)) w.3 (omega (arith, c.room)) in
    (
      k2,
      s',
      s.ptmsg x.pthead,
      rw (usable s p l c.live) w.0,
      rw (usable s p l c.live)
          (ptrecv_exit-eq k1 s p c.live (first_positive s owner nodes p ns i l c.live e)),
      rw e refl,
      remove_node-Moved s owner nodes p ns i l c.live e ns refl,
      c',
      ptcount-Counted k2 s' p n l c',
    )

-- ===== src/Ports/Tests.antt =====
-- Port 2 with two messages, and two free nodes; no other port is in use.
use os_xinu.Ports.Reset.{ptdelete_lem, ptreset_lem, Stale}
use os_xinu.Ports.Clearing.{freed}
use os_xinu.Ports.Creating.{ptcreate_lem, Created}
use os_xinu.Ports.Sending.{Moved}
use os_xinu.Bufpool.Buffers.{buffers}
use os_xinu.Ports.Starting.{ptinit_lem, only_free}
use os_xinu.Ports.Nodes.{IsPorts}
use os_xinu.Ports.Moves.{moved_to}
use os_xinu.Ports.Delivery.{ptsend_lem, ptrecv_lem, Counted}
use os_xinu.Prelude.{
  if◌then◌else◌, ◌≡◌, ◌<◌, ==_iff, inr, List, ◌∷◌, refl, sym, arith, ℕ, ◌^◌, Bool-cases, false,
  true, some, ◌*◌, ◌==◌, [], inl, ◌+◌,
}
use os_xinu.Kernel.{Kernel, PrState}
use os_xinu.Memory.{getmem, getmem_from}
use os_xinu.Ports.{
  ptreset_exit, ptdelete_exit, unusable, ptcount, set_word, pt_free, ptsend_exit, pt_alloc, nports,
  ptrecv_exit, getmem, clear_semaphores, PtEntry, Store, ptrecv_entry, ptinit, ptreset_entry,
  ptsend_entry, ptcreate, ptdelete_entry, Ports,
}

abbrev kernel : Kernel
kernel = record {
  queuetab = λ j. record { key = 0; next = 0; prev = 0 };
  proctab = λ j. record {
    prstate = PrState.pr_curr;
    prprio = 20;
    prsem = 0;
    prmsg = 0;
    prhasmsg = false;
  };
  semtab = λ j.
      if j == 0
      then record { used = true; scount = 1; squeue = 102 }
      else record { used = true; scount = 2; squeue = 104 };
  currpid = 1;
  readylist = 100;
  sleepq = 300;
  ndefers = 0;
  attempt = false;
  preempt = 2;
  nextsem = 0;
}

abbrev port : ℕ → PtEntry
port ptstate = record {
  ptssem = 0;
  ptrsem = 1;
  ptstate = ptstate;
  ptmaxcnt = 3;
  ptseq = 5;
  pthead = 1000;
  pttail = 1008;
}

abbrev ports : Ports
ports = record {
  ptmsg = λ b. if b == 1000 then 7 else 9;
  ptnext = λ b. if b == 1000 then 1008 else if b == 1016 then 1024 else 0;
  ptfree = 1016;
  porttab = λ p. if p == 2 then port 3 else port 1;
  ptnextid = 3;
}

abbrev owner : ℕ → ℕ
owner b = if b == 1000 then 2 else if b == 1008 then 2 else 30

abbrev nodes : ℕ → List ℕ
nodes p = if p == 2 then 1000 ∷ 1008 ∷ [] else if p == 30 then 1016 ∷ 1024 ∷ [] else []

ports-live : (p : ℕ) → (ports.porttab p).ptstate ≡ pt_alloc → p ≡ 2
ports-live p live = elim (Bool-cases (p == 2)) [
  | inl c ↦ (==_iff p 2).0 c
  | inr c ↦ absurd (omega (arith, rw c at live))
]

ports-IsPorts : IsPorts ports owner nodes
ports-IsPorts = record {
  free = (refl, omega arith, (refl, omega arith, refl));
  linked = λ p l live.
      let c : (p == 2) ≡ true = (==_iff p 2).1 (ports-live p live) in
      rw c (refl, omega arith, (refl, omega arith, refl));
  tail = λ p l live. let c : (p == 2) ≡ true = (==_iff p 2).1 (ports-live p live) in rw c refl;
  owned = λ p l. elim (Bool-cases (p == 2)) [
    | inl c ↦ let e = sym ((==_iff p 2).0 c) in rw c (e, (e, tt))
    | inr c ↦ elim (Bool-cases (p == 30)) [
      | inl d ↦ let e = sym ((==_iff p 30).0 d) in rw (c, d) (e, (e, tt))
      | inr d ↦ rw (c, d) tt
    ]
  ];
  distinct = λ p l. elim (Bool-cases (p == 2)) [
    | inl c ↦ rw c ((λ e. omega (arith, e), tt), (tt, tt))
    | inr c ↦ elim (Bool-cases (p == 30)) [
      | inl d ↦ rw (c, d) ((λ e. omega (arith, e), tt), (tt, tt))
      | inr d ↦ rw (c, d) tt
    ]
  ];
}

ports-Counted : Counted kernel ports 2 2
ports-Counted = record {
  live = refl;
  ssem_valid = refl;
  ssem_used = refl;
  rsem_valid = refl;
  rsem_used = refl;
  apart = λ e. omega (arith, e);
  room = omega arith;
  bound = omega arith;
  places = refl;
  count = refl;
}

ptsend_example :
    let (k1, seq, waited) = ptsend_entry kernel ports 2 in
    (k2 : Kernel) × (s' : Ports) × (waited ≡ true)
    × (ptsend_exit k1 ports 2 seq 11 ≡ some (k2, s', true))
    × Moved ports s'
        (set_word owner 1016 2)
        nodes
        2
        (1000 ∷ 1008 ∷ 1016 ∷ [])
        (1024 ∷ [])
        (7 ∷ 9 ∷ 11 ∷ [])
    × Counted k2 s' 2 3
    × (ptcount k2 s' 2 ≡ 3)
ptsend_example =
    ptsend_lem kernel ports owner nodes 2 11 (1024 ∷ []) ports-IsPorts (omega arith) ports-Counted
      (omega arith) refl

ptrecv_example :
    let (k1, seq, waited) = ptrecv_entry kernel ports 2 in
    (k2 : Kernel) × (s' : Ports) × (msg : ℕ) × (waited ≡ true)
    × (ptrecv_exit k1 ports 2 seq ≡ some (k2, s', msg))
    × (7 ∷ 9 ∷ [] ≡ msg ∷ 9 ∷ [])
    × Moved ports s' (set_word owner 1000 30) nodes 2 (1008 ∷ []) (1000 ∷ 1016 ∷ 1024 ∷ []) (9 ∷ [])
    × Counted k2 s' 2 1
    × (ptcount k2 s' 2 ≡ 1)
ptrecv_example =
    ptrecv_lem kernel ports owner nodes 2 (1008 ∷ []) ports-IsPorts (omega arith) ports-Counted refl

abbrev pair : ℕ → ℕ → ℕ
pair d m = d * 100 + m

abbrev all_nodes : ℕ → List ℕ
all_nodes = moved_to nodes 2 [] (1000 ∷ 1008 ∷ 1016 ∷ 1024 ∷ [])

ptreset_example :
    (s' : Ports) × (ptreset_entry pair kernel ports 2 0
      ≡ some (clear_semaphores kernel (port 3) pt_alloc, s', 709, true))
    × Moved ports s' (freed owner 2) nodes 2 [] (1000 ∷ 1008 ∷ 1016 ∷ 1024 ∷ []) []
    × (unusable s' 2 ≡ true)
    × Stale s' 2 5
    × IsPorts (ptreset_exit s' 2) (freed owner 2) all_nodes
    × (unusable (ptreset_exit s' 2) 2 ≡ false)
    × Stale (ptreset_exit s' 2) 2 5
ptreset_example =
    ptreset_lem pair kernel ports owner nodes 2 0 ports-IsPorts (omega arith) refl (omega arith)
      (omega arith, (omega arith, tt))

ptdelete_example :
    (s' : Ports) × (ptdelete_entry pair kernel ports 2 0
      ≡ some (clear_semaphores kernel (port 3) pt_free, s', 709, true))
    × Moved ports s' (freed owner 2) nodes 2 [] (1000 ∷ 1008 ∷ 1016 ∷ 1024 ∷ []) []
    × Stale s' 2 5
    × IsPorts (ptdelete_exit s' 2) (freed owner 2) all_nodes
    × Stale (ptdelete_exit s' 2) 2 5
    × (unusable (ptdelete_exit s' 2) 2 ≡ true)
    × ((k' : Kernel) (count : ℕ) → count < 2 ^ 31 → (ptcreate k' (ptdelete_exit s' 2) count).2 ≡ 2)
ptdelete_example =
    ptdelete_lem pair kernel ports owner nodes 2 0 ports-IsPorts (omega arith) refl
      (omega arith, (omega arith, tt))

ptcreate_example :
    (k' : Kernel) × (s' : Ports) × (p : ℕ) × (ptcreate kernel ports 70000 ≡ (k', s', p))
    × (p < nports)
    × Created ports s' owner nodes p 70000
ptcreate_example =
    ptcreate_lem kernel ports owner nodes 70000 4 ports-IsPorts (omega arith) (omega arith)
      (omega arith) refl

-- 64 bytes free at 800.
abbrev heap : Store
heap j = if j == 0 then record { mnext = 800; mlength = 64 } else record { mnext = 0; mlength = 64 }

abbrev after_getmem : Store
after_getmem = (getmem heap 24).0

ptinit_example :
    (s' : Ports) × (ptinit heap ports 3 ≡ some (after_getmem, s'))
    × IsPorts s' (λ b. 30) (only_free (buffers 3 800 8))
    × ((p : ℕ) → p < nports → (s'.porttab p).ptstate ≡ pt_free)
    × ((p : ℕ) → p < nports → (s'.porttab p).ptseq ≡ 0)
    × (s'.ptnextid ≡ 0)
unfolding getmem getmem_from
ptinit_example =
    ptinit_lem heap after_getmem ports 3 800 (omega arith) (omega arith) refl
      (λ e. omega (arith, e)) (omega arith) (omega arith)

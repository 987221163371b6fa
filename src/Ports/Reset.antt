-- ===== src/Ports/Reset.antt =====
-- system/ptreset.c and ptdelete.c.
use os_xinu.Ports.Delivery.{usable}
use os_xinu.Ports.Moves.{moved_to}
use os_xinu.Ports.Nodes.{messages, IsPorts}
use os_xinu.Ports.Clearing.{free_nodes-Moved, freed, dispose_from_lem, disposed}
use os_xinu.Prelude.{
  some, All, [], sym, ◌+◌, true, not, ap, refl, ◌==◌, ℕ, ◌≢◌, ==_iff, false, ◌^◌, List, pigeonhole,
  inl, ◌≡◌, inr, ◌||◌, arith, Bool-cases, ◌∙◌, ◌++◌, ◌<◌,
}
use os_xinu.Ports.Creating.{ptcreate-first}
use os_xinu.Ports.Sending.{Moved}
use os_xinu.Ports.{
  ptcreate, ptdelete_exit, pt_free, ptdelete_entry, pt_limbo, unusable, clear_semaphores, add32,
  ptreset_exit, ptreset_entry, PtEntry, free_nodes, limbo_entry, set_port, syserr, nports, pt_alloc,
  ptrecv_exit, ptclear_entry, Kernel, ptsend_exit, ptclear_exit, Ports,
}

-- A call that began with the sequence number `seq` returns SYSERR after its `wait`.
pub record Stale (s : Ports) (p seq : ℕ) : Type 0 where
  pub sender : (k : Kernel) (msg : ℕ) → ptsend_exit k s p seq msg ≡ some (k, s, false)
  pub receiver : (k : Kernel) → ptrecv_exit k s p seq ≡ some (k, s, syserr)

stale_lem :
    (s : Ports) (p seq : ℕ)
    → ((s.porttab p).ptstate ≡ pt_alloc → (s.porttab p).ptseq ≢ seq)
    → Stale s p seq
unfolding ptsend_exit ptrecv_exit
stale_lem s p seq ne =
    let a : (not ((s.porttab p).ptstate == pt_alloc) || not ((s.porttab p).ptseq == seq)) ≡ true =
      elim (Bool-cases ((s.porttab p).ptstate == pt_alloc)) [
        | inl c ↦ let d = ne ((==_iff _ _).0 c) in ground (arith, c, d)
        | inr c ↦ rw c refl
      ] in
    record { sender = λ k msg. rw a refl; receiver = λ k. rw a refl }

-- The end of `_ptclear` on a port without messages.
exit-IsPorts :
    (s : Ports) (owner : ℕ → ℕ) (nodes : ℕ → List ℕ) (p v : ℕ)
    → IsPorts s owner nodes
    → nodes p ≡ []
    → (v ≡ pt_alloc → ((s.porttab p).pthead ≡ 0) × ((s.porttab p).pttail ≡ 0))
    → IsPorts (ptclear_exit s p v) owner nodes
unfolding ptclear_exit
exit-IsPorts s owner nodes p v i e z = record {
  free = i.free;
  linked = λ q m live. elim (Bool-cases (p == q)) [
    | inl g ↦
        let h = (==_iff p q).0 g in let f = ap nodes (sym h) ∙ e in rw (g, f) ((z (rw g at live)).0)
    | inr g ↦ rw g (i.linked q m (rw g at live))
  ];
  tail = λ q m live. elim (Bool-cases (p == q)) [
    | inl g ↦
        let h = (==_iff p q).0 g in let f = ap nodes (sym h) ∙ e in rw (g, f) ((z (rw g at live)).1)
    | inr g ↦ rw g (i.tail q m (rw g at live))
  ];
  owned = i.owned;
  distinct = i.distinct;
}

-- What `_ptclear` leaves before its calls on the semaphores.
record Limbo {ℓ} {D : Type ℓ} (dispose : D → ℕ → D) (s s' : Ports) (owner : ℕ → ℕ)
    (nodes : ℕ → List ℕ) (p v : ℕ) (d : D) : Type ℓ where
  entry : ptclear_entry dispose s p v d ≡ some (s', disposed dispose (messages s nodes p) d)
  moved : Moved s s' (freed owner p) nodes p [] (nodes p ++ nodes nports) []
  fields : s'.porttab p ≡ limbo_entry (s.porttab p) v

ptclear_entry_lem {ℓ} :
    {D : Type ℓ} (dispose : D → ℕ → D) (s : Ports) (owner : ℕ → ℕ) (nodes : ℕ → List ℕ) (p v : ℕ)
    (d : D)
    → IsPorts s owner nodes
    → p < nports
    → (s.porttab p).ptstate ≡ pt_alloc
    → All (λ b. b < 2 ^ 32) (nodes p)
    → (s' : Ports) × Limbo dispose s s' owner nodes p v d
unfolding ptclear_entry
ptclear_entry_lem dispose s owner nodes p v d i l live a =
    let bound = pigeonhole (2 ^ 32) (nodes p) (i.distinct p (omega (arith, l))) a in
    let walk =
      dispose_from_lem dispose (2 ^ 32 + 1) s (s.porttab p).pthead (nodes p) d
        (omega (arith, bound)) (i.linked p l live) in
    let same : (p == p) ≡ true = (==_iff p p).1 refl in
    (
      set_port (free_nodes s p) p (limbo_entry (s.porttab p) v),
      record {
        entry = rw walk refl;
        moved = free_nodes-Moved s owner nodes p i l live v (nodes p) refl;
        fields = rw same refl;
      },
    )

exit-entry :
    (s : Ports) (p v : ℕ) → (ptclear_exit s p v).porttab p ≡ record (s.porttab p) { ptstate = v }
unfolding ptclear_exit
exit-entry s p v = rw ((==_iff p p).1 refl) refl

limbo-unusable : (s : Ports) (p : ℕ) → (s.porttab p).ptstate ≡ pt_limbo → unusable s p ≡ true
limbo-unusable s p e = ground (arith, e)

free-unusable : (s : Ports) (p : ℕ) → (s.porttab p).ptstate ≡ pt_free → unusable s p ≡ true
free-unusable s p e = ground (arith, e)

ptreset_entry-eq {ℓ} :
    {D : Type ℓ} (disp : D → ℕ → D) (k : Kernel) (s s' : Ports) (p : ℕ) (d d' : D)
    → unusable s p ≡ false
    → ptclear_entry disp s p pt_alloc d ≡ some (s', d')
    → ptreset_entry disp k s p d ≡ some (clear_semaphores k (s.porttab p) pt_alloc, s', d', true)
unfolding ptreset_entry
ptreset_entry-eq disp k s s' p d d' u e = rw (u, e) refl

ptdelete_entry-eq {ℓ} :
    {D : Type ℓ} (disp : D → ℕ → D) (k : Kernel) (s s' : Ports) (p : ℕ) (d d' : D)
    → unusable s p ≡ false
    → ptclear_entry disp s p pt_free d ≡ some (s', d')
    → ptdelete_entry disp k s p d ≡ some (clear_semaphores k (s.porttab p) pt_free, s', d', true)
unfolding ptdelete_entry
ptdelete_entry-eq disp k s s' p d d' u e = rw (u, e) refl

next_seq : (e : PtEntry) → e.ptseq < 2 ^ 32 → add32 e.ptseq 1 ≢ e.ptseq
next_seq e l z = absurd (omega (arith, z, l))

-- ptreset of a port in use: the disposal function is called for each message, in the order in which they were sent, the nodes
-- of the port are free, the other ports keep their entries and messages, and no node is in two lists. The port is in
-- limbo while the semaphores are reset: a new ptsend or ptrecv gets SYSERR, and so does one that waited before, also when
-- the port is in use again after the reset, without messages.
pub ptreset_lem {ℓ} :
    {D : Type ℓ} (disp : D → ℕ → D) (k : Kernel) (s : Ports) (owner : ℕ → ℕ) (nodes : ℕ → List ℕ)
    (p : ℕ) (d : D)
    → IsPorts s owner nodes
    → p < nports
    → (s.porttab p).ptstate ≡ pt_alloc
    → (s.porttab p).ptseq < 2 ^ 32
    → All (λ b. b < 2 ^ 32) (nodes p)
    → (s' : Ports) × (ptreset_entry disp k s p d
        ≡ some (
          clear_semaphores k (s.porttab p) pt_alloc,
          s',
          disposed disp (messages s nodes p) d,
          true,
        ))
      × Moved s s' (freed owner p) nodes p [] (nodes p ++ nodes nports) []
      × (unusable s' p ≡ true)
      × Stale s' p (s.porttab p).ptseq
      × IsPorts (ptreset_exit s' p) (freed owner p) (moved_to nodes p [] (nodes p ++ nodes nports))
      × (unusable (ptreset_exit s' p) p ≡ false)
      × Stale (ptreset_exit s' p) p (s.porttab p).ptseq
unfolding ptreset_entry ptreset_exit
ptreset_lem disp k s owner nodes p d i l live b a =
    let r = ptclear_entry_lem disp s owner nodes p pt_alloc d i l live a in
    let f = r.1.fields in
    let limbo = ap (λ e. e.ptstate) f in
    let seq = ap (λ e. e.ptseq) f in
    let x = exit-entry r.0 p pt_alloc in
    (
      r.0,
      ptreset_entry-eq disp k s r.0 p d _ (usable s p l live) r.1.entry,
      r.1.moved,
      limbo-unusable r.0 p limbo,
      stale_lem r.0 p (s.porttab p).ptseq (λ z. absurd (omega (arith, z, limbo))),
      exit-IsPorts r.0 (freed owner p) (moved_to nodes p [] (nodes p ++ nodes nports)) p pt_alloc
          r.1.moved.ports (rw ((==_iff p p).1 refl) refl)
          (λ z. (ap (λ e. e.pthead) f, ap (λ e. e.pttail) f)),
      usable (ptclear_exit r.0 p pt_alloc) p l (ap (λ e. e.ptstate) x),
      stale_lem (ptclear_exit r.0 p pt_alloc) p (s.porttab p).ptseq
          (λ _ z. next_seq (s.porttab p) b (sym seq ∙ sym (ap (λ e. e.ptseq) x) ∙ z)),
    )

with_next :
    (s : Ports) (owner : ℕ → ℕ) (nodes : ℕ → List ℕ) (next : ℕ)
    → IsPorts s owner nodes
    → IsPorts (record s { ptnextid = next }) owner nodes
with_next s owner nodes next i = record {
  free = i.free;
  linked = i.linked;
  tail = i.tail;
  owned = i.owned;
  distinct = i.distinct;
}

-- ptdelete of a port in use: the disposal function is called for each message in order, the nodes of the port are free, the other
-- ports keep their entries and messages, and no node is in two lists. A ptsend or ptrecv that waited before gets SYSERR, in limbo
-- and after the end of the call, the port cannot be used any more, and the next ptcreate takes it.
pub ptdelete_lem {ℓ} :
    {D : Type ℓ} (disp : D → ℕ → D) (k : Kernel) (s : Ports) (owner : ℕ → ℕ) (nodes : ℕ → List ℕ)
    (p : ℕ) (d : D)
    → IsPorts s owner nodes
    → p < nports
    → (s.porttab p).ptstate ≡ pt_alloc
    → All (λ b. b < 2 ^ 32) (nodes p)
    → (s' : Ports) × (ptdelete_entry disp k s p d
        ≡ some (
          clear_semaphores k (s.porttab p) pt_free,
          s',
          disposed disp (messages s nodes p) d,
          true,
        ))
      × Moved s s' (freed owner p) nodes p [] (nodes p ++ nodes nports) []
      × Stale s' p (s.porttab p).ptseq
      × IsPorts (ptdelete_exit s' p) (freed owner p) (moved_to nodes p [] (nodes p ++ nodes nports))
      × Stale (ptdelete_exit s' p) p (s.porttab p).ptseq
      × (unusable (ptdelete_exit s' p) p ≡ true)
      × ((k' : Kernel) (count : ℕ)
          → count < 2 ^ 31
          → (ptcreate k' (ptdelete_exit s' p) count).2 ≡ p)
unfolding ptdelete_entry ptdelete_exit
ptdelete_lem disp k s owner nodes p d i l live a =
    let r = ptclear_entry_lem disp s owner nodes p pt_free d i l live a in
    let limbo = ap (λ e. e.ptstate) r.1.fields in
    let after = ptclear_exit r.0 p pt_free in
    let x = ap (λ e. e.ptstate) (exit-entry r.0 p pt_free) in
    let last_port = record after { ptnextid = p } in
    (
      r.0,
      ptdelete_entry-eq disp k s r.0 p d _ (usable s p l live) r.1.entry,
      r.1.moved,
      stale_lem r.0 p (s.porttab p).ptseq (λ z. absurd (omega (arith, z, limbo))),
      with_next after (freed owner p) (moved_to nodes p [] (nodes p ++ nodes nports)) p (
          exit-IsPorts r.0 (freed owner p) (moved_to nodes p [] (nodes p ++ nodes nports)) p pt_free
            r.1.moved.ports (rw ((==_iff p p).1 refl) refl) (λ z. absurd (omega (arith, z)))),
      stale_lem last_port p (s.porttab p).ptseq (λ z. absurd (omega (arith, z, x))),
      free-unusable after p x,
      λ k' count c. ptcreate-first k' last_port count c x,
    )

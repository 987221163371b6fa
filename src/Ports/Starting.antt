-- ===== src/Ports/Starting.antt =====
-- system/ptinit.c.
use os_xinu.Ports.Nodes.{IsPorts}
use os_xinu.Prelude.{
  lt→ltb, All, ℕ, ◌≢◌, false, Bool-cases, ◌*◌, inl, ◌∷◌, inr, ◌^◌, refl, ==_iff, arith, All-map,
  ◌==◌, ◌-◌, List, ◌+◌, ltb, ◌%◌, suc, ◌≤◌, zero, some, [], ◌<◌, Distinct, if◌then◌else◌, ◌≡◌, true,
}
use os_xinu.Bufpool.Chain.{Linked}
use os_xinu.Bufpool.Buffers.{buffers, buffers-within, above-Distinct, link_lem}
use os_xinu.Ports.{
  link_nodes, is_negative, pt_free, syserr, getmem, Store, cleared, nports, ptinit, Ports,
}

-- All nodes are free.
abbrev pub only_free : List ℕ → ℕ → List ℕ
only_free bs p = if nports == p then bs else []

All-always : {P : Type 0} (bs : List ℕ) → P → All (λ b. P) bs
All-always [] z = tt
All-always (b ∷ bs) z = (z, All-always bs z)

init-IsPorts :
    (s : Ports) (a : ℕ) (next : ℕ → ℕ) (bs : List ℕ)
    → Linked next a bs
    → Distinct bs
    → IsPorts (record (cleared s) { ptfree = a; ptnext = next }) (λ b. nports) (only_free bs)
init-IsPorts s a next bs k d = record {
  free = k;
  linked = λ p l live.
      let c : ltb p nports ≡ true = lt→ltb p nports l in absurd (omega (arith, rw c at live));
  tail = λ p l live.
      let c : ltb p nports ≡ true = lt→ltb p nports l in absurd (omega (arith, rw c at live));
  owned = λ p l. elim (Bool-cases (nports == p)) [
    | inl c ↦ rw c (All-always bs ((==_iff nports p).0 c))
    | inr c ↦ rw c tt
  ];
  distinct = λ p l. elim (Bool-cases (nports == p)) [ inl c ↦ rw c d | inr c ↦ rw c tt ];
}

-- ptinit for 1 or more messages, when getmem gives their memory: the pieces of 8 bytes of this memory are the free nodes, in their order and
-- none twice, every port is free with the sequence number 0, and the search of ptcreate starts at port 0.
pub ptinit_lem :
    (h h1 : Store) (s : Ports) (maxmsgs a : ℕ)
    → 0 < maxmsgs
    → maxmsgs < 2 ^ 28
    → getmem h (maxmsgs * 8) ≡ (h1, a)
    → a ≢ syserr
    → 0 < a
    → a + maxmsgs * 8 ≤ 2 ^ 32
    → (s' : Ports) × (ptinit h s maxmsgs ≡ some (h1, s'))
      × IsPorts s' (λ b. nports) (only_free (buffers maxmsgs a 8))
      × ((p : ℕ) → p < nports → (s'.porttab p).ptstate ≡ pt_free)
      × ((p : ℕ) → p < nports → (s'.porttab p).ptseq ≡ 0)
      × (s'.ptnextid ≡ 0)
unfolding ptinit
ptinit_lem h h1 s zero a z u g ne up top = absurd (omega (arith, z))
ptinit_lem h h1 s (suc n) a z u g ne up top =
    let w : suc n * 8 % 2 ^ 32 ≡ suc n * 8 = omega (arith, u) in
    let real : (a == syserr) ≡ false = ground (arith, ne) in
    let c : is_negative (suc n) ≡ false = ground (arith, u) in
    let d : suc n - 1 ≡ n = omega arith in
    let bs = buffers (suc n) a 8 in
    let within = buffers-within (suc n) a 8 (a + suc n * 8) (omega arith) in
    (
      record (cleared s) { ptfree = a; ptnext = link_nodes n s.ptnext a },
      rw (w, g, real, c, d) refl,
      init-IsPorts s a (link_nodes n s.ptnext a) bs
          (link_lem n s.ptnext a 8 up (omega arith)
            (All-map bs (λ b q. omega (arith, q.1, top)) within))
          (above-Distinct (suc n) a 8 (omega arith)).1,
      λ p l. rw (lt→ltb p nports l) refl,
      λ p l. rw (lt→ltb p nports l) refl,
      refl,
    )

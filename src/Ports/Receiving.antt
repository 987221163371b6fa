-- ===== src/Ports/Receiving.antt =====
-- system/ptrecv.c on the queue of the port.
use os_xinu.Ports.Nodes.{owned-set, last-All, tail_of, elsewhere, IsPorts}
use os_xinu.Prelude.{
  ap, ◌<◌, arith, All, ◌≢◌, inl, map, [], ◌==◌, ◌∙◌, Distinct, ◌∷◌, false, refl, List, ℕ, ◌≡◌, true,
}
use os_xinu.Bufpool.Chain.{Linked, Linked-set}
use os_xinu.Ports.Sending.{Moved}
use os_xinu.Ports.Moves.{other_owned, moved-IsPorts, other_list}
use os_xinu.Ports.{set_port, set_word, PtEntry, remove_node, pt_alloc, nports, Ports}

module _ (s : Ports) (owner : ℕ → ℕ) (nodes : ℕ → List ℕ) (p : ℕ) (ns : List ℕ)
    (i : IsPorts s owner nodes) (l : p < nports) (live : (s.porttab p).ptstate ≡ pt_alloc)
    (e : nodes p ≡ (s.porttab p).pthead ∷ ns) where
  abbrev first : ℕ
  first = (s.porttab p).pthead

  queue_list : Linked s.ptnext first (first ∷ ns)
  queue_list = rw e at (i.linked p l live)

  queue_owned : All (λ b. owner b ≡ p) (first ∷ ns)
  queue_owned = rw e at (i.owned p (omega (arith, l)))

  queue-Distinct : Distinct (first ∷ ns)
  queue-Distinct = rw e at (i.distinct p (omega (arith, l)))

  pub first_positive : 0 < first
  first_positive = queue_list.1

  not_free : All (λ b. first ≢ b) (nodes nports)
  not_free =
      elsewhere owner first p nports (nodes nports) queue_owned.0
        (λ z. absurd (omega (arith, z, l))) (i.owned nports (omega arith))

  removed-Moved :
      (entry : PtEntry)
      → Linked (set_word s.ptnext first s.ptfree) entry.pthead ns
      → entry.pttail ≡ tail_of ns
      → Moved s
          (record (set_port s p entry) {
            ptnext = set_word s.ptnext first s.ptfree;
            ptfree = first;
          })
          (set_word owner first nports)
          nodes
          p
          ns
          (first ∷ nodes nports)
          (map s.ptmsg ns)
  removed-Moved entry k t =
      let same : (p == p) ≡ true = ground arith in
      let self : (first == first) ≡ true = ground arith in
      record {
        ports =
            moved-IsPorts s owner nodes i p l entry (set_word s.ptnext first s.ptfree) s.ptmsg first
              (set_word owner first nports) ns (first ∷ nodes nports)
              (other_owned s owner nodes i p l first nports (inl queue_owned.0))
              (
                refl,
                first_positive,
                rw self
                    (Linked-set s.ptnext s.ptfree first s.ptfree (nodes nports) not_free i.free),
              )
              (λ z. k) (λ z. t)
              (λ q m ne z.
                Linked-set s.ptnext (s.porttab q).pthead first s.ptfree (nodes q)
                  (other_list s owner nodes i p l q first m ne (inl queue_owned.0))
                  (i.linked q m z))
              (owned-set owner first nports p ns queue-Distinct.0 queue_owned.1)
              (
                ground arith,
                owned-set owner first nports nports (nodes nports) not_free
                    (i.owned nports (omega arith)),
              )
              queue-Distinct.1 (not_free, i.distinct nports (omega arith));
        queue = rw same refl;
        kept = record {
          entries = λ q ne. let g : (p == q) ≡ false = ground (arith, ne) in rw g refl;
          lists = λ q m ne.
              let g : (p == q) ≡ false = ground (arith, ne) in
              let h : (nports == q) ≡ false = ground (arith, m) in rw (g, h) refl;
          messages_kept = λ q m ne.
              let g : (p == q) ≡ false = ground (arith, ne) in
              let h : (nports == q) ≡ false = ground (arith, m) in rw (g, h) refl;
        };
      }

  pub remove_node-Moved :
      (bs : List ℕ)
      → ns ≡ bs
      → Moved s
          (remove_node s p)
          (set_word owner first nports)
          nodes
          p
          ns
          (first ∷ nodes nports)
          (map s.ptmsg ns)
  remove_node-Moved [] en =
      let t : (first == (s.porttab p).pttail) ≡ true =
        ground (arith, i.tail p l live ∙ ap tail_of (e ∙ ap (λ x. first ∷ x) en)) in
      rw t
        (removed-Moved (record (s.porttab p) { pthead = 0; pttail = 0 }) (rw en refl) (rw en refl))
  remove_node-Moved (b ∷ bs) en =
      let tail = i.tail p l live ∙ ap tail_of (e ∙ ap (λ x. first ∷ x) en) in
      let ne = last-All (λ c. first ≢ c) b bs (rw en at queue-Distinct.0) in
      let t : (first == (s.porttab p).pttail) ≡ false = ground (arith, tail, ne) in
      rw t (
        removed-Moved (record (s.porttab p) { pthead = s.ptnext first })
          (Linked-set s.ptnext (s.ptnext first) first s.ptfree ns queue-Distinct.0 queue_list.2)
          (tail ∙ rw en refl))

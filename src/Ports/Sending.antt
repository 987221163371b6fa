-- ===== src/Ports/Sending.antt =====
-- system/ptsend.c on the queue of the port.
use os_xinu.Ports.Moves.{other_owned, moved-IsPorts, other_list, Kept, moved_to}
use os_xinu.Ports.Nodes.{
  Linked-append, elsewhere, last-All, positive, map-set_word, map-append, tail_of-append, owned-set,
  tail_of, Distinct-append, messages, IsPorts,
}
use os_xinu.Prelude.{
  inl, All-append, ◌∙◌, ◌==◌, ◌⊎◌, All-map, sym, inr, true, false, refl, ◌<◌, ℕ, ◌≡◌, Distinct, ◌∷◌,
  [], ◌≢◌, ap, ◌++◌, arith, List, All,
}
use os_xinu.Bufpool.Chain.{Linked, Linked-set}
use os_xinu.Ports.{set_port, PtEntry, set_word, append_node, pt_alloc, nports, Ports}

-- A port and the system after the queue of the port has changed to `ms`, when its nodes are `ns` and the
-- free ones `fs`.
pub record Moved (s s' : Ports) (owner : ℕ → ℕ) (nodes : ℕ → List ℕ) (p : ℕ) (ns fs ms : List ℕ)
    : Type 0 where
  pub ports : IsPorts s' owner (moved_to nodes p ns fs)
  pub queue : messages s' (moved_to nodes p ns fs) p ≡ ms
  pub kept : Kept s s' nodes (moved_to nodes p ns fs) p

module _ (s : Ports) (owner : ℕ → ℕ) (nodes : ℕ → List ℕ) (p : ℕ) (fs : List ℕ)
    (i : IsPorts s owner nodes) (l : p < nports) (live : (s.porttab p).ptstate ≡ pt_alloc)
    (e : nodes nports ≡ s.ptfree ∷ fs) where
  free_list : Linked s.ptnext s.ptfree (s.ptfree ∷ fs)
  free_list = rw e at i.free

  free-Distinct : Distinct (s.ptfree ∷ fs)
  free-Distinct = rw e at (i.distinct nports (omega arith))

  free_owned : All (λ b. owner b ≡ nports) (s.ptfree ∷ fs)
  free_owned = rw e at (i.owned nports (omega arith))

  not_mine : (b : ℕ) → owner b ≡ p → s.ptfree ≢ b
  not_mine b o z = absurd (omega (arith, o, free_owned.0, ap owner z, l))

  port_owned : All (λ b. owner b ≡ p) (nodes p)
  port_owned = i.owned p (omega (arith, l))

  fresh : All (λ b. s.ptfree ≢ b) (nodes p)
  fresh = All-map (nodes p) (λ b o. not_mine b o) port_owned

  appended_owned : All (λ b. set_word owner s.ptfree p b ≡ p) (nodes p ++ (s.ptfree ∷ []))
  appended_owned =
      All-append (λ b. set_word owner s.ptfree p b ≡ p) (nodes p) (s.ptfree ∷ [])
        (owned-set owner s.ptfree p p (nodes p) fresh port_owned) (ground arith, tt)

  appended-Distinct : Distinct (nodes p ++ (s.ptfree ∷ []))
  appended-Distinct =
      Distinct-append (nodes p) (s.ptfree ∷ []) (i.distinct p (omega (arith, l))) (tt, tt)
        (All-map (nodes p) (λ b ne. ((λ z. ne (sym z)), tt)) fresh)

  -- The node with its message, at the end of the list of the port.
  appended-Moved :
      (msg : ℕ) (entry : PtEntry) (next : ℕ → ℕ)
      → Linked next (s.ptnext s.ptfree) fs
      → Linked next entry.pthead (nodes p ++ (s.ptfree ∷ []))
      → entry.pttail ≡ s.ptfree
      → ((q : ℕ)
          → q < nports
          → p ≢ q
          → (s.porttab q).ptstate ≡ pt_alloc
          → Linked next (s.porttab q).pthead (nodes q))
      → Moved s
          (record (set_port s p entry) {
            ptnext = next;
            ptmsg = set_word s.ptmsg s.ptfree msg;
            ptfree = s.ptnext s.ptfree;
          })
          (set_word owner s.ptfree p)
          nodes
          p
          (nodes p ++ (s.ptfree ∷ []))
          fs
          (messages s nodes p ++ (msg ∷ []))
  appended-Moved msg entry next f k t o =
      let same : (p == p) ≡ true = ground arith in
      let self : (s.ptfree == s.ptfree) ≡ true = ground arith in
      record {
        ports =
            moved-IsPorts s owner nodes i p l entry next (set_word s.ptmsg s.ptfree msg)
              (s.ptnext s.ptfree) (set_word owner s.ptfree p) (nodes p ++ (s.ptfree ∷ [])) fs
              (other_owned s owner nodes i p l s.ptfree p (inr free_owned.0)) f (λ z. k)
              (λ z. t ∙ sym (tail_of-append (nodes p) s.ptfree)) o appended_owned
              (owned-set owner s.ptfree p nports fs free-Distinct.0 free_owned.1) appended-Distinct
              free-Distinct.1;
        queue = rw same (
            map-append (set_word s.ptmsg s.ptfree msg) (nodes p) (s.ptfree ∷ [])
            ∙ rw (map-set_word s.ptmsg s.ptfree msg (nodes p) fresh, self) refl);
        kept = record {
          entries = λ q ne. let g : (p == q) ≡ false = ground (arith, ne) in rw g refl;
          lists = λ q m ne.
              let g : (p == q) ≡ false = ground (arith, ne) in
              let h : (nports == q) ≡ false = ground (arith, m) in rw (g, h) refl;
          messages_kept = λ q m ne.
              let g : (p == q) ≡ false = ground (arith, ne) in
              let h : (nports == q) ≡ false = ground (arith, m) in
              rw (g, h)
                (map-set_word s.ptmsg s.ptfree msg (nodes q)
                  (other_list s owner nodes i p l q s.ptfree m ne (inr free_owned.0)));
        };
      }

  -- The list of another port, when a node of this one or of the free list is written.
  pub other_linked :
      (w : ℕ → ℕ) (q a v : ℕ)
      → q < nports
      → p ≢ q
      → (owner a ≡ p) ⊎ (owner a ≡ nports)
      → Linked w (s.porttab q).pthead (nodes q)
      → Linked (set_word w a v) (s.porttab q).pthead (nodes q)
  other_linked w q a v m ne o k =
      Linked-set w (s.porttab q).pthead a v (nodes q) (other_list s owner nodes i p l q a m ne o) k

  pub append_node-Moved :
      (ns : List ℕ)
      → nodes p ≡ ns
      → (msg : ℕ)
      → Moved s
          (append_node s p msg)
          (set_word owner s.ptfree p)
          nodes
          p
          (nodes p ++ (s.ptfree ∷ []))
          fs
          (messages s nodes p ++ (msg ∷ []))
  append_node-Moved [] en msg =
      let t : ((s.porttab p).pttail == 0) ≡ true =
        ground (arith, i.tail p l live ∙ ap tail_of en) in
      let self : (s.ptfree == s.ptfree) ≡ true = ground arith in
      let next = set_word s.ptnext s.ptfree 0 in
      rw t (
        appended-Moved msg (record (s.porttab p) { pthead = s.ptfree; pttail = s.ptfree }) next
          (Linked-set s.ptnext (s.ptnext s.ptfree) s.ptfree 0 fs free-Distinct.0 free_list.2)
          (rw en (refl, free_list.1, rw self refl)) refl
          (λ q m ne z. other_linked s.ptnext q s.ptfree 0 m ne (inr free_owned.0) (i.linked q m z)))
  append_node-Moved (b ∷ bs) en msg =
      let tail = i.tail p l live ∙ ap tail_of en in
      let pos : All (λ c. 0 < c) (b ∷ bs) =
        rw en at (positive s.ptnext (s.porttab p).pthead (nodes p) (i.linked p l live)) in
      let t : ((s.porttab p).pttail == 0) ≡ false =
        ground (arith, tail, last-All (λ c. 0 < c) b bs pos) in
      let own : owner (s.porttab p).pttail ≡ p =
        ap owner tail ∙ last-All (λ c. owner c ≡ p) b bs (rw en at port_owned) in
      let next = set_word s.ptnext s.ptfree 0 in
      rw t (
        appended-Moved msg (record (s.porttab p) { pttail = s.ptfree })
          (set_word next (s.porttab p).pttail s.ptfree)
          (Linked-set next (s.ptnext s.ptfree) (s.porttab p).pttail s.ptfree fs
            (elsewhere owner (s.porttab p).pttail p nports fs own
              (λ z. absurd (omega (arith, z, l))) free_owned.1)
            (Linked-set s.ptnext (s.ptnext s.ptfree) s.ptfree 0 fs free-Distinct.0 free_list.2))
          (rw en (
            coe 1 0
              (j.
                Linked (set_word next (tail j) s.ptfree) (s.porttab p).pthead
                  ((b ∷ bs) ++ (s.ptfree ∷ [])))
              (Linked-append s.ptnext (s.porttab p).pthead s.ptfree b bs
                (rw en at (i.linked p l live)) (rw en at (i.distinct p (omega (arith, l))))
                (rw en at fresh) free_list.1)))
          refl
          (λ q m ne z.
            other_linked next q (s.porttab p).pttail s.ptfree m ne (inl own)
              (other_linked s.ptnext q s.ptfree 0 m ne (inr free_owned.0) (i.linked q m z))))

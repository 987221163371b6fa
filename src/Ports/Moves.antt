-- ===== src/Ports/Moves.antt =====
-- A message that goes to a port or is taken from it in system/ptsend.c and ptrecv.c.
use os_xinu.Ports.Nodes.{owned-set, tail_of, messages, elsewhere, IsPorts}
use os_xinu.Prelude.{
  inl, ◌⊎◌, Bool-cases, inr, Distinct, ==_iff, List, ◌==◌, ◌≡◌, ℕ, ◌≢◌, ◌<◌, arith, All, false,
}
use os_xinu.Bufpool.Chain.{Linked, instead}
use os_xinu.Ports.{set_port, set_word, pt_alloc, PtEntry, nports, Ports}

-- The lists after a node has moved.
abbrev pub moved_to : (ℕ → List ℕ) → ℕ → List ℕ → List ℕ → ℕ → List ℕ
moved_to nodes p ns fs = instead (instead nodes nports fs) p ns

-- What a call leaves of the ports other than `p`: their entries and their messages.
pub record Kept (s s' : Ports) (nodes nodes' : ℕ → List ℕ) (p : ℕ) : Type 0 where
  pub entries : (q : ℕ) → p ≢ q → s'.porttab q ≡ s.porttab q
  pub lists : (q : ℕ) → q < nports → p ≢ q → nodes' q ≡ nodes q
  pub messages_kept : (q : ℕ) → q < nports → p ≢ q → messages s' nodes' q ≡ messages s nodes q

-- The list of `p` and the free list change, and the nodes written are in one of the two.
module _ (s : Ports) (owner : ℕ → ℕ) (nodes : ℕ → List ℕ) (i : IsPorts s owner nodes) (p : ℕ)
    (l : p < nports) where
  pub other_list :
      (q a : ℕ)
      → q < nports
      → p ≢ q
      → (owner a ≡ p) ⊎ (owner a ≡ nports)
      → All (λ b. a ≢ b) (nodes q)
  other_list q a m ne (inl e) = elsewhere owner a p q (nodes q) e ne (i.owned q (omega (arith, m)))
  other_list q a m ne (inr e) =
      elsewhere owner a nports q (nodes q) e (λ z. absurd (omega (arith, z, m)))
        (i.owned q (omega (arith, m)))

  -- The lists of the other ports keep their owner when a node of this one or of the free list changes it.
  pub other_owned :
      (a to : ℕ)
      → (owner a ≡ p) ⊎ (owner a ≡ nports)
      → (q : ℕ) → q < nports
      → p ≢ q
      → All (λ b. set_word owner a to b ≡ q) (nodes q)
  other_owned a to w q m ne =
      owned-set owner a to q (nodes q) (other_list q a m ne w) (i.owned q (omega (arith, m)))

  pub moved-IsPorts :
      (e : PtEntry) (next msg : ℕ → ℕ) (free : ℕ) (owner' : ℕ → ℕ) (ns fs : List ℕ)
      → ((q : ℕ) → q < nports → p ≢ q → All (λ b. owner' b ≡ q) (nodes q))
      → Linked next free fs
      → (e.ptstate ≡ pt_alloc → Linked next e.pthead ns)
      → (e.ptstate ≡ pt_alloc → e.pttail ≡ tail_of ns)
      → ((q : ℕ)
          → q < nports
          → p ≢ q
          → (s.porttab q).ptstate ≡ pt_alloc
          → Linked next (s.porttab q).pthead (nodes q))
      → All (λ b. owner' b ≡ p) ns
      → All (λ b. owner' b ≡ nports) fs
      → Distinct ns
      → Distinct fs
      → IsPorts
          (record (set_port s p e) { ptnext = next; ptmsg = msg; ptfree = free })
          owner'
          (moved_to nodes p ns fs)
  moved-IsPorts e next msg free owner' ns fs w f n t o u v d d' =
      let c : (p == nports) ≡ false = ground (arith, l) in
      record {
        free = rw c f;
        linked = λ q m live. elim (Bool-cases (p == q)) [
          | inl g ↦ rw g (n (rw g at live))
          | inr g ↦
              let h : (nports == q) ≡ false = ground (arith, m) in
              rw (g, h) (o q m (ground (arith, g)) (rw g at live))
        ];
        tail = λ q m live. elim (Bool-cases (p == q)) [
          | inl g ↦ rw g (t (rw g at live))
          | inr g ↦
              let h : (nports == q) ≡ false = ground (arith, m) in
              rw (g, h) (i.tail q m (rw g at live))
        ];
        owned = λ q m. elim (Bool-cases (p == q)) [
          | inl g ↦ rw g (coe 0 1 (j. All (λ b. owner' b ≡ (==_iff p q).0 g j) ns) u)
          | inr g ↦ elim (Bool-cases (nports == q)) [
            | inl h ↦ rw (g, h) (coe 0 1 (j. All (λ b. owner' b ≡ (==_iff nports q).0 h j) fs) v)
            | inr h ↦ rw (g, h) (w q (ground (arith, h, m)) (ground (arith, g)))
          ]
        ];
        distinct = λ q m. elim (Bool-cases (p == q)) [
          | inl g ↦ rw g d
          | inr g ↦ elim (Bool-cases (nports == q)) [
            | inl h ↦ rw (g, h) d'
            | inr h ↦ rw (g, h) (i.distinct q m)
          ]
        ];
      }

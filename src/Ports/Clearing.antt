-- ===== src/Ports/Clearing.antt =====
-- system/ptclear.c on the queue of the port.
use os_xinu.Ports.Moves.{other_list, moved-IsPorts}
use os_xinu.Ports.Nodes.{Linked-join, last-All, tail_of, elsewhere, Distinct-append, IsPorts}
use os_xinu.Prelude.{
  All-map, All-append, ◌∙◌, ap, [], ◌==◌, zero, length, inl, refl, ◌++◌, List, true, ◌≢◌, ◌≡◌,
  false, suc, ◌<◌, ◌∷◌, All, arith, some, inr, ℕ, map, Bool-cases, Distinct, if◌then◌else◌,
}
use os_xinu.Bufpool.Chain.{Linked, Linked-set}
use os_xinu.Ports.Sending.{Moved}
use os_xinu.Ports.{
  set_word, free_nodes, add32, set_port, pt_limbo, limbo_entry, pt_alloc, PtEntry, dispose_from,
  nports, Ports,
}

-- The state that the disposal function leaves after a list of messages.
abbrev pub disposed {ℓ} : {D : Type ℓ} → (D → ℕ → D) → List ℕ → D → D
disposed dispose [] d = d
disposed dispose (m ∷ ms) d = disposed dispose ms (dispose d m)

pub dispose_from_lem {ℓ} :
    {D : Type ℓ} (dispose : D → ℕ → D) (fuel : ℕ) (s : Ports) (walk : ℕ) (bs : List ℕ) (d : D)
    → length bs < fuel
    → Linked s.ptnext walk bs
    → dispose_from dispose fuel s walk d ≡ some (disposed dispose (map s.ptmsg bs) d)
unfolding dispose_from
dispose_from_lem dispose zero s walk bs d l k = absurd (omega (arith, l))
dispose_from_lem dispose (suc fuel) s walk [] d l k =
    let e : (walk == 0) ≡ true = ground (arith, k) in rw e refl
dispose_from_lem dispose (suc fuel) s walk (b ∷ bs) d l k =
    let e : (walk == 0) ≡ false = ground (arith, k.0, k.1) in
    rw e (
      ap (λ w. dispose_from dispose fuel s (s.ptnext w) (dispose d (s.ptmsg w))) k.0
      ∙ dispose_from_lem dispose fuel s (s.ptnext b) bs (dispose d (s.ptmsg b)) (omega (arith, l))
          k.2)

pub limbo_entry-state : (e : PtEntry) (v : ℕ) → (limbo_entry e v).ptstate ≡ pt_limbo
limbo_entry-state e v = elim (Bool-cases (v == pt_alloc)) [ inl c ↦ rw c refl | inr c ↦ rw c refl ]

pub limbo_entry-seq : (e : PtEntry) (v : ℕ) → (limbo_entry e v).ptseq ≡ add32 e.ptseq 1
limbo_entry-seq e v = elim (Bool-cases (v == pt_alloc)) [ inl c ↦ rw c refl | inr c ↦ rw c refl ]

-- The owner of each node once the nodes of `p` are free.
abbrev pub freed : (ℕ → ℕ) → ℕ → ℕ → ℕ
freed owner p b = if owner b == p then nports else owner b

module _ (s : Ports) (owner : ℕ → ℕ) (nodes : ℕ → List ℕ) (p : ℕ) (i : IsPorts s owner nodes)
    (l : p < nports) (live : (s.porttab p).ptstate ≡ pt_alloc) where
  queue_owned : All (λ b. owner b ≡ p) (nodes p)
  queue_owned = i.owned p (omega (arith, l))

  free_owned : All (λ b. owner b ≡ nports) (nodes nports)
  free_owned = i.owned nports (omega arith)

  all_freed : All (λ b. freed owner p b ≡ nports) (nodes p ++ nodes nports)
  all_freed =
      All-append (λ b. freed owner p b ≡ nports) (nodes p) (nodes nports)
        (All-map (nodes p) (λ b o. let c : (owner b == p) ≡ true = ground (arith, o) in rw c refl)
          queue_owned)
        (All-map (nodes nports)
          (λ b o. let c : (owner b == p) ≡ false = ground (arith, o, l) in rw c o) free_owned)

  all-Distinct : Distinct (nodes p ++ nodes nports)
  all-Distinct =
      Distinct-append (nodes p) (nodes nports) (i.distinct p (omega (arith, l)))
        (i.distinct nports (omega arith))
        (All-map (nodes p)
          (λ b o.
            elsewhere owner b p nports (nodes nports) o (λ z. absurd (omega (arith, z, l)))
              free_owned)
          queue_owned)

  cleared-Moved :
      (next : ℕ → ℕ) (free v : ℕ)
      → Linked next free (nodes p ++ nodes nports)
      → ((q : ℕ)
          → q < nports
          → p ≢ q
          → (s.porttab q).ptstate ≡ pt_alloc
          → Linked next (s.porttab q).pthead (nodes q))
      → Moved s
          (record (set_port s p (limbo_entry (s.porttab p) v)) { ptnext = next; ptfree = free })
          (freed owner p)
          nodes
          p
          []
          (nodes p ++ nodes nports)
          []
  cleared-Moved next free v f o =
      let limbo = limbo_entry-state (s.porttab p) v in
      let same : (p == p) ≡ true = ground arith in
      record {
        ports =
            moved-IsPorts s owner nodes i p l (limbo_entry (s.porttab p) v) next s.ptmsg free
              (freed owner p) [] (nodes p ++ nodes nports)
              (λ q m ne.
                All-map (nodes q)
                  (λ b z. let c : (owner b == p) ≡ false = ground (arith, z, ne) in rw c z)
                  (i.owned q (omega (arith, m))))
              f (λ z. absurd (omega (arith, z, limbo))) (λ z. absurd (omega (arith, z, limbo))) o tt
              all_freed tt all-Distinct;
        queue = rw same refl;
        kept = record {
          entries = λ q ne. let g : (p == q) ≡ false = ground (arith, ne) in rw g refl;
          lists = λ q m ne.
              let g : (p == q) ≡ false = ground (arith, ne) in
              let h : (nports == q) ≡ false = ground (arith, m) in rw (g, h) refl;
          messages_kept = λ q m ne.
              let g : (p == q) ≡ false = ground (arith, ne) in
              let h : (nports == q) ≡ false = ground (arith, m) in rw (g, h) refl;
        };
      }

  pub free_nodes-Moved :
      (v : ℕ) (ns : List ℕ)
      → nodes p ≡ ns
      → Moved s
          (set_port (free_nodes s p) p (limbo_entry (s.porttab p) v))
          (freed owner p)
          nodes
          p
          []
          (nodes p ++ nodes nports)
          []
  free_nodes-Moved v [] en =
      let k : (s.porttab p).pthead ≡ 0 = rw en at (i.linked p l live) in
      let t : ((s.porttab p).pthead == 0) ≡ true = ground (arith, k) in
      rw t (cleared-Moved s.ptnext s.ptfree v (rw en i.free) (λ q m ne z. i.linked q m z))
  free_nodes-Moved v (b ∷ bs) en =
      let k = rw en at (i.linked p l live) in
      let t : ((s.porttab p).pthead == 0) ≡ false = ground (arith, k.0, k.1) in
      let tail = i.tail p l live ∙ ap tail_of en in
      let own : owner (s.porttab p).pttail ≡ p =
        ap owner tail ∙ last-All (λ c. owner c ≡ p) b bs (rw en at queue_owned) in
      let away =
        elsewhere owner (s.porttab p).pttail p nports (nodes nports) own
          (λ z. absurd (omega (arith, z, l))) free_owned in
      rw t (
        cleared-Moved (set_word s.ptnext (s.porttab p).pttail s.ptfree) (s.porttab p).pthead v
          (rw en (
            coe 1 0
              (j.
                Linked (set_word s.ptnext (tail j) s.ptfree) (s.porttab p).pthead
                  ((b ∷ bs) ++ nodes nports))
              (Linked-join s.ptnext (s.porttab p).pthead s.ptfree b bs (nodes nports) k
                (rw en at (i.distinct p (omega (arith, l)))) i.free
                (coe 0 1 (j. All (λ c. tail j ≢ c) (nodes nports)) away))))
          (λ q m ne z.
            Linked-set s.ptnext (s.porttab q).pthead (s.porttab p).pttail s.ptfree (nodes q)
              (other_list s owner nodes i p l q (s.porttab p).pttail m ne (inl own))
              (i.linked q m z)))

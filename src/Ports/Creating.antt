-- ===== src/Ports/Creating.antt =====
-- system/ptcreate.c.
use os_xinu.Ports.Delivery.{usable}
use os_xinu.Ports.Nodes.{IsPorts}
use os_xinu.Prelude.{
  ◌⊎◌, inr, arith, ◌+◌, ap, suc, ◌==◌, true, sym, ◌^◌, ◌%◌, Bool-cases, ◌≢◌, refl, ◌<◌,
  if◌then◌else◌, ℕ, List, [], ==_iff, ◌≡◌, ◌-◌, ◌∙◌, leb, false, zero, inl,
}
use os_xinu.Bufpool.Chain.{instead}
use os_xinu.Ports.{
  new_entry, semcreate, set_port, add32, is_negative, unusable, create_at, nports, Kernel, pt_free,
  PtEntry, ptcreate, create_from, Ports,
}

-- A port that the search takes.
abbrev Found : ℕ → Kernel → Ports → ℕ → Type 0
Found rounds k s count =
    (p : ℕ) × (p < 30)
    × ((s.porttab p).ptstate ≡ pt_free)
    × (create_from rounds k s count ≡ create_at k (record s { ptnextid = (p + 1) % 30 }) p count)

seen :
    (rounds : ℕ) (s : Ports) (p : ℕ)
    → p < 30
    → (s.porttab p).ptstate ≢ pt_free
    → ((j : ℕ) → j < rounds → (s.porttab (((p + 1) % 30 + j) % 30)).ptstate ≢ pt_free)
    → (j : ℕ) → j < suc rounds
    → (s.porttab ((p + j) % 30)).ptstate ≢ pt_free
seen rounds s p l e h zero u z =
    let q : (p + 0) % 30 ≡ p = omega arith in e (ap (λ j. (s.porttab j).ptstate) (sym q) ∙ z)
seen rounds s p l e h (suc j) u z =
    let q : ((p + 1) % 30 + j) % 30 ≡ (p + suc j) % 30 = omega arith in
    h j (omega (arith, u)) (ap (λ i. (s.porttab i).ptstate) q ∙ z)

create_from_lem :
    (rounds : ℕ) (k : Kernel) (s : Ports) (count : ℕ)
    → s.ptnextid < 30
    → Found rounds k s count
      ⊎ ((j : ℕ) → j < rounds → (s.porttab ((s.ptnextid + j) % 30)).ptstate ≢ pt_free)
unfolding create_from
create_from_lem zero k s count l = inr (λ j u. absurd (omega (arith, u)))
create_from_lem (suc rounds) k s count l =
    let p = s.ptnextid in
    let q : (if leb nports (p + 1) then 0 else p + 1) ≡ (p + 1) % 30 = ground arith in
    elim (Bool-cases ((s.porttab p).ptstate == pt_free)) [
      | inl e ↦ inl (p, l, (==_iff _ _).0 e, rw (e, q) refl)
      | inr e ↦
          let next = record s { ptnextid = (p + 1) % 30 } in
          elim (create_from_lem rounds k next count (omega arith)) [
            | inl f ↦ inl (f.0, f.1, f.2, rw (e, q) f.3)
            | inr all ↦ inr (seen rounds s p l (λ z. cc (e, (==_iff _ _).1 z)) all)
          ]
    ]

pub create_from_free :
    (k : Kernel) (s : Ports) (count j : ℕ)
    → s.ptnextid < 30
    → j < 30
    → (s.porttab j).ptstate ≡ pt_free
    → Found 30 k s count
create_from_free k s count j l u z = elim (create_from_lem 30 k s count l) [
  | inl f ↦ f
  | inr all ↦
      let q : (s.ptnextid + (j + 30 - s.ptnextid) % 30) % 30 ≡ j = omega arith in
      absurd
        (all ((j + 30 - s.ptnextid) % 30) (omega arith) (ap (λ i. (s.porttab i).ptstate) q ∙ z))
]

create_from-first :
    (rounds : ℕ) (k : Kernel) (s : Ports) (count : ℕ)
    → (s.porttab s.ptnextid).ptstate ≡ pt_free
    → (create_from (suc rounds) k s count).2 ≡ s.ptnextid
unfolding create_from
create_from-first rounds k s count z =
    let e : ((s.porttab s.ptnextid).ptstate == pt_free) ≡ true = (==_iff _ _).1 z in rw e refl

pub ptcreate-first :
    (k : Kernel) (s : Ports) (count : ℕ)
    → count < 2 ^ 31
    → (s.porttab s.ptnextid).ptstate ≡ pt_free
    → (ptcreate k s count).2 ≡ s.ptnextid
unfolding ptcreate
ptcreate-first k s count c z =
    let n : is_negative count ≡ false = ground (arith, c) in rw n (create_from-first 29 k s count z)

-- The ports with a new one that has no messages.
pub record Created (s s' : Ports) (owner : ℕ → ℕ) (nodes : ℕ → List ℕ) (p count : ℕ) : Type 0 where
  pub was_free : (s.porttab p).ptstate ≡ pt_free
  pub usable_now : unusable s' p ≡ false
  pub seq : (s'.porttab p).ptseq ≡ add32 (s.porttab p).ptseq 1
  pub maxcnt : (s'.porttab p).ptmaxcnt ≡ count % 2 ^ 16
  pub ports : IsPorts s' owner (instead nodes p [])
  pub others : (q : ℕ) → p ≢ q → s'.porttab q ≡ s.porttab q
  pub next : s'.ptnextid ≡ (p + 1) % 30

create_at-IsPorts :
    (s : Ports) (owner : ℕ → ℕ) (nodes : ℕ → List ℕ) (p : ℕ) (e : PtEntry)
    → p < nports
    → e.pthead ≡ 0
    → e.pttail ≡ 0
    → IsPorts s owner nodes
    → IsPorts (record (set_port s p e) { ptnextid = (p + 1) % 30 }) owner (instead nodes p [])
create_at-IsPorts s owner nodes p e l h t i =
    let c : (p == nports) ≡ false = ground (arith, l) in
    record {
      free = rw c i.free;
      linked = λ q m live. elim (Bool-cases (p == q)) [
        | inl g ↦ rw g h
        | inr g ↦ rw g (i.linked q m (rw g at live))
      ];
      tail = λ q m live. elim (Bool-cases (p == q)) [
        | inl g ↦ rw g t
        | inr g ↦ rw g (i.tail q m (rw g at live))
      ];
      owned = λ q m. elim (Bool-cases (p == q)) [ inl g ↦ rw g tt | inr g ↦ rw g (i.owned q m) ];
      distinct =
          λ q m. elim (Bool-cases (p == q)) [ inl g ↦ rw g tt | inr g ↦ rw g (i.distinct q m) ];
    }

create_at-Created :
    (s : Ports) (owner : ℕ → ℕ) (nodes : ℕ → List ℕ) (p ssem rsem count : ℕ)
    → IsPorts s owner nodes
    → p < nports
    → (s.porttab p).ptstate ≡ pt_free
    → Created s
        (record (set_port s p (new_entry (s.porttab p) ssem rsem count)) {
          ptnextid = (p + 1) % 30;
        })
        owner
        nodes
        p
        count
create_at-Created s owner nodes p ssem rsem count i l f =
    let same : (p == p) ≡ true = (==_iff p p).1 refl in
    let e = new_entry (s.porttab p) ssem rsem count in
    record {
      was_free = f;
      usable_now = usable (set_port s p e) p l (rw same refl);
      seq = rw same refl;
      maxcnt = rw same refl;
      ports = create_at-IsPorts s owner nodes p e l refl refl i;
      others = λ q ne. let g : (p == q) ≡ false = ground (arith, ne) in rw g refl;
      next = refl;
    }

-- ptcreate, for a count below 2 ^ 31 and with a free port: it returns a port that was free and is in use now, without messages,
-- with a new sequence number and the low 16 bits of the count as ptmaxcnt; the other ports stay as they were.
pub ptcreate_lem :
    (k : Kernel) (s : Ports) (owner : ℕ → ℕ) (nodes : ℕ → List ℕ) (count j : ℕ)
    → IsPorts s owner nodes
    → count < 2 ^ 31
    → s.ptnextid < nports
    → j < nports
    → (s.porttab j).ptstate ≡ pt_free
    → (k' : Kernel) × (s' : Ports) × (p : ℕ) × (ptcreate k s count ≡ (k', s', p))
      × (p < nports)
      × Created s s' owner nodes p count
unfolding ptcreate
ptcreate_lem k s owner nodes count j i c l u z =
    let f = create_from_free k s count j l u z in
    let p = f.0 in
    let n : is_negative count ≡ false = ground (arith, c) in
    let s1 = record s { ptnextid = (p + 1) % 30 } in
    let r = create_at k s1 p count in
    (
      r.0,
      r.1,
      p,
      rw n f.3,
      f.1,
      create_at-Created s owner nodes p (semcreate k count).1 (semcreate (semcreate k count).0 0).1
          count i f.1 f.2,
    )

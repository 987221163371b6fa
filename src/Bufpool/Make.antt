-- ===== src/Bufpool/Make.antt =====
-- system/mkbufpool.c: the buffers of a new pool.
use os_xinu.Prelude.{
  leb, ltb, sym, Bool-cases, zip_All, All-map, ℕ, ◌||◌, zero, suc, inl, inr, ◌⊎◌, ◌+◌, ◌-◌, ◌*◌,
  ◌<◌, ◌≤◌, ◌^◌, ◌≡◌, ◌≢◌, refl, arith, List, [], ◌∷◌, All, Distinct, ◌==◌, true, false,
}
use os_xinu.Bufpool.{
  is_negative, syserr, round4, getmem, max_pools, bp_maxn, bp_maxb, bp_minb, mkbufpool, Store,
  set_pool, BpEntry, empty, semcreate, Pools, link, make_at,
}
use os_xinu.Bufpool.Buffers.{buffers, buffers-within, above-Distinct, link-other, link_lem, outside}
use os_xinu.Bufpool.Chain.{instead, Linked, IsPools}
use os_xinu.Kernel.{Kernel}

All-swap : (xs ys : List ℕ) → All (λ y. All (λ x. x ≢ y) xs) ys → All (λ x. All (λ y. x ≢ y) ys) xs
All-swap [] ys h = tt
All-swap (x ∷ xs) ys h = (All-map ys (λ y r. r.0) h, All-swap xs ys (All-map ys (λ y r. r.1) h))

Linked-same :
    (w w' : ℕ → ℕ) (p : ℕ) (bs : List ℕ) → All (λ b. w' b ≡ w b) bs → Linked w p bs → Linked w' p bs
Linked-same w w' p [] h l = l
Linked-same w w' p (b ∷ bs) h (e, g, l) = (e, g, rw h.0 (Linked-same w w' (w b) bs h.1 l))

-- The pools with one more, whose list is `bs`, and words of the memory changed.
grown-IsPools :
    (s : Pools) (free : ℕ → List ℕ) (e : BpEntry) (w : ℕ → ℕ) (bs : List ℕ)
    → IsPools s free
    → Linked w e.bpnext bs
    → Distinct bs
    → ((q : ℕ) → q < s.nbpools → All (λ c. (w c ≡ s.words c) × All (λ d. d ≢ c) bs) (free q))
    → IsPools
        (record (set_pool (record s { nbpools = s.nbpools + 1 }) s.nbpools e) { words = w })
        (instead free s.nbpools bs)
grown-IsPools s free e w bs i k d a = record {
  linked = λ p l. elim (Bool-cases (s.nbpools == p)) [
    | inl c ↦ rw c k
    | inr c ↦ rw c (
        Linked-same s.words w (s.buftab p).bpnext (free p)
          (All-map (free p) (λ x h. h.0) (a p (ground arith))) (i.linked p (ground arith)))
  ];
  distinct = λ p l. elim (Bool-cases (s.nbpools == p)) [
    | inl c ↦ rw c d
    | inr c ↦ rw c (i.distinct p (ground arith))
  ];
  apart = λ p q l m n. elim (Bool-cases (s.nbpools == p)) [
    | inl c ↦
        let o : (s.nbpools == q) ≡ false = ground arith in
        rw (c, o) (All-swap bs (free q) (All-map (free q) (λ x h. h.1) (a q (ground arith))))
    | inr c ↦ elim (Bool-cases (s.nbpools == q)) [
      | inl o ↦
          rw (c, o)
            (All-map (free p) (λ x h. All-map bs (λ y r z. r (sym z)) h.1) (a p (ground arith)))
      | inr o ↦ rw (c, o) (i.apart p q (ground arith) (ground arith) n)
    ]
  ];
}

-- The pool that `make_at` leaves in the table, with its list.
pub record Made (k1 : Kernel) (s : Pools) (free : ℕ → List ℕ) (bufsiz numbufs buf sem : ℕ)
    (o : Kernel × Pools × ℕ) : Type 0 where
  pub after : Pools
  pub returns : o ≡ (k1, after, s.nbpools)
  pub count : after.nbpools ≡ s.nbpools + 1
  pub entry : after.buftab s.nbpools ≡ record { bpnext = buf; bpsem = sem; bpsize = bufsiz }
  pub pools : IsPools after (instead free s.nbpools (buffers numbufs buf (bufsiz + 4)))

pub make_at_lem :
    (k k1 : Kernel) (s : Pools) (free : ℕ → List ℕ) (bufsiz n buf sem : ℕ)
    → IsPools s free
    → semcreate k (suc n) ≡ (k1, sem)
    → sem ≢ empty
    → 0 < buf
    → buf + suc n * (bufsiz + 4) ≤ 2 ^ 32
    → ((q : ℕ) → q < s.nbpools → All (λ c. (c < buf) ⊎ (buf + suc n * (bufsiz + 4) ≤ c)) (free q))
    → Made k1 s free bufsiz (suc n) buf sem (make_at k s bufsiz (suc n) buf)
unfolding make_at
make_at_lem k k1 s free bufsiz n buf sem i c ne p t away =
    let size = bufsiz + 4 in
    let bs = buffers (suc n) buf size in
    let w = buffers-within (suc n) buf size (buf + suc n * size) (omega arith) in
    let real : (sem == empty) ≡ false = ground arith in
    let one : suc n - 1 ≡ n = omega arith in
    let e : (s.nbpools == s.nbpools) ≡ true = ground arith in
    let entry : BpEntry = record { bpnext = buf; bpsem = sem; bpsize = bufsiz } in
    record {
      after = record (set_pool (record s { nbpools = s.nbpools + 1 }) s.nbpools entry) {
        words = link n s.words buf size;
      };
      returns = rw (c, real, one) refl;
      count = refl;
      entry = rw e refl;
      pools =
          grown-IsPools s free entry (link n s.words buf size) bs i
            (link_lem n s.words buf size p (omega arith)
              (All-map bs (λ d h. omega (arith, h.1, t)) w))
            (above-Distinct (suc n) buf size (omega arith)).1
            (λ q l.
              All-map (free q)
                (λ x h.
                  let o = outside (suc n) buf size x (omega arith) h in
                  (
                    link-other n s.words buf size x (omega arith) (
                        zip_All (λ d. d ≢ x) (λ d. d + size ≤ 2 ^ 32) bs o
                          (All-map bs (λ d g. omega (arith, g.1, t)) w)),
                    o,
                  ))
                (away q l));
    }

-- What `mkbufpool` leaves, its result with the heap.
pub record MadePool (k1 : Kernel) (h1 : Store) (s : Pools) (free : ℕ → List ℕ)
    (bufsiz numbufs buf sem : ℕ) (o : Kernel × Store × Pools × ℕ) : Type 0 where
  pub after : Pools
  pub returns : o ≡ (k1, h1, after, s.nbpools)
  pub count : after.nbpools ≡ s.nbpools + 1
  pub entry : after.buftab s.nbpools ≡ record { bpnext = buf; bpsem = sem; bpsize = bufsiz }
  pub pools : IsPools after (instead free s.nbpools (buffers numbufs buf (bufsiz + 4)))

-- For a size of BP_MINB to BP_MAXB bytes and 1 to BP_MAXN buffers, with less than NBPOOLS pools, if getmem gives memory in
-- which no free buffer of a pool stands and semcreate a semaphore, mkbufpool returns the next pool. Its free buffers are the pieces of this
-- memory in their order, of the size rounded to a multiple of 4 and a word for the pool; the lists of the
-- other pools stay, and no buffer is in two lists.
pub mkbufpool_lem :
    (k k1 : Kernel) (h h1 : Store) (s : Pools) (free : ℕ → List ℕ) (bufsiz numbufs buf sem : ℕ)
    → IsPools s free
    → bp_minb ≤ bufsiz
    → bufsiz ≤ bp_maxb
    → 0 < numbufs
    → numbufs ≤ bp_maxn
    → s.nbpools < max_pools
    → getmem h (numbufs * (round4 bufsiz + 4)) ≡ (h1, buf)
    → buf ≢ syserr
    → 0 < buf
    → buf + numbufs * (round4 bufsiz + 4) ≤ 2 ^ 32
    → ((q : ℕ)
        → q < s.nbpools
        → All (λ c. (c < buf) ⊎ (buf + numbufs * (round4 bufsiz + 4) ≤ c)) (free q))
    → semcreate k numbufs ≡ (k1, sem)
    → sem ≢ empty
    → MadePool k1 h1 s free (round4 bufsiz) numbufs buf sem (mkbufpool k h s bufsiz numbufs)
unfolding mkbufpool
mkbufpool_lem k k1 h h1 s free bufsiz zero buf sem i a b c d e g n p t away sc ne =
    absurd (omega (arith, c))
mkbufpool_lem k k1 h h1 s free bufsiz (suc m) buf sem i a b c d e g n p t away sc ne =
    let made = make_at_lem k k1 s free (round4 bufsiz) m buf sem i sc ne p t away in
    let ok : (is_negative bufsiz
          || ltb bufsiz bp_minb
          || ltb bp_maxb bufsiz
          || (is_negative (suc m) || ltb (suc m) 1)
          || ltb bp_maxn (suc m)
          || leb max_pools s.nbpools)
        ≡ false =
      ground arith in
    let real : (buf == syserr) ≡ false = ground arith in
    record {
      after = made.after;
      returns = rw (ok, g, real, made.returns) refl;
      count = made.count;
      entry = made.entry;
      pools = made.pools;
    }

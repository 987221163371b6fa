-- ===== src/Bufpool/Chain.antt =====
-- system/getbuf.c and freebuf.c on the lists of free buffers.
use os_xinu.Prelude.{
  zip_All, leb, sym, ◌≤◌, All-map, Bool-cases, ap, some, ℕ, ◌||◌, inl, inr, ◌+◌, ◌-◌, ◌<◌, ◌^◌, ◌≡◌,
  ◌≢◌, refl, arith, List, [], ◌∷◌, All, Distinct, if◌then◌else◌, ◌==◌, true, false,
}
use os_xinu.Bufpool.{
  is_negative, sub32, signal, max_pools, release_at, set_pool, add32, Pools, set_word, getbuf_exit,
  freebuf,
}
use os_xinu.Kernel.{Kernel}

-- The free buffers from an address on, each an address that is not null and whose first word leads on.
abbrev pub Linked : (ℕ → ℕ) → ℕ → List ℕ → Type 0
Linked w p [] = p ≡ 0
Linked w p (b ∷ bs) = (p ≡ b) × (0 < b) × Linked w (w b) bs

-- The free buffers of each pool: the lists of two pools have no buffer in common, and no list has one twice.
pub record IsPools (s : Pools) (free : ℕ → List ℕ) : Type 0 where
  pub linked : (p : ℕ) → p < s.nbpools → Linked s.words (s.buftab p).bpnext (free p)
  pub distinct : (p : ℕ) → p < s.nbpools → Distinct (free p)
  pub apart :
      (p q : ℕ)
      → p < s.nbpools
      → q < s.nbpools
      → p ≢ q
      → All (λ b. All (λ c. b ≢ c) (free q)) (free p)

pub Linked-set :
    (w : ℕ → ℕ) (p a v : ℕ) (bs : List ℕ)
    → All (λ b. a ≢ b) bs
    → Linked w p bs
    → Linked (set_word w a v) p bs
Linked-set w p a v [] h l = l
Linked-set w p a v (b ∷ bs) h (e, g, l) =
    let n : (a == b) ≡ false = ground (arith, h.0) in (e, g, rw n (Linked-set w (w b) a v bs h.1 l))

-- The lists with another one for the pool `p`.
abbrev pub instead : (ℕ → List ℕ) → ℕ → List ℕ → ℕ → List ℕ
instead free p bs q = if p == q then bs else free q

-- The pools with a list of one of them and a word of the memory changed.
abbrev pub changed : Pools → ℕ → ℕ → ℕ → ℕ → Pools
changed s poolid first b v =
    record (set_pool s poolid (record (s.buftab poolid) { bpnext = first })) {
      words = set_word s.words b v;
    }

-- Such a change keeps the lists of the other pools when no buffer of them is written.
changed-IsPools :
    (s : Pools) (free : ℕ → List ℕ) (poolid first b v : ℕ) (bs : List ℕ)
    → IsPools s free
    → Linked (set_word s.words b v) first bs
    → Distinct bs
    → ((q : ℕ) → q < s.nbpools → poolid ≢ q → All (λ c. b ≢ c) (free q))
    → ((q : ℕ) → q < s.nbpools → poolid ≢ q → All (λ c. All (λ d. c ≢ d) (free q)) bs)
    → ((q : ℕ) → q < s.nbpools → poolid ≢ q → All (λ c. All (λ d. c ≢ d) bs) (free q))
    → IsPools (changed s poolid first b v) (instead free poolid bs)
changed-IsPools s free poolid first b v bs i k d f g h = record {
  linked = λ p l. elim (Bool-cases (poolid == p)) [
    | inl c ↦ rw c k
    | inr c ↦
        rw c (
          Linked-set s.words (s.buftab p).bpnext b v (free p) (f p l (ground arith)) (i.linked p l))
  ];
  distinct =
      λ p l. elim (Bool-cases (poolid == p)) [ inl c ↦ rw c d | inr c ↦ rw c (i.distinct p l) ];
  apart = λ p q l m n. elim (Bool-cases (poolid == p)) [
    | inl c ↦ let o : (poolid == q) ≡ false = ground arith in rw (c, o) (g q m (ground arith))
    | inr c ↦ elim (Bool-cases (poolid == q)) [
      | inl o ↦ rw (c, o) (h p l (ground arith))
      | inr o ↦ rw (c, o) (i.apart p q l m n)
    ]
  ];
}

-- After `wait`, getbuf returns the address behind the first word of the first free buffer of the pool, records the
-- pool in that word, and takes the buffer from the pool's list; the lists of the other pools stay, and no buffer is in two lists.
pub getbuf_lem :
    (s : Pools) (free : ℕ → List ℕ) (poolid b : ℕ) (bs : List ℕ)
    → IsPools s free
    → poolid < s.nbpools
    → free poolid ≡ b ∷ bs
    → (s' : Pools) × (getbuf_exit s poolid ≡ some (s', add32 4 b))
      × (s'.words b ≡ poolid)
      × IsPools s' (instead free poolid bs)
unfolding getbuf_exit
getbuf_lem s free poolid b bs i l e =
    let k : Linked s.words (s.buftab poolid).bpnext (b ∷ bs) = rw e at (i.linked poolid l) in
    let n : ((s.buftab poolid).bpnext == 0) ≡ false = ground (arith, k.0, k.1) in
    let d : Distinct (b ∷ bs) = rw e at (i.distinct poolid l) in
    (
      changed s poolid (s.words b) b poolid,
      rw n (ap (λ x. some (changed s poolid (s.words x) x poolid, add32 4 x)) k.0),
      ground arith,
      changed-IsPools s free poolid (s.words b) b poolid bs i
          (Linked-set s.words (s.words b) b poolid bs d.0 k.2) d.1
          (λ q m o. (rw e at (i.apart poolid q l m o)).0)
          (λ q m o. (rw e at (i.apart poolid q l m o)).1)
          (λ q m o.
            All-map (free q) (λ c a. (rw e at a).1) (i.apart q poolid m l (λ r. o (sym r)))),
    )

-- A buffer that is in no list, with its pool in its first word, is the first of the pool's list after freebuf, and the
-- pool's semaphore is signalled; the lists of the other pools stay.
pub freebuf_lem :
    (k : Kernel) (s : Pools) (free : ℕ → List ℕ) (b : ℕ)
    → IsPools s free
    → s.words b < s.nbpools
    → s.nbpools ≤ max_pools
    → 0 < b
    → b < 2 ^ 32 - 4
    → ((q : ℕ) → q < s.nbpools → All (λ c. b ≢ c) (free q))
    → (s' : Pools) × (freebuf k s (b + 4) ≡ ((signal k (s.buftab (s.words b)).bpsem).0, s', true))
      × IsPools s' (instead free (s.words b) (b ∷ free (s.words b)))
unfolding freebuf release_at
freebuf_lem k s free b i l m p u f =
    let a : sub32 (b + 4) 4 ≡ b = omega arith in
    let bad : (is_negative (s.words b) || leb s.nbpools (s.words b)) ≡ false = ground arith in
    let same : (b == b) ≡ true = ground arith in
    let first = (s.buftab (s.words b)).bpnext in
    (
      changed s (s.words b) b b first,
      rw (a, bad) refl,
      changed-IsPools s free (s.words b) b b first (b ∷ free (s.words b)) i
          (
            refl,
            p,
            rw same (
                Linked-set s.words first b first (free (s.words b)) (f (s.words b) l)
                  (i.linked (s.words b) l)),
          )
          (f (s.words b) l, i.distinct (s.words b) l) (λ q o n. f q o)
          (λ q o n. (f q o, i.apart (s.words b) q l o n))
          (λ q o n.
            zip_All (λ c. c ≢ b) (λ c. All (λ d. c ≢ d) (free (s.words b))) (free q)
              (All-map (free q) (λ c r e. r (sym e)) (f q o))
              (i.apart q (s.words b) o l (λ r. n (sym r)))),
    )

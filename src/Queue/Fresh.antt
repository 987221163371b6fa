-- ===== src/Queue/Fresh.antt =====
-- system/newqueue.c.
use os_xinu.Prelude.{ℕ, ◌+◌, ◌-◌, ◌<◌, ◌≤◌, ◌≡◌, ◌≢◌, refl, List, [], arith, true, false}
use os_xinu.Prelude.{All-map, ltb}
use os_xinu.Queue.{
  Qtab, nproc, nqent, empty, max_key, min_key, queuetail, isbadqid, newqueue, set_key, set_next,
  set_prev,
}
use os_xinu.Queue.Chain.{Chain-frame}
use os_xinu.Queue.Frame.{Holds}

-- The table behind the six assignments of `newqueue`.
abbrev fresh : Qtab → ℕ → Qtab
fresh t q =
    let t2 = set_key (set_prev (set_next t q (queuetail q)) q empty) q max_key in
    set_key (set_prev (set_next t2 (queuetail q) empty) (queuetail q) q) (queuetail q) min_key

newqueue-eq : (t : Qtab) (n : ℕ) → n ≤ nqent → newqueue t n ≡ (fresh t n, n + 2, n)
unfolding newqueue
newqueue-eq t n h = let e : ltb nqent n ≡ false = ground arith in rw e

-- While two entries of the table are left, `newqueue` returns the next of them as the head of an
-- empty queue, whose head has the greatest key and whose tail has the least, it moves on by two
-- entries, and every queue allocated before stays.
newqueue_lem :
    (t : Qtab) (n : ℕ) (q' : ℕ) (ys : List ℕ)
    → nproc ≤ n
    → n < nqent - 1
    → Holds t q' ys
    → q' + 1 < n
    → let (t', n', q) = newqueue t n in
      (q ≡ n)
      × (n' ≡ n + 2)
      × Holds t' q []
      × ((t' q).key ≡ max_key)
      × ((t' (queuetail q)).key ≡ min_key)
      × Holds t' q' ys
newqueue_lem t n q' ys a b h c = rw (newqueue-eq t n (omega arith)) (
  refl,
  refl,
  record { chain = (ground arith, ground arith); procs = tt; distinct = tt; above = a; inside = b },
  ground arith,
  ground arith,
  record {
    chain =
        Chain-frame t (fresh t n) q' ys (queuetail q') (ground arith)
          (All-map ys (λ j p. ground arith) h.procs) (All-map ys (λ j p. ground arith) h.procs)
          (ground arith) h.chain;
    procs = h.procs;
    distinct = h.distinct;
    above = h.above;
    inside = h.inside;
  },
)

-- When fewer than two entries are left and the counter is at most the size of the table,
-- `newqueue` still returns the counter, and not SYSERR, though the other functions refuse that id.
newqueue_overflow :
    (t : Qtab) (n : ℕ)
    → nqent - 1 ≤ n
    → n ≤ nqent
    → let (t', n', q) = newqueue t n in (q ≡ n) × (q ≢ empty) × (isbadqid q ≡ true)
unfolding newqueue
newqueue_overflow t n a b = (ground arith, ground arith, ground arith)

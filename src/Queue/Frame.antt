-- ===== src/Queue/Frame.antt =====
-- When the table holds a list of processes as a queue, and what the assignments of the queue
-- functions leave of the other queues.
use os_xinu.Prelude.{ℕ, ◌-◌, ◌<◌, ◌≤◌, ◌≡◌, ◌≢◌, List, [], ◌∷◌, ◌++◌, arith, sym}
use os_xinu.Prelude.{All, All-left, All-right, All-map, All-append, Distinct, zip_All}
use os_xinu.Queue.{Qtab, nproc, nqent, queuetail}
use os_xinu.Queue.Chain.{
  Chain, last_or, first_or, All-last, All-first, Chain-frame, Linked, Unlinked, Apart, Chain-link,
  Chain-unlink,
}

-- The queue with head `q` holds the processes `xs`, first to last.
pub record Holds (t : Qtab) (q : ℕ) (xs : List ℕ) : Type 0 where
  pub chain : Chain t q xs (queuetail q)
  pub procs : All (λ j. j < nproc) xs
  pub distinct : Distinct xs
  pub above : nproc ≤ q
  pub inside : q < nqent - 1

pub Holds-Apart : {t : Qtab} (q : ℕ) (xs : List ℕ) → Holds t q xs → Apart q xs (queuetail q)
Holds-Apart q xs h = record {
  ends = omega arith;
  fore = All-map xs (λ j b. omega (arith, h.above)) h.procs;
  aft = All-map xs (λ j b. omega (arith, h.above)) h.procs;
  distinct = h.distinct;
}

-- Another queue of the same table: it shares no process with `xs`, and does not hold `pid`.
pub record Beside (t : Qtab) (q : ℕ) (xs : List ℕ) (pid : ℕ) (q' : ℕ) (ys : List ℕ) : Type 0 where
  pub held : Holds t q' ys
  pub heads : q' ≢ q
  pub without : All (λ j. j ≢ pid) ys
  pub disjoint : All (λ j. All (λ x. j ≢ x) xs) ys

-- What changes is the `next` of `a` and `pid`, and the `prev` of `b` and `pid`.
pub record Local (t t' : Qtab) (a pid b : ℕ) : Type 0 where
  pub other_next : (j : ℕ) → j ≢ a → j ≢ pid → (t' j).next ≡ (t j).next
  pub other_prev : (j : ℕ) → j ≢ b → j ≢ pid → (t' j).prev ≡ (t j).prev

-- Such a change, with `a`, `pid` and `b` in one queue, leaves every other queue alone.
pub Local-Beside :
    (t t' : Qtab) (q : ℕ) (xs : List ℕ) (a pid b : ℕ) (q' : ℕ) (ys : List ℕ)
    → Local t t' a pid b
    → pid < nproc
    → nproc ≤ q
    → All (λ j. j < nproc) xs
    → ((j : ℕ) → j ≢ q → All (λ x. j ≢ x) xs → j ≢ a)
    → ((j : ℕ) → j ≢ queuetail q → All (λ x. j ≢ x) xs → j ≢ b)
    → Beside t q xs pid q' ys
    → Holds t' q' ys
Local-Beside t t' q xs a pid b q' ys l lt up ps na nb o = record {
  chain =
      Chain-frame t t' q' ys (queuetail q')
        (l.other_next q' (na q' o.heads (All-map xs (λ x p. omega (arith, o.held.above)) ps))
          (omega (arith, o.held.above)))
        (All-map ys (λ j p. l.other_next j (na j (omega arith) p.1) p.0.1) facts)
        (All-map ys (λ j p. l.other_prev j (nb j (omega arith) p.1) p.0.1) facts)
        (l.other_prev (queuetail q')
          (nb (queuetail q') (λ e. o.heads (omega arith))
            (All-map xs (λ x p. omega (arith, o.held.above)) ps))
          (omega (arith, o.held.above)))
        o.held.chain;
  procs = o.held.procs;
  distinct = o.held.distinct;
  above = o.held.above;
  inside = o.held.inside;
}
  where
    facts : All (λ j. ((j < nproc) × (j ≢ pid)) × All (λ x. j ≢ x) xs) ys
    facts =
        zip_All (λ j. (j < nproc) × (j ≢ pid)) (λ j. All (λ x. j ≢ x) xs) ys
          (zip_All (λ j. j < nproc) (λ j. j ≢ pid) ys o.held.procs o.without) o.disjoint

-- The entries between which a change is made belong to the queue.
pub last-ne :
    (q : ℕ) (xs ys : List ℕ) (j : ℕ) → j ≢ q → All (λ x. j ≢ x) (xs ++ ys) → j ≢ last_or q xs
last-ne q xs ys j h k = All-last (λ x. j ≢ x) q xs h (All-left (λ x. j ≢ x) xs ys k)

pub first-ne :
    (xs ys : List ℕ) (n : ℕ) (j : ℕ) → j ≢ n → All (λ x. j ≢ x) (xs ++ ys) → j ≢ first_or ys n
first-ne xs ys n j h k = All-first (λ x. j ≢ x) ys n (All-right (λ x. j ≢ x) xs ys k) h

Distinct-insert :
    (xs ys : List ℕ) (pid : ℕ)
    → Distinct (xs ++ ys)
    → All (λ j. j ≢ pid) (xs ++ ys)
    → Distinct (xs ++ (pid ∷ ys))
Distinct-insert [] ys pid d n = (All-map ys (λ j h e. h (sym e)) n, d)
Distinct-insert (x ∷ xs) ys pid d n = (
  All-append (λ j. x ≢ j) xs (pid ∷ ys) (All-left (λ j. x ≢ j) xs ys d.0)
      (n.0, All-right (λ j. x ≢ j) xs ys d.0),
  Distinct-insert xs ys pid d.1 n.1,
)

Distinct-remove : (xs ys : List ℕ) (pid : ℕ) → Distinct (xs ++ (pid ∷ ys)) → Distinct (xs ++ ys)
Distinct-remove [] ys pid d = d.1
Distinct-remove (x ∷ xs) ys pid d = (
  All-append (λ j. x ≢ j) xs ys (All-left (λ j. x ≢ j) xs (pid ∷ ys) d.0)
      (All-right (λ j. x ≢ j) xs (pid ∷ ys) d.0).1,
  Distinct-remove xs ys pid d.1,
)

pub Distinct-split :
    (xs : List ℕ) (y : ℕ) (ys : List ℕ)
    → Distinct (xs ++ (y ∷ ys))
    → All (λ j. j ≢ y) xs × All (λ j. y ≢ j) ys
Distinct-split [] y ys d = (tt, d.0)
Distinct-split (x ∷ xs) y ys d =
    let (a, b) = Distinct-split xs y ys d.1 in (((All-right (λ j. x ≢ j) xs (y ∷ ys) d.0).0, a), b)

-- Linking a new process into a queue.
pub Holds-link :
    (t t' : Qtab) (q : ℕ) (xs ys : List ℕ) (pid : ℕ)
    → Holds t q (xs ++ ys)
    → pid < nproc
    → All (λ j. j ≢ pid) (xs ++ ys)
    → Linked t t' (last_or q xs) pid (first_or ys (queuetail q))
    → Holds t' q (xs ++ (pid ∷ ys))
Holds-link t t' q xs ys pid h lt new l = record {
  chain =
      Chain-link t t' pid xs ys q (queuetail q) l (Holds-Apart q (xs ++ ys) h)
        (omega (arith, h.above)) new (omega (arith, h.above)) h.chain;
  procs =
      All-append (λ j. j < nproc) xs (pid ∷ ys) (All-left (λ j. j < nproc) xs ys h.procs)
        (lt, All-right (λ j. j < nproc) xs ys h.procs);
  distinct = Distinct-insert xs ys pid h.distinct new;
  above = h.above;
  inside = h.inside;
}

-- Linking a process out of its queue.
pub Holds-unlink :
    (t t' : Qtab) (q : ℕ) (xs ys : List ℕ) (pid : ℕ)
    → Holds t q (xs ++ (pid ∷ ys))
    → Unlinked t t' (last_or q xs) (first_or ys (queuetail q))
    → Holds t' q (xs ++ ys)
Holds-unlink t t' q xs ys pid h l = record {
  chain =
      Chain-unlink t t' pid xs ys q (queuetail q) l (Holds-Apart q (xs ++ (pid ∷ ys)) h) h.chain;
  procs =
      All-append (λ j. j < nproc) xs ys (All-left (λ j. j < nproc) xs (pid ∷ ys) h.procs)
        (All-right (λ j. j < nproc) xs (pid ∷ ys) h.procs).1;
  distinct = Distinct-remove xs ys pid h.distinct;
  above = h.above;
  inside = h.inside;
}

-- A change at a process that is not in the queue leaves the queue alone.
pub Holds-aside :
    (t t' : Qtab) (q : ℕ) (xs : List ℕ) (pid : ℕ)
    → ((j : ℕ) → j ≢ pid → (t' j).next ≡ (t j).next)
    → ((j : ℕ) → j ≢ pid → (t' j).prev ≡ (t j).prev)
    → pid < nproc
    → All (λ j. j ≢ pid) xs
    → Holds t q xs
    → Holds t' q xs
Holds-aside t t' q xs pid f g lt out h = record {
  chain =
      Chain-frame t t' q xs (queuetail q) (f q (omega (arith, h.above)))
        (All-map xs (λ j p. f j p) out) (All-map xs (λ j p. g j p) out)
        (g (queuetail q) (omega (arith, h.above))) h.chain;
  procs = h.procs;
  distinct = h.distinct;
  above = h.above;
  inside = h.inside;
}

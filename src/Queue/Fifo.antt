-- ===== src/Queue/Fifo.antt =====
-- system/queue.c and getitem.c on a table that holds the queue.
use os_xinu.Prelude.{ℕ, ◌<◌, ◌≡◌, ◌≢◌, refl, List, [], ◌∷◌, ◌++◌, arith, sym}
use os_xinu.Prelude.{All, All-right, All-map, true, false}
use os_xinu.Prelude.{Bool}
use mathlib.Core.List.{append-nil}
use os_xinu.Queue.{
  Qtab, nproc, empty, queuetail, set_next, set_prev, isempty, isbadqid, enqueue, getitem, getfirst,
  getlast, dequeue,
}
use os_xinu.Queue.Chain.{
  Chain, last_or, first_or, All-last, All-first, prev-Chain, Linked, Unlinked,
}
use os_xinu.Queue.Frame.{
  Holds, Beside, Local-Beside, last-ne, Holds-link, Holds-unlink, Holds-aside,
}

pub isbadqid-Holds : {t : Qtab} {q : ℕ} {xs : List ℕ} → Holds t q xs → isbadqid q ≡ false
isbadqid-Holds h = ground arith

isempty-nil : {t : Qtab} {q : ℕ} → Holds t q [] → isempty t q ≡ true
isempty-nil h = ground arith

isempty-cons : {t : Qtab} {q x : ℕ} {xs : List ℕ} → Holds t q (x ∷ xs) → isempty t q ≡ false
isempty-cons h = ground arith

-- The table behind the four assignments of `enqueue`.
abbrev enqueued : Qtab → ℕ → ℕ → ℕ → Qtab
enqueued t tail pid prev =
    set_prev (set_next (set_prev (set_next t pid tail) pid prev) prev pid) tail pid

enqueued-Linked :
    (t : Qtab) (tail pid prev : ℕ)
    → prev ≢ pid
    → tail ≢ pid
    → Linked t (enqueued t tail pid prev) prev pid tail
enqueued-Linked t tail pid prev a b = record {
  into = ground arith;
  back = ground arith;
  onward = ground arith;
  behind = ground arith;
  other_next = λ j p r. ground arith;
  other_prev = λ j p r. ground arith;
}

enqueue-eq :
    {t : Qtab} {q : ℕ} {xs : List ℕ} (pid : ℕ)
    → Holds t q xs
    → enqueue t false pid q ≡ (enqueued t (queuetail q) pid (last_or q xs), pid)
unfolding enqueue
enqueue-eq {t} {q} {xs} pid h =
    ground
      (arith, prev-Chain t q xs [] (queuetail q) (rw (append-nil xs) h.chain), isbadqid-Holds h)

-- `enqueue` of a process that is not in the queue returns the process and leaves it at the tail,
-- behind the others; every other queue of the table that does not hold the process stays.
pub enqueue_lem :
    {t : Qtab} {q : ℕ} (xs : List ℕ) (pid : ℕ) {q' : ℕ} {ys : List ℕ}
    → Holds t q xs
    → pid < nproc
    → All (λ j. j ≢ pid) xs
    → Beside t q xs pid q' ys
    → let (t', r) = enqueue t false pid q in
      (r ≡ pid) × Holds t' q (xs ++ (pid ∷ [])) × Holds t' q' ys
enqueue_lem {t} {q} xs pid {q'} {ys} h lt new o = rw (enqueue-eq pid h) (
  refl,
  Holds-link t t' q xs [] pid (rw (append-nil xs) h) lt (rw (append-nil xs) new) linked,
  Local-Beside t t' q xs (last_or q xs) pid (queuetail q) q' ys
      (record { other_next = linked.other_next; other_prev = linked.other_prev }) lt h.above h.procs
      (λ j a b. last-ne q xs [] j a (rw (append-nil xs) b)) (λ j a b. a) o,
)
  where
    t' : Qtab
    t' = enqueued t (queuetail q) pid (last_or q xs)

    linked : Linked t t' (last_or q xs) pid (queuetail q)
    linked =
        enqueued-Linked t (queuetail q) pid (last_or q xs)
          (All-last (λ j. j ≢ pid) q xs (omega (arith, h.above)) new) (omega (arith, h.above))

next-mid :
    (t : Qtab) (p : ℕ) (xs : List ℕ) (pid : ℕ) (ys : List ℕ) (n : ℕ)
    → Chain t p (xs ++ (pid ∷ ys)) n
    → (t pid).next ≡ first_or ys n
next-mid t p [] pid [] n c = c.2.0
next-mid t p [] pid (y ∷ ys) n c = c.2.0
next-mid t p (x ∷ xs) pid ys n c = next-mid t x xs pid ys n c.2

abbrev removed : Qtab → ℕ → ℕ → Qtab
removed t prev next = set_prev (set_next t prev next) next prev

removed-Unlinked : (t : Qtab) (prev next : ℕ) → Unlinked t (removed t prev next) prev next
removed-Unlinked t prev next = record {
  into = ground arith;
  back = ground arith;
  other_next = λ j p. ground arith;
  other_prev = λ j p. ground arith;
}

getitem-eq :
    {t : Qtab} {q : ℕ} (xs ys : List ℕ) (pid : ℕ)
    → Holds t q (xs ++ (pid ∷ ys))
    → getitem t pid ≡ (removed t (last_or q xs) (first_or ys (queuetail q)), pid)
unfolding getitem
getitem-eq {t} {q} xs ys pid h = rw (
  prev-Chain t q xs (pid ∷ ys) (queuetail q) h.chain,
  next-mid t q xs pid ys (queuetail q) h.chain,
)

-- `getitem` of a process anywhere in a queue returns it and leaves the others in their order;
-- every other queue of the table stays.
pub getitem_lem :
    {t : Qtab} {q : ℕ} (xs ys : List ℕ) (pid : ℕ) {q' : ℕ} {zs : List ℕ}
    → Holds t q (xs ++ (pid ∷ ys))
    → Beside t q (xs ++ (pid ∷ ys)) pid q' zs
    → let (t', r) = getitem t pid in (r ≡ pid) × Holds t' q (xs ++ ys) × Holds t' q' zs
getitem_lem {t} {q} xs ys pid {q'} {zs} h o = rw (getitem-eq xs ys pid h) (
  refl,
  Holds-unlink t t' q xs ys pid h unlinked,
  Local-Beside t t' q (xs ++ (pid ∷ ys)) prev pid next q' zs
      (record {
        other_next = λ j a b. unlinked.other_next j a;
        other_prev = λ j a b. unlinked.other_prev j a;
      })
      (All-right (λ j. j < nproc) xs (pid ∷ ys) h.procs).0 h.above h.procs
      (λ j a b. last-ne q xs (pid ∷ ys) j a b)
      (λ j a b.
        All-first (λ x. j ≢ x) ys (queuetail q) (All-right (λ x. j ≢ x) xs (pid ∷ ys) b).1 a)
      o,
)
  where
    prev : ℕ
    prev = last_or q xs

    next : ℕ
    next = first_or ys (queuetail q)

    t' : Qtab
    t' = removed t prev next

    unlinked : Unlinked t t' prev next
    unlinked = removed-Unlinked t prev next

abbrev cleared : Qtab → ℕ → Qtab
cleared t pid = set_next (set_prev t pid empty) pid empty

dequeue-eq :
    {t : Qtab} {q : ℕ} (x : ℕ) (xs : List ℕ)
    → Holds t q (x ∷ xs)
    → dequeue t q ≡ (cleared (getitem t x).0 x, x)
unfolding dequeue getfirst
dequeue-eq {t} {q} x xs h =
    ground (arith, isbadqid-Holds h, isempty-cons h, h.chain, getitem-eq [] xs x h)

-- What `dequeue` does to the queue itself.
pub dequeue_own :
    {t : Qtab} {q : ℕ} (x : ℕ) (xs : List ℕ)
    → Holds t q (x ∷ xs)
    → let (t', r) = dequeue t q in (r ≡ x) × Holds t' q xs
dequeue_own {t} {q} x xs h =
    let t1 = (getitem t x).0 in
    let rest : Holds t1 q xs = rw (getitem-eq [] xs x h) (
      Holds-unlink t (removed t q (first_or xs (queuetail q))) q [] xs x h
        (removed-Unlinked t q (first_or xs (queuetail q)))) in
    rw (dequeue-eq x xs h) (
      refl,
      Holds-aside t1 (cleared t1 x) q xs x (λ j p. ground arith) (λ j p. ground arith) h.procs.0
          (All-map xs (λ j p e. p (sym e)) h.distinct.0) rest,
    )

-- No key changes.
pub dequeue-key : (t : Qtab) (q j : ℕ) → ((dequeue t q).0 j).key ≡ (t j).key
unfolding dequeue getfirst getitem
dequeue-key t q j = ground arith

pub getitem-key : (t : Qtab) (pid j : ℕ) → ((getitem t pid).0 j).key ≡ (t j).key
unfolding getitem
getitem-key t pid j = ground arith

pub enqueue-key :
    (t : Qtab) (bad : Bool) (pid q j : ℕ) → ((enqueue t bad pid q).0 j).key ≡ (t j).key
unfolding enqueue
enqueue-key t bad pid q j = ground arith

-- `dequeue` of a queue that is not empty returns its first process and leaves the others in their
-- order; every other queue of the table stays.
pub dequeue_lem :
    {t : Qtab} {q : ℕ} (x : ℕ) (xs : List ℕ) {q' : ℕ} {zs : List ℕ}
    → Holds t q (x ∷ xs)
    → Beside t q (x ∷ xs) x q' zs
    → let (t', r) = dequeue t q in (r ≡ x) × Holds t' q xs × Holds t' q' zs
dequeue_lem {t} {q} x xs {q'} {zs} h o =
    let (same, rest, others) = getitem_lem [] xs x h o in
    rw (dequeue-eq x xs h) (
      refl,
      Holds-aside t1 (cleared t1 x) q xs x (λ j p. ground arith) (λ j p. ground arith) h.procs.0
          (All-map xs (λ j p e. p (sym e)) h.distinct.0) rest,
      Holds-aside t1 (cleared t1 x) q' zs x (λ j p. ground arith) (λ j p. ground arith) h.procs.0
          o.without others,
    )
  where
    t1 : Qtab
    t1 = (getitem t x).0

-- On an empty queue `dequeue`, `getfirst` and `getlast` return EMPTY and change nothing.
remove_empty :
    {t : Qtab} {q : ℕ}
    → Holds t q []
    → (dequeue t q ≡ (t, empty)) × (getfirst t q ≡ (t, empty)) × (getlast t q ≡ (t, empty))
unfolding dequeue getfirst getlast
remove_empty {t} {q} h =
    let e = isempty-nil h in
    let b = isbadqid-Holds h in (ground (arith, e, b), ground (arith, e), ground (arith, e))

isempty-append :
    {t : Qtab} {q : ℕ} (xs : List ℕ) (x : ℕ) → Holds t q (xs ++ (x ∷ [])) → isempty t q ≡ false
isempty-append [] x h = isempty-cons h
isempty-append (y ∷ xs) x h = isempty-cons h

last_or-append : (q : ℕ) (xs : List ℕ) (x : ℕ) → last_or q (xs ++ (x ∷ [])) ≡ x
last_or-append q [] x = refl
last_or-append q (y ∷ xs) x = last_or-append y xs x

getlast-eq :
    {t : Qtab} {q : ℕ} (xs : List ℕ) (x : ℕ)
    → Holds t q (xs ++ (x ∷ []))
    → getlast t q ≡ getitem t x
unfolding getlast
getlast-eq {t} {q} xs x h = rw (
  isempty-append xs x h,
  prev-Chain t q (xs ++ (x ∷ [])) [] (queuetail q) (rw (append-nil (xs ++ (x ∷ []))) h.chain),
  last_or-append q xs x,
)

-- `getlast` of a queue that is not empty returns its last process and leaves the others in their
-- order; every other queue of the table stays.
getlast_lem :
    {t : Qtab} {q : ℕ} (xs : List ℕ) (x : ℕ) {q' : ℕ} {zs : List ℕ}
    → Holds t q (xs ++ (x ∷ []))
    → Beside t q (xs ++ (x ∷ [])) x q' zs
    → let (t', r) = getlast t q in (r ≡ x) × Holds t' q xs × Holds t' q' zs
getlast_lem {t} {q} xs x {q'} {zs} h o =
    let (same, rest, others) = getitem_lem xs [] x h o in
    rw (getlast-eq xs x h) (same, rw (append-nil xs) at rest, others)

-- ===== src/Kernel/Switch.antt =====
-- The ready list, and which process `resched` and `ready` make current.
use os_xinu.Prelude.{
  sym, if◌then◌else◌, ◌⊎◌, ℕ, ◌<◌, ◌≤◌, ◌≡◌, ◌≢◌, refl, ap, ◌∙◌, arith, List, ◌∷◌, ◌++◌,
}
use os_xinu.Prelude.{All, All-map, zip_All, true, false, ltb}
use os_xinu.Prelude.{Bool-cases, inl, inr, All-insert, cons-append}
use mathlib.Core.Path.{subst}
use os_xinu.Queue.{nproc, bias, min_key, queuetail, firstkey, insert, dequeue}
use os_xinu.Queue.Frame.{Holds}
use os_xinu.Queue.Fifo.{dequeue_own, dequeue-key}
use os_xinu.Queue.Order.{
  Descending, Descending-frame, front-above, front, rest, front-append-rest, insert_own, insert-key,
}
use os_xinu.Kernel.{Kernel, PrState, is_curr, isbadpid, set_state}
use os_xinu.Kernel.Untouched.{Same, resched-Same, ready-Same}
use os_xinu.Kernel.Sched.{requeue, dispatch, resched, ready}

-- The ready list holds the processes `rs`, all marked ready, with their priorities, in descending
-- order, as keys.
pub record Ready (k : Kernel) (rs : List ℕ) : Type 0 where
  pub list : Holds k.queuetab k.readylist rs
  pub sorted : Descending k.queuetab rs
  pub tail : (k.queuetab (queuetail k.readylist)).key ≡ min_key
  pub states : All (λ j. (k.proctab j).prstate ≡ PrState.pr_ready) rs
  pub prios : All (λ j. (k.queuetab j).key ≡ (k.proctab j).prprio) rs

-- The current process of `k` is marked current and no ready process has a greater priority.
pub record Highest (k : Kernel) (rs : List ℕ) : Type 0 where
  pub current : (k.proctab k.currpid).prstate ≡ PrState.pr_curr
  pub highest : All (λ j. bias (k.proctab j).prprio ≤ bias (k.proctab k.currpid).prprio) rs

-- The first process of the ready list becomes current.
pub dispatch_lem :
    (k : Kernel) (r : ℕ) (rs : List ℕ)
    → Ready k (r ∷ rs)
    → ((dispatch k).currpid ≡ r) × Ready (dispatch k) rs × Highest (dispatch k) rs
unfolding dispatch
dispatch_lem k r rs h =
    let own = dequeue_own r rs h.list in
    rw own.0 (
      refl,
      record {
        list = own.1;
        sorted =
            Descending-frame k.queuetab (dequeue k.queuetab k.readylist).0 rs
              (All-map rs (λ j p. dequeue-key k.queuetab k.readylist j) h.states.1) h.sorted.1;
        tail = dequeue-key k.queuetab k.readylist (queuetail k.readylist) ∙ h.tail;
        states =
            All-map rs (λ j p. ground arith)
              (zip_All (λ j. (k.proctab j).prstate ≡ PrState.pr_ready) (λ j. r ≢ j) rs h.states.1
                h.list.distinct.0);
        prios = All-map rs (λ j p. ground (arith, dequeue-key k.queuetab k.readylist j)) h.prios.1;
      },
      record {
        current = ground arith;
        highest =
            All-map rs (λ j p. ground (arith, h.prios.0))
              (zip_All (λ j. bias (k.queuetab j).key ≤ bias (k.queuetab r).key)
                (λ j. (k.queuetab j).key ≡ (k.proctab j).prprio) rs h.sorted.0 h.prios.1);
      },
    )

-- Where the current process goes in the ready list: behind those of its priority.
abbrev pub placed : Kernel → ℕ → List ℕ → List ℕ
placed k p rs =
    front k.queuetab (k.proctab p).prprio rs ++ (p ∷ rest k.queuetab (k.proctab p).prprio rs)

-- Process `p` is marked ready and inserted into the ready list.
abbrev pub queued : Kernel → ℕ → Kernel
queued k p =
    let k1 = set_state k p PrState.pr_ready in
    record k1 { queuetab = (insert k1.queuetab false p k1.readylist (k.proctab p).prprio).0 }

pub queued_lem :
    (k : Kernel) (p : ℕ) (rs : List ℕ)
    → Ready k rs
    → p < nproc
    → All (λ j. j ≢ p) rs
    → 0 < bias (k.proctab p).prprio
    → Ready (queued k p) (placed k p rs)
queued_lem k p rs h lt new b =
    let prio = (k.proctab p).prprio in
    let own = insert_own rs p prio h.list h.sorted h.tail b lt new in
    let key = insert-key rs p prio h.list h.tail b in
    let e = front-append-rest k.queuetab prio rs in
    record {
      list = own.1;
      sorted = own.2;
      tail = key (queuetail k.readylist) (omega (arith, h.list.above)) ∙ h.tail;
      states =
          All-insert (λ j. ((queued k p).proctab j).prstate ≡ PrState.pr_ready)
            (front k.queuetab prio rs) (rest k.queuetab prio rs) p
            (rw e (All-map rs (λ j s. ground arith) h.states)) (ground arith);
      prios =
          All-insert (λ j. ((queued k p).queuetab j).key ≡ ((queued k p).proctab j).prprio)
            (front k.queuetab prio rs) (rest k.queuetab prio rs) p
            (rw e (
              All-map rs (λ j q. key j q.1 ∙ q.0 ∙ ground arith)
                (zip_All (λ j. (k.queuetab j).key ≡ (k.proctab j).prprio) (λ j. j ≢ p) rs h.prios
                  new)))
            (own.3 ∙ ground arith);
    }

pub requeue-eq : (k : Kernel) → k.currpid < nproc → requeue k ≡ queued k k.currpid
unfolding requeue
requeue-eq k lt =
    let k1 = set_state k k.currpid PrState.pr_ready in
    let valid : isbadpid k1 k.currpid ≡ false = ground arith in
    let same : (k1.proctab k.currpid).prprio ≡ (k.proctab k.currpid).prprio = ground arith in
    ap
      (λ bad. record k1 {
        queuetab = (insert k1.queuetab bad k.currpid k1.readylist (k1.proctab k.currpid).prprio).0;
      })
      valid
    ∙ ap (λ prio. record k1 { queuetab = (insert k1.queuetab false k.currpid k1.readylist prio).0 })
        same

pub is_curr-eq : (st : PrState) → is_curr st ≡ true → st ≡ PrState.pr_curr
is_curr-eq PrState.pr_curr h = refl
is_curr-eq st h = cc

pub below-first :
    (k : Kernel) (m r : ℕ) (rs : List ℕ)
    → Ready k (r ∷ rs)
    → bias (k.queuetab r).key < m
    → All (λ j. bias (k.proctab j).prprio ≤ m) (r ∷ rs)
below-first k m r rs h l = (
  omega (arith, ap bias h.prios.0),
  All-map rs (λ j p. omega (arith, ap bias p.1))
      (zip_All (λ j. bias (k.queuetab j).key ≤ bias (k.queuetab r).key)
        (λ j. (k.queuetab j).key ≡ (k.proctab j).prprio) rs h.sorted.0 h.prios.1),
)

-- The processes that may be current, the first of them next: the ready list, and in it the current process if it can go on.
abbrev pub contenders : Kernel → List ℕ → List ℕ
contenders k rs = if is_curr (k.proctab k.currpid).prstate then placed k k.currpid rs else rs

-- The states after `resched`: only the two current processes change theirs, the old one only if it could go on.
abbrev pub Unmoved : Kernel → Kernel → Type 0
Unmoved k k' =
    (j : ℕ)
    → j ≢ k'.currpid
    → ((j ≢ k.currpid) ⊎ (is_curr (k.proctab k.currpid).prstate ≡ false))
    → (k'.proctab j).prstate ≡ (k.proctab j).prstate

dispatch-state :
    (k : Kernel) (j : ℕ)
    → j ≢ (dispatch k).currpid
    → ((dispatch k).proctab j).prstate ≡ (k.proctab j).prstate
unfolding dispatch
dispatch-state k j n = ground arith

queued-state :
    (k : Kernel) (p j : ℕ) → j ≢ p → ((queued k p).proctab j).prstate ≡ (k.proctab j).prstate
queued-state k p j n = ground arith

placed_above :
    (k : Kernel) (p r : ℕ) (rs : List ℕ)
    → bias (k.queuetab r).key < bias (k.proctab p).prprio
    → placed k p (r ∷ rs) ≡ p ∷ r ∷ rs
placed_above k p r rs l =
    let f = front-above k.queuetab (k.proctab p).prprio r rs l in rw (f.0, f.1) refl

-- With rescheduling not deferred, a ready list that is not empty and the current process outside it, whatever its state,
-- with a priority above the least: put the current process into the ready list behind those of at least its priority, if it is marked
-- current. After `resched` the current process and the ready list are this list, its first and the others in order. The current process
-- is marked current, the others on the list are marked ready, none has a greater priority, and their keys are
-- their priorities; every other process keeps its state, and semaphores, messages and priorities stay.
pub resched_lem :
    (k : Kernel) (r : ℕ) (rs : List ℕ)
    → Ready k (r ∷ rs)
    → k.ndefers ≡ 0
    → k.currpid < nproc
    → All (λ j. j ≢ k.currpid) (r ∷ rs)
    → 0 < bias (k.proctab k.currpid).prprio
    → (xs : List ℕ) × ((resched k).currpid ∷ xs ≡ contenders k (r ∷ rs))
      × Ready (resched k) xs
      × Highest (resched k) xs
      × Unmoved k (resched k)
      × Same k (resched k)
unfolding resched
resched_lem k r rs h nd lt new b =
    let t : ltb 0 k.ndefers ≡ false = ground arith in
    let same = resched-Same k in
    elim (Bool-cases (is_curr (k.proctab k.currpid).prstate)) [
      | inl c ↦
          elim (Bool-cases
            (ltb (bias (firstkey k.queuetab k.readylist)) (bias (k.proctab k.currpid).prprio))) [
              | inl g ↦
                  let l : bias (k.queuetab r).key < bias (k.proctab k.currpid).prprio =
                    ground (arith, h.list.chain.0) in
                  rw (t, c, g)
                    (
                      r ∷ rs,
                      sym (placed_above k k.currpid r rs l),
                      h,
                      record {
                        current = is_curr-eq (k.proctab k.currpid).prstate c;
                        highest = below-first k (bias (k.proctab k.currpid).prprio) r rs h l;
                      },
                      (λ j n o. refl),
                      rw (t, c, g) at same,
                    )
              | inr g ↦
                  let q = queued_lem k k.currpid (r ∷ rs) h lt new b in
                  let (x, xs, e) =
                    cons-append (front k.queuetab (k.proctab k.currpid).prprio (r ∷ rs)) k.currpid
                      (rest k.queuetab (k.proctab k.currpid).prprio (r ∷ rs)) in
                  let d =
                    dispatch_lem (queued k k.currpid) x xs
                      (subst (Ready (queued k k.currpid)) e q) in
                  rw (t, c, g, requeue-eq k lt)
                    (
                      xs,
                      ap (λ y. y ∷ xs) d.0 ∙ sym e,
                      d.1,
                      d.2,
                      (λ j n o. dispatch-state (queued k k.currpid) j n ∙ elim o [
                        | inl m ↦ queued-state k k.currpid j m
                        | inr m ↦ absurd (cc (m))
                      ]),
                      rw (t, c, g, requeue-eq k lt) at same,
                    )
            ]
      | inr c ↦
          let d = dispatch_lem k r rs h in
          rw (t, c)
            (rs, ap (λ y. y ∷ rs) d.0, d.1, d.2, (λ j n o. dispatch-state k j n), rw (t, c) at same)
    ]

pub ready-eq :
    (k : Kernel) (pid : ℕ) → isbadpid k pid ≡ false → ready k pid ≡ (resched (queued k pid), true)
unfolding ready
ready-eq k pid b =
    let k1 = set_state k pid PrState.pr_ready in
    let valid : isbadpid k1 pid ≡ false = ground (arith, b) in
    let same : (k1.proctab pid).prprio ≡ (k.proctab pid).prprio = ground arith in
    rw b (
      ap
        (λ bad. (
          resched (record k1 {
            queuetab = (insert k1.queuetab bad pid k1.readylist (k1.proctab pid).prprio).0;
          }),
          true,
        ))
        valid
      ∙ ap
          (λ prio. (
            resched (record k1 { queuetab = (insert k1.queuetab false pid k1.readylist prio).0 }),
            true,
          ))
          same)

-- A process that is neither current nor on the ready list, with rescheduling not deferred and priorities above the
-- least: put the process into the ready list behind those of at least its priority, and then, if it is marked current, the current
-- process in the same way. `ready` returns OK, and afterwards the current process and the ready list are this list, its
-- first and the others in order. The current process is marked current, the others on the list are marked ready, none has a greater
-- priority, and their keys are their priorities; every process but pid and the two current ones keeps its state, and semaphores, messages
-- and priorities stay.
pub ready_lem :
    (k : Kernel) (pid : ℕ) (rs : List ℕ)
    → isbadpid k pid ≡ false
    → pid < nproc
    → pid ≢ k.currpid
    → Ready k rs
    → All (λ j. j ≢ pid) rs
    → All (λ j. j ≢ k.currpid) rs
    → k.ndefers ≡ 0
    → k.currpid < nproc
    → 0 < bias (k.proctab pid).prprio
    → 0 < bias (k.proctab k.currpid).prprio
    → let (k', accepted) = ready k pid in
      (accepted ≡ true)
      × (xs : List ℕ) × (k'.currpid ∷ xs ≡ contenders (queued k pid) (placed k pid rs))
      × Ready k' xs
      × Highest k' xs
      × ((j : ℕ)
          → j ≢ pid
          → j ≢ k.currpid
          → j ≢ k'.currpid
          → (k'.proctab j).prstate ≡ (k.proctab j).prstate)
      × Same k k'
ready_lem k pid rs b lt ne h new away nd clt bp bc =
    let fs = front k.queuetab (k.proctab pid).prprio rs in
    let bs = rest k.queuetab (k.proctab pid).prprio rs in
    let (x, xs, e) = cons-append fs pid bs in
    let all : All (λ j. j ≢ k.currpid) (placed k pid rs) =
      All-insert (λ j. j ≢ k.currpid) fs bs pid
        (rw (front-append-rest k.queuetab (k.proctab pid).prprio rs) away) ne in
    let same = ready-Same k pid in
    let r =
      resched_lem (queued k pid) x xs
        (subst (Ready (queued k pid)) e (queued_lem k pid rs h lt new bp)) nd clt
        (subst (All (λ j. j ≢ k.currpid)) e all) (ground arith) in
    rw (ready-eq k pid b) (
      refl,
      r.0,
      r.1 ∙ ap (contenders (queued k pid)) (sym e),
      r.2,
      r.3,
      (λ j n o m. r.4 j m (inl o) ∙ queued-state k pid j n),
      rw (ready-eq k pid b) at same,
    )

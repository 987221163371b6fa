-- ===== src/Kernel/Blocking.antt =====
-- system/wait.c on a semaphore whose count does not allow the caller to go on.
use os_xinu.Prelude.{ℕ, ◌<◌, ◌≡◌, ◌≢◌, refl, sym, ap, ◌∙◌, arith, List, [], ◌∷◌, ◌++◌}
use os_xinu.Prelude.{All, All-map, zip_All, All-append, true, false, ltb, not, ◌||◌}
use os_xinu.Queue.{nproc, queuetail, is_negative, enqueue}
use os_xinu.Queue.Frame.{Holds, Beside}
use os_xinu.Queue.Fifo.{enqueue_lem, dequeue_lem, enqueue-key}
use os_xinu.Queue.Order.{Descending-frame}
use os_xinu.Kernel.{Kernel, PrState, is_curr, isbadpid, isbadsem, sub32, set_proc, set_count}
use os_xinu.Kernel.Sched.{dispatch, resched}
use os_xinu.Kernel.Sem.{block, wait}
use os_xinu.Kernel.Switch.{Ready, Highest, dispatch_lem}

-- The caller marked and queued.
abbrev pub marked : Kernel → ℕ → Kernel
marked k sem =
    set_proc k k.currpid (record (k.proctab k.currpid) { prstate = PrState.pr_wait; prsem = sem })

abbrev pub blocked : Kernel → ℕ → ℕ → Kernel
blocked k sem q = record (marked k sem) { queuetab = (enqueue k.queuetab false k.currpid q).0 }

resched-away :
    (k : Kernel)
    → ltb 0 k.ndefers ≡ false
    → is_curr (k.proctab k.currpid).prstate ≡ false
    → resched k ≡ dispatch k
unfolding resched
resched-away k t c = rw (t, c)

block-eq :
    (k : Kernel) (sem q : ℕ)
    → (k.semtab sem).squeue ≡ q
    → k.ndefers ≡ 0
    → k.currpid < nproc
    → block k sem ≡ dispatch (blocked k sem q)
unfolding block
block-eq k sem q e d lt =
    let valid : isbadpid (marked k sem) k.currpid ≡ false = ground arith in
    ap
      (λ bad. resched (record (marked k sem) {
        queuetab = (enqueue k.queuetab bad k.currpid (k.semtab sem).squeue).0;
      }))
      valid
    ∙ ap (λ q. resched (blocked k sem q)) e
    ∙ resched-away (blocked k sem q) (ground arith) (ground arith)

-- The caller counted.
abbrev pub counted : Kernel → ℕ → Kernel
counted k sem = set_count k sem (sub32 (k.semtab sem).scount 1)

pub wait-eq :
    (k : Kernel) (sem : ℕ)
    → isbadsem sem ≡ false
    → (k.semtab sem).used ≡ true
    → is_negative (sub32 (k.semtab sem).scount 1) ≡ true
    → k.ndefers ≡ 0
    → k.currpid < nproc
    → wait k sem ≡ (dispatch (blocked (counted k sem) sem (k.semtab sem).squeue), true)
unfolding wait
wait-eq k sem b u n d lt =
    let c : is_negative ((counted k sem).semtab sem).scount ≡ true = ground arith in
    let g : (isbadsem sem || not (k.semtab sem).used) ≡ false = ground (arith, b, u) in
    simp (g, c, block-eq (counted k sem) sem (k.semtab sem).squeue (ground arith) d lt)

pub blocked-Ready :
    (k : Kernel) (sem q : ℕ) (rs : List ℕ)
    → Holds (blocked k sem q).queuetab k.readylist rs
    → Ready k rs
    → All (λ j. j ≢ k.currpid) rs
    → Ready (blocked k sem q) rs
blocked-Ready k sem q rs list h new =
    let same = enqueue-key k.queuetab false k.currpid q in
    record {
      list = list;
      sorted =
          Descending-frame k.queuetab (blocked k sem q).queuetab rs
            (All-map rs (λ j p. same j) h.states) h.sorted;
      tail = same (queuetail k.readylist) ∙ h.tail;
      states =
          All-map rs (λ j p. ground arith)
            (zip_All (λ j. (k.proctab j).prstate ≡ PrState.pr_ready) (λ j. j ≢ k.currpid) rs
              h.states new);
      prios =
          All-map rs (λ j p. same j ∙ p.0 ∙ ground arith)
            (zip_All (λ j. (k.queuetab j).key ≡ (k.proctab j).prprio) (λ j. j ≢ k.currpid) rs
              h.prios new);
    }

-- Blocking on a semaphore whose queue is another than the ready list.
block_lem :
    (k : Kernel) (sem q : ℕ) (xs : List ℕ) (r : ℕ) (rs : List ℕ)
    → k.currpid < nproc
    → Holds k.queuetab q xs
    → All (λ j. j ≢ k.currpid) xs
    → Ready k (r ∷ rs)
    → Beside k.queuetab q xs k.currpid k.readylist (r ∷ rs)
    → q ≢ k.readylist
    → All (λ x. All (λ j. x ≢ j) (r ∷ rs)) xs
    → let k' = dispatch (blocked k sem q) in
      (k'.currpid ≡ r)
      × Holds k'.queuetab q (xs ++ (k.currpid ∷ []))
      × Ready k' rs
      × Highest k' rs
      × ((k'.proctab k.currpid).prstate ≡ PrState.pr_wait)
      × ((k'.proctab k.currpid).prsem ≡ sem)
unfolding dispatch
block_lem k sem q xs r rs lt h new ready o ne apart =
    let e = enqueue_lem xs k.currpid h lt new o in
    let d =
      dispatch_lem (blocked k sem q) r rs (blocked-Ready k sem q (r ∷ rs) e.2 ready o.without) in
    let fore : All (λ x. All (λ j. x ≢ j) (r ∷ rs)) (xs ++ (k.currpid ∷ [])) =
      All-append (λ x. All (λ j. x ≢ j) (r ∷ rs)) xs (k.currpid ∷ []) apart
        (All-map (r ∷ rs) (λ j n g. n (sym g)) o.without, tt) in
    let dq = dequeue_lem r rs e.2 (record {
      held = e.1;
      heads = ne;
      without = All-map (xs ++ (k.currpid ∷ [])) (λ j n. n.0) fore;
      disjoint = fore;
    }) in
    let away = o.without.0 in (d.0, dq.2, d.1, d.2, ground (arith, dq.0), ground (arith, dq.0))

-- A process that waits on a semaphore whose count does not let it pass, with a process ready and
-- rescheduling not deferred: `wait` returns OK, the count is one less, the caller stands last in
-- the queue of the semaphore and is marked as waiting for it, the first process of the ready list
-- is current in its place, and the ready list keeps the others in order, none above the new one.
pub wait_blocks :
    (k : Kernel) (sem : ℕ) (xs : List ℕ) (r : ℕ) (rs : List ℕ)
    → isbadsem sem ≡ false
    → (k.semtab sem).used ≡ true
    → is_negative (sub32 (k.semtab sem).scount 1) ≡ true
    → k.ndefers ≡ 0
    → k.currpid < nproc
    → Holds k.queuetab (k.semtab sem).squeue xs
    → All (λ j. j ≢ k.currpid) xs
    → Ready k (r ∷ rs)
    → Beside k.queuetab (k.semtab sem).squeue xs k.currpid k.readylist (r ∷ rs)
    → (k.semtab sem).squeue ≢ k.readylist
    → All (λ x. All (λ j. x ≢ j) (r ∷ rs)) xs
    → let (k', accepted) = wait k sem in
      (accepted ≡ true)
      × (k'.currpid ≡ r)
      × Holds k'.queuetab (k.semtab sem).squeue (xs ++ (k.currpid ∷ []))
      × Ready k' rs
      × Highest k' rs
      × ((k'.proctab k.currpid).prstate ≡ PrState.pr_wait)
      × ((k'.proctab k.currpid).prsem ≡ sem)
      × ((k'.semtab sem).scount ≡ sub32 (k.semtab sem).scount 1)
unfolding dispatch
wait_blocks k sem xs r rs b u n d lt h new ready o ne apart =
    let l =
      block_lem (counted k sem) sem (k.semtab sem).squeue xs r rs lt h new ready' o ne apart in
    rw (wait-eq k sem b u n d lt) (refl, l.0, l.1, l.2, l.3, l.4, l.5, ground arith)
  where
    ready' : Ready (counted k sem) (r ∷ rs)
    ready' = record {
      list = ready.list;
      sorted = ready.sorted;
      tail = ready.tail;
      states = ready.states;
      prios = ready.prios;
    }

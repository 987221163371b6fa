-- ===== src/Kernel/Invariant/Semaphores.antt =====
-- system/wait.c and signal.c.
use os_xinu.Prelude.{
  sym, ℕ, ◌<◌, ◌≡◌, ◌≢◌, inl, inr, refl, ◌∙◌, ap, arith, List, [], ◌∷◌, ◌++◌, length, length-append,
}
use os_xinu.Prelude.{All-map, All-append, zip_All, true, false, if◌then◌else◌, ◌==◌, Bool-cases}
use mathlib.Core.Path.{subst}
use os_xinu.Queue.{nsem, is_negative}
use os_xinu.Queue.Fifo.{enqueue_lem}
use os_xinu.Kernel.{Kernel, PrState, isbadsem, sub32, set_count}
use os_xinu.Kernel.Sched.{dispatch}
use os_xinu.Kernel.Sem.{wait}
use os_xinu.Kernel.Switch.{Ready}
use os_xinu.Kernel.Blocking.{counted, blocked, wait-eq, blocked-Ready}
use os_xinu.Kernel.Calls.{wait-passes}
use os_xinu.Kernel.Invariant.{
  Count, Waiting, Queued, Member, Sound, Waiting-frame, outside_ready, outside_waits,
  Beside-readylist, Beside-waits, waits-le,
}
use os_xinu.Kernel.Invariant.Moves.{dispatch-Sound}

-- The waiting processes with those of one semaphore changed.
abbrev pub put : (ℕ → List ℕ) → ℕ → List ℕ → ℕ → List ℕ
put W s ws j = if s == j then ws else W j

-- A change of one semaphore and its queue.
pub Queued-put :
    (k k' : Kernel) (rs : List ℕ) (Q : ℕ → ℕ) (W : ℕ → List ℕ) (sem : ℕ) (ws : List ℕ)
    → Queued k rs Q W
    → k'.readylist ≡ k.readylist
    → Ready k' rs
    → ((j : ℕ) → (k'.proctab j).prprio ≡ (k.proctab j).prprio)
    → k'.currpid ≡ k.currpid
    → ((j : ℕ) (st : PrState)
        → st ≢ PrState.pr_wait
        → (k'.proctab j).prstate ≡ st
        → (k.proctab j).prstate ≡ st)
    → Waiting k' (Q sem) sem ws
    → ((s : ℕ) → s < nsem → s ≢ sem → Waiting k' (Q s) s (W s))
    → Queued k' rs Q (put W sem ws)
Queued-put k k' rs Q W sem ws p l r b c f w o = record {
  ready = r;
  waits = λ s lt. elim (Bool-cases (sem == s)) [
    | inl e ↦ let same : sem ≡ s = ground arith in rw e (subst (λ i. Waiting k' (Q i) i ws) same w)
    | inr e ↦ rw e (o s lt (ground arith))
  ];
  head = λ s lt. rw l (p.head s lt);
  heads = p.heads;
  listed = λ j lt e. p.listed j lt (f j PrState.pr_ready (λ z. cc z) e);
  single = λ j e. p.single j (f j PrState.pr_curr (λ z. cc z) e) ∙ sym c;
  prios = λ j lt. rw (b j) (p.prios j lt);
}

-- A change of one count.
pub set_count-Queued :
    (k : Kernel) (rs : List ℕ) (Q : ℕ → ℕ) (W : ℕ → List ℕ) (sem c : ℕ)
    → Queued k rs Q W
    → sem < nsem
    → Count (record (k.semtab sem) { scount = c }) (length (W sem))
    → Queued (set_count k sem c) rs Q (put W sem (W sem))
set_count-Queued k rs Q W sem c p lt n =
    let w = p.waits sem lt in
    Queued-put k (set_count k sem c) rs Q W sem (W sem) p refl
      (record {
        list = p.ready.list;
        sorted = p.ready.sorted;
        tail = p.ready.tail;
        states = p.ready.states;
        prios = p.ready.prios;
      })
      (λ j. refl) refl (λ j st n e. e)
      (record {
        queue = ground (arith, w.queue);
        held = w.held;
        marked = w.marked;
        count = record {
          range = ground (arith, n.range);
          number = ground (arith, n.number);
          unused = ground (arith, n.unused);
        };
      })
      (λ s ls ne.
        Waiting-frame k (set_count k sem c) (Q s) s (W s) (p.waits s ls) (ground arith)
          (p.waits s ls).held (All-map (W s) (λ j m. refl) (p.waits s ls).marked))

-- The caller joins the queue of the semaphore.
blocked-Queued :
    (k : Kernel) (rs : List ℕ) (Q : ℕ → ℕ) (W : ℕ → List ℕ) (sem : ℕ)
    → Sound k rs Q W
    → sem < nsem
    → is_negative (sub32 (k.semtab sem).scount 1) ≡ true
    → (k.semtab sem).used ≡ true
    → Queued (blocked (counted k sem) sem (Q sem)) rs Q (put W sem (W sem ++ (k.currpid ∷ [])))
blocked-Queued k rs Q W sem h lt neg u =
    let p = h.queued in
    let c = k.currpid in
    let w = p.waits sem lt in
    let k' = blocked (counted k sem) sem (Q sem) in
    let nr = outside_ready p c (λ e. cc (e, h.top.current)) in
    let nw = outside_waits p c (λ e. cc (e, h.top.current)) in
    let e = enqueue_lem (W sem) c w.held h.inside (nw sem lt) (Beside-readylist p sem c lt nr) in
    let ready' : Ready (counted k sem) rs = record {
      list = p.ready.list;
      sorted = p.ready.sorted;
      tail = p.ready.tail;
      states = p.ready.states;
      prios = p.ready.prios;
    } in
    Queued-put k k' rs Q W sem (W sem ++ (c ∷ [])) p refl
      (blocked-Ready (counted k sem) sem (Q sem) rs e.2 ready' nr) (λ j. ground arith) refl
      (λ j st n g. ground arith)
      (record {
        queue = ground (arith, w.queue);
        held = e.1;
        marked =
            All-append
              (λ j. ((k'.proctab j).prstate ≡ PrState.pr_wait) × ((k'.proctab j).prsem ≡ sem))
              (W sem) (c ∷ [])
              (All-map (W sem) (λ j m. (ground arith, ground arith))
                (zip_All (λ j. j ≢ c)
                  (λ j. ((k.proctab j).prstate ≡ PrState.pr_wait) × ((k.proctab j).prsem ≡ sem))
                  (W sem) (nw sem lt) w.marked))
              ((ground arith, ground arith), tt);
        count = record {
          range = ground arith;
          number = ground (arith, w.count.number, w.count.range, length-append (W sem) (c ∷ []));
          unused = ground (arith, u);
        };
      })
      (λ s ls ne.
        let q =
          enqueue_lem (W sem) c w.held h.inside (nw sem lt)
            (Beside-waits p sem s c lt ls ne (nw s ls)) in
        Waiting-frame k k' (Q s) s (W s) (p.waits s ls) (ground arith) q.2
          (All-map (W s) (λ j m. ground arith) (nw s ls)))

-- `wait` by the current process, which is not the null process, on a semaphore in use: every
-- queue, every count and every mark of a process agree again afterwards. The processes that wait
-- are those from before, behind them the caller if the count is now below zero; nobody else's
-- waiting changes.
pub wait-Sound :
    (k : Kernel) (rs : List ℕ) (Q : ℕ → ℕ) (W : ℕ → List ℕ) (sem : ℕ)
    → Sound k rs Q W
    → isbadsem sem ≡ false
    → (k.semtab sem).used ≡ true
    → k.currpid ≢ 0
    → let blocks = is_negative (sub32 (k.semtab sem).scount 1) in
      (xs : List ℕ) × Sound
        (wait k sem).0
        xs
        Q
        (put W sem (if blocks then W sem ++ (k.currpid ∷ []) else W sem))
wait-Sound k rs Q W sem h b u ne =
    let p = h.queued in
    let lt : sem < nsem = ground (arith, b) in
    let w = p.waits sem lt in
    elim (Bool-cases (is_negative (sub32 (k.semtab sem).scount 1))) [
      | inl n ↦
          let e =
            wait-eq k sem b u n h.prompt h.inside
            ∙ ap (λ q. (dispatch (blocked (counted k sem) sem q), true)) w.queue in
          let m : Member 0 rs = elim h.null [ inl z ↦ absurd (ne z) | inr z ↦ z ] in
          rw (n, e)
            (dispatch-Sound (blocked (counted k sem) sem (Q sem)) rs Q
              (put W sem (W sem ++ (k.currpid ∷ []))) (blocked-Queued k rs Q W sem h lt n u) m
              (ground arith) h.prompt)
      | inr n ↦
          let c = sub32 (k.semtab sem).scount 1 in
          let few = waits-le p sem lt in
          rw (n, wait-passes k sem b u n)
            (
              rs,
              record {
                queued = set_count-Queued k rs Q W sem c p lt (record {
                  range = omega arith;
                  number = ground (arith, w.count.number, w.count.range, few);
                  unused = ground (arith, w.count.unused);
                });
                top = record { current = h.top.current; highest = h.top.highest };
                inside = h.inside;
                null = h.null;
                prompt = h.prompt;
              },
            )
    ]

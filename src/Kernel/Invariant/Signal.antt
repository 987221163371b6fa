-- ===== src/Kernel/Invariant/Signal.antt =====
-- system/signal.c.
use os_xinu.Prelude.{
  ℕ, ◌-◌, ◌^◌, ◌<◌, ◌≡◌, ◌≢◌, inl, inr, refl, sym, ◌∙◌, ap, arith, List, [], ◌∷◌, length, drop,
}
use os_xinu.Prelude.{All, All-map, true, false, not, ◌||◌, if◌then◌else◌, ◌==◌, Bool-cases}
use mathlib.Core.Path.{subst}
use os_xinu.Queue.{nsem, is_negative, dequeue, queuetail}
use os_xinu.Queue.Frame.{Holds, Beside}
use os_xinu.Queue.Fifo.{dequeue_lem, dequeue-key}
use os_xinu.Queue.Order.{Descending-frame}
use os_xinu.Kernel.{Kernel, isbadsem, add32, set_count}
use os_xinu.Kernel.Sched.{ready}
use os_xinu.Kernel.Sem.{signal, signal_once, release_first}
use os_xinu.Kernel.Switch.{Ready}
use os_xinu.Kernel.Calls.{signal-passes}
use os_xinu.Kernel.Invariant.{
  Waiting, Queued, Sound, Waiting-frame, waits-apart_ready, waits-apart_waits, Beside-readylist,
  Beside-waits,
}
use os_xinu.Kernel.Invariant.Resched.{ready-Sound}
use os_xinu.Kernel.Invariant.Semaphores.{put, Queued-put, set_count-Queued}

-- The count raised and the first process taken from the queue `q`.
abbrev released : Kernel → ℕ → ℕ → Kernel
released k sem q = record (set_count k sem (add32 (k.semtab sem).scount 1)) {
  queuetab = (dequeue k.queuetab q).0;
}

release-eq :
    (k : Kernel) (sem q x : ℕ)
    → (k.semtab sem).squeue ≡ q
    → (dequeue k.queuetab q).1 ≡ x
    → release_first k sem ≡ (ready (record k { queuetab = (dequeue k.queuetab q).0 }) x).0
unfolding release_first
release-eq k sem q x e f =
    ap (λ i. (ready (record k { queuetab = (dequeue k.queuetab i).0 }) (dequeue k.queuetab i).1).0)
      e
    ∙ ap (λ i. (ready (record k { queuetab = (dequeue k.queuetab q).0 }) i).0) f

signal-eq :
    (k : Kernel) (sem q x : ℕ)
    → isbadsem sem ≡ false
    → (k.semtab sem).used ≡ true
    → is_negative (k.semtab sem).scount ≡ true
    → (k.semtab sem).squeue ≡ q
    → (dequeue k.queuetab q).1 ≡ x
    → signal k sem ≡ ((ready (released k sem q) x).0, true)
unfolding signal signal_once
signal-eq k sem q x b u n e f =
    let g : (isbadsem sem || not (k.semtab sem).used) ≡ false = ground (arith, b, u) in
    let k1 = set_count k sem (add32 (k.semtab sem).scount 1) in
    let same : (k1.semtab sem).squeue ≡ q = ground (arith, e) in
    simp (g, n) (ap (λ k. (k, true)) (release-eq k1 sem q x same f))

released-Ready :
    (k : Kernel) (sem q : ℕ) (rs : List ℕ)
    → Ready k rs
    → Holds (dequeue k.queuetab q).0 k.readylist rs
    → Ready (released k sem q) rs
released-Ready k sem q rs h list = record {
  list = list;
  sorted =
      Descending-frame k.queuetab (dequeue k.queuetab q).0 rs
        (All-map rs (λ j p. dequeue-key k.queuetab q j) h.states) h.sorted;
  tail = dequeue-key k.queuetab q (queuetail k.readylist) ∙ h.tail;
  states = h.states;
  prios = All-map rs (λ j p. dequeue-key k.queuetab q j ∙ p) h.prios;
}

-- The first process leaves the queue of the semaphore.
released-Queued :
    (k : Kernel) (rs : List ℕ) (Q : ℕ → ℕ) (W : ℕ → List ℕ) (sem x : ℕ) (ws : List ℕ)
    → Queued k rs Q W
    → sem < nsem
    → W sem ≡ x ∷ ws
    → (k.semtab sem).used ≡ true
    → is_negative (k.semtab sem).scount ≡ true
    → ((dequeue k.queuetab (Q sem)).1 ≡ x) × Queued (released k sem (Q sem)) rs Q (put W sem ws)
released-Queued k rs Q W sem x ws p lt e u n =
    let t = k.queuetab in
    let k' = released k sem (Q sem) in
    let w : Waiting k (Q sem) sem (x ∷ ws) = subst (Waiting k (Q sem) sem) e (p.waits sem lt) in
    let apart : All (λ j. All (λ z. j ≢ z) rs) (x ∷ ws) =
      subst (All (λ j. All (λ z. j ≢ z) rs)) e (waits-apart_ready p sem lt) in
    let nr : All (λ j. j ≢ x) rs = All-map rs (λ j a b. a (sym b)) apart.0 in
    let beside : Beside t (Q sem) (x ∷ ws) x k.readylist rs =
      subst (λ l. Beside t (Q sem) l x k.readylist rs) e (Beside-readylist p sem x lt nr) in
    let d = dequeue_lem x ws w.held beside in
    (
      d.0,
      Queued-put k k' rs Q W sem ws p refl (released-Ready k sem (Q sem) rs p.ready d.2) (λ j. refl)
          refl (λ j st n g. g)
          (record {
            queue = ground (arith, w.queue);
            held = d.1;
            marked = w.marked.1;
            count = record {
              range = ground arith;
              number = ground (arith, w.count.number, w.count.range);
              unused = ground (arith, u);
            };
          })
          (λ s ls ne.
            let other : All (λ j. All (λ z. j ≢ z) (W s)) (x ∷ ws) =
              subst (All (λ j. All (λ z. j ≢ z) (W s))) e
                (waits-apart_waits p s sem ls lt (λ q. ne (sym q))) in
            let ns : All (λ j. j ≢ x) (W s) = All-map (W s) (λ j a b. a (sym b)) other.0 in
            let q = dequeue_lem x ws w.held (
              subst (λ l. Beside t (Q sem) l x (Q s) (W s)) e
                (Beside-waits p sem s x lt ls ne ns)) in
            Waiting-frame k k' (Q s) s (W s) (p.waits s ls) (ground arith) q.2
              (All-map (W s) (λ j m. refl) (p.waits s ls).marked)),
    )

-- A waiting process is in no other queue and not current.
released-ready :
    (k : Kernel) (rs : List ℕ) (Q : ℕ → ℕ) (W : ℕ → List ℕ) (sem x : ℕ) (ws : List ℕ)
    → Sound k rs Q W
    → sem < nsem
    → W sem ≡ x ∷ ws
    → (k.semtab sem).used ≡ true
    → is_negative (k.semtab sem).scount ≡ true
    → (xs : List ℕ) × Sound (ready (released k sem (Q sem)) x).0 xs Q (put W sem ws)
released-ready k rs Q W sem x ws h lt e u n =
    let p = h.queued in
    let w : Waiting k (Q sem) sem (x ∷ ws) = subst (Waiting k (Q sem) sem) e (p.waits sem lt) in
    let wait = w.marked.0.0 in
    let inside = w.held.procs.0 in
    let apart : All (λ j. All (λ z. j ≢ z) rs) (x ∷ ws) =
      subst (All (λ j. All (λ z. j ≢ z) rs)) e (waits-apart_ready p sem lt) in
    ready-Sound (released k sem (Q sem)) x rs Q (put W sem ws)
      (released-Queued k rs Q W sem x ws p lt e u n).1
      (record { current = h.top.current; inside = h.inside; null = h.null; prompt = h.prompt })
      (ground arith) (λ q. cc (wait, h.top.current, ap k.proctab q))
      (All-map rs (λ j a b. a (sym b)) apart.0)
      (λ s ls. elim (Bool-cases (sem == s)) [
        | inl q ↦ rw q (All-map ws (λ j a b. a (sym b)) w.held.distinct.0)
        | inr q ↦
            let other : All (λ j. All (λ z. j ≢ z) (W s)) (x ∷ ws) =
              subst (All (λ j. All (λ z. j ≢ z) (W s))) e
                (waits-apart_waits p s sem ls lt (ground arith)) in
            rw q (All-map (W s) (λ j a b. a (sym b)) other.0)
      ])

signal-wakes :
    (k : Kernel) (rs : List ℕ) (Q : ℕ → ℕ) (W : ℕ → List ℕ) (sem : ℕ) (ws : List ℕ)
    → W sem ≡ ws
    → Sound k rs Q W
    → isbadsem sem ≡ false
    → (k.semtab sem).used ≡ true
    → is_negative (k.semtab sem).scount ≡ true
    → (xs : List ℕ) × Sound (signal k sem).0 xs Q (put W sem (drop 1 ws))
signal-wakes k rs Q W sem [] e h b u n =
    let w = h.queued.waits sem (ground (arith, b)) in
    absurd (ground (arith, w.count.number, w.count.range, ap length e))
signal-wakes k rs Q W sem (x ∷ ws) e h b u n =
    let lt : sem < nsem = ground (arith, b) in
    let f = (released-Queued k rs Q W sem x ws h.queued lt e u n).0 in
    rw (signal-eq k sem (Q sem) x b u n (h.queued.waits sem lt).queue f)
      (released-ready k rs Q W sem x ws h lt e u n)

-- `signal` on a semaphore in use whose count is not the greatest `int32`: every queue, every count
-- and every mark of a process agree again afterwards. If the count was below zero, the first of
-- the waiting processes no longer waits; otherwise the same processes wait; nobody else's waiting
-- changes.
pub signal-Sound :
    (k : Kernel) (rs : List ℕ) (Q : ℕ → ℕ) (W : ℕ → List ℕ) (sem : ℕ)
    → Sound k rs Q W
    → isbadsem sem ≡ false
    → (k.semtab sem).used ≡ true
    → (k.semtab sem).scount ≢ 2 ^ 31 - 1
    → let wakes = is_negative (k.semtab sem).scount in
      (xs : List ℕ) × Sound
        (signal k sem).0
        xs
        Q
        (put W sem (if wakes then drop 1 (W sem) else W sem))
signal-Sound k rs Q W sem h b u m =
    let lt : sem < nsem = ground (arith, b) in
    let p = h.queued in
    let w = p.waits sem lt in
    elim (Bool-cases (is_negative (k.semtab sem).scount)) [
      | inl n ↦ rw n (signal-wakes k rs Q W sem (W sem) refl h b u n)
      | inr n ↦
          let c = add32 (k.semtab sem).scount 1 in
          rw (n, signal-passes k sem b u n)
            (
              rs,
              record {
                queued = set_count-Queued k rs Q W sem c p lt (record {
                  range = omega arith;
                  number = ground (arith, w.count.number, w.count.range);
                  unused = ground (arith, w.count.unused);
                });
                top = record { current = h.top.current; highest = h.top.highest };
                inside = h.inside;
                null = h.null;
                prompt = h.prompt;
              },
            )
    ]

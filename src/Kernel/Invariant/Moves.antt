-- ===== src/Kernel/Invariant/Moves.antt =====
-- The moves of system/resched.c, ready.c and wait.c between the queues: a process is taken from
-- the ready list, put into it, or put into or taken from the queue of a semaphore.
use os_xinu.Prelude.{
  sym, ap, ℕ, ◌<◌, ◌≡◌, ◌≢◌, ◌⊎◌, inl, inr, refl, ◌∙◌, arith, List, [], ◌∷◌, ◌++◌,
}
use os_xinu.Prelude.{All, All-map, ◌==◌, Bool-cases}
use mathlib.Core.Path.{subst}
use os_xinu.Queue.{nproc, nsem}
use os_xinu.Queue.Fifo.{dequeue_lem}
use os_xinu.Queue.Order.{front, rest, front-append-rest, insert_lem}
use os_xinu.Kernel.{PrState, Kernel}
use os_xinu.Kernel.Sched.{dispatch}
use os_xinu.Kernel.Switch.{Highest, dispatch_lem, placed, queued, queued_lem}
use os_xinu.Kernel.Invariant.{Queued, Member, Sound, Waiting-frame, waits-apart_ready, Beside-ready}

-- Who stands in the ready list after a process has joined it.
pub Member-placed_old :
    (k : Kernel) (pid x : ℕ) (rs : List ℕ) → Member x rs → Member x (placed k pid rs)
Member-placed_old k pid x rs m h =
    let prio = (k.proctab pid).prprio in
    m (
      subst (All (λ j. j ≢ x)) (front-append-rest k.queuetab prio rs)
        (All-without (front k.queuetab prio rs) pid (rest k.queuetab prio rs) h))
  where
    All-without :
        (xs : List ℕ) (y : ℕ) (ys : List ℕ)
        → All (λ j. j ≢ x) (xs ++ (y ∷ ys))
        → All (λ j. j ≢ x) (xs ++ ys)
    All-without [] y ys h = h.1
    All-without (z ∷ xs) y ys h = (h.0, All-without xs y ys h.1)

pub Member-placed_new : (k : Kernel) (pid : ℕ) (rs : List ℕ) → Member pid (placed k pid rs)
Member-placed_new k pid rs h =
    among (front k.queuetab (k.proctab pid).prprio rs) (rest k.queuetab (k.proctab pid).prprio rs) h
  where
    among : (xs ys : List ℕ) → All (λ j. j ≢ pid) (xs ++ (pid ∷ ys)) → ⊥
    among [] ys h = h.0 refl
    among (z ∷ xs) ys h = among xs ys h.1

-- The first of a list, or another.
pub Member-cons : (x r : ℕ) (rs : List ℕ) → Member x (r ∷ rs) → (r ≡ x) ⊎ Member x rs
Member-cons x r rs m = elim (Bool-cases (r == x)) [
  | inl e ↦ inl (ground arith)
  | inr e ↦ inr (λ h. m (ground arith, h))
]

-- The first ready process becomes current.
pub dispatch-Queued :
    (k : Kernel) (r : ℕ) (rs : List ℕ) (Q : ℕ → ℕ) (W : ℕ → List ℕ)
    → Queued k (r ∷ rs) Q W
    → (k.proctab k.currpid).prstate ≢ PrState.pr_curr
    → Queued (dispatch k) rs Q W × ((dispatch k).currpid ≡ r) × Highest (dispatch k) rs
unfolding dispatch
dispatch-Queued k r rs Q W p away =
    let d = dispatch_lem k r rs p.ready in
    (
      record {
        ready = d.1;
        waits = λ s lt.
            let new : All (λ j. j ≢ r) (W s) =
              All-map (W s) (λ j n. n.0) (waits-apart_ready p s lt) in
            let q = dequeue_lem r rs p.ready.list (Beside-ready p s r lt new) in
            Waiting-frame k (dispatch k) (Q s) s (W s) (p.waits s lt) refl q.2
              (All-map (W s) (λ j n. ground (arith, q.0)) new);
        head = p.head;
        heads = p.heads;
        listed = λ j lt e. elim (Member-cons j r rs (p.listed j lt (ground (arith, d.0)))) [
          | inl z ↦ absurd (ground (arith, d.0))
          | inr z ↦ z
        ];
        single = λ j e. elim (Bool-cases (r == j)) [
          | inl z ↦ ground (arith, d.0)
          | inr z ↦
              let same : (k.proctab j).prstate ≡ PrState.pr_curr = ground (arith, d.0) in
              absurd (away (ap (λ i. (k.proctab i).prstate) (sym (p.single j same)) ∙ same))
        ];
        prios = λ j lt. ground (arith, p.prios j lt);
      },
      d.0,
      d.2,
    )

-- A process that stands in no queue joins the ready list.
pub queued-Queued :
    (k : Kernel) (pid : ℕ) (rs : List ℕ) (Q : ℕ → ℕ) (W : ℕ → List ℕ)
    → Queued k rs Q W
    → pid < nproc
    → All (λ j. j ≢ pid) rs
    → ((s : ℕ) → s < nsem → All (λ j. j ≢ pid) (W s))
    → Queued (queued k pid) (placed k pid rs) Q W
queued-Queued k pid rs Q W p lt new out =
    let prio = (k.proctab pid).prprio in
    record {
      ready = queued_lem k pid rs p.ready lt new (p.prios pid lt);
      waits = λ s ls.
          let q =
            insert_lem rs pid prio p.ready.list p.ready.sorted p.ready.tail (p.prios pid lt) lt new
              (Beside-ready p s pid ls (out s ls)) in
          Waiting-frame k (queued k pid) (Q s) s (W s) (p.waits s ls) refl q.4
            (All-map (W s) (λ j n. ground arith) (out s ls));
      head = p.head;
      heads = p.heads;
      listed = λ j lj e. elim (Bool-cases (pid == j)) [
        | inl z ↦
            let same : pid ≡ j = ground arith in
            subst (λ x. Member x (placed k pid rs)) same (Member-placed_new k pid rs)
        | inr z ↦ Member-placed_old k pid j rs (p.listed j lj (ground arith))
      ];
      single = λ j e. p.single j (ground arith);
      prios = λ j lj. ground (arith, p.prios j lj);
    }

-- The current process has given up the processor and stands where it belongs: the first ready
-- process follows.
pub dispatch-Sound :
    (k : Kernel) (rs : List ℕ) (Q : ℕ → ℕ) (W : ℕ → List ℕ)
    → Queued k rs Q W
    → Member 0 rs
    → (k.proctab k.currpid).prstate ≢ PrState.pr_curr
    → k.ndefers ≡ 0
    → (xs : List ℕ) × Sound (dispatch k) xs Q W
unfolding dispatch
dispatch-Sound k [] Q W p m away d = absurd (m tt)
dispatch-Sound k (r ∷ rs) Q W p m away d =
    let (q, e, t) = dispatch-Queued k r rs Q W p away in
    (
      rs,
      record {
        queued = q;
        top = t;
        inside = rw e p.ready.list.procs.0;
        null = elim (Member-cons 0 r rs m) [ inl z ↦ inl (e ∙ z) | inr z ↦ inr z ];
        prompt = d;
      },
    )

-- ===== src/Kernel/Invariant.antt =====
-- What holds of the kernel between two calls: which process stands in which queue.
pub mod Moves
pub mod Resched
pub mod Semaphores
pub mod Signal
pub mod Leaving
pub mod Suspending
pub mod Messages
pub mod Creating
pub mod Reach
mod Tests
use os_xinu.Prelude.{
  ℕ, ◌+◌, ◌-◌, ◌^◌, ◌<◌, ◌≤◌, ◌≡◌, ◌≢◌, ◌⊎◌, sym, ◌∙◌, ap, arith, List, [], ◌∷◌, ◌++◌, length,
}
use os_xinu.Prelude.{All, All-map, zip_All, true, false, if◌then◌else◌, pigeonhole}
use os_xinu.Queue.{nproc, nsem, bias, is_negative}
use os_xinu.Queue.Frame.{Holds, Beside}
use os_xinu.Kernel.{Kernel, PrState, Sentry}
use os_xinu.Kernel.Switch.{Ready, Highest}

-- A count below zero is the number of the processes that wait, negated; otherwise none waits. On
-- an unused semaphore none waits.
pub record Count (e : Sentry) (n : ℕ) : Type 0 where
  pub range : e.scount < 2 ^ 32
  pub number : n ≡ (if is_negative e.scount then 2 ^ 32 - e.scount else 0)
  pub unused : e.used ≡ false → n ≡ 0

-- The processes `ws` wait for semaphore `s`, in its queue `q`.
pub record Waiting (k : Kernel) (q s : ℕ) (ws : List ℕ) : Type 0 where
  pub queue : (k.semtab s).squeue ≡ q
  pub held : Holds k.queuetab q ws
  pub marked : All (λ j. ((k.proctab j).prstate ≡ PrState.pr_wait) × ((k.proctab j).prsem ≡ s)) ws
  pub count : Count (k.semtab s) (length ws)

-- `x` stands in the list.
abbrev pub Member : ℕ → List ℕ → Type 0
Member x xs = All (λ j. j ≢ x) xs → ⊥

-- The queues: `rs` are the ready processes, and for each semaphore `s`, whose queue is `Q s`, the
-- processes `W s` wait. At most the current process is marked current, no two of these queues are
-- one, and every priority is above the least key.
pub record Queued (k : Kernel) (rs : List ℕ) (Q : ℕ → ℕ) (W : ℕ → List ℕ) : Type 0 where
  pub ready : Ready k rs
  pub waits : (s : ℕ) → s < nsem → Waiting k (Q s) s (W s)
  pub head : (s : ℕ) → s < nsem → Q s ≢ k.readylist
  pub heads : (s s' : ℕ) → s < nsem → s' < nsem → s' ≢ s → Q s' ≢ Q s
  pub listed : (j : ℕ) → j < nproc → (k.proctab j).prstate ≡ PrState.pr_ready → Member j rs
  pub single : (j : ℕ) → (k.proctab j).prstate ≡ PrState.pr_curr → j ≡ k.currpid
  pub prios : (j : ℕ) → j < nproc → 0 < bias (k.proctab j).prprio

-- The kernel between two calls: in addition the current process is marked current, no ready
-- process has a greater priority, and the null process, which is process 0, is current or ready.
pub record Sound (k : Kernel) (rs : List ℕ) (Q : ℕ → ℕ) (W : ℕ → List ℕ) : Type 0 where
  pub queued : Queued k rs Q W
  pub top : Highest k rs
  pub inside : k.currpid < nproc
  pub null : (k.currpid ≡ 0) ⊎ Member 0 rs
  pub prompt : k.ndefers ≡ 0

-- Two lists whose items are told apart by a property.
pub All-apart :
    (P R : ℕ → Type 0) (xs ys : List ℕ)
    → ((j x : ℕ) → P j → R x → j ≢ x)
    → All P xs
    → All R ys
    → All (λ j. All (λ x. j ≢ x) ys) xs
All-apart P R xs ys f a b = All-map xs (λ j p. All-map ys (λ x r. f j x p r) b) a

All-swap : (xs ys : List ℕ) → All (λ j. All (λ x. j ≢ x) ys) xs → All (λ j. All (λ x. j ≢ x) xs) ys
All-swap xs [] h = tt
All-swap xs (y ∷ ys) h =
    (All-map xs (λ j n e. n.0 (sym e)) h, All-swap xs ys (All-map xs (λ j n. n.1) h))

module _ {k : Kernel} {rs : List ℕ} {Q : ℕ → ℕ} {W : ℕ → List ℕ} (p : Queued k rs Q W) where
  pub waits-apart_ready : (s : ℕ) → s < nsem → All (λ j. All (λ x. j ≢ x) rs) (W s)
  waits-apart_ready s lt =
      All-apart (λ j. ((k.proctab j).prstate ≡ PrState.pr_wait) × ((k.proctab j).prsem ≡ s))
        (λ x. (k.proctab x).prstate ≡ PrState.pr_ready) (W s) rs
        (λ j x a b e. cc (a.0, b, ap k.proctab e)) (p.waits s lt).marked p.ready.states

  pub waits-apart_waits :
      (s s' : ℕ) → s < nsem → s' < nsem → s' ≢ s → All (λ j. All (λ x. j ≢ x) (W s)) (W s')
  waits-apart_waits s s' lt lt' ne =
      All-apart (λ j. ((k.proctab j).prstate ≡ PrState.pr_wait) × ((k.proctab j).prsem ≡ s'))
        (λ j. ((k.proctab j).prstate ≡ PrState.pr_wait) × ((k.proctab j).prsem ≡ s)) (W s') (W s)
        (λ j x a b e. ne (sym a.1 ∙ ap (λ i. (k.proctab i).prsem) e ∙ b.1)) (p.waits s' lt').marked
        (p.waits s lt).marked

  -- A process with another state is in none of the queues.
  pub outside_ready : (pid : ℕ) → (k.proctab pid).prstate ≢ PrState.pr_ready → All (λ j. j ≢ pid) rs
  outside_ready pid ne =
      All-map rs (λ j h e. ne (ap (λ i. (k.proctab i).prstate) (sym e) ∙ h)) p.ready.states

  pub outside_waits :
      (pid : ℕ)
      → (k.proctab pid).prstate ≢ PrState.pr_wait
      → (s : ℕ) → s < nsem
      → All (λ j. j ≢ pid) (W s)
  outside_waits pid ne s lt =
      All-map (W s) (λ j h e. ne (ap (λ i. (k.proctab i).prstate) (sym e) ∙ h.0))
        (p.waits s lt).marked

  pub Beside-ready :
      (s pid : ℕ)
      → s < nsem
      → All (λ j. j ≢ pid) (W s)
      → Beside k.queuetab k.readylist rs pid (Q s) (W s)
  Beside-ready s pid lt new = record {
    held = (p.waits s lt).held;
    heads = p.head s lt;
    without = new;
    disjoint = waits-apart_ready s lt;
  }

  pub Beside-waits :
      (s s' pid : ℕ)
      → s < nsem
      → s' < nsem
      → s' ≢ s
      → All (λ j. j ≢ pid) (W s')
      → Beside k.queuetab (Q s) (W s) pid (Q s') (W s')
  Beside-waits s s' pid lt lt' ne new = record {
    held = (p.waits s' lt').held;
    heads = p.heads s s' lt lt' ne;
    without = new;
    disjoint = waits-apart_waits s s' lt lt' ne;
  }

  pub Beside-readylist :
      (s pid : ℕ)
      → s < nsem
      → All (λ j. j ≢ pid) rs
      → Beside k.queuetab (Q s) (W s) pid k.readylist rs
  Beside-readylist s pid lt new = record {
    held = p.ready.list;
    heads = λ e. p.head s lt (sym e);
    without = new;
    disjoint = All-swap (W s) rs (waits-apart_ready s lt);
  }

  pub waits-le : (s : ℕ) → s < nsem → length (W s) ≤ nproc
  waits-le s lt = pigeonhole nproc (W s) (p.waits s lt).held.distinct (p.waits s lt).held.procs

-- A change that does not touch the processes of a semaphore.
pub Waiting-frame :
    (k k' : Kernel) (q s : ℕ) (ws : List ℕ)
    → Waiting k q s ws
    → k'.semtab s ≡ k.semtab s
    → Holds k'.queuetab q ws
    → All (λ j. k'.proctab j ≡ k.proctab j) ws
    → Waiting k' q s ws
Waiting-frame k k' q s ws w e h same = record {
  queue = ap (λ s. s.squeue) e ∙ w.queue;
  held = h;
  marked =
      All-map ws (λ j p. (ap (λ r. r.prstate) p.0 ∙ p.1.0, ap (λ r. r.prsem) p.0 ∙ p.1.1))
        (zip_All (λ j. k'.proctab j ≡ k.proctab j)
          (λ j. ((k.proctab j).prstate ≡ PrState.pr_wait) × ((k.proctab j).prsem ≡ s)) ws same
          w.marked);
  count = rw e w.count;
}

-- ===== src/Kernel/Invariant/Resched.antt =====
-- system/resched.c and ready.c.
use os_xinu.Prelude.{ℕ, ◌<◌, ◌≤◌, ◌≡◌, ◌≢◌, ◌⊎◌, inl, inr, refl, ◌∙◌, ap, arith, List, [], ◌∷◌}
use os_xinu.Prelude.{All, true, false, ltb, Bool-cases}
use mathlib.Core.Path.{subst}
use os_xinu.Queue.{nproc, nsem, bias, firstkey}
use os_xinu.Kernel.{Kernel, PrState, is_curr, isbadpid}
use os_xinu.Kernel.Sched.{dispatch, resched, ready}
use os_xinu.Kernel.Switch.{placed, queued, requeue-eq, ready-eq, below-first, is_curr-eq}
use os_xinu.Kernel.Invariant.{Queued, Member, Sound, outside_ready, outside_waits}
use os_xinu.Kernel.Invariant.Moves.{
  queued-Queued, dispatch-Sound, Member-placed_old, Member-placed_new,
}

-- What a state needs to be rescheduled: the current process runs, and the null process is there.
pub record Running (k : Kernel) (rs : List ℕ) : Type 0 where
  pub current : (k.proctab k.currpid).prstate ≡ PrState.pr_curr
  pub inside : k.currpid < nproc
  pub null : (k.currpid ≡ 0) ⊎ Member 0 rs
  pub prompt : k.ndefers ≡ 0

pub Sound-Running :
    {k : Kernel} {rs : List ℕ} {Q : ℕ → ℕ} {W : ℕ → List ℕ} → Sound k rs Q W → Running k rs
Sound-Running h = record {
  current = h.top.current;
  inside = h.inside;
  null = h.null;
  prompt = h.prompt;
}

resched-stay :
    (k : Kernel)
    → k.ndefers ≡ 0
    → (k.proctab k.currpid).prstate ≡ PrState.pr_curr
    → bias (firstkey k.queuetab k.readylist) < bias (k.proctab k.currpid).prprio
    → resched k ≡ k
unfolding resched
resched-stay k d c l =
    let t : ltb 0 k.ndefers ≡ false = ground arith in
    let e : is_curr (k.proctab k.currpid).prstate ≡ true = ap is_curr c in
    let g : ltb (bias (firstkey k.queuetab k.readylist)) (bias (k.proctab k.currpid).prprio)
        ≡ true =
      ground arith in
    rw (t, e, g) refl

resched-switch :
    (k : Kernel)
    → k.ndefers ≡ 0
    → k.currpid < nproc
    → (k.proctab k.currpid).prstate ≡ PrState.pr_curr
    → bias (k.proctab k.currpid).prprio ≤ bias (firstkey k.queuetab k.readylist)
    → resched k ≡ dispatch (queued k k.currpid)
unfolding resched
resched-switch k d lt c l =
    let t : ltb 0 k.ndefers ≡ false = ground arith in
    let e : is_curr (k.proctab k.currpid).prstate ≡ true = ap is_curr c in
    let g : ltb (bias (firstkey k.queuetab k.readylist)) (bias (k.proctab k.currpid).prprio)
        ≡ false =
      ground arith in
    rw (t, e, g, requeue-eq k lt) refl

pub resched-away :
    (k : Kernel)
    → k.ndefers ≡ 0
    → (k.proctab k.currpid).prstate ≢ PrState.pr_curr
    → resched k ≡ dispatch k
unfolding resched
resched-away k d n =
    let t : ltb 0 k.ndefers ≡ false = ground arith in
    let e : is_curr (k.proctab k.currpid).prstate ≡ false =
      elim (Bool-cases (is_curr (k.proctab k.currpid).prstate)) [
        | inl y ↦ absurd (n (is_curr-eq (k.proctab k.currpid).prstate y))
        | inr y ↦ y
      ] in
    rw (t, e) refl

pub resched-Sound :
    (k : Kernel) (rs : List ℕ) (Q : ℕ → ℕ) (W : ℕ → List ℕ)
    → Queued k rs Q W
    → Running k rs
    → (xs : List ℕ) × Sound (resched k) xs Q W
resched-Sound k [] Q W p u =
    let key : bias (firstkey k.queuetab k.readylist) ≡ 0 =
      ap (λ i. bias (k.queuetab i).key) p.ready.list.chain.0 ∙ ap bias p.ready.tail in
    rw (resched-stay k u.prompt u.current (omega (arith, p.prios k.currpid u.inside))) (
      [],
      record {
        queued = p;
        top = record { current = u.current; highest = tt };
        inside = u.inside;
        null = u.null;
        prompt = u.prompt;
      },
    )
resched-Sound k (r ∷ rs) Q W p u =
    let prio = bias (k.proctab k.currpid).prprio in
    elim (Bool-cases (ltb (bias (firstkey k.queuetab k.readylist)) prio)) [
      | inl g ↦
          let l : bias (firstkey k.queuetab k.readylist) < prio = ground arith in
          let first = ap (λ i. bias (k.queuetab i).key) p.ready.list.chain.0 in
          rw (resched-stay k u.prompt u.current l) (
            r ∷ rs,
            record {
              queued = p;
              top = record {
                current = u.current;
                highest = below-first k prio r rs p.ready (omega (arith, first));
              };
              inside = u.inside;
              null = u.null;
              prompt = u.prompt;
            },
          )
      | inr g ↦
          let c = k.currpid in
          let nr : (k.proctab c).prstate ≢ PrState.pr_ready = λ e. cc (e, u.current) in
          let nw : (k.proctab c).prstate ≢ PrState.pr_wait = λ e. cc (e, u.current) in
          let q =
            queued-Queued k c (r ∷ rs) Q W p u.inside (outside_ready p c nr)
              (outside_waits p c nw) in
          let m : Member 0 (placed k c (r ∷ rs)) = elim u.null [
            | inl z ↦ subst (λ x. Member x (placed k c (r ∷ rs))) z (Member-placed_new k c (r ∷ rs))
            | inr z ↦ Member-placed_old k c 0 (r ∷ rs) z
          ] in
          rw (resched-switch k u.prompt u.inside u.current (ground arith))
            (dispatch-Sound (queued k c) (placed k c (r ∷ rs)) Q W q m (ground arith) u.prompt)
    ]

-- A process in no queue is made ready.
pub ready-Sound :
    (k : Kernel) (pid : ℕ) (rs : List ℕ) (Q : ℕ → ℕ) (W : ℕ → List ℕ)
    → Queued k rs Q W
    → Running k rs
    → isbadpid k pid ≡ false
    → pid ≢ k.currpid
    → All (λ j. j ≢ pid) rs
    → ((s : ℕ) → s < nsem → All (λ j. j ≢ pid) (W s))
    → (xs : List ℕ) × Sound (ready k pid).0 xs Q W
ready-Sound k pid rs Q W p u b ne new out =
    let lt : pid < nproc = ground (arith, b) in
    rw (ready-eq k pid b) (
      resched-Sound (queued k pid) (placed k pid rs) Q W (queued-Queued k pid rs Q W p lt new out)
        (record {
          current = ground (arith, u.current);
          inside = u.inside;
          null = elim u.null [ inl z ↦ inl z | inr z ↦ inr (Member-placed_old k pid 0 rs z) ];
          prompt = u.prompt;
        }))

-- ===== src/Kernel/Invariant/Leaving.antt =====
-- system/suspend.c, resume.c, receive.c and yield.c: a process leaves the processor or the ready
-- list, or comes back.
use os_xinu.Prelude.{ℕ, ◌<◌, ◌≡◌, ◌≢◌, inl, inr, refl, sym, ◌∙◌, ap, arith, List}
use os_xinu.Prelude.{All, All-map, zip_All, true, false, not, ◌||◌, ◌==◌, Bool-cases}
use os_xinu.Queue.{nsem}
use os_xinu.Kernel.{Kernel, PrState, Procent, is_susp, isbadpid, set_proc, set_state}
use os_xinu.Kernel.Sched.{resched, yield}
use os_xinu.Kernel.Proc.{resume}
use os_xinu.Kernel.Message.{receive_entry}
use os_xinu.Kernel.Invariant.{Queued, Member, Sound, Waiting-frame, outside_ready, outside_waits}
use os_xinu.Kernel.Invariant.Moves.{dispatch-Sound}
use os_xinu.Kernel.Invariant.Resched.{Sound-Running, resched-Sound, resched-away, ready-Sound}

-- The entry of a process in no queue changes.
pub set_proc-Queued :
    (k : Kernel) (rs : List ℕ) (Q : ℕ → ℕ) (W : ℕ → List ℕ) (pid : ℕ) (e : Procent)
    → Queued k rs Q W
    → e.prprio ≡ (k.proctab pid).prprio
    → e.prstate ≢ PrState.pr_ready
    → e.prstate ≢ PrState.pr_curr
    → All (λ j. j ≢ pid) rs
    → ((s : ℕ) → s < nsem → All (λ j. j ≢ pid) (W s))
    → Queued (set_proc k pid e) rs Q W
set_proc-Queued k rs Q W pid e p b st sc nr nw =
    let k' = set_proc k pid e in
    record {
      ready = record {
        list = p.ready.list;
        sorted = p.ready.sorted;
        tail = p.ready.tail;
        states =
            All-map rs (λ j h. ground arith)
              (zip_All (λ j. (k.proctab j).prstate ≡ PrState.pr_ready) (λ j. j ≢ pid) rs
                p.ready.states nr);
        prios =
            All-map rs (λ j h. h.0 ∙ ground arith)
              (zip_All (λ j. (k.queuetab j).key ≡ (k.proctab j).prprio) (λ j. j ≢ pid) rs
                p.ready.prios nr);
      };
      waits = λ s lt.
          Waiting-frame k k' (Q s) s (W s) (p.waits s lt) refl (p.waits s lt).held
            (All-map (W s) (λ j n. ground arith) (nw s lt));
      head = p.head;
      heads = p.heads;
      listed = λ j lt r. elim (Bool-cases (pid == j)) [
        | inl z ↦ absurd (st (ground arith))
        | inr z ↦ p.listed j lt (ground arith)
      ];
      single = λ j r. elim (Bool-cases (pid == j)) [
        | inl z ↦ absurd (sc (ground arith))
        | inr z ↦ p.single j (ground arith)
      ];
      prios = λ j lt. ground (arith, b, p.prios j lt);
    }

-- The current process takes a state in which it neither runs nor is ready.
pub leave-Sound :
    (k : Kernel) (rs : List ℕ) (Q : ℕ → ℕ) (W : ℕ → List ℕ) (st : PrState)
    → Sound k rs Q W
    → k.currpid ≢ 0
    → st ≢ PrState.pr_ready
    → st ≢ PrState.pr_curr
    → (xs : List ℕ) × Sound (resched (set_state k k.currpid st)) xs Q W
leave-Sound k rs Q W st h ne nr nc =
    let p = h.queued in
    let c = k.currpid in
    let k' = set_state k c st in
    let q =
      set_proc-Queued k rs Q W c (record (k.proctab c) { prstate = st }) p refl nr nc
        (outside_ready p c (λ e. cc (e, h.top.current)))
        (outside_waits p c (λ e. cc (e, h.top.current))) in
    let m : Member 0 rs = elim h.null [ inl z ↦ absurd (ne z) | inr z ↦ z ] in
    let same : (k'.proctab c).prstate ≡ st = ground arith in
    rw (resched-away k' h.prompt (λ e. nc (sym same ∙ e)))
      (dispatch-Sound k' rs Q W q m (λ e. nc (sym same ∙ e)) h.prompt)

pub receive_entry-Sound :
    (k : Kernel) (rs : List ℕ) (Q : ℕ → ℕ) (W : ℕ → List ℕ)
    → Sound k rs Q W
    → k.currpid ≢ 0
    → (xs : List ℕ) × Sound (receive_entry k) xs Q W
unfolding receive_entry
receive_entry-Sound k rs Q W h ne = elim (Bool-cases (not (k.proctab k.currpid).prhasmsg)) [
  | inr e ↦ rw e (rs, h)
  | inl e ↦ rw e (leave-Sound k rs Q W PrState.pr_recv h ne (λ z. cc z) (λ z. cc z))
]

pub yield-Sound :
    (k : Kernel) (rs : List ℕ) (Q : ℕ → ℕ) (W : ℕ → List ℕ)
    → Sound k rs Q W
    → (xs : List ℕ) × Sound (yield k) xs Q W
unfolding yield
yield-Sound k rs Q W h = resched-Sound k rs Q W h.queued (Sound-Running h)

is_susp-eq : (st : PrState) → is_susp st ≡ true → st ≡ PrState.pr_susp
is_susp-eq PrState.pr_susp h = refl
is_susp-eq st h = cc

pub resume-Sound :
    (k : Kernel) (rs : List ℕ) (Q : ℕ → ℕ) (W : ℕ → List ℕ) (pid : ℕ)
    → Sound k rs Q W
    → (xs : List ℕ) × Sound (resume k pid).0 xs Q W
unfolding resume
resume-Sound k rs Q W pid h =
    elim (Bool-cases (isbadpid k pid || not (is_susp (k.proctab pid).prstate))) [
      | inl g ↦ rw g (rs, h)
      | inr g ↦
          let b : isbadpid k pid ≡ false = ground arith in
          let s = is_susp-eq (k.proctab pid).prstate (ground arith) in
          rw g (
            ready-Sound k pid rs Q W h.queued (Sound-Running h) b
              (λ e. cc (s, h.top.current, ap k.proctab e))
              (outside_ready h.queued pid (λ e. cc (s, e)))
              (outside_waits h.queued pid (λ e. cc (s, e))))
    ]

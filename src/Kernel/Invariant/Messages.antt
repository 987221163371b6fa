-- ===== src/Kernel/Invariant/Messages.antt =====
-- system/send.c, receive.c and recvclr.c.
use os_xinu.Prelude.{
  Bool, ℕ, ◌≡◌, refl, sym, ◌∙◌, ap, arith, List, Bool-cases, inl, inr, All-map, true, false, ◌||◌,
  if◌then◌else◌,
}
use os_xinu.Kernel.{Kernel, PrState, Procent, is_recv, is_rectim, isbadpid}
use os_xinu.Kernel.Sched.{ready}
use os_xinu.Kernel.Message.{send, receive_exit, recvclr}
use os_xinu.Kernel.Delivery.{stored}
use os_xinu.Kernel.Invariant.{Sound, outside_ready, outside_waits}
use os_xinu.Kernel.Invariant.Resched.{Sound-Running, ready-Sound}

-- The entries differ in the messages alone.
pub record Unmoved (k : Kernel) (f : ℕ → Procent) : Type 0 where
  pub prstate : (j : ℕ) → (f j).prstate ≡ (k.proctab j).prstate
  pub prprio : (j : ℕ) → (f j).prprio ≡ (k.proctab j).prprio
  pub prsem : (j : ℕ) → (f j).prsem ≡ (k.proctab j).prsem

pub Unmoved-Sound :
    (k : Kernel) (rs : List ℕ) (Q : ℕ → ℕ) (W : ℕ → List ℕ) (f : ℕ → Procent)
    → Sound k rs Q W
    → Unmoved k f
    → Sound (record k { proctab = f }) rs Q W
Unmoved-Sound k rs Q W f h u =
    let p = h.queued in
    record {
      queued = record {
        ready = record {
          list = p.ready.list;
          sorted = p.ready.sorted;
          tail = p.ready.tail;
          states = All-map rs (λ j e. u.prstate j ∙ e) p.ready.states;
          prios = All-map rs (λ j e. e ∙ sym (u.prprio j)) p.ready.prios;
        };
        waits = λ s lt.
            let w = p.waits s lt in
            record {
              queue = w.queue;
              held = w.held;
              marked = All-map (W s) (λ j m. (u.prstate j ∙ m.0, u.prsem j ∙ m.1)) w.marked;
              count = w.count;
            };
        head = p.head;
        heads = p.heads;
        listed = λ j lt e. p.listed j lt (sym (u.prstate j) ∙ e);
        single = λ j e. p.single j (sym (u.prstate j) ∙ e);
        prios = λ j lt. rw (u.prprio j) (p.prios j lt);
      };
      top = record {
        current = u.prstate k.currpid ∙ h.top.current;
        highest = All-map rs (λ j l. rw (u.prprio j, u.prprio k.currpid) l) h.top.highest;
      };
      inside = h.inside;
      null = h.null;
      prompt = h.prompt;
    }

pub receive_exit-Sound :
    (k : Kernel) (rs : List ℕ) (Q : ℕ → ℕ) (W : ℕ → List ℕ) (pid : ℕ)
    → Sound k rs Q W
    → Sound (receive_exit k pid).0 rs Q W
unfolding receive_exit
receive_exit-Sound k rs Q W pid h =
    Unmoved-Sound k rs Q W (receive_exit k pid).0.proctab h (record {
      prstate = λ j. ground arith;
      prprio = λ j. ground arith;
      prsem = λ j. ground arith;
    })

pub recvclr-Sound :
    (k : Kernel) (rs : List ℕ) (Q : ℕ → ℕ) (W : ℕ → List ℕ)
    → Sound k rs Q W
    → Sound (recvclr k).0 rs Q W
unfolding recvclr
recvclr-Sound k rs Q W h =
    either (k.proctab k.currpid).prhasmsg (receive_exit k k.currpid) (k, 1)
      (receive_exit-Sound k rs Q W k.currpid h) h
  where
    either :
        (b : Bool) (x y : Kernel × ℕ)
        → Sound x.0 rs Q W
        → Sound y.0 rs Q W
        → Sound (if b then x else y).0 rs Q W
    either true x y a c = a
    either false x y a c = c

is_recv-eq : (st : PrState) → is_recv st ≡ true → st ≡ PrState.pr_recv
is_recv-eq PrState.pr_recv h = refl
is_recv-eq st h = cc

stored-Sound :
    (k : Kernel) (rs : List ℕ) (Q : ℕ → ℕ) (W : ℕ → List ℕ) (pid msg : ℕ)
    → Sound k rs Q W
    → Sound (stored k pid msg) rs Q W
stored-Sound k rs Q W pid msg h =
    Unmoved-Sound k rs Q W (stored k pid msg).proctab h (record {
      prstate = λ j. ground arith;
      prprio = λ j. ground arith;
      prsem = λ j. ground arith;
    })

send-recv :
    (k : Kernel) (pid msg : ℕ)
    → (isbadpid k pid || (k.proctab pid).prhasmsg) ≡ false
    → is_recv (k.proctab pid).prstate ≡ true
    → (send k pid msg).0 ≡ (ready (stored k pid msg) pid).0
unfolding send
send-recv k pid msg g r = simp (g, r)

send-stored :
    (k : Kernel) (pid msg : ℕ)
    → (isbadpid k pid || (k.proctab pid).prhasmsg) ≡ false
    → is_recv (k.proctab pid).prstate ≡ false
    → is_rectim (k.proctab pid).prstate ≡ false
    → (send k pid msg).0 ≡ stored k pid msg
unfolding send
send-stored k pid msg g r t = simp (g, r, t)

send-refused :
    (k : Kernel) (pid msg : ℕ)
    → (isbadpid k pid || (k.proctab pid).prhasmsg) ≡ true
    → (send k pid msg).0 ≡ k
unfolding send
send-refused k pid msg g = simp g

pub send-Sound :
    (k : Kernel) (rs : List ℕ) (Q : ℕ → ℕ) (W : ℕ → List ℕ) (pid msg : ℕ)
    → Sound k rs Q W
    → is_rectim (k.proctab pid).prstate ≡ false
    → (xs : List ℕ) × Sound (send k pid msg).0 xs Q W
send-Sound k rs Q W pid msg h t = elim (Bool-cases (isbadpid k pid || (k.proctab pid).prhasmsg)) [
  | inl g ↦ rw (send-refused k pid msg g) (rs, h)
  | inr g ↦ elim (Bool-cases (is_recv (k.proctab pid).prstate)) [
    | inl r ↦
        let s = stored-Sound k rs Q W pid msg h in
        let k' = stored k pid msg in
        let st = is_recv-eq (k.proctab pid).prstate r in
        let st' : (k'.proctab pid).prstate ≡ PrState.pr_recv = ground (arith, st) in
        rw (send-recv k pid msg g r) (
          ready-Sound k' pid rs Q W s.queued (Sound-Running s) (ground (arith, g, st'))
            (λ e. cc (st', s.top.current, ap k'.proctab e))
            (outside_ready s.queued pid (λ e. cc (st', e)))
            (outside_waits s.queued pid (λ e. cc (st', e))))
    | inr r ↦ rw (send-stored k pid msg g r t) (rs, stored-Sound k rs Q W pid msg h)
  ]
]

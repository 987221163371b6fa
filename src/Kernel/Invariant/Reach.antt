-- ===== src/Kernel/Invariant/Reach.antt =====
-- The kernel as a system of steps: one step for each call, in any order. The current process makes
-- the calls, so a call that may give up the processor is none of the null process.
use os_xinu.Prelude.{ℕ, ◌-◌, ◌^◌, ◌<◌, ◌≡◌, ◌≢◌, List, false, true, Bool-cases, inl, inr, arith}
use os_xinu.Prelude.{not, ◌||◌}
use os_xinu.Queue.{nsem}
use os_xinu.Kernel.{Kernel, isbadsem, is_rectim}
use os_xinu.Kernel.Sched.{yield}
use os_xinu.Kernel.Sem.{wait, signal, semcreate}
use os_xinu.Kernel.Proc.{suspend, resume}
use os_xinu.Kernel.Message.{send, receive_entry, receive_exit, recvclr}
use os_xinu.Kernel.Invariant.{Sound}
use os_xinu.Kernel.Invariant.Semaphores.{wait-Sound}
use os_xinu.Kernel.Invariant.Signal.{signal-Sound}
use os_xinu.Kernel.Invariant.Leaving.{yield-Sound, resume-Sound, receive_entry-Sound}
use os_xinu.Kernel.Invariant.Suspending.{suspend-Sound}
use os_xinu.Kernel.Invariant.Messages.{send-Sound, receive_exit-Sound, recvclr-Sound}
use os_xinu.Kernel.Invariant.Creating.{semcreate-Sound}

-- A semaphore whose count is the greatest `int32` is not signalled, `send` is not to a process that
-- receives with a timeout, which stands in the queue of the sleeping processes as well, the null process
-- does not block, and `semcreate` finds a free semaphore for a count that is not negative.
pub data Step (k : Kernel) : Kernel → Type 0 where
  wait_step : (sem : ℕ) → k.currpid ≢ 0 → Step k (wait k sem).0
  signal_step : (sem : ℕ) → (k.semtab sem).scount ≢ 2 ^ 31 - 1 → Step k (signal k sem).0
  semcreate_step :
      (count j : ℕ)
      → count < 2 ^ 31
      → k.nextsem < nsem
      → j < nsem
      → (k.semtab j).used ≡ false
      → Step k (semcreate k count).0
  yield_step : Step k (yield k)
  suspend_step : (pid : ℕ) → Step k (suspend k pid).0
  resume_step : (pid : ℕ) → Step k (resume k pid).0
  send_step : (pid msg : ℕ) → is_rectim (k.proctab pid).prstate ≡ false → Step k (send k pid msg).0
  receive_step : k.currpid ≢ 0 → Step k (receive_entry k)
  receive_exit_step : Step k (receive_exit k k.currpid).0
  recvclr_step : Step k (recvclr k).0

-- What any number of calls, one after the other, can make of a kernel.
pub data Reach (start : Kernel) : Kernel → Type 0 where
  here : Reach start start
  after : {k k' : Kernel} → Reach start k → Step k k' → Reach start k'

-- The kernel is sound for some ready list and some waiting processes.
abbrev pub Consistent : Kernel → (ℕ → ℕ) → Type 0
Consistent k Q = (rs : List ℕ) × (W : ℕ → List ℕ) × Sound k rs Q W

wait-refused :
    (k : Kernel) (sem : ℕ) → (isbadsem sem || not (k.semtab sem).used) ≡ true → (wait k sem).0 ≡ k
unfolding wait
wait-refused k sem g = simp g

signal-refused :
    (k : Kernel) (sem : ℕ) → (isbadsem sem || not (k.semtab sem).used) ≡ true → (signal k sem).0 ≡ k
unfolding signal
signal-refused k sem g = simp g

wait-Consistent :
    (k : Kernel) (Q : ℕ → ℕ) (sem : ℕ)
    → Consistent k Q
    → k.currpid ≢ 0
    → Consistent (wait k sem).0 Q
wait-Consistent k Q sem (rs, W, h) n = elim (Bool-cases (isbadsem sem || not (k.semtab sem).used)) [
  | inl g ↦ rw (wait-refused k sem g) (rs, W, h)
  | inr g ↦ let (xs, s) = wait-Sound k rs Q W sem h (ground arith) (ground arith) n in (xs, _, s)
]

signal-Consistent :
    (k : Kernel) (Q : ℕ → ℕ) (sem : ℕ)
    → Consistent k Q
    → (k.semtab sem).scount ≢ 2 ^ 31 - 1
    → Consistent (signal k sem).0 Q
signal-Consistent k Q sem (rs, W, h) n =
    elim (Bool-cases (isbadsem sem || not (k.semtab sem).used)) [
      | inl g ↦ rw (signal-refused k sem g) (rs, W, h)
      | inr g ↦
          let (xs, s) = signal-Sound k rs Q W sem h (ground arith) (ground arith) n in (xs, _, s)
    ]

Step-Consistent : (k k' : Kernel) (Q : ℕ → ℕ) → Step k k' → Consistent k Q → Consistent k' Q
Step-Consistent k _ Q (Step.wait_step sem n) c = wait-Consistent k Q sem c n
Step-Consistent k _ Q (Step.signal_step sem n) c = signal-Consistent k Q sem c n
Step-Consistent k _ Q (Step.semcreate_step count j a b d u) (rs, W, h) =
    (rs, W, semcreate-Sound k rs Q W count j h a b d u)
Step-Consistent k _ Q Step.yield_step (rs, W, h) =
    let (xs, s) = yield-Sound k rs Q W h in (xs, W, s)
Step-Consistent k _ Q (Step.suspend_step pid) (rs, W, h) =
    let (xs, s) = suspend-Sound k rs Q W pid h in (xs, W, s)
Step-Consistent k _ Q (Step.resume_step pid) (rs, W, h) =
    let (xs, s) = resume-Sound k rs Q W pid h in (xs, W, s)
Step-Consistent k _ Q (Step.send_step pid msg t) (rs, W, h) =
    let (xs, s) = send-Sound k rs Q W pid msg h t in (xs, W, s)
Step-Consistent k _ Q (Step.receive_step n) (rs, W, h) =
    let (xs, s) = receive_entry-Sound k rs Q W h n in (xs, W, s)
Step-Consistent k _ Q Step.receive_exit_step (rs, W, h) =
    (rs, W, receive_exit-Sound k rs Q W k.currpid h)
Step-Consistent k _ Q Step.recvclr_step (rs, W, h) = (rs, W, recvclr-Sound k rs Q W h)

-- Any sequence of calls of `wait`, `signal`, `semcreate`, `yield`, `suspend`, `resume`, `send`, `receive` and `recvclr`, each of
-- which meets these conditions: the null process calls neither `wait` nor `receive`; the semaphore signalled does not have the
-- count 2 ^ 31 - 1; `send` is to a process that does not receive with a timeout; and `semcreate` has a count below 2 ^ 31, a
-- free semaphore and nextsem below NSEM. From a kernel in which the queues, the counts and the marks agree, they agree again: the processes
-- in the queue of a semaphore are as many as its count is below zero, exactly the processes marked ready are on the ready list, in
-- order of priority, and the current process, the only one marked current, has a priority at least as great as theirs.
pub Reach-Consistent :
    (start k : Kernel) (Q : ℕ → ℕ) → Reach start k → Consistent start Q → Consistent k Q
Reach-Consistent start _ Q Reach.here c = c
Reach-Consistent start _ Q (Reach.after {k} {k'} r s) c =
    Step-Consistent k k' Q s (Reach-Consistent start k Q r c)

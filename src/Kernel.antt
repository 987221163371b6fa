-- ===== src/Kernel.antt =====
-- include/process.h, semaphore.h, resched.h: the process table, the semaphore table and the
-- scheduler's variables. The children hold the system calls on them.
-- Each call runs with interrupts disabled, so it is one step. `resched` switches to another
-- process in the middle of a call: what the source does before is one function of the model, and
-- what it does after the caller is resumed, where that is more than to return a constant, another.
-- `int32` and `pri16` values are 32-bit patterns. What only the hardware sees (`ctxsw`, the TLB) is
-- left out.
pub mod Sched
pub mod Sem
pub mod Proc
pub mod Message
pub mod Timer
pub mod Switch
pub mod Invariant
pub mod Blocking
pub mod Calls
pub mod Priority
pub mod Creation
pub mod Delivery
pub mod Untouched
pub mod Counts
mod Tests
use os_xinu.Prelude.{ℕ, ◌+◌, ◌-◌, ◌%◌, ◌^◌, Bool, true, false, ◌||◌, ◌==◌, leb, if◌then◌else◌}
use os_xinu.Queue.{Qtab, nproc, nsem, is_negative}

pub data PrState : Type 0 where
  pr_free pr_curr pr_ready pr_recv pr_sleep pr_susp pr_wait pr_rectim : PrState

abbrev pub is_free : PrState → Bool
is_free PrState.pr_free = true
is_free _ = false

abbrev pub is_curr : PrState → Bool
is_curr PrState.pr_curr = true
is_curr _ = false

abbrev pub is_ready : PrState → Bool
is_ready PrState.pr_ready = true
is_ready _ = false

abbrev pub is_recv : PrState → Bool
is_recv PrState.pr_recv = true
is_recv _ = false

abbrev pub is_sleep : PrState → Bool
is_sleep PrState.pr_sleep = true
is_sleep _ = false

abbrev pub is_susp : PrState → Bool
is_susp PrState.pr_susp = true
is_susp _ = false

abbrev pub is_rectim : PrState → Bool
is_rectim PrState.pr_rectim = true
is_rectim _ = false

-- `struct procent`, less the stack, the name, the parent and the descriptors, which only `create`
-- and `kill` use.
pub record Procent : Type 0 where
  pub prstate : PrState
  pub prprio : ℕ
  pub prsem : ℕ
  pub prmsg : ℕ
  pub prhasmsg : Bool

-- `struct sentry`; `used` is S_USED.
pub record Sentry : Type 0 where
  pub used : Bool
  pub scount : ℕ
  pub squeue : ℕ

-- `ndefers` is raised from 0 and lowered only above 0, so it is never negative.
pub record Kernel : Type 0 where
  pub queuetab : Qtab
  pub proctab : ℕ → Procent
  pub semtab : ℕ → Sentry
  pub currpid : ℕ
  pub readylist : ℕ
  pub sleepq : ℕ
  pub ndefers : ℕ
  pub attempt : Bool
  pub preempt : ℕ
  pub nextsem : ℕ

abbrev pub quantum : ℕ
quantum = 2

abbrev pub isbadpid : Kernel → ℕ → Bool
isbadpid k x = is_negative x || leb nproc x || is_free (k.proctab x).prstate

abbrev pub isbadsem : ℕ → Bool
isbadsem s = is_negative s || leb nsem s

abbrev pub add32 : ℕ → ℕ → ℕ
add32 a b = (a + b) % 2 ^ 32

abbrev pub sub32 : ℕ → ℕ → ℕ
sub32 a b = (a + 2 ^ 32 - b) % 2 ^ 32

-- Assignments to entries of the tables.
abbrev pub set_proc : Kernel → ℕ → Procent → Kernel
set_proc k i p = record k { proctab = λ j. if i == j then p else k.proctab j }

abbrev pub set_state : Kernel → ℕ → PrState → Kernel
set_state k i st = set_proc k i (record (k.proctab i) { prstate = st })

abbrev pub set_sem : Kernel → ℕ → Sentry → Kernel
set_sem k i s = record k { semtab = λ j. if i == j then s else k.semtab j }

abbrev pub set_count : Kernel → ℕ → ℕ → Kernel
set_count k i c = set_sem k i (record (k.semtab i) { scount = c })

-- ===== src/Kernel/Sched.antt =====
-- system/resched.c, ready.c, yield.c and getpid.c.
use os_xinu.Prelude.{ℕ, ◌+◌, ◌-◌, Bool, true, false, ◌==◌, ltb, if◌then◌else◌}
use os_xinu.Queue.{bias, firstkey, insert, dequeue}
use os_xinu.Kernel.{Kernel, PrState, is_curr, quantum, isbadpid, set_state}

-- The old process goes back to the ready list.
unfoldable pub requeue : Kernel → Kernel
requeue k =
    let k1 = set_state k k.currpid PrState.pr_ready in
    record k1 {
      queuetab =
          (insert k1.queuetab (isbadpid k1 k1.currpid) k1.currpid k1.readylist
            (k1.proctab k1.currpid).prprio).0;
    }

-- The first process of the ready list becomes current.
unfoldable pub dispatch : Kernel → Kernel
dispatch k =
    let (t, pid) = dequeue k.queuetab k.readylist in
    set_state (record k { queuetab = t; currpid = pid; preempt = quantum }) pid PrState.pr_curr

-- The source stores `preempt` after the state, which no one sees.
unfoldable pub resched : Kernel → Kernel
resched k =
    if ltb 0 k.ndefers
    then record k { attempt = true }
    else (let old = k.proctab k.currpid in
        if is_curr old.prstate
        then (if ltb (bias (firstkey k.queuetab k.readylist)) (bias old.prprio)
            then k
            else dispatch (requeue k))
        else dispatch k)

-- `resched_cntl(DEFER_START)`, `resched_cntl(DEFER_STOP)` and any other argument; `true` is OK.
pub data Defer : Type 0 where
  defer_start defer_stop other : Defer

unfoldable pub resched_cntl : Kernel → Defer → Kernel × Bool
resched_cntl k Defer.defer_start = (
  record k { ndefers = k.ndefers + 1; attempt = if k.ndefers == 0 then false else k.attempt },
  true,
)
resched_cntl k Defer.defer_stop =
    if k.ndefers == 0
    then (k, false)
    else (let k1 = record k { ndefers = k.ndefers - 1 } in
        (if k1.ndefers == 0 then (if k1.attempt then resched k1 else k1) else k1, true))
resched_cntl k Defer.other = (k, false)

unfoldable pub ready : Kernel → ℕ → Kernel × Bool
ready k pid =
    if isbadpid k pid
    then (k, false)
    else (let k1 = set_state k pid PrState.pr_ready in
        let k2 = record k1 {
          queuetab =
              (insert k1.queuetab (isbadpid k1 pid) pid k1.readylist (k1.proctab pid).prprio).0;
        } in
        (resched k2, true))

unfoldable pub yield : Kernel → Kernel
yield k = resched k

unfoldable pub getpid : Kernel → ℕ
getpid k = k.currpid

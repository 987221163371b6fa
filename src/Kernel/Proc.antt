-- ===== src/Kernel/Proc.antt =====
-- system/suspend.c, resume.c, chprio.c and getprio.c. A result is a priority, or `empty` for SYSERR.
use os_xinu.Prelude.{ℕ, ◌||◌, ◌&&◌, not, ◌==◌, if◌then◌else◌}
use os_xinu.Queue.{empty, getitem}
use os_xinu.Kernel.{Kernel, PrState, is_curr, is_ready, is_susp, isbadpid, set_proc, set_state}
use os_xinu.Kernel.Sched.{resched, ready}

-- Up to the context switch. A process that suspends itself reads the result when it runs again.
unfoldable pub suspend : Kernel → ℕ → Kernel × ℕ
suspend k pid =
    if isbadpid k pid || (pid == 0)
    then (k, empty)
    else (let st = (k.proctab pid).prstate in
        if not (is_curr st) && not (is_ready st)
        then (k, empty)
        else (let k1 =
              if is_ready st
              then set_state (record k { queuetab = (getitem k.queuetab pid).0 }) pid
                  PrState.pr_susp
              else resched (set_state k pid PrState.pr_susp) in
            (k1, (k1.proctab pid).prprio)))

unfoldable pub resume : Kernel → ℕ → Kernel × ℕ
resume k pid =
    if isbadpid k pid || not (is_susp (k.proctab pid).prstate)
    then (k, empty)
    else ((ready k pid).0, (k.proctab pid).prprio)

unfoldable pub chprio : Kernel → ℕ → ℕ → Kernel × ℕ
chprio k pid newprio =
    if isbadpid k pid
    then (k, empty)
    else (set_proc k pid (record (k.proctab pid) { prprio = newprio }), (k.proctab pid).prprio)

unfoldable pub getprio : Kernel → ℕ → ℕ
getprio k pid = if isbadpid k pid then empty else (k.proctab pid).prprio

-- ===== src/Kernel/Message.antt =====
-- system/send.c, receive.c, recvclr.c and recvtime.c. A receiving call that has to block is cut in
-- two at the context switch: `_entry` runs up to it, `_exit` when the caller `pid` runs again.
use os_xinu.Prelude.{ℕ, ◌-◌, ◌^◌, Bool, true, false, ◌||◌, not, if◌then◌else◌}
use os_xinu.Queue.{is_negative, insertd}
use os_xinu.Kernel.{Kernel, PrState, is_recv, is_rectim, isbadpid, set_proc, set_state}
use os_xinu.Kernel.Sched.{resched, ready}
use os_xinu.Kernel.Timer.{unsleep}

unfoldable pub send : Kernel → ℕ → ℕ → Kernel × Bool
send k pid msg =
    if isbadpid k pid || (k.proctab pid).prhasmsg
    then (k, false)
    else (let st = (k.proctab pid).prstate in
        let k1 = set_proc k pid (record (k.proctab pid) { prmsg = msg; prhasmsg = true }) in
        (
          if is_recv st
              then (ready k1 pid).0
              else if is_rectim st
              then (ready (unsleep k1 pid).0 pid).0
              else k1,
          true,
        ))

-- The message is taken: `msg = prptr->prmsg; prptr->prhasmsg = FALSE;`
unfoldable pub receive_exit : Kernel → ℕ → Kernel × ℕ
receive_exit k pid =
    (set_proc k pid (record (k.proctab pid) { prhasmsg = false }), (k.proctab pid).prmsg)

unfoldable pub receive_entry : Kernel → Kernel
receive_entry k =
    if not (k.proctab k.currpid).prhasmsg
    then resched (set_state k k.currpid PrState.pr_recv)
    else k

-- OK is 1.
unfoldable pub recvclr : Kernel → Kernel × ℕ
unfolding receive_exit
recvclr k = if (k.proctab k.currpid).prhasmsg then receive_exit k k.currpid else (k, 1)

-- `false` is the return of SYSERR before anything is done.
unfoldable pub recvtime_entry : Kernel → ℕ → Kernel × Bool
recvtime_entry k maxwait =
    if is_negative maxwait
    then (k, false)
    else (if not (k.proctab k.currpid).prhasmsg
        then (let (t, accepted) =
              insertd k.queuetab (isbadpid k k.currpid) k.currpid k.sleepq maxwait in
            let k1 = record k { queuetab = t } in
            if accepted
            then (resched (set_state k1 k1.currpid PrState.pr_rectim), true)
            else (k1, false))
        else (k, true))

-- TIMEOUT is -3.
unfoldable pub recvtime_exit : Kernel → ℕ → Kernel × ℕ
unfolding receive_exit
recvtime_exit k pid = if (k.proctab pid).prhasmsg then receive_exit k pid else (k, 2 ^ 32 - 3)

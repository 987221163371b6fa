-- ===== src/Kernel/Timer.antt =====
-- system/sleep.c, wakeup.c and unsleep.c.
use os_xinu.Prelude.{
  ℕ, zero, suc, ◌*◌, ◌%◌, ◌^◌, Bool, true, false, ◌||◌, ◌&&◌, not, ◌==◌, ltb, leb,
}
use os_xinu.Prelude.{if◌then◌else◌}
use os_xinu.Queue.{
  nproc, nqent, bias, firstid, firstkey, is_negative, dequeue, getitem, insertd, set_key,
}
use os_xinu.Kernel.{Kernel, PrState, is_sleep, is_rectim, isbadpid, add32, set_state}
use os_xinu.Kernel.Sched.{Defer, resched, resched_cntl, ready, yield}

abbrev pub max_seconds : ℕ
max_seconds = 4294967

-- Up to the context switch.
unfoldable pub sleepms : Kernel → ℕ → Kernel × Bool
sleepms k delay =
    if delay == 0
    then (yield k, true)
    else (let (t, accepted) = insertd k.queuetab (isbadpid k k.currpid) k.currpid k.sleepq delay in
        let k1 = record k { queuetab = t } in
        if accepted
        then (resched (set_state k1 k1.currpid PrState.pr_sleep), true)
        else (k1, false))

unfoldable pub sleep : Kernel → ℕ → Kernel × Bool
unfolding sleepms
sleep k delay =
    if ltb max_seconds delay then (k, false) else ((sleepms k ((1000 * delay) % 2 ^ 32)).0, true)

unfoldable pub unsleep : Kernel → ℕ → Kernel × Bool
unsleep k pid =
    if isbadpid k pid
    then (k, false)
    else (let st = (k.proctab pid).prstate in
        if not (is_sleep st) && not (is_rectim st)
        then (k, false)
        else (let t = k.queuetab in
            let pidnext = (t pid).next in
            let t1 =
              if is_negative pidnext || ltb pidnext nproc
              then set_key t pidnext (add32 (t pidnext).key (t pid).key)
              else t in
            (record k { queuetab = (getitem t1 pid).0 }, true)))

-- `nonempty(q)`: the comparison is signed.
abbrev nonempty : Kernel → ℕ → Bool
nonempty k q = is_negative (firstid k.queuetab q) || ltb (firstid k.queuetab q) nproc

-- The loop of `wakeup`: the queue has fewer than `nqent` entries.
unfoldable pub wakeup_loop : ℕ → Kernel → Kernel
wakeup_loop zero k = k
wakeup_loop (suc fuel) k =
    let (t, pid) = dequeue k.queuetab k.sleepq in
    let rest = wakeup_loop fuel (ready (record k { queuetab = t }) pid).0 in
    if nonempty k k.sleepq && leb (bias (firstkey k.queuetab k.sleepq)) (bias 0) then rest else k

unfoldable pub wakeup : Kernel → Kernel
unfolding wakeup_loop
wakeup k =
    let k1 = (resched_cntl k Defer.defer_start).0 in
    let k2 = wakeup_loop nqent k1 in (resched_cntl k2 Defer.defer_stop).0

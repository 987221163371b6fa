-- ===== src/Kernel/Sem.antt =====
-- system/wait.c, signal.c, signaln.c, semcreate.c, semdelete.c, semreset.c and semcount.c. The
-- Boolean results are OK and SYSERR.
use os_xinu.Prelude.{ℕ, zero, suc, ◌+◌, ◌^◌, Bool, true, false, ◌||◌, not, ◌==◌, leb, if◌then◌else◌}
use os_xinu.Queue.{nqent, nsem, empty, is_negative, enqueue, dequeue, getfirst}
use os_xinu.Kernel.{Kernel, PrState, isbadpid, isbadsem, add32, sub32, set_proc, set_sem, set_count}
use os_xinu.Kernel.Sched.{Defer, resched, resched_cntl, ready}

-- The caller is marked and queued, and the processor given up; `wait` returns OK when the caller
-- runs again.
unfoldable pub block : Kernel → ℕ → Kernel
block k sem =
    let k1 =
      set_proc k k.currpid
        (record (k.proctab k.currpid) { prstate = PrState.pr_wait; prsem = sem }) in
    let t = (enqueue k1.queuetab (isbadpid k1 k1.currpid) k1.currpid (k1.semtab sem).squeue).0 in
    resched (record k1 { queuetab = t })

unfoldable pub wait : Kernel → ℕ → Kernel × Bool
wait k sem =
    if isbadsem sem || not (k.semtab sem).used
    then (k, false)
    else (let k1 = set_count k sem (sub32 (k.semtab sem).scount 1) in
        (if is_negative (k1.semtab sem).scount then block k1 sem else k1, true))

-- `ready(dequeue(semptr->squeue))`
unfoldable pub release_first : Kernel → ℕ → Kernel
release_first k sem =
    let (t, pid) = dequeue k.queuetab (k.semtab sem).squeue in
    (ready (record k { queuetab = t }) pid).0

-- `if ((semptr->scount++) < 0) ready(dequeue(semptr->squeue));`
unfoldable pub signal_once : Kernel → ℕ → Kernel
signal_once k sem =
    let c = (k.semtab sem).scount in
    let k1 = set_count k sem (add32 c 1) in if is_negative c then release_first k1 sem else k1

unfoldable pub signal : Kernel → ℕ → Kernel × Bool
signal k sem =
    if isbadsem sem || not (k.semtab sem).used then (k, false) else (signal_once k sem, true)

unfoldable pub signal_times : ℕ → Kernel → ℕ → Kernel
signal_times zero k sem = k
signal_times (suc count) k sem = signal_times count (signal_once k sem) sem

unfoldable pub signaln : Kernel → ℕ → ℕ → Kernel × Bool
signaln k sem count =
    if isbadsem sem || is_negative count || not (k.semtab sem).used
    then (k, false)
    else (let k1 = (resched_cntl k Defer.defer_start).0 in
        let k2 = signal_times count k1 sem in ((resched_cntl k2 Defer.defer_stop).0, true))

-- The loop of `newsem`; `empty` is SYSERR.
unfoldable pub newsem_from : ℕ → Kernel → Kernel × ℕ
newsem_from zero k = (k, empty)
newsem_from (suc rounds) k =
    let sem = k.nextsem in
    let k1 = record k { nextsem = if leb nsem (sem + 1) then 0 else sem + 1 } in
    let rest = newsem_from rounds k1 in
    if not (k1.semtab sem).used
    then (set_sem k1 sem (record (k1.semtab sem) { used = true }), sem)
    else rest

unfoldable pub newsem : Kernel → Kernel × ℕ
unfolding newsem_from
newsem k = newsem_from nsem k

unfoldable pub semcreate : Kernel → ℕ → Kernel × ℕ
semcreate k count =
    if is_negative count
    then (k, empty)
    else (let (k1, sem) = newsem k in
        if sem == empty then (k1, empty) else (set_count k1 sem count, sem))

-- `while (semptr->scount++ < 0) ready(getfirst(semptr->squeue));` The count reaches 0 after at
-- most 2 ^ 31 rounds.
unfoldable pub release_all : ℕ → Kernel → ℕ → Kernel
release_all zero k sem = k
release_all (suc fuel) k sem =
    let c = (k.semtab sem).scount in
    let k1 = set_count k sem (add32 c 1) in
    let (t, pid) = getfirst k1.queuetab (k1.semtab sem).squeue in
    let rest = release_all fuel (ready (record k1 { queuetab = t }) pid).0 sem in
    if is_negative c then rest else k1

unfoldable pub semdelete : Kernel → ℕ → Kernel × Bool
semdelete k sem =
    if isbadsem sem || not (k.semtab sem).used
    then (k, false)
    else (let k1 = set_sem k sem (record (k.semtab sem) { used = false }) in
        let k2 = (resched_cntl k1 Defer.defer_start).0 in
        let k3 = release_all (2 ^ 31 + 1) k2 sem in ((resched_cntl k3 Defer.defer_stop).0, true))

-- `while ((pid=getfirst(semqueue)) != EMPTY) ready(pid);` A queue has fewer than `nqent` entries.
unfoldable pub drain : ℕ → Kernel → ℕ → Kernel
drain zero k q = k
drain (suc fuel) k q =
    let (t, pid) = getfirst k.queuetab q in
    let k1 = record k { queuetab = t } in
    let rest = drain fuel (ready k1 pid).0 q in if pid == empty then k1 else rest

unfoldable pub semreset : Kernel → ℕ → ℕ → Kernel × Bool
semreset k sem count =
    if is_negative count || isbadsem sem || not (k.semtab sem).used
    then (k, false)
    else (let k1 = (resched_cntl k Defer.defer_start).0 in
        let k2 = drain nqent k1 (k.semtab sem).squeue in
        let k3 = set_count k2 sem count in ((resched_cntl k3 Defer.defer_stop).0, true))

-- `empty` is SYSERR.
unfoldable pub semcount : Kernel → ℕ → ℕ
semcount k semid =
    if isbadsem semid || not (k.semtab semid).used then empty else (k.semtab semid).scount

-- ===== src/Kernel/Tests.antt =====
-- A kernel in which process 1 runs, 3 and 5 are ready, 7 waits for semaphore 0 and 9 is suspended,
-- and calls on it.
use os_xinu.Prelude.{◌≢◌, ℕ, ◌≡◌, refl, List, [], ◌∷◌, arith, true, false, ◌==◌, if◌then◌else◌}
use os_xinu.Queue.{Qtab, empty, min_key, max_key}
use os_xinu.Queue.Frame.{Holds}
use os_xinu.Kernel.{Kernel, PrState, Procent, Sentry}
use os_xinu.Kernel.Sched.{resched, ready}
use os_xinu.Kernel.Sem.{wait, signal, signaln}
use os_xinu.Kernel.Message.{send, receive_exit, recvtime_exit}
use os_xinu.Queue.Order.{front, rest}
use os_xinu.Kernel.Untouched.{Same}
use os_xinu.Kernel.Switch.{
  placed, Unmoved, queued, contenders, Ready, Highest, resched_lem, ready_lem,
}
use os_xinu.Kernel.Blocking.{wait_blocks}
use os_xinu.Kernel.Counts.{count_lem}
use os_xinu.Kernel.Delivery.{send_lem}

abbrev table : Qtab
table j =
    if j == 100
    then record { key = max_key; next = 3; prev = empty }
    else if j == 3
    then record { key = 30; next = 5; prev = 100 }
    else if j == 5
    then record { key = 20; next = 101; prev = 3 }
    else if j == 101
    then record { key = min_key; next = empty; prev = 5 }
    else if j == 102
    then record { key = max_key; next = 7; prev = empty }
    else if j == 7
    then record { key = 0; next = 103; prev = 102 }
    else record { key = min_key; next = empty; prev = 7 }

abbrev process : PrState → ℕ → Procent
process st prio = record { prstate = st; prprio = prio; prsem = 0; prmsg = 0; prhasmsg = false }

abbrev processes : ℕ → Procent
processes j =
    if j == 1
    then process PrState.pr_curr 25
    else if j == 3
    then process PrState.pr_ready 30
    else if j == 5
    then process PrState.pr_ready 20
    else if j == 7
    then process PrState.pr_wait 40
    else if j == 9
    then process PrState.pr_susp 22
    else process PrState.pr_free 0

-- Semaphore 0 has one process waiting, 1 has the count 3, and the others are unused.
abbrev semaphores : ℕ → Sentry
semaphores j =
    if j == 0
    then record { used = true; scount = 4294967295; squeue = 102 }
    else if j == 1
    then record { used = true; scount = 3; squeue = 104 }
    else record { used = false; scount = 0; squeue = 106 }

abbrev kernel : Kernel
kernel = record {
  queuetab = table;
  proctab = processes;
  semtab = semaphores;
  currpid = 1;
  readylist = 100;
  sleepq = 300;
  ndefers = 0;
  attempt = false;
  preempt = 2;
  nextsem = 0;
}

kernel-Ready : Ready kernel (3 ∷ 5 ∷ [])
kernel-Ready = record {
  list = record {
    chain = (refl, refl, (refl, refl, (refl, refl)));
    procs = (omega arith, (omega arith, tt));
    distinct = ((omega arith, tt), (tt, tt));
    above = omega arith;
    inside = omega arith;
  };
  sorted = ((omega arith, tt), (tt, tt));
  tail = refl;
  states = (refl, (refl, tt));
  prios = (refl, (refl, tt));
}

waiting : Holds table 102 (7 ∷ [])
waiting = record {
  chain = (refl, refl, (refl, refl));
  procs = (omega arith, tt);
  distinct = (tt, tt);
  above = omega arith;
  inside = omega arith;
}

-- Process 3 has a greater priority than process 1, and 1 than 5.
kernel-contenders : contenders kernel (3 ∷ 5 ∷ []) ≡ 3 ∷ 1 ∷ 5 ∷ []
unfolding front rest
kernel-contenders = refl

resched_example :
    (xs : List ℕ) × ((resched kernel).currpid ∷ xs ≡ contenders kernel (3 ∷ 5 ∷ []))
    × Ready (resched kernel) xs
    × Highest (resched kernel) xs
    × Unmoved kernel (resched kernel)
    × Same kernel (resched kernel)
resched_example =
    resched_lem kernel 3 (5 ∷ []) kernel-Ready refl (omega arith) (omega arith, (omega arith, tt))
      (omega arith)

ready_example :
    let (k', accepted) = ready kernel 9 in
    (accepted ≡ true)
    × (xs : List ℕ) × (k'.currpid ∷ xs
        ≡ contenders (queued kernel 9) (placed kernel 9 (3 ∷ 5 ∷ [])))
    × Ready k' xs
    × Highest k' xs
    × ((j : ℕ)
        → j ≢ 9
        → j ≢ 1
        → j ≢ k'.currpid
        → (k'.proctab j).prstate ≡ (kernel.proctab j).prstate)
    × Same kernel k'
ready_example =
    ready_lem kernel 9 (3 ∷ 5 ∷ []) refl (omega arith) (omega arith) kernel-Ready
      (omega arith, (omega arith, tt)) (omega arith, (omega arith, tt)) refl (omega arith)
      (omega arith) (omega arith)

wait_blocks_example :
    let (k', accepted) = wait kernel 0 in
    (accepted ≡ true)
    × (k'.currpid ≡ 3)
    × Holds k'.queuetab 102 (7 ∷ 1 ∷ [])
    × Ready k' (5 ∷ [])
    × Highest k' (5 ∷ [])
    × ((k'.proctab 1).prstate ≡ PrState.pr_wait)
    × ((k'.proctab 1).prsem ≡ 0)
    × ((k'.semtab 0).scount ≡ 4294967294)
wait_blocks_example =
    wait_blocks kernel 0 (7 ∷ []) 3 (5 ∷ []) refl refl refl refl (omega arith) waiting
      (omega arith, tt) kernel-Ready
      (record {
        held = kernel-Ready.list;
        heads = omega arith;
        without = (omega arith, (omega arith, tt));
        disjoint = ((omega arith, tt), ((omega arith, tt), tt));
      })
      (omega arith) ((omega arith, (omega arith, tt)), tt)

count_example :
    let (k1, waited) = wait kernel 0 in
    let (k2, signalled) = signal kernel 0 in
    let (k3, repeated) = signaln kernel 0 2 in
    (waited ≡ true)
    × (signalled ≡ true)
    × (repeated ≡ true)
    × ((k1.semtab 0).scount ≡ 4294967294)
    × ((k2.semtab 0).scount ≡ 0)
    × ((k3.semtab 0).scount ≡ 1)
    × (k1.semtab 1 ≡ kernel.semtab 1)
    × (k2.semtab 1 ≡ kernel.semtab 1)
    × (k3.semtab 1 ≡ kernel.semtab 1)
count_example = count_lem kernel 0 2 1 refl refl (omega arith) (omega arith) (omega arith)

send_example :
    let (k', accepted) = send kernel 9 77 in
    let (k1, m) = receive_exit k' 9 in
    let (k2, m') = recvtime_exit k' 9 in
    (accepted ≡ true)
    × (send k' 9 88 ≡ (k', false))
    × (m ≡ 77)
    × (m' ≡ 77)
    × ((k1.proctab 9).prhasmsg ≡ false)
    × (k2 ≡ k1)
    × ((k'.proctab 1).prmsg ≡ 0)
    × ((k'.proctab 1).prhasmsg ≡ false)
send_example = send_lem kernel 9 77 88 1 refl refl (omega arith)

-- ===== src/Kernel/Invariant/Tests.antt =====
-- A kernel after its start, with process 1 running and the null process ready, and two calls.
use os_xinu.Prelude.{
  ap, ℕ, ◌+◌, ◌-◌, ◌*◌, ◌^◌, ◌<◌, ◌≢◌, refl, List, [], ◌∷◌, arith, false, ◌==◌, if◌then◌else◌, inr,
}
use os_xinu.Queue.{Qtab, empty, max_key, min_key, nsem}
use os_xinu.Kernel.{Kernel, PrState, Procent}
use os_xinu.Kernel.Sem.{wait, signal}
use os_xinu.Kernel.Counts.{count_lem}
use os_xinu.Kernel.Invariant.{Waiting, Sound}
use os_xinu.Kernel.Invariant.Semaphores.{put, wait-Sound}
use os_xinu.Kernel.Invariant.Signal.{signal-Sound}
use os_xinu.Kernel.Invariant.Reach.{Step, Reach, Consistent, Reach-Consistent}

abbrev table : Qtab
table j =
    if j == 100
    then record { key = max_key; next = 0; prev = empty }
    else if j == 0
    then record { key = 0; next = 101; prev = 100 }
    else if j == 101
    then record { key = min_key; next = empty; prev = 0 }
    else record { key = 0; next = j + 1; prev = j - 1 }

abbrev process : PrState → ℕ → Procent
process st prio = record { prstate = st; prprio = prio; prsem = 0; prmsg = 0; prhasmsg = false }

abbrev start : Kernel
start = record {
  queuetab = table;
  proctab = λ j.
      if j == 0
      then process PrState.pr_ready 0
      else if j == 1
      then process PrState.pr_curr 20
      else process PrState.pr_free 0;
  semtab = λ j. record { used = j == 0; scount = 0; squeue = 102 + 2 * j };
  currpid = 1;
  readylist = 100;
  sleepq = 400;
  ndefers = 0;
  attempt = false;
  preempt = 2;
  nextsem = 1;
}

abbrev queues : ℕ → ℕ
queues s = 102 + 2 * s

abbrev nobody : ℕ → List ℕ
nobody s = []

nobody-Waiting : (s : ℕ) → s < nsem → Waiting start (queues s) s []
nobody-Waiting s lt = record {
  queue = refl;
  held = record {
    chain = (ground arith, ground arith);
    procs = tt;
    distinct = tt;
    above = omega arith;
    inside = omega arith;
  };
  marked = tt;
  count = record { range = omega arith; number = refl; unused = λ _. refl };
}

start-Sound : Sound start (0 ∷ []) queues nobody
start-Sound = record {
  queued = record {
    ready = record {
      list = record {
        chain = (refl, refl, (refl, refl));
        procs = (omega arith, tt);
        distinct = (tt, tt);
        above = omega arith;
        inside = omega arith;
      };
      sorted = (tt, tt);
      tail = refl;
      states = (refl, tt);
      prios = (refl, tt);
    };
    waits = nobody-Waiting;
    head = λ s lt. omega arith;
    heads = λ s s' lt lt' n. omega arith;
    listed = λ j lt e h. h.0 (ground arith);
    single = λ j e. ground arith;
    prios = λ j lt. ground arith;
  };
  top = record { current = refl; highest = (omega arith, tt) };
  inside = omega arith;
  null = inr (λ h. h.0 refl);
  prompt = refl;
}

wait-Sound_example : (xs : List ℕ) × Sound (wait start 0).0 xs queues (put nobody 0 (1 ∷ []))
wait-Sound_example = wait-Sound start (0 ∷ []) queues nobody 0 start-Sound refl refl (omega arith)

signal-Sound_example : (xs : List ℕ) × Sound (signal start 0).0 xs queues (put nobody 0 [])
signal-Sound_example =
    signal-Sound start (0 ∷ []) queues nobody 0 start-Sound refl refl (omega arith)

untouched : ((wait start 0).0.semtab 1).scount ≢ 2 ^ 31 - 1
untouched =
    let c = count_lem start 0 0 1 refl refl (omega arith) (omega arith) (omega arith) in
    omega (arith, ap (λ e. e.scount) c.6)

-- The null process signals.
Reach_example : Consistent (signal (wait start 0).0 1).0 queues
Reach_example =
    Reach-Consistent start (signal (wait start 0).0 1).0 queues
      (Reach.after (Reach.after Reach.here (Step.wait_step 0 (omega arith)))
        (Step.signal_step 1 untouched))
      ((0 ∷ []), nobody, start-Sound)

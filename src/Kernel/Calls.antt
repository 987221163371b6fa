-- ===== src/Kernel/Calls.antt =====
-- system/wait.c and signal.c where nobody blocks, and resched_cntl in system/resched.c.
use os_xinu.Prelude.{ℕ, ◌-◌, ◌^◌, ◌<◌, ◌≡◌, refl, ap, ◌∙◌, arith}
use os_xinu.Prelude.{true, false, not, ◌||◌}
use os_xinu.Queue.{is_negative}
use os_xinu.Kernel.{Kernel, isbadsem, add32, sub32, set_count}
use os_xinu.Kernel.Sched.{Defer, resched, resched_cntl}
use os_xinu.Kernel.Sem.{semcount, wait, signal, signal_once}

pub wait-passes :
    (k : Kernel) (sem : ℕ)
    → isbadsem sem ≡ false
    → (k.semtab sem).used ≡ true
    → is_negative (sub32 (k.semtab sem).scount 1) ≡ false
    → wait k sem ≡ (set_count k sem (sub32 (k.semtab sem).scount 1), true)
unfolding wait
wait-passes k sem b u n =
    let g : (isbadsem sem || not (k.semtab sem).used) ≡ false = ground (arith, b, u) in
    let c : is_negative ((set_count k sem (sub32 (k.semtab sem).scount 1)).semtab sem).scount
        ≡ false =
      ground (arith, n) in
    simp (g, c)

pub signal-passes :
    (k : Kernel) (sem : ℕ)
    → isbadsem sem ≡ false
    → (k.semtab sem).used ≡ true
    → is_negative (k.semtab sem).scount ≡ false
    → signal k sem ≡ (set_count k sem (add32 (k.semtab sem).scount 1), true)
unfolding signal signal_once
signal-passes k sem b u n =
    let g : (isbadsem sem || not (k.semtab sem).used) ≡ false = ground (arith, b, u) in simp (g, n)

pub semcount-used :
    (k : Kernel) (sem : ℕ)
    → isbadsem sem ≡ false
    → (k.semtab sem).used ≡ true
    → semcount k sem ≡ (k.semtab sem).scount
unfolding semcount
semcount-used k sem b u =
    let g : (isbadsem sem || not (k.semtab sem).used) ≡ false = ground (arith, b, u) in rw g refl

-- A used semaphore with a positive count: `wait` returns OK, lowers the count, blocks nobody and
-- changes nothing else; the `signal` that follows returns OK and raises the count to what it was.
wait_passes :
    (k : Kernel) (sem : ℕ)
    → isbadsem sem ≡ false
    → (k.semtab sem).used ≡ true
    → 0 < (k.semtab sem).scount
    → (k.semtab sem).scount < 2 ^ 31
    → let (k1, waited) = wait k sem in
      let (k2, signalled) = signal k1 sem in
      (waited ≡ true)
      × (k1 ≡ set_count k sem ((k.semtab sem).scount - 1))
      × (signalled ≡ true)
      × (k2.queuetab ≡ k.queuetab)
      × (k2.proctab ≡ k.proctab)
      × ((j : ℕ) → (k2.semtab j).scount ≡ (k.semtab j).scount)
wait_passes k sem b u some_left top =
    let c : sub32 (k.semtab sem).scount 1 ≡ (k.semtab sem).scount - 1 = omega arith in
    let k1 = set_count k sem ((k.semtab sem).scount - 1) in
    let e : wait k sem ≡ (k1, true) =
      wait-passes k sem b u (ground (arith, c)) ∙ ap (λ n. (set_count k sem n, true)) c in
    rw (e, signal-passes k1 sem b (ground arith) (ground arith))
      (refl, refl, refl, refl, refl, λ j. ground arith)

-- Deferral nests: while it is deferred already, `DEFER_START` and then `DEFER_STOP` return OK and
-- change nothing, and from 0 a request to reschedule in between is kept for the last
-- `DEFER_STOP`, which reschedules then and only then.
resched_cntl_lem :
    (k : Kernel)
    → let (k1, started) = resched_cntl k Defer.defer_start in
      let (k2, stopped) = resched_cntl k1 Defer.defer_stop in
      let (k3, again) = resched_cntl (resched k1) Defer.defer_stop in
      (started ≡ true)
      × (stopped ≡ true)
      × (again ≡ true)
      × (k2.ndefers ≡ k.ndefers)
      × (0 < k.ndefers → k2 ≡ k)
      × (k.ndefers ≡ 0 → k3 ≡ resched (record k { attempt = true }))
      × (k.ndefers ≡ 0 → k2 ≡ record k { attempt = false })
unfolding resched_cntl resched
resched_cntl_lem k = (
  ground arith,
  ground arith,
  ground arith,
  ground arith,
  λ h. ground arith,
  λ h. ground arith,
  λ h. ground arith,
)

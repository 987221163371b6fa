-- ===== src/Kernel/Counts.antt =====
-- The counts of semaphores under system/wait.c, signal.c and signaln.c.
use os_xinu.Prelude.{ℕ, zero, suc, ◌+◌, ◌-◌, ◌^◌, ◌%◌, ◌<◌, ◌≡◌, ◌≢◌, refl, ap, ◌∙◌, arith}
use os_xinu.Prelude.{true, false, not, ◌||◌, Bool-cases, inl, inr}
use os_xinu.Queue.{is_negative, dequeue, enqueue}
use os_xinu.Kernel.{Kernel, PrState, isbadpid, isbadsem, add32, sub32, set_proc, set_count}
use os_xinu.Kernel.Sched.{Defer, resched_cntl}
use os_xinu.Kernel.Sem.{wait, block, signal, signal_once, signal_times, signaln, release_first}
use os_xinu.Kernel.Untouched.{ready-Same, resched-Same}

release_first-semtab : (k : Kernel) (sem : ℕ) → (release_first k sem).semtab ≡ k.semtab
unfolding release_first
release_first-semtab k sem =
    let (t, pid) = dequeue k.queuetab (k.semtab sem).squeue in
    (ready-Same (record k { queuetab = t }) pid).semtab

signal_once-semtab :
    (k : Kernel) (sem : ℕ)
    → (signal_once k sem).semtab ≡ (set_count k sem (add32 (k.semtab sem).scount 1)).semtab
unfolding signal_once
signal_once-semtab k sem = elim (Bool-cases (is_negative (k.semtab sem).scount)) [
  | inl e ↦ rw e (release_first-semtab (set_count k sem (add32 (k.semtab sem).scount 1)) sem)
  | inr e ↦ rw e refl
]

block-semtab : (k : Kernel) (sem : ℕ) → (block k sem).semtab ≡ k.semtab
unfolding block
block-semtab k sem =
    let k1 =
      set_proc k k.currpid
        (record (k.proctab k.currpid) { prstate = PrState.pr_wait; prsem = sem }) in
    (resched-Same (record k1 {
      queuetab = (enqueue k1.queuetab (isbadpid k1 k1.currpid) k1.currpid (k1.semtab sem).squeue).0;
    })).semtab

signal_times-count :
    (count : ℕ) (k : Kernel) (sem : ℕ)
    → (((signal_times count k sem).semtab sem).scount) % 2 ^ 32
      ≡ ((k.semtab sem).scount + count) % 2 ^ 32
unfolding signal_times
signal_times-count zero k sem = ap (λ n. n % 2 ^ 32) (omega arith)
signal_times-count (suc count) k sem =
    let once : ((signal_once k sem).semtab sem).scount ≡ add32 (k.semtab sem).scount 1 =
      ap (λ s. (s sem).scount) (signal_once-semtab k sem) ∙ ground arith in
    omega (arith, once, signal_times-count count (signal_once k sem) sem)

signal_times-others :
    (count : ℕ) (k : Kernel) (sem j : ℕ)
    → j ≢ sem
    → (signal_times count k sem).semtab j ≡ k.semtab j
unfolding signal_times
signal_times-others zero k sem j n = refl
signal_times-others (suc count) k sem j n =
    signal_times-others count (signal_once k sem) sem j n
    ∙ ap (λ s. s j) (signal_once-semtab k sem)
    ∙ ground arith

signal_times-bound :
    (count : ℕ) (k : Kernel) (sem : ℕ)
    → (k.semtab sem).scount < 2 ^ 32
    → ((signal_times count k sem).semtab sem).scount < 2 ^ 32
unfolding signal_times
signal_times-bound zero k sem h = h
signal_times-bound (suc count) k sem h =
    let once : ((signal_once k sem).semtab sem).scount ≡ add32 (k.semtab sem).scount 1 =
      ap (λ s. (s sem).scount) (signal_once-semtab k sem) ∙ ground arith in
    signal_times-bound count (signal_once k sem) sem (omega (arith, once))

resched_cntl-semtab : (k : Kernel) (d : Defer) → (resched_cntl k d).0.semtab ≡ k.semtab
unfolding resched_cntl
resched_cntl-semtab k Defer.defer_start = refl
resched_cntl-semtab k Defer.defer_stop =
    ground (arith, (resched-Same (record k { ndefers = k.ndefers - 1 })).semtab)
resched_cntl-semtab k Defer.other = refl

wait-semtab :
    (k : Kernel) (sem : ℕ)
    → isbadsem sem ≡ false
    → (k.semtab sem).used ≡ true
    → ((wait k sem).1 ≡ true)
      × ((wait k sem).0.semtab ≡ (set_count k sem (sub32 (k.semtab sem).scount 1)).semtab)
unfolding wait
wait-semtab k sem b u =
    let g : (isbadsem sem || not (k.semtab sem).used) ≡ false = ground (arith, b, u) in
    let k1 = set_count k sem (sub32 (k.semtab sem).scount 1) in
    rw g (
      refl,
      elim (Bool-cases (is_negative (k1.semtab sem).scount)) [
        | inl e ↦ simp e (block-semtab k1 sem)
        | inr e ↦ simp e
      ],
    )

signal-semtab :
    (k : Kernel) (sem : ℕ)
    → isbadsem sem ≡ false
    → (k.semtab sem).used ≡ true
    → ((signal k sem).1 ≡ true)
      × ((signal k sem).0.semtab ≡ (set_count k sem (add32 (k.semtab sem).scount 1)).semtab)
unfolding signal
signal-semtab k sem b u =
    let g : (isbadsem sem || not (k.semtab sem).used) ≡ false = ground (arith, b, u) in
    rw g (refl, signal_once-semtab k sem)

signaln-semtab :
    (k : Kernel) (sem count : ℕ)
    → isbadsem sem ≡ false
    → (k.semtab sem).used ≡ true
    → count < 2 ^ 31
    → ((signaln k sem count).1 ≡ true)
      × ((signaln k sem count).0.semtab
          ≡ (signal_times count (resched_cntl k Defer.defer_start).0 sem).semtab)
unfolding signaln
signaln-semtab k sem count b u c =
    let g : (isbadsem sem || is_negative count || not (k.semtab sem).used) ≡ false =
      ground (arith, b, u) in
    rw g (
      refl,
      resched_cntl-semtab (signal_times count (resched_cntl k Defer.defer_start).0 sem)
          Defer.defer_stop,
    )

-- On a semaphore in use, whatever its count and whoever is blocked, resumed or rescheduled on the
-- way: `wait` lowers its count by one, `signal` raises it by one and `signaln` by `count`, each
-- modulo 2 ^ 32, all return OK, and the other semaphores stay.
pub count_lem :
    (k : Kernel) (sem count j : ℕ)
    → isbadsem sem ≡ false
    → (k.semtab sem).used ≡ true
    → (k.semtab sem).scount < 2 ^ 32
    → count < 2 ^ 31
    → j ≢ sem
    → let (k1, waited) = wait k sem in
      let (k2, signalled) = signal k sem in
      let (k3, repeated) = signaln k sem count in
      (waited ≡ true)
      × (signalled ≡ true)
      × (repeated ≡ true)
      × ((k1.semtab sem).scount ≡ sub32 (k.semtab sem).scount 1)
      × ((k2.semtab sem).scount ≡ add32 (k.semtab sem).scount 1)
      × ((k3.semtab sem).scount ≡ add32 (k.semtab sem).scount count)
      × (k1.semtab j ≡ k.semtab j)
      × (k2.semtab j ≡ k.semtab j)
      × (k3.semtab j ≡ k.semtab j)
count_lem k sem count j b u h c n =
    let k0 = (resched_cntl k Defer.defer_start).0 in
    let (w, wt) = wait-semtab k sem b u in
    let (s, st) = signal-semtab k sem b u in
    let (m, mt) = signaln-semtab k sem count b u c in
    let e = resched_cntl-semtab k Defer.defer_start in
    let start : (k0.semtab sem).scount ≡ (k.semtab sem).scount = ap (λ t. (t sem).scount) e in
    (
      w,
      s,
      m,
      ap (λ t. (t sem).scount) wt ∙ ground arith,
      ap (λ t. (t sem).scount) st ∙ ground arith,
      ap (λ t. (t sem).scount) mt
          ∙ omega (
            arith,
            start,
            signal_times-count count k0 sem,
            signal_times-bound count k0 sem (omega (arith, start)),
          ),
      ap (λ t. t j) wt ∙ ground arith,
      ap (λ t. t j) st ∙ ground arith,
      ap (λ t. t j) mt ∙ signal_times-others count k0 sem j n ∙ ap (λ t. t j) e,
    )

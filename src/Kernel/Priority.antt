-- ===== src/Kernel/Priority.antt =====
-- system/suspend.c of a ready process, chprio.c and getprio.c.
use os_xinu.Prelude.{ℕ, ◌≤◌, ◌≡◌, ◌≢◌, refl, sym, ap, ◌∙◌, arith, List, [], ◌∷◌, ◌++◌}
use os_xinu.Prelude.{All, All-left, All-right, All-append, All-map, zip_All}
use os_xinu.Prelude.{true, false, ◌||◌, ◌==◌}
use os_xinu.Queue.{Qtab, bias, queuetail, getitem}
use os_xinu.Queue.Frame.{Holds, Beside, Distinct-split}
use os_xinu.Queue.Fifo.{getitem_lem, getitem-key}
use os_xinu.Queue.Order.{Descending, Descending-frame}
use os_xinu.Kernel.{Kernel, PrState, is_curr, is_ready, isbadpid, set_state, set_proc}
use os_xinu.Kernel.Proc.{suspend, chprio, getprio}
use os_xinu.Kernel.Switch.{Ready}

pub All-remove :
    (P : ℕ → Type 0) (xs : List ℕ) (pid : ℕ) (ys : List ℕ)
    → All P (xs ++ (pid ∷ ys))
    → All P (xs ++ ys)
All-remove P xs pid ys a =
    All-append P xs ys (All-left P xs (pid ∷ ys) a) (All-right P xs (pid ∷ ys) a).1

pub Descending-remove :
    (t : Qtab) (xs : List ℕ) (pid : ℕ) (ys : List ℕ)
    → Descending t (xs ++ (pid ∷ ys))
    → Descending t (xs ++ ys)
Descending-remove t [] pid ys d = d.1
Descending-remove t (x ∷ xs) pid ys d = (
  All-remove (λ y. bias (t y).key ≤ bias (t x).key) xs pid ys d.0,
  Descending-remove t xs pid ys d.1,
)

abbrev pub suspended : Kernel → ℕ → Kernel
suspended k pid = set_state (record k { queuetab = (getitem k.queuetab pid).0 }) pid PrState.pr_susp

pub suspend-eq :
    (k : Kernel) (pid : ℕ)
    → isbadpid k pid ≡ false
    → pid ≢ 0
    → (k.proctab pid).prstate ≡ PrState.pr_ready
    → suspend k pid ≡ (suspended k pid, (k.proctab pid).prprio)
unfolding suspend
suspend-eq k pid b n e =
    let g : (isbadpid k pid || (pid == 0)) ≡ false = ground (arith, b) in
    let r : is_ready (k.proctab pid).prstate ≡ true = ap is_ready e in
    let c : is_curr (k.proctab pid).prstate ≡ false = ap is_curr e in
    let same : ((suspended k pid).proctab pid).prprio ≡ (k.proctab pid).prprio = ground arith in
    simp (g, r, c) (ap (λ p. (suspended k pid, p)) same)

-- `suspend` of a process anywhere on the ready list, other than the null process: it returns the
-- priority of the process, which is marked suspended and taken off the ready list; the list keeps
-- the others in order, with their priorities as keys, no process is rescheduled, and every other
-- queue stays.
pub suspend_lem :
    (k : Kernel) (xs : List ℕ) (pid : ℕ) (ys : List ℕ) (q' : ℕ) (zs : List ℕ)
    → Ready k (xs ++ (pid ∷ ys))
    → isbadpid k pid ≡ false
    → pid ≢ 0
    → Beside k.queuetab k.readylist (xs ++ (pid ∷ ys)) pid q' zs
    → let (k', prio) = suspend k pid in
      (prio ≡ (k.proctab pid).prprio)
      × ((k'.proctab pid).prstate ≡ PrState.pr_susp)
      × Ready k' (xs ++ ys)
      × (k'.currpid ≡ k.currpid)
      × Holds k'.queuetab q' zs
suspend_lem k xs pid ys q' zs h b n o =
    let g = getitem_lem xs ys pid h.list o in
    let st = (All-right (λ j. (k.proctab j).prstate ≡ PrState.pr_ready) xs (pid ∷ ys) h.states).0 in
    let t = (getitem k.queuetab pid).0 in
    let (before, after) = Distinct-split xs pid ys h.list.distinct in
    let new : All (λ j. j ≢ pid) (xs ++ ys) =
      All-append (λ j. j ≢ pid) xs ys before (All-map ys (λ j p e. p (sym e)) after) in
    let states = All-remove (λ j. (k.proctab j).prstate ≡ PrState.pr_ready) xs pid ys h.states in
    let prios = All-remove (λ j. (k.queuetab j).key ≡ (k.proctab j).prprio) xs pid ys h.prios in
    rw (suspend-eq k pid b n st) (
      refl,
      ground arith,
      record {
        list = g.1;
        sorted =
            Descending-frame k.queuetab t (xs ++ ys)
              (All-map (xs ++ ys) (λ j p. getitem-key k.queuetab pid j) new)
              (Descending-remove k.queuetab xs pid ys h.sorted);
        tail = getitem-key k.queuetab pid (queuetail k.readylist) ∙ h.tail;
        states =
            All-map (xs ++ ys) (λ j p. ground arith)
              (zip_All (λ j. (k.proctab j).prstate ≡ PrState.pr_ready) (λ j. j ≢ pid) (xs ++ ys)
                states new);
        prios =
            All-map (xs ++ ys) (λ j p. getitem-key k.queuetab pid j ∙ p.0 ∙ ground arith)
              (zip_All (λ j. (k.queuetab j).key ≡ (k.proctab j).prprio) (λ j. j ≢ pid) (xs ++ ys)
                prios new);
      },
      refl,
      g.2,
    )

-- `chprio` of a process returns its old priority, which `getprio` returned before, and `getprio`
-- returns the new one after; the queues, with the keys of the ready list, and the current process
-- stay, and so do the entries of the other processes.
chprio_lem :
    (k : Kernel) (pid newprio j : ℕ)
    → isbadpid k pid ≡ false
    → j ≢ pid
    → let (k', oldprio) = chprio k pid newprio in
      (oldprio ≡ getprio k pid)
      × (getprio k' pid ≡ newprio)
      × (k'.queuetab ≡ k.queuetab)
      × (k'.currpid ≡ k.currpid)
      × (k'.proctab j ≡ k.proctab j)
unfolding chprio getprio
chprio_lem k pid newprio j b n =
    let k' = set_proc k pid (record (k.proctab pid) { prprio = newprio }) in
    let b' : isbadpid k' pid ≡ false = ground (arith, b) in
    simp b (refl, simp b' (ground arith), refl, refl, ground arith)

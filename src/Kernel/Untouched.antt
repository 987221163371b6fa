-- ===== src/Kernel/Untouched.antt =====
-- What system/resched.c and ready.c leave as it is: the semaphores, the messages, the priorities
-- and the queues' heads.
use os_xinu.Prelude.{ℕ, ◌≡◌, refl, ◌∙◌, arith, Bool-cases, inl, inr}
use os_xinu.Queue.{insert}
use os_xinu.Kernel.{Kernel, PrState, isbadpid, set_state}
use os_xinu.Kernel.Sched.{resched, ready, dispatch, requeue}

-- Two states that differ at most in the scheduling.
pub record Same (k k' : Kernel) : Type 0 where
  pub semtab : k'.semtab ≡ k.semtab
  pub prmsg : (j : ℕ) → (k'.proctab j).prmsg ≡ (k.proctab j).prmsg
  pub prhasmsg : (j : ℕ) → (k'.proctab j).prhasmsg ≡ (k.proctab j).prhasmsg
  pub prprio : (j : ℕ) → (k'.proctab j).prprio ≡ (k.proctab j).prprio
  pub prsem : (j : ℕ) → (k'.proctab j).prsem ≡ (k.proctab j).prsem

pub Same-trans : {k1 k2 k3 : Kernel} → Same k1 k2 → Same k2 k3 → Same k1 k3
Same-trans a b = record {
  semtab = b.semtab ∙ a.semtab;
  prmsg = λ j. b.prmsg j ∙ a.prmsg j;
  prhasmsg = λ j. b.prhasmsg j ∙ a.prhasmsg j;
  prprio = λ j. b.prprio j ∙ a.prprio j;
  prsem = λ j. b.prsem j ∙ a.prsem j;
}

pub resched-Same : (k : Kernel) → Same k (resched k)
unfolding resched dispatch requeue
resched-Same k = record {
  semtab = ground arith;
  prmsg = λ j. ground arith;
  prhasmsg = λ j. ground arith;
  prprio = λ j. ground arith;
  prsem = λ j. ground arith;
}

-- The process marked and inserted.
abbrev readied : Kernel → ℕ → Kernel
readied k pid =
    let k1 = set_state k pid PrState.pr_ready in
    record k1 {
      queuetab = (insert k1.queuetab (isbadpid k1 pid) pid k1.readylist (k1.proctab pid).prprio).0;
    }

readied-Same : (k : Kernel) (pid : ℕ) → Same k (readied k pid)
readied-Same k pid = record {
  semtab = refl;
  prmsg = λ j. ground arith;
  prhasmsg = λ j. ground arith;
  prprio = λ j. ground arith;
  prsem = λ j. ground arith;
}

pub ready-Same : (k : Kernel) (pid : ℕ) → Same k (ready k pid).0
unfolding ready
ready-Same k pid = elim (Bool-cases (isbadpid k pid)) [
  | inl e ↦ rw e (record {
    semtab = refl;
    prmsg = λ j. refl;
    prhasmsg = λ j. refl;
    prprio = λ j. refl;
    prsem = λ j. refl;
  })
  | inr e ↦ rw e (Same-trans (readied-Same k pid) (resched-Same (readied k pid)))
]

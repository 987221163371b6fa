-- ===== src/Kernel/Invariant/Suspending.antt =====
-- system/suspend.c: of a ready process, and of the current one.
use os_xinu.Prelude.{
  ℕ, ◌<◌, ◌≤◌, ◌≡◌, ◌≢◌, inl, inr, refl, sym, ◌∙◌, ap, arith, List, [], ◌∷◌, ◌++◌,
}
use os_xinu.Prelude.{
  All, All-map, All-append, All-left, All-right, zip_All, true, false, ◌||◌, ◌==◌, Bool-cases,
}
use mathlib.Core.Path.{subst}
use os_xinu.Queue.{nsem, bias}
use os_xinu.Queue.Frame.{Distinct-split}
use os_xinu.Queue.Fifo.{getitem_lem}
use os_xinu.Kernel.{Kernel, PrState, is_curr, is_ready, isbadpid, set_state}
use os_xinu.Kernel.Sched.{resched}
use os_xinu.Kernel.Proc.{suspend}
use os_xinu.Kernel.Switch.{Ready, is_curr-eq}
use os_xinu.Kernel.Priority.{suspend_lem, suspend-eq, suspended, All-remove}
use os_xinu.Kernel.Invariant.{Member, Sound, Waiting-frame, outside_waits, Beside-ready}
use os_xinu.Kernel.Invariant.Leaving.{leave-Sound}

-- Where an item stands.
Member-split :
    (x : ℕ) (xs : List ℕ) → Member x xs → (fs : List ℕ) × (bs : List ℕ) × (xs ≡ fs ++ (x ∷ bs))
Member-split x [] m = absurd (m tt)
Member-split x (y ∷ xs) m = elim (Bool-cases (y == x)) [
  | inl e ↦ ([], xs, ap (λ z. z ∷ xs) (ground arith))
  | inr e ↦
      let (fs, bs, q) = Member-split x xs (λ h. m (ground arith, h)) in
      (y ∷ fs, bs, ap (λ l. y ∷ l) q)
]

Member-remove : (x y : ℕ) (fs bs : List ℕ) → y ≢ x → Member x (fs ++ (y ∷ bs)) → Member x (fs ++ bs)
Member-remove x y fs bs n m h = m (
    All-append (λ j. j ≢ x) fs (y ∷ bs) (All-left (λ j. j ≢ x) fs bs h)
      (n, All-right (λ j. j ≢ x) fs bs h))

-- A ready process leaves the ready list.
suspended-Sound :
    (k : Kernel) (fs : List ℕ) (pid : ℕ) (bs : List ℕ) (Q : ℕ → ℕ) (W : ℕ → List ℕ)
    → Sound k (fs ++ (pid ∷ bs)) Q W
    → isbadpid k pid ≡ false
    → pid ≢ 0
    → Sound (suspended k pid) (fs ++ bs) Q W
suspended-Sound k fs pid bs Q W h b n =
    let p = h.queued in
    let rs = fs ++ (pid ∷ bs) in
    let k' = suspended k pid in
    let st : (k.proctab pid).prstate ≡ PrState.pr_ready =
      (All-right (λ j. (k.proctab j).prstate ≡ PrState.pr_ready) fs (pid ∷ bs) p.ready.states).0 in
    let nw = outside_waits p pid (λ e. cc (e, st)) in
    let first : 0 < nsem = omega arith in
    let r =
      suspend_lem k fs pid bs (Q 0) (W 0) p.ready b n (Beside-ready p 0 pid first (nw 0 first)) in
    let e = suspend-eq k pid b n st in
    let (before, behind) = Distinct-split fs pid bs p.ready.list.distinct in
    let new : All (λ j. j ≢ pid) (fs ++ bs) =
      All-append (λ j. j ≢ pid) fs bs before (All-map bs (λ j p e. p (sym e)) behind) in
    let other : k.currpid ≢ pid = λ q. cc (h.top.current, st, ap k.proctab q) in
    record {
      queued = record {
        ready = subst (λ s. Ready s.0 (fs ++ bs)) e r.2;
        waits = λ s lt.
            Waiting-frame k k' (Q s) s (W s) (p.waits s lt) refl
              (getitem_lem fs bs pid p.ready.list (Beside-ready p s pid lt (nw s lt))).2
              (All-map (W s) (λ j m. ground arith) (nw s lt));
        head = p.head;
        heads = p.heads;
        listed = λ j lt g. elim (Bool-cases (pid == j)) [
          | inl z ↦ absurd (ground arith)
          | inr z ↦ Member-remove j pid fs bs (ground arith) (p.listed j lt (ground arith))
        ];
        single = λ j g. p.single j (ground arith);
        prios = λ j lt. ground (arith, p.prios j lt);
      };
      top = record {
        current = ground (arith, h.top.current);
        highest =
            All-map (fs ++ bs) (λ j a. ground (arith, a.0, a.1))
              (zip_All (λ j. bias (k.proctab j).prprio ≤ bias (k.proctab k.currpid).prprio)
                (λ j. j ≢ pid) (fs ++ bs)
                (All-remove (λ j. bias (k.proctab j).prprio ≤ bias (k.proctab k.currpid).prprio) fs
                  pid bs h.top.highest)
                new);
      };
      inside = h.inside;
      null = elim h.null [ inl z ↦ inl z | inr z ↦ inr (Member-remove 0 pid fs bs n z) ];
      prompt = h.prompt;
    }

suspend_self :
    (k : Kernel) (pid : ℕ)
    → isbadpid k pid ≡ false
    → pid ≢ 0
    → (k.proctab pid).prstate ≡ PrState.pr_curr
    → (suspend k pid).0 ≡ resched (set_state k pid PrState.pr_susp)
unfolding suspend
suspend_self k pid b n e =
    let g : (isbadpid k pid || (pid == 0)) ≡ false = ground (arith, b) in
    let r : is_ready (k.proctab pid).prstate ≡ false = ap is_ready e in
    let c : is_curr (k.proctab pid).prstate ≡ true = ap is_curr e in simp (g, r, c)

suspend-refused : (k : Kernel) (pid : ℕ) → isbadpid k pid ≡ true → (suspend k pid).0 ≡ k
unfolding suspend
suspend-refused k pid b =
    let g : (isbadpid k pid || (pid == 0)) ≡ true = ground (arith, b) in simp g

suspend-null : (k : Kernel) (pid : ℕ) → pid ≡ 0 → (suspend k pid).0 ≡ k
unfolding suspend
suspend-null k pid b = let g : (isbadpid k pid || (pid == 0)) ≡ true = ground arith in simp g

suspend-other :
    (k : Kernel) (pid : ℕ)
    → is_curr (k.proctab pid).prstate ≡ false
    → is_ready (k.proctab pid).prstate ≡ false
    → (suspend k pid).0 ≡ k
unfolding suspend
suspend-other k pid c r = elim (Bool-cases (isbadpid k pid || (pid == 0))) [
  | inl g ↦ simp g
  | inr g ↦ simp (g, r, c)
]

is_ready-eq : (st : PrState) → is_ready st ≡ true → st ≡ PrState.pr_ready
is_ready-eq PrState.pr_ready h = refl
is_ready-eq st h = cc

pub suspend-Sound :
    (k : Kernel) (rs : List ℕ) (Q : ℕ → ℕ) (W : ℕ → List ℕ) (pid : ℕ)
    → Sound k rs Q W
    → (xs : List ℕ) × Sound (suspend k pid).0 xs Q W
suspend-Sound k rs Q W pid h = elim (Bool-cases (isbadpid k pid)) [
  | inl b ↦ rw (suspend-refused k pid b) (rs, h)
  | inr b ↦ elim (Bool-cases (pid == 0)) [
    | inl z ↦ rw (suspend-null k pid (ground arith)) (rs, h)
    | inr z ↦
        let n : pid ≢ 0 = ground arith in
        elim (Bool-cases (is_ready (k.proctab pid).prstate)) [
          | inl r ↦
              let st = is_ready-eq (k.proctab pid).prstate r in
              let (fs, bs, e) = Member-split pid rs (h.queued.listed pid (ground (arith, b)) st) in
              rw (suspend-eq k pid b n st)
                (fs ++ bs, suspended-Sound k fs pid bs Q W (subst (λ l. Sound k l Q W) e h) b n)
          | inr r ↦ elim (Bool-cases (is_curr (k.proctab pid).prstate)) [
            | inl c ↦
                let st = is_curr-eq (k.proctab pid).prstate c in
                let e = h.queued.single pid st in
                rw (suspend_self k pid b n st) (
                  subst
                    (λ i. (xs : List ℕ) × Sound (resched (set_state k i PrState.pr_susp)) xs Q W)
                    (sym e)
                    (leave-Sound k rs Q W PrState.pr_susp h (λ q. n (e ∙ q)) (λ q. cc q)
                      (λ q. cc q)))
            | inr c ↦ rw (suspend-other k pid c r) (rs, h)
          ]
        ]
  ]
]

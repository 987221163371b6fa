-- ===== src/Kernel/Invariant/Creating.antt =====
-- system/semcreate.c.
use os_xinu.Prelude.{
  ◌+◌, leb, ℕ, zero, suc, ◌^◌, ◌<◌, ◌≡◌, ◌≢◌, refl, sym, ◌∙◌, ap, arith, List, length, Bool-cases,
  inl, inr, All-map, false, not, ◌==◌, if◌then◌else◌,
}
use os_xinu.Queue.{nsem, empty, is_negative}
use os_xinu.Kernel.{Kernel, Sentry, set_count}
use os_xinu.Kernel.Sem.{semcreate, newsem, newsem_from}
use os_xinu.Kernel.Creation.{semcreate_lem}
use os_xinu.Kernel.Invariant.{Sound, Waiting-frame}

-- A kernel with other semaphores.
abbrev with_semaphores : Kernel → (ℕ → Sentry) → ℕ → Kernel
with_semaphores k f n = record k { semtab = f; nextsem = n }

newsem_from-eq :
    (rounds : ℕ) (k : Kernel)
    → let k' = (newsem_from rounds k).0 in k' ≡ with_semaphores k k'.semtab k'.nextsem
unfolding newsem_from
newsem_from-eq zero k = refl
newsem_from-eq (suc rounds) k =
    let next = if leb nsem (k.nextsem + 1) then 0 else k.nextsem + 1 in
    elim (Bool-cases (not (k.semtab k.nextsem).used)) [
      | inl e ↦ rw e
      | inr e ↦ rw e (newsem_from-eq rounds (record k { nextsem = next }))
    ]

semcreate-eq_with :
    (k : Kernel) (count : ℕ)
    → let k' = (semcreate k count).0 in k' ≡ with_semaphores k k'.semtab k'.nextsem
unfolding semcreate newsem
semcreate-eq_with k count = elim (Bool-cases (is_negative count)) [
  | inl e ↦ rw e
  | inr e ↦ elim (Bool-cases ((newsem_from nsem k).1 == empty)) [
    | inl f ↦ rw (e, f) (newsem_from-eq nsem k)
    | inr f ↦
        rw (e, f) (ap (λ k'. set_count k' (newsem_from nsem k).1 count) (newsem_from-eq nsem k))
  ]
]

with_semaphores-Sound :
    (k : Kernel) (rs : List ℕ) (Q : ℕ → ℕ) (W : ℕ → List ℕ) (f : ℕ → Sentry) (n sem : ℕ)
    → Sound k rs Q W
    → (k.semtab sem).used ≡ false
    → (f sem).scount < 2 ^ 31
    → (f sem).squeue ≡ (k.semtab sem).squeue
    → ((i : ℕ) → i ≢ sem → f i ≡ k.semtab i)
    → Sound (with_semaphores k f n) rs Q W
with_semaphores-Sound k rs Q W f n sem h u c q o =
    let p = h.queued in
    let k' = with_semaphores k f n in
    record {
      queued = record {
        ready = record {
          list = p.ready.list;
          sorted = p.ready.sorted;
          tail = p.ready.tail;
          states = p.ready.states;
          prios = p.ready.prios;
        };
        waits = λ s lt. elim (Bool-cases (sem == s)) [
          | inl z ↦
              let w = p.waits s lt in
              let same : sem ≡ s = ground arith in
              let none : length (W s) ≡ 0 =
                w.count.unused (ap (λ i. (k.semtab i).used) (sym same) ∙ u) in
              let low : (f s).scount < 2 ^ 31 = rw (← same) c in
              record {
                queue =
                    ap (λ i. (f i).squeue) (sym same)
                    ∙ q
                    ∙ ap (λ i. (k.semtab i).squeue) same
                    ∙ w.queue;
                held = w.held;
                marked = w.marked;
                count = record {
                  range = omega (arith, low);
                  number = ground (arith, none, low);
                  unused = λ _. none;
                };
              }
          | inr z ↦
              Waiting-frame k k' (Q s) s (W s) (p.waits s lt) (o s (ground arith))
                (p.waits s lt).held (All-map (W s) (λ j m. refl) (p.waits s lt).marked)
        ];
        head = p.head;
        heads = p.heads;
        listed = p.listed;
        single = p.single;
        prios = p.prios;
      };
      top = record { current = h.top.current; highest = h.top.highest };
      inside = h.inside;
      null = h.null;
      prompt = h.prompt;
    }

pub semcreate-Sound :
    (k : Kernel) (rs : List ℕ) (Q : ℕ → ℕ) (W : ℕ → List ℕ) (count j : ℕ)
    → Sound k rs Q W
    → count < 2 ^ 31
    → k.nextsem < nsem
    → j < nsem
    → (k.semtab j).used ≡ false
    → Sound (semcreate k count).0 rs Q W
semcreate-Sound k rs Q W count j h c n lt u =
    let (k', sem) = semcreate k count in
    let f = semcreate_lem k count j c n lt u in
    rw (semcreate-eq_with k count)
      (with_semaphores-Sound k rs Q W k'.semtab k'.nextsem sem h f.1 (omega (arith, f.3)) f.4 f.5)

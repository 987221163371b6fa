-- ===== src/Kernel/Creation.antt =====
-- system/semcreate.c: the circular search for an unused semaphore.
use os_xinu.Prelude.{ℕ, zero, suc, ◌+◌, ◌-◌, ◌^◌, ◌%◌, ◌<◌, ◌≡◌, ◌≢◌, refl, ap, ◌∙◌, arith}
use os_xinu.Prelude.{true, false, ◌==◌, leb, Bool-cases, inl, inr, if◌then◌else◌}
use os_xinu.Queue.{nsem, empty, is_negative}
use os_xinu.Kernel.{Kernel, set_count}
use os_xinu.Kernel.Sem.{newsem_from, newsem, semcreate}

-- What the search gives.
record Found (k k' : Kernel) (sem : ℕ) : Type 0 where
  bound : sem < nsem
  unused : (k.semtab sem).used ≡ false
  now : (k'.semtab sem).used ≡ true
  others : (j : ℕ) → j ≢ sem → k'.semtab j ≡ k.semtab j
  queues : (j : ℕ) → (k'.semtab j).squeue ≡ (k.semtab j).squeue

newsem_from_lem :
    (rounds : ℕ) (k : Kernel) (j : ℕ)
    → k.nextsem < nsem
    → j < nsem
    → (k.semtab j).used ≡ false
    → (j + nsem - k.nextsem) % nsem < rounds
    → let (k', sem) = newsem_from rounds k in Found k k' sem
unfolding newsem_from
newsem_from_lem zero k j n b u r = absurd (omega arith)
newsem_from_lem (suc rounds) k j n b u r =
    let sem = k.nextsem in
    let next = if leb nsem (sem + 1) then 0 else sem + 1 in
    let k1 = record k { nextsem = next } in
    elim (Bool-cases (k.semtab sem).used) [
      | inl e ↦
          let ne : j ≢ sem = λ p. ground arith in
          let bound : next < nsem = ground arith in
          let closer : (j + nsem - next) % nsem < rounds = ground arith in
          let l = newsem_from_lem rounds k1 j bound b u closer in
          simp e (record {
            bound = l.bound;
            unused = l.unused;
            now = l.now;
            others = l.others;
            queues = l.queues;
          })
      | inr e ↦ simp e (record {
        bound = n;
        unused = e;
        now = ground arith;
        others = λ i p. ground arith;
        queues = λ i. ground arith;
      })
    ]

newsem_lem :
    (k : Kernel) (j : ℕ)
    → k.nextsem < nsem
    → j < nsem
    → (k.semtab j).used ≡ false
    → Found k (newsem k).0 (newsem k).1
unfolding newsem
newsem_lem k j n b u = newsem_from_lem nsem k j n b u (omega arith)

semcreate-eq :
    (k k1 : Kernel) (count sem : ℕ)
    → newsem k ≡ (k1, sem)
    → count < 2 ^ 31
    → sem < nsem
    → semcreate k count ≡ (set_count k1 sem count, sem)
unfolding semcreate
semcreate-eq k k1 count sem e c b =
    let pos : is_negative count ≡ false = ground arith in
    let real : (sem == empty) ≡ false = ground arith in simp (pos, e, real)

set-same :
    (k : Kernel) (sem count : ℕ)
    → (set_count k sem count).semtab sem ≡ record (k.semtab sem) { scount = count }
set-same k sem count = ground arith

set-other : (k : Kernel) (sem count i : ℕ) → i ≢ sem → (set_count k sem count).semtab i ≡ k.semtab i
set-other k sem count i n = ground arith

-- While some semaphore is unused and the count is not negative, `semcreate` returns a semaphore
-- that was unused, which is then in use with that count and its old queue; the others stay.
pub semcreate_lem :
    (k : Kernel) (count j : ℕ)
    → count < 2 ^ 31
    → k.nextsem < nsem
    → j < nsem
    → (k.semtab j).used ≡ false
    → let (k', sem) = semcreate k count in
      (sem < nsem)
      × ((k.semtab sem).used ≡ false)
      × ((k'.semtab sem).used ≡ true)
      × ((k'.semtab sem).scount ≡ count)
      × ((k'.semtab sem).squeue ≡ (k.semtab sem).squeue)
      × ((i : ℕ) → i ≢ sem → k'.semtab i ≡ k.semtab i)
semcreate_lem k count j c n b u =
    let sem = (newsem k).1 in
    let f = newsem_lem k j n b u in
    rw (semcreate-eq k (newsem k).0 count sem refl c f.bound) (
      f.bound,
      f.unused,
      ap (λ s. s.used) (set-same (newsem k).0 sem count) ∙ f.now,
      ap (λ s. s.scount) (set-same (newsem k).0 sem count),
      ap (λ s. s.squeue) (set-same (newsem k).0 sem count) ∙ f.queues sem,
      λ i p. set-other (newsem k).0 sem count i p ∙ f.others i p,
    )

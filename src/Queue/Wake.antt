-- ===== src/Queue/Wake.antt =====
-- The wake-up times of a delta list before and after system/insertd.c.
use os_xinu.Prelude.{ℕ, ◌+◌, ◌-◌, ◌%◌, ◌^◌, ◌<◌, ◌≤◌, ◌≡◌, ◌≢◌, refl, List, [], ◌∷◌, ◌++◌, arith}
use os_xinu.Prelude.{
  All, All-left, All-right, All-map, Distinct, true, false, not, ◌==◌, if◌then◌else◌,
}
use os_xinu.Prelude.{sym, ◌∙◌, ap, pigeonhole, zip_All}
use mathlib.Core.Path.{◌≡⟨◌⟩◌, ◌∎, ap₂}
use os_xinu.Queue.{Qtab, nproc, nqent, queuetail, set_key, insertd}
use os_xinu.Queue.Chain.{last_or, first_or, Chain-frame, next-Chain}
use os_xinu.Queue.Frame.{Holds, Beside, Distinct-split}
use os_xinu.Queue.Fifo.{isbadqid-Holds}
use os_xinu.Queue.Order.{inserted, Holds-inserted, Beside-inserted}
use os_xinu.Queue.Delta.{
  Delays, wake, total, sooner, after, left_over, sooner-append-after, total-add-left_over, Later,
  after-Later, insertd_position_lem,
}

wake-append :
    (t : Qtab) (now : ℕ) (xs ys : List ℕ)
    → wake t now (xs ++ ys) ≡ wake t now xs ++ wake t (now + total t xs) ys
wake-append t now [] ys = ap (λ k. wake t k ys) (omega arith)
wake-append t now (x ∷ xs) ys =
    ap (λ k. (now + (t x).key) ∷ k)
      (wake-append t (now + (t x).key) xs ys
        ∙ ap (λ k. wake t (now + (t x).key) xs ++ wake t k ys) (omega arith))

wake-frame :
    (t t' : Qtab) (now : ℕ) (xs : List ℕ)
    → All (λ x. (t' x).key ≡ (t x).key) xs
    → wake t' now xs ≡ wake t now xs
wake-frame t t' now [] h = refl
wake-frame t t' now (x ∷ xs) h =
    rw h.0 (ap (λ k. (now + (t x).key) ∷ k) (wake-frame t t' (now + (t x).key) xs h.1))

total-frame :
    (t t' : Qtab) (xs : List ℕ) → All (λ x. (t' x).key ≡ (t x).key) xs → total t' xs ≡ total t xs
total-frame t t' [] h = refl
total-frame t t' (x ∷ xs) h = omega (arith, h.0, total-frame t t' xs h.1)

-- A new entry, and a shorter delay for the one behind it.
record Delayed (t t' : Qtab) (xs : List ℕ) (pid left : ℕ) (ys : List ℕ) : Type 0 where
  own : (t' pid).key ≡ left
  before : All (λ x. (t' x).key ≡ (t x).key) xs
  behind : wake t' left ys ≡ wake t 0 ys

-- Where the times count from does not matter to an equation between them.
wake-shift :
    (t t' : Qtab) (a b now : ℕ) (ys : List ℕ)
    → wake t' a ys ≡ wake t b ys
    → wake t' (now + a) ys ≡ wake t (now + b) ys
wake-shift t t' a b now [] e = refl
wake-shift t t' a b now (y ∷ ys) e =
    let h : a + (t' y).key ≡ b + (t y).key = cc in
    let r : wake t' (a + (t' y).key) ys ≡ wake t (b + (t y).key) ys = cc in
    ap₂ ◌∷◌ (omega arith) (
      ap (λ k. wake t' k ys) (omega arith)
      ∙ wake-shift t t' (a + (t' y).key) (b + (t y).key) now ys r
      ∙ ap (λ k. wake t k ys) (omega arith))

Delayed-wake :
    (t t' : Qtab) (xs : List ℕ) (pid left : ℕ) (ys : List ℕ)
    → Delayed t t' xs pid left ys
    → wake t' 0 (xs ++ (pid ∷ ys)) ≡ wake t 0 xs ++ ((total t xs + left) ∷ wake t (total t xs) ys)
Delayed-wake t t' xs pid left ys d =
    wake t' 0 (xs ++ (pid ∷ ys))
    ≡⟨ wake-append t' 0 xs (pid ∷ ys) ⟩ wake t' 0 xs ++ wake t' (0 + total t' xs) (pid ∷ ys)
    ≡⟨ ap₂ (λ k m. k ++ wake t' m (pid ∷ ys)) (wake-frame t t' 0 xs d.before) same ⟩
      wake t 0 xs ++ wake t' (total t xs) (pid ∷ ys)
    ≡⟨ ap (λ k. wake t 0 xs ++ ((total t xs + k) ∷ wake t' (total t xs + k) ys)) d.own ⟩
      wake t 0 xs ++ ((total t xs + left) ∷ wake t' (total t xs + left) ys)
    ≡⟨ ap (λ k. wake t 0 xs ++ ((total t xs + left) ∷ k)) moved ⟩
      wake t 0 xs ++ ((total t xs + left) ∷ wake t (total t xs) ys) ∎
  where
    same : 0 + total t' xs ≡ total t xs
    same = omega (arith, total-frame t t' xs d.before)

    moved : wake t' (total t xs + left) ys ≡ wake t (total t xs) ys
    moved = wake-shift t t' left 0 (total t xs) ys d.behind ∙ ap (λ k. wake t k ys) (omega arith)

-- The table behind the assignments of `insertd`.
abbrev delayed : Qtab → ℕ → ℕ → ℕ → ℕ → ℕ → Qtab
delayed t q pid prev next left =
    let t3 = inserted t pid prev next left in
    if not (next == queuetail q)
    then set_key t3 next (((t3 next).key + 2 ^ 32 - left) % 2 ^ 32)
    else t3

delayed-links :
    (t : Qtab) (q pid prev next left j : ℕ)
    → ((delayed t q pid prev next left j).next ≡ (inserted t pid prev next left j).next)
      × ((delayed t q pid prev next left j).prev ≡ (inserted t pid prev next left j).prev)
delayed-links t q pid prev next left j = (ground arith, ground arith)

Holds-delayed :
    (t : Qtab) (q pid prev next left q' : ℕ) (xs : List ℕ)
    → Holds (inserted t pid prev next left) q' xs
    → Holds (delayed t q pid prev next left) q' xs
Holds-delayed t q pid prev next left q' xs h = record {
  chain =
      Chain-frame (inserted t pid prev next left) (delayed t q pid prev next left) q' xs
        (queuetail q') (links q').0 (All-map xs (λ j p. (links j).0) h.procs)
        (All-map xs (λ j p. (links j).1) h.procs) (links (queuetail q')).1 h.chain;
  procs = h.procs;
  distinct = h.distinct;
  above = h.above;
  inside = h.inside;
}
  where
    links :
        (j : ℕ)
        → ((delayed t q pid prev next left j).next ≡ (inserted t pid prev next left j).next)
          × ((delayed t q pid prev next left j).prev ≡ (inserted t pid prev next left j).prev)
    links j = delayed-links t q pid prev next left j

insertd-eq :
    {t : Qtab} {q : ℕ} (xs : List ℕ) (pid key : ℕ)
    → Holds t q xs
    → Delays t xs
    → key < 2 ^ 31
    → insertd t false pid q key ≡ (
      delayed t q pid
          (last_or q (sooner t key xs))
          (first_or (after t key xs) (queuetail q))
          (left_over t key xs),
      true,
    )
unfolding insertd
insertd-eq {t} {q} xs pid key h d k = ground (
  arith,
  isbadqid-Holds h,
  next-Chain t q [] xs (queuetail q) h.chain,
  insertd_position_lem nqent t q key q xs h.chain h.procs h.above d k
      (omega (arith, pigeonhole nproc xs h.distinct h.procs)),
)

-- The keys that `insertd` leaves, at a split of the queue where the first entry of the rest is
-- due after the new one.
delayed-Delayed :
    (t : Qtab) (q pid prev left : ℕ) (xs ys : List ℕ)
    → pid < nproc
    → nproc ≤ q
    → All (λ j. j < nproc) (xs ++ ys)
    → Distinct (xs ++ ys)
    → All (λ j. j ≢ pid) (xs ++ ys)
    → Delays t (xs ++ ys)
    → Later t left ys
    → Delayed t (delayed t q pid prev (first_or ys (queuetail q)) left) xs pid left ys
delayed-Delayed t q pid prev left xs [] lt up ps di new d la = record {
  own = ground arith;
  before = All-map xs (λ j n. ground arith) (All-left (λ j. j ≢ pid) xs [] new);
  behind = refl;
}
delayed-Delayed t q pid prev left xs (y ∷ ys) lt up ps di new d la = record {
  own = let n = (All-right (λ j. j ≢ pid) xs (y ∷ ys) new).0 in ground arith;
  before =
      All-map xs (λ j n. ground arith)
        (zip_All (λ j. j ≢ y) (λ j. j ≢ pid) xs (Distinct-split xs y ys di).0
          (All-left (λ j. j ≢ pid) xs (y ∷ ys) new));
  behind =
      let ny = (All-right (λ j. j ≢ pid) xs (y ∷ ys) new).0 in
      let py = (All-right (λ j. j < nproc) xs (y ∷ ys) ps).0 in
      let dy = (All-right (λ x. (t x).key < 2 ^ 31) xs (y ∷ ys) d).0 in
      let first : left + (delayed t q pid prev y left y).key ≡ 0 + (t y).key = ground arith in
      let same =
        All-map ys (λ j n. ground arith)
          (zip_All (λ j. y ≢ j) (λ j. j ≢ pid) ys (Distinct-split xs y ys di).1
            (All-right (λ j. j ≢ pid) xs (y ∷ ys) new).1) in
      rw first (
        ap (λ k. (0 + (t y).key) ∷ k)
          (wake-frame t (delayed t q pid prev y left) (0 + (t y).key) ys same));
}

-- `insertd` into a delta list, of a process that is not in it and a delay that is not negative:
-- the loop ends, the process stands behind all that wake no later than it will, it wakes after
-- exactly `key`, every other process of the list wakes when it would have, and every other queue
-- stays.
pub insertd_lem :
    {t : Qtab} {q : ℕ} (xs : List ℕ) (pid key : ℕ) {q' : ℕ} {zs : List ℕ}
    → Holds t q xs
    → Delays t xs
    → key < 2 ^ 31
    → pid < nproc
    → All (λ j. j ≢ pid) xs
    → Beside t q xs pid q' zs
    → let (t', r) = insertd t false pid q key in
      let fs = sooner t key xs in
      let bs = after t key xs in
      (r ≡ true)
      × Holds t' q (fs ++ (pid ∷ bs))
      × (wake t' 0 (fs ++ (pid ∷ bs)) ≡ wake t 0 fs ++ (key ∷ wake t (total t fs) bs))
      × (wake t 0 xs ≡ wake t 0 fs ++ wake t (total t fs) bs)
      × Holds t' q' zs
insertd_lem {t} {q} xs pid key {q'} {zs} h d k lt new o = rw (insertd-eq xs pid key h d k) (
  refl,
  Holds-delayed t q pid prev next left q (fs ++ (pid ∷ bs))
      (Holds-inserted fs bs pid left (rw e h) lt (rw e new)),
  Delayed-wake t t' fs pid left bs keys
      ∙ ap (λ m. wake t 0 fs ++ (m ∷ wake t (total t fs) bs)) (total-add-left_over t key xs),
  ap (wake t 0) (sym e)
      ∙ wake-append t 0 fs bs
      ∙ ap (λ m. wake t 0 fs ++ wake t m bs) (omega arith),
  Holds-delayed t q pid prev next left q' zs
      (Beside-inserted fs bs pid left (rw e h) lt (rw e new) (rw e o)),
)
  where
    fs : List ℕ
    fs = sooner t key xs

    bs : List ℕ
    bs = after t key xs

    prev : ℕ
    prev = last_or q fs

    next : ℕ
    next = first_or bs (queuetail q)

    left : ℕ
    left = left_over t key xs

    t' : Qtab
    t' = delayed t q pid prev next left

    e : fs ++ bs ≡ xs
    e = sooner-append-after t key xs

    keys : Delayed t t' fs pid left bs
    keys =
        delayed-Delayed t q pid prev left fs bs lt h.above (rw e h.procs) (rw e h.distinct)
          (rw e new) (rw e d) (after-Later t key xs)

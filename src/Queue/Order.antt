-- ===== src/Queue/Order.antt =====
-- system/insert.c on a queue whose keys descend.
use os_xinu.Prelude.{ℕ, zero, suc, ◌<◌, ◌≤◌, ◌≡◌, ◌≢◌, refl, List, [], ◌∷◌, ◌++◌, arith}
use os_xinu.Prelude.{All, All-left, All-right, All-map, All-append, Bool-cases, true, false}
use os_xinu.Prelude.{ap, inl, inr, length, leb, if◌then◌else◌, pigeonhole, zip_All}
use os_xinu.Queue.Fifo.{isbadqid-Holds}
use os_xinu.Queue.{
  Qtab, nproc, nqent, bias, min_key, queuetail, set_next, set_prev, set_key, insert_position,
  insert,
}
use os_xinu.Queue.Chain.{
  Chain, last_or, first_or, All-last, All-first, prev-Chain, next-Chain, Linked,
}
use os_xinu.Queue.Frame.{Holds, Beside, Local-Beside, last-ne, first-ne, Holds-link}

-- No entry has a greater key, in the signed order, than one before it.
abbrev pub Descending : Qtab → List ℕ → Type 0
Descending t [] = Unit
Descending t (x ∷ xs) = All (λ y. bias (t y).key ≤ bias (t x).key) xs × Descending t xs

-- The entries in front whose keys are at least `key`, and the rest.
unfoldable pub front : Qtab → ℕ → List ℕ → List ℕ
front t key [] = []
front t key (x ∷ xs) =
    let more = front t key xs in if leb (bias key) (bias (t x).key) then x ∷ more else []

unfoldable pub rest : Qtab → ℕ → List ℕ → List ℕ
rest t key [] = []
rest t key (x ∷ xs) =
    let more = rest t key xs in if leb (bias key) (bias (t x).key) then more else x ∷ xs

pub front-append-rest : (t : Qtab) (key : ℕ) (xs : List ℕ) → front t key xs ++ rest t key xs ≡ xs
unfolding front rest
front-append-rest t key [] = refl
front-append-rest t key (x ∷ xs) = ground (arith, front-append-rest t key xs)

-- A key above all of the queue.
pub front-above :
    (t : Qtab) (key x : ℕ) (xs : List ℕ)
    → bias (t x).key < bias key
    → (front t key (x ∷ xs) ≡ []) × (rest t key (x ∷ xs) ≡ x ∷ xs)
unfolding front rest
front-above t key x xs l =
    let e : leb (bias key) (bias (t x).key) ≡ false = ground (arith, l) in rw e (refl, refl)

front-All :
    (t : Qtab) (key : ℕ) (xs : List ℕ) → All (λ x. bias key ≤ bias (t x).key) (front t key xs)
unfolding front
front-All t key [] = tt
front-All t key (x ∷ xs) = elim (Bool-cases (leb (bias key) (bias (t x).key))) [
  | inl e ↦ rw e (ground arith, front-All t key xs)
  | inr e ↦ rw e tt
]

rest-All :
    (t : Qtab) (key : ℕ) (xs : List ℕ)
    → Descending t xs
    → All (λ x. bias (t x).key ≤ bias key) (rest t key xs)
unfolding rest
rest-All t key [] d = tt
rest-All t key (x ∷ xs) d = elim (Bool-cases (leb (bias key) (bias (t x).key))) [
  | inl e ↦ rw e (rest-All t key xs d.1)
  | inr e ↦
      let l : bias (t x).key < bias key = ground arith in
      rw e (omega arith, All-map xs (λ y p. omega arith) d.0)
]

pub Descending-frame :
    (t t' : Qtab) (xs : List ℕ)
    → All (λ x. (t' x).key ≡ (t x).key) xs
    → Descending t xs
    → Descending t' xs
Descending-frame t t' [] same d = tt
Descending-frame t t' (x ∷ xs) same d = (
  All-map xs (λ y p. omega (arith, p, ap bias p.0, ap bias same.0))
      (zip_All (λ y. (t' y).key ≡ (t y).key) (λ y. bias (t y).key ≤ bias (t x).key) xs same.1 d.0),
  Descending-frame t t' xs same.1 d.1,
)

Descending-insert :
    (t : Qtab) (pid : ℕ) (xs ys : List ℕ)
    → Descending t (xs ++ ys)
    → All (λ x. bias (t pid).key ≤ bias (t x).key) xs
    → All (λ x. bias (t x).key ≤ bias (t pid).key) ys
    → Descending t (xs ++ (pid ∷ ys))
Descending-insert t pid [] ys d up down = (down, d)
Descending-insert t pid (x ∷ xs) ys d up down = (
  All-append (λ y. bias (t y).key ≤ bias (t x).key) xs (pid ∷ ys)
      (All-left (λ y. bias (t y).key ≤ bias (t x).key) xs ys d.0)
      (up.0, All-right (λ y. bias (t y).key ≤ bias (t x).key) xs ys d.0),
  Descending-insert t pid xs ys d.1 up.1 down,
)

insert_position_lem :
    (fuel : ℕ) (t : Qtab) (key p : ℕ) (xs : List ℕ) (n : ℕ)
    → Chain t p xs n
    → (t n).key ≡ min_key
    → 0 < bias key
    → length xs < fuel
    → insert_position fuel t key (first_or xs n) ≡ first_or (rest t key xs) n
unfolding insert_position rest
insert_position_lem zero t key p xs n c m b f = absurd (omega arith)
insert_position_lem (suc fuel) t key p [] n c m b f = ground arith
insert_position_lem (suc fuel) t key p (x ∷ []) n c m b f =
    ground (arith, insert_position_lem fuel t key x [] n c.2)
insert_position_lem (suc fuel) t key p (x ∷ y ∷ xs) n c m b f =
    ground (arith, insert_position_lem fuel t key x (y ∷ xs) n c.2)

-- The table behind the five assignments of `insert`.
abbrev pub inserted : Qtab → ℕ → ℕ → ℕ → ℕ → Qtab
inserted t pid prev curr key =
    set_prev (set_next (set_key (set_prev (set_next t pid curr) pid prev) pid key) prev pid) curr
      pid

pub inserted-Linked :
    (t : Qtab) (pid prev curr key : ℕ)
    → prev ≢ pid
    → curr ≢ pid
    → Linked t (inserted t pid prev curr key) prev pid curr
inserted-Linked t pid prev curr key a b = record {
  into = ground arith;
  back = ground arith;
  onward = ground arith;
  behind = ground arith;
  other_next = λ j p r. ground arith;
  other_prev = λ j p r. ground arith;
}

pub inserted-key : (t : Qtab) (pid prev curr key : ℕ) → (inserted t pid prev curr key pid).key ≡ key
inserted-key t pid prev curr key = ground arith

pub inserted-other_key :
    (t : Qtab) (pid prev curr key j : ℕ)
    → j ≢ pid
    → (inserted t pid prev curr key j).key ≡ (t j).key
inserted-other_key t pid prev curr key j n = ground arith

-- Linking in at a split of the queue.
inserted-at :
    {t : Qtab} {q : ℕ} (xs ys : List ℕ) (pid key : ℕ)
    → Holds t q (xs ++ ys)
    → pid < nproc
    → All (λ j. j ≢ pid) (xs ++ ys)
    → Linked t
        (inserted t pid (last_or q xs) (first_or ys (queuetail q)) key)
        (last_or q xs)
        pid
        (first_or ys (queuetail q))
inserted-at {t} {q} xs ys pid key h lt new =
    inserted-Linked t pid (last_or q xs) (first_or ys (queuetail q)) key
      (All-last (λ j. j ≢ pid) q xs (omega (arith, h.above)) (All-left (λ j. j ≢ pid) xs ys new))
      (All-first (λ j. j ≢ pid) ys (queuetail q) (All-right (λ j. j ≢ pid) xs ys new)
        (omega (arith, h.above)))

pub Holds-inserted :
    {t : Qtab} {q : ℕ} (xs ys : List ℕ) (pid key : ℕ)
    → Holds t q (xs ++ ys)
    → pid < nproc
    → All (λ j. j ≢ pid) (xs ++ ys)
    → Holds (inserted t pid (last_or q xs) (first_or ys (queuetail q)) key) q (xs ++ (pid ∷ ys))
Holds-inserted {t} {q} xs ys pid key h lt new =
    Holds-link t (inserted t pid (last_or q xs) (first_or ys (queuetail q)) key) q xs ys pid h lt
      new (inserted-at xs ys pid key h lt new)

pub Beside-inserted :
    {t : Qtab} {q : ℕ} (xs ys : List ℕ) (pid key : ℕ) {q' : ℕ} {zs : List ℕ}
    → Holds t q (xs ++ ys)
    → pid < nproc
    → All (λ j. j ≢ pid) (xs ++ ys)
    → Beside t q (xs ++ ys) pid q' zs
    → Holds (inserted t pid (last_or q xs) (first_or ys (queuetail q)) key) q' zs
Beside-inserted {t} {q} xs ys pid key {q'} {zs} h lt new o =
    let linked = inserted-at xs ys pid key h lt new in
    Local-Beside t (inserted t pid (last_or q xs) (first_or ys (queuetail q)) key) q (xs ++ ys)
      (last_or q xs) pid (first_or ys (queuetail q)) q' zs
      (record { other_next = linked.other_next; other_prev = linked.other_prev }) lt h.above h.procs
      (last-ne q xs ys) (first-ne xs ys (queuetail q)) o

insert-eq :
    {t : Qtab} {q : ℕ} (xs : List ℕ) (pid key : ℕ)
    → Holds t q xs
    → (t (queuetail q)).key ≡ min_key
    → 0 < bias key
    → insert t false pid q key ≡ (
      inserted t pid (last_or q (front t key xs)) (first_or (rest t key xs) (queuetail q)) key,
      true,
    )
unfolding insert
insert-eq {t} {q} xs pid key h m b = rw (
  isbadqid-Holds h,
  ap (insert_position nqent t key) (next-Chain t q [] xs (queuetail q) h.chain),
  insert_position_lem nqent t key q xs (queuetail q) h.chain m b
      (omega (arith, pigeonhole nproc xs h.distinct h.procs)),
  prev-Chain t q (front t key xs) (rest t key xs) (queuetail q)
      (rw (front-append-rest t key xs) h.chain),
)

-- What `insert` does to the queue itself.
pub insert_own :
    {t : Qtab} {q : ℕ} (xs : List ℕ) (pid key : ℕ)
    → Holds t q xs
    → Descending t xs
    → (t (queuetail q)).key ≡ min_key
    → 0 < bias key
    → pid < nproc
    → All (λ j. j ≢ pid) xs
    → let (t', r) = insert t false pid q key in
      let xs' = front t key xs ++ (pid ∷ rest t key xs) in
      (r ≡ true) × Holds t' q xs' × Descending t' xs' × ((t' pid).key ≡ key)
insert_own {t} {q} xs pid key h d m b lt new =
    rw (insert-eq xs pid key h m b)
      (refl, Holds-inserted fs bs pid key (rw e h) lt (rw e new), sorted, k)
  where
    fs : List ℕ
    fs = front t key xs

    bs : List ℕ
    bs = rest t key xs

    t' : Qtab
    t' = inserted t pid (last_or q fs) (first_or bs (queuetail q)) key

    e : fs ++ bs ≡ xs
    e = front-append-rest t key xs

    k : (t' pid).key ≡ key
    k = inserted-key t pid (last_or q fs) (first_or bs (queuetail q)) key

    kept : All (λ x. (t' x).key ≡ (t x).key) (fs ++ bs)
    kept =
        rw e
          (All-map xs (inserted-other_key t pid (last_or q fs) (first_or bs (queuetail q)) key) new)

    sorted : Descending t' (fs ++ (pid ∷ bs))
    sorted =
        Descending-insert t' pid fs bs (Descending-frame t t' (fs ++ bs) kept (rw e d))
          (All-map fs (λ y p. omega (arith, p, ap bias k, ap bias p.0))
            (zip_All (λ y. (t' y).key ≡ (t y).key) (λ y. bias key ≤ bias (t y).key) fs
              (All-left (λ y. (t' y).key ≡ (t y).key) fs bs kept) (front-All t key xs)))
          (All-map bs (λ y p. omega (arith, p, ap bias k, ap bias p.0))
            (zip_All (λ y. (t' y).key ≡ (t y).key) (λ y. bias (t y).key ≤ bias key) bs
              (All-right (λ y. (t' y).key ≡ (t y).key) fs bs kept) (rest-All t key xs d)))

-- `insert` into a queue whose keys descend, of a process that is not in it and whose key is
-- greater than MINKEY: the loop ends, the process gets the key and stands behind all entries with
-- keys at least as great and before all others, the keys descend, and every other queue stays.
pub insert_lem :
    {t : Qtab} {q : ℕ} (xs : List ℕ) (pid key : ℕ) {q' : ℕ} {zs : List ℕ}
    → Holds t q xs
    → Descending t xs
    → (t (queuetail q)).key ≡ min_key
    → 0 < bias key
    → pid < nproc
    → All (λ j. j ≢ pid) xs
    → Beside t q xs pid q' zs
    → let (t', r) = insert t false pid q key in
      let xs' = front t key xs ++ (pid ∷ rest t key xs) in
      (r ≡ true) × Holds t' q xs' × Descending t' xs' × ((t' pid).key ≡ key) × Holds t' q' zs
insert_lem {t} {q} xs pid key {q'} {zs} h d m b lt new o =
    let own = insert_own xs pid key h d m b lt new in
    let e = front-append-rest t key xs in
    (
      own.0,
      own.1,
      own.2,
      own.3,
      rw (insert-eq xs pid key h m b) (
          Beside-inserted (front t key xs) (rest t key xs) pid key (rw e h) lt (rw e new) (rw e o)),
    )

-- Only the key of the new entry changes.
pub insert-key :
    {t : Qtab} {q : ℕ} (xs : List ℕ) (pid key : ℕ)
    → Holds t q xs
    → (t (queuetail q)).key ≡ min_key
    → 0 < bias key
    → (j : ℕ) → j ≢ pid
    → ((insert t false pid q key).0 j).key ≡ (t j).key
insert-key {t} {q} xs pid key h m b j n = rw (insert-eq xs pid key h m b) (
    inserted-other_key t pid (last_or q (front t key xs)) (first_or (rest t key xs) (queuetail q))
      key j n)

-- ===== src/Queue/Tests.antt =====
-- A queue table with two queues, and the queue functions on it.
use os_xinu.Prelude.{ℕ, ◌≡◌, ◌≢◌, refl, [], ◌∷◌, ◌++◌, arith, true, false, ◌==◌, if◌then◌else◌}
use os_xinu.Queue.{Qtab, empty, min_key, max_key, insert, insertd}
use os_xinu.Queue.Frame.{Holds, Beside}
use os_xinu.Queue.Order.{Descending, front, rest, insert_lem}
use os_xinu.Queue.Delta.{wake, total, sooner, after}
use os_xinu.Queue.Wake.{insertd_lem}

-- Queue 100 holds 3 and 5, with the keys 30 and 20, queue 102 holds 7, and queue 104 nothing.
abbrev table : Qtab
table j =
    if j == 100
    then record { key = max_key; next = 3; prev = empty }
    else if j == 3
    then record { key = 30; next = 5; prev = 100 }
    else if j == 5
    then record { key = 20; next = 101; prev = 3 }
    else if j == 101
    then record { key = min_key; next = empty; prev = 5 }
    else if j == 102
    then record { key = max_key; next = 7; prev = empty }
    else if j == 7
    then record { key = 4; next = 103; prev = 102 }
    else if j == 103
    then record { key = min_key; next = empty; prev = 7 }
    else if j == 104
    then record { key = max_key; next = 105; prev = empty }
    else record { key = min_key; next = empty; prev = 104 }

table-first : Holds table 100 (3 ∷ 5 ∷ [])
table-first = record {
  chain = (refl, refl, (refl, refl, (refl, refl)));
  procs = (omega arith, (omega arith, tt));
  distinct = ((omega arith, tt), (tt, tt));
  above = omega arith;
  inside = omega arith;
}

table-second : Holds table 102 (7 ∷ [])
table-second = record {
  chain = (refl, refl, (refl, refl));
  procs = (omega arith, tt);
  distinct = (tt, tt);
  above = omega arith;
  inside = omega arith;
}

beside : (pid : ℕ) → 7 ≢ pid → Beside table 100 (3 ∷ 5 ∷ []) pid 102 (7 ∷ [])
beside pid n = record {
  held = table-second;
  heads = omega arith;
  without = (n, tt);
  disjoint = ((omega arith, (omega arith, tt)), tt);
}

insert_example :
    let (t', r) = insert table false 9 100 20 in
    let xs' = front table 20 (3 ∷ 5 ∷ []) ++ (9 ∷ rest table 20 (3 ∷ 5 ∷ [])) in
    (r ≡ true) × Holds t' 100 xs' × Descending t' xs' × ((t' 9).key ≡ 20) × Holds t' 102 (7 ∷ [])
insert_example =
    insert_lem (3 ∷ 5 ∷ []) 9 20 table-first ((omega arith, tt), (tt, tt)) refl (omega arith)
      (omega arith) (omega arith, (omega arith, tt)) (beside 9 (omega arith))

insertd_example :
    let (t', r) = insertd table false 9 100 40 in
    let fs = sooner table 40 (3 ∷ 5 ∷ []) in
    let bs = after table 40 (3 ∷ 5 ∷ []) in
    (r ≡ true)
    × Holds t' 100 (fs ++ (9 ∷ bs))
    × (wake t' 0 (fs ++ (9 ∷ bs)) ≡ wake table 0 fs ++ (40 ∷ wake table (total table fs) bs))
    × (30 ∷ 50 ∷ [] ≡ wake table 0 fs ++ wake table (total table fs) bs)
    × Holds t' 102 (7 ∷ [])
insertd_example =
    insertd_lem (3 ∷ 5 ∷ []) 9 40 table-first (omega arith, (omega arith, tt)) (omega arith)
      (omega arith) (omega arith, (omega arith, tt)) (beside 9 (omega arith))

-- ===== src/Bufpool/Tests.antt =====
-- system/getbuf.c, freebuf.c and mkbufpool.c on small pools.
use os_xinu.Prelude.{
  ℕ, ◌≡◌, ◌≢◌, ◌<◌, ◌==◌, if◌then◌else◌, some, true, false, ap, List, [], ◌∷◌, All, Distinct, refl,
  arith, zero, suc, inl, ◌⊎◌, ◌≤◌,
}
use os_xinu.Memory.{add32, getmem, Store}
use os_xinu.Memory.Blocks.{Free, first_fit, fits}
use os_xinu.Memory.FirstFit.{getmem_lem}
use os_xinu.Kernel.{Kernel, PrState}
use os_xinu.Kernel.Sem.{signal, semcreate, newsem, newsem_from}
use os_xinu.Bufpool.{Pools, getbuf_exit, freebuf, mkbufpool}
use os_xinu.Bufpool.Chain.{Linked, IsPools, getbuf_lem, freebuf_lem, instead}
use os_xinu.Bufpool.Make.{MadePool, mkbufpool_lem}

-- Two pools: the buffers 100 and 200 of the first are free, and 300 of the second.
abbrev pools : Pools
pools = record {
  words = λ a. if a == 100 then 200 else if a == 400 then 1 else 0;
  buftab = λ p. record { bpnext = if p == 0 then 100 else 300; bpsem = p; bpsize = 8 };
  nbpools = 2;
}

abbrev free : ℕ → List ℕ
free zero = 100 ∷ 200 ∷ []
free (suc _) = 300 ∷ []

linked : (p : ℕ) → p < 2 → Linked pools.words (pools.buftab p).bpnext (free p)
linked zero l = (refl, omega arith, (refl, omega arith, refl))
linked (suc p) l = let e : p ≡ 0 = omega (arith, l) in rw e (refl, omega arith, refl)

distinct : (p : ℕ) → p < 2 → Distinct (free p)
distinct zero l = ((omega arith, tt), (tt, tt))
distinct (suc p) l = (tt, tt)

apart : (p q : ℕ) → p < 2 → q < 2 → p ≢ q → All (λ b. All (λ c. b ≢ c) (free q)) (free p)
apart zero zero l m n = absurd (n refl)
apart zero (suc q) l m n = ((omega arith, tt), ((omega arith, tt), tt))
apart (suc p) zero l m n = ((omega arith, (omega arith, tt)), tt)
apart (suc p) (suc q) l m n = absurd (n (omega (arith, l, m)))

pools-IsPools : IsPools pools free
pools-IsPools = record { linked = linked; distinct = distinct; apart = apart }

getbuf_example :
    (s' : Pools) × (getbuf_exit pools 0 ≡ some (s', add32 4 100))
    × (s'.words 100 ≡ 0)
    × IsPools s' (instead free 0 (200 ∷ []))
getbuf_example = getbuf_lem pools free 0 100 (200 ∷ []) pools-IsPools (omega arith) refl

-- A kernel without a process, whose semaphores are unused.
abbrev kernel : Kernel
kernel = record {
  queuetab = λ j. record { key = 0; next = 0; prev = 0 };
  proctab =
      λ j. record { prstate = PrState.pr_free; prprio = 0; prsem = 0; prmsg = 0; prhasmsg = false };
  semtab = λ j. record { used = false; scount = 0; squeue = 0 };
  currpid = 0;
  readylist = 100;
  sleepq = 102;
  ndefers = 0;
  attempt = false;
  preempt = 2;
  nextsem = 0;
}

absent : (q : ℕ) → q < 2 → All (λ c. 400 ≢ c) (free q)
absent zero l = (omega arith, (omega arith, tt))
absent (suc q) l = (omega arith, tt)

freebuf_example :
    (s' : Pools) × (freebuf kernel pools 404 ≡ ((signal kernel 1).0, s', true))
    × IsPools s' (instead free 1 (400 ∷ 300 ∷ []))
freebuf_example =
    freebuf_lem kernel pools free 400 pools-IsPools (omega arith) (omega arith) (omega arith)
      (omega arith) absent

-- The heap has the 64 bytes at 1000.
abbrev heap : Store
heap j =
    if j == 0 then record { mnext = 1000; mlength = 64 } else record { mnext = 0; mlength = 64 }

heap-Free : Free heap 800 1600 ((1000, 64) ∷ [])
heap-Free = record {
  chain = (refl, refl, refl);
  ordered = (omega arith, refl, refl, omega arith, omega arith, tt);
  positive = omega arith;
  top = omega arith;
}

getmem-heap : getmem heap 24 ≡ ((getmem heap 24).0, 1000)
unfolding first_fit fits
getmem-heap =
    ap (λ a. ((getmem heap 24).0, a)) (getmem_lem 24 heap-Free (omega arith) (omega arith)).0

semcreate-kernel : semcreate kernel 2 ≡ ((semcreate kernel 2).0, 0)
unfolding semcreate newsem newsem_from
semcreate-kernel = refl

outside : (q : ℕ) → q < 2 → All (λ c. (c < 1000) ⊎ (1024 ≤ c)) (free q)
outside zero l = (inl (omega arith), (inl (omega arith), tt))
outside (suc q) l = (inl (omega arith), tt)

mkbufpool_example :
    MadePool
      (semcreate kernel 2).0
      (getmem heap 24).0
      pools
      free
      8
      2
      1000
      0
      (mkbufpool kernel heap pools 8 2)
mkbufpool_example =
    mkbufpool_lem kernel (semcreate kernel 2).0 heap (getmem heap 24).0 pools free 8 2 1000 0
      pools-IsPools (omega arith) (omega arith) (omega arith) (omega arith) (omega arith)
      getmem-heap (omega arith) (omega arith) (omega arith) outside semcreate-kernel (omega arith)

-- ===== src/Loopback/Tests.antt =====
-- A device that holds two characters at the end and the start of its buffer, and one with a
-- process waiting.
use os_xinu.Prelude.{
  ℕ, ◌<◌, ◌≡◌, refl, [], ◌∷◌, arith, true, false, ◌==◌, if◌then◌else◌, some, none,
}
use os_xinu.Kernel.{Kernel, PrState}
use os_xinu.Loopback.{
  Loopback, LoopState, loop_buffer, syserr, loopback_putc, loopback_getc_entry, loopback_getc_exit,
  loopback_write,
}
use os_xinu.Loopback.Ring.{Buffered, loopback_putc_lem, loopback_getc_lem, loopback_putc_waiting}
use os_xinu.Loopback.Write.{loopback_write_lem}

abbrev kernel : Kernel
kernel = record {
  queuetab = λ j. record { key = 0; next = 0; prev = 0 };
  proctab = λ j. record {
    prstate = PrState.pr_curr;
    prprio = 20;
    prsem = 0;
    prmsg = 0;
    prhasmsg = false;
  };
  semtab = λ j.
      if j == 0
      then record { used = true; scount = 2; squeue = 102 }
      else record { used = true; scount = 4294967295; squeue = 104 };
  currpid = 1;
  readylist = 100;
  sleepq = 300;
  ndefers = 0;
  attempt = false;
  preempt = 2;
  nextsem = 0;
}

abbrev device : ℕ → ℕ → Loopback
device sem index = record {
  state = LoopState.loop_state_alloc;
  index = index;
  flags = 0;
  sem = sem;
  buffer = λ j. if j == 1023 then 72 else 105;
}

device-Buffered : Buffered kernel (device 0 1023) (72 ∷ 105 ∷ [])
device-Buffered = record {
  open_state = refl;
  valid = refl;
  used = refl;
  count = refl;
  room = omega arith;
  inside = omega arith;
  stored = (refl, (refl, tt));
}

loopback_putc_example :
    (2 < loop_buffer
      → (k' : Kernel) × (d' : Loopback) × (loopback_putc kernel (device 0 1023) 33
          ≡ some (k', d', 33))
        × Buffered k' d' (72 ∷ 105 ∷ 33 ∷ []))
    × (2 ≡ loop_buffer
        → loopback_putc kernel (device 0 1023) 33 ≡ some (kernel, device 0 1023, syserr))
loopback_putc_example = loopback_putc_lem kernel (device 0 1023) (72 ∷ 105 ∷ []) 33 device-Buffered

loopback_getc_example :
    let (k', waited) = loopback_getc_entry kernel (device 0 1023) in
    let (d', ch) = loopback_getc_exit (device 0 1023) in
    (waited ≡ true) × (ch ≡ 72) × (k'.currpid ≡ 1) × Buffered k' d' (105 ∷ [])
loopback_getc_example = loopback_getc_lem kernel (device 0 1023) 72 (105 ∷ []) device-Buffered

loopback_putc_waiting_example :
    (0 < (device 1 1023).index
      → (k' : Kernel) × (d' : Loopback) × (loopback_putc kernel (device 1 1023) 33
          ≡ some (k', d', 33))
        × ((loopback_getc_exit d').1 ≡ 72))
    × ((device 1 1023).index ≡ 0 → loopback_putc kernel (device 1 1023) 33 ≡ none)
loopback_putc_waiting_example =
    loopback_putc_waiting kernel (device 1 1023) 33 refl refl refl (omega arith)

loopback_write_example :
    (k' : Kernel) × (d' : Loopback) × (loopback_write kernel (device 0 1023) (33 ∷ 289 ∷ [])
      ≡ some (k', d', 2))
    × Buffered k' d' (72 ∷ 105 ∷ 33 ∷ 33 ∷ [])
loopback_write_example =
    loopback_write_lem (33 ∷ 289 ∷ []) kernel (device 0 1023) (72 ∷ 105 ∷ []) device-Buffered
      (omega arith)

-- ===== src/Loopback/Ring.antt =====
-- The ring buffer of the loopback device as a bounded queue of characters.
use os_xinu.Prelude.{
  ℕ, ◌+◌, ◌-◌, ◌%◌, ◌^◌, ◌<◌, ◌≤◌, ◌≡◌, ◌≢◌, refl, ap, ◌∙◌, arith, true, false, ◌&&◌, ◌==◌, leb,
  if◌then◌else◌,
}
use os_xinu.Prelude.{List, [], ◌∷◌, ◌++◌, length, length-append, none, some}
use os_xinu.Queue.{bias, is_negative}
use os_xinu.Kernel.{Kernel, add32, isbadsem, set_count}
use os_xinu.Kernel.Sem.{wait, signal, semcount}
use os_xinu.Kernel.Calls.{semcount-used, wait-passes, signal-passes}
use os_xinu.Loopback.{
  Loopback, LoopState, loop_buffer, syserr, set_byte, slot, store_at, loopback_putc,
  loopback_getc_entry, loopback_getc_exit,
}

-- The characters from index `i` on, around the end of the buffer.
abbrev pub Stored : (ℕ → ℕ) → ℕ → List ℕ → Type 0
Stored b i [] = Unit
Stored b i (x ∷ xs) = (b i ≡ x) × Stored b ((i + 1) % loop_buffer) xs

-- The device is open and holds the characters `xs`, and nobody waits for one.
pub record Buffered (k : Kernel) (d : Loopback) (xs : List ℕ) : Type 0 where
  pub open_state : d.state ≡ LoopState.loop_state_alloc
  pub valid : isbadsem d.sem ≡ false
  pub used : (k.semtab d.sem).used ≡ true
  pub count : (k.semtab d.sem).scount ≡ length xs
  pub room : length xs ≤ loop_buffer
  pub inside : d.index < loop_buffer
  pub stored : Stored d.buffer d.index xs

semcount-Buffered :
    {k : Kernel} {d : Loopback} {xs : List ℕ} → Buffered k d xs → semcount k d.sem ≡ length xs
semcount-Buffered {k} {d} h = semcount-used k d.sem h.valid h.used ∙ h.count

-- Storing behind the last character, while one place is free.
Stored-append :
    (b : ℕ → ℕ) (i w ch : ℕ) (xs : List ℕ)
    → i < loop_buffer
    → length xs < loop_buffer
    → w ≡ (i + length xs) % loop_buffer
    → Stored b i xs
    → Stored (λ j. if w == j then ch else b j) i (xs ++ (ch ∷ []))
Stored-append b i w ch [] h r e s = (ground arith, tt)
Stored-append b i w ch (x ∷ xs) h r e s =
    let away : w ≢ i = omega arith in
    (
      ground arith,
      Stored-append b ((i + 1) % loop_buffer) w ch xs (omega arith) (omega arith) (omega arith) s.1,
    )

slot-inside : (v : ℕ) → v < 2 ^ 31 → slot v ≡ some (v % loop_buffer)
unfolding slot
slot-inside v h = let g : is_negative v ≡ false = ground arith in simp g

slot-minus : slot (2 ^ 32 - 1) ≡ none
unfolding slot
slot-minus = refl

signal-Buffered :
    {k : Kernel} {d : Loopback} {xs : List ℕ}
    → Buffered k d xs
    → signal k d.sem ≡ (set_count k d.sem (length xs + 1), true)
signal-Buffered {k} {d} {xs} h =
    signal-passes k d.sem h.valid h.used (ground (arith, h.count, h.room))
    ∙ ap (λ c. (set_count k d.sem c, true)) (omega (arith, h.count, h.room))

loopback_putc-room :
    {k : Kernel} {d : Loopback} {xs : List ℕ} (ch : ℕ)
    → Buffered k d xs
    → length xs < loop_buffer
    → loopback_putc k d ch
      ≡ some (
        set_count k d.sem (length xs + 1),
        set_byte d ((d.index + length xs) % loop_buffer) ch,
        ch % 256,
      )
unfolding loopback_putc store_at
loopback_putc-room {k} {d} {xs} ch h r =
    let c = semcount-Buffered h in
    let full : leb (bias loop_buffer) (bias (semcount k d.sem)) ≡ false = ground (arith, c) in
    let v : add32 d.index (semcount k d.sem) ≡ d.index + length xs = omega (arith, c, h.inside) in
    let at = slot-inside (d.index + length xs) (omega (arith, h.inside)) in
    simp full (
      ap (λ v. store_at k d ch (slot v)) v
      ∙ ap (store_at k d ch) at
      ∙ ap (λ s. some (s.0, set_byte d ((d.index + length xs) % loop_buffer) ch, ch % 256))
          (signal-Buffered h))

-- An open device whose buffer is not full, with nobody waiting for a character: `loopbackPutc`
-- stays within the buffer and returns the byte, which is then behind the others; with the buffer
-- full it returns SYSERR and changes nothing.
pub loopback_putc_lem :
    (k : Kernel) (d : Loopback) (xs : List ℕ) (ch : ℕ)
    → Buffered k d xs
    → (length xs < loop_buffer
        → (k' : Kernel) × (d' : Loopback) × (loopback_putc k d ch ≡ some (k', d', ch % 256))
          × Buffered k' d' (xs ++ ((ch % 256) ∷ [])))
      × (length xs ≡ loop_buffer → loopback_putc k d ch ≡ some (k, d, syserr))
unfolding loopback_putc
loopback_putc_lem k d xs ch h =
    let c = semcount-Buffered h in
    (
      (λ r.
          let w = (d.index + length xs) % loop_buffer in
          let k' = set_count k d.sem (length xs + 1) in
          (
            k',
            set_byte d w ch,
            loopback_putc-room ch h r,
            record {
              open_state = h.open_state;
              valid = h.valid;
              used = ground (arith, h.used);
              count = ground (arith, length-append xs ((ch % 256) ∷ []));
              room = omega (arith, length-append xs ((ch % 256) ∷ []));
              inside = h.inside;
              stored = Stored-append d.buffer d.index w (ch % 256) xs h.inside r refl h.stored;
            },
          )),
      (λ r.
          let full : leb (bias loop_buffer) (bias (semcount k d.sem)) ≡ true = ground (arith, c) in
          rw full refl),
    )

-- An open device that holds characters, with nobody waiting for one: `loopbackGetc` does not
-- return EOF and does not block, its result is the first character, and the others stay.
pub loopback_getc_lem :
    (k : Kernel) (d : Loopback) (x : ℕ) (xs : List ℕ)
    → Buffered k d (x ∷ xs)
    → let (k', waited) = loopback_getc_entry k d in
      let (d', ch) = loopback_getc_exit d in
      (waited ≡ true) × (ch ≡ x) × (k'.currpid ≡ k.currpid) × Buffered k' d' xs
unfolding loopback_getc_entry loopback_getc_exit
loopback_getc_lem k d x xs h =
    let c = semcount-Buffered h in
    let g : ((d.flags % 2 == 1) && leb (bias (semcount k d.sem)) (bias 0)) ≡ false =
      ground (arith, c, h.room) in
    let w : wait k d.sem ≡ (set_count k d.sem (length xs), true) =
      wait-passes k d.sem h.valid h.used (ground (arith, h.count, h.room))
      ∙ ap (λ n. (set_count k d.sem n, true)) (omega (arith, h.count, h.room)) in
    rw (g, w)
      (
        refl,
        h.stored.0,
        refl,
        record {
          open_state = h.open_state;
          valid = h.valid;
          used = ground (arith, h.used);
          count = ground arith;
          room = omega (arith, h.room);
          inside = omega arith;
          stored = h.stored.1;
        },
      )

-- A process waits in `loopbackGetc`, so the count is -1, and the index is not 0: `loopbackPutc`
-- does not write to the place the waiting process reads from, so that process gets the byte that
-- stood there before, whatever character was put. With the index 0 the write is outside the buffer.
pub loopback_putc_waiting :
    (k : Kernel) (d : Loopback) (ch : ℕ)
    → isbadsem d.sem ≡ false
    → (k.semtab d.sem).used ≡ true
    → (k.semtab d.sem).scount ≡ 2 ^ 32 - 1
    → d.index < loop_buffer
    → (0 < d.index
        → (k' : Kernel) × (d' : Loopback) × (loopback_putc k d ch ≡ some (k', d', ch % 256))
          × ((loopback_getc_exit d').1 ≡ d.buffer d.index))
      × (d.index ≡ 0 → loopback_putc k d ch ≡ none)
unfolding loopback_putc store_at loopback_getc_exit
loopback_putc_waiting k d ch b u c i =
    let n : semcount k d.sem ≡ 2 ^ 32 - 1 = semcount-used k d.sem b u ∙ c in
    let full : leb (bias loop_buffer) (bias (semcount k d.sem)) ≡ false = ground (arith, n) in
    (
      (λ p.
          let v : add32 d.index (semcount k d.sem) ≡ d.index - 1 = omega (arith, n) in
          let at = slot-inside (d.index - 1) (omega arith) in
          (
            (signal k d.sem).0,
            set_byte d ((d.index - 1) % loop_buffer) ch,
            simp full (ap (λ v. store_at k d ch (slot v)) v ∙ ap (store_at k d ch) at),
            (let away : (d.index - 1) % loop_buffer ≢ d.index = omega arith in ground arith),
          )),
      (λ z.
          let v : add32 d.index (semcount k d.sem) ≡ 2 ^ 32 - 1 = omega (arith, n) in
          simp full (ap (λ v. store_at k d ch (slot v)) v ∙ ap (store_at k d ch) slot-minus)),
    )

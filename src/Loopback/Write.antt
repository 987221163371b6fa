-- ===== src/Loopback/Write.antt =====
-- device/loopback/loopbackWrite.c.
use os_xinu.Prelude.{ℕ, ◌+◌, ◌%◌, ◌≤◌, ◌≡◌, refl, ap, ◌∙◌, arith, false, not, ◌==◌}
use os_xinu.Prelude.{List, [], ◌∷◌, ◌++◌, length, length-append, some}
use mathlib.Core.List.{append-nil}
use mathlib.Core.Path.{subst}
use os_xinu.Kernel.{Kernel}
use os_xinu.Loopback.{
  Loopback, is_alloc, loop_buffer, syserr, loopback_putc, loopback_write_from, loopback_write,
  write_next,
}
use os_xinu.Loopback.Ring.{Buffered, loopback_putc_lem}

-- The characters as bytes.
abbrev pub bytes : List ℕ → List ℕ
bytes [] = []
bytes (ch ∷ chs) = (ch % 256) ∷ bytes chs

append-step : (xs : List ℕ) (c : ℕ) (cs : List ℕ) → (xs ++ (c ∷ [])) ++ cs ≡ xs ++ (c ∷ cs)
append-step [] c cs = refl
append-step (x ∷ xs) c cs = ap (λ ys. x ∷ ys) (append-step xs c cs)

write-round :
    (i ch : ℕ) (chs : List ℕ) (k : Kernel) (d : Loopback) (k1 : Kernel) (d1 : Loopback) (r : ℕ)
    → loopback_putc k d ch ≡ some (k1, d1, r)
    → (r == syserr) ≡ false
    → loopback_write_from i (ch ∷ chs) k d ≡ loopback_write_from (i + 1) chs k1 d1
unfolding loopback_write_from write_next
write-round i ch chs k d k1 d1 r e g =
    ap (write_next i (loopback_write_from (i + 1) chs)) e ∙ simp g

loopback_write_from_lem :
    (i : ℕ) (chs : List ℕ) (k : Kernel) (d : Loopback) (xs : List ℕ)
    → Buffered k d xs
    → length xs + length chs ≤ loop_buffer
    → (k' : Kernel) × (d' : Loopback) × (loopback_write_from i chs k d
        ≡ some (k', d', i + length chs))
      × Buffered k' d' (xs ++ bytes chs)
unfolding loopback_write_from
loopback_write_from_lem i [] k d xs h r =
    (k, d, ap (λ n. some (k, d, n)) (omega arith), rw (append-nil xs) h)
loopback_write_from_lem i (ch ∷ chs) k d xs h r =
    let (k1, d1, e, h1) = (loopback_putc_lem k d xs ch h).0 (omega arith) in
    let (k2, d2, e2, h2) =
      loopback_write_from_lem (i + 1) chs k1 d1 (xs ++ ((ch % 256) ∷ [])) h1
        (omega (arith, length-append xs ((ch % 256) ∷ []))) in
    let g : (ch % 256 == syserr) ≡ false = ground arith in
    (
      k2,
      d2,
      write-round i ch chs k d k1 d1 (ch % 256) e g
          ∙ e2
          ∙ (ap (λ n. some (k2, d2, n)) (omega arith)),
      subst (Buffered k2 d2) (append-step xs (ch % 256) (bytes chs)) h2,
    )

-- An open device with room for all of the characters, and nobody waiting for one: `loopbackWrite`
-- stays within the buffer, returns the number of the characters, and leaves their bytes in the
-- buffer behind those that were there.
pub loopback_write_lem :
    (chs : List ℕ) (k : Kernel) (d : Loopback) (xs : List ℕ)
    → Buffered k d xs
    → length xs + length chs ≤ loop_buffer
    → (k' : Kernel) × (d' : Loopback) × (loopback_write k d chs ≡ some (k', d', length chs))
      × Buffered k' d' (xs ++ bytes chs)
unfolding loopback_write
loopback_write_lem chs k d xs h r =
    let (k', d', e, b) = loopback_write_from_lem 0 chs k d xs h r in
    let g : not (is_alloc d.state) ≡ false = ap (λ s. not (is_alloc s)) h.open_state in
    (k', d', simp g (e ∙ ap (λ n. some (k', d', n)) (omega arith)), b)

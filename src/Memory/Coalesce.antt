-- ===== src/Memory/Coalesce.antt =====
-- system/freemem.c: the call against the list of blocks.
use os_xinu.Prelude.{ℕ, zero, suc, ◌+◌, ◌^◌, ◌<◌, ◌≤◌, ◌≡◌, ◌≢◌, refl, arith, ap, ◌∙◌, sym}
use os_xinu.Prelude.{List, [], ◌∷◌, length, ltb, ◌==◌, true, false, not}
use os_xinu.Prelude.{Bool-cases, inl, inr, Bool}
use mathlib.Core.Path.{subst}
use os_xinu.Memory.{Store, Memblk, add32, freemem_position, freemem_at, coalesce_next}
use os_xinu.Memory.Blocks.{
  Block, Chain, Ordered, Ordered-clear, merge_next, merge_prev, release_after, release, clear,
}
use os_xinu.Memory.Release.{
  Given, Behind, grown, linked, attach-eq, grown-Given, linked-Behind, freemem_at-eq, next-clear,
}

-- The loop and what stands behind it, from the node `prev` on.
abbrev pub freemem_from : ℕ → Store → ℕ → ℕ → ℕ → ℕ → Store × Bool
freemem_from fuel s a n prev next =
    let (p, x) = freemem_position fuel s a prev next in freemem_at s a n p x

-- The loop stops behind the block at `p`.
merge_prev-Given :
    (s : Store) (p k a n hi : ℕ) (bs : List Block)
    → Chain s (s p).mnext bs
    → (s p).mlength ≡ k
    → 0 < p
    → 0 < k
    → p + k ≤ a
    → 0 < n
    → a + n ≤ hi
    → hi < 2 ^ 32
    → Ordered (a + n) hi bs
    → Given s p n p (merge_prev p k a n bs) (freemem_at s a n p (s p).mnext)
unfolding merge_prev
merge_prev-Given s p k a n hi bs c e h0 h1 h2 h3 h4 top o = elim (Bool-cases ((p + k) == a)) [
  | inl t ↦
      let whole : freemem_at s a n p (s p).mnext
          ≡ (coalesce_next (grown s p n) p (s p).mnext, true) =
        freemem_at-eq s p k a n hi bs c e h0 h2 h4 top o ∙ rw (attach-eq s p a n (p + k), t) in
      rw t (
        subst (Given s p n p (merge_next p (k + n) bs)) (sym whole)
          (grown-Given s p k a n hi bs c e h0 h1 h3 (ground arith) h4 top o))
  | inr t ↦
      let whole : freemem_at s a n p (s p).mnext
          ≡ (coalesce_next (linked s p a n) a (s p).mnext, true) =
        freemem_at-eq s p k a n hi bs c e h0 h2 h4 top o ∙ rw (attach-eq s p a n (p + k), t) in
      let b = linked-Behind s p a n hi bs c (omega arith) h3 h4 top o in
      let z : p ≢ 0 = omega arith in
      rw t (
        subst (Given s p n p ((p, k) ∷ merge_next a n bs)) (sym whole) (record {
          accepted = refl;
          chain = (refl, b.length_kept z ∙ e, rw b.link b.chain);
          below = b.below;
          head = b.head;
          size = b.size;
        }))
]

pub clear-tail :
    (a n b l : ℕ) (bs : List Block) → clear a n ((b, l) ∷ bs) ≡ true → clear a n bs ≡ true
unfolding clear
clear-tail a n b l bs h = ground arith

pub clear-below :
    (a n b l : ℕ) (bs : List Block) → b < a → 0 < n → clear a n ((b, l) ∷ bs) ≡ true → b + l ≤ a
unfolding clear
clear-below a n b l bs h0 h1 h = ground arith

freemem_from_lem :
    (fuel : ℕ) (s : Store) (p k a n hi : ℕ) (bs : List Block)
    → Chain s (s p).mnext bs
    → (s p).mlength ≡ k
    → 0 < p
    → 0 < k
    → p + k ≤ a
    → 0 < n
    → a + n ≤ hi
    → hi < 2 ^ 32
    → Ordered (p + k + 1) hi bs
    → clear a n bs ≡ true
    → length bs < fuel
    → Given s p n p (release_after p k a n bs) (freemem_from fuel s a n p (s p).mnext)
unfolding freemem_position release_after
freemem_from_lem zero s p k a n hi bs c e h0 h1 h2 h3 h4 top o cl f = absurd (omega arith)
freemem_from_lem (suc fuel) s p k a n hi [] c e h0 h1 h2 h3 h4 top o cl f =
    let t : not ((s p).mnext == 0) ≡ false = ground (arith, c) in
    rw t (merge_prev-Given s p k a n hi [] c e h0 h1 h2 h3 h4 top tt)
freemem_from_lem (suc fuel) s p k a n hi ((b, l) ∷ bs) c e h0 h1 h2 h3 h4 top o cl f =
    let z : not (b == 0) ≡ true = ground (arith, o.0) in
    elim (Bool-cases (ltb b a)) [
      | inl t ↦
          let cl' : clear a n bs ≡ true = clear-tail a n b l bs cl in
          let near : b + l ≤ a = clear-below a n b l bs (ground arith) h3 cl in
          let g =
            freemem_from_lem fuel s b l a n hi bs c.2 c.1 (omega (arith, o.0)) o.3 near h3 h4 top
              o.5 cl' (omega arith) in
          let step : freemem_from (suc fuel) s a n p (s p).mnext
              ≡ freemem_from fuel s a n b (s b).mnext =
            rw (c.0, z, t) in
          let keep = g.below p (omega (arith, o.0)) (omega arith) in
          let rest = freemem_from fuel s a n b (s b).mnext in
          let link : (rest.0 p).mnext ≡ b = ap (λ (m : Memblk). m.mnext) keep ∙ c.0 in
          let len : (rest.0 p).mlength ≡ k = ap (λ (m : Memblk). m.mlength) keep ∙ e in
          rw t (
            subst (Given s p n p ((p, k) ∷ release_after b l a n bs)) (sym step) (record {
              accepted = g.accepted;
              chain = (refl, len, rw link g.chain);
              below = λ j x y. g.below j (omega (arith, o.0)) y;
              head = λ y. g.head (omega (arith, o.0));
              size = g.size;
            }))
      | inr t ↦
          let past : a ≤ b = ground arith in
          let o' =
            Ordered-clear a n b hi ((b, l) ∷ bs) past cl (omega arith, o.1, o.2, o.3, o.4, o.5) in
          let step : freemem_from (suc fuel) s a n p (s p).mnext ≡ freemem_at s a n p (s p).mnext =
            rw (c.0, z, t) in
          rw t (
            subst (Given s p n p (merge_prev p k a n ((b, l) ∷ bs))) (sym step)
              (merge_prev-Given s p k a n hi ((b, l) ∷ bs) c e h0 h1 h2 h3 h4 top o'))
    ]

-- The loop stops at the head.
freemem_at-head :
    (s : Store) (a n hi : ℕ) (bs : List Block)
    → Chain s (s 0).mnext bs
    → 0 < a
    → 0 < n
    → a + n ≤ hi
    → hi < 2 ^ 32
    → Ordered (a + n) hi bs
    → freemem_at s a n 0 (s 0).mnext ≡ (coalesce_next (linked s 0 a n) a (s 0).mnext, true)
unfolding freemem_at
freemem_at-head s a n hi bs c h0 h1 h2 top o =
    let t1 : (0 == a) ≡ false = ground arith in
    let t3 = next-clear s a n hi (s 0).mnext bs c h2 top o in rw (t3, attach-eq s 0 a n 0, t1)

-- What `freemem` leaves of the heap if it accepts the bytes.
pub record Freed (s : Store) (n : ℕ) (bs : List Block) (r : Store × Bool) : Type 0 where
  pub accepted : r.1 ≡ true
  pub chain : Chain r.0 (r.0 0).mnext bs
  pub size : (r.0 0).mlength ≡ add32 (s 0).mlength n

Behind-Freed :
    (s : Store) (n a : ℕ) (bs : List Block) (r : Store)
    → Behind s 0 n a bs r
    → Freed s n bs (r, true)
Behind-Freed s n a bs r b = record { accepted = refl; chain = rw b.link b.chain; size = b.size }

pub freemem_from_head :
    (fuel : ℕ) (s : Store) (a n lo hi : ℕ) (bs : List Block)
    → Chain s (s 0).mnext bs
    → 0 < lo
    → lo ≤ a
    → 0 < n
    → a + n ≤ hi
    → hi < 2 ^ 32
    → Ordered lo hi bs
    → clear a n bs ≡ true
    → length bs < fuel
    → Freed s n (release a n bs) (freemem_from fuel s a n 0 (s 0).mnext)
unfolding freemem_position release
freemem_from_head zero s a n lo hi bs c h0 h1 h2 h3 top o cl f = absurd (omega arith)
freemem_from_head (suc fuel) s a n lo hi [] c h0 h1 h2 h3 top o cl f =
    let t : not ((s 0).mnext == 0) ≡ false = ground (arith, c) in
    let step : freemem_from (suc fuel) s a n 0 (s 0).mnext ≡ freemem_at s a n 0 (s 0).mnext =
      rw t in
    subst (Freed s n (merge_next a n []))
      (sym (step ∙ freemem_at-head s a n hi [] c (omega arith) h2 h3 top tt))
      (Behind-Freed s n a (merge_next a n []) (coalesce_next (linked s 0 a n) a (s 0).mnext)
        (linked-Behind s 0 a n hi [] c (omega arith) h2 h3 top tt))
freemem_from_head (suc fuel) s a n lo hi ((b, l) ∷ bs) c h0 h1 h2 h3 top o cl f =
    let z : not (b == 0) ≡ true = ground (arith, o.0) in
    elim (Bool-cases (ltb b a)) [
      | inl t ↦
          let near : b + l ≤ a = clear-below a n b l bs (ground arith) h2 cl in
          let g =
            freemem_from_lem fuel s b l a n hi bs c.2 c.1 (omega (arith, o.0)) o.3 near h2 h3 top
              o.5 (clear-tail a n b l bs cl) (omega arith) in
          let step : freemem_from (suc fuel) s a n 0 (s 0).mnext
              ≡ freemem_from fuel s a n b (s b).mnext =
            rw (c.0, z, t) in
          let rest = freemem_from fuel s a n b (s b).mnext in
          let link : (rest.0 0).mnext ≡ b = g.head (omega (arith, o.0)) ∙ c.0 in
          rw t (
            subst (Freed s n (release_after b l a n bs)) (sym step)
              (record { accepted = g.accepted; chain = rw link g.chain; size = g.size }))
      | inr t ↦
          let past : a ≤ b = ground arith in
          let o' =
            Ordered-clear a n b hi ((b, l) ∷ bs) past cl (omega arith, o.1, o.2, o.3, o.4, o.5) in
          let step : freemem_from (suc fuel) s a n 0 (s 0).mnext ≡ freemem_at s a n 0 (s 0).mnext =
            rw (c.0, z, t) in
          rw t (
            subst (Freed s n (merge_next a n ((b, l) ∷ bs)))
              (sym (step ∙ freemem_at-head s a n hi ((b, l) ∷ bs) c (omega arith) h2 h3 top o'))
              (Behind-Freed s n a (merge_next a n ((b, l) ∷ bs))
                (coalesce_next (linked s 0 a n) a (s 0).mnext)
                (linked-Behind s 0 a n hi ((b, l) ∷ bs) c (omega arith) h2 h3 top o')))
    ]

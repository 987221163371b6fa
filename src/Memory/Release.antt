-- ===== src/Memory/Release.antt =====
-- system/freemem.c on a store that holds a list of free blocks.
use os_xinu.Prelude.{ℕ, ◌+◌, ◌^◌, ◌<◌, ◌≤◌, ◌≡◌, ◌≢◌, refl, arith, ap, ◌∙◌, sym}
use mathlib.Core.Path.{subst}
use os_xinu.Prelude.{List, [], ◌∷◌, ltb, ◌==◌, if◌then◌else◌, true, false, not}
use os_xinu.Prelude.{Bool-cases, inl, inr, Bool, ◌&&◌}
use os_xinu.Memory.{Store, Memblk, add32, set_mnext, set_mlength, freemem_at, attach, coalesce_next}
use os_xinu.Memory.Blocks.{Block, Chain, Ordered, Ordered-lower, Chain-frame, merge_next}

pub coalesce_next-Chain :
    (s : Store) (q m hi : ℕ) (bs : List Block)
    → Chain s (s q).mnext bs
    → (s q).mlength ≡ m
    → 0 < q
    → 0 < m
    → q + m ≤ hi
    → hi < 2 ^ 32
    → Ordered (q + m) hi bs
    → Chain (coalesce_next s q (s q).mnext) q (merge_next q m bs)
unfolding coalesce_next merge_next
coalesce_next-Chain s q m hi [] c e h0 h1 h2 top o =
    let t : (add32 q (s q).mlength == (s q).mnext) ≡ false = ground (arith, c) in rw t (refl, e, c)
coalesce_next-Chain s q m hi ((b, l) ∷ bs) c e h0 h1 h2 top o = elim (Bool-cases ((q + m) == b)) [
  | inl t ↦
      let t' : (add32 q (s q).mlength == b) ≡ true = ground arith in
      let joined = set_mlength s q (add32 (s q).mlength (s b).mlength) in
      let tail =
        Chain-frame s (set_mnext joined q (joined b).mnext) (b + l + 1) hi (s b).mnext bs o.5
          (λ j h. ground (arith, o.0, o.3)) c.2 in
      let link : (set_mnext joined q (joined b).mnext q).mnext ≡ (s b).mnext =
        ground (arith, o.0, o.3) in
      let done : coalesce_next s q (s q).mnext ≡ set_mnext joined q (joined b).mnext =
        rw (c.0, t') in
      let grown : (set_mnext joined q (joined b).mnext q).mlength ≡ m + l =
        ground (arith, c.1, o.3, o.4) in
      rw t (subst (λ s'. Chain s' q ((q, m + l) ∷ bs)) (sym done) (refl, grown, rw link tail))
  | inr t ↦
      let t' : (add32 q (s q).mlength == b) ≡ false = ground arith in
      let done : coalesce_next s q (s q).mnext ≡ s = rw (c.0, t') in
      rw t (subst (λ s'. Chain s' q ((q, m) ∷ (b, l) ∷ bs)) (sym done) (refl, e, c))
]

pub coalesce_next-other : (s : Store) (q next j : ℕ) → j ≢ q → coalesce_next s q next j ≡ s j
unfolding coalesce_next
coalesce_next-other s q next j h = ground arith

-- What a call that succeeds has done, started behind the node `p`: the list from `q` on.
pub record Given (s : Store) (p n q : ℕ) (bs : List Block) (r : Store × Bool) : Type 0 where
  pub accepted : r.1 ≡ true
  pub chain : Chain r.0 q bs
  pub below : (j : ℕ) → j < p → j ≢ 0 → r.0 j ≡ s j
  pub head : p ≢ 0 → (r.0 0).mnext ≡ (s 0).mnext
  pub size : (r.0 0).mlength ≡ add32 (s 0).mlength n

-- The next block does not reach back into the bytes.
pub next-clear :
    (s : Store) (a n hi nx : ℕ) (bs : List Block)
    → Chain s nx bs
    → a + n ≤ hi
    → hi < 2 ^ 32
    → Ordered (a + n) hi bs
    → (not (nx == 0) && ltb nx (add32 a n)) ≡ false
next-clear s a n hi nx [] c h top o = ground (arith, c)
next-clear s a n hi nx ((b, l) ∷ bs) c h top o = ground (arith, c.0, o.0)

module _ (s : Store) (p k a n hi : ℕ) (bs : List Block) where
  abbrev pub nx : ℕ
  nx = (s p).mnext

  abbrev pub attached : Store
  attached = attach s a n p nx (p + k)

  pub freemem_at-eq :
      Chain s (s p).mnext bs
      → (s p).mlength ≡ k
      → 0 < p
      → p + k ≤ a
      → a + n ≤ hi
      → hi < 2 ^ 32
      → Ordered (a + n) hi bs
      → freemem_at s a n p nx ≡ (coalesce_next attached (if (p + k) == a then p else a) nx, true)
  unfolding freemem_at
  freemem_at-eq c e h0 h2 h4 top o =
      let t0 : (p == 0) ≡ false = ground arith in
      let t1 : add32 p (s p).mlength ≡ p + k = omega (arith, e) in
      let t2 : ltb a (p + k) ≡ false = ground arith in
      let t3 = next-clear s a n hi nx bs c h4 top o in rw (t0, t1, t2, t3)

-- The store when the block before, at `p`, has grown by the bytes.
abbrev pub grown : Store → ℕ → ℕ → Store
grown s p n =
    let s1 = set_mlength s 0 (add32 (s 0).mlength n) in set_mlength s1 p (add32 (s1 p).mlength n)

-- The store when the bytes are linked in behind `p`.
abbrev pub linked : Store → ℕ → ℕ → ℕ → Store
linked s p a n =
    let s1 = set_mlength s 0 (add32 (s 0).mlength n) in
    set_mnext (set_mlength (set_mnext s1 a (s p).mnext) a n) p a

pub attach-eq :
    (s : Store) (p a n top : ℕ)
    → attach s a n p (s p).mnext top ≡ (if top == a then grown s p n else linked s p a n)
unfolding attach
attach-eq s p a n top = refl

pub grown-Given :
    (s : Store) (p k a n hi : ℕ) (bs : List Block)
    → Chain s (s p).mnext bs
    → (s p).mlength ≡ k
    → 0 < p
    → 0 < k
    → 0 < n
    → p + k ≡ a
    → a + n ≤ hi
    → hi < 2 ^ 32
    → Ordered (a + n) hi bs
    → Given s p n p (merge_next p (k + n) bs) (coalesce_next (grown s p n) p (s p).mnext, true)
grown-Given s p k a n hi bs c e h0 h1 h2 at h4 top o = record {
  accepted = refl;
  chain =
      let frame = Chain-frame s g (a + n) hi (s p).mnext bs o (λ j h. ground arith) c in
      let link : (g p).mnext ≡ (s p).mnext = ground arith in
      let len : (g p).mlength ≡ k + n = ground arith in
      let bound : Ordered (p + (k + n)) hi bs =
        Ordered-lower (a + n) (p + (k + n)) hi bs (omega arith) o in
      subst (λ x. Chain (coalesce_next g p x) p (merge_next p (k + n) bs)) link
        (coalesce_next-Chain g p (k + n) hi bs (subst (λ x. Chain g x bs) (sym link) frame) len h0
          (omega arith) (omega arith) top bound);
  below = λ j b z. coalesce_next-other g p (s p).mnext j (omega arith) ∙ same j (omega arith) z;
  head = λ z.
      ap (λ (m : Memblk). m.mnext) (coalesce_next-other g p (s p).mnext 0 (omega arith))
      ∙ ground arith;
  size =
      ap (λ (m : Memblk). m.mlength) (coalesce_next-other g p (s p).mnext 0 (omega arith))
      ∙ ground arith;
}
  where
    g : Store
    g = grown s p n

    same : (j : ℕ) → j ≢ p → j ≢ 0 → g j ≡ s j
    same j x y = ground arith

-- The list from the new block on, and what the node `p` before it holds.
pub record Behind (s : Store) (p n a : ℕ) (bs : List Block) (r : Store) : Type 0 where
  pub chain : Chain r a bs
  pub link : (r p).mnext ≡ a
  pub length_kept : p ≢ 0 → (r p).mlength ≡ (s p).mlength
  pub below : (j : ℕ) → j < p → j ≢ 0 → r j ≡ s j
  pub head : p ≢ 0 → (r 0).mnext ≡ (s 0).mnext
  pub size : (r 0).mlength ≡ add32 (s 0).mlength n

pub linked-Behind :
    (s : Store) (p a n hi : ℕ) (bs : List Block)
    → Chain s (s p).mnext bs
    → p < a
    → 0 < n
    → a + n ≤ hi
    → hi < 2 ^ 32
    → Ordered (a + n) hi bs
    → Behind s p n a (merge_next a n bs) (coalesce_next (linked s p a n) a (s p).mnext)
linked-Behind s p a n hi bs c h1 h2 h4 top o = record {
  chain =
      let frame = Chain-frame s g (a + n) hi (s p).mnext bs o (λ j h. ground arith) c in
      let onward : (g a).mnext ≡ (s p).mnext = ground arith in
      let len : (g a).mlength ≡ n = ground arith in
      subst (λ x. Chain (coalesce_next g a x) a (merge_next a n bs)) onward
        (coalesce_next-Chain g a n hi bs (subst (λ x. Chain g x bs) (sym onward) frame) len
          (omega arith) h2 h4 top o);
  link = ap (λ (m : Memblk). m.mnext) (other p (omega arith)) ∙ ground arith;
  length_kept = λ z. ap (λ (m : Memblk). m.mlength) (other p (omega arith)) ∙ ground arith;
  below = λ j b z. other j (omega arith) ∙ same j (omega arith) (omega arith) z;
  head = λ z. ap (λ (m : Memblk). m.mnext) (other 0 (omega arith)) ∙ ground arith;
  size = ap (λ (m : Memblk). m.mlength) (other 0 (omega arith)) ∙ ground arith;
}
  where
    g : Store
    g = linked s p a n

    other : (j : ℕ) → j ≢ a → coalesce_next g a (s p).mnext j ≡ g j
    other j h = coalesce_next-other g a (s p).mnext j h

    same : (j : ℕ) → j ≢ p → j ≢ a → j ≢ 0 → g j ≡ s j
    same j x y z = ground arith

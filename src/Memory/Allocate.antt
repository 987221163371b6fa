-- ===== src/Memory/Allocate.antt =====
-- system/getmem.c on a store that holds a list of free blocks.
use os_xinu.Prelude.{ℕ, ◌+◌, ◌-◌, ◌^◌, ◌<◌, ◌≡◌, ◌≢◌, arith, ap, ◌∙◌}
use os_xinu.Prelude.{List, ◌∷◌, ltb, ◌==◌, if◌then◌else◌, true, false}
use os_xinu.Prelude.{Bool-cases, inl, inr}
use os_xinu.Memory.{Store, Memblk, add32, sub32, set_mnext, set_mlength}
use os_xinu.Memory.Blocks.{Block, Chain, Ordered, Chain-frame, allocate, fits}

-- What the loop has done when it stops, started behind the node `p`.
pub record Taken (s s' : Store) (p n lo : ℕ) (bs : List Block) : Type 0 where
  pub chain : Chain s' (s' p).mnext (allocate n bs)
  pub below : (j : ℕ) → j < lo → j ≢ p → j ≢ 0 → s' j ≡ s j
  pub length_kept : p ≢ 0 → (s' p).mlength ≡ (s p).mlength
  pub head_kept : p ≢ 0 → (s' 0).mnext ≡ (s 0).mnext
  pub size : (s' 0).mlength ≡ (if fits n bs then sub32 (s 0).mlength n else (s 0).mlength)

-- The store when the block at `b` is taken whole.
abbrev pub unlinked : Store → ℕ → ℕ → ℕ → Store
unlinked s n p b = let s1 = set_mnext s p (s b).mnext in set_mlength s1 0 (sub32 (s1 0).mlength n)

pub unlinked-Taken :
    (s : Store) (p n lo hi b l : ℕ) (bs : List Block)
    → p < lo
    → 0 < lo
    → Ordered lo hi ((b, l) ∷ bs)
    → Chain s (s b).mnext bs
    → l ≡ n
    → Taken s (unlinked s n p b) p n lo ((b, l) ∷ bs)
unfolding allocate fits
unlinked-Taken s p n lo hi b l bs hp hl o c e = record {
  chain =
      let t = l == n in
      let here : t ≡ true = ground arith in
      let link : (unlinked s n p b p).mnext ≡ (s b).mnext = ground arith in
      rw (here, link)
        (Chain-frame s (unlinked s n p b) (b + l + 1) hi (s b).mnext bs o.5
          (λ j h. ground (arith, o.0)) c);
  below = λ j h n0 n1. ground arith;
  length_kept = λ h. ground arith;
  head_kept = λ h. ground arith;
  size = ground arith;
}

-- The store when the block at `b` is split.
abbrev pub split : Store → ℕ → ℕ → ℕ → Store
split s n p b =
    let leftover = add32 b n in
    let s1 = set_mnext s p leftover in
    let s2 = set_mnext s1 leftover (s1 b).mnext in
    let s3 = set_mlength s2 leftover (sub32 (s2 b).mlength n) in
    set_mlength s3 0 (sub32 (s3 0).mlength n)

pub split-Taken :
    (s : Store) (p n lo hi b l : ℕ) (bs : List Block)
    → p < lo
    → 0 < lo
    → 0 < n
    → hi < 2 ^ 32
    → Ordered lo hi ((b, l) ∷ bs)
    → (s b).mlength ≡ l
    → Chain s (s b).mnext bs
    → n < l
    → Taken s (split s n p b) p n lo ((b, l) ∷ bs)
unfolding allocate fits
split-Taken s p n lo hi b l bs hp hl hn top o e c lt = record {
  chain =
      let t1 : (l == n) ≡ false = ground arith in
      let t2 : ltb n l ≡ true = ground arith in
      let at : add32 b n ≡ b + n = omega (arith, o.4) in
      let link : (split s n p b p).mnext ≡ b + n = ground (arith, at, o.0) in
      let size' : (split s n p b (b + n)).mlength ≡ l - n = ground (arith, at, o.0, o.4) in
      let onward : (split s n p b (b + n)).mnext ≡ (s b).mnext = ground (arith, at, o.0) in
      let tail =
        Chain-frame s (split s n p b) (b + l + 1) hi (s b).mnext bs o.5
          (λ j h. ground (arith, at, o.0)) c in
      rw (t1, t2) (link, size', rw onward tail);
  below = λ j h n0 n1. ground (arith, o.0, o.4);
  length_kept = λ h. ground (arith, o.0, o.4);
  head_kept = λ h. ground (arith, o.0, o.4);
  size = ground (arith, o.0, o.4);
}

-- The block at `b` is too small, and the rest of the list is searched behind it.
pub passed-Taken :
    (s s' : Store) (p n lo hi b l : ℕ) (bs : List Block)
    → p < lo
    → 0 < lo
    → Ordered lo hi ((b, l) ∷ bs)
    → (s p).mnext ≡ b
    → (s b).mlength ≡ l
    → l < n
    → Taken s s' b n (b + l + 1) bs
    → Taken s s' p n lo ((b, l) ∷ bs)
unfolding allocate fits
passed-Taken s s' p n lo hi b l bs hp hl o at e lt k = record {
  chain =
      let t1 : (l == n) ≡ false = ground arith in
      let t2 : ltb n l ≡ false = ground arith in
      let bp : b ≢ 0 = omega (arith, o.0) in
      let link : (s' p).mnext ≡ b = elim (Bool-cases (p == 0)) [
        | inl z ↦ let pz : p ≡ 0 = ground arith in rw pz (k.head_kept bp ∙ rw pz at at)
        | inr z ↦
            ap (λ (m : Memblk). m.mnext)
              (k.below p (omega (arith, o.0)) (omega (arith, o.0)) (ground arith))
            ∙ at
      ] in
      rw (t1, t2) (link, k.length_kept bp ∙ e, k.chain);
  below = λ j h n0 n1. k.below j (omega (arith, o.0)) (omega (arith, o.0)) n1;
  length_kept =
      λ h. ap (λ (m : Memblk). m.mlength) (k.below p (omega (arith, o.0)) (omega (arith, o.0)) h);
  head_kept = λ h. k.head_kept (omega (arith, o.0));
  size = ground (arith, k.size);
}

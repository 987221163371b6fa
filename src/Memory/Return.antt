-- ===== src/Memory/Return.antt =====
-- system/getmem.c followed by system/freemem.c.
use os_xinu.Prelude.{ℕ, ◌+◌, ◌-◌, ◌*◌, ◌/◌, ◌%◌, ◌^◌, ◌<◌, ◌≤◌, ◌≡◌, refl, arith, ap, ◌∙◌}
use os_xinu.Prelude.{List, [], ◌∷◌, ltb, leb, ◌==◌, if◌then◌else◌, true, false, not}
use os_xinu.Prelude.{Bool-cases, inl, inr, ◌&&◌}
use mathlib.Core.Path.{subst}
use os_xinu.Memory.{Store, freemem, getmem}
use os_xinu.Memory.Blocks.{
  Block, Ordered, Free, merge_next, merge_prev, release_after, release, clear, allocate, first_fit,
  fits,
}
use os_xinu.Memory.FirstFit.{getmem_lem}
use os_xinu.Memory.Bytes.{within, free_at, freemem_lem, first_fit-ge, free_at-allocate}

was_free :
    (x n : ℕ) (bs : List Block)
    → fits n bs ≡ true
    → (within (first_fit n bs) n x && not (free_at x bs)) ≡ false
unfolding first_fit fits free_at
was_free x n [] h = cc
was_free x n ((b, l) ∷ bs) h = ground (arith, was_free x n bs)

-- A request of 1 to 2 ^ 32 - 8 bytes for which a block is large enough: of the bytes that were
-- free, exactly the rounded request at the returned address is no longer free, and all of that
-- was free.
pub getmem_bytes :
    {s : Store} {minheap maxheap : ℕ} {bs : List Block} (nbytes x : ℕ)
    → Free s minheap maxheap bs
    → 0 < nbytes
    → nbytes ≤ 2 ^ 32 - 8
    → fits ((nbytes + 7) / 8 * 8) bs ≡ true
    → let n = (nbytes + 7) / 8 * 8 in
      let (s', a) = getmem s nbytes in
      Free s' minheap maxheap (allocate n bs)
      × (free_at x (allocate n bs) ≡ (free_at x bs && not (within a n x)))
      × ((within a n x && not (free_at x bs)) ≡ false)
getmem_bytes {minheap = lo} {maxheap = hi} {bs} nbytes x f h0 h1 h =
    let n = (nbytes + 7) / 8 * 8 in
    let g = getmem_lem nbytes f h0 h1 in
    rw g.0 (g.1, free_at-allocate x n lo hi bs (omega arith) h f.ordered, was_free x n bs h)

clear-above :
    (a n lo hi : ℕ) (bs : List Block) → a + n ≤ lo → Ordered lo hi bs → clear a n bs ≡ true
unfolding clear
clear-above a n lo hi [] h o = refl
clear-above a n lo hi ((b, l) ∷ bs) h o =
    ground (arith, o.0, clear-above a n (b + l + 1) hi bs (omega (arith, o.0)) o.5)

clear-allocate :
    (n lo hi : ℕ) (bs : List Block)
    → 0 < n
    → fits n bs ≡ true
    → Ordered lo hi bs
    → clear (first_fit n bs) n (allocate n bs) ≡ true
unfolding clear allocate first_fit fits
clear-allocate n lo hi [] h0 h o = cc
clear-allocate n lo hi ((b, l) ∷ bs) h0 h o = elim (Bool-cases (leb n l)) [
  | inl e ↦
      let above = clear-above b n (b + l + 1) hi bs (ground arith) o.5 in ground (arith, above)
  | inr e ↦
      ground
        (arith, o.0, clear-allocate n (b + l + 1) hi bs h0, first_fit-ge n (b + l + 1) hi bs, o.5)
]

-- Giving back what first fit took, at the place where the search stopped.
merge_next-allocate :
    (n lo hi b l : ℕ) (bs : List Block)
    → 0 < n
    → n ≤ l
    → Ordered (b + l + 1) hi bs
    → merge_next b n (if l == n then bs else ((b + n, l - n) ∷ bs)) ≡ (b, l) ∷ bs
unfolding merge_next
merge_next-allocate n lo hi b l [] h0 h o = ground arith
merge_next-allocate n lo hi b l ((b', l') ∷ bs) h0 h o = ground (arith, o.0)

abbrev left_behind : ℕ → ℕ → ℕ → List Block → List Block
left_behind n b l bs = if l == n then bs else ((b + n, l - n) ∷ bs)

allocate-here :
    (n b l : ℕ) (bs : List Block) → n ≤ l → allocate n ((b, l) ∷ bs) ≡ left_behind n b l bs
unfolding allocate
allocate-here n b l bs h = ground arith

release-here :
    (n hi b l : ℕ) (bs : List Block)
    → n ≤ l
    → Ordered (b + l + 1) hi bs
    → release b n (left_behind n b l bs) ≡ merge_next b n (left_behind n b l bs)
unfolding release
release-here n hi b l [] h o = ground arith
release-here n hi b l ((b', l') ∷ bs) h o = ground (arith, o.0)

release_after-here :
    (n hi p k b l : ℕ) (bs : List Block)
    → 0 < n
    → n ≤ l
    → Ordered (b + l + 1) hi bs
    → release_after p k b n (left_behind n b l bs) ≡ merge_prev p k b n (left_behind n b l bs)
unfolding release_after
release_after-here n hi p k b l [] h0 h o = ground arith
release_after-here n hi p k b l ((b', l') ∷ bs) h0 h o = ground (arith, o.0)

merge_prev-allocate :
    (n hi p k b l : ℕ) (bs : List Block)
    → 0 < n
    → n ≤ l
    → p + k < b
    → Ordered (b + l + 1) hi bs
    → merge_prev p k b n (left_behind n b l bs) ≡ (p, k) ∷ (b, l) ∷ bs
unfolding merge_prev
merge_prev-allocate n hi p k b l bs h0 h q o =
    let t : ((p + k) == b) ≡ false = ground arith in
    rw t (ap (λ m. (p, k) ∷ m) (merge_next-allocate n (b + l + 1) hi b l bs h0 h o))

first_fit-place :
    (n lo hi : ℕ) (bs : List Block)
    → fits n bs ≡ true
    → Ordered lo hi bs
    → (first_fit n bs % 8 ≡ 0) × (first_fit n bs + n ≤ hi)
unfolding fits first_fit
first_fit-place n lo hi [] h o = cc
first_fit-place n lo hi ((b, l) ∷ bs) h o = elim (Bool-cases (leb n l)) [
  | inl e ↦ let le : n ≤ l = ground arith in rw e (o.1, omega (arith, o.4))
  | inr e ↦ rw e (first_fit-place n (b + l + 1) hi bs (ground arith) o.5)
]

release_after-allocate :
    (n lo hi p k : ℕ) (bs : List Block)
    → 0 < n
    → fits n bs ≡ true
    → p + k + 1 ≤ lo
    → Ordered lo hi bs
    → release_after p k (first_fit n bs) n (allocate n bs) ≡ (p, k) ∷ bs
unfolding release_after allocate first_fit fits
release_after-allocate n lo hi p k [] h0 h q o = cc
release_after-allocate n lo hi p k ((b, l) ∷ bs) h0 h q o = elim (Bool-cases (leb n l)) [
  | inl e ↦
      let le : n ≤ l = ground arith in
      let joined = merge_prev-allocate n hi p k b l bs h0 le (omega (arith, o.0)) o.5 in
      rw (e, allocate-here n b l bs le) (release_after-here n hi p k b l bs h0 le o.5 ∙ joined)
  | inr e ↦
      let gt : l < n = ground arith in
      let more : fits n bs ≡ true = ground arith in
      let far = first_fit-ge n (b + l + 1) hi bs more o.5 in
      let t : ltb b (first_fit n bs) ≡ true = ground arith in
      let t1 : (l == n) ≡ false = ground arith in
      let t2 : ltb n l ≡ false = ground arith in
      rw (e, t1, t2, t)
        (ap (λ m. (p, k) ∷ m)
          (release_after-allocate n (b + l + 1) hi b l bs h0 more (omega arith) o.5))
]

release-allocate :
    (n lo hi : ℕ) (bs : List Block)
    → 0 < n
    → fits n bs ≡ true
    → Ordered lo hi bs
    → release (first_fit n bs) n (allocate n bs) ≡ bs
unfolding release allocate first_fit fits
release-allocate n lo hi [] h0 h o = cc
release-allocate n lo hi ((b, l) ∷ bs) h0 h o = elim (Bool-cases (leb n l)) [
  | inl e ↦
      let le : n ≤ l = ground arith in
      rw (e, allocate-here n b l bs le)
        (release-here n hi b l bs le o.5 ∙ merge_next-allocate n (b + l + 1) hi b l bs h0 le o.5)
  | inr e ↦
      let gt : l < n = ground arith in
      let more : fits n bs ≡ true = ground arith in
      let far = first_fit-ge n (b + l + 1) hi bs more o.5 in
      let t : ltb b (first_fit n bs) ≡ true = ground arith in
      let t1 : (l == n) ≡ false = ground arith in
      let t2 : ltb n l ≡ false = ground arith in
      rw (e, t1, t2, t) (release_after-allocate n (b + l + 1) hi b l bs h0 more (omega arith) o.5)
]

-- Giving back what `getmem` has returned for a request that a block could meet: `freemem` accepts
-- it and the free list is the one from before both calls.
pub freemem-getmem :
    {s : Store} {minheap maxheap : ℕ} {bs : List Block} (nbytes : ℕ)
    → Free s minheap maxheap bs
    → 0 < nbytes
    → nbytes ≤ 2 ^ 32 - 8
    → fits ((nbytes + 7) / 8 * 8) bs ≡ true
    → let (s', a) = getmem s nbytes in
      let (s'', accepted) = freemem minheap maxheap s' a nbytes in
      (accepted ≡ true) × Free s'' minheap maxheap bs
freemem-getmem {s} {minheap = lo} {maxheap = hi} {bs} nbytes f h0 h1 h =
    let n = (nbytes + 7) / 8 * 8 in
    let g = getmem_lem nbytes f h0 h1 in
    let place = first_fit-place n lo hi bs h f.ordered in
    let back =
      freemem_lem (first_fit n bs) nbytes 0 g.1 h0 (first_fit-ge n lo hi bs h f.ordered) place.0
        place.1 (clear-allocate n lo hi bs (omega arith) h f.ordered) in
    rw g.0
      (back.0, subst (Free _ lo hi) (release-allocate n lo hi bs (omega arith) h f.ordered) back.1)

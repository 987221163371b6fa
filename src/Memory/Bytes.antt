-- ===== src/Memory/Bytes.antt =====
-- The bytes that system/getmem.c takes from the free list and system/freemem.c gives back.
use os_xinu.Prelude.{ℕ, ◌+◌, ◌*◌, ◌/◌, ◌%◌, ◌<◌, ◌≤◌, ◌≡◌, refl, arith}
use os_xinu.Prelude.{List, [], ◌∷◌, ltb, leb, ◌==◌, true, false, not}
use os_xinu.Prelude.{Bool-cases, inl, inr, Bool, ◌||◌, ◌&&◌}
use os_xinu.Memory.{Store, roundmb, add32, max_blocks, freemem}
use os_xinu.Memory.Blocks.{
  Block, Ordered, length-Ordered, Free, merge_next, merge_prev, release_after, release, clear,
  allocate, first_fit, fits,
}
use os_xinu.Memory.Merge.{release-Ordered}
use os_xinu.Memory.Coalesce.{freemem_from_head}

-- Is `x` among the `l` bytes from `b` on?
abbrev pub within : ℕ → ℕ → ℕ → Bool
within b l x = leb b x && ltb x (b + l)

unfoldable pub free_at : ℕ → List Block → Bool
free_at x [] = false
free_at x ((b, l) ∷ bs) = within b l x || free_at x bs

free_at-merge_next :
    (x a n : ℕ) (bs : List Block) → free_at x (merge_next a n bs) ≡ (within a n x || free_at x bs)
unfolding free_at merge_next
free_at-merge_next x a n [] = ground arith
free_at-merge_next x a n ((b, l) ∷ bs) = ground arith

free_at-merge_prev :
    (x p k a n : ℕ) (bs : List Block)
    → free_at x (merge_prev p k a n bs) ≡ (within a n x || (within p k x || free_at x bs))
unfolding merge_prev free_at
free_at-merge_prev x p k a n bs =
    ground (arith, free_at-merge_next x p (k + n) bs, free_at-merge_next x a n bs)

free_at-release_after :
    (x p k a n : ℕ) (bs : List Block)
    → free_at x (release_after p k a n bs) ≡ (within a n x || (within p k x || free_at x bs))
unfolding release_after free_at
free_at-release_after x p k a n [] = free_at-merge_prev x p k a n []
free_at-release_after x p k a n ((b, l) ∷ bs) =
    ground (arith, free_at-release_after x b l a n bs, free_at-merge_prev x p k a n ((b, l) ∷ bs))

free_at-release :
    (x a n : ℕ) (bs : List Block) → free_at x (release a n bs) ≡ (within a n x || free_at x bs)
unfolding release free_at
free_at-release x a n [] = free_at-merge_next x a n []
free_at-release x a n ((b, l) ∷ bs) =
    ground (arith, free_at-release_after x b l a n bs, free_at-merge_next x a n ((b, l) ∷ bs))

-- The request that `freemem` accepts: the rounded bytes lie in the heap, at a multiple of 8, and
-- none of them is free. It returns OK, exactly those bytes become free, the list is again in order
-- with no two blocks touching, and the size kept in `memlist` grows by the rounded request.
pub freemem_lem :
    {s : Store} {minheap maxheap : ℕ} {bs : List Block} (a nbytes x : ℕ)
    → Free s minheap maxheap bs
    → 0 < nbytes
    → minheap ≤ a
    → a % 8 ≡ 0
    → a + (nbytes + 7) / 8 * 8 ≤ maxheap
    → clear a ((nbytes + 7) / 8 * 8) bs ≡ true
    → let n = (nbytes + 7) / 8 * 8 in
      let (s', accepted) = freemem minheap maxheap s a nbytes in
      (accepted ≡ true)
      × Free s' minheap maxheap (release a n bs)
      × (free_at x (release a n bs) ≡ (within a n x || free_at x bs))
      × ((s' 0).mlength ≡ add32 (s 0).mlength n)
unfolding freemem
freemem_lem {s} {minheap = lo} {maxheap = hi} {bs} a nbytes x f h0 h1 h2 h3 c =
    let n = (nbytes + 7) / 8 * 8 in
    let t : ((nbytes == 0) || ltb a lo || ltb hi a) ≡ false = ground arith in
    let r : roundmb nbytes ≡ n = omega (arith, f.top) in
    let g =
      freemem_from_head max_blocks s a n lo hi bs f.chain f.positive h1 (omega arith) h3 f.top
        f.ordered c (omega (arith, length-Ordered lo hi bs f.ordered, f.top)) in
    rw (t, r)
      (
        g.accepted,
        record {
          chain = g.chain;
          ordered = release-Ordered a n hi h2 (omega arith) (omega arith) h3 lo bs h1 f.ordered c;
          positive = f.positive;
          top = f.top;
        },
        free_at-release x a n bs,
        g.size,
      )

free_at-below : (x lo hi : ℕ) (bs : List Block) → x < lo → Ordered lo hi bs → free_at x bs ≡ false
unfolding free_at
free_at-below x lo hi [] h o = refl
free_at-below x lo hi ((b, l) ∷ bs) h o =
    ground (arith, o.0, free_at-below x (b + l + 1) hi bs (omega (arith, o.0)) o.5)

pub first_fit-ge :
    (n lo hi : ℕ) (bs : List Block) → fits n bs ≡ true → Ordered lo hi bs → lo ≤ first_fit n bs
unfolding fits first_fit
first_fit-ge n lo hi [] h o = cc
first_fit-ge n lo hi ((b, l) ∷ bs) h o = elim (Bool-cases (leb n l)) [
  | inl e ↦ rw e o.0
  | inr e ↦ rw e (omega (arith, first_fit-ge n (b + l + 1) hi bs (ground arith) o.5))
]

pub free_at-allocate :
    (x n lo hi : ℕ) (bs : List Block)
    → 0 < n
    → fits n bs ≡ true
    → Ordered lo hi bs
    → free_at x (allocate n bs) ≡ (free_at x bs && not (within (first_fit n bs) n x))
unfolding free_at allocate first_fit fits
free_at-allocate x n lo hi [] h0 h o = cc
free_at-allocate x n lo hi ((b, l) ∷ bs) h0 h o = ground (
  arith,
  o.0,
  free_at-allocate x n (b + l + 1) hi bs h0,
  first_fit-ge n (b + l + 1) hi bs,
  free_at-below x (b + l + 1) hi bs,
  o.5,
)

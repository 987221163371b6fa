-- ===== src/Memory/FirstFit.antt =====
-- system/getmem.c: the call against first fit on the list of blocks.
use os_xinu.Prelude.{ℕ, zero, suc, ◌+◌, ◌-◌, ◌*◌, ◌/◌, ◌%◌, ◌^◌, ◌<◌, ◌≤◌, ◌≡◌, refl, arith}
use os_xinu.Prelude.{List, [], ◌∷◌, length, ltb, leb, ◌==◌, if◌then◌else◌, true, false, not}
use os_xinu.Prelude.{Bool-cases, inl, inr}
use os_xinu.Memory.{Store, roundmb, add32, sub32, max_blocks, getmem_from, getmem}
use os_xinu.Memory.Blocks.{
  Block, Chain, Ordered, Ordered-lower, length-Ordered, Free, allocate, first_fit, fits,
}
use os_xinu.Memory.Allocate.{Taken, unlinked-Taken, split-Taken, passed-Taken}

getmem_from_lem :
    (fuel : ℕ) (s : Store) (n p lo hi : ℕ) (bs : List Block)
    → p < lo
    → 0 < n
    → hi < 2 ^ 32
    → Ordered lo hi bs
    → Chain s (s p).mnext bs
    → length bs < fuel
    → Taken s (getmem_from fuel s n p (s p).mnext).0 p n lo bs
      × ((getmem_from fuel s n p (s p).mnext).1 ≡ first_fit n bs)
unfolding getmem_from allocate first_fit fits
getmem_from_lem zero s n p lo hi bs hp hn top o c f = absurd (omega arith)
getmem_from_lem (suc fuel) s n p lo hi [] hp hn top o c f =
    let t : not ((s p).mnext == 0) ≡ false = ground arith in
    rw t (
      record {
        chain = c;
        below = λ j h n0 n1. refl;
        length_kept = λ h. refl;
        head_kept = λ h. refl;
        size = refl;
      },
      refl,
    )
getmem_from_lem (suc fuel) s n p lo hi ((b, l) ∷ bs) hp hn top o c f =
    let rest = getmem_from fuel s n b (s b).mnext in
    let t0 : not (b == 0) ≡ true = ground (arith, o.0) in
    let later =
      getmem_from_lem fuel s n b (b + l + 1) hi bs (omega arith) hn top o.5 c.2 (omega arith) in
    rw (c.0, t0)
      (elim (Bool-cases ((s b).mlength == n)) [
        | inl e ↦
            let t : leb n l ≡ true = ground (arith, c.1) in
            rw (e, t)
              (unlinked-Taken s p n lo hi b l bs hp (omega arith) o c.2 (ground (arith, c.1)), refl)
        | inr e ↦ elim (Bool-cases (ltb n (s b).mlength)) [
          | inl g ↦
              let t : leb n l ≡ true = ground (arith, c.1) in
              rw (e, g, t)
                (
                  split-Taken s p n lo hi b l bs hp (omega arith) hn top o c.1 c.2
                      (ground (arith, c.1)),
                  refl,
                )
          | inr g ↦
              let t : leb n l ≡ false = ground (arith, c.1) in
              rw (e, g, t)
                (
                  passed-Taken s rest.0 p n lo hi b l bs hp (omega arith) o c.0 c.1
                      (ground (arith, c.1)) later.0,
                  later.1,
                )
        ]
      ])

pub allocate-Ordered :
    (n lo hi : ℕ) (bs : List Block)
    → 0 < n
    → n % 8 ≡ 0
    → Ordered lo hi bs
    → Ordered lo hi (allocate n bs)
unfolding allocate
allocate-Ordered n lo hi [] hn h8 o = tt
allocate-Ordered n lo hi ((b, l) ∷ bs) hn h8 o = elim (Bool-cases (l == n)) [
  | inl e ↦ rw e (Ordered-lower (b + l + 1) lo hi bs (omega arith) o.5)
  | inr e ↦ elim (Bool-cases (ltb n l)) [
    | inl g ↦
        let lt : n < l = ground arith in
        rw (e, g)
          (
            omega arith,
            omega arith,
            omega arith,
            omega arith,
            omega arith,
            Ordered-lower (b + l + 1) (b + n + (l - n) + 1) hi bs (omega arith) o.5,
          )
    | inr g ↦ rw (e, g) (o.0, o.1, o.2, o.3, o.4, allocate-Ordered n (b + l + 1) hi bs hn h8 o.5)
  ]
]

-- A request of 1 to 2 ^ 32 - 8 bytes is rounded up to a multiple of 8: `getmem` searches the whole
-- list and returns the address of the first block that is large enough, or SYSERR if none is; the
-- list left is that of first fit, again in order and untouching, and the size kept in `memlist`
-- falls by the rounded request if a block was found and stays otherwise.
pub getmem_lem :
    {s : Store} {minheap maxheap : ℕ} {bs : List Block} (nbytes : ℕ)
    → Free s minheap maxheap bs
    → 0 < nbytes
    → nbytes ≤ 2 ^ 32 - 8
    → let n = (nbytes + 7) / 8 * 8 in
      let (s', a) = getmem s nbytes in
      (a ≡ first_fit n bs)
      × Free s' minheap maxheap (allocate n bs)
      × ((s' 0).mlength ≡ (if fits n bs then sub32 (s 0).mlength n else (s 0).mlength))
unfolding getmem
getmem_lem {s} {minheap = lo} {maxheap = hi} {bs} nbytes f h0 h1 =
    let n = (nbytes + 7) / 8 * 8 in
    let t : (nbytes == 0) ≡ false = ground arith in
    let r : roundmb nbytes ≡ n = omega arith in
    let (k, a) =
      getmem_from_lem max_blocks s n 0 lo hi bs f.positive (omega arith) f.top f.ordered f.chain
        (omega (arith, length-Ordered lo hi bs f.ordered, f.top)) in
    rw (t, r)
      (
        a,
        record {
          chain = k.chain;
          ordered = allocate-Ordered n lo hi bs (omega arith) (omega arith) f.ordered;
          positive = f.positive;
          top = f.top;
        },
        k.size,
      )

getmem_from_zero :
    (fuel : ℕ) (s : Store) (b l : ℕ)
    → (s b).mlength ≡ l
    → 0 < l
    → 0 < b
    → b < 2 ^ 32
    → l < 2 ^ 32
    → 0 < fuel
    → let (s', a) = getmem_from fuel s 0 0 b in (a ≡ b) × ((s' 0).mnext ≡ b) × ((s' b).mlength ≡ l)
unfolding getmem_from
getmem_from_zero zero s b l e h0 h1 h2 h4 h3 = absurd (omega arith)
getmem_from_zero (suc fuel) s b l e h0 h1 h2 h4 h3 =
    let t0 : not (b == 0) ≡ true = ground arith in
    let t1 : ((s b).mlength == 0) ≡ false = ground arith in
    let t2 : ltb 0 (s b).mlength ≡ true = ground arith in
    let at : add32 b 0 ≡ b = omega arith in
    rw (t0, t1, t2) (refl, ground (arith, at), ground (arith, at))

-- A request within 7 bytes of 2 ^ 32 is rounded to 0: with a list that is not empty `getmem`
-- returns its first block, which stays on the list.
getmem_overflow :
    {s : Store} {minheap maxheap : ℕ} (b l : ℕ) (bs : List Block) (nbytes : ℕ)
    → Free s minheap maxheap ((b, l) ∷ bs)
    → 2 ^ 32 - 8 < nbytes
    → nbytes < 2 ^ 32
    → let (s', a) = getmem s nbytes in (a ≡ b) × ((s' 0).mnext ≡ b) × ((s' b).mlength ≡ l)
unfolding getmem
getmem_overflow {s} b l bs nbytes f h0 h1 =
    let t : (nbytes == 0) ≡ false = ground arith in
    let r : roundmb nbytes ≡ 0 = omega arith in
    rw (t, r, f.chain.0)
      (getmem_from_zero max_blocks s b l f.chain.1 (omega (arith, f.ordered.3))
        (omega (arith, f.ordered.0, f.positive)) (omega (arith, f.ordered.4, f.top))
        (omega (arith, f.ordered.4, f.top)) (omega arith))

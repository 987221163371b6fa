-- ===== src/Memory/Blocks.antt =====
-- The list of free blocks that a store holds, and its order in the heap.
use os_xinu.Prelude.{ℕ, ◌+◌, ◌-◌, ◌*◌, ◌%◌, ◌^◌, ◌<◌, ◌≤◌, ◌≡◌, arith}
use os_xinu.Prelude.{List, [], ◌∷◌, length, ltb, leb, ◌==◌, if◌then◌else◌, Bool, true, false}
use os_xinu.Prelude.{◌||◌, ◌&&◌}
use os_xinu.Memory.{Store}

-- Address and length of a block.
abbrev pub Block : Type 0
Block = ℕ × ℕ

-- Along `mnext` from `a` to NULL.
abbrev pub Chain : Store → ℕ → List Block → Type 0
Chain s a [] = a ≡ 0
Chain s a ((b, l) ∷ bs) = (a ≡ b) × ((s b).mlength ≡ l) × Chain s (s b).mnext bs

-- The blocks stand between `lo` and `hi` in the order of their addresses, whole multiples of 8
-- bytes at multiples of 8, and no two of them touch.
abbrev pub Ordered : ℕ → ℕ → List Block → Type 0
Ordered lo hi [] = Unit
Ordered lo hi ((b, l) ∷ bs) =
    (lo ≤ b) × (b % 8 ≡ 0) × (l % 8 ≡ 0) × (0 < l) × (b + l ≤ hi) × Ordered (b + l + 1) hi bs

pub Ordered-lower :
    (lo lo' hi : ℕ) (bs : List Block) → lo' ≤ lo → Ordered lo hi bs → Ordered lo' hi bs
Ordered-lower lo lo' hi [] h o = tt
Ordered-lower lo lo' hi ((b, l) ∷ bs) h o = (omega arith, o.1, o.2, o.3, o.4, o.5)

pub length-Ordered : (lo hi : ℕ) (bs : List Block) → Ordered lo hi bs → 8 * length bs ≤ hi - lo
length-Ordered lo hi [] o = omega arith
length-Ordered lo hi ((b, l) ∷ bs) o = omega (arith, length-Ordered (b + l + 1) hi bs o.5)

-- A store that agrees on the blocks holds them too.
pub Chain-frame :
    (s s' : Store) (lo hi a : ℕ) (bs : List Block)
    → Ordered lo hi bs
    → ((j : ℕ) → lo ≤ j → s' j ≡ s j)
    → Chain s a bs
    → Chain s' a bs
Chain-frame s s' lo hi a [] o f c = c
Chain-frame s s' lo hi a ((b, l) ∷ bs) o f c =
    let e = f b o.0 in
    let rest =
      Chain-frame s s' (b + l + 1) hi (s b).mnext bs o.5 (λ j h. f j (omega (arith, o.0))) c.2 in
    rw e (c.0, c.1, rest)

-- The list of the free blocks of a heap from `minheap` to `maxheap`.
pub record Free (s : Store) (minheap maxheap : ℕ) (bs : List Block) : Type 0 where
  pub chain : Chain s (s 0).mnext bs
  pub ordered : Ordered minheap maxheap bs
  pub positive : 0 < minheap
  pub top : maxheap < 2 ^ 32

-- First fit: what is left of the list, and the address.
unfoldable pub allocate : ℕ → List Block → List Block
allocate n [] = []
allocate n ((b, l) ∷ bs) =
    let more = allocate n bs in
    if l == n then bs else if ltb n l then (b + n, l - n) ∷ bs else (b, l) ∷ more

unfoldable pub first_fit : ℕ → List Block → ℕ
first_fit n [] = 2 ^ 32 - 1
first_fit n ((b, l) ∷ bs) = let more = first_fit n bs in if leb n l then b else more

unfoldable pub fits : ℕ → List Block → Bool
fits n [] = false
fits n ((b, l) ∷ bs) = let more = fits n bs in if leb n l then true else more

-- Giving back `n` bytes at `a`: the lists behind the place, from it on, and from the block before
-- it on. Blocks that touch become one.
unfoldable pub merge_next : ℕ → ℕ → List Block → List Block
merge_next a n [] = (a, n) ∷ []
merge_next a n ((b, l) ∷ bs) = if (a + n) == b then (a, n + l) ∷ bs else (a, n) ∷ (b, l) ∷ bs

unfoldable pub merge_prev : ℕ → ℕ → ℕ → ℕ → List Block → List Block
merge_prev p k a n bs = if (p + k) == a then merge_next p (k + n) bs else (p, k) ∷ merge_next a n bs

unfoldable pub release_after : ℕ → ℕ → ℕ → ℕ → List Block → List Block
release_after p k a n [] = merge_prev p k a n []
release_after p k a n ((b, l) ∷ bs) =
    let more = release_after b l a n bs in
    if ltb b a then (p, k) ∷ more else merge_prev p k a n ((b, l) ∷ bs)

unfoldable pub release : ℕ → ℕ → List Block → List Block
release a n [] = merge_next a n []
release a n ((b, l) ∷ bs) =
    if ltb b a then release_after b l a n bs else merge_next a n ((b, l) ∷ bs)

-- No block of the list has a byte of `a` to `a + n`.
unfoldable pub clear : ℕ → ℕ → List Block → Bool
clear a n [] = true
clear a n ((b, l) ∷ bs) = (leb (b + l) a || leb (a + n) b) && clear a n bs

-- From a block on that is not below `a`, all stand behind the bytes that are clear.
pub Ordered-clear :
    (a n lo hi : ℕ) (bs : List Block)
    → a ≤ lo
    → clear a n bs ≡ true
    → Ordered lo hi bs
    → Ordered (a + n) hi bs
unfolding clear
Ordered-clear a n lo hi [] h c o = tt
Ordered-clear a n lo hi ((b, l) ∷ bs) h c o =
    let far : a + n ≤ b = ground (arith, o.0, o.3) in (far, o.1, o.2, o.3, o.4, o.5)

-- ===== src/Memory/Merge.antt =====
-- The order of the free list after system/freemem.c.
use os_xinu.Prelude.{ℕ, ◌+◌, ◌%◌, ◌<◌, ◌≤◌, ◌≡◌, arith}
use os_xinu.Prelude.{List, [], ◌∷◌, ltb, ◌==◌, true}
use os_xinu.Prelude.{Bool-cases, inl, inr}
use os_xinu.Memory.Blocks.{
  Block, Ordered, Ordered-lower, Ordered-clear, merge_next, merge_prev, release_after, release,
  clear,
}
use os_xinu.Memory.Coalesce.{clear-below, clear-tail}

merge_next-Ordered :
    (a n lo hi : ℕ) (bs : List Block)
    → lo ≤ a
    → a % 8 ≡ 0
    → n % 8 ≡ 0
    → 0 < n
    → a + n ≤ hi
    → Ordered (a + n) hi bs
    → Ordered lo hi (merge_next a n bs)
unfolding merge_next
merge_next-Ordered a n lo hi [] h0 h1 h2 h3 h4 o = (h0, h1, h2, h3, h4, tt)
merge_next-Ordered a n lo hi ((b, l) ∷ bs) h0 h1 h2 h3 h4 o = elim (Bool-cases ((a + n) == b)) [
  | inl e ↦
      let same : a + n ≡ b = ground arith in
      rw e (
        h0,
        h1,
        omega (arith, o.2),
        omega arith,
        omega (arith, o.4),
        Ordered-lower (b + l + 1) (a + (n + l) + 1) hi bs (omega arith) o.5,
      )
  | inr e ↦
      let far : a + n + 1 ≤ b = ground (arith, o.0) in
      rw e (h0, h1, h2, h3, h4, (far, o.1, o.2, o.3, o.4, o.5))
]

module _ (a n hi : ℕ) (aligned : a % 8 ≡ 0) (whole : n % 8 ≡ 0) (some_bytes : 0 < n)
    (top : a + n ≤ hi) where
  merge_prev-Ordered :
      (p k lo : ℕ) (bs : List Block)
      → lo ≤ p
      → p % 8 ≡ 0
      → k % 8 ≡ 0
      → 0 < k
      → p + k ≤ a
      → Ordered (a + n) hi bs
      → Ordered lo hi (merge_prev p k a n bs)
  unfolding merge_prev
  merge_prev-Ordered p k lo bs h0 h1 h2 h3 h4 o = elim (Bool-cases ((p + k) == a)) [
    | inl e ↦
        let same : p + k ≡ a = ground arith in
        rw e (
          merge_next-Ordered p (k + n) lo hi bs h0 h1 (omega arith) (omega arith) (omega arith)
            (Ordered-lower (a + n) (p + (k + n)) hi bs (omega arith) o))
    | inr e ↦
        let apart : p + k + 1 ≤ a = ground arith in
        rw e (
          h0,
          h1,
          h2,
          h3,
          omega arith,
          merge_next-Ordered a n (p + k + 1) hi bs apart aligned whole some_bytes top o,
        )
  ]

  release_after-Ordered :
      (p k lo : ℕ) (bs : List Block)
      → Ordered lo hi ((p, k) ∷ bs)
      → p + k ≤ a
      → clear a n bs ≡ true
      → Ordered lo hi (release_after p k a n bs)
  unfolding release_after
  release_after-Ordered p k lo [] o h c = merge_prev-Ordered p k lo [] o.0 o.1 o.2 o.3 h tt
  release_after-Ordered p k lo ((b, l) ∷ bs) o h c = elim (Bool-cases (ltb b a)) [
    | inl t ↦
        let near : b + l ≤ a = clear-below a n b l bs (ground arith) some_bytes c in
        rw t (
          o.0,
          o.1,
          o.2,
          o.3,
          o.4,
          release_after-Ordered b l (p + k + 1) bs o.5 near (clear-tail a n b l bs c),
        )
    | inr t ↦
        let past : a ≤ b = ground arith in
        let q = o.5 in
        rw t (
          merge_prev-Ordered p k lo ((b, l) ∷ bs) o.0 o.1 o.2 o.3 h
            (Ordered-clear a n b hi ((b, l) ∷ bs) past c (omega arith, q.1, q.2, q.3, q.4, q.5)))
  ]

  pub release-Ordered :
      (lo : ℕ) (bs : List Block)
      → lo ≤ a
      → Ordered lo hi bs
      → clear a n bs ≡ true
      → Ordered lo hi (release a n bs)
  unfolding release
  release-Ordered lo [] h o c = merge_next-Ordered a n lo hi [] h aligned whole some_bytes top tt
  release-Ordered lo ((b, l) ∷ bs) h o c = elim (Bool-cases (ltb b a)) [
    | inl t ↦
        let near : b + l ≤ a = clear-below a n b l bs (ground arith) some_bytes c in
        rw t (release_after-Ordered b l lo bs o near (clear-tail a n b l bs c))
    | inr t ↦
        let past : a ≤ b = ground arith in
        rw t (
          merge_next-Ordered a n lo hi ((b, l) ∷ bs) h aligned whole some_bytes top
            (Ordered-clear a n b hi ((b, l) ∷ bs) past c (omega arith, o.1, o.2, o.3, o.4, o.5)))
  ]

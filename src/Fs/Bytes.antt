-- ===== src/Fs/Bytes.antt =====
-- The bytes of an inode of system/fs.c, and the two routines that move it.
use os_xinu.Prelude.{
  ℕ, ◌+◌, ◌-◌, ◌*◌, ◌/◌, ◌%◌, ◌^◌, ◌<◌, ◌≡◌, refl, arith, ap, ◌∙◌, false, ltb, sym,
}
use os_xinu.Fs.{Inode, inode_at, inode_byte, word32, word16, byte_of}

-- Inodes with the same fields and the same 12 blocks.
pub record Same (a b : Inode) : Type 0 where
  pub id : a.id ≡ b.id
  pub type : a.type ≡ b.type
  pub nlink : a.nlink ≡ b.nlink
  pub device : a.device ≡ b.device
  pub size : a.size ≡ b.size
  pub blocks : (i : ℕ) → i < 12 → a.blocks i ≡ b.blocks i

pub Same-sym : {a b : Inode} → Same a b → Same b a
Same-sym h = record {
  id = sym h.id;
  type = sym h.type;
  nlink = sym h.nlink;
  device = sym h.device;
  size = sym h.size;
  blocks = λ i l. sym (h.blocks i l);
}

pub Same-trans : {a b c : Inode} → Same a b → Same b c → Same a c
Same-trans h k = record {
  id = h.id ∙ k.id;
  type = h.type ∙ k.type;
  nlink = h.nlink ∙ k.nlink;
  device = h.device ∙ k.device;
  size = h.size ∙ k.size;
  blocks = λ i l. h.blocks i l ∙ k.blocks i l;
}

-- Fields that fit into their bytes.
pub record Fits (a : Inode) : Type 0 where
  pub id : a.id < 2 ^ 32
  pub type : a.type < 2 ^ 16
  pub nlink : a.nlink < 2 ^ 16
  pub device : a.device < 2 ^ 32
  pub size : a.size < 2 ^ 32
  pub blocks : (i : ℕ) → i < 12 → a.blocks i < 2 ^ 32

word16_bytes :
    (m : ℕ → ℕ) (a v : ℕ)
    → v < 2 ^ 16
    → m a ≡ byte_of v 0
    → m (a + 1) ≡ byte_of v 1
    → word16 m a ≡ v
word16_bytes m a v l p q = omega (arith, p, q)

word32_bytes :
    (m : ℕ → ℕ) (a v : ℕ)
    → v < 2 ^ 32
    → m a ≡ byte_of v 0
    → m (a + 1) ≡ byte_of v 1
    → m (a + 2) ≡ byte_of v 2
    → m (a + 2 + 1) ≡ byte_of v 3
    → word32 m a ≡ v
word32_bytes m a v l p q r t = omega (arith, p, q, r, t)

block_byte : (n : Inode) (k j : ℕ) → j < 4 → inode_byte n (16 + 4 * k + j) ≡ byte_of (n.blocks k) j
unfolding inode_byte
block_byte n k j l =
    let a : ltb (16 + 4 * k + j) 4 ≡ false = ground arith in
    let b : ltb (16 + 4 * k + j) 6 ≡ false = ground arith in
    let c : ltb (16 + 4 * k + j) 8 ≡ false = ground arith in
    let d : ltb (16 + 4 * k + j) 12 ≡ false = ground arith in
    let e : ltb (16 + 4 * k + j) 16 ≡ false = ground arith in
    let f : (16 + 4 * k + j - 16) / 4 ≡ k = omega arith in
    let g : (16 + 4 * k + j - 16) % 4 ≡ j = omega arith in rw (a, b, c, d, e, f, g) refl

-- Memory that holds the bytes of an inode holds the inode.
module _ (m : ℕ → ℕ) (a : ℕ) (n : Inode) (h : (i : ℕ) → i < 64 → m (a + i) ≡ inode_byte n i) where
  at : (i j : ℕ) → j ≡ a + i → i < 64 → m j ≡ inode_byte n i
  at i j e l = ap m e ∙ h i l

  block_at : (k j b : ℕ) → k < 12 → j < 4 → b ≡ a + (16 + 4 * k + j) → m b ≡ byte_of (n.blocks k) j
  block_at k j b l u e = at (16 + 4 * k + j) b e (omega arith) ∙ block_byte n k j u

  -- The id alone.
  pub id_at : n.id < 2 ^ 32 → (inode_at m a).id ≡ n.id
  unfolding inode_at inode_byte
  id_at l =
      word32_bytes m a n.id l (at 0 a (omega arith) (omega arith))
        (at 1 (a + 1) (omega arith) (omega arith)) (at 2 (a + 2) (omega arith) (omega arith))
        (at 3 (a + 2 + 1) (omega arith) (omega arith))

  pub inode_at-inode_byte : Fits n → Same (inode_at m a) n
  unfolding inode_at inode_byte
  inode_at-inode_byte f = record {
    id = id_at f.id;
    type =
        word16_bytes m (a + 4) n.type f.type (at 4 (a + 4) (omega arith) (omega arith))
          (at 5 ((a + 4) + 1) (omega arith) (omega arith));
    nlink =
        word16_bytes m (a + 6) n.nlink f.nlink (at 6 (a + 6) (omega arith) (omega arith))
          (at 7 ((a + 6) + 1) (omega arith) (omega arith));
    device =
        word32_bytes m (a + 8) n.device f.device (at 8 (a + 8) (omega arith) (omega arith))
          (at 9 ((a + 8) + 1) (omega arith) (omega arith))
          (at 10 ((a + 8) + 2) (omega arith) (omega arith))
          (at 11 ((a + 8) + 2 + 1) (omega arith) (omega arith));
    size =
        word32_bytes m (a + 12) n.size f.size (at 12 (a + 12) (omega arith) (omega arith))
          (at 13 ((a + 12) + 1) (omega arith) (omega arith))
          (at 14 ((a + 12) + 2) (omega arith) (omega arith))
          (at 15 ((a + 12) + 2 + 1) (omega arith) (omega arith));
    blocks = λ k l.
        word32_bytes m (a + 16 + 4 * k) (n.blocks k) (f.blocks k l)
          (block_at k 0 (a + 16 + 4 * k) l (omega arith) (omega arith))
          (block_at k 1 (a + 16 + 4 * k + 1) l (omega arith) (omega arith))
          (block_at k 2 (a + 16 + 4 * k + 2) l (omega arith) (omega arith))
          (block_at k 3 (a + 16 + 4 * k + 2 + 1) l (omega arith) (omega arith));
  }

-- Memory that agrees on 64 bytes agrees on the inode there.
module _ (m m' : ℕ → ℕ) (a a' : ℕ) (h : (i : ℕ) → i < 64 → m (a + i) ≡ m' (a' + i)) where
  both : (i j j' : ℕ) → j ≡ a + i → j' ≡ a' + i → i < 64 → m j ≡ m' j'
  both i j j' e e' l = ap m e ∙ h i l ∙ ap m' (sym e')

  word16_agree : (i j j' : ℕ) → j ≡ a + i → j' ≡ a' + i → i + 1 < 64 → word16 m j ≡ word16 m' j'
  word16_agree i j j' e e' l =
      rw
        (
          both i j j' e e' (omega arith),
          both (i + 1) (j + 1) (j' + 1) (omega arith) (omega arith) l,
        )
        refl

  word32_agree : (i j j' : ℕ) → j ≡ a + i → j' ≡ a' + i → i + 3 < 64 → word32 m j ≡ word32 m' j'
  word32_agree i j j' e e' l =
      ap (λ w. w + 65536 * word16 m (j + 2)) (word16_agree i j j' e e' (omega arith))
      ∙ ap (λ w. word16 m' j' + 65536 * w)
          (word16_agree (i + 2) (j + 2) (j' + 2) (omega arith) (omega arith) (omega arith))

  pub inode_at_agree : Same (inode_at m a) (inode_at m' a')
  unfolding inode_at
  inode_at_agree = record {
    id = word32_agree 0 a a' (omega arith) (omega arith) (omega arith);
    type = word16_agree 4 (a + 4) (a' + 4) refl refl (omega arith);
    nlink = word16_agree 6 (a + 6) (a' + 6) refl refl (omega arith);
    device = word32_agree 8 (a + 8) (a' + 8) refl refl (omega arith);
    size = word32_agree 12 (a + 12) (a' + 12) refl refl (omega arith);
    blocks = λ k l.
        word32_agree (16 + 4 * k) (a + 16 + 4 * k) (a' + 16 + 4 * k) (omega arith) (omega arith)
          (omega arith);
  }

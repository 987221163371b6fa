-- ===== src/Fs/Inodes.antt =====
-- fs_get_inode_by_num and fs_put_inode_by_num of system/fs.c.
use os_xinu.Prelude.{
  ◌⊎◌, not, ◌==◌, not, ℕ, ◌+◌, ◌-◌, ◌*◌, ◌/◌, ◌%◌, ◌^◌, ◌<◌, ◌≤◌, ◌≡◌, ◌≢◌, refl, arith, ap, ◌∙◌,
  true, false, ltb, if◌then◌else◌, ◌||◌, Bool-cases, inl, inr,
}
use os_xinu.Memory.{sub32, add32}
use os_xinu.Fs.{
  copied, inode_offset, less, inodes_per_block, inode_block, Inode, Fs, inode_at, inode_byte,
  fs_put_inode_by_num, fs_get_inode_by_num, bs_bread, bs_bwrite, fill_cache,
}
use os_xinu.Fs.Bytes.{Same-sym, inode_at-inode_byte, Same-trans, Fits, inode_at_agree, Same}

-- A file system of blocks of 512 bytes, whose table of inodes lies below 2 ^ 32.
pub record IsSized (s : Fs) : Type 0 where
  pub dev : s.dev_blocksize ≡ 512
  pub block : s.blocksz ≡ 512
  pub table : s.ninodes ≤ 2 ^ 25

-- The table of inodes, with the one behind it, lies on the disk.
abbrev pub HasTable : Fs → Type 0
HasTable s = 1024 + 64 * (s.ninodes + 1) ≤ 512 * s.dev_blocks

-- The inode `n` of the table on the disk, which starts in block 2.
abbrev pub on_disk : (ℕ → ℕ) → ℕ → Inode
on_disk d n = inode_at d (1024 + 64 * n)

accepted : (s : Fs) (n : ℕ) → IsSized s → n ≤ s.ninodes → (not (0 == 0) || less s.ninodes n) ≡ false
accepted s n z l = ground (arith, z.table)

per-eq : (s : Fs) → IsSized s → inodes_per_block s ≡ 8
per-eq s z = rw z.block refl

offset-eq : (s : Fs) (n : ℕ) → IsSized s → inode_offset s n ≡ n % 8 * 64
offset-eq s n z = ap (λ p. n % p * 64) (per-eq s z)

base-eq :
    (s : Fs) (n : ℕ)
    → IsSized s
    → n ≤ s.ninodes
    → (inode_block s n * s.dev_blocksize + 0) % 2 ^ 32 ≡ 512 * (n / 8 + 2)
base-eq s n z l =
    ap (λ p. ((n / p + 2) * s.dev_blocksize + 0) % 2 ^ 32) (per-eq s z)
    ∙ ap (λ b. ((n / 8 + 2) * b + 0) % 2 ^ 32) z.dev
    ∙ omega (arith, z.table)

in_block : (s : Fs) → IsSized s → (not (0 == 0) || not (less 0 s.dev_blocksize)) ≡ false
in_block s z = rw z.dev refl

-- The block in the cache is that of the disk.
cache-at :
    (s : Fs) (n i : ℕ)
    → IsSized s
    → n ≤ s.ninodes
    → i < 512
    → (fill_cache s (inode_block s n)).cache i ≡ s.disk (512 * (n / 8 + 2) + i)
unfolding bs_bread
cache-at s n i z l u =
    let c : ltb i s.blocksz ≡ true = ground (arith, z.block) in
    let a : add32 (((n / 8 + 2) * 512 + 0) % 2 ^ 32) i ≡ 512 * (n / 8 + 2) + i =
      omega (arith, z.table) in
    rw (c, in_block s z, per-eq s z, z.dev) (ap s.disk a)

pub get_lem :
    (s : Fs) (n : ℕ) (old : Inode)
    → IsSized s
    → n ≤ s.ninodes
    → let (s1, got, ok) = fs_get_inode_by_num s 0 n old in
      (ok ≡ true) × Same got (on_disk s.disk n) × (s1.disk ≡ s.disk)
unfolding fs_get_inode_by_num
get_lem s n old z l = rw (accepted s n z l) (
  refl,
  inode_at_agree (fill_cache s (inode_block s n)).cache s.disk (inode_offset s n) (1024 + 64 * n)
      (λ i u.
        ap (fill_cache s (inode_block s n)).cache (ap (λ k. k + i) (offset-eq s n z))
        ∙ cache-at s n (n % 8 * 64 + i) z l (omega arith)
        ∙ ap s.disk (omega arith)),
  refl,
)

elsewhere :
    (d b : ℕ → ℕ) (a lo : ℕ)
    → (ltb a lo ≡ false → ltb a (lo + 64) ≡ false)
    → d a ≡ (if ltb a lo then d a else if ltb a (lo + 64) then b (a - lo) else d a)
elsewhere d b a lo h = elim (Bool-cases (ltb a lo)) [ inl p ↦ rw p refl | inr p ↦ rw (p, h p) refl ]

-- A block that goes through the cache, with 64 bytes changed there.
through-cache :
    (d c b : ℕ → ℕ) (base off a : ℕ)
    → base + 512 ≤ 2 ^ 32
    → off + 64 ≤ 512
    → a < 2 ^ 32
    → ((i : ℕ) → i < 512 → c i ≡ d (base + i))
    → copied d base (copied c off b 64) 512 a ≡ (
        if ltb a (base + off)
        then d a
        else if ltb a (base + off + 64)
        then b (a - (base + off))
        else d a)
through-cache d c b base off a l o u h = elim (Bool-cases (ltb (sub32 a base) 512)) [
  | inl inside ↦
      let i = sub32 a base in
      let w : i < 512 = ground (arith, inside) in
      let e : base + i ≡ a = omega (arith, w) in
      rw inside (elim (Bool-cases (ltb (sub32 i off) 64)) [
        | inl new ↦
            let p : ltb a (base + off) ≡ false = ground (arith, new, e) in
            let q : ltb a (base + off + 64) ≡ true = ground (arith, new, e) in
            let r : sub32 i off ≡ a - (base + off) = ground (arith, new, e) in
            rw (new, p, q) (ap b r)
        | inr old ↦
            rw old
              (h i w ∙ ap d e ∙ elsewhere d b a (base + off) (λ p. ground (arith, old, e, p, w)))
      ])
  | inr outside ↦ rw outside (elsewhere d b a (base + off) (λ p. ground (arith, outside, p, l, o)))
]

put-eq :
    (s : Fs) (n : ℕ) (new : Inode)
    → IsSized s
    → n ≤ s.ninodes
    → (fs_put_inode_by_num s 0 n new).0.disk
      ≡ copied s.disk
          ((inode_block s n * s.dev_blocksize + 0) % 2 ^ 32)
          (copied (fill_cache s (inode_block s n)).cache (inode_offset s n) (inode_byte new) 64)
          s.blocksz
unfolding fs_put_inode_by_num bs_bwrite
put-eq s n new z l = rw (accepted s n z l, in_block s z) refl

-- The disk after the write of an inode.
pub put-disk :
    (s : Fs) (n : ℕ) (new : Inode) (a : ℕ)
    → IsSized s
    → n ≤ s.ninodes
    → a < 2 ^ 32
    → (fs_put_inode_by_num s 0 n new).0.disk a ≡ (
        if ltb a (1024 + 64 * n)
        then s.disk a
        else if ltb a (1024 + 64 * n + 64)
        then inode_byte new (a - (1024 + 64 * n))
        else s.disk a)
put-disk s n new a z l u =
    let c = (fill_cache s (inode_block s n)).cache in
    let lo : 512 * (n / 8 + 2) + n % 8 * 64 ≡ 1024 + 64 * n = omega arith in
    ap (λ m. m a) (put-eq s n new z l)
    ∙ ap (λ b. copied s.disk b (copied c (inode_offset s n) (inode_byte new) 64) s.blocksz a)
        (base-eq s n z l)
    ∙ ap (λ o. copied s.disk (512 * (n / 8 + 2)) (copied c o (inode_byte new) 64) s.blocksz a)
        (offset-eq s n z)
    ∙ ap (λ k. copied s.disk (512 * (n / 8 + 2)) (copied c (n % 8 * 64) (inode_byte new) 64) k a)
        z.block
    ∙ through-cache s.disk c (inode_byte new) (512 * (n / 8 + 2)) (n % 8 * 64) a
        (omega (arith, z.table)) (omega arith) u (λ i v. cache-at s n i z l v)
    ∙ ap
        (λ k.
          if ltb a k then s.disk a else if ltb a (k + 64) then inode_byte new (a - k) else s.disk a)
        lo

pub put-kept :
    (s : Fs) (n : ℕ) (new : Inode)
    → IsSized s
    → n ≤ s.ninodes
    → let (s1, put) = fs_put_inode_by_num s 0 n new in
      (put ≡ true) × IsSized s1 × (s1.ninodes ≡ s.ninodes)
unfolding fs_put_inode_by_num bs_bwrite
put-kept s n new z l =
    rw (accepted s n z l, in_block s z)
      (refl, record { dev = z.dev; block = z.block; table = z.table }, refl)

pub put-fields :
    (s : Fs) (n : ℕ) (new : Inode)
    → let s1 = (fs_put_inode_by_num s 0 n new).0 in
      (s1.entry ≡ s.entry)
      × (s1.next_free_inode ≡ s.next_free_inode)
      × (s1.numentries ≡ s.numentries)
      × (s1.oft ≡ s.oft)
      × (s1.freemask ≡ s.freemask)
unfolding fs_put_inode_by_num bs_bwrite
put-fields s n new = elim (Bool-cases (not (0 == 0) || less s.ninodes n)) [
  | inl e ↦ rw e (refl, refl, refl, refl, refl)
  | inr e ↦ elim (Bool-cases (not (0 == 0) || not (less 0 s.dev_blocksize))) [
    | inl d ↦ rw (e, d) (refl, refl, refl, refl, refl)
    | inr d ↦ rw (e, d) (refl, refl, refl, refl, refl)
  ]
]

-- The bytes outside the inode.
pub put-outside :
    (s : Fs) (n : ℕ) (new : Inode) (a : ℕ)
    → IsSized s
    → n ≤ s.ninodes
    → a < 2 ^ 32
    → (a < 1024 + 64 * n) ⊎ (1024 + 64 * n + 64 ≤ a)
    → (fs_put_inode_by_num s 0 n new).0.disk a ≡ s.disk a
put-outside s n new a z l u o = put-disk s n new a z l u ∙ elim o [
  | inl p ↦ let t : ltb a (1024 + 64 * n) ≡ true = ground arith in rw t refl
  | inr p ↦
      let t : ltb a (1024 + 64 * n) ≡ false = ground arith in
      let v : ltb a (1024 + 64 * n + 64) ≡ false = ground arith in rw (t, v) refl
]

pub put-inside :
    (s : Fs) (n : ℕ) (new : Inode) (i : ℕ)
    → IsSized s
    → n ≤ s.ninodes
    → i < 64
    → (fs_put_inode_by_num s 0 n new).0.disk (1024 + 64 * n + i) ≡ inode_byte new i
put-inside s n new i z l u =
    let t : ltb (1024 + 64 * n + i) (1024 + 64 * n) ≡ false = ground arith in
    let v : ltb (1024 + 64 * n + i) (1024 + 64 * n + 64) ≡ true = ground arith in
    put-disk s n new (1024 + 64 * n + i) z l (omega (arith, z.table))
    ∙ rw (t, v) (ap (inode_byte new) (omega arith))

pub sides :
    (m n i : ℕ)
    → m ≢ n
    → i < 64
    → (1024 + 64 * m + i < 1024 + 64 * n) ⊎ (1024 + 64 * n + 64 ≤ 1024 + 64 * m + i)
sides m n i ne v = elim (Bool-cases (ltb m n)) [
  | inl p ↦ let q : m < n = ground (arith, p) in inl (omega (arith, q, v))
  | inr p ↦ let q : n < m = ground (arith, p) in inr (omega (arith, q))
]

-- fs_put_inode_by_num writes an inode, for a number up to fsd.ninodes on a disk of 512-byte blocks:
-- fs_get_inode_by_num then returns OK and an inode with the same fields and the same 12 blocks for this number, what it
-- returned before for any other, and no byte outside the inode's 64 has changed on the disk.
pub get-put :
    (s : Fs) (n : ℕ) (new old : Inode)
    → IsSized s
    → n ≤ s.ninodes
    → Fits new
    → let (s1, put) = fs_put_inode_by_num s 0 n new in
      (put ≡ true)
      × ((fs_get_inode_by_num s1 0 n old).2 ≡ true)
      × Same (fs_get_inode_by_num s1 0 n old).1 new
      × ((m : ℕ)
          → m ≤ s.ninodes
          → m ≢ n
          → Same (fs_get_inode_by_num s1 0 m old).1 (fs_get_inode_by_num s 0 m old).1)
      × ((a : ℕ)
          → a < 2 ^ 32
          → (a < 1024 + 64 * n) ⊎ (1024 + 64 * n + 64 ≤ a)
          → s1.disk a ≡ s.disk a)
get-put s n new old z l f =
    let s1 = (fs_put_inode_by_num s 0 n new).0 in
    let k = put-kept s n new z l in
    let got = get_lem s1 n old k.1 (omega (arith, k.2, l)) in
    (
      k.0,
      got.0,
      Same-trans got.1
          (inode_at-inode_byte s1.disk (1024 + 64 * n) new (λ i v. put-inside s n new i z l v) f),
      λ m lm ne. Same-trans (get_lem s1 m old k.1 (omega (arith, k.2, lm))).1 (
          Same-trans
            (inode_at_agree s1.disk s.disk (1024 + 64 * m) (1024 + 64 * m) (λ i v.
              put-outside s n new (1024 + 64 * m + i) z l (omega (arith, z.table, lm))
                (sides m n i ne v)))
            (Same-sym (get_lem s m old z lm).1)),
      λ a u o. put-outside s n new a z l u o,
    )

-- ===== src/Fs/Mask.antt =====
-- The mask of used blocks of system/fs.c.
use os_xinu.Fs.{set_mask, fs_clearmaskbit, fs_setmaskbit, fs_getmaskbit, Fs}
use Prim.Native.Nat.{bit_and, bit_or}
use os_xinu.Prelude.{
  ap, ◌∙◌, inr, inl, Bool-cases, ltb→lt, ==_iff, ◌+◌, false, ℕ, zero, suc, ◌-◌, ◌*◌, ◌/◌, ◌%◌, ◌^◌,
  ◌<◌, ◌≡◌, refl, arith, Bool, true, ltb, if◌then◌else◌, ◌&&◌, ◌==◌,
}

-- Whether a test succeeds for each byte or index under a limit.
every : (ℕ → Bool) → ℕ → Bool
every test zero = true
every test (suc limit) = every test limit && test limit

and_true : (a b : Bool) → (a && b) ≡ true → (a ≡ true) × (b ≡ true)
and_true true b h = (refl, h)
and_true false b h = absurd (cc (h))

every_lem :
    (test : ℕ → Bool) (limit : ℕ) → every test limit ≡ true → (v : ℕ) → v < limit → test v ≡ true
unfolding every
every_lem test zero passed v u = absurd (omega (arith, u))
every_lem test (suc limit) passed v u =
    let both = and_true (every test limit) (test limit) passed in
    elim (Bool-cases (v == limit)) [
      | inl same ↦ ap test ((==_iff v limit).0 same) ∙ both.1
      | inr other ↦ every_lem test limit both.0 v (ground (arith, other, u))
    ]

-- A bit of a byte, as fs_getmaskbit takes it.
abbrev bit : ℕ → ℕ → ℕ
bit v i = bit_and (v * 2 ^ i) 128 / 128

abbrev set_right : ℕ → ℕ → ℕ → Bool
set_right v i j = bit (bit_or v (128 / 2 ^ i)) j == (if i == j then 1 else bit v j)

abbrev clear_right : ℕ → ℕ → ℕ → Bool
clear_right v i j = bit (bit_and v (255 - 128 / 2 ^ i)) j == (if i == j then 0 else bit v j)

abbrev byte_right : ℕ → ℕ → Bool
byte_right v n =
    set_right v (n / 8) (n % 8)
    && (clear_right v (n / 8) (n % 8)
        && (ltb (bit_or v (128 / 2 ^ (n / 8))) 256
            && ltb (bit_and v (255 - 128 / 2 ^ (n / 8))) 256))

table : every (λ v. every (byte_right v) 64) 256 ≡ true
unfolding every
table = refl

-- The laws of a byte.
record Right (v i j : ℕ) : Type 0 where
  set_bit : bit (bit_or v (128 / 2 ^ i)) j ≡ (if i == j then 1 else bit v j)
  clear_bit : bit (bit_and v (255 - 128 / 2 ^ i)) j ≡ (if i == j then 0 else bit v j)
  set_byte : bit_or v (128 / 2 ^ i) < 256
  clear_byte : bit_and v (255 - 128 / 2 ^ i) < 256

byte_laws : (v i j : ℕ) → v < 256 → i < 8 → j < 8 → Right v i j
byte_laws v i j l m n =
    let a : (8 * i + j) / 8 ≡ i = omega arith in
    let b : (8 * i + j) % 8 ≡ j = omega arith in
    let row = every_lem (λ w. every (byte_right w) 64) 256 table v l in
    let h = every_lem (byte_right v) 64 row (8 * i + j) (omega arith) in
    let p = rw (a, b) at h in
    let q = and_true (set_right v i j) _ p in
    let r = and_true (clear_right v i j) _ q.1 in
    let t = and_true (ltb (bit_or v (128 / 2 ^ i)) 256) _ r.1 in
    record {
      set_bit = (==_iff _ _).0 q.0;
      clear_bit = (==_iff _ _).0 r.0;
      set_byte = ltb→lt _ _ t.0;
      clear_byte = ltb→lt _ _ t.1;
    }

-- A mask of bytes.
abbrev pub IsMask : Fs → Type 0
IsMask s = (i : ℕ) → s.freemask i < 256

IsMask-set :
    (m : ℕ → ℕ) (i v : ℕ) → ((j : ℕ) → m j < 256) → v < 256 → (j : ℕ) → set_mask m i v j < 256
IsMask-set m i v h l j = elim (Bool-cases (i == j)) [ inl e ↦ rw e l | inr e ↦ rw e (h j) ]

-- On a mask of bytes, fs_setmaskbit and fs_clearmaskbit make the bit of a block 1 and 0 for fs_getmaskbit, and change the bit
-- of no other block; the mask stays one of bytes.
pub mask_lem :
    (s : Fs) (b c : ℕ)
    → IsMask s
    → (fs_getmaskbit (fs_setmaskbit s b) c ≡ (if b == c then 1 else fs_getmaskbit s c))
      × (fs_getmaskbit (fs_clearmaskbit s b) c ≡ (if b == c then 0 else fs_getmaskbit s c))
      × IsMask (fs_setmaskbit s b)
      × IsMask (fs_clearmaskbit s b)
unfolding fs_getmaskbit fs_setmaskbit fs_clearmaskbit
mask_lem s b c m =
    let r =
      byte_laws (s.freemask (b / 8)) (b % 8) (c % 8) (m (b / 8)) (omega arith) (omega arith) in
    elim (Bool-cases (b / 8 == c / 8)) [
      | inl e ↦
          let q : b / 8 ≡ c / 8 = (==_iff (b / 8) (c / 8)).0 e in
          let same : (b % 8 == c % 8) ≡ (b == c) = ground (arith, q) in
          (
            rw e (
                r.set_bit ∙ rw same (ap (λ k. if b == c then 1 else bit (s.freemask k) (c % 8)) q)),
            rw e (
                r.clear_bit
                ∙ rw same (ap (λ k. if b == c then 0 else bit (s.freemask k) (c % 8)) q)),
            IsMask-set s.freemask (b / 8) _ m r.set_byte,
            IsMask-set s.freemask (b / 8) _ m r.clear_byte,
          )
      | inr e ↦
          let ne : (b == c) ≡ false = ground (arith, e) in
          (
            rw (e, ne) refl,
            rw (e, ne) refl,
            IsMask-set s.freemask (b / 8) _ m r.set_byte,
            IsMask-set s.freemask (b / 8) _ m r.clear_byte,
          )
    ]

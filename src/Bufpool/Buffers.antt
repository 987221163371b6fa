-- ===== src/Bufpool/Buffers.antt =====
-- The buffers that system/mkbufpool.c links in new memory.
use native.Mathlib.Nat.{suc-mul}
use os_xinu.Prelude.{
  ◌∙◌, zip_All, All-map, ℕ, zero, suc, inl, inr, ◌⊎◌, ◌+◌, ◌*◌, ◌<◌, ◌≤◌, ◌^◌, ◌≡◌, ◌≢◌, refl,
  arith, List, [], ◌∷◌, All, Distinct, ◌==◌, true, false,
}
use os_xinu.Bufpool.{add32, set_word, link}
use os_xinu.Bufpool.Chain.{Linked}

-- The addresses of `n` buffers that stand one behind the other.
pub buffers : ℕ → ℕ → ℕ → List ℕ
buffers zero buf size = []
buffers (suc n) buf size = buf ∷ buffers n (buf + size) size

mul_split : (n size : ℕ) → suc n * size ≡ size + n * size
mul_split n size = omega (arith, suc-mul n size)

pub buffers-within :
    (n buf size top : ℕ)
    → buf + n * size ≤ top
    → All (λ c. (buf ≤ c) × (c + size ≤ top)) (buffers n buf size)
unfolding buffers
buffers-within zero buf size top l = tt
buffers-within (suc n) buf size top l = (
  (omega arith, omega (arith, l, mul_split n size)),
  All-map (buffers n (buf + size) size) (λ c h. (omega (arith, h.0), h.1))
      (buffers-within n (buf + size) size top (omega (arith, l, mul_split n size))),
)

pub above-Distinct :
    (n buf size : ℕ)
    → 0 < size
    → All (λ c. buf ≤ c) (buffers n buf size) × Distinct (buffers n buf size)
unfolding buffers
above-Distinct zero buf size p = (tt, tt)
above-Distinct (suc n) buf size p =
    let r = above-Distinct n (buf + size) size p in
    (
      (omega arith, All-map (buffers n (buf + size) size) (λ c h. omega (arith, h)) r.0),
      (All-map (buffers n (buf + size) size) (λ c h e. omega (arith, h, e, p)) r.0, r.1),
    )

pub link-other :
    (n : ℕ) (w : ℕ → ℕ) (buf size a : ℕ)
    → 0 < size
    → All (λ c. (c ≢ a) × (c + size ≤ 2 ^ 32)) (buffers (suc n) buf size)
    → link n w buf size a ≡ w a
unfolding link buffers
link-other zero w buf size a p h = let e : (buf == a) ≡ false = ground (arith, h.0.0) in rw e refl
link-other (suc n) w buf size a p h =
    let e : (buf == a) ≡ false = ground (arith, h.0.0) in
    let s : add32 buf size ≡ buf + size = omega (arith, h.1.0.1) in
    rw s (link-other n (set_word w buf (buf + size)) (buf + size) size a p h.1 ∙ rw e refl)

pub link_lem :
    (n : ℕ) (w : ℕ → ℕ) (buf size : ℕ)
    → 0 < buf
    → 0 < size
    → All (λ c. c + size ≤ 2 ^ 32) (buffers (suc n) buf size)
    → Linked (link n w buf size) buf (buffers (suc n) buf size)
unfolding link buffers
link_lem zero w buf size b p h = let e : (buf == buf) ≡ true = ground arith in (refl, b, rw e refl)
link_lem (suc n) w buf size b p h =
    let s : add32 buf size ≡ buf + size = omega (arith, h.1.0) in
    let e : (buf == buf) ≡ true = ground arith in
    let d = above-Distinct (suc n) (buf + size) size p in
    let o = link-other n (set_word w buf (buf + size)) (buf + size) size buf p (
      zip_All (λ c. c ≢ buf) (λ c. c + size ≤ 2 ^ 32) (buffers (suc n) (buf + size) size)
        (All-map (buffers (suc n) (buf + size) size) (λ c g q. omega (arith, g, q, p)) d.0) h.1) in
    let r = link_lem n (set_word w buf (buf + size)) (buf + size) size (omega arith) p h.1 in
    let step : link (suc n) w buf size ≡ link n (set_word w buf (buf + size)) (buf + size) size =
      rw s refl in
    coe 1 0 (i. Linked (step i) buf (buffers (suc (suc n)) buf size))
      (refl, b, (o ∙ rw e refl, r.1, r.2))

-- A buffer outside the memory of the new ones is none of them.
pub outside :
    (n buf size c : ℕ)
    → 0 < size
    → (c < buf) ⊎ (buf + n * size ≤ c)
    → All (λ d. d ≢ c) (buffers n buf size)
outside n buf size c p o =
    All-map (buffers n buf size)
      (λ d h e. elim o [ inl l ↦ omega (arith, h.0, e, l) | inr l ↦ omega (arith, h.1, e, l, p) ])
      (buffers-within n buf size (buf + n * size) (omega arith))

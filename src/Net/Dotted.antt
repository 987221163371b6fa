-- ===== src/Net/Dotted.antt =====
-- net/dot2ip.c on a string written from its segments.
use os_xinu.Prelude.{
  ℕ, zero, suc, ◌+◌, ◌-◌, ◌*◌, ◌%◌, ◌^◌, ◌<◌, ◌≤◌, ◌≡◌, ◌⊎◌, inl, inr, ◌||◌, ◌==◌, leb, ltb,
  if◌then◌else◌, List, [], ◌∷◌, ◌++◌, some, All, length, refl, arith, true, false,
}
use os_xinu.Net.{Segment, segment, Address, dot2ip, dot2ip_from, segment_next}

-- The value of digits, behind those that gave `val`.
unfoldable pub number : ℕ → List ℕ → ℕ
number val [] = val
number val (d ∷ ds) = number (10 * val + (d - 48)) ds

-- One to three digits of a number up to 255.
pub record IsByte (ds : List ℕ) : Type 0 where
  pub digits : All (λ d. (48 ≤ d) × (d ≤ 57)) ds
  pub some_digit : 0 < length ds
  pub few : length ds ≤ 3
  pub small : number 0 ds ≤ 255

-- The segments with dots between them and a null at the end.
pub dotted : List ℕ → List (List ℕ) → List ℕ → List ℕ
dotted ds [] more = ds ++ (0 ∷ more)
dotted ds (es ∷ rest) more = ds ++ (46 ∷ dotted es rest more)

-- The number whose digits to the base 256 are the segments, behind `ip`.
pub address : ℕ → List ℕ → List (List ℕ) → ℕ
unfolding number
address ip ds [] = ip * 256 + number 0 ds
address ip ds (es ∷ rest) = address (ip * 256 + number 0 ds) es rest

segment_digits :
    (rounds nch val last t : ℕ) (ds more : List ℕ)
    → All (λ d. (48 ≤ d) × (d ≤ 57)) ds
    → 0 < nch + length ds
    → nch + length ds ≤ 3
    → nch + rounds ≡ 4
    → (t ≡ 0) ⊎ (t ≡ 46)
    → segment rounds nch val last (ds ++ (t ∷ more)) ≡ some (Segment.ends (number val ds) t more)
unfolding segment number
segment_digits zero nch val last t ds more h p l r e = absurd (omega (arith, r, l))
segment_digits (suc rounds) nch val last t [] more h p l r e =
    let a : ((t == 0) || (t == 46)) ≡ true = ground arith in
    let b : (nch == 0) ≡ false = ground arith in rw (a, b) refl
segment_digits (suc rounds) nch val last t (d ∷ ds) more h p l r e =
    let a : ((d == 0) || (d == 46)) ≡ false = ground arith in
    let b : (leb 3 nch || ltb d 48 || ltb 57 d) ≡ false = ground arith in
    rw (a, b)
      (segment_digits rounds (nch + 1) (10 * val + (d - 48)) d t ds more h.1 (omega arith)
        (omega (arith, l)) (omega (arith, r)) e)

-- The addresses that the segments before can give.
abbrev room : ℕ → ℕ
room zero = 4294967295
room (suc zero) = 16777215
room (suc (suc zero)) = 65535
room (suc (suc (suc zero))) = 255
room (suc (suc (suc (suc n)))) = 0

room-step : (n ip v : ℕ) → n < 4 → ip ≤ room (suc n) → v ≤ 255 → ip * 256 + v ≤ room n
room-step zero ip v l a b = omega arith
room-step (suc zero) ip v l a b = omega arith
room-step (suc (suc zero)) ip v l a b = omega arith
room-step (suc (suc (suc zero))) ip v l a b = omega arith
room-step (suc (suc (suc (suc n)))) ip v l a b = absurd (omega arith)

shift : (n ip : ℕ) → n < 4 → ip ≤ room (suc n) → (ip * 256) % 2 ^ 32 ≡ ip * 256
shift zero ip l a = omega arith
shift (suc zero) ip l a = omega arith
shift (suc (suc zero)) ip l a = omega arith
shift (suc (suc (suc zero))) ip l a = omega arith
shift (suc (suc (suc (suc n)))) ip l a = absurd (omega arith)

dot2ip_segments :
    (n ip : ℕ) (ds : List ℕ) (rest : List (List ℕ)) (more : List ℕ)
    → IsByte ds
    → All IsByte rest
    → n ≤ 4
    → ip ≤ room n
    → dot2ip_from n ip (dotted ds rest more)
      ≡ some (if ltb (length rest) n then Address.ok (address ip ds rest) else Address.syserr)
unfolding dot2ip_from dotted address segment_next
dot2ip_segments zero ip ds rest more b h l r =
    let e : ltb (length rest) 0 ≡ false = ground arith in rw e refl
dot2ip_segments (suc n) ip ds [] more b h l r =
    let e : ltb 0 (suc n) ≡ true = ground arith in
    let c : ltb 255 (number 0 ds) ≡ false = ground (arith, b.small) in
    rw
      (
        segment_digits 4 0 0 0 0 ds more b.digits (omega (arith, b.some_digit))
            (omega (arith, b.few)) refl (inl refl),
        c,
        shift n ip (omega arith) r,
        e,
      )
      refl
dot2ip_segments (suc n) ip ds (es ∷ rest) more b h l r =
    let e : ltb (length (es ∷ rest)) (suc n) ≡ ltb (length rest) n = ground arith in
    let c : ltb 255 (number 0 ds) ≡ false = ground (arith, b.small) in
    rw
      (
        segment_digits 4 0 0 0 46 ds (dotted es rest more) b.digits (omega (arith, b.some_digit))
            (omega (arith, b.few)) refl (inr refl),
        c,
        shift n ip (omega arith) r,
        e,
      )
      (dot2ip_segments n (ip * 256 + number 0 ds) es rest more h.0 h.1 (omega arith)
        (room-step n ip (number 0 ds) (omega arith) r b.small))

-- A string of segments with dots between them, each one to three digits of a number up to 255, is
-- read as the number with these digits to the base 256 when it has one to four segments, also when
-- it has fewer than four; with more, dot2ip returns SYSERR.
pub dot2ip_lem :
    (ds : List ℕ) (rest : List (List ℕ)) (more : List ℕ)
    → IsByte ds
    → All IsByte rest
    → dot2ip (dotted ds rest more)
      ≡ some (if ltb (length rest) 4 then Address.ok (address 0 ds rest) else Address.syserr)
unfolding dot2ip
dot2ip_lem ds rest more b h = dot2ip_segments 4 0 ds rest more b h (omega arith) (omega arith)

-- ===== src/Fs/Calls/Slots.antt =====
-- The search of system/fs.c for a free entry of the file table.
use os_xinu.Prelude.{
  leb, zero, if◌then◌else◌, sym, Bool-cases, ◌∙◌, ap, suc, arith, ◌≢◌, ◌%◌, ◌-◌, inr, ◌+◌, inl,
  false, ◌⊎◌, ◌≡◌, ◌==◌, ◌<◌, ℕ,
}
use os_xinu.Fs.{Fs}
use os_xinu.Fs.Calls.{num_fd, find_slot}

seen :
    (rounds : ℕ) (s : Fs) (fd : ℕ)
    → fd < 16
    → ((s.oft fd).state == 0) ≡ false
    → ((k : ℕ) → k < rounds → (s.oft (((fd + 1) % 16 + k) % 16)).state ≢ 0)
    → (k : ℕ) → k < suc rounds
    → (s.oft ((fd + k) % 16)).state ≢ 0
seen rounds s fd l e h zero u z =
    let q : (fd + 0) % 16 ≡ fd = omega arith in
    let z' : (s.oft fd).state ≡ 0 = ap (λ j. (s.oft j).state) (sym q) ∙ z in
    absurd (ground (arith, e, z'))
seen rounds s fd l e h (suc k) u z =
    let q : ((fd + 1) % 16 + k) % 16 ≡ (fd + suc k) % 16 = omega arith in
    h k (omega (arith, u)) (ap (λ j. (s.oft j).state) q ∙ z)

-- The search ends at a free descriptor, or has seen each of its rounds in use.
pub find_slot_lem :
    (rounds : ℕ) (s : Fs) (fd : ℕ)
    → fd < 16
    → let r = find_slot rounds s fd in
      (r < 16)
      × (((s.oft r).state ≡ 0) ⊎ ((k : ℕ) → k < rounds → (s.oft ((fd + k) % 16)).state ≢ 0))
unfolding find_slot
find_slot_lem zero s fd l = (l, inr (λ k u. absurd (omega (arith, u))))
find_slot_lem (suc rounds) s fd l = elim (Bool-cases ((s.oft fd).state == 0)) [
  | inl e ↦ rw e (l, inl (ground (arith, e)))
  | inr e ↦
      let next = (fd + 1) % 16 in
      let ih = find_slot_lem rounds s next (omega arith) in
      let q : (if leb num_fd (fd + 1) then 0 else fd + 1) ≡ next = ground arith in
      rw (e, q) (ih.0, elim ih.1 [ inl z ↦ inl z | inr z ↦ inr (seen rounds s fd l e z) ])
]

-- With a free descriptor below 16, the search of 16 rounds finds one.
pub find_slot_free :
    (s : Fs) (fd j : ℕ)
    → fd < 16
    → j < 16
    → (s.oft j).state ≡ 0
    → (find_slot 16 s fd < 16) × ((s.oft (find_slot 16 s fd)).state ≡ 0)
find_slot_free s fd j l u z =
    let f = find_slot_lem 16 s fd l in
    (
      f.0,
      elim f.1 [
        | inl e ↦ e
        | inr all ↦
            let q : (fd + (j + 16 - fd) % 16) % 16 ≡ j = omega arith in
            absurd (all ((j + 16 - fd) % 16) (omega arith) (ap (λ i. (s.oft i).state) q ∙ z))
      ],
    )

-- ===== src/Nam/Map.antt =====
-- nammap of device/nam/nammap.c.
use mathlib.Core.List.{append_assoc}
use os_xinu.Prelude.{
  length-append, sym, ℕ, zero, suc, ◌<◌, ◌≡◌, ◌≢◌, refl, arith, ◌==◌, Bool-cases, Bool, true, false,
  inl, inr, List, [], ◌∷◌, ◌++◌, All, Option, none, some, length, take, drop, ap, ◌∙◌,
}
use os_xinu.Nam.{
  map_copied, namrepl, syserr, written, nammap, nammap_from, map_next, NameSpace, namcpy, nm_maxlen,
}
use os_xinu.Nam.Replace.Search.{namrepl_lem, find_empty, length-written}
use os_xinu.Nam.Replace.{Table, Mapping, Answer, find}

namcpy_text :
    (cs more buffer : List ℕ) (n : ℕ)
    → All (λ ch. (ch == 0) ≡ false) cs
    → length cs < n
    → length buffer ≡ n
    → namcpy buffer (cs ++ (0 ∷ more)) n ≡ some (written (cs ++ (0 ∷ [])) buffer, true)
unfolding namcpy
namcpy_text cs more buffer zero h l b = absurd (omega arith)
namcpy_text cs more [] (suc n) h l b = absurd (omega arith)
namcpy_text [] more (_ ∷ buffer) (suc n) h l b = refl
namcpy_text (ch ∷ cs) more (_ ∷ buffer) (suc n) h l b =
    rw (h.0, namcpy_text cs more buffer n h.1 (omega arith) (omega arith)) refl

namcpy_total :
    (buffer name : List ℕ) (n : ℕ)
    → length buffer ≡ n
    → length name ≡ n
    → (r : List ℕ × Bool) × (namcpy buffer name n ≡ some r)
unfolding namcpy
namcpy_total buffer name zero b l = ((buffer, false), refl)
namcpy_total [] name (suc n) b l = absurd (omega arith)
namcpy_total (_ ∷ buffer) [] (suc n) b l = absurd (omega arith)
namcpy_total (_ ∷ buffer) (ch ∷ name) (suc n) b l = elim (Bool-cases (ch == 0)) [
  | inl e ↦ ((ch ∷ buffer, true), rw e refl)
  | inr e ↦
      let r = namcpy_total buffer name n (omega arith) (omega arith) in
      ((ch ∷ r.0.0, r.0.1), rw (e, r.1) refl)
]

-- A round that finds another device ends the loop.
map_next_away :
    (tmpname newname : List ℕ) (newdev namdev : ℕ) (more : List ℕ → Option (List ℕ × ℕ))
    → newdev ≢ namdev
    → length tmpname ≡ nm_maxlen
    → length newname ≡ nm_maxlen
    → map_next tmpname namdev more (some (newname, newdev)) ≡ some (newname, newdev)
unfolding map_next
map_next_away tmpname newname newdev namdev more d t n =
    let e : (newdev == namdev) ≡ false = ground arith in
    rw (e, (namcpy_total tmpname newname nm_maxlen t n).1) refl

-- The name, copied into the buffer on the stack, is mapped by the first mapping that fits, once.
map_copied_lem :
    (s : NameSpace) (tmpname name more newname : List ℕ) (namdev : ℕ)
    → All (λ ch. (ch == 0) ≡ false) name
    → length name < nm_maxlen
    → length tmpname ≡ nm_maxlen
    → nammap s tmpname (name ++ (0 ∷ more)) newname namdev
      ≡ nammap_from s.nnames s
          (name ++ (0 ∷ drop (length (name ++ (0 ∷ []))) tmpname))
          namdev
          newname
unfolding nammap map_copied
map_copied_lem s tmpname name more newname namdev h l t =
    rw
      (
        namcpy_text name more tmpname nm_maxlen h l t,
        append_assoc name (0 ∷ []) (drop (length (name ++ (0 ∷ []))) tmpname),
      )
      refl

nammap_away :
    (n : ℕ) (s : NameSpace) (tmpname newname : List ℕ) (namdev : ℕ) (found : Option (List ℕ × ℕ))
    → namdev ≢ syserr
    → ((cs : List ℕ) → found ≢ some (cs, namdev))
    → (n ≡ 0 → found ≡ none)
    → length tmpname ≡ nm_maxlen
    → length newname ≡ nm_maxlen
    → Answer found newname (namrepl s tmpname newname)
    → Answer found newname (nammap_from n s tmpname namdev newname)
unfolding nammap_from
nammap_away zero s tmpname newname namdev found d f z t l a = rw (z refl) refl
nammap_away (suc n) s tmpname newname namdev none d f z t l a = rw a (
    map_next_away tmpname newname syserr namdev (nammap_from n s tmpname namdev) (λ q. d (sym q)) t
      l)
nammap_away (suc n) s tmpname newname namdev (some (cs, device)) d f z t l a = (
  a.0,
  rw a.1 (
      map_next_away tmpname a.0 device namdev (nammap_from n s tmpname namdev)
        (λ q. f cs (ap (λ x. some (cs, x)) q)) t a.3),
  a.2,
  a.3,
)

copied-length :
    (name tmpname : List ℕ)
    → length name < nm_maxlen
    → length tmpname ≡ nm_maxlen
    → length (name ++ (0 ∷ drop (length (name ++ (0 ∷ []))) tmpname)) ≡ nm_maxlen
copied-length name tmpname l t =
    ap length (sym (append_assoc name (0 ∷ []) (drop (length (name ++ (0 ∷ []))) tmpname)))
    ∙ length-written (name ++ (0 ∷ [])) tmpname (omega (arith, length-append name (0 ∷ []), t))
    ∙ t

-- For a name of at most 160 characters whose first mapping does not lead to the name space itself, nammap gives the
-- name with the prefix replaced and the device of the mapping, or SYSERR when no prefix fits.
pub nammap_lem :
    (ms : List Mapping) (s : NameSpace) (tmpname name more newname : List ℕ) (namdev : ℕ)
    → Table ms s
    → All (λ ch. (ch == 0) ≡ false) name
    → length name < 161
    → length tmpname ≡ nm_maxlen
    → length newname ≡ nm_maxlen
    → namdev ≢ syserr
    → ((cs : List ℕ) → find ms name ≢ some (cs, namdev))
    → Answer (find ms name) newname (nammap s tmpname (name ++ (0 ∷ more)) newname namdev)
nammap_lem ms s tmpname name more newname namdev t h l lt ln d f =
    let behind = drop (length (name ++ (0 ∷ []))) tmpname in
    rw (map_copied_lem s tmpname name more newname namdev h (omega arith) lt) (
      nammap_away s.nnames s (name ++ (0 ∷ behind)) newname namdev (find ms name) d f
        (λ z. find_empty ms (take s.nnames s.nametab) name t (ap (λ n. take n s.nametab) z))
        (copied-length name tmpname (omega arith) lt) ln
        (namrepl_lem ms s name behind newname t h l ln))

-- The rounds of a name whose first mapping leads to the name space: each gives the same device again.
nammap_again :
    (n : ℕ) (s : NameSpace) (tmpname newname cs : List ℕ) (namdev : ℕ)
    → ((newname : List ℕ)
        → length newname ≡ nm_maxlen
        → Answer (some (cs, namdev)) newname (namrepl s tmpname newname))
    → length newname ≡ nm_maxlen
    → (buffer : List ℕ) × (nammap_from n s tmpname namdev newname ≡ some (buffer, syserr))
unfolding nammap_from map_next
nammap_again zero s tmpname newname cs namdev a l = (newname, refl)
nammap_again (suc n) s tmpname newname cs namdev a l =
    let e : (namdev == namdev) ≡ true = ground arith in
    let b = a newname l in
    let r = nammap_again n s tmpname b.0 cs namdev a b.3 in (r.0, rw (b.1, e) r.1)

-- nammap returns SYSERR for a name of at most 160 characters whose first mapping leads to the name space itself,
-- whatever mapping the name that replaces it has.
nammap_back :
    (ms : List Mapping) (s : NameSpace) (tmpname name more newname cs : List ℕ) (namdev : ℕ)
    → Table ms s
    → All (λ ch. (ch == 0) ≡ false) name
    → length name < 161
    → length tmpname ≡ nm_maxlen
    → length newname ≡ nm_maxlen
    → find ms name ≡ some (cs, namdev)
    → (buffer : List ℕ) × (nammap s tmpname (name ++ (0 ∷ more)) newname namdev
        ≡ some (buffer, syserr))
nammap_back ms s tmpname name more newname cs namdev t h l lt ln f =
    let behind = drop (length (name ++ (0 ∷ []))) tmpname in
    rw (map_copied_lem s tmpname name more newname namdev h (omega arith) lt) (
      nammap_again s.nnames s (name ++ (0 ∷ behind)) newname cs namdev
        (λ b k. rw f at (namrepl_lem ms s name behind b t h l k)) ln)

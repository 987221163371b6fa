-- ===== src/Ports/Nodes.antt =====
-- The lists of nodes of system/ptsend.c, ptrecv.c and ptclear.c.

use os_xinu.Prelude.{
  All-map, zip_All, false, map, ◌∷◌, ap, ◌≡◌, ◌≤◌, Distinct, ◌++◌, ◌<◌, All-append, All, sym, ℕ,
  ◌≢◌, ◌∙◌, true, ◌==◌, [], List, arith, refl,
}
use os_xinu.Bufpool.Chain.{Linked, Linked-set}
use os_xinu.Ports.{pt_alloc, nports, set_word, Ports}

-- The last of a list that is not empty.
abbrev pub last : ℕ → List ℕ → ℕ
last b [] = b
last b (c ∷ cs) = last c cs

-- `pttail` of a list of nodes.
abbrev pub tail_of : List ℕ → ℕ
tail_of [] = 0
tail_of (b ∷ bs) = last b bs

pub last-All : (P : ℕ → Type 0) (b : ℕ) (bs : List ℕ) → All P (b ∷ bs) → P (last b bs)
last-All P b [] h = h.0
last-All P b (c ∷ cs) h = last-All P c cs h.1

pub positive : (w : ℕ → ℕ) (h : ℕ) (bs : List ℕ) → Linked w h bs → All (λ c. 0 < c) bs
positive w h [] l = tt
positive w h (b ∷ bs) l = (l.1, positive w (w b) bs l.2)

pub tail_of-append : (bs : List ℕ) (n : ℕ) → tail_of (bs ++ (n ∷ [])) ≡ n
tail_of-append [] n = refl
tail_of-append (b ∷ []) n = refl
tail_of-append (b ∷ c ∷ cs) n = tail_of-append (c ∷ cs) n

-- A node that is written behind the last.
pub Linked-append :
    (w : ℕ → ℕ) (h n b : ℕ) (bs : List ℕ)
    → Linked w h (b ∷ bs)
    → Distinct (b ∷ bs)
    → All (λ c. n ≢ c) (b ∷ bs)
    → 0 < n
    → Linked (set_word (set_word w n 0) (last b bs) n) h ((b ∷ bs) ++ (n ∷ []))
Linked-append w h n b [] l d a p =
    let e : (b == b) ≡ true = ground arith in
    let f : (b == n) ≡ false = ground (arith, a.0) in
    let g : (n == n) ≡ true = ground arith in (l.0, l.1, (rw e refl, p, rw (f, g) refl))
Linked-append w h n b (c ∷ cs) l d a p =
    let r = Linked-append w (w b) n c cs l.2 d.1 a.1 p in
    let ne = last-All (λ x. b ≢ x) c cs d.0 in
    let e : (last c cs == b) ≡ false = ground (arith, ne) in
    let f : (n == b) ≡ false = ground (arith, a.0) in (l.0, l.1, rw (e, f) r)

-- A list that is linked in front of another.
pub Linked-join :
    (w : ℕ → ℕ) (h f b : ℕ) (bs fs : List ℕ)
    → Linked w h (b ∷ bs)
    → Distinct (b ∷ bs)
    → Linked w f fs
    → All (λ c. last b bs ≢ c) fs
    → Linked (set_word w (last b bs) f) h ((b ∷ bs) ++ fs)
Linked-join w h f b [] fs l d k a =
    let e : (b == b) ≡ true = ground arith in (l.0, l.1, rw e (Linked-set w f b f fs a k))
Linked-join w h f b (c ∷ cs) fs l d k a =
    let r = Linked-join w (w b) f c cs fs l.2 d.1 k a in
    let ne = last-All (λ x. b ≢ x) c cs d.0 in
    let e : (last c cs == b) ≡ false = ground (arith, ne) in (l.0, l.1, rw e r)

pub Distinct-append :
    (xs ys : List ℕ)
    → Distinct xs
    → Distinct ys
    → All (λ x. All (λ y. x ≢ y) ys) xs
    → Distinct (xs ++ ys)
Distinct-append [] ys d e a = e
Distinct-append (x ∷ xs) ys d e a =
    (All-append (λ y. x ≢ y) xs ys d.0 a.0, Distinct-append xs ys d.1 e a.1)

-- The nodes of every port, those of the free list as nodes nports. A node belongs to the list that `owner` gives, so no node is in
-- two of them.
pub record IsPorts (s : Ports) (owner : ℕ → ℕ) (nodes : ℕ → List ℕ) : Type 0 where
  pub free : Linked s.ptnext s.ptfree (nodes nports)
  pub linked :
      (p : ℕ)
      → p < nports
      → (s.porttab p).ptstate ≡ pt_alloc
      → Linked s.ptnext (s.porttab p).pthead (nodes p)
  pub tail :
      (p : ℕ)
      → p < nports
      → (s.porttab p).ptstate ≡ pt_alloc
      → (s.porttab p).pttail ≡ tail_of (nodes p)
  pub owned : (p : ℕ) → p ≤ nports → All (λ b. owner b ≡ p) (nodes p)
  pub distinct : (p : ℕ) → p ≤ nports → Distinct (nodes p)

-- The messages of a port, in the order in which they were sent.
abbrev pub messages : Ports → (ℕ → List ℕ) → ℕ → List ℕ
messages s nodes p = map s.ptmsg (nodes p)

-- A node of one list is in no other.
pub elsewhere :
    (owner : ℕ → ℕ) (a p q : ℕ) (bs : List ℕ)
    → owner a ≡ p
    → p ≢ q
    → All (λ b. owner b ≡ q) bs
    → All (λ b. a ≢ b) bs
elsewhere owner a p q bs e ne h = All-map bs (λ b o z. ne (sym e ∙ ap owner z ∙ o)) h

-- An owner that changes for one node only.
pub owned-set :
    (owner : ℕ → ℕ) (a p q : ℕ) (bs : List ℕ)
    → All (λ b. a ≢ b) bs
    → All (λ b. owner b ≡ q) bs
    → All (λ b. set_word owner a p b ≡ q) bs
owned-set owner a p q bs n h =
    All-map bs (λ b r. let e : (a == b) ≡ false = ground (arith, r.0) in rw e r.1)
      (zip_All (λ b. a ≢ b) (λ b. owner b ≡ q) bs n h)

-- Messages of nodes that are not written.
pub map-set_word :
    (m : ℕ → ℕ) (a v : ℕ) (bs : List ℕ) → All (λ b. a ≢ b) bs → map (set_word m a v) bs ≡ map m bs
map-set_word m a v [] h = refl
map-set_word m a v (b ∷ bs) h =
    let e : (a == b) ≡ false = ground (arith, h.0) in rw (e, map-set_word m a v bs h.1) refl

pub map-append : (m : ℕ → ℕ) (xs ys : List ℕ) → map m (xs ++ ys) ≡ map m xs ++ map m ys
map-append m [] ys = refl
map-append m (x ∷ xs) ys = ap (λ zs. m x ∷ zs) (map-append m xs ys)

-- ===== src/Queue/Chain.antt =====
-- A doubly linked list between two entries of the queue table, and what linking an entry in and
-- out does to it.
use os_xinu.Prelude.{ℕ, ◌≡◌, ◌≢◌, List, [], ◌∷◌, ◌++◌, arith}
use os_xinu.Prelude.{All, All-left, All-right, All-map, Distinct, zip_All, sym, ◌∙◌}
use os_xinu.Queue.{Qtab}

-- From `p` along `next` through the entries of the list to `n`, and back along `prev`.
abbrev pub Chain : Qtab → ℕ → List ℕ → ℕ → Type 0
Chain t p [] n = ((t p).next ≡ n) × ((t n).prev ≡ p)
Chain t p (x ∷ xs) n = ((t p).next ≡ x) × ((t x).prev ≡ p) × Chain t x xs n

abbrev pub last_or : ℕ → List ℕ → ℕ
last_or p [] = p
last_or p (x ∷ xs) = last_or x xs

abbrev pub first_or : List ℕ → ℕ → ℕ
first_or [] n = n
first_or (x ∷ xs) n = x

pub All-last {ℓ} : (P : ℕ → Type ℓ) (p : ℕ) (xs : List ℕ) → P p → All P xs → P (last_or p xs)
All-last P p [] h k = h
All-last P p (x ∷ xs) h k = All-last P x xs k.0 k.1

pub All-first {ℓ} : (P : ℕ → Type ℓ) (xs : List ℕ) (n : ℕ) → All P xs → P n → P (first_or xs n)
All-first P [] n h k = k
All-first P (x ∷ xs) n h k = h.0

pub prev-Chain :
    (t : Qtab) (p : ℕ) (xs ys : List ℕ) (n : ℕ)
    → Chain t p (xs ++ ys) n
    → (t (first_or ys n)).prev ≡ last_or p xs
prev-Chain t p [] [] n c = c.1
prev-Chain t p [] (y ∷ ys) n c = c.1
prev-Chain t p (x ∷ xs) ys n c = prev-Chain t x xs ys n c.2

pub next-Chain :
    (t : Qtab) (p : ℕ) (xs ys : List ℕ) (n : ℕ)
    → Chain t p (xs ++ ys) n
    → (t (last_or p xs)).next ≡ first_or ys n
next-Chain t p [] [] n c = c.0
next-Chain t p [] (y ∷ ys) n c = c.0
next-Chain t p (x ∷ xs) ys n c = next-Chain t x xs ys n c.2

pub Chain-frame :
    (t t' : Qtab) (p : ℕ) (xs : List ℕ) (n : ℕ)
    → (t' p).next ≡ (t p).next
    → All (λ j. (t' j).next ≡ (t j).next) xs
    → All (λ j. (t' j).prev ≡ (t j).prev) xs
    → (t' n).prev ≡ (t n).prev
    → Chain t p xs n
    → Chain t' p xs n
Chain-frame t t' p [] n a b c d h = (cc, cc)
Chain-frame t t' p (x ∷ xs) n a b c d h =
    (cc (a, h.0), cc (c.0, h.1), Chain-frame t t' x xs n b.0 b.1 c.1 d h.2)

-- `t'` is `t` with `pid` linked in between `prev` and `next`.
pub record Linked (t t' : Qtab) (prev pid next : ℕ) : Type 0 where
  pub into : (t' prev).next ≡ pid
  pub back : (t' pid).prev ≡ prev
  pub onward : (t' pid).next ≡ next
  pub behind : (t' next).prev ≡ pid
  pub other_next : (j : ℕ) → j ≢ prev → j ≢ pid → (t' j).next ≡ (t j).next
  pub other_prev : (j : ℕ) → j ≢ next → j ≢ pid → (t' j).prev ≡ (t j).prev

-- `t'` is `t` with the entry between `prev` and `next` linked out.
pub record Unlinked (t t' : Qtab) (prev next : ℕ) : Type 0 where
  pub into : (t' prev).next ≡ next
  pub back : (t' next).prev ≡ prev
  pub other_next : (j : ℕ) → j ≢ prev → (t' j).next ≡ (t j).next
  pub other_prev : (j : ℕ) → j ≢ next → (t' j).prev ≡ (t j).prev

-- The entries of a chain and its two ends are all different.
pub record Apart (p : ℕ) (xs : List ℕ) (n : ℕ) : Type 0 where
  pub ends : p ≢ n
  pub fore : All (λ j. p ≢ j) xs
  pub aft : All (λ j. j ≢ n) xs
  pub distinct : Distinct xs

pub Apart-tail : (p x : ℕ) (xs : List ℕ) (n : ℕ) → Apart p (x ∷ xs) n → Apart x xs n
Apart-tail p x xs n a = record {
  ends = a.aft.0;
  fore = a.distinct.0;
  aft = a.aft.1;
  distinct = a.distinct.1;
}

module _ (t t' : Qtab) (pid : ℕ) where
  -- Behind the new entry nothing but the first `prev` changes.
  Chain-link_here :
      (ys : List ℕ) (p n : ℕ)
      → Linked t t' p pid (first_or ys n)
      → Apart p ys n
      → All (λ j. j ≢ pid) ys
      → n ≢ pid
      → Chain t p ys n
      → Chain t' pid ys n
  Chain-link_here [] p n l a f g c = (l.onward, l.behind)
  Chain-link_here (y ∷ ys) p n l a f g c = (
    l.onward,
    l.behind,
    Chain-frame t t' y ys n (l.other_next y (omega (arith, a.fore.0)) f.0)
        (All-map ys (λ j h. l.other_next j (λ e. h.0 (sym e)) h.1)
          (zip_All (λ j. p ≢ j) (λ j. j ≢ pid) ys a.fore.1 f.1))
        (All-map ys (λ j h. l.other_prev j (λ e. h.0 (sym e)) h.1)
          (zip_All (λ j. y ≢ j) (λ j. j ≢ pid) ys a.distinct.0 f.1))
        (l.other_prev n (λ e. a.aft.0 (sym e)) g) c.2,
  )

  pub Chain-link :
      (xs ys : List ℕ) (p n : ℕ)
      → Linked t t' (last_or p xs) pid (first_or ys n)
      → Apart p (xs ++ ys) n
      → p ≢ pid
      → All (λ j. j ≢ pid) (xs ++ ys)
      → n ≢ pid
      → Chain t p (xs ++ ys) n
      → Chain t' p (xs ++ (pid ∷ ys)) n
  Chain-link [] ys p n l a e f g c = (l.into, l.back, Chain-link_here ys p n l a f g c)
  Chain-link (x ∷ xs) ys p n l a e f g c = (
    l.other_next p (All-last (λ j. p ≢ j) x xs a.fore.0 (All-left (λ j. p ≢ j) xs ys a.fore.1)) e
        ∙ c.0,
    l.other_prev x (All-first (λ j. x ≢ j) ys n (All-right (λ j. x ≢ j) xs ys a.distinct.0) a.aft.0)
          f.0
        ∙ c.1,
    Chain-link xs ys x n l (Apart-tail p x (xs ++ ys) n a) f.0 f.1 g c.2,
  )

  Chain-unlink_here :
      (ys : List ℕ) (p n : ℕ)
      → Unlinked t t' p (first_or ys n)
      → Apart p (pid ∷ ys) n
      → Chain t pid ys n
      → Chain t' p ys n
  Chain-unlink_here [] p n l a c = (l.into, l.back)
  Chain-unlink_here (y ∷ ys) p n l a c = (
    l.into,
    l.back,
    Chain-frame t t' y ys n (l.other_next y (λ e. a.fore.1.0 (sym e)))
        (All-map ys (λ j h. l.other_next j (λ e. h (sym e))) a.fore.1.1)
        (All-map ys (λ j h. l.other_prev j (λ e. h (sym e))) a.distinct.1.0)
        (l.other_prev n (λ e. a.aft.1.0 (sym e))) c.2,
  )

  pub Chain-unlink :
      (xs ys : List ℕ) (p n : ℕ)
      → Unlinked t t' (last_or p xs) (first_or ys n)
      → Apart p (xs ++ (pid ∷ ys)) n
      → Chain t p (xs ++ (pid ∷ ys)) n
      → Chain t' p (xs ++ ys) n
  Chain-unlink [] ys p n l a c = Chain-unlink_here ys p n l a c.2
  Chain-unlink (x ∷ xs) ys p n l a c = (
    l.other_next p
          (All-last (λ j. p ≢ j) x xs a.fore.0 (All-left (λ j. p ≢ j) xs (pid ∷ ys) a.fore.1))
        ∙ c.0,
    l.other_prev x (
          All-first (λ j. x ≢ j) ys n (All-right (λ j. x ≢ j) xs (pid ∷ ys) a.distinct.0).1 a.aft.0)
        ∙ c.1,
    Chain-unlink xs ys x n l (Apart-tail p x (xs ++ (pid ∷ ys)) n a) c.2,
  )

-- ===== src/Shell/Print/Reading.antt =====
-- The tokens that shell/lexan.c leaves in its arrays, and a written line read back.
use mathlib.Core.List.{append-nil, append_assoc}
use os_xinu.Prelude.{
  inl, inr, Bool-cases, length-append, leb, zero, suc, some, ◌≤◌, arith, ◌+◌, ◌<◌, false, length,
  All, ◌∙◌, ap, sym, map, drop, ℕ, ◌==◌, ◌++◌, ◌≡◌, if◌then◌else◌, List, [], ◌∷◌, refl,
}
use os_xinu.Shell.{lexan, Lexed, shell_maxtok, add_token, continue, Tokens, lexan_from, TokType}
use os_xinu.Shell.Print.{
  print_from, separator, lex_round-print, print, Written, token_type, text, Part,
}

-- The string in the token buffer from an index on.
pub until_null : List ℕ → List ℕ
until_null [] = []
until_null (ch ∷ buf) = let rest = until_null buf in if ch == 0 then [] else ch ∷ rest

abbrev pub string_at : List ℕ → ℕ → List ℕ
string_at buf k = until_null (drop k buf)

pub read_tokens : List ℕ → List TokType → List ℕ → List (TokType × List ℕ)
read_tokens buf (ty ∷ types) (k ∷ ks) = (ty, string_at buf k) ∷ read_tokens buf types ks
read_tokens _ _ _ = []

-- The arrays hold these tokens, whatever is written behind the buffer.
data Holds : List ℕ → List TokType → List ℕ → List Part → Type 0 where
  nothing : {buf : List ℕ} → Holds buf [] [] []
  token :
      {buf : List ℕ} {types : List TokType} {ks : List ℕ} {xs : List Part} (k : ℕ) (x : Part)
      → ((more : List ℕ) → string_at (buf ++ more) k ≡ text x)
      → Holds buf types ks xs
      → Holds buf (token_type x ∷ types) (k ∷ ks) (x ∷ xs)

Holds-more :
    {buf : List ℕ} {types : List TokType} {ks : List ℕ} {xs : List Part} (more : List ℕ)
    → Holds buf types ks xs
    → Holds (buf ++ more) types ks xs
Holds-more more nothing = nothing
Holds-more {buf = buf} more (token k x f h) =
    token k x (λ m. rw (append_assoc buf more m) (f (more ++ m))) (Holds-more more h)

Holds-append :
    {buf : List ℕ} {types : List TokType} {ks : List ℕ} {xs : List Part} (k : ℕ) (x : Part)
    → ((more : List ℕ) → string_at (buf ++ more) k ≡ text x)
    → Holds buf types ks xs
    → Holds buf (types ++ (token_type x ∷ [])) (ks ++ (k ∷ [])) (xs ++ (x ∷ []))
Holds-append k x f nothing = token k x f nothing
Holds-append k x f (token k' x' f' h) = token k' x' f' (Holds-append k x f h)

Holds-read :
    {buf : List ℕ} {types : List TokType} {ks : List ℕ} {xs : List Part}
    → Holds buf types ks xs
    → read_tokens buf types ks ≡ map (λ x. (token_type x, text x)) xs
unfolding read_tokens
Holds-read nothing = refl
Holds-read {buf = buf} (token k x f h) =
    let e : string_at buf k ≡ text x = ap (λ b. string_at b k) (sym (append-nil buf)) ∙ f [] in
    rw (e, Holds-read h) refl

until_null-append :
    (cs more : List ℕ) → All (λ ch. (ch == 0) ≡ false) cs → until_null (cs ++ (0 ∷ more)) ≡ cs
unfolding until_null
until_null-append [] more h = refl
until_null-append (ch ∷ cs) more h = rw (h.0, until_null-append cs more h.1) refl

drop-append : (xs ys : List ℕ) → drop (length xs) (xs ++ ys) ≡ ys
drop-append [] ys = refl
drop-append (x ∷ xs) ys = drop-append xs ys

All-weaken {ℓ κ} :
    {P : ℕ → Type ℓ} {Q : ℕ → Type κ} (f : (x : ℕ) → P x → Q x) (xs : List ℕ) → All P xs → All Q xs
All-weaken f [] h = tt
All-weaken f (x ∷ xs) h = (f x h.0, All-weaken f xs h.1)

text-nonnull : (x : Part) → Written x → All (λ ch. (ch == 0) ≡ false) (text x)
unfolding text
text-nonnull Part.amper w = (refl, tt)
text-nonnull Part.less w = (refl, tt)
text-nonnull Part.greater w = (refl, tt)
text-nonnull (Part.word c cs) w = All-weaken (λ ch h. ground arith) (c ∷ cs) w
text-nonnull (Part.quoted quote cs) w = All-weaken (λ ch h. ground arith) cs w.1

add_token-Holds :
    (s : Tokens) (xs : List Part) (x : Part)
    → Written x
    → Holds s.tokbuf s.toktyp s.tok xs
    → (let s' = add_token s (token_type x) (text x) in
        Holds s'.tokbuf s'.toktyp s'.tok (xs ++ (x ∷ [])))
add_token-Holds s xs x w h =
    Holds-append (length s.tokbuf) x
      (λ more.
        ap until_null (
          rw (append_assoc s.tokbuf (text x ++ (0 ∷ [])) more, append_assoc (text x) (0 ∷ []) more)
            (drop-append s.tokbuf (text x ++ (0 ∷ more))))
        ∙ until_null-append (text x) more (text-nonnull x w))
      (Holds-more (text x ++ (0 ∷ [])) h)

reads :
    (fuel : ℕ) (s : Tokens) (before xs : List Part)
    → All Written xs
    → length xs < fuel
    → length s.tok + length xs ≤ shell_maxtok
    → Holds s.tokbuf s.toktyp s.tok before
    → (s' : Tokens) × (lexan_from fuel s (print xs) ≡ some (Lexed.tokens s'))
      × Holds s'.tokbuf s'.toktyp s'.tok (before ++ xs)
unfolding lexan_from continue separator
reads zero s before xs w l m h = absurd (omega (arith, l))
reads (suc fuel) s before [] w l m h = (s, refl, rw (append-nil before) h)
reads (suc fuel) s before (x ∷ xs) w l m h =
    let more : leb shell_maxtok (length s.tok) ≡ false = ground arith in
    let r =
      reads fuel (add_token s (token_type x) (text x)) (before ++ (x ∷ [])) xs w.1 (omega arith)
        (omega (arith, m, length-append s.tok (length s.tokbuf ∷ [])))
        (add_token-Holds s before x w.0 h) in
    (r.0, rw (lex_round-print s x xs w.0, more) r.1, rw (sym (append_assoc before (x ∷ []) xs)) r.2)

overflows :
    (fuel : ℕ) (s : Tokens) (xs : List Part)
    → All Written xs
    → length xs < fuel
    → length s.tok ≤ shell_maxtok
    → shell_maxtok < length s.tok + length xs
    → lexan_from fuel s (print xs) ≡ some Lexed.refused
unfolding lexan_from continue
overflows zero s xs w l m n = absurd (omega (arith, l))
overflows (suc fuel) s [] w l m n = absurd (omega (arith, m, n))
overflows (suc fuel) s (x ∷ xs) w l m n = elim (Bool-cases (leb shell_maxtok (length s.tok))) [
  | inl full ↦ rw (lex_round-print s x xs w.0, full) refl
  | inr more ↦
      let e = length-append s.tok (length s.tokbuf ∷ []) in
      let few : length s.tok < shell_maxtok = ground arith in
      rw (lex_round-print s x xs w.0, more)
        (overflows fuel (add_token s (token_type x) (text x)) xs w.1 (omega arith)
          (omega (arith, few, e)) (omega (arith, n, e)))
]

length-print : (xs : List Part) → length xs < length (print xs)
unfolding print_from text
length-print [] = omega arith
length-print (Part.amper ∷ xs) = omega (arith, length-print xs)
length-print (Part.less ∷ xs) = omega (arith, length-print xs)
length-print (Part.greater ∷ xs) = omega (arith, length-print xs)
length-print (Part.word c cs ∷ xs) = omega (arith, length-print xs, length-append cs (print xs))
length-print (Part.quoted quote cs ∷ xs) =
    omega (arith, length-print xs, length-append cs (quote ∷ print xs))

abbrev none_yet : Tokens
none_yet = record { tokbuf = []; tok = []; toktyp = [] }

-- A line written from words, quoted strings and the characters &, < and >, at most SHELL_MAXTOK of them, a
-- blank before each and a newline at the end, is read back: lexan gives tokens whose types and
-- strings in the token buffer are those of the parts, in their order.
pub lexan-print :
    (xs : List Part)
    → All Written xs
    → length xs ≤ shell_maxtok
    → (s : Tokens) × (lexan (print xs) ≡ some (Lexed.tokens s))
      × (read_tokens s.tokbuf s.toktyp s.tok ≡ map (λ x. (token_type x, text x)) xs)
unfolding lexan
lexan-print xs w l =
    let r =
      reads (length (print xs)) none_yet [] xs w (length-print xs) (omega (arith, l)) nothing in
    (r.0, r.1, Holds-read r.2)

-- lexan gives SYSERR for a line written from more than SHELL_MAXTOK such parts.
lexan_overflow :
    (xs : List Part)
    → All Written xs
    → shell_maxtok < length xs
    → lexan (print xs) ≡ some Lexed.refused
unfolding lexan
lexan_overflow xs w l =
    overflows (length (print xs)) none_yet xs w (length-print xs) (omega arith) (omega (arith, l))

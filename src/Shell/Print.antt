-- ===== src/Shell/Print.antt =====
-- A command line written out from its parts, as shell/lexan.c reads it.
pub mod Reading
use os_xinu.Prelude.{
  length, leb, if◌then◌else◌, arith, arith, false, ◌||◌, ◌==◌, ◌++◌, refl, ◌≡◌, true, some, ◌≡◌, [],
  All, ◌∷◌, ℕ, List,
}
use os_xinu.Shell.{
  shell_maxtok, is_blank, lex_round, skip_blanks, is_end, add_token, is_quote, Round, Tokens,
  lex_word, lex_quoted, in_word, lex_token, take_word, take_quoted, TokType,
}

-- A part of a line: the special characters, a word by its first character and the others, and a
-- string in quotes.
pub data Part : Type 0 where
  amper less greater : Part
  word : ℕ → List ℕ → Part
  quoted : ℕ → List ℕ → Part

pub token_type : Part → TokType
token_type Part.amper = TokType.sh_tok_amper
token_type Part.less = TokType.sh_tok_less
token_type Part.greater = TokType.sh_tok_greater
token_type (Part.word _ _) = TokType.sh_tok_other
token_type (Part.quoted _ _) = TokType.sh_tok_other

pub text : Part → List ℕ
text Part.amper = 38 ∷ []
text Part.less = 60 ∷ []
text Part.greater = 62 ∷ []
text (Part.word c cs) = c ∷ cs
text (Part.quoted _ cs) = cs

-- A word has characters of a word only; a string has no quote of its kind and no end of the line.
abbrev pub Written : Part → Type 0
Written (Part.word c cs) = All (λ ch. in_word ch ≡ true) (c ∷ cs)
Written (Part.quoted quote cs) =
    (is_quote quote ≡ true) × All (λ ch. ((ch == quote) || is_end ch) ≡ false) cs
Written _ = Unit

-- The line: a blank before each part, and a newline.
pub separator : List Part → ℕ
separator [] = 10
separator (_ ∷ _) = 32

abbrev source : Part → List ℕ → List ℕ
source (Part.quoted quote cs) p = quote ∷ (cs ++ (quote ∷ p))
source x p = text x ++ p

pub print_from : List Part → List ℕ
unfolding separator text
print_from [] = []
print_from (x ∷ xs) = source x (separator xs ∷ print_from xs)

abbrev pub print : List Part → List ℕ
print xs = separator xs ∷ print_from xs

-- The character behind a part ends a word.
separator-Ends :
    (xs : List Part) (p : List ℕ)
    → (take_word (separator xs ∷ p) ≡ ([], separator xs ∷ p))
      × ((s : Tokens) (cs : List ℕ)
          → lex_word s cs (separator xs ∷ p)
            ≡ some (Round.next (add_token s TokType.sh_tok_other cs) (separator xs ∷ p)))
unfolding separator take_word lex_word
separator-Ends [] p = (refl, λ s cs. refl)
separator-Ends (_ ∷ _) p = (refl, λ s cs. refl)

take_word-append :
    (cs p : List ℕ)
    → All (λ ch. in_word ch ≡ true) cs
    → take_word p ≡ ([], p)
    → take_word (cs ++ p) ≡ (cs, p)
unfolding take_word
take_word-append [] p h e = e
take_word-append (ch ∷ cs) p h e = rw (h.0, take_word-append cs p h.1 e) refl

take_quoted-append :
    (quote : ℕ) (cs p : List ℕ)
    → All (λ ch. ((ch == quote) || is_end ch) ≡ false) cs
    → take_quoted quote (cs ++ (quote ∷ p)) ≡ some (cs, true, p)
unfolding take_quoted
take_quoted-append quote [] p h = let e : (quote == quote) ≡ true = ground arith in rw e refl
take_quoted-append quote (ch ∷ cs) p h = rw (h.0, take_quoted-append quote cs p h.1) refl

plain :
    (c : ℕ)
    → in_word c ≡ true
    → (is_end c ≡ false)
      × ((c == 38) ≡ false)
      × ((c == 60) ≡ false)
      × ((c == 62) ≡ false)
      × (is_quote c ≡ false)
plain c h = (ground arith, ground arith, ground arith, ground arith, ground arith)

quoting :
    (c : ℕ)
    → is_quote c ≡ true
    → (is_end c ≡ false) × ((c == 38) ≡ false) × ((c == 60) ≡ false) × ((c == 62) ≡ false)
quoting c h = (ground arith, ground arith, ground arith, ground arith)

-- One round takes the next part of the line.
lex_token-source :
    (s : Tokens) (x : Part) (xs : List Part) (p : List ℕ)
    → Written x
    → lex_token s (source x (separator xs ∷ p))
      ≡ some (Round.next (add_token s (token_type x) (text x)) (separator xs ∷ p))
unfolding lex_token token_type text lex_quoted
lex_token-source s Part.amper xs p w = refl
lex_token-source s Part.less xs p w = refl
lex_token-source s Part.greater xs p w = refl
lex_token-source s (Part.word c cs) xs p w =
    let (a, b, d, e, f) = plain c w.0 in
    let t = take_word-append cs (separator xs ∷ p) w.1 (separator-Ends xs p).0 in
    rw (a, b, d, e, f, t) ((separator-Ends xs p).1 s (c ∷ cs))
lex_token-source s (Part.quoted quote cs) xs p w =
    let (a, b, d, e) = quoting quote w.0 in
    rw (a, b, d, e, w.0, take_quoted-append quote cs (separator xs ∷ p) w.1) refl

skip_blanks-source :
    (x : Part) (p : List ℕ) → Written x → skip_blanks (32 ∷ source x p) ≡ source x p
unfolding skip_blanks text
skip_blanks-source Part.amper p w = refl
skip_blanks-source Part.less p w = refl
skip_blanks-source Part.greater p w = refl
skip_blanks-source (Part.word c cs) p w =
    let b : is_blank c ≡ false = ground (arith, w.0) in rw b refl
skip_blanks-source (Part.quoted quote cs) p w =
    let b : is_blank quote ≡ false = ground (arith, w.0) in rw b refl

pub lex_round-print :
    (s : Tokens) (x : Part) (xs : List Part)
    → Written x
    → lex_round s (print (x ∷ xs)) ≡ (
        if leb shell_maxtok (length s.tok)
        then some Round.syserr
        else some (Round.next (add_token s (token_type x) (text x)) (print xs)))
unfolding lex_round separator print_from
lex_round-print s x xs w =
    rw (skip_blanks-source x (print xs) w, lex_token-source s x xs (print_from xs) w) refl

-- ===== src/Shell/Lines.antt =====
-- shell/lexan.c on any line with an end.
use os_xinu.Prelude.{
  suc, leb, ℕ, zero, suc, ◌+◌, ◌<◌, ◌≤◌, ◌≡◌, ◌⊎◌, inl, inr, refl, ap, ◌∙◌, arith, Bool, true,
  false, ◌||◌, ◌==◌, List, [], ◌∷◌, ◌++◌, length, length-append, Option, some, Bool-cases,
}
use os_xinu.Shell.{
  lexan_from, lexan, continue, shell_maxtok, Lexed, lex_round, lex_token, is_end, is_blank,
  is_quote, in_word, TokType, Tokens, add_token, skip_blanks, take_word, take_quoted, Round,
  lex_quoted, lex_word,
}

-- A NULLCH or a newline stands in the line.
abbrev pub Ended : List ℕ → Type 0
Ended [] = ⊥
Ended (ch ∷ p) = (is_end ch ≡ true) ⊎ Ended p

skip_blanks-Ended : (p : List ℕ) → Ended p → Ended (skip_blanks p)
unfolding skip_blanks
skip_blanks-Ended [] e = e
skip_blanks-Ended (ch ∷ p) e = elim (Bool-cases (is_blank ch)) [
  | inl b ↦ elim e [ inl q ↦ absurd (ground arith) | inr q ↦ rw b (skip_blanks-Ended p q) ]
  | inr b ↦ rw b e
]

length-skip_blanks : (p : List ℕ) → length (skip_blanks p) ≤ length p
unfolding skip_blanks
length-skip_blanks [] = omega arith
length-skip_blanks (ch ∷ p) = ground (arith, length-skip_blanks p)

take_word-Ended : (p : List ℕ) → Ended p → Ended (take_word p).1
unfolding take_word
take_word-Ended [] e = e
take_word-Ended (ch ∷ p) e = elim (Bool-cases (in_word ch)) [
  | inl b ↦ elim e [ inl q ↦ absurd (ground arith) | inr q ↦ rw b (take_word-Ended p q) ]
  | inr b ↦ rw b e
]

length-take_word : (p : List ℕ) → length (take_word p).0 + length (take_word p).1 ≡ length p
unfolding take_word
length-take_word [] = refl
length-take_word (ch ∷ p) = ground (arith, length-take_word p)

-- The quoted part of a line.
record Taken (quote : ℕ) (p : List ℕ) : Type 0 where
  part : List ℕ × Bool × List ℕ
  taken : take_quoted quote p ≡ some part
  ended : part.1 ≡ true → Ended part.2
  shorter : length part.0 + length part.2 + 1 ≤ length p

take_quoted-Taken : (quote : ℕ) (p : List ℕ) → is_end quote ≡ false → Ended p → Taken quote p
unfolding take_quoted
take_quoted-Taken quote [] q e = absurd e
take_quoted-Taken quote (ch ∷ p) q e = elim (Bool-cases ((ch == quote) || is_end ch)) [
  | inl b ↦ record {
    part = ([], ch == quote, p);
    taken = rw b;
    ended = λ c. elim e [ inl z ↦ absurd (ground arith) | inr z ↦ z ];
    shorter = omega arith;
  }
  | inr b ↦ elim e [
    | inl z ↦ absurd (ground arith)
    | inr z ↦
        let r = take_quoted-Taken quote p q z in
        record {
          part = (ch ∷ r.part.0, r.part.1, r.part.2);
          taken = rw (b, r.taken);
          ended = r.ended;
          shorter = omega (arith, r.shorter);
        }
  ]
]

-- A round that goes on leaves a shorter line with an end, and has added one token and no more
-- characters than it took from the line, one excepted.
abbrev Progress : Tokens → List ℕ → Round → Type 0
Progress s p (Round.finish s') = s' ≡ s
Progress s p Round.syserr = Unit
Progress s p (Round.next s' p') =
    Ended p'
    × (length p' < length p)
    × (length s'.tokbuf + length p' ≤ length s.tokbuf + length p + 1)
    × (length s'.tok ≡ length s.tok + 1)
    × (length s'.toktyp ≡ length s.toktyp + 1)

abbrev Outcome : Tokens → List ℕ → Option Round → Type 0
Outcome s p o = (r : Round) × (o ≡ some r) × Progress s p r

added :
    (s : Tokens) (ty : TokType) (cs p p' : List ℕ)
    → Ended p'
    → length cs + length p' ≤ length p
    → length p' < length p
    → Progress s p (Round.next (add_token s ty cs) p')
added s ty cs p p' e l m = (
  e,
  m,
  omega (arith, length-append s.tokbuf (cs ++ (0 ∷ [])), length-append cs (0 ∷ [])),
  length-append s.tok (length s.tokbuf ∷ []),
  length-append s.toktyp (ty ∷ []),
)

lex_word-Outcome :
    (s : Tokens) (cs q p : List ℕ)
    → Ended q
    → length cs + length q ≤ length p
    → length q < length p
    → Outcome s p (lex_word s cs q)
unfolding lex_word
lex_word-Outcome s cs [] p e l m = absurd e
lex_word-Outcome s cs (ch ∷ q) p e l m =
    elim (Bool-cases (is_quote ch || (ch == 60) || (ch == 62))) [
      | inl b ↦ (Round.syserr, rw b, tt)
      | inr b ↦ (
        Round.next (add_token s TokType.sh_tok_other cs) (ch ∷ q),
        rw b,
        added s TokType.sh_tok_other cs p (ch ∷ q) e l m,
      )
    ]

lex_quoted-Outcome :
    (s : Tokens) (quote : ℕ) (p : List ℕ)
    → is_end quote ≡ false
    → Ended p
    → Outcome s (quote ∷ p) (lex_quoted s (take_quoted quote p))
unfolding lex_quoted
lex_quoted-Outcome s quote p q e =
    let r = take_quoted-Taken quote p q e in
    elim (Bool-cases r.part.1) [
      | inl b ↦ (
        Round.next (add_token s TokType.sh_tok_other r.part.0) r.part.2,
        ap (lex_quoted s) r.taken ∙ rw b,
        added s TokType.sh_tok_other r.part.0 (quote ∷ p) r.part.2 (r.ended b)
            (omega (arith, r.shorter)) (omega (arith, r.shorter)),
      )
      | inr b ↦ (Round.syserr, ap (lex_quoted s) r.taken ∙ rw b, tt)
    ]

Progress-weaken :
    (s : Tokens) (p q : List ℕ) (r : Round) → length p ≤ length q → Progress s p r → Progress s q r
Progress-weaken s p q (Round.finish s') l h = h
Progress-weaken s p q Round.syserr l h = h
Progress-weaken s p q (Round.next s' p') l (e, a, b, c, d) =
    (e, omega (arith, l, a), omega (arith, l, b), c, d)

lex_token-Outcome : (s : Tokens) (p : List ℕ) → Ended p → Outcome s p (lex_token s p)
unfolding lex_token
lex_token-Outcome s [] e = absurd e
lex_token-Outcome s (ch ∷ p) e = elim (Bool-cases (is_end ch)) [
  | inl b ↦ (Round.finish s, rw b, refl)
  | inr b ↦
      let rest : Ended p = elim e [ inl z ↦ absurd (ground arith) | inr z ↦ z ] in
      elim (Bool-cases (ch == 38)) [
        | inl c ↦ (
          Round.next (add_token s TokType.sh_tok_amper (ch ∷ [])) p,
          rw (b, c),
          added s TokType.sh_tok_amper (ch ∷ []) (ch ∷ p) p rest (omega arith) (omega arith),
        )
        | inr c ↦ elim (Bool-cases (ch == 60)) [
          | inl d ↦ (
            Round.next (add_token s TokType.sh_tok_less (ch ∷ [])) p,
            rw (b, c, d),
            added s TokType.sh_tok_less (ch ∷ []) (ch ∷ p) p rest (omega arith) (omega arith),
          )
          | inr d ↦ elim (Bool-cases (ch == 62)) [
            | inl f ↦ (
              Round.next (add_token s TokType.sh_tok_greater (ch ∷ [])) p,
              rw (b, c, d, f),
              added s TokType.sh_tok_greater (ch ∷ []) (ch ∷ p) p rest (omega arith) (omega arith),
            )
            | inr f ↦ elim (Bool-cases (is_quote ch)) [
              | inl g ↦
                  let o = lex_quoted-Outcome s ch p b rest in (o.0, rw (b, c, d, f, g, o.1), o.2)
              | inr g ↦
                  let o =
                    lex_word-Outcome s (ch ∷ (take_word p).0) (take_word p).1 (ch ∷ p)
                      (take_word-Ended p rest) (omega (arith, length-take_word p))
                      (omega (arith, length-take_word p)) in
                  (o.0, rw (b, c, d, f, g, o.1), o.2)
            ]
          ]
        ]
      ]
]

-- A round of the loop takes white space too, and starts no token when the arrays are full.
lex_round-Outcome :
    (s : Tokens) (p : List ℕ)
    → Ended p
    → length s.tok ≤ shell_maxtok
    → (r : Round) × (lex_round s p ≡ some r)
      × Progress s p r
      × ((s' : Tokens) (p' : List ℕ) → r ≡ Round.next s' p' → length s.tok < shell_maxtok)
unfolding lex_round
lex_round-Outcome s [] e m = absurd e
lex_round-Outcome s (ch ∷ p) e m = elim (Bool-cases (is_end ch)) [
  | inl b ↦ (Round.finish s, rw b, refl, λ s' p' q. absurd (cc (q)))
  | inr b ↦ elim (Bool-cases (leb shell_maxtok (length s.tok))) [
    | inl c ↦ (Round.syserr, rw (b, c), tt, λ s' p' q. absurd (cc (q)))
    | inr c ↦
        let o = lex_token-Outcome s (skip_blanks (ch ∷ p)) (skip_blanks-Ended (ch ∷ p) e) in
        (
          o.0,
          rw (b, c, o.1),
          Progress-weaken s (skip_blanks (ch ∷ p)) (ch ∷ p) o.0 (length-skip_blanks (ch ∷ p)) o.2,
          λ s' p' q. ground (arith, c),
        )
  ]
]

-- What a result satisfies, for a line of `n` characters.
abbrev pub Fits : ℕ → Lexed → Type 0
Fits n Lexed.refused = Unit
Fits n (Lexed.tokens s) =
    (length s.tok ≤ shell_maxtok)
    × (length s.toktyp ≡ length s.tok)
    × (length s.tokbuf ≤ n + length s.tok)

Result : ℕ → Option Lexed → Type 0
Result n o = (r : Lexed) × (o ≡ some r) × Fits n r

-- What holds before each round, with fuel for the rest of the line.
record Going (n fuel : ℕ) (s : Tokens) (p : List ℕ) : Type 0 where
  ended : Ended p
  enough : length p ≤ fuel
  few : length s.tok ≤ shell_maxtok
  types : length s.toktyp ≡ length s.tok
  room : length s.tokbuf + length p ≤ n + length s.tok

lex_next :
    (n fuel : ℕ) (s : Tokens) (p : List ℕ) (r : Round)
    → Going n (suc fuel) s p
    → Progress s p r
    → ((s' : Tokens) (p' : List ℕ) → r ≡ Round.next s' p' → length s.tok < shell_maxtok)
    → ((s' : Tokens) (p' : List ℕ) → Going n fuel s' p' → Result n (lexan_from fuel s' p'))
    → Result n (continue (lexan_from fuel) (some r))
unfolding Result continue
lex_next n fuel s p (Round.finish s') g h _ _ =
    (Lexed.tokens s', refl, rw h (g.few, g.types, omega (arith, g.room)))
lex_next n fuel s p Round.syserr g h _ _ = (Lexed.refused, refl, tt)
lex_next n fuel s p (Round.next s' p') g (e, a, b, c, d) f more = more s' p' (record {
  ended = e;
  enough = omega (arith, g.enough, a);
  few = omega (arith, c, f s' p' refl);
  types = omega (arith, c, d, g.types);
  room = omega (arith, g.room, b, c);
})

lex_rounds :
    (n fuel : ℕ) (s : Tokens) (p : List ℕ) → Going n fuel s p → Result n (lexan_from fuel s p)
unfolding lexan_from
lex_rounds n zero s [] g = absurd g.ended
lex_rounds n zero s (ch ∷ p) g = absurd (omega (arith, g.enough))
lex_rounds n (suc fuel) s p g =
    let o = lex_round-Outcome s p g.ended g.few in
    rw o.1 (lex_next n fuel s p o.0 g o.2 o.3 (lex_rounds n fuel))

-- On a line with a NULLCH or a newline in it, lexan ends and reads nothing behind the line: it gives
-- SYSERR, or at most SHELL_MAXTOK tokens, a type for each, and no more characters in the token buffer than the
-- line has and one for each token.
pub lexan_lem :
    (line : List ℕ) → Ended line → (r : Lexed) × (lexan line ≡ some r) × Fits (length line) r
unfolding Result lexan
lexan_lem line e =
    lex_rounds (length line) (length line) (record { tokbuf = []; tok = []; toktyp = [] }) line
      (record {
        ended = e;
        enough = omega arith;
        few = omega arith;
        types = refl;
        room = omega arith;
      })

-- ===== src/Shell.antt =====
-- shell/lexan.c: the tokens of a command line.
-- A line is the list of the bytes from the pointer on; `none` is a read beyond it. The token buffer
-- is the list of the bytes written so far, so `tbindex` is its length.
pub mod Print
pub mod Lines
mod Tests
use mathlib.Core.Option
use os_xinu.Prelude.{
  ℕ, zero, suc, ◌+◌, Bool, true, false, not, ◌&&◌, ◌||◌, ◌==◌, leb, if◌then◌else◌, List, [], ◌∷◌,
  ◌++◌, length, Option, none, some,
}

abbrev pub shell_maxtok : ℕ
shell_maxtok = 32

-- The tests on a character: NULLCH and SH_NEWLINE, SH_BLANK and SH_TAB, SH_SQUOTE and SH_DQUOTE, and
-- the others that end a word.
abbrev pub is_end : ℕ → Bool
is_end ch = (ch == 0) || (ch == 10)

abbrev pub is_blank : ℕ → Bool
is_blank ch = (ch == 32) || (ch == 9)

abbrev pub is_quote : ℕ → Bool
is_quote ch = (ch == 39) || (ch == 34)

abbrev pub in_word : ℕ → Bool
in_word ch = not (is_end ch || (ch == 60) || (ch == 62) || is_blank ch || (ch == 38) || is_quote ch)

pub data TokType : Type 0 where
  sh_tok_amper sh_tok_less sh_tok_greater sh_tok_other : TokType

-- The token buffer and the arrays `tok` and `toktyp`; `ntok` is their length.
pub record Tokens : Type 0 where
  pub tokbuf : List ℕ
  pub tok : List ℕ
  pub toktyp : List TokType

-- A token, with its characters and a null behind them.
abbrev pub add_token : Tokens → TokType → List ℕ → Tokens
add_token s ty cs = record {
  tokbuf = s.tokbuf ++ (cs ++ (0 ∷ []));
  tok = s.tok ++ (length s.tokbuf ∷ []);
  toktyp = s.toktyp ++ (ty ∷ []);
}

pub skip_blanks : List ℕ → List ℕ
skip_blanks [] = []
skip_blanks (ch ∷ p) = let rest = skip_blanks p in if is_blank ch then rest else ch ∷ p

-- The loop over the characters of a word: these, and the line from the character that ends it on.
pub take_word : List ℕ → List ℕ × List ℕ
take_word [] = ([], [])
take_word (ch ∷ p) =
    let (cs, rest) = take_word p in if in_word ch then (ch ∷ cs, rest) else ([], ch ∷ p)

-- The loop over a quoted string: its characters, whether the quote ends it, and the line behind.
pub take_quoted : ℕ → List ℕ → Option (List ℕ × Bool × List ℕ)
take_quoted quote [] = none
take_quoted quote (ch ∷ p) =
    let rest = take_quoted quote p in
    if (ch == quote) || is_end ch
    then some ([], ch == quote, p)
    else Option.map (λ r. (ch ∷ r.0, r.1, r.2)) rest

-- What a round of the outer loop does: it ends the function, or goes on with the line behind.
pub data Round : Type 0 where
  finish : Tokens → Round
  syserr : Round
  next : Tokens → List ℕ → Round

-- A quoted token.
pub lex_quoted : Tokens → Option (List ℕ × Bool × List ℕ) → Option Round
lex_quoted s none = none
lex_quoted s (some (cs, closed, p)) =
    some (if closed then next (add_token s TokType.sh_tok_other cs) p else syserr)

-- The end of a word: the characters that may not stand right behind it are an error.
pub lex_word : Tokens → List ℕ → List ℕ → Option Round
lex_word s cs [] = none
lex_word s cs (ch ∷ p) = some (
    if is_quote ch || (ch == 60) || (ch == 62)
    then syserr
    else next (add_token s TokType.sh_tok_other cs) (ch ∷ p))

-- The part of a round behind the white space.
pub lex_token : Tokens → List ℕ → Option Round
unfolding lex_quoted lex_word take_quoted take_word
lex_token s [] = none
lex_token s (ch ∷ p) =
    if is_end ch
    then some (finish s)
    else if ch == 38
    then some (next (add_token s TokType.sh_tok_amper (ch ∷ [])) p)
    else if ch == 60
    then some (next (add_token s TokType.sh_tok_less (ch ∷ [])) p)
    else if ch == 62
    then some (next (add_token s TokType.sh_tok_greater (ch ∷ [])) p)
    else if is_quote ch
    then lex_quoted s (take_quoted ch p)
    else lex_word s (ch ∷ (take_word p).0) (take_word p).1

pub lex_round : Tokens → List ℕ → Option Round
unfolding lex_token skip_blanks
lex_round s [] = none
lex_round s (ch ∷ p) =
    if is_end ch
    then some (finish s)
    else if leb shell_maxtok (length s.tok)
    then some syserr
    else lex_token s (skip_blanks (ch ∷ p))

-- The result: the tokens, or SYSERR.
pub data Lexed : Type 0 where
  tokens : Tokens → Lexed
  refused : Lexed

pub continue : (Tokens → List ℕ → Option Lexed) → Option Round → Option Lexed
continue more none = none
continue more (some (finish s)) = some (tokens s)
continue more (some syserr) = some refused
continue more (some (next s p)) = more s p

-- Each round takes a character at least, so the length of the line is fuel enough.
pub lexan_from : ℕ → Tokens → List ℕ → Option Lexed
unfolding continue lex_round
lexan_from zero s p = none
lexan_from (suc fuel) s p = continue (lexan_from fuel) (lex_round s p)

pub lexan : List ℕ → Option Lexed
unfolding lexan_from
lexan line = lexan_from (length line) (record { tokbuf = []; tok = []; toktyp = [] }) line

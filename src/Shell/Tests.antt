-- ===== src/Shell/Tests.antt =====
-- shell/lexan.c on concrete lines.
use os_xinu.Prelude.{arith, map, ◌≡◌, ℕ, List, [], ◌∷◌, some, inl, inr, refl, length}
use os_xinu.Shell.{lexan, Lexed, Tokens}
use os_xinu.Shell.Lines.{Fits, lexan_lem}
use os_xinu.Shell.Print.{Part, print, token_type, text}
use os_xinu.Shell.Print.Reading.{lexan-print, read_tokens}

-- ls "a&b" > x &
abbrev parts : List Part
parts =
    Part.word 108 (115 ∷ [])
    ∷ Part.quoted 34 (97 ∷ 38 ∷ 98 ∷ [])
    ∷ Part.greater
    ∷ Part.word 120 []
    ∷ Part.amper
    ∷ []

lexan-print_example :
    (s : Tokens) × (lexan (print parts) ≡ some (Lexed.tokens s))
    × (read_tokens s.tokbuf s.toktyp s.tok ≡ map (λ x. (token_type x, text x)) parts)
lexan-print_example =
    lexan-print parts
      ((refl, (refl, tt)), ((refl, (refl, (refl, (refl, tt)))), (tt, ((refl, tt), (tt, tt)))))
      (omega arith)

abbrev line : List ℕ
line = 32 ∷ 97 ∷ 39 ∷ 10 ∷ []

lexan_example : (r : Lexed) × (lexan line ≡ some r) × Fits (length line) r
lexan_example = lexan_lem line (inr (inr (inr (inl refl))))

-- ===== src/Lexer/Tests.antt =====
-- Runs of the lexer.
use impulse_jit.Lexer.Trivia.{skip_trivia-Trivia, Trivia}
use impulse_jit.Lexer.Literals.{only_token}
use impulse_jit.Lexer.Documented.{
  tokenize-integer, tokenize-exponent, tokenize-escape, escape_text, is_documented_integer,
  is_documented_float, is_documented_string, is_documented_escape,
}
use impulse_jit.Lexer.Moves.{Moves}
use impulse_jit.Lexer.Sound.{tokenize-Lexes, Lexes}
use impulse_jit.Base.{not, ◌==◌, ◌||◌, false, ℕ, List, [], ◌∷◌, ◌≡◌, refl, ok}
use impulse_jit.Token.{Text, codes, Token, TokenKind, is_digit}
use impulse_jit.Lexer.{cursor, skip_trivia, Lexer, tokenize, unescape, is_empty}

abbrev tok : TokenKind → Text → ℕ → ℕ → Token
tok k x l c = record { kind = k; lexeme = x; line = l; column = c }

tokenize-let :
    tokenize (codes "let x1 = 4_2.5e+3; // c\n  \"a\\n\" -> /* * */ if&")
    ≡ ok (
        tok TokenKind.kw_let (codes "let") 1 1
        ∷ tok TokenKind.identifier (codes "x1") 1 5
        ∷ tok TokenKind.equal (codes "=") 1 8
        ∷ tok TokenKind.float_literal (codes "4_2.5e+3") 1 10
        ∷ tok TokenKind.semicolon (codes ";") 1 18
        ∷ tok TokenKind.string_literal (codes "a\n") 2 3
        ∷ tok TokenKind.arrow (codes "->") 2 9
        ∷ tok TokenKind.kw_if (codes "if") 2 20
        ∷ tok TokenKind.ampersand (codes "&") 2 22
        ∷ tok TokenKind.end_of_file [] 2 23
        ∷ [])
unfolding tokenize is_digit
tokenize-let = refl

abbrev source : Text
source = codes "let a = 1.5 /* c */ + \"b\\n\";"

tokenize-Lexes_example :
    (ts : List Token) × (tokenize source ≡ ok ts) × Lexes (cursor source 1 1) ts
tokenize-Lexes_example = tokenize-Lexes source

abbrev spaces : Lexer
spaces = cursor (codes " // x\n /* y */ z") 1 1

skip_trivia-Trivia_example :
    (l : Lexer) × (w : Text) × (skip_trivia spaces ≡ ok l) × Moves spaces w l × Trivia w l.rest
skip_trivia-Trivia_example = skip_trivia-Trivia spaces

tokenize-integer_example :
    (tokenize (codes "007") ≡ ok (only_token TokenKind.integer_literal (codes "007") (codes "007")))
    × (is_documented_integer (codes "007") ≡ (is_empty (codes "07") || not (48 == 48)))
unfolding is_digit
tokenize-integer_example = tokenize-integer 48 (codes "07") refl refl

tokenize-exponent_example :
    (tokenize (codes "1e_") ≡ ok (only_token TokenKind.float_literal (codes "1e_") (codes "1e_")))
    × (is_documented_float (codes "1e_") ≡ false)
unfolding is_digit
tokenize-exponent_example = tokenize-exponent 49 101 95 [] [] refl refl refl refl

tokenize-escape_example :
    (tokenize (escape_text 113)
      ≡ ok (only_token TokenKind.string_literal (unescape 113 ∷ []) (escape_text 113)))
    × (is_documented_string (escape_text 113) ≡ is_documented_escape 113)
tokenize-escape_example = tokenize-escape 113

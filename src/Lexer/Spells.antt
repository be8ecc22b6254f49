-- ===== src/Lexer/Spells.antt =====
-- The lexical grammar of the language, stated without the lexer of frontend/src/lexer.cpp: which
-- texts spell which tokens, with `after` the text behind, by which a token is as long as it can be.
-- It goes by the code where docs/spec/grammar.md says otherwise, as in numbers and escapes.
use impulse_jit.Base.{
  length-append, ap, arith, ◌<◌, length, ℕ, ◌≡◌, ◌≢◌, Bool, true, false, not, ◌&&◌, ◌||◌, none,
  some, [], ◌∷◌, ◌++◌, ◌==◌, if◌then◌else◌,
}
use impulse_jit.Token.{
  error, Text, codes, TokenKind, is_digit, is_identifier_start, is_identifier_body,
  classify_identifier,
}
use impulse_jit.Lexer.{
  Token, Lexer, integer_literal, string_literal, float_literal, peek_in, tail, is_empty,
  is_digit_part, unescape, find_case, single_table, pair_table,
}
use impulse_jit.Lexer.Moves.{Moves, all}

-- The text does not begin with a character of the class.
abbrev pub stops : (ℕ → Bool) → Text → Bool
stops p after = is_empty after || not (p (peek_in after))

-- The inside of a string literal and its value; the flag says that a backslash stands before.
pub data Quoted : Bool → Text → Text → Type 0 where
  end : Quoted false [] []
  backslash :
      {c : ℕ} {raw v : Text}
      → (c == b'\\') ≡ true
      → (c == b'"') ≡ false
      → Quoted true raw v
      → Quoted false (c ∷ raw) v
  literal : {c : ℕ} {raw v : Text} → Quoted false raw v → Quoted true (c ∷ raw) (unescape c ∷ v)
  plain :
      {c : ℕ} {raw v : Text}
      → (c == b'\\') ≡ false
      → (c == b'"') ≡ false
      → Quoted false raw v
      → Quoted false (c ∷ raw) (c ∷ v)

-- No quote ends the text.
abbrev pub is_open : Bool → Text → Bool
is_open escaped [] = true
is_open true (c ∷ cs) = is_open false cs
is_open false (c ∷ cs) = not (c == b'"') && is_open (c == b'\\') cs

pub data Fraction : Bool → Text → Text → Type 0 where
  absent :
      {after : Text}
      → (peek_in after == b'.' && is_digit (peek_in (tail after))) ≡ false
      → Fraction false [] after
  present :
      {f after : Text} (ds : Text)
      → is_digit (peek_in ds) ≡ true
      → all is_digit_part ds ≡ true
      → stops is_digit_part after ≡ true
      → f ≡ b'.' ∷ ds
      → Fraction true f after

abbrev pub is_exponent_mark : ℕ → Bool
is_exponent_mark c = c == b'e' || c == b'E'

abbrev pub is_sign : ℕ → Bool
is_sign c = c == b'+' || c == b'-'

pub data Sign : Text → Text → Type 0 where
  absent : {after : Text} → is_sign (peek_in after) ≡ false → Sign [] after
  present : {after : Text} (c : ℕ) → is_sign c ≡ true → Sign (c ∷ []) after

-- The exponent, and the kind of the number: the flag says that it has a fraction.
pub data Exponent (fraction : Bool) : TokenKind → Text → Text → Type 0 where
  absent :
      {kind : TokenKind} {after : Text}
      → is_exponent_mark (peek_in after) ≡ false
      → kind ≡ (if fraction then float_literal else integer_literal)
      → Exponent fraction kind [] after
  present :
      {e after : Text} (x : ℕ) (s ds : Text)
      → is_exponent_mark x ≡ true
      → Sign s (ds ++ after)
      → ds ≢ []
      → all is_digit_part ds ≡ true
      → stops is_digit_part after ≡ true
      → e ≡ x ∷ s ++ ds
      → Exponent fraction float_literal e after
  no_digits :
      {e after : Text} (x : ℕ) (s : Text)
      → is_exponent_mark x ≡ true
      → Sign s after
      → stops is_digit_part after ≡ true
      → e ≡ x ∷ s
      → Exponent fraction error e after

abbrev pub number_lexeme : TokenKind → Text → Text
number_lexeme error text = codes "Invalid exponent"
number_lexeme _ text = text

-- A token of kind `kind` with its lexeme is written as `text`.
pub data Spells (kind : TokenKind) (lexeme text after : Text) : Type 0 where
  word :
      (c : ℕ) (cs : Text)
      → is_identifier_start c ≡ true
      → all is_identifier_body cs ≡ true
      → stops is_identifier_body after ≡ true
      → text ≡ c ∷ cs
      → lexeme ≡ text
      → kind ≡ classify_identifier text
      → Spells kind lexeme text after
  number :
      (c : ℕ) (cs f e : Text) (fraction : Bool)
      → is_digit c ≡ true
      → all is_digit_part cs ≡ true
      → stops is_digit_part (f ++ e ++ after) ≡ true
      → Fraction fraction f (e ++ after)
      → Exponent fraction kind e after
      → text ≡ c ∷ cs ++ f ++ e
      → lexeme ≡ number_lexeme kind text
      → Spells kind lexeme text after
  quoted :
      (raw : Text)
      → Quoted false raw lexeme
      → text ≡ b'"' ∷ raw ++ b'"' ∷ []
      → kind ≡ string_literal
      → Spells kind lexeme text after
  unterminated :
      (raw : Text)
      → is_open false raw ≡ true
      → text ≡ b'"' ∷ raw
      → after ≡ []
      → kind ≡ error
      → lexeme ≡ codes "Unterminated string literal"
      → Spells kind lexeme text after
  single :
      (c : ℕ)
      → find_case c single_table ≡ some kind
      → text ≡ c ∷ []
      → lexeme ≡ text
      → Spells kind lexeme text after
  double :
      (c d : ℕ) (one : TokenKind)
      → find_case c pair_table ≡ some (d, kind, one)
      → text ≡ c ∷ d ∷ []
      → lexeme ≡ text
      → Spells kind lexeme text after
  half :
      (c d : ℕ) (both : TokenKind)
      → find_case c pair_table ≡ some (d, both, kind)
      → (is_empty after || not (peek_in after == d)) ≡ true
      → text ≡ c ∷ []
      → lexeme ≡ text
      → Spells kind lexeme text after
  unknown :
      (c : ℕ)
      → is_identifier_start c ≡ false
      → is_digit c ≡ false
      → (c == b'"') ≡ false
      → find_case c single_table ≡ none
      → find_case c pair_table ≡ none
      → text ≡ c ∷ []
      → lexeme ≡ text
      → kind ≡ error
      → Spells kind lexeme text after

-- From `at` one token `t` is read, and the cursor is then `l`.
pub record Lexed (at : Lexer) (t : Token) (l : Lexer) : Type 0 where
  pub text : Text
  pub moves : Moves at text l
  pub spells : Spells t.kind t.lexeme text l.rest
  pub line : t.line ≡ at.line
  pub column : t.column ≡ at.column
  pub shorter : length l.rest < length at.rest

pub Moves-shorter :
    (l l' : Lexer) (c : ℕ) (w : Text) → Moves l (c ∷ w) l' → length l'.rest < length l.rest
Moves-shorter l l' c w m = omega (arith, ap (length {0}) m.text, length-append w l'.rest)

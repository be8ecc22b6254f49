-- ===== src/Lexer/Literals.antt =====
-- frontend/src/lexer.cpp: runs of `tokenize` on a text that is one literal.
use impulse_jit.Lexer.Moves.{line_after-append, column_after-append, all, line_after, column_after}
use impulse_jit.Lexer.Spells.{stops, is_exponent_mark}
use impulse_jit.Lexer.{
  tokenize, tokenize_loop, lex_token, lex_number, lex_fraction, lex_exponent, skip_trivia,
  skip_loop, trivia_step, advance, advance_while, consume_digits, token_at, cursor, Lexer,
  next_line, next_column, is_digit_part,
}
use impulse_jit.Token.{Text, Token, TokenKind, TokenKind, is_digit, is_identifier_start}
use impulse_jit.Base.{
  append-nil, ◌∙◌, sym, take, ℕ, suc, ◌+◌, ◌-◌, Bool, true, false, ◌||◌, none, List, [], ◌∷◌, ◌++◌,
  ◌==◌, length, ok, ◌≡◌, refl, ap, arith,
}

-- The tokens of a text that is one token: it, and the end.
abbrev pub only_token : TokenKind → (lexeme text : Text) → List Token
only_token kind lexeme text =
    token_at (cursor text 1 1) kind lexeme
    ∷ token_at (cursor [] (line_after 1 text) (column_after 1 text)) TokenKind.end_of_file []
    ∷ []

advance_while-run :
    (p : ℕ → Bool) (u v : Text) (line column : ℕ)
    → all p u ≡ true
    → stops p v ≡ true
    → advance_while p (u ++ v) line column ≡ cursor v (line_after line u) (column_after column u)
unfolding advance_while
advance_while-run p [] [] line column h k = refl
advance_while-run p [] (c ∷ cs) line column h k = let e : p c ≡ false = ground arith in rw e refl
advance_while-run p (c ∷ cs) v line column h k =
    let parts : (p c ≡ true) × (all p cs ≡ true) = ground arith in
    rw (parts.0) (advance_while-run p cs v (next_line c line) (next_column c column) parts.1 k)

skip_trivia-none : (l : Lexer) → trivia_step l ≡ none → skip_trivia l ≡ ok l
unfolding skip_trivia skip_loop
skip_trivia-none l h =
    let e : length l.rest + 1 ≡ suc (length l.rest) = omega arith in rw (e, skip_loop, h) refl

-- Where the first token is the whole text.
pub tokenize-only :
    (c : ℕ) (cs : Text) (kind : TokenKind) (lexeme : Text)
    → trivia_step (cursor (c ∷ cs) 1 1) ≡ none
    → lex_token (cursor (c ∷ cs) 1 1) ≡ (
      token_at (cursor (c ∷ cs) 1 1) kind lexeme,
      cursor [] (line_after 1 (c ∷ cs)) (column_after 1 (c ∷ cs)),
    )
    → tokenize (c ∷ cs) ≡ ok (only_token kind lexeme (c ∷ cs))
unfolding tokenize tokenize_loop
tokenize-only c cs kind lexeme none_skipped lexed =
    let e : length (c ∷ cs) + 1 ≡ suc (suc (length cs)) = omega arith in
    rw (e, skip_trivia-none (cursor (c ∷ cs) 1 1) none_skipped, lexed) refl

take-length : (w : Text) → take (length w) w ≡ w
take-length [] = refl
take-length (c ∷ cs) = ap (λ t. c ∷ t) (take-length cs)

slice_whole : (c : ℕ) (cs : Text) → take (suc (length cs) - 0) (c ∷ cs) ≡ c ∷ cs
slice_whole c cs =
    let e : suc (length cs) - 0 ≡ suc (length cs) = omega arith in rw e (take-length (c ∷ cs))

pub digit_starts :
    (c : ℕ) (cs : Text) → is_digit c ≡ true → trivia_step (cursor (c ∷ cs) 1 1) ≡ none
unfolding trivia_step is_digit
digit_starts c cs h = ground arith

-- A number is read by `lex_number`.
pub lex_token-digit :
    (c : ℕ) (cs : Text)
    → is_digit c ≡ true
    → lex_token (cursor (c ∷ cs) 1 1)
      ≡ lex_number (cursor (c ∷ cs) 1 1) (cursor cs (next_line c 1) (next_column c 1))
unfolding lex_token advance is_digit is_identifier_start
lex_token-digit c cs h =
    let start : is_identifier_start c ≡ false = ground arith in rw (lex_token, start, h) refl

lex_number-digits :
    (c : ℕ) (cs : Text)
    → all is_digit_part cs ≡ true
    → lex_number (cursor (c ∷ cs) 1 1) (cursor cs (next_line c 1) (next_column c 1)) ≡ (
      token_at (cursor (c ∷ cs) 1 1) TokenKind.integer_literal (c ∷ cs),
      cursor [] (line_after 1 (c ∷ cs)) (column_after 1 (c ∷ cs)),
    )
unfolding lex_number lex_fraction lex_exponent
lex_number-digits c cs h =
    let run : consume_digits (cursor cs (next_line c 1) (next_column c 1))
        ≡ cursor [] (line_after 1 (c ∷ cs)) (column_after 1 (c ∷ cs)) =
      ap (λ t. advance_while is_digit_part t (next_line c 1) (next_column c 1))
        (sym (append-nil cs))
      ∙ advance_while-run is_digit_part cs [] (next_line c 1) (next_column c 1) h refl in
    rw (run, slice_whole c cs) refl

-- A digit and then digits and underscores are one integer.
pub tokenize-digits :
    (c : ℕ) (cs : Text)
    → is_digit c ≡ true
    → all is_digit_part cs ≡ true
    → tokenize (c ∷ cs) ≡ ok (only_token TokenKind.integer_literal (c ∷ cs) (c ∷ cs))
tokenize-digits c cs h k =
    tokenize-only c cs _ _ (digit_starts c cs h) (lex_token-digit c cs h ∙ lex_number-digits c cs k)

pub lex_number-exponent :
    (c x d : ℕ) (cs ds : Text)
    → all is_digit_part cs ≡ true
    → is_exponent_mark x ≡ true
    → all is_digit_part (d ∷ ds) ≡ true
    → lex_number
        (cursor (c ∷ cs ++ x ∷ d ∷ ds) 1 1)
        (cursor (cs ++ x ∷ d ∷ ds) (next_line c 1) (next_column c 1))
      ≡ (
        token_at (cursor (c ∷ cs ++ x ∷ d ∷ ds) 1 1) TokenKind.float_literal (c ∷ cs ++ x ∷ d ∷ ds),
        cursor [] (line_after 1 (c ∷ cs ++ x ∷ d ∷ ds)) (column_after 1 (c ∷ cs ++ x ∷ d ∷ ds)),
      )
unfolding lex_number lex_fraction lex_exponent advance is_digit
lex_number-exponent c x d cs ds h m k =
    let l = next_line c 1 in
    let k₁ = next_column c 1 in
    let rest = x ∷ d ∷ ds in
    let first = advance_while-run is_digit_part cs rest l k₁ h (ground arith) in
    let l₂ = next_line x (line_after l cs) in
    let k₂ = next_column x (column_after k₁ cs) in
    let run : advance_while is_digit_part (d ∷ ds) l₂ k₂
        ≡ cursor [] (line_after l₂ (d ∷ ds)) (column_after k₂ (d ∷ ds)) =
      ap (λ t. advance_while is_digit_part t l₂ k₂) (sym (append-nil (d ∷ ds)))
      ∙ advance_while-run is_digit_part (d ∷ ds) [] l₂ k₂ k refl in
    let no_dot : (x == b'.') ≡ false = ground arith in
    let no_sign : (d == b'+' || d == b'-') ≡ false = ground arith in
    let some_digit : (suc (length ds) == 0) ≡ false = ground arith in
    rw
      (
        line_after-append l cs rest,
        column_after-append k₁ cs rest,
        first,
        no_dot,
        m,
        no_sign,
        run,
        some_digit,
        slice_whole c (cs ++ rest),
      )
      refl

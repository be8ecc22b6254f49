-- ===== src/Lexer/Documented.antt =====
-- docs/spec/grammar.md, `Literals`, beside frontend/src/lexer.cpp: the literals of the document, and texts
-- that are none of them and that the lexer reads as literals. `Digits`, which the document does not
-- define, is a digit and then digits and underscores.
use impulse_jit.Lexer.Literals.{
  only_token, tokenize-only, tokenize-digits, digit_starts, lex_token-digit, lex_number-exponent,
}
use impulse_jit.Lexer.Moves.{take_while, all}
use impulse_jit.Lexer.Spells.{stops, is_exponent_mark, is_sign}
use impulse_jit.Lexer.{
  tokenize, lex_token, lex_string, string_loop, unescape, trivia_step, advance, peek_in,
  is_digit_part, is_empty,
}
use impulse_jit.Token.{Text, TokenKind, TokenKind, is_digit, is_identifier_start}
use impulse_jit.Base.{
  ◌∙◌, ℕ, Bool, true, false, not, ◌&&◌, ◌||◌, [], ◌∷◌, ◌++◌, ◌==◌, if◌then◌else◌, ok, ◌≡◌, refl, ap,
  arith,
}

-- Int: `0 | [1-9][0-9_]*`.
abbrev pub is_documented_integer : Text → Bool
is_documented_integer [] = false
is_documented_integer (c ∷ []) = is_digit c
is_documented_integer (c ∷ d ∷ cs) = is_digit c && not (c == b'0') && all is_digit_part (d ∷ cs)

abbrev drop_while : (ℕ → Bool) → Text → Text
drop_while p [] = []
drop_while p (c ∷ cs) = if p c then drop_while p cs else c ∷ cs

abbrev is_digits : Text → Bool
is_digits w = is_digit (peek_in w) && all is_digit_part w

abbrev is_documented_exponent : Text → Bool
is_documented_exponent [] = true
is_documented_exponent (c ∷ []) = false
is_documented_exponent (c ∷ d ∷ cs) =
    c == b'e' && (if is_sign d then is_digits cs else is_digits (d ∷ cs))

abbrev is_documented_fraction : Text → Bool
is_documented_fraction [] = false
is_documented_fraction (c ∷ cs) =
    c == b'.'
    && is_digits (take_while is_digit_part cs)
    && is_documented_exponent (drop_while is_digit_part cs)

-- Float: `Digits.Digits [e[+-]?Digits]`.
abbrev pub is_documented_float : Text → Bool
is_documented_float text =
    is_digits (take_while is_digit_part text)
    && is_documented_fraction (drop_while is_digit_part text)

abbrev pub is_documented_escape : ℕ → Bool
is_documented_escape c = c == b'n' || c == b't' || c == b'"' || c == b'\\'

-- Behind the opening quote; the flag says that a backslash stands before.
abbrev is_documented_inside : Bool → Text → Bool
is_documented_inside escaped [] = false
is_documented_inside true (c ∷ cs) = is_documented_escape c && is_documented_inside false cs
is_documented_inside false (c ∷ cs) =
    if c == b'"' then is_empty cs else is_documented_inside (c == b'\\') cs

-- String: `"..."` with the escapes `\n`, `\t`, `\"` and `\\`.
abbrev pub is_documented_string : Text → Bool
is_documented_string [] = false
is_documented_string (c ∷ cs) = c == b'"' && is_documented_inside false cs

drop_while-run :
    (p : ℕ → Bool) (u v : Text) → all p u ≡ true → stops p v ≡ true → drop_while p (u ++ v) ≡ v
drop_while-run p [] [] h k = refl
drop_while-run p [] (c ∷ cs) h k = let e : p c ≡ false = ground arith in rw e refl
drop_while-run p (c ∷ cs) v h k =
    let parts : (p c ≡ true) × (all p cs ≡ true) = ground arith in
    rw (parts.0) (drop_while-run p cs v parts.1 k)

and_false : (b : Bool) → (b && false) ≡ false
and_false true = refl
and_false false = refl

and_true : (b : Bool) → (b && true) ≡ b
and_true true = refl
and_true false = refl

-- A text that is a digit and then digits and underscores is read as one integer literal and the
-- end; it is an integer of docs/spec/grammar.md exactly if nothing follows the first digit or
-- that is not 0.
pub tokenize-integer :
    (c : ℕ) (cs : Text)
    → is_digit c ≡ true
    → all is_digit_part cs ≡ true
    → (tokenize (c ∷ cs) ≡ ok (only_token TokenKind.integer_literal (c ∷ cs) (c ∷ cs)))
      × (is_documented_integer (c ∷ cs) ≡ (is_empty cs || not (c == b'0')))
tokenize-integer c cs h k = (tokenize-digits c cs h k, documented cs k)
  where
    documented :
        (cs : Text)
        → all is_digit_part cs ≡ true
        → is_documented_integer (c ∷ cs) ≡ (is_empty cs || not (c == b'0'))
    documented [] k = h
    documented (d ∷ ds) k = rw (h, k) (ground arith)

-- A text that is a digit, digits and underscores, an e or E, and at least one digit or
-- underscore, all of them digits and underscores, is read as one float literal and the end,
-- though it is no float of docs/spec/grammar.md, which has a fraction before the exponent.
pub tokenize-exponent :
    (c x d : ℕ) (cs ds : Text)
    → is_digit c ≡ true
    → all is_digit_part cs ≡ true
    → is_exponent_mark x ≡ true
    → all is_digit_part (d ∷ ds) ≡ true
    → (tokenize (c ∷ cs ++ x ∷ d ∷ ds)
        ≡ ok (only_token TokenKind.float_literal (c ∷ cs ++ x ∷ d ∷ ds) (c ∷ cs ++ x ∷ d ∷ ds)))
      × (is_documented_float (c ∷ cs ++ x ∷ d ∷ ds) ≡ false)
unfolding is_digit
tokenize-exponent c x d cs ds h k m l =
    let rest = x ∷ d ∷ ds in
    let no_dot : (x == b'.') ≡ false = ground arith in
    let digits : all is_digit_part (c ∷ cs) ≡ true = ground arith in
    let behind : drop_while is_digit_part (c ∷ cs ++ rest) ≡ rest =
      drop_while-run is_digit_part (c ∷ cs) rest digits (ground arith) in
    let documented : is_documented_fraction rest ≡ false = rw no_dot refl in
    (
      tokenize-only c (cs ++ rest) _ _ (digit_starts c (cs ++ rest) h)
          (lex_token-digit c (cs ++ rest) h ∙ lex_number-exponent c x d cs ds k m l),
      ap (λ w. is_digits (take_while is_digit_part (c ∷ cs ++ rest)) && is_documented_fraction w)
            behind
          ∙ rw documented (and_false (is_digits (take_while is_digit_part (c ∷ cs ++ rest)))),
    )

-- `"\c"` for a character `c`.
abbrev pub escape_text : ℕ → Text
escape_text c = b'"' ∷ b'\\' ∷ c ∷ b'"' ∷ []

-- Whatever character follows a backslash, the two between quotes are read as one string literal
-- and the end; they are a string of docs/spec/grammar.md exactly if the character is n, t, a
-- quote or a backslash.
pub tokenize-escape :
    (c : ℕ)
    → (tokenize (escape_text c)
        ≡ ok (only_token TokenKind.string_literal (unescape c ∷ []) (escape_text c)))
      × (is_documented_string (escape_text c) ≡ is_documented_escape c)
unfolding lex_token lex_string string_loop advance trivia_step is_digit is_identifier_start
tokenize-escape c =
    (tokenize-only b'"' (b'\\' ∷ c ∷ b'"' ∷ []) _ _ refl refl, and_true (is_documented_escape c))

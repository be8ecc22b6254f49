-- ===== src/Lexer.antt =====
-- frontend/src/lexer.cpp: the lexer. The cursor `current_` is kept as the text from it on, `rest`;
-- an index into the source that the C++ remembers (`startIndex`) is the `rest` of that moment. A
-- `char` that `advance` returns is the `peek` of the state before. Loops that read while a test
-- holds are recursions on `rest`; those of `skipTrivia` and `tokenize` run on fuel.
pub mod Moves
pub mod Trivia
pub mod Spells
pub mod Strings
pub mod Numbers
pub mod Symbols
pub mod Sound
pub mod Literals
pub mod Documented
mod Tests
use impulse_jit.Base.{
  ℕ, zero, suc, ◌+◌, ◌-◌, Bool, true, false, not, ◌&&◌, ◌||◌, Option, none, some, List, [], ◌∷◌,
  ◌++◌, ◌==◌, if◌then◌else◌, length, take, Run, ok, out_of_fuel, ◌>>=◌,
}
use impulse_jit.Token.{
  Text, codes, TokenKind, integer_literal, float_literal, string_literal, l_paren, r_paren, l_brace,
  r_brace, l_bracket, r_bracket, comma, semicolon, colon, double_colon, dot, arrow, plus, minus,
  star, slash, percent, ampersand, ampersand_ampersand, pipe, pipe_pipe, bang, bang_equal, equal,
  equal_equal, less, less_equal, greater, greater_equal, error, end_of_file, Token, is_digit,
  is_identifier_start, is_identifier_body, classify_identifier,
}

pub record Lexer : Type 0 where
  pub rest : Text
  pub line : ℕ
  pub column : ℕ

abbrev pub cursor : Text → ℕ → ℕ → Lexer
cursor rest line column = record { rest = rest; line = line; column = column }

abbrev pub peek_in : Text → ℕ
peek_in [] = 0
peek_in (c ∷ _) = c

abbrev pub peek : Lexer → ℕ
peek l = peek_in l.rest

abbrev pub tail : Text → Text
tail [] = []
tail (_ ∷ cs) = cs

abbrev pub peek_next : Lexer → ℕ
peek_next l = peek_in (tail l.rest)

abbrev pub is_empty : Text → Bool
is_empty [] = true
is_empty (_ ∷ _) = false

abbrev pub is_at_end : Lexer → Bool
is_at_end l = is_empty l.rest

abbrev pub next_line : ℕ → ℕ → ℕ
next_line c line = if c == b'\n' then line + 1 else line

abbrev pub next_column : ℕ → ℕ → ℕ
next_column c column = if c == b'\n' then 1 else column + 1

-- At the end the C++ reads the terminating 0.
unfoldable pub advance : Lexer → Lexer
advance l = cursor (tail l.rest) (next_line (peek l) l.line) (next_column (peek l) l.column)

unfoldable pub match : ℕ → Lexer → Bool × Lexer
unfolding advance
match expected l = if is_at_end l || not (peek l == expected) then (false, l) else (true, advance l)

-- `while (!isAtEnd() && p(peek())) advance();`
unfoldable pub advance_while : (ℕ → Bool) → Text → ℕ → ℕ → Lexer
advance_while p [] line column = cursor [] line column
advance_while p (c ∷ cs) line column =
    let next = advance_while p cs (next_line c line) (next_column c column) in
    if p c then next else cursor (c ∷ cs) line column

abbrev pub advance_over : (ℕ → Bool) → Lexer → Lexer
advance_over p l = advance_while p l.rest l.line l.column

-- The loop of a block comment, up to and with its `*/`.
unfoldable pub skip_block : Text → ℕ → ℕ → Lexer
unfolding advance
skip_block [] line column = cursor [] line column
skip_block (c ∷ cs) line column =
    let next = skip_block cs (next_line c line) (next_column c column) in
    if c == b'*' && peek_in cs == b'/'
    then advance (advance (cursor (c ∷ cs) line column))
    else next

abbrev pub not_newline : ℕ → Bool
not_newline c = not (c == b'\n')

abbrev pub is_space : ℕ → Bool
is_space c = c == b' ' || c == b'\t' || c == b'\r' || c == b'\n'

-- One round of the loop of `skipTrivia`: `none` if it consumed nothing.
unfoldable pub trivia_step : Lexer → Option Lexer
unfolding advance advance_while skip_block
trivia_step l =
    if is_at_end l
    then none
    else if is_space (peek l)
    then some (advance l)
    else if peek l == b'/' && peek_next l == b'/'
    then some (advance_over not_newline l)
    else if peek l == b'/' && peek_next l == b'*'
    then (let l' = advance (advance l) in some (skip_block l'.rest l'.line l'.column))
    else none

unfoldable pub skip_loop : ℕ → Lexer → Run Lexer
unfolding trivia_step
skip_loop zero l = out_of_fuel
skip_loop (suc fuel) l = elim (trivia_step l) [ none ↦ ok l | some l' ↦ skip_loop fuel l' ]

unfoldable pub skip_trivia : Lexer → Run Lexer
unfolding skip_loop
skip_trivia l = skip_loop (length l.rest + 1) l

-- `source_.substr(startIndex, current_ - startIndex)`.
abbrev pub slice : Text → Lexer → Text
slice start l = take (length start - length l.rest) start

-- A token that begins where `at` stands.
abbrev pub token_at : Lexer → TokenKind → Text → Token
token_at at kind lexeme = record {
  kind = kind;
  lexeme = lexeme;
  line = at.line;
  column = at.column;
}

-- In the next four, `at` is the state before the first character and `l` the one after it.
unfoldable pub lex_identifier : Lexer → Lexer → Token × Lexer
unfolding advance_while is_identifier_body classify_identifier
lex_identifier at l =
    let l' = advance_over is_identifier_body l in
    let lexeme = slice at.rest l' in (token_at at (classify_identifier lexeme) lexeme, l')

abbrev pub is_digit_part : ℕ → Bool
is_digit_part c = is_digit c || c == b'_'

abbrev pub consume_digits : Lexer → Lexer
consume_digits = advance_over is_digit_part

-- The fraction, if there is one.
unfoldable pub lex_fraction : Lexer → Bool × Lexer
unfolding advance advance_while is_digit
lex_fraction l =
    if peek l == b'.' && is_digit (peek_next l)
    then (true, consume_digits (advance l))
    else (false, l)

abbrev pub skip_sign : Lexer → Lexer
skip_sign l = if peek l == b'+' || peek l == b'-' then advance l else l

-- The exponent and the token.
unfoldable pub lex_exponent : Lexer → Bool → Lexer → Token × Lexer
unfolding advance advance_while is_digit
lex_exponent at is_float l =
    if peek l == b'e' || peek l == b'E'
    then (let signed = skip_sign (advance l) in
        let l' = consume_digits signed in
        if length signed.rest == length l'.rest
        then (token_at at error (codes "Invalid exponent"), l')
        else (token_at at float_literal (slice at.rest l'), l'))
    else (token_at at (if is_float then float_literal else integer_literal) (slice at.rest l), l)

unfoldable pub lex_number : Lexer → Lexer → Token × Lexer
unfolding lex_fraction lex_exponent
lex_number at l =
    let (is_float, l') = lex_fraction (consume_digits l) in lex_exponent at is_float l'

unfoldable pub unescape : ℕ → ℕ
unescape c = if c == b'n' then b'\n' else if c == b't' then b'\t' else c

-- The loop of `lexString`: whether a closing quote was met, the value and the state. The flag says
-- that a backslash was read and its character is next.
unfoldable pub string_loop : Bool → Text → Text → ℕ → ℕ → Bool × Text × Lexer
unfolding unescape
string_loop escaped value [] line column = (false, value, cursor [] line column)
string_loop true value (c ∷ cs) line column =
    string_loop false (value ++ unescape c ∷ []) cs (next_line c line) (next_column c column)
string_loop false value (c ∷ cs) line column = elim (c == b'"') [
  | true ↦ (true, value, cursor cs (next_line c line) (next_column c column))
  | false ↦ elim (c == b'\\') [
    | true ↦ string_loop true value cs (next_line c line) (next_column c column)
    | false ↦ string_loop false (value ++ c ∷ []) cs (next_line c line) (next_column c column)
  ]
]

unfoldable pub lex_string : Lexer → Lexer → Token × Lexer
unfolding string_loop
lex_string at l =
    let (terminated, value, l') = string_loop false [] l.rest l.line l.column in
    if terminated
    then (token_at at string_literal value, l')
    else (token_at at error (codes "Unterminated string literal"), l')

-- The cases of the `switch` that are one character long.
abbrev pub single_table : List (ℕ × TokenKind)
single_table =
    (b'(', l_paren)
    ∷ (b')', r_paren)
    ∷ (b'{', l_brace)
    ∷ (b'}', r_brace)
    ∷ (b'[', l_bracket)
    ∷ (b']', r_bracket)
    ∷ (b',', comma)
    ∷ (b';', semicolon)
    ∷ (b'.', dot)
    ∷ (b'+', plus)
    ∷ (b'*', star)
    ∷ (b'/', slash)
    ∷ (b'%', percent)
    ∷ []

-- Those that look at one more: it, the kind if it follows, and the kind if not.
abbrev pub pair_table : List (ℕ × (ℕ × TokenKind × TokenKind))
pair_table =
    (b':', (b':', double_colon, colon))
    ∷ (b'-', (b'>', arrow, minus))
    ∷ (b'&', (b'&', ampersand_ampersand, ampersand))
    ∷ (b'|', (b'|', pipe_pipe, pipe))
    ∷ (b'!', (b'=', bang_equal, bang))
    ∷ (b'=', (b'=', equal_equal, equal))
    ∷ (b'<', (b'=', less_equal, less))
    ∷ (b'>', (b'=', greater_equal, greater))
    ∷ []

abbrev pub find_case {ℓ} : {A : Type ℓ} → ℕ → List (ℕ × A) → Option A
find_case c [] = none
find_case c ((d, a) ∷ table) = if c == d then some a else find_case c table

abbrev lex_pair : Lexer → ℕ → Lexer → ℕ × TokenKind × TokenKind → Token × Lexer
lex_pair at c l (second, both, one) =
    let (matched, l') = match second l in
    if matched then (token_at at both (c ∷ second ∷ []), l') else (token_at at one (c ∷ []), l')

unfoldable pub lex_symbol : Lexer → ℕ → Lexer → Token × Lexer
unfolding match
lex_symbol at c l = elim (find_case c single_table) [
  | some kind ↦ (token_at at kind (c ∷ []), l)
  | none ↦ elim (find_case c pair_table) [
    | some entry ↦ lex_pair at c l entry
    | none ↦ (token_at at error (c ∷ []), l)
  ]
]

-- One round of the loop of `tokenize`, behind the trivia.
unfoldable pub lex_token : Lexer → Token × Lexer
unfolding is_identifier_start lex_identifier lex_number lex_string lex_symbol advance
lex_token at =
    let c = peek at in
    let l = advance at in
    if is_identifier_start c
    then lex_identifier at l
    else if is_digit c
    then lex_number at l
    else if c == b'"'
    then lex_string at l
    else lex_symbol at c l

unfoldable pub tokenize_loop : ℕ → Lexer → Run (List Token)
unfolding skip_trivia lex_token
tokenize_loop zero l = out_of_fuel
tokenize_loop (suc fuel) l = do
  l' ← skip_trivia l
  elim (is_at_end l') [
    | true ↦ ok (token_at l' end_of_file [] ∷ [])
    | false ↦ (do
      let (token, l'') = lex_token l'
      tokens ← tokenize_loop fuel l''
      ok (token ∷ tokens))
  ]

unfoldable pub tokenize : Text → Run (List Token)
unfolding tokenize_loop
tokenize source = tokenize_loop (length source + 1) (cursor source 1 1)

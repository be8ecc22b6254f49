-- ===== src/Lexer/Symbols.antt =====
-- frontend/src/lexer.cpp: identifiers, string literals and the cases of the `switch`.
use impulse_jit.Lexer.Strings.{string_loop-StringEnd, StringEnd}
use impulse_jit.Lexer.Moves.{
  advance_over-stops, all-take_while, slice-Moves, take_while, Moves-refl, advance_over-Moves,
  Moves-cons, Moves,
}
use impulse_jit.Base.{
  ==_iff, some, Option-cases, if◌then◌else◌, ℕ, ◌≡◌, refl, Bool, true, false, [], ◌∷◌, ◌++◌, arith,
  ◌==◌, Bool-cases, inl, inr, ap, sym,
}
use impulse_jit.Lexer.{
  lex_pair, single_table, pair_table, is_digit, find_case, match, lex_symbol, codes, error,
  is_identifier_body, string_literal, next_column, next_line, is_identifier_start, token_at, Token,
  lex_identifier, lex_string, TokenKind, cursor, Lexer,
}
use impulse_jit.Lexer.Spells.{Lexed, Spells, Moves-shorter}
use impulse_jit.Token.{Text}

module _ (c : ℕ) (cs : Text) (line column : ℕ) where
  abbrev pub at : Lexer
  at = cursor (c ∷ cs) line column

  abbrev pub next : Lexer
  next = cursor cs (next_line c line) (next_column c column)

  abbrev pub Reads : Token × Lexer → Type 0
  Reads (t, l) = Lexed at t l

  read_one : Moves at (c ∷ []) next
  read_one = Moves-cons c cs line column (Moves-refl _)

  pub lex_identifier-Lexed : is_identifier_start c ≡ true → Reads (lex_identifier at next)
  unfolding lex_identifier
  lex_identifier-Lexed h =
      let m = Moves-cons c cs line column (advance_over-Moves is_identifier_body next) in
      record {
        text = c ∷ take_while is_identifier_body cs;
        moves = m;
        spells = rw (slice-Moves at _ _ m) (
            Spells.word c (take_while is_identifier_body cs) h
              (all-take_while is_identifier_body cs) (advance_over-stops is_identifier_body next)
              refl refl refl);
        line = refl;
        column = refl;
        shorter = Moves-shorter at _ c _ m;
      }

  string-Lexed :
      {r : Bool × Text × Lexer}
      → (c == b'"') ≡ true
      → StringEnd false [] next r
      → Reads (
          if r.0
          then (token_at at string_literal r.1, r.2)
          else (token_at at error (codes "Unterminated string literal"), r.2))
  string-Lexed h (StringEnd.closed raw v m q e) =
      let m' = Moves-cons c cs line column m in
      record {
        text = c ∷ raw ++ b'"' ∷ [];
        moves = m';
        spells = Spells.quoted raw (rw e q) (ground arith) refl;
        line = refl;
        column = refl;
        shorter = Moves-shorter at _ c _ m';
      }
  string-Lexed h (StringEnd.open_end raw m e o) =
      let m' = Moves-cons c cs line column m in
      record {
        text = c ∷ raw;
        moves = m';
        spells = Spells.unterminated raw o (ground arith) e refl refl;
        line = refl;
        column = refl;
        shorter = Moves-shorter at _ c _ m';
      }

  pub lex_string-Lexed : (c == b'"') ≡ true → Reads (lex_string at next)
  unfolding lex_string
  lex_string-Lexed h =
      string-Lexed h (string_loop-StringEnd cs false [] (next_line c line) (next_column c column))

  one-Lexed :
      {kind : TokenKind}
      → Spells kind (c ∷ []) (c ∷ []) cs
      → Reads (token_at at kind (c ∷ []), next)
  one-Lexed s = record {
    text = c ∷ [];
    moves = read_one;
    spells = s;
    line = refl;
    column = refl;
    shorter = Moves-shorter at _ c _ read_one;
  }

double-Lexed :
    (cs : Text) (c line column second : ℕ) (both one : TokenKind)
    → find_case c pair_table ≡ some (second, both, one)
    → Reads c cs line column
        (lex_pair (at c cs line column) c (next c cs line column) (second, both, one))
unfolding match
double-Lexed [] c line column second both one e =
    one-Lexed c [] line column (Spells.half c second both e refl refl refl)
double-Lexed (d ∷ ds) c line column second both one e = elim (Bool-cases (d == second)) [
  | inr h ↦
      rw h (one-Lexed c (d ∷ ds) line column (Spells.half c second both e (ground arith) refl refl))
  | inl h ↦
      let here = cursor (c ∷ d ∷ ds) line column in
      let m =
        Moves-cons c (d ∷ ds) line column
          (Moves-cons d ds (next_line c line) (next_column c column) (Moves-refl _)) in
      rw h (record {
        text = c ∷ d ∷ [];
        moves = m;
        spells =
            Spells.double c second one e (ap (λ x. c ∷ x ∷ []) ((==_iff d second).0 h))
              (ap (λ x. c ∷ x ∷ []) (sym ((==_iff d second).0 h)));
        line = refl;
        column = refl;
        shorter = Moves-shorter here _ c _ m;
      })
]

pub lex_symbol-Lexed :
    (c : ℕ) (cs : Text) (line column : ℕ)
    → is_identifier_start c ≡ false
    → is_digit c ≡ false
    → (c == b'"') ≡ false
    → Reads c cs line column (lex_symbol (at c cs line column) c (next c cs line column))
unfolding lex_symbol
lex_symbol-Lexed c cs line column s d q = elim (Option-cases (find_case c single_table)) [
  | inr (kind, e) ↦ rw (e, lex_symbol) (one-Lexed c cs line column (Spells.single c e refl refl))
  | inl e ↦ elim (Option-cases (find_case c pair_table)) [
    | inl k ↦
        rw (e, lex_symbol, k)
          (one-Lexed c cs line column (Spells.unknown c s d q e k refl refl refl))
    | inr ((second, both, one), k) ↦
        rw (e, lex_symbol, k) (double-Lexed cs c line column second both one k)
  ]
]

-- ===== src/Lexer/Numbers.antt =====
-- frontend/src/lexer.cpp, `lexNumber`.
use impulse_jit.Lexer.Moves.{
  slice-Moves, Moves-trans, advance_over-stops, all-take_while, advance_over-Moves, Moves-cons,
  take_while, Moves-refl, Moves,
}
use impulse_jit.Base.{
  subst, length-append, length, if◌then◌else◌, ℕ, ◌≡◌, refl, Bool, true, false, ◌&&◌, [], ◌∷◌, ◌++◌,
  append-nil, append_assoc, arith, ◌==◌, Bool-cases, inl, inr, ap, sym, ◌∙◌,
}
use impulse_jit.Lexer.{
  peek, lex_exponent, lex_number, slice, float_literal, codes, error, token_at, consume_digits,
  skip_sign, advance, Token, is_digit_part, next_column, next_line, peek_in, cursor, lex_fraction,
  Lexer,
}
use impulse_jit.Lexer.Spells.{
  stops, is_sign, number_lexeme, Exponent, is_exponent_mark, Sign, Fraction, Lexed, Spells,
  Moves-shorter,
}
use impulse_jit.Token.{integer_literal, is_digit, Text}

digit-take_while :
    (cs : Text)
    → is_digit (peek_in cs) ≡ true
    → is_digit (peek_in (take_while is_digit_part cs)) ≡ true
unfolding is_digit
digit-take_while [] h = h
digit-take_while (c ∷ cs) h = ground arith

-- The fraction that is read from `l`.
record FractionRead (l : Lexer) (r : Bool × Lexer) : Type 0 where
  f : Text
  moves : Moves l f r.1
  spells : Fraction r.0 f r.1.rest

lex_fraction-Read :
    (s : Text) (line column : ℕ)
    → FractionRead (cursor s line column) (lex_fraction (cursor s line column))
unfolding lex_fraction
lex_fraction-Read [] line column = record {
  f = [];
  moves = Moves-refl _;
  spells = Fraction.absent refl;
}
lex_fraction-Read (c ∷ cs) line column = elim (Bool-cases (c == b'.' && is_digit (peek_in cs))) [
  | inr h ↦ rw h (record { f = []; moves = Moves-refl _; spells = Fraction.absent h })
  | inl h ↦
      let l = cursor cs (next_line c line) (next_column c column) in
      rw h (record {
        f = c ∷ take_while is_digit_part cs;
        moves = Moves-cons c cs line column (advance_over-Moves is_digit_part l);
        spells =
            Fraction.present (take_while is_digit_part cs) (digit-take_while cs (ground arith))
              (all-take_while is_digit_part cs) (advance_over-stops is_digit_part l) (ground arith);
      })
]

nil_of_length : (w : Text) → length w ≡ 0 → w ≡ []
nil_of_length [] h = refl
nil_of_length (c ∷ cs) h = absurd (omega arith)

record SignRead (l l' : Lexer) : Type 0 where
  s : Text
  moves : Moves l s l'
  spells : Sign s l'.rest

skip_sign-Read :
    (cs : Text) (line column : ℕ)
    → SignRead (cursor cs line column) (skip_sign (cursor cs line column))
unfolding advance
skip_sign-Read [] line column = record { s = []; moves = Moves-refl _; spells = Sign.absent refl }
skip_sign-Read (c ∷ cs) line column = elim (Bool-cases (is_sign c)) [
  | inl h ↦ rw h (record {
    s = c ∷ [];
    moves = Moves-cons c cs line column (Moves-refl _);
    spells = Sign.present c h;
  })
  | inr h ↦ rw h (record { s = []; moves = Moves-refl _; spells = Sign.absent h })
]

-- The exponent that is read from `l`, where `w` was read since `at`.
record ExponentRead (fraction : Bool) (w : Text) (at l : Lexer) (t : Token) (l' : Lexer)
    : Type 0 where
  e : Text
  moves : Moves l e l'
  spells : Exponent fraction t.kind e l'.rest
  lexeme : t.lexeme ≡ number_lexeme t.kind (w ++ e)
  line : t.line ≡ at.line
  column : t.column ≡ at.column

-- The length test of the C++ says whether a digit was read.
no_digits_read :
    (l : Lexer)
    → (length l.rest == length (consume_digits l).rest) ≡ true
    → take_while is_digit_part l.rest ≡ []
no_digits_read l h = nil_of_length (take_while is_digit_part l.rest) (
    ground (
      arith,
      ap (length {0}) (advance_over-Moves is_digit_part l).text,
      length-append (take_while is_digit_part l.rest) (consume_digits l).rest,
    ))

digits_read :
    (l : Lexer)
    → take_while is_digit_part l.rest ≡ []
    → (length l.rest == length (consume_digits l).rest) ≡ true
digits_read l h = ground (
  arith,
  ap (length {0}) (advance_over-Moves is_digit_part l).text,
  ap (length {0}) h,
  length-append (take_while is_digit_part l.rest) (consume_digits l).rest,
)

module _ (at : Lexer) (w : Text) (fraction : Bool) (x : ℕ) (cs : Text) (line column : ℕ)
    (before : Moves at w (cursor (x ∷ cs) line column)) (mark : is_exponent_mark x ≡ true) where
  abbrev start : Lexer
  start = cursor cs (next_line x line) (next_column x column)

  exponent-Read :
      (signed : Lexer)
      → SignRead start signed
      → (r : Token × Lexer)
      → r ≡ (
          let l' = consume_digits signed in
          if length signed.rest == length l'.rest
          then (token_at at error (codes "Invalid exponent"), l')
          else (token_at at float_literal (slice at.rest l'), l'))
      → ExponentRead fraction w at (cursor (x ∷ cs) line column) r.0 r.1
  exponent-Read signed sign r e =
      let l' = consume_digits signed in
      let ds = take_while is_digit_part signed.rest in
      let digits = advance_over-Moves is_digit_part signed in
      let m = Moves-cons x cs line column (Moves-trans sign.moves digits) in
      elim (Bool-cases (length signed.rest == length l'.rest)) [
        | inl h ↦
            let none_read : ds ≡ [] = no_digits_read signed h in
            subst (λ q. ExponentRead fraction w at (cursor (x ∷ cs) line column) q.0 q.1)
              (sym (rw h at e))
              (record {
                e = x ∷ sign.s ++ ds;
                moves = m;
                spells =
                    Exponent.no_digits x sign.s mark
                      (subst (Sign sign.s) (digits.text ∙ ap (λ d. d ++ l'.rest) none_read)
                        sign.spells)
                      (advance_over-stops is_digit_part signed)
                      (ap (λ d. x ∷ sign.s ++ d) none_read ∙ ap (λ v. x ∷ v) (append-nil sign.s));
                lexeme = refl;
                line = refl;
                column = refl;
              })
        | inr h ↦
            subst (λ q. ExponentRead fraction w at (cursor (x ∷ cs) line column) q.0 q.1)
              (sym (rw h at e))
              (record {
                e = x ∷ sign.s ++ ds;
                moves = m;
                spells =
                    Exponent.present x sign.s ds mark (subst (Sign sign.s) digits.text sign.spells)
                      (λ n. cc (digits_read signed n, h)) (all-take_while is_digit_part signed.rest)
                      (advance_over-stops is_digit_part signed) refl;
                lexeme = slice-Moves at _ l' (Moves-trans before m);
                line = refl;
                column = refl;
              })
      ]

module _ (at : Lexer) (w : Text) (fraction : Bool) where
  no_exponent-Read :
      (l : Lexer)
      → Moves at w l
      → is_exponent_mark (peek l) ≡ false
      → ExponentRead fraction w at l
          (token_at at (if fraction then float_literal else integer_literal) (slice at.rest l))
          l
  no_exponent-Read l m h = record {
    e = [];
    moves = Moves-refl l;
    spells = Exponent.absent h refl;
    lexeme =
        elim fraction
          as (λ b.
            slice at.rest l
            ≡ number_lexeme (if b then float_literal else integer_literal) (w ++ [])) [
              | true ↦ slice-Moves at w l m ∙ sym (append-nil w)
              | false ↦ slice-Moves at w l m ∙ sym (append-nil w)
            ];
    line = refl;
    column = refl;
  }

  lex_exponent-Read :
      (s : Text) (line column : ℕ)
      → Moves at w (cursor s line column)
      → ExponentRead fraction w at
          (cursor s line column)
          (lex_exponent at fraction (cursor s line column)).0
          (lex_exponent at fraction (cursor s line column)).1
  unfolding lex_exponent
  lex_exponent-Read [] line column m = no_exponent-Read (cursor [] line column) m refl
  lex_exponent-Read (x ∷ cs) line column m = elim (Bool-cases (is_exponent_mark x)) [
    | inr h ↦ rw h (no_exponent-Read (cursor (x ∷ cs) line column) m h)
    | inl h ↦ rw h (
        exponent-Read at w fraction x cs line column m h _
          (skip_sign-Read cs (next_line x line) (next_column x column)) _ refl)
  ]

-- A number is read from its first digit `c` on.
pub lex_number-Lexed :
    (c : ℕ) (cs : Text) (line column : ℕ)
    → is_digit c ≡ true
    → (let at = cursor (c ∷ cs) line column in
        let r = lex_number at (cursor cs (next_line c line) (next_column c column)) in
        Lexed at r.0 r.1)
unfolding lex_number
lex_number-Lexed c cs line column h =
    let at = cursor (c ∷ cs) line column in
    let l = cursor cs (next_line c line) (next_column c column) in
    let ds = take_while is_digit_part cs in
    let l₁ = consume_digits l in
    let m₁ = Moves-cons c cs line column (advance_over-Moves is_digit_part l) in
    let fr = lex_fraction-Read l₁.rest l₁.line l₁.column in
    let r = lex_fraction l₁ in
    let m₂ = Moves-trans m₁ fr.moves in
    let ex = lex_exponent-Read at (c ∷ ds ++ fr.f) r.0 r.1.rest r.1.line r.1.column m₂ in
    let m = Moves-trans m₂ ex.moves in
    record {
      text = c ∷ (ds ++ fr.f) ++ ex.e;
      moves = m;
      spells =
          Spells.number c ds fr.f ex.e r.0 h (all-take_while is_digit_part cs)
            (subst (λ v. stops is_digit_part v ≡ true)
              (fr.moves.text ∙ ap (λ v. fr.f ++ v) ex.moves.text ∙ sym (append_assoc fr.f ex.e _))
              (advance_over-stops is_digit_part l))
            (subst (Fraction r.0 fr.f) ex.moves.text fr.spells) ex.spells refl ex.lexeme;
      line = ex.line;
      column = ex.column;
      shorter = Moves-shorter at _ c _ m;
    }

-- ===== src/Parser/Expr/Steps.antt =====
-- frontend/src/parser.cpp: how many tokens a step of the parser leaves, and what a run of it that ends
-- leaves, put together from its parts.
use impulse_jit.Ast.{Expressions, SourceLocation, Diagnostic, UnaryOperator}
use impulse_jit.Token.{codes, Text, Token, TokenKind}
use impulse_jit.Parser.Expr.{finish_call, unary_of, expected_expression, P}
use impulse_jit.Parser.{
  is_at_end, peek_in, step_over, peek, report_error, same_kind, binary_precedence, check, consume,
  advance, Parser,
}
use impulse_jit.Base.{
  Bool, [], ◌∷◌, inr, inl, refl, Bool-cases, List, ◌≡◌, Option, length, Run, ok, fault, out_of_fuel,
  ◌>>=◌, ◌≤◌, ◌<◌, arith, ℕ, true, false, none, some,
}

-- The run does not run out of fuel, and where it returns at most `n` tokens are left.
abbrev pub Ends : {A : Type 0} → ℕ → Run (A × Parser) → Type 0
Ends n (ok (_, p)) = length p.rest ≤ n
Ends n fault = Unit
Ends n out_of_fuel = ⊥

pub bind-Ends :
    {A B : Type 0} (m n : ℕ) (r : P A) (k : A × Parser → P B)
    → Ends m r
    → ((a : A) (p : Parser) → length p.rest ≤ m → Ends n (k (a, p)))
    → Ends n (r >>= k)
bind-Ends m n (ok (a, p)) k h next = next a p h
bind-Ends m n fault k h next = tt
bind-Ends m n out_of_fuel k h next = h

pub Ends-le : {A : Type 0} (m n : ℕ) (r : P A) → m ≤ n → Ends m r → Ends n r
Ends-le m n (ok (a, p)) le h = omega arith
Ends-le m n fault le h = tt
Ends-le m n out_of_fuel le h = h

pub advance-le : (p : Parser) → length (advance p).rest ≤ length p.rest
unfolding advance
advance-le p = elim (Bool-cases (is_at_end p)) [
  | inl h ↦ rw h (omega arith)
  | inr h ↦ rw h (over p.previous p.rest p.diagnostics)
]
  where
    over :
        (b : Option Token) (ts : List Token) (ds : List Diagnostic)
        → length (step_over b ts ds).rest ≤ length ts
    over b [] ds = omega arith
    over b (t ∷ ts) ds = omega arith

-- The tokens left behind one step: none is passed at the end of the file.
pub room : Parser → ℕ
unfolding advance
room p = length (advance p).rest

pub advance-room : (p : Parser) → length (advance p).rest ≡ room p
unfolding room
advance-room p = refl

pub room-le : (p : Parser) → room p ≤ length p.rest
room-le p = omega (arith, advance-room p, advance-le p)

-- A step over a token that does not end the file.
pub advance-lt :
    (p : Parser)
    → same_kind (peek p).kind TokenKind.end_of_file ≡ false
    → length (advance p).rest < length p.rest
unfolding advance
advance-lt p h = rw h (over p.previous p.rest p.diagnostics h)
  where
    over :
        (b : Option Token) (ts : List Token) (ds : List Diagnostic)
        → same_kind (peek_in ts).kind TokenKind.end_of_file ≡ false
        → length (step_over b ts ds).rest < length ts
    over b [] ds e = cc
    over b (t ∷ ts) ds e = omega arith

pub advance-check-lt :
    (kind : TokenKind) (p : Parser)
    → check kind p ≡ true
    → same_kind kind TokenKind.end_of_file ≡ false
    → length (advance p).rest < length p.rest
unfolding check
advance-check-lt kind p h e = advance-lt p (ground arith)

pub consume-le :
    (kind : TokenKind) (message : Text) (p : Parser)
    → length (consume kind message p).1.rest ≤ length p.rest
unfolding consume
consume-le kind message p = elim (Bool-cases (check kind p)) [
  | inl h ↦ rw h (advance-le p)
  | inr h ↦ rw h (omega arith)
]

pub report_error-rest :
    (t : Token) (message : Text) (p : Parser) → (report_error t message p).rest ≡ p.rest
unfolding report_error
report_error-rest t message p = refl

pub room_end : (p : Parser) → is_at_end p ≡ true → room p ≡ length p.rest
unfolding room
room_end p h = rw h

pub report_error-room :
    (t : Token) (message : Text) (p : Parser) → room (report_error t message p) ≡ room p
unfolding room report_error
report_error-room t message p = over p.previous p.rest _ p.diagnostics
  where
    over :
        (b : Option Token) (ts : List Token) (ds es : List Diagnostic)
        → length (advance (record { previous = b; rest = ts; diagnostics = ds })).rest
          ≡ length (advance (record { previous = b; rest = ts; diagnostics = es })).rest
    over b [] ds es = refl
    over b (t ∷ ts) ds es = ground arith

pub expected_expression-le : (p : Parser) → length (expected_expression p).rest ≤ room p
expected_expression-le p =
    let p' = report_error (peek p) (codes "Expected expression") p in
    let r = report_error-room (peek p) (codes "Expected expression") p in
    elim (Bool-cases (is_at_end p')) [
      | inl h ↦ rw h (omega (arith, room_end p' h))
      | inr h ↦ rw h (omega (arith, advance-room p'))
    ]

pub binary_precedence-not_end :
    (k : TokenKind) {n : ℕ}
    → binary_precedence k ≡ some n
    → same_kind k TokenKind.end_of_file ≡ false
unfolding binary_precedence same_kind
binary_precedence-not_end TokenKind.end_of_file e = cc
binary_precedence-not_end _ e = refl

pub unary_of-not_end :
    (k : TokenKind) {op : UnaryOperator}
    → unary_of k ≡ some op
    → same_kind k TokenKind.end_of_file ≡ false
unfolding same_kind
unary_of-not_end TokenKind.end_of_file e = cc
unary_of-not_end _ e = refl

pub option-Ends :
    {A B : Type 0} (n : ℕ) (o : Option A) (x : P B) (k : A → P B)
    → Ends n x
    → ((a : A) → Ends n (k a))
    → Ends n (elim o [ none ↦ x | some a ↦ k a ])
option-Ends n none x k h next = h
option-Ends n (some a) x k h next = next a

pub choice-Ends :
    {A : Type 0} (n : ℕ) (b : Bool) (x y : P A)
    → Ends n x
    → Ends n y
    → Ends n (elim b [ true ↦ x | false ↦ y ])
choice-Ends n true x y h k = h
choice-Ends n false x y h k = k

pub finish_call-le :
    (at : SourceLocation) (callee : Text) (xs : Expressions) (r : Option Token × Parser)
    → (finish_call at callee xs r).1.rest ≡ r.1.rest
finish_call-le at callee xs (none, p) = refl
finish_call-le at callee xs (some t, p) = refl

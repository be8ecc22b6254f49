-- ===== src/Parser/Ends.antt =====
-- frontend/src/parser.cpp: rules by which a function of the parser ends, and leaves `n` tokens at
-- most. Each helper keeps a bound that holds before it.
pub mod Statements
pub mod Past
pub mod Declarations
pub mod Structs
pub mod Modules
use impulse_jit.Parser.Statement.{with_expression, required, given}
use impulse_jit.Parser.Expr.Steps.{
  advance-check-lt, room-le, advance-room, advance-le, consume-le, room, Ends, bind-Ends, Ends-le,
}
use impulse_jit.Parser.Expr.Total.{parse_expression-Ends}
use impulse_jit.Ast.{BindingKind, Diagnostic, Expression}
use impulse_jit.Parser.Binding.{
  skip_from, after_initializer, synchronize, parse_binding_decl, skip_until,
}
use impulse_jit.Token.{TokenKind, Token, Text}
use impulse_jit.Parser.Expr.{parse_expression, P}
use impulse_jit.Parser.{same_kind, consume, advance, check, match, report_error, Parser}
use impulse_jit.Base.{
  ◌>>=◌, ℕ, zero, suc, ◌+◌, ◌-◌, ◌*◌, Bool, true, false, not, ◌&&◌, ◌||◌, Option, none, some, List,
  [], ◌∷◌, ◌++◌, ltb, leb, ◌==◌, if◌then◌else◌, length, Run, ok, fault, out_of_fuel, ◌≡◌, ◌≢◌, refl,
  ap, inl, inr, arith, Bool-cases, Option-cases, ◌≤◌, ◌<◌, subst,
}

-- At most `n` tokens are left.
pub record Within (n : ℕ) (p : Parser) : Type 0 where
  pub le : length p.rest ≤ n

-- The run ends, and where it returns at most `n` tokens are left.
pub record Bounded {A : Type 0} (n : ℕ) (r : P A) : Type 0 where
  pub ends : Ends n r

pub within : (n : ℕ) (p : Parser) → length p.rest ≤ n → Within n p
within n p h = record { le = h }

module _ {n : ℕ} where
  pub advance-Within : {p : Parser} → Within n p → Within n (advance p)
  advance-Within {p} h = within n _ (omega (arith, advance-le p, h.le))

  pub consume-Within :
      (kind : TokenKind) (message : Text) {p : Parser}
      → Within n p
      → Within n (consume kind message p).1
  consume-Within kind message {p} h = within n _ (omega (arith, consume-le kind message p, h.le))

  pub match-Within : (kind : TokenKind) {p : Parser} → Within n p → Within n (match kind p).1
  unfolding match
  match-Within kind {p} h = elim (Bool-cases (check kind p)) [
    | inl b ↦ rw b (advance-Within {p = p} h)
    | inr b ↦ rw b h
  ]

  pub report_error-Within :
      (t : Token) (message : Text) {p : Parser} → Within n p → Within n (report_error t message p)
  unfolding report_error
  report_error-Within t message {p} h = within n _ h.le

  pub skip_until-Within :
      (stop : TokenKind → Bool) {p : Parser} → Within n p → Within n (skip_until stop p)
  unfolding skip_until
  skip_until-Within stop {p} h =
      within n _ (omega (arith, go p.previous p.rest p.diagnostics, h.le))
    where
      go :
          (before : Option Token) (ts : List Token) (ds : List Diagnostic)
          → length (skip_from stop before ts ds).rest ≤ length ts
      go before [] ds = omega arith
      go before (t ∷ ts) ds = ground (arith, go (some t) ts ds)

  pub synchronize-Within : {p : Parser} → Within n p → Within n (synchronize p)
  unfolding synchronize
  synchronize-Within h = match-Within _ (skip_until-Within _ h)

  pub ok-Bounded : {A : Type 0} {a : A} {p : Parser} → Within n p → Bounded n (ok (a, p))
  ok-Bounded h = record { ends = h.le }

  pub bind-Bounded :
      {A B : Type 0} {r : P A} (k : A × Parser → P B)
      → Bounded n r
      → ((a : A) (p : Parser) → Within n p → Bounded n (k (a, p)))
      → Bounded n (r >>= k)
  bind-Bounded {r} k h next = record {
    ends = bind-Ends n n r k h.ends (λ a p le. (next a p (within n p le)).ends);
  }

  pub required-Bounded :
      {A : Type 0} (r : Option Token × Parser) {next : Parser → P (Option A)}
      → Within n r.1
      → ((p : Parser) → Within n p → Bounded n (next p))
      → Bounded n (required r next)
  required-Bounded (none, p) h k = ok-Bounded h
  required-Bounded (some t, p) h k = k p h

  pub with_expression-Bounded :
      {A : Type 0} (message : Text) {next : Expression → Parser → P (Option A)}
      (o : Option Expression) {p : Parser}
      → ((e : Expression) (p : Parser) → Within n p → Bounded n (next e p))
      → Within n p
      → Bounded n (with_expression message next (o, p))
  with_expression-Bounded message none k h = ok-Bounded (report_error-Within _ _ h)
  with_expression-Bounded message (some e) {p} k h = k e p h

  pub given-Bounded :
      {A B : Type 0} {next : A → Parser → P (Option B)} (o : Option A) {p : Parser}
      → ((a : A) (p : Parser) → Within n p → Bounded n (next a p))
      → Within n p
      → Bounded n (given next (o, p))
  given-Bounded none k h = ok-Bounded h
  given-Bounded (some a) {p} k h = k a p h

  pub choice-Bounded :
      {A : Type 0} (b : Bool) {x y : P A}
      → Bounded n x
      → Bounded n y
      → Bounded n (elim b [ true ↦ x | false ↦ y ])
  choice-Bounded true h k = h
  choice-Bounded false h k = k

  pub option-Bounded :
      {A B : Type 0} (o : Option A) {x : P B} {k : A → P B}
      → Bounded n x
      → ((a : A) → Bounded n (k a))
      → Bounded n (elim o [ none ↦ x | some a ↦ k a ])
  option-Bounded none h next = h
  option-Bounded (some a) h next = next a

  pub parse_expression-Bounded : {p : Parser} → Within n p → Bounded n (parse_expression p)
  parse_expression-Bounded {p} h = record {
    ends = Ends-le (room p) n _ (omega (arith, room-le p, h.le)) (parse_expression-Ends p);
  }

  -- The first token is consumed.
  pub parse_expression-Bounded_room :
      (p : Parser) → Within n (advance p) → Bounded n (parse_expression p)
  parse_expression-Bounded_room p h = record {
    ends = Ends-le (room p) n _ (omega (arith, advance-room p, h.le)) (parse_expression-Ends p);
  }

  after_initializer-Within :
      (o : Option Expression) {p : Parser} → Within n p → Within n (after_initializer o p)
  after_initializer-Within none h = skip_until-Within _ h
  after_initializer-Within (some e) h = h

  ruleset binding_rules = (consume-Within, bind-Bounded, parse_expression-Bounded, ok-Bounded)

  pub parse_binding_decl-Bounded :
      (kind : BindingKind) (b : Bool) {p : Parser}
      → Within n p
      → Bounded n (parse_binding_decl kind b p)
  unfolding parse_binding_decl
  parse_binding_decl-Bounded kind true h = search (binding_rules, after_initializer-Within) depth 10
  parse_binding_decl-Bounded kind false h =
      search (binding_rules, after_initializer-Within) depth 10

pub Bounded-le : {A : Type 0} {m n : ℕ} {r : P A} → m ≤ n → Bounded m r → Bounded n r
Bounded-le {m} {n} {r} le h = record { ends = Ends-le m n r le h.ends }

abbrev pub IsOrdinary : TokenKind → Type 0
IsOrdinary TokenKind.end_of_file = ⊥
IsOrdinary _ = Unit

not_end : (kind : TokenKind) → IsOrdinary kind → same_kind kind TokenKind.end_of_file ≡ false
unfolding same_kind
not_end TokenKind.end_of_file h = absurd h
not_end _ h = refl

pub step-lt :
    (kind : TokenKind) (p : Parser)
    → IsOrdinary kind
    → check kind p ≡ true
    → length (advance p).rest < length p.rest
step-lt kind p o h = advance-check-lt kind p h (not_end kind o)

-- Between the two runs another bound holds.
pub bind-Bounded_from :
    {A B : Type 0} {m n : ℕ} {r : P A} (k : A × Parser → P B)
    → Bounded m r
    → ((a : A) (p : Parser) → Within m p → Bounded n (k (a, p)))
    → Bounded n (r >>= k)
bind-Bounded_from {m} {n} {r} k h next = record {
  ends = bind-Ends m n r k h.ends (λ a p le. (next a p (within m p le)).ends);
}

pub ruleset bounds = (
  advance-Within, consume-Within, match-Within, report_error-Within, skip_until-Within,
  synchronize-Within, ok-Bounded, bind-Bounded, required-Bounded, with_expression-Bounded,
  given-Bounded, choice-Bounded, option-Bounded, parse_expression-Bounded,
  parse_binding_decl-Bounded,
)

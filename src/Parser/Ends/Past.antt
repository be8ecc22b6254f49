-- ===== src/Parser/Ends/Past.antt =====
-- frontend/src/parser.cpp: the parser between braces, where a field or a method may be in error.
-- `Past` follows it through consumptions of which any may fail.
use impulse_jit.Parser.Declaration.{end_field}
use impulse_jit.Parser.Binding.{skip_until, ends_statement, synchronize}
use impulse_jit.Token.{TokenKind, Token, Text, codes}
use impulse_jit.Ast.{Diagnostic, Parameter}
use impulse_jit.Parser.Expr.{P}
use impulse_jit.Parser.Ends.{
  skip_until-Within, match-Within, synchronize-Within, Bounded, consume-Within, advance-Within,
  report_error-Within, within, Within,
}
use impulse_jit.Parser.Names.{
  rounds, parse_parameter_list, parse_typed_name, parse_optional_name, parameter_loop,
}
use impulse_jit.Parser.Expr.Steps.{advance-room, room}
use impulse_jit.Parser.{same_kind, peek, check, advance, report_error, consume, match, Parser}
use impulse_jit.Base.{
  ◌∙◌, sym, ◌>>=◌, ℕ, zero, suc, false, ◌||◌, Option, some, List, [], ◌∷◌, length, ok, fault,
  out_of_fuel, ◌≡◌, refl, inl, inr, arith, Bool-cases, ◌≤◌, subst,
}

pub Within_self : (p : Parser) → Within (length p.rest) p
Within_self p = within _ p (omega arith)

pub Within-le : {m n : ℕ} {p : Parser} → m ≤ n → Within m p → Within n p
Within-le {n} {p} h w = within n p (omega (arith, w.le))

-- How far `advance` goes is told by the tokens that are left.
advance_of_rest : (p q : Parser) → q.rest ≡ p.rest → length (advance q).rest ≡ room p
unfolding advance
advance_of_rest p q e =
    subst (λ ts. length (moved_to q ts).rest ≡ room p) (sym e)
      (over q.previous p.previous p.rest q.diagnostics p.diagnostics ∙ advance-room p)
  where
    moved_to : Parser → List Token → Parser
    moved_to q ts =
        advance (record { previous = q.previous; rest = ts; diagnostics = q.diagnostics })

    over :
        (b c : Option Token) (ts : List Token) (ds es : List Diagnostic)
        → length (advance (record { previous = b; rest = ts; diagnostics = ds })).rest
          ≡ length (advance (record { previous = c; rest = ts; diagnostics = es })).rest
    over b c [] ds es = refl
    over b c (t ∷ ts) ds es = ground arith

-- From `p` the parser came to `q`, where no token is consumed or one is at least.
pub data Past (p q : Parser) : Type 0 where
  stays : q.rest ≡ p.rest → Past p q
  moved : Within (room p) q → Past p q

module _ {p₀ : Parser} where
  advance-moved : (p : Parser) → Past p₀ p → Within (room p₀) (advance p)
  advance-moved p (stays e) = within _ _ (omega (arith, advance_of_rest p₀ p e))
  advance-moved p (moved w) = advance-Within w

  report_error-Past :
      (t : Token) (message : Text) (p : Parser) → Past p₀ p → Past p₀ (report_error t message p)
  unfolding report_error
  report_error-Past t message p (stays e) = stays e
  report_error-Past t message p (moved w) = moved (report_error-Within t message w)

  pub consume-Past :
      (kind : TokenKind) (message : Text) (p : Parser)
      → Past p₀ p
      → Past p₀ (consume kind message p).1
  unfolding consume
  consume-Past kind message p h = elim (Bool-cases (check kind p)) [
    | inl b ↦ rw b (moved (advance-moved p h))
    | inr b ↦ rw b (report_error-Past (peek p) message p h)
  ]

  pub match-Past : (kind : TokenKind) (p : Parser) → Past p₀ p → Past p₀ (match kind p).1
  unfolding match
  match-Past kind p h = elim (Bool-cases (check kind p)) [
    | inl b ↦ rw b (moved (advance-moved p h))
    | inr b ↦ rw b h
  ]

  pub optional_name-Past :
      (kind : TokenKind) (message : Text) (p : Parser)
      → Past p₀ p
      → Past p₀ (parse_optional_name kind message p).1
  unfolding parse_optional_name
  optional_name-Past kind message p h = elim (Bool-cases (check kind p)) [
    | inl b ↦ rw (b, parse_optional_name) (moved (consume-Within _ _ (advance-moved p h)))
    | inr b ↦ rw (b, parse_optional_name) h
  ]

  pub typed_name-Past :
      (a b c : Text) (p : Parser) → Past p₀ p → Past p₀ (parse_typed_name a b c p).2
  unfolding parse_typed_name
  typed_name-Past a b c p h = consume-Past _ _ _ (consume-Past _ _ _ (consume-Past _ _ _ h))

-- Where the run returns, `Past p` holds.
abbrev pub Leaves : {A : Type 0} → Parser → P A → Type 0
Leaves p (ok (_, q)) = Past p q
Leaves p fault = Unit
Leaves p out_of_fuel = Unit

parameter_loop-Leaves :
    (f : ℕ) (p₀ : Parser) (ps : List Parameter) (p : Parser)
    → Past p₀ p
    → Leaves p₀ (parameter_loop f ps p)
unfolding parameter_loop
parameter_loop-Leaves zero p₀ ps p h = tt
parameter_loop-Leaves (suc f) p₀ ps p h =
    let after =
      typed_name-Past (codes "Expected parameter name") (codes "Expected ':' after parameter name")
        (codes "Expected parameter type") p h in
    let p₁ =
      (parse_typed_name (codes "Expected parameter name")
        (codes "Expected ':' after parameter name") (codes "Expected parameter type") p).2 in
    elim (Bool-cases (check TokenKind.comma p₁)) [
      | inr b ↦ rw (b, parameter_loop) after
      | inl b ↦ elim (Bool-cases (check TokenKind.r_paren (advance p₁))) [
        | inl c ↦ rw (b, parameter_loop, c) (moved (advance-moved p₁ after))
        | inr c ↦
            rw (b, parameter_loop, c)
              (parameter_loop-Leaves f p₀ _ (advance p₁) (moved (advance-moved p₁ after)))
      ]
    ]

pub parse_parameter_list-Leaves : (p₀ p : Parser) → Past p₀ p → Leaves p₀ (parse_parameter_list p)
unfolding parse_parameter_list
parse_parameter_list-Leaves p₀ p h = elim (Bool-cases (check TokenKind.r_paren p)) [
  | inl b ↦ rw (b, parse_parameter_list) h
  | inr b ↦ rw (b, parse_parameter_list) (parameter_loop-Leaves (rounds p) p₀ [] p h)
]

pub bind-Bounded-Past :
    {A B : Type 0} {m n : ℕ} {p : Parser} {r : P A} (k : A × Parser → P B)
    → Bounded m r
    → Leaves p r
    → ((a : A) (q : Parser) → Past p q → Bounded n (k (a, q)))
    → Bounded n (r >>= k)
bind-Bounded-Past {r = ok (a, q)} k h past next = next a q past
bind-Bounded-Past {r = fault} k h past next = record { ends = tt }
bind-Bounded-Past {r = out_of_fuel} k h past next = absurd h.ends

-- A declaration between braces goes on at `p`.
abbrev pub GoesOn : Parser → Type 0
GoesOn p = (check TokenKind.r_brace p || check TokenKind.end_of_file p) ≡ false

abbrev with_rest : Parser → List Token → Parser
with_rest p ts = record { previous = p.previous; rest = ts; diagnostics = p.diagnostics }

ends_statement_cases :
    (k : TokenKind)
    → same_kind k TokenKind.semicolon ≡ false
    → same_kind k TokenKind.r_brace ≡ false
    → same_kind k TokenKind.end_of_file ≡ false
    → ends_statement k ≡ false
unfolding same_kind
ends_statement_cases TokenKind.semicolon a b c = cc
ends_statement_cases TokenKind.r_brace a b c = cc
ends_statement_cases TokenKind.end_of_file a b c = cc
ends_statement_cases _ a b c = refl

-- The first token is not one at which the skipping stops.
skips_first :
    (p q : Parser) (t : Token) (ts : List Token)
    → GoesOn (with_rest p (t ∷ ts))
    → check TokenKind.semicolon (with_rest q (t ∷ ts)) ≡ false
    → (ends_statement t.kind ≡ false) × (length ts ≤ length (advance (with_rest p (t ∷ ts))).rest)
unfolding check advance
skips_first p q t ts g s =
    (ends_statement_cases t.kind (ground arith) (ground arith) (ground arith), ground arith)

synchronize-moves :
    (p q : Parser)
    → GoesOn p
    → check TokenKind.semicolon q ≡ false
    → q.rest ≡ p.rest
    → Within (room p) (synchronize q)
unfolding synchronize skip_until check
synchronize-moves p q g s e =
    subst (λ ts. Within (room p) (synchronize (with_rest q ts))) (sym e)
      (go p.rest refl g (subst (λ ts. check TokenKind.semicolon (with_rest q ts) ≡ false) e s))
  where
    go :
        (ts : List Token)
        → p.rest ≡ ts
        → GoesOn (with_rest p ts)
        → check TokenKind.semicolon (with_rest q ts) ≡ false
        → Within (room p) (synchronize (with_rest q ts))
    go [] same g s = cc
    go (t ∷ ts) same g s =
        let (on, le) = skips_first p q t ts g s in
        let behind : Parser = record {
          previous = some t;
          rest = ts;
          diagnostics = q.diagnostics;
        } in
        let same_room = advance_of_rest p (with_rest p (t ∷ ts)) (sym same) in
        rw (on, synchronize, skip_until)
          (match-Within TokenKind.semicolon
            (skip_until-Within ends_statement {p = behind} (within (room p) behind (omega arith))))

pub end_field-moves :
    (message : Text) (p q : Parser)
    → GoesOn p
    → Past p q
    → Within (room p) (end_field (consume TokenKind.semicolon message q))
unfolding consume
end_field-moves message p q g h = elim (Bool-cases (check TokenKind.semicolon q)) [
  | inl b ↦ rw b (advance-moved q h)
  | inr b ↦ rw b (go b h)
]
  where
    go :
        check TokenKind.semicolon q ≡ false
        → Past p q
        → Within (room p) (synchronize (report_error (peek q) message q))
    go b (moved w) = synchronize-Within (report_error-Within (peek q) message w)
    go b (stays e) = synchronize-moves p (report_error (peek q) message q) g b e

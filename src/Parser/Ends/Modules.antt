-- ===== src/Parser/Ends/Modules.antt =====
-- frontend/src/parser.cpp: how functions, declarations and `parseModule` end.
use impulse_jit.Parser.Expr.Steps.{advance-room, room, advance-lt}
use impulse_jit.Parser.Ends.Statements.{statement-Bounded}
use impulse_jit.Lexer.Sound.{tokenize-Lexes}
use impulse_jit.Parser.Ends.Past.{Within_self}
use impulse_jit.Parser.Statement.{parse_statement, append_statement, binding_keyword}
use impulse_jit.Parser.Expr.{P}
use impulse_jit.Parser.Ends.Structs.{
  parse_interface_decl-Bounded, parse_struct_decl-Bounded, GoesOn-lt,
}
use impulse_jit.Parser.Names.{rounds}
use impulse_jit.Parser.Ends.Declarations.{
  parse_import_list-Bounded, parse_module_decl-Bounded, optional_name-Within,
  parse_parameter_list-Bounded,
}
use impulse_jit.Parser.Ends.{
  Bounded-le, report_error-Within, synchronize-Within, option-Bounded, parse_binding_decl-Bounded,
  bind-Bounded_from, within, advance-Within, consume-Within, ok-Bounded, bind-Bounded, Bounded,
  Within,
}
use impulse_jit.Parser.{previous, report_error, is_at_end, peek, advance, match, check, Parser}
use impulse_jit.Ast.{Declaration, Statements}
use impulse_jit.Token.{codes, Text, TokenKind, Token}
use impulse_jit.Parser.Module.{
  statement_fuel, declared, parse_module, parse_declaration, reject_declaration, declaration_behind,
  parse_source, declaration_loop, body_behind, function_loop, parse_function_decl,
}
use impulse_jit.Base.{
  ◌>>=◌, ℕ, zero, suc, Bool, true, false, ◌||◌, Option, none, some, List, [], ◌∷◌, ◌++◌,
  if◌then◌else◌, length, Run, ok, fault, out_of_fuel, ◌≢◌, inl, inr, arith, Bool-cases,
  Option-cases, ◌<◌,
}

-- On the fuel that a function body gives it, parse_statement ends in every state of the parser,
-- and where it returns, it has consumed a token, unless it stood at the end of the file.
pub parse_statement-moves : (p : Parser) → Bounded (room p) (parse_statement (statement_fuel p) p)
parse_statement-moves p =
    statement-Bounded (statement_fuel p) (room p) p (omega arith) (omega arith)
      (within (room p) (advance p) (omega (arith, advance-room p)))

function_loop-Bounded :
    (f n : ℕ) (body : Statements) (p : Parser)
    → length p.rest < f
    → Within n p
    → Bounded n (function_loop f body p)
unfolding function_loop
function_loop-Bounded zero n body p h k = absurd (omega arith)
function_loop-Bounded (suc f) n body p h k =
    elim (Bool-cases (check TokenKind.r_brace p || check TokenKind.end_of_file p)) [
      | inl b ↦ rw (b, function_loop) (ok-Bounded k)
      | inr b ↦
          let less = GoesOn-lt p b in
          let same = advance-room p in
          let again : (body : Statements) (q : Parser)
              → Within (room p) q
              → Bounded n (function_loop f body q) =
            λ body q w.
              function_loop-Bounded f n body q (omega (arith, w.le))
                (within n q (omega (arith, w.le, k.le))) in
          rw (b, function_loop)
            (bind-Bounded_from _ (parse_statement-moves p) λ statement q w.
              option-Bounded statement (again body _ (synchronize-Within w))
                (λ s. again (append_statement body s) q w))
    ]

body_behind-Bounded :
    {n : ℕ} (opening : Option Token) {p : Parser} → Within n p → Bounded n (body_behind opening p)
unfolding body_behind
body_behind-Bounded none h = ok-Bounded h
body_behind-Bounded (some t) {p} h = function_loop-Bounded (rounds p) _ _ p (omega arith) h

ruleset function_rules = (consume-Within, bind-Bounded, ok-Bounded)

parse_function_decl-Bounded : {n : ℕ} {p : Parser} → Within n p → Bounded n (parse_function_decl p)
unfolding parse_function_decl
parse_function_decl-Bounded h =
    search (function_rules, parse_parameter_list-Bounded, body_behind-Bounded, optional_name-Within)
      depth 12

-- The run ends: with a declaration at most `m` tokens are left, without one at most `n`.
abbrev Declares : ℕ → ℕ → P (Option Declaration) → Type 0
Declares m n (ok (some d, p)) = Within m p
Declares m n (ok (none, p)) = Within n p
Declares m n fault = Unit
Declares m n out_of_fuel = ⊥

declared-Declares :
    {A : Type 0} (m n : ℕ) (wrap : A → Declaration) (r : P A)
    → Bounded m r
    → Declares m n (r >>= declared wrap)
declared-Declares m n wrap (ok (a, p)) h = within m p h.ends
declared-Declares m n wrap fault h = tt
declared-Declares m n wrap out_of_fuel h = h.ends

reject_declaration-Declares :
    (m n : ℕ) (exported : Bool) (p : Parser)
    → Within n p
    → Declares m n (reject_declaration exported p)
unfolding reject_declaration
reject_declaration-Declares m n exported p h = elim (Bool-cases (check TokenKind.end_of_file p)) [
  | inl b ↦ rw (b, reject_declaration) h
  | inr b ↦ rw (b, reject_declaration) (report_error-Within _ _ (first exported))
]
  where
    first :
        (e : Bool)
        → Within n (
            if e
            then report_error (previous p) (codes "Expected declaration after 'export'") p
            else p)
    first true = report_error-Within (previous p) _ h
    first false = h

declaration_behind-Declares :
    (m n : ℕ) (exported : Bool) (p : Parser)
    → Within m (advance p)
    → Within n p
    → Declares m n (declaration_behind exported p)
unfolding declaration_behind
declaration_behind-Declares m n exported p w h =
    elim (Option-cases (binding_keyword (peek p).kind)) [
      | inr (kind, b) ↦
          rw (b, declaration_behind)
            (declared-Declares m n _ _ (parse_binding_decl-Bounded kind true w))
      | inl b ↦ elim (Bool-cases (check TokenKind.kw_func p)) [
        | inl c ↦
            rw (b, declaration_behind, c)
              (declared-Declares m n _ _ (parse_function_decl-Bounded w))
        | inr c ↦ elim (Bool-cases (check TokenKind.kw_struct p)) [
          | inl d ↦
              rw (b, declaration_behind, c, d)
                (declared-Declares m n _ _ (parse_struct_decl-Bounded w))
          | inr d ↦ elim (Bool-cases (check TokenKind.kw_interface p)) [
            | inl e ↦
                rw (b, declaration_behind, c, d, e)
                  (declared-Declares m n _ _ (parse_interface_decl-Bounded w))
            | inr e ↦
                rw (b, declaration_behind, c, d, e) (reject_declaration-Declares m n exported p h)
          ]
        ]
      ]
    ]

parse_declaration-Declares :
    (p : Parser) → Declares (length (advance p).rest) (length p.rest) (parse_declaration p)
unfolding parse_declaration match
parse_declaration-Declares p = elim (Bool-cases (check TokenKind.kw_export p)) [
  | inl b ↦
      rw (b, parse_declaration)
        (declaration_behind-Declares _ _ true (advance p) (advance-Within (Within_self (advance p)))
          (advance-Within (Within_self p)))
  | inr b ↦
      rw (b, parse_declaration)
        (declaration_behind-Declares _ _ false p (Within_self (advance p)) (Within_self p))
]

bind-Declares :
    {A : Type 0} {m n : ℕ} (r : P (Option Declaration)) (stop : Parser → P A)
    (go : Declaration → Parser → P A)
    → Declares m n r
    → ((p : Parser) → Within n p → Bounded n (stop p))
    → ((d : Declaration) (p : Parser) → Within m p → Bounded n (go d p))
    → Bounded n (r >>= λ (one, p). elim one [ none ↦ stop p | some d ↦ go d p ])
bind-Declares (ok (some d, p)) stop go h without found = found d p h
bind-Declares (ok (none, p)) stop go h without found = without p h
bind-Declares fault stop go h without found = record { ends = tt }
bind-Declares out_of_fuel stop go h without found = absurd h

declaration_loop-Bounded :
    (f n : ℕ) (ds : List Declaration) (p : Parser)
    → length p.rest < f
    → Within n p
    → Bounded n (declaration_loop f ds p)
unfolding declaration_loop
declaration_loop-Bounded zero n ds p h k = absurd (omega arith)
declaration_loop-Bounded (suc f) n ds p h k = elim (Bool-cases (is_at_end p)) [
  | inl b ↦ rw (b, declaration_loop) (ok-Bounded k)
  | inr b ↦
      let less = advance-lt p b in
      rw (b, declaration_loop)
        (Bounded-le k.le (
          bind-Declares (parse_declaration p) (λ q. ok (ds, q))
            (λ d q. declaration_loop f (ds ++ d ∷ []) q) (parse_declaration-Declares p)
            (λ q w. ok-Bounded w)
            (λ d q w.
              declaration_loop-Bounded f _ _ q (omega (arith, w.le))
                (within _ q (omega (arith, w.le))))))
]

bind-not_out_of_fuel :
    {A B : Type 0} {n : ℕ} (r : P A) (k : A × Parser → Run B)
    → Bounded n r
    → ((a : A) (p : Parser) → k (a, p) ≢ out_of_fuel)
    → (r >>= k) ≢ out_of_fuel
bind-not_out_of_fuel (ok (a, p)) k h next e = next a p e
bind-not_out_of_fuel fault k h next e = cc
bind-not_out_of_fuel out_of_fuel k h next e = h.ends

parse_module_ends : (ts : List Token) → parse_module ts ≢ out_of_fuel
unfolding parse_module
parse_module_ends [] = λ e. cc
parse_module_ends (t ∷ ts) =
    bind-not_out_of_fuel _ _ (parse_module_decl-Bounded (Within_self _)) λ decl p₁.
      bind-not_out_of_fuel _ _ (parse_import_list-Bounded (Within_self p₁)) λ imports p₂.
        bind-not_out_of_fuel _ _
          (declaration_loop-Bounded (rounds p₂) (length p₂.rest) [] p₂ (omega arith)
            (Within_self p₂))
          λ ds p₃ e. cc

-- On every source text the front end ends: the lexer gives tokens, and no loop or recursion of
-- the parser on them runs out of the fuel that it starts with.
pub parse_source_ends : (source : Text) → parse_source source ≢ out_of_fuel
unfolding parse_source
parse_source_ends source = let (ts, run, _) = tokenize-Lexes source in rw run (parse_module_ends ts)

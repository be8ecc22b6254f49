-- ===== src/Parser/Ends/Declarations.antt =====
-- frontend/src/parser.cpp: how the loops over paths, imports and parameters end.
use impulse_jit.Parser.Ends.Past.{Within_self}
use impulse_jit.Parser.Declaration.{end_field}
use impulse_jit.Parser.Ends.{
  bind-Bounded_from, within, bounds, step-lt, report_error-Within, ok-Bounded, advance-Within,
  synchronize-Within, bind-Bounded, Bounded, consume-Within, Within,
}
use impulse_jit.Ast.{Identifier, Parameter, ImportDecl}
use impulse_jit.Parser.{advance, consume, check, Parser}
use impulse_jit.Token.{codes, TokenKind, Token, Text}
use impulse_jit.Parser.Names.{
  rounds, reject_empty, parse_optional_name, parse_path, import_list_loop, parse_import_list,
  parameter_loop, parse_module_decl, parse_parameter_list, path_loop, parse_typed_name,
}
use impulse_jit.Base.{
  ℕ, zero, suc, Option, none, some, List, [], ◌∷◌, length, inl, inr, arith, Bool-cases,
  Option-cases, ◌<◌,
}

module _ {n : ℕ} where
  pub optional_name-Within :
      (kind : TokenKind) (message : Text) {p : Parser}
      → Within n p
      → Within n (parse_optional_name kind message p).1
  unfolding parse_optional_name
  optional_name-Within kind message {p} h = elim (Bool-cases (check kind p)) [
    | inl b ↦ rw (b, parse_optional_name) (consume-Within _ _ (advance-Within h))
    | inr b ↦ rw (b, parse_optional_name) h
  ]

  typed_name-Within :
      (a b c : Text) {p : Parser} → Within n p → Within n (parse_typed_name a b c p).2
  unfolding parse_typed_name
  typed_name-Within a b c h = consume-Within _ _ (consume-Within _ _ (consume-Within _ _ h))

  end_field-Within : (r : Option Token × Parser) → Within n r.1 → Within n (end_field r)
  end_field-Within (some t, p) h = h
  end_field-Within (none, p) h = synchronize-Within h

  reject_empty-Bounded :
      (context : Text) (path : List Identifier) {p : Parser}
      → Within n p
      → Bounded n (reject_empty context (path, p))
  reject_empty-Bounded context [] h = ok-Bounded (report_error-Within _ _ h)
  reject_empty-Bounded context (x ∷ path) h = ok-Bounded h

path_loop-Bounded :
    (f n : ℕ) (path : List Identifier) (p : Parser)
    → length p.rest < f
    → Within n p
    → Bounded n (path_loop f path p)
unfolding path_loop
path_loop-Bounded zero n path p h k = absurd (omega arith)
path_loop-Bounded (suc f) n path p h k = elim (Bool-cases (check TokenKind.double_colon p)) [
  | inr b ↦ rw (b, path_loop) (ok-Bounded k)
  | inl b ↦
      let less = step-lt TokenKind.double_colon p tt b in
      let message = codes "Expected identifier after '::'" in
      let p₁ = (consume TokenKind.identifier message (advance p)).1 in
      let w : Within (length (advance p).rest) p₁ = consume-Within _ _ (Within_self (advance p)) in
      rw (b, path_loop)
        (path_loop-Bounded f n _ p₁ (omega (arith, w.le)) (within n p₁ (omega (arith, w.le, k.le))))
]

parse_path-Bounded :
    {n : ℕ} (context : Text) {p : Parser} → Within n p → Bounded n (parse_path context p)
unfolding parse_path
parse_path-Bounded context h =
    bind-Bounded _ (path_loop-Bounded _ _ _ _ (omega arith) (consume-Within _ _ h))
      λ path p k. reject_empty-Bounded context path k

pub parse_module_decl-Bounded : {n : ℕ} {p : Parser} → Within n p → Bounded n (parse_module_decl p)
unfolding parse_module_decl
parse_module_decl-Bounded {p} h =
    let message = codes "Expected 'module' declaration" in
    elim (Option-cases (consume TokenKind.kw_module message p).0) [
      | inl e ↦ rw (e, parse_module_decl) (ok-Bounded (consume-Within _ _ h))
      | inr (t, e) ↦ rw (e, parse_module_decl) (search (bounds, parse_path-Bounded))
    ]

import_list_loop-Bounded :
    (f n : ℕ) (imports : List ImportDecl) (p : Parser)
    → length p.rest < f
    → Within n p
    → Bounded n (import_list_loop f imports p)
unfolding import_list_loop
import_list_loop-Bounded zero n imports p h k = absurd (omega arith)
import_list_loop-Bounded (suc f) n imports p h k = elim (Bool-cases (check TokenKind.kw_import p)) [
  | inr b ↦ rw (b, import_list_loop) (ok-Bounded k)
  | inl b ↦
      let less = step-lt TokenKind.kw_import p tt b in
      let rest : (imports : List ImportDecl) (q : Parser)
          → Within (length (advance p).rest) q
          → Bounded n (import_list_loop f imports q) =
        λ imports q w.
          import_list_loop-Bounded f n imports q (omega (arith, w.le))
            (within n q (omega (arith, w.le, k.le))) in
      rw (b, import_list_loop)
        (bind-Bounded_from _ (parse_path-Bounded _ (Within_self (advance p)))
          λ path p₁ w. rest _ _ (consume-Within _ _ (optional_name-Within _ _ w)))
]

pub parse_import_list-Bounded : {n : ℕ} {p : Parser} → Within n p → Bounded n (parse_import_list p)
unfolding parse_import_list
parse_import_list-Bounded {p} h = import_list_loop-Bounded (rounds p) _ [] p (omega arith) h

parameter_loop-Bounded :
    (f n : ℕ) (ps : List Parameter) (p : Parser)
    → length p.rest < f
    → Within n p
    → Bounded n (parameter_loop f ps p)
unfolding parameter_loop
parameter_loop-Bounded zero n ps p h k = absurd (omega arith)
parameter_loop-Bounded (suc f) n ps p h k =
    let p₁ =
      (parse_typed_name (codes "Expected parameter name")
        (codes "Expected ':' after parameter name") (codes "Expected parameter type") p).2 in
    let w : Within (length p.rest) p₁ = typed_name-Within _ _ _ (Within_self p) in
    let v : Within n p₁ = within n p₁ (omega (arith, w.le, k.le)) in
    elim (Bool-cases (check TokenKind.comma p₁)) [
      | inr b ↦ rw (b, parameter_loop) (ok-Bounded v)
      | inl b ↦
          let less = step-lt TokenKind.comma p₁ tt b in
          elim (Bool-cases (check TokenKind.r_paren (advance p₁))) [
            | inl c ↦ rw (b, parameter_loop, c) (ok-Bounded (advance-Within v))
            | inr c ↦
                rw (b, parameter_loop, c)
                  (parameter_loop-Bounded f n _ (advance p₁) (omega (arith, w.le))
                    (advance-Within v))
          ]
    ]

pub parse_parameter_list-Bounded :
    {n : ℕ} (p : Parser) → Within n p → Bounded n (parse_parameter_list p)
unfolding parse_parameter_list
parse_parameter_list-Bounded p h = elim (Bool-cases (check TokenKind.r_paren p)) [
  | inl b ↦ rw (b, parse_parameter_list) (ok-Bounded h)
  | inr b ↦ rw (b, parse_parameter_list) (parameter_loop-Bounded (rounds p) _ [] p (omega arith) h)
]

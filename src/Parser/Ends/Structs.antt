-- ===== src/Parser/Ends/Structs.antt =====
-- frontend/src/parser.cpp: how the loops over fields and methods end.
use impulse_jit.Parser.Ends.Declarations.{parse_parameter_list-Bounded}
use impulse_jit.Token.{TokenKind}
use impulse_jit.Parser.Expr.Steps.{advance-room, advance-lt, room}
use impulse_jit.Ast.{InterfaceMethod, FieldDecl}
use impulse_jit.Parser.Ends.{
  within, bind-Bounded_from, ok-Bounded, consume-Within, bind-Bounded, advance-Within, Bounded,
  Within,
}
use impulse_jit.Parser.Ends.Past.{
  optional_name-Past, match-Past, consume-Past, parse_parameter_list-Leaves, stays, Within_self,
  typed_name-Past, bind-Bounded-Past, end_field-moves, GoesOn,
}
use impulse_jit.Parser.Declaration.{
  method_loop, parse_struct_decl, parse_field_decl, field_loop, parse_interface_method,
  parse_interface_decl,
}
use impulse_jit.Parser.{advance, Parser, check}
use impulse_jit.Base.{
  ℕ, zero, suc, Bool, true, false, ◌||◌, List, if◌then◌else◌, length, refl, inl, inr, arith,
  Bool-cases, ◌<◌,
}

pub GoesOn-lt : (p : Parser) → GoesOn p → length (advance p).rest < length p.rest
unfolding check
GoesOn-lt p g = advance-lt p (ground arith)

maybe_advance-Within :
    {n : ℕ} (b : Bool) {p : Parser} → Within n p → Within n (if b then advance p else p)
maybe_advance-Within true h = advance-Within h
maybe_advance-Within false h = h

-- Where neither a closing brace nor the end of the file is next, parse_field_decl consumes a
-- token, whatever of the field is missing.
pub parse_field_decl-moves : (p : Parser) → GoesOn p → Within (room p) (parse_field_decl p).1
unfolding parse_field_decl
parse_field_decl-moves p g =
    maybe_advance-Within _ (end_field-moves _ p _ g (typed_name-Past _ _ _ p (stays refl)))

field_loop-Bounded :
    (f n : ℕ) (fields : List FieldDecl) (p : Parser)
    → length p.rest < f
    → Within n p
    → Bounded n (field_loop f fields p)
unfolding field_loop
field_loop-Bounded zero n fields p h k = absurd (omega arith)
field_loop-Bounded (suc f) n fields p h k =
    elim (Bool-cases (check TokenKind.r_brace p || check TokenKind.end_of_file p)) [
      | inl b ↦ rw (b, field_loop) (ok-Bounded k)
      | inr b ↦
          let less = GoesOn-lt p b in
          let same = advance-room p in
          let w = parse_field_decl-moves p b in
          rw (b, field_loop)
            (field_loop-Bounded f n _ (parse_field_decl p).1 (omega (arith, w.le))
              (within n (parse_field_decl p).1 (omega (arith, w.le, k.le))))
    ]

pub parse_struct_decl-Bounded : {n : ℕ} {p : Parser} → Within n p → Bounded n (parse_struct_decl p)
unfolding parse_struct_decl
parse_struct_decl-Bounded h =
    bind-Bounded _
      (field_loop-Bounded _ _ _ _ (omega arith) (consume-Within _ _ (consume-Within _ _ h)))
      λ fields p k. ok-Bounded (consume-Within _ _ k)

-- Where neither a closing brace nor the end of the file is next, parse_interface_method ends,
-- and where it returns, it has consumed a token, whatever of the method is missing.
pub parse_interface_method-moves :
    (p : Parser) → GoesOn p → Bounded (room p) (parse_interface_method p)
unfolding parse_interface_method
parse_interface_method-moves p g =
    bind-Bounded-Past _ (parse_parameter_list-Bounded _ (Within_self _))
      (parse_parameter_list-Leaves p _
        (consume-Past _ _ _ (consume-Past _ _ _ (match-Past _ _ (stays refl)))))
      λ parameters q past.
        ok-Bounded (end_field-moves _ p _ g (optional_name-Past _ _ _ (consume-Past _ _ _ past)))

method_loop-Bounded :
    (f n : ℕ) (methods : List InterfaceMethod) (p : Parser)
    → length p.rest < f
    → Within n p
    → Bounded n (method_loop f methods p)
unfolding method_loop
method_loop-Bounded zero n methods p h k = absurd (omega arith)
method_loop-Bounded (suc f) n methods p h k =
    elim (Bool-cases (check TokenKind.r_brace p || check TokenKind.end_of_file p)) [
      | inl b ↦ rw (b, method_loop) (ok-Bounded k)
      | inr b ↦
          let less = GoesOn-lt p b in
          let same = advance-room p in
          rw (b, method_loop)
            (bind-Bounded_from _ (parse_interface_method-moves p b) λ one q w.
              method_loop-Bounded f n _ q (omega (arith, w.le))
                (within n q (omega (arith, w.le, k.le))))
    ]

pub parse_interface_decl-Bounded :
    {n : ℕ} {p : Parser} → Within n p → Bounded n (parse_interface_decl p)
unfolding parse_interface_decl
parse_interface_decl-Bounded h =
    bind-Bounded _
      (method_loop-Bounded _ _ _ _ (omega arith) (consume-Within _ _ (consume-Within _ _ h)))
      λ methods p k. ok-Bounded (consume-Within _ _ k)

-- ===== src/Lowering/Labels/Shapes.antt =====
-- frontend/src/lowering.cpp: the labels of the shapes of code that its statements have.
use impulse_jit.Token.{Text}
use impulse_jit.Ast.{Expression}
use impulse_jit.Ir.{Instruction}
use impulse_jit.Lowering.{
  branch_instruction, branch_if_zero, lower_expression_to_stack, label_text, label_instruction,
  emit_scope_drops, ScopeLocal,
}
use impulse_jit.Lowering.Labels.{
  OnceIn, label_count, label_count-append, HasLabels, label_text-==, bit, is_label,
}
use impulse_jit.Base.{ℕ, suc, ◌+◌, false, List, [], ◌∷◌, ◌++◌, ◌==◌, ◌≡◌, refl, arith, ◌≤◌}
use impulse_jit.Lowering.Labels.Code.{
  NoLabels, NoLabels-nil, lower_expression-NoLabels, emit_scope_drops-NoLabels,
}

label_count-label :
    (k n : ℕ) (code : List Instruction)
    → label_count (label_text k) (label_instruction (label_text n) ∷ code)
      ≡ bit (k == n) + label_count (label_text k) code
unfolding label_count
label_count-label k n code = rw (label_count, label_text-== k n) refl

label_count-plain :
    (x : Text) (inst : Instruction) (code : List Instruction)
    → is_label x inst.kind inst.operands ≡ false
    → label_count x (inst ∷ code) ≡ label_count x code
unfolding label_count
label_count-plain x inst code h =
    let e : 0 + label_count x code ≡ label_count x code = omega arith in rw (label_count, h) e

pub HasLabels-scope :
    (n m : ℕ) (code : List Instruction) (locals : List ScopeLocal)
    → HasLabels n m code
    → HasLabels n m (code ++ emit_scope_drops locals)
HasLabels-scope n m code locals h = (
  h.0,
  λ k.
      let e = label_count-append (label_text k) code (emit_scope_drops locals) in
      let z = emit_scope_drops-NoLabels locals (label_text k) in
      let p = h.1 k in (omega arith, λ l. omega arith, λ l. omega arith),
)

OnceIn-add :
    (n m p k a b : ℕ) → n ≤ m → m ≤ p → OnceIn n m k a → OnceIn m p k b → OnceIn n p k (a + b)
OnceIn-add n m p k a b l l' h h' = ground arith

-- Two labels of its own around the labels of a body.
OnceIn-around :
    (n m k a : ℕ)
    → n + 2 ≤ m
    → OnceIn (n + 2) m k a
    → OnceIn n m k (bit (k == n) + (a + bit (k == suc n)))
OnceIn-around n m k a l h = ground arith

OnceIn-three :
    (n m k a : ℕ)
    → n + 3 ≤ m
    → OnceIn (n + 3) m k a
    → OnceIn n m k (bit (k == n) + (a + (bit (k == suc (suc n)) + bit (k == suc n))))
OnceIn-three n m k a l h = ground arith

OnceIn-before : (n m k a : ℕ) → n + 2 ≤ m → OnceIn (n + 2) m k a → OnceIn n m k (a + bit (k == n))
OnceIn-before n m k a l h = ground arith

OnceIn-between :
    (n m p k a b : ℕ)
    → n + 2 ≤ m
    → m ≤ p
    → OnceIn (n + 2) m k a
    → OnceIn m p k b
    → OnceIn n p k (a + (bit (k == n) + (b + bit (k == suc n))))
OnceIn-between n m p k a b l l' h h' = ground arith

pub HasLabels-append :
    (n m p : ℕ) (xs ys : List Instruction)
    → HasLabels n m xs
    → HasLabels m p ys
    → HasLabels n p (xs ++ ys)
HasLabels-append n m p xs ys h h' = (
  omega arith,
  λ k.
      let e = label_count-append (label_text k) xs ys in
      rw e (OnceIn-add n m p k _ _ h.0 h'.0 (h.1 k) (h'.1 k)),
)

abbrev pub while_code :
    (n : ℕ) (condition : Expression) (body : List Instruction) → List Instruction
while_code n condition body =
    label_instruction (label_text n)
    ∷ (lower_expression_to_stack condition
        ++ branch_if_zero (label_text (suc n))
          ∷ (body
              ++ branch_instruction (label_text n) ∷ label_instruction (label_text (suc n)) ∷ []))

pub while_code-HasLabels :
    (n m : ℕ) (e : Expression) (body : List Instruction)
    → HasLabels (n + 2) m body
    → HasLabels n m (while_code n e body)
while_code-HasLabels n m e body h = (
  omega arith,
  λ k.
      let x = label_text k in
      let count : label_count x (while_code n e body)
          ≡ bit (k == n) + (label_count x body + bit (k == suc n)) =
        omega (
          arith,
          label_count-label k n _,
          label_count-append x (lower_expression_to_stack e) _,
          lower_expression-NoLabels e x,
          label_count-plain x (branch_if_zero (label_text (suc n))) _ refl,
          label_count-append x body _,
          label_count-plain x (branch_instruction (label_text n)) _ refl,
          label_count-label k (suc n) [],
          NoLabels-nil x,
        ) in
      rw count (OnceIn-around n m k _ h.0 (h.1 k)),
)

abbrev pub if_code :
    (n : ℕ) (condition : Expression) (then_code : List Instruction) (behind : List Instruction)
    → List Instruction
if_code n condition then_code behind =
    lower_expression_to_stack condition ++ branch_if_zero (label_text n) ∷ (then_code ++ behind)

pub if_code-HasLabels :
    (n m : ℕ) (e : Expression) (then_code : List Instruction)
    → HasLabels (n + 2) m then_code
    → HasLabels n m (if_code n e then_code (label_instruction (label_text n) ∷ []))
if_code-HasLabels n m e body h = (
  omega arith,
  λ k.
      let x = label_text k in
      let count : label_count x (if_code n e body (label_instruction (label_text n) ∷ []))
          ≡ label_count x body + bit (k == n) =
        omega (
          arith,
          label_count-append x (lower_expression_to_stack e) _,
          lower_expression-NoLabels e x,
          label_count-plain x (branch_if_zero (label_text n)) _ refl,
          label_count-append x body _,
          label_count-label k n [],
          NoLabels-nil x,
        ) in
      rw count (OnceIn-before n m k _ h.0 (h.1 k)),
)

abbrev pub else_code : (n : ℕ) (code : List Instruction) → List Instruction
else_code n code =
    branch_instruction (label_text (suc n))
    ∷ label_instruction (label_text n)
    ∷ (code ++ label_instruction (label_text (suc n)) ∷ [])

pub if_else_code-HasLabels :
    (n m p : ℕ) (e : Expression) (then_code code : List Instruction)
    → HasLabels (n + 2) m then_code
    → HasLabels m p code
    → HasLabels n p (if_code n e then_code (else_code n code))
if_else_code-HasLabels n m p e body code h h' = (
  omega arith,
  λ k.
      let x = label_text k in
      let count : label_count x (if_code n e body (else_code n code))
          ≡ label_count x body + (bit (k == n) + (label_count x code + bit (k == suc n))) =
        omega (
          arith,
          label_count-append x (lower_expression_to_stack e) _,
          lower_expression-NoLabels e x,
          label_count-plain x (branch_if_zero (label_text n)) _ refl,
          label_count-append x body _,
          label_count-plain x (branch_instruction (label_text (suc n))) _ refl,
          label_count-label k n _,
          label_count-append x code _,
          label_count-label k (suc n) [],
          NoLabels-nil x,
        ) in
      rw count (OnceIn-between n m p k _ _ h.0 h'.0 (h.1 k) (h'.1 k)),
)

abbrev pub for_code : (n : ℕ) (before test body behind : List Instruction) → List Instruction
for_code n before test body behind =
    before
    ++ label_instruction (label_text n)
      ∷ (test
          ++ (body
              ++ (behind
                  ++ branch_instruction (label_text n)
                    ∷ label_instruction (label_text (suc n))
                    ∷ [])))

pub for_code-HasLabels :
    (n m : ℕ) (before test body : List Instruction)
    → NoLabels before
    → NoLabels test
    → HasLabels (n + 2) m body
    → HasLabels n m (for_code n before test body [])
for_code-HasLabels n m before test body hb ht h = (
  omega arith,
  λ k.
      let x = label_text k in
      let count : label_count x (for_code n before test body [])
          ≡ bit (k == n) + (label_count x body + bit (k == suc n)) =
        omega (
          arith,
          label_count-append x before _,
          hb x,
          label_count-label k n _,
          label_count-append x test _,
          ht x,
          label_count-append x body _,
          label_count-plain x (branch_instruction (label_text n)) _ refl,
          label_count-label k (suc n) [],
          NoLabels-nil x,
        ) in
      rw count (OnceIn-around n m k _ h.0 (h.1 k)),
)

pub for_increment_code-HasLabels :
    (n m : ℕ) (before test body behind : List Instruction)
    → NoLabels before
    → NoLabels test
    → NoLabels behind
    → HasLabels (n + 3) m body
    → HasLabels n m
        (for_code n before test body (label_instruction (label_text (suc (suc n))) ∷ behind))
for_increment_code-HasLabels n m before test body behind hb ht hi h = (
  omega arith,
  λ k.
      let x = label_text k in
      let inner = label_instruction (label_text (suc (suc n))) ∷ behind in
      let count : label_count x (for_code n before test body inner)
          ≡ bit (k == n) + (label_count x body + (bit (k == suc (suc n)) + bit (k == suc n))) =
        omega (
          arith,
          label_count-append x before _,
          hb x,
          label_count-label k n _,
          label_count-append x test _,
          ht x,
          label_count-append x body _,
          label_count-append x inner _,
          label_count-label k (suc (suc n)) behind,
          hi x,
          label_count-plain x (branch_instruction (label_text n)) _ refl,
          label_count-label k (suc n) [],
          NoLabels-nil x,
        ) in
      rw count (OnceIn-three n m k _ h.0 (h.1 k)),
)

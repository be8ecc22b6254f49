-- ===== src/Lowering/Labels.antt =====
-- frontend/src/lowering.cpp: the labels of lowered code are different, so the table of labels of
-- ir/src/interpreter.cpp has the place of each.
pub mod Code
pub mod Shapes
pub mod Sequences
use impulse_jit.Token.{text_eq_sound, text_eq_refl, Text, codes, text_eq}
use impulse_jit.Ast.{
  Expression, Expressions, Statement, Statements, ForClause, LiteralKind, BindingDecl,
}
use impulse_jit.Ir.{Instruction, InstructionKind}
use impulse_jit.Ir.Decimal.{to_string, to_string-injective}
use impulse_jit.Stack.{Numbers, find_number}
use impulse_jit.Stack.Machine.{find_label, label_table, label_entry}
use impulse_jit.Lowering.{
  lower_expression_to_stack, lower_arguments, call_instruction, count_arguments, instruction,
  literal_instruction, binary_operator_token, unary_operator_token, label_text, label_instruction,
  lower_statement_to_instructions, lower_sequence, LowerState, leave_scope, emit_scope_drops,
  LoopContext, Lowered, join_else, lower_clause, lower_test, leave_loop, drop_local, ScopeLocal,
}
use impulse_jit.Base.{
  sym, ◌∙◌, ==_iff, ◌⊎◌, ◌^◌, get_elem?, ℕ, zero, suc, ◌+◌, ◌-◌, ◌*◌, Bool, true, false, not, ◌&&◌,
  ◌||◌, Option, none, some, List, [], ◌∷◌, ◌++◌, ltb, leb, ◌==◌, if◌then◌else◌, length, Run, ok,
  fault, out_of_fuel, ◌≡◌, ◌≢◌, refl, ap, inl, inr, arith, Bool-cases, Option-cases, ◌≤◌, ◌<◌,
  subst,
}

abbrev tail_text : Text → Text
tail_text [] = []
tail_text (a ∷ x) = x

label_text-injective : (m n : ℕ) → text_eq (label_text m) (label_text n) ≡ true → m ≡ n
unfolding label_text
label_text-injective m n h =
    to_string-injective m n (ap tail_text (text_eq_sound (label_text m) (label_text n) h))

pub label_text-== : (m n : ℕ) → text_eq (label_text m) (label_text n) ≡ (m == n)
label_text-== m n = elim (Bool-cases (m == n)) [
  | inl b ↦
      let same : m ≡ n = (==_iff m n).0 b in
      rw b (
        subst (λ n'. text_eq (label_text m) (label_text n') ≡ true) same
          (text_eq_refl (label_text m)))
  | inr b ↦ elim (Bool-cases (text_eq (label_text m) (label_text n))) [
    | inl t ↦ let same : (m == n) ≡ true = (==_iff m n).1 (label_text-injective m n t) in cc
    | inr t ↦ rw (b, t) refl
  ]
]

abbrev pub bit : Bool → ℕ
bit true = 1
bit false = 0

-- Whether an instruction is the label `x`.
abbrev pub is_label : Text → InstructionKind → List Text → Bool
is_label x InstructionKind.label (y ∷ ys) = text_eq x y
is_label x _ _ = false

-- How often the label `x` stands in the code.
unfoldable pub label_count : Text → List Instruction → ℕ
label_count x [] = 0
label_count x (inst ∷ code) = bit (is_label x inst.kind inst.operands) + label_count x code

pub label_count-append :
    (x : Text) (xs ys : List Instruction)
    → label_count x (xs ++ ys) ≡ label_count x xs + label_count x ys
unfolding label_count
label_count-append x [] ys = omega arith
label_count-append x (inst ∷ xs) ys = omega (arith, label_count-append x xs ys)

abbrev IsPlain : InstructionKind → List Text → Type 0
IsPlain kind operands =
    ((x : Text) → is_label x kind operands ≡ false)
    × ((i : ℕ) (labels : Numbers) → label_entry kind operands i labels ≡ labels)

-- An instruction is a label or has no part in the table.
label_cases :
    (kind : InstructionKind) (operands : List Text)
    → ((y : Text) × (ys : List Text) × (kind ≡ InstructionKind.label) × (operands ≡ y ∷ ys))
      ⊎ IsPlain kind operands
label_cases InstructionKind.label (y ∷ ys) = inl (y, ys, refl, refl)
label_cases _ _ = inr (λ x. refl, λ i labels. refl)

-- The table behind one instruction.
find_number-label_entry :
    (x : Text) (i : ℕ) (kind : InstructionKind) (operands : List Text) (labels : Numbers)
    → find_number x (label_entry kind operands i labels)
      ≡ (if is_label x kind operands then some i else find_number x labels)
unfolding find_number
find_number-label_entry x i kind operands labels = elim (label_cases kind operands) [
  | inl (y, ys, k, o) ↦ rw (k, o) refl
  | inr (plain, same) ↦ rw (plain x, same i labels) refl
]

-- A label that does not come again keeps its place in the table.
find_number-label_table :
    (x : Text) (i : ℕ) (code : List Instruction) (labels : Numbers)
    → label_count x code ≡ 0
    → find_number x (label_table i code labels) ≡ find_number x labels
unfolding label_count label_table
find_number-label_table x i [] labels h = refl
find_number-label_table x i (inst ∷ code) labels h =
    elim (Bool-cases (is_label x inst.kind inst.operands)) [
      | inl b ↦ absurd (omega (arith, rw b at h))
      | inr b ↦
          find_number-label_table x (suc i) code _ (omega (arith, rw b at h))
          ∙ find_number-label_entry x i inst.kind inst.operands labels
          ∙ rw b refl
    ]

pub find_number-label_table_at :
    (x : Text) (i p : ℕ) (code : List Instruction) (labels : Numbers)
    → label_count x code ≤ 1
    → get_elem? code p ≡ some (label_instruction x)
    → find_number x (label_table i code labels) ≡ some (i + p)
unfolding label_count label_table
find_number-label_table_at x i p [] labels h e = cc
find_number-label_table_at x i zero (inst ∷ code) labels h e =
    let same : inst ≡ label_instruction x = ap (λ o. elim o [ none ↦ inst | some a ↦ a ]) e in
    let b : is_label x inst.kind inst.operands ≡ true = rw same (text_eq_refl x) in
    let none_left : label_count x code ≡ 0 = omega (arith, rw b at h) in
    let place : i ≡ i + 0 = omega arith in
    find_number-label_table x (suc i) code _ none_left
    ∙ find_number-label_entry x i inst.kind inst.operands labels
    ∙ rw b (ap some place)
find_number-label_table_at x i (suc p) (inst ∷ code) labels h e =
    let place : suc i + p ≡ i + suc p = omega arith in
    find_number-label_table_at x (suc i) p code _ (omega arith) e ∙ ap some place

-- Every label of lowered code is found at its place.
abbrev pub IsUnique : List Instruction → Type 0
IsUnique code =
    (k p : ℕ)
    → get_elem? code p ≡ some (label_instruction (label_text k))
    → find_label (label_text k) code ≡ some p

-- A number of times that is one at most, and zero outside the labels from `n` up to, not with, `m`.
abbrev pub OnceIn : (n m k count : ℕ) → Type 0
OnceIn n m k count = (count ≤ 1) × (k < n → count ≡ 0) × (m ≤ k → count ≡ 0)

-- The labels of the code are those from `n` up to, not with, `m`, each once at most.
abbrev pub HasLabels : ℕ → ℕ → List Instruction → Type 0
HasLabels n m code = (n ≤ m) × ((k : ℕ) → OnceIn n m k (label_count (label_text k) code))

pub HasLabels-IsUnique : (n m : ℕ) (code : List Instruction) → HasLabels n m code → IsUnique code
unfolding find_label
HasLabels-IsUnique n m code h k p e =
    let place : 0 + p ≡ p = omega arith in
    find_number-label_table_at (label_text k) 0 p code [] (h.1 k).0 e ∙ ap some place

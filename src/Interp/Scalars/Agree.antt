-- ===== src/Interp/Scalars/Agree.antt =====
-- runtime/src/ssa_interpreter.cpp beside ir/src/interpreter.cpp: the two interpreters compute the same with
-- the operators, other than with the remainder.
use impulse_jit.Interp.Scalars.{
  Sizes, Computed, computed, failed, store_computed, binary_number, unary_number, handle_binary,
  handle_unary,
}
use impulse_jit.Stack.{Step, running, stopped, crashed, exhausted, apply_binary, apply_unary}
use impulse_jit.Floats.{Doubles, near_zero}
use impulse_jit.Ssa.{BinaryOp, BinaryOp, binary_op_from_string}
use impulse_jit.Heap.{make_number}
use impulse_jit.Token.{Text, codes, text_eq, text_eq_sound}
use impulse_jit.Interp.{
  failing, VmStatus, VmStatus, Handled, SsaState, SsaValue, SsaInstruction, store_value,
  lookup_value,
}
use impulse_jit.Base.{
  ◌∙◌, ◌⊎◌, ℕ, false, none, some, List, [], ◌∷◌, ok, ◌≡◌, ◌≢◌, refl, ap, inl, inr, Bool-cases,
}

abbrev symbol_of : BinaryOp → Text
symbol_of BinaryOp.add = codes "+"
symbol_of BinaryOp.sub = codes "-"
symbol_of BinaryOp.mul = codes "*"
symbol_of BinaryOp.div = codes "/"
symbol_of BinaryOp.mod_op = codes "%"
symbol_of BinaryOp.lt = codes "<"
symbol_of BinaryOp.le = codes "<="
symbol_of BinaryOp.gt = codes ">"
symbol_of BinaryOp.ge = codes ">="
symbol_of BinaryOp.eq = codes "=="
symbol_of BinaryOp.ne = codes "!="
symbol_of BinaryOp.and_op = codes "&&"
symbol_of BinaryOp.or_op = codes "||"
symbol_of BinaryOp.unknown = []

-- The text is not the symbol of the operator.
abbrev IsNot : Text → BinaryOp → Type 0
IsNot op o = text_eq op (symbol_of o) ≡ false

abbrev Other : Text → Type 0
Other op =
    IsNot op BinaryOp.add
    × IsNot op BinaryOp.sub
    × IsNot op BinaryOp.mul
    × IsNot op BinaryOp.div
    × IsNot op BinaryOp.mod_op
    × IsNot op BinaryOp.lt
    × IsNot op BinaryOp.le
    × IsNot op BinaryOp.gt
    × IsNot op BinaryOp.ge
    × IsNot op BinaryOp.eq
    × IsNot op BinaryOp.ne
    × IsNot op BinaryOp.and_op
    × IsNot op BinaryOp.or_op

is_symbol :
    (op : Text) (o : BinaryOp) {C : Type 0}
    → (IsNot op o → ((o : BinaryOp) × (op ≡ symbol_of o)) ⊎ C)
    → ((o : BinaryOp) × (op ≡ symbol_of o)) ⊎ C
is_symbol op o next = elim (Bool-cases (text_eq op (symbol_of o))) [
  | inl q ↦ inl (o, text_eq_sound op (symbol_of o) q)
  | inr q ↦ next q
]

operator_cases : (op : Text) → ((o : BinaryOp) × (op ≡ symbol_of o)) ⊎ Other op
operator_cases op = is_symbol op BinaryOp.add (λ h0. is_symbol op BinaryOp.sub (λ h1.
    is_symbol op BinaryOp.mul (λ h2. is_symbol op BinaryOp.div (λ h3.
      is_symbol op BinaryOp.mod_op (λ h4. is_symbol op BinaryOp.lt (λ h5.
        is_symbol op BinaryOp.le (λ h6. is_symbol op BinaryOp.gt (λ h7.
          is_symbol op BinaryOp.ge (λ h8. is_symbol op BinaryOp.eq (λ h9.
            is_symbol op BinaryOp.ne (λ h10. is_symbol op BinaryOp.and_op (λ h11.
              is_symbol op BinaryOp.or_op
                (λ h12. inr (h0, h1, h2, h3, h4, h5, h6, h7, h8, h9, h10, h11, h12))))))))))))))

-- What the stack machine computes: a number is the same number, an error is an error with its own status
-- and message, and nothing else happens.
abbrev SameNumber : Step ℕ → Computed → Type 0
SameNumber (running v) c = c ≡ computed v
SameNumber (stopped r) c = (status : VmStatus) × (message : Text) × (c ≡ failed status message)
SameNumber crashed c = ⊥
SameNumber exhausted c = ⊥

symbol-SameNumber :
    (d : Doubles) (z : Sizes) (o : BinaryOp) (immediates : List Text) (left right : ℕ)
    → o ≢ BinaryOp.mod_op
    → SameNumber
        (apply_binary d (symbol_of o) left right)
        (binary_number d z (binary_op_from_string (symbol_of o)) immediates left right)
unfolding apply_binary binary_number binary_op_from_string text_eq
symbol-SameNumber d z BinaryOp.div immediates left right h = elim (Bool-cases (near_zero d right)) [
  | inl q ↦ rw q (_, _, refl)
  | inr q ↦ rw q refl
]
symbol-SameNumber d z BinaryOp.mod_op immediates left right h = absurd (h refl)
symbol-SameNumber d z BinaryOp.unknown immediates left right h = (_, _, refl)
symbol-SameNumber d z BinaryOp.add immediates left right h = refl
symbol-SameNumber d z BinaryOp.sub immediates left right h = refl
symbol-SameNumber d z BinaryOp.mul immediates left right h = refl
symbol-SameNumber d z BinaryOp.lt immediates left right h = refl
symbol-SameNumber d z BinaryOp.le immediates left right h = refl
symbol-SameNumber d z BinaryOp.gt immediates left right h = refl
symbol-SameNumber d z BinaryOp.ge immediates left right h = refl
symbol-SameNumber d z BinaryOp.eq immediates left right h = refl
symbol-SameNumber d z BinaryOp.ne immediates left right h = refl
symbol-SameNumber d z BinaryOp.and_op immediates left right h = refl
symbol-SameNumber d z BinaryOp.or_op immediates left right h = refl

Other-SameNumber :
    (d : Doubles) (z : Sizes) (op : Text) (immediates : List Text) (left right : ℕ)
    → Other op
    → SameNumber
        (apply_binary d op left right)
        (binary_number d z (binary_op_from_string op) immediates left right)
unfolding apply_binary binary_number binary_op_from_string
Other-SameNumber d z op immediates left right
      (h0, h1, h2, h3, h4, h5, h6, h7, h8, h9, h10, h11, h12) =
    rw (h0, h1, h2, h3, h4, h5, h6, h7, h8, h9, h10, h11, h12) (_, _, refl)

apply_binary-binary_number :
    (d : Doubles) (z : Sizes) (op : Text) (immediates : List Text) (left right : ℕ)
    → op ≢ codes "%"
    → SameNumber
        (apply_binary d op left right)
        (binary_number d z (binary_op_from_string op) immediates left right)
apply_binary-binary_number d z op immediates left right h = elim (operator_cases op) [
  | inl (o, e) ↦
      let other : o ≢ BinaryOp.mod_op = λ m. h (e ∙ ap symbol_of m) in
      rw e (symbol-SameNumber d z o immediates left right other)
  | inr other ↦ Other-SameNumber d z op immediates left right other
]

apply_unary-unary_number :
    (d : Doubles) (op : Text) (value : ℕ)
    → SameNumber (apply_unary d op value) (unary_number d op value)
unfolding apply_unary unary_number
apply_unary-unary_number d op value = elim (Bool-cases (text_eq op (codes "!"))) [
  | inl q ↦ rw q refl
  | inr q ↦ elim (Bool-cases (text_eq op (codes "-"))) [
    | inl m ↦ rw (q, m) refl
    | inr m ↦ rw (q, m) (_, _, refl)
  ]
]

-- An instruction does what the stack machine computes: it stores the number, or it fails and leaves the
-- state.
abbrev pub Agrees : SsaValue → SsaState → Step ℕ → Handled → Type 0
Agrees result s (running v) h = h ≡ ok (none, store_value result (make_number v) s)
Agrees result s (stopped r) h =
    (status : VmStatus) × (message : Text) × (h ≡ failing status message s)
Agrees result s crashed h = ⊥
Agrees result s exhausted h = ⊥

SameNumber-Agrees :
    (result : SsaValue) (s : SsaState) (step : Step ℕ) (c : Computed)
    → SameNumber step c
    → Agrees result s step (store_computed result c s)
SameNumber-Agrees result s (running v) c e = rw e refl
SameNumber-Agrees result s (stopped r) c (status, message, e) = (status, message, rw e refl)
SameNumber-Agrees result s crashed c e = absurd e
SameNumber-Agrees result s exhausted c e = absurd e

-- On two numbers and an operator other than %, the SSA interpreter does what the stack
-- interpreter computes: where that one computes a number, it stores this number, where that one
-- stops, it fails and leaves the state, and that one has no undefined behaviour; on unknown
-- operators too.
pub handle_binary-apply_binary :
    (d : Doubles) (z : Sizes) (op : Text) (inst : SsaInstruction) (s : SsaState)
    (result a b : SsaValue) (rest : List SsaValue) (left right : ℕ)
    → inst.result ≡ some result
    → inst.arguments ≡ a ∷ b ∷ rest
    → inst.binary_op ≡ binary_op_from_string op
    → lookup_value a s ≡ some (make_number left)
    → lookup_value b s ≡ some (make_number right)
    → op ≢ codes "%"
    → Agrees result s (apply_binary d op left right) (handle_binary d z inst s)
unfolding handle_binary
handle_binary-apply_binary d z op inst s result a b rest left right hr ha ho hl hb h =
    let same = apply_binary-binary_number d z op inst.immediates left right h in
    rw (hr, ha, hl, hb, ho) (SameNumber-Agrees result s (apply_binary d op left right) _ same)

-- On a number, the unary instruction of the SSA interpreter does what the stack interpreter
-- computes with the operator: it stores the same number, or, on an unknown operator, fails and
-- leaves the state.
pub handle_unary-apply_unary :
    (d : Doubles) (op : Text) (inst : SsaInstruction) (s : SsaState) (result a : SsaValue)
    (rest : List SsaValue) (more : List Text) (value : ℕ)
    → inst.result ≡ some result
    → inst.arguments ≡ a ∷ rest
    → inst.immediates ≡ op ∷ more
    → lookup_value a s ≡ some (make_number value)
    → Agrees result s (apply_unary d op value) (handle_unary d inst s)
unfolding handle_unary
handle_unary-apply_unary d op inst s result a rest more value hr ha hi hv =
    rw (hr, ha, hi, hv)
      (SameNumber-Agrees result s (apply_unary d op value) _ (apply_unary-unary_number d op value))

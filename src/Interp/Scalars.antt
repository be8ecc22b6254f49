-- ===== src/Interp/Scalars.antt =====
-- runtime/src/ssa_interpreter.cpp: the instructions on numbers and strings. A double is its 64 bits; what
-- the processor and the standard library do with them is a parameter.
pub mod Agree
pub mod Remainder
use impulse_jit.Floats.{Doubles, truth, near_zero, is_nonzero, parse_literal}
use impulse_jit.Ssa.{SsaOpcode, BinaryOp, BinaryOp}
use impulse_jit.Heap.{Value, ValueKind, ValueKind, make_number, make_string}
use impulse_jit.Token.{Text, codes, text_eq}
use impulse_jit.Interp.{
  VmStatus, VmStatus, Handled, SsaState, SsaValue, SsaInstruction, failing, number_of, store_value,
  lookup_value,
}
use impulse_jit.Base.{
  ◌⊎◌, ◌%◌, ◌^◌, ◌>>=◌, ℕ, zero, suc, ◌+◌, ◌-◌, ◌*◌, Bool, true, false, not, ◌&&◌, ◌||◌, Option,
  none, some, List, [], ◌∷◌, ◌++◌, ltb, leb, ◌==◌, if◌then◌else◌, length, Run, ok, fault,
  out_of_fuel, ◌≡◌, ◌≢◌, refl, ap, inl, inr, arith, Bool-cases, Option-cases, ◌≤◌, ◌<◌, subst,
}

-- The conversions between a double and `size_t`; `size_limit` is the double next to the greatest value of
-- `size_t`, and `to_size` is none where the conversion is undefined.
pub record Sizes : Type 0 where
  pub floor : ℕ → ℕ
  pub size_limit : ℕ
  pub to_size : ℕ → Option ℕ
  pub of_size : ℕ → ℕ

-- Near a natural number, and then that number.
abbrev pub near_size : Doubles → Sizes → (value truncated : ℕ) → Run (Option ℕ)
near_size d z value truncated =
    if d.less d.epsilon (d.abs (d.sub truncated value)) || d.less z.size_limit truncated
    then ok none
    else elim (z.to_size truncated) [ none ↦ fault | some n ↦ ok (some n) ]

unfoldable pub to_index : Doubles → Sizes → ℕ → Run (Option ℕ)
to_index d z value =
    if not (d.is_finite value) || d.less value d.zero_value
    then ok none
    else near_size d z value (z.floor (d.add value d.epsilon))

-- The first of the immediates, or the empty text.
abbrev pub front_or_empty : List Text → Text
front_or_empty [] = []
front_or_empty (x ∷ xs) = x

abbrev store_literal : Doubles → SsaValue → Text → SsaState → Handled
store_literal d result x s = elim (parse_literal d x) [
  | none ↦
      failing VmStatus.module_error (codes "unable to parse literal operand '" ++ x ++ codes "'") s
  | some v ↦ ok (none, store_value result (make_number v) s)
]

abbrev literal_of : Doubles → Option SsaValue → List Text → SsaState → Handled
literal_of d (some result) (x ∷ xs) s = store_literal d result x s
literal_of d _ _ s = failing VmStatus.module_error (codes "literal instruction missing data") s

unfoldable pub handle_literal : Doubles → SsaInstruction → SsaState → Handled
handle_literal d inst s = literal_of d inst.result inst.immediates s

unfoldable pub handle_literal_string : SsaInstruction → SsaState → Handled
handle_literal_string inst s = elim inst.result [
  | none ↦ failing VmStatus.module_error (codes "literal_string instruction missing result") s
  | some result ↦ ok (none, store_value result (make_string (front_or_empty inst.immediates)) s)
]

-- What an operator gives: a number, or a status with a message.
abbrev pub Computed : Type 0
Computed = Run ((VmStatus × Text) ⊎ ℕ)

abbrev pub failed : VmStatus → Text → Computed
failed status message = ok (inl (status, message))

abbrev pub computed : ℕ → Computed
computed v = ok (inr v)

abbrev pub store_computed : SsaValue → Computed → SsaState → Handled
store_computed result c s = do
  r ← c
  elim r [
    | inl (status, message) ↦ failing status message s
    | inr v ↦ ok (none, store_value result (make_number v) s)
  ]

unfoldable pub unary_number : Doubles → Text → ℕ → Computed
unary_number d op value =
    if text_eq op (codes "!")
    then computed (truth d (d.same value d.zero_value))
    else if text_eq op (codes "-")
    then computed (d.neg value)
    else failed VmStatus.module_error (codes "unsupported unary operator '" ++ op ++ codes "'")

abbrev unary_known : Doubles → SsaValue → Text → Option ℕ → SsaState → Handled
unary_known d result op none s =
    failing VmStatus.runtime_error (codes "unary instruction requires numeric operand") s
unary_known d result op (some value) s = store_computed result (unary_number d op value) s

abbrev unary_of : Doubles → Option SsaValue → List SsaValue → List Text → SsaState → Handled
unary_of d (some result) (a ∷ rest) (op ∷ ops) s =
    unary_known d result op (number_of (lookup_value a s)) s
unary_of d _ _ _ s = failing VmStatus.module_error (codes "unary instruction malformed") s

unfoldable pub handle_unary : Doubles → SsaInstruction → SsaState → Handled
handle_unary d inst s = unary_of d inst.result inst.arguments inst.immediates s

abbrev modulo_sizes : Sizes → Option ℕ → Option ℕ → Computed
modulo_sizes z (some left) (some (suc right)) = computed (z.of_size (left % suc right))
modulo_sizes z _ _ =
    failed VmStatus.runtime_error
      (codes "modulo requires non-negative integer operands and non-zero divisor")

abbrev modulo_number : Doubles → Sizes → (left right : ℕ) → Computed
modulo_number d z left right = do
  left_index ← to_index d z left
  right_index ← to_index d z right
  modulo_sizes z left_index right_index

unfoldable pub binary_number :
    Doubles → Sizes → BinaryOp → (immediates : List Text) → (left right : ℕ) → Computed
binary_number d z op immediates left right = elim op [
  | BinaryOp.add ↦ computed (d.add left right)
  | BinaryOp.sub ↦ computed (d.sub left right)
  | BinaryOp.mul ↦ computed (d.mul left right)
  | BinaryOp.div ↦
      if near_zero d right
      then failed VmStatus.runtime_error (codes "division by zero during execution")
      else computed (d.div left right)
  | BinaryOp.mod_op ↦ modulo_number d z left right
  | BinaryOp.lt ↦ computed (truth d (d.less left right))
  | BinaryOp.le ↦ computed (truth d (d.less_equal left right))
  | BinaryOp.gt ↦ computed (truth d (d.less right left))
  | BinaryOp.ge ↦ computed (truth d (d.less_equal right left))
  | BinaryOp.eq ↦ computed (truth d (d.same left right))
  | BinaryOp.ne ↦ computed (truth d (not (d.same left right)))
  | BinaryOp.and_op ↦ computed (truth d (is_nonzero d left && is_nonzero d right))
  | BinaryOp.or_op ↦ computed (truth d (is_nonzero d left || is_nonzero d right))
  | BinaryOp.unknown ↦
      failed VmStatus.module_error
        (codes "unsupported binary operator '" ++ front_or_empty immediates ++ codes "'")
]

-- On two strings; none where the operator is not one of strings.
abbrev string_binary : Doubles → BinaryOp → (left right : Text) → Option Value
string_binary d BinaryOp.add left right = some (make_string (left ++ right))
string_binary d BinaryOp.eq left right = some (make_number (truth d (text_eq left right)))
string_binary d BinaryOp.ne left right = some (make_number (truth d (not (text_eq left right))))
string_binary d _ left right = none

abbrev binary_string : Doubles → BinaryOp → (left right : Value) → Option Value
binary_string d op left right = elim left.kind [
  | ValueKind.string ↦ elim right.kind [
    | ValueKind.string ↦ string_binary d op left.text right.text
    | _ ↦ none
  ]
  | _ ↦ none
]

abbrev two_numbers : Option ℕ → Option ℕ → Option (ℕ × ℕ)
two_numbers (some left) (some right) = some (left, right)
two_numbers _ _ = none

abbrev binary_values :
    Doubles → Sizes → SsaInstruction → SsaValue → (left right : Value) → SsaState → Handled
binary_values d z inst result left right s = elim (binary_string d inst.binary_op left right) [
  | some v ↦ ok (none, store_value result v s)
  | none ↦ elim (two_numbers (number_of (some left)) (number_of (some right))) [
    | none ↦ failing VmStatus.runtime_error (codes "binary instruction requires numeric operands") s
    | some (x, y) ↦ store_computed result (binary_number d z inst.binary_op inst.immediates x y) s
  ]
]

abbrev binary_known :
    Doubles → Sizes → SsaInstruction → SsaValue → Option Value → Option Value → SsaState → Handled
binary_known d z inst result (some left) (some right) s = binary_values d z inst result left right s
binary_known d z inst result _ _ s =
    failing VmStatus.runtime_error (codes "binary instruction missing operands") s

abbrev binary_of :
    Doubles → Sizes → SsaInstruction → Option SsaValue → List SsaValue → SsaState → Handled
binary_of d z inst (some result) (a ∷ b ∷ rest) s =
    binary_known d z inst result (lookup_value a s) (lookup_value b s) s
binary_of d z inst _ _ s = failing VmStatus.module_error (codes "binary instruction malformed") s

unfoldable pub handle_binary : Doubles → Sizes → SsaInstruction → SsaState → Handled
handle_binary d z inst s = binary_of d z inst inst.result inst.arguments s

abbrev drop_of : List SsaValue → SsaState → Handled
drop_of (a ∷ []) s = elim (lookup_value a s) [
  | none ↦ failing VmStatus.runtime_error (codes "drop instruction missing value") s
  | some v ↦ ok (none, s)
]
drop_of _ s = failing VmStatus.module_error (codes "drop instruction malformed") s

unfoldable pub handle_drop : SsaInstruction → SsaState → Handled
handle_drop inst s = drop_of inst.arguments s

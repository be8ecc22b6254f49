-- ===== src/Ssa.antt =====
-- ir/include/impulse/ir/ssa.h: the operations, operators, values, phi nodes and instructions of the SSA
-- form of a function.
pub mod Names
mod Tests
use impulse_jit.Token.{Text, codes, text_eq}
use impulse_jit.Base.{
  ℕ, zero, suc, Bool, true, false, not, ◌||◌, Option, none, some, List, [], ◌∷◌, ◌==◌,
  if◌then◌else◌,
}

-- Both parts are 32 bits wide.
pub record SsaValue : Type 0 where
  pub symbol : ℕ
  pub version : ℕ

abbrev pub is_valid : SsaValue → Bool
is_valid v = not (v.version == 0) || not (v.symbol == 0)

pub data SsaOpcode : Type 0 where
  literal literal_string assign binary unary branch branch_if return_value call : SsaOpcode
  array_make array_get array_set array_length array_push array_pop drop unknown : SsaOpcode

unfoldable pub opcode_from_string : Text → SsaOpcode
opcode_from_string s =
    if text_eq s (codes "binary")
    then binary
    else if text_eq s (codes "literal")
    then literal
    else if text_eq s (codes "assign")
    then assign
    else if text_eq s (codes "branch_if")
    then branch_if
    else if text_eq s (codes "return")
    then return_value
    else if text_eq s (codes "call")
    then call
    else if text_eq s (codes "branch")
    then branch
    else if text_eq s (codes "array_get")
    then array_get
    else if text_eq s (codes "array_set")
    then array_set
    else if text_eq s (codes "array_make")
    then array_make
    else if text_eq s (codes "array_length")
    then array_length
    else if text_eq s (codes "array_push")
    then array_push
    else if text_eq s (codes "array_pop")
    then array_pop
    else if text_eq s (codes "unary")
    then unary
    else if text_eq s (codes "literal_string")
    then literal_string
    else if text_eq s (codes "drop")
    then drop
    else unknown

unfoldable pub opcode_to_string : SsaOpcode → Text
opcode_to_string literal = codes "literal"
opcode_to_string literal_string = codes "literal_string"
opcode_to_string assign = codes "assign"
opcode_to_string binary = codes "binary"
opcode_to_string unary = codes "unary"
opcode_to_string branch = codes "branch"
opcode_to_string branch_if = codes "branch_if"
opcode_to_string return_value = codes "return"
opcode_to_string call = codes "call"
opcode_to_string array_make = codes "array_make"
opcode_to_string array_get = codes "array_get"
opcode_to_string array_set = codes "array_set"
opcode_to_string array_length = codes "array_length"
opcode_to_string array_push = codes "array_push"
opcode_to_string array_pop = codes "array_pop"
opcode_to_string drop = codes "drop"
opcode_to_string unknown = codes "unknown"

pub data BinaryOp : Type 0 where
  add sub mul div mod_op lt le gt ge eq ne and_op or_op unknown : BinaryOp

unfoldable pub binary_op_from_string : Text → BinaryOp
binary_op_from_string s =
    if text_eq s (codes "+")
    then BinaryOp.add
    else if text_eq s (codes "-")
    then BinaryOp.sub
    else if text_eq s (codes "*")
    then BinaryOp.mul
    else if text_eq s (codes "/")
    then BinaryOp.div
    else if text_eq s (codes "%")
    then BinaryOp.mod_op
    else if text_eq s (codes "<")
    then BinaryOp.lt
    else if text_eq s (codes "<=")
    then BinaryOp.le
    else if text_eq s (codes ">")
    then BinaryOp.gt
    else if text_eq s (codes ">=")
    then BinaryOp.ge
    else if text_eq s (codes "==")
    then BinaryOp.eq
    else if text_eq s (codes "!=")
    then BinaryOp.ne
    else if text_eq s (codes "&&")
    then BinaryOp.and_op
    else if text_eq s (codes "||")
    then BinaryOp.or_op
    else BinaryOp.unknown

pub record PhiInput : Type 0 where
  pub predecessor : ℕ
  pub value : Option SsaValue

pub record PhiNode : Type 0 where
  pub result : SsaValue
  pub symbol : ℕ
  pub inputs : List PhiInput

pub record SsaInstruction : Type 0 where
  pub op : SsaOpcode
  pub binary_op : BinaryOp
  pub opcode : Text
  pub arguments : List SsaValue
  pub immediates : List Text
  pub result : Option SsaValue

pub record SsaBlock : Type 0 where
  pub id : ℕ
  pub name : Text
  pub phi_nodes : List PhiNode
  pub instructions : List SsaInstruction
  pub successors : List ℕ
  pub predecessors : List ℕ
  pub immediate_dominator : ℕ
  pub dominator_children : List ℕ
  pub dominance_frontier : List ℕ

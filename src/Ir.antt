-- ===== src/Ir.antt =====
-- ir/include/impulse/ir/ir.h, ir/include/impulse/ir/builder.h and ir/src/builder.cpp: instructions,
-- blocks, functions, and the builder that appends to a function. The builder's pointer to its
-- function is the function itself, so its tests for null fall away; where a method gives a reference
-- to a block, the model gives the block's index.
pub mod Decimal
use impulse_jit.Token.{Text, codes}
use impulse_jit.Ir.Decimal.{to_string}
use impulse_jit.Base.{
  ◌^◌, ◌>>=◌, ℕ, zero, suc, ◌+◌, ◌-◌, ◌*◌, Bool, true, false, not, ◌&&◌, ◌||◌, Option, none, some,
  List, [], ◌∷◌, ◌++◌, ltb, leb, ◌==◌, if◌then◌else◌, length, Run, ok, fault, out_of_fuel, ◌≡◌, ◌≢◌,
  refl, ap, inl, inr, arith, Bool-cases, Option-cases, ◌≤◌, ◌<◌, subst,
}

pub data InstructionKind : Type 0 where
  comment return_value literal string_literal reference binary unary : InstructionKind
  store drop branch branch_if label call : InstructionKind
  make_array array_get array_set array_length : InstructionKind

pub record Instruction : Type 0 where
  pub kind : InstructionKind
  pub operands : List Text

pub record BasicBlock : Type 0 where
  pub label : Text
  pub instructions : List Instruction

pub data StorageClass : Type 0 where
  let_storage const_storage var_storage : StorageClass

pub record Binding : Type 0 where
  pub storage : StorageClass
  pub name : Text
  pub type_text : Text
  pub initializer : Text
  pub constant_value : Option Text
  pub exported : Bool
  pub initializer_instructions : List Instruction

pub record FunctionParameter : Type 0 where
  pub name : Text
  pub type_text : Text

pub record Function : Type 0 where
  pub name : Text
  pub parameters : List FunctionParameter
  pub return_type : Option Text
  pub body_snippet : Text
  pub blocks : List BasicBlock
  pub exported : Bool

pub record InterfaceMethod : Type 0 where
  pub name : Text
  pub parameters : List FunctionParameter
  pub return_type : Option Text

pub record Interface : Type 0 where
  pub name : Text
  pub methods : List InterfaceMethod
  pub exported : Bool

pub record StructField : Type 0 where
  pub name : Text
  pub type_text : Text

pub record Struct : Type 0 where
  pub name : Text
  pub fields : List StructField
  pub exported : Bool

pub record Module : Type 0 where
  pub path : List Text
  pub bindings : List Binding
  pub functions : List Function
  pub structs : List Struct
  pub interfaces : List Interface

pub record FunctionBuilder : Type 0 where
  pub function : Function
  pub current_index : ℕ

abbrev with_blocks : List BasicBlock → Function → Function
with_blocks blocks f = record f { blocks = blocks }

abbrev pub ensure_entry : FunctionBuilder → FunctionBuilder
ensure_entry b = elim b.function.blocks [
  | [] ↦ record {
    function = with_blocks (record { label = codes "entry"; instructions = [] } ∷ []) b.function;
    current_index = 0;
  }
  | block ∷ blocks ↦
      if leb (length b.function.blocks) b.current_index then record b { current_index = 0 } else b
]

abbrev pub new_builder : Function → FunctionBuilder
new_builder f = ensure_entry (record { function = f; current_index = 0 })

-- The entry is the block at index 0, the current block the one at `current_index`.
abbrev pub current : FunctionBuilder → FunctionBuilder × ℕ
current b = let b' = ensure_entry b in (b', b'.current_index)

abbrev pub entry : FunctionBuilder → FunctionBuilder × ℕ
entry b = (ensure_entry b, 0)

abbrev pub block_name : Text → ℕ → Text
block_name [] n = codes "block" ++ to_string n
block_name (c ∷ cs) n = c ∷ cs

abbrev pub new_block : Text → FunctionBuilder → FunctionBuilder
new_block name b =
    let blocks = b.function.blocks in
    record {
      function =
          with_blocks
            (blocks ++ record { label = block_name name (length blocks); instructions = [] } ∷ [])
            b.function;
      current_index = length blocks;
    }

abbrev pub push_instruction : Instruction → BasicBlock → BasicBlock
push_instruction inst block = record block { instructions = block.instructions ++ inst ∷ [] }

abbrev pub at_block : ℕ → (BasicBlock → BasicBlock) → List BasicBlock → List BasicBlock
at_block i change [] = []
at_block zero change (block ∷ blocks) = change block ∷ blocks
at_block (suc i) change (block ∷ blocks) = block ∷ at_block i change blocks

unfoldable pub append : InstructionKind → List Text → FunctionBuilder → FunctionBuilder
append kind operands b =
    let (b', i) = current b in
    record b' {
      function =
          with_blocks
            (at_block i (push_instruction (record { kind = kind; operands = operands }))
              b'.function.blocks)
            b'.function;
    }

abbrev pub append_comment : Text → FunctionBuilder → FunctionBuilder
append_comment text b = append InstructionKind.comment (text ∷ []) b

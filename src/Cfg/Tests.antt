-- ===== src/Cfg/Tests.antt =====
-- Graphs of a loop with a way out and of a function without instructions.
use impulse_jit.Token.{Text, codes}
use impulse_jit.Ir.{Instruction, InstructionKind, Function}
use impulse_jit.Ir.Decimal.{to_string, digits_loop}
use impulse_jit.Cfg.{
  build_control_flow_graph, flat_instructions, leaders_of, insert_index, block_label,
  link_successors, add_predecessor, Block,
}
use impulse_jit.Cfg.Partition.{Covers, build_control_flow_graph-Covers}
use impulse_jit.Cfg.Edges.{
  predecessors_at, successors_at, occurrences, predecessors_at-successors_at,
}
use impulse_jit.Cfg.Range.{AllBelow, successors_at-AllBelow}
use impulse_jit.Base.{ℕ, false, none, List, [], ◌∷◌, length, ◌≡◌, refl, arith, ◌<◌}

abbrev instruction : InstructionKind → List Text → Instruction
instruction kind operands = record { kind = kind; operands = operands }

abbrev first_instruction : Instruction
first_instruction = instruction InstructionKind.label (codes "L0" ∷ [])

abbrev other_instructions : List Instruction
other_instructions =
    instruction InstructionKind.reference (codes "x" ∷ [])
    ∷ instruction InstructionKind.branch_if (codes "L1" ∷ codes "0" ∷ [])
    ∷ instruction InstructionKind.comment (codes "body" ∷ [])
    ∷ instruction InstructionKind.branch (codes "L0" ∷ [])
    ∷ instruction InstructionKind.label (codes "L1" ∷ [])
    ∷ instruction InstructionKind.return_value []
    ∷ []

abbrev looping : Function
looping = record {
  name = codes "f";
  parameters = [];
  return_type = none;
  body_snippet = [];
  blocks =
      record { label = codes "entry"; instructions = first_instruction ∷ other_instructions } ∷ [];
  exported = false;
}

abbrev block : Text → (start end_index : ℕ) → (successors predecessors : List ℕ) → Block
block name i j successors predecessors = record {
  name = name;
  start_index = i;
  end_index = j;
  successors = successors;
  predecessors = predecessors;
}

blocks-looping :
    (build_control_flow_graph looping).blocks
    ≡ block (codes "L0") 0 3 (2 ∷ 1 ∷ []) (1 ∷ [])
      ∷ block (codes "block1") 3 5 (0 ∷ []) (0 ∷ [])
      ∷ block (codes "L1") 5 7 [] (0 ∷ [])
      ∷ []
unfolding build_control_flow_graph leaders_of insert_index block_label link_successors
    add_predecessor to_string digits_loop
blocks-looping = refl

flat-looping : flat_instructions looping.blocks ≡ first_instruction ∷ other_instructions
unfolding flat_instructions
flat-looping = refl

build_control_flow_graph-Covers_example :
    Covers (first_instruction ∷ other_instructions) 0 7 (build_control_flow_graph looping).blocks
build_control_flow_graph-Covers_example =
    build_control_flow_graph-Covers looping first_instruction other_instructions flat-looping

three_blocks : 2 < length (build_control_flow_graph looping).blocks
three_blocks = rw blocks-looping (omega arith)

predecessors_at-successors_at_example :
    occurrences 0 (predecessors_at 2 (build_control_flow_graph looping).blocks)
    ≡ occurrences 2 (successors_at 0 (build_control_flow_graph looping).blocks)
predecessors_at-successors_at_example = predecessors_at-successors_at looping 0 2 three_blocks

successors_at-AllBelow_example :
    AllBelow
      (length (build_control_flow_graph looping).blocks)
      (successors_at 0 (build_control_flow_graph looping).blocks)
successors_at-AllBelow_example = successors_at-AllBelow looping 0

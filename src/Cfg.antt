-- ===== src/Cfg.antt =====
-- ir/include/impulse/ir/cfg.h and ir/src/cfg.cpp: the control flow graph of a function. The set of leaders
-- is only read as the sorted vector that is made of it, and is a sorted list from the start. The map
-- of labels is a list of pairs that keeps the first entry of a label.
pub mod Leaders
pub mod Partition
pub mod Edges
pub mod Range
mod Tests
use impulse_jit.Token.{Text, codes, text_eq}
use impulse_jit.Ir.{Instruction, InstructionKind, BasicBlock, Function}
use impulse_jit.Ir.Decimal.{to_string}
use impulse_jit.Base.{
  ◌^◌, get_elem?, ℕ, zero, suc, ◌+◌, ◌-◌, ◌*◌, Bool, true, false, not, ◌&&◌, ◌||◌, Option, none,
  some, List, [], ◌∷◌, ◌++◌, ltb, leb, ◌==◌, if◌then◌else◌, length, Run, ok, fault, out_of_fuel,
  ◌≡◌, ◌≢◌, refl, ap, inl, inr, arith, Bool-cases, Option-cases, ◌≤◌, ◌<◌, subst,
}

pub record Block : Type 0 where
  pub name : Text
  pub start_index : ℕ
  pub end_index : ℕ
  pub successors : List ℕ
  pub predecessors : List ℕ

pub record ControlFlowGraph : Type 0 where
  pub blocks : List Block
  pub instructions : List Instruction
  pub label_to_block : List (Text × ℕ)

abbrev pub is_terminator : InstructionKind → Bool
is_terminator InstructionKind.branch = true
is_terminator InstructionKind.branch_if = true
is_terminator InstructionKind.return_value = true
is_terminator _ = false

abbrev pub is_label_kind : InstructionKind → Bool
is_label_kind InstructionKind.label = true
is_label_kind _ = false

abbrev pub first_non_empty_label : List BasicBlock → Text
first_non_empty_label [] = codes "entry"
first_non_empty_label (block ∷ blocks) = elim block.label [
  | [] ↦ first_non_empty_label blocks
  | c ∷ cs ↦ c ∷ cs
]

unfoldable pub find_index : Text → List (Text × ℕ) → Option ℕ
unfolding text_eq
find_index x [] = none
find_index x ((y, i) ∷ m) = if text_eq x y then some i else find_index x m

abbrev block_at : Option ℕ → List Block → Option Block
block_at none blocks = none
block_at (some i) blocks = get_elem? blocks i

unfoldable pub find_block : Text → ControlFlowGraph → Option Block
unfolding find_index
find_block label cfg = block_at (find_index label cfg.label_to_block) cfg.blocks

-- The instructions of all the blocks.
unfoldable pub flat_instructions : List BasicBlock → List Instruction
flat_instructions [] = []
flat_instructions (block ∷ blocks) = block.instructions ++ flat_instructions blocks

-- For each instruction, the label of its block if it is the block's first, and the empty text
-- otherwise.
abbrev first_labels : Text → List Instruction → List Text
first_labels x [] = []
first_labels x (inst ∷ insts) = x ∷ first_labels [] insts

abbrev pub original_labels : List BasicBlock → List Text
original_labels [] = []
original_labels (block ∷ blocks) =
    first_labels block.label block.instructions ++ original_labels blocks

-- An index that joins the sorted set.
unfoldable pub insert_index : ℕ → List ℕ → List ℕ
insert_index i [] = i ∷ []
insert_index i (j ∷ js) =
    if ltb i j then i ∷ j ∷ js else if i == j then j ∷ js else j ∷ insert_index i js

abbrev pub mark_leader : (index size : ℕ) → InstructionKind → List ℕ → List ℕ
mark_leader i size kind leaders =
    if is_label_kind kind
    then insert_index i leaders
    else if is_terminator kind && ltb (i + 1) size
    then insert_index (i + 1) leaders
    else leaders

unfoldable pub leader_loop : (index size : ℕ) → List Instruction → List ℕ → List ℕ
leader_loop i size [] leaders = leaders
leader_loop i size (inst ∷ code) leaders =
    leader_loop (suc i) size code (mark_leader i size inst.kind leaders)

unfoldable pub leaders_of : List Instruction → List ℕ
unfolding leader_loop
leaders_of code = leader_loop 0 (length code) code (0 ∷ [])

-- `if (leaders.back() != size) leaders.push_back(size)`.
abbrev pub close_leaders : ℕ → List ℕ → List ℕ
close_leaders size [] = size ∷ []
close_leaders size (i ∷ []) = if i == size then i ∷ [] else i ∷ size ∷ []
close_leaders size (i ∷ j ∷ js) = i ∷ close_leaders size (j ∷ js)

abbrev operand_label : InstructionKind → List Text → Text
operand_label InstructionKind.label (x ∷ xs) = x
operand_label _ _ = []

abbrev instruction_label : Option Instruction → Text
instruction_label none = []
instruction_label (some inst) = operand_label inst.kind inst.operands

abbrev text_or_empty : Option Text → Text
text_or_empty none = []
text_or_empty (some x) = x

-- The first of the texts that is not empty.
abbrev or_text : Text → Text → Text
or_text [] y = y
or_text (c ∷ cs) y = c ∷ cs

unfoldable pub block_label : List Instruction → List Text → (idx start : ℕ) → Text
block_label code originals idx start =
    or_text (instruction_label (get_elem? code start))
      (or_text (text_or_empty (get_elem? originals start)) (codes "block" ++ to_string idx))

-- A block for each leader but the last.
unfoldable pub block_loop : List Instruction → List Text → (idx : ℕ) → List ℕ → List Block
block_loop code originals idx [] = []
block_loop code originals idx (start ∷ []) = []
block_loop code originals idx (start ∷ end_index ∷ leaders) =
    record {
      name = block_label code originals idx start;
      start_index = start;
      end_index = end_index;
      successors = [];
      predecessors = [];
    }
    ∷ block_loop code originals (suc idx) (end_index ∷ leaders)

-- `map.find(label) == end` before `map[label] = index`.
abbrev add_label : Text → ℕ → List (Text × ℕ) → List (Text × ℕ)
add_label x i m = elim (find_index x m) [ none ↦ m ++ (x, i) ∷ [] | some j ↦ m ]

unfoldable pub label_blocks : ℕ → List Block → List (Text × ℕ) → List (Text × ℕ)
unfolding find_index
label_blocks idx [] m = m
label_blocks idx (block ∷ blocks) m = label_blocks (suc idx) blocks (add_label block.name idx m)

abbrev is_silent : InstructionKind → Bool
is_silent InstructionKind.label = true
is_silent InstructionKind.comment = true
is_silent _ = false

-- The last instruction before `i + n` and not before `i` that is no label and no comment.
unfoldable pub last_action : List Instruction → (start count : ℕ) → Option Instruction
last_action code start zero = none
last_action code start (suc n) = elim (get_elem? code (start + n)) [
  | none ↦ last_action code start n
  | some inst ↦ if is_silent inst.kind then last_action code start n else some inst
]

abbrev next_block : (idx count : ℕ) → List ℕ
next_block idx count = if ltb (idx + 1) count then (idx + 1) ∷ [] else []

abbrev target_index : Option ℕ → List ℕ
target_index none = []
target_index (some i) = i ∷ []

abbrev target_block : List (Text × ℕ) → List Text → List ℕ
target_block m [] = []
target_block m (x ∷ xs) = target_index (find_index x m)

abbrev successors_of : List (Text × ℕ) → (idx count : ℕ) → InstructionKind → List Text → List ℕ
successors_of m idx count InstructionKind.branch operands = target_block m operands
successors_of m idx count InstructionKind.branch_if operands =
    target_block m operands ++ next_block idx count
successors_of m idx count InstructionKind.return_value operands = []
successors_of m idx count _ operands = next_block idx count

unfoldable pub block_successors :
    List Instruction → List (Text × ℕ) → (idx count : ℕ) → Block → List ℕ
unfolding last_action
block_successors code m idx count block =
    elim (last_action code block.start_index (block.end_index - block.start_index)) [
      | none ↦ next_block idx count
      | some inst ↦ successors_of m idx count inst.kind inst.operands
    ]

unfoldable pub successor_loop :
    List Instruction → List (Text × ℕ) → (idx count : ℕ) → List Block → List Block
unfolding block_successors
successor_loop code m idx count [] = []
successor_loop code m idx count (block ∷ blocks) =
    record block { successors = block_successors code m idx count block }
    ∷ successor_loop code m (suc idx) count blocks

-- `blocks[succ].predecessors.push_back(idx)` where there is such a block.
unfoldable pub add_predecessor : (idx succ : ℕ) → List Block → List Block
add_predecessor idx i [] = []
add_predecessor idx zero (block ∷ blocks) =
    record block { predecessors = block.predecessors ++ idx ∷ [] } ∷ blocks
add_predecessor idx (suc i) (block ∷ blocks) = block ∷ add_predecessor idx i blocks

unfoldable pub link_successors : (idx : ℕ) → List ℕ → List Block → List Block
link_successors idx [] blocks = blocks
link_successors idx (i ∷ is) blocks = link_successors idx is (add_predecessor idx i blocks)

-- The blocks from `idx` on, whose successors do not change, and all the blocks.
unfoldable pub predecessor_loop : (idx : ℕ) → (rest blocks : List Block) → List Block
predecessor_loop idx [] blocks = blocks
predecessor_loop idx (block ∷ rest) blocks =
    predecessor_loop (suc idx) rest (link_successors idx block.successors blocks)

abbrev empty_graph : Text → ControlFlowGraph
empty_graph name = record {
  blocks =
      record { name = name; start_index = 0; end_index = 0; successors = []; predecessors = [] }
      ∷ [];
  instructions = [];
  label_to_block = (name, 0) ∷ [];
}

abbrev pub graph_of : List Instruction → List Text → ControlFlowGraph
graph_of code originals =
    let blocks = block_loop code originals 0 (close_leaders (length code) (leaders_of code)) in
    let m = label_blocks 0 blocks [] in
    let linked = successor_loop code m 0 (length blocks) blocks in
    record { blocks = predecessor_loop 0 linked linked; instructions = code; label_to_block = m }

abbrev graph_or_empty : List Instruction → List BasicBlock → ControlFlowGraph
graph_or_empty [] blocks = empty_graph (first_non_empty_label blocks)
graph_or_empty (inst ∷ code) blocks = graph_of (inst ∷ code) (original_labels blocks)

unfoldable pub build_control_flow_graph : Function → ControlFlowGraph
unfolding flat_instructions block_loop label_blocks successor_loop predecessor_loop
build_control_flow_graph function =
    graph_or_empty (flat_instructions function.blocks) function.blocks

-- ===== src/Interp/InstructionTests.antt =====
-- Runs of the instructions of the SSA interpreter on numbers, of phi nodes and of branches.
use impulse_jit.Interp.Flow.{Control, handle_branch_if, refuse, resolve_block}
use impulse_jit.Interp.Flow.Merging.{handle_branch_if-same_successors}
use impulse_jit.Interp.Phi.{cached_input, materialize_phi}
use impulse_jit.Interp.Phi.Parallel.{materialize_phi-moved, Move, phis_of, AreReady, InRange}
use impulse_jit.Interp.Scalars.{Sizes, handle_binary, handle_unary, binary_number, to_index}
use impulse_jit.Interp.Scalars.Remainder.{handle_binary-remainder}
use impulse_jit.Interp.Scalars.Agree.{Agrees, handle_binary-apply_binary, handle_unary-apply_unary}
use impulse_jit.Stack.{apply_binary, apply_unary, running}
use impulse_jit.Interp.Builtins.{string_slice, string_trim}
use impulse_jit.Interp.Builtins.Trimming.{string_trim-bare, AreSpaces, BeginsBare, EndsBare}
use impulse_jit.Interp.Builtins.Slices.{
  string_slice-bounds, string_slice-wraps, IsSlice, arguments_of,
}
use impulse_jit.Cfg.{Block, block_successors, last_action, find_index}
use impulse_jit.Ir.{Instruction, InstructionKind, InstructionKind}
use impulse_jit.Floats.{Doubles, pos, negsuc}
use impulse_jit.Ssa.{
  SsaOpcode, SsaOpcode, opcode_to_string, binary_op_from_string, PhiInput, PhiNode, SsaBlock,
}
use impulse_jit.Heap.{make_string, make_number}
use impulse_jit.Token.{Text, codes, text_eq}
use impulse_jit.Interp.{
  failing, VmStatus, VmStatus, SsaState, SsaValue, SsaInstruction, encode_value_id, lookup_value,
  store_value,
}
use impulse_jit.Base.{
  ◌⊎◌, ◌++◌, ◌/◌, ◌^◌, ℕ, suc, ◌+◌, ◌-◌, ◌*◌, Bool, true, false, none, some, List, [], ◌∷◌, ltb,
  leb, ◌==◌, if◌then◌else◌, length, ok, ◌≡◌, ◌≢◌, refl, ap, arith, ◌<◌,
}

-- Doubles that are whole numbers.
abbrev wholes : Doubles
wholes = record {
  add = λ a b. a + b;
  sub = λ a b. a - b + (b - a);
  mul = λ a b. a * b;
  div = λ a b. a / b;
  neg = λ a. a;
  abs = λ a. a;
  same = λ a b. a == b;
  less = λ a b. ltb a b;
  less_equal = λ a b. leb a b;
  zero_value = 0;
  one_value = 1;
  epsilon = 1;
  is_finite = λ a. true;
  to_int = λ a. some (pos a);
  of_int = λ a. elim a [ pos n ↦ n | negsuc n ↦ 0 ];
  parse = λ x. some (0, length x);
  round = λ a. a;
  nano = 1;
  to_long_long = λ a. pos a;
  print = λ a. [];
}

abbrev sizes : Sizes
sizes = record {
  floor = λ a. a - 1;
  size_limit = 2 ^ 64;
  to_size = λ a. if ltb a (2 ^ 64) then some a else none;
  of_size = λ n. n;
}

abbrev ssa : ℕ → ℕ → SsaValue
ssa symbol version = record { symbol = symbol; version = version }

-- `a` is 7 and `b` is 2.
abbrev two_values : SsaState
two_values = record {
  value_cache =
      (encode_value_id (ssa 1 2), make_number 7) ∷ (encode_value_id (ssa 2 1), make_number 2) ∷ [];
  symbol_id_to_name = (1, codes "a") ∷ (2, codes "b") ∷ [];
  parameters = [];
  locals = (codes "b", make_number 2) ∷ [];
  globals = [];
  modules = [];
  callers = [];
  heap = record { objects = []; bytes_allocated = 0; next_gc_threshold = 200 };
}

abbrev instruction : SsaOpcode → Text → List SsaValue → List Text → SsaInstruction
instruction op symbol arguments immediates = record {
  op = op;
  binary_op = binary_op_from_string symbol;
  opcode = opcode_to_string op;
  arguments = arguments;
  immediates = immediates;
  result = some (ssa 3 1);
}

abbrev difference : SsaInstruction
difference = instruction SsaOpcode.binary (codes "-") (ssa 1 2 ∷ ssa 2 1 ∷ []) (codes "-" ∷ [])

abbrev negation : SsaInstruction
negation = instruction SsaOpcode.unary [] (ssa 1 2 ∷ []) (codes "!" ∷ [])

abbrev starts_with_minus : Text → Bool
starts_with_minus [] = false
starts_with_minus (c ∷ cs) = c == 45

minus_is_no_remainder : codes "-" ≢ codes "%"
minus_is_no_remainder e = let t = ap starts_with_minus e in absurd cc

handle_binary-apply_binary_example :
    Agrees
      (ssa 3 1)
      two_values
      (apply_binary wholes (codes "-") 7 2)
      (handle_binary wholes sizes difference two_values)
unfolding lookup_value encode_value_id
handle_binary-apply_binary_example =
    handle_binary-apply_binary wholes sizes (codes "-") difference two_values (ssa 3 1) (ssa 1 2)
      (ssa 2 1) [] 7 2 refl refl refl refl refl minus_is_no_remainder

handle_unary-apply_unary_example :
    Agrees
      (ssa 3 1)
      two_values
      (apply_unary wholes (codes "!") 7)
      (handle_unary wholes negation two_values)
unfolding lookup_value encode_value_id
handle_unary-apply_unary_example =
    handle_unary-apply_unary wholes (codes "!") negation two_values (ssa 3 1) (ssa 1 2) [] [] 7 refl
      refl refl refl

-- The two interpreters on a remainder.
remainders :
    (handle_binary wholes sizes
        (instruction SsaOpcode.binary (codes "%") (ssa 1 2 ∷ ssa 2 1 ∷ []) [])
        two_values
      ≡ ok (none, store_value (ssa 3 1) (make_number 1) two_values))
    × (apply_binary wholes (codes "%") 7 2 ≡ running 1)
unfolding lookup_value encode_value_id handle_binary binary_number to_index binary_op_from_string
    text_eq apply_binary
remainders = (refl, refl)

abbrev from_block : ℕ → SsaValue → PhiInput
from_block p v = record { predecessor = p; value = some v }

abbrev phi_of : SsaValue → (first second : SsaValue) → PhiNode
phi_of result first second = record {
  result = result;
  symbol = result.symbol;
  inputs = from_block 0 first ∷ from_block 4 second ∷ [];
}

abbrev moves : List Move
moves =
    record { phi = phi_of (ssa 1 3) (ssa 1 1) (ssa 1 2); input = ssa 1 2; value = make_number 7 }
    ∷ record { phi = phi_of (ssa 2 2) (ssa 2 5) (ssa 2 1); input = ssa 2 1; value = make_number 2 }
    ∷ []

positive : (n : ℕ) → 0 < suc n
positive n = omega arith

in_range : (k n : ℕ) → suc n < 2 ^ 32 → InRange (ssa k (suc n))
in_range k n h = (positive n, h)

moves-AreReady : AreReady (phis_of moves) 4 two_values moves
unfolding lookup_value encode_value_id cached_input
moves-AreReady = (
  (refl, refl, in_range 1 1 (omega arith), in_range 1 2 (omega arith)),
  ((refl, refl, in_range 2 0 (omega arith), in_range 2 1 (omega arith)), tt),
)

materialize_phi-moved_example :
    (s' : SsaState) × (materialize_phi wholes (phis_of moves) (phis_of moves) (some 4) two_values
      ≡ ok (none, s'))
    × (lookup_value (ssa 1 3) s' ≡ some (make_number 7))
materialize_phi-moved_example =
    materialize_phi-moved wholes (phis_of moves) 4 moves two_values (ssa 1 3)
      (in_range 1 2 (omega arith)) moves-AreReady (((refl, refl), tt), (tt, tt))

-- `if a { } return 0;`.
abbrev merging : List Instruction
merging =
    record { kind = InstructionKind.reference; operands = codes "a" ∷ [] }
    ∷ record { kind = InstructionKind.branch_if; operands = codes "L0" ∷ codes "0" ∷ [] }
    ∷ record { kind = InstructionKind.label; operands = codes "L0" ∷ [] }
    ∷ record { kind = InstructionKind.literal; operands = codes "0" ∷ [] }
    ∷ record { kind = InstructionKind.return_value; operands = [] }
    ∷ []

abbrev entry : Block
entry = record {
  name = codes "entry";
  start_index = 0;
  end_index = 2;
  successors = [];
  predecessors = [];
}

abbrev ssa_block : ℕ → Text → List ℕ → SsaBlock
ssa_block id name successors = record {
  id = id;
  name = name;
  phi_nodes = [];
  instructions = [];
  successors = successors;
  predecessors = [];
  immediate_dominator = 0;
  dominator_children = [];
  dominance_frontier = [];
}

abbrev start : Control
start = record { next_block = none; previous = none; jumped = false }

abbrev blocks : List SsaBlock
blocks = ssa_block 0 (codes "entry") (1 ∷ 1 ∷ []) ∷ ssa_block 1 (codes "L0") [] ∷ []

handle_branch_if-same_successors_example :
    handle_branch_if wholes blocks
      (ssa_block 0 (codes "entry") (1 ∷ 1 ∷ []))
      (instruction SsaOpcode.branch_if [] (ssa 1 2 ∷ []) (codes "L0" ∷ codes "0" ∷ []))
      0
      start
      two_values
    ≡ refuse VmStatus.runtime_error (codes "branch_if missing fallthrough successor") start
unfolding lookup_value encode_value_id resolve_block text_eq block_successors last_action find_index
handle_branch_if-same_successors_example =
    handle_branch_if-same_successors merging ((codes "L0", 1) ∷ []) 0 2 entry
      (record { kind = InstructionKind.branch_if; operands = codes "L0" ∷ codes "0" ∷ [] })
      (codes "L0") (codes "0" ∷ []) wholes blocks (ssa_block 0 (codes "entry") (1 ∷ 1 ∷ []))
      (instruction SsaOpcode.branch_if [] (ssa 1 2 ∷ []) (codes "L0" ∷ codes "0" ∷ [])) (ssa 1 2) []
      start two_values 7 0 refl refl refl refl (omega arith) refl refl refl refl refl refl refl

index_of_whole : (n : ℕ) → n < 2 ^ 64 → to_index wholes sizes n ≡ ok (some n)
unfolding to_index
index_of_whole n h =
    let same : n + 1 - 1 ≡ n = omega arith in
    let none_left : n - n + (n - n) ≡ 0 = omega arith in
    let below : ltb (2 ^ 64) n ≡ false = ground arith in
    let fits : ltb n (2 ^ 64) ≡ true = ground arith in
    let natural : ltb n 0 ≡ false = ground arith in rw (same, none_left, below, fits, natural) refl

string_slice-bounds_example :
    ((piece : Text) × IsSlice (codes "hello") 1 3 piece
      × (string_slice wholes sizes (arguments_of (codes "hello") 1 3) (some (ssa 3 1)) two_values
          ≡ ok (none, store_value (ssa 3 1) (make_string piece) two_values)))
    ⊎ ((5 < 4)
        × (message : Text) × (string_slice wholes sizes
              (arguments_of (codes "hello") 1 3)
              (some (ssa 3 1))
              two_values
            ≡ failing VmStatus.runtime_error message two_values))
string_slice-bounds_example =
    string_slice-bounds wholes sizes (codes "hello") 1 3 1 3 (ssa 3 1) two_values
      (index_of_whole 1 (omega arith)) (index_of_whole 3 (omega arith)) (omega arith)

string_slice-wraps_example :
    (before : Text) × (piece : Text) × (codes "hello" ≡ before ++ piece)
    × (length before ≡ 2)
    × (length piece < 2 ^ 64 - 2)
    × (string_slice wholes sizes
          (arguments_of (codes "hello") 2 (2 ^ 64 - 2))
          (some (ssa 3 1))
          two_values
        ≡ ok (none, store_value (ssa 3 1) (make_string piece) two_values))
string_slice-wraps_example =
    string_slice-wraps wholes sizes (codes "hello") 2 (2 ^ 64 - 2) 2 (2 ^ 64 - 2) (ssa 3 1)
      two_values (index_of_whole 2 (omega arith)) (index_of_whole (2 ^ 64 - 2) (omega arith))
      (omega arith) (omega arith) (omega arith) (omega arith)

string_trim-bare_example :
    (before : Text) × (piece : Text) × (after : Text) × (codes "  a b "
      ≡ before ++ (piece ++ after))
    × AreSpaces before
    × AreSpaces after
    × BeginsBare piece
    × EndsBare piece
    × (string_trim (make_string (codes "  a b ") ∷ []) (some (ssa 3 1)) two_values
        ≡ ok (none, store_value (ssa 3 1) (make_string piece) two_values))
string_trim-bare_example = string_trim-bare (codes "  a b ") (ssa 3 1) two_values

-- A number from 100 on is negative.
abbrev signed : Doubles
signed = record wholes {
  less = λ a b. if b == 0 then leb 100 a else ltb a b;
  to_int = λ a. if leb 100 a then some (negsuc (a - 101)) else some (pos a);
}

-- `a` is minus 7 and `b` is 2.
abbrev negative_value : SsaState
negative_value = record two_values {
  value_cache =
      (encode_value_id (ssa 1 2), make_number 107)
      ∷ (encode_value_id (ssa 2 1), make_number 2)
      ∷ [];
}

abbrev remainder_of : SsaInstruction
remainder_of = instruction SsaOpcode.binary (codes "%") (ssa 1 2 ∷ ssa 2 1 ∷ []) (codes "%" ∷ [])

handle_binary-remainder_example :
    (handle_binary signed sizes remainder_of negative_value
      ≡ failing VmStatus.runtime_error
          (codes "modulo requires non-negative integer operands and non-zero divisor")
          negative_value)
    × (apply_binary signed (codes "%") 107 2 ≡ running (signed.of_int (negsuc 0)))
unfolding lookup_value encode_value_id binary_op_from_string text_eq to_index
handle_binary-remainder_example =
    handle_binary-remainder signed sizes remainder_of negative_value (ssa 3 1) (ssa 1 2) (ssa 2 1)
      [] 107 2 (some 2) (negsuc 6) (pos 2) (negsuc 0) refl refl refl refl refl refl refl refl refl
      refl refl

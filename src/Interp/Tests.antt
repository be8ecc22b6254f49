-- ===== src/Interp/Tests.antt =====
-- Runs of the values of the SSA interpreter: a loop that keeps the array of the round before in a variable.
use impulse_jit.Interp.Arrays.Laws.{handle_array_push-uncounted, handle_array_get-handle_array_set}
use impulse_jit.Heap.Sweep.{total_bytes}
use impulse_jit.Interp.Arrays.{handle_array_get, handle_array_push, Doubles, handle_array_set}
use impulse_jit.Interp.Store.{handle_assign-lookup, lookup_value-store_value}
use impulse_jit.Ssa.{SsaOpcode, SsaOpcode, BinaryOp, BinaryOp, opcode_to_string}
use impulse_jit.Token.{codes, text_eq}
use impulse_jit.Heap.Roots.{gather_roots}
use impulse_jit.Heap.Collect.{step, root, IsValid, AreStored, Reach, root_refs}
use impulse_jit.Interp.Dangling.{handle_array_make-dangling, allocated}
use impulse_jit.Heap.{
  Layout, should_collect, find, make_number, make_object, array, allocate_array, GcObject, make_nil,
  Ptr, Value,
}
use impulse_jit.Interp.{
  vm_of, number_of, handle_array_make, encode_value_id, handle_assign, SsaInstruction, SsaValue,
  store_value, lookup_value, SsaState,
}
use impulse_jit.Base.{
  ◌+◌, ℕ, true, false, ◌&&◌, none, some, List, [], ◌∷◌, ◌==◌, if◌then◌else◌, ok, ◌≡◌, refl, arith,
}

abbrev layout : Layout
layout = record { object_size = 48; value_size = 56 }

abbrev ssa : ℕ → ℕ → SsaValue
ssa symbol version = record { symbol = symbol; version = version }

abbrev instruction : SsaOpcode → List SsaValue → SsaValue → SsaInstruction
instruction op arguments result = record {
  op = op;
  binary_op = BinaryOp.unknown;
  opcode = opcode_to_string op;
  arguments = arguments;
  immediates = [];
  result = some result;
}

abbrev array_of : List Value → GcObject
array_of fields = record { kind = array; marked = false; fields = fields }

-- `x.2` is the array at 5; the temporary `%t0.1` was it too, and is assigned anew.
abbrev looping : SsaState
looping = record {
  value_cache =
      (encode_value_id (ssa 3 2), make_object 5)
      ∷ (encode_value_id (ssa 8 1), make_number 2)
      ∷ (encode_value_id (ssa 7 1), make_object 5)
      ∷ [];
  symbol_id_to_name = (3, codes "x") ∷ (7, codes "%t0") ∷ (8, codes "%t1") ∷ [];
  parameters = [];
  locals = (codes "%t1", make_number 2) ∷ (codes "%t0", make_object 5) ∷ [];
  globals = [];
  modules = [];
  callers = [];
  heap = record {
    objects = (5, array_of (make_number 1 ∷ [])) ∷ [];
    bytes_allocated = 104;
    next_gc_threshold = 200;
  };
}

abbrev make_array : SsaInstruction
make_array = instruction SsaOpcode.array_make (ssa 8 1 ∷ []) (ssa 7 1)

abbrev behind : SsaState
behind = allocated layout 9 (ssa 7 1) 2 looping

abbrev roots : List Ptr
roots = root_refs (gather_roots (vm_of behind))

behind-IsValid : IsValid behind.heap
unfolding store_value allocate_array encode_value_id text_eq
behind-IsValid = record {
  unmarked = refl;
  distinct = (refl, (refl, tt));
  no_null = refl;
  closed = λ p q h. ground arith;
}

roots-AreStored : AreStored behind.heap roots
unfolding store_value allocate_array encode_value_id text_eq gather_roots
roots-AreStored p h = ground arith

Reach-new : {p : Ptr} → Reach behind.heap.objects roots p → p ≡ 9
unfolding store_value allocate_array encode_value_id text_eq gather_roots
Reach-new (root {p} m) = ground arith
Reach-new (step {p} {q} r e) = let from = Reach-new r in ground arith

lookup_value-store_value_example :
    lookup_value (ssa 3 2) (store_value (ssa 7 1) make_nil looping)
    ≡ (if 3 == 7 && 2 == 1 then some make_nil else lookup_value (ssa 3 2) looping)
lookup_value-store_value_example =
    lookup_value-store_value (ssa 3 2) (ssa 7 1) make_nil looping (omega arith) (omega arith)
      (omega arith) refl

abbrev assign_y : SsaInstruction
assign_y = instruction SsaOpcode.assign (ssa 3 2 ∷ []) (ssa 4 2)

lookup-x : lookup_value (ssa 3 2) looping ≡ some (make_object 5)
unfolding lookup_value encode_value_id
lookup-x = refl

handle_assign-lookup_example :
    (s' : SsaState) × (handle_assign assign_y looping ≡ ok (none, s'))
    × (lookup_value (ssa 4 2) s' ≡ some (make_object 5))
handle_assign-lookup_example =
    handle_assign-lookup assign_y looping (ssa 4 2) (ssa 3 2) (make_object 5) refl lookup-x
      (omega arith) (omega arith)

lookup-length : number_of (lookup_value (ssa 8 1) looping) ≡ some 2
unfolding lookup_value encode_value_id
lookup-length = refl

due : should_collect behind.heap ≡ true
unfolding store_value allocate_array encode_value_id text_eq
due = refl

five-nine : (a : ℕ) → a ≡ 5 → a ≡ 9 → ⊥
five-nine a e h = omega arith

handle_array_make-dangling_example :
    (s' : SsaState) × (handle_array_make layout (λ x. some x) 9 make_array looping ≡ ok (none, s'))
    × (lookup_value (ssa 3 2) s' ≡ some (make_object 5))
    × (find 5 s'.heap.objects ≡ none)
handle_array_make-dangling_example =
    handle_array_make-dangling layout (λ x. some x) 9 make_array looping (ssa 7 1) (ssa 8 1)
      (ssa 3 2) 2 2 5 behind-IsValid roots-AreStored due refl lookup-length refl refl (omega arith)
      (omega arith) (omega arith) refl lookup-x (λ r. five-nine 5 refl (Reach-new r))

-- Doubles whose bits are the number.
abbrev exact : Doubles
exact = record {
  negative = λ x. false;
  to_size = λ x. some x;
  of_size = λ n. n;
  same = λ x y. x == y;
}

-- As `looping`, with an index 0 in `%t2.1`.
abbrev indexed : SsaState
indexed = store_value (ssa 9 1) (make_number 0) looping

abbrev set_x : SsaInstruction
set_x = instruction SsaOpcode.array_set (ssa 3 2 ∷ ssa 9 1 ∷ ssa 8 1 ∷ []) (ssa 10 1)

abbrev get_x : SsaInstruction
get_x = instruction SsaOpcode.array_get (ssa 3 2 ∷ ssa 9 1 ∷ []) (ssa 11 1)

abbrev push_x : SsaInstruction
push_x = instruction SsaOpcode.array_push (ssa 3 2 ∷ ssa 8 1 ∷ []) (ssa 10 1)

indexed-x : lookup_value (ssa 3 2) indexed ≡ some (make_object 5)
unfolding lookup_value store_value encode_value_id text_eq
indexed-x = refl

indexed-zero : number_of (lookup_value (ssa 9 1) indexed) ≡ some 0
unfolding lookup_value store_value encode_value_id text_eq
indexed-zero = refl

indexed-two : lookup_value (ssa 8 1) indexed ≡ some (make_number 2)
unfolding lookup_value store_value encode_value_id text_eq
indexed-two = refl

indexed-array : find 5 indexed.heap.objects ≡ some (array_of (make_number 1 ∷ []))
unfolding store_value encode_value_id text_eq
indexed-array = refl

handle_array_get-handle_array_set_example :
    (s' s'' : SsaState) × (handle_array_set exact set_x indexed ≡ ok (none, s'))
    × (handle_array_get exact get_x s' ≡ ok (none, s''))
    × (lookup_value (ssa 11 1) s'' ≡ some (make_number 2))
handle_array_get-handle_array_set_example =
    handle_array_get-handle_array_set exact set_x get_x indexed (ssa 10 1) (ssa 11 1) (ssa 3 2)
      (ssa 9 1) (ssa 8 1) (make_object 5) (make_number 2) (make_number 1) 0 0
      (array_of (make_number 1 ∷ [])) refl refl (omega arith) (omega arith) refl refl indexed-x
      indexed-zero indexed-two refl indexed-array refl refl

handle_array_push-uncounted_example :
    (s' : SsaState) × (handle_array_push exact push_x indexed ≡ ok (none, s'))
    × (find 5 s'.heap.objects ≡ some (array_of (make_number 1 ∷ make_number 2 ∷ [])))
    × (s'.heap.bytes_allocated ≡ indexed.heap.bytes_allocated)
    × (total_bytes layout s'.heap.objects ≡ total_bytes layout indexed.heap.objects + 56)
handle_array_push-uncounted_example =
    handle_array_push-uncounted layout exact push_x indexed (ssa 10 1) (ssa 3 2) (ssa 8 1)
      (make_object 5) (make_number 2) (array_of (make_number 1 ∷ [])) refl indexed-x indexed-two
      refl indexed-array

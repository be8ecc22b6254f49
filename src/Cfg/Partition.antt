-- ===== src/Cfg/Partition.antt =====
-- ir/src/cfg.cpp: the blocks cut the instructions into pieces that are entered at the start alone and left
-- at the end alone.
use impulse_jit.Token.{Text}
use impulse_jit.Ir.{Instruction, Function}
use impulse_jit.Cfg.{
  Block, leaders_of, close_leaders, block_loop, successor_loop, predecessor_loop, link_successors,
  add_predecessor, build_control_flow_graph, flat_instructions, original_labels, label_blocks,
}
use impulse_jit.Cfg.Leaders.{
  contains, Increasing, is_leader, contains-leaders_of, Increasing-leaders_of,
}
use impulse_jit.Base.{
  ◌∙◌, sym, get_elem?, ℕ, zero, suc, true, false, none, List, [], ◌∷◌, ltb, ◌==◌, if◌then◌else◌,
  length, ◌≡◌, ◌≢◌, refl, inl, inr, arith, Bool-cases, ◌≤◌, ◌<◌,
}

-- A leader, and no other before the end.
abbrev pub IsStraight : List Instruction → (start end_index : ℕ) → Type 0
IsStraight code lo hi =
    (is_leader code lo ≡ true) × ((j : ℕ) → lo < j → j < hi → is_leader code j ≡ false)

-- The blocks follow one another from `lo` to `hi`; each has an instruction and is straight.
abbrev pub Covers : List Instruction → (lo hi : ℕ) → List Block → Type 0
Covers code lo hi [] = lo ≡ hi
Covers code lo hi (b ∷ bs) =
    (b.start_index ≡ lo)
    × (lo < b.end_index)
    × IsStraight code lo b.end_index
    × Covers code b.end_index hi bs

Covers-successor_loop :
    (code : List Instruction) (lo hi : ℕ) (bs : List Block) (insts : List Instruction)
    → (m : List (Text × ℕ)) (idx count : ℕ) → Covers code lo hi bs
    → Covers code lo hi (successor_loop insts m idx count bs)
unfolding successor_loop
Covers-successor_loop code lo hi [] insts m idx count h = h
Covers-successor_loop code lo hi (b ∷ bs) insts m idx count (s, e, t, h) =
    (s, e, t, Covers-successor_loop code b.end_index hi bs insts m (suc idx) count h)

Covers-add_predecessor :
    (code : List Instruction) (lo hi : ℕ) (bs : List Block) (idx i : ℕ)
    → Covers code lo hi bs
    → Covers code lo hi (add_predecessor idx i bs)
unfolding add_predecessor
Covers-add_predecessor code lo hi [] idx i h = h
Covers-add_predecessor code lo hi (b ∷ bs) idx zero h = h
Covers-add_predecessor code lo hi (b ∷ bs) idx (suc i) (s, e, t, h) =
    (s, e, t, Covers-add_predecessor code b.end_index hi bs idx i h)

Covers-link_successors :
    (code : List Instruction) (lo hi idx : ℕ) (is : List ℕ) (bs : List Block)
    → Covers code lo hi bs
    → Covers code lo hi (link_successors idx is bs)
unfolding link_successors
Covers-link_successors code lo hi idx [] bs h = h
Covers-link_successors code lo hi idx (i ∷ is) bs h =
    Covers-link_successors code lo hi idx is _ (Covers-add_predecessor code lo hi bs idx i h)

Covers-predecessor_loop :
    (code : List Instruction) (lo hi : ℕ) (rest bs : List Block) (idx : ℕ)
    → Covers code lo hi bs
    → Covers code lo hi (predecessor_loop idx rest bs)
unfolding predecessor_loop
Covers-predecessor_loop code lo hi [] bs idx h = h
Covers-predecessor_loop code lo hi (b ∷ rest) bs idx h =
    Covers-predecessor_loop code lo hi rest _ (suc idx)
      (Covers-link_successors code lo hi idx b.successors bs h)

contains-Increasing : (lo j : ℕ) (is : List ℕ) → Increasing lo is → j < lo → contains j is ≡ false
contains-Increasing lo j [] h l = refl
contains-Increasing lo j (i ∷ is) h l = ground (arith, contains-Increasing (suc i) j is)

own :
    (code : List Instruction) (i : ℕ) (is : List ℕ)
    → ((j : ℕ) → i ≤ j → contains j (i ∷ is) ≡ is_leader code j)
    → is_leader code i ≡ true
own code i is same =
    let e : (i == i) ≡ true = ground arith in sym (same i (omega arith)) ∙ rw e refl

contains-other :
    (j i : ℕ) (is : List ℕ) → i < j → contains j is ≡ false → contains j (i ∷ is) ≡ false
contains-other j i is l h = ground arith

contains-later : (j i : ℕ) (is : List ℕ) → i < j → contains j (i ∷ is) ≡ contains j is
contains-later j i is l = ground arith

is_leader-below :
    (code : List Instruction) (i : ℕ)
    → is_leader code i ≡ true
    → ((j : ℕ) → length code ≤ j → is_leader code j ≡ false)
    → i < length code
is_leader-below code i h none_behind = elim (Bool-cases (ltb i (length code))) [
  | inl b ↦ ground arith
  | inr b ↦ absurd (contradiction (sym h ∙ none_behind i (ground arith)))
]
  where
    contradiction : true ≢ false
    contradiction q = cc

-- What stands behind the first of the closed leaders.
abbrev close_tail : ℕ → ℕ → List ℕ → List ℕ
close_tail size j [] = if j == size then [] else size ∷ []
close_tail size j (k ∷ ks) = close_leaders size (k ∷ ks)

close_leaders-head :
    (size j : ℕ) (js : List ℕ) → close_leaders size (j ∷ js) ≡ j ∷ close_tail size j js
close_leaders-head size j [] = elim (Bool-cases (j == size)) [
  | inl b ↦ rw b refl
  | inr b ↦ rw b refl
]
close_leaders-head size j (k ∷ ks) = refl

-- From the leaders, which are those of the code from `i` on, to the blocks.
Covers-block_loop :
    (code : List Instruction) (originals : List Text) (idx i : ℕ) (is : List ℕ)
    → Increasing (suc i) is
    → ((j : ℕ) → i ≤ j → contains j (i ∷ is) ≡ is_leader code j)
    → ((j : ℕ) → length code ≤ j → is_leader code j ≡ false)
    → Covers code i
        (length code)
        (block_loop code originals idx (close_leaders (length code) (i ∷ is)))
unfolding block_loop
Covers-block_loop code originals idx i [] h same none_behind =
    let lead : is_leader code i ≡ true = own code i [] same in
    let below : i < length code = is_leader-below code i lead none_behind in
    let open_end : (i == length code) ≡ false = ground arith in
    rw open_end (
      refl,
      below,
      (lead, λ j l l'. sym (same j (omega arith)) ∙ contains-other j i [] l refl),
      refl,
    )
Covers-block_loop code originals idx i (j ∷ js) (l, h) same none_behind =
    let lead : is_leader code i ≡ true = own code i (j ∷ js) same in
    let next =
      Covers-block_loop code originals (suc idx) j js h
        (λ k l'. sym (contains-later k i (j ∷ js) (omega arith)) ∙ same k (omega arith))
        none_behind in
    rw (close_leaders-head (length code) j js) (
      refl,
      l,
      (
        lead,
        λ k l' l''.
            sym (same k (omega arith))
            ∙ contains-other k i (j ∷ js) l'
                (contains-Increasing j k (j ∷ js) (omega arith, h) l''),
      ),
      rw (close_leaders-head (length code) j js) at next,
    )

get_elem?-behind : {A : Type 0} (xs : List A) (j : ℕ) → length xs ≤ j → get_elem? xs j ≡ none
get_elem?-behind [] j h = refl
get_elem?-behind (x ∷ xs) zero h = absurd (omega arith)
get_elem?-behind (x ∷ xs) (suc j) h = get_elem?-behind xs j (omega arith)

is_leader-behind :
    (inst : Instruction) (code : List Instruction) (j : ℕ)
    → length (inst ∷ code) ≤ j
    → is_leader (inst ∷ code) j ≡ false
is_leader-behind inst code zero h = absurd (omega arith)
is_leader-behind inst code (suc j) h = ground (arith, get_elem?-behind code j)

first_of-Increasing :
    (is : List ℕ)
    → Increasing 0 is
    → contains 0 is ≡ true
    → (js : List ℕ) × (is ≡ 0 ∷ js) × Increasing 1 js
first_of-Increasing [] h c = cc
first_of-Increasing (zero ∷ is) h c = (is, refl, h.1)
first_of-Increasing (suc i ∷ is) h c =
    absurd (
      contradiction (sym c ∙ contains-Increasing 1 0 (suc i ∷ is) (omega arith, h.1) (omega arith)))
  where
    contradiction : true ≢ false
    contradiction q = cc

-- The blocks of a function with an instruction follow one another from the first instruction to
-- the last; each has an instruction, and its first instruction, and no other of its, is the
-- function's first, a label or behind a terminator.
pub build_control_flow_graph-Covers :
    (f : Function) (inst : Instruction) (code : List Instruction)
    → flat_instructions f.blocks ≡ inst ∷ code
    → Covers (inst ∷ code) 0 (length (inst ∷ code)) (build_control_flow_graph f).blocks
unfolding build_control_flow_graph
build_control_flow_graph-Covers f inst code h =
    let whole = inst ∷ code in
    let size = length whole in
    let originals = original_labels f.blocks in
    let (js, e, increasing) =
      first_of-Increasing (leaders_of whole) (Increasing-leaders_of whole)
        (contains-leaders_of whole 0) in
    let same = λ (j : ℕ) (l : 0 ≤ j). rw e at (contains-leaders_of whole j) in
    let cut =
      Covers-block_loop whole originals 0 0 js increasing same (is_leader-behind inst code) in
    let blocks = block_loop whole originals 0 (close_leaders size (leaders_of whole)) in
    let cut' : Covers whole 0 size blocks = rw e cut in
    let m = label_blocks 0 blocks [] in
    let linked = successor_loop whole m 0 (length blocks) blocks in
    rw h (
      Covers-predecessor_loop whole 0 size linked linked 0
        (Covers-successor_loop whole 0 size blocks whole m 0 (length blocks) cut'))

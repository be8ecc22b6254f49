-- ===== src/Cfg/Range.antt =====
-- ir/src/cfg.cpp: the successors of a block are blocks of the graph, and a label is found at the first block
-- of that name.
use impulse_jit.Token.{Text, text_eq}
use impulse_jit.Ir.{Instruction, InstructionKind, Function}
use impulse_jit.Cfg.{
  Block, block_loop, successor_loop, graph_or_empty, build_control_flow_graph, flat_instructions,
  original_labels, label_blocks, find_index, close_leaders, leaders_of, block_successors,
  last_action, successors_of, next_block, target_block, target_index,
}
use impulse_jit.Cfg.Edges.{
  successors_at, successors_at-predecessor_loop, length-predecessor_loop, length-successor_loop,
}
use impulse_jit.Base.{
  ℕ, zero, suc, ◌+◌, ◌-◌, Option, none, some, List, [], ◌∷◌, ◌++◌, ltb, length, ◌≡◌, inl, inr,
  arith, Bool-cases, ◌≤◌, ◌<◌,
}

-- All of the numbers are below `n`.
abbrev pub AllBelow : ℕ → List ℕ → Type 0
AllBelow n [] = Unit
AllBelow n (i ∷ is) = (i < n) × AllBelow n is

AllBelow-append : (n : ℕ) (xs ys : List ℕ) → AllBelow n xs → AllBelow n ys → AllBelow n (xs ++ ys)
AllBelow-append n [] ys h k = k
AllBelow-append n (x ∷ xs) ys h k = (h.0, AllBelow-append n xs ys h.1 k)

-- The labels of the table stand for blocks below `n`.
abbrev TableBelow : ℕ → List (Text × ℕ) → Type 0
TableBelow n [] = Unit
TableBelow n ((x, i) ∷ m) = (i < n) × TableBelow n m

TableBelow-append :
    (n : ℕ) (m m' : List (Text × ℕ)) → TableBelow n m → TableBelow n m' → TableBelow n (m ++ m')
TableBelow-append n [] m' h k = k
TableBelow-append n ((x, i) ∷ m) m' h k = (h.0, TableBelow-append n m m' h.1 k)

TableBelow-more : (n n' : ℕ) (m : List (Text × ℕ)) → n ≤ n' → TableBelow n m → TableBelow n' m
TableBelow-more n n' [] l h = h
TableBelow-more n n' ((x, i) ∷ m) l h = (omega arith, TableBelow-more n n' m l h.1)

TableBelow-label_blocks :
    (idx n : ℕ) (bs : List Block) (m : List (Text × ℕ))
    → idx + length bs ≡ n
    → TableBelow idx m
    → TableBelow n (label_blocks idx bs m)
unfolding label_blocks
TableBelow-label_blocks idx n [] m e h = TableBelow-more idx n m (omega arith) h
TableBelow-label_blocks idx n (b ∷ bs) m e h =
    TableBelow-label_blocks (suc idx) n bs _ (omega arith) (added (find_index b.name m))
  where
    added :
        (o : Option ℕ)
        → TableBelow (suc idx) (elim o [ none ↦ m ++ (b.name, idx) ∷ [] | some j ↦ m ])
    added none =
        TableBelow-append (suc idx) m _ (TableBelow-more idx (suc idx) m (omega arith) h)
          (omega arith, tt)
    added (some j) = TableBelow-more idx (suc idx) m (omega arith) h

AllBelow-find_index :
    (n : ℕ) (x : Text) (m : List (Text × ℕ))
    → TableBelow n m
    → AllBelow n (target_index (find_index x m))
unfolding find_index
AllBelow-find_index n x [] h = tt
AllBelow-find_index n x ((y, i) ∷ m) h = elim (Bool-cases (text_eq x y)) [
  | inl b ↦ rw (find_index, b) (h.0, tt)
  | inr b ↦ rw (find_index, b) (AllBelow-find_index n x m h.1)
]

AllBelow-target_block :
    (n : ℕ) (m : List (Text × ℕ)) (operands : List Text)
    → TableBelow n m
    → AllBelow n (target_block m operands)
AllBelow-target_block n m [] h = tt
AllBelow-target_block n m (x ∷ xs) h = AllBelow-find_index n x m h

AllBelow-next_block : (idx n : ℕ) → AllBelow n (next_block idx n)
AllBelow-next_block idx n = elim (Bool-cases (ltb (idx + 1) n)) [
  | inl b ↦ rw b (ground arith, tt)
  | inr b ↦ rw b tt
]

AllBelow-successors_of :
    (m : List (Text × ℕ)) (idx n : ℕ) (kind : InstructionKind) (operands : List Text)
    → TableBelow n m
    → AllBelow n (successors_of m idx n kind operands)
AllBelow-successors_of m idx n InstructionKind.branch operands h =
    AllBelow-target_block n m operands h
AllBelow-successors_of m idx n InstructionKind.branch_if operands h =
    AllBelow-append n (target_block m operands) _ (AllBelow-target_block n m operands h)
      (AllBelow-next_block idx n)
AllBelow-successors_of m idx n InstructionKind.return_value operands h = tt
AllBelow-successors_of m idx n _ operands h = AllBelow-next_block idx n

AllBelow-block_successors :
    (code : List Instruction) (m : List (Text × ℕ)) (idx n : ℕ) (b : Block)
    → TableBelow n m
    → AllBelow n (block_successors code m idx n b)
unfolding block_successors
AllBelow-block_successors code m idx n b h =
    action (last_action code b.start_index (b.end_index - b.start_index))
  where
    action :
        (o : Option Instruction)
        → AllBelow n (elim o [
          | none ↦ next_block idx n
          | some inst ↦ successors_of m idx n inst.kind inst.operands
        ])
    action none = AllBelow-next_block idx n
    action (some inst) = AllBelow-successors_of m idx n inst.kind inst.operands h

AllBelow-successor_loop :
    (code : List Instruction) (m : List (Text × ℕ)) (idx n : ℕ) (bs : List Block) (p : ℕ)
    → TableBelow n m
    → AllBelow n (successors_at p (successor_loop code m idx n bs))
unfolding successor_loop
AllBelow-successor_loop code m idx n [] p h = tt
AllBelow-successor_loop code m idx n (b ∷ bs) zero h = AllBelow-block_successors code m idx n b h
AllBelow-successor_loop code m idx n (b ∷ bs) (suc p) h =
    AllBelow-successor_loop code m (suc idx) n bs p h

-- Every successor of a block is the index of a block of the graph.
pub successors_at-AllBelow :
    (f : Function) (p : ℕ)
    → AllBelow
        (length (build_control_flow_graph f).blocks)
        (successors_at p (build_control_flow_graph f).blocks)
unfolding build_control_flow_graph
successors_at-AllBelow f p = below (flat_instructions f.blocks)
  where
    below :
        (code : List Instruction)
        → AllBelow
            (length (graph_or_empty code f.blocks).blocks)
            (successors_at p (graph_or_empty code f.blocks).blocks)
    below [] = elim p as (λ q. AllBelow 1 (successors_at q (graph_or_empty [] f.blocks).blocks)) [
      | zero ↦ tt
      | suc q ↦ tt
    ]
    below (inst ∷ code) =
        let whole = inst ∷ code in
        let blocks =
          block_loop whole (original_labels f.blocks) 0
            (close_leaders (length whole) (leaders_of whole)) in
        let n = length blocks in
        let m = label_blocks 0 blocks [] in
        let linked = successor_loop whole m 0 n blocks in
        rw
          (
            successors_at-predecessor_loop 0 p linked linked,
            length-predecessor_loop 0 linked linked,
            length-successor_loop whole m 0 n blocks,
          )
          (AllBelow-successor_loop whole m 0 n blocks p
            (TableBelow-label_blocks 0 n blocks [] (omega arith) tt))

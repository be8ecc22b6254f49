-- ===== src/Cfg/Edges.antt =====
-- ir/src/cfg.cpp: the edges of the graph, seen from both of their ends.
use impulse_jit.Token.{Text}
use impulse_jit.Ir.{Instruction, Function}
use impulse_jit.Cfg.{
  Block, block_loop, successor_loop, predecessor_loop, link_successors, add_predecessor,
  graph_or_empty, build_control_flow_graph, flat_instructions, original_labels, label_blocks,
  close_leaders, leaders_of,
}
use impulse_jit.Base.{
  ◌∙◌, get_elem?, ℕ, zero, suc, ◌+◌, ◌-◌, true, false, Option, none, some, List, [], ◌∷◌, ◌++◌, leb,
  ◌==◌, if◌then◌else◌, length, ◌≡◌, refl, ap, inl, inr, arith, Bool-cases, ◌<◌,
}

-- How often a number stands in a list.
abbrev pub occurrences : ℕ → List ℕ → ℕ
occurrences a [] = 0
occurrences a (x ∷ xs) = (if x == a then 1 else 0) + occurrences a xs

abbrev successors_in : Option Block → List ℕ
successors_in none = []
successors_in (some b) = b.successors

abbrev predecessors_in : Option Block → List ℕ
predecessors_in none = []
predecessors_in (some b) = b.predecessors

-- The edges at the block `i`; none where there is no such block.
abbrev pub successors_at : ℕ → List Block → List ℕ
successors_at i bs = successors_in (get_elem? bs i)

abbrev pub predecessors_at : ℕ → List Block → List ℕ
predecessors_at i bs = predecessors_in (get_elem? bs i)

occurrences-append :
    (a : ℕ) (xs ys : List ℕ) → occurrences a (xs ++ ys) ≡ occurrences a xs + occurrences a ys
occurrences-append a [] ys = omega arith
occurrences-append a (x ∷ xs) ys = omega (arith, occurrences-append a xs ys)

length-add_predecessor :
    (idx i : ℕ) (bs : List Block) → length (add_predecessor idx i bs) ≡ length bs
unfolding add_predecessor
length-add_predecessor idx i [] = refl
length-add_predecessor idx zero (b ∷ bs) = refl
length-add_predecessor idx (suc i) (b ∷ bs) = ap suc (length-add_predecessor idx i bs)

successors_at-add_predecessor :
    (idx i j : ℕ) (bs : List Block)
    → successors_at j (add_predecessor idx i bs) ≡ successors_at j bs
unfolding add_predecessor
successors_at-add_predecessor idx i j [] = refl
successors_at-add_predecessor idx zero zero (b ∷ bs) = refl
successors_at-add_predecessor idx zero (suc j) (b ∷ bs) = refl
successors_at-add_predecessor idx (suc i) zero (b ∷ bs) = refl
successors_at-add_predecessor idx (suc i) (suc j) (b ∷ bs) =
    successors_at-add_predecessor idx i j bs

predecessors_at-add_predecessor :
    (p idx i j : ℕ) (bs : List Block)
    → j < length bs
    → occurrences p (predecessors_at j (add_predecessor idx i bs))
      ≡ occurrences p (predecessors_at j bs) + (if i == j then (if idx == p then 1 else 0) else 0)
unfolding add_predecessor
predecessors_at-add_predecessor p idx i j [] h = absurd (omega arith)
predecessors_at-add_predecessor p idx zero zero (b ∷ bs) h =
    ground (arith, occurrences-append p b.predecessors (idx ∷ []))
predecessors_at-add_predecessor p idx zero (suc j) (b ∷ bs) h = ground arith
predecessors_at-add_predecessor p idx (suc i) zero (b ∷ bs) h = ground arith
predecessors_at-add_predecessor p idx (suc i) (suc j) (b ∷ bs) h =
    ground (arith, predecessors_at-add_predecessor p idx i j bs)

length-link_successors :
    (idx : ℕ) (is : List ℕ) (bs : List Block) → length (link_successors idx is bs) ≡ length bs
unfolding link_successors
length-link_successors idx [] bs = refl
length-link_successors idx (i ∷ is) bs =
    length-link_successors idx is (add_predecessor idx i bs) ∙ length-add_predecessor idx i bs

successors_at-link_successors :
    (idx j : ℕ) (is : List ℕ) (bs : List Block)
    → successors_at j (link_successors idx is bs) ≡ successors_at j bs
unfolding link_successors
successors_at-link_successors idx j [] bs = refl
successors_at-link_successors idx j (i ∷ is) bs =
    successors_at-link_successors idx j is (add_predecessor idx i bs)
    ∙ successors_at-add_predecessor idx i j bs

predecessors_at-link_successors :
    (p idx j : ℕ) (is : List ℕ) (bs : List Block)
    → j < length bs
    → occurrences p (predecessors_at j (link_successors idx is bs))
      ≡ occurrences p (predecessors_at j bs) + (if idx == p then occurrences j is else 0)
unfolding link_successors
predecessors_at-link_successors p idx j [] bs h = ground arith
predecessors_at-link_successors p idx j (i ∷ is) bs h =
    let below : j < length (add_predecessor idx i bs) = rw (length-add_predecessor idx i bs) h in
    ground (
      arith,
      predecessors_at-add_predecessor p idx i j bs h,
      predecessors_at-link_successors p idx j is (add_predecessor idx i bs) below,
    )

pub length-predecessor_loop :
    (idx : ℕ) (rest bs : List Block) → length (predecessor_loop idx rest bs) ≡ length bs
unfolding predecessor_loop
length-predecessor_loop idx [] bs = refl
length-predecessor_loop idx (b ∷ rest) bs =
    length-predecessor_loop (suc idx) rest _ ∙ length-link_successors idx b.successors bs

pub successors_at-predecessor_loop :
    (idx j : ℕ) (rest bs : List Block)
    → successors_at j (predecessor_loop idx rest bs) ≡ successors_at j bs
unfolding predecessor_loop
successors_at-predecessor_loop idx j [] bs = refl
successors_at-predecessor_loop idx j (b ∷ rest) bs =
    successors_at-predecessor_loop (suc idx) j rest _
    ∙ successors_at-link_successors idx j b.successors bs

-- The edges to `j` from the block `p`, where `rest` are the blocks from `idx` on.
abbrev step_count : (p idx j : ℕ) → List Block → ℕ
step_count p idx j rest = if leb idx p then occurrences j (successors_at (p - idx) rest) else 0

regroup :
    (p idx j : ℕ) (b : Block) (rest : List Block) (n : ℕ)
    → (n + (if idx == p then occurrences j b.successors else 0)) + step_count p (suc idx) j rest
      ≡ n + step_count p idx j (b ∷ rest)
regroup p idx j b rest n = elim (Bool-cases (leb (suc idx) p)) [
  | inl l ↦
      let e : p - idx ≡ suc (p - suc idx) = ground arith in
      let other : (idx == p) ≡ false = ground arith in
      let l' : leb idx p ≡ true = ground arith in rw (l, l', other, e) (omega arith)
  | inr l ↦ elim (Bool-cases (idx == p)) [
    | inl q ↦
        let e : p - idx ≡ 0 = ground arith in
        let l' : leb idx p ≡ true = ground arith in rw (l, l', q, e) (omega arith)
    | inr q ↦ let l' : leb idx p ≡ false = ground arith in rw (l, l', q) (omega arith)
  ]
]

predecessors_at-predecessor_loop :
    (p idx j : ℕ) (rest bs : List Block)
    → j < length bs
    → occurrences p (predecessors_at j (predecessor_loop idx rest bs))
      ≡ occurrences p (predecessors_at j bs)
        + (if leb idx p then occurrences j (successors_at (p - idx) rest) else 0)
unfolding predecessor_loop
predecessors_at-predecessor_loop p idx j [] bs h = ground arith
predecessors_at-predecessor_loop p idx j (b ∷ rest) bs h =
    let linked = link_successors idx b.successors bs in
    let below : j < length linked = rw (length-link_successors idx b.successors bs) h in
    let first = predecessors_at-link_successors p idx j b.successors bs h in
    let later = predecessors_at-predecessor_loop p (suc idx) j rest linked below in
    later ∙ ap (λ n. n + step_count p (suc idx) j rest) first ∙ regroup p idx j b rest _

pub length-successor_loop :
    (code : List Instruction) (m : List (Text × ℕ)) (idx count : ℕ) (bs : List Block)
    → length (successor_loop code m idx count bs) ≡ length bs
unfolding successor_loop
length-successor_loop code m idx count [] = refl
length-successor_loop code m idx count (b ∷ bs) =
    ap suc (length-successor_loop code m (suc idx) count bs)

-- At first there are no predecessors.
predecessors_at-block_loop :
    (code : List Instruction) (originals : List Text) (idx : ℕ) (is : List ℕ) (j : ℕ)
    → predecessors_at j (block_loop code originals idx is) ≡ []
unfolding block_loop
predecessors_at-block_loop code originals idx [] j = refl
predecessors_at-block_loop code originals idx (i ∷ []) j = refl
predecessors_at-block_loop code originals idx (i ∷ k ∷ is) zero = refl
predecessors_at-block_loop code originals idx (i ∷ k ∷ is) (suc j) =
    predecessors_at-block_loop code originals (suc idx) (k ∷ is) j

predecessors_at-successor_loop :
    (code : List Instruction) (m : List (Text × ℕ)) (idx count : ℕ) (bs : List Block) (j : ℕ)
    → predecessors_at j (successor_loop code m idx count bs) ≡ predecessors_at j bs
unfolding successor_loop
predecessors_at-successor_loop code m idx count [] j = refl
predecessors_at-successor_loop code m idx count (b ∷ bs) zero = refl
predecessors_at-successor_loop code m idx count (b ∷ bs) (suc j) =
    predecessors_at-successor_loop code m (suc idx) count bs j

linked-edges :
    (p j : ℕ) (linked : List Block)
    → j < length (predecessor_loop 0 linked linked)
    → predecessors_at j linked ≡ []
    → occurrences p (predecessors_at j (predecessor_loop 0 linked linked))
      ≡ occurrences j (successors_at p (predecessor_loop 0 linked linked))
linked-edges p j linked h none_yet =
    let below : j < length linked = rw (← length-predecessor_loop 0 linked linked) h in
    let e : p - 0 ≡ p = omega arith in
    let always : leb 0 p ≡ true = ground arith in
    rw
      (
        predecessors_at-predecessor_loop p 0 j linked linked below,
        none_yet,
        always,
        e,
        successors_at-predecessor_loop 0 p linked linked,
      )
      (omega arith)

abbrev lone : Text → Block
lone x = record { name = x; start_index = 0; end_index = 0; successors = []; predecessors = [] }

lone-edges :
    (x : Text) (p j : ℕ)
    → occurrences p (predecessors_at j (lone x ∷ []))
      ≡ occurrences j (successors_at p (lone x ∷ []))
lone-edges x zero zero = refl
lone-edges x zero (suc j) = refl
lone-edges x (suc p) zero = refl
lone-edges x (suc p) (suc j) = refl

-- Where there is a block j, a block p is among its predecessors as often as j is among the
-- successors of p.
pub predecessors_at-successors_at :
    (f : Function) (p j : ℕ)
    → j < length (build_control_flow_graph f).blocks
    → occurrences p (predecessors_at j (build_control_flow_graph f).blocks)
      ≡ occurrences j (successors_at p (build_control_flow_graph f).blocks)
unfolding build_control_flow_graph
predecessors_at-successors_at f p j h = edges (flat_instructions f.blocks) h
  where
    edges :
        (code : List Instruction)
        → j < length (graph_or_empty code f.blocks).blocks
        → occurrences p (predecessors_at j (graph_or_empty code f.blocks).blocks)
          ≡ occurrences j (successors_at p (graph_or_empty code f.blocks).blocks)
    edges [] h = lone-edges _ p j
    edges (inst ∷ code) h =
        let whole = inst ∷ code in
        let originals = original_labels f.blocks in
        let blocks =
          block_loop whole originals 0 (close_leaders (length whole) (leaders_of whole)) in
        let m = label_blocks 0 blocks [] in
        linked-edges p j (successor_loop whole m 0 (length blocks) blocks) h (
          predecessors_at-successor_loop whole m 0 (length blocks) blocks j
          ∙ predecessors_at-block_loop whole originals 0 _ j)

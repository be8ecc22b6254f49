-- ===== src/Interp/Flow/Merging.antt =====
-- runtime/src/ssa_interpreter.cpp behind ir/src/cfg.cpp: a conditional branch to the next block, as an `if`
-- with an empty body has it.
use impulse_jit.Interp.Flow.{
  branch_where, Control, handle_branch_if, refuse, resolve_block, pick_fallthrough, compare_value,
}
use impulse_jit.Cfg.{Block, block_successors, last_action, find_index}
use impulse_jit.Ir.{Instruction, InstructionKind, InstructionKind}
use impulse_jit.Floats.{Doubles, near_zero}
use impulse_jit.Ssa.{SsaBlock}
use impulse_jit.Token.{Text, codes}
use impulse_jit.Interp.{
  VmStatus, VmStatus, SsaState, SsaValue, SsaInstruction, number_of, lookup_value,
}
use impulse_jit.Base.{
  ℕ, ◌+◌, ◌-◌, true, false, none, some, List, [], ◌∷◌, ltb, ◌==◌, ◌≡◌, refl, inr, arith, ◌<◌,
}

pick_fallthrough-same : (k : ℕ) → pick_fallthrough (k ∷ k ∷ []) (some k) ≡ none
unfolding pick_fallthrough
pick_fallthrough-same k = let e : (k == k) ≡ true = ground arith in rw e refl

-- Where the condition of a branch is not near the number that it is compared with, and the target of the
-- branch is the next block.
same_successors :
    (code : List Instruction) (m : List (Text × ℕ)) (idx count : ℕ) (block : Block)
    (branching : Instruction) (x : Text) (xs : List Text)
    → last_action code block.start_index (block.end_index - block.start_index) ≡ some branching
    → branching.kind ≡ InstructionKind.branch_if
    → branching.operands ≡ x ∷ xs
    → find_index x m ≡ some (idx + 1)
    → idx + 1 < count
    → block_successors code m idx count block ≡ (idx + 1) ∷ (idx + 1) ∷ []
unfolding block_successors
same_successors code m idx count block branching x xs last kind operands index below =
    let more : ltb (idx + 1) count ≡ true = ground arith in
    rw (block_successors, last, kind, operands, index, more) refl

-- Where the last action of a block is a conditional branch whose label is that of the next
-- block, and the successors of the SSA block are those of the block, the branch of the SSA
-- interpreter fails for want of a fallthrough successor, whenever the condition is a number that
-- is not near the one that it is compared with.
pub handle_branch_if-same_successors :
    (code : List Instruction) (m : List (Text × ℕ)) (idx count : ℕ) (block : Block)
    (branching : Instruction) (x : Text) (xs : List Text) (d : Doubles) (blocks : List SsaBlock)
    (ssa : SsaBlock) (inst : SsaInstruction) (a : SsaValue) (more : List SsaValue) (c : Control)
    (s : SsaState) (v w : ℕ)
    → last_action code block.start_index (block.end_index - block.start_index) ≡ some branching
    → branching.kind ≡ InstructionKind.branch_if
    → branching.operands ≡ x ∷ xs
    → find_index x m ≡ some (idx + 1)
    → idx + 1 < count
    → ssa.successors ≡ block_successors code m idx count block
    → inst.arguments ≡ a ∷ more
    → inst.immediates ≡ branching.operands
    → resolve_block blocks x ≡ some (idx + 1)
    → number_of (lookup_value a s) ≡ some v
    → compare_value d xs ≡ inr w
    → near_zero d (d.sub v w) ≡ false
    → handle_branch_if d blocks ssa inst idx c s
      ≡ refuse VmStatus.runtime_error (codes "branch_if missing fallthrough successor") c
unfolding handle_branch_if
handle_branch_if-same_successors code m idx count block branching x xs d blocks ssa inst a more c s
      v w last kind operands index below linked arguments immediates resolved condition comparison
      far =
    rw
      (
        arguments,
        immediates,
        operands,
        condition,
        branch_where,
        resolved,
        comparison,
        far,
        linked,
        same_successors code m idx count block branching x xs last kind operands index below,
        pick_fallthrough-same (idx + 1),
      )
      refl

-- ===== src/Lowering/Rounds.antt =====
-- ir/src/interpreter.cpp: the machine on the pieces of code of which a statement is made.
use impulse_jit.Token.{Text, codes}
use impulse_jit.Ast.{Expression}
use impulse_jit.Ir.{Instruction, InstructionKind}
use impulse_jit.Stack.{running, stopped, ◌>>=◌, Numbers, make_success}
use impulse_jit.Stack.Machine.{Machine, Context, perform, jump, machine, find_label, matches}
use impulse_jit.Stack.Machine.Runs.{Leads, Leads-bind}
use impulse_jit.Lowering.{
  lower_effect, lower_expression_to_stack, LoopContext, instruction, branch_instruction,
  branch_if_zero, label_instruction, store_instruction,
}
use impulse_jit.Lowering.Meaning.{
  evaluate, loop, is_false, assign, Signal, finished, broke, continued,
}
use impulse_jit.Lowering.Places.{Leads-step, StandsAt, StandsAt-append, Leads-perform}
use impulse_jit.Lowering.ExpressionCode.{lower_expression-Leads, bind_assoc, bind_congr, with_value}
use impulse_jit.Base.{
  get_elem?, ℕ, suc, Bool, true, false, some, List, [], ◌∷◌, ◌++◌, if◌then◌else◌, ◌≡◌, refl,
}

-- Where a signal sends the machine: behind the code, behind the loop, or to its next round.
abbrev pub place_of : (behind break_place continue_place : ℕ) → Signal → ℕ
place_of j b k finished = j
place_of j b k broke = b
place_of j b k continued = k

-- The places of the labels of the innermost loop.
abbrev pub LoopAt : List Instruction → List LoopContext → (break_place continue_place : ℕ) → Type 0
LoopAt program [] b k = Unit
LoopAt program (loop ∷ loops) b k =
    (find_label loop.break_label program ≡ some b)
    × (find_label loop.continue_label program ≡ some k)

abbrev pub in_loop : List LoopContext → Bool
in_loop [] = false
in_loop (loop ∷ loops) = true

-- The machine where a statement begins, with the locals that it has there.
abbrev pub ready : List ℕ → ℕ → Numbers → Machine
ready stack i locals = machine i stack locals

module _ (c : Context) (stack : List ℕ) where
  perform-store :
      (x : Text) (i v : ℕ) (locals : Numbers)
      → perform c (store_instruction x) (machine i (v ∷ stack) locals)
        ≡ running (machine (suc i) stack ((x, v) ∷ locals))
  unfolding perform
  perform-store x i v locals = refl

  perform-drop :
      (i v : ℕ) (locals : Numbers)
      → perform c (instruction InstructionKind.drop []) (machine i (v ∷ stack) locals)
        ≡ running (machine (suc i) stack locals)
  unfolding perform
  perform-drop i v locals = refl

  perform-return :
      (i v : ℕ) (locals : Numbers)
      → perform c (instruction InstructionKind.return_value []) (machine i (v ∷ stack) locals)
        ≡ stopped (make_success v [])
  unfolding perform
  perform-return i v locals = refl

  pub perform-label :
      (x : Text) (i : ℕ) (locals : Numbers)
      → perform c (label_instruction x) (machine i stack locals)
        ≡ running (machine (suc i) stack locals)
  unfolding perform
  perform-label x i locals = refl

  pub perform-branch :
      (x : Text) (i p : ℕ) (locals : Numbers)
      → find_label x c.code ≡ some p
      → perform c (branch_instruction x) (machine i stack locals) ≡ running (machine p stack locals)
  unfolding perform
  perform-branch x i p locals h = rw (perform, h) refl

  perform-branch_if :
      (x : Text) (i p v : ℕ) (locals : Numbers)
      → find_label x c.code ≡ some p
      → perform c (branch_if_zero x) (machine i (v ∷ stack) locals) ≡ (
          matches c.inputs.doubles v (codes "0") >>= λ over.
          running (machine (if over then p else suc i) stack locals))
  unfolding perform
  perform-branch_if x i p v locals h = bind_congr (matches c.inputs.doubles v (codes "0")) taken
    where
      taken :
          (over : Bool)
          → (if over
              then jump (codes "branch_if") (find_label x c.code) x (machine i stack locals)
              else running (machine (suc i) stack locals))
            ≡ running (machine (if over then p else suc i) stack locals)
      taken true = rw h refl
      taken false = refl

  module _ (f : ℕ) where
    -- Evaluating an expression and storing its value.
    pub assign-Leads :
        (x : Text) (e : Expression) (i j : ℕ) (locals : Numbers)
        → StandsAt c.code i (lower_expression_to_stack e ++ store_instruction x ∷ []) j
        → Leads c f
            (machine i stack locals)
            (assign c.inputs x e locals >>= λ locals'. running (machine j stack locals'))
    assign-Leads x e i j locals h =
        let (k, a, (at, z)) = StandsAt-append c.code i (lower_expression_to_stack e) _ j h in
        rw (bind_assoc (evaluate c.inputs e locals)) (
          Leads-bind (evaluate c.inputs e locals) (with_value c stack locals k) _
            (lower_expression-Leads c f locals e i k stack a)
            λ v. rw (← z) (Leads-step f _ _ _ at (perform-store x k v locals)))

    -- Evaluating an expression for its effect.
    pub effect-Leads :
        (e : Expression) (i j : ℕ) (locals : Numbers)
        → StandsAt c.code i (lower_effect e) j
        → Leads c f
            (machine i stack locals)
            (evaluate c.inputs e locals >>= λ v. running (machine j stack locals))
    effect-Leads e i j locals h =
        let (k, a, (at, z)) = StandsAt-append c.code i (lower_expression_to_stack e) _ j h in
        Leads-bind (evaluate c.inputs e locals) (with_value c stack locals k) _
          (lower_expression-Leads c f locals e i k stack a)
          λ v. rw (← z) (Leads-step f _ _ _ at (perform-drop k v locals))

    pub return-Leads :
        (e : Expression) (i j : ℕ) (locals : Numbers)
        → StandsAt c.code i
            (lower_expression_to_stack e ++ instruction InstructionKind.return_value [] ∷ [])
            j
        → Leads c f
            (machine i stack locals)
            (evaluate c.inputs e locals >>= λ v. stopped (make_success v []))
    return-Leads e i j locals h =
        let (k, a, (at, z)) = StandsAt-append c.code i (lower_expression_to_stack e) _ j h in
        Leads-bind (evaluate c.inputs e locals) (with_value c stack locals k) _
          (lower_expression-Leads c f locals e i k stack a)
          λ v.
            Leads-perform f _ _ (stopped (make_success v [])) (λ (m : Machine). m) at
              (perform-return k v locals)

    -- A condition, and the branch where it is false.
    pub is_false-Leads :
        (e : Expression) (x : Text) (i k p : ℕ) (locals : Numbers)
        → StandsAt c.code i (lower_expression_to_stack e) k
        → get_elem? c.code k ≡ some (branch_if_zero x)
        → find_label x c.code ≡ some p
        → Leads c f (machine i stack locals) (
            is_false c.inputs e locals >>= λ over.
            running (machine (if over then p else suc k) stack locals))
    is_false-Leads e x i k p locals a at h = rw (bind_assoc (evaluate c.inputs e locals)) (
        Leads-bind (evaluate c.inputs e locals) (with_value c stack locals k) _
          (lower_expression-Leads c f locals e i k stack a)
          λ v. Leads-perform f _ _ _ _ at (perform-branch_if x k p v locals h))

-- ===== src/Lowering/Simulation.antt =====
-- frontend/src/lowering.cpp and ir/src/interpreter.cpp: the machine on the code of a statement does what
-- the statement means, from any operand stack, which it leaves as it was.
use impulse_jit.Lowering.Loops.{loop-Leads}
use impulse_jit.Lowering.Rounds.{
  ready, return-Leads, place_of, in_loop, is_false-Leads, assign-Leads, LoopAt, effect-Leads,
}
use impulse_jit.Ast.{Statement, Statements}
use impulse_jit.Stack.{running, ◌>>=◌, Numbers}
use impulse_jit.Stack.Machine.{Context, machine}
use impulse_jit.Stack.Machine.Runs.{Leads, arrive, Leads-bind, Leads-trans}
use impulse_jit.Lowering.{
  lower_test, lower_expression_to_stack, lower_statement_to_instructions, lower_sequence,
  LowerState, leave_scope, enter_scope, LoopContext, lower_clause, take_labels, label_text,
  has_clause, label_instruction,
}
use impulse_jit.Lowering.Meaning.{
  evaluate, execute, execute_all, loop, is_false, assign, bind_initial, execute_clause, ends_at,
}
use impulse_jit.Lowering.Places.{StandsAt, StandsAt-append}
use impulse_jit.Lowering.ExpressionCode.{bind_assoc}
use impulse_jit.Lowering.Labels.{IsUnique}
use impulse_jit.Lowering.Scopes.{
  NoDrops, lower_statement-NoDrops, lower_sequence-NoDrops, NoDrops-enter, NoDrops-leave,
  NoDrops-clause,
}
use impulse_jit.Base.{ℕ, suc, true, List, [], ◌∷◌, if◌then◌else◌, refl, arith}
use impulse_jit.Lowering.Clauses.{
  initial-Leads, clause-Leads, test-Leads, StandsAt-leave, leave_loop-Leads, finish-Leads,
  rest-Leads, branch-Leads, label-Leads, goto-Leads, increment-Leads, again-Leads, continue-place,
}

module _ (c : Context) (f : ℕ) (stack : List ℕ) (unique : IsUnique c.code) where
  mutual
    unfolding lower_statement_to_instructions execute

    pub lower_statement-Leads :
        (statement : Statement) (loops : List LoopContext) (s : LowerState)
        → (i j b k : ℕ) (locals : Numbers) → NoDrops s.scope_stack
        → LoopAt c.code loops b k
        → StandsAt c.code i (lower_statement_to_instructions statement loops s).0 j
        → Leads c f (machine i stack locals) (
            execute c.inputs f (in_loop loops) statement locals >>= λ r.
            running (machine (place_of j b k r.0) stack r.1))
    lower_statement-Leads (Statement.return_stmt at e) loops s i j b k locals d l h =
        rw (bind_assoc (evaluate c.inputs e locals)) (return-Leads c stack f e i j locals h)
    lower_statement-Leads (Statement.binding_stmt at x) loops s i j b k locals d l h =
        rw (bind_assoc (bind_initial c.inputs x.name.value x.initializer_expr locals))
          (initial-Leads c f stack x.name.value x.initializer_expr s i j locals h)
    lower_statement-Leads (Statement.if_stmt at condition then_body Statements.none_left) loops s i
          j b k locals d l h =
        let n = s.label_counter in
        let s' = enter_scope (take_labels 2 s) in
        let d' = NoDrops-enter (take_labels 2 s) d in
        let (k₁, a, (at_if, h₁)) =
          StandsAt-append c.code i (lower_expression_to_stack condition) _ j h in
        let body = lower_sequence then_body loops s' in
        let (k₂, h₂, (at_else, z)) = StandsAt-append c.code (suc k₁) (leave_scope body).0 _ j h₁ in
        let then_at =
          StandsAt-leave c f stack body (suc k₁) k₂ (lower_sequence-NoDrops then_body loops s' d')
            h₂ in
        rw (bind_assoc (is_false c.inputs condition locals)) (
          Leads-bind (is_false c.inputs condition locals) _ _
            (is_false-Leads c stack f condition (label_text n) i k₁ k₂ locals a at_if
              (unique n k₂ at_else))
            λ over.
              branch-Leads c f stack k₂ (suc k₁) locals _ _ _ over
                (label-Leads c f stack (label_text n) k₂ j locals at_else z)
                (Leads-bind (execute_all c.inputs f (in_loop loops) then_body locals) _ _
                  (lower_sequence-Leads then_body loops s' (suc k₁) k₂ b k locals d' l then_at)
                  λ r.
                    finish-Leads c f stack k₂ j b k r
                      (λ locals'. label-Leads c f stack (label_text n) k₂ j locals' at_else z)))
    lower_statement-Leads (Statement.if_stmt at condition then_body (Statements.and_then x xs))
          loops s i j b k locals d l h =
        let n = s.label_counter in
        let s' = enter_scope (take_labels 2 s) in
        let d' = NoDrops-enter (take_labels 2 s) d in
        let (k₁, a, (at_if, h₁)) =
          StandsAt-append c.code i (lower_expression_to_stack condition) _ j h in
        let body = lower_sequence then_body loops s' in
        let (k₂, h₂, (at_skip, (at_else, h₃))) =
          StandsAt-append c.code (suc k₁) (leave_scope body).0 _ j h₁ in
        let d₁ = lower_sequence-NoDrops then_body loops s' d' in
        let then_at = StandsAt-leave c f stack body (suc k₁) k₂ d₁ h₂ in
        let s'' = enter_scope (leave_scope body).1 in
        let d'' = NoDrops-enter (leave_scope body).1 (NoDrops-leave body d₁) in
        let code = lower_sequence (Statements.and_then x xs) loops s'' in
        let (k₃, h₄, (at_end, z)) =
          StandsAt-append c.code (suc (suc k₂)) (leave_scope code).0 _ j h₃ in
        let else_at =
          StandsAt-leave c f stack code (suc (suc k₂)) k₃
            (lower_sequence-NoDrops (Statements.and_then x xs) loops s'' d'') h₄ in
        let leave =
          λ (locals' : Numbers). label-Leads c f stack (label_text (suc n)) k₃ j locals' at_end z in
        rw (bind_assoc (is_false c.inputs condition locals)) (
          Leads-bind (is_false c.inputs condition locals) _ _
            (is_false-Leads c stack f condition (label_text n) i k₁ (suc k₂) locals a at_if
              (unique n (suc k₂) at_else))
            λ over.
              branch-Leads c f stack (suc k₂) (suc k₁) locals _ _ _ over
                (Leads-trans (label-Leads c f stack (label_text n) (suc k₂) _ locals at_else refl)
                  refl
                  (Leads-bind
                    (execute_all c.inputs f (in_loop loops) (Statements.and_then x xs) locals) _ _
                    (lower_sequence-Leads (Statements.and_then x xs) loops s'' (suc (suc k₂)) k₃ b k
                      locals d'' l else_at)
                    λ r. finish-Leads c f stack k₃ j b k r leave))
                (Leads-bind (execute_all c.inputs f (in_loop loops) then_body locals) _ _
                  (lower_sequence-Leads then_body loops s' (suc k₁) k₂ b k locals d' l then_at)
                  λ r. finish-Leads c f stack k₂ j b k r (λ locals'.
                    Leads-trans
                      (goto-Leads c f stack (label_text (suc n)) k₂ k₃ locals' at_skip
                        (unique (suc n) k₃ at_end))
                      refl (leave locals'))))
    lower_statement-Leads (Statement.while_stmt at condition body) loops s i j b k locals d l
          (at_start, h) =
        let n = s.label_counter in
        let loop : LoopContext = record {
          continue_label = label_text n;
          break_label = label_text (suc n);
        } in
        let s' = enter_scope (take_labels 2 s) in
        let d' = NoDrops-enter (take_labels 2 s) d in
        let (k₁, a, (at_if, h₁)) =
          StandsAt-append c.code (suc i) (lower_expression_to_stack condition) _ j h in
        let code = lower_sequence body (loop ∷ loops) s' in
        let (k₂, h₂, (at_back, (at_end, z))) =
          StandsAt-append c.code (suc k₁) (leave_scope code).0 _ j h₁ in
        let body_at =
          StandsAt-leave c f stack code (suc k₁) k₂
            (lower_sequence-NoDrops body (loop ∷ loops) s' d') h₂ in
        rw (← z) (
          loop-Leads c f stack (is_false c.inputs condition) (execute_all c.inputs f true body)
            running (label_text n) (label_text (suc n)) i (suc k₁) k₂ i (suc k₂) b k at_start at_end
            (λ locals'.
              is_false-Leads c stack f condition (label_text (suc n)) (suc i) k₁ (suc k₂) locals' a
                at_if (unique (suc n) (suc k₂) at_end))
            (λ locals'.
              lower_sequence-Leads body (loop ∷ loops) s' (suc k₁) k₂ (suc k₂) i locals' d'
                (unique (suc n) (suc k₂) at_end, unique n i at_start) body_at)
            (λ locals'.
              goto-Leads c f stack (label_text n) k₂ i locals' at_back (unique n i at_start))
            (λ locals'. arrive refl) f locals (omega arith))
    lower_statement-Leads (Statement.for_stmt at initializer condition increment body) loops s i j b
          k locals d l h =
        let (i₀, h₀, (at_start, h')) =
          StandsAt-append c.code i (lower_clause initializer s).0 _ j h in
        let s₁ = (lower_clause initializer s).1 in
        let n = s₁.label_counter in
        let continue_label =
          if has_clause increment then label_text (suc (suc n)) else label_text n in
        let loop : LoopContext = record {
          continue_label = continue_label;
          break_label = label_text (suc n);
        } in
        let s₂ = take_labels (if has_clause increment then 3 else 2) s₁ in
        let s' = enter_scope s₂ in
        let d' = NoDrops-enter s₂ (NoDrops-clause initializer s d) in
        let (k₁, a, h₁) =
          StandsAt-append c.code (suc i₀) (lower_test condition (label_text (suc n))) _ j h' in
        let code = lower_sequence body (loop ∷ loops) s' in
        let (k₂, h₂, h₃) = StandsAt-append c.code k₁ (leave_scope code).0 _ j h₁ in
        let body_at =
          StandsAt-leave c f stack code k₁ k₂ (lower_sequence-NoDrops body (loop ∷ loops) s' d')
            h₂ in
        let s₃ = (leave_scope code).1 in
        let (k₃, h₄, (at_back, (at_end, z))) =
          StandsAt-append c.code k₂
            (if has_clause increment
              then label_instruction continue_label ∷ (lower_clause increment s₃).0
              else [])
            _ j h₃ in
        let at_loop = unique n i₀ at_start in
        let at_break = unique (suc n) (suc k₃) at_end in
        let again = λ (locals' : Numbers).
          increment-Leads c f stack increment s₃ continue_label (label_text n) k₂ k₃ i₀ locals' h₄
            at_back at_loop in
        rw (bind_assoc (execute_clause c.inputs initializer locals), ← z)
          (Leads-bind (execute_clause c.inputs initializer locals) (ready stack i₀) _
            (clause-Leads c f stack initializer s i i₀ locals h₀)
            λ locals₁.
              loop-Leads c f stack (ends_at c.inputs condition) (execute_all c.inputs f true body)
                (execute_clause c.inputs increment) (label_text n) (label_text (suc n)) i₀ k₁ k₂
                (if has_clause increment then k₂ else i₀) (suc k₃) b k at_start at_end
                (λ locals'.
                  test-Leads c f stack condition (label_text (suc n)) (suc i₀) k₁ (suc k₃) locals' a
                    at_break)
                (λ locals'.
                  lower_sequence-Leads body (loop ∷ loops) s' k₁ k₂ (suc k₃)
                    (if has_clause increment then k₂ else i₀) locals' d'
                    (
                      at_break,
                      continue-place c f stack unique increment s₃ n (suc (suc n)) k₂ k₃ i₀ h₄
                          at_start,
                    )
                    body_at)
                again (λ locals'. again-Leads c f stack increment k₂ i₀ locals' (again locals')) f
                locals₁ (omega arith))
    lower_statement-Leads (Statement.break_stmt at) [] s i j b k locals d l h =
        rw (← h) (arrive refl)
    lower_statement-Leads (Statement.break_stmt at) (loop ∷ loops) s i j b k locals d l h =
        leave_loop-Leads c f stack (λ (x : LoopContext). x.break_label) loop i j b locals l.0 h
    lower_statement-Leads (Statement.continue_stmt at) [] s i j b k locals d l h =
        rw (← h) (arrive refl)
    lower_statement-Leads (Statement.continue_stmt at) (loop ∷ loops) s i j b k locals d l h =
        leave_loop-Leads c f stack (λ (x : LoopContext). x.continue_label) loop i j k locals l.1 h
    lower_statement-Leads (Statement.expr_stmt at e) loops s i j b k locals d l h =
        rw (bind_assoc (evaluate c.inputs e locals)) (effect-Leads c stack f e i j locals h)
    lower_statement-Leads (Statement.assign_stmt at x e) loops s i j b k locals d l h =
        rw (bind_assoc (assign c.inputs x.value e locals))
          (assign-Leads c stack f x.value e i j locals h)

    pub lower_sequence-Leads :
        (body : Statements) (loops : List LoopContext) (s : LowerState)
        → (i j b k : ℕ) (locals : Numbers) → NoDrops s.scope_stack
        → LoopAt c.code loops b k
        → StandsAt c.code i (lower_sequence body loops s).0 j
        → Leads c f (machine i stack locals) (
            execute_all c.inputs f (in_loop loops) body locals >>= λ r.
            running (machine (place_of j b k r.0) stack r.1))
    lower_sequence-Leads Statements.none_left loops s i j b k locals d l h = rw (← h) (arrive refl)
    lower_sequence-Leads (Statements.and_then statement rest) loops s i j b k locals d l h =
        let first = lower_statement_to_instructions statement loops s in
        let (q, h₁, h₂) = StandsAt-append c.code i first.0 _ j h in
        rw (bind_assoc (execute c.inputs f (in_loop loops) statement locals)) (
          Leads-bind (execute c.inputs f (in_loop loops) statement locals) _ _
            (lower_statement-Leads statement loops s i q b k locals d l h₁)
            λ r. rest-Leads c f stack (in_loop loops) rest q j b k r (λ locals'.
              lower_sequence-Leads rest loops first.1 q j b k locals'
                (lower_statement-NoDrops statement loops s d) l h₂))

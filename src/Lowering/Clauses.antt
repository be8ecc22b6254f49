-- ===== src/Lowering/Clauses.antt =====
-- ir/src/interpreter.cpp and frontend/src/lowering.cpp: the machine on the clauses of a `for`, and on what
-- stands between the parts of a statement.
use impulse_jit.Lowering.Rounds.{
  perform-label, ready, place_of, in_loop, perform-branch, is_false-Leads, assign-Leads,
  effect-Leads,
}
use impulse_jit.Token.{Text}
use impulse_jit.Ast.{Expression, Statements, ForClause}
use impulse_jit.Stack.{running, ◌>>=◌, Numbers}
use impulse_jit.Stack.Machine.{Machine, Context, machine, find_label}
use impulse_jit.Stack.Machine.Runs.{Leads, arrive, Leads-bind, Leads-trans}
use impulse_jit.Lowering.{
  lower_test, lower_expression_to_stack, LowerState, Lowered, leave_scope, LoopContext,
  lower_clause, label_text, lower_initialized, has_clause, branch_instruction, label_instruction,
}
use impulse_jit.Lowering.Meaning.{
  evaluate, execute_all, loop, bind_initial, execute_clause, ends_at, Signal, finished, broke,
  continued, Outcome,
}
use impulse_jit.Lowering.Places.{Leads-step, StandsAt, StandsAt-append}
use impulse_jit.Lowering.ExpressionCode.{bind_assoc}
use impulse_jit.Lowering.Labels.{IsUnique}
use impulse_jit.Lowering.Scopes.{NoDrops, emit_scope_drops-newest}
use impulse_jit.Base.{
  append-nil, get_elem?, ℕ, suc, Bool, true, false, Option, none, some, List, [], ◌∷◌,
  if◌then◌else◌, ◌≡◌, refl,
}

module _ (c : Context) (f : ℕ) (stack : List ℕ) where
  pub initial-Leads :
      (x : Text) (e : Option Expression) (s : LowerState) (i j : ℕ) (locals : Numbers)
      → StandsAt c.code i (lower_initialized x e s).0 j
      → Leads c f
          (machine i stack locals)
          (bind_initial c.inputs x e locals >>= λ locals'. running (machine j stack locals'))
  initial-Leads x none s i j locals h = rw (← h) (arrive refl)
  initial-Leads x (some e) s i j locals h = assign-Leads c stack f x e i j locals h

  pub clause-Leads :
      (clause : ForClause) (s : LowerState) (i j : ℕ) (locals : Numbers)
      → StandsAt c.code i (lower_clause clause s).0 j
      → Leads c f
          (machine i stack locals)
          (execute_clause c.inputs clause locals >>= λ locals'. running (machine j stack locals'))
  clause-Leads ForClause.no_clause s i j locals h = rw (← h) (arrive refl)
  clause-Leads (ForClause.for_binding at b) s i j locals h =
      initial-Leads b.name.value b.initializer_expr s i j locals h
  clause-Leads (ForClause.for_expr at e) s i j locals h =
      rw (bind_assoc (evaluate c.inputs e locals)) (effect-Leads c stack f e i j locals h)

  -- The test of a `for`, which may be absent.
  pub test-Leads :
      (e : Option Expression) (x : Text) (i j p : ℕ) (locals : Numbers)
      → StandsAt c.code i (lower_test e x) j
      → find_label x c.code ≡ some p
      → Leads c f (machine i stack locals) (
          ends_at c.inputs e locals >>= λ over.
          running (machine (if over then p else j) stack locals))
  test-Leads none x i j p locals h q = rw (← h) (arrive refl)
  test-Leads (some e) x i j p locals h q =
      let (k, a, (at, z)) = StandsAt-append c.code i (lower_expression_to_stack e) _ j h in
      rw (← z) (is_false-Leads c stack f e x i k p locals a at q)

  -- Code of a scope stands where its statements stand.
  pub StandsAt-leave :
      (lowered : Lowered) (i j : ℕ)
      → NoDrops lowered.1.scope_stack
      → StandsAt c.code i (leave_scope lowered).0 j
      → StandsAt c.code i lowered.0 j
  unfolding leave_scope
  StandsAt-leave (code, s) i j h at = rw (emit_scope_drops-newest s.scope_stack h, append-nil) at at

  pub leave_loop-Leads :
      (which : LoopContext → Text) (loop : LoopContext) (i j p : ℕ) (locals : Numbers)
      → find_label (which loop) c.code ≡ some p
      → StandsAt c.code i (branch_instruction (which loop) ∷ []) j
      → Leads c f (machine i stack locals) (running (machine p stack locals))
  leave_loop-Leads which loop i j p locals h (at, z) =
      Leads-step f _ _ _ at (perform-branch c stack (which loop) i p locals h)

  -- Code behind a part is run where the part finishes.
  pub finish-Leads :
      (q j b k : ℕ) (r : Signal × Numbers)
      → ((locals : Numbers) → Leads c f (machine q stack locals) (running (machine j stack locals)))
      → Leads c f
          (machine (place_of q b k r.0) stack r.1)
          (running (machine (place_of j b k r.0) stack r.1))
  finish-Leads q j b k (finished, locals) h = h locals
  finish-Leads q j b k (broke, locals) h = arrive refl
  finish-Leads q j b k (continued, locals) h = arrive refl

  abbrev rest_of : Bool → Statements → Signal × Numbers → Outcome
  rest_of in_loop rest r = elim r.0 [
    | finished ↦ execute_all c.inputs f in_loop rest r.1
    | broke ↦ running (broke, r.1)
    | continued ↦ running (continued, r.1)
  ]

  pub rest-Leads :
      (in_loop : Bool) (rest : Statements) (q j b k : ℕ) (r : Signal × Numbers)
      → ((locals : Numbers)
          → Leads c f (machine q stack locals) (
              execute_all c.inputs f in_loop rest locals >>= λ r.
              running (machine (place_of j b k r.0) stack r.1)))
      → Leads c f
          (machine (place_of q b k r.0) stack r.1)
          (rest_of in_loop rest r >>= λ r. running (machine (place_of j b k r.0) stack r.1))
  rest-Leads in_loop rest q j b k (finished, locals) h = h locals
  rest-Leads in_loop rest q j b k (broke, locals) h = arrive refl
  rest-Leads in_loop rest q j b k (continued, locals) h = arrive refl

  pub branch-Leads :
      (p q : ℕ) (locals : Numbers) (skipped taken : Outcome) (g : Signal × Numbers → Machine)
      (over : Bool)
      → Leads c f (machine p stack locals) (skipped >>= λ r. running (g r))
      → Leads c f (machine q stack locals) (taken >>= λ r. running (g r))
      → Leads c f
          (machine (if over then p else q) stack locals)
          ((if over then skipped else taken) >>= λ r. running (g r))
  branch-Leads p q locals skipped taken g true h h' = h
  branch-Leads p q locals skipped taken g false h h' = h'

  pub label-Leads :
      (x : Text) (i j : ℕ) (locals : Numbers)
      → get_elem? c.code i ≡ some (label_instruction x)
      → suc i ≡ j
      → Leads c f (machine i stack locals) (running (machine j stack locals))
  label-Leads x i j locals at z =
      rw (← z) (Leads-step f _ _ _ at (perform-label c stack x i locals))

  pub goto-Leads :
      (x : Text) (i p : ℕ) (locals : Numbers)
      → get_elem? c.code i ≡ some (branch_instruction x)
      → find_label x c.code ≡ some p
      → Leads c f (machine i stack locals) (running (machine p stack locals))
  goto-Leads x i p locals at h = Leads-step f _ _ _ at (perform-branch c stack x i p locals h)

  -- The increment of a `for`, behind its label, and the way back to the label `x`.
  pub increment-Leads :
      (clause : ForClause) (s : LowerState) (x y : Text) (i j p : ℕ) (locals : Numbers)
      → StandsAt c.code i
          (if has_clause clause then label_instruction x ∷ (lower_clause clause s).0 else [])
          j
      → get_elem? c.code j ≡ some (branch_instruction y)
      → find_label y c.code ≡ some p
      → Leads c f
          (machine i stack locals)
          (execute_clause c.inputs clause locals >>= λ locals'. running (machine p stack locals'))
  increment-Leads ForClause.no_clause s x y i j p locals h at q =
      rw h (goto-Leads y j p locals at q)
  increment-Leads (ForClause.for_binding at' e) s x y i j p locals (lab, h) at q =
      Leads-trans (label-Leads x i _ locals lab refl) refl (
        Leads-bind (bind_initial c.inputs e.name.value e.initializer_expr locals) (ready stack j) _
          (clause-Leads (ForClause.for_binding at' e) s (suc i) j locals h)
          λ locals'. goto-Leads y j p locals' at q)
  increment-Leads (ForClause.for_expr at' e) s x y i j p locals (lab, h) at q =
      Leads-trans (label-Leads x i _ locals lab refl) refl (
        Leads-bind (execute_clause c.inputs (ForClause.for_expr at' e) locals) (ready stack j) _
          (clause-Leads (ForClause.for_expr at' e) s (suc i) j locals h)
          λ locals'. goto-Leads y j p locals' at q)

  -- A `continue` goes to the increment, or to the label of the loop where there is none.
  pub again-Leads :
      (clause : ForClause) (i p : ℕ) (locals : Numbers)
      → Leads c f
          (machine i stack locals)
          (execute_clause c.inputs clause locals >>= λ locals'. running (machine p stack locals'))
      → Leads c f
          (machine (if has_clause clause then i else p) stack locals)
          (execute_clause c.inputs clause locals >>= λ locals'. running (machine p stack locals'))
  again-Leads ForClause.no_clause i p locals h = arrive refl
  again-Leads (ForClause.for_binding at e) i p locals h = h
  again-Leads (ForClause.for_expr at e) i p locals h = h

  module _ (unique : IsUnique c.code) where
    pub continue-place :
        (clause : ForClause) (s : LowerState) (n m i j p : ℕ)
        → StandsAt c.code i
            (if has_clause clause
              then label_instruction (if has_clause clause then label_text m else label_text n)
                ∷ (lower_clause clause s).0
              else [])
            j
        → get_elem? c.code p ≡ some (label_instruction (label_text n))
        → find_label (if has_clause clause then label_text m else label_text n) c.code
          ≡ some (if has_clause clause then i else p)
    continue-place ForClause.no_clause s n m i j p h at = unique n p at
    continue-place (ForClause.for_binding at' e) s n m i j p (lab, h) at = unique m i lab
    continue-place (ForClause.for_expr at' e) s n m i j p (lab, h) at = unique m i lab

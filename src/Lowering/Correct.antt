-- ===== src/Lowering/Correct.antt =====
-- frontend/src/lowering.cpp and ir/src/interpreter.cpp: the interpreter on a lowered function and the
-- meaning of its body.
use impulse_jit.Token.{Text, codes}
use impulse_jit.Ast.{Statement, Statements, FunctionDecl}
use impulse_jit.Ir.{Instruction}
use impulse_jit.Stack.{Step, running, stopped, crashed, exhausted, ◌>>=◌, EvalResult, Numbers}
use impulse_jit.Stack.Machine.{
  Machine, Context, Inputs, tick, machine, machine_loop, no_return, flatten, interpret_function,
}
use impulse_jit.Stack.Machine.Runs.{
  Leads, stop, Leads-bind, Leads-Returns, Leads-exhausted, machine_loop-more, result_of,
}
use impulse_jit.Lowering.{
  lower_sequence, lower_statements_to_instructions, LowerState, leave_scope, enter_scope,
}
use impulse_jit.Lowering.Module.{lower_function}
use impulse_jit.Lowering.Meaning.{continued, broke, finished, Signal, execute_all, body_meaning}
use impulse_jit.Lowering.Places.{StandsAt-whole}
use impulse_jit.Lowering.Labels.{HasLabels-IsUnique}
use impulse_jit.Lowering.Labels.Sequences.{lower_sequence-TakesLabels}
use impulse_jit.Lowering.Rounds.{place_of}
use impulse_jit.Lowering.Scopes.{lower_sequence-NoDrops, emit_scope_drops-newest, NoDrops-enter}
use impulse_jit.Lowering.Simulation.{lower_sequence-Leads}
use impulse_jit.Base.{
  sym, append-nil, ◌∙◌, ◌⊎◌, ◌↔◌, get_elem?, ℕ, ◌+◌, Bool, false, none, List, [], ◌∷◌, ◌++◌, length,
  Run, ok, fault, out_of_fuel, ◌≡◌, ◌≢◌, refl, inl, inr, arith,
}

get_elem?-length : {A : Type 0} (xs : List A) → get_elem? xs (length xs) ≡ none
get_elem?-length [] = refl
get_elem?-length (x ∷ xs) = get_elem?-length xs

place_of-same : (j : ℕ) (signal : Signal) → place_of j j j signal ≡ j
place_of-same j finished = refl
place_of-same j broke = refl
place_of-same j continued = refl

-- At the start of a function, with no scope around it.
abbrev start_state : ℕ → LowerState
start_state n = record { label_counter = n; scope_stack = [] }

abbrev body_code : Statements → ℕ → List Instruction
body_code body n = (lower_sequence body [] (enter_scope (start_state n))).0

abbrev context : Inputs → Statements → ℕ → Context
context inputs body n = record { inputs = inputs; code = body_code body n }

-- Behind the body there is no return.
abbrev then_end : {A : Type 0} → Step A → Step Machine
then_end x = x >>= λ a. stopped no_return

exhausted_of :
    {A : Type 0} (x : Step A) → result_of (then_end x) ≡ out_of_fuel → then_end x ≡ exhausted
exhausted_of (running a) h = cc
exhausted_of (stopped e) h = cc
exhausted_of crashed h = cc
exhausted_of exhausted h = refl

Run-cases : {A : Type 0} (r : Run A) → (r ≡ out_of_fuel) ⊎ (r ≢ out_of_fuel)
Run-cases (ok a) = inr (λ e. cc)
Run-cases fault = inr (λ e. cc)
Run-cases out_of_fuel = inl refl

module _ (inputs : Inputs) (body : Statements) (n : ℕ) where
  end-Leads :
      (f : ℕ) (locals : Numbers)
      → Leads
          (context inputs body n)
          f
          (machine (length (body_code body n)) [] locals)
          (stopped no_return)
  unfolding tick
  end-Leads f locals = stop no_return (rw (tick, get_elem?-length (body_code body n)) refl) refl

  body-Leads :
      (f : ℕ)
      → Leads
          (context inputs body n)
          f
          (machine 0 [] [])
          (execute_all inputs f false body [] >>= λ r. stopped no_return)
  body-Leads f =
      let s = enter_scope (start_state n) in
      let code = body_code body n in
      let j = length code in
      Leads-bind (execute_all inputs f false body []) _ _
        (lower_sequence-Leads (context inputs body n) f []
          (HasLabels-IsUnique n _ code (lower_sequence-TakesLabels body [] s)) body [] s 0 j j j []
          (NoDrops-enter (start_state n) tt) tt (StandsAt-whole code))
        λ r. rw (place_of-same j r.0) (end-Leads f r.1)

  -- The machine on the code of the body, and the meaning of the body.
  machine_loop-body :
      (r : Run EvalResult)
      → r ≢ out_of_fuel
      → ((fuel : ℕ) × (machine_loop fuel (context inputs body n) (machine 0 [] []) ≡ r))
        ↔ ((fuel : ℕ) × (body_meaning inputs fuel body ≡ r))
  unfolding body_meaning
  machine_loop-body r h = (to, from)
    where
      from :
          ((fuel : ℕ) × (body_meaning inputs fuel body ≡ r))
          → ((fuel : ℕ) × (machine_loop fuel (context inputs body n) (machine 0 [] []) ≡ r))
      from (fuel, e) =
          let (k, run) = Leads-Returns _ (body-Leads fuel) (rw e h) in (k, run k (omega arith) ∙ e)

      to :
          ((fuel : ℕ) × (machine_loop fuel (context inputs body n) (machine 0 [] []) ≡ r))
          → ((fuel : ℕ) × (body_meaning inputs fuel body ≡ r))
      to (fuel, e) = elim (Run-cases (body_meaning inputs fuel body)) [
        | inl z ↦ absurd (
            h (
              sym e
              ∙ Leads-exhausted _ (body-Leads fuel)
                  (exhausted_of (execute_all inputs fuel false body []) z)))
        | inr q ↦
            let (k, run) = Leads-Returns _ (body-Leads fuel) q in
            (
              fuel,
              sym (run (k + fuel) (omega arith))
                  ∙ machine_loop-more _ fuel (k + fuel) _ (omega arith) (rw e h)
                  ∙ e,
            )
      ]

  flatten-body :
      (name : Text)
      → flatten (
          record {
            label = name;
            instructions = [] ++ (lower_statements_to_instructions body [] (start_state n)).0;
          }
          ∷ [])
        ≡ body_code body n
  unfolding flatten lower_statements_to_instructions leave_scope
  flatten-body name =
      let s = enter_scope (start_state n) in
      let dropped =
        emit_scope_drops-newest (lower_sequence body [] s).1.scope_stack
          (lower_sequence-NoDrops body [] s (NoDrops-enter (start_state n) tt)) in
      rw (append-nil, dropped, append-nil) refl

-- The interpreter on a lowered function whose body has a statement gives a result, on some fuel,
-- exactly if the meaning of the body is that result on some fuel: the value returned, the error
-- or the reason why there is none, or undefined behaviour. The meaning runs the statements of
-- the syntax tree, with if, while, for, break, continue and return, without labels, jumps and
-- operand stack.
pub interpret_function-lower_function :
    (inputs : Inputs) (f : FunctionDecl) (exported : Bool) (n : ℕ) (statement : Statement)
    → (rest : Statements) (r : Run EvalResult) → f.parsed_body ≡ Statements.and_then statement rest
    → r ≢ out_of_fuel
    → ((fuel : ℕ) × (interpret_function fuel inputs (lower_function f exported n).0 ≡ r))
      ↔ ((fuel : ℕ) × (body_meaning inputs fuel f.parsed_body ≡ r))
unfolding interpret_function lower_function
interpret_function-lower_function inputs f exported n statement rest r e h =
    let body = Statements.and_then statement rest in
    rw (e, flatten-body inputs body n (codes "entry")) (machine_loop-body inputs body n r h)

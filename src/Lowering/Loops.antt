-- ===== src/Lowering/Loops.antt =====
-- The machine on a loop: the label, the test, the body, what lies between two rounds, and the way out.
use impulse_jit.Lowering.Rounds.{ready, perform-label, place_of}
use impulse_jit.Token.{Text}
use impulse_jit.Stack.{Step, running, ◌>>=◌, Numbers}
use impulse_jit.Stack.Machine.{Machine, Context, machine}
use impulse_jit.Stack.Machine.Runs.{Leads, unknown, Leads-bind, Leads-less}
use impulse_jit.Lowering.{label_instruction}
use impulse_jit.Lowering.Meaning.{loop, Signal, finished, broke, continued, Outcome}
use impulse_jit.Lowering.Places.{Leads-step, Leads-next}
use impulse_jit.Lowering.ExpressionCode.{bind_assoc}
use impulse_jit.Base.{
  get_elem?, ℕ, zero, suc, ◌-◌, Bool, true, false, some, List, if◌then◌else◌, ◌≡◌, refl, arith, ◌≤◌,
}

module _ (c : Context) (f : ℕ) (stack : List ℕ) (ends : Numbers → Step Bool)
    (body : Numbers → Outcome) (between : Numbers → Step Numbers) (x y : Text)
    (start body_place finish_place continue_place end_place b k : ℕ)
    (at_start : get_elem? c.code start ≡ some (label_instruction x))
    (at_end : get_elem? c.code end_place ≡ some (label_instruction y))
    (test-Leads : (locals : Numbers)
      → Leads c f (machine (suc start) stack locals) (
          ends locals >>= λ over.
          running (machine (if over then end_place else body_place) stack locals)))
    (body-Leads : (locals : Numbers)
      → Leads c f (machine body_place stack locals) (
          body locals >>= λ r.
          running (machine (place_of finish_place end_place continue_place r.0) stack r.1)))
    (finish-Leads : (locals : Numbers)
      → Leads c f
          (machine finish_place stack locals)
          (between locals >>= λ locals'. running (machine start stack locals')))
    (continue-Leads : (locals : Numbers)
      → Leads c f
          (machine continue_place stack locals)
          (between locals >>= λ locals'. running (machine start stack locals'))) where
  -- Behind the loop, which always finishes.
  abbrev pub behind : Signal × Numbers → Step Machine
  behind r = running (machine (place_of (suc end_place) b k r.0) stack r.1)

  leave-Leads :
      (g : ℕ) (locals : Numbers)
      → Leads c g (machine end_place stack locals) (running (machine (suc end_place) stack locals))
  leave-Leads g locals = Leads-step g _ _ _ at_end (perform-label c stack y end_place locals)

  -- What is known of the next round.
  abbrev RoundLeads : ℕ → Type 0
  RoundLeads g =
      (locals : Numbers)
      → Leads c g (machine start stack locals) (loop g ends body between locals >>= behind)

  between-Leads :
      (g p : ℕ) (locals : Numbers)
      → g ≤ f
      → RoundLeads g
      → Leads c f
          (machine p stack locals)
          (between locals >>= λ locals'. running (machine start stack locals'))
      → Leads c g
          (machine p stack locals)
          ((between locals >>= loop g ends body between) >>= behind)
  between-Leads g p locals l again h =
      rw (bind_assoc (between locals))
        (Leads-bind (between locals) (ready stack start) _ (Leads-less l h) again)

  abbrev after_body : ℕ → Signal × Numbers → Outcome
  after_body g r = elim r.0 [
    | broke ↦ running (finished, r.1)
    | _ ↦ between r.1 >>= loop g ends body between
  ]

  after_body-Leads :
      (g : ℕ) (r : Signal × Numbers)
      → g ≤ f
      → RoundLeads g
      → Leads c g
          (machine (place_of finish_place end_place continue_place r.0) stack r.1)
          (after_body g r >>= behind)
  after_body-Leads g (finished, locals) l again =
      between-Leads g finish_place locals l again (finish-Leads locals)
  after_body-Leads g (broke, locals) l again = leave-Leads g locals
  after_body-Leads g (continued, locals) l again =
      between-Leads g continue_place locals l again (continue-Leads locals)

  after_test-Leads :
      (g : ℕ) (locals : Numbers) (over : Bool)
      → g ≤ f
      → RoundLeads g
      → Leads c g
          (machine (if over then end_place else body_place) stack locals)
          ((if over then running (finished, locals) else (body locals >>= after_body g)) >>= behind)
  after_test-Leads g locals true l again = leave-Leads g locals
  after_test-Leads g locals false l again = rw (bind_assoc (body locals)) (
      Leads-bind (body locals) _ _ (Leads-less l (body-Leads locals))
        λ r. after_body-Leads g r l again)

  -- From its label the machine goes through the rounds of the loop to the place behind it.
  pub loop-Leads :
      (g : ℕ) (locals : Numbers)
      → g ≤ f
      → Leads c g (machine start stack locals) (loop g ends body between locals >>= behind)
  unfolding loop
  loop-Leads zero locals l = unknown refl refl
  loop-Leads (suc g) locals l =
      let same : suc g - 1 ≡ g = omega arith in
      Leads-next (suc g) _ _ _ at_start (perform-label c stack x start locals) (
        rw (same, bind_assoc (ends locals))
          (Leads-bind (ends locals) _ _ (Leads-less (omega arith) (test-Leads locals)) λ over.
            after_test-Leads g locals over (omega arith)
              (λ locals'. loop-Leads g locals' (omega arith))))

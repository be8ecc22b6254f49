-- ===== src/Lowering/Places.antt =====
-- Where lowered code stands in a program, and one round of the machine at a place.
use impulse_jit.Ir.{Instruction}
use impulse_jit.Stack.{Step, running, stopped, crashed, exhausted, ◌>>=◌}
use impulse_jit.Stack.Machine.{Machine, Context, tick, perform}
use impulse_jit.Stack.Machine.Runs.{Leads, arrive, next, stop, crash, stuck}
use impulse_jit.Base.{
  append_assoc, ◌∙◌, length-append, get_elem?, ℕ, suc, ◌+◌, ◌-◌, some, List, [], ◌∷◌, ◌++◌, length,
  ◌≡◌, refl, arith, subst,
}

-- `code` stands in `program` from the index `i` to the index `j`.
abbrev pub StandsAt : List Instruction → ℕ → List Instruction → ℕ → Type 0
StandsAt program i [] j = i ≡ j
StandsAt program i (x ∷ code) j = (get_elem? program i ≡ some x) × StandsAt program (suc i) code j

pub StandsAt-append :
    (program : List Instruction) (i : ℕ) (xs ys : List Instruction) (j : ℕ)
    → StandsAt program i (xs ++ ys) j
    → (k : ℕ) × StandsAt program i xs k × StandsAt program k ys j
StandsAt-append program i [] ys j h = (i, refl, h)
StandsAt-append program i (x ∷ xs) ys j (e, h) =
    let (k, a, b) = StandsAt-append program (suc i) xs ys j h in (k, (e, a), b)

get_elem?-append :
    {A : Type 0} (xs : List A) (y : A) (ys : List A) → get_elem? (xs ++ y ∷ ys) (length xs) ≡ some y
get_elem?-append [] y ys = refl
get_elem?-append (x ∷ xs) y ys = get_elem?-append xs y ys

StandsAt-behind :
    (before code : List Instruction)
    → StandsAt (before ++ code) (length before) code (length before + length code)
StandsAt-behind before [] = omega arith
StandsAt-behind before (x ∷ code) =
    let e : length (before ++ x ∷ []) ≡ suc (length before) =
      length-append before (x ∷ []) ∙ omega arith in
    let e' : length before + length (x ∷ code) ≡ suc (length before) + length code = omega arith in
    (
      get_elem?-append before x code,
      rw e'
          (rw (append_assoc before (x ∷ []) code, e) at (StandsAt-behind (before ++ x ∷ []) code)),
    )

-- A program stands in itself.
pub StandsAt-whole : (code : List Instruction) → StandsAt code 0 code (length code)
StandsAt-whole code =
    let e : 0 + length code ≡ length code = omega arith in
    subst (StandsAt code 0 code) e (StandsAt-behind [] code)

module _ {c : Context} where
  Leads-tick :
      {A : Type 0} (f : ℕ) (m : Machine) (x : Step A) (g : A → Machine)
      → tick c m ≡ (x >>= λ a. running (g a))
      → Leads c f m (x >>= λ a. running (g a))
  Leads-tick f m (running a) g t = next (g a) t (arrive refl)
  Leads-tick f m (stopped e) g t = stop e t refl
  Leads-tick f m crashed g t = crash t refl
  Leads-tick f m exhausted g t = stuck t refl

  -- The instruction at the place decides the round.
  pub Leads-perform :
      {A : Type 0} (f : ℕ) (m : Machine) (inst : Instruction) (x : Step A) (g : A → Machine)
      → get_elem? c.code m.pc ≡ some inst
      → perform c inst m ≡ (x >>= λ a. running (g a))
      → Leads c f m (x >>= λ a. running (g a))
  unfolding tick
  Leads-perform f m inst x g at h = Leads-tick f m x g (rw (tick, at) h)

  -- A round that goes on, and what the machine does from there.
  pub Leads-next :
      (f : ℕ) (m m' : Machine) (inst : Instruction) {r : Step Machine}
      → get_elem? c.code m.pc ≡ some inst
      → perform c inst m ≡ running m'
      → Leads c (f - 1) m' r
      → Leads c f m r
  unfolding tick
  Leads-next f m m' inst at h rest = next m' (rw (tick, at) h) rest

  pub Leads-step :
      (f : ℕ) (m m' : Machine) (inst : Instruction)
      → get_elem? c.code m.pc ≡ some inst
      → perform c inst m ≡ running m'
      → Leads c f m (running m')
  Leads-step f m m' inst at h = Leads-next f m m' inst at h (arrive refl)

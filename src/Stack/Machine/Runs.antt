-- ===== src/Stack/Machine/Runs.antt =====
-- ir/src/interpreter.cpp, `interpret_function`: runs of the machine from one state to a result, put
-- together from the runs of the parts of a program.
use impulse_jit.Stack.{EvalResult, Step, running, stopped, crashed, exhausted, ◌>>=◌}
use impulse_jit.Stack.Machine.{Machine, Context, tick, machine_loop}
use impulse_jit.Base.{
  sym, ◌∙◌, ◌⊎◌, ◌∙◌, sym, ℕ, zero, suc, ◌-◌, Run, ok, fault, out_of_fuel, ◌≡◌, ◌≢◌, refl, ap, inl,
  inr, arith, ◌≤◌, subst,
}

-- The machine goes from a state to what a meaning of the code says: a state, a result, a crash; or,
-- where the meaning is exhausted, the machine makes at least that many rounds.
pub data Leads (c : Context) : ℕ → Machine → Step Machine → Type 0 where
  arrive : {f : ℕ} {m : Machine} {r : Step Machine} → r ≡ running m → Leads c f m r
  unknown : {f : ℕ} {m : Machine} {r : Step Machine} → f ≡ 0 → r ≡ exhausted → Leads c f m r
  next :
      {f : ℕ} {m : Machine} (m' : Machine) {r : Step Machine}
      → tick c m ≡ running m'
      → Leads c (f - 1) m' r
      → Leads c f m r
  stop :
      {f : ℕ} {m : Machine} (e : EvalResult) {r : Step Machine}
      → tick c m ≡ stopped e
      → r ≡ stopped e
      → Leads c f m r
  crash :
      {f : ℕ} {m : Machine} {r : Step Machine} → tick c m ≡ crashed → r ≡ crashed → Leads c f m r
  stuck :
      {f : ℕ} {m : Machine} {r : Step Machine}
      → tick c m ≡ exhausted
      → r ≡ exhausted
      → Leads c f m r

abbrev state_or : Machine → Step Machine → Machine
state_or m (running m') = m'
state_or m _ = m

module _ {c : Context} where
  -- Fewer rounds are asked for.
  pub Leads-less :
      {f g : ℕ} {m : Machine} {r : Step Machine} → g ≤ f → Leads c f m r → Leads c g m r
  Leads-less h (arrive e) = arrive e
  Leads-less h (unknown z e) = unknown (omega arith) e
  Leads-less h (next m' t rest) = next m' t (Leads-less (omega arith) rest)
  Leads-less h (stop e t s) = stop e t s
  Leads-less h (crash t s) = crash t s
  Leads-less h (stuck t s) = stuck t s

  pub Leads-trans :
      {f : ℕ} {m m' : Machine} {r r' : Step Machine}
      → Leads c f m r
      → r ≡ running m'
      → Leads c f m' r'
      → Leads c f m r'
  Leads-trans {f = f} {m = m} {r' = r'} (arrive e) h rest =
      subst (λ x. Leads c f x r') (sym (ap (state_or m) (sym e ∙ h))) rest
  Leads-trans (unknown z e) h rest = cc
  Leads-trans (next m₁ t first) h rest =
      next m₁ t (Leads-trans first h (Leads-less (omega arith) rest))
  Leads-trans (stop e t s) h rest = cc
  Leads-trans (crash t s) h rest = cc
  Leads-trans (stuck t s) h rest = cc

  -- A part that leads to what `x` says, and then from each of its values to what `k` says.
  pub Leads-bind :
      {A : Type 0} {f : ℕ} {m : Machine} (x : Step A) (g : A → Machine) (k : A → Step Machine)
      → Leads c f m (x >>= λ a. running (g a))
      → ((a : A) → Leads c f (g a) (k a))
      → Leads c f m (x >>= k)
  Leads-bind (running a) g k first rest = Leads-trans first refl (rest a)
  Leads-bind (stopped e) g k first rest = first
  Leads-bind crashed g k first rest = first
  Leads-bind exhausted g k first rest = first

Step-cases :
    {A : Type 0} (s : Step A)
    → ((a : A) × (s ≡ running a))
      ⊎ ((e : EvalResult) × (s ≡ stopped e))
      ⊎ (s ≡ crashed)
      ⊎ (s ≡ exhausted)
Step-cases (running a) = inl (a, refl)
Step-cases (stopped e) = inr (inl (e, refl))
Step-cases crashed = inr (inr (inl refl))
Step-cases exhausted = inr (inr (inr refl))

-- What a run that leads to a meaning returns.
abbrev pub result_of : Step Machine → Run EvalResult
result_of (stopped e) = ok e
result_of crashed = fault
result_of _ = out_of_fuel

abbrev pub Returns : Context → Machine → Run EvalResult → Type 0
Returns c m r = (n : ℕ) × ((k : ℕ) → n ≤ k → machine_loop k c m ≡ r)

module _ (c : Context) where
  Returns-next :
      (m m' : Machine) {r : Run EvalResult} → tick c m ≡ running m' → Returns c m' r → Returns c m r
  unfolding machine_loop
  Returns-next m m' {r = r} t (n, h) = (suc n, more)
    where
      more : (k : ℕ) → suc n ≤ k → machine_loop k c m ≡ r
      more zero l = absurd (omega arith)
      more (suc k) l = rw (machine_loop, t) (h k (omega arith))

  Returns-now :
      (m : Machine) (r : Step Machine)
      → tick c m ≡ r
      → ((m' : Machine) → r ≢ running m')
      → Returns c m (result_of r)
  unfolding machine_loop
  Returns-now m r t ends = (1, more r t ends)
    where
      more :
          (r : Step Machine)
          → tick c m ≡ r
          → ((m' : Machine) → r ≢ running m')
          → (k : ℕ) → 1 ≤ k
          → machine_loop k c m ≡ result_of r
      more r t ends zero l = absurd (omega arith)
      more (running m') t ends (suc k) l = absurd (ends m' refl)
      more (stopped e) t ends (suc k) l = rw (machine_loop, t) refl
      more crashed t ends (suc k) l = rw (machine_loop, t) refl
      more exhausted t ends (suc k) l = rw (machine_loop, t) refl

  pub Leads-Returns :
      {f : ℕ} {m : Machine} {r : Step Machine}
      → Leads c f m r
      → result_of r ≢ out_of_fuel
      → Returns c m (result_of r)
  Leads-Returns (arrive e) h = absurd (h (ap result_of e))
  Leads-Returns (unknown z e) h = absurd (h (ap result_of e))
  Leads-Returns {m = m} (next m' t rest) h = Returns-next m m' t (Leads-Returns rest h)
  Leads-Returns {m = m} (stop e t s) h =
      subst (λ x. Returns c m (result_of x)) (sym s) (Returns-now m (stopped e) t (λ m' q. cc))
  Leads-Returns {m = m} (crash t s) h =
      subst (λ x. Returns c m (result_of x)) (sym s) (Returns-now m crashed t (λ m' q. cc))
  Leads-Returns (stuck t s) h = absurd (h (ap result_of s))

  -- A meaning that is exhausted on `f` leaves the machine running for `f` rounds.
  pub Leads-exhausted :
      {f : ℕ} {m : Machine} {r : Step Machine}
      → Leads c f m r
      → r ≡ exhausted
      → machine_loop f c m ≡ out_of_fuel
  unfolding machine_loop
  Leads-exhausted (arrive e) h = cc
  Leads-exhausted (unknown z e) h = rw z refl
  Leads-exhausted {f = zero} (next m' t rest) h = refl
  Leads-exhausted {f = suc f} (next m' t rest) h =
      let e : suc f - 1 ≡ f = omega arith in rw (machine_loop, t, ← e) (Leads-exhausted rest h)
  Leads-exhausted (stop e t s) h = cc
  Leads-exhausted (crash t s) h = cc
  Leads-exhausted {f = zero} (stuck t s) h = refl
  Leads-exhausted {f = suc f} (stuck t s) h = rw (machine_loop, t) refl

  -- More rounds change no result.
  pub machine_loop-more :
      (n k : ℕ) (m : Machine)
      → n ≤ k
      → machine_loop n c m ≢ out_of_fuel
      → machine_loop k c m ≡ machine_loop n c m
  unfolding machine_loop
  machine_loop-more zero k m l h = absurd (h refl)
  machine_loop-more (suc n) zero m l h = absurd (omega arith)
  machine_loop-more (suc n) (suc k) m l h = elim (Step-cases (tick c m)) [
    | inl (m', t) ↦
        rw (machine_loop, t) (machine_loop-more n k m' (omega arith) (rw (machine_loop, t) at h))
    | inr (inl (e, t)) ↦ rw (machine_loop, t) refl
    | inr (inr (inl t)) ↦ rw (machine_loop, t) refl
    | inr (inr (inr t)) ↦ rw (machine_loop, t) refl
  ]

-- ===== src/Interp/Phi/Parallel.antt =====
-- runtime/src/ssa_interpreter.cpp: phi nodes that do not read one another's results are done as if at once.
use impulse_jit.Interp.Phi.{cached_input, materialize_phi}
use impulse_jit.Interp.Store.{lookup_value-store_value}
use impulse_jit.Floats.{Doubles}
use impulse_jit.Ssa.{PhiNode}
use impulse_jit.Heap.{Value}
use impulse_jit.Interp.{SsaState, SsaValue, is_valid, encode_value_id, store_value, lookup_value}
use impulse_jit.Base.{
  ◌∙◌, ◌^◌, ℕ, Bool, true, false, ◌&&◌, Option, none, some, List, [], ◌∷◌, ◌==◌, if◌then◌else◌, ok,
  ◌≡◌, refl, inl, inr, arith, Bool-cases, ◌<◌,
}

abbrev pub InRange : SsaValue → Type 0
InRange v = (0 < v.version) × (v.version < 2 ^ 32)

abbrev pub same_value : SsaValue → SsaValue → Bool
same_value u v = u.symbol == v.symbol && u.version == v.version

-- A phi node, the input that it gets from the block before, and what that input is.
pub record Move : Type 0 where
  pub phi : PhiNode
  pub input : SsaValue
  pub value : Value

abbrev pub phis_of : List Move → List PhiNode
phis_of [] = []
phis_of (m ∷ ms) = m.phi ∷ phis_of ms

abbrev pub IsReady : List PhiNode → ℕ → SsaState → Move → Type 0
IsReady all p s m =
    (cached_input all (encode_value_id m.phi.result) p ≡ some m.input)
    × (lookup_value m.input s ≡ some m.value)
    × InRange m.input
    × InRange m.phi.result

abbrev pub AreReady : List PhiNode → ℕ → SsaState → List Move → Type 0
AreReady all p s [] = Unit
AreReady all p s (m ∷ ms) = IsReady all p s m × AreReady all p s ms

-- The value is neither read nor written by the moves.
abbrev pub IsApart : SsaValue → List Move → Type 0
IsApart r [] = Unit
IsApart r (m ∷ ms) =
    ((same_value m.input r ≡ false) × (same_value r m.phi.result ≡ false)) × IsApart r ms

-- No move touches the result of one before it.
abbrev pub AreApart : List Move → Type 0
AreApart [] = Unit
AreApart (m ∷ ms) = IsApart m.phi.result ms × AreApart ms

-- All moves at once.
abbrev pub moved : SsaValue → List Move → Option Value → Option Value
moved v [] o = o
moved v (m ∷ ms) o = if same_value v m.phi.result then some m.value else moved v ms o

lookup-stored :
    (u v : SsaValue) (d : Value) (s : SsaState)
    → InRange u
    → InRange v
    → lookup_value u (store_value v d s) ≡ (if same_value u v then some d else lookup_value u s)
lookup-stored u v d s hu hv =
    let valid : is_valid v ≡ true = let z = hv.0 in ground arith in
    lookup_value-store_value u v d s hu.1 hv.1 hu.0 valid

AreReady-stored :
    (all : List PhiNode) (p : ℕ) (r : SsaValue) (d : Value) (s : SsaState) (ms : List Move)
    → InRange r
    → IsApart r ms
    → AreReady all p s ms
    → AreReady all p (store_value r d s) ms
AreReady-stored all p r d s [] hr h k = k
AreReady-stored all p r d s (m ∷ ms) hr h ((cached, found, input, result), rest) = (
  (cached, lookup-stored m.input r d s input hr ∙ rw h.0.0 found, input, result),
  AreReady-stored all p r d s ms hr h.1 rest,
)

moved-IsApart :
    (v r : SsaValue) (ms : List Move) (o : Option Value)
    → same_value v r ≡ true
    → IsApart r ms
    → moved v ms o ≡ o
moved-IsApart v r [] o e h = refl
moved-IsApart v r (m ∷ ms) o e ((read, written), h) =
    let other : same_value v m.phi.result ≡ false = ground arith in
    rw other (moved-IsApart v r ms o e h)

moved-stored :
    (v : SsaValue) (m : Move) (ms : List Move) (s : SsaState)
    → InRange v
    → InRange m.phi.result
    → IsApart m.phi.result ms
    → moved v ms (lookup_value v (store_value m.phi.result m.value s))
      ≡ moved v (m ∷ ms) (lookup_value v s)
moved-stored v m ms s hv hr h = elim (Bool-cases (same_value v m.phi.result)) [
  | inl e ↦
      rw (lookup-stored v m.phi.result m.value s hv hr, e)
        (moved-IsApart v m.phi.result ms (some m.value) e h)
  | inr e ↦ rw (lookup-stored v m.phi.result m.value s hv hr, e) refl
]

-- Where each phi node of a block has an input from the block before that is looked up, all in 32
-- bits and of version 1 or more, and no node reads or writes the result of a node before it,
-- materialize_phi succeeds, and every value of version 1 or more is then looked up as if all
-- nodes had been done at once.
pub materialize_phi-moved :
    (d : Doubles) (all : List PhiNode) (p : ℕ) (ms : List Move) (s : SsaState) (v : SsaValue)
    → InRange v
    → AreReady all p s ms
    → AreApart ms
    → (s' : SsaState) × (materialize_phi d all (phis_of ms) (some p) s ≡ ok (none, s'))
      × (lookup_value v s' ≡ moved v ms (lookup_value v s))
unfolding materialize_phi
materialize_phi-moved d all p [] s v hv k h = (s, refl, refl)
materialize_phi-moved d all p (m ∷ ms) s v hv ((cached, found, input, result), ready) (apart, h) =
    let s₁ = store_value m.phi.result m.value s in
    let valid : is_valid m.phi.result ≡ true = let z = result.0 in ground arith in
    let ready₁ = AreReady-stored all p m.phi.result m.value s ms result apart ready in
    let (s', run, seen) = materialize_phi-moved d all p ms s₁ v hv ready₁ h in
    (s', rw (cached, found, valid) run, seen ∙ moved-stored v m ms s hv result apart)

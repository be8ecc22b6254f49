-- ===== src/Interp/Store.antt =====
-- runtime/include/impulse/runtime/ssa_interpreter.h: looking up what was stored.
use impulse_jit.Heap.{GcHeap, Value}
use impulse_jit.Token.{Text}
use impulse_jit.Interp.{
  operands, SsaInstruction, handle_assign, store_local, is_valid, SsaState, put_number, SsaValue,
  lookup_value, find_number, store_value, encode_value_id,
}
use impulse_jit.Base.{
  sym, ◌∙◌, ◌^◌, ℕ, true, false, ◌&&◌, Option, none, some, List, [], ◌∷◌, leb, ◌==◌, if◌then◌else◌,
  ok, ◌≡◌, refl, inl, inr, arith, Bool-cases, Option-cases, ◌<◌,
}

find_number-put_number :
    {A : Type 0} (k j : ℕ) (a : A) (m : List (ℕ × A))
    → find_number k (put_number j a m) ≡ (if k == j then some a else find_number k m)
find_number-put_number k j a [] = refl
find_number-put_number k j a ((i, b) ∷ m) = ground (arith, find_number-put_number k j a m)

-- The two parts of a key are told apart, since each is 32 bits wide.
encode_value_id-same :
    (u v : SsaValue)
    → u.version < 2 ^ 32
    → v.version < 2 ^ 32
    → (encode_value_id u == encode_value_id v) ≡ (u.symbol == v.symbol && u.version == v.version)
unfolding encode_value_id
encode_value_id-same u v h k = ground arith

store_local-value_cache :
    (x : Option Text) (d : Value) (s : SsaState) → (store_local x d s).value_cache ≡ s.value_cache
store_local-value_cache none d s = refl
store_local-value_cache (some x) d s = refl

store_value-value_cache :
    (v : SsaValue) (d : Value) (s : SsaState)
    → is_valid v ≡ true
    → (store_value v d s).value_cache ≡ put_number (encode_value_id v) d s.value_cache
unfolding store_value
store_value-value_cache v d s h = elim (Bool-cases (leb v.version 1)) [
  | inl b ↦ rw (h, store_value, b) (store_local-value_cache _ d _)
  | inr b ↦ rw (h, store_value, b) refl
]

pub lookup_value-versioned :
    (u : SsaValue) (s : SsaState)
    → 0 < u.version
    → lookup_value u s ≡ find_number (encode_value_id u) s.value_cache
unfolding lookup_value
lookup_value-versioned u s z =
    let positive : (u.version == 0) ≡ false = ground arith in
    elim (Option-cases (find_number (encode_value_id u) s.value_cache)) [
      | inl e ↦ rw (lookup_value, positive, e, positive) refl
      | inr (d, e) ↦ rw (lookup_value, positive, e) refl
    ]

-- A value of version 1 or more, in 32 bits, is looked up as it was stored last: what is stored
-- for a valid value is found for the same symbol and version, and changes no other one.
pub lookup_value-store_value :
    (u v : SsaValue) (d : Value) (s : SsaState)
    → u.version < 2 ^ 32
    → v.version < 2 ^ 32
    → 0 < u.version
    → is_valid v ≡ true
    → lookup_value u (store_value v d s)
      ≡ (if u.symbol == v.symbol && u.version == v.version then some d else lookup_value u s)
lookup_value-store_value u v d s h k z valid =
    rw
      (
        lookup_value-versioned u (store_value v d s) z,
        lookup_value-versioned u s z,
        store_value-value_cache v d s valid,
        find_number-put_number (encode_value_id u) (encode_value_id v) d s.value_cache,
        encode_value_id-same u v h k,
      )
      refl

-- The heap plays no part in a value of version 1 or more.
pub lookup_value-heap :
    (v : SsaValue) (s : SsaState) (h : GcHeap)
    → 0 < v.version
    → lookup_value v (record s { heap = h }) ≡ lookup_value v s
lookup_value-heap v s h z =
    lookup_value-versioned v (record s { heap = h }) z ∙ sym (lookup_value-versioned v s z)

pub lookup_value-stored :
    (v : SsaValue) (d : Value) (s : SsaState)
    → 0 < v.version
    → v.version < 2 ^ 32
    → lookup_value v (store_value v d s) ≡ some d
lookup_value-stored v d s z k =
    let valid : is_valid v ≡ true = ground arith in
    let symbol : (v.symbol == v.symbol) ≡ true = ground arith in
    let version : (v.version == v.version) ≡ true = ground arith in
    lookup_value-store_value v v d s k k z valid ∙ rw (symbol, version) refl

-- An assignment whose source is known succeeds, and its result, of version 1 or more, is then
-- looked up as the source was.
pub handle_assign-lookup :
    (inst : SsaInstruction) (s : SsaState) (result argument : SsaValue) (d : Value)
    → operands inst.result inst.arguments ≡ some (result, argument)
    → lookup_value argument s ≡ some d
    → 0 < result.version
    → result.version < 2 ^ 32
    → (s' : SsaState) × (handle_assign inst s ≡ ok (none, s')) × (lookup_value result s' ≡ some d)
unfolding handle_assign
handle_assign-lookup inst s result argument d parts source z k = (
  store_value result d s,
  rw (handle_assign, parts, source) refl,
  lookup_value-stored result d s z k,
)

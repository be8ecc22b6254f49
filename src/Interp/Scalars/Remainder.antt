-- ===== src/Interp/Scalars/Remainder.antt =====
-- runtime/src/ssa_interpreter.cpp beside ir/src/interpreter.cpp: the remainder of a negative number.
use impulse_jit.Interp.Scalars.{Sizes, binary_number, handle_binary, to_index}
use impulse_jit.Stack.{apply_binary, running}
use impulse_jit.Floats.{Doubles, ℤ, int_remainder, near_zero, remainder}
use impulse_jit.Ssa.{BinaryOp, BinaryOp}
use impulse_jit.Heap.{make_number}
use impulse_jit.Token.{codes, text_eq}
use impulse_jit.Interp.{
  failing, VmStatus, VmStatus, SsaState, SsaValue, SsaInstruction, lookup_value,
}
use impulse_jit.Base.{
  not, ℕ, true, false, Option, none, some, List, ◌∷◌, ok, ◌≡◌, refl, Bool-cases, inl, inr,
}

to_index-negative :
    (d : Doubles) (z : Sizes) (x : ℕ) → d.less x d.zero_value ≡ true → to_index d z x ≡ ok none
unfolding to_index
to_index-negative d z x h = elim (Bool-cases (not (d.is_finite x))) [
  | inl q ↦ rw q refl
  | inr q ↦ rw (q, h) refl
]

-- On % with a number below zero to the left, and a right number with or without an index, where
-- the stack interpreter computes a remainder of the two as `int`, the SSA interpreter fails with
-- an error and leaves the state.
pub handle_binary-remainder :
    (d : Doubles) (z : Sizes) (inst : SsaInstruction) (s : SsaState) (result a b : SsaValue)
    (rest : List SsaValue) (left right : ℕ) (o : Option ℕ) (m n q : ℤ)
    → inst.result ≡ some result
    → inst.arguments ≡ a ∷ b ∷ rest
    → inst.binary_op ≡ BinaryOp.mod_op
    → lookup_value a s ≡ some (make_number left)
    → lookup_value b s ≡ some (make_number right)
    → d.less left d.zero_value ≡ true
    → to_index d z right ≡ ok o
    → near_zero d right ≡ false
    → d.to_int left ≡ some m
    → d.to_int right ≡ some n
    → int_remainder m n ≡ some q
    → (handle_binary d z inst s
        ≡ failing VmStatus.runtime_error
            (codes "modulo requires non-negative integer operands and non-zero divisor")
            s)
      × (apply_binary d (codes "%") left right ≡ running (d.of_int q))
unfolding handle_binary binary_number apply_binary text_eq
handle_binary-remainder d z inst s result a b rest left right o m n q hr ha ho hl hb negative index
      far hm hn hq =
    (
      rw (hr, ha, hl, hb, ho, to_index-negative d z left negative, index) refl,
      rw (far, remainder, hm, hn, hq) refl,
    )

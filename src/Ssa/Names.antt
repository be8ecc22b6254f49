-- ===== src/Ssa/Names.antt =====
-- ir/include/impulse/ir/ssa.h: the names of the operations.
use impulse_jit.Ssa.{SsaOpcode, SsaOpcode, opcode_from_string, opcode_to_string}
use impulse_jit.Token.{Text, text_eq, text_eq_sound}
use impulse_jit.Base.{subst, ◌↔◌, if◌then◌else◌, ◌≡◌, ◌≢◌, refl, Bool-cases, inl, inr, ap, ◌∙◌}

-- Where a test picks the operation of its name, or the rest is named, the whole is.
chosen :
    (s : Text) (op rest : SsaOpcode)
    → (rest ≢ SsaOpcode.unknown → s ≡ opcode_to_string rest)
    → (if text_eq s (opcode_to_string op) then op else rest) ≢ SsaOpcode.unknown
    → s ≡ opcode_to_string (if text_eq s (opcode_to_string op) then op else rest)
chosen s op rest next = elim (Bool-cases (text_eq s (opcode_to_string op))) [
  | inl q ↦ rw q (λ h. text_eq_sound s (opcode_to_string op) q)
  | inr q ↦ rw q next
]

named :
    (s : Text)
    → opcode_from_string s ≢ SsaOpcode.unknown
    → s ≡ opcode_to_string (opcode_from_string s)
unfolding opcode_from_string opcode_to_string
named s = chosen s SsaOpcode.binary _ (
    chosen s SsaOpcode.literal _ (
      chosen s SsaOpcode.assign _ (
        chosen s SsaOpcode.branch_if _ (
          chosen s SsaOpcode.return_value _ (
            chosen s SsaOpcode.call _ (
              chosen s SsaOpcode.branch _ (
                chosen s SsaOpcode.array_get _ (
                  chosen s SsaOpcode.array_set _ (
                    chosen s SsaOpcode.array_make _ (
                      chosen s SsaOpcode.array_length _ (
                        chosen s SsaOpcode.array_push _ (
                          chosen s SsaOpcode.array_pop _ (
                            chosen s SsaOpcode.unary _ (
                              chosen s SsaOpcode.literal_string _
                                (chosen s SsaOpcode.drop _ (λ h. absurd (h refl)))))))))))))))))

written : (op : SsaOpcode) → opcode_from_string (opcode_to_string op) ≡ op
unfolding opcode_from_string opcode_to_string text_eq
written SsaOpcode.binary = refl
written SsaOpcode.literal = refl
written SsaOpcode.assign = refl
written SsaOpcode.branch_if = refl
written SsaOpcode.return_value = refl
written SsaOpcode.call = refl
written SsaOpcode.branch = refl
written SsaOpcode.array_get = refl
written SsaOpcode.array_set = refl
written SsaOpcode.array_make = refl
written SsaOpcode.array_length = refl
written SsaOpcode.array_push = refl
written SsaOpcode.array_pop = refl
written SsaOpcode.unary = refl
written SsaOpcode.literal_string = refl
written SsaOpcode.drop = refl
written SsaOpcode.unknown = refl

-- For every operation but the unknown one, a text is read as the operation exactly if it is the
-- name that is written for it.
pub opcode_from_string-opcode_to_string :
    (s : Text) (op : SsaOpcode)
    → op ≢ SsaOpcode.unknown
    → opcode_from_string s ≡ op ↔ s ≡ opcode_to_string op
opcode_from_string-opcode_to_string s op h = (forward, back)
  where
    forward : opcode_from_string s ≡ op → s ≡ opcode_to_string op
    forward e = subst (λ o. o ≢ SsaOpcode.unknown → s ≡ opcode_to_string o) e (named s) h

    back : s ≡ opcode_to_string op → opcode_from_string s ≡ op
    back e = ap opcode_from_string e ∙ written op

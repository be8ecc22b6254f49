-- ===== src/Interp/Builtins/Trimming.antt =====
-- runtime/src/ssa_interpreter.cpp: what `string_trim` leaves.
use impulse_jit.Interp.Builtins.{string_trim, drop_leading, drop_trailing, is_space}
use impulse_jit.Heap.{make_string}
use impulse_jit.Token.{Text}
use impulse_jit.Interp.{SsaState, SsaValue, store_value}
use impulse_jit.Base.{
  ◌∙◌, true, false, none, some, [], ◌∷◌, ◌++◌, if◌then◌else◌, ok, ◌≡◌, refl, ap, inl, inr,
  Bool-cases, subst,
}

abbrev pub AreSpaces : Text → Type 0
AreSpaces [] = Unit
AreSpaces (c ∷ cs) = (is_space c ≡ true) × AreSpaces cs

abbrev pub BeginsBare : Text → Type 0
BeginsBare [] = Unit
BeginsBare (c ∷ cs) = is_space c ≡ false

abbrev pub EndsBare : Text → Type 0
EndsBare [] = Unit
EndsBare (c ∷ []) = is_space c ≡ false
EndsBare (c ∷ b ∷ bs) = EndsBare (b ∷ bs)

drop_leading-AreSpaces :
    (text : Text)
    → (before : Text) × AreSpaces before
      × (text ≡ before ++ drop_leading text)
      × BeginsBare (drop_leading text)
unfolding drop_leading
drop_leading-AreSpaces [] = ([], tt, refl, tt)
drop_leading-AreSpaces (c ∷ cs) = elim (Bool-cases (is_space c)) [
  | inl q ↦
      let (before, spaces, e, bare) = drop_leading-AreSpaces cs in
      (c ∷ before, (q, spaces), rw q (ap (λ xs. c ∷ xs) e), rw q bare)
  | inr q ↦ ([], tt, rw q refl, rw q q)
]

abbrev Trails : Text → Text → Type 0
Trails text kept = (after : Text) × AreSpaces after × (text ≡ kept ++ after) × EndsBare kept

drop_trailing-Trails : (text : Text) → Trails text (drop_trailing text)
unfolding drop_trailing
drop_trailing-Trails [] = ([], tt, refl, tt)
drop_trailing-Trails (c ∷ cs) = join (drop_trailing cs) (drop_trailing-Trails cs)
  where
    join :
        (kept : Text)
        → Trails cs kept
        → Trails
            (c ∷ cs)
            (elim kept [ [] ↦ if is_space c then [] else c ∷ [] | b ∷ bs ↦ c ∷ b ∷ bs ])
    join [] (after, spaces, e, bare) = elim (Bool-cases (is_space c)) [
      | inl q ↦ rw q (c ∷ after, (q, spaces), ap (λ xs. c ∷ xs) e, tt)
      | inr q ↦ rw q (after, spaces, ap (λ xs. c ∷ xs) e, q)
    ]
    join (b ∷ bs) (after, spaces, e, bare) = (after, spaces, ap (λ xs. c ∷ xs) e, bare)

BeginsBare-prefix : (kept after : Text) → BeginsBare (kept ++ after) → BeginsBare kept
BeginsBare-prefix [] after h = tt
BeginsBare-prefix (c ∷ cs) after h = h

-- On every text string_trim stores what is left of it when spaces before and behind are taken
-- off, and this neither begins nor ends with a space.
pub string_trim-bare :
    (text : Text) (r : SsaValue) (s : SsaState)
    → (before : Text) × (piece : Text) × (after : Text) × (text ≡ before ++ (piece ++ after))
      × AreSpaces before
      × AreSpaces after
      × BeginsBare piece
      × EndsBare piece
      × (string_trim (make_string text ∷ []) (some r) s
          ≡ ok (none, store_value r (make_string piece) s))
unfolding string_trim
string_trim-bare text r s =
    let (before, leading, e, begins) = drop_leading-AreSpaces text in
    let (after, trailing, split, ends) = drop_trailing-Trails (drop_leading text) in
    let piece = drop_trailing (drop_leading text) in
    (
      before,
      piece,
      after,
      e ∙ ap (λ xs. before ++ xs) split,
      leading,
      trailing,
      BeginsBare-prefix piece after (subst BeginsBare split begins),
      ends,
      refl,
    )

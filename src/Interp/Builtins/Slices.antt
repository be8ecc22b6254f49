-- ===== src/Interp/Builtins/Slices.antt =====
-- runtime/src/ssa_interpreter.cpp: which part of a string `string_slice` gives.
use impulse_jit.Interp.Builtins.{string_slice, slice_counted, substr}
use impulse_jit.Interp.Scalars.{Sizes, to_index}
use impulse_jit.Floats.{Doubles}
use impulse_jit.Heap.{Value, make_number, make_string}
use impulse_jit.Token.{Text, codes}
use impulse_jit.Interp.{VmStatus, VmStatus, SsaState, SsaValue, failing, store_value}
use impulse_jit.Base.{
  ◌%◌, length-append, ◌⊎◌, ◌∙◌, sym, ◌^◌, ℕ, zero, suc, ◌+◌, false, none, some, List, [], ◌∷◌, ◌++◌,
  ltb, length, ok, ◌≡◌, refl, ap, inl, inr, arith, Bool-cases, ◌≤◌, ◌<◌,
}

abbrev pub IsSlice : Text → (start count : ℕ) → Text → Type 0
IsSlice text start count piece =
    (before : Text) × (after : Text) × (text ≡ before ++ piece ++ after)
    × (length before ≡ start)
    × (length piece ≡ count)

substr-prefix :
    (count : ℕ) (text : Text)
    → count ≤ length text
    → (after : Text) × (text ≡ substr 0 count text ++ after)
      × (length (substr 0 count text) ≡ count)
substr-prefix zero text h = (text, refl, refl)
substr-prefix (suc n) [] h = absurd (omega arith)
substr-prefix (suc n) (c ∷ cs) h =
    let (after, e, l) = substr-prefix n cs (omega arith) in
    (after, ap (λ xs. c ∷ xs) e, omega (arith, l))

substr-IsSlice :
    (start count : ℕ) (text : Text)
    → start + count ≤ length text
    → IsSlice text start count (substr start count text)
substr-IsSlice zero count text h =
    let (after, e, l) = substr-prefix count text (omega arith) in ([], after, e, refl, l)
substr-IsSlice (suc k) count [] h = absurd (omega arith)
substr-IsSlice (suc k) count (c ∷ cs) h =
    let (before, after, e, b, l) = substr-IsSlice k count cs (omega arith) in
    (c ∷ before, after, ap (λ xs. c ∷ xs) e, omega (arith, b), l)

substr-rest : (count : ℕ) (text : Text) → length text ≤ count → substr 0 count text ≡ text
substr-rest zero [] h = refl
substr-rest zero (c ∷ cs) h = absurd (omega arith)
substr-rest (suc n) [] h = refl
substr-rest (suc n) (c ∷ cs) h = ap (λ xs. c ∷ xs) (substr-rest n cs (omega arith))

substr-end :
    (start count : ℕ) (text : Text)
    → start ≤ length text
    → length text ≤ start + count
    → (before : Text) × (text ≡ before ++ substr start count text) × (length before ≡ start)
substr-end zero count text h k = ([], sym (substr-rest count text (omega arith)), refl)
substr-end (suc n) count [] h k = absurd (omega arith)
substr-end (suc n) count (c ∷ cs) h k =
    let (before, e, b) = substr-end n count cs (omega arith) (omega arith) in
    (c ∷ before, ap (λ xs. c ∷ xs) e, omega (arith, b))

abbrev pub arguments_of : Text → (x y : ℕ) → List Value
arguments_of text x y = make_string text ∷ make_number x ∷ make_number y ∷ []

string_slice-counted :
    (d : Doubles) (z : Sizes) (text : Text) (x y start count : ℕ) (r : SsaValue) (s : SsaState)
    → to_index d z x ≡ ok (some start)
    → to_index d z y ≡ ok (some count)
    → string_slice d z (arguments_of text x y) (some r) s
      ≡ slice_counted text (some start) (some count) r s
unfolding string_slice
string_slice-counted d z text x y start count r s hx hy = rw (hx, hy) refl

slice_counted-bounds :
    (text : Text) (start count : ℕ) (r : SsaValue) (s : SsaState)
    → start + count < 2 ^ 64
    → ((piece : Text) × IsSlice text start count piece
        × (slice_counted text (some start) (some count) r s
            ≡ ok (none, store_value r (make_string piece) s)))
      ⊎ ((length text < start + count)
          × (message : Text) × (slice_counted text (some start) (some count) r s
              ≡ failing VmStatus.runtime_error message s))
unfolding slice_counted
slice_counted-bounds text start count r s h =
    let whole : (start + count) % 2 ^ 64 ≡ start + count = omega arith in
    elim (Bool-cases (ltb (length text) start)) [
      | inl p ↦ inr (ground arith, codes "string_slice start exceeds string length", rw p refl)
      | inr p ↦ elim (Bool-cases (ltb (length text) (start + count))) [
        | inl q ↦
            inr (ground arith, codes "string_slice exceeds string bounds", rw (p, whole, q) refl)
        | inr q ↦ inl (
          substr start count text,
          substr-IsSlice start count text (ground arith),
          rw (p, whole, q) refl,
        )
      ]
    ]

-- On a text and two numbers with an index each, whose sum is below 2 ^ 64, string_slice stores
-- the part of the text of that length behind as many characters as the start is, or the text is
-- shorter than start and count, and it fails and leaves the state.
pub string_slice-bounds :
    (d : Doubles) (z : Sizes) (text : Text) (x y start count : ℕ) (r : SsaValue) (s : SsaState)
    → to_index d z x ≡ ok (some start)
    → to_index d z y ≡ ok (some count)
    → start + count < 2 ^ 64
    → ((piece : Text) × IsSlice text start count piece
        × (string_slice d z (arguments_of text x y) (some r) s
            ≡ ok (none, store_value r (make_string piece) s)))
      ⊎ ((length text < start + count)
          × (message : Text) × (string_slice d z (arguments_of text x y) (some r) s
              ≡ failing VmStatus.runtime_error message s))
string_slice-bounds d z text x y start count r s hx hy h =
    rw (string_slice-counted d z text x y start count r s hx hy)
      (slice_counted-bounds text start count r s h)

-- Where the start is within a text of fewer than 2 ^ 64 bytes, and start and count are 2 ^ 64 or
-- more, by no more than the length of the text, string_slice does not fail, but stores the rest
-- of the text, which is shorter than the count.
pub string_slice-wraps :
    (d : Doubles) (z : Sizes) (text : Text) (x y start count : ℕ) (r : SsaValue) (s : SsaState)
    → to_index d z x ≡ ok (some start)
    → to_index d z y ≡ ok (some count)
    → start ≤ length text
    → length text < 2 ^ 64
    → 2 ^ 64 ≤ start + count
    → start + count ≤ 2 ^ 64 + length text
    → (before : Text) × (piece : Text) × (text ≡ before ++ piece)
      × (length before ≡ start)
      × (length piece < count)
      × (string_slice d z (arguments_of text x y) (some r) s
          ≡ ok (none, store_value r (make_string piece) s))
unfolding slice_counted
string_slice-wraps d z text x y start count r s hx hy within fits wraps small =
    let (before, e, b) = substr-end start count text within (omega arith) in
    let sizes : length text ≡ length before + length (substr start count text) =
      ap (length {0}) e ∙ length-append before (substr start count text) in
    let p : ltb (length text) start ≡ false = ground arith in
    let q : ltb (length text) ((start + count) % 2 ^ 64) ≡ false = ground arith in
    (
      before,
      substr start count text,
      e,
      b,
      omega arith,
      string_slice-counted d z text x y start count r s hx hy ∙ rw (p, q) refl,
    )

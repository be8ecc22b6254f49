-- ===== src/Interp/Builtins.antt =====
-- runtime/src/ssa_interpreter.cpp: what the builtin functions share, and those on strings. Tracing is left
-- out.
pub mod Collections
pub mod Slices
pub mod Trimming
use impulse_jit.Interp.Scalars.{Sizes, to_index}
use impulse_jit.Interp.Arrays.{with_array}
use impulse_jit.Floats.{Doubles, truth}
use impulse_jit.Heap.{Value, ValueKind, ValueKind, make_number, make_string, is_object, GcObject}
use impulse_jit.Token.{Text, codes, text_eq}
use impulse_jit.Interp.{
  VmStatus, VmStatus, Handled, SsaState, SsaValue, number_of, failing, store_value,
}
use impulse_jit.Base.{
  ◌%◌, ◌^◌, ◌>>=◌, ℕ, zero, suc, ◌+◌, ◌-◌, ◌*◌, Bool, true, false, not, ◌&&◌, ◌||◌, Option, none,
  some, List, [], ◌∷◌, ◌++◌, ltb, leb, ◌==◌, if◌then◌else◌, length, Run, ok, fault, out_of_fuel,
  ◌≡◌, ◌≢◌, refl, ap, inl, inr, arith, Bool-cases, Option-cases, ◌≤◌, ◌<◌, subst,
}

abbrev pub Builtin : Type 0
Builtin = List Value → Option SsaValue → SsaState → Handled

abbrev pub with_text : Value → (message : Text) → SsaState → (Text → Handled) → Handled
with_text v message s next = elim v.kind [
  | ValueKind.string ↦ next v.text
  | _ ↦ failing VmStatus.runtime_error message s
]

abbrev pub with_texts :
    (left right : Value) → (message : Text) → SsaState → (Text → Text → Handled) → Handled
with_texts left right message s next =
    with_text left message s (λ x. with_text right message s (λ y. next x y))

abbrev pub with_number : Value → (message : Text) → SsaState → (ℕ → Handled) → Handled
with_number v message s next = elim (number_of (some v)) [
  | none ↦ failing VmStatus.runtime_error message s
  | some x ↦ next x
]

abbrev pub with_numbers :
    (left right : Value) → (message : Text) → SsaState → (ℕ → ℕ → Handled) → Handled
with_numbers left right message s next =
    with_number left message s (λ x. with_number right message s (λ y. next x y))

abbrev pub with_object : Value → (message : Text) → SsaState → (GcObject → Handled) → Handled
with_object v message s next =
    if is_object v
    then with_array v.object message s next
    else failing VmStatus.runtime_error message s

abbrev pub with_result :
    Option SsaValue → (message : Text) → SsaState → (SsaValue → Handled) → Handled
with_result none message s next = failing VmStatus.module_error message s
with_result (some result) message s next = next result

abbrev pub stored : SsaValue → Value → SsaState → Handled
stored result v s = ok (none, store_value result v s)

unfoldable pub string_length : Sizes → Builtin
string_length z (v ∷ []) result s =
    with_text v (codes "string_length expects a string argument") s (λ text.
      with_result result (codes "string_length requires destination for result") s
        (λ r. stored r (make_number (z.of_size (length text))) s))
string_length z _ result s =
    failing VmStatus.runtime_error (codes "string_length expects exactly one argument") s

unfoldable pub string_equals : Doubles → Builtin
string_equals d (v ∷ w ∷ []) result s =
    with_texts v w (codes "string_equals expects string arguments") s (λ x y.
      with_result result (codes "string_equals requires destination for result") s
        (λ r. stored r (make_number (truth d (text_eq x y))) s))
string_equals d _ result s =
    failing VmStatus.runtime_error (codes "string_equals expects exactly two arguments") s

unfoldable pub string_concat : Builtin
string_concat (v ∷ w ∷ []) result s =
    with_texts v w (codes "string_concat expects string arguments") s (λ x y.
      with_result result (codes "string_concat requires destination for result") s
        (λ r. stored r (make_string (x ++ y)) s))
string_concat _ result s =
    failing VmStatus.runtime_error (codes "string_concat expects exactly two arguments") s

abbrev pub repeated : Text → ℕ → Text
repeated pattern zero = []
repeated pattern (suc n) = pattern ++ repeated pattern n

abbrev repeat_counted : Text → Option ℕ → SsaValue → SsaState → Handled
repeat_counted pattern none r s =
    failing VmStatus.runtime_error (codes "string_repeat count must be a non-negative integer") s
repeat_counted pattern (some n) r s = stored r (make_string (repeated pattern n)) s

-- More memory than there is ends the program, which is left out.
unfoldable pub string_repeat : Doubles → Sizes → Builtin
string_repeat d z (v ∷ w ∷ []) result s =
    with_text v (codes "string_repeat expects a string value") s (λ pattern.
      with_number w (codes "string_repeat expects a numeric repeat count") s (λ x.
        with_result result (codes "string_repeat requires destination for result") s
          (λ r. do count ← to_index d z x; repeat_counted pattern count r s)))
string_repeat d z _ result s =
    failing VmStatus.runtime_error (codes "string_repeat expects exactly two arguments") s

-- `text.substr(start, count)`, which takes what there is.
abbrev pub substr : (start count : ℕ) → Text → Text
substr zero zero text = []
substr zero (suc n) [] = []
substr zero (suc n) (c ∷ cs) = c ∷ substr zero n cs
substr (suc k) n [] = []
substr (suc k) n (c ∷ cs) = substr k n cs

unfoldable pub slice_counted : Text → (start count : Option ℕ) → SsaValue → SsaState → Handled
slice_counted text (some start) (some count) r s =
    if ltb (length text) start
    then failing VmStatus.runtime_error (codes "string_slice start exceeds string length") s
    else if ltb (length text) ((start + count) % 2 ^ 64)
    then failing VmStatus.runtime_error (codes "string_slice exceeds string bounds") s
    else stored r (make_string (substr start count text)) s
slice_counted text _ _ r s =
    failing VmStatus.runtime_error (codes "string_slice start/count must be non-negative integers")
      s

unfoldable pub string_slice : Doubles → Sizes → Builtin
string_slice d z (u ∷ v ∷ w ∷ []) result s =
    with_text u (codes "string_slice expects a string value") s (λ text.
      with_numbers v w (codes "string_slice expects numeric start/count arguments") s (λ x y.
        with_result result (codes "string_slice requires destination for result") s (λ r. do
          start ← to_index d z x
          count ← to_index d z y
          slice_counted text start count r s)))
string_slice d z _ result s =
    failing VmStatus.runtime_error (codes "string_slice expects exactly three arguments") s

abbrev map_text : (ℕ → ℕ) → Text → Text
map_text f [] = []
map_text f (c ∷ cs) = f c ∷ map_text f cs

-- `std::tolower` and `std::toupper` in the locale of the program.
unfoldable pub string_cased : (convert : ℕ → ℕ) → (name : Text) → Builtin
string_cased convert name (v ∷ []) result s =
    with_text v (name ++ codes " expects a string argument") s (λ text.
      with_result result (name ++ codes " requires destination for result") s
        (λ r. stored r (make_string (map_text convert text)) s))
string_cased convert name _ result s =
    failing VmStatus.runtime_error (name ++ codes " expects exactly one argument") s

-- The spaces of the "C" locale.
abbrev pub is_space : ℕ → Bool
is_space c = c == 32 || leb 9 c && leb c 13

unfoldable pub drop_leading : Text → Text
drop_leading [] = []
drop_leading (c ∷ cs) = if is_space c then drop_leading cs else c ∷ cs

-- The text before the spaces at its end.
unfoldable pub drop_trailing : Text → Text
drop_trailing [] = []
drop_trailing (c ∷ cs) = elim (drop_trailing cs) [
  | [] ↦ if is_space c then [] else c ∷ []
  | b ∷ bs ↦ c ∷ b ∷ bs
]

unfoldable pub string_trim : Builtin
string_trim (v ∷ []) result s =
    with_text v (codes "string_trim expects a string argument") s (λ text.
      with_result result (codes "string_trim requires destination for result") s
        (λ r. stored r (make_string (drop_trailing (drop_leading text))) s))
string_trim _ result s =
    failing VmStatus.runtime_error (codes "string_trim expects exactly one argument") s

-- ===== src/Floats.antt =====
-- What ir/src/interpreter.cpp and frontend/src/expression_eval.cpp both do with numbers: literals, the
-- tests against zero, and the remainder. A double is its 64 bits; what the processor and the standard
-- library do with them is a parameter.
use impulse_jit.Token.{Text, codes, text_eq}
use impulse_jit.Base.{
  ◌%◌, ◌^◌, ℕ, zero, suc, ◌-◌, Bool, not, ◌&&◌, ◌||◌, Option, none, some, [], ◌∷◌, ◌==◌,
  if◌then◌else◌, length,
}

pub data ℤ : Type 0 where
  pos : ℕ → ℤ
  negsuc : ℕ → ℤ

-- `to_int` is the conversion to `int`, which has no result outside the range of `int`; `parse` is
-- `std::stod`, with the number of characters that it takes, and none where it throws;
-- `nano` is 1e-9; `print` writes 12 significant digits.
pub record Doubles : Type 0 where
  pub add : ℕ → ℕ → ℕ
  pub sub : ℕ → ℕ → ℕ
  pub mul : ℕ → ℕ → ℕ
  pub div : ℕ → ℕ → ℕ
  pub neg : ℕ → ℕ
  pub abs : ℕ → ℕ
  pub same : ℕ → ℕ → Bool
  pub less : ℕ → ℕ → Bool
  pub less_equal : ℕ → ℕ → Bool
  pub zero_value : ℕ
  pub one_value : ℕ
  pub epsilon : ℕ
  pub is_finite : ℕ → Bool
  pub to_int : ℕ → Option ℤ
  pub of_int : ℤ → ℕ
  pub parse : Text → Option (ℕ × ℕ)
  pub round : ℕ → ℕ
  pub nano : ℕ
  pub to_long_long : ℕ → ℤ
  pub print : ℕ → Text

-- `condition ? 1.0 : 0.0`.
abbrev pub truth : Doubles → Bool → ℕ
truth d b = if b then d.one_value else d.zero_value

-- `std::abs(x) < kEpsilon`.
abbrev pub near_zero : Doubles → ℕ → Bool
near_zero d x = d.less (d.abs x) d.epsilon

abbrev pub is_nonzero : Doubles → ℕ → Bool
is_nonzero d x = not (d.same x d.zero_value)

-- A result of zero is never negative.
abbrev pub minus : ℕ → ℤ
minus zero = pos 0
minus (suc n) = negsuc n

-- The remainder of two numbers of type `int` of 32 bits; none where it is undefined.
abbrev pub int_remainder : ℤ → ℤ → Option ℤ
int_remainder a (pos zero) = none
int_remainder (pos m) (pos (suc n)) = some (pos (m % suc n))
int_remainder (negsuc m) (pos (suc n)) = some (minus (suc m % suc n))
int_remainder (pos m) (negsuc n) = some (pos (m % suc n))
int_remainder (negsuc m) (negsuc n) =
    if m == 2 ^ 31 - 1 && n == 0 then none else some (minus (suc m % suc n))

-- `static_cast<int>(left) % static_cast<int>(right)`, and the result as a double.
abbrev pub remainder : Doubles → ℕ → ℕ → Option ℕ
remainder d left right = elim (d.to_int left) [
  | none ↦ none
  | some a ↦ elim (d.to_int right) [
    | none ↦ none
    | some b ↦ elim (int_remainder a b) [ none ↦ none | some r ↦ some (d.of_int r) ]
  ]
]

abbrev pub strip_numeric_separators : Text → Text
strip_numeric_separators [] = []
strip_numeric_separators (c ∷ cs) =
    if c == b'_' then strip_numeric_separators cs else c ∷ strip_numeric_separators cs

-- All of the text is read, and as a finite number.
abbrev pub whole_number : Doubles → Text → Option (ℕ × ℕ) → Option ℕ
whole_number d sanitized none = none
whole_number d sanitized (some (value, processed)) =
    if not (processed == length sanitized) || not (d.is_finite value) then none else some value

abbrev pub parse_number : Doubles → Text → Option ℕ
parse_number d [] = none
parse_number d (c ∷ cs) = whole_number d (c ∷ cs) (d.parse (c ∷ cs))

unfoldable pub parse_literal : Doubles → Text → Option ℕ
unfolding text_eq
parse_literal d [] = none
parse_literal d (c ∷ cs) =
    if text_eq (c ∷ cs) (codes "true")
    then some d.one_value
    else if text_eq (c ∷ cs) (codes "false")
    then some d.zero_value
    else parse_number d (strip_numeric_separators (c ∷ cs))

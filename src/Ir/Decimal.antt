-- ===== src/Ir/Decimal.antt =====
-- `std::to_string` of a number that is not negative: its decimal digits.
use impulse_jit.Token.{Text}
use impulse_jit.Base.{
  ◌∙◌, ◌%◌, ◌/◌, sym, ℕ, zero, suc, ◌+◌, ◌-◌, ◌*◌, [], ◌∷◌, ltb, if◌then◌else◌, ◌≡◌, ap, inl, inr,
  arith, Bool-cases, ◌<◌,
}

-- The digits of `n` in front of those that are there. The fuel is more than the number.
unfoldable pub digits_loop : ℕ → ℕ → Text → Text
digits_loop zero n acc = acc
digits_loop (suc fuel) n acc =
    if ltb n 10 then (b'0' + n) ∷ acc else digits_loop fuel (n / 10) ((b'0' + n % 10) ∷ acc)

unfoldable pub to_string : ℕ → Text
to_string n = digits_loop (suc n) n []

-- Reading decimal digits behind those of `a`.
abbrev read_digits : ℕ → Text → ℕ
read_digits a [] = a
read_digits a (c ∷ cs) = read_digits (a * 10 + (c - b'0')) cs

read_digits-digits_loop :
    (fuel n : ℕ) (acc : Text)
    → n < fuel
    → read_digits 0 (digits_loop fuel n acc) ≡ read_digits n acc
unfolding digits_loop
read_digits-digits_loop zero n acc h = absurd (omega arith)
read_digits-digits_loop (suc fuel) n acc h = elim (Bool-cases (ltb n 10)) [
  | inl b ↦
      let e : 0 * 10 + (b'0' + n - b'0') ≡ n = omega arith in rw b (ap (λ a. read_digits a acc) e)
  | inr b ↦
      let e : n / 10 * 10 + (b'0' + n % 10 - b'0') ≡ n = omega arith in
      let smaller : n / 10 < fuel = ground arith in
      rw b (
        read_digits-digits_loop fuel (n / 10) ((b'0' + n % 10) ∷ acc) smaller
        ∙ ap (λ a. read_digits a acc) e)
]

-- Different numbers have different digits.
pub to_string-injective : (m n : ℕ) → to_string m ≡ to_string n → m ≡ n
unfolding to_string
to_string-injective m n h =
    sym (read_digits-digits_loop (suc m) m [] (omega arith))
    ∙ ap (read_digits 0) h
    ∙ read_digits-digits_loop (suc n) n [] (omega arith)

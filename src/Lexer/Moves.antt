-- ===== src/Lexer/Moves.antt =====
-- frontend/src/lexer.cpp: what the cursor's steps read, and the line and column that they count.
use impulse_jit.Base.{
  ℕ, ◌≡◌, refl, Bool, true, not, ◌&&◌, ◌||◌, [], ◌∷◌, ◌++◌, append_assoc, arith, if◌then◌else◌,
  length, take, length-append, take-append, Bool-cases, inl, inr, ap, sym, ◌∙◌,
}
use impulse_jit.Token.{Text}
use impulse_jit.Lexer.{
  Lexer, cursor, peek_in, peek, is_empty, is_at_end, next_line, next_column, advance, advance_while,
  advance_over, slice,
}

abbrev pub line_after : ℕ → Text → ℕ
line_after line [] = line
line_after line (c ∷ cs) = line_after (next_line c line) cs

abbrev pub column_after : ℕ → Text → ℕ
column_after column [] = column
column_after column (c ∷ cs) = column_after (next_column c column) cs

-- From `l` the cursor reads `w` and is then `l'`.
pub record Moves (l : Lexer) (w : Text) (l' : Lexer) : Type 0 where
  pub text : l.rest ≡ w ++ l'.rest
  pub line : l'.line ≡ line_after l.line w
  pub column : l'.column ≡ column_after l.column w

pub line_after-append : (n : ℕ) (v w : Text) → line_after n (v ++ w) ≡ line_after (line_after n v) w
line_after-append n [] w = refl
line_after-append n (c ∷ v) w = line_after-append (next_line c n) v w

pub column_after-append :
    (n : ℕ) (v w : Text) → column_after n (v ++ w) ≡ column_after (column_after n v) w
column_after-append n [] w = refl
column_after-append n (c ∷ v) w = column_after-append (next_column c n) v w

pub Moves-refl : (l : Lexer) → Moves l [] l
Moves-refl l = record { text = refl; line = refl; column = refl }

pub Moves-trans : {l m n : Lexer} {v w : Text} → Moves l v m → Moves m w n → Moves l (v ++ w) n
Moves-trans {l} {m} {n} {v} {w} a b = record {
  text = a.text ∙ ap (λ t. v ++ t) b.text ∙ sym (append_assoc v w n.rest);
  line = b.line ∙ ap (λ k. line_after k w) a.line ∙ sym (line_after-append l.line v w);
  column = b.column ∙ ap (λ k. column_after k w) a.column ∙ sym (column_after-append l.column v w);
}

pub Moves-cons :
    (c : ℕ) (cs : Text) (line column : ℕ) {w : Text} {l' : Lexer}
    → Moves (cursor cs (next_line c line) (next_column c column)) w l'
    → Moves (cursor (c ∷ cs) line column) (c ∷ w) l'
Moves-cons c cs line column m = record {
  text = ap (λ t. c ∷ t) m.text;
  line = m.line;
  column = m.column;
}

pub advance-Moves : (l : Lexer) {c : ℕ} {cs : Text} → l.rest ≡ c ∷ cs → Moves l (c ∷ []) (advance l)
unfolding advance
advance-Moves l e = record { text = rw e refl; line = rw e refl; column = rw e refl }

pub advance-rest : (l : Lexer) {c : ℕ} {cs : Text} → l.rest ≡ c ∷ cs → (advance l).rest ≡ cs
unfolding advance
advance-rest l e = rw e

-- The longest start of the text on which `p` holds.
abbrev pub take_while : (ℕ → Bool) → Text → Text
take_while p [] = []
take_while p (c ∷ cs) = if p c then c ∷ take_while p cs else []

abbrev pub all : (ℕ → Bool) → Text → Bool
all p [] = true
all p (c ∷ cs) = p c && all p cs

pub all-take_while : (p : ℕ → Bool) (w : Text) → all p (take_while p w) ≡ true
all-take_while p [] = refl
all-take_while p (c ∷ cs) = ground (arith, all-take_while p cs)

advance_while-Moves :
    (p : ℕ → Bool) (w : Text) (line column : ℕ)
    → Moves (cursor w line column) (take_while p w) (advance_while p w line column)
unfolding advance_while
advance_while-Moves p [] line column = Moves-refl _
advance_while-Moves p (c ∷ cs) line column = elim (Bool-cases (p c)) [
  | inl h ↦ rw h (
      Moves-cons c cs line column
        (advance_while-Moves p cs (next_line c line) (next_column c column)))
  | inr h ↦ rw h (Moves-refl _)
]

-- The loop stops at the end, or where `p` fails.
advance_while-stops :
    (p : ℕ → Bool) (w : Text) (line column : ℕ)
    → (is_empty (advance_while p w line column).rest
        || not (p (peek_in (advance_while p w line column).rest)))
      ≡ true
unfolding advance_while
advance_while-stops p [] line column = refl
advance_while-stops p (c ∷ cs) line column =
    ground (arith, advance_while-stops p cs (next_line c line) (next_column c column))

pub advance_over-Moves :
    (p : ℕ → Bool) (l : Lexer) → Moves l (take_while p l.rest) (advance_over p l)
advance_over-Moves p l = advance_while-Moves p l.rest l.line l.column

pub advance_over-stops :
    (p : ℕ → Bool) (l : Lexer)
    → (is_at_end (advance_over p l) || not (p (peek (advance_over p l)))) ≡ true
advance_over-stops p l = advance_while-stops p l.rest l.line l.column

-- `slice` is what was read.
pub slice-Moves : (l : Lexer) (w : Text) (l' : Lexer) → Moves l w l' → slice l.rest l' ≡ w
slice-Moves l w l' m =
    ap (λ n. take n l.rest) (omega (arith, length-append w l'.rest, ap (length {0}) m.text))
    ∙ ap (take (length w)) m.text
    ∙ take-append w l'.rest

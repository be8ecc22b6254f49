-- ===== src/Lexer/Strings.antt =====
-- frontend/src/lexer.cpp, `lexString`.
use impulse_jit.Base.{
  ==_iff, ℕ, ◌≡◌, refl, Bool, true, false, [], ◌∷◌, ◌++◌, append-nil, append_assoc, arith, ◌==◌,
  Bool-cases, inl, inr, sym, ◌∙◌,
}
use impulse_jit.Token.{Text}
use impulse_jit.Lexer.{Lexer, cursor, next_line, next_column, string_loop, unescape}
use impulse_jit.Lexer.Moves.{Moves, Moves-refl, Moves-cons}
use impulse_jit.Lexer.Spells.{Quoted, is_open}

-- How the loop ends: at a quote, with the value of what stands before, or at the end of the text.
pub data StringEnd (escaped : Bool) (value : Text) (l : Lexer) : Bool × Text × Lexer → Type 0 where
  closed :
      {x : Text} {l' : Lexer} (raw v : Text)
      → Moves l (raw ++ b'"' ∷ []) l'
      → Quoted escaped raw v
      → x ≡ value ++ v
      → StringEnd escaped value l (true, x, l')
  open_end :
      {x : Text} {l' : Lexer} (raw : Text)
      → Moves l raw l'
      → l'.rest ≡ []
      → is_open escaped raw ≡ true
      → StringEnd escaped value l (false, x, l')

module _ (c : ℕ) (cs : Text) (line column : ℕ) (value : Text) where
  abbrev Next : Bool → Text → Bool × Text × Lexer → Type 0
  Next esc u r = StringEnd esc u (cursor cs (next_line c line) (next_column c column)) r

  abbrev Here : Bool → Bool × Text × Lexer → Type 0
  Here esc r = StringEnd esc value (cursor (c ∷ cs) line column) r

  -- The character behind a backslash.
  end_literal : {r : Bool × Text × Lexer} → Next false (value ++ unescape c ∷ []) r → Here true r
  end_literal (StringEnd.closed raw v m q e) =
      StringEnd.closed (c ∷ raw) (unescape c ∷ v) (Moves-cons c cs line column m) (Quoted.literal q)
        (e ∙ append_assoc value (unescape c ∷ []) v)
  end_literal (StringEnd.open_end raw m e o) =
      StringEnd.open_end (c ∷ raw) (Moves-cons c cs line column m) e o

  end_backslash :
      {r : Bool × Text × Lexer}
      → (c == b'\\') ≡ true
      → (c == b'"') ≡ false
      → Next true value r
      → Here false r
  end_backslash h k (StringEnd.closed raw v m q e) =
      StringEnd.closed (c ∷ raw) v (Moves-cons c cs line column m) (Quoted.backslash h k q) e
  end_backslash h k (StringEnd.open_end raw m e o) =
      StringEnd.open_end (c ∷ raw) (Moves-cons c cs line column m) e (ground arith)

  end_plain :
      {r : Bool × Text × Lexer}
      → (c == b'\\') ≡ false
      → (c == b'"') ≡ false
      → Next false (value ++ c ∷ []) r
      → Here false r
  end_plain h k (StringEnd.closed raw v m q e) =
      StringEnd.closed (c ∷ raw) (c ∷ v) (Moves-cons c cs line column m) (Quoted.plain h k q)
        (e ∙ append_assoc value (c ∷ []) v)
  end_plain h k (StringEnd.open_end raw m e o) =
      StringEnd.open_end (c ∷ raw) (Moves-cons c cs line column m) e (ground arith)

  end_quote :
      (c == b'"') ≡ true
      → Here false (true, value, cursor cs (next_line c line) (next_column c column))
  end_quote h =
      StringEnd.closed [] []
        (rw (← (==_iff c b'"').0 h) (Moves-cons c cs line column (Moves-refl _))) Quoted.end
        (sym (append-nil value))

pub string_loop-StringEnd :
    (s : Text) (esc : Bool) (value : Text) (line column : ℕ)
    → StringEnd esc value (cursor s line column) (string_loop esc value s line column)
unfolding string_loop
string_loop-StringEnd [] esc value line column = StringEnd.open_end [] (Moves-refl _) refl refl
string_loop-StringEnd (c ∷ cs) true value line column = end_literal c cs line column value (
    string_loop-StringEnd cs false (value ++ unescape c ∷ []) (next_line c line)
      (next_column c column))
string_loop-StringEnd (c ∷ cs) false value line column =
    let later = λ (esc : Bool) (u : Text).
      string_loop-StringEnd cs esc u (next_line c line) (next_column c column) in
    elim (Bool-cases (c == b'"')) [
      | inl h ↦ rw (h, string_loop) (end_quote c cs line column value h)
      | inr h ↦ elim (Bool-cases (c == b'\\')) [
        | inl k ↦
            rw (h, string_loop, k) (end_backslash c cs line column value k h (later true value))
        | inr k ↦
            rw (h, string_loop, k)
              (end_plain c cs line column value k h (later false (value ++ c ∷ [])))
      ]
    ]

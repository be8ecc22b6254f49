-- ===== src/Lexer/Sound.antt =====
-- frontend/src/lexer.cpp, `tokenize`: the tokens of a whole text, set against the lexical grammar.
use impulse_jit.Lexer.Numbers.{lex_number-Lexed}
use impulse_jit.Lexer.Symbols.{lex_symbol-Lexed, lex_string-Lexed, lex_identifier-Lexed}
use impulse_jit.Lexer.Trivia.{skip_trivia-Trivia, Trivia}
use impulse_jit.Lexer.Moves.{Moves}
use impulse_jit.Base.{
  length-append, ◌>>=◌, ◌+◌, ◌<◌, length, subst, ok, ℕ, ◌≡◌, refl, true, false, List, [], ◌∷◌,
  arith, ◌==◌, Bool-cases, inl, inr, ap, sym, zero, suc,
}
use impulse_jit.Lexer.{
  token_at, cursor, tokenize_loop, lex_token, is_at_end, tokenize, is_empty, Lexer,
}
use impulse_jit.Lexer.Spells.{Lexed}
use impulse_jit.Token.{end_of_file, is_digit, is_identifier_start, Token, Text}

-- From `l` on, the text is trivia and tokens in turn, each token at its line and column, and at
-- the end of the text comes the token that says so.
pub data Lexes : Lexer → List Token → Type 0 where
  stop :
      {l l' : Lexer} {w : Text}
      → Moves l w l'
      → Trivia w l'.rest
      → l'.rest ≡ []
      → Lexes l (token_at l' end_of_file [] ∷ [])
  next :
      {l at l' : Lexer} {w : Text} {t : Token} {ts : List Token}
      → Moves l w at
      → Trivia w at.rest
      → Lexed at t l'
      → Lexes l' ts
      → Lexes l (t ∷ ts)

lex_token-Lexed :
    (c : ℕ) (cs : Text) (line column : ℕ)
    → Lexed
        (cursor (c ∷ cs) line column)
        (lex_token (cursor (c ∷ cs) line column)).0
        (lex_token (cursor (c ∷ cs) line column)).1
unfolding lex_token
lex_token-Lexed c cs line column = elim (Bool-cases (is_identifier_start c)) [
  | inl h ↦ rw (h, lex_token) (lex_identifier-Lexed c cs line column h)
  | inr h ↦ elim (Bool-cases (is_digit c)) [
    | inl k ↦ rw (h, lex_token, k) (lex_number-Lexed c cs line column k)
    | inr k ↦ elim (Bool-cases (c == b'"')) [
      | inl q ↦ rw (h, lex_token, k, q) (lex_string-Lexed c cs line column q)
      | inr q ↦ rw (h, lex_token, k, q) (lex_symbol-Lexed c cs line column h k q)
    ]
  ]
]

lex_token-Lexed_at : (l : Lexer) → is_at_end l ≡ false → Lexed l (lex_token l).0 (lex_token l).1
lex_token-Lexed_at l h = go l.rest refl
  where
    go : (s : Text) → l.rest ≡ s → Lexed l (lex_token l).0 (lex_token l).1
    go [] e = cc (rw e at h)
    go (c ∷ cs) e =
        subst
          (λ s.
            Lexed (cursor s l.line l.column) (lex_token (cursor s l.line l.column)).0
              (lex_token (cursor s l.line l.column)).1)
          (sym e) (lex_token-Lexed c cs l.line l.column)

nil_of_is_empty : (w : Text) → is_empty w ≡ true → w ≡ []
nil_of_is_empty [] h = refl
nil_of_is_empty (c ∷ cs) h = cc

tokenize_loop-Lexes :
    (fuel : ℕ) (l : Lexer)
    → length l.rest < fuel
    → (ts : List Token) × (tokenize_loop fuel l ≡ ok ts) × Lexes l ts
unfolding tokenize_loop
tokenize_loop-Lexes zero l h = absurd (omega arith)
tokenize_loop-Lexes (suc fuel) l h =
    let (l', w, run, m, t) = skip_trivia-Trivia l in
    elim (Bool-cases (is_at_end l')) [
      | inl e ↦ (
        token_at l' end_of_file [] ∷ [],
        rw (run, ◌>>=◌, e),
        stop m t (nil_of_is_empty l'.rest e),
      )
      | inr e ↦
          let lexed = lex_token-Lexed_at l' e in
          let (ts, runs, rest) =
            tokenize_loop-Lexes fuel (lex_token l').1
              (omega (arith, ap (length {0}) m.text, length-append w l'.rest, lexed.shorter)) in
          ((lex_token l').0 ∷ ts, rw (run, ◌>>=◌, e, runs), next m t lexed rest)
    ]

-- tokenize ends on every text, and its tokens are those of the grammar of Lexer/Spells, which
-- has more literals than docs/spec/grammar.md: with the trivia between them they are the whole
-- text in order, each token as long as it can be, at its own line and column, and end_of_file is
-- last.
pub tokenize-Lexes :
    (source : Text) → (ts : List Token) × (tokenize source ≡ ok ts) × Lexes (cursor source 1 1) ts
unfolding tokenize
tokenize-Lexes source = tokenize_loop-Lexes (length source + 1) (cursor source 1 1) (omega arith)

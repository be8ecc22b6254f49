-- ===== src/Parser/Cursor.antt =====
-- frontend/src/parser.cpp: the cursor of the parser on the tokens of a source text.
use impulse_jit.Ast.{Diagnostic}
use impulse_jit.Parser.Module.{report_lexer_errors, start_parser}
use impulse_jit.Lexer.Sound.{tokenize-Lexes, Lexes, stop, next}
use impulse_jit.Lexer.{tokenize, Lexer}
use impulse_jit.Token.{TokenKind, TokenKind, Token, Text}
use impulse_jit.Parser.{advance, Parser, same_kind, report_error}
use impulse_jit.Base.{
  sym, ℕ, zero, suc, true, Option, List, [], ◌∷◌, ok, ◌≡◌, refl, inl, inr, Bool-cases, subst,
}

-- The last token, and there is one, is `end_of_file`.
pub data HasEnd : List Token → Type 0 where
  last : (t : Token) → t.kind ≡ TokenKind.end_of_file → HasEnd (t ∷ [])
  more : (t : Token) {ts : List Token} → HasEnd ts → HasEnd (t ∷ ts)

abbrev pub advance_times : ℕ → Parser → Parser
advance_times zero p = p
advance_times (suc n) p = advance_times n (advance p)

Lexes-HasEnd : {l : Lexer} {ts : List Token} → Lexes l ts → HasEnd ts
Lexes-HasEnd (stop m t e) = last _ refl
Lexes-HasEnd (next m t lexed rest) = more _ (Lexes-HasEnd rest)

advance_at-HasEnd :
    (before : Option Token) (ds : List Diagnostic) {ts : List Token}
    → HasEnd ts
    → HasEnd (advance (record { previous = before; rest = ts; diagnostics = ds })).rest
unfolding advance same_kind
advance_at-HasEnd before ds (last t k) =
    let b : same_kind t.kind TokenKind.end_of_file ≡ true = rw k refl in rw (advance, b) (last t k)
advance_at-HasEnd before ds (more t h) =
    elim (Bool-cases (same_kind t.kind TokenKind.end_of_file)) [
      | inl b ↦ rw (advance, b) (more t h)
      | inr b ↦ rw (advance, b) h
    ]

advance-HasEnd : (p : Parser) → HasEnd p.rest → HasEnd (advance p).rest
advance-HasEnd p h = advance_at-HasEnd p.previous p.diagnostics h

advances-HasEnd : (n : ℕ) (p : Parser) → HasEnd p.rest → HasEnd (advance_times n p).rest
advances-HasEnd zero p h = h
advances-HasEnd (suc n) p h = advances-HasEnd n (advance p) (advance-HasEnd p h)

report_lexer_errors-rest : (ts : List Token) (p : Parser) → (report_lexer_errors ts p).rest ≡ p.rest
unfolding report_lexer_errors report_error
report_lexer_errors-rest [] p = refl
report_lexer_errors-rest (t ∷ ts) p = elim (Bool-cases (same_kind t.kind TokenKind.error)) [
  | inl b ↦ rw (report_lexer_errors, b) (report_lexer_errors-rest ts _)
  | inr b ↦ rw (report_lexer_errors, b) (report_lexer_errors-rest ts _)
]

-- However often the parser of a source text advances from its start, a token is left, and the
-- last that is left is end_of_file, so that peek reads no token behind the last.
pub advance_times-HasEnd :
    (source : Text) (n : ℕ)
    → (ts : List Token) × (tokenize source ≡ ok ts)
      × HasEnd (advance_times n (report_lexer_errors ts (start_parser ts))).rest
advance_times-HasEnd source n =
    let (ts, run, lexes) = tokenize-Lexes source in
    let start : HasEnd (report_lexer_errors ts (start_parser ts)).rest =
      subst HasEnd (sym (report_lexer_errors-rest ts (start_parser ts))) (Lexes-HasEnd lexes) in
    (ts, run, advances-HasEnd n _ start)

-- ===== src/Lexer/Trivia.antt =====
-- frontend/src/lexer.cpp, `skipTrivia`: white space and comments.
use impulse_jit.Base.{
  zero, subst, suc, ok, length-append, ◌<◌, ◌+◌, ==_iff, length, some, none, refl, Option,
  append-nil, inr, ap, inl, arith, Bool-cases, ◌||◌, ◌&&◌, true, [], ◌==◌, ◌∷◌, false, ◌≡◌,
}
use impulse_jit.Lexer.{
  skip_trivia, skip_loop, advance_while, trivia_step, advance, next_column, next_line, is_empty,
  not_newline, peek_in, cursor, is_space, Bool, ℕ, skip_block, ◌++◌, Lexer,
}
use impulse_jit.Token.{Text}
use impulse_jit.Lexer.Moves.{
  advance_over-stops, all-take_while, advance_over-Moves, take_while, Moves-trans, advance-rest,
  advance-Moves, Moves-cons, Moves-refl, Moves, all,
}

-- Somewhere in the text a `*` stands before a `/`.
abbrev pub closes : Text → Bool
closes [] = false
closes (c ∷ cs) = c == b'*' && peek_in cs == b'/' || closes cs

abbrev pub opens_comment : ℕ → ℕ → Bool
opens_comment c d = c == b'/' && (d == b'/' || d == b'*')

-- White space or a comment begins here.
abbrev pub begins_trivia : Text → Bool
begins_trivia [] = false
begins_trivia (c ∷ cs) = is_space c || opens_comment c (peek_in cs)

-- One space, or one comment up to its end, where `after` is the text behind it. An unclosed
-- comment takes the rest of the text.
pub data Piece (w after : Text) : Type 0 where
  space : (c : ℕ) → is_space c ≡ true → w ≡ c ∷ [] → Piece w after
  line_comment :
      (body : Text)
      → all not_newline body ≡ true
      → (is_empty after || peek_in after == b'\n') ≡ true
      → w ≡ b'/' ∷ b'/' ∷ body
      → Piece w after
  block_comment :
      (body : Text)
      → closes (body ++ b'*' ∷ []) ≡ false
      → w ≡ b'/' ∷ b'*' ∷ body ++ b'*' ∷ b'/' ∷ []
      → Piece w after
  unclosed :
      (body : Text) → closes body ≡ false → w ≡ b'/' ∷ b'*' ∷ body → after ≡ [] → Piece w after

-- All the white space and the comments between two tokens.
pub data Trivia : Text → Text → Type 0 where
  done : {after : Text} → begins_trivia after ≡ false → Trivia [] after
  more :
      {u w all after : Text}
      → Piece u (w ++ after)
      → Trivia w after
      → all ≡ u ++ w
      → Trivia all after

-- What the loop of a block comment reads.
pub data Block (w after : Text) : Type 0 where
  closed :
      (body : Text)
      → closes (body ++ b'*' ∷ []) ≡ false
      → w ≡ body ++ b'*' ∷ b'/' ∷ []
      → Block w after
  unclosed : closes w ≡ false → after ≡ [] → Block w after

Block-cons :
    (c : ℕ) {w after : Text}
    → Block w after
    → (c == b'*' && peek_in (w ++ after) == b'/') ≡ false
    → Block (c ∷ w) after
Block-cons c (Block.closed [] h e) t = Block.closed (c ∷ []) (ground arith) (ap (λ v. c ∷ v) e)
Block-cons c {w} {after} (Block.closed (d ∷ body) h e) t =
    Block.closed (c ∷ d ∷ body) (ground (arith, ap (λ v. peek_in (v ++ after)) e))
      (ap (λ v. c ∷ v) e)
Block-cons c {w} {after} (Block.unclosed h e) t =
    Block.unclosed (ground (arith, ap (λ v. peek_in (w ++ v)) e, ap peek_in (append-nil w))) e

-- The `*/` that ends the loop.
Block-end :
    (c : ℕ) (cs : Text) (line column : ℕ)
    → (c == b'*' && peek_in cs == b'/') ≡ true
    → (w : Text) × Moves
        (cursor (c ∷ cs) line column)
        w
        (advance (advance (cursor (c ∷ cs) line column)))
      × Block w (advance (advance (cursor (c ∷ cs) line column))).rest
Block-end c [] line column h = absurd (ground arith)
Block-end c (d ∷ ds) line column h =
    let l = cursor (c ∷ d ∷ ds) line column in
    let first = advance-Moves l refl in
    let second = advance-Moves (advance l) (advance-rest l refl) in
    (c ∷ d ∷ [], Moves-trans first second, Block.closed [] (ground arith) (ground arith))

skip_block-Block :
    (s : Text) (line column : ℕ)
    → (w : Text) × Moves (cursor s line column) w (skip_block s line column)
      × Block w (skip_block s line column).rest
unfolding skip_block
skip_block-Block [] line column = ([], Moves-refl _, Block.unclosed refl refl)
skip_block-Block (c ∷ cs) line column = elim (Bool-cases (c == b'*' && peek_in cs == b'/')) [
  | inl h ↦ let (w, m, b) = Block-end c cs line column h in (w, rw h m, rw h b)
  | inr h ↦
      let (w, m, b) = skip_block-Block cs (next_line c line) (next_column c column) in
      (c ∷ w, rw h (Moves-cons c cs line column m), rw h (Block-cons c b (rw m.text at h)))
]

line-Piece :
    (cs : Text) (line column : ℕ)
    → Piece
        (take_while not_newline (b'/' ∷ b'/' ∷ cs))
        (advance_while not_newline (b'/' ∷ b'/' ∷ cs) line column).rest
line-Piece cs line column =
    let l = cursor (b'/' ∷ b'/' ∷ cs) line column in
    Piece.line_comment (take_while not_newline cs) (all-take_while not_newline cs)
      (ground (arith, advance_over-stops not_newline l)) refl

Block-Piece : {w after : Text} → Block w after → Piece (b'/' ∷ b'*' ∷ w) after
Block-Piece (Block.closed body h e) = Piece.block_comment body h (ap (λ v. b'/' ∷ b'*' ∷ v) e)
Block-Piece (Block.unclosed h e) = Piece.unclosed _ h refl e

-- What one round of the loop does.
data Stepped (l : Lexer) : Option Lexer → Type 0 where
  still : begins_trivia l.rest ≡ false → Stepped l none
  read :
      {l' : Lexer} (w : Text)
      → Moves l w l'
      → Piece w l'.rest
      → length l'.rest < length l.rest
      → Stepped l (some l')

shorter : (l l' : Lexer) (c : ℕ) (w : Text) → Moves l (c ∷ w) l' → length l'.rest < length l.rest
shorter l l' c w m = omega (arith, ap (length {0}) m.text, length-append w l'.rest)

line_step :
    (cs : Text) (line column : ℕ)
    → Stepped
        (cursor (b'/' ∷ b'/' ∷ cs) line column)
        (some (advance_while not_newline (b'/' ∷ b'/' ∷ cs) line column))
line_step cs line column =
    let l = cursor (b'/' ∷ b'/' ∷ cs) line column in
    let m = advance_over-Moves not_newline l in
    read _ m (line-Piece cs line column) (shorter l _ b'/' _ m)

block_step :
    (cs : Text) (line column : ℕ)
    → (let l' = advance (advance (cursor (b'/' ∷ b'*' ∷ cs) line column)) in
        Stepped
          (cursor (b'/' ∷ b'*' ∷ cs) line column)
          (some (skip_block l'.rest l'.line l'.column)))
unfolding advance
block_step cs line column =
    let (w, m, b) = skip_block-Block cs line (column + 1 + 1) in
    let m' = Moves-cons b'/' (b'*' ∷ cs) line column (Moves-cons b'*' cs line (column + 1) m) in
    read (b'/' ∷ b'*' ∷ w) m' (Block-Piece b) (shorter _ _ b'/' _ m')

slash_step :
    (d : ℕ) (cs : Text) (line column : ℕ)
    → Stepped
        (cursor (b'/' ∷ d ∷ cs) line column)
        (trivia_step (cursor (b'/' ∷ d ∷ cs) line column))
unfolding trivia_step
slash_step d cs line column = elim (Bool-cases (d == b'/')) [
  | inl h ↦ rw ((==_iff d b'/').0 h) (line_step cs line column)
  | inr h ↦ elim (Bool-cases (d == b'*')) [
    | inl k ↦ rw ((==_iff d b'*').0 k) (block_step cs line column)
    | inr k ↦ rw (h, k) (still (ground arith))
  ]
]

slash_tail :
    (cs : Text) (line column : ℕ)
    → Stepped (cursor (b'/' ∷ cs) line column) (trivia_step (cursor (b'/' ∷ cs) line column))
unfolding trivia_step
slash_tail [] line column = still refl
slash_tail (d ∷ cs) line column = slash_step d cs line column

trivia_step-Stepped :
    (s : Text) (line column : ℕ)
    → Stepped (cursor s line column) (trivia_step (cursor s line column))
unfolding trivia_step
trivia_step-Stepped [] line column = still refl
trivia_step-Stepped (c ∷ cs) line column = elim (Bool-cases (is_space c)) [
  | inl h ↦
      let m = Moves-cons c cs line column (Moves-refl _) in
      rw h (read (c ∷ []) m (Piece.space c h refl) (shorter _ _ c [] m))
  | inr h ↦ elim (Bool-cases (c == b'/')) [
    | inl k ↦ rw ((==_iff c b'/').0 k) (slash_tail cs line column)
    | inr k ↦ rw (h, k) (still (ground arith))
  ]
]

-- The loop ends, reads trivia, and stops where no more begins.
skip_loop-Trivia :
    (fuel : ℕ) (l : Lexer)
    → length l.rest < fuel
    → (l' : Lexer) × (w : Text) × (skip_loop fuel l ≡ ok l') × Moves l w l' × Trivia w l'.rest
unfolding skip_loop
skip_loop-Trivia zero l h = absurd (omega arith)
skip_loop-Trivia (suc fuel) l h =
    after (trivia_step l) refl (trivia_step-Stepped l.rest l.line l.column) (skip_loop-Trivia fuel)
  where
    after :
        (o : Option Lexer)
        → trivia_step l ≡ o
        → Stepped l o
        → ((l' : Lexer)
            → length l'.rest < fuel
            → (l'' : Lexer) × (w : Text) × (skip_loop fuel l' ≡ ok l'')
              × Moves l' w l''
              × Trivia w l''.rest)
        → (l' : Lexer) × (w : Text) × (skip_loop (suc fuel) l ≡ ok l')
          × Moves l w l'
          × Trivia w l'.rest
    after none e (still b) rec = (l, [], rw (e, skip_loop), Moves-refl l, Trivia.done b)
    after (some l') e (read w m p less) rec =
        let (l'', v, run, m', t) = rec l' (omega arith) in
        (
          l'',
          w ++ v,
          rw (e, skip_loop) run,
          Moves-trans m m',
          Trivia.more (subst (λ r. Piece w r) m'.text p) t refl,
        )

-- skip_trivia ends in every state of the lexer; what it reads is a sequence of spaces, line
-- comments and block comments, an unclosed one only at the end of the text, and no trivia begins
-- where it stops.
pub skip_trivia-Trivia :
    (l : Lexer)
    → (l' : Lexer) × (w : Text) × (skip_trivia l ≡ ok l') × Moves l w l' × Trivia w l'.rest
unfolding skip_trivia
skip_trivia-Trivia l = skip_loop-Trivia (length l.rest + 1) l (omega arith)

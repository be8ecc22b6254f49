-- ===== src/Token.antt =====
-- frontend/include/impulse/frontend/lexer.h and the tables of frontend/src/lexer.cpp: tokens, the
-- classes of characters (in the "C" locale), and which word is a keyword. Text is a list of bytes.
use Prim.Native.Char.{code}
use Prim.Native.String.{String}
use impulse_jit.Base.{
  refl, ==_iff, arith, ◌≡◌, ℕ, Bool, true, false, ◌&&◌, ◌||◌, Option, none, some, List, [], ◌∷◌,
  ◌==◌, leb, if◌then◌else◌,
}

abbrev pub Text : Type 0
Text = List ℕ

-- The bytes of an ASCII literal.
abbrev pub codes : String → Text
codes String.[] = []
codes (String.◌∷◌ c s) = code c ∷ codes s

pub data TokenKind : Type 0 where
  identifier integer_literal float_literal string_literal boolean_literal : TokenKind
  kw_module kw_import kw_as kw_export kw_func kw_struct kw_interface kw_let kw_var : TokenKind
  kw_const kw_if kw_else kw_while kw_for kw_in kw_return kw_break kw_continue : TokenKind
  kw_match kw_option kw_result kw_panic : TokenKind
  l_paren r_paren l_brace r_brace l_bracket r_bracket comma semicolon colon : TokenKind
  double_colon dot arrow plus minus star slash percent ampersand : TokenKind
  ampersand_ampersand pipe pipe_pipe bang bang_equal equal equal_equal less : TokenKind
  less_equal greater greater_equal error end_of_file : TokenKind

pub record Token : Type 0 where
  pub kind : TokenKind
  pub lexeme : Text
  pub line : ℕ
  pub column : ℕ

abbrev within : ℕ → ℕ → ℕ → Bool
within lo hi c = leb lo c && leb c hi

abbrev pub is_alpha : ℕ → Bool
is_alpha c = within b'a' b'z' c || within b'A' b'Z' c

unfoldable pub is_digit : ℕ → Bool
is_digit c = within b'0' b'9' c

unfoldable pub is_identifier_start : ℕ → Bool
is_identifier_start c = is_alpha c || c == b'_'

unfoldable pub is_identifier_body : ℕ → Bool
is_identifier_body c = is_alpha c || within b'0' b'9' c || c == b'_'

unfoldable pub text_eq : Text → Text → Bool
text_eq [] [] = true
text_eq (x ∷ xs) (y ∷ ys) = x == y && text_eq xs ys
text_eq _ _ = false

abbrev pub keyword_table : List (Text × TokenKind)
keyword_table =
    (codes "module", kw_module)
    ∷ (codes "import", kw_import)
    ∷ (codes "as", kw_as)
    ∷ (codes "export", kw_export)
    ∷ (codes "func", kw_func)
    ∷ (codes "struct", kw_struct)
    ∷ (codes "interface", kw_interface)
    ∷ (codes "let", kw_let)
    ∷ (codes "var", kw_var)
    ∷ (codes "const", kw_const)
    ∷ (codes "if", kw_if)
    ∷ (codes "else", kw_else)
    ∷ (codes "while", kw_while)
    ∷ (codes "for", kw_for)
    ∷ (codes "in", kw_in)
    ∷ (codes "return", kw_return)
    ∷ (codes "break", kw_break)
    ∷ (codes "continue", kw_continue)
    ∷ (codes "match", kw_match)
    ∷ (codes "option", kw_option)
    ∷ (codes "result", kw_result)
    ∷ (codes "panic", kw_panic)
    ∷ []

unfoldable pub find_keyword : Text → List (Text × TokenKind) → Option TokenKind
unfolding text_eq
find_keyword w [] = none
find_keyword w ((k, kind) ∷ table) = if text_eq k w then some kind else find_keyword w table

unfoldable pub classify_identifier : Text → TokenKind
unfolding find_keyword
classify_identifier lexeme =
    if text_eq lexeme (codes "true") || text_eq lexeme (codes "false")
    then boolean_literal
    else elim (find_keyword lexeme keyword_table) [ none ↦ identifier | some kind ↦ kind ]

pub text_eq_sound : (x y : Text) → text_eq x y ≡ true → x ≡ y
unfolding text_eq
text_eq_sound [] [] h = refl
text_eq_sound (a ∷ x) [] h = cc
text_eq_sound [] (b ∷ y) h = cc
text_eq_sound (a ∷ x) (b ∷ y) h =
    let parts : ((a == b) ≡ true) × (text_eq x y ≡ true) = ground arith in
    let tail : x ≡ y = text_eq_sound x y parts.1 in rw (((==_iff a b).0 parts.0), tail) refl

pub text_eq_refl : (x : Text) → text_eq x x ≡ true
unfolding text_eq
text_eq_refl [] = refl
text_eq_refl (a ∷ x) = let e : (a == a) ≡ true = ground arith in rw e (text_eq_refl x)

-- ===== src/Cfg/Leaders.antt =====
-- ir/src/cfg.cpp: which instructions lead a block.
use impulse_jit.Ir.{Instruction, InstructionKind}
use impulse_jit.Cfg.{
  insert_index, mark_leader, leader_loop, leaders_of, is_terminator, is_label_kind,
}
use impulse_jit.Base.{
  ◌∙◌, get_elem?, ℕ, zero, suc, ◌+◌, Bool, true, false, not, ◌&&◌, ◌||◌, Option, none, some, List,
  [], ◌∷◌, ltb, ◌==◌, length, ◌≡◌, refl, inl, inr, arith, Bool-cases, ◌≤◌, ◌<◌,
}

abbrev pub contains : ℕ → List ℕ → Bool
contains j [] = false
contains j (i ∷ is) = j == i || contains j is

-- Strictly increasing, from `lo` on.
abbrev pub Increasing : ℕ → List ℕ → Type 0
Increasing lo [] = Unit
Increasing lo (i ∷ is) = (lo ≤ i) × Increasing (suc i) is

Increasing-insert_index :
    (lo i : ℕ) (is : List ℕ) → lo ≤ i → Increasing lo is → Increasing lo (insert_index i is)
unfolding insert_index
Increasing-insert_index lo i [] l h = (l, tt)
Increasing-insert_index lo i (j ∷ js) l h = ground (arith, Increasing-insert_index (suc j) i js)

contains-insert_index :
    (j i : ℕ) (is : List ℕ) → contains j (insert_index i is) ≡ (j == i || contains j is)
unfolding insert_index
contains-insert_index j i [] = refl
contains-insert_index j i (k ∷ ks) = ground (arith, contains-insert_index j i ks)

abbrev kind_test : (InstructionKind → Bool) → Option Instruction → Bool
kind_test test none = false
kind_test test (some inst) = test inst.kind

-- Behind a terminator.
abbrev follows_terminator : List Instruction → ℕ → Bool
follows_terminator code zero = false
follows_terminator code (suc j) = kind_test is_terminator (get_elem? code j)

-- The first instruction, a label, or an instruction behind a terminator.
abbrev pub is_leader : List Instruction → ℕ → Bool
is_leader code j =
    j == 0
    || kind_test is_label_kind (get_elem? code j)
    || (follows_terminator code j && ltb j (length code))

-- What the loop from index `i` on, over `rest`, adds.
abbrev is_marked : ℕ → ℕ → List Instruction → ℕ → Bool
is_marked i size [] j = false
is_marked i size (inst ∷ rest) j =
    (is_label_kind inst.kind && j == i)
    || (not (is_label_kind inst.kind) && is_terminator inst.kind && ltb (i + 1) size && j == i + 1)
    || is_marked (suc i) size rest j

contains-mark_leader :
    (i size : ℕ) (kind : InstructionKind) (is : List ℕ) (j : ℕ)
    → contains j (mark_leader i size kind is) ≡ (
        (is_label_kind kind && j == i)
        || (not (is_label_kind kind) && is_terminator kind && ltb (i + 1) size && j == i + 1)
        || contains j is)
contains-mark_leader i size kind is j =
    ground (arith, contains-insert_index j i is, contains-insert_index j (i + 1) is)

Increasing-mark_leader :
    (i size : ℕ) (kind : InstructionKind) (is : List ℕ)
    → Increasing 0 is
    → Increasing 0 (mark_leader i size kind is)
Increasing-mark_leader i size kind is h = elim (Bool-cases (is_label_kind kind)) [
  | inl a ↦ rw a (Increasing-insert_index 0 i is (omega arith) h)
  | inr a ↦ elim (Bool-cases (is_terminator kind && ltb (i + 1) size)) [
    | inl b ↦ rw (a, b) (Increasing-insert_index 0 (i + 1) is (omega arith) h)
    | inr b ↦ rw (a, b) h
  ]
]

pub Increasing-leader_loop :
    (i size : ℕ) (code : List Instruction) (is : List ℕ)
    → Increasing 0 is
    → Increasing 0 (leader_loop i size code is)
unfolding leader_loop
Increasing-leader_loop i size [] is h = h
Increasing-leader_loop i size (inst ∷ code) is h =
    Increasing-leader_loop (suc i) size code _ (Increasing-mark_leader i size inst.kind is h)

contains-leader_loop :
    (i size : ℕ) (code : List Instruction) (is : List ℕ) (j : ℕ)
    → contains j (leader_loop i size code is) ≡ (is_marked i size code j || contains j is)
unfolding leader_loop
contains-leader_loop i size [] is j = refl
contains-leader_loop i size (inst ∷ code) is j =
    contains-leader_loop (suc i) size code _ j
    ∙ ground (arith, contains-mark_leader i size inst.kind is j)

terminator-label :
    (kind : InstructionKind) → (not (is_label_kind kind) && is_terminator kind) ≡ is_terminator kind
terminator-label InstructionKind.label = refl
terminator-label _ = refl

is_marked-before :
    (i size : ℕ) (code : List Instruction) (j : ℕ) → j < i → is_marked i size code j ≡ false
is_marked-before i size [] j h = refl
is_marked-before i size (inst ∷ code) j h = ground (arith, is_marked-before (suc i) size code j)

mark-next :
    (a b c l m : Bool)
    → (not a && b) ≡ b
    → m ≡ (l || false)
    → ((a && false) || (not a && b && c && true) || m) ≡ (l || (b && c))
mark-next a b c l m h k = ground arith

mark-later : (a b c l m : Bool) → m ≡ l → ((a && false) || (not a && b && c && false) || m) ≡ l
mark-later a b c l m h = ground arith

is_marked-at :
    (i size : ℕ) (code : List Instruction) (k : ℕ)
    → is_marked i size code (i + k) ≡ (
        kind_test is_label_kind (get_elem? code k)
        || (follows_terminator code k && ltb (i + k) size))
is_marked-at i size [] zero = refl
is_marked-at i size [] (suc k) = refl
is_marked-at i size (inst ∷ code) zero = ground (arith, is_marked-before (suc i) size code (i + 0))
is_marked-at i size (inst ∷ code) (suc zero) =
    let e : suc i + 0 ≡ i + 1 = omega arith in
    let other : (i + 1 == i) ≡ false = ground arith in
    let same : (i + 1 == i + 1) ≡ true = ground arith in
    rw (other, same)
      (mark-next (is_label_kind inst.kind) (is_terminator inst.kind) (ltb (i + 1) size) _ _
        (terminator-label inst.kind) (rw e at (is_marked-at (suc i) size code 0)))
is_marked-at i size (inst ∷ code) (suc (suc k)) =
    let e : suc i + suc k ≡ i + suc (suc k) = omega arith in
    let other : (i + suc (suc k) == i) ≡ false = ground arith in
    let later : (i + suc (suc k) == i + 1) ≡ false = ground arith in
    rw (other, later)
      (mark-later (is_label_kind inst.kind) (is_terminator inst.kind) (ltb (i + 1) size) _ _
        (rw e at (is_marked-at (suc i) size code (suc k))))

-- The set of leaders.
pub contains-leaders_of :
    (code : List Instruction) (j : ℕ) → contains j (leaders_of code) ≡ is_leader code j
unfolding leaders_of
contains-leaders_of code j =
    let e : 0 + j ≡ j = omega arith in
    ground (
      arith,
      contains-leader_loop 0 (length code) code (0 ∷ []) j,
      rw e at (is_marked-at 0 (length code) code j),
    )

pub Increasing-leaders_of : (code : List Instruction) → Increasing 0 (leaders_of code)
unfolding leaders_of
Increasing-leaders_of code = Increasing-leader_loop 0 (length code) code (0 ∷ []) (omega arith, tt)

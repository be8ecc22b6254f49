-- ===== src/Heap/Mark.antt =====
-- runtime/src/gc_heap.cpp, `mark_object`: the marking loop and its invariant.
use impulse_jit.Base.{
  ℕ, zero, suc, ◌+◌, ◌≤◌, ◌<◌, ◌≡◌, refl, ap, true, false, not, ◌&&◌, ◌||◌, none, some, List, [],
  ◌∷◌, arith, ◌==◌, if◌then◌else◌, length, Bool-cases, Option-cases, inl, inr, ◌∙◌, subst, ok,
}
use impulse_jit.Heap.{
  Ptr, null, Value, is_reference, GcObject, Objects, find, set_marked, push_fields, mark_step,
  mark_loop, field_count, mark_value,
}
use impulse_jit.Heap.Store.{
  is_some, marked_in, has, refs, refers, unmark, weight, refers-unmark, is_some-unmark,
  unmark-set_marked, marked_in-set_marked, is_some-set_marked, weight-set_marked,
  weight-le-field_count,
}

-- The entries of `found` are those of `worklist` and the references that are not marked yet.
record Pushed (os : Objects) (fs : List Value) (worklist found : List Ptr) : Type 0 where
  entries : (q : Ptr) → has q found ≡ (has q worklist || has q (refs fs) && not (marked_in q os))
  bound : length found ≤ length worklist + length fs

Pushed-cons :
    (os : Objects) (f : Value) (fs : List Value) (worklist : List Ptr) {o : GcObject}
    {found : List Ptr}
    → is_reference f ≡ true
    → find f.object os ≡ some o
    → Pushed os fs (if not o.marked then f.object ∷ worklist else worklist) found
    → Pushed os (f ∷ fs) worklist found
Pushed-cons os f fs worklist r e p = record {
  entries = λ q. ground (arith, p.entries q);
  bound = ground (arith, p.bound);
}

push_fields-Pushed :
    (os : Objects) (fs : List Value) (worklist : List Ptr)
    → ((q : Ptr) → has q (refs fs) ≡ true → is_some (find q os) ≡ true)
    → (found : List Ptr) × (push_fields os fs worklist ≡ ok found) × Pushed os fs worklist found
unfolding push_fields
push_fields-Pushed os [] worklist safe =
    (worklist, refl, record { entries = λ q. ground arith; bound = omega arith })
push_fields-Pushed os (f ∷ fs) worklist safe = elim (Bool-cases (is_reference f)) [
  | inr skip ↦
      let (found, run, p) = push_fields-Pushed os fs worklist (λ q h. safe q (ground arith)) in
      (
        found,
        ground arith,
        record { entries = λ q. ground (arith, p.entries q); bound = omega (arith, p.bound) },
      )
  | inl r ↦ elim (Option-cases (find f.object os)) [
    | inl e ↦ absurd (ground (arith, safe f.object))
    | inr (o, e) ↦
        let (found, run, p) =
          push_fields-Pushed os fs (if not o.marked then f.object ∷ worklist else worklist)
            (λ q h. safe q (ground arith)) in
        (found, ground arith, Pushed-cons os f fs worklist r e p)
  ]
]

-- What holds between two rounds, against the store `os₀` in which no mark is set: `R` holds of all
-- that is marked or waits, and what a marked object refers to is marked or waits.
module _ (base : Objects) (R : Ptr → Type 0) where
  pub record Marking (os : Objects) (worklist : List Ptr) : Type 0 where
    pub same : unmark os ≡ base
    pub marked : (p : Ptr) → marked_in p os ≡ true → R p
    pub waits : (p : Ptr) → has p worklist ≡ true → R p
    pub stored : (p : Ptr) → has p worklist ≡ true → is_some (find p base) ≡ true
    pub closed :
        (p q : Ptr)
        → marked_in p os ≡ true
        → refers base p q ≡ true
        → (marked_in q os || has q worklist) ≡ true

-- What was marked or waited before a round is so after it.
abbrev pub Covers : Objects → List Ptr → Objects → List Ptr → Type 0
Covers os worklist os' found =
    (q : Ptr) → (marked_in q os || has q worklist) ≡ true → (marked_in q os' || has q found) ≡ true

module _ {base : Objects} {R : Ptr → Type 0} (no_null : find null base ≡ none)
    (grow : (p q : Ptr) → R p → refers base p q ≡ true → R q)
    (safe : (p q : Ptr) → refers base p q ≡ true → is_some (find q base) ≡ true) where
  is_some-base :
      (p : Ptr) (os : Objects) → unmark os ≡ base → is_some (find p base) ≡ is_some (find p os)
  is_some-base p os e = rw (← e) (is_some-unmark p os)

  refers-base : (p q : Ptr) (os : Objects) → unmark os ≡ base → refers base p q ≡ refers os p q
  refers-base p q os e = rw (← e) (refers-unmark os p q)

  -- A round on an object that is not marked.
  mark_fresh :
      {os : Objects} {current : Ptr} {worklist found : List Ptr} {o : GcObject}
      → Marking base R os (current ∷ worklist)
      → find current os ≡ some o
      → Pushed (set_marked current os) o.fields worklist found
      → Marking base R (set_marked current os) found
  mark_fresh {os} {current} {worklist} {found} {o} inv e p = record {
    same = unmark-set_marked current os ∙ inv.same;
    marked = λ q h. ground (arith, marked_in-set_marked current q os, inv.marked q, inv.waits q);
    waits = λ q h. ground (
      arith,
      p.entries q,
      inv.waits q,
      inv.waits current,
      grow current q,
      refers-base current q os inv.same,
    );
    stored = λ q h.
        ground
          (arith, p.entries q, inv.stored q, safe current q, refers-base current q os inv.same);
    closed = λ r q h k. ground (
      arith,
      p.entries q,
      marked_in-set_marked current r os,
      marked_in-set_marked current q os,
      inv.closed r q,
      refers-base r q os inv.same,
    );
  }

  -- A round on an object that is marked already.
  mark_old :
      {os : Objects} {current : Ptr} {worklist : List Ptr}
      → Marking base R os (current ∷ worklist)
      → marked_in current os ≡ true
      → Marking base R os worklist
  mark_old {os} {current} inv m = record {
    same = inv.same;
    marked = inv.marked;
    waits = λ q h. inv.waits q (ground arith);
    stored = λ q h. inv.stored q (ground arith);
    closed = λ r q h k. ground (arith, inv.closed r q);
  }

  mark_step-Marking :
      {os : Objects} {current : Ptr} {worklist : List Ptr}
      → Marking base R os (current ∷ worklist)
      → (os' : Objects) × (found : List Ptr) × (mark_step os current worklist ≡ ok (os', found))
        × Marking base R os' found
        × Covers os (current ∷ worklist) os' found
        × (length found + weight os' ≤ length worklist + weight os)
  unfolding mark_step
  mark_step-Marking {os} {current} {worklist} inv = elim (Option-cases (find current os)) [
    | inl e ↦ absurd (ground (arith, is_some-base current os inv.same, inv.stored current))
    | inr (o, e) ↦
        let present : (current == null) ≡ false =
          ground (arith, inv.stored current, ap is_some no_null) in
        elim (Bool-cases o.marked) [
          | inl m ↦ (
            os,
            worklist,
            rw (present, e, mark_step, m),
            mark_old inv (ground arith),
            λ q c. ground arith,
            omega arith,
          )
          | inr m ↦
              let (found, run, p) =
                push_fields-Pushed (set_marked current os) o.fields worklist (λ q h. ground (
                  arith,
                  is_some-set_marked current q os,
                  is_some-base q os inv.same,
                  safe current q,
                  refers-base current q os inv.same,
                )) in
              (
                set_marked current os,
                found,
                rw (present, e, mark_step, m, run),
                mark_fresh inv e p,
                λ q c. ground (arith, p.entries q, marked_in-set_marked current q os),
                omega (arith, p.bound, weight-set_marked current os o e m),
              )
        ]
  ]

  -- Enough fuel: the loop takes at most one round for each entry and each field to push.
  mark_loop-Marking :
      (fuel : ℕ) {os : Objects} {worklist : List Ptr}
      → Marking base R os worklist
      → length worklist + weight os < fuel
      → (os' : Objects) × (mark_loop fuel os worklist ≡ ok os')
        × Marking base R os' []
        × Covers os worklist os' []
  unfolding mark_loop
  mark_loop-Marking zero inv h = absurd (omega arith)
  mark_loop-Marking (suc fuel) {os} {worklist = []} inv h = (os, refl, inv, λ q c. c)
  mark_loop-Marking (suc fuel) {os} {worklist = current ∷ worklist} inv h =
      let (next, found, run, inv', covers, less) = mark_step-Marking inv in
      let (last, runs, inv'', covers') = mark_loop-Marking fuel inv' (omega arith) in
      (last, rw (run) runs, inv'', λ q c. covers' q (covers q c))

  -- `mark_object` and `mark_value` mark what the value refers to, and all that follows from it.
  pub mark_value-Marking :
      (os : Objects) (v : Value)
      → Marking base R os []
      → (is_reference v ≡ true → R v.object × (is_some (find v.object base) ≡ true))
      → (os' : Objects) × (mark_value os v ≡ ok os')
        × Marking base R os' []
        × Covers os (refs (v ∷ [])) os' []
  unfolding mark_value
  mark_value-Marking os v inv known = elim (Bool-cases (is_reference v)) [
    | inr skip ↦ (os, ground arith, inv, λ q c. ground arith)
    | inl r ↦
        let (holds, stored) = known r in
        elim (Option-cases (find v.object os)) [
          | inl e ↦ absurd (ground (arith, is_some-base v.object os inv.same))
          | inr (o, e) ↦ elim (Bool-cases o.marked) [
            | inl m ↦ (os, ground arith, inv, λ q c. ground arith)
            | inr m ↦
                let inv' : Marking base R os (v.object ∷ []) = record {
                  same = inv.same;
                  marked = inv.marked;
                  waits = λ p h. subst R (ground arith) holds;
                  stored = λ p h. ground arith;
                  closed = λ p q h k. ground (arith, inv.closed p q);
                } in
                let (last, runs, inv'', covers) =
                  mark_loop-Marking (field_count os + 2) inv'
                    (omega (arith, weight-le-field_count os)) in
                (last, ground arith, inv'', λ q c. covers q (ground arith))
          ]
        ]
  ]

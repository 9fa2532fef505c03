-- ===== src/Decisions/Graph/Cycles.antt =====
-- `_has_directed_cycle` of decisions/contracts.py against the walks that return to where they start.
use foliqant.Prelude.{
  ℕ, zero, suc, ◌+◌, ◌<◌, ◌≡◌, refl, sym, ◌↔◌, ◌⊎◌, inl, inr, arith, String, Bool, true, false,
  List, [], ◌∷◌, length, mem_str, Bool-cases,
}
use foliqant.Decisions.Graph.{
  Edges, targets, sources, Marks, remove, any_visit, leave, visit, Visit, stuck, has_cycle_above,
  has_directed_cycle,
}
use foliqant.Decisions.Graph.Walks.{
  Walk, remove-added, targets-sources, AllSettled, settle, settled-cons, Above, Cycle, Restores,
  any_visit-Restores, Settles, any_visit-Settles, Finds, any_visit-Finds,
}
use foliqant.Decisions.Graph.Paths.{
  In, In-cons, here, unvisited, unvisited-cons, unvisited-nil, snoc,
}

module _ (edges : Edges) where
  leave-cases :
      (node : String) (r : Bool × Marks)
      → (leave node r).0 ≡ false
      → (r.0 ≡ false)
        × ((leave node r).1.visited ≡ node ∷ r.1.visited)
        × ((leave node r).1.visiting ≡ remove node r.1.visiting)
  unfolding leave
  leave-cases node (true, marks) h = absurd (cc h)
  leave-cases node (false, marks) h = (refl, refl, refl)

  leave-finds : (node : String) (r : Bool × Marks) → (leave node r).0 ≡ r.0
  unfolding leave
  leave-finds node (true, marks) = refl
  leave-finds node (false, marks) = refl

  abbrev entered : String → Marks → Marks
  entered node marks = record marks { visiting = node ∷ marks.visiting }

  abbrev children : Visit → ℕ → Visit
  children beyond depth node marks =
      any_visit (visit beyond depth edges) (targets node edges) (entered node marks)

  -- the branches of a visit
  visit-cases :
      (beyond : Visit) (depth : ℕ) (node : String) (marks : Marks)
      → (mem_str node marks.visiting ≡ true)
          × (visit beyond (suc depth) edges node marks ≡ (true, marks))
        ⊎ (mem_str node marks.visiting ≡ false)
          × (In node marks.visited)
          × (visit beyond (suc depth) edges node marks ≡ (false, marks))
        ⊎ (mem_str node marks.visiting ≡ false)
          × (visit beyond (suc depth) edges node marks
              ≡ leave node (children beyond depth node marks))
  unfolding visit
  visit-cases beyond depth node marks = ground arith

  Above-children :
      (node : String) (visiting : List String)
      → Above edges node visiting
      → (n : String) → In n (targets node edges)
      → Above edges n (node ∷ visiting)
  Above-children node visiting above n m v i = elim (In-cons v node visiting i) [
    | inl e ↦ rw (sym e) (record { via = n; first = m; rest = here })
    | inr up ↦
        let w = above v up in record { via = w.via; first = w.first; rest = snoc edges w.rest m }
  ]

  -- a visit that goes down an edge has depth left for it
  deeper :
      (depth : ℕ) (node : String) (visiting : List String)
      → mem_str node visiting ≡ false
      → unvisited edges visiting < suc depth
      → (targets node edges ≡ []) ⊎ (unvisited edges (node ∷ visiting) < depth)
  deeper depth node visiting new enough = elim (targets-empty (targets node edges)) [
    | inl none ↦ inl none
    | inr some_left ↦ inr (omega (arith, unvisited-cons node visiting edges new))
  ]
    where
      targets-empty : (xs : List String) → (xs ≡ []) ⊎ (0 < length xs)
      targets-empty [] = inl refl
      targets-empty (x ∷ xs) = inr (omega arith)

  -- A visit has depth left for everything that it meets, so nothing is asked of what is deeper.
  module _ (beyond : Visit) where
    visit-Restores : (depth : ℕ) → Restores edges (visit beyond depth edges) depth
    unfolding any_visit
    visit-Restores zero node marks enough h = absurd (omega arith)
    visit-Restores (suc depth) node marks enough h = elim (visit-cases beyond depth node marks) [
      | inl (m, e) ↦ absurd (cc (rw e at h))
      | inr (inl (m, old, e)) ↦ rw e refl
      | inr (inr (m, e)) ↦
          let (quiet, old_visited, old_visiting) =
            leave-cases node (children beyond depth node marks) (rw e at h) in
          let same : (children beyond depth node marks).1.visiting ≡ node ∷ marks.visiting =
            elim (deeper depth node marks.visiting m enough) [
              | inl none ↦ rw (none, any_visit) refl
              | inr more ↦
                  any_visit-Restores edges (visit beyond depth edges) depth (visit-Restores depth)
                    (targets node edges) (entered node marks) more quiet
            ] in
          rw (e, old_visiting, same) (remove-added node marks.visiting m)
    ]

    visit-Settles : (depth : ℕ) → Settles edges (visit beyond depth edges) depth
    unfolding any_visit
    visit-Settles zero node marks enough a h = absurd (omega arith)
    visit-Settles (suc depth) node marks enough a h = elim (visit-cases beyond depth node marks) [
      | inl (m, e) ↦ absurd (cc (rw e at h))
      | inr (inl (m, old, e)) ↦ rw e (a, a node old)
      | inr (inr (m, e)) ↦
          let (quiet, old_visited, old_visiting) =
            leave-cases node (children beyond depth node marks) (rw e at h) in
          let (a', all_targets) : AllSettled edges (children beyond depth node marks).1.visited
              × AllSettled edges (targets node edges) =
            elim (deeper depth node marks.visiting m enough) [
              | inl none ↦ rw (none, any_visit) (a, λ u i. absurd (cc i))
              | inr more ↦
                  any_visit-Settles edges (visit beyond depth edges) depth (visit-Restores depth)
                    (visit-Settles depth) (targets node edges) (entered node marks) more a quiet
            ] in
          let done = settle edges node all_targets in
          rw (e, old_visited) (settled-cons edges node _ done a', done)
    ]

    visit-Finds : (depth : ℕ) → Finds edges (visit beyond depth edges) depth
    unfolding any_visit
    visit-Finds zero node marks enough above h = absurd (omega arith)
    visit-Finds (suc depth) node marks enough above h = elim (visit-cases beyond depth node marks) [
      | inl (m, e) ↦ (node, above node m)
      | inr (inl (m, old, e)) ↦ absurd (cc (rw e at h))
      | inr (inr (m, e)) ↦
          let found = rw (e, leave-finds node (children beyond depth node marks)) at h in
          elim (deeper depth node marks.visiting m enough) [
            | inl none ↦ absurd (cc (rw (none, any_visit) at found))
            | inr left ↦
                any_visit-Finds edges (visit beyond depth edges) depth (visit-Restores depth)
                  (visit-Finds depth) (targets node edges) (entered node marks) left
                  (Above-children node marks.visiting above) found
          ]
    ]

  has_cycle_above_iff : (beyond : Visit) → (has_cycle_above beyond edges ≡ true) ↔ Cycle edges
  unfolding has_cycle_above
  has_cycle_above_iff beyond = (
    any_visit-Finds edges (visit beyond depth edges) depth (visit-Restores beyond depth)
        (visit-Finds beyond depth) (sources [] edges) blank enough (λ n m v i. absurd (cc i)),
    λ (u, w). elim (Bool-cases (has_cycle_above beyond edges)) [
      | inl found ↦ found
      | inr quiet ↦
          let settled =
            any_visit-Settles edges (visit beyond depth edges) depth (visit-Restores beyond depth)
              (visit-Settles beyond depth) (sources [] edges) blank enough (λ v m. absurd (cc m))
              quiet in
          absurd (elim (targets-sources u w.via [] edges w.first) [
            | inl none ↦ absurd (cc none)
            | inr source ↦ settled.1 u source u here w
          ])
    ],
  )
    where
      depth : ℕ
      depth = length edges + 1

      blank : Marks
      blank = record { visiting = []; visited = [] }

      enough : unvisited edges [] < depth
      enough = omega (arith, unvisited-nil edges)

same_answer : (a b : Bool) {C : Type 0} → (a ≡ true) ↔ C → (b ≡ true) ↔ C → a ≡ b
same_answer true true h k = refl
same_answer false false h k = refl
same_answer true false h k = sym (k.1 (h.0 refl))
same_answer false true h k = h.1 (k.0 refl)

-- `_has_directed_cycle` returns true exactly when some id walks back to itself, and its recursion
-- ends within the modelled depth: whatever a call below that depth answered, or left of the two
-- sets, the answer is the same.
pub has_directed_cycle_iff :
    (edges : Edges) (beyond : Visit)
    → ((has_directed_cycle edges ≡ true) ↔ ((u : String) × Walk edges u u))
      × (has_cycle_above beyond edges ≡ has_directed_cycle edges)
unfolding has_directed_cycle
has_directed_cycle_iff edges beyond =
    let iff = has_cycle_above_iff edges stuck in
    (iff, same_answer _ _ (has_cycle_above_iff edges beyond) iff)

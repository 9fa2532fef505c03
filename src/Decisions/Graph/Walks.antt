-- ===== src/Decisions/Graph/Walks.antt =====
-- Walks that return to where they start, and `any` of decisions/contracts.py over visits of nodes.
use foliqant.Prelude.{
  ℕ, ◌<◌, ◌≡◌, refl, sym, ◌∙◌, ◌⊎◌, inl, inr, arith, String, Bool, true, false, List, [], ◌∷◌,
  mem_str, Bool-cases, eq_iff, eq_refl,
}
use foliqant.Decisions.Graph.{Edges, targets, sources, Marks, remove, any_visit}
use foliqant.Decisions.Graph.Paths.{In, In-here, In-there, In-cons, Way, here, step, unvisited}

-- A walk of at least one edge.
pub record Walk (edges : Edges) (u w : String) : Type 0 where
  pub via : String
  pub first : In via (targets u edges)
  pub rest : Way edges via w

remove-absent :
    (node : String) (nodes : List String) → mem_str node nodes ≡ false → remove node nodes ≡ nodes
unfolding remove
remove-absent node [] h = refl
remove-absent node (n ∷ nodes) h = ground (arith, remove-absent node nodes)

pub remove-added :
    (node : String) (nodes : List String)
    → mem_str node nodes ≡ false
    → remove node (node ∷ nodes) ≡ nodes
unfolding remove
remove-added node nodes h = rw (eq_refl node) (remove-absent node nodes h)

pub targets-sources :
    (u w : String) (seen : List String) (es : Edges)
    → In w (targets u es)
    → In u seen ⊎ In u (sources seen es)
unfolding targets sources
targets-sources u w seen [] h = absurd (cc h)
targets-sources u w seen ((start, end) ∷ es) h = ground (
  arith,
  targets-sources u w seen es,
  targets-sources u w (start ∷ seen) es,
  eq_iff start u,
  eq_iff end w,
)

module _ (edges : Edges) where
  -- no walk from `u` meets a node that walks back to itself
  abbrev pub Settled : String → Type 0
  Settled u = (w : String) → Way edges u w → Walk edges w w → ⊥

  pub settle : (u : String) → ((v : String) → In v (targets u edges) → Settled v) → Settled u
  settle u h w here c = h c.via c.first u c.rest c
  settle u h w (step {v} e p) c = h v e w p c

  abbrev pub AllSettled : List String → Type 0
  AllSettled nodes = (u : String) → In u nodes → Settled u

  pub settled-cons :
      (node : String) (nodes : List String)
      → Settled node
      → AllSettled nodes
      → AllSettled (node ∷ nodes)
  settled-cons node nodes s a u m = elim (In-cons u node nodes m) [
    | inl e ↦ rw (sym e) s
    | inr old ↦ a u old
  ]

  -- every node on the way down walks to `node`
  abbrev pub Above : String → List String → Type 0
  Above node visiting = (v : String) → In v visiting → Walk edges v node

  abbrev pub Cycle : Type 0
  Cycle = (u : String) × Walk edges u u

  module _ (visit_one : String → Marks → Bool × Marks) where
    abbrev pub Restores : ℕ → Type 0
    Restores depth =
        (node : String) (marks : Marks)
        → unvisited edges marks.visiting < depth
        → (visit_one node marks).0 ≡ false
        → (visit_one node marks).1.visiting ≡ marks.visiting

    pub any_visit-Restores :
        (depth : ℕ)
        → Restores depth
        → (nodes : List String) (marks : Marks) → unvisited edges marks.visiting < depth
        → (any_visit visit_one nodes marks).0 ≡ false
        → (any_visit visit_one nodes marks).1.visiting ≡ marks.visiting
    unfolding any_visit
    any_visit-Restores depth r [] marks enough h = refl
    any_visit-Restores depth r (n ∷ nodes) marks enough h =
        elim (Bool-cases (visit_one n marks).0) [
          | inl found ↦ absurd (cc (rw (found, any_visit) at h))
          | inr quiet ↦
              let restored = r n marks enough quiet in
              rw (quiet, any_visit)
                (any_visit-Restores depth r nodes (visit_one n marks).1 (rw restored enough)
                    (rw (quiet, any_visit) at h)
                  ∙ restored)
        ]

    abbrev pub Settles : ℕ → Type 0
    Settles depth =
        (node : String) (marks : Marks)
        → unvisited edges marks.visiting < depth
        → AllSettled marks.visited
        → (visit_one node marks).0 ≡ false
        → AllSettled (visit_one node marks).1.visited × Settled node

    pub any_visit-Settles :
        (depth : ℕ)
        → Restores depth
        → Settles depth
        → (nodes : List String) (marks : Marks) → unvisited edges marks.visiting < depth
        → AllSettled marks.visited
        → (any_visit visit_one nodes marks).0 ≡ false
        → AllSettled (any_visit visit_one nodes marks).1.visited × AllSettled nodes
    unfolding any_visit
    any_visit-Settles depth r s [] marks enough a h = (a, λ u m. absurd (cc m))
    any_visit-Settles depth r s (n ∷ nodes) marks enough a h =
        elim (Bool-cases (visit_one n marks).0) [
          | inl found ↦ absurd (cc (rw (found, any_visit) at h))
          | inr quiet ↦
              let (a', here_settled) = s n marks enough a quiet in
              let (a'', rest_settled) =
                any_visit-Settles depth r s nodes (visit_one n marks).1
                  (rw (r n marks enough quiet) enough) a' (rw (quiet, any_visit) at h) in
              (rw (quiet, any_visit) a'', settled-cons n nodes here_settled rest_settled)
        ]

    abbrev pub Finds : ℕ → Type 0
    Finds depth =
        (node : String) (marks : Marks)
        → unvisited edges marks.visiting < depth
        → Above node marks.visiting
        → (visit_one node marks).0 ≡ true
        → Cycle

    pub any_visit-Finds :
        (depth : ℕ)
        → Restores depth
        → Finds depth
        → (nodes : List String) (marks : Marks) → unvisited edges marks.visiting < depth
        → ((n : String) → In n nodes → Above n marks.visiting)
        → (any_visit visit_one nodes marks).0 ≡ true
        → Cycle
    unfolding any_visit
    any_visit-Finds depth r f [] marks enough above h = absurd (cc h)
    any_visit-Finds depth r f (n ∷ nodes) marks enough above h =
        elim (Bool-cases (visit_one n marks).0) [
          | inl found ↦ f n marks enough (above n (In-here n nodes)) found
          | inr quiet ↦
              let restored = r n marks enough quiet in
              any_visit-Finds depth r f nodes (visit_one n marks).1 (rw restored enough)
                (λ m i. rw restored (above m (In-there m n nodes i))) (rw (quiet, any_visit) at h)
        ]

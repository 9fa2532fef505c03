-- ===== src/Decisions/Relations/Meaning.antt =====
-- What relations between requests say: their graphs, and when they are consistent.
use foliqant.Prelude.{Member, ◌≡◌, ◌≢◌, String, true, false, List, [], ◌∷◌}
use foliqant.Decisions.Graph.{Edges}
use foliqant.Decisions.Graph.Paths.{In, Way}
use foliqant.Decisions.Graph.Walks.{Walk}
use foliqant.Decisions.Contracts.{
  RequestRelation, conditional_on, requires, precedes, mutually_exclusive, all_in,
}
use foliqant.Decisions.Relations.{relation_key}

-- the ids that a relation names are known
abbrev pub Refers : List String → List String → RequestRelation → Type 0
Refers units predicates (conditional_on request predicate value) =
    In request units × In predicate predicates
Refers units predicates (requires request required) = In request units × In required units
Refers units predicates (precedes before after) = In before units × In after units
Refers units predicates (mutually_exclusive ids) = all_in ids units ≡ true

-- the edges from a request to those that come after it
abbrev pub order_of : List RequestRelation → Edges
order_of [] = []
order_of (requires request required ∷ rs) = (required, request) ∷ order_of rs
order_of (precedes before after ∷ rs) = (before, after) ∷ order_of rs
order_of (conditional_on _ _ _ ∷ rs) = order_of rs
order_of (mutually_exclusive _ ∷ rs) = order_of rs

-- the edges from a required request to those that require it
abbrev pub requirements_of : List RequestRelation → Edges
requirements_of [] = []
requirements_of (requires request required ∷ rs) = (required, request) ∷ requirements_of rs
requirements_of (precedes _ _ ∷ rs) = requirements_of rs
requirements_of (conditional_on _ _ _ ∷ rs) = requirements_of rs
requirements_of (mutually_exclusive _ ∷ rs) = requirements_of rs

-- no two relations say the same
abbrev pub AllApart : List RequestRelation → Type 0
AllApart [] = Unit
AllApart (r ∷ rs) =
    ((other : RequestRelation) → Member other rs → relation_key other ≢ relation_key r)
    × AllApart rs

pub record IsConsistent (units predicates : List String) (relations : List RequestRelation)
    : Type 0 where
  pub known : (r : RequestRelation) → Member r relations → Refers units predicates r
  pub apart : AllApart relations
  pub acyclic : (u : String) → Walk (order_of relations) u u → ⊥
  pub compatible :
      (request predicate : String)
      → Member (conditional_on request predicate true) relations
      → Member (conditional_on request predicate false) relations
      → ⊥
  pub independent :
      (ids : List String) (a b : String)
      → Member (mutually_exclusive ids) relations
      → In a ids
      → In b ids
      → a ≢ b
      → Way (requirements_of relations) a b
      → ⊥

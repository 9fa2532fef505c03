-- ===== src/Decisions/Relations.antt =====
-- `validate_request_relations` of decisions/contracts.py.
pub mod Meaning
mod Loop
mod Conditions
pub mod Consistency
use Prim.Native.String.{◌++◌ as ◌<>◌}
use foliqant.Prelude.{
  Member, any-false, In-Member, String, Bool, true, false, not, ◌&&◌, ◌||◌, List, [], ◌∷◌, ◌++◌,
  any, ltb, length, str_eq, mem_str, if◌then◌else◌, text_lt, sort_texts,
}
use foliqant.Core.Json.Equal.{bool_eq}
use foliqant.Decisions.Graph.{Edges, has_path, has_directed_cycle}
use foliqant.Decisions.Contracts.{
  RequestRelation, conditional_on, requires, precedes, mutually_exclusive, all_in,
}
use foliqant.Decisions.Problems.{problem_if, no_problem, no_problem_not, split_nil}

abbrev value_text : Bool → String
value_text true = "true"
value_text false = "false"

-- `_relation_key`
unfoldable pub relation_key : RequestRelation → List String
unfolding sort_texts
relation_key (conditional_on request predicate value) =
    "conditional_on" ∷ request ∷ predicate ∷ value_text value ∷ []
relation_key (requires request required) = "requires" ∷ request ∷ required ∷ []
relation_key (precedes before after) = "precedes" ∷ before ∷ after ∷ []
relation_key (mutually_exclusive ids) = "mutually_exclusive" ∷ sort_texts ids

abbrev same_texts : List String → List String → Bool
same_texts [] [] = true
same_texts (a ∷ as_) (b ∷ bs) = str_eq a b && same_texts as_ bs
same_texts _ _ = false

abbrev pub mem_key : List String → List (List String) → Bool
mem_key k = any (λ j. same_texts j k)

-- `len(keys) == len(set(keys))`
unfoldable pub distinct_keys : List (List String) → Bool
distinct_keys [] = true
distinct_keys (k ∷ keys) = not (mem_key k keys) && distinct_keys keys

-- an entry of `conditions`: its key and the set of values that were required
pub record ConditionEntry : Type 0 where
  pub request : String
  pub predicate : String
  pub wants_true : Bool
  pub wants_false : Bool

abbrev with_value : Bool → ConditionEntry → ConditionEntry
with_value true e = record e { wants_true = true }
with_value false e = record e { wants_false = true }

-- `conditions[(request, predicate)].add(value)`
unfoldable pub add_condition : String → String → Bool → List ConditionEntry → List ConditionEntry
add_condition request predicate value [] =
    with_value value
      (record { request = request; predicate = predicate; wants_true = false; wants_false = false })
    ∷ []
add_condition request predicate value (e ∷ entries) =
    let rest = add_condition request predicate value entries in
    if str_eq e.request request && str_eq e.predicate predicate
    then with_value value e ∷ entries
    else e ∷ rest

-- the local variables of the loop
pub record Scan : Type 0 where
  pub problems : List String
  pub keys : List (List String)
  pub directed : Edges
  pub requirements : Edges
  pub groups : List (List String)
  pub conditions : List ConditionEntry

module _ (prefix : String) (unit_ids predicate_ids : List String) where
  unknown_request : Bool → List String
  unknown_request known = problem_if (not known) (prefix <> ":relation-unknown-request")

  self_reference : String → String → List String
  self_reference a b = problem_if (str_eq a b) (prefix <> ":relation-self-reference")

  -- the body of the loop, after the key
  unfoldable pub scan_relation : RequestRelation → Scan → Scan
  unfolding unknown_request self_reference add_condition all_in
  scan_relation (conditional_on request predicate value) s = record s {
    problems =
        s.problems
        ++ (unknown_request (mem_str request unit_ids)
            ++ problem_if (not (mem_str predicate predicate_ids))
                (prefix <> ":relation-unknown-predicate"));
    conditions = add_condition request predicate value s.conditions;
  }
  scan_relation (requires request required) s = record s {
    problems =
        s.problems
        ++ (unknown_request (mem_str request unit_ids && mem_str required unit_ids)
            ++ self_reference request required);
    requirements = s.requirements ++ (required, request) ∷ [];
    directed = s.directed ++ (required, request) ∷ [];
  }
  scan_relation (precedes before after) s = record s {
    problems =
        s.problems
        ++ (unknown_request (mem_str before unit_ids && mem_str after unit_ids)
            ++ self_reference before after);
    directed = s.directed ++ (before, after) ∷ [];
  }
  scan_relation (mutually_exclusive ids) s = record s {
    problems = s.problems ++ unknown_request (all_in ids unit_ids);
    groups = s.groups ++ ids ∷ [];
  }

  unfoldable pub scan_relations : List RequestRelation → Scan → Scan
  unfolding scan_relation relation_key
  scan_relations [] s = s
  scan_relations (r ∷ relations) s =
      scan_relations relations (scan_relation r (record s { keys = s.keys ++ relation_key r ∷ [] }))

abbrev pub no_scan : Scan
no_scan = record {
  problems = [];
  keys = [];
  directed = [];
  requirements = [];
  groups = [];
  conditions = [];
}

abbrev pub depends : Edges → String → String → Bool
depends requirements first second =
    text_lt first second
    && (has_path requirements first second || has_path requirements second first)

-- some two members of the group depend on one another
unfoldable pub exclusive_dependency : Edges → List String → Bool
unfolding has_path
exclusive_dependency requirements group =
    any (λ first. any (λ second. depends requirements first second) group) group

-- `validate_request_relations`
unfoldable pub validate_request_relations :
    String → List String → List String → List RequestRelation → List String
unfolding scan_relations distinct_keys has_directed_cycle exclusive_dependency
validate_request_relations prefix unit_ids predicate_ids relations =
    let s = scan_relations prefix unit_ids predicate_ids relations no_scan in
    s.problems
    ++ (problem_if (not (distinct_keys s.keys)) (prefix <> ":duplicate-relation")
        ++ (problem_if (has_directed_cycle s.directed) (prefix <> ":relation-cycle")
            ++ (problem_if (any (λ e. e.wants_true && e.wants_false) s.conditions)
                  (prefix <> ":relation-conflicting-condition")
                ++ problem_if (any (exclusive_dependency s.requirements) s.groups)
                    (prefix <> ":relation-exclusive-dependency"))))

-- ===== src/Evaluation/Metrics/Fields.antt =====
-- `_observe_fields` of evaluation/metrics.py: the outcome of each field of an object.
use foliqant.Prelude.{
  String, Bool, true, false, Option, none, some, List, [], ◌∷◌, str_eq, if◌then◌else◌,
}
use foliqant.Core.Json.{FrozenJson, null}
use foliqant.Core.Bindings.{is_null}
use foliqant.Evaluation.Records.{document_path_status}
use foliqant.Evaluation.Comparisons.{Expectation, matches}
use foliqant.Evaluation.Metrics.{MetricSpec, Label, field_path}
use foliqant.Evaluation.Metrics.Observe.{
  ObservationState, observed, excluded, skipped, error, missing, FieldOutcome, correct_value,
  correct_null, hallucinated, missed, wrong_value, unavailable, FieldObservation, MetricObservation,
  without, is_failed, is_status, resolve,
}

-- the first expectation at a path
unfoldable pub first_at : String → List Expectation → Option Expectation
first_at path [] = none
first_at path (check ∷ checks) =
    let later = first_at path checks in if str_eq check.path path then some check else later

abbrev pub add_gold :
    String
    → Option Expectation
    → Option (List (String × Expectation))
    → Option (List (String × Expectation))
add_gold label _ none = none
add_gold label none (some gold) = some gold
add_gold label (some check) (some gold) = some ((label, check) ∷ gold)

-- `_field_gold`: none where its assertion fails, on a label that is null
unfoldable pub field_gold :
    String → List Label → List Expectation → Option (List (String × Expectation))
unfolding field_path first_at
field_gold path [] checks = some []
field_gold path (none ∷ labels) checks = none
field_gold path (some label ∷ labels) checks =
    add_gold label (first_at (field_path path label) checks) (field_gold path labels checks)

-- `unavailable` of the source: why nothing was measured
unfoldable pub unavailable_state : Option String → String → Option ObservationState
unfolding is_failed
unavailable_state owner status =
    if is_status "skipped" owner
    then some skipped
    else if is_failed status owner
    then some error
    else none

abbrev pub is_unavailable : FieldOutcome → Bool
is_unavailable unavailable = true
is_unavailable _ = false

-- `all(outcome == "unavailable" ...)`
unfoldable pub all_unavailable : List FieldObservation → Bool
all_unavailable [] = true
all_unavailable ((_, outcome, _) ∷ fields) =
    let rest = all_unavailable fields in if is_unavailable outcome then rest else false

module _ (canonical : FrozenJson → String) (normalized_text : String → String) where
  -- the outcome of a value that is not null where gold is not null
  abbrev pub value_outcome : Option Bool → Option FieldOutcome
  value_outcome none = none
  value_outcome (some true) = some correct_value
  value_outcome (some false) = some wrong_value

  abbrev pub compared : Bool → Expectation → FrozenJson → Option FieldOutcome
  compared true check null = some correct_null
  compared true check actual = some hallucinated
  compared false check null = some missed
  compared false check actual =
      value_outcome (matches canonical normalized_text check.comparison check.expected actual null)

  abbrev pub outcome_of : Expectation → Option FrozenJson → Option FieldOutcome
  outcome_of check none = some unavailable
  outcome_of check (some actual) = compared (is_null check.expected) check actual

  abbrev pub add_outcome :
      String
      → Bool
      → Option FieldOutcome
      → Option (List FieldObservation)
      → Option (List FieldObservation)
  add_outcome label null_gold (some outcome) (some rest) = some ((label, outcome, null_gold) ∷ rest)
  add_outcome label null_gold _ _ = none

  -- the loop where the owner ran: none where a comparison raises
  unfoldable pub field_outcomes :
      String
      → FrozenJson
      → Option String
      → String
      → List (String × Expectation)
      → Option (List FieldObservation)
  unfolding field_path resolve matches
  field_outcomes path document owner status [] = some []
  field_outcomes path document owner status ((label, check) ∷ gold) =
      add_outcome label (is_null check.expected)
        (outcome_of check (resolve (field_path path label) document true owner status))
        (field_outcomes path document owner status gold)

  -- the loop where it did not
  unfoldable pub no_outcomes : List (String × Expectation) → List FieldObservation
  no_outcomes [] = []
  no_outcomes ((label, check) ∷ gold) =
      (label, unavailable, is_null check.expected) ∷ no_outcomes gold

  abbrev pub with_fields : ObservationState → List FieldObservation → MetricObservation
  with_fields state fields = record { state = state; expected = []; actual = []; fields = fields }

  abbrev pub measured_fields : Option (List FieldObservation) → Option MetricObservation
  measured_fields none = none
  measured_fields (some fields) =
      some (with_fields (if all_unavailable fields then missing else observed) fields)

  abbrev pub observe_gold_fields :
      String
      → List (String × Expectation)
      → Option String
      → FrozenJson
      → String
      → Option ObservationState
      → Option MetricObservation
  observe_gold_fields path gold owner document status (some state) =
      some (with_fields state (no_outcomes gold))
  observe_gold_fields path gold owner document status none =
      measured_fields (field_outcomes path document owner status gold)

  abbrev pub observe_any_fields :
      String → Option (List (String × Expectation)) → FrozenJson → String → Option MetricObservation
  observe_any_fields path none document status = none
  observe_any_fields path (some []) document status = some (without excluded [])
  observe_any_fields path (some (field ∷ gold)) document status =
      let owner = document_path_status path document in
      observe_gold_fields path (field ∷ gold) owner document status (unavailable_state owner status)

  -- `_observe_fields`
  unfoldable pub observe_fields :
      MetricSpec → List Expectation → FrozenJson → String → Option MetricObservation
  unfolding field_gold unavailable_state field_outcomes no_outcomes all_unavailable
  observe_fields spec expectations document status =
      observe_any_fields spec.path (field_gold spec.path spec.labels expectations) document status

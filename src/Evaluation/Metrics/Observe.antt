-- ===== src/Evaluation/Metrics/Observe.antt =====
-- `observe_metrics` of evaluation/metrics.py: what one attempt shows of each metric.
use foliqant.Prelude.{
  String, Bool, true, false, ◌&&◌, ◌||◌, Option, none, some, List, [], ◌∷◌, all, str_eq,
  if◌then◌else◌,
}
use foliqant.Core.Result.{Result, ok, err}
use foliqant.Core.Json.{FrozenJson, null}
use foliqant.Core.Bindings.{resolve_binding, is_null}
use foliqant.Evaluation.Spans.{path_plan, starts_with}
use foliqant.Evaluation.Records.{document_path_status}
use foliqant.Evaluation.Comparisons.{Expectation, is_executed, project}
use foliqant.Evaluation.Metrics.{
  MetricSpec, Label, has_label, labels_of, is_one_of, gold, primary, matching,
}

pub data ObservationState : Type 0 where
  observed excluded abstained missing skipped error invalid : ObservationState

pub data FieldOutcome : Type 0 where
  correct_value correct_null hallucinated missed wrong_value unavailable : FieldOutcome

-- a field, its outcome, and whether its gold is null
abbrev pub FieldObservation : Type 0
FieldObservation = String × FieldOutcome × Bool

-- The sets of labels are given by their members.
pub record MetricObservation : Type 0 where
  pub state : ObservationState
  pub expected : List Label
  pub actual : List Label
  pub fields : List FieldObservation

abbrev pub without : ObservationState → List Label → MetricObservation
without state expected = record { state = state; expected = expected; actual = []; fields = [] }

abbrev pub observed_labels : List Label → List Label → MetricObservation
observed_labels expected parsed = record {
  state = observed;
  expected = expected;
  actual = parsed;
  fields = [];
}

abbrev pub is_status : String → Option String → Bool
is_status status none = false
is_status status (some other) = str_eq other status

abbrev executed_owner : Option String → Bool
executed_owner none = false
executed_owner (some status) = is_executed status

abbrev has_owner : Option String → Bool
has_owner none = false
has_owner (some _) = true

-- `status in {"failed", "cancelled", "error"} or owner_status in {"failed", "cancelled"}`
unfoldable pub is_failed : String → Option String → Bool
is_failed status owner =
    str_eq status "failed"
    || str_eq status "cancelled"
    || str_eq status "error"
    || is_status "failed" owner
    || is_status "cancelled" owner

abbrev or_null : Result FrozenJson → Bool → Option FrozenJson
or_null (ok value) absent = some value
or_null (err _) absent = if absent then some null else none

-- `_resolve`: none where the value is not present
unfoldable pub resolve : String → FrozenJson → Bool → Option String → String → Option FrozenJson
unfolding starts_with is_executed
resolve path document absent_as_null owner status =
    or_null (resolve_binding (path_plan path) document) (
      absent_as_null
      && (if has_owner owner || starts_with "/flows/" path
          then executed_owner owner
          else is_executed status))

abbrev pub subset : List Label → List Label → Bool
subset xs ys = all (λ x. has_label x ys) xs

abbrev pub accepted : Bool → List Label → List Label → List Label → List Label
accepted one_of parsed acceptable expected =
    if one_of && subset parsed acceptable then parsed else expected

-- the end of the loop's body, with `_labels` of the value
abbrev pub labelled :
    Bool → List Label → List Label → FrozenJson → Option (List Label) → MetricObservation
labelled one_of acceptable expected value (some parsed) =
    observed_labels (accepted one_of parsed acceptable expected) parsed
labelled one_of acceptable expected value none =
    without (if is_null value then abstained else invalid) expected

abbrev pub projected_value : Option String → FrozenJson → Option FrozenJson
projected_value none value = some value
projected_value (some each) value = project value each

-- a value that is present
abbrev pub measured :
    MetricSpec → Bool → List Label → List Label → Option FrozenJson → MetricObservation
measured spec one_of acceptable expected none = without invalid expected
measured spec one_of acceptable expected (some value) =
    labelled one_of acceptable expected value (labels_of spec.kind spec.labels value)

abbrev pub resolved :
    MetricSpec → Bool → List Label → List Label → Option FrozenJson → MetricObservation
resolved spec one_of acceptable expected none = without missing expected
resolved spec one_of acceptable expected (some value) =
    measured spec one_of acceptable expected (projected_value spec.each value)

-- the observation of a case whose gold is known
unfoldable pub observe_gold :
    MetricSpec → Expectation → List Label → List Label → FrozenJson → String → MetricObservation
unfolding is_failed resolve labels_of
observe_gold spec check acceptable expected document status =
    let owner = document_path_status spec.path document in
    if is_status "skipped" owner
    then without skipped expected
    else (if is_failed status owner
        then without error expected
        else resolved spec (is_one_of check.comparison) acceptable expected
            (resolve spec.path document check.absent_as_null owner status))

abbrev pub primary_label : Option Label → Option (List Label)
primary_label none = none
primary_label (some label) = some (label ∷ [])

-- the expected labels
abbrev pub expected_of : Expectation → List Label → Option (List Label)
expected_of check acceptable =
    if is_one_of check.comparison then primary_label (primary check.expected) else some acceptable

abbrev pub observe_check :
    MetricSpec → Expectation → Option (List Label) → FrozenJson → String → Option MetricObservation
observe_check spec check none document status = none
observe_check spec check (some acceptable) document status = elim (expected_of check acceptable) [
  | none ↦ none
  | some expected ↦ some (observe_gold spec check acceptable expected document status)
]

abbrev pub observe_matching :
    MetricSpec → List Expectation → FrozenJson → String → Option MetricObservation
observe_matching spec [] document status = some (without excluded [])
observe_matching spec (check ∷ _) document status =
    observe_check spec check (gold spec check) document status

-- one round of the loop for a classification or a multilabel metric: none where an assertion fails,
-- which the validation of the suite excludes
unfoldable pub observe_labels :
    MetricSpec → List Expectation → FrozenJson → String → Option MetricObservation
unfolding matching gold primary observe_gold
observe_labels spec expectations document status =
    observe_matching spec (matching spec expectations) document status

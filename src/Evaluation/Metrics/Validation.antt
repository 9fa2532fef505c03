-- ===== src/Evaluation/Metrics/Validation.antt =====
-- `validate_metrics` of evaluation/metrics.py, with the tests of gold in `Expectation.__post_init__`
-- of evaluation/contracts.py, and `observe_metrics` for all metrics.
pub mod FieldGold
pub mod Total
use foliqant.Prelude.{
  String, Bool, true, false, not, ◌&&◌, ◌||◌, Option, none, some, is_some, List, [], ◌∷◌, all,
  mem_str, str_eq, if◌then◌else◌,
}
use foliqant.Core.Json.{FrozenJson, str, tuple, nil, cons}
use foliqant.Evaluation.Spans.{source_span}
use foliqant.Evaluation.Comparisons.{
  Comparison, exact, set, one_of, text, contains, source_span as span, custom, Expectation,
  canonical_items,
}
use foliqant.Evaluation.Metrics.{MetricSpec, Label, is_fields, field_path, gold, matching}
use foliqant.Evaluation.Metrics.Observe.{MetricObservation, observe_labels}
use foliqant.Evaluation.Metrics.Fields.{observe_fields}

-- `len(set(texts)) == len(texts)`
unfoldable pub texts_differ : List String → Bool
texts_differ [] = true
texts_differ (t ∷ texts) = not (mem_str t texts) && texts_differ texts

abbrev pub at_most_one : List Expectation → Bool
at_most_one (_ ∷ _ ∷ _) = false
at_most_one _ = true

-- the expectations at a path
unfoldable pub all_at : String → List Expectation → List Expectation
all_at path [] = []
all_at path (check ∷ checks) =
    let rest = all_at path checks in if str_eq check.path path then check ∷ rest else rest

-- `check.comparison in {"custom", "source_span"}`
abbrev pub is_external : Comparison → Bool
is_external custom = true
is_external span = true
is_external _ = false

abbrev pub is_plain : Expectation → Bool
is_plain check = not (is_external check.comparison || is_some check.each)

-- the gold of one field
unfoldable pub valid_field : List Expectation → Bool
valid_field checks = at_most_one checks && all is_plain checks

unfoldable pub valid_field_gold : String → List Label → List Expectation → Bool
unfolding field_path all_at valid_field
valid_field_gold path [] checks = true
valid_field_gold path (none ∷ labels) checks = false
valid_field_gold path (some label ∷ labels) checks =
    valid_field (all_at (field_path path label) checks) && valid_field_gold path labels checks

abbrev pub has_gold : MetricSpec → List Expectation → Bool
has_gold spec [] = true
has_gold spec (check ∷ _) = is_some (gold spec check)

-- the gold of a classification or of a multilabel metric
unfoldable pub valid_label_gold : MetricSpec → List Expectation → Bool
unfolding matching gold
valid_label_gold spec checks =
    at_most_one (matching spec checks) && has_gold spec (matching spec checks)

-- one case of the loops of `validate_metrics`
unfoldable pub valid_case : MetricSpec → List Expectation → Bool
unfolding valid_field_gold valid_label_gold
valid_case spec checks =
    if is_fields spec.kind
    then valid_field_gold spec.path spec.labels checks
    else valid_label_gold spec checks

unfoldable pub names_of : List MetricSpec → List String
names_of [] = []
names_of (spec ∷ specs) = spec.name ∷ names_of specs

-- a `fields` metric has no null label
abbrev pub names_fields : MetricSpec → Bool
names_fields spec = not (is_fields spec.kind) || all (λ label. is_some label) spec.labels

-- `validate_metrics`, for the expectations of each case
unfoldable pub validate_metrics : List MetricSpec → List (List Expectation) → Bool
unfolding texts_differ names_of valid_case
validate_metrics specs cases =
    texts_differ (names_of specs)
    && all (λ spec. names_fields spec && all (valid_case spec) cases) specs

module _ (canonical : FrozenJson → String) (normalized_text : String → String) where
  -- the tests of the expected value
  unfoldable pub valid_gold : Comparison → FrozenJson → Bool
  unfolding texts_differ canonical_items source_span
  valid_gold set (tuple _) = true
  valid_gold one_of (tuple (cons item items)) =
      texts_differ (canonical_items canonical normalized_text (cons item items))
  valid_gold text (str _) = true
  valid_gold contains (str s) = not (str_eq (normalized_text s) "")
  valid_gold span expected = is_some (source_span expected)
  valid_gold exact expected = true
  valid_gold custom expected = true
  valid_gold _ expected = false

  abbrev pub has_valid_gold : Expectation → Bool
  has_valid_gold check = valid_gold check.comparison check.expected

  -- one round of `observe_metrics`
  unfoldable pub observe_metric :
      MetricSpec → List Expectation → FrozenJson → String → Option MetricObservation
  unfolding observe_fields observe_labels
  observe_metric spec checks document status =
      if is_fields spec.kind
      then observe_fields canonical normalized_text spec checks document status
      else observe_labels spec checks document status

  abbrev pub followed :
      Option MetricObservation → Option (List MetricObservation) → Option (List MetricObservation)
  followed (some observation) (some observations) = some (observation ∷ observations)
  followed _ _ = none

  -- `observe_metrics`: none where an assertion fails or a comparison raises
  unfoldable pub observe_metrics :
      List MetricSpec → List Expectation → FrozenJson → String → Option (List MetricObservation)
  unfolding observe_metric
  observe_metrics [] checks document status = some []
  observe_metrics (spec ∷ specs) checks document status =
      followed (observe_metric spec checks document status)
        (observe_metrics specs checks document status)

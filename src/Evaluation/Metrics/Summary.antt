-- ===== src/Evaluation/Metrics/Summary.antt =====
-- The reports of `summarize_metrics` of evaluation/metrics.py.
use foliqant.Prelude.{
  ℕ, ◌-◌, ◌/◌, Bool, true, false, not, ◌&&◌, ◌||◌, Option, none, some, is_some, List, [], ◌∷◌, ◌++◌,
  map, all, length, if◌then◌else◌,
}
use foliqant.Evaluation.Metrics.{MetricSpec, Label, label_eq, is_classification}
use foliqant.Evaluation.Metrics.Observe.{
  FieldObservation, FieldOutcome, MetricObservation, ObservationState,
}
use foliqant.Evaluation.Metrics.Counts.{
  Rate, rate, count_if, RateSummary, rates, LabelCounts, label_rates, FieldCounts, field_accuracy,
  outcome_eq, in_state, is_observed, keep, is_correct, pair_count, label_counts, total, macro_rate,
  state_eq,
}

pub record MetricReport : Type 0 where
  pub spec : MetricSpec
  pub support : ℕ
  pub excluded : ℕ
  pub observed : ℕ
  pub abstained : ℕ
  pub missing : ℕ
  pub skipped : ℕ
  pub errors : ℕ
  pub invalid : ℕ
  pub correct : ℕ
  pub accuracy : Option Rate
  pub coverage : Option Rate
  pub confusion_matrix : List (List ℕ)
  pub per_label : List LabelCounts
  pub micro : RateSummary
  pub macro : RateSummary
  pub source_support : ℕ
  pub source_excluded : ℕ
  pub repeat : ℕ

-- `tuple(tuple(pairs[gold, pred] for pred in labels) for gold in labels)`
unfoldable pub confusion_matrix : List Label → List MetricObservation → List (List ℕ)
unfolding pair_count
confusion_matrix labels values =
    map (λ gold. map (λ pred. pair_count gold pred values) labels) labels

-- one round of `summarize_metrics` for a classification or a multilabel metric
unfoldable pub summarize_labels : MetricSpec → ℕ → List MetricObservation → MetricReport
unfolding count_if keep confusion_matrix label_counts total macro_rate
summarize_labels spec repeat values =
    let seen = keep is_observed values in
    let left_out = in_state ObservationState.excluded values in
    let support = length values - left_out in
    let correct = count_if is_correct seen in
    let per_label = map (λ label. label_counts label seen) spec.labels in
    record {
      spec = spec;
      support = support;
      excluded = left_out;
      observed = length seen;
      abstained = in_state ObservationState.abstained values;
      missing = in_state ObservationState.missing values;
      skipped = in_state ObservationState.skipped values;
      errors = in_state ObservationState.error values;
      invalid = in_state ObservationState.invalid values;
      correct = correct;
      accuracy = rate correct support;
      coverage = rate (length seen) support;
      confusion_matrix =
          if is_classification spec.kind then confusion_matrix spec.labels seen else [];
      per_label = per_label;
      micro =
          rates (total (λ c. c.true_positive) per_label) (total (λ c. c.false_positive) per_label)
            (total (λ c. c.false_negative) per_label);
      macro = record {
        precision = macro_rate (map (λ c. (label_rates c).precision) per_label);
        recall = macro_rate (map (λ c. (label_rates c).recall) per_label);
        f1 = macro_rate (map (λ c. (label_rates c).f1) per_label);
      };
      source_support = support / repeat;
      source_excluded = left_out / repeat;
      repeat = repeat;
    }

-- `_field_counts` of the outcomes with a name, or of all
unfoldable pub field_counts : Label → List FieldObservation → FieldCounts
unfolding count_if
field_counts label fields = record {
  label = label;
  value_support = count_if (λ (_, _, null_gold). if null_gold then false else true) fields;
  null_support = count_if (λ (_, _, null_gold). null_gold) fields;
  correct_value = count_if (λ (_, o, _). outcome_eq o FieldOutcome.correct_value) fields;
  correct_null = count_if (λ (_, o, _). outcome_eq o FieldOutcome.correct_null) fields;
  hallucinated = count_if (λ (_, o, _). outcome_eq o FieldOutcome.hallucinated) fields;
  missed = count_if (λ (_, o, _). outcome_eq o FieldOutcome.missed) fields;
  wrong_value = count_if (λ (_, o, _). outcome_eq o FieldOutcome.wrong_value) fields;
  unavailable = count_if (λ (_, o, _). outcome_eq o FieldOutcome.unavailable) fields;
}

-- the field outcomes of all values, in their order
unfoldable pub all_fields : List MetricObservation → List FieldObservation
all_fields [] = []
all_fields (value ∷ values) = value.fields ++ all_fields values

abbrev pub is_correct_field : FieldObservation → Bool
is_correct_field (_, o, _) =
    outcome_eq o FieldOutcome.correct_value || outcome_eq o FieldOutcome.correct_null

-- `value.state == "observed" and all(... in {"correct_value", "correct_null"})`
unfoldable pub all_correct : MetricObservation → Bool
all_correct value = is_observed value && all is_correct_field value.fields

abbrev pub known_rates : List (Option Rate) → List (Option Rate)
known_rates = keep (λ r. is_some r)

pub record FieldsReport : Type 0 where
  pub spec : MetricSpec
  pub support : ℕ
  pub excluded : ℕ
  pub observed : ℕ
  pub missing : ℕ
  pub skipped : ℕ
  pub errors : ℕ
  pub correct : ℕ
  pub accuracy : Option Rate
  pub coverage : Option Rate
  pub source_support : ℕ
  pub source_excluded : ℕ
  pub repeat : ℕ
  pub per_field : List FieldCounts
  pub field_totals : FieldCounts
  pub macro_field_accuracy : Option Rate

abbrev pub is_included : MetricObservation → Bool
is_included value = not (state_eq value.state ObservationState.excluded)

-- the mean of the rates, if there are any
abbrev pub mean : List (Option Rate) → Option Rate
mean [] = none
mean values = macro_rate values

-- `_summarize_fields`; the counts that it sets to zero, and the field accuracy, which is that of the
-- totals, are not repeated
unfoldable pub summarize_fields : MetricSpec → ℕ → List MetricObservation → FieldsReport
unfolding count_if keep field_counts all_fields all_correct macro_rate
summarize_fields spec repeat values =
    let left_out = in_state ObservationState.excluded values in
    let support = length values - left_out in
    let included = keep is_included values in
    let correct = count_if all_correct included in
    let seen = count_if is_observed included in
    let fields = all_fields included in
    let per_field =
      map (λ label. field_counts label (keep (λ (name, _, _). label_eq label (some name)) fields))
        spec.labels in
    record {
      spec = spec;
      support = support;
      excluded = left_out;
      observed = seen;
      missing = in_state ObservationState.missing values;
      skipped = in_state ObservationState.skipped values;
      errors = in_state ObservationState.error values;
      correct = correct;
      accuracy = rate correct support;
      coverage = rate seen support;
      source_support = support / repeat;
      source_excluded = left_out / repeat;
      repeat = repeat;
      per_field = per_field;
      field_totals = field_counts none fields;
      macro_field_accuracy = mean (known_rates (map field_accuracy per_field));
    }

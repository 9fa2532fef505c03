-- ===== src/Evaluation/Metrics/Counts.antt =====
-- `summarize_metrics` of evaluation/metrics.py. A rate is an exact fraction, none where its
-- denominator is zero.
use foliqant.Prelude.{
  ℕ, zero, suc, ◌+◌, ◌*◌, Bool, true, false, not, ◌&&◌, Option, none, some, List, [], ◌∷◌, length,
  if◌then◌else◌,
}
use foliqant.Evaluation.Metrics.{Label, label_eq, has_label}
use foliqant.Evaluation.Metrics.Observe.{
  ObservationState, observed, excluded, abstained, missing, skipped, error, invalid, FieldOutcome,
  MetricObservation, subset,
}

-- a numerator over a denominator
pub record Rate : Type 0 where
  pub numerator : ℕ
  pub denominator : ℕ

-- `a / b if b else None`
abbrev pub rate : ℕ → ℕ → Option Rate
rate a zero = none
rate a (suc b) = some (record { numerator = a; denominator = suc b })

-- `sum(test(value) for value in values)`
unfoldable pub count_if {ℓ} : {A : Type ℓ} → (A → Bool) → List A → ℕ
count_if test [] = 0
count_if test (value ∷ values) =
    let rest = count_if test values in if test value then suc rest else rest

pub record RateSummary : Type 0 where
  pub precision : Option Rate
  pub recall : Option Rate
  pub f1 : Option Rate

-- `_rates`
abbrev pub rates : ℕ → ℕ → ℕ → RateSummary
rates tp fp fn = record {
  precision = rate tp (tp + fp);
  recall = rate tp (tp + fn);
  f1 = rate (2 * tp) (2 * tp + fp + fn);
}

pub record LabelCounts : Type 0 where
  pub label : Label
  pub true_positive : ℕ
  pub false_positive : ℕ
  pub false_negative : ℕ
  pub true_negative : ℕ

-- the rates that `LabelCounts.__post_init__` sets
abbrev pub label_rates : LabelCounts → RateSummary
label_rates c = rates c.true_positive c.false_positive c.false_negative

pub record FieldCounts : Type 0 where
  pub label : Label
  pub value_support : ℕ
  pub null_support : ℕ
  pub correct_value : ℕ
  pub correct_null : ℕ
  pub hallucinated : ℕ
  pub missed : ℕ
  pub wrong_value : ℕ
  pub unavailable : ℕ

-- what `FieldCounts.__post_init__` sets
abbrev pub field_support : FieldCounts → ℕ
field_support c = c.value_support + c.null_support

abbrev pub field_accuracy : FieldCounts → Option Rate
field_accuracy c = rate (c.correct_value + c.correct_null) (field_support c)

abbrev pub hallucination_rate : FieldCounts → Option Rate
hallucination_rate c = rate c.hallucinated c.null_support

abbrev pub miss_rate : FieldCounts → Option Rate
miss_rate c = rate c.missed c.value_support

abbrev pub state_eq : ObservationState → ObservationState → Bool
state_eq observed observed = true
state_eq excluded excluded = true
state_eq abstained abstained = true
state_eq missing missing = true
state_eq skipped skipped = true
state_eq error error = true
state_eq invalid invalid = true
state_eq _ _ = false

abbrev pub outcome_eq : FieldOutcome → FieldOutcome → Bool
outcome_eq FieldOutcome.correct_value FieldOutcome.correct_value = true
outcome_eq FieldOutcome.correct_null FieldOutcome.correct_null = true
outcome_eq FieldOutcome.hallucinated FieldOutcome.hallucinated = true
outcome_eq FieldOutcome.missed FieldOutcome.missed = true
outcome_eq FieldOutcome.wrong_value FieldOutcome.wrong_value = true
outcome_eq FieldOutcome.unavailable FieldOutcome.unavailable = true
outcome_eq _ _ = false

-- `sum(value.state == state for value in values)`
abbrev pub in_state : ObservationState → List MetricObservation → ℕ
in_state state = count_if (λ value. state_eq value.state state)

abbrev pub is_observed : MetricObservation → Bool
is_observed value = state_eq value.state observed

-- the values that satisfy a test
unfoldable pub keep {ℓ} : {A : Type ℓ} → (A → Bool) → List A → List A
keep test [] = []
keep test (value ∷ values) =
    let rest = keep test values in if test value then value ∷ rest else rest

-- `value.actual == value.expected`
abbrev pub is_correct : MetricObservation → Bool
is_correct value = subset value.actual value.expected && subset value.expected value.actual

abbrev pub first_is : Label → List Label → Bool
first_is label [] = false
first_is label (other ∷ _) = label_eq label other

-- `pairs[gold, pred]`
unfoldable pub pair_count : Label → Label → List MetricObservation → ℕ
unfolding count_if
pair_count gold pred =
    count_if (λ value. first_is gold value.expected && first_is pred value.actual)

unfoldable pub label_counts : Label → List MetricObservation → LabelCounts
unfolding count_if has_label
label_counts label values = record {
  label = label;
  true_positive = count_if (λ v. has_label label v.actual && has_label label v.expected) values;
  false_positive =
      count_if (λ v. has_label label v.actual && not (has_label label v.expected)) values;
  false_negative =
      count_if (λ v. not (has_label label v.actual) && has_label label v.expected) values;
  true_negative =
      count_if (λ v. not (has_label label v.actual) && not (has_label label v.expected)) values;
}

-- `sum(of(item) for item in items)`
unfoldable pub total {ℓ} : {A : Type ℓ} → (A → ℕ) → List A → ℕ
total of [] = 0
total of (item ∷ items) = of item + total of items

-- the sum of exact fractions, none if one is none
unfoldable pub rate_sum : List (Option Rate) → Option Rate
rate_sum [] = some (record { numerator = 0; denominator = 1 })
rate_sum (none ∷ rates) = none
rate_sum (some r ∷ rates) = elim (rate_sum rates) [
  | none ↦ none
  | some s ↦ some (record {
    numerator = r.numerator * s.denominator + s.numerator * r.denominator;
    denominator = r.denominator * s.denominator;
  })
]

abbrev pub divided : Option Rate → ℕ → Option Rate
divided none n = none
divided (some r) n = rate r.numerator (r.denominator * n)

-- `macro_rate`
unfoldable pub macro_rate : List (Option Rate) → Option Rate
unfolding rate_sum
macro_rate values = divided (rate_sum values) (length values)

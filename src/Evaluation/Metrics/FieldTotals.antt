-- ===== src/Evaluation/Metrics/FieldTotals.antt =====
-- The counts of the report of a `fields` metric of evaluation/metrics.py.
use foliqant.Prelude.{
  ℕ, ◌+◌, ◌≤◌, ◌≡◌, refl, sym, inl, inr, arith, String, Bool, none, some, List, [], ◌∷◌, length,
  Member, Bool-cases,
}
use foliqant.Core.Json.{FrozenJson}
use foliqant.Evaluation.Comparisons.{Expectation}
use foliqant.Evaluation.Metrics.{MetricSpec, Label, label_eq}
use foliqant.Evaluation.Metrics.Observe.{
  MetricObservation, ObservationState, observed, excluded, abstained, missing, skipped, error,
  invalid, FieldObservation,
}
use foliqant.Evaluation.Metrics.Fields.{observe_fields}
use foliqant.Evaluation.Metrics.Counts.{
  count_if, in_state, is_observed, keep, FieldCounts, state_eq,
}
use foliqant.Evaluation.Metrics.Summary.{
  FieldsReport, field_counts, all_fields, all_correct, is_included, summarize_fields,
}
use foliqant.Evaluation.Metrics.Sums.{indicator, Member-map}
use foliqant.Evaluation.Metrics.Fits.{
  AllFit, IsFieldState, AllFit-append, AllFit-keep, FitsFields, observe_fields-FitsFields,
}
use foliqant.Evaluation.Metrics.Outcomes.{FieldAdds, field_counts-FieldAdds}

-- What `_summarize_fields` promises of a report.
pub record FieldsAdd (report : FieldsReport) (attempts : ℕ) : Type 0 where
  pub attempted : report.support + report.excluded ≡ attempts
  pub states : report.observed + report.missing + report.skipped + report.errors ≡ report.support
  pub accurate : report.correct ≤ report.observed
  pub each_field : (c : FieldCounts) → Member c report.per_field → FieldAdds c
  pub totals : FieldAdds report.field_totals

-- each value is an observation of a `fields` metric
abbrev AllFitFields : List MetricObservation → Type 0
AllFitFields [] = Unit
AllFitFields (v ∷ values) = FitsFields v × AllFitFields values

one_field_state :
    (s : ObservationState)
    → IsFieldState s
    → indicator (state_eq s observed)
        + indicator (state_eq s missing)
        + indicator (state_eq s skipped)
        + indicator (state_eq s error)
        + indicator (state_eq s excluded)
      ≡ 1
one_field_state observed h = refl
one_field_state excluded h = refl
one_field_state missing h = refl
one_field_state skipped h = refl
one_field_state error h = refl
one_field_state abstained h = absurd h
one_field_state invalid h = absurd h

field_states :
    (values : List MetricObservation)
    → AllFitFields values
    → in_state observed values
        + in_state missing values
        + in_state skipped values
        + in_state error values
        + in_state excluded values
      ≡ length values
unfolding count_if
field_states [] h = omega arith
field_states (v ∷ values) ((_, is), h) =
    ground (arith, one_field_state v.state is, field_states values h)

-- an observed attempt is included
observed_included :
    (values : List MetricObservation)
    → count_if is_observed (keep is_included values) ≡ in_state observed values
unfolding count_if keep
observed_included [] = refl
observed_included (v ∷ values) = ground (arith, observed_included values)

correct_observed :
    (values : List MetricObservation) → count_if all_correct values ≤ count_if is_observed values
unfolding count_if all_correct
correct_observed [] = omega arith
correct_observed (v ∷ values) = ground (arith, correct_observed values)

fields-AllFit :
    (values : List MetricObservation)
    → AllFitFields values
    → AllFit (all_fields (keep is_included values))
unfolding all_fields keep
fields-AllFit [] h = tt
fields-AllFit (v ∷ values) ((f, _), h) = elim (Bool-cases (is_included v)) [
  | inl taken ↦ rw taken (AllFit-append v.fields _ f (fields-AllFit values h))
  | inr left ↦ rw left (fields-AllFit values h)
]

abbrev of_label : Label → FieldObservation → Bool
of_label label (name, _, _) = label_eq label (some name)

module _ (canonical : FrozenJson → String) (normalized_text : String → String) where
  -- A list of attempts that `observe_metrics` observed for a `fields` metric.
  abbrev pub AllFieldsObserved : MetricSpec → List MetricObservation → Type 0
  AllFieldsObserved spec [] = Unit
  AllFieldsObserved spec (v ∷ values) =
      ((expectations : List Expectation) × (document : FrozenJson) × (status : String)
        × (observe_fields canonical normalized_text spec expectations document status ≡ some v))
      × AllFieldsObserved spec values

  observed-AllFitFields :
      (spec : MetricSpec) (values : List MetricObservation)
      → AllFieldsObserved spec values
      → AllFitFields values
  observed-AllFitFields spec [] h = tt
  observed-AllFitFields spec (v ∷ values) ((expectations, document, status, from), h) = (
    observe_fields-FitsFields canonical normalized_text v spec expectations document status from,
    observed-AllFitFields spec values h,
  )

  -- In the report of a `fields` metric, made of attempts that `observe_metrics` observed, the support
  -- and the excluded attempts are all attempts, the states make up the support, no more attempts are
  -- correct than observed, and for each field and for all of them the six outcomes make up the
  -- support, with no more outcomes of values and of nulls than gold has.
  pub summarize_fields-FieldsAdd :
      (spec : MetricSpec) (repeat : ℕ) (values : List MetricObservation)
      → AllFieldsObserved spec values
      → FieldsAdd (summarize_fields spec repeat values) (length values)
  unfolding summarize_fields
  summarize_fields-FieldsAdd spec repeat values h =
      let fit = observed-AllFitFields spec values h in
      let states = field_states values fit in
      let seen = observed_included values in
      let fields = fields-AllFit values fit in
      record {
        attempted = omega (arith, states);
        states = omega (arith, states, seen);
        accurate = correct_observed (keep is_included values);
        each_field = λ c m.
            let all = all_fields (keep is_included values) in
            let (label, _, e) =
              Member-map (λ label. field_counts label (keep (of_label label) all)) spec.labels c
                m in
            rw (sym e) (
              field_counts-FieldAdds label (keep (of_label label) all)
                (AllFit-keep (of_label label) all fields));
        totals = field_counts-FieldAdds none _ fields;
      }

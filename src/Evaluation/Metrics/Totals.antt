-- ===== src/Evaluation/Metrics/Totals.antt =====
-- The counts of a report of evaluation/metrics.py.
use foliqant.Prelude.{ℕ, ◌+◌, ◌≤◌, ◌≡◌, refl, sym, arith, List, [], ◌∷◌, length, Member}
use foliqant.Evaluation.Metrics.{MetricSpec, Label, has_label}
use foliqant.Evaluation.Metrics.Observe.{
  MetricObservation, ObservationState, observed, excluded, abstained, missing, skipped, error,
  invalid,
}
use foliqant.Evaluation.Metrics.Counts.{
  count_if, in_state, is_observed, is_correct, keep, LabelCounts, label_counts, state_eq,
}
use foliqant.Evaluation.Metrics.Summary.{MetricReport, summarize_labels}
use foliqant.Evaluation.Metrics.Sums.{indicator, count_if-le, four_ways, length-keep, Member-map}

-- The equations that the docstrings of `MetricReport` and `LabelCounts` promise.
pub record Adds (report : MetricReport) (attempts : ℕ) : Type 0 where
  pub attempted : report.support + report.excluded ≡ attempts
  pub states :
      report.observed + report.abstained + report.missing + report.skipped + report.errors
        + report.invalid
      ≡ report.support
  pub accurate : report.correct ≤ report.observed
  pub each_label :
      (c : LabelCounts)
      → Member c report.per_label
      → c.true_positive + c.false_positive + c.false_negative + c.true_negative ≡ report.observed

one_state :
    (s : ObservationState)
    → indicator (state_eq s observed)
        + indicator (state_eq s abstained)
        + indicator (state_eq s missing)
        + indicator (state_eq s skipped)
        + indicator (state_eq s error)
        + indicator (state_eq s invalid)
        + indicator (state_eq s excluded)
      ≡ 1
one_state observed = refl
one_state excluded = refl
one_state abstained = refl
one_state missing = refl
one_state skipped = refl
one_state error = refl
one_state invalid = refl

all_states :
    (values : List MetricObservation)
    → in_state observed values
        + in_state abstained values
        + in_state missing values
        + in_state skipped values
        + in_state error values
        + in_state invalid values
        + in_state excluded values
      ≡ length values
unfolding count_if
all_states [] = omega arith
all_states (v ∷ values) = ground (arith, one_state v.state, all_states values)

label_sum :
    (label : Label) (seen : List MetricObservation) (c : LabelCounts)
    → label_counts label seen ≡ c
    → c.true_positive + c.false_positive + c.false_negative + c.true_negative ≡ length seen
unfolding label_counts
label_sum label seen c e =
    rw (sym e) (four_ways (λ v. has_label label v.actual) (λ v. has_label label v.expected) seen)

-- In every report of a classification or a multilabel metric the support and the excluded attempts
-- are all attempts, the states other than excluded make up the support, no more attempts are correct
-- than observed, and each label's four counts make up the observed attempts.
pub summarize_labels-Adds :
    (spec : MetricSpec) (repeat : ℕ) (values : List MetricObservation)
    → Adds (summarize_labels spec repeat values) (length values)
unfolding summarize_labels label_counts
summarize_labels-Adds spec repeat values =
    let all = all_states values in
    let seen = length-keep is_observed values in
    record {
      attempted = omega (arith, all);
      states = omega (arith, all, seen);
      accurate = count_if-le is_correct (keep is_observed values);
      each_label = λ c m.
          let (label, _, e) =
            Member-map (λ label. label_counts label (keep is_observed values)) spec.labels c m in
          label_sum label (keep is_observed values) c e;
    }

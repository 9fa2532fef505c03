-- ===== src/Evaluation/Metrics/Confusion.antt =====
-- Sums over the confusion matrix of a report of evaluation/metrics.py.
use foliqant.Prelude.{
  ℕ, ◌+◌, ◌≡◌, refl, ap, ◌∙◌, inl, inr, arith, String, true, some, List, [], ◌∷◌, map, Bool-cases,
}
use foliqant.Core.Json.{FrozenJson}
use foliqant.Evaluation.Comparisons.{Expectation}
use foliqant.Evaluation.Metrics.{classification, MetricSpec, Label, all_differ, valid_spec}
use foliqant.Evaluation.Metrics.Observe.{MetricObservation, observed, observe_labels}
use foliqant.Evaluation.Metrics.Counts.{is_observed, keep, pair_count, total}
use foliqant.Evaluation.Metrics.Summary.{confusion_matrix, summarize_labels}
use foliqant.Evaluation.Metrics.Sums.{total-map, total-same}
use foliqant.Evaluation.Metrics.Labels.{observe_labels-Fine}
use foliqant.Evaluation.Metrics.Matrix.{AllSingle, grid, grid-length, diagonal_correct}

abbrev pub row_total : List ℕ → ℕ
row_total = total (λ n. n)

-- the sum of all entries
abbrev pub matrix_total : List (List ℕ) → ℕ
matrix_total = total row_total

abbrev pub first_or_zero : List ℕ → ℕ
first_or_zero [] = 0
first_or_zero (n ∷ _) = n

abbrev pub others : List ℕ → List ℕ
others [] = []
others (_ ∷ ns) = ns

-- the sum of the diagonal of the rows, each without the columns that `drop` takes away
unfoldable pub trace_from : (List ℕ → List ℕ) → List (List ℕ) → ℕ
trace_from drop [] = 0
trace_from drop (row ∷ rows) = first_or_zero (drop row) + trace_from (λ r. others (drop r)) rows

-- the sum of the diagonal
abbrev pub trace : List (List ℕ) → ℕ
trace = trace_from (λ r. r)

-- A list of attempts that `observe_metrics` observed for a metric.
abbrev pub AllObserved : MetricSpec → List MetricObservation → Type 0
AllObserved spec [] = Unit
AllObserved spec (v ∷ values) =
    ((expectations : List Expectation) × (document : FrozenJson) × (status : String)
      × (observe_labels spec expectations document status ≡ some v))
    × AllObserved spec values

trace-map :
    (f : Label → Label → ℕ) (drop : List ℕ → List ℕ) (columns labels : List Label)
    → ((g : Label) → drop (map (f g) columns) ≡ map (f g) labels)
    → trace_from drop (map (λ g. map (f g) columns) labels) ≡ total (λ g. f g g) labels
unfolding trace_from total
trace-map f drop columns [] h = refl
trace-map f drop columns (x ∷ labels) h =
    let rest = trace-map f (λ r. others (drop r)) columns labels (λ g. ap others (h g)) in
    let first : first_or_zero (drop (map (f x) columns)) ≡ f x x = ap first_or_zero (h x) in
    omega (arith, rest, first)

matrix_total-grid :
    (f : Label → Label → ℕ) (labels : List Label)
    → matrix_total (map (λ g. map (f g) labels) labels) ≡ grid f labels
matrix_total-grid f labels =
    total-map row_total (λ g. map (f g) labels) labels
    ∙ total-same (λ g. row_total (map (f g) labels)) (λ g. total (f g) labels) labels
        (λ g. total-map (λ n. n) (f g) labels)

state-is : (v : MetricObservation) → is_observed v ≡ true → v.state ≡ observed
state-is v h = ground arith

differ : (spec : MetricSpec) → valid_spec spec ≡ true → all_differ spec.labels ≡ true
unfolding valid_spec
differ spec h = ground arith

seen-AllSingle :
    (spec : MetricSpec) (values : List MetricObservation)
    → spec.kind ≡ classification
    → AllObserved spec values
    → AllSingle spec.labels (keep is_observed values)
unfolding keep
seen-AllSingle spec [] kind all = tt
seen-AllSingle spec (v ∷ values) kind ((expectations, document, status, from), all) =
    let rest = seen-AllSingle spec values kind all in
    elim (Bool-cases (is_observed v)) [
      | inl seen ↦ rw seen (
        observe_labels-Fine spec kind v document status expectations from (state-is v seen),
        rest,
      )
      | inr unseen ↦ rw unseen rest
    ]

-- In the report of a classification with a valid catalog, made of attempts that `observe_metrics`
-- observed, the entries of the confusion matrix add up to the observed attempts and its diagonal to
-- the correct ones.
pub confusion_matrix_totals :
    (spec : MetricSpec) (repeat : ℕ) (values : List MetricObservation)
    → valid_spec spec ≡ true
    → spec.kind ≡ classification
    → AllObserved spec values
    → let report = summarize_labels spec repeat values in
      (matrix_total report.confusion_matrix ≡ report.observed)
      × (trace report.confusion_matrix ≡ report.correct)
unfolding summarize_labels confusion_matrix
confusion_matrix_totals spec repeat values valid kind all =
    let d = differ spec valid in
    let seen = keep is_observed values in
    let single = seen-AllSingle spec values kind all in
    rw kind (
      matrix_total-grid (λ g p. pair_count g p seen) spec.labels
          ∙ grid-length spec.labels seen d single,
      trace-map (λ g p. pair_count g p seen) (λ r. r) spec.labels spec.labels (λ g. refl)
          ∙ diagonal_correct spec.labels seen d single,
    )

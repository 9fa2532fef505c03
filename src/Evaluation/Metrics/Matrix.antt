-- ===== src/Evaluation/Metrics/Matrix.antt =====
-- The confusion matrix of a report of evaluation/metrics.py.
mod Catalog
use foliqant.Prelude.{ℕ, ◌+◌, ◌≡◌, refl, sym, ◌∙◌, arith, true, ◌&&◌, List, [], ◌∷◌, length}
use foliqant.Evaluation.Metrics.{Label, label_eq, has_label, all_differ}
use foliqant.Evaluation.Metrics.Observe.{MetricObservation, subset}
use foliqant.Evaluation.Metrics.Counts.{count_if, is_correct, first_is, pair_count, total}
use foliqant.Evaluation.Metrics.Sums.{indicator, count_if-cons, total-add, total-same, total-zero}
use foliqant.Evaluation.Metrics.Labels.{Single}
use foliqant.Evaluation.Metrics.Matrix.Catalog.{label_eq-sym, cell_sum, diagonal_sum}

-- the numbers of a square of labels, added up
abbrev pub grid : (Label → Label → ℕ) → List Label → ℕ
grid f labels = total (λ g. total (f g) labels) labels

grid-add :
    (f h : Label → Label → ℕ) (labels : List Label)
    → grid (λ g p. f g p + h g p) labels ≡ grid f labels + grid h labels
grid-add f h labels =
    total-same (λ g. total (λ p. f g p + h g p) labels)
      (λ g. total (f g) labels + total (h g) labels) labels (λ g. total-add (f g) (h g) labels)
    ∙ total-add (λ g. total (f g) labels) (λ g. total (h g) labels) labels

grid-same :
    (f h : Label → Label → ℕ) (labels : List Label)
    → ((g p : Label) → f g p ≡ h g p)
    → grid f labels ≡ grid h labels
grid-same f h labels e =
    total-same (λ g. total (f g) labels) (λ g. total (h g) labels) labels
      (λ g. total-same (f g) (h g) labels (e g))

grid-zero : (labels : List Label) → grid (λ g p. 0) labels ≡ 0
grid-zero labels =
    total-same (λ g. total (λ p. 0) labels) (λ g. 0) labels (λ g. total-zero labels)
    ∙ total-zero labels

-- Each value has one expected and one actual label of the catalog.
abbrev pub AllSingle : List Label → List MetricObservation → Type 0
AllSingle labels [] = Unit
AllSingle labels (v ∷ values) =
    (Single labels v.expected × Single labels v.actual) × AllSingle labels values

abbrev cell : MetricObservation → Label → Label → ℕ
cell v g p = indicator (first_is g v.expected && first_is p v.actual)

pair_count-cons :
    (g p : Label) (v : MetricObservation) (values : List MetricObservation)
    → pair_count g p (v ∷ values) ≡ cell v g p + pair_count g p values
unfolding pair_count
pair_count-cons g p v values =
    count_if-cons (λ value. first_is g value.expected && first_is p value.actual) v values

pair_count-nil : (g p : Label) → pair_count g p [] ≡ 0
unfolding pair_count count_if
pair_count-nil g p = refl

cell_one :
    (labels : List Label) (v : MetricObservation)
    → all_differ labels ≡ true
    → Single labels v.expected
    → Single labels v.actual
    → grid (cell v) labels ≡ 1
cell_one labels v d e a = rw (e.is, a.is) (cell_sum e.label a.label labels d e.known a.known)

pub grid-length :
    (labels : List Label) (values : List MetricObservation)
    → all_differ labels ≡ true
    → AllSingle labels values
    → grid (λ g p. pair_count g p values) labels ≡ length values
grid-length labels [] d s =
    grid-same (λ g p. pair_count g p []) (λ g p. 0) labels pair_count-nil ∙ grid-zero labels
grid-length labels (v ∷ values) d ((e, a), s) =
    let split =
      grid-same (λ g p. pair_count g p (v ∷ values)) (λ g p. cell v g p + pair_count g p values)
        labels (λ g p. pair_count-cons g p v values) in
    let parts = grid-add (cell v) (λ g p. pair_count g p values) labels in
    omega (arith, split, parts, cell_one labels v d e a, grid-length labels values d s)

abbrev pub diagonal : List Label → List MetricObservation → ℕ
diagonal labels values = total (λ g. pair_count g g values) labels

correct_one :
    (e a : Label)
    → indicator (subset (a ∷ []) (e ∷ []) && subset (e ∷ []) (a ∷ [])) ≡ indicator (label_eq e a)
unfolding has_label
correct_one e a = ground (arith, label_eq-sym e a)

diagonal_one :
    (labels : List Label) (v : MetricObservation)
    → all_differ labels ≡ true
    → Single labels v.expected
    → Single labels v.actual
    → total (λ g. cell v g g) labels ≡ indicator (is_correct v)
unfolding has_label
diagonal_one labels v d e a =
    rw (e.is, a.is)
      (diagonal_sum e.label a.label labels d e.known ∙ sym (correct_one e.label a.label))

pub diagonal_correct :
    (labels : List Label) (values : List MetricObservation)
    → all_differ labels ≡ true
    → AllSingle labels values
    → diagonal labels values ≡ count_if is_correct values
unfolding count_if
diagonal_correct labels [] d s =
    total-same (λ g. pair_count g g []) (λ g. 0) labels (λ g. pair_count-nil g g)
    ∙ total-zero labels
diagonal_correct labels (v ∷ values) d ((e, a), s) =
    let split =
      total-same (λ g. pair_count g g (v ∷ values)) (λ g. cell v g g + pair_count g g values) labels
        (λ g. pair_count-cons g g v values) in
    let parts = total-add (λ g. cell v g g) (λ g. pair_count g g values) labels in
    omega (
      arith,
      split,
      parts,
      diagonal_one labels v d e a,
      diagonal_correct labels values d s,
      count_if-cons is_correct v values,
    )

-- ===== src/Evaluation/Metrics/Validation/Total.antt =====
-- `observe_metrics` of evaluation/metrics.py on a validated suite.
use foliqant.Prelude.{
  String, ◌≡◌, refl, inl, inr, arith, true, ◌&&◌, Option, none, some, is_some, List, [], ◌∷◌, all,
  Member, Bool-cases, Option-cases, all-Member, &&_split,
}
use foliqant.Core.Json.{FrozenJson, null, bool, int, float, str, tuple, object, nil, cons}
use foliqant.Evaluation.Comparisons.{Comparison, one_of, Expectation}
use foliqant.Evaluation.Metrics.{
  MetricKind, classification, MetricSpec, Label, is_classification, is_fields, gold, matching,
  is_one_of, one_of_gold, acceptable, labels_of, primary, label_of,
}
use foliqant.Evaluation.Metrics.Observe.{
  MetricObservation, observe_labels, observe_matching, expected_of,
}
use foliqant.Evaluation.Metrics.Validation.{
  at_most_one, has_gold, texts_differ, names_of, valid_label_gold, names_fields, valid_gold,
  has_valid_gold, valid_case, validate_metrics, followed, observe_metric, observe_metrics,
}
use foliqant.Evaluation.Metrics.Validation.FieldGold.{observe_fields-total}

is_classification-is : (kind : MetricKind) → is_classification kind ≡ true → kind ≡ classification
is_classification-is classification h = refl
is_classification-is MetricKind.multilabel h = absurd (cc h)
is_classification-is MetricKind.fields h = absurd (cc h)

is_one_of-is : (c : Comparison) → is_one_of c ≡ true → c ≡ one_of
is_one_of-is c h = ground arith

module _ (canonical : FrozenJson → String) (normalized_text : String → String) where
  matching-valid :
      (spec : MetricSpec) (checks : List Expectation)
      → all (has_valid_gold canonical normalized_text) checks ≡ true
      → all (has_valid_gold canonical normalized_text) (matching spec checks) ≡ true
  unfolding matching
  matching-valid spec [] v = refl
  matching-valid spec (check ∷ checks) v = ground (arith, matching-valid spec checks)

  label_of-total :
      (labels : List Label) (value : FrozenJson)
      → is_some (labels_of classification labels value) ≡ true
      → is_some (label_of value) ≡ true
  unfolding labels_of
  label_of-total labels value h = ground arith

  -- the first value of `one_of` is a label
  primary-total :
      (spec : MetricSpec) (expected : FrozenJson) (found : List Label)
      → one_of_gold spec expected ≡ some found
      → valid_gold canonical normalized_text one_of expected ≡ true
      → is_some (primary expected) ≡ true
  unfolding primary acceptable valid_gold
  primary-total spec (tuple (cons item items)) found h v =
      elim (Bool-cases (is_classification spec.kind)) [
        | inr other ↦ absurd (cc (rw other at h))
        | inl kind ↦
            let accepted = rw (kind, is_classification-is spec.kind kind) at h in
            elim (Option-cases (labels_of classification spec.labels item)) [
              | inl unknown ↦ absurd (cc (rw (unknown, acceptable) at accepted))
              | inr (labels, known) ↦ label_of-total spec.labels item (rw known refl)
            ]
      ]
  primary-total spec (tuple nil) found h v = absurd (cc v)
  primary-total spec null found h v = refl
  primary-total spec (str _) found h v = refl
  primary-total spec (bool _) found h v = absurd (cc h)
  primary-total spec (int _) found h v = absurd (cc h)
  primary-total spec (float _) found h v = absurd (cc h)
  primary-total spec (object _) found h v = absurd (cc h)

  expected_of-total :
      (spec : MetricSpec) (check : Expectation) (found : List Label)
      → gold spec check ≡ some found
      → has_valid_gold canonical normalized_text check ≡ true
      → is_some (expected_of check found) ≡ true
  unfolding gold
  expected_of-total spec check found h v = elim (Bool-cases (is_one_of check.comparison)) [
    | inr plain ↦ rw plain refl
    | inl listed ↦
        let first =
          primary-total spec check.expected found (rw listed at h)
            (rw (is_one_of-is check.comparison listed) at v) in
        rw listed (ground (arith, first))
  ]

  matching-total :
      (spec : MetricSpec) (checks : List Expectation) (document : FrozenJson) (status : String)
      → has_gold spec checks ≡ true
      → all (has_valid_gold canonical normalized_text) checks ≡ true
      → is_some (observe_matching spec checks document status) ≡ true
  matching-total spec [] document status h v = refl
  matching-total spec (check ∷ checks) document status h v = elim (Option-cases (gold spec check)) [
    | inl nothing ↦ absurd (cc (rw nothing at h))
    | inr (found, is) ↦
        let e =
          expected_of-total spec check found is
            (&&_split (has_valid_gold canonical normalized_text check)
              (all (has_valid_gold canonical normalized_text) checks) v).0 in
        rw is (ground (arith, e))
  ]

  observe_metric-total :
      (spec : MetricSpec) (checks : List Expectation) (document : FrozenJson) (status : String)
      → valid_case spec checks ≡ true
      → all (has_valid_gold canonical normalized_text) checks ≡ true
      → is_some (observe_metric canonical normalized_text spec checks document status) ≡ true
  unfolding observe_metric valid_case valid_label_gold observe_labels
  observe_metric-total spec checks document status h v = elim (Bool-cases (is_fields spec.kind)) [
    | inl fields ↦ rw fields (
        observe_fields-total canonical normalized_text spec checks document status (rw fields at h)
          v)
    | inr labels ↦
        let found =
          (&&_split (at_most_one (matching spec checks)) (has_gold spec (matching spec checks))
            (rw labels at h)).1 in
        rw labels (
          matching-total spec (matching spec checks) document status found
            (matching-valid spec checks v))
  ]

  followed-total :
      (one : Option MetricObservation) (others : Option (List MetricObservation))
      → is_some one ≡ true
      → is_some others ≡ true
      → is_some (followed canonical normalized_text one others) ≡ true
  followed-total none others h k = absurd (cc h)
  followed-total (some one) none h k = absurd (cc k)
  followed-total (some one) (some others) h k = refl

  metrics-total :
      (specs : List MetricSpec) (checks : List Expectation) (document : FrozenJson)
      (status : String)
      → ((spec : MetricSpec) → Member spec specs → valid_case spec checks ≡ true)
      → all (has_valid_gold canonical normalized_text) checks ≡ true
      → is_some (observe_metrics canonical normalized_text specs checks document status) ≡ true
  unfolding observe_metrics
  metrics-total [] checks document status h v = refl
  metrics-total (spec ∷ specs) checks document status h v =
      followed-total _ _ (observe_metric-total spec checks document status (h spec (inl refl)) v)
        (metrics-total specs checks document status (λ s m. h s (inr m)) v)

  -- For a suite that `validate_metrics` accepts, and a case of it whose expectations have gold that
  -- their constructor allows, `observe_metrics` observes every metric: no assertion in it fails and no
  -- comparison raises, whatever the run's document and status are.
  pub observe_metrics-total :
      (specs : List MetricSpec) (cases : List (List Expectation)) (checks : List Expectation)
      (document : FrozenJson) (status : String)
      → validate_metrics specs cases ≡ true
      → Member checks cases
      → all (has_valid_gold canonical normalized_text) checks ≡ true
      → is_some (observe_metrics canonical normalized_text specs checks document status) ≡ true
  unfolding validate_metrics
  observe_metrics-total specs cases checks document status h m v =
      let valid =
        (&&_split (texts_differ (names_of specs))
          (all (λ spec. names_fields spec && all (valid_case spec) cases) specs) h).1 in
      metrics-total specs checks document status
        (λ spec s.
          let each =
            all-Member (λ spec. names_fields spec && all (valid_case spec) cases) specs spec valid
              s in
          all-Member (valid_case spec) cases checks
            (&&_split (names_fields spec) (all (valid_case spec) cases) each).1 m)
        v

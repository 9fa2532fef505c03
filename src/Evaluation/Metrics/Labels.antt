-- ===== src/Evaluation/Metrics/Labels.antt =====
-- What `observe_metrics` of evaluation/metrics.py observes of a classification.
use foliqant.Prelude.{
  String, ◌≡◌, inl, inr, refl, sym, Bool, true, ◌&&◌, Option, none, some, List, [], ◌∷◌, Bool-cases,
  Option-cases, some_inj, if◌then◌else◌,
}
use foliqant.Core.Json.{FrozenJson, null, bool, int, float, str, tuple, object, Items, nil, cons}
use foliqant.Core.Bindings.{is_null}
use foliqant.Evaluation.Records.{document_path_status}
use foliqant.Evaluation.Comparisons.{Expectation}
use foliqant.Evaluation.Metrics.{
  classification, MetricSpec, Label, has_label, labels_of, gold, primary, label_of, is_one_of,
  one_of_gold, acceptable, matching,
}
use foliqant.Evaluation.Metrics.Observe.{
  MetricObservation, observed, observe_gold, observe_labels, observe_check, observe_matching,
  primary_label, expected_of, labelled, resolved, measured, projected_value, is_status, is_failed,
  subset,
}

-- One label of the catalog.
pub record Single (labels set : List Label) : Type 0 where
  pub label : Label
  pub is : set ≡ label ∷ []
  pub known : has_label label labels ≡ true

catalog-Single :
    (labels : List Label) (label : Label) (found : List Label)
    → (if has_label label labels then some (label ∷ []) else none) ≡ some found
    → Single labels found
catalog-Single labels label found h = elim (Bool-cases (has_label label labels)) [
  | inl known ↦ record { label = label; is = cc (rw known at h); known = known }
  | inr unknown ↦ absurd (cc (rw unknown at h))
]

labels_of-Single :
    (labels : List Label) (value : FrozenJson) (found : List Label)
    → labels_of classification labels value ≡ some found
    → Single labels found
unfolding labels_of
labels_of-Single labels null found h = catalog-Single labels none found h
labels_of-Single labels (str label) found h = catalog-Single labels (some label) found h
labels_of-Single labels (bool _) found h = absurd (cc h)
labels_of-Single labels (int _) found h = absurd (cc h)
labels_of-Single labels (float _) found h = absurd (cc h)
labels_of-Single labels (tuple _) found h = absurd (cc h)
labels_of-Single labels (object _) found h = absurd (cc h)

-- the label of an acceptable value is in the catalog
label_of-known :
    (labels : List Label) (value : FrozenJson) (label : Label) (found : List Label)
    → labels_of classification labels value ≡ some found
    → label_of value ≡ some label
    → Single labels (label ∷ [])
unfolding labels_of
label_of-known labels null label found h e = elim (Bool-cases (has_label none labels)) [
  | inl known ↦ record { label = none; is = cc; known = known }
  | inr unknown ↦ absurd (cc (rw unknown at h))
]
label_of-known labels (str text) label found h e =
    elim (Bool-cases (has_label (some text) labels)) [
      | inl known ↦ record { label = some text; is = cc; known = known }
      | inr unknown ↦ absurd (cc (rw unknown at h))
    ]
label_of-known labels (bool _) label found h e = absurd (cc e)
label_of-known labels (int _) label found h e = absurd (cc e)
label_of-known labels (float _) label found h e = absurd (cc e)
label_of-known labels (tuple _) label found h e = absurd (cc e)
label_of-known labels (object _) label found h e = absurd (cc e)

primary-known :
    (labels : List Label) (items : Items) (all : List Label) (label : Label)
    → acceptable classification labels items ≡ some all
    → primary (tuple items) ≡ some label
    → Single labels (label ∷ [])
unfolding acceptable primary
primary-known labels nil all label h e = absurd (cc e)
primary-known labels (cons item items) all label h e =
    elim (Option-cases (labels_of classification labels item)) [
      | inl unknown ↦ absurd (cc (rw (unknown, acceptable) at h))
      | inr (found, is) ↦ label_of-known labels item label found is e
    ]

one_of-Single :
    (spec : MetricSpec) (expected : FrozenJson) (all set : List Label)
    → spec.kind ≡ classification
    → one_of_gold spec expected ≡ some all
    → primary_label (primary expected) ≡ some set
    → Single spec.labels set
one_of-Single spec (tuple items) all set kind h e = elim (Option-cases (primary (tuple items))) [
  | inl nothing ↦ absurd (cc (rw nothing at e))
  | inr (label, is) ↦
      let known = primary-known spec.labels items all label (rw kind at h) is in
      rw (sym (some_inj (rw is at e))) known
]
one_of-Single spec null all set kind h e = absurd (cc h)
one_of-Single spec (str _) all set kind h e = absurd (cc h)
one_of-Single spec (bool _) all set kind h e = absurd (cc h)
one_of-Single spec (int _) all set kind h e = absurd (cc h)
one_of-Single spec (float _) all set kind h e = absurd (cc h)
one_of-Single spec (object _) all set kind h e = absurd (cc h)

-- the expected labels of a classification are one label of the catalog
expected-Single :
    (spec : MetricSpec) (check : Expectation) (all set : List Label)
    → spec.kind ≡ classification
    → gold spec check ≡ some all
    → expected_of check all ≡ some set
    → Single spec.labels set
unfolding gold
expected-Single spec check all set kind h e = elim (Bool-cases (is_one_of check.comparison)) [
  | inl listed ↦ one_of-Single spec check.expected all set kind (rw listed at h) (rw listed at e)
  | inr plain ↦
      let found = labels_of-Single spec.labels check.expected all (rw (plain, kind) at h) in
      rw (sym (some_inj (rw plain at e))) found
]

-- An observation whose labels, where it is observed, are one expected and one actual label.
abbrev pub Fine : List Label → MetricObservation → Type 0
Fine labels v = v.state ≡ observed → Single labels v.expected × Single labels v.actual

module _ (spec : MetricSpec) (kind : spec.kind ≡ classification) (all expected : List Label)
    (single : Single spec.labels expected) where
  labelled-Fine :
      (one_of : Bool) (value : FrozenJson) (parsed : Option (List Label))
      → labels_of spec.kind spec.labels value ≡ parsed
      → Fine spec.labels (labelled one_of all expected value parsed)
  labelled-Fine one_of value none h e = elim (Bool-cases (is_null value)) [
    | inl nothing ↦ absurd (cc (rw nothing at e))
    | inr something ↦ absurd (cc (rw something at e))
  ]
  labelled-Fine one_of value (some parsed) h e =
      let found = labels_of-Single spec.labels value parsed (rw kind at h) in
      elim (Bool-cases (one_of && subset parsed all)) [
        | inl listed ↦ rw listed (found, found)
        | inr other ↦ rw other (single, found)
      ]

  measured-Fine :
      (one_of : Bool) (value : Option FrozenJson)
      → Fine spec.labels (measured spec one_of all expected value)
  measured-Fine one_of none e = absurd (cc e)
  measured-Fine one_of (some value) e = labelled-Fine one_of value _ refl e

  resolved-Fine :
      (one_of : Bool) (value : Option FrozenJson)
      → Fine spec.labels (resolved spec one_of all expected value)
  resolved-Fine one_of none e = absurd (cc e)
  resolved-Fine one_of (some value) e = measured-Fine one_of (projected_value spec.each value) e

  observe_gold-Fine :
      (check : Expectation) (document : FrozenJson) (status : String)
      → Fine spec.labels (observe_gold spec check all expected document status)
  unfolding observe_gold
  observe_gold-Fine check document status e =
      let owner = document_path_status spec.path document in
      elim (Bool-cases (is_status "skipped" owner)) [
        | inl left_out ↦ absurd (cc (rw left_out at e))
        | inr ran ↦ elim (Bool-cases (is_failed status owner)) [
          | inl failed ↦ absurd (cc (rw (ran, failed) at e))
          | inr done ↦ rw (ran, done) (resolved-Fine _ _ (rw (ran, done) at e))
        ]
      ]

module _ (spec : MetricSpec) (kind : spec.kind ≡ classification) (v : MetricObservation)
    (document : FrozenJson) (status : String) where
  check-Fine :
      (check : Expectation) (all : Option (List Label))
      → gold spec check ≡ all
      → observe_check spec check all document status ≡ some v
      → Fine spec.labels v
  check-Fine check none g h = absurd (cc h)
  check-Fine check (some all) g h = elim (Option-cases (expected_of check all)) [
    | inl nothing ↦ absurd (cc (rw (nothing, observe_check) at h))
    | inr (expected, is) ↦ rw (sym (some_inj (rw (is, observe_check) at h))) (
        observe_gold-Fine spec kind all expected (expected-Single spec check all expected kind g is)
          check document status)
  ]

  matching-Fine :
      (checks : List Expectation)
      → observe_matching spec checks document status ≡ some v
      → Fine spec.labels v
  matching-Fine [] h e = absurd (cc (h, e))
  matching-Fine (check ∷ checks) h e = check-Fine check (gold spec check) refl h e

  -- an observed attempt of a classification has one expected and one actual label of the catalog
  pub observe_labels-Fine :
      (expectations : List Expectation)
      → observe_labels spec expectations document status ≡ some v
      → Fine spec.labels v
  unfolding observe_labels
  observe_labels-Fine expectations h = matching-Fine (matching spec expectations) h

-- ===== src/Evaluation/Metrics.antt =====
-- evaluation/metrics.py: what a metric measures, and the observation of one case.
pub mod Observe
pub mod Fields
pub mod Counts
pub mod Summary
pub mod Sums
pub mod Totals
pub mod Labels
pub mod Matrix
pub mod Confusion
pub mod Validation
pub mod Fits
pub mod Outcomes
pub mod FieldTotals
use Prim.Native.String.{count, ◌++◌ as ◌<>◌}
use foliqant.Prelude.{
  code, String, Bool, true, false, not, ◌&&◌, Option, none, some, List, [], ◌∷◌, ◌++◌, any, all,
  leb, ◌==◌, str_eq, if◌then◌else◌,
}
use foliqant.Core.Budget.{is_blank}
use foliqant.Core.Json.{FrozenJson, null, str, tuple, Items, nil, cons}
use foliqant.Evaluation.Spans.{is_pointer}
use foliqant.Evaluation.Comparisons.{Comparison, one_of, Expectation}

pub data MetricKind : Type 0 where
  classification multilabel fields : MetricKind

-- a label is a text or null
abbrev pub Label : Type 0
Label = Option String

pub record MetricSpec : Type 0 where
  pub name : String
  pub path : String
  pub kind : MetricKind
  pub labels : List Label
  pub each : Option String
  pub expectation : Option String

abbrev pub label_eq : Label → Label → Bool
label_eq none none = true
label_eq (some a) (some b) = str_eq a b
label_eq _ _ = false

-- `label in labels`
unfoldable pub has_label : Label → List Label → Bool
has_label label labels = any (label_eq label) labels

abbrev pub is_classification : MetricKind → Bool
is_classification classification = true
is_classification _ = false

abbrev pub is_fields : MetricKind → Bool
is_fields fields = true
is_fields _ = false

-- `len(set(labels)) == len(labels)`
unfoldable pub all_differ : List Label → Bool
unfolding has_label
all_differ [] = true
all_differ (label ∷ labels) = not (has_label label labels) && all_differ labels

abbrev valid_label : MetricKind → Label → Bool
valid_label kind none = is_classification kind
valid_label kind (some label) = not (is_blank label)

abbrev valid_each : MetricKind → Option String → Bool
valid_each kind none = true
valid_each kind (some each) = not (str_eq each "") && is_pointer each && not (is_fields kind)

abbrev valid_name : MetricKind → Option String → Bool
valid_name kind none = true
valid_name kind (some name) = not (is_blank name) && not (is_fields kind)

abbrev is_none : List Label → Bool
is_none [] = true
is_none _ = false

-- the tests of `MetricSpec.__post_init__`
unfoldable pub valid_spec : MetricSpec → Bool
unfolding is_blank is_pointer all_differ
valid_spec spec =
    not (is_blank spec.name)
    && leb (count spec.name) 512
    && is_pointer spec.path
    && valid_each spec.kind spec.each
    && valid_name spec.kind spec.expectation
    && not (is_none spec.labels)
    && all (valid_label spec.kind) spec.labels
    && all_differ spec.labels

-- `part.replace("~", "~0").replace("/", "~1")`, character by character
escape : String → String
escape String.[] = String.[]
escape (String.◌∷◌ c text) =
    let rest = escape text in
    if code c == b'~'
    then "~0" <> rest
    else if code c == b'/'
    then "~1" <> rest
    else String.◌∷◌ c rest

-- `field_path`
unfoldable pub field_path : String → String → String
unfolding escape
field_path path name = path <> ("/" <> escape name)

-- the labels of an array, if each is a text of the catalog
unfoldable pub text_labels : List Label → Items → Option (List Label)
unfolding has_label
text_labels labels nil = some []
text_labels labels (cons (str label) items) = elim (text_labels labels items) [
  | none ↦ none
  | some rest ↦ if has_label (some label) labels then some (some label ∷ rest) else none
]
text_labels labels (cons _ items) = none

abbrev in_catalog : List Label → Label → Option (List Label)
in_catalog labels label = if has_label label labels then some (label ∷ []) else none

-- `_labels`; a set is given by its members
unfoldable pub labels_of : MetricKind → List Label → FrozenJson → Option (List Label)
unfolding text_labels
labels_of classification labels (str label) = in_catalog labels (some label)
labels_of classification labels null = in_catalog labels none
labels_of classification labels _ = none
labels_of _ labels (tuple items) = text_labels labels items
labels_of _ labels _ = none

-- the labels of the values that `one_of` lists
unfoldable pub acceptable : MetricKind → List Label → Items → Option (List Label)
unfolding labels_of
acceptable kind labels nil = some []
acceptable kind labels (cons item items) = elim (labels_of kind labels item) [
  | none ↦ none
  | some found ↦ elim (acceptable kind labels items) [
    | none ↦ none
    | some rest ↦ some (found ++ rest)
  ]
]

abbrev pub one_of_gold : MetricSpec → FrozenJson → Option (List Label)
one_of_gold spec (tuple items) =
    if is_classification spec.kind then acceptable spec.kind spec.labels items else none
one_of_gold spec _ = none

abbrev pub is_one_of : Comparison → Bool
is_one_of one_of = true
is_one_of _ = false

-- `_gold`
unfoldable pub gold : MetricSpec → Expectation → Option (List Label)
unfolding acceptable
gold spec check =
    if is_one_of check.comparison
    then one_of_gold spec check.expected
    else labels_of spec.kind spec.labels check.expected

-- a label that the gold of a classification names; the assertion of `_primary` fails with none
abbrev pub label_of : FrozenJson → Option Label
label_of null = some none
label_of (str label) = some (some label)
label_of _ = none

-- `_primary`, where an empty array has no first item
unfoldable pub primary : FrozenJson → Option Label
primary (tuple nil) = none
primary (tuple (cons item items)) = label_of item
primary expected = label_of expected

abbrev same_option : Option String → Option String → Bool
same_option = label_eq

abbrev named : Option String → String → Bool
named none name = true
named (some expectation) name = str_eq name expectation

-- `_matching`
unfoldable pub matching : MetricSpec → List Expectation → List Expectation
matching spec [] = []
matching spec (check ∷ checks) =
    let rest = matching spec checks in
    if str_eq check.path spec.path
      && same_option check.each spec.each
      && named spec.expectation check.name
    then check ∷ rest
    else rest

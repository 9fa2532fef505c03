-- ===== src/Evaluation/Comparisons.antt =====
-- evaluation/comparisons.py: the comparisons with gold, and the projection of an array.
use foliqant.Prelude.{
  String, Bool, false, ◌&&◌, ◌||◌, Option, none, some, List, [], ◌∷◌, mem_str, all, str_eq,
}
use foliqant.Core.Result.{Result, ok, err, ◌>>=◌}
use foliqant.Core.Json.{FrozenJson, str, tuple, Items, nil, cons}
use foliqant.Core.Bindings.{resolve_binding}
use foliqant.Evaluation.Spans.{path_plan, starts_with, matches_source_span}

-- the literal of `Expectation.comparison`
pub data Comparison : Type 0 where
  exact set one_of text contains source_span custom : Comparison

pub record Expectation : Type 0 where
  pub name : String
  pub path : String
  pub expected : FrozenJson
  pub comparison : Comparison
  pub scorer : Option String
  pub each : Option String
  pub absent_as_null : Bool

-- `status in EXECUTED_STATUSES`
unfoldable pub is_executed : String → Bool
is_executed status = str_eq status "completed" || str_eq status "needs_review"

-- `tuple(resolve_binding(binding, item) for item in actual)`
unfoldable pub project_items : String → Items → Result Items
project_items each nil = ok nil
project_items each (cons item items) = do
  value ← resolve_binding (path_plan each) item
  values ← project_items each items
  ok (cons value values)

abbrev pub projected : Result Items → Option FrozenJson
projected (ok items) = some (tuple items)
projected (err _) = none

-- `project`; a `ProjectionError` is none
unfoldable pub project : FrozenJson → String → Option FrozenJson
unfolding project_items
project (tuple items) each = projected (project_items each items)
project _ each = none

-- `needle in text`
unfoldable pub is_part_of : String → String → Bool
unfolding starts_with
is_part_of needle String.[] = starts_with needle String.[]
is_part_of needle (String.◌∷◌ c rest) =
    starts_with needle (String.◌∷◌ c rest) || is_part_of needle rest

-- The library's `json.dumps` with sorted keys, and case folding with collapsed whitespace.
module _ (canonical : FrozenJson → String) (normalized_text : String → String) where
  -- `{canonical(item) for item in items}`
  unfoldable pub canonical_items : Items → List String
  canonical_items nil = []
  canonical_items (cons item items) = canonical item ∷ canonical_items items

  -- equality of two sets that are given by their members
  abbrev pub same_texts : List String → List String → Bool
  same_texts xs ys = all (λ x. mem_str x ys) xs && all (λ y. mem_str y xs) ys

  -- `matches`, by the comparison: none where it raises, and for gold that an expectation cannot have
  unfoldable pub matches : Comparison → FrozenJson → FrozenJson → FrozenJson → Option Bool
  unfolding canonical_items is_part_of
  matches source_span expected actual case_input = matches_source_span actual expected case_input
  matches set (tuple xs) (tuple ys) case_input =
      some (same_texts (canonical_items ys) (canonical_items xs))
  matches set expected (tuple ys) case_input = none
  matches set expected _ case_input = some false
  matches one_of (tuple xs) actual case_input =
      some (mem_str (canonical actual) (canonical_items xs))
  matches one_of expected actual case_input = none
  matches text (str s) (str t) case_input = some (str_eq (normalized_text t) (normalized_text s))
  matches text expected (str t) case_input = none
  matches text expected _ case_input = some false
  matches contains (str s) (str t) case_input =
      some (is_part_of (normalized_text s) (normalized_text t))
  matches contains expected (str t) case_input = none
  matches contains expected _ case_input = some false
  matches custom expected actual case_input = none
  matches exact expected actual case_input = some (str_eq (canonical actual) (canonical expected))

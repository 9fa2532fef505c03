-- ===== src/Evaluation/Metrics/Validation/FieldGold.antt =====
-- `_observe_fields` of evaluation/metrics.py on validated gold.
use foliqant.Prelude.{
  String, ◌≡◌, refl, inl, inr, arith, Bool, true, false, Option, none, some, is_some, List, [], ◌∷◌,
  all, Bool-cases, Option-cases, &&_split, some_inj, sym, str_eq,
}
use foliqant.Core.Json.{FrozenJson, null}
use foliqant.Core.Bindings.{is_null}
use foliqant.Evaluation.Comparisons.{
  Comparison, exact, set, one_of, text, contains, source_span as span, custom, Expectation, matches,
}
use foliqant.Evaluation.Metrics.{MetricSpec, Label, field_path, gold}
use foliqant.Evaluation.Metrics.Observe.{ObservationState, FieldOutcome, FieldObservation}
use foliqant.Evaluation.Metrics.Fields.{
  value_outcome, compared, outcome_of, add_outcome, field_outcomes, first_at, field_gold,
  observe_gold_fields, observe_any_fields, observe_fields,
}
use foliqant.Evaluation.Metrics.Validation.{
  is_plain, at_most_one, all_at, valid_field, valid_field_gold, valid_gold, is_external,
  has_valid_gold,
}

module _ (canonical : FrozenJson → String) (normalized_text : String → String) where
  matches-total :
      (c : Comparison) (expected actual : FrozenJson)
      → is_external c ≡ false
      → valid_gold canonical normalized_text c expected ≡ true
      → is_some (matches canonical normalized_text c expected actual null) ≡ true
  unfolding matches valid_gold
  matches-total exact expected actual x v = refl
  matches-total custom expected actual x v = absurd (cc x)
  matches-total span expected actual x v = absurd (cc x)
  matches-total set expected actual x v = ground arith
  matches-total one_of expected actual x v = ground arith
  matches-total text expected actual x v = ground arith
  matches-total contains expected actual x v = ground arith

  value_outcome-total :
      (same : Option Bool)
      → is_some same ≡ true
      → is_some (value_outcome canonical normalized_text same) ≡ true
  value_outcome-total none h = absurd (cc h)
  value_outcome-total (some true) h = refl
  value_outcome-total (some false) h = refl

  compared-total :
      (null_gold : Bool) (check : Expectation) (actual : FrozenJson)
      → is_external check.comparison ≡ false
      → has_valid_gold canonical normalized_text check ≡ true
      → is_some (compared canonical normalized_text null_gold check actual) ≡ true
  compared-total null_gold check actual x v =
      let m = matches-total check.comparison check.expected actual x v in
      let o = value_outcome-total _ m in ground (arith, o)

  -- gold that `matches` compares
  abbrev AllCompared : List (String × Expectation) → Type 0
  AllCompared [] = Unit
  AllCompared ((_, check) ∷ gold) =
      ((is_external check.comparison ≡ false)
        × (has_valid_gold canonical normalized_text check ≡ true))
      × AllCompared gold

  outcome_of-total :
      (check : Expectation) (actual : Option FrozenJson)
      → is_external check.comparison ≡ false
      → has_valid_gold canonical normalized_text check ≡ true
      → is_some (outcome_of canonical normalized_text check actual) ≡ true
  outcome_of-total check none x v = refl
  outcome_of-total check (some actual) x v =
      compared-total (is_null check.expected) check actual x v

  add_outcome-total :
      (label : String) (n : Bool) (outcome : Option FieldOutcome)
      (rest : Option (List FieldObservation))
      → is_some outcome ≡ true
      → is_some rest ≡ true
      → is_some (add_outcome canonical normalized_text label n outcome rest) ≡ true
  add_outcome-total label n (some o) (some rest) h k = refl
  add_outcome-total label n none rest h k = absurd (cc h)
  add_outcome-total label n (some o) none h k = absurd (cc k)

  field_outcomes-total :
      (path : String) (document : FrozenJson) (owner : Option String) (status : String)
      (gold : List (String × Expectation))
      → AllCompared gold
      → is_some (field_outcomes canonical normalized_text path document owner status gold) ≡ true
  unfolding field_outcomes
  field_outcomes-total path document owner status [] h = refl
  field_outcomes-total path document owner status ((label, check) ∷ gold) ((x, v), h) =
      add_outcome-total label (is_null check.expected) _ _ (outcome_of-total check _ x v)
        (field_outcomes-total path document owner status gold h)

  first_at-compared :
      (path : String) (checks : List Expectation) (check : Expectation)
      → first_at path checks ≡ some check
      → all is_plain (all_at path checks) ≡ true
      → all (has_valid_gold canonical normalized_text) checks ≡ true
      → (is_external check.comparison ≡ false)
        × (has_valid_gold canonical normalized_text check ≡ true)
  unfolding first_at all_at
  first_at-compared path [] check h p v = absurd (cc h)
  first_at-compared path (c ∷ checks) check h p v = elim (Bool-cases (str_eq c.path path)) [
    | inl same ↦
        let one : c ≡ check = some_inj (rw same at h) in
        let plain = (&&_split (is_plain c) (all is_plain (all_at path checks)) (rw same at p)).0 in
        rw (sym one) (ground arith, (&&_split _ _ v).0)
    | inr apart ↦
        first_at-compared path checks check (rw apart at h) (rw apart at p) (&&_split _ _ v).1
  ]

  field_gold-compared :
      (path : String) (labels : List Label) (checks : List Expectation)
      → valid_field_gold path labels checks ≡ true
      → all (has_valid_gold canonical normalized_text) checks ≡ true
      → (gold : List (String × Expectation)) × (field_gold path labels checks ≡ some gold)
        × AllCompared gold
  unfolding field_gold valid_field_gold valid_field
  field_gold-compared path [] checks h v = ([], refl, tt)
  field_gold-compared path (none ∷ labels) checks h v = absurd (cc h)
  field_gold-compared path (some label ∷ labels) checks h v =
      let here = all_at (field_path path label) checks in
      let (first, rest) = &&_split (valid_field here) (valid_field_gold path labels checks) h in
      let (gold, is, compared) = field_gold-compared path labels checks rest v in
      let plain = (&&_split (at_most_one here) (all is_plain here) first).1 in
      elim (Option-cases (first_at (field_path path label) checks)) [
        | inl nothing ↦ (gold, rw (nothing, is) refl, compared)
        | inr (check, found) ↦ (
          (label, check) ∷ gold,
          rw (found, is) refl,
          (first_at-compared (field_path path label) checks check found plain v, compared),
        )
      ]

  gold_fields-total :
      (path : String) (gold : List (String × Expectation)) (owner : Option String)
      (document : FrozenJson) (status : String) (state : Option ObservationState)
      → AllCompared gold
      → is_some
          (observe_gold_fields canonical normalized_text path gold owner document status state)
        ≡ true
  gold_fields-total path gold owner document status (some s) h = refl
  gold_fields-total path gold owner document status none h =
      ground (arith, field_outcomes-total path document owner status gold h)

  any_fields-total :
      (path : String) (gold : List (String × Expectation)) (document : FrozenJson) (status : String)
      → AllCompared gold
      → is_some (observe_any_fields canonical normalized_text path (some gold) document status)
        ≡ true
  any_fields-total path [] document status h = refl
  any_fields-total path (field ∷ gold) document status h =
      gold_fields-total path (field ∷ gold) _ document status _ h

  pub observe_fields-total :
      (spec : MetricSpec) (checks : List Expectation) (document : FrozenJson) (status : String)
      → valid_field_gold spec.path spec.labels checks ≡ true
      → all (has_valid_gold canonical normalized_text) checks ≡ true
      → is_some (observe_fields canonical normalized_text spec checks document status) ≡ true
  unfolding observe_fields
  observe_fields-total spec checks document status h v =
      let (gold, is, compared) = field_gold-compared spec.path spec.labels checks h v in
      rw is (any_fields-total spec.path gold document status compared)

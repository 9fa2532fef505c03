-- ===== src/Evaluation/Metrics/Fits.antt =====
-- The outcomes that `_observe_fields` of evaluation/metrics.py observes, and their gold.
use foliqant.Prelude.{
  String, ◌≡◌, refl, sym, inl, inr, Bool, true, false, Option, none, some, List, [], ◌∷◌, ◌++◌,
  some_inj, Bool-cases,
}
use foliqant.Core.Json.{FrozenJson, null, bool, int, float, str, tuple, object}
use foliqant.Core.Bindings.{is_null}
use foliqant.Evaluation.Records.{document_path_status}
use foliqant.Evaluation.Comparisons.{Expectation}
use foliqant.Evaluation.Metrics.{MetricSpec, field_path}
use foliqant.Evaluation.Metrics.Observe.{
  ObservationState, abstained, invalid, FieldOutcome, correct_null, hallucinated, unavailable,
  FieldObservation, MetricObservation, resolve, is_status, is_failed,
}
use foliqant.Evaluation.Metrics.Fields.{
  field_gold, unavailable_state, all_unavailable, value_outcome, compared, outcome_of, add_outcome,
  field_outcomes, no_outcomes, measured_fields, observe_gold_fields, observe_any_fields,
  observe_fields,
}
use foliqant.Evaluation.Metrics.Counts.{keep}

-- A null outcome has null gold, an outcome of a value does not.
abbrev pub FitsGold : FieldObservation → Type 0
FitsGold (_, correct_null, null_gold) = null_gold ≡ true
FitsGold (_, hallucinated, null_gold) = null_gold ≡ true
FitsGold (_, unavailable, null_gold) = Unit
FitsGold (_, _, null_gold) = null_gold ≡ false

abbrev pub AllFit : List FieldObservation → Type 0
AllFit [] = Unit
AllFit (field ∷ fields) = FitsGold field × AllFit fields

-- the states that `_observe_fields` gives
abbrev pub IsFieldState : ObservationState → Type 0
IsFieldState abstained = ⊥
IsFieldState invalid = ⊥
IsFieldState _ = Unit

pub AllFit-append : (xs ys : List FieldObservation) → AllFit xs → AllFit ys → AllFit (xs ++ ys)
AllFit-append [] ys h k = k
AllFit-append (x ∷ xs) ys (f, h) k = (f, AllFit-append xs ys h k)

pub AllFit-keep :
    (test : FieldObservation → Bool) (xs : List FieldObservation)
    → AllFit xs
    → AllFit (keep test xs)
unfolding keep
AllFit-keep test [] h = tt
AllFit-keep test (x ∷ xs) (f, h) = elim (Bool-cases (test x)) [
  | inl taken ↦ rw taken (f, AllFit-keep test xs h)
  | inr left ↦ rw left (AllFit-keep test xs h)
]

module _ (canonical : FrozenJson → String) (normalized_text : String → String) where
  no_outcomes-AllFit :
      (gold : List (String × Expectation)) → AllFit (no_outcomes canonical normalized_text gold)
  unfolding no_outcomes
  no_outcomes-AllFit [] = tt
  no_outcomes-AllFit ((label, check) ∷ gold) = (tt, no_outcomes-AllFit gold)

  value-FitsGold :
      (label : String) (same : Option Bool) (outcome : FieldOutcome)
      → value_outcome canonical normalized_text same ≡ some outcome
      → FitsGold (label, outcome, false)
  value-FitsGold label none outcome h = absurd (cc h)
  value-FitsGold label (some true) outcome h = rw (sym (some_inj h)) refl
  value-FitsGold label (some false) outcome h = rw (sym (some_inj h)) refl

  compared-FitsGold :
      (label : String) (null_gold : Bool) (check : Expectation) (actual : FrozenJson)
      (outcome : FieldOutcome)
      → compared canonical normalized_text null_gold check actual ≡ some outcome
      → FitsGold (label, outcome, null_gold)
  compared-FitsGold label true check null outcome h = rw (sym (some_inj h)) refl
  compared-FitsGold label true check (bool _) outcome h = rw (sym (some_inj h)) refl
  compared-FitsGold label true check (int _) outcome h = rw (sym (some_inj h)) refl
  compared-FitsGold label true check (float _) outcome h = rw (sym (some_inj h)) refl
  compared-FitsGold label true check (str _) outcome h = rw (sym (some_inj h)) refl
  compared-FitsGold label true check (tuple _) outcome h = rw (sym (some_inj h)) refl
  compared-FitsGold label true check (object _) outcome h = rw (sym (some_inj h)) refl
  compared-FitsGold label false check null outcome h = rw (sym (some_inj h)) refl
  compared-FitsGold label false check (bool _) outcome h = value-FitsGold label _ outcome h
  compared-FitsGold label false check (int _) outcome h = value-FitsGold label _ outcome h
  compared-FitsGold label false check (float _) outcome h = value-FitsGold label _ outcome h
  compared-FitsGold label false check (str _) outcome h = value-FitsGold label _ outcome h
  compared-FitsGold label false check (tuple _) outcome h = value-FitsGold label _ outcome h
  compared-FitsGold label false check (object _) outcome h = value-FitsGold label _ outcome h

  outcome_of-FitsGold :
      (label : String) (check : Expectation) (actual : Option FrozenJson) (outcome : FieldOutcome)
      → outcome_of canonical normalized_text check actual ≡ some outcome
      → FitsGold (label, outcome, is_null check.expected)
  outcome_of-FitsGold label check none outcome h = rw (sym (some_inj h)) tt
  outcome_of-FitsGold label check (some actual) outcome h =
      compared-FitsGold label (is_null check.expected) check actual outcome h

  add_outcome-AllFit :
      (label : String) (null_gold : Bool) (outcome : Option FieldOutcome)
      (rest : Option (List FieldObservation)) (fields : List FieldObservation)
      → add_outcome canonical normalized_text label null_gold outcome rest ≡ some fields
      → ((o : FieldOutcome) → outcome ≡ some o → FitsGold (label, o, null_gold))
      → ((others : List FieldObservation) → rest ≡ some others → AllFit others)
      → AllFit fields
  add_outcome-AllFit label n (some o) (some rest) fields h fits all =
      rw (sym (some_inj h)) (fits o refl, all rest refl)
  add_outcome-AllFit label n none rest fields h fits all = absurd (cc h)
  add_outcome-AllFit label n (some o) none fields h fits all = absurd (cc h)

  field_outcomes-AllFit :
      (path : String) (document : FrozenJson) (owner : Option String) (status : String)
      (gold : List (String × Expectation)) (fields : List FieldObservation)
      → field_outcomes canonical normalized_text path document owner status gold ≡ some fields
      → AllFit fields
  unfolding field_outcomes
  field_outcomes-AllFit path document owner status [] fields h = rw (sym (some_inj h)) tt
  field_outcomes-AllFit path document owner status ((label, check) ∷ gold) fields h =
      add_outcome-AllFit label (is_null check.expected)
        (outcome_of canonical normalized_text check
          (resolve (field_path path label) document true owner status))
        (field_outcomes canonical normalized_text path document owner status gold) fields h
        (λ o e. outcome_of-FitsGold label check _ o e)
        (λ others e. field_outcomes-AllFit path document owner status gold others e)

unavailable-IsFieldState :
    (owner : Option String) (status : String) (s : ObservationState)
    → unavailable_state owner status ≡ some s
    → IsFieldState s
unfolding unavailable_state
unavailable-IsFieldState owner status s h = elim (Bool-cases (is_status "skipped" owner)) [
  | inl left_out ↦ rw (sym (some_inj (rw left_out at h))) tt
  | inr ran ↦ elim (Bool-cases (is_failed status owner)) [
    | inl failed ↦ rw (sym (some_inj (rw (ran, failed) at h))) tt
    | inr done ↦ absurd (cc (rw (ran, done) at h))
  ]
]

-- An observation of a `fields` metric.
abbrev pub FitsFields : MetricObservation → Type 0
FitsFields v = AllFit v.fields × IsFieldState v.state

module _ (canonical : FrozenJson → String) (normalized_text : String → String)
    (v : MetricObservation) where
  measured-FitsFields :
      (outcomes : Option (List FieldObservation))
      → ((fields : List FieldObservation) → outcomes ≡ some fields → AllFit fields)
      → measured_fields canonical normalized_text outcomes ≡ some v
      → FitsFields v
  measured-FitsFields none all h = absurd (cc h)
  measured-FitsFields (some fields) all h = elim (Bool-cases (all_unavailable fields)) [
    | inl nothing ↦ rw (sym (some_inj (rw nothing at h))) (all fields refl, tt)
    | inr something ↦ rw (sym (some_inj (rw something at h))) (all fields refl, tt)
  ]

  gold-FitsFields :
      (path : String) (gold : List (String × Expectation)) (owner : Option String)
      (document : FrozenJson) (status : String) (state : Option ObservationState)
      → ((s : ObservationState) → state ≡ some s → IsFieldState s)
      → observe_gold_fields canonical normalized_text path gold owner document status state ≡ some v
      → FitsFields v
  gold-FitsFields path gold owner document status (some s) is h =
      rw (sym (some_inj h)) (no_outcomes-AllFit canonical normalized_text gold, is s refl)
  gold-FitsFields path gold owner document status none is h =
      measured-FitsFields (field_outcomes canonical normalized_text path document owner status gold)
        (field_outcomes-AllFit canonical normalized_text path document owner status gold) h

  any-FitsFields :
      (path : String) (gold : Option (List (String × Expectation))) (document : FrozenJson)
      (status : String)
      → observe_any_fields canonical normalized_text path gold document status ≡ some v
      → FitsFields v
  any-FitsFields path none document status h = absurd (cc h)
  any-FitsFields path (some []) document status h = rw (sym (some_inj h)) (tt, tt)
  any-FitsFields path (some (field ∷ gold)) document status h =
      let owner = document_path_status path document in
      gold-FitsFields path (field ∷ gold) owner document status (unavailable_state owner status)
        (unavailable-IsFieldState owner status) h

  -- what is observed of a `fields` metric fits its gold
  pub observe_fields-FitsFields :
      (spec : MetricSpec) (expectations : List Expectation) (document : FrozenJson)
      (status : String)
      → observe_fields canonical normalized_text spec expectations document status ≡ some v
      → FitsFields v
  unfolding observe_fields
  observe_fields-FitsFields spec expectations document status h =
      any-FitsFields spec.path (field_gold spec.path spec.labels expectations) document status h

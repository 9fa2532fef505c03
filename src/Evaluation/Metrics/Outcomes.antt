-- ===== src/Evaluation/Metrics/Outcomes.antt =====
-- The counts of the outcomes of a field of evaluation/metrics.py.
use foliqant.Prelude.{
  ◌+◌, ◌≤◌, ◌≡◌, refl, arith, String, Bool, true, false, List, [], ◌∷◌, if◌then◌else◌,
}
use foliqant.Evaluation.Metrics.{Label}
use foliqant.Evaluation.Metrics.Observe.{FieldOutcome, FieldObservation}
use foliqant.Evaluation.Metrics.Counts.{count_if, FieldCounts, field_support, outcome_eq}
use foliqant.Evaluation.Metrics.Summary.{field_counts}
use foliqant.Evaluation.Metrics.Sums.{indicator, count_if-cons}
use foliqant.Evaluation.Metrics.Fits.{FitsGold, AllFit}

-- The equations that the docstring of `FieldCounts` promises: the six outcomes make up the support,
-- and no more of them ask for a value or for null than gold has.
pub record FieldAdds (c : FieldCounts) : Type 0 where
  pub outcomes :
      c.correct_value + c.correct_null + c.hallucinated + c.missed + c.wrong_value + c.unavailable
      ≡ field_support c
  pub values : c.correct_value + c.missed + c.wrong_value ≤ c.value_support
  pub nulls : c.correct_null + c.hallucinated ≤ c.null_support

-- one outcome that fits its gold, in the six counts and in the two supports
record Weighs (o : FieldOutcome) (null_gold : Bool) : Type 0 where
  one :
      indicator (outcome_eq o FieldOutcome.correct_value)
        + indicator (outcome_eq o FieldOutcome.correct_null)
        + indicator (outcome_eq o FieldOutcome.hallucinated)
        + indicator (outcome_eq o FieldOutcome.missed)
        + indicator (outcome_eq o FieldOutcome.wrong_value)
        + indicator (outcome_eq o FieldOutcome.unavailable)
      ≡ 1
  value :
      indicator (outcome_eq o FieldOutcome.correct_value)
        + indicator (outcome_eq o FieldOutcome.missed)
        + indicator (outcome_eq o FieldOutcome.wrong_value)
      ≤ indicator (if null_gold then false else true)
  null :
      indicator (outcome_eq o FieldOutcome.correct_null)
        + indicator (outcome_eq o FieldOutcome.hallucinated)
      ≤ indicator null_gold

one_side : (b : Bool) → indicator (if b then false else true) + indicator b ≡ 1
one_side true = refl
one_side false = refl

weigh : (name : String) (o : FieldOutcome) (n : Bool) → FitsGold (name, o, n) → Weighs o n
weigh name FieldOutcome.correct_value n f =
    rw f (record { one = refl; value = omega arith; null = omega arith })
weigh name FieldOutcome.correct_null n f =
    rw f (record { one = refl; value = omega arith; null = omega arith })
weigh name FieldOutcome.hallucinated n f =
    rw f (record { one = refl; value = omega arith; null = omega arith })
weigh name FieldOutcome.missed n f =
    rw f (record { one = refl; value = omega arith; null = omega arith })
weigh name FieldOutcome.wrong_value n f =
    rw f (record { one = refl; value = omega arith; null = omega arith })
weigh name FieldOutcome.unavailable n f = record {
  one = refl;
  value = omega arith;
  null = omega arith;
}

abbrev ends : FieldOutcome → FieldObservation → Bool
ends outcome (_, o, _) = outcome_eq o outcome

abbrev has_value : FieldObservation → Bool
has_value (_, _, null_gold) = if null_gold then false else true

abbrev has_null : FieldObservation → Bool
has_null (_, _, null_gold) = null_gold

pub field_counts-FieldAdds :
    (label : Label) (fields : List FieldObservation)
    → AllFit fields
    → FieldAdds (field_counts label fields)
unfolding field_counts count_if
field_counts-FieldAdds label [] h = record {
  outcomes = refl;
  values = omega arith;
  nulls = omega arith;
}
field_counts-FieldAdds label ((name, o, n) ∷ fields) (f, h) =
    let rest = field_counts-FieldAdds label fields h in
    let w = weigh name o n f in
    let cv = count_if-cons (ends FieldOutcome.correct_value) (name, o, n) fields in
    let cn = count_if-cons (ends FieldOutcome.correct_null) (name, o, n) fields in
    let ha = count_if-cons (ends FieldOutcome.hallucinated) (name, o, n) fields in
    let mi = count_if-cons (ends FieldOutcome.missed) (name, o, n) fields in
    let wv = count_if-cons (ends FieldOutcome.wrong_value) (name, o, n) fields in
    let un = count_if-cons (ends FieldOutcome.unavailable) (name, o, n) fields in
    let vs = count_if-cons has_value (name, o, n) fields in
    let ns = count_if-cons has_null (name, o, n) fields in
    record {
      outcomes = omega (arith, rest.outcomes, w.one, one_side n, cv, cn, ha, mi, wv, un, vs, ns);
      values = omega (arith, rest.values, w.value, cv, mi, wv, vs);
      nulls = omega (arith, rest.nulls, w.null, cn, ha, ns);
    }

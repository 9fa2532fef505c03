-- ===== src/Core/Conditions.antt =====
-- core/conditions.py: compiled conditions over a binding context. An evaluation threads the trace
-- of leaves whose value could not be compared; it comes back beside an error too, since what was
-- appended stays.
pub mod Total
pub mod Trace
use Prim.Native.String.{count}
use foliqant.Prelude.{
  ℕ, String, Bool, true, false, not, ◌&&◌, ◌||◌, Option, none, some, List, [], ◌∷◌, ◌++◌, ltb, leb,
  ◌==◌, str_eq, if◌then◌else◌, is_some,
}
use foliqant.Prelude.Int.{ℤ, pos}
use foliqant.Core.Errors.{invalid_configuration, ServiceError}
use foliqant.Core.Result.{Result, ok, err, raise, ◌>>=◌}
use foliqant.Core.Json.{
  FrozenJson, null, bool, int, float, str, tuple, object, Items, nil, cons, Fields, items_length,
  fields_length,
}
use foliqant.Core.Json.Numbers.{Number, whole, real, number_eq, number_lt, number_le}
use foliqant.Core.Json.Equal.{json_equal, bool_eq}
use foliqant.Core.Plan.{
  ConditionOperator, present, empty, equals, not_equals, in_list, not_in, gt, gte, lt, lte, matches,
  length, Comparison, Pattern, LeafConditionPlan, ConditionPlan, leaf, all_of, any_of, not_of,
  Conditions, no_conditions, condition,
}
use foliqant.Core.Bindings.{resolve_source}

abbrev pub max_match_length : ℕ
max_match_length = 1024

pub data MismatchReason : Type 0 where
  incompatible_type value_too_long : MismatchReason

pub record ConditionMismatch : Type 0 where
  pub leaf : LeafConditionPlan
  pub reason : MismatchReason

-- `ConditionTrace.mismatches`
abbrev pub ConditionTrace : Type 0
ConditionTrace = List ConditionMismatch

abbrev pub Evaluated : Type 0
Evaluated = Result Bool × ConditionTrace

-- `_number`, with the number
unfoldable pub as_number : FrozenJson → Option Number
as_number (int n) = some (whole n)
as_number (float x) = some (real x)
as_number _ = none

-- `_compare`
unfoldable pub compare : Comparison → Number → Number → Bool
unfolding number_eq number_lt number_le
compare Comparison.gt value operand = number_lt operand value
compare Comparison.gte value operand = number_le operand value
compare Comparison.lt value operand = number_lt value operand
compare Comparison.lte value operand = number_le value operand
compare Comparison.equals value operand = number_eq value operand

-- an absent value counts as null
unfoldable pub or_null : Option FrozenJson → FrozenJson
or_null none = null
or_null (some v) = v

-- `not present or value == "" or …`
unfoldable pub is_empty_value : Option FrozenJson → Bool
is_empty_value none = true
is_empty_value (some (str s)) = str_eq s ""
is_empty_value (some (tuple xs)) = items_length xs == 0
is_empty_value (some (object fs)) = fields_length fs == 0
is_empty_value (some _) = false

unfoldable pub any_equal : FrozenJson → Items → Bool
unfolding json_equal
any_equal v nil = false
any_equal v (cons x xs) = json_equal v x || any_equal v xs

mismatch : LeafConditionPlan → MismatchReason → ConditionTrace → Evaluated
mismatch l reason trace = (ok false, trace ++ record { leaf = l; reason = reason } ∷ [])

-- `operand` must be a boolean, which `found` is compared with
test_flag : Bool → FrozenJson → ConditionTrace → Evaluated
test_flag found (bool operand) trace = (ok (bool_eq found operand), trace)
test_flag found _ trace = (raise invalid_configuration, trace)

-- `operand` must be a tuple that is not empty
test_member : (Bool → Bool) → FrozenJson → FrozenJson → ConditionTrace → Evaluated
unfolding any_equal
test_member verdict value (tuple (cons x xs)) trace =
    (ok (verdict (any_equal value (cons x xs))), trace)
test_member verdict value _ trace = (raise invalid_configuration, trace)

test_number :
    LeafConditionPlan → Comparison → Option FrozenJson → Option Number → ConditionTrace → Evaluated
unfolding compare as_number mismatch
test_number l c value none trace = (raise invalid_configuration, trace)
test_number l c none (some operand) trace = (ok false, trace)
test_number l c (some v) (some operand) trace = elim (as_number v) [
  | none ↦ mismatch l incompatible_type trace
  | some n ↦ (ok (compare c n operand), trace)
]

match_text : LeafConditionPlan → Pattern → String → ConditionTrace → Evaluated
unfolding mismatch
match_text l pattern s trace =
    if ltb max_match_length (count s)
    then mismatch l value_too_long trace
    else (ok (pattern s), trace)

test_match :
    LeafConditionPlan → Option Pattern → FrozenJson → Option FrozenJson → ConditionTrace → Evaluated
unfolding match_text mismatch
test_match l (some pattern) (str _) none trace = (ok false, trace)
test_match l (some pattern) (str _) (some (str s)) trace = match_text l pattern s trace
test_match l (some pattern) (str _) (some _) trace = mismatch l incompatible_type trace
test_match l _ _ value trace = (raise invalid_configuration, trace)

-- `len(value)`, of a value that has one
unfoldable pub size_of : FrozenJson → Option ℕ
size_of (str s) = some (count s)
size_of (tuple xs) = some (items_length xs)
size_of (object fs) = some (fields_length fs)
size_of _ = none

compare_size : LeafConditionPlan → Comparison → ℤ → Option ℕ → ConditionTrace → Evaluated
unfolding compare mismatch
compare_size l c operand none trace = mismatch l incompatible_type trace
compare_size l c operand (some n) trace = (ok (compare c (whole (pos n)) (whole operand)), trace)

test_length :
    LeafConditionPlan
    → Option Comparison
    → FrozenJson
    → Option FrozenJson
    → ConditionTrace
    → Evaluated
unfolding compare_size size_of
test_length l (some c) (int operand) none trace = (ok false, trace)
test_length l (some c) (int operand) (some v) trace = compare_size l c operand (size_of v) trace
test_length l _ _ value trace = (raise invalid_configuration, trace)

-- `_leaf`, once its source is resolved to a value or to nothing
unfoldable pub test_leaf :
    ConditionOperator → LeafConditionPlan → Option FrozenJson → ConditionTrace → Evaluated
unfolding test_flag is_empty_value or_null json_equal test_member test_number as_number test_match
    test_length
test_leaf present l value trace = test_flag (is_some value) l.operand trace
test_leaf empty l value trace = test_flag (is_empty_value value) l.operand trace
test_leaf equals l value trace = (ok (json_equal (or_null value) l.operand), trace)
test_leaf not_equals l value trace = (ok (not (json_equal (or_null value) l.operand)), trace)
test_leaf in_list l value trace = test_member (λ b. b) (or_null value) l.operand trace
test_leaf not_in l value trace = test_member not (or_null value) l.operand trace
test_leaf gt l value trace = test_number l Comparison.gt value (as_number l.operand) trace
test_leaf gte l value trace = test_number l Comparison.gte value (as_number l.operand) trace
test_leaf lt l value trace = test_number l Comparison.lt value (as_number l.operand) trace
test_leaf lte l value trace = test_number l Comparison.lte value (as_number l.operand) trace
test_leaf matches l value trace = test_match l l.pattern l.operand value trace
test_leaf length l value trace = test_length l l.comparison l.operand value trace

unfoldable pub resolved :
    Result (Option FrozenJson) → LeafConditionPlan → ConditionTrace → Evaluated
unfolding test_leaf
resolved (ok value) l trace = test_leaf l.operator l value trace
resolved (err e) l trace = (err e, trace)

-- `_leaf`
unfoldable pub evaluate_leaf : LeafConditionPlan → FrozenJson → ConditionTrace → Evaluated
unfolding resolved resolve_source
evaluate_leaf l context trace = resolved (resolve_source l.source context) l trace

-- `all` and `any` stop at the first item that decides
unfoldable pub stop_unless : Bool → Evaluated → (ConditionTrace → Evaluated) → Evaluated
stop_unless on (ok b, trace) next = if bool_eq b on then next trace else (ok b, trace)
stop_unless on (err e, trace) next = (err e, trace)

unfoldable pub negate : Evaluated → Evaluated
negate (ok b, trace) = (ok (not b), trace)
negate (err e, trace) = (err e, trace)

abbrev pub none_given : Conditions → Bool
none_given no_conditions = true
none_given (condition _ _) = false

unfoldable mutual
  unfolding evaluate_leaf stop_unless negate

  pub evaluate_condition : ConditionPlan → FrozenJson → ConditionTrace → Evaluated
  evaluate_condition (leaf l) context trace = evaluate_leaf l context trace
  evaluate_condition (all_of cs) context trace =
      if none_given cs then (raise invalid_configuration, trace) else evaluate_all cs context trace
  evaluate_condition (any_of cs) context trace =
      if none_given cs then (raise invalid_configuration, trace) else evaluate_any cs context trace
  evaluate_condition (not_of c) context trace = negate (evaluate_condition c context trace)

  pub evaluate_all : Conditions → FrozenJson → ConditionTrace → Evaluated
  evaluate_all no_conditions context trace = (ok true, trace)
  evaluate_all (condition c cs) context trace =
      stop_unless true (evaluate_condition c context trace) (λ seen. evaluate_all cs context seen)

  pub evaluate_any : Conditions → FrozenJson → ConditionTrace → Evaluated
  evaluate_any no_conditions context trace = (ok false, trace)
  evaluate_any (condition c cs) context trace =
      stop_unless false (evaluate_condition c context trace) (λ seen. evaluate_any cs context seen)

unfoldable mutual
  pub condition_leaves : ConditionPlan → List LeafConditionPlan
  condition_leaves (leaf l) = l ∷ []
  condition_leaves (not_of c) = condition_leaves c
  condition_leaves (all_of cs) = leaves_of cs
  condition_leaves (any_of cs) = leaves_of cs

  pub leaves_of : Conditions → List LeafConditionPlan
  leaves_of no_conditions = []
  leaves_of (condition c cs) = condition_leaves c ++ leaves_of cs

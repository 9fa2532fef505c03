-- ===== src/Core/Conditions/Trace.antt =====
-- The trace of an evaluation, and the duality of `all` and `any`.
use mathlib.Core.List.{append_assoc, append-nil}
use foliqant.Prelude.{
  String, Bool, true, false, not, Option, none, some, [], ◌++◌, ◌≡◌, refl, sym, ap, ◌∙◌, inl, inr,
  ltb, Bool-cases, is_some,
}
use Prim.Native.String.{count}
use foliqant.Core.Result.{Result, ok, err}
use foliqant.Core.Json.{FrozenJson, bool, int, float, str, tuple, object, cons}
use foliqant.Core.Json.Equal.{bool_eq}
use foliqant.Core.Json.Numbers.{Number}
use foliqant.Core.Plan.{
  ConditionOperator, present, empty, equals, not_equals, in_list, not_in, gt, gte, lt, lte, matches,
  length, Comparison, Pattern, LeafConditionPlan, ConditionPlan, leaf, all_of, any_of, not_of,
  Conditions, no_conditions, condition,
}
use foliqant.Core.Bindings.{resolve_source}
use foliqant.Core.Conditions.{
  ConditionTrace, Evaluated, or_null, is_empty_value, max_match_length, test_flag, test_member,
  test_number, test_match, match_text, test_length, as_number, test_leaf, resolved, evaluate_leaf,
  stop_unless, negate, evaluate_condition, evaluate_all, evaluate_any,
}

-- The same evaluation, begun with a trace.
abbrev pub after : ConditionTrace → Evaluated → Evaluated
after trace e = (e.0, trace ++ e.1)

after_ok :
    (r : Result Bool) (trace : ConditionTrace)
    → ◌≡◌ {A = Evaluated} (r, trace) (after trace (r, []))
after_ok r trace = rw append-nil

module _ (l : LeafConditionPlan) (trace : ConditionTrace) where
  test_flag-after :
      (b : Bool) (o : FrozenJson) → test_flag b o trace ≡ after trace (test_flag b o [])
  unfolding test_flag
  test_flag-after b (bool o) = after_ok _ trace
  test_flag-after b o = after_ok _ trace

  test_member-after :
      (f : Bool → Bool) (v o : FrozenJson)
      → test_member f v o trace ≡ after trace (test_member f v o [])
  unfolding test_member
  test_member-after f v (tuple (cons x xs)) = after_ok _ trace
  test_member-after f v o = after_ok _ trace

  number_at :
      (c : Comparison) (v : FrozenJson) (o : Number)
      → test_number l c (some v) (some o) trace ≡ after trace (test_number l c (some v) (some o) [])
  unfolding test_number
  number_at c (int n) o = after_ok _ trace
  number_at c (float x) o = after_ok _ trace
  number_at c v o = refl

  test_number-after :
      (c : Comparison) (v : Option FrozenJson) (o : Option Number)
      → test_number l c v o trace ≡ after trace (test_number l c v o [])
  test_number-after c v none = unfold test_number in after_ok _ trace
  test_number-after c none (some o) = unfold test_number in after_ok _ trace
  test_number-after c (some v) (some o) = number_at c v o

  match_text-after :
      (p : Pattern) (s : String) → match_text l p s trace ≡ after trace (match_text l p s [])
  unfolding match_text
  match_text-after p s = elim (Bool-cases (ltb max_match_length (count s))) [
    | inl long ↦ rw long
    | inr short ↦ rw short (after_ok _ trace)
  ]

  test_match-after :
      (p : Option Pattern) (o : FrozenJson) (v : Option FrozenJson)
      → test_match l p o v trace ≡ after trace (test_match l p o v [])
  unfolding test_match
  test_match-after none o v = after_ok _ trace
  test_match-after (some p) (str o) none = after_ok _ trace
  test_match-after (some p) (str o) (some (str s)) = match_text-after p s
  test_match-after (some p) (str o) (some v) = refl
  test_match-after (some p) o v = after_ok _ trace

  test_length-after :
      (c : Option Comparison) (o : FrozenJson) (v : Option FrozenJson)
      → test_length l c o v trace ≡ after trace (test_length l c o v [])
  unfolding test_length
  test_length-after none o v = after_ok _ trace
  test_length-after (some c) (int o) none = after_ok _ trace
  test_length-after (some c) (int o) (some (str s)) = after_ok _ trace
  test_length-after (some c) (int o) (some (tuple s)) = after_ok _ trace
  test_length-after (some c) (int o) (some (object s)) = after_ok _ trace
  test_length-after (some c) (int o) (some v) = refl
  test_length-after (some c) o v = after_ok _ trace

  test_leaf-after :
      (op : ConditionOperator) (v : Option FrozenJson)
      → test_leaf op l v trace ≡ after trace (test_leaf op l v [])
  unfolding test_leaf
  test_leaf-after present v = test_flag-after (is_some v) l.operand
  test_leaf-after empty v = test_flag-after (is_empty_value v) l.operand
  test_leaf-after equals v = after_ok _ trace
  test_leaf-after not_equals v = after_ok _ trace
  test_leaf-after in_list v = test_member-after (λ b. b) (or_null v) l.operand
  test_leaf-after not_in v = test_member-after not (or_null v) l.operand
  test_leaf-after gt v = test_number-after Comparison.gt v (as_number l.operand)
  test_leaf-after gte v = test_number-after Comparison.gte v (as_number l.operand)
  test_leaf-after lt v = test_number-after Comparison.lt v (as_number l.operand)
  test_leaf-after lte v = test_number-after Comparison.lte v (as_number l.operand)
  test_leaf-after matches v = test_match-after l.pattern l.operand v
  test_leaf-after length v = test_length-after l.comparison l.operand v

evaluate_leaf-after :
    (l : LeafConditionPlan) (context : FrozenJson) (trace : ConditionTrace)
    → evaluate_leaf l context trace ≡ after trace (evaluate_leaf l context [])
evaluate_leaf-after l context trace =
    unfold evaluate_leaf in by_source (resolve_source l.source context)
  where
    by_source :
        (r : Result (Option FrozenJson)) → resolved r l trace ≡ after trace (resolved r l [])
    by_source (ok v) = unfold resolved in test_leaf-after l trace l.operator v
    by_source (err e) = unfold resolved in after_ok _ trace

negate-after :
    (e : Evaluated) (trace : ConditionTrace) → negate (after trace e) ≡ after trace (negate e)
unfolding negate
negate-after (ok b, _) trace = refl
negate-after (err e, _) trace = refl

stop_unless-after :
    (on : Bool) (e : Evaluated) (next : ConditionTrace → Evaluated) (trace : ConditionTrace)
    → ((seen : ConditionTrace) → next seen ≡ after seen (next []))
    → stop_unless on (after trace e) next ≡ after trace (stop_unless on e next)
unfolding stop_unless
stop_unless-after on (err e, seen) next trace h = refl
stop_unless-after on (ok b, seen) next trace h = elim (Bool-cases (bool_eq b on)) [
  | inl on ↦ rw on (h (trace ++ seen) ∙ rw append_assoc (ap (after trace) (sym (h seen))))
  | inr off ↦ rw off
]

mutual
  unfolding evaluate_condition

  evaluate-after :
      (c : ConditionPlan) (context : FrozenJson) (trace : ConditionTrace)
      → evaluate_condition c context trace ≡ after trace (evaluate_condition c context [])
  evaluate-after (leaf l) context trace = evaluate_leaf-after l context trace
  evaluate-after (all_of no_conditions) context trace = after_ok _ trace
  evaluate-after (all_of (condition c cs)) context trace =
      evaluate_all-after (condition c cs) context trace
  evaluate-after (any_of no_conditions) context trace = after_ok _ trace
  evaluate-after (any_of (condition c cs)) context trace =
      evaluate_any-after (condition c cs) context trace
  evaluate-after (not_of c) context trace =
      ap negate (evaluate-after c context trace) ∙ negate-after _ trace

  evaluate_all-after :
      (cs : Conditions) (context : FrozenJson) (trace : ConditionTrace)
      → evaluate_all cs context trace ≡ after trace (evaluate_all cs context [])
  evaluate_all-after no_conditions context trace = after_ok _ trace
  evaluate_all-after (condition c cs) context trace =
      ap (λ e. stop_unless true e (evaluate_all cs context)) (evaluate-after c context trace)
      ∙ stop_unless-after true _ (evaluate_all cs context) trace (evaluate_all-after cs context)

  evaluate_any-after :
      (cs : Conditions) (context : FrozenJson) (trace : ConditionTrace)
      → evaluate_any cs context trace ≡ after trace (evaluate_any cs context [])
  evaluate_any-after no_conditions context trace = after_ok _ trace
  evaluate_any-after (condition c cs) context trace =
      ap (λ e. stop_unless false e (evaluate_any cs context)) (evaluate-after c context trace)
      ∙ stop_unless-after false _ (evaluate_any cs context) trace (evaluate_any-after cs context)

-- The trace does not influence an evaluation: its result is that of an evaluation with an empty
-- trace, and the trace that is handed in is only extended, by what that evaluation records.
pub evaluate-trace :
    (c : ConditionPlan) (context : FrozenJson) (trace : ConditionTrace)
    → evaluate_condition c context trace
      ≡ ((evaluate_condition c context []).0, trace ++ (evaluate_condition c context []).1)
evaluate-trace c context trace = evaluate-after c context trace

-- every condition negated
unfoldable pub negated : Conditions → Conditions
negated no_conditions = no_conditions
negated (condition c cs) = condition (not_of c) (negated cs)

stop_unless-negate :
    (e : Evaluated) (f g : ConditionTrace → Evaluated)
    → ((seen : ConditionTrace) → g seen ≡ negate (f seen))
    → stop_unless false (negate e) g ≡ negate (stop_unless true e f)
unfolding stop_unless negate
stop_unless-negate (ok true, seen) f g h = h seen
stop_unless-negate (ok false, seen) f g h = refl
stop_unless-negate (err e, seen) f g h = refl

evaluate_any-negated :
    (cs : Conditions) (context : FrozenJson) (trace : ConditionTrace)
    → evaluate_any (negated cs) context trace ≡ negate (evaluate_all cs context trace)
unfolding evaluate_condition negated
evaluate_any-negated no_conditions context trace = refl
evaluate_any-negated (condition c cs) context trace =
    stop_unless-negate (evaluate_condition c context trace) (evaluate_all cs context)
      (evaluate_any (negated cs) context) (evaluate_any-negated cs context)

-- De Morgan's law holds of the short-circuit evaluation as a whole: `any` of the negated
-- conditions and `not` of `all` of them have the same result or error and leave the same trace.
pub any-negated :
    (cs : Conditions) (context : FrozenJson) (trace : ConditionTrace)
    → evaluate_condition (any_of (negated cs)) context trace
      ≡ evaluate_condition (not_of (all_of cs)) context trace
unfolding evaluate_condition negated
any-negated no_conditions context trace = refl
any-negated (condition c cs) context trace = evaluate_any-negated (condition c cs) context trace

-- ===== src/Core/Conditions/Total.antt =====
-- The evaluation of compiled conditions of core/conditions.py.
use foliqant.Prelude.{
  ℕ, String, Bool, true, false, not, ◌&&◌, ◌||◌, ◌⊎◌, Option, none, some, ◌≡◌, refl, inl, inr, ltb,
  Bool-cases, is_some,
}
use Prim.Native.String.{count}
use foliqant.Prelude.Int.{ℤ}
use foliqant.Core.Errors.{invalid_configuration}
use foliqant.Core.Result.{Result, ok, err, raise}
use foliqant.Core.Json.{FrozenJson, bool, int, float, str, tuple, nil, cons}
use foliqant.Core.Json.Equal.{bool_eq}
use foliqant.Core.Json.Numbers.{Number}
use foliqant.Core.Plan.{
  ConditionOperator, present, empty, equals, not_equals, in_list, not_in, gt, gte, lt, lte, matches,
  length, Comparison, Pattern, LeafConditionPlan, ConditionPlan, leaf, all_of, any_of, not_of,
  Conditions, no_conditions, condition,
}
use foliqant.Core.Bindings.{resolve_source}
use foliqant.Core.Bindings.Sources.{IsSource, ReturnsIf, has_short_pointers, resolve_source_outcome}
use foliqant.Core.Conditions.{
  ConditionTrace, Evaluated, or_null, is_empty_value, max_match_length, test_flag, test_member,
  test_number, test_match, match_text, test_length, compare_size, size_of, as_number, test_leaf,
  resolved, evaluate_leaf, stop_unless, negate, none_given, evaluate_condition, evaluate_all,
  evaluate_any,
}

-- What compilation checks of a leaf's operand, operator by operator.
unfoldable pub fits_operator : ConditionOperator → LeafConditionPlan → Bool
fits_operator present l = elim l.operand [ bool _ ↦ true | _ ↦ false ]
fits_operator empty l = elim l.operand [ bool _ ↦ true | _ ↦ false ]
fits_operator equals l = true
fits_operator not_equals l = true
fits_operator in_list l = elim l.operand [ tuple (cons _ _) ↦ true | _ ↦ false ]
fits_operator not_in l = elim l.operand [ tuple (cons _ _) ↦ true | _ ↦ false ]
fits_operator gt l = is_some (as_number l.operand)
fits_operator gte l = is_some (as_number l.operand)
fits_operator lt l = is_some (as_number l.operand)
fits_operator lte l = is_some (as_number l.operand)
fits_operator matches l = is_some l.pattern && elim l.operand [ str _ ↦ true | _ ↦ false ]
fits_operator length l = is_some l.comparison && elim l.operand [ int _ ↦ true | _ ↦ false ]

pub record IsCompiledLeaf (l : LeafConditionPlan) : Type 0 where
  pub source : IsSource l.source
  pub operand : fits_operator l.operator l ≡ true

-- A compiled condition: `all` and `any` are not empty, and every leaf is compiled.
unfoldable mutual
  pub IsCompiled : ConditionPlan → Type 0
  IsCompiled (leaf l) = IsCompiledLeaf l
  IsCompiled (all_of cs) = (none_given cs ≡ false) × AreCompiled cs
  IsCompiled (any_of cs) = (none_given cs ≡ false) × AreCompiled cs
  IsCompiled (not_of c) = IsCompiled c

  pub AreCompiled : Conditions → Type 0
  AreCompiled no_conditions = Unit
  AreCompiled (condition c cs) = IsCompiled c × AreCompiled cs

abbrev pub HasValue : Evaluated → Type 0
HasValue e = (b : Bool) × (e.0 ≡ ok b)

module _ (l : LeafConditionPlan) (trace : ConditionTrace) where
  test_flag-value :
      (b : Bool) (o : FrozenJson)
      → ◌≡◌ {A = Bool} (elim o [ bool _ ↦ true | _ ↦ false ]) true
      → HasValue (test_flag b o trace)
  unfolding test_flag
  test_flag-value b (bool o) h = (_, refl)
  test_flag-value b o h = cc

  test_member-value :
      (f : Bool → Bool) (v o : FrozenJson)
      → ◌≡◌ {A = Bool} (elim o [ tuple (cons _ _) ↦ true | _ ↦ false ]) true
      → HasValue (test_member f v o trace)
  unfolding test_member
  test_member-value f v (tuple (cons x xs)) h = (_, refl)
  test_member-value f v (tuple nil) h = cc
  test_member-value f v o h = cc

  test_number-value :
      (c : Comparison) (v : Option FrozenJson) (o : Option Number)
      → is_some o ≡ true
      → HasValue (test_number l c v o trace)
  unfolding test_number
  test_number-value c v none h = cc
  test_number-value c none (some o) h = (_, refl)
  test_number-value c (some (int n)) (some o) h = (_, refl)
  test_number-value c (some (float x)) (some o) h = (_, refl)
  test_number-value c (some v) (some o) h = (_, refl)

  match_text-value : (p : Pattern) (s : String) → HasValue (match_text l p s trace)
  unfolding match_text
  match_text-value p s = elim (Bool-cases (ltb max_match_length (count s))) [
    | inl long ↦ (false, rw long)
    | inr short ↦ (p s, rw short)
  ]

  test_match-value :
      (p : Option Pattern) (o : FrozenJson) (v : Option FrozenJson)
      → (is_some p && elim o [ str _ ↦ true | _ ↦ false ]) ≡ true
      → HasValue (test_match l p o v trace)
  unfolding test_match
  test_match-value none o v h = cc
  test_match-value (some p) (str o) none h = (_, refl)
  test_match-value (some p) (str o) (some (str s)) h = match_text-value p s
  test_match-value (some p) (str o) (some v) h = (_, refl)
  test_match-value (some p) o v h = cc

  compare_size-value :
      (c : Comparison) (o : ℤ) (n : Option ℕ) → HasValue (compare_size l c o n trace)
  unfolding compare_size
  compare_size-value c o none = (_, refl)
  compare_size-value c o (some n) = (_, refl)

  test_length-value :
      (c : Option Comparison) (o : FrozenJson) (v : Option FrozenJson)
      → (is_some c && elim o [ int _ ↦ true | _ ↦ false ]) ≡ true
      → HasValue (test_length l c o v trace)
  unfolding test_length
  test_length-value none o v h = cc
  test_length-value (some c) (int o) none h = (_, refl)
  test_length-value (some c) (int o) (some v) h = compare_size-value c o (size_of v)
  test_length-value (some c) o v h = cc

  test_leaf-value :
      (op : ConditionOperator) (v : Option FrozenJson)
      → fits_operator op l ≡ true
      → HasValue (test_leaf op l v trace)
  unfolding test_leaf fits_operator
  test_leaf-value present v h = test_flag-value (is_some v) l.operand h
  test_leaf-value empty v h = test_flag-value (is_empty_value v) l.operand h
  test_leaf-value equals v h = (_, refl)
  test_leaf-value not_equals v h = (_, refl)
  test_leaf-value in_list v h = test_member-value (λ b. b) (or_null v) l.operand h
  test_leaf-value not_in v h = test_member-value not (or_null v) l.operand h
  test_leaf-value gt v h = test_number-value Comparison.gt v (as_number l.operand) h
  test_leaf-value gte v h = test_number-value Comparison.gte v (as_number l.operand) h
  test_leaf-value lt v h = test_number-value Comparison.lt v (as_number l.operand) h
  test_leaf-value lte v h = test_number-value Comparison.lte v (as_number l.operand) h
  test_leaf-value matches v h = test_match-value l.pattern l.operand v h
  test_leaf-value length v h = test_length-value l.comparison l.operand v h

-- some leaf has a pointer of more than 64 parts
unfoldable mutual
  pub is_long : ConditionPlan → Bool
  is_long (leaf l) = not (has_short_pointers l.source)
  is_long (all_of cs) = some_long cs
  is_long (any_of cs) = some_long cs
  is_long (not_of c) = is_long c

  pub some_long : Conditions → Bool
  some_long no_conditions = false
  some_long (condition c cs) = is_long c || some_long cs

-- an evaluation that ends in a truth value, or in a configuration failure where that may be
abbrev pub HasOutcome : Bool → Evaluated → Type 0
HasOutcome long e = HasValue e ⊎ ((e.0 ≡ raise invalid_configuration) × (long ≡ true))

more_long : (a b : Bool) (e : Evaluated) → HasOutcome a e → HasOutcome (a || b) e
more_long true b e (inr (h, k)) = inr (h, refl)
more_long false b e (inr (h, k)) = cc
more_long a b e (inl h) = inl h

other_long : (a b : Bool) (e : Evaluated) → HasOutcome b e → HasOutcome (a || b) e
other_long true b e (inr (h, k)) = inr (h, refl)
other_long false b e h = h
other_long true b e (inl h) = inl h

evaluate_leaf-outcome :
    (l : LeafConditionPlan) (context : FrozenJson) (trace : ConditionTrace)
    → IsCompiledLeaf l
    → HasOutcome (not (has_short_pointers l.source)) (evaluate_leaf l context trace)
unfolding evaluate_leaf resolved
evaluate_leaf-outcome l context trace h =
    of_source (has_short_pointers l.source) (resolve_source l.source context)
      (resolve_source_outcome l.source context h.source)
  where
    of_source :
        (b : Bool) (r : Result (Option FrozenJson))
        → ReturnsIf b r
        → HasOutcome (not b) (resolved r l trace)
    of_source true r (o, e) = rw e (inl (test_leaf-value l trace l.operator o h.operand))
    of_source false r e = rw e (inr (refl, refl))

stop_unless-outcome :
    (a b on : Bool) (e : Evaluated) (next : ConditionTrace → Evaluated)
    → HasOutcome a e
    → ((seen : ConditionTrace) → HasOutcome b (next seen))
    → HasOutcome (a || b) (stop_unless on e next)
unfolding stop_unless
stop_unless-outcome a b on (ok v, seen) next h k = elim (Bool-cases (bool_eq v on)) [
  | inl on ↦ rw on (other_long a b (next seen) (k seen))
  | inr off ↦ rw off (inl (v, refl))
]
stop_unless-outcome a b on (err e, seen) next h k = more_long a b (err e, seen) h

negate-outcome : (b : Bool) (e : Evaluated) → HasOutcome b e → HasOutcome b (negate e)
unfolding negate
negate-outcome b (ok v, _) h = inl (not v, refl)
negate-outcome b (err e, _) h = h

mutual
  unfolding evaluate_condition IsCompiled is_long

  evaluate-outcome :
      (c : ConditionPlan) (context : FrozenJson) (trace : ConditionTrace)
      → IsCompiled c
      → HasOutcome (is_long c) (evaluate_condition c context trace)
  evaluate-outcome (leaf l) context trace h = evaluate_leaf-outcome l context trace h
  evaluate-outcome (all_of cs) context trace h = rw h.0 (evaluate_all-outcome cs context trace h.1)
  evaluate-outcome (any_of cs) context trace h = rw h.0 (evaluate_any-outcome cs context trace h.1)
  evaluate-outcome (not_of c) context trace h =
      negate-outcome _ _ (evaluate-outcome c context trace h)

  evaluate_all-outcome :
      (cs : Conditions) (context : FrozenJson) (trace : ConditionTrace)
      → AreCompiled cs
      → HasOutcome (some_long cs) (evaluate_all cs context trace)
  evaluate_all-outcome no_conditions context trace h = inl (true, refl)
  evaluate_all-outcome (condition c cs) context trace h =
      stop_unless-outcome _ _ true _ _ (evaluate-outcome c context trace h.0)
        (λ seen. evaluate_all-outcome cs context seen h.1)

  evaluate_any-outcome :
      (cs : Conditions) (context : FrozenJson) (trace : ConditionTrace)
      → AreCompiled cs
      → HasOutcome (some_long cs) (evaluate_any cs context trace)
  evaluate_any-outcome no_conditions context trace h = inl (false, refl)
  evaluate_any-outcome (condition c cs) context trace h =
      stop_unless-outcome _ _ false _ _ (evaluate-outcome c context trace h.0)
        (λ seen. evaluate_any-outcome cs context seen h.1)

-- In every context, whatever values are absent or of another type than its operators expect, a
-- compiled condition evaluates to a truth value, or it raises INVALID_CONFIGURATION and one of its
-- pointers has more than 64 parts.
pub evaluate_outcome :
    (c : ConditionPlan) (context : FrozenJson) (trace : ConditionTrace)
    → IsCompiled c
    → ((b : Bool) × ((evaluate_condition c context trace).0 ≡ ok b))
      ⊎ ((evaluate_condition c context trace).0 ≡ raise invalid_configuration) × (is_long c ≡ true)
evaluate_outcome c context trace h = evaluate-outcome c context trace h

-- ===== src/Tests/Bindings.antt =====
-- Bindings and conditions at concrete inputs.
use foliqant.Prelude.{◌≡◌, ◌⊎◌, refl, Bool, true, false, none, some, [], ◌∷◌, ◌++◌}
use foliqant.Prelude.Int.{pos}
use foliqant.Core.Errors.{invalid_configuration}
use foliqant.Core.Result.{raise, ok}
use foliqant.Core.Json.{FrozenJson, null, int, object, field, end}
use foliqant.Core.Plan.{
  BindingKind, BindingPlan, plan, no_bindings, ConditionOperator, LeafConditionPlan, ConditionPlan,
  leaf, all_of, any_of, not_of, condition, no_conditions,
}
use foliqant.Core.Bindings.{
  lookup_pointer, lacks_slash, invalid_escape, split_slash, resolve_source,
}
use foliqant.Core.Bindings.Rfc6901.{encode, descend, pointer_resolves}
use foliqant.Core.Bindings.Sources.{IsSource, part_count, resolve_source_outcome}
use foliqant.Core.Conditions.{evaluate_condition, as_number}
use foliqant.Core.Conditions.Trace.{negated, evaluate-trace, any-negated}
use foliqant.Core.Conditions.Total.{
  fits_operator, IsCompiledLeaf, IsCompiled, is_long, evaluate_outcome,
}

abbrev payload : FrozenJson
payload = object (field "a/b" (object (field "n" (int (pos 3)) end)) end)

pointer_resolves_example :
    lookup_pointer (encode ("a/b" ∷ "n" ∷ [])) payload ≡ ok (descend ("a/b" ∷ "n" ∷ []) payload)
pointer_resolves_example = pointer_resolves ("a/b" ∷ "n" ∷ []) payload

abbrev source : BindingPlan
source = plan BindingKind.pointer (some "/n") null false null [] no_bindings

source-IsSource : IsSource source
unfolding lacks_slash invalid_escape
source-IsSource = (refl, refl)

-- a pointer of 65 empty parts
abbrev long_source : BindingPlan
long_source =
    plan BindingKind.pointer
      (some "/////////////////////////////////////////////////////////////////") null false null []
      no_bindings

resolve_source_outcome_example : resolve_source long_source payload ≡ raise invalid_configuration
unfolding part_count split_slash lacks_slash invalid_escape
resolve_source_outcome_example = resolve_source_outcome long_source payload (refl, refl)

abbrev at_least_two : LeafConditionPlan
at_least_two = record {
  source = source;
  operator = ConditionOperator.gte;
  operand = int (pos 2);
  comparison = none;
  pattern = none;
}

abbrev sample : ConditionPlan
sample =
    all_of (condition (leaf at_least_two) (condition (not_of (leaf at_least_two)) no_conditions))

evaluate-trace_example :
    evaluate_condition sample payload []
    ≡ ((evaluate_condition sample payload []).0, [] ++ (evaluate_condition sample payload []).1)
evaluate-trace_example = evaluate-trace sample payload []

any-negated_example :
    evaluate_condition (any_of (negated (condition (leaf at_least_two) no_conditions))) payload []
    ≡ evaluate_condition (not_of (all_of (condition (leaf at_least_two) no_conditions))) payload []
any-negated_example = any-negated (condition (leaf at_least_two) no_conditions) payload []

sample-IsCompiled : IsCompiled sample
unfolding IsCompiled fits_operator as_number
sample-IsCompiled =
    let once : IsCompiledLeaf at_least_two = record { source = source-IsSource; operand = refl } in
    (refl, (once, (once, tt)))

evaluate_outcome_example :
    ((b : Bool) × ((evaluate_condition sample payload []).0 ≡ ok b))
    ⊎ ((evaluate_condition sample payload []).0 ≡ raise invalid_configuration)
      × (is_long sample ≡ true)
evaluate_outcome_example = evaluate_outcome sample payload [] sample-IsCompiled

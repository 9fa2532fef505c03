-- ===== src/Tests/Values.antt =====
-- JSON values, token counts, prices and budgets at concrete inputs.
use foliqant.Prelude.{
  ◌+◌, ◌*◌, ◌≤◌, ◌≡◌, refl, arith, String, true, not, ◌&&◌, ◌||◌, none, some, is_some, List, [],
  ◌∷◌, Dict, lookup, IsUnique,
}
use foliqant.Prelude.Int.{pos}
use foliqant.Core.Result.{ok, raise}
use foliqant.Core.Errors.{conflict}
use foliqant.Core.Json.{
  FrozenJson, null, int, str, tuple, object, cons, nil, field, end, field_lookup,
}
use foliqant.Core.Json.Freeze.{Raw, RawEntries, Key, freeze_json, thaw_json, refreeze}
use foliqant.Core.Json.WellFormed.{IsWellFormed, depth}
use foliqant.Core.Json.Equal.{json_equal}
use foliqant.Core.Json.RoundTrip.{freeze-thaw}
use foliqant.Core.Json.Sound.{Frozen, freeze_outcome}
use foliqant.Core.Json.Equivalence.{json_equal_laws}
use foliqant.Core.Usage.{
  TokenUsage, ModelUsage, Usage, token_usage_plus, token_usage_sum, merge_models, usage_plus,
  usage_sum,
}
use foliqant.Core.Usage.Tokens.{IsConsistent, token_usage_plus-total}
use foliqant.Core.Usage.Models.{combined, total_requests, merge_models_lem}
use foliqant.Core.Usage.Totals.{IsValid, usage_plus-total}
use foliqant.Core.Pricing.{PriceTier, Billing, PricingPlan, tier, cached_price, amount}
use foliqant.Core.Pricing.Estimates.{needs_cached, needs_reasoning, amount_measured, amount_uniform}
use foliqant.Core.Budget.{
  StepBudget, new_budget, start_model_request, finish_model_request, snapshot,
}
use foliqant.Core.Budget.Accounting.{
  Operation, start_model, finish_model, start_tool, apply_all, IsWithin, limits_hold,
  ticket_closes_once, snapshot_counts,
}

-- {"a": [1, null], "b": "x"}
abbrev sample : FrozenJson
sample = object (field "a" (tuple (cons (int (pos 1)) (cons null nil))) (field "b" (str "x") end))

sample-IsWellFormed : IsWellFormed sample
unfolding IsWellFormed field_lookup
sample-IsWellFormed = ((tt, (tt, tt)), refl, (tt, refl, tt))

sample-depth : depth sample ≤ 64
unfolding depth
sample-depth = omega arith

freeze-thaw_example :
    (freeze_json 64 (thaw_json sample) ≡ ok sample) × (refreeze 64 sample ≡ ok sample)
freeze-thaw_example = freeze-thaw 64 sample sample-IsWellFormed sample-depth

abbrev raw : Raw
raw = Raw.mapping (RawEntries.entry (Key.text "a") Raw.null RawEntries.empty)

freeze_outcome_example : Frozen 64 (freeze_json 64 raw)
freeze_outcome_example = freeze_outcome 64 raw

json_equal_laws_example :
    (json_equal sample sample ≡ true) × (json_equal sample (str "x") ≡ json_equal (str "x") sample)
json_equal_laws_example =
    json_equal_laws sample (str "x") sample-IsWellFormed (unfold IsWellFormed in tt)

-- 100 tokens in, 40 of them read from a cache, and 20 tokens out, 5 of them reasoning
abbrev counts : TokenUsage
counts = record {
  input_tokens = some 100;
  output_tokens = some 20;
  cache_read_input_tokens = some 40;
  cache_write_input_tokens = none;
  reasoning_output_tokens = some 5;
}

counts-IsConsistent : IsConsistent counts
counts-IsConsistent = record { cache_read = omega arith; cache_write = tt; reasoning = omega arith }

token_usage_plus-total_example :
    (token_usage_plus counts counts ≡ ok (token_usage_sum counts counts))
    × IsConsistent (token_usage_sum counts counts)
    × (is_some (token_usage_sum counts counts).input_tokens ≡ (true && true))
token_usage_plus-total_example =
    token_usage_plus-total counts counts counts-IsConsistent counts-IsConsistent

abbrev by_model : Dict ModelUsage
by_model = ("m", record { requests = 2; tokens = counts; cost = none }) ∷ []

by_model-IsUnique : IsUnique by_model
unfolding lookup
by_model-IsUnique = (refl, tt)

merge_models_lem_example :
    ((k : String)
      → lookup k (merge_models by_model by_model)
        ≡ combined (lookup k by_model) (lookup k by_model))
    × IsUnique (merge_models by_model by_model)
    × (total_requests (merge_models by_model by_model)
        ≡ total_requests by_model + total_requests by_model)
merge_models_lem_example = merge_models_lem by_model by_model by_model-IsUnique by_model-IsUnique

abbrev usage : Usage
usage = record {
  model_requests = 2;
  tool_calls = 1;
  tokens = counts;
  by_model = by_model;
  output_retries = 0;
}

usage-IsValid : IsValid usage
unfolding total_requests
usage-IsValid = record {
  consistent = counts-IsConsistent;
  models = (record { some_requests = omega arith; consistent = counts-IsConsistent }, tt);
  unique = by_model-IsUnique;
  counted = omega arith;
}

usage_plus-total_example :
    (usage_plus usage usage ≡ ok (usage_sum usage usage)) × IsValid (usage_sum usage usage)
usage_plus-total_example = usage_plus-total usage usage usage-IsValid usage-IsValid

abbrev flat : PriceTier
flat = record { input_per_million = 3; output_per_million = 3; cached_input_per_million = none }

abbrev pricing : PricingPlan
pricing = record {
  currency = "USD";
  base = flat;
  reasoning_billed_as = Billing.input;
  long_context_threshold = some 1000;
  long_context =
      some (record {
        input_per_million = 6;
        output_per_million = 9;
        cached_input_per_million = some 1;
      });
  reference_model = none;
}

amount_measured_example : is_some (amount pricing (some counts)) ≡ (
    true
    && (not (needs_cached pricing 100) || true)
    && (not (needs_reasoning Billing.input) || true))
amount_measured_example = amount_measured pricing counts 100 refl

amount_uniform_example : amount pricing (some counts) ≡ some ((100 + 20) * 3)
unfolding tier cached_price
amount_uniform_example =
    amount_uniform pricing counts 100 20 40 5 3 counts-IsConsistent refl refl refl refl refl refl
      refl

abbrev operations : List Operation
operations = start_model "m" (some pricing) ∷ finish_model 1 counts ∷ start_tool ∷ start_tool ∷ []

limits_hold_example : IsWithin 2 1 (apply_all operations (new_budget 2 1))
limits_hold_example = limits_hold 2 1 operations

first_ticket : (start_model_request "m" (some pricing) (new_budget 2 1)).0 ≡ ok 1
unfolding start_model_request new_budget
first_ticket = refl

ticket_closes_once_example :
    let b = (start_model_request "m" (some pricing) (new_budget 2 1)).1 in
    ((finish_model_request 1 counts b).0 ≡ ok tt)
    × ((finish_model_request 1 counts (finish_model_request 1 counts b).1).0 ≡ raise conflict)
ticket_closes_once_example =
    ticket_closes_once "m" (some pricing) counts counts (new_budget 2 1) first_ticket

-- one measured attempt and one that is still open
abbrev spent : StepBudget
spent = record {
  model_limit = 4;
  tool_limit = 4;
  models =
      (record { model = "m"; pricing = some pricing; usage = some counts })
      ∷ (record { model = "n"; pricing = none; usage = none })
      ∷ [];
  tools = 1;
  output_retries = 1;
}

snapshot_counts_example :
    (u : Usage) × (snapshot spent ≡ ok u)
    × (u.model_requests ≡ 2)
    × (u.tool_calls ≡ 1)
    × (u.output_retries ≡ 1)
    × (total_requests u.by_model ≡ u.model_requests)
snapshot_counts_example = snapshot_counts spent (refl, counts-IsConsistent, (tt, tt, tt))

-- ===== src/Core/Usage/Defs.antt =====
-- The usage values of core/execution.py.
use Prim.Native.String.{compare}
use Prim.Native.Nat.{Ordering}
use foliqant.Prelude.{
  ℕ, ◌+◌, String, Bool, true, false, Option, none, some, [], ◌∷◌, ltb, str_eq, if◌then◌else◌, Dict,
  lookup, insert,
}
use foliqant.Core.Errors.{invalid_output}
use foliqant.Core.Result.{Result, ok, raise_if, ◌>>=◌, ◌>>◌}

pub record TokenUsage : Type 0 where
  pub input_tokens : Option ℕ
  pub output_tokens : Option ℕ
  pub cache_read_input_tokens : Option ℕ
  pub cache_write_input_tokens : Option ℕ
  pub reasoning_output_tokens : Option ℕ

-- `subset is not None and total is not None and subset > total`
unfoldable pub exceeds : Option ℕ → Option ℕ → Bool
exceeds (some subset) (some total) = ltb total subset
exceeds _ _ = false

-- `TokenUsage.__post_init__`
unfoldable pub make_token_usage : TokenUsage → Result TokenUsage
unfolding exceeds
make_token_usage t = do
  raise_if (exceeds t.cache_read_input_tokens t.input_tokens) invalid_output
  raise_if (exceeds t.cache_write_input_tokens t.input_tokens) invalid_output
  raise_if (exceeds t.reasoning_output_tokens t.output_tokens) invalid_output
  ok t

unfoldable pub add : Option ℕ → Option ℕ → Option ℕ
add (some left) (some right) = some (left + right)
add _ _ = none

-- the fields of `TokenUsage.plus`
unfoldable pub token_usage_sum : TokenUsage → TokenUsage → TokenUsage
unfolding add
token_usage_sum a b = record {
  input_tokens = add a.input_tokens b.input_tokens;
  output_tokens = add a.output_tokens b.output_tokens;
  cache_read_input_tokens = add a.cache_read_input_tokens b.cache_read_input_tokens;
  cache_write_input_tokens = add a.cache_write_input_tokens b.cache_write_input_tokens;
  reasoning_output_tokens = add a.reasoning_output_tokens b.reasoning_output_tokens;
}

-- `TokenUsage.plus`, which runs the checks of the constructor
unfoldable pub token_usage_plus : TokenUsage → TokenUsage → Result TokenUsage
unfolding make_token_usage token_usage_sum
token_usage_plus a b = make_token_usage (token_usage_sum a b)

-- `TokenUsage.zero()`
abbrev pub zero_tokens : TokenUsage
zero_tokens = record {
  input_tokens = some 0;
  output_tokens = some 0;
  cache_read_input_tokens = some 0;
  cache_write_input_tokens = some 0;
  reasoning_output_tokens = some 0;
}

-- `TokenUsage()`
abbrev pub no_tokens : TokenUsage
no_tokens = record {
  input_tokens = none;
  output_tokens = none;
  cache_read_input_tokens = none;
  cache_write_input_tokens = none;
  reasoning_output_tokens = none;
}

pub record Cost : Type 0 where
  pub currency : String
  pub amount : Option ℕ
  pub reference_model : Option String

-- `Cost.__post_init__`
unfoldable pub make_cost : Cost → Result Cost
make_cost c = do raise_if (str_eq c.currency "") invalid_output; ok c

-- `left.reference_model == right.reference_model`
unfoldable pub same_text : Option String → Option String → Bool
same_text none none = true
same_text (some a) (some b) = str_eq a b
same_text _ _ = false

-- `Cost.combine`
unfoldable pub cost_combine : Option Cost → Option Cost → Option Cost
unfolding add same_text
cost_combine none none = none
cost_combine (some c) none = some (record c { amount = none })
cost_combine none (some c) = some (record c { amount = none })
cost_combine (some a) (some b) =
    if str_eq a.currency b.currency
    then some (record {
      currency = a.currency;
      amount = add a.amount b.amount;
      reference_model =
          if same_text a.reference_model b.reference_model then a.reference_model else none;
    })
    else some (record { currency = a.currency; amount = none; reference_model = none })

pub record ModelUsage : Type 0 where
  pub requests : ℕ
  pub tokens : TokenUsage
  pub cost : Option Cost

-- `ModelUsage.__post_init__`
unfoldable pub make_model_usage : ModelUsage → Result ModelUsage
make_model_usage m = do raise_if (ltb m.requests 1) invalid_output; ok m

-- the fields of `ModelUsage.plus`
unfoldable pub model_usage_sum : ModelUsage → ModelUsage → ModelUsage
unfolding token_usage_sum cost_combine
model_usage_sum a b = record {
  requests = a.requests + b.requests;
  tokens = token_usage_sum a.tokens b.tokens;
  cost = cost_combine a.cost b.cost;
}

-- `ModelUsage.plus`
unfoldable pub model_usage_plus : ModelUsage → ModelUsage → Result ModelUsage
unfolding token_usage_plus make_model_usage cost_combine
model_usage_plus a b = do
  tokens ← token_usage_plus a.tokens b.tokens
  make_model_usage (record {
    requests = a.requests + b.requests;
    tokens = tokens;
    cost = cost_combine a.cost b.cost;
  })

-- `usage if previous is None else previous.plus(usage)`
unfoldable pub joined : Option ModelUsage → ModelUsage → ModelUsage
unfolding model_usage_sum
joined none usage = usage
joined (some previous) usage = model_usage_sum previous usage

-- the loop of `_merge_models`, for values whose `plus` does not raise
unfoldable pub merge_into : Dict ModelUsage → Dict ModelUsage → Dict ModelUsage
unfolding insert lookup joined
merge_into merged [] = merged
merge_into merged ((model, usage) ∷ right) =
    merge_into (insert model (joined (lookup model merged) usage) merged) right

-- `sorted` of a dictionary's items: the names differ, so only they are compared
unfoldable pub name_leb : String → String → Bool
name_leb a b = elim (compare a b) [ Ordering.gt ↦ false | _ ↦ true ]

unfoldable pub insert_by_name : String × ModelUsage → Dict ModelUsage → Dict ModelUsage
unfolding name_leb
insert_by_name e [] = e ∷ []
insert_by_name e (f ∷ d) =
    let rest = insert_by_name e d in if name_leb e.0 f.0 then e ∷ f ∷ d else f ∷ rest

unfoldable pub sort_by_name : Dict ModelUsage → Dict ModelUsage
unfolding insert_by_name
sort_by_name [] = []
sort_by_name (e ∷ d) = insert_by_name e (sort_by_name d)

-- `_merge_models`
unfoldable pub merge_models : Dict ModelUsage → Dict ModelUsage → Dict ModelUsage
unfolding merge_into sort_by_name
merge_models left [] = left
merge_models left (e ∷ right) = sort_by_name (merge_into left (e ∷ right))

pub record Usage : Type 0 where
  pub model_requests : ℕ
  pub tool_calls : ℕ
  pub tokens : TokenUsage
  pub by_model : Dict ModelUsage
  pub output_retries : ℕ

-- `Usage()`
abbrev pub no_usage : Usage
no_usage = record {
  model_requests = 0;
  tool_calls = 0;
  tokens = zero_tokens;
  by_model = [];
  output_retries = 0;
}

-- `Usage.plus` on values whose parts are valid; `usage_plus` has the checks of the constructors
unfoldable pub usage_sum : Usage → Usage → Usage
unfolding token_usage_sum merge_models
usage_sum a b = record {
  model_requests = a.model_requests + b.model_requests;
  tool_calls = a.tool_calls + b.tool_calls;
  tokens = token_usage_sum a.tokens b.tokens;
  by_model = merge_models a.by_model b.by_model;
  output_retries = a.output_retries + b.output_retries;
}

unfoldable pub joined_checked : Option ModelUsage → ModelUsage → Result ModelUsage
unfolding model_usage_plus
joined_checked none usage = ok usage
joined_checked (some previous) usage = model_usage_plus previous usage

-- the loop of `_merge_models`, a failing `plus` included
unfoldable pub merge_checked : Dict ModelUsage → Dict ModelUsage → Result (Dict ModelUsage)
unfolding insert lookup joined_checked
merge_checked merged [] = ok merged
merge_checked merged ((model, usage) ∷ right) = do
  entry ← joined_checked (lookup model merged) usage
  merge_checked (insert model entry merged) right

-- `if not right: return left`, and the sorted items otherwise
unfoldable pub sorted_unless_empty :
    Dict ModelUsage → Dict ModelUsage → Dict ModelUsage → Dict ModelUsage
unfolding sort_by_name
sorted_unless_empty left [] merged = left
sorted_unless_empty left (_ ∷ _) merged = sort_by_name merged

-- `Usage.plus`
unfoldable pub usage_plus : Usage → Usage → Result Usage
unfolding token_usage_plus merge_checked sorted_unless_empty
usage_plus a b = do
  tokens ← token_usage_plus a.tokens b.tokens
  merged ← merge_checked a.by_model b.by_model
  ok (record {
    model_requests = a.model_requests + b.model_requests;
    tool_calls = a.tool_calls + b.tool_calls;
    tokens = tokens;
    by_model = sorted_unless_empty a.by_model b.by_model merged;
    output_retries = a.output_retries + b.output_retries;
  })

unfoldable pub total_cost : Option Cost → Dict ModelUsage → Option Cost
unfolding cost_combine
total_cost total [] = total
total_cost total ((_, usage) ∷ rest) = total_cost (cost_combine total usage.cost) rest

-- `Usage.cost`
unfoldable pub usage_cost : Usage → Option Cost
unfolding total_cost
usage_cost u = elim u.by_model [ [] ↦ none | e ∷ rest ↦ total_cost e.1.cost rest ]

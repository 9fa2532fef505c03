-- ===== src/Core/Budget.antt =====
-- core/budget.py: the attempts of one step, reserved before the request is sent. Tickets are
-- handed out as 1, 2, 3, … and no attempt is ever removed, so the dictionary of attempts is the
-- list of them in the order of their tickets.
pub mod Accounting
use Prim.Native.String.{count}
use foliqant.Prelude.{
  ℕ, zero, suc, ◌+◌, ◌-◌, Char, code, String, Bool, true, false, not, ◌&&◌, ◌||◌, Option, none,
  some, List, [], ◌∷◌, ◌++◌, ltb, leb, ◌==◌, if◌then◌else◌, length, get_elem?, is_some,
}
use foliqant.Core.Errors.{
  invalid_configuration, invalid_output, conflict, model_request_limit_reached,
  tool_call_limit_reached,
}
use foliqant.Core.Result.{Result, ok, err, raise, raise_if, ◌>>=◌, ◌>>◌}
use foliqant.Core.Usage.{TokenUsage, no_tokens, zero_tokens, Cost, ModelUsage, Usage, usage_plus}
use foliqant.Core.Pricing.{PricingPlan, request_cost}

pub record ModelAttempt : Type 0 where
  pub model : String
  pub pricing : Option PricingPlan
  pub usage : Option TokenUsage

pub record StepBudget : Type 0 where
  pub model_limit : ℕ
  pub tool_limit : ℕ
  pub models : List ModelAttempt
  pub tools : ℕ
  pub output_retries : ℕ

-- `StepBudget(model_requests=…, tool_calls=…)`; the limits are natural numbers
unfoldable pub new_budget : ℕ → ℕ → StepBudget
new_budget model_requests tool_calls = record {
  model_limit = model_requests;
  tool_limit = tool_calls;
  models = [];
  tools = 0;
  output_retries = 0;
}

-- the characters that `str.strip` removes
is_space : ℕ → Bool
is_space c =
    (leb 9 c && leb c 13)
    || (leb 28 c && leb c 32)
    || c == 0x85
    || c == 0xa0
    || c == 0x1680
    || (leb 0x2000 c && leb c 0x200a)
    || c == 0x2028
    || c == 0x2029
    || c == 0x202f
    || c == 0x205f
    || c == 0x3000

-- `not text.strip()`
unfoldable pub is_blank : String → Bool
unfolding is_space
is_blank String.[] = true
is_blank (String.◌∷◌ c s) = is_space (code c) && is_blank s

unfoldable pub start_model_request :
    String → Option PricingPlan → StepBudget → Result ℕ × StepBudget
unfolding is_blank
start_model_request model pricing b =
    if not (leb 1 (count model) && leb (count model) 512) || is_blank model
    then (raise invalid_configuration, b)
    else if leb b.model_limit (length b.models)
    then (raise model_request_limit_reached, b)
    else (
      ok (length b.models + 1),
      record b {
        models = b.models ++ record { model = model; pricing = pricing; usage = none } ∷ [];
      },
    )

-- the attempt of a ticket
attempt_at : ℕ → List ModelAttempt → Option ModelAttempt
attempt_at zero models = none
attempt_at (suc i) models = get_elem? models i

-- `self._models[ticket].usage = usage`
set_usage : ℕ → TokenUsage → List ModelAttempt → List ModelAttempt
set_usage zero u models = models
set_usage (suc i) u [] = []
set_usage (suc zero) u (a ∷ models) = record a { usage = some u } ∷ models
set_usage (suc (suc i)) u (a ∷ models) = a ∷ set_usage (suc i) u models

-- a ticket that no attempt has, or whose usage is known
already_closed : Option ModelAttempt → Bool
already_closed none = true
already_closed (some a) = is_some a.usage

unfoldable pub finish_model_request : ℕ → TokenUsage → StepBudget → Result (Unit {0}) × StepBudget
unfolding attempt_at set_usage already_closed
finish_model_request ticket u b =
    if already_closed (attempt_at ticket b.models)
    then (raise conflict, b)
    else (ok tt, record b { models = set_usage ticket u b.models })

unfoldable pub start_tool_call : StepBudget → Result ℕ × StepBudget
start_tool_call b =
    if leb b.tool_limit b.tools
    then (raise tool_call_limit_reached, b)
    else (ok (b.tools + 1), record b { tools = b.tools + 1 })

unfoldable pub record_output_retry : StepBudget → StepBudget
record_output_retry b = record b { output_retries = b.output_retries + 1 }

-- `attempt.pricing.request_cost(attempt.usage) if attempt.pricing else None`
attempt_cost : Option PricingPlan → Option TokenUsage → Result (Option Cost)
unfolding request_cost
attempt_cost none u = ok none
attempt_cost (some p) u = do c ← request_cost p u; ok (some c)

reported : Option TokenUsage → TokenUsage
reported none = no_tokens
reported (some u) = u

-- `Usage(1, 0, tokens, ((attempt.model, ModelUsage(1, tokens, cost)),))`
attempt_usage : String → TokenUsage → Option Cost → Usage
attempt_usage model tokens cost = record {
  model_requests = 1;
  tool_calls = 0;
  tokens = tokens;
  by_model = (model, record { requests = 1; tokens = tokens; cost = cost }) ∷ [];
  output_retries = 0;
}

-- the loop of `snapshot`
add_attempts : Usage → List ModelAttempt → Result Usage
unfolding attempt_cost reported attempt_usage usage_plus
add_attempts usage [] = ok usage
add_attempts usage (a ∷ models) = do
  cost ← attempt_cost a.pricing a.usage
  total ← usage_plus usage (attempt_usage a.model (reported a.usage) cost)
  add_attempts total models

unfoldable pub snapshot : StepBudget → Result Usage
unfolding add_attempts
snapshot b =
    add_attempts
      (record {
        model_requests = 0;
        tool_calls = b.tools;
        tokens = zero_tokens;
        by_model = [];
        output_retries = b.output_retries;
      })
      b.models

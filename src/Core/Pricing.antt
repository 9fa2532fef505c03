-- ===== src/Core/Pricing.antt =====
-- core/pricing.py: the configured price of a model request. A price is a natural number of units
-- of 10^-12 of the currency per million tokens, so that an amount in units of 10^-18 is the sum of
-- products before the source divides by a million; negative and infinite prices are excluded by
-- the type.
pub mod Estimates
use foliqant.Prelude.{
  ℕ, ◌+◌, ◌-◌, ◌*◌, String, Bool, true, false, Option, none, some, ltb, is_some, if◌then◌else◌,
}
use foliqant.Core.Result.{Result}
use foliqant.Core.Usage.{TokenUsage, Cost, make_cost}

pub record PriceTier : Type 0 where
  pub input_per_million : ℕ
  pub output_per_million : ℕ
  pub cached_input_per_million : Option ℕ

pub data Billing : Type 0 where
  output input : Billing

-- `long_context` and `long_context_threshold` are both set or both absent (`__post_init__`).
pub record PricingPlan : Type 0 where
  pub currency : String
  pub base : PriceTier
  pub reasoning_billed_as : Billing
  pub long_context_threshold : Option ℕ
  pub long_context : Option PriceTier
  pub reference_model : Option String

long_tier : Option PriceTier → Option ℕ → PriceTier → ℕ → PriceTier
long_tier (some long) (some threshold) base n = if ltb threshold n then long else base
long_tier _ _ base n = base

-- `PricingPlan.tier`
unfoldable pub tier : PricingPlan → ℕ → PriceTier
unfolding long_tier
tier p n = long_tier p.long_context p.long_context_threshold p.base n

-- `cached`, or `none` where the formula needs a count that is not there
cached_tokens : Option ℕ → Option ℕ → Option ℕ
cached_tokens none reported = some 0
cached_tokens (some _) reported = reported

reasoning_tokens : Billing → Option ℕ → Option ℕ
reasoning_tokens output reported = some 0
reasoning_tokens input reported = reported

unfoldable pub cached_price : PriceTier → ℕ
cached_price t = elim t.cached_input_per_million [ none ↦ t.input_per_million | some p ↦ p ]

-- The formula of `_amount`. The subtractions are exact: `TokenUsage` holds no more cached input
-- than input tokens, and no more reasoning than output tokens.
total : PriceTier → ℕ → ℕ → Option ℕ → Option ℕ → Option ℕ
unfolding cached_price
total t inputs outputs (some cached) (some reasoning) = some (
    (inputs - cached + reasoning) * t.input_per_million
    + cached * cached_price t
    + (outputs - reasoning) * t.output_per_million)
total t inputs outputs _ _ = none

amount_of : PricingPlan → Option ℕ → Option ℕ → Option ℕ → Option ℕ → Option ℕ
unfolding tier cached_tokens reasoning_tokens total
amount_of p (some inputs) (some outputs) cache_read reasoning =
    let t = tier p inputs in
    total t inputs outputs (cached_tokens t.cached_input_per_million cache_read)
      (reasoning_tokens p.reasoning_billed_as reasoning)
amount_of p _ _ cache_read reasoning = none

-- `_amount`
pub amount : PricingPlan → Option TokenUsage → Option ℕ
unfolding amount_of
amount p none = none
amount p (some t) =
    amount_of p t.input_tokens t.output_tokens t.cache_read_input_tokens t.reasoning_output_tokens

-- `PricingPlan.request_cost`
unfoldable pub request_cost : PricingPlan → Option TokenUsage → Result Cost
unfolding amount make_cost
request_cost p tokens = make_cost (record {
  currency = p.currency;
  amount = amount p tokens;
  reference_model = p.reference_model;
})

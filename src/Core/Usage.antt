-- ===== src/Core/Usage.antt =====
-- core/execution.py (TokenUsage, Cost, ModelUsage, Usage): measured totals of model requests and
-- tool calls. Counts are natural numbers, so the source's tests for negative counts and for other
-- types have no counterpart. An amount of money is a natural number of units of 10^-18 of the
-- currency, which holds what Python's decimal context does not round.
mod Defs
pub mod Tokens
pub mod Models
pub mod Totals
pub use Defs.{TokenUsage, Cost, ModelUsage, Usage}
unfoldable pub use Defs.{
  make_token_usage, token_usage_sum, token_usage_plus, zero_tokens, no_tokens, make_cost,
  cost_combine, make_model_usage, model_usage_sum, model_usage_plus, merge_models, merge_into,
  sort_by_name, insert_by_name, no_usage, usage_sum, usage_plus, usage_cost, exceeds, add, joined,
  joined_checked, merge_checked, total_cost,
}

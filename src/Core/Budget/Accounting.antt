-- ===== src/Core/Budget/Accounting.antt =====
-- The limits and the snapshot of core/budget.py over sequences of its operations.
use foliqant.Prelude.{
  ℕ, zero, suc, ◌+◌, ◌≤◌, String, ◌≡◌, refl, inl, inr, true, false, Option, none, some, List, [],
  ◌∷◌, ◌++◌, arith, length, length-append, Bool-cases, str_eq, lookup,
}
use foliqant.Core.Errors.{conflict}
use foliqant.Core.Result.{Result, ok, raise}
use foliqant.Core.Usage.{TokenUsage, Cost, Usage, no_usage, usage_sum, make_cost}
use foliqant.Core.Usage.Tokens.{IsConsistent}
use foliqant.Core.Usage.Totals.{IsValid, usage_plus-total, no_usage-IsValid}
use foliqant.Core.Usage.Models.{total_requests}
use foliqant.Core.Pricing.{PricingPlan, request_cost, amount}
use foliqant.Core.Budget.{
  ModelAttempt, StepBudget, new_budget, start_model_request, finish_model_request, start_tool_call,
  record_output_retry, snapshot, add_attempts, attempt_cost, attempt_usage, reported, attempt_at,
  set_usage, already_closed,
}

-- What an adapter may do to the budget that it is handed.
pub data Operation : Type 0 where
  start_model : String → Option PricingPlan → Operation
  finish_model : ℕ → TokenUsage → Operation
  start_tool : Operation
  output_retry : Operation

unfoldable pub apply : Operation → StepBudget → StepBudget
apply (start_model m p) b = (start_model_request m p b).1
apply (finish_model t u) b = (finish_model_request t u b).1
apply start_tool b = (start_tool_call b).1
apply output_retry b = record_output_retry b

unfoldable pub apply_all : List Operation → StepBudget → StepBudget
unfolding apply
apply_all [] b = b
apply_all (op ∷ ops) b = apply_all ops (apply op b)

-- The limits of the step, and the attempts within them.
pub record IsWithin (m t : ℕ) (b : StepBudget) : Type 0 where
  pub model_limit : b.model_limit ≡ m
  pub tool_limit : b.tool_limit ≡ t
  pub models : length b.models ≤ m
  pub tools : b.tools ≤ t

length-set_usage :
    (i : ℕ) (u : TokenUsage) (models : List ModelAttempt)
    → length (set_usage i u models) ≡ length models
unfolding set_usage
length-set_usage zero u models = refl
length-set_usage (suc i) u [] = refl
length-set_usage (suc zero) u (a ∷ models) = refl
length-set_usage (suc (suc i)) u (a ∷ models) = omega (arith, length-set_usage (suc i) u models)

apply-IsWithin :
    (m t : ℕ) (op : Operation) (b : StepBudget) → IsWithin m t b → IsWithin m t (apply op b)
unfolding apply start_model_request finish_model_request start_tool_call record_output_retry
apply-IsWithin m t (start_model name p) b h =
    ground (arith, length-append b.models (record { model = name; pricing = p; usage = none } ∷ []))
apply-IsWithin m t (finish_model i u) b h = ground (arith, length-set_usage i u b.models)
apply-IsWithin m t start_tool b h = ground arith
apply-IsWithin m t output_retry b h = ground arith

apply_all-IsWithin :
    (m t : ℕ) (ops : List Operation) (b : StepBudget)
    → IsWithin m t b
    → IsWithin m t (apply_all ops b)
unfolding apply_all
apply_all-IsWithin m t [] b h = h
apply_all-IsWithin m t (op ∷ ops) b h =
    apply_all-IsWithin m t ops (apply op b) (apply-IsWithin m t op b h)

-- Whatever an adapter does with a step's budget, in whatever order, the step never makes more
-- model requests or tool calls than its limits.
pub limits_hold : (m t : ℕ) (ops : List Operation) → IsWithin m t (apply_all ops (new_budget m t))
unfolding new_budget
limits_hold m t ops =
    apply_all-IsWithin m t ops _
      (record { model_limit = refl; tool_limit = refl; models = omega arith; tools = omega arith })

attempt_at_last :
    (models : List ModelAttempt) (a : ModelAttempt)
    → attempt_at (suc (length models)) (models ++ a ∷ []) ≡ some a
unfolding attempt_at
attempt_at_last [] a = refl
attempt_at_last (x ∷ models) a = attempt_at_last models a

closed-set_usage :
    (i : ℕ) (u : TokenUsage) (models : List ModelAttempt)
    → already_closed (attempt_at i (set_usage i u models)) ≡ true
unfolding attempt_at set_usage already_closed
closed-set_usage zero u models = refl
closed-set_usage (suc i) u [] = refl
closed-set_usage (suc zero) u (a ∷ models) = refl
closed-set_usage (suc (suc i)) u (a ∷ models) = closed-set_usage (suc i) u models

finish_again :
    (i : ℕ) (u v : TokenUsage) (b : StepBudget)
    → (finish_model_request i v (finish_model_request i u b).1).0 ≡ raise conflict
unfolding finish_model_request
finish_again i u v b = elim (Bool-cases (already_closed (attempt_at i b.models))) [
  | inl closed ↦ rw closed (rw closed)
  | inr opened ↦ rw opened (rw (closed-set_usage i u b.models))
]

finish_new :
    (u : TokenUsage) (a : ModelAttempt) (b : StepBudget)
    → a.usage ≡ none
    → (finish_model_request (suc (length b.models)) u (record b { models = b.models ++ a ∷ [] })).0
      ≡ ok tt
unfolding finish_model_request already_closed
finish_new u a b fresh = rw (attempt_at_last b.models a, fresh)

-- The ticket of an admitted request can be closed with its measured usage, exactly once: a second
-- report for it raises `conflict`, whatever it says.
pub ticket_closes_once :
    (model : String) (p : Option PricingPlan) (u v : TokenUsage) (b : StepBudget) {k : ℕ}
    → (start_model_request model p b).0 ≡ ok k
    → let b' = (start_model_request model p b).1 in
      ((finish_model_request k u b').0 ≡ ok tt)
      × ((finish_model_request k v (finish_model_request k u b').1).0 ≡ raise conflict)
ticket_closes_once model p u v b {k} h = (opened h, finish_again k u v _)
  where
    opened :
        (start_model_request model p b).0 ≡ ok k
        → (finish_model_request k u (start_model_request model p b).1).0 ≡ ok tt
    opened =
        unfold start_model_request in
        λ e.
          ground (arith, finish_new u (record { model = model; pricing = p; usage = none }) b refl)

-- An attempt whose cost can be stated and whose counts are consistent.
abbrev pub IsPriced : Option PricingPlan → Type 0
IsPriced none = Unit
IsPriced (some p) = str_eq p.currency "" ≡ false

abbrev pub IsMeasured : Option TokenUsage → Type 0
IsMeasured none = Unit
IsMeasured (some u) = IsConsistent u

abbrev pub AreSound : List ModelAttempt → Type 0
AreSound [] = Unit
AreSound (a ∷ models) = IsPriced a.pricing × IsMeasured a.usage × AreSound models

attempt_cost-total :
    (p : Option PricingPlan) (u : Option TokenUsage)
    → IsPriced p
    → (c : Option Cost) × (attempt_cost p u ≡ ok c)
unfolding attempt_cost request_cost make_cost
attempt_cost-total none u h = (none, refl)
attempt_cost-total (some p) u h = (
  some (record { currency = p.currency; amount = amount p u; reference_model = p.reference_model }),
  rw h,
)

reported-IsConsistent : (u : Option TokenUsage) → IsMeasured u → IsConsistent (reported u)
unfolding reported
reported-IsConsistent none h = record { cache_read = tt; cache_write = tt; reasoning = tt }
reported-IsConsistent (some u) h = h

attempt_usage-IsValid :
    (m : String) (u : TokenUsage) (c : Option Cost) → IsConsistent u → IsValid (attempt_usage m u c)
unfolding attempt_usage total_requests lookup
attempt_usage-IsValid m u c h = record {
  consistent = h;
  models = (record { some_requests = omega arith; consistent = h }, tt);
  unique = (refl, tt);
  counted = omega arith;
}

-- What a snapshot says of the attempts that it added to `u`.
pub record Counts (u : Usage) (models : List ModelAttempt) (r : Result Usage) : Type 0 where
  pub total : Usage
  pub returned : r ≡ ok total
  pub valid : IsValid total
  pub requests : total.model_requests ≡ u.model_requests + length models
  pub tool_calls : total.tool_calls ≡ u.tool_calls
  pub output_retries : total.output_retries ≡ u.output_retries

add_attempts-Counts :
    (u : Usage) (models : List ModelAttempt)
    → IsValid u
    → AreSound models
    → Counts u models (add_attempts u models)
unfolding add_attempts usage_sum attempt_usage
add_attempts-Counts u [] h s = record {
  total = u;
  returned = refl;
  valid = h;
  requests = omega arith;
  tool_calls = refl;
  output_retries = refl;
}
add_attempts-Counts u (a ∷ models) h s =
    let (cost, priced) = attempt_cost-total a.pricing a.usage s.0 in
    let one = attempt_usage a.model (reported a.usage) cost in
    let sound = attempt_usage-IsValid a.model _ cost (reported-IsConsistent a.usage s.1) in
    let (added, valid) = usage_plus-total u one h sound in
    let rest = add_attempts-Counts (usage_sum u one) models valid s.2 in
    record {
      total = rest.total;
      returned = rw priced (rw added rest.returned);
      valid = rest.valid;
      requests = omega (arith, rest.requests);
      tool_calls = omega (arith, rest.tool_calls);
      output_retries = omega (arith, rest.output_retries);
    }

-- The snapshot of a budget whose prices name a currency and whose reports are consistent does not
-- raise: it counts every attempt, every tool call and every output retry, whether or not they came
-- to an end, and its requests are those of its models.
pub snapshot_counts :
    (b : StepBudget)
    → AreSound b.models
    → (u : Usage) × (snapshot b ≡ ok u)
      × (u.model_requests ≡ length b.models)
      × (u.tool_calls ≡ b.tools)
      × (u.output_retries ≡ b.output_retries)
      × (total_requests u.by_model ≡ u.model_requests)
unfolding snapshot
snapshot_counts b s =
    let start : Usage = record no_usage {
      tool_calls = b.tools;
      output_retries = b.output_retries;
    } in
    let empty : IsValid start = record {
      consistent = no_usage-IsValid.consistent;
      models = tt;
      unique = tt;
      counted = no_usage-IsValid.counted;
    } in
    let c = add_attempts-Counts start b.models empty s in
    (
      c.total,
      c.returned,
      omega (arith, c.requests),
      c.tool_calls,
      c.output_retries,
      c.valid.counted,
    )

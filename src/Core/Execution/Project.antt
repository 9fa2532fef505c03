-- ===== src/Core/Execution/Project.antt =====
-- The JSON projections of core/execution.py. Python's `float` of a decimal is a parameter,
-- `to_float`, on the number of millionths.
use foliqant.Prelude.{
  ℕ, ◌+◌, ◌*◌, ◌/◌, ◌%◌, ◌^◌, String, Bool, true, false, not, ◌&&◌, Option, none, some, List, [],
  ◌∷◌, ltb, ◌==◌, if◌then◌else◌, Dict,
}
use foliqant.Prelude.Int.{pos}
use foliqant.Core.Errors.{Failure, invalid_output}
use foliqant.Core.Result.{Result, ok, raise_if, ◌>>=◌, ◌>>◌}
use foliqant.Core.Json.{
  Float, finite, FrozenJson, null, float, object, tuple, Items, nil, cons, Fields, end, field,
  field_insert, has_field,
}
use foliqant.Core.Bindings.{is_null}
use foliqant.Core.Usage.{Cost, ModelUsage, Usage, usage_cost}
use foliqant.Core.Execution.Records.{
  StepStatus, Origin, Selection, StepRecord, RepeatStop, FlowRun, FlowRecord, attempt_count,
  total_usage, total_elapsed_seconds,
}
use foliqant.Core.Execution.Failures.{text, number, flag, with_option, failure_value, status_value}

-- a time, as the float that Python reads
abbrev seconds : ℕ → FrozenJson
seconds t = float (finite (pos t))

-- `amount.quantize(…, rounding=ROUND_HALF_EVEN)`, in millionths
unfoldable pub round_half_even : ℕ → ℕ
round_half_even a =
    let q = a / 10 ^ 12 in
    let r = a % 10 ^ 12 in
    if ltb (2 * r) (10 ^ 12)
    then q
    else if ltb (10 ^ 12) (2 * r)
    then q + 1
    else if q % 2 == 0
    then q
    else q + 1

abbrev count_or_null : Option ℕ → FrozenJson
count_or_null none = null
count_or_null (some n) = number n

abbrev is_known : Option ℕ → Bool
is_known none = false
is_known (some _) = true

origin_value : Origin → String
origin_value Origin.model = "model"
origin_value Origin.fallback = "fallback"

-- `Selection.as_json`
unfoldable pub selection_value : Selection → FrozenJson
unfolding with_option origin_value
selection_value s = object (
    field "category"
      (object (
        with_option (field "id" (text s.category_id) end) "description" s.category_description
          text))
      (field "origin" (text (origin_value s.origin)) end))

module _ (to_float : ℕ → Float) where
  amount_value : Option ℕ → FrozenJson
  unfolding round_half_even
  amount_value none = null
  amount_value (some a) = float (to_float (round_half_even a))

  -- `value.update(cost_value(cost))`
  unfoldable pub cost_fields : Fields → Cost → Fields
  unfolding with_option amount_value field_insert
  cost_fields fs c =
      with_option
        (field_insert "currency" (text c.currency) (
          field_insert "cost_complete" (flag (is_known c.amount))
            (field_insert "cost" (amount_value c.amount) fs)))
        "reference_model" c.reference_model text

  with_cost : Fields → Option Cost → Fields
  unfolding cost_fields
  with_cost fs none = fs
  with_cost fs (some c) = cost_fields fs c

  -- `_model_usage_value`
  unfoldable pub model_usage_value : ModelUsage → FrozenJson
  unfolding with_cost
  model_usage_value m = object (
      with_cost
        (field "requests" (number m.requests) (
          field "input_tokens" (count_or_null m.tokens.input_tokens) (
            field "cached_input_tokens" (count_or_null m.tokens.cache_read_input_tokens) (
              field "output_tokens" (count_or_null m.tokens.output_tokens)
                (field "reasoning_tokens" (count_or_null m.tokens.reasoning_output_tokens) end)))))
        m.cost)

  by_model_fields : Dict ModelUsage → Fields
  unfolding model_usage_value
  by_model_fields [] = end
  by_model_fields ((m, u) ∷ rest) = field m (model_usage_value u) (by_model_fields rest)

  with_models : Fields → Dict ModelUsage → Fields
  unfolding by_model_fields field_insert
  with_models fs [] = fs
  with_models fs (e ∷ rest) = field_insert "by_model" (object (by_model_fields (e ∷ rest))) fs

  unfoldable pub usage_value : Usage → FrozenJson
  unfolding with_cost with_models usage_cost
  usage_value u =
      let tokens = field "input_tokens" (count_or_null u.tokens.input_tokens) (
        field "output_tokens" (count_or_null u.tokens.output_tokens) (
          field "cache_read_input_tokens" (count_or_null u.tokens.cache_read_input_tokens) (
            field "cache_write_input_tokens" (count_or_null u.tokens.cache_write_input_tokens) (
              field "reasoning_output_tokens" (count_or_null u.tokens.reasoning_output_tokens)
                end)))) in
      let counts = field "model_requests" (number u.model_requests) (
        field "tool_calls" (number u.tool_calls)
          (field "output_retries" (number u.output_retries) tokens)) in
      object (with_models (with_cost counts (usage_cost u)) u.by_model)

  -- `_record_value`, on the fields that steps and flows share
  unfoldable pub record_fields :
      StepStatus → FrozenJson → Bool → Option Usage → Option ℕ → Option Failure → Result Fields
  unfolding with_option usage_value failure_value
  record_fields status result has_result usage elapsed error = do
    raise_if (not has_result && not (is_null result)) invalid_output
    let shown = if has_result then some result else none
    ok (
        with_option
          (with_option
            (with_option
              (with_option (field "status" (text (status_value status)) end) "result" shown
                (λ v. v))
              "usage" usage usage_value)
            "elapsed_seconds" elapsed seconds)
          "error" error failure_value)

  collection_kind : Bool → Option String
  collection_kind true = some "flow_collection"
  collection_kind false = none

  unfoldable pub step_record_value : StepRecord → Result FrozenJson
  unfolding record_fields selection_value with_option collection_kind
  step_record_value r = do
    value ← record_fields r.status r.result r.has_result r.usage r.elapsed_seconds r.error
    ok (
        object (
          with_option
            (with_option (with_option value "selection" r.selection selection_value)
              "partial_result" r.partial_result object)
            "kind" (collection_kind r.is_collection) text))

  -- the loop of `_flow_value`
  unfoldable pub steps_fields : Fields → Dict StepRecord → Result Fields
  unfolding step_record_value field_insert
  steps_fields steps [] = ok steps
  steps_fields steps ((name, r) ∷ rest) = do
    raise_if (has_field name steps) invalid_output
    value ← step_record_value r
    steps_fields (field_insert name value steps) rest

  -- `_flow_value`
  unfoldable pub run_fields : FlowRun → Result Fields
  unfolding record_fields steps_fields field_insert
  run_fields r = do
    value ← record_fields r.status r.result r.has_result r.usage r.elapsed_seconds r.error
    steps ← steps_fields end r.steps
    ok (field_insert "steps" (object steps) value)

  -- the attempts, numbered from the given index
  unfoldable pub attempt_values : ℕ → List FlowRun → Result Items
  unfolding run_fields
  attempt_values index [] = ok nil
  attempt_values index (a ∷ rest) = do
    value ← run_fields a
    others ← attempt_values (index + 1) rest
    ok (cons (object (field "attempt" (number index) value)) others)

  stop_value : RepeatStop → String
  stop_value RepeatStop.until = "until"
  stop_value RepeatStop.exhausted = "exhausted"
  stop_value RepeatStop.continue_when = "continue_when"
  stop_value RepeatStop.review = "review"
  stop_value RepeatStop.failure = "failure"

  with_attempts : Fields → FlowRecord → List FlowRun → Result Fields
  unfolding attempt_values with_option usage_value total_usage total_elapsed_seconds field_insert
  with_attempts value r [] = ok value
  with_attempts value r (a ∷ rest) = do
    items ← attempt_values 1 (a ∷ rest)
    total ← total_usage r
    ok (
        with_option
          (with_option (field_insert "attempts" (tuple items) value) "attempts_usage" total
            usage_value)
          "attempts_elapsed_seconds" (total_elapsed_seconds r) seconds)

  unfoldable pub flow_record_value : FlowRecord → Result Fields
  unfolding run_fields with_attempts with_option stop_value attempt_count field_insert
  flow_record_value r = do
    value ← run_fields r.run
    counted ←
        with_attempts (field_insert "attempt_count" (number (attempt_count r)) value) r r.attempts
    ok (
        with_option counted "repeat" r.stopped_by
          (λ s. object (field "stopped_by" (text (stop_value s)) end)))

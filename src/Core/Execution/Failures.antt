-- ===== src/Core/Execution/Failures.antt =====
-- The JSON of failures and statuses: `ErrorCode`, `_MESSAGES` and `Failure.as_json`.
use foliqant.Prelude.{ℕ, String, Bool, Option, none, some}
use foliqant.Prelude.Int.{pos}
use foliqant.Core.Errors.{ErrorCode, FailureReason, Failure}
use foliqant.Core.Json.{FrozenJson, bool, int, str, object, Fields, end, field, field_insert}
use foliqant.Core.Execution.Records.{StepStatus}

abbrev pub text : String → FrozenJson
text = str

abbrev pub number : ℕ → FrozenJson
number n = int (pos n)

abbrev pub flag : Bool → FrozenJson
flag = bool

-- `value[key] = …` where the key is new
abbrev pub append_to : Fields → String → FrozenJson → Fields
append_to fs k v = field_insert k v fs

-- `if option is not None: value[key] = …`
unfoldable pub with_option {ℓ} :
    {A : Type ℓ} → Fields → String → Option A → (A → FrozenJson) → Fields
with_option fs k none f = fs
with_option fs k (some a) f = field_insert k (f a) fs

abbrev pub code_value : ErrorCode → String
code_value ErrorCode.invalid_configuration = "invalid_configuration"
code_value ErrorCode.invalid_input = "invalid_input"
code_value ErrorCode.invalid_output = "invalid_output"
code_value ErrorCode.invalid_tool_call = "invalid_tool_call"
code_value ErrorCode.output_limit_reached = "output_limit_reached"
code_value ErrorCode.output_refused = "output_refused"
code_value ErrorCode.context_limit_exceeded = "context_limit_exceeded"
code_value ErrorCode.request_rejected = "request_rejected"
code_value ErrorCode.model_not_found = "model_not_found"
code_value ErrorCode.unauthenticated = "unauthenticated"
code_value ErrorCode.forbidden = "forbidden"
code_value ErrorCode.not_found = "not_found"
code_value ErrorCode.missing_binding = "missing_binding"
code_value ErrorCode.request_timeout = "request_timeout"
code_value ErrorCode.run_timeout = "run_timeout"
code_value ErrorCode.step_limit_reached = "step_limit_reached"
code_value ErrorCode.model_request_limit_reached = "model_request_limit_reached"
code_value ErrorCode.iteration_limit_reached = "iteration_limit_reached"
code_value ErrorCode.tool_call_limit_reached = "tool_call_limit_reached"
code_value ErrorCode.rate_limited = "rate_limited"
code_value ErrorCode.dependency_overloaded = "dependency_overloaded"
code_value ErrorCode.dependency_failure = "dependency_failure"
code_value ErrorCode.tool_error = "tool_error"
code_value ErrorCode.tool_output_limit_exceeded = "tool_output_limit_exceeded"
code_value ErrorCode.tool_catalog_mismatch = "tool_catalog_mismatch"
code_value ErrorCode.handler_failed = "handler_failed"
code_value ErrorCode.conflict = "conflict"
code_value ErrorCode.uncertain_effect = "uncertain_effect"
code_value ErrorCode.cancelled = "cancelled"
code_value ErrorCode.capacity_exceeded = "capacity_exceeded"

-- `_MESSAGES`
abbrev pub message_of : ErrorCode → String
message_of ErrorCode.invalid_configuration = "The workflow configuration is invalid."
message_of ErrorCode.invalid_input = "The input does not satisfy the required contract."
message_of ErrorCode.invalid_output = "An operation returned an invalid result."
message_of ErrorCode.invalid_tool_call =
    "The model called an unknown tool or passed arguments that violate its schema."
message_of ErrorCode.output_limit_reached =
    "The model reached its output token limit before completing the result."
message_of ErrorCode.output_refused = "The model or its provider refused to produce the result."
message_of ErrorCode.context_limit_exceeded =
    "The model request exceeds the model's context window."
message_of ErrorCode.request_rejected = "The model provider or tool server rejected the request."
message_of ErrorCode.model_not_found = "The configured model is not available at the provider."
message_of ErrorCode.unauthenticated = "Authentication is required."
message_of ErrorCode.forbidden = "The operation is not authorized."
message_of ErrorCode.not_found = "The requested resource was not found."
message_of ErrorCode.missing_binding = "A required input binding is unavailable."
message_of ErrorCode.request_timeout = "A model, tool or handler request exceeded its timeout."
message_of ErrorCode.run_timeout = "The run exceeded its deadline."
message_of ErrorCode.step_limit_reached = "The run reached its limit of executed steps."
message_of ErrorCode.model_request_limit_reached = "The step reached its limit of model requests."
message_of ErrorCode.iteration_limit_reached =
    "The step reached its limit of model turns before a final answer."
message_of ErrorCode.tool_call_limit_reached = "The step reached its limit of tool calls."
message_of ErrorCode.rate_limited = "A dependency rejected the request because of a rate limit."
message_of ErrorCode.dependency_overloaded = "A dependency is temporarily overloaded."
message_of ErrorCode.dependency_failure = "A required dependency is unavailable."
message_of ErrorCode.tool_error = "The tool reported an error."
message_of ErrorCode.tool_output_limit_exceeded =
    "The tool result exceeds its configured size limit."
message_of ErrorCode.tool_catalog_mismatch =
    "The tool server's tools differ from the declared catalog."
message_of ErrorCode.handler_failed = "A registered handler failed unexpectedly."
message_of ErrorCode.conflict = "The request conflicts with an existing operation."
message_of ErrorCode.uncertain_effect = "An external operation requires reconciliation."
message_of ErrorCode.cancelled = "The execution was cancelled."
message_of ErrorCode.capacity_exceeded = "The service has reached its admission limit."

abbrev pub reason_value : FailureReason → String
reason_value FailureReason.json_parse_error = "json_parse_error"
reason_value FailureReason.schema_violation = "schema_violation"
reason_value FailureReason.decision_contract = "decision_contract"
reason_value FailureReason.missing_output = "missing_output"
reason_value FailureReason.reasoning_consumed_budget = "reasoning_consumed_budget"
reason_value FailureReason.answer_exceeded_budget = "answer_exceeded_budget"

-- `Failure.as_json`
unfoldable pub failure_fields : Failure → Fields
unfolding with_option
failure_fields f =
    let base =
      field "code" (text (code_value f.code))
        (field "message" (text (message_of f.code)) (field "retryable" (flag f.retryable) end)) in
    with_option
      (with_option (with_option base "reason" f.reason (λ r. text (reason_value r))) "location"
        f.location text)
      "constraint" f.constraint text

unfoldable pub failure_value : Failure → FrozenJson
unfolding failure_fields
failure_value f = object (failure_fields f)

abbrev pub status_value : StepStatus → String
status_value StepStatus.completed = "completed"
status_value StepStatus.needs_review = "needs_review"
status_value StepStatus.failed = "failed"
status_value StepStatus.cancelled = "cancelled"
status_value StepStatus.skipped = "skipped"

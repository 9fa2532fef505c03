-- ===== src/Core/Runner/Contexts.antt =====
-- The binding contexts of core/runner.py, and the check of an adapter's outcome.
pub mod Outcomes
pub mod Accepts
use Prim.Native.String.{count}
use foliqant.Prelude.{
  ℕ, ◌+◌, String, Bool, true, false, not, ◌&&◌, ◌||◌, Option, none, some, List, [], ◌∷◌, leb,
  str_eq, if◌then◌else◌, Dict, map,
}
use foliqant.Core.Errors.{Failure, invalid_output}
use foliqant.Core.Result.{Result, ok, raise, raise_if, ◌>>=◌, ◌>>◌}
use foliqant.Core.Json.{
  FrozenJson, object, tuple, Items, nil, cons, Fields, end, field, field_insert,
}
use foliqant.Core.Json.Equal.{bool_eq}
use foliqant.Core.Json.Freeze.{Raw}
use foliqant.Core.Budget.{is_blank}
use foliqant.Core.Plan.{
  DecisionIssue, no_supported_answer, conflicting_information, multiple_valid_options, StepKind,
  decision, llm, mcp, handler, flow_collection, Bindings, no_bindings, binding, CompiledStep,
  FlowPlan,
}
use foliqant.Core.Execution.{
  StepStatus, Origin, Selection, StepRecord, StepOutcome, FlowRun, FlowRecord, skipped_run,
  plain_record, status_value, text, number, with_option, failure_value, selection_value,
}
use foliqant.Core.Runner.Self.{
  Envelope, SelectionObject, malformed, selected, OutcomeObject, not_an_outcome, step_outcome,
}

shown_result : Bool → FrozenJson → Option FrozenJson
shown_result true v = some v
shown_result false v = none

kind_text : Bool → Option FrozenJson
kind_text true = some (text "flow_collection")
kind_text false = none

-- `_record_data` of a step
unfoldable pub step_data : StepRecord → FrozenJson
unfolding with_option shown_result kind_text selection_value failure_value
step_data r =
    let status = field "status" (text (status_value r.status)) end in
    let result = with_option status "result" (shown_result r.has_result r.result) (λ v. v) in
    let kind = with_option result "kind" (kind_text r.is_collection) (λ v. v) in
    let selection = with_option kind "selection" r.selection selection_value in
    let partial = with_option selection "partial_result" r.partial_result object in
    object (with_option partial "error" r.error failure_value)

attempt_data : ℕ → FlowRun → FrozenJson
unfolding with_option shown_result failure_value
attempt_data index a =
    let status =
      field "attempt" (number index) (field "status" (text (status_value a.status)) end) in
    let result = with_option status "result" (shown_result a.has_result a.result) (λ v. v) in
    object (with_option result "error" a.error failure_value)

attempts_data : ℕ → List FlowRun → Items
unfolding attempt_data
attempts_data index [] = nil
attempts_data index (a ∷ rest) = cons (attempt_data index a) (attempts_data (index + 1) rest)

all_attempts : List FlowRun → Option FrozenJson
unfolding attempts_data
all_attempts [] = none
all_attempts (a ∷ rest) = some (tuple (attempts_data 1 (a ∷ rest)))

-- `_record_data` of a flow
unfoldable pub flow_data : FlowRecord → FrozenJson
unfolding with_option shown_result failure_value all_attempts
flow_data r =
    let status = field "status" (text (status_value r.status)) end in
    let result = with_option status "result" (shown_result r.has_result r.result) (λ v. v) in
    let error = with_option result "error" r.error failure_value in
    object (with_option error "attempts" (all_attempts r.attempts) (λ v. v))

unfoldable pub steps_data : Dict StepRecord → Fields
unfolding step_data
steps_data [] = end
steps_data ((name, r) ∷ records) = field name (step_data r) (steps_data records)

unfoldable pub flows_data : Dict FlowRecord → Fields
unfolding flow_data
flows_data [] = end
flows_data ((name, r) ∷ records) = field name (flow_data r) (flows_data records)

-- `_binding_context`
unfoldable pub binding_context : Envelope → Dict StepRecord → FrozenJson
unfolding steps_data
binding_context e records = object (
    field "payload" e.payload
      (field "metadata" (object e.metadata) (field "steps" (object (steps_data records)) end)))

-- `_workflow_context`
unfoldable pub workflow_context : Envelope → Dict FlowRecord → FrozenJson
unfolding flows_data
workflow_context e records = object (
    field "payload" e.payload
      (field "metadata" (object e.metadata) (field "flows" (object (flows_data records)) end)))

-- `_step_bindings`
unfoldable pub step_bindings : StepKind → Bindings
step_bindings (decision sources) = sources
step_bindings (llm input) = input
step_bindings (mcp arguments) = arguments
step_bindings (handler input) = input
step_bindings (flow_collection items _ _) = binding "items" items no_bindings

issue_eq : DecisionIssue → DecisionIssue → Bool
issue_eq no_supported_answer no_supported_answer = true
issue_eq conflicting_information conflicting_information = true
issue_eq multiple_valid_options multiple_valid_options = true
issue_eq _ _ = false

unfoldable pub mem_issue : DecisionIssue → List DecisionIssue → Bool
unfolding issue_eq
mem_issue i [] = false
mem_issue i (j ∷ issues) = issue_eq j i || mem_issue i issues

-- the issues, if each is a known one and none is listed twice
known_issues : List (Option DecisionIssue) → Option (List DecisionIssue)
unfolding mem_issue
known_issues [] = some []
known_issues (none ∷ issues) = none
known_issues (some i ∷ issues) = elim (known_issues issues) [
  | none ↦ none
  | some rest ↦ if mem_issue i rest then none else some (i ∷ rest)
]

unfoldable pub empty_text : Option String → Bool
empty_text none = false
empty_text (some s) = str_eq s ""

unfoldable pub is_fallback : Origin → Bool
is_fallback Origin.fallback = true
is_fallback Origin.model = false

abbrev pub may_select : StepKind → Bool
may_select (decision _) = true
may_select (handler _) = true
may_select _ = false

-- the checks of a selection
valid_selection : StepKind → Bool → Option SelectionObject → Result (Option Selection)
unfolding empty_text is_fallback
valid_selection kind needs_review none = ok none
valid_selection kind needs_review (some malformed) = raise invalid_output
valid_selection kind needs_review (some (selected id description none)) = raise invalid_output
valid_selection kind needs_review (some (selected id description (some origin))) = do
  raise_if
      (not (may_select kind)
        || is_blank id
        || not (leb (count id) 128)
        || empty_text description
        || not (bool_eq needs_review (is_fallback origin)))
      invalid_output
  ok (some (record { category_id = id; category_description = description; origin = origin }))

abbrev pub no_issues : List DecisionIssue → Bool
no_issues [] = true
no_issues _ = false

abbrev flatten : Option (List (Option DecisionIssue)) → Option (List DecisionIssue)
flatten none = none
flatten (some issues) = known_issues issues

checked_outcome :
    StepKind → Bool → Option (List DecisionIssue) → Option SelectionObject → Result StepOutcome
unfolding valid_selection
checked_outcome kind needs_review none selection = raise invalid_output
checked_outcome kind needs_review (some issues) selection = do
  raise_if (not (no_issues issues) && not needs_review) invalid_output
  chosen ← valid_selection kind needs_review selection
  ok (record { needs_review = needs_review; selection = chosen; unresolved_issues = issues })

-- `_validate_outcome`; the result is checked when it is frozen
unfoldable pub validate_outcome : StepKind → OutcomeObject → Result (StepOutcome × Raw)
unfolding checked_outcome known_issues
validate_outcome kind not_an_outcome = raise invalid_output
validate_outcome kind (step_outcome result none issues selection) = raise invalid_output
validate_outcome kind (step_outcome result (some needs_review) issues selection) = do
  outcome ← checked_outcome kind needs_review (flatten issues) selection
  ok (outcome, result)

unfoldable pub is_collection : StepKind → Bool
is_collection (flow_collection _ _ _) = true
is_collection _ = false

-- `_skipped_step`
unfoldable pub skipped_step : CompiledStep → StepRecord
unfolding is_collection
skipped_step s = record {
  status = StepStatus.skipped;
  result = FrozenJson.null;
  has_result = false;
  error = none;
  elapsed_seconds = none;
  usage = none;
  selection = none;
  partial_result = none;
  is_collection = is_collection s.kind;
}

-- `{step.name: _skipped_step(step) for step in steps}` of steps with distinct names, and the same
-- as a tuple
unfoldable pub skipped_steps : List CompiledStep → Dict StepRecord
unfolding skipped_step
skipped_steps [] = []
skipped_steps (s ∷ steps) = (s.name, skipped_step s) ∷ skipped_steps steps

-- `_skipped`
unfoldable pub skipped_flow : FlowPlan → FlowRecord
unfolding skipped_steps
skipped_flow f = plain_record (skipped_run (skipped_steps f.steps))

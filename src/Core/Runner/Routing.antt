-- ===== src/Core/Runner/Routing.antt =====
-- The deterministic routing of core/runner.py: `_select`, `_start` and `_target`, and
-- `UnresolvedRoutingPlan.select` of core/plan.py.
pub mod Boundary
use mathlib.Core.Option as Option
use foliqant.Prelude.{
  ℕ, suc, ◌+◌, String, Bool, true, false, not, ◌&&◌, Option, none, some, List, [], ◌∷◌, str_eq,
  is_some, all, if◌then◌else◌, lookup,
}
use foliqant.Core.Errors.{invalid_configuration, invalid_input}
use foliqant.Core.Result.{Result, ok, raise, raise_if, ◌>>=◌, ◌>>◌}
use foliqant.Core.Json.{FrozenJson, null, str, object, end, field}
use foliqant.Core.Json.Equal.{bool_eq}
use foliqant.Core.Plan.{
  ConditionPlan, DecisionIssue, no_supported_answer, conflicting_information,
  multiple_valid_options, Outcome, completed, needs_review, TransitionTargetPlan, RouteEntryPlan,
  MatchRoutingPlan, UnresolvedRoutingPlan, Transition, ReviewRoute, Start, FlowPlan,
}
use foliqant.Core.Bindings.{resolve_binding}
use foliqant.Core.Conditions.{evaluate_condition}
use foliqant.Core.Execution.{StepStatus, RouteKind, FlowRecord, TransitionRecord, StartRecord}
use foliqant.Core.Runner.Self.{Envelope}
use foliqant.Core.Runner.Contexts.{mem_issue}

-- `_evaluate`, without the trace that is only reported
unfoldable pub evaluate : ConditionPlan → FrozenJson → Result Bool
unfolding evaluate_condition
evaluate condition context = (evaluate_condition condition context []).0

unfoldable pub entry_holds : Option ConditionPlan → FrozenJson → Result Bool
unfolding evaluate
entry_holds none context = ok true
entry_holds (some condition) context = evaluate condition context

-- `_select`, from the entry with the given index
unfoldable pub select : ℕ → List RouteEntryPlan → FrozenJson → Result (TransitionTargetPlan × ℕ)
unfolding entry_holds
select index [] context = raise invalid_configuration
select index (e ∷ entries) context = do
  holds ← entry_holds e.when context
  elim holds [ true ↦ ok (e.target, index) | false ↦ select (index + 1) entries context ]

unfoldable pub issue_value : DecisionIssue → String
issue_value no_supported_answer = "no_supported_answer"
issue_value conflicting_information = "conflicting_information"
issue_value multiple_valid_options = "multiple_valid_options"

same_option : Option String → Option String → Bool
same_option none none = true
same_option (some a) (some b) = str_eq a b
same_option _ _ = false

outcome_value : Outcome → String
outcome_value completed = "completed"
outcome_value needs_review = "needs_review"

-- `==` of targets
unfoldable pub same_target : TransitionTargetPlan → TransitionTargetPlan → Bool
unfolding same_option outcome_value
same_target a b =
    same_option a.flow b.flow
    && same_option (Option.map outcome_value a.outcome) (Option.map outcome_value b.outcome)

-- `dict(self.issues).get(issue)`, where the last of equal keys counts
unfoldable pub route_of :
    List (DecisionIssue × TransitionTargetPlan) → DecisionIssue → Option TransitionTargetPlan
unfolding mem_issue
route_of [] issue = none
route_of ((key, target) ∷ routes) issue = elim (route_of routes issue) [
  | some found ↦ some found
  | none ↦ if mem_issue issue (key ∷ []) then some target else none
]

or_else : TransitionTargetPlan → Option TransitionTargetPlan → TransitionTargetPlan
or_else default none = default
or_else default (some t) = t

-- the targets of the issues
unfoldable pub issue_targets :
    UnresolvedRoutingPlan → List DecisionIssue → List TransitionTargetPlan
unfolding route_of or_else
issue_targets u [] = []
issue_targets u (i ∷ issues) = or_else u.default (route_of u.issues i) ∷ issue_targets u issues

routed_to : TransitionTargetPlan → Option TransitionTargetPlan → Bool
unfolding same_target
routed_to target none = false
routed_to target (some t) = same_target t target

-- the first issue whose own route is the target
unfoldable pub issue_to :
    UnresolvedRoutingPlan → TransitionTargetPlan → List DecisionIssue → Option DecisionIssue
unfolding routed_to route_of
issue_to u target [] = none
issue_to u target (i ∷ issues) =
    let rest = issue_to u target issues in
    if routed_to target (route_of u.issues i) then some i else rest

-- the selection, from the targets of the issues; the set of them has one element if all are equal
agreed :
    UnresolvedRoutingPlan
    → List DecisionIssue
    → List TransitionTargetPlan
    → TransitionTargetPlan × Option DecisionIssue
unfolding same_target issue_to
agreed u issues [] = (u.default, none)
agreed u issues (t ∷ targets) =
    if all (same_target t) targets then (t, issue_to u t issues) else (u.default, none)

-- `UnresolvedRoutingPlan.select`
unfoldable pub select_issue :
    UnresolvedRoutingPlan → List DecisionIssue → TransitionTargetPlan × Option DecisionIssue
unfolding issue_targets agreed
select_issue u issues = agreed u issues (issue_targets u issues)

issue_case : TransitionTargetPlan × Option DecisionIssue → TransitionTargetPlan × Option String
unfolding issue_value
issue_case (target, issue) = (target, Option.map issue_value issue)

flow_of : Option String → Result String
flow_of none = raise invalid_configuration
flow_of (some f) = ok f

start_context : Envelope → FrozenJson
start_context e = object (field "payload" e.payload (field "metadata" (object e.metadata) end))

-- `_start`
unfoldable pub select_start : Start → Envelope → Result StartRecord
unfolding select flow_of start_context
select_start (Start.direct f) e =
    ok (record { flow = f; route_kind = RouteKind.direct; route_index = none })
select_start (Start.route entries) e = do
  (target, index) ← select 0 entries (start_context e)
  f ← flow_of target.flow
  ok (record { flow = f; route_kind = RouteKind.route; route_index = some index })

-- A selected target, with how it was selected.
pub record Selected : Type 0 where
  pub target : TransitionTargetPlan
  pub route_kind : RouteKind
  pub route_index : Option ℕ
  pub route_case : Option String

by_index : RouteKind → TransitionTargetPlan × ℕ → Selected
by_index kind (target, index) = record {
  target = target;
  route_kind = kind;
  route_index = some index;
  route_case = none;
}

directly : RouteKind → TransitionTargetPlan → Selected
directly kind target = record {
  target = target;
  route_kind = kind;
  route_index = none;
  route_case = none;
}

by_case : RouteKind → TransitionTargetPlan × Option String → Selected
by_case kind (target, case) = record {
  target = target;
  route_kind = kind;
  route_index = none;
  route_case = case;
}

review_target : Option ReviewRoute → List DecisionIssue → FrozenJson → Result Selected
unfolding directly by_case by_index select_issue issue_case select
review_target none issues context =
    ok (directly RouteKind.review (record { flow = none; outcome = some needs_review }))
review_target (some (ReviewRoute.direct target)) issues context =
    ok (directly RouteKind.review target)
review_target (some (ReviewRoute.issues u)) issues context =
    ok (by_case RouteKind.review (issue_case (select_issue u issues)))
review_target (some (ReviewRoute.route entries)) issues context = do
  chosen ← select 0 entries context
  ok (by_index RouteKind.review chosen)

-- `dict(cases).get(value)`, where the last of equal keys counts
find_case : String → List (String × TransitionTargetPlan) → Option TransitionTargetPlan
find_case value [] = none
find_case value ((key, target) ∷ cases) = elim (find_case value cases) [
  | some found ↦ some found
  | none ↦ if str_eq key value then some target else none
]

case_target : MatchRoutingPlan → FrozenJson → Result (TransitionTargetPlan × Option String)
unfolding find_case
case_target m null = ok (m.default, none)
case_target m (str value) = elim (find_case value m.cases) [
  | some target ↦ ok (target, some value)
  | none ↦ ok (m.default, none)
]
case_target m _ = raise invalid_input

transition_target : Option Transition → FrozenJson → Result Selected
unfolding directly by_case by_index case_target select resolve_binding
transition_target none context = raise invalid_configuration
transition_target (some (Transition.direct target)) context = ok (directly RouteKind.direct target)
transition_target (some (Transition.cases m)) context = do
  value ← resolve_binding m.binding context
  chosen ← case_target m value
  ok (by_case RouteKind.cases chosen)
transition_target (some (Transition.route entries)) context = do
  chosen ← select 0 entries context
  ok (by_index RouteKind.route chosen)

unfoldable pub is_completed : Option Outcome → Bool
is_completed (some completed) = true
is_completed _ = false

unfoldable pub is_review : StepStatus → Bool
is_review StepStatus.needs_review = true
is_review _ = false

-- the two branches of `_target`
unfoldable pub selected_target :
    FlowPlan → StepStatus → List DecisionIssue → FrozenJson → Result Selected
unfolding is_review review_target transition_target is_completed
selected_target flow status issues context =
    if is_review status
    then (do
      chosen ← review_target flow.on_unresolved issues context
      raise_if (is_completed chosen.target.outcome) invalid_configuration
      ok chosen)
    else transition_target flow.transition context

-- the end of `_target`: the check of the target, and its record
checked_target : FlowPlan → StepStatus → Selected → Result (TransitionTargetPlan × TransitionRecord)
unfolding is_review
checked_target flow status s = do
  raise_if (bool_eq (is_some s.target.flow) (is_some s.target.outcome)) invalid_configuration
  ok (
    s.target,
    record {
      source = flow.name;
      reason = if is_review status then needs_review else completed;
      flow = s.target.flow;
      outcome = s.target.outcome;
      route_kind = s.route_kind;
      route_index = s.route_index;
      route_case = s.route_case;
    },
  )

-- `_target`
unfoldable pub boundary_target :
    FlowPlan
    → StepStatus
    → List DecisionIssue
    → FrozenJson
    → Result (TransitionTargetPlan × TransitionRecord)
unfolding selected_target checked_target
boundary_target flow status issues context = do
  s ← selected_target flow status issues context
  checked_target flow status s

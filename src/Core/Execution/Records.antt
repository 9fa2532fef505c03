-- ===== src/Core/Execution/Records.antt =====
-- The records of core/execution.py. An attempt has no attempts of its own, so a flow record is one
-- run together with the runs that it summarises.
use foliqant.Prelude.{ℕ, ◌+◌, String, Bool, false, Option, none, some, List, [], ◌∷◌, length, Dict}
use foliqant.Core.Errors.{Failure}
use foliqant.Core.Json.{FrozenJson, null, Fields}
use foliqant.Core.Plan.{DecisionIssue, Outcome}
use foliqant.Core.Usage.{Usage, no_usage, usage_plus}
use foliqant.Core.Result.{Result, ok, ◌>>=◌}

pub data RunStatus : Type 0 where
  completed needs_review failed cancelled : RunStatus

pub data StepStatus : Type 0 where
  completed needs_review failed cancelled skipped : StepStatus

pub data Origin : Type 0 where
  model fallback : Origin

-- `category` is its two fields
pub record Selection : Type 0 where
  pub category_id : String
  pub category_description : Option String
  pub origin : Origin

-- `is_collection` is `kind == "flow_collection"`
pub record StepRecord : Type 0 where
  pub status : StepStatus
  pub result : FrozenJson
  pub has_result : Bool
  pub error : Option Failure
  pub elapsed_seconds : Option ℕ
  pub usage : Option Usage
  pub selection : Option Selection
  pub partial_result : Option Fields
  pub is_collection : Bool

pub record StepOutcome : Type 0 where
  pub needs_review : Bool
  pub selection : Option Selection
  pub unresolved_issues : List DecisionIssue

pub data RepeatStop : Type 0 where
  until exhausted continue_when review failure : RepeatStop

pub record FlowRun : Type 0 where
  pub status : StepStatus
  pub steps : Dict StepRecord
  pub result : FrozenJson
  pub has_result : Bool
  pub usage : Option Usage
  pub elapsed_seconds : Option ℕ
  pub error : Option Failure

pub record FlowRecord : Type 0 where
  pub run : FlowRun
  pub open run use *
  pub attempts : List FlowRun
  pub stopped_by : Option RepeatStop

-- a run that is no repeat
abbrev pub plain_record : FlowRun → FlowRecord
plain_record r = record { run = r; attempts = []; stopped_by = none }

-- `FlowRecord(status, steps)` of a flow that did not run
abbrev pub skipped_run : Dict StepRecord → FlowRun
skipped_run steps = record {
  status = StepStatus.skipped;
  steps = steps;
  result = null;
  has_result = false;
  usage = none;
  elapsed_seconds = none;
  error = none;
}

runs_of : StepStatus → ℕ
runs_of StepStatus.skipped = 0
runs_of _ = 1

-- `attempt_count`
unfoldable pub attempt_count : FlowRecord → ℕ
unfolding runs_of
attempt_count r = elim r.attempts [ [] ↦ runs_of r.status | a ∷ rest ↦ length (a ∷ rest) ]

-- the loop of `total_usage`
unfoldable pub sum_usages : Usage → List FlowRun → Result Usage
unfolding usage_plus
sum_usages total [] = ok total
sum_usages total (a ∷ rest) = do
  next ← elim a.usage [ none ↦ ok total | some u ↦ usage_plus total u ]
  sum_usages next rest

-- `total_usage`
unfoldable pub total_usage : FlowRecord → Result (Option Usage)
unfolding sum_usages
total_usage r = elim r.attempts [
  | [] ↦ ok r.usage
  | a ∷ rest ↦ (do total ← sum_usages no_usage (a ∷ rest); ok (some total))
]

unfoldable pub sum_elapsed : List FlowRun → ℕ
sum_elapsed [] = 0
sum_elapsed (a ∷ rest) = elim a.elapsed_seconds [ none ↦ 0 | some t ↦ t ] + sum_elapsed rest

-- `total_elapsed_seconds`
unfoldable pub total_elapsed_seconds : FlowRecord → Option ℕ
unfolding sum_elapsed
total_elapsed_seconds r = elim r.attempts [
  | [] ↦ r.elapsed_seconds
  | a ∷ rest ↦ some (sum_elapsed (a ∷ rest))
]

pub data RouteKind : Type 0 where
  direct cases route review : RouteKind

-- `reason` is the outcome with which the source flow was left
pub record TransitionRecord : Type 0 where
  pub source : String
  pub reason : Outcome
  pub flow : Option String
  pub outcome : Option Outcome
  pub route_kind : RouteKind
  pub route_index : Option ℕ
  pub route_case : Option String

pub record StartRecord : Type 0 where
  pub flow : String
  pub route_kind : RouteKind
  pub route_index : Option ℕ

-- Without the execution id and the trace ids, which are opaque texts.
pub record RunResult : Type 0 where
  pub workflow : String
  pub revision : String
  pub status : RunStatus
  pub payload : FrozenJson
  pub metadata : Fields
  pub flows : Dict FlowRecord
  pub usage : Usage
  pub error : Option Failure
  pub transitions : List TransitionRecord
  pub start : Option StartRecord

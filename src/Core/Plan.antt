-- ===== src/Core/Plan.antt =====
-- core/plan.py: the compiled workflow, as far as the engine reads it. Not kept are source
-- locations, diagnostics, schemas and the fields that only the step adapters read (prompts,
-- instructions, tools, questions).
use foliqant.Prelude.{ℕ, String, Bool, Option, none, some, List, [], ◌∷◌, str_eq, if◌then◌else◌}
use foliqant.Core.Json.{FrozenJson}

pub data BindingKind : Type 0 where
  pointer literal first_of fields : BindingKind

-- `BindingPlan` and the tuples of named bindings that it holds. The fields of `plan` are `kind`,
-- `pointer`, `literal`, `has_default`, `default`, `members` and `fields`.
mutual
  pub data BindingPlan : Type 0 where
    plan :
        BindingKind
        → Option String
        → FrozenJson
        → Bool
        → FrozenJson
        → List String
        → Bindings
        → BindingPlan

  pub data Bindings : Type 0 where
    no_bindings : Bindings
    binding : String → BindingPlan → Bindings → Bindings

pub data ConditionOperator : Type 0 where
  present empty equals not_equals in_list not_in gt gte lt lte matches length : ConditionOperator

-- `comparison` of a `length` leaf
pub data Comparison : Type 0 where
  gt gte lt lte equals : Comparison

-- A compiled pattern is what `fullmatch` says of each text.
abbrev pub Pattern : Type 0
Pattern = String → Bool

pub record LeafConditionPlan : Type 0 where
  pub source : BindingPlan
  pub operator : ConditionOperator
  pub operand : FrozenJson
  pub comparison : Option Comparison
  pub pattern : Option Pattern

mutual
  pub data ConditionPlan : Type 0 where
    leaf : LeafConditionPlan → ConditionPlan
    all_of : Conditions → ConditionPlan
    any_of : Conditions → ConditionPlan
    not_of : ConditionPlan → ConditionPlan

  pub data Conditions : Type 0 where
    no_conditions : Conditions
    condition : ConditionPlan → Conditions → Conditions

pub data DecisionIssue : Type 0 where
  no_supported_answer conflicting_information multiple_valid_options : DecisionIssue

-- a terminal disposition
pub data Outcome : Type 0 where
  completed needs_review : Outcome

-- `flow` and `outcome` are independent fields in the source; the engine checks that one is set.
pub record TransitionTargetPlan : Type 0 where
  pub flow : Option String
  pub outcome : Option Outcome

pub record RouteEntryPlan : Type 0 where
  pub target : TransitionTargetPlan
  pub when : Option ConditionPlan

pub record MatchRoutingPlan : Type 0 where
  pub binding : BindingPlan
  pub cases : List (String × TransitionTargetPlan)
  pub default : TransitionTargetPlan

pub record UnresolvedRoutingPlan : Type 0 where
  pub default : TransitionTargetPlan
  pub issues : List (DecisionIssue × TransitionTargetPlan)

-- the three forms of `transition`; `route` is a `ConditionalRoutingPlan`
pub data Transition : Type 0 where
  direct : TransitionTargetPlan → Transition
  cases : MatchRoutingPlan → Transition
  route : List RouteEntryPlan → Transition

-- the three forms of `on_unresolved`
pub data ReviewRoute : Type 0 where
  direct : TransitionTargetPlan → ReviewRoute
  issues : UnresolvedRoutingPlan → ReviewRoute
  route : List RouteEntryPlan → ReviewRoute

-- the two forms of `start`
pub data Start : Type 0 where
  direct : String → Start
  route : List RouteEntryPlan → Start

pub record RepeatPlan : Type 0 where
  pub max_attempts : ℕ
  pub until : ConditionPlan
  pub retry_flow : Option String
  pub retry_flow_input : Bindings
  pub continue_when : Option ConditionPlan
  pub retry_input : Bindings

-- What distinguishes the kinds of steps: the bindings of their input, and a collection's bounds.
pub data StepKind : Type 0 where
  decision llm mcp handler : Bindings → StepKind
  flow_collection : BindingPlan → List String → ℕ → StepKind

pub record CompiledStep : Type 0 where
  pub name : String
  pub when : Option ConditionPlan
  pub kind : StepKind

pub record FlowPlan : Type 0 where
  pub name : String
  pub input : Bindings
  pub steps : List CompiledStep
  pub output : Option BindingPlan
  pub transition : Option Transition
  pub on_unresolved : Option ReviewRoute
  pub callable : Bool
  pub repeat : Option RepeatPlan

pub record WorkflowPlan : Type 0 where
  pub name : String
  pub revision : String
  pub start : Start
  pub output : Option BindingPlan
  pub flows : List FlowPlan

abbrev pub max_collection_depth : ℕ
max_collection_depth = 16

-- `FlowPlan.step`; `none` is the `KeyError`
unfoldable pub find_step : String → List CompiledStep → Option CompiledStep
find_step name [] = none
find_step name (s ∷ steps) = if str_eq s.name name then some s else find_step name steps

-- `WorkflowPlan.flow`
unfoldable pub find_flow : String → List FlowPlan → Option FlowPlan
find_flow name [] = none
find_flow name (f ∷ flows) = if str_eq f.name name then some f else find_flow name flows

-- ===== src/Core/Runner/Collection/Ledger.antt =====
-- The ledger of `_execute_collection` of core/runner.py, against the batch that was given.
use foliqant.Prelude.{◌≡◌, String, Option, none, some, List, [], ◌∷◌}
use foliqant.Core.Json.{
  FrozenJson, str, tuple, object, Items, nil, cons, Fields, field, end, field_lookup,
}
use foliqant.Core.Result.{◌>>◌}
use foliqant.Core.Usage.{Usage}
use foliqant.Core.Plan.{DecisionIssue}
use foliqant.Core.Execution.{StepRecord, FlowRun}
use foliqant.Core.Exec.Yields.{Yields}
use foliqant.Core.Runner.Self.{WorkflowRunner}
use foliqant.Core.Runner.Ports.{Run}
use foliqant.Core.Runner.Flow.{FlowCall, Batch}
use foliqant.Core.Runner.Items.{BatchItem, Caller}

-- the value of a key, in an object
abbrev pub member : String → FrozenJson → Option FrozenJson
member key (object fs) = field_lookup key fs
member key _ = none

-- An entry of the ledger has the id and the flow of a given value.
pub record IsShown (given shown : FrozenJson) : Type 0 where
  pub id : String
  pub flow : String
  pub given_id : member "id" given ≡ some (str id)
  pub given_flow : member "flow" given ≡ some (str flow)
  pub shown_id : member "id" shown ≡ some (str id)
  pub shown_flow : member "flow" shown ≡ some (str flow)

-- one entry for each value, in their order
abbrev pub AreShown : Items → Items → Type 0
AreShown nil nil = Unit
AreShown nil (cons _ _) = ⊥
AreShown (cons _ _) nil = ⊥
AreShown (cons v given) (cons w shown) = IsShown v w × AreShown given shown

-- the ledger of a collection's record: its result, or its partial result
abbrev pub ledger_of : StepRecord → Option Fields
ledger_of r = elim r.partial_result [
  | some fs ↦ some fs
  | none ↦ elim r.result [ object fs ↦ some fs | _ ↦ none ]
]

-- A collection's record shows the items that its inputs give.
pub record IsLedger (inputs : Fields) (r : StepRecord) : Type 0 where
  pub given : Items
  pub shown : Items
  pub inputs_are : field_lookup "items" inputs ≡ some (tuple given)
  pub ledger_is : ledger_of r ≡ some (field "items" (tuple shown) end)
  pub all_shown : AreShown given shown

-- an entry of the ledger names its item
abbrev Names : List BatchItem → Items → Type 0
Names [] nil = Unit
Names [] (cons _ _) = ⊥
Names (_ ∷ _) nil = ⊥
Names (i ∷ items) (cons w shown) =
    (member "id" w ≡ some (str i.id))
    × (member "flow" w ≡ some (str i.flow.name))
    × Names items shown

module _ (self : WorkflowRunner) where
  module _ (execute_flow : FlowCall → Run self (FlowRun × List DecisionIssue)) where
    abbrev ShowsAll : Fields → Fields → Type 0
    ShowsAll inputs fs =
        (given shown : Items) × (field_lookup "items" inputs ≡ some (tuple given))
        × (fs ≡ field "items" (tuple shown) end)
        × AreShown given shown

    abbrev caller_of : Batch → Caller
    caller_of b = record { metadata = b.metadata; identity = b.identity; deadline = b.deadline }

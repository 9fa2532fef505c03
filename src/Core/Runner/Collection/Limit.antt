-- ===== src/Core/Runner/Collection/Limit.antt =====
-- The step limit in `_execute_collection`, and so in every flow at every depth.
use foliqant.Prelude.{ℕ, zero, suc, ◌-◌, String, Option, none, some, List, [], ◌∷◌}
use foliqant.Core.Json.{Items, nil, cons}
use foliqant.Core.Usage.{Usage}
use foliqant.Core.Plan.{DecisionIssue, max_collection_depth}
use foliqant.Core.Execution.{StepStatus, FlowRun}
use foliqant.Core.Exec.Keeps.{Keeps, keeps_rules, Keeps-bind, Keeps-pure}
use foliqant.Core.Runner.Self.{WorkflowRunner}
use foliqant.Core.Runner.Ports.{Run}
use foliqant.Core.Runner.Ports.Limit.{Counts, IsWithin, now-IsWithin, check_deadline-IsWithin}
use foliqant.Core.Runner.Flow.{FlowCall, Batch}
use foliqant.Core.Runner.Flow.Limit.{execute_flow_with-IsWithin}
use foliqant.Core.Runner.Items.{BatchItem, Caller}
use foliqant.Core.Runner.Items.Limit.{run_item-IsWithin}
use foliqant.Core.Runner.Batches.{ItemValue}
use foliqant.Core.Runner.Collection.{
  accept_item, accept_items, add_total, run_items, run_batch, collection_record, execute_collection,
  too_deep, execute_flow_within, execute_flow,
}

module _ (self : WorkflowRunner) (calls : self.World → ℕ) (counts : Counts self calls)
    (base : ℕ) where
  accept_item-IsWithin : (i : ItemValue) → Keeps (IsWithin self calls base) (accept_item self i)
  unfolding accept_item
  accept_item-IsWithin i = search keeps_rules depth 12

  accept_items-IsWithin :
      (flows : List String) (deadline : ℕ) (seen : List String) (items : Items)
      → Keeps (IsWithin self calls base) (accept_items self flows deadline seen items)
  unfolding accept_items
  accept_items-IsWithin flows deadline seen nil = search keeps_rules
  accept_items-IsWithin flows deadline seen (cons v rest) =
      search
        (
          keeps_rules,
          check_deadline-IsWithin self calls counts base,
          accept_item-IsWithin,
          λ (s : List String). accept_items-IsWithin flows deadline s rest,
        )
        depth 12

  add_total-IsWithin :
      (usage : Usage) (total : Option Usage)
      → Keeps (IsWithin self calls base) (add_total self usage total)
  unfolding add_total
  add_total-IsWithin usage none = search keeps_rules
  add_total-IsWithin usage (some total) = search keeps_rules

  module _ (execute_flow : FlowCall → Run self (FlowRun × List DecisionIssue))
      (inner : (c : FlowCall) → Keeps (IsWithin self calls base) (execute_flow c)) where
    run_items-IsWithin :
        (caller : Caller) (index : ℕ) (usage : Usage) (status : StepStatus) (items : List BatchItem)
        → Keeps
            (IsWithin self calls base)
            (run_items self execute_flow caller index usage status items)
    unfolding run_items
    run_items-IsWithin caller index usage status [] = search keeps_rules
    run_items-IsWithin caller index usage status (i ∷ items) =
        search
          (
            keeps_rules,
            run_item-IsWithin self calls counts base execute_flow inner,
            add_total-IsWithin,
            λ (n : ℕ) (u : Usage) (s : StepStatus). run_items-IsWithin caller n u s items,
          )
          depth 16

    run_batch-IsWithin :
        (b : Batch) → Keeps (IsWithin self calls base) (run_batch self execute_flow b)
    unfolding run_batch
    run_batch-IsWithin b = search (keeps_rules, accept_items-IsWithin, run_items-IsWithin) depth 16

    execute_collection-IsWithin :
        (b : Batch) → Keeps (IsWithin self calls base) (execute_collection self execute_flow b)
    unfolding execute_collection
    execute_collection-IsWithin b = Keeps-bind _ _ (now-IsWithin self calls counts base) (λ started.
        Keeps-bind _ _ (run_batch-IsWithin b) (λ (r, shown).
          Keeps-bind _ _ (now-IsWithin self calls counts base)
            (λ t. Keeps-pure (collection_record self execute_flow r shown (t - started)))))

  too_deep-IsWithin : (b : Batch) → Keeps (IsWithin self calls base) (too_deep self b)
  unfolding too_deep
  too_deep-IsWithin b = search (keeps_rules, now-IsWithin self calls counts base)

  execute_flow_within-IsWithin :
      (depth : ℕ) (c : FlowCall)
      → Keeps (IsWithin self calls base) (execute_flow_within self depth c)
  unfolding execute_flow_within
  execute_flow_within-IsWithin zero c =
      execute_flow_with-IsWithin self calls counts base (too_deep self) too_deep-IsWithin c
  execute_flow_within-IsWithin (suc depth) c =
      execute_flow_with-IsWithin self calls counts base
        (execute_collection self (execute_flow_within self depth))
        (execute_collection-IsWithin (execute_flow_within self depth)
          (execute_flow_within-IsWithin depth))
        c

  pub execute_flow-IsWithin :
      (c : FlowCall) → Keeps (IsWithin self calls base) (execute_flow self c)
  unfolding execute_flow
  execute_flow-IsWithin c = execute_flow_within-IsWithin max_collection_depth c

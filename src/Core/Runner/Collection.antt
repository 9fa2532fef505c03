-- ===== src/Core/Runner/Collection.antt =====
-- `WorkflowRunner._execute_collection`: the checks of a batch, and the loop over its items.
pub mod Limit
pub mod Accepted
pub mod Ledger
use foliqant.Prelude.{
  ℕ, zero, suc, ◌+◌, ◌-◌, String, Bool, true, false, not, ◌||◌, Option, none, some, List, [], ◌∷◌,
  is_some, if◌then◌else◌,
}
use foliqant.Core.Errors.{ErrorCode, invalid_configuration, Failure}
use foliqant.Core.Json.{null, object, Items, nil, cons, Fields}
use foliqant.Core.Usage.{Usage, no_usage, usage_plus}
use foliqant.Core.Plan.{DecisionIssue, FlowPlan, find_flow, max_collection_depth}
use foliqant.Core.Execution.{StepStatus, StepRecord, FlowRun, FlowRecord, total_usage}
use foliqant.Core.Result.{Result, ok}
use foliqant.Core.Exec.{Exec, pure, ◌>>=◌, ◌>>◌, raise_code, raise_when, lift, or_raise}
use foliqant.Core.Runner.Self.{WorkflowRunner}
use foliqant.Core.Runner.Contexts.{skipped_flow}
use foliqant.Core.Runner.Ports.{Run, now, check_deadline, check_flow_input}
use foliqant.Core.Runner.Flow.{FlowCall, Batch, execute_flow_with}
use foliqant.Core.Runner.Items.{BatchItem, ItemRun, Caller, run_item}
use foliqant.Core.Runner.Batches.{batch_items, ItemValue, parse_item, Entry, ledger}

-- What the loop over the items leaves behind.
pub record BatchRun : Type 0 where
  pub entries : List Entry
  pub usage : Usage
  pub status : StepStatus
  pub failure : Option Failure

unfoldable pub skipped_entries : List BatchItem → List Entry
unfolding skipped_flow
skipped_entries [] = []
skipped_entries (i ∷ items) =
    (record { item = i; done = skipped_flow i.flow; retry = none }) ∷ skipped_entries items

unfoldable pub failed_status : StepStatus → Bool
failed_status StepStatus.failed = true
failed_status _ = false

abbrev first_failure : Option Failure → Option Failure → Option Failure
first_failure (some f) _ = some f
first_failure none e = e

after_item : StepStatus → StepStatus → StepStatus
after_item StepStatus.needs_review status = StepStatus.needs_review
after_item _ status = status

module _ (self : WorkflowRunner) where
  -- the rest of one item's checks: the flow it names, and the input that flow takes
  accept_item : ItemValue → Run self BatchItem
  unfolding find_flow
  accept_item i = do
    flow ← or_raise (find_flow i.flow self.plan.flows) invalid_configuration
    raise_when (not flow.callable) invalid_configuration
    check_flow_input self i.flow i.payload
    pure (record { id = i.id; flow = flow; payload = i.payload })

  unfoldable pub accept_items : List String → ℕ → List String → Items → Run self (List BatchItem)
  unfolding check_deadline parse_item accept_item
  accept_items flows deadline seen nil = pure []
  accept_items flows deadline seen (cons v rest) = do
    check_deadline self deadline
    value ← lift (parse_item flows seen v)
    i ← accept_item value
    others ← accept_items flows deadline (value.id ∷ seen) rest
    pure (i ∷ others)

  -- `if used is not None: usage = usage.plus(used)`
  add_total : Usage → Option Usage → Run self Usage
  unfolding usage_plus
  add_total usage none = pure usage
  add_total usage (some total) = lift (usage_plus usage total)

  -- `retry.total_usage`, where there is a retry flow's record
  retry_usage : Option FlowRecord → Result (Option Usage)
  unfolding total_usage
  retry_usage none = ok none
  retry_usage (some r) = total_usage r

  module _ (execute_flow : FlowCall → Run self (FlowRun × List DecisionIssue)) where
    -- the loop over the items, which stops at the first failure
    unfoldable pub run_items : Caller → ℕ → Usage → StepStatus → List BatchItem → Run self BatchRun
    unfolding run_item add_total retry_usage total_usage failed_status skipped_entries after_item
    run_items caller index usage status [] =
        pure (record { entries = []; usage = usage; status = status; failure = none })
    run_items caller index usage status (i ∷ items) = do
      r ← run_item self execute_flow caller index i
      used ← lift (total_usage r.done)
      first ← add_total usage used
      retried ← lift (retry_usage r.retry)
      total ← add_total first retried
      if failed_status r.done.status || is_some r.failure
          then pure (record {
            entries = (record { item = i; done = r.done; retry = r.retry }) ∷ skipped_entries items;
            usage = total;
            status = StepStatus.failed;
            failure = first_failure r.failure r.done.error;
          })
          else (do
            rest ← run_items caller (index + 1) total (after_item r.done.status status) items
            pure (record rest {
              entries = (record { item = i; done = r.done; retry = r.retry }) ∷ rest.entries;
            }))

    unfoldable pub collection_record : BatchRun → Fields → ℕ → StepRecord
    unfolding failed_status
    collection_record b shown elapsed = record {
      status = b.status;
      result = if failed_status b.status then null else object shown;
      has_result = not (failed_status b.status);
      error = b.failure;
      elapsed_seconds = some elapsed;
      usage = some b.usage;
      selection = none;
      partial_result = if failed_status b.status then some shown else none;
      is_collection = true;
    }

    -- the batch, accepted and run, and its ledger
    unfoldable pub run_batch : Batch → Run self (BatchRun × Fields)
    unfolding batch_items accept_items run_items ledger
    run_batch b = do
      raw ← lift (batch_items b.inputs b.max_items)
      items ← accept_items b.flows b.deadline [] raw
      r ←
          run_items (record { metadata = b.metadata; identity = b.identity; deadline = b.deadline })
            0 no_usage StepStatus.completed items
      shown ← lift (ledger self.to_float r.entries)
      pure (r, shown)

    -- `_execute_collection`, below the limit of the depth
    unfoldable pub execute_collection : Batch → Run self StepRecord
    unfolding now run_batch collection_record
    execute_collection b = do
      started ← now self
      (r, shown) ← run_batch b
      t ← now self
      pure (collection_record r shown (t - started))

  -- `_execute_collection` at the limit
  too_deep : Batch → Run self StepRecord
  too_deep b = do started ← now self; raise_code invalid_configuration

  -- `_execute_flow` and `_execute_collection`, which call each other. The number is how much deeper
  -- collections may go: `MAX_COLLECTION_DEPTH - collection_depth`.
  unfoldable pub execute_flow_within : ℕ → FlowCall → Run self (FlowRun × List DecisionIssue)
  unfolding execute_flow_with execute_collection too_deep
  execute_flow_within zero = execute_flow_with self too_deep
  execute_flow_within (suc depth) =
      execute_flow_with self (execute_collection (execute_flow_within depth))

  -- `_execute_flow` outside every collection
  unfoldable pub execute_flow : FlowCall → Run self (FlowRun × List DecisionIssue)
  unfolding execute_flow_within
  execute_flow = execute_flow_within max_collection_depth

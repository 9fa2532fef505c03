-- ===== src/Core/Runner/Items/Attempts.antt =====
-- The attempts of `_run_item` of core/runner.py, and the calls of `_execute_flow` that they are.
use mathlib.Core.Bool.{true≢false}
use foliqant.Prelude.{
  sym, ◌∙◌, ltb, ◌&&◌, ℕ, zero, suc, ◌+◌, ◌≤◌, ◌≡◌, refl, arith, true, false, not, Option, none,
  some, is_some, List, [], ◌∷◌, ◌++◌, length, length-append,
}
use foliqant.Core.Json.{Fields}
use foliqant.Core.Plan.{DecisionIssue, FlowPlan, RepeatPlan}
use foliqant.Core.Execution.{RepeatStop, FlowRun, FlowRecord}
use foliqant.Core.Exec.Yields.{Yields, Yields-map, Yields-pure, Yields-then, Yields-bind}
use foliqant.Core.Exec.Gives.{
  Gives, Gives-pure, Gives-throw, Gives-option, Gives-map, Gives-bind, Gives-both, Gives-then,
  Gives-zoom,
}
use foliqant.Core.Exec.Keeps.{Keeps, keeps_rules, Keeps-lift, Keeps-gets, Keeps-modify}
use foliqant.Core.Runner.Self.{Envelope, FlowRole, WorkflowRunner, Shared}
use foliqant.Core.Runner.Ports.{Run}
use foliqant.Core.Runner.Flow.{FlowCall}
use foliqant.Core.Runner.Repeat.{Item, RepeatDecision, Attempt, Scope, scoped, repeat_decision}
use foliqant.Core.Runner.Repeat.Frame.{IsTimeless, repeat_decision-Keeps}
use foliqant.Core.Runner.Repeat.Reasons.{is_exhausted, repeat_decision_lem}
use foliqant.Core.Runner.Items.{
  BatchItem, ItemRun, Caller, decided, item_call, item_attempt, item_decision, item_loop,
  single_item, item_runs, run_item,
}

-- What a repeat's decision says, where the plan allows `limit` attempts and this was the given one.
pub record Decides (limit attempt : ℕ) (d : RepeatDecision) : Type 0 where
  either : is_some d.inputs ≡ not (is_some d.stop)
  last : (is_exhausted d.stop && ltb attempt limit) ≡ false

-- The record of a repeated item: between `lo` and `hi` attempts and a reason to stop, which is
-- "exhausted" only after `limit` attempts.
pub record IsRepeated (limit lo hi : ℕ) (r : ItemRun) : Type 0 where
  some_run : lo ≤ length r.done.attempts
  bound : length r.done.attempts ≤ hi
  reason : is_some r.done.stopped_by ≡ true
  last : (is_exhausted r.done.stopped_by && ltb (length r.done.attempts) limit) ≡ false

-- The record of an item: without `repeat` it has no attempts of its own.
abbrev pub IsItemRun : Option RepeatPlan → ItemRun → Type 0
IsItemRun none r = (r.done.attempts ≡ []) × (r.done.stopped_by ≡ none)
IsItemRun (some repeat) r = IsRepeated repeat.max_attempts 1 repeat.max_attempts r

-- the runs of an item: its attempts, or the one run without `repeat`
abbrev pub runs_of : Option RepeatPlan → ItemRun → List FlowRun
runs_of none r = r.done.run ∷ []
runs_of (some _) r = r.done.attempts

module _ (self : WorkflowRunner)
    (execute_flow : FlowCall → Run self (FlowRun × List DecisionIssue)) where
  -- `Log` keeps account of the calls of `_execute_flow` for an item's flow: such a call, numbered
  -- after the runs so far, adds the run that it returns. The calls for a retry flow and the time
  -- leave it alone.
  pub record IsLog (flow : FlowPlan) (Log : List FlowRun → Shared self.World → Type 0)
      : Type 0 where
    pub attempt :
        (runs : List FlowRun) (c : FlowCall)
        → c.flow ≡ flow
        → c.role ≡ FlowRole.callable
        → c.attempt ≡ length runs + 1
        → Gives (Log runs) (λ (run, issues). Log (runs ++ (run ∷ []))) (execute_flow c)
    pub retry :
        (runs : List FlowRun) (c : FlowCall)
        → c.role ≡ FlowRole.retry
        → Keeps (Log runs) (execute_flow c)
    pub timeless : (runs : List FlowRun) → IsTimeless self (Log runs)

  decision-Decides :
      (a : Attempt)
      → Yields (Decides a.repeat.max_attempts a.attempt) (repeat_decision self execute_flow a)
  decision-Decides a =
      Yields-map _ (λ d h. record { either = h.either; last = h.last })
        (repeat_decision_lem self execute_flow a)

  item_decision-Decides :
      (caller : Caller) (item : Item) (flow : FlowPlan) (repeat : RepeatPlan) (scope : Envelope)
      (attempt : ℕ) (attempts : List FlowRun) (run : FlowRun) (issues : List DecisionIssue)
      → Yields (Decides repeat.max_attempts attempt) (
          item_decision self execute_flow caller item flow repeat scope attempt attempts run issues)
  unfolding item_decision
  item_decision-Decides caller item flow repeat scope attempt attempts run issues =
      let a : Attempt = record {
        flow = flow;
        repeat = repeat;
        run = run;
        attempt = attempt;
        issues = issues;
        envelope = scope;
        identity = caller.identity;
        deadline = caller.deadline;
        item = some item;
      } in
      Yields-then _ _
        (λ _. Yields-bind _ _ (decision-Decides a) (λ d h. Yields-then _ _ (λ _. Yields-pure d h)))

  -- the record of the last attempt
  closed :
      (limit attempt : ℕ) (runs : List FlowRun) (run : FlowRun) (d : RepeatDecision)
      (retry : Option FlowRecord)
      → attempt ≡ length runs + 1
      → Decides limit attempt d
      → d.inputs ≡ none
      → IsRepeated limit
          (length runs + 1)
          (length runs + 1)
          (record { done = decided run (runs ++ (run ∷ [])) d; retry = retry; failure = d.failure })
  unfolding decided
  closed limit attempt runs run d retry same h none_left =
      let size = length-append runs (run ∷ []) in
      record {
        some_run = omega (arith, size);
        bound = omega (arith, size);
        reason = stopped d.stop (rw (sym h.either) (rw none_left refl));
        last = rw (size ∙ sym same) h.last;
      }
    where
      stopped : (o : Option RepeatStop) → not (is_some o) ≡ false → is_some o ≡ true
      stopped none e = absurd (true≢false e)
      stopped (some r) e = refl

  widen :
      (limit lo hi lo' hi' : ℕ) (r : ItemRun)
      → lo' ≤ lo
      → hi ≤ hi'
      → IsRepeated limit lo hi r
      → IsRepeated limit lo' hi' r
  widen limit lo hi lo' hi' r low high h = record {
    some_run = omega (arith, low, h.some_run);
    bound = omega (arith, high, h.bound);
    reason = h.reason;
    last = h.last;
  }

  module _ (flow : FlowPlan) (Log : List FlowRun → Shared self.World → Type 0)
      (log : IsLog flow Log) where
    abbrev Logged : List FlowRun → Scope self.World → Type 0
    Logged runs s = Log runs s.shared

    item_attempt-Logged :
        (caller : Caller) (item : Item) (attempt : ℕ) (inputs : Fields) (runs : List FlowRun)
        → attempt ≡ length runs + 1
        → Gives
            (Logged runs)
            (λ (run, issues). Logged (runs ++ (run ∷ [])))
            (item_attempt self execute_flow caller item flow attempt inputs)
    unfolding item_attempt scoped item_call
    item_attempt-Logged caller item attempt inputs runs same =
        Gives-then _ _ (Keeps-lift _) (λ local.
          Gives-zoom _ (λ t s. record s { shared = t }) _ (λ t s. refl)
            (log.attempt runs _ refl refl same))

    item_decision-Logged :
        (caller : Caller) (item : Item) (repeat : RepeatPlan) (scope : Envelope) (attempt : ℕ)
        (attempts : List FlowRun) (run : FlowRun) (issues : List DecisionIssue)
        → Keeps (Logged attempts) (
            item_decision self execute_flow caller item flow repeat scope attempt attempts run
              issues)
    unfolding item_decision
    item_decision-Logged caller item repeat scope attempt attempts run issues =
        search
          (
            keeps_rules,
            λ (f : Scope self.World → Scope self.World)
                  (h : (s : Scope self.World) → Logged attempts s → Logged attempts (f s)).
                Keeps-modify f h,
            repeat_decision-Keeps self (Log attempts) (log.timeless attempts) execute_flow
                (log.retry attempts),
          )
          depth 12

    item_loop-IsRepeated :
        (caller : Caller) (item : Item) (repeat : RepeatPlan) (scope : Envelope) (left attempt : ℕ)
        (runs : List FlowRun) (inputs : Fields)
        → attempt ≡ length runs + 1
        → Gives
            (Logged runs)
            (λ r s.
              IsRepeated repeat.max_attempts (length runs + 1) (length runs + left) r
              × Logged r.done.attempts s)
            (item_loop self execute_flow caller item flow repeat scope left attempt runs inputs)
    unfolding item_loop
    item_loop-IsRepeated caller item repeat scope zero attempt runs inputs same = Gives-throw _
    item_loop-IsRepeated caller item repeat scope (suc left) attempt runs inputs same =
        Gives-bind _ _ (item_attempt-Logged caller item attempt inputs runs same) (λ (run, issues).
          Gives-both _ _
            (item_decision-Logged caller item repeat scope attempt (runs ++ (run ∷ [])) run issues)
            (item_decision-Decides caller item flow repeat scope attempt _ run issues)
            (λ d h.
              Gives-option d.inputs _ _
                (λ e. Gives-then _ _ (Keeps-gets _) (λ retry. Gives-pure _ (λ s logged. (
                  widen _ _ _ _ _ _ (omega arith) (omega arith)
                      (closed _ attempt runs run d retry same h e),
                  logged,
                ))))
                (λ next e.
                  Gives-map _
                    (λ r s (repeated, logged). (
                      widen _ _ _ _ _ r (omega (arith, length-append runs (run ∷ [])))
                          (omega (arith, length-append runs (run ∷ []))) repeated,
                      logged,
                    ))
                    (item_loop-IsRepeated caller item repeat scope left (attempt + 1)
                      (runs ++ (run ∷ [])) next
                      (omega (arith, same, length-append runs (run ∷ [])))))))

    single_item-IsItemRun :
        (caller : Caller) (item : Item)
        → Gives
            (Logged [])
            (λ r s. IsItemRun none r × Logged (runs_of none r) s)
            (single_item self execute_flow caller item flow)
    unfolding single_item
    single_item-IsItemRun caller item =
        Gives-bind _ _ (item_attempt-Logged caller item 1 item.payload [] (omega arith))
          (λ (run, issues). Gives-pure _ (λ s logged. ((refl, refl), logged)))

    abbrev Ran : Option RepeatPlan → ItemRun → Scope self.World → Type 0
    Ran plan r s = IsItemRun plan r × Logged (runs_of plan r) s

    of_plan :
        (o p : Option RepeatPlan)
        → o ≡ p
        → (r : ItemRun) (s : Scope self.World) → Ran p r s
        → Ran o r s
    of_plan o p e r s h = rw e h

    item_runs-IsItemRun :
        (caller : Caller) (item : Item)
        → Gives (Logged []) (Ran flow.repeat) (item_runs self execute_flow caller item flow)
    unfolding item_runs
    item_runs-IsItemRun caller item = Gives-then _ _ (Keeps-lift _) (λ scope.
        Gives-option flow.repeat _ _
          (λ e. Gives-map _ (of_plan flow.repeat none e) (single_item-IsItemRun caller item))
          (λ repeat e.
            Gives-map _
              (λ r s (h, logged).
                of_plan flow.repeat (some repeat) e r s
                  (widen _ _ _ 1 repeat.max_attempts r (omega arith) (omega arith) h, logged))
              (item_loop-IsRepeated caller item repeat scope repeat.max_attempts 1 [] item.payload
                (omega arith))))

  -- What a collection records of an item that ran: without `repeat` one run, no attempts and no
  -- reason to have stopped; with `repeat` at least one attempt and at most `max_attempts`, and a
  -- reason to have stopped, which is "exhausted" only after `max_attempts` of them. What it records
  -- are the runs that `_execute_flow` returned for the item's flow, called once for each, in their
  -- order and numbered from one: whatever account of such calls is kept, beside the calls for a
  -- retry flow and the time, has those runs at the end if it had none at the start.
  pub run_item_attempts :
      (caller : Caller) (index : ℕ) (i : BatchItem)
      (Log : List FlowRun → Shared self.World → Type 0)
      → IsLog i.flow Log
      → Gives
          (Log [])
          (λ r s. IsItemRun i.flow.repeat r × Log (runs_of i.flow.repeat r) s)
          (run_item self execute_flow caller index i)
  unfolding run_item
  run_item_attempts caller index i Log log = record {
    at = λ shared none_yet.
        let s : Scope self.World = record { shared = shared; records = [] } in
        (item_runs-IsItemRun i.flow Log log caller
            (record { id = i.id; index = index; payload = i.payload })).at
          s none_yet;
  }

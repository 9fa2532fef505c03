-- ===== src/Core/Runner/Whole/Visits.antt =====
-- The boundaries that the loop of `WorkflowRunner._run` crosses.
use foliqant.Core.Usage.{Usage, no_usage}
use foliqant.Prelude.{
  ◌<◌, ℕ, zero, suc, ◌+◌, ◌≤◌, ◌≡◌, refl, arith, String, Option, none, some, List, [], ◌∷◌, ◌++◌,
  length, length-append,
}
use foliqant.Core.Errors.{Failure, Exn}
use foliqant.Core.Plan.{Outcome}
use foliqant.Core.Execution.{FlowRecord, TransitionRecord, RunResult}
use foliqant.Core.Exec.{
  Exec, Raised, returned, raised, pure, throw, gets, modify, ◌>>=◌, ◌>>◌, raise_when, or_raise,
  continue, option_case, catch, handle_raised,
}
use foliqant.Core.Exec.Yields.{Returned}
use foliqant.Core.Exec.Keeps.{
  Keeps-lift, Takes-catch, Takes-after, Keeps, keeps_rules, Keeps-modify, Takes, Takes-before,
  Takes-seq, Takes-map, Keeps-Takes, Keeps-pure, Keeps-raise_when,
}
use foliqant.Core.Runner.Self.{WorkflowRunner, Shared}
use foliqant.Core.Runner.Ports.{Run}
use foliqant.Core.Runner.Repeat.{Scoped}
use foliqant.Core.Runner.Routed.{
  Request, RunState, Routed, stopped, left, Engine, in_run, in_scope, set_active, set_flow,
  run_context,
}
use foliqant.Core.Runner.Routed.Frame.{IsFrame, run_routed-Keeps}
use foliqant.Core.Runner.Routing.{select_start}
use foliqant.Core.Runner.Whole.Rounds.{
  unvisited-nil, visit_less, enter_flow-Takes, left_over, flow_loop-beyond,
}
use foliqant.Core.Runner.Whole.Limit.{add_usages-Keeps, or_other-Keeps}
use foliqant.Core.Runner.Whole.{
  Entry, whole, only_flow, add_name, single_flow, workflow_output, run_entry, close_flow, recover,
  run_guarded, finished, run_result, initial_state, run_all, enter_flow, set_outcome, fail_run,
  after_routed, flow_loop, Round, unreached,
}

-- started where `P` holds, what `m` returns satisfies `Q`
record Ends {S A : Type 0} (P : S → Type 0) (Q : A → Type 0) (m : Exec S A) : Type 0 where
  at : (s : S) → P s → Returned Q (m s).0

module _ {S A B : Type 0} {P R : S → Type 0} {Q : B → Type 0} where
  Ends-bind :
      (m : Exec S A) (f : A → Exec S B)
      → Takes P R m
      → ((a : A) → Ends R Q (f a))
      → Ends P Q (m >>= f)
  unfolding ◌>>=◌
  Ends-bind m f tm ef = record { at = λ s p. let (r, s') = m s in onwards r s' (tm.at s p) }
    where
      onwards : (r : Raised A) (s : S) → R s → Returned Q (continue f r s).0
      onwards (returned a) s h = (ef a).at s h
      onwards (raised e) s h = tt

module _ (self : WorkflowRunner) where
  -- at most `k` boundaries were crossed
  record Crossed (k : ℕ) (s : RunState self.World) : Type 0 where
    bound : length s.transitions ≤ k

  in_run-Crossed : {A : Type 0} (k : ℕ) (m : Run self A) → Keeps (Crossed k) (in_run self m)
  unfolding in_run foliqant.Core.Exec.zoom
  in_run-Crossed k m = record { at = λ s h. record { bound = h.bound } }

  in_scope-Crossed : {A : Type 0} (k : ℕ) (m : Scoped self A) → Keeps (Crossed k) (in_scope self m)
  unfolding in_scope foliqant.Core.Exec.zoom
  in_scope-Crossed k m = record { at = λ s h. record { bound = h.bound } }

  modify-Crossed :
      (k : ℕ) (f : RunState self.World → RunState self.World)
      → ((s : RunState self.World) → (f s).transitions ≡ s.transitions)
      → Keeps (Crossed k) (modify f)
  modify-Crossed k f h = Keeps-modify f (λ s w. record { bound = rw (h s) w.bound })

  set_flow-Crossed :
      (k : ℕ) (name : String) (r : FlowRecord) → Keeps (Crossed k) (set_flow self name r)
  unfolding set_flow
  set_flow-Crossed k name r = modify-Crossed k _ (λ s. refl)

  Crossed-IsFrame : (k : ℕ) → IsFrame self (Crossed k)
  unfolding set_active
  Crossed-IsFrame k = record {
    deadline = λ d. in_run-Crossed k _;
    execute = λ c. in_run-Crossed k _;
    input = λ name b e. in_scope-Crossed k _;
    decision = λ a. in_scope-Crossed k _;
    active = λ a. modify-Crossed k _ (λ s. refl);
    store = set_flow-Crossed k;
  }

  wider : (k n : ℕ) (s : RunState self.World) → Crossed k s → Crossed (k + n) s
  wider k n s h = record { bound = omega (arith, h.bound) }

  module _ (q : Request) where
    set_outcome-Crossed : (k : ℕ) (o : Option Outcome) → Keeps (Crossed k) (set_outcome self q o)
    unfolding set_outcome
    set_outcome-Crossed k none = search keeps_rules
    set_outcome-Crossed k (some o) = search modify-Crossed

    enter_flow-Crossed :
        (k : ℕ) (visited : List String) (current : String)
        → Keeps (Crossed k) (enter_flow self q visited current)
    unfolding enter_flow
    enter_flow-Crossed k visited current = search keeps_rules

    cross :
        (k : ℕ) (t : TransitionRecord)
        → Takes (Crossed k) (Crossed (k + 1)) (
            modify
              (λ (s : RunState self.World). record s { transitions = s.transitions ++ (t ∷ []) }))
    unfolding modify
    cross k t = record {
      at = λ s h. record { bound = omega (arith, h.bound, length-append s.transitions (t ∷ [])) };
    }

    fail_run-Crossed : (k : ℕ) (e : Option Failure) → Keeps (Crossed k) (fail_run self q e)
    unfolding fail_run
    fail_run-Crossed k e = search modify-Crossed

    onwards :
        (k n : ℕ) (o : Option String) (f : String → Engine self (Unit {0}))
        → ((next : String) → Takes (Crossed (k + 1)) (Crossed ((k + 1) + n)) (f next))
        → Takes (Crossed (k + 1)) (Crossed ((k + 1) + n)) (option_case o (pure tt) f)
    onwards k n none f tf = Keeps-Takes _ (Keeps-pure tt) (wider (k + 1) n)
    onwards k n (some next) f tf = tf next

    after_routed-Crossed :
        (k n : ℕ) (r : Routed) (f : String → Engine self (Unit {0}))
        → ((next : String) → Takes (Crossed (k + 1)) (Crossed ((k + 1) + n)) (f next))
        → Takes (Crossed k) (Crossed ((k + 1) + n)) (after_routed self q r f)
    unfolding after_routed
    after_routed-Crossed k n (stopped r error) f tf =
        Keeps-Takes _ (fail_run-Crossed ((k + 1) + n) _)
          (λ s h. record { bound = omega (arith, h.bound) })
    after_routed-Crossed k n (left r target t) f tf =
        Takes-seq _ _ (cross k t) (wider (k + 1) n) (λ _.
          Takes-before _ _ (set_outcome-Crossed (k + 1) target.outcome) (wider (k + 1) n)
            (λ _. onwards k n target.flow f tf))

    flow_loop-Crossed :
        (beyond : Round self q) (n k : ℕ) (visited : List String) (current : String)
        → left_over self q visited < n
        → Takes
            (Crossed k)
            (Crossed (k + left_over self q visited))
            (flow_loop self q beyond n visited current)
    unfolding flow_loop
    flow_loop-Crossed beyond zero k visited current enough = absurd (omega arith)
    flow_loop-Crossed beyond (suc n) k visited current enough =
        let same = wider k (left_over self q visited) in
        Takes-before _ _ (in_run-Crossed k _) same (λ _.
          enter_flow-Takes self q _ _ same _ visited current (λ flow (fresh, found).
            let less = visit_less current visited self.plan.flows flow fresh found in
            Takes-before _ _ (Keeps-raise_when flow.callable _) same (λ _.
              Takes-before _ _ (run_routed-Keeps self (Crossed k) (Crossed-IsFrame k) q flow) same
                (λ routed.
                  Takes-map _ (λ s h. record { bound = omega (arith, h.bound, less) })
                    (after_routed-Crossed k (left_over self q (add_name current visited)) routed _
                      (λ next.
                        flow_loop-Crossed beyond n (k + 1) (add_name current visited) next
                          (omega (arith, less, enough))))))))

    single_flow-Crossed :
        (k : ℕ) (name : String) (step_id : Option String)
        → Keeps (Crossed k) (single_flow self q name step_id)
    unfolding single_flow set_active set_flow
    single_flow-Crossed k name step_id =
        search (keeps_rules, in_run-Crossed, enter_flow-Crossed, fail_run-Crossed, modify-Crossed)
          depth 20

    workflow_output-Crossed : (k : ℕ) → Keeps (Crossed k) (workflow_output self q)
    unfolding workflow_output run_context
    workflow_output-Crossed k = search (keeps_rules, modify-Crossed) depth 16

    run_entry-Crossed :
        (k : ℕ) (entry : Entry)
        → Takes (Crossed k) (Crossed (k + length self.plan.flows)) (run_entry self q entry)
    unfolding run_entry
    run_entry-Crossed k whole =
        let n = length self.plan.flows in
        let all = unvisited-nil self.plan.flows in
        Takes-before _ _ (Keeps-lift (select_start self.plan.start q.envelope)) (wider k n)
          (λ start. Takes-before _ _ (modify-Crossed k _ (λ s. refl)) (wider k n) (λ _.
            Takes-after _ _
              (Takes-map _ (λ s h. record { bound = omega (arith, all, h.bound) })
                (flow_loop-Crossed (unreached self q) (n + 1) k [] start.flow (omega (arith, all))))
              (λ _. workflow_output-Crossed (k + n))))
    run_entry-Crossed k (only_flow name step_id) =
        Keeps-Takes _ (single_flow-Crossed (k + length self.plan.flows) name step_id)
          (wider k (length self.plan.flows))

    close_flow-Crossed :
        (k : ℕ) (error : Failure) (active : Option String)
        → Keeps (Crossed k) (close_flow self q error active)
    unfolding close_flow
    close_flow-Crossed k error none = search keeps_rules
    close_flow-Crossed k error (some name) =
        search (keeps_rules, or_other-Keeps, set_flow-Crossed) depth 12

    recover-Crossed : (k : ℕ) (e : Exn) → Keeps (Crossed k) (recover self q e)
    unfolding recover
    recover-Crossed k e =
        search (keeps_rules, in_run-Crossed, modify-Crossed, close_flow-Crossed) depth 12

    run_guarded-Crossed :
        (k : ℕ) (entry : Entry)
        → Takes (Crossed k) (Crossed (k + length self.plan.flows)) (run_guarded self q entry)
    unfolding run_guarded
    run_guarded-Crossed k entry =
        let n = length self.plan.flows in
        Takes-catch _ _
          (Takes-after _ _ (run_entry-Crossed k entry) (λ _. in_run-Crossed (k + n) _))
          (recover-Crossed (k + n))

    abbrev ListsAtMost : ℕ → RunResult → Type 0
    ListsAtMost k r = length r.transitions ≤ k

    result-listed :
        (k n : ℕ)
        → k ≤ n
        → (usage : Usage) → Ends (Crossed k) (ListsAtMost n) (gets (λ s. run_result self q usage s))
    unfolding gets run_result
    result-listed k n le usage = record { at = λ s h. omega (arith, le, h.bound) }

    finished-Crossed :
        (entry : Entry)
        → Ends (Crossed 0) (ListsAtMost (length self.plan.flows)) (finished self q entry)
    unfolding finished
    finished-Crossed entry =
        let n = 0 + length self.plan.flows in
        Ends-bind _ _ (run_guarded-Crossed 0 entry) (λ _.
          Ends-bind _ _ (Keeps-Takes _ (search keeps_rules) (λ s h. h)) (λ records.
            Ends-bind _ _ (Keeps-Takes _ (add_usages-Keeps no_usage records) (λ s h. h))
              (result-listed n (length self.plan.flows) (omega arith))))

    -- After the `try` statement of a run, however it ended, at most as many transitions are
    -- recorded as the workflow has flows, and the result that the run returns lists at most as many.
    -- From whatever flow it starts, the loop ends within the modelled rounds, one more than the
    -- workflow has flows: whatever a round after those did, the loop does the same.
    pub run_transitions :
        (entry : Entry) (shared : Shared self.World) (beyond : Round self q) (first : String)
        → (length (run_guarded self q entry (initial_state self q entry shared)).1.transitions
            ≤ length self.plan.flows)
          × Returned
              (λ (r : RunResult). length r.transitions ≤ length self.plan.flows)
              (run_all self q entry shared).0
          × (flow_loop self q beyond (length self.plan.flows + 1) [] first
              ≡ flow_loop self q (unreached self q) (length self.plan.flows + 1) [] first)
    unfolding run_all initial_state
    run_transitions entry shared beyond first =
        let begun = initial_state self q entry shared in
        let none_yet : Crossed 0 begun = record { bound = omega arith } in
        (
          omega (arith, ((run_guarded-Crossed 0 entry).at begun none_yet).bound),
          (finished-Crossed entry).at begun none_yet,
          flow_loop-beyond self q beyond (unreached self q) (length self.plan.flows + 1) [] first
              (omega (arith, unvisited-nil self.plan.flows)),
        )

-- ===== src/Core/Runner/Routing/Boundary.antt =====
-- `_target` and `_select` of core/runner.py against what a boundary may be.
use foliqant.Prelude.{
  ℕ, suc, ◌+◌, ◌≡◌, refl, arith, Bool, true, false, ◌&&◌, is_some, List, [], ◌∷◌, if◌then◌else◌,
}
use foliqant.Core.Errors.{invalid_configuration}
use foliqant.Core.Result.{
  Result, ok, err, raise_if, ◌>>=◌, ◌>>◌, OkHas, OkHas-bind, OkHas-raise_if, OkHas-ok,
}
use foliqant.Core.Json.{FrozenJson}
use foliqant.Core.Json.Equal.{bool_eq}
use foliqant.Core.Plan.{DecisionIssue, TransitionTargetPlan, RouteEntryPlan, FlowPlan}
use foliqant.Core.Execution.{StepStatus, TransitionRecord}
use foliqant.Core.Runner.Routing.{
  select, entry_holds, Selected, review_target, transition_target, selected_target, checked_target,
  boundary_target, is_review, is_completed,
}

-- The entry with the given index is the first that holds: the conditions of all earlier ones were
-- evaluated, to false.
pub data FirstHolding (context : FrozenJson)
    : List RouteEntryPlan → ℕ → TransitionTargetPlan → Type 0 where
  here :
      {e : RouteEntryPlan} {entries : List RouteEntryPlan}
      → entry_holds e.when context ≡ ok true
      → FirstHolding context (e ∷ entries) 0 e.target
  later :
      {e : RouteEntryPlan} {entries : List RouteEntryPlan} {n : ℕ} {target : TransitionTargetPlan}
      → entry_holds e.when context ≡ ok false
      → FirstHolding context entries n target
      → FirstHolding context (e ∷ entries) (suc n) target

-- The selection of a route returns the target of the first entry that holds, with its index; it
-- counts from the given index.
pub select-FirstHolding :
    (index : ℕ) (entries : List RouteEntryPlan) (context : FrozenJson)
    → OkHas
        (λ (target, k). (n : ℕ) × (k ≡ index + n) × FirstHolding context entries n target)
        (select index entries context)
unfolding select
select-FirstHolding index [] context = record { at = tt }
select-FirstHolding index (e ∷ entries) context =
    chosen (entry_holds e.when context) refl (select-FirstHolding (index + 1) entries context)
  where
    chosen :
        (r : Result Bool)
        → entry_holds e.when context ≡ r
        → OkHas
            (λ (target, k). (n : ℕ) × (k ≡ (index + 1) + n) × FirstHolding context entries n target)
            (select (index + 1) entries context)
        → OkHas
            (λ (target, k). (n : ℕ) × (k ≡ index + n) × FirstHolding context (e ∷ entries) n target)
            (r >>= λ holds. elim holds [
              | true ↦ ok (e.target, index)
              | false ↦ select (index + 1) entries context
            ])
    chosen (err x) h rest = record { at = tt }
    chosen (ok true) h rest = record { at = (0, omega arith, here h) }
    chosen (ok false) h rest = shifted (select (index + 1) entries context) rest
      where
        shifted :
            (r : Result (TransitionTargetPlan × ℕ))
            → OkHas
                (λ (target, k).
                  (n : ℕ) × (k ≡ (index + 1) + n) × FirstHolding context entries n target)
                r
            → OkHas
                (λ (target, k).
                  (n : ℕ) × (k ≡ index + n) × FirstHolding context (e ∷ entries) n target)
                r
        shifted (err x) rest = record { at = tt }
        shifted (ok (target, k)) rest =
            let (n, same, first) = rest.at in
            record { at = (suc n, omega (arith, same), later h first) }

-- A boundary's selection.
pub record IsBoundary (status : StepStatus) (target : TransitionTargetPlan) (t : TransitionRecord)
    : Type 0 where
  pub one : bool_eq (is_some target.flow) (is_some target.outcome) ≡ false
  pub pending : (is_review status && is_completed target.outcome) ≡ false
  pub flow : t.flow ≡ target.flow
  pub outcome : t.outcome ≡ target.outcome

Pends : StepStatus → Selected → Type 0
Pends status s = (is_review status && is_completed s.target.outcome) ≡ false

selected_target-Pends :
    (flow : FlowPlan) (status : StepStatus) (issues : List DecisionIssue) (context : FrozenJson)
    → OkHas (Pends status) (selected_target flow status issues context)
unfolding selected_target Pends
selected_target-Pends flow status issues context =
    branches (is_review status) (review_target flow.on_unresolved issues context)
      (transition_target flow.transition context)
  where
    branches :
        (b : Bool) (r t : Result Selected)
        → OkHas
            (λ s. (b && is_completed s.target.outcome) ≡ false)
            (if b
              then (do
                chosen ← r
                raise_if (is_completed chosen.target.outcome) invalid_configuration
                ok chosen)
              else t)
    branches true (err e) t = record { at = tt }
    branches true (ok s) t =
        OkHas-raise_if (is_completed s.target.outcome) invalid_configuration (ok s)
          (λ h. record { at = h })
    branches false r (err e) = record { at = tt }
    branches false r (ok s) = record { at = refl }

checked_target-IsBoundary :
    (flow : FlowPlan) (status : StepStatus) (s : Selected)
    → Pends status s
    → OkHas (λ (target, t). IsBoundary status target t) (checked_target flow status s)
unfolding checked_target Pends
checked_target-IsBoundary flow status s p =
    OkHas-raise_if (bool_eq (is_some s.target.flow) (is_some s.target.outcome))
      invalid_configuration _
      (λ h. record { at = record { one = h; pending = p; flow = refl; outcome = refl } })

-- Where a boundary is selected, its target is either a flow or an outcome and never both, a flow
-- that waits for review is not routed to the outcome "completed", and the transition's record says
-- what was selected.
pub boundary_target-IsBoundary :
    (flow : FlowPlan) (status : StepStatus) (issues : List DecisionIssue) (context : FrozenJson)
    → OkHas (λ (target, t). IsBoundary status target t) (boundary_target flow status issues context)
unfolding boundary_target
boundary_target-IsBoundary flow status issues context =
    OkHas-bind (selected_target flow status issues context) (checked_target flow status) (λ s e.
      checked_target-IsBoundary flow status s
        (OkHas-ok _ s (selected_target-Pends flow status issues context) e))

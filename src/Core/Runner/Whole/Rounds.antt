-- ===== src/Core/Runner/Whole/Rounds.antt =====
-- The rounds of the loop of `WorkflowRunner._run`, and the flows that it has not visited.
use mathlib.Core.Path.{fun_ext}
use foliqant.Prelude.{
  ap, Bool, true, false, mem_str, leb, ◌||◌, if◌then◌else◌, eq_iff, ◌<◌, ℕ, zero, suc, ◌+◌, ◌≤◌,
  ◌≡◌, refl, arith, String, Option, none, some, List, [], ◌∷◌, length,
}
use foliqant.Core.Errors.{invalid_configuration}
use foliqant.Core.Plan.{FlowPlan, find_flow}
use foliqant.Core.Exec.{pure, throw, ◌>>=◌, ◌>>◌, raise_when, or_raise}
use foliqant.Core.Exec.Keeps.{Takes}
use foliqant.Core.Runner.Self.{WorkflowRunner}
use foliqant.Core.Runner.Ports.{check_deadline}
use foliqant.Core.Runner.Routed.{Request, RunState, Engine, in_run, run_routed}
use foliqant.Core.Runner.Whole.{add_name, enter_flow, after_routed, flow_loop, Round}

-- the flows whose names were not visited
abbrev pub unvisited : List FlowPlan → List String → ℕ
unvisited [] visited = 0
unvisited (f ∷ flows) visited = (if mem_str f.name visited then 0 else 1) + unvisited flows visited

pub unvisited-nil : (flows : List FlowPlan) → unvisited flows [] ≡ length flows
unvisited-nil [] = refl
unvisited-nil (f ∷ flows) = omega (arith, unvisited-nil flows)

unvisited-cons_le :
    (name : String) (visited : List String) (flows : List FlowPlan)
    → unvisited flows (name ∷ visited) ≤ unvisited flows visited
unvisited-cons_le name visited [] = omega arith
unvisited-cons_le name visited (f ∷ flows) = ground (arith, unvisited-cons_le name visited flows)

visit_less_cons :
    (name : String) (visited : List String) (flows : List FlowPlan) (flow : FlowPlan)
    → mem_str name visited ≡ false
    → find_flow name flows ≡ some flow
    → suc (unvisited flows (name ∷ visited)) ≤ unvisited flows visited
unfolding find_flow
visit_less_cons name visited [] flow new found = cc
visit_less_cons name visited (f ∷ flows) flow new found = ground (
  arith,
  visit_less_cons name visited flows flow new,
  unvisited-cons_le name visited flows,
  eq_iff f.name name,
  eq_iff name f.name,
)

-- a flow that is visited anew is one less to visit
pub visit_less :
    (name : String) (visited : List String) (flows : List FlowPlan) (flow : FlowPlan)
    → mem_str name visited ≡ false
    → find_flow name flows ≡ some flow
    → suc (unvisited flows (add_name name visited)) ≤ unvisited flows visited
unfolding add_name
visit_less name visited flows flow new found =
    rw new (visit_less_cons name visited flows flow new found)

neither : (a b : Bool) → (a || b) ≡ false → a ≡ false
neither a b h = ground arith

module _ (self : WorkflowRunner) (q : Request) where
  -- what `enter_flow` lets pass is a flow of the plan that was not visited
  abbrev pub Entered : List String → String → FlowPlan → Type 0
  Entered visited current flow =
      (mem_str current visited ≡ false) × (find_flow current self.plan.flows ≡ some flow)

  module _ (P Q : RunState self.World → Type 0) (h : (s : RunState self.World) → P s → Q s)
      (f : FlowPlan → Engine self (Unit {0})) where
    pub enter_flow-Takes :
        (visited : List String) (current : String)
        → ((flow : FlowPlan) → Entered visited current flow → Takes P Q (f flow))
        → Takes P Q (enter_flow self q visited current >>= f)
    unfolding enter_flow ◌>>=◌ throw pure
    enter_flow-Takes visited current tf =
        enters (mem_str current visited || leb (length self.plan.flows) (length visited))
          (find_flow current self.plan.flows)
          (λ flow fresh found. tf flow (neither _ _ fresh, found))
      where
        enters :
            (b : Bool) (o : Option FlowPlan)
            → ((flow : FlowPlan) → b ≡ false → o ≡ some flow → Takes P Q (f flow))
            → Takes P Q
                ((raise_when b invalid_configuration >> or_raise o invalid_configuration) >>= f)
        enters true o k = record { at = h }
        enters false none k = record { at = h }
        enters false (some flow) k = k flow refl refl

  -- what follows is the same where it is the same for every flow that passes
  enter_flow-same :
      (visited : List String) (current : String) (f g : FlowPlan → Engine self (Unit {0}))
      → ((flow : FlowPlan) → Entered visited current flow → f flow ≡ g flow)
      → (enter_flow self q visited current >>= f) ≡ (enter_flow self q visited current >>= g)
  unfolding enter_flow ◌>>=◌ throw pure
  enter_flow-same visited current f g same =
      enters (mem_str current visited || leb (length self.plan.flows) (length visited))
        (find_flow current self.plan.flows)
        (λ flow fresh found. same flow (neither _ _ fresh, found))
    where
      enters :
          (b : Bool) (o : Option FlowPlan)
          → ((flow : FlowPlan) → b ≡ false → o ≡ some flow → f flow ≡ g flow)
          → ((raise_when b invalid_configuration >> or_raise o invalid_configuration) >>= f)
            ≡ ((raise_when b invalid_configuration >> or_raise o invalid_configuration) >>= g)
      enters true o k = refl
      enters false none k = refl
      enters false (some flow) k = k flow refl refl

  abbrev pub left_over : List String → ℕ
  left_over = unvisited self.plan.flows

  pub flow_loop-beyond :
      (a b : Round self q) (n : ℕ) (visited : List String) (current : String)
      → left_over visited < n
      → flow_loop self q a n visited current ≡ flow_loop self q b n visited current
  unfolding flow_loop
  flow_loop-beyond a b zero visited current enough = absurd (omega arith)
  flow_loop-beyond a b (suc n) visited current enough =
      ap (λ m. in_run self (check_deadline self q.deadline) >> m)
        (enter_flow-same visited current _ _ (λ flow (fresh, found).
          let less = visit_less current visited self.plan.flows flow fresh found in
          ap
            (λ f.
              raise_when flow.callable invalid_configuration
              >> (run_routed self q flow >>= λ routed. after_routed self q routed f))
            (fun_ext (λ next.
              flow_loop-beyond a b n (add_name current visited) next
                (omega (arith, less, enough))))))

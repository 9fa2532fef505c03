-- ===== src/Core/Runner/Contexts/Outcomes.antt =====
-- `_validate_outcome` of core/runner.py against what an outcome may be.
use mathlib.Core.Bool.{true≢false}
use foliqant.Prelude.{◌≡◌, refl, Bool, true, false, not, ◌&&◌, ◌||◌, leb, Option, none, some, List}
use Prim.Native.String.{count}
use foliqant.Core.Errors.{invalid_output}
use foliqant.Core.Result.{OkHas, OkHas-bind, OkHas-raise_if, OkHas-ok}
use foliqant.Core.Json.Equal.{bool_eq}
use foliqant.Core.Budget.{is_blank}
use foliqant.Core.Plan.{DecisionIssue, StepKind}
use foliqant.Core.Execution.{Selection, StepOutcome}
use foliqant.Core.Runner.Self.{
  SelectionObject, malformed, selected, OutcomeObject, not_an_outcome, step_outcome,
}
use foliqant.Core.Runner.Contexts.{
  validate_outcome, checked_outcome, valid_selection, may_select, empty_text, is_fallback,
  no_issues, flatten,
}

-- A selection that a step of this kind may make.
pub record IsSelection (kind : StepKind) (needs_review : Bool) (s : Selection) : Type 0 where
  pub by_kind : may_select kind ≡ true
  pub id : is_blank s.category_id ≡ false
  pub short : leb (count s.category_id) 128 ≡ true
  pub origin : bool_eq needs_review (is_fallback s.origin) ≡ true

abbrev pub Selects : StepKind → Bool → Option Selection → Type 0
Selects kind needs_review none = Unit
Selects kind needs_review (some s) = IsSelection kind needs_review s

pub record IsOutcome (kind : StepKind) (o : StepOutcome) : Type 0 where
  pub issues : (not (no_issues o.unresolved_issues) && not o.needs_review) ≡ false
  pub selection : Selects kind o.needs_review o.selection

all_passed :
    (a b c d e : Bool)
    → (not a || b || not c || d || not e) ≡ false
    → (a ≡ true) × (b ≡ false) × (c ≡ true) × (e ≡ true)
all_passed true false true false true h = (refl, refl, refl, refl)
all_passed false b c d e h = absurd (true≢false h)
all_passed true true c d e h = absurd (true≢false h)
all_passed true false false d e h = absurd (true≢false h)
all_passed true false true true e h = absurd (true≢false h)
all_passed true false true false false h = absurd (true≢false h)

valid_selection-Selects :
    (kind : StepKind) (needs_review : Bool) (s : Option SelectionObject)
    → OkHas (Selects kind needs_review) (valid_selection kind needs_review s)
unfolding valid_selection
valid_selection-Selects kind needs_review none = record { at = tt }
valid_selection-Selects kind needs_review (some malformed) = record { at = tt }
valid_selection-Selects kind needs_review (some (selected id description none)) = record { at = tt }
valid_selection-Selects kind needs_review (some (selected id description (some origin))) =
    OkHas-raise_if
      (not (may_select kind)
        || is_blank id
        || not (leb (count id) 128)
        || empty_text description
        || not (bool_eq needs_review (is_fallback origin)))
      invalid_output _
      (λ h.
        let (a, b, c, e) = all_passed _ _ _ _ _ h in
        record { at = record { by_kind = a; id = b; short = c; origin = e } })

checked_outcome-IsOutcome :
    (kind : StepKind) (needs_review : Bool) (issues : Option (List DecisionIssue))
    (s : Option SelectionObject)
    → OkHas (IsOutcome kind) (checked_outcome kind needs_review issues s)
unfolding checked_outcome
checked_outcome-IsOutcome kind needs_review none s = record { at = tt }
checked_outcome-IsOutcome kind needs_review (some issues) s =
    OkHas-raise_if (not (no_issues issues) && not needs_review) invalid_output _ (λ h.
      OkHas-bind (valid_selection kind needs_review s) _ (λ chosen e. record {
        at = record {
          issues = h;
          selection = OkHas-ok _ chosen (valid_selection-Selects kind needs_review s) e;
        };
      }))

-- An outcome that is accepted has unresolved issues only if it needs review; a selection is made by
-- a decision or a handler, its id is not blank and has at most 128 characters, and it is a
-- fallback just when the outcome needs review.
pub validate_outcome-IsOutcome :
    (kind : StepKind) (o : OutcomeObject)
    → OkHas (λ (outcome, raw). IsOutcome kind outcome) (validate_outcome kind o)
unfolding validate_outcome
validate_outcome-IsOutcome kind not_an_outcome = record { at = tt }
validate_outcome-IsOutcome kind (step_outcome result none issues s) = record { at = tt }
validate_outcome-IsOutcome kind (step_outcome result (some needs_review) issues s) =
    OkHas-bind (checked_outcome kind needs_review (flatten issues) s) _ (λ outcome e. record {
      at = OkHas-ok _ outcome (checked_outcome-IsOutcome kind needs_review (flatten issues) s) e;
    })

-- ===== src/Core/Runner/Contexts/Accepts.antt =====
-- The outcomes that `_validate_outcome` accepts as they are.
use Prim.Native.String.{count}
use foliqant.Prelude.{
  ◌≡◌, refl, arith, Bool, true, false, not, ◌&&◌, leb, Option, none, some, List, [], ◌∷◌, ◌++◌, map,
}
use foliqant.Core.Result.{ok}
use foliqant.Core.Json.Equal.{bool_eq}
use foliqant.Core.Json.Freeze.{Raw}
use foliqant.Core.Budget.{is_blank}
use foliqant.Core.Plan.{
  DecisionIssue, no_supported_answer, conflicting_information, multiple_valid_options, StepKind,
}
use foliqant.Core.Execution.{Selection}
use foliqant.Core.Runner.Self.{SelectionObject, selected, step_outcome}
use foliqant.Core.Runner.Contexts.{
  validate_outcome, valid_selection, may_select, empty_text, is_fallback, known_issues, mem_issue,
  issue_eq, no_issues,
}

-- no issue is listed twice
abbrev pub AreDistinct : List DecisionIssue → Type 0
AreDistinct [] = Unit
AreDistinct (i ∷ issues) = (mem_issue i issues ≡ false) × AreDistinct issues

issue_eq_comm : (i j : DecisionIssue) → issue_eq i j ≡ issue_eq j i
unfolding issue_eq
issue_eq_comm no_supported_answer j = ground arith
issue_eq_comm conflicting_information j = ground arith
issue_eq_comm multiple_valid_options j = ground arith

mem_issue-snoc :
    (j i : DecisionIssue) (issues : List DecisionIssue)
    → mem_issue j issues ≡ false
    → issue_eq i j ≡ false
    → mem_issue j (issues ++ i ∷ []) ≡ false
unfolding mem_issue
mem_issue-snoc j i [] h k = rw k refl
mem_issue-snoc j i (x ∷ issues) h k = ground (arith, mem_issue-snoc j i issues)

-- a new issue may be added at the end
pub snoc-AreDistinct :
    (i : DecisionIssue) (issues : List DecisionIssue)
    → AreDistinct issues
    → mem_issue i issues ≡ false
    → AreDistinct (issues ++ i ∷ [])
unfolding mem_issue
snoc-AreDistinct i [] h k = (refl, tt)
snoc-AreDistinct i (x ∷ issues) h k = (
  mem_issue-snoc x i issues h.0 (ground (arith, issue_eq_comm i x)),
  snoc-AreDistinct i issues h.1 (ground arith),
)

known_issues_lem :
    (issues : List DecisionIssue)
    → AreDistinct issues
    → known_issues (map some issues) ≡ some issues
unfolding known_issues
known_issues_lem [] h = refl
known_issues_lem (i ∷ issues) h = rw (known_issues_lem issues h.1, h.0) refl

-- a selection as the object that an adapter returns
abbrev pub as_object : Option Selection → Option SelectionObject
as_object none = none
as_object (some s) = some (selected s.category_id s.category_description (some s.origin))

abbrev pub IsSelectable : Bool → Option Selection → Type 0
IsSelectable needs_review none = Unit
IsSelectable needs_review (some s) =
    (is_blank s.category_id ≡ false)
    × (leb (count s.category_id) 128 ≡ true)
    × (empty_text s.category_description ≡ false)
    × (bool_eq needs_review (is_fallback s.origin) ≡ true)

valid_selection_lem :
    (kind : StepKind) (needs_review : Bool) (s : Option Selection)
    → may_select kind ≡ true
    → IsSelectable needs_review s
    → valid_selection kind needs_review (as_object s) ≡ ok s
unfolding valid_selection
valid_selection_lem kind needs_review none m h = refl
valid_selection_lem kind needs_review (some s) m (a, b, c, d) = rw (m, a, b, c, d) refl

-- An outcome of a step that may select is accepted as it is, if its issues are distinct and come only
-- with a review, and its selection is well formed.
pub validate_outcome-accepts :
    (kind : StepKind) (result : Raw) (needs_review : Bool) (issues : List DecisionIssue)
    (s : Option Selection)
    → may_select kind ≡ true
    → AreDistinct issues
    → (not (no_issues issues) && not needs_review) ≡ false
    → IsSelectable needs_review s
    → validate_outcome kind
        (step_outcome result (some needs_review) (some (map some issues)) (as_object s))
      ≡ ok (
        record { needs_review = needs_review; selection = s; unresolved_issues = issues },
        result,
      )
unfolding validate_outcome
validate_outcome-accepts kind result needs_review issues s m d i h =
    rw (known_issues_lem issues d, i, valid_selection_lem kind needs_review s m h) refl

-- ===== src/Tests/Decisions.antt =====
-- A decision step with one question of choice, and relations between three requests.
use foliqant.Prelude.{◌≡◌, ◌↔◌, refl, String, true, false, Option, none, some, List, [], ◌∷◌}
use foliqant.Core.Result.{ok}
use foliqant.Core.Json.{FrozenJson, str, object, Fields, field, end}
use foliqant.Core.Json.Freeze.{Raw, as_raw, empty, freeze_json}
use foliqant.Core.Plan.{no_supported_answer, no_bindings, StepKind}
use foliqant.Core.Execution.{Origin}
use foliqant.Core.Runner.Contexts.{validate_outcome, empty_text}
use foliqant.Core.Budget.{is_blank}
use foliqant.Core.Exec.{returned}
use foliqant.Decisions.Graph.{has_cycle_above, has_directed_cycle}
use foliqant.Decisions.Graph.Walks.{Walk}
use foliqant.Decisions.Graph.Cycles.{has_directed_cycle_iff}
use foliqant.Decisions.Contracts.{
  document, DecisionOption, QuestionType, DecisionQuestion, DecisionInput, answerable,
  RequestRelation, requires, precedes, mutually_exclusive, conditional_on, Answer, DecisionResult,
}
use foliqant.Decisions.Answerability.{TaskType, answerability_problems}
use foliqant.Decisions.Answerability.Coherence.{IsCoherent, answerability_problems_iff}
use foliqant.Decisions.Relations.{validate_request_relations}
use foliqant.Decisions.Relations.Meaning.{IsConsistent}
use foliqant.Decisions.Relations.Consistency.{validate_request_relations-IsConsistent}
use foliqant.Decisions.Output.{validate_decision_output}
use foliqant.Decisions.Output.Accepted.{IsAccepted, validate_decision_output-IsAccepted}
use foliqant.Decisions.Plan.{QuestionMode, single, DecisionStepPlan, build_decision_input}
use foliqant.Decisions.Native.{ValidatedDecision, validate_decision_result}
use foliqant.Decisions.Native.Outcome.{IsCategory, decision_outcome, decision_outcome-accepted}

has_directed_cycle_iff_example :
    ((has_directed_cycle (("a", "b") ∷ ("b", "c") ∷ ("c", "b") ∷ []) ≡ true)
      ↔ ((u : String) × Walk (("a", "b") ∷ ("b", "c") ∷ ("c", "b") ∷ []) u u))
    × (has_cycle_above (λ node marks. (true, marks)) (("a", "b") ∷ ("b", "c") ∷ ("c", "b") ∷ [])
        ≡ has_directed_cycle (("a", "b") ∷ ("b", "c") ∷ ("c", "b") ∷ []))
has_directed_cycle_iff_example =
    has_directed_cycle_iff (("a", "b") ∷ ("b", "c") ∷ ("c", "b") ∷ []) (λ node marks. (true, marks))

abbrev relations : List RequestRelation
relations =
    requires "refund" "order"
    ∷ precedes "order" "survey"
    ∷ mutually_exclusive ("refund" ∷ "survey" ∷ [])
    ∷ conditional_on "refund" "is_damaged" true
    ∷ []

abbrev units : List String
units = "order" ∷ "refund" ∷ "survey" ∷ []

no_problems : validate_request_relations "question:q" units ("is_damaged" ∷ []) relations ≡ []
unfolding validate_request_relations
no_problems = refl

validate_request_relations-IsConsistent_example : IsConsistent units ("is_damaged" ∷ []) relations
validate_request_relations-IsConsistent_example =
    validate_request_relations-IsConsistent "question:q" units ("is_damaged" ∷ []) relations
      no_problems

abbrev options : List DecisionOption
options =
    record { id = "invoice"; description = "An invoice" }
    ∷ record { id = "reminder"; description = "A reminder" }
    ∷ []

abbrev question : DecisionQuestion
question = record {
  id = "kind";
  prompt = "Which document is it?";
  criteria = "Use the title" ∷ [];
  allowed_source_ids = "mail" ∷ [];
  type = QuestionType.choice options;
}

abbrev mail_task : DecisionInput
mail_task = record {
  sources = record { id = "mail"; kind = document; text = "Invoice 7" } ∷ [];
  questions = question ∷ [];
}

abbrev an_invoice : DecisionResult
an_invoice = record {
  question_id = "kind";
  answerability = record { status = answerable; issues = [] };
  reason = "The title says so";
  evidence_strength = none;
  answer = Answer.choice (some "invoice");
}

answerability_problems_iff_example :
    (answerability_problems "question:kind" an_invoice ≡ []) ↔ IsCoherent an_invoice
answerability_problems_iff_example = answerability_problems_iff "question:kind" an_invoice

fits_the_task : validate_decision_output mail_task (an_invoice ∷ []) ≡ []
unfolding validate_decision_output
fits_the_task = refl

validate_decision_output-IsAccepted_example : IsAccepted mail_task (an_invoice ∷ [])
validate_decision_output-IsAccepted_example =
    validate_decision_output-IsAccepted mail_task (an_invoice ∷ []) fits_the_task

abbrev mail_step : DecisionStepPlan
mail_step = record {
  sources = "mail" ∷ [];
  source_formats = [];
  questions =
      record {
        id = "kind";
        type = TaskType.choice;
        prompt = "Which document is it?";
        criteria = "Use the title" ∷ [];
        allowed_source_ids = "mail" ∷ [];
        options = options;
        min_selections = none;
        max_selections = none;
        allow_no_match = none;
      }
      ∷ [];
  question_mode = single;
  fallback = some (record {
    category = record { id = "other"; description = none };
    on = no_supported_answer ∷ [];
  });
}

abbrev inputs : Fields
inputs = field "mail" (str "Invoice 7") end

abbrev no_json : FrozenJson → Option String
no_json v = none

abbrev dump_nothing : QuestionMode → List DecisionResult → Raw
dump_nothing mode results = Raw.mapping empty

abbrev chosen_invoice : ValidatedDecision
chosen_invoice = record {
  value = object end;
  answerable = true;
  answer_key = some "invoice";
  selection = some (record {
    category_id = "invoice";
    category_description = some "An invoice";
    origin = Origin.model;
  });
  unresolved_issues = [];
}

builds : build_decision_input no_json mail_step inputs ≡ ok mail_task
unfolding build_decision_input
builds = refl

decides :
    validate_decision_result dump_nothing mail_step mail_task (an_invoice ∷ [])
    ≡ returned chosen_invoice
unfolding validate_decision_result freeze_json
decides = refl

fallback-IsCategory : IsCategory mail_step.fallback
unfolding is_blank empty_text
fallback-IsCategory = (refl, refl, refl)

decision_outcome-accepted_example :
    validate_outcome (StepKind.decision no_bindings) (decision_outcome chosen_invoice)
    ≡ ok (
      record { needs_review = false; selection = chosen_invoice.selection; unresolved_issues = [] },
      as_raw (object end),
    )
decision_outcome-accepted_example =
    decision_outcome-accepted no_json dump_nothing mail_step inputs mail_task (an_invoice ∷ [])
      chosen_invoice no_bindings fallback-IsCategory builds decides

-- ===== src/Tests/Evaluations.antt =====
-- Responses, spans and metrics at concrete inputs.
use foliqant.Prelude.{
  inl, ℕ, ◌≡◌, ◌↔◌, refl, String, true, false, ◌&&◌, Option, none, some, is_some, [], ◌∷◌,
}
use foliqant.Prelude.Int.{pos}
use foliqant.Core.Json.{FrozenJson, Float, finite, int, str, tuple, nil, cons, object, field, end}
use foliqant.Core.Bindings.{
  resolve_binding, lacks_slash, invalid_escape, split_slash, walk_parts, walk, child, unescape,
}
use foliqant.Evaluation.Records.{document_path_status}
use foliqant.Adapters.Responses.{
  ParsedDate, no_date, transient_status, terminal_status, retry_after, http_failure,
}
use foliqant.Adapters.Responses.Table.{may_repeat, HasCode, status_code, permits, http_failure_lem}
use foliqant.Evaluation.Spans.{SourceSpan, source_span_source, matches_source_span}
use foliqant.Evaluation.Spans.Occurrences.{Covering, matches_source_span_iff}
use foliqant.Evaluation.Comparisons.{Comparison, Expectation}
use foliqant.Evaluation.Metrics.{MetricKind, MetricSpec, valid_spec}
use foliqant.Evaluation.Metrics.Observe.{MetricObservation, observe_labels, observed_labels}
use foliqant.Evaluation.Metrics.Summary.{summarize_labels}
use foliqant.Evaluation.Metrics.Observe.{correct_value, observed}
use foliqant.Evaluation.Metrics.Fields.{observe_fields}
use foliqant.Evaluation.Metrics.Summary.{summarize_fields}
use foliqant.Evaluation.Metrics.FieldTotals.{
  FieldsAdd, AllFieldsObserved, summarize_fields-FieldsAdd,
}
use foliqant.Evaluation.Metrics.Validation.{validate_metrics, valid_gold, observe_metrics}
use foliqant.Evaluation.Metrics.Validation.Total.{observe_metrics-total}
use foliqant.Evaluation.Metrics.Totals.{Adds, summarize_labels-Adds}
use foliqant.Evaluation.Metrics.Confusion.{
  matrix_total, trace, AllObserved, confusion_matrix_totals,
}

abbrev same : String → String
same text = text

-- every text is three units of 2^-1074 seconds
abbrev three : String → Option Float
three text = some (finite (pos 3))

abbrev undated : String → ParsedDate
undated text = no_date

http_failure_lem_example :
    (may_repeat (http_failure same three undated 429 (("retry-after", "3") ∷ [])) ≡ (
      is_some (transient_status 429)
      && permits same three undated (retry_after same three undated (("retry-after", "3") ∷ []))))
    × HasCode
        (status_code (terminal_status 429) (transient_status 429) 429)
        (http_failure same three undated 429 (("retry-after", "3") ∷ []))
http_failure_lem_example = http_failure_lem same three undated 429 (("retry-after", "3") ∷ [])

abbrev pair : ℕ → ℕ → FrozenJson
pair a b = tuple (cons (int (pos a)) (cons (int (pos b)) nil))

abbrev span_gold : FrozenJson
span_gold = object (
    field "input_path" (str "/body") (field "required" (pair 5 6) (field "allowed" (pair 2 9) end)))

abbrev letter : FrozenJson
letter = object (field "body" (str "aa bab bb") end)

abbrev body_span : SourceSpan
body_span = record { input_path = "/body"; required = (5, 6); allowed = (2, 9) }

letter_found : source_span_source span_gold letter ≡ some (body_span, "aa bab bb")
unfolding source_span_source resolve_binding walk_parts walk child unescape
letter_found = refl

matches_source_span_iff_example :
    (is_some (matches_source_span (str "b") span_gold letter) ≡ true)
    × ((matches_source_span (str "b") span_gold letter ≡ some true)
        ↔ Covering (5, 6) "b" "aa bab bb" 2 9)
matches_source_span_iff_example =
    matches_source_span_iff span_gold letter "b" "aa bab bb" body_span letter_found refl

-- the first occurrence in the allowed range does not cover the required one, the second does
matches_second_test : matches_source_span (str "b") span_gold letter ≡ some true
unfolding matches_source_span resolve_binding walk_parts walk child unescape
matches_second_test = refl

abbrev spam_metric : MetricSpec
spam_metric = record {
  name = "spam";
  path = "/label";
  kind = MetricKind.classification;
  labels = some "spam" ∷ some "ham" ∷ [];
  each = none;
  expectation = none;
}

abbrev gold_spam : Expectation
gold_spam = record {
  name = "label";
  path = "/label";
  expected = str "spam";
  comparison = Comparison.exact;
  scorer = none;
  each = none;
  absent_as_null = false;
}

abbrev labelled_ham : FrozenJson
labelled_ham = object (field "label" (str "ham") end)

abbrev ham_for_spam : MetricObservation
ham_for_spam = observed_labels (some "spam" ∷ []) (some "ham" ∷ [])

ham_for_spam_test :
    observe_labels spam_metric (gold_spam ∷ []) labelled_ham "completed" ≡ some ham_for_spam
unfolding observe_labels document_path_status resolve_binding lacks_slash invalid_escape split_slash
    walk_parts walk child unescape
ham_for_spam_test = refl

ham_for_spam-AllObserved : AllObserved spam_metric (ham_for_spam ∷ [])
ham_for_spam-AllObserved = ((gold_spam ∷ [], labelled_ham, "completed", ham_for_spam_test), tt)

spam_metric_valid : valid_spec spam_metric ≡ true
unfolding valid_spec
spam_metric_valid = refl

summarize_labels-Adds_example : Adds (summarize_labels spam_metric 1 (ham_for_spam ∷ [])) 1
summarize_labels-Adds_example = summarize_labels-Adds spam_metric 1 (ham_for_spam ∷ [])

confusion_matrix_totals_example :
    (matrix_total (summarize_labels spam_metric 1 (ham_for_spam ∷ [])).confusion_matrix
      ≡ (summarize_labels spam_metric 1 (ham_for_spam ∷ [])).observed)
    × (trace (summarize_labels spam_metric 1 (ham_for_spam ∷ [])).confusion_matrix
        ≡ (summarize_labels spam_metric 1 (ham_for_spam ∷ [])).correct)
confusion_matrix_totals_example =
    confusion_matrix_totals spam_metric 1 (ham_for_spam ∷ []) spam_metric_valid refl
      ham_for_spam-AllObserved

abbrev fields_metric : MetricSpec
fields_metric = record {
  name = "invoice";
  path = "/invoice";
  kind = MetricKind.fields;
  labels = some "number" ∷ [];
  each = none;
  expectation = none;
}

abbrev gold_number : Expectation
gold_number = record {
  name = "number";
  path = "/invoice/number";
  expected = str "A1";
  comparison = Comparison.exact;
  scorer = none;
  each = none;
  absent_as_null = false;
}

abbrev invoice : FrozenJson
invoice = object (field "invoice" (object (field "number" (str "A1") end)) end)

-- a canonical text of a value that is a text
abbrev text_of_value : FrozenJson → String
text_of_value (str text) = text
text_of_value _ = ""

abbrev right_number : MetricObservation
right_number = record {
  state = observed;
  expected = [];
  actual = [];
  fields = ("number", correct_value, false) ∷ [];
}

right_number_test :
    observe_fields text_of_value same fields_metric (gold_number ∷ []) invoice "completed"
    ≡ some right_number
unfolding observe_fields document_path_status resolve_binding lacks_slash invalid_escape split_slash
    walk_parts walk child unescape
right_number_test = refl

right_number-AllFieldsObserved :
    AllFieldsObserved text_of_value same fields_metric (right_number ∷ [])
right_number-AllFieldsObserved = ((gold_number ∷ [], invoice, "completed", right_number_test), tt)

summarize_fields-FieldsAdd_example :
    FieldsAdd (summarize_fields fields_metric 1 (right_number ∷ [])) 1
summarize_fields-FieldsAdd_example =
    summarize_fields-FieldsAdd text_of_value same fields_metric 1 (right_number ∷ [])
      right_number-AllFieldsObserved

observe_metrics-total_example :
    is_some (
      observe_metrics text_of_value same
        (fields_metric ∷ [])
        (gold_number ∷ [])
        invoice
        "completed")
    ≡ true
unfolding validate_metrics valid_gold
observe_metrics-total_example =
    observe_metrics-total text_of_value same (fields_metric ∷ []) ((gold_number ∷ []) ∷ [])
      (gold_number ∷ []) invoice "completed" refl (inl refl) refl

-- ===== src/Evaluation/Spans.antt =====
-- evaluation/spans.py: gold that is a range of the case's input. A `ValueError` is none.
pub mod Occurrences
use Prim.Native.String.{count}
use foliqant.Prelude.{
  ℕ, zero, suc, ◌+◌, code, String, Bool, true, false, not, ◌&&◌, ◌||◌, Option, none, some, List, [],
  ◌∷◌, length, mem_str, leb, ltb, ◌==◌, str_eq, if◌then◌else◌,
}
use foliqant.Prelude.Int.{ℤ, pos, negsuc}
use foliqant.Core.Result.{Result, ok, err}
use foliqant.Core.Plan.{BindingKind, BindingPlan, plan, no_bindings}
use foliqant.Core.Json.{
  FrozenJson, null, int, str, tuple, object, Items, nil, cons, Fields, end, field, field_lookup,
  has_field,
}
use foliqant.Core.Json.Freeze.{max_json_depth}
use foliqant.Core.Bindings.{lacks_slash, invalid_escape, split_slash, resolve_binding}

pub record SourceSpan : Type 0 where
  pub input_path : String
  pub required : ℕ × ℕ
  pub allowed : ℕ × ℕ

-- `_range`
unfoldable pub range : FrozenJson → Option (ℕ × ℕ)
range (tuple (cons (int (pos start)) (cons (int (pos stop)) nil))) =
    if leb stop start then none else some (start, stop)
range _ = none

-- `set(expected) == _FIELDS`
unfoldable pub names_within : Fields → Bool
names_within end = true
names_within (field name _ fs) =
    (str_eq name "input_path" || str_eq name "required" || str_eq name "allowed") && names_within fs

unfoldable pub has_span_fields : Fields → Bool
unfolding names_within field_lookup
has_span_fields fs =
    names_within fs
    && has_field "input_path" fs
    && has_field "required" fs
    && has_field "allowed" fs

-- the tests of a pointer: a text that is empty or begins with a slash, with valid escapes and not
-- too many parts
unfoldable pub is_pointer : String → Bool
unfolding lacks_slash invalid_escape split_slash
is_pointer path =
    not (lacks_slash path)
    && not (invalid_escape path)
    && leb (length (split_slash path)) (max_json_depth + 1)

abbrev pub pointer_text : Option FrozenJson → Option String
pointer_text (some (str path)) = if is_pointer path then some path else none
pointer_text _ = none

abbrev pub range_of : Option FrozenJson → Option (ℕ × ℕ)
range_of none = none
range_of (some value) = range value

-- `allowed[0] <= required[0] < required[1] <= allowed[1]`
abbrev pub nested : ℕ × ℕ → ℕ × ℕ → Bool
nested (start, stop) (first, last) = leb first start && ltb start stop && leb stop last

abbrev pub span_of : Option String → Option (ℕ × ℕ) → Option (ℕ × ℕ) → Option SourceSpan
span_of (some path) (some required) (some allowed) =
    if nested required allowed
    then some (record { input_path = path; required = required; allowed = allowed })
    else none
span_of _ _ _ = none

unfoldable pub source_span : FrozenJson → Option SourceSpan
unfolding has_span_fields range is_pointer field_lookup
source_span (object fs) =
    if has_span_fields fs
    then span_of (pointer_text (field_lookup "input_path" fs))
        (range_of (field_lookup "required" fs)) (range_of (field_lookup "allowed" fs))
    else none
source_span _ = none

abbrev pub path_plan : String → BindingPlan
path_plan path = plan BindingKind.pointer (some path) null false null [] no_bindings

abbrev pub text_within : SourceSpan → Result FrozenJson → Option (SourceSpan × String)
text_within span (ok (str text)) =
    if ltb (count text) span.allowed.1 then none else some (span, text)
text_within span _ = none

abbrev pub resolved_span : Option SourceSpan → FrozenJson → Option (SourceSpan × String)
resolved_span none case_input = none
resolved_span (some span) case_input =
    text_within span (resolve_binding (path_plan span.input_path) case_input)

unfoldable pub source_span_source : FrozenJson → FrozenJson → Option (SourceSpan × String)
unfolding source_span
source_span_source expected case_input = resolved_span (source_span expected) case_input

-- `text.startswith(needle)`
unfoldable pub starts_with : String → String → Bool
starts_with String.[] text = true
starts_with (String.◌∷◌ c needle) String.[] = false
starts_with (String.◌∷◌ c needle) (String.◌∷◌ d text) =
    (code c == code d) && starts_with needle text

-- `source.find(needle, start, stop)` for a needle that is not empty, read from place `at` on
unfoldable pub find : String → ℕ → ℕ → String → ℕ → Option ℕ
unfolding starts_with
find needle start stop String.[] at = none
find needle start stop (String.◌∷◌ c text) at =
    let later = find needle start stop text (at + 1) in
    if leb start at && leb (at + count needle) stop && starts_with needle (String.◌∷◌ c text)
    then some at
    else later

-- what the loop asks of an occurrence: it covers the required range
abbrev pub covers : ℕ × ℕ → String → ℕ → Bool
covers (first, last) needle at = leb at first && leb last (at + count needle)

abbrev pub retry_from : ℕ × ℕ → String → (ℕ → Bool) → Option ℕ → Bool
retry_from required needle next none = false
retry_from required needle next (some at) =
    if covers required needle at then true else next (at + 1)

-- the `while` loop, with the rounds that are left
unfoldable pub covered : ℕ → ℕ × ℕ → ℕ → String → String → ℕ → Bool
unfolding find
covered zero required stop needle source start = false
covered (suc rounds) required stop needle source start =
    retry_from required needle (covered rounds required stop needle source)
      (find needle start stop source 0)

-- `not actual` for a text
abbrev pub no_text : String → Bool
no_text String.[] = true
no_text _ = false

abbrev pub matches_text : Option (SourceSpan × String) → String → Option Bool
matches_text none needle = none
matches_text (some (span, source)) needle =
    if no_text needle
    then some false
    else some (covered (count source + 1) span.required span.allowed.1 needle source span.allowed.0)

abbrev pub matches_value : Option (SourceSpan × String) → FrozenJson → Option Bool
matches_value found (str needle) = matches_text found needle
matches_value none _ = none
matches_value (some _) _ = some false

unfoldable pub matches_source_span : FrozenJson → FrozenJson → FrozenJson → Option Bool
unfolding source_span_source covered
matches_source_span actual expected case_input =
    matches_value (source_span_source expected case_input) actual

-- ===== src/Core/Bindings.antt =====
-- core/bindings.py: bindings are resolved in a context without coercion or implicit nulls.
mod Pointer
pub mod Rfc6901
pub mod Sources
unfoldable pub use Pointer.{
  lookup_pointer, lacks_slash, invalid_escape, split_slash, unescape, at_index, walk_parts, walk,
  child,
}
use foliqant.Prelude.{
  String, Bool, true, false, not, ◌||◌, Option, none, some, List, [], ◌∷◌, is_some, if◌then◌else◌,
}
use foliqant.Core.Errors.{invalid_configuration, missing_binding}
use foliqant.Core.Result.{Result, ok, err, raise, raise_if, ◌>>=◌, ◌>>◌}
use foliqant.Core.Json.{
  FrozenJson, null, object, Fields, end, field_insert, field_lookup, has_field,
}
use foliqant.Core.Json.Freeze.{refreeze, max_json_depth}
use foliqant.Core.Plan.{
  BindingKind, pointer, literal, first_of, fields, BindingPlan, plan, Bindings, no_bindings,
  binding,
}

abbrev pub is_null : FrozenJson → Bool
is_null null = true
is_null _ = false

abbrev pub is_empty {ℓ} : {A : Type ℓ} → List A → Bool
is_empty [] = true
is_empty (_ ∷ _) = false

abbrev pub no_fields : Bindings → Bool
no_fields no_bindings = true
no_fields (binding _ _ _) = false

-- `[lookup_pointer(member, context) for member in members]`
unfoldable pub candidates : List String → FrozenJson → Result (List (Option FrozenJson))
candidates [] context = ok []
candidates (m ∷ members) context = do
  found ← lookup_pointer m context
  rest ← candidates members context
  ok (found ∷ rest)

-- the first candidate that was found and is not null
unfoldable pub first_value : List (Option FrozenJson) → Option FrozenJson
first_value [] = none
first_value (none ∷ rest) = first_value rest
first_value (some v ∷ rest) = if is_null v then first_value rest else some v

-- the end of `resolve_binding`: the value, else the default, else a failure
unfoldable pub or_default : Option FrozenJson → Bool → FrozenJson → Result FrozenJson
unfolding refreeze
or_default (some v) has_default default = ok v
or_default none true default = refreeze max_json_depth default
or_default none false default = raise missing_binding

pointer_value : Option String → List String → FrozenJson → Result (Option FrozenJson)
unfolding lookup_pointer
pointer_value none members context = raise invalid_configuration
pointer_value (some p) members context = do
  raise_if (not (is_empty members)) invalid_configuration
  lookup_pointer p context

first_of_value : Option String → List String → FrozenJson → Result (Option FrozenJson)
unfolding candidates first_value
first_of_value p members context = do
  raise_if (is_some p || is_empty members) invalid_configuration
  found ← candidates members context
  ok (first_value found)

-- `resolve_binding` and `resolve_bindings`; `values` is the dictionary built so far
unfoldable mutual
  unfolding pointer_value first_of_value or_default refreeze

  pub resolve_binding : BindingPlan → FrozenJson → Result FrozenJson
  resolve_binding (plan literal p lit has_default default members fs) context =
      refreeze max_json_depth lit
  resolve_binding (plan fields p lit has_default default members fs) context = do
    raise_if (no_fields fs || has_default) invalid_configuration
    values ← resolve_into end fs context
    ok (object values)
  resolve_binding (plan pointer p lit has_default default members fs) context = do
    found ← pointer_value p members context
    or_default found has_default default
  resolve_binding (plan first_of p lit has_default default members fs) context = do
    found ← first_of_value p members context
    or_default found has_default default

  pub resolve_into : Fields → Bindings → FrozenJson → Result Fields
  resolve_into values no_bindings context = ok values
  resolve_into values (binding name b rest) context = do
    raise_if (has_field name values) invalid_configuration
    value ← resolve_binding b context
    resolve_into (field_insert name value values) rest context

-- `resolve_bindings`
unfoldable pub resolve_bindings : Bindings → FrozenJson → Result Fields
unfolding resolve_binding
resolve_bindings bindings context = resolve_into end bindings context

-- the pointers of a condition source, `None` among them
unfoldable pub source_pointers : BindingKind → Option String → List String → Result (List String)
source_pointers pointer (some p) members = ok (p ∷ [])
source_pointers pointer none members = raise invalid_configuration
source_pointers first_of p [] = raise invalid_configuration
source_pointers first_of p (m ∷ members) = ok (m ∷ members)
source_pointers _ p members = raise invalid_configuration

unfoldable pub non_null : FrozenJson → Option FrozenJson
non_null null = none
non_null v = some v

-- `resolve_source`: `some value` is `(True, value)`, and a present value is never null; `none` is
-- absent, for which the source returns `(False, None)`
unfoldable pub resolve_source : BindingPlan → FrozenJson → Result (Option FrozenJson)
unfolding source_pointers
resolve_source (plan literal p lit has_default default members fs) context = do
  value ← refreeze max_json_depth lit
  ok (non_null value)
resolve_source (plan kind p lit has_default default members fs) context = do
  raise_if has_default invalid_configuration
  pointers ← source_pointers kind p members
  found ← candidates pointers context
  ok (first_value found)

-- ===== src/Core/Json/Freeze.antt =====
-- `freeze_json` and `thaw_json` of core/json.py.
use foliqant.Prelude.{ℕ, ◌+◌, String, Bool, ltb}
use foliqant.Prelude.Int.{ℤ}
use foliqant.Core.Errors.{invalid_input}
use foliqant.Core.Result.{Result, ok, raise, raise_if, ◌>>=◌, ◌>>◌}
use foliqant.Core.Json.Values.{
  Float, finite, infinity, nan, FrozenJson, Items, nil, cons, Fields, end, field, field_insert,
}

abbrev pub max_json_depth : ℕ
max_json_depth = 64

abbrev pub max_execution_json_depth : ℕ
max_execution_json_depth = 192

-- A key of a mapping: a `str` or any other object.
pub data Key : Type 0 where
  text : String → Key
  not_text : Key

-- The Python objects that `freeze_json` tells apart; `other` is any object that is no JSON.
mutual
  pub data Raw : Type 0 where
    null : Raw
    bool : Bool → Raw
    int : ℤ → Raw
    float : Float → Raw
    str : String → Raw
    list : RawItems → Raw
    tuple : RawItems → Raw
    mapping : RawEntries → Raw
    other : Raw

  pub data RawItems : Type 0 where
    none_left : RawItems
    item : Raw → RawItems → RawItems

  pub data RawEntries : Type 0 where
    empty : RawEntries
    entry : Key → Raw → RawEntries → RawEntries

freeze_float : Float → Result FrozenJson
freeze_float (finite m) = ok (FrozenJson.float (finite m))
freeze_float (infinity _) = raise invalid_input
freeze_float nan = raise invalid_input

-- `visit`: the limit, then the depth of the item
unfoldable mutual
  unfolding freeze_float

  pub visit : ℕ → ℕ → Raw → Result FrozenJson
  visit limit depth Raw.null = do raise_if (ltb limit depth) invalid_input; ok FrozenJson.null
  visit limit depth (Raw.bool b) = do
    raise_if (ltb limit depth) invalid_input
    ok (FrozenJson.bool b)
  visit limit depth (Raw.int n) = do raise_if (ltb limit depth) invalid_input; ok (FrozenJson.int n)
  visit limit depth (Raw.float x) = do raise_if (ltb limit depth) invalid_input; freeze_float x
  visit limit depth (Raw.str s) = do raise_if (ltb limit depth) invalid_input; ok (FrozenJson.str s)
  visit limit depth (Raw.list xs) = do
    raise_if (ltb limit depth) invalid_input
    ys ← visit_items limit depth xs
    ok (FrozenJson.tuple ys)
  visit limit depth (Raw.tuple xs) = do
    raise_if (ltb limit depth) invalid_input
    ys ← visit_items limit depth xs
    ok (FrozenJson.tuple ys)
  visit limit depth (Raw.mapping es) = do
    raise_if (ltb limit depth) invalid_input
    fs ← visit_entries limit depth end es
    ok (FrozenJson.object fs)
  visit limit depth Raw.other = raise invalid_input

  pub visit_items : ℕ → ℕ → RawItems → Result Items
  visit_items limit depth none_left = ok nil
  visit_items limit depth (item x xs) = do
    y ← visit limit (depth + 1) x
    ys ← visit_items limit depth xs
    ok (cons y ys)

  -- `result` is the dictionary built so far
  pub visit_entries : ℕ → ℕ → Fields → RawEntries → Result Fields
  visit_entries limit depth result empty = ok result
  visit_entries limit depth result (entry not_text x es) = raise invalid_input
  visit_entries limit depth result (entry (text k) x es) = do
    y ← visit limit (depth + 1) x
    visit_entries limit depth (field_insert k y result) es

unfoldable pub freeze_json : ℕ → Raw → Result FrozenJson
unfolding visit
freeze_json max_depth value = visit max_depth 0 value

unfoldable mutual
  pub thaw_json : FrozenJson → Raw
  thaw_json FrozenJson.null = Raw.null
  thaw_json (FrozenJson.bool b) = Raw.bool b
  thaw_json (FrozenJson.int n) = Raw.int n
  thaw_json (FrozenJson.float x) = Raw.float x
  thaw_json (FrozenJson.str s) = Raw.str s
  thaw_json (FrozenJson.tuple xs) = Raw.list (thaw_items xs)
  thaw_json (FrozenJson.object fs) = Raw.mapping (thaw_fields fs)

  pub thaw_items : Items → RawItems
  thaw_items nil = none_left
  thaw_items (cons x xs) = item (thaw_json x) (thaw_items xs)

  pub thaw_fields : Fields → RawEntries
  thaw_fields end = empty
  thaw_fields (field k v fs) = entry (text k) (thaw_json v) (thaw_fields fs)

-- A frozen value as the object that `freeze_json` sees when it is called on it again.
unfoldable mutual
  pub as_raw : FrozenJson → Raw
  as_raw FrozenJson.null = Raw.null
  as_raw (FrozenJson.bool b) = Raw.bool b
  as_raw (FrozenJson.int n) = Raw.int n
  as_raw (FrozenJson.float x) = Raw.float x
  as_raw (FrozenJson.str s) = Raw.str s
  as_raw (FrozenJson.tuple xs) = Raw.tuple (as_raw_items xs)
  as_raw (FrozenJson.object fs) = Raw.mapping (as_raw_fields fs)

  pub as_raw_items : Items → RawItems
  as_raw_items nil = none_left
  as_raw_items (cons x xs) = item (as_raw x) (as_raw_items xs)

  pub as_raw_fields : Fields → RawEntries
  as_raw_fields end = empty
  as_raw_fields (field k v fs) = entry (text k) (as_raw v) (as_raw_fields fs)

-- `freeze_json(value, max_depth=…)` of a frozen value
unfoldable pub refreeze : ℕ → FrozenJson → Result FrozenJson
unfolding freeze_json as_raw
refreeze max_depth v = freeze_json max_depth (as_raw v)

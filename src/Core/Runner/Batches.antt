-- ===== src/Core/Runner/Batches.antt =====
-- The batch of a collection, as core/runner.py reads it and as its ledger shows it.
use foliqant.Prelude.{
  ℕ, code, String, Bool, true, false, not, ◌&&◌, ◌||◌, Option, none, some, List, [], ◌∷◌, ltb, leb,
  ◌==◌, mem_str, if◌then◌else◌,
}
use foliqant.Core.Errors.{invalid_input}
use foliqant.Core.Result.{Result, ok, raise, raise_if, ◌>>=◌, ◌>>◌}
use foliqant.Core.Json.{
  Float, FrozenJson, str, tuple, object, Items, nil, cons, Fields, end, field, field_lookup,
  field_insert, items_length, fields_length,
}
use foliqant.Core.Execution.{FlowRecord, text, flow_record_value}
use foliqant.Core.Runner.Items.{BatchItem}

is_lower : ℕ → Bool
is_lower c = leb b'a' c && leb c b'z'

is_alphanumeric : ℕ → Bool
unfolding is_lower
is_alphanumeric c = is_lower c || (leb b'0' c && leb c b'9')

-- what follows the first letter; the Boolean says whether an underscore came last
id_tail : Bool → String → Bool
unfolding is_alphanumeric
id_tail underscore String.[] = not underscore
id_tail underscore (String.◌∷◌ c s) =
    if code c == b'_'
    then not underscore && id_tail true s
    else is_alphanumeric (code c) && id_tail false s

-- `_ITEM_ID.fullmatch`
unfoldable pub is_item_id : String → Bool
unfolding is_lower id_tail
is_item_id String.[] = false
is_item_id (String.◌∷◌ c s) = is_lower (code c) && id_tail false s

unfoldable pub items_of : FrozenJson → ℕ → Result Items
items_of (tuple items) max_items = do
  raise_if (ltb max_items (items_length items)) invalid_input
  ok items
items_of _ max_items = raise invalid_input

-- the checks of `inputs`; nothing but `items` may be there
unfoldable pub batch_items : Fields → ℕ → Result Items
unfolding field_lookup items_of
batch_items inputs max_items = elim (field_lookup "items" inputs) [
  | none ↦ raise invalid_input
  | some raw ↦ do raise_if (not (fields_length inputs == 1)) invalid_input; items_of raw max_items
]

-- An item as far as its own value and the ids before it show: its id, its flow's name and its input.
pub record ItemValue : Type 0 where
  pub id : String
  pub flow : String
  pub payload : Fields

unfoldable pub item_fields : FrozenJson → Result Fields
item_fields (object fs) = do raise_if (not (fields_length fs == 3)) invalid_input; ok fs
item_fields _ = raise invalid_input

unfoldable pub item_value :
    Option FrozenJson → Option FrozenJson → Option FrozenJson → Result ItemValue
item_value (some (str id)) (some (str flow)) (some (object payload)) =
    ok (record { id = id; flow = flow; payload = payload })
item_value _ _ _ = raise invalid_input

unfoldable pub item_of : FrozenJson → Result ItemValue
unfolding item_fields item_value field_lookup
item_of v = do
  fs ← item_fields v
  item_value (field_lookup "id" fs) (field_lookup "flow" fs) (field_lookup "input" fs)

unfoldable pub check_item : List String → List String → ItemValue → Result ItemValue
unfolding is_item_id
check_item flows seen i = do
  raise_if (not (is_item_id i.id) || mem_str i.id seen || not (mem_str i.flow flows)) invalid_input
  ok i

unfoldable pub parse_item : List String → List String → FrozenJson → Result ItemValue
unfolding item_of check_item
parse_item flows seen v = do i ← item_of v; check_item flows seen i

-- An item with its record and the record of its retry flow.
pub record Entry : Type 0 where
  pub item : BatchItem
  pub done : FlowRecord
  pub retry : Option FlowRecord

module _ (to_float : ℕ → Float) where
  unfoldable pub with_retry : Fields → Option FlowRecord → Result Fields
  unfolding flow_record_value field_insert
  with_retry value none = ok value
  with_retry value (some r) = do
    retried ← flow_record_value to_float r
    ok (field_insert "retry" (object retried) value)

  -- `entry`
  unfoldable pub entry_value : Entry → Result FrozenJson
  unfolding flow_record_value with_retry
  entry_value e = do
    value ← flow_record_value to_float e.done
    whole ←
        with_retry (field "id" (text e.item.id) (field "flow" (text e.item.flow.name) value))
          e.retry
    ok (object whole)

  unfoldable pub entry_values : List Entry → Result Items
  unfolding entry_value
  entry_values [] = ok nil
  entry_values (e ∷ entries) = do
    value ← entry_value e
    rest ← entry_values entries
    ok (cons value rest)

  -- `ledger`
  unfoldable pub ledger : List Entry → Result Fields
  unfolding entry_values
  ledger entries = do items ← entry_values entries; ok (field "items" (tuple items) end)

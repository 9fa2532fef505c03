-- ===== src/Core/Json/Values.antt =====
-- The values of core/json.py, and the dictionary and tuple operations that the core uses on them.
use foliqant.Prelude.{
  ℕ, zero, suc, String, Bool, Option, none, some, str_eq, if◌then◌else◌, is_some,
}
use foliqant.Prelude.Int.{ℤ}

-- `finite m` is the double m * 2^-1074.
pub data Float : Type 0 where
  finite : ℤ → Float
  infinity : Bool → Float
  nan : Float

mutual
  pub data FrozenJson : Type 0 where
    null : FrozenJson
    bool : Bool → FrozenJson
    int : ℤ → FrozenJson
    float : Float → FrozenJson
    str : String → FrozenJson
    tuple : Items → FrozenJson
    object : Fields → FrozenJson

  pub data Items : Type 0 where
    nil : Items
    cons : FrozenJson → Items → Items

  pub data Fields : Type 0 where
    end : Fields
    field : String → FrozenJson → Fields → Fields

-- `d.get(k)`
unfoldable pub field_lookup : String → Fields → Option FrozenJson
field_lookup k end = none
field_lookup k (field j v fs) = if str_eq j k then some v else field_lookup k fs

-- `k in d`
abbrev pub has_field : String → Fields → Bool
has_field k fs = is_some (field_lookup k fs)

-- `d[k] = v`
unfoldable pub field_insert : String → FrozenJson → Fields → Fields
field_insert k v end = field k v end
field_insert k v (field j w fs) =
    let rest = field_insert k v fs in if str_eq j k then field j v fs else field j w rest

unfoldable pub field_append : Fields → Fields → Fields
field_append end gs = gs
field_append (field k v fs) gs = field k v (field_append fs gs)

-- `value[i]`
unfoldable pub item_at : Items → ℕ → Option FrozenJson
item_at nil i = none
item_at (cons v xs) zero = some v
item_at (cons v xs) (suc i) = item_at xs i

abbrev pub items_length : Items → ℕ
items_length nil = 0
items_length (cons _ xs) = suc (items_length xs)

abbrev pub fields_length : Fields → ℕ
fields_length end = 0
fields_length (field _ _ fs) = suc (fields_length fs)

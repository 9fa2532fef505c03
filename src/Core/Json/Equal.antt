-- ===== src/Core/Json/Equal.antt =====
-- `json_equal` of core/conditions.py.
use foliqant.Prelude.{Bool, true, false, ◌&&◌, none, some, ◌==◌, str_eq}
use foliqant.Core.Json.Values.{
  FrozenJson, null, bool, int, float, str, tuple, object, Items, nil, cons, Fields, end, field,
  field_lookup, has_field, items_length,
}
use foliqant.Core.Json.Numbers.{whole, real, number_eq}

abbrev pub bool_eq : Bool → Bool → Bool
bool_eq true b = b
bool_eq false true = false
bool_eq false false = true

-- every key of the first dictionary is one of the second
unfoldable pub keys_within : Fields → Fields → Bool
keys_within end gs = true
keys_within (field k _ fs) gs = has_field k gs && keys_within fs gs

-- `left.keys() == right.keys()`
unfoldable pub same_keys : Fields → Fields → Bool
unfolding keys_within
same_keys fs gs = keys_within fs gs && keys_within gs fs

-- The tests of the source in its order: a value with no constructor in common is unequal.
unfoldable mutual
  unfolding same_keys field_lookup number_eq

  pub json_equal : FrozenJson → FrozenJson → Bool
  json_equal (bool a) (bool b) = bool_eq a b
  json_equal (int a) (int b) = number_eq (whole a) (whole b)
  json_equal (int a) (float b) = number_eq (whole a) (real b)
  json_equal (float a) (int b) = number_eq (real a) (whole b)
  json_equal (float a) (float b) = number_eq (real a) (real b)
  json_equal (str a) (str b) = str_eq a b
  json_equal null null = true
  json_equal (object fs) (object gs) = same_keys fs gs && fields_equal fs gs
  json_equal (tuple xs) (tuple ys) = (items_length xs == items_length ys) && items_equal xs ys
  json_equal _ _ = false

  -- `all(json_equal(a, b) for a, b in zip(left, right))`
  pub items_equal : Items → Items → Bool
  items_equal nil ys = true
  items_equal (cons x xs) nil = true
  items_equal (cons x xs) (cons y ys) = json_equal x y && items_equal xs ys

  -- `all(json_equal(value, right[key]) for key, value in left.items())`; a missing key does not
  -- occur, since the keys were compared first
  pub fields_equal : Fields → Fields → Bool
  fields_equal end gs = true
  fields_equal (field k v fs) gs =
      elim (field_lookup k gs) [ none ↦ false | some w ↦ json_equal v w ] && fields_equal fs gs

-- ===== src/Core/Json.antt =====
-- core/json.py: JSON values, their frozen copies, and the way back. A float that is finite is
-- modelled exactly, as a whole number of units of 2^-1074 (every double is one); the sign of zero
-- is not kept. A `dict` is its entries in insertion order.
mod Values
pub mod Numbers
pub mod Freeze
pub mod Equal
pub mod WellFormed
pub mod RoundTrip
pub mod Sound
pub mod Equivalence
pub use Values.{
  Float, finite, infinity, nan, FrozenJson, null, bool, int, float, str, tuple, object, Items, nil,
  cons, Fields, end, field,
}
unfoldable pub use Values.{
  field_lookup, field_insert, has_field, field_append, item_at, items_length, fields_length,
}

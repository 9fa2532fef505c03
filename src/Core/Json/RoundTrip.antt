-- ===== src/Core/Json/RoundTrip.antt =====
-- `freeze_json` and `thaw_json` of core/json.py, one after the other.
use foliqant.Prelude.{ℕ, ◌+◌, ◌≤◌, ◌≡◌, refl, ◌∙◌, false, arith, ltb}
use foliqant.Core.Result.{ok}
use foliqant.Core.Json.Values.{
  finite, infinity, nan, FrozenJson, Items, nil, cons, Fields, end, field, field_insert,
  field_append,
}
use foliqant.Core.Json.Freeze.{
  visit, visit_items, visit_entries, freeze_json, thaw_json, thaw_items, thaw_fields, as_raw,
  as_raw_items, as_raw_fields, refreeze,
}
use foliqant.Core.Json.WellFormed.{
  depth, depth_items, depth_fields, IsWellFormed, AreWellFormed, HasWellFormed, IsFresh,
  field_insert_new, IsFresh-insert, IsFresh-end, field_append_assoc, field_append-end,
}

within : (limit d : ℕ) → d ≤ limit → ltb limit d ≡ false
within limit d h = ground arith

mutual
  unfolding visit thaw_json depth IsWellFormed field_append

  visit-thaw :
      (v : FrozenJson) (limit d : ℕ)
      → IsWellFormed v
      → d + depth v ≤ limit
      → visit limit d (thaw_json v) ≡ ok v
  visit-thaw FrozenJson.null limit d w h = rw (within limit d (omega arith))
  visit-thaw (FrozenJson.bool b) limit d w h = rw (within limit d (omega arith))
  visit-thaw (FrozenJson.int n) limit d w h = rw (within limit d (omega arith))
  visit-thaw (FrozenJson.float (finite m)) limit d w h = rw (within limit d (omega arith))
  visit-thaw (FrozenJson.float (infinity _)) limit d w h = absurd w
  visit-thaw (FrozenJson.float nan) limit d w h = absurd w
  visit-thaw (FrozenJson.str s) limit d w h = rw (within limit d (omega arith))
  visit-thaw (FrozenJson.tuple xs) limit d w h =
      rw (within limit d (omega arith), visit_items-thaw xs limit d w h)
  visit-thaw (FrozenJson.object fs) limit d w h =
      rw (within limit d (omega arith), visit_entries-thaw fs limit d end w (IsFresh-end fs) h)

  visit_items-thaw :
      (xs : Items) (limit d : ℕ)
      → AreWellFormed xs
      → d + depth_items xs ≤ limit
      → visit_items limit d (thaw_items xs) ≡ ok xs
  visit_items-thaw nil limit d w h = refl
  visit_items-thaw (cons x xs) limit d w h =
      rw (
        visit-thaw x limit (d + 1) w.0 (omega arith),
        visit_items-thaw xs limit d w.1 (omega arith),
      )

  visit_entries-thaw :
      (fs : Fields) (limit d : ℕ) (acc : Fields)
      → HasWellFormed fs
      → IsFresh acc fs
      → d + depth_fields fs ≤ limit
      → visit_entries limit d acc (thaw_fields fs) ≡ ok (field_append acc fs)
  visit_entries-thaw end limit d acc w fresh h = rw (field_append-end acc)
  visit_entries-thaw (field k v fs) limit d acc w fresh h = rw (
    visit-thaw v limit (d + 1) w.0 (omega arith),
    visit_entries-thaw fs limit d (field_insert k v acc) w.2 (IsFresh-insert k v acc fs fresh.1 w.1)
        (omega arith),
    field_insert_new k v acc fresh.0,
    field_append_assoc acc (field k v end) fs,
  )

mutual
  unfolding visit thaw_json as_raw

  visit-as_raw :
      (v : FrozenJson) (limit d : ℕ) → visit limit d (as_raw v) ≡ visit limit d (thaw_json v)
  visit-as_raw (FrozenJson.tuple xs) limit d = rw (visit_items-as_raw xs limit d)
  visit-as_raw (FrozenJson.object fs) limit d = rw (visit_entries-as_raw fs limit d end)
  visit-as_raw v limit d = refl

  visit_items-as_raw :
      (xs : Items) (limit d : ℕ)
      → visit_items limit d (as_raw_items xs) ≡ visit_items limit d (thaw_items xs)
  visit_items-as_raw nil limit d = refl
  visit_items-as_raw (cons x xs) limit d =
      rw (visit-as_raw x limit (d + 1), visit_items-as_raw xs limit d)

  visit_entries-as_raw :
      (fs : Fields) (limit d : ℕ) (acc : Fields)
      → visit_entries limit d acc (as_raw_fields fs) ≡ visit_entries limit d acc (thaw_fields fs)
  visit_entries-as_raw end limit d acc = refl
  visit_entries-as_raw (field k v fs) limit d acc =
      simp (visit-as_raw v limit (d + 1), visit_entries-as_raw fs limit d)

-- A well-formed value that is nested no deeper than the limit is frozen to itself, when it comes
-- back as plain lists and dictionaries and when it comes back as the frozen value it is.
pub freeze-thaw :
    (limit : ℕ) (v : FrozenJson)
    → IsWellFormed v
    → depth v ≤ limit
    → (freeze_json limit (thaw_json v) ≡ ok v) × (refreeze limit v ≡ ok v)
unfolding refreeze
freeze-thaw limit v w h = (
  visit-thaw v limit 0 w (omega arith),
  visit-as_raw v limit 0 ∙ visit-thaw v limit 0 w (omega arith),
)

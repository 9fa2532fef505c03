-- ===== src/Core/Json/Sound.antt =====
-- The results of `freeze_json` of core/json.py.
use foliqant.Prelude.{ℕ, ◌+◌, ◌≤◌, ◌≡◌, refl, inl, inr, arith, ltb, Bool-cases}
use foliqant.Core.Errors.{invalid_input, service_error}
use foliqant.Core.Result.{Result, ok, err, raise, raise_if, ◌>>=◌}
use foliqant.Core.Json.Values.{
  finite, infinity, nan, FrozenJson, Items, cons, Fields, end, field_insert,
}
use foliqant.Core.Json.Freeze.{
  Raw, RawItems, RawEntries, none_left, item, empty, entry, text, not_text, visit, visit_items,
  visit_entries, freeze_json,
}
use foliqant.Core.Json.WellFormed.{
  depth, depth_items, depth_fields, IsWellFormed, AreWellFormed, HasWellFormed,
  field_insert-HasWellFormed, depth-field_insert,
}

-- What holds of a result, whichever way the call ended.
abbrev Fits : ℕ → ℕ → Result FrozenJson → Type 0
Fits limit d (ok v) = IsWellFormed v × (d + depth v ≤ limit)
Fits limit d (err e) = e ≡ service_error invalid_input

abbrev FitsItems : ℕ → ℕ → Result Items → Type 0
FitsItems limit d (ok xs) = AreWellFormed xs × (d + depth_items xs ≤ limit)
FitsItems limit d (err e) = e ≡ service_error invalid_input

abbrev FitsFields : ℕ → ℕ → Result Fields → Type 0
FitsFields limit d (ok fs) = HasWellFormed fs × (d + depth_fields fs ≤ limit)
FitsFields limit d (err e) = e ≡ service_error invalid_input

module _ (limit d : ℕ) where
  Fits-bind_items :
      (r : Result FrozenJson) (s : Result Items)
      → Fits limit (d + 1) r
      → FitsItems limit d s
      → FitsItems limit d (r >>= λ y. s >>= λ ys. ok (cons y ys))
  unfolding depth IsWellFormed
  Fits-bind_items (ok y) (ok ys) h hs = ((h.0, hs.0), omega arith)
  Fits-bind_items (ok y) (err e) h hs = hs
  Fits-bind_items (err e) s h hs = h

  Fits-bind_entry :
      (r : Result FrozenJson) (f : FrozenJson → Result Fields)
      → Fits limit (d + 1) r
      → ((y : FrozenJson) → IsWellFormed y → d + 1 + depth y ≤ limit → FitsFields limit d (f y))
      → FitsFields limit d (r >>= f)
  Fits-bind_entry (ok y) f h k = k y h.0 h.1
  Fits-bind_entry (err e) f h k = h

  Fits-tuple :
      (s : Result Items) → FitsItems limit d s → Fits limit d (s >>= λ ys. ok (FrozenJson.tuple ys))
  unfolding depth IsWellFormed
  Fits-tuple (ok ys) h = h
  Fits-tuple (err e) h = h

  Fits-object :
      (s : Result Fields)
      → FitsFields limit d s
      → Fits limit d (s >>= λ fs. ok (FrozenJson.object fs))
  unfolding depth IsWellFormed
  Fits-object (ok fs) h = h
  Fits-object (err e) h = h

  -- the depth test, and then the rest
  Fits-guard :
      (r : Result FrozenJson)
      → (d ≤ limit → Fits limit d r)
      → Fits limit d (raise_if (ltb limit d) invalid_input >>= λ _. r)
  Fits-guard r k = elim (Bool-cases (ltb limit d)) [
    | inl deep ↦ rw deep refl
    | inr fits ↦ rw fits (k (ground arith))
  ]

mutual
  unfolding visit depth IsWellFormed

  visit-Fits : (r : Raw) (limit d : ℕ) → Fits limit d (visit limit d r)
  visit-Fits Raw.null limit d = Fits-guard limit d _ (λ h. (tt, omega arith))
  visit-Fits (Raw.bool b) limit d = Fits-guard limit d _ (λ h. (tt, omega arith))
  visit-Fits (Raw.int n) limit d = Fits-guard limit d _ (λ h. (tt, omega arith))
  visit-Fits (Raw.float (finite m)) limit d = Fits-guard limit d _ (λ h. (tt, omega arith))
  visit-Fits (Raw.float (infinity b)) limit d = Fits-guard limit d _ (λ h. refl)
  visit-Fits (Raw.float nan) limit d = Fits-guard limit d _ (λ h. refl)
  visit-Fits (Raw.str s) limit d = Fits-guard limit d _ (λ h. (tt, omega arith))
  visit-Fits (Raw.list xs) limit d =
      Fits-guard limit d _ (λ h. Fits-tuple limit d _ (visit_items-Fits xs limit d h))
  visit-Fits (Raw.tuple xs) limit d =
      Fits-guard limit d _ (λ h. Fits-tuple limit d _ (visit_items-Fits xs limit d h))
  visit-Fits (Raw.mapping es) limit d =
      Fits-guard limit d _
        (λ h. Fits-object limit d _ (visit_entries-Fits es limit d end tt (omega arith)))
  visit-Fits Raw.other limit d = refl

  visit_items-Fits :
      (xs : RawItems) (limit d : ℕ) → d ≤ limit → FitsItems limit d (visit_items limit d xs)
  visit_items-Fits none_left limit d h = (tt, omega arith)
  visit_items-Fits (item x xs) limit d h =
      Fits-bind_items limit d _ _ (visit-Fits x limit (d + 1)) (visit_items-Fits xs limit d h)

  visit_entries-Fits :
      (es : RawEntries) (limit d : ℕ) (acc : Fields)
      → HasWellFormed acc
      → d + depth_fields acc ≤ limit
      → FitsFields limit d (visit_entries limit d acc es)
  visit_entries-Fits empty limit d acc w h = (w, h)
  visit_entries-Fits (entry not_text x es) limit d acc w h = refl
  visit_entries-Fits (entry (text k) x es) limit d acc w h =
      Fits-bind_entry limit d _ _ (visit-Fits x limit (d + 1)) (λ y wy hy.
        visit_entries-Fits es limit d (field_insert k y acc)
          (field_insert-HasWellFormed k y acc wy w) (omega (arith, depth-field_insert k y acc)))

-- The outcome of `freeze_json`: a well-formed value within the depth limit, or `invalid_input`.
pub data Frozen (limit : ℕ) (r : Result FrozenJson) : Type 0 where
  accepted : (v : FrozenJson) → r ≡ ok v → IsWellFormed v → depth v ≤ limit → Frozen limit r
  rejected : r ≡ raise invalid_input → Frozen limit r

-- Whatever the object, `freeze_json` returns a well-formed value that is nested no deeper than the
-- limit, or it raises `invalid_input` and nothing else.
pub freeze_outcome : (limit : ℕ) (r : Raw) → Frozen limit (freeze_json limit r)
unfolding freeze_json
freeze_outcome limit r = report (visit limit 0 r) (visit-Fits r limit 0)
  where
    report : (s : Result FrozenJson) → Fits limit 0 s → Frozen limit s
    report (ok v) h = Frozen.accepted v refl h.0 (omega arith)
    report (err e) h = Frozen.rejected (rw h)

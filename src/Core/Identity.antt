-- ===== src/Core/Identity.antt =====
-- core/identity.py: the identifiers of tenants and principals.
use Prim.Native.String.{count}
use foliqant.Prelude.{ℕ, code, String, Bool, true, not, ◌&&◌, ◌||◌, ltb, leb}
use foliqant.Core.Errors.{invalid_input}
use foliqant.Core.Result.{Result, ok, raise, raise_if, ◌>>◌}
use foliqant.Core.Json.{FrozenJson, str}
use foliqant.Core.Budget.{is_blank}

abbrev pub identity_max_length : ℕ
identity_max_length = 256

-- `[\x00-\x1f\x7f-\x9f]`
is_control : ℕ → Bool
is_control c = leb c 0x1f || (leb 0x7f c && leb c 0x9f)

no_control : String → Bool
unfolding is_control
no_control String.[] = true
no_control (String.◌∷◌ c s) = not (is_control (code c)) && no_control s

-- `_VALID_ID.fullmatch`
unfoldable pub is_valid_id : String → Bool
unfolding no_control is_blank
is_valid_id s = no_control s && not (is_blank s)

-- `validate_identity_id`
unfoldable pub validate_identity_id : FrozenJson → Result String
unfolding is_valid_id
validate_identity_id (str s) = do
  raise_if (ltb identity_max_length (count s) || not (is_valid_id s)) invalid_input
  ok s
validate_identity_id _ = raise invalid_input

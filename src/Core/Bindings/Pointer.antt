-- ===== src/Core/Bindings/Pointer.antt =====
-- `lookup_pointer` of core/bindings.py.
use Prim.Native.String.{count}
use foliqant.Prelude.{
  ℕ, zero, suc, ◌+◌, ◌-◌, ◌*◌, ◌/◌, Char, code, String, Bool, true, false, not, ◌&&◌, ◌||◌, Option,
  none, some, List, [], ◌∷◌, ltb, leb, ◌==◌, if◌then◌else◌, length,
}
use foliqant.Core.Errors.{invalid_configuration}
use foliqant.Core.Result.{Result, ok, raise_if, ◌>>◌}
use foliqant.Core.Json.{FrozenJson, tuple, object, Items, field_lookup, item_at, items_length}
use foliqant.Core.Json.Freeze.{max_json_depth}

-- `pointer and not pointer.startswith("/")`
unfoldable pub lacks_slash : String → Bool
lacks_slash String.[] = false
lacks_slash (String.◌∷◌ c s) = not (code c == b'/')

-- the text begins with `0` or `1`
unfoldable pub begins_binary : String → Bool
begins_binary String.[] = false
begins_binary (String.◌∷◌ c s) = code c == b'0' || code c == b'1'

-- `_INVALID_ESCAPE.search`: a tilde that neither `0` nor `1` follows
unfoldable pub invalid_escape : String → Bool
unfolding begins_binary
invalid_escape String.[] = false
invalid_escape (String.◌∷◌ c s) = (code c == b'~' && not (begins_binary s)) || invalid_escape s

-- a character in front of the first part
unfoldable pub extend_first : Char → List String → List String
extend_first c [] = String.◌∷◌ c String.[] ∷ []
extend_first c (p ∷ parts) = String.◌∷◌ c p ∷ parts

-- `text.split("/")`
unfoldable pub split_slash : String → List String
unfolding extend_first
split_slash String.[] = String.[] ∷ []
split_slash (String.◌∷◌ c s) =
    let rest = split_slash s in if code c == b'/' then String.[] ∷ rest else extend_first c rest

-- `text.replace("~" + digit, symbol)`
unfoldable pub replace_escape : ℕ → Char → String → String
replace_escape digit symbol String.[] = String.[]
replace_escape digit symbol (String.◌∷◌ c String.[]) = String.◌∷◌ c String.[]
replace_escape digit symbol (String.◌∷◌ c (String.◌∷◌ d s)) =
    let replaced = String.◌∷◌ symbol (replace_escape digit symbol s) in
    let kept = String.◌∷◌ c (replace_escape digit symbol (String.◌∷◌ d s)) in
    if code c == b'~' && code d == digit then replaced else kept

-- `part.replace("~1", "/").replace("~0", "~")`
unfoldable pub unescape : String → String
unfolding replace_escape
unescape part = replace_escape b'0' "~" (replace_escape b'1' "/" part)

is_digit : ℕ → Bool
is_digit c = leb b'0' c && leb c b'9'

all_digits : String → Bool
unfolding is_digit
all_digits String.[] = true
all_digits (String.◌∷◌ c s) = is_digit (code c) && all_digits s

-- `_INDEX.fullmatch`: `0`, or digits that do not begin with `0`
unfoldable pub is_index : String → Bool
unfolding all_digits is_digit
is_index String.[] = false
is_index (String.◌∷◌ c String.[]) = is_digit (code c)
is_index (String.◌∷◌ c s) = not (code c == b'0') && is_digit (code c) && all_digits s

-- `int(key)` of a text of digits
decimal : ℕ → String → ℕ
decimal n String.[] = n
decimal n (String.◌∷◌ c s) = decimal (n * 10 + (code c - b'0')) s

-- `len(str(n))`: the first number bounds the number of digits
digits : ℕ → ℕ → ℕ
digits zero n = 1
digits (suc fuel) n = let rest = suc (digits fuel (n / 10)) in if ltb n 10 then 1 else rest

-- one step of the loop, in a tuple
unfoldable pub at_index : String → Items → Option FrozenJson
unfolding is_index decimal digits item_at
at_index key xs =
    if is_index key
      && leb (count key) (digits (items_length xs) (items_length xs))
      && ltb (decimal 0 key) (items_length xs)
    then item_at xs (decimal 0 key)
    else none

-- one step of the loop
unfoldable pub child : String → FrozenJson → Option FrozenJson
unfolding field_lookup at_index
child key (object fs) = field_lookup key fs
child key (tuple xs) = at_index key xs
child key _ = none

-- the loop over the parts; `none` is `(False, None)`
unfoldable pub walk : List String → FrozenJson → Option FrozenJson
walk [] value = some value
walk (part ∷ parts) value = elim (child (unescape part) value) [
  | none ↦ none
  | some v ↦ walk parts v
]

unfoldable pub walk_parts : List String → FrozenJson → Result (Option FrozenJson)
walk_parts parts context = do
  raise_if (ltb max_json_depth (length parts)) invalid_configuration
  ok (walk parts context)

-- the parts behind the leading slash
unfoldable pub parts_of : String → FrozenJson → Result (Option FrozenJson)
parts_of String.[] context = ok (some context)
parts_of (String.◌∷◌ c rest) context = walk_parts (split_slash rest) context

unfoldable pub lookup_pointer : String → FrozenJson → Result (Option FrozenJson)
unfolding parts_of
lookup_pointer pointer context = do
  raise_if (lacks_slash pointer || invalid_escape pointer) invalid_configuration
  parts_of pointer context

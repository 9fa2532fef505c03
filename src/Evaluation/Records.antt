-- ===== src/Evaluation/Records.antt =====
-- `document_path_status` of evaluation/records.py: the status of the step or flow that owns a path.
use Prim.Native.String.{count}
use foliqant.Prelude.{
  String, Bool, true, false, ◌&&◌, ◌||◌, Option, none, some, List, [], ◌∷◌, map, leb, str_eq,
  if◌then◌else◌,
}
use foliqant.Core.Json.{FrozenJson, str, tuple, object, field_lookup}
use foliqant.Core.Bindings.{split_slash, unescape, at_index}

-- `value.get(name)` where it is a mapping, else None
abbrev pub member : String → Option FrozenJson → Option FrozenJson
member name (some (object fs)) = field_lookup name fs
member name _ = none

abbrev pub is_text : String → Option FrozenJson → Bool
is_text text (some (str s)) = str_eq s text
is_text text _ = false

abbrev pub is_mapping : Option FrozenJson → Bool
is_mapping (some (object _)) = true
is_mapping _ = false

-- `items[int(token)]` where the token is the index of an item, in at most four digits
abbrev pub item_of : Option FrozenJson → String → Option FrozenJson
item_of (some (tuple items)) token = if leb (count token) 4 then at_index token items else none
item_of _ token = none

-- the `while` loop: `status` is what was found so far
unfoldable pub status_in : Option FrozenJson → Option FrozenJson → List String → Option FrozenJson
unfolding field_lookup at_index
status_in status flow (p ∷ name ∷ within ∷ q ∷ token ∷ parts) =
    let step = member name (member "steps" flow) in
    let next = item_of (member "items" (member within step)) token in
    let deeper = status_in (member "status" step) next parts in
    if is_mapping flow
    then (if str_eq p "steps" && is_mapping step
        then (if is_text "flow_collection" (member "kind" step)
              && (str_eq within "result" || str_eq within "partial_result")
              && str_eq q "items"
            then deeper
            else member "status" step)
        else member "status" flow)
    else status
status_in status flow (p ∷ name ∷ parts) =
    let step = member name (member "steps" flow) in
    if is_mapping flow
    then member "status" (if str_eq p "steps" && is_mapping step then step else flow)
    else status
status_in status flow parts = if is_mapping flow then member "status" flow else status

abbrev pub text_of : Option FrozenJson → Option String
text_of (some (str s)) = some s
text_of _ = none

abbrev pub status_under : List String → Option FrozenJson → Option String
status_under (root ∷ name ∷ parts) document =
    if str_eq root "flows"
    then text_of (status_in none (member name (member "flows" document)) parts)
    else none
status_under _ document = none

abbrev pub after_first {ℓ} : {A : Type ℓ} → List A → List A
after_first [] = []
after_first (_ ∷ xs) = xs

unfoldable pub document_path_status : String → FrozenJson → Option String
unfolding status_in split_slash unescape
document_path_status path document =
    status_under (map unescape (after_first (split_slash path))) (some document)

-- ===== src/Core/Runner/Collection/Accepted.antt =====
-- The batch of `_execute_collection` of core/runner.py, checked item by item.
use mathlib.Core.Bool.{true≢false}
use foliqant.Core.Errors.{invalid_input, invalid_configuration}
use foliqant.Prelude.{
  ℕ, ◌≡◌, refl, Bool, true, false, not, ◌||◌, Option, some, List, [], ◌∷◌, mem_str, arith, ◌==◌,
  String,
}
use foliqant.Core.Json.{
  Items, nil, cons, FrozenJson, str, object, Fields, field_lookup, fields_length,
}
use foliqant.Core.Result.{ok, OkHas, OkHas-bind, OkHas-ok, OkHas-map, OkHas-raise_if}
use foliqant.Core.Plan.{find_flow}
use foliqant.Core.Exec.{raise_when}
use foliqant.Core.Exec.Yields.{
  Yields, Yields-pure, Yields-throw, Yields-lift_ok, Yields-then, Yields-bind, Yields-or_raise,
}
use foliqant.Core.Runner.Self.{WorkflowRunner}
use foliqant.Core.Runner.Items.{BatchItem}
use foliqant.Core.Runner.Batches.{
  ItemValue, item_fields, item_value, item_of, check_item, parse_item, is_item_id,
}
use foliqant.Core.Runner.Collection.{accept_item, accept_items}

-- The value of an item: an object of an id, a flow's name and an input, and nothing else.
pub record IsItem (id flow : String) (payload : Fields) (v : FrozenJson) : Type 0 where
  pub members : Fields
  pub is_object : v ≡ object members
  pub size : fields_length members ≡ 3
  pub has_id : field_lookup "id" members ≡ some (str id)
  pub has_flow : field_lookup "flow" members ≡ some (str flow)
  pub has_input : field_lookup "input" members ≡ some (object payload)

-- A given value and the item that is made of it, which may run: it has the value's id, which is
-- well formed and no earlier item's, the value's input, and the flow that the value names, which
-- the step allows and is a callable flow of the plan.
pub record IsAccepted (self : WorkflowRunner) (flows seen : List String) (v : FrozenJson)
    (i : BatchItem) : Type 0 where
  pub name : String
  pub given : IsItem i.id name i.payload v
  pub form : is_item_id i.id ≡ true
  pub fresh : mem_str i.id seen ≡ false
  pub callable : i.flow.callable ≡ true
  pub allowed : mem_str name flows ≡ true
  pub found : find_flow name self.plan.flows ≡ some i.flow

-- one item for each value, in their order
abbrev pub AreAccepted :
    WorkflowRunner → List String → List String → Items → List BatchItem → Type 0
AreAccepted self flows seen nil [] = Unit
AreAccepted self flows seen nil (_ ∷ _) = ⊥
AreAccepted self flows seen (cons _ _) [] = ⊥
AreAccepted self flows seen (cons v rest) (i ∷ items) =
    IsAccepted self flows seen v i × AreAccepted self flows (i.id ∷ seen) rest items

-- What the item's own value shows.
record IsParsed (flows seen : List String) (v : FrozenJson) (i : ItemValue) : Type 0 where
  given : IsItem i.id i.flow i.payload v
  form : is_item_id i.id ≡ true
  fresh : mem_str i.id seen ≡ false
  allowed : mem_str i.flow flows ≡ true

item_fields-size :
    (v : FrozenJson) → OkHas (λ fs. (v ≡ object fs) × (fields_length fs ≡ 3)) (item_fields v)
unfolding item_fields
item_fields-size (object fs) =
    OkHas-raise_if (not (fields_length fs == 3)) invalid_input (ok fs)
      (λ h. record { at = (refl, ground arith) })
item_fields-size v = record { at = tt }

item_value-members :
    (id flow payload : Option FrozenJson)
    → OkHas
        (λ i.
          (id ≡ some (str i.id)) × (flow ≡ some (str i.flow)) × (payload ≡ some (object i.payload)))
        (item_value id flow payload)
unfolding item_value
item_value-members (some (str id)) (some (str flow)) (some (object payload)) = record {
  at = (refl, refl, refl);
}
item_value-members id flow payload = record { at = tt }

item_of-IsItem : (v : FrozenJson) → OkHas (λ i. IsItem i.id i.flow i.payload v) (item_of v)
unfolding item_of
item_of-IsItem v = OkHas-bind (item_fields v) _ (λ fs e.
    let (is_object, size) = OkHas-ok (item_fields v) fs (item_fields-size v) e in
    OkHas-map _
      (λ i (has_id, has_flow, has_input). record {
        members = fs;
        is_object = is_object;
        size = size;
        has_id = has_id;
        has_flow = has_flow;
        has_input = has_input;
      })
      (item_value-members (field_lookup "id" fs) (field_lookup "flow" fs)
        (field_lookup "input" fs)))

all_passed :
    (form fresh allowed : Bool)
    → (not form || fresh || not allowed) ≡ false
    → (form ≡ true) × (fresh ≡ false) × (allowed ≡ true)
all_passed true false true e = (refl, refl, refl)
all_passed false fresh allowed e = absurd (true≢false e)
all_passed true true allowed e = absurd (true≢false e)
all_passed true false false e = absurd (true≢false e)

check_item-IsParsed :
    (flows seen : List String) (v : FrozenJson) (i : ItemValue)
    → IsItem i.id i.flow i.payload v
    → OkHas (IsParsed flows seen v) (check_item flows seen i)
unfolding check_item
check_item-IsParsed flows seen v i given =
    OkHas-raise_if (not (is_item_id i.id) || mem_str i.id seen || not (mem_str i.flow flows))
      invalid_input (ok i)
      (λ h.
        let (form, fresh, allowed) = all_passed _ _ _ h in
        record { at = record { given = given; form = form; fresh = fresh; allowed = allowed } })

parse_item-IsParsed :
    (flows seen : List String) (v : FrozenJson)
    → OkHas (IsParsed flows seen v) (parse_item flows seen v)
unfolding parse_item
parse_item-IsParsed flows seen v =
    OkHas-bind (item_of v) (check_item flows seen)
      (λ i e. check_item-IsParsed flows seen v i (OkHas-ok (item_of v) i (item_of-IsItem v) e))

module _ (self : WorkflowRunner) where
  only_callable :
      {S : Type 0} (b : Bool)
      → Yields {S = S} (λ _. b ≡ true) (raise_when (not b) invalid_configuration)
  only_callable true = Yields-pure _ refl
  only_callable false = Yields-throw _

  accept_item-IsAccepted :
      (flows seen : List String) (v : FrozenJson) (value : ItemValue)
      → IsParsed flows seen v value
      → Yields (λ i. (i.id ≡ value.id) × IsAccepted self flows seen v i) (accept_item self value)
  unfolding accept_item
  accept_item-IsAccepted flows seen v value p =
      Yields-bind _ _ (Yields-or_raise _ invalid_configuration (λ f e. e)) (λ f found.
        Yields-bind _ _ (only_callable f.callable) (λ _ callable. Yields-then _ _ (λ _.
          Yields-pure _ (
            refl,
            record {
              name = value.flow;
              given = p.given;
              form = p.form;
              fresh = p.fresh;
              callable = callable;
              allowed = p.allowed;
              found = found;
            },
          ))))

  -- A batch that passes the checks has one item for each given value, in their order: it has the
  -- value's id, which is well formed and no earlier item's, the value's input, and the flow that
  -- the value names, which the step allows and is a callable flow of the plan.
  pub accept_items-AreAccepted :
      (flows : List String) (deadline : ℕ) (seen : List String) (items : Items)
      → Yields (AreAccepted self flows seen items) (accept_items self flows deadline seen items)
  unfolding accept_items
  accept_items-AreAccepted flows deadline seen nil = Yields-pure [] tt
  accept_items-AreAccepted flows deadline seen (cons v rest) = Yields-then _ _ (λ _.
      Yields-bind _ _ (Yields-lift_ok _ (parse_item-IsParsed flows seen v)) (λ value p.
        Yields-bind _ _ (accept_item-IsAccepted flows seen v value p) (λ i h.
          Yields-bind _ _ (accept_items-AreAccepted flows deadline (value.id ∷ seen) rest)
            (λ others hs. Yields-pure (i ∷ others) (h.1, rw h.0 hs)))))

-- ===== src/Decisions/Relations/Conditions.antt =====
-- The dictionary of conditions of `validate_request_relations`.
use foliqant.Prelude.{
  Member, ◌≡◌, inl, inr, arith, String, Bool, true, false, ◌&&◌, List, [], ◌∷◌, ◌++◌, any, str_eq,
  if◌then◌else◌, eq_refl,
}
use foliqant.Decisions.Contracts.{
  RequestRelation, conditional_on, requires, precedes, mutually_exclusive,
}
use foliqant.Decisions.Relations.{
  relation_key, ConditionEntry, add_condition, Scan, scan_relation, scan_relations,
}

pub wants : String → String → Bool → List ConditionEntry → Bool
wants request predicate value [] = false
wants request predicate value (e ∷ entries) =
    if str_eq e.request request && str_eq e.predicate predicate
    then (if value then e.wants_true else e.wants_false)
    else wants request predicate value entries

wants-add_condition :
    (r p : String) (v : Bool) (es : List ConditionEntry)
    → wants r p v (add_condition r p v es) ≡ true
unfolding wants add_condition
wants-add_condition r p true [] = ground (arith, eq_refl r, eq_refl p)
wants-add_condition r p false [] = ground (arith, eq_refl r, eq_refl p)
wants-add_condition r p true (e ∷ es) = ground (arith, wants-add_condition r p true es)
wants-add_condition r p false (e ∷ es) = ground (arith, wants-add_condition r p false es)

add_condition-wants :
    (r p : String) (v : Bool) (r' p' : String) (v' : Bool) (es : List ConditionEntry)
    → wants r p v es ≡ true
    → wants r p v (add_condition r' p' v' es) ≡ true
unfolding wants add_condition
add_condition-wants r p v r' p' v' [] h = absurd (cc h)
add_condition-wants r p true r' p' true (e ∷ es) h =
    ground (arith, add_condition-wants r p true r' p' true es)
add_condition-wants r p true r' p' false (e ∷ es) h =
    ground (arith, add_condition-wants r p true r' p' false es)
add_condition-wants r p false r' p' true (e ∷ es) h =
    ground (arith, add_condition-wants r p false r' p' true es)
add_condition-wants r p false r' p' false (e ∷ es) h =
    ground (arith, add_condition-wants r p false r' p' false es)

pub both_wanted :
    (r p : String) (es : List ConditionEntry)
    → wants r p true es ≡ true
    → wants r p false es ≡ true
    → any (λ e. e.wants_true && e.wants_false) es ≡ true
unfolding wants
both_wanted r p [] h k = absurd (cc h)
both_wanted r p (e ∷ es) h k = ground (arith, both_wanted r p es)

module _ (prefix : String) (units predicates : List String) where
  scan_relation-wants :
      (r p : String) (v : Bool) (relation : RequestRelation) (s : Scan)
      → wants r p v s.conditions ≡ true
      → wants r p v (scan_relation prefix units predicates relation s).conditions ≡ true
  unfolding scan_relation
  scan_relation-wants r p v (conditional_on r' p' v') s h =
      add_condition-wants r p v r' p' v' s.conditions h
  scan_relation-wants r p v (requires _ _) s h = h
  scan_relation-wants r p v (precedes _ _) s h = h
  scan_relation-wants r p v (mutually_exclusive _) s h = h

  scanned-wants :
      (r p : String) (v : Bool) (rs : List RequestRelation) (s : Scan)
      → wants r p v s.conditions ≡ true
      → wants r p v (scan_relations prefix units predicates rs s).conditions ≡ true
  unfolding scan_relations
  scanned-wants r p v [] s h = h
  scanned-wants r p v (relation ∷ rs) s h =
      let s' = record s { keys = s.keys ++ relation_key relation ∷ [] } in
      scanned-wants r p v rs (scan_relation prefix units predicates relation s')
        (scan_relation-wants r p v relation s' h)

  -- every condition that was scanned has its value in the dictionary
  pub wants-scanned :
      (r p : String) (v : Bool) (rs : List RequestRelation) (s : Scan)
      → Member (conditional_on r p v) rs
      → wants r p v (scan_relations prefix units predicates rs s).conditions ≡ true
  unfolding scan_relations scan_relation
  wants-scanned r p v [] s m = absurd m
  wants-scanned r p v (relation ∷ rs) s (inr m) = wants-scanned r p v rs _ m
  wants-scanned r p v (relation ∷ rs) s (inl e) =
      let s' = record s { keys = s.keys ++ relation_key relation ∷ [] } in
      scanned-wants r p v rs _ (rw e (wants-add_condition r p v s.conditions))

-- ===== src/BigSegments/DynamoDb/Items.antt =====
-- The items of a patch: which users they add to and remove from which attribute.
use mathlib.Core.List.{append-nil}
use ld_relay.Base.{
  String, map, ◌&&◌, if◌then◌else◌, All-append, ◌≡◌, refl, ◌∙◌, Option, none, some, Bool, true,
  false, List, [], ◌∷◌, ◌++◌, arith, All,
}
use ld_relay.BigSegments.{Bytes, Patch}
use ld_relay.BigSegments.DynamoDb.{
  Attribute, included_attr, excluded_attr, UpdateExpression, update_add, update_remove, update_item,
  TransactItem, condition_check, transaction_items,
}

abbrev pub same_expression : UpdateExpression → UpdateExpression → Bool
same_expression update_add update_add = true
same_expression update_remove update_remove = true
same_expression _ _ = false

abbrev pub same_attribute : Attribute → Attribute → Bool
same_attribute included_attr included_attr = true
same_attribute excluded_attr excluded_attr = true
same_attribute _ _ = false

abbrev pub segment_of : TransactItem → Option Bytes
segment_of (condition_check c) = none
segment_of (update_item e a segment user) = some segment

-- The users of whom items change an attribute by an expression, in their order.
unfoldable pub users_of : UpdateExpression → Attribute → List TransactItem → List String
users_of e a [] = []
users_of e a (condition_check c ∷ items) = users_of e a items
users_of e a (update_item e' a' segment user ∷ items) =
    if same_expression e e' && same_attribute a a'
    then user ∷ users_of e a items
    else users_of e a items

-- The users whom a patch adds to or removes from an attribute.
abbrev pub users_in : Patch → UpdateExpression → Attribute → List String
users_in p update_add included_attr = p.included.add
users_in p update_add excluded_attr = p.excluded.add
users_in p update_remove included_attr = p.included.remove
users_in p update_remove excluded_attr = p.excluded.remove

-- The item is an update of the segment.
abbrev pub Updates : Bytes → TransactItem → Type 0
Updates segment i = segment_of i ≡ some segment

users_of-append :
    (e : UpdateExpression) (a : Attribute) (xs ys : List TransactItem)
    → users_of e a (xs ++ ys) ≡ users_of e a xs ++ users_of e a ys
unfolding users_of
users_of-append e a [] ys = refl
users_of-append e a (condition_check c ∷ xs) ys = users_of-append e a xs ys
users_of-append e a (update_item e' a' segment user ∷ xs) ys =
    ground (arith, users_of-append e a xs ys)

users_of-map :
    (e e' : UpdateExpression) (a a' : Attribute) (segment : Bytes) (us : List String)
    → users_of e a (map (update_item e' a' segment) us)
      ≡ (if same_expression e e' && same_attribute a a' then us else [])
unfolding users_of
users_of-map e e' a a' segment [] = ground arith
users_of-map e e' a a' segment (u ∷ us) = ground (arith, users_of-map e e' a a' segment us)

users_of-loops :
    (p : Patch) (e : UpdateExpression) (a : Attribute)
    → let of : UpdateExpression → Attribute → List String → List String =
        λ e' a' us. if same_expression e e' && same_attribute a a' then us else [] in
      users_of e a (transaction_items p)
      ≡ of update_add included_attr p.included.add
        ++ (of update_add excluded_attr p.excluded.add
            ++ (of update_remove included_attr p.included.remove
                ++ of update_remove excluded_attr p.excluded.remove))
unfolding transaction_items
users_of-loops p e a =
    let loop : UpdateExpression → Attribute → List String → List TransactItem =
      λ e' a' us. map (update_item e' a' p.segment_id) us in
    let adds = loop update_add excluded_attr p.excluded.add in
    let removes = loop update_remove included_attr p.included.remove in
    let last = loop update_remove excluded_attr p.excluded.remove in
    rw
      (
        users_of-append e a (loop update_add included_attr p.included.add)
            (adds ++ (removes ++ last)),
        users_of-append e a adds (removes ++ last),
        users_of-append e a removes last,
        users_of-map e update_add a included_attr p.segment_id p.included.add,
        users_of-map e update_add a excluded_attr p.segment_id p.excluded.add,
        users_of-map e update_remove a included_attr p.segment_id p.included.remove,
        users_of-map e update_remove a excluded_attr p.segment_id p.excluded.remove,
      )
      refl

-- The items of each kind are the patch's updates of the kind.
pub users_of-transaction_items :
    (p : Patch) (e : UpdateExpression) (a : Attribute)
    → users_of e a (transaction_items p) ≡ users_in p e a
users_of-transaction_items p update_add included_attr =
    users_of-loops p update_add included_attr ∙ append-nil p.included.add
users_of-transaction_items p update_add excluded_attr =
    users_of-loops p update_add excluded_attr ∙ append-nil p.excluded.add
users_of-transaction_items p update_remove included_attr =
    users_of-loops p update_remove included_attr ∙ append-nil p.included.remove
users_of-transaction_items p update_remove excluded_attr =
    users_of-loops p update_remove excluded_attr

map-Updates :
    (e : UpdateExpression) (a : Attribute) (segment : Bytes) (us : List String)
    → All (Updates segment) (map (update_item e a segment) us)
map-Updates e a segment [] = tt
map-Updates e a segment (u ∷ us) = (refl, map-Updates e a segment us)

pub transaction_items-Updates : (p : Patch) → All (Updates p.segment_id) (transaction_items p)
unfolding transaction_items
transaction_items-Updates p =
    let Here = Updates p.segment_id in
    let loop : UpdateExpression → Attribute → List String → List TransactItem =
      λ e a us. map (update_item e a p.segment_id) us in
    let adds = loop update_add excluded_attr p.excluded.add in
    let removes = loop update_remove included_attr p.included.remove in
    let last = loop update_remove excluded_attr p.excluded.remove in
    All-append Here (loop update_add included_attr p.included.add) (adds ++ (removes ++ last))
      (map-Updates update_add included_attr p.segment_id p.included.add)
      (All-append Here adds (removes ++ last)
        (map-Updates update_add excluded_attr p.segment_id p.excluded.add)
        (All-append Here removes last
          (map-Updates update_remove included_attr p.segment_id p.included.remove)
          (map-Updates update_remove excluded_attr p.segment_id p.excluded.remove)))

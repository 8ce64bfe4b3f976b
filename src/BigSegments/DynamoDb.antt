-- ===== src/BigSegments/DynamoDb.antt =====
-- internal/bigsegments/store_dynamodb.go: the store as an instance of the interface. The client of
-- DynamoDB and `strconv` are parameters; an item that is written says which attribute of which user is
-- changed, the table and the names of the attributes are left out. Connecting is left out.
pub mod Items
pub mod Batches
use ld_relay.Base.{
  ℕ, zero, suc, ◌+◌, ◌-◌, String, Option, none, some, Bool, true, false, List, [], ◌∷◌, ◌++◌, map,
  ite, string_discrete, if◌then◌else◌, length, take, drop, ltb,
}
use ld_relay.BigSegments.{Bytes, Patch, Store}

abbrev pub dynamo_transaction_max_items : ℕ
dynamo_transaction_max_items = 25

pub data Attribute : Type 0 where
  included_attr excluded_attr : Attribute

pub data UpdateExpression : Type 0 where
  update_add update_remove : UpdateExpression

-- `attribute_not_exists(#0) or #0 = :0`, or only the second.
pub data Condition : Type 0 where
  not_exists_or_is is : String → Condition

pub data TransactItem : Type 0 where
  condition_check : Condition → TransactItem
  update_item : UpdateExpression → Attribute → Bytes → String → TransactItem

-- The codes of a cancelled transaction, `none` for a nil code.
pub data WriteError : Type 0 where
  transaction_canceled : List (Option String) → WriteError
  other_error : WriteError

-- What is read from the metadata: an error, an attribute of a type, or anything else.
pub data ItemReply : Type 0 where
  item_error no_value : ItemReply
  string_value number_value : String → ItemReply

-- `update_cursor` and `update_sync_time` are updates of the metadata; they say if they have succeeded.
pub record DynamoClient (D : Type 0) : Type 0 where
  pub transact_write_items : List TransactItem → D → D × Option WriteError
  pub update_cursor : Condition → String → D → D × Bool
  pub update_sync_time : String → D → D × Bool
  pub get_cursor_item : D → ItemReply
  pub get_sync_time_item : D → ItemReply

unfoldable pub make_cursor_update_condition : String → Condition
make_cursor_update_condition previous =
    ite (string_discrete previous "") (not_exists_or_is previous) (is previous)

abbrev pub make_transaction_item : UpdateExpression → Attribute → Bytes → String → TransactItem
make_transaction_item = update_item

-- The four loops.
unfoldable pub transaction_items : Patch → List TransactItem
transaction_items p =
    map (make_transaction_item update_add included_attr p.segment_id) p.included.add
    ++ (map (make_transaction_item update_add excluded_attr p.segment_id) p.excluded.add
        ++ (map (make_transaction_item update_remove included_attr p.segment_id) p.included.remove
            ++ map (make_transaction_item update_remove excluded_attr p.segment_id)
                p.excluded.remove))

unfoldable pub condition_failed : List (Option String) → Bool
condition_failed [] = false
condition_failed (none ∷ cs) = condition_failed cs
condition_failed (some c ∷ cs) =
    ite (string_discrete c "ConditionalCheckFailed") true (condition_failed cs)

-- What the function returns for a failed transaction.
unfoldable pub failure : WriteError → Option Bool
unfolding condition_failed
failure (transaction_canceled codes) = if condition_failed codes then some false else none
failure other_error = none

-- `l[start:end]`
abbrev pub slice : {A : Type 0} → ℕ → ℕ → List A → List A
slice start end l = take (end - start) (drop start l)

unfoldable pub batch_end : ℕ → ℕ → ℕ
batch_end start n =
    let end = start + dynamo_transaction_max_items - 1 in if ltb n end then n else end

module _ {D : Type 0} (client : DynamoClient D) where
  -- The loop over the batches, on fuel: `some` is an early return.
  unfoldable pub batch_loop : ℕ → Condition → ℕ → List TransactItem → D → D × Option (Option Bool)
  unfolding batch_end failure
  batch_loop zero c start items d = (d, none)
  batch_loop (suc fuel) c start items d =
      let (d', result) =
        client.transact_write_items
          (condition_check c ∷ slice start (batch_end start (length items)) items) d in
      let rest = batch_loop fuel c (start + (dynamo_transaction_max_items - 1)) items d' in
      if ltb start (length items)
      then elim result [ none ↦ rest | some e ↦ (d', some (failure e)) ]
      else (d, none)

  -- There are at most as many batches as items.
  unfoldable pub apply_patch : Patch → D → D × Option Bool
  unfolding transaction_items make_cursor_update_condition batch_loop
  apply_patch p d =
      let items = transaction_items p in
      let c = make_cursor_update_condition p.previous_version in
      let (d', stopped) = batch_loop (length items) c 0 items d in
      elim stopped [
        | some result ↦ (d', result)
        | none ↦
            let (d'', updated) = client.update_cursor c p.version d' in
            (d'', if updated then some true else none)
      ]

  unfoldable pub get_cursor : D → Option String
  get_cursor d = elim (client.get_cursor_item d) [
    | item_error ↦ none
    | string_value s ↦ some s
    | _ ↦ some ""
  ]

  module _ (format_uint : ℕ → String) (parse_uint : String → Option ℕ) where
    unfoldable pub set_synchronized_on : ℕ → D → Option D
    set_synchronized_on synchronized_on d =
        let (d', updated) = client.update_sync_time (format_uint synchronized_on) d in
        if updated then some d' else none

    unfoldable pub get_synchronized_on : D → Option ℕ
    get_synchronized_on d = elim (client.get_sync_time_item d) [
      | item_error ↦ none
      | number_value n ↦ parse_uint n
      | _ ↦ some 0
    ]

    unfoldable pub dynamodb_store : Store D
    unfolding get_cursor apply_patch set_synchronized_on
    dynamodb_store = record {
      get_cursor = get_cursor;
      apply_patch = apply_patch;
      set_synchronized_on = set_synchronized_on;
    }

-- ===== src/BigSegments/DynamoDb/Batches.antt =====
-- The transactions into which a patch is divided.
use mathlib.Core.Path.{subst}
use ld_relay.Base.{
  String, any, ite, string_discrete, if◌then◌else◌, ℕ, zero, suc, ◌+◌, ◌-◌, ◌≤◌, ◌≡◌, refl, ap, ◌∙◌,
  sym, fun_ext, Option, none, some, Bool, true, false, List, [], ◌∷◌, ◌++◌, inl, inr, Bool-cases,
  arith, length, take, drop, flatten, All, ltb, length-take, length-drop, take-append-drop,
  drop-drop, take_enough,
}
use ld_relay.BigSegments.{Patch}
use ld_relay.BigSegments.DynamoDb.{
  Attribute, UpdateExpression, dynamo_transaction_max_items, Condition, TransactItem,
  condition_check, WriteError, DynamoClient, transaction_items, failure, condition_failed,
  transaction_canceled, other_error, slice, batch_end, batch_loop,
}
use ld_relay.BigSegments.DynamoDb.Items.{
  users_of, users_in, Updates, users_of-transaction_items, transaction_items-Updates,
}

-- The batches of the loop.
unfoldable pub chunks : ℕ → List TransactItem → List (List TransactItem)
chunks zero items = []
chunks (suc fuel) [] = []
chunks (suc fuel) (x ∷ xs) = take 24 (x ∷ xs) ∷ chunks fuel (drop 24 (x ∷ xs))

chunks-flatten :
    (fuel : ℕ) (items : List TransactItem)
    → length items ≤ fuel
    → flatten (chunks fuel items) ≡ items
unfolding chunks
chunks-flatten zero [] h = refl
chunks-flatten zero (x ∷ xs) h = ground arith
chunks-flatten (suc fuel) [] h = refl
chunks-flatten (suc fuel) (x ∷ xs) h =
    let shorter : length (drop 24 (x ∷ xs)) ≤ fuel = omega (arith, length-drop 24 (x ∷ xs), h) in
    ap (◌++◌ (take 24 (x ∷ xs))) (chunks-flatten fuel (drop 24 (x ∷ xs)) shorter)
    ∙ take-append-drop 24 (x ∷ xs)

-- With the condition a transaction has at most 25 items, and it has an update.
abbrev pub Fits : List TransactItem → Type 0
Fits b = (1 ≤ length b) × (length b + 1 ≤ dynamo_transaction_max_items)

chunks-Fits : (fuel : ℕ) (items : List TransactItem) → All Fits (chunks fuel items)
unfolding chunks
chunks-Fits zero items = tt
chunks-Fits (suc fuel) [] = tt
chunks-Fits (suc fuel) (x ∷ xs) = (
  (omega (arith, length-take 24 (x ∷ xs)), omega (arith, length-take 24 (x ∷ xs))),
  chunks-Fits fuel (drop 24 (x ∷ xs)),
)

slice-take :
    (start : ℕ) (items : List TransactItem)
    → slice start (batch_end start (length items)) items ≡ take 24 (drop start items)
unfolding batch_end
slice-take start items = elim (Bool-cases (ltb (length items) (start + 25 - 1))) [
  | inl e ↦ rw e (
      take_enough (length items - start) 24 (drop start items)
        (omega (arith, length-drop start items)) (ground (arith, e, length-drop start items)))
  | inr e ↦
      let q : start + 25 - 1 - start ≡ 24 = omega arith in
      rw e (ap (λ k. take k (drop start items)) q)
]

drop_zero : (items : List TransactItem) → drop 0 items ≡ items
drop_zero [] = refl
drop_zero (x ∷ xs) = refl

-- Does the code say that the condition has failed?
abbrev pub is_condition_code : Option String → Bool
is_condition_code none = false
is_condition_code (some code) = ite (string_discrete code "ConditionalCheckFailed") true false

-- A failed transaction means that the patch does not apply if any code says that its condition has failed,
-- and an error otherwise.
abbrev pub refusal : WriteError → Option Bool
refusal (transaction_canceled codes) = if any codes is_condition_code then some false else none
refusal other_error = none

condition_failed-any :
    (codes : List (Option String)) → condition_failed codes ≡ any codes is_condition_code
unfolding condition_failed
condition_failed-any [] = refl
condition_failed-any (none ∷ codes) = condition_failed-any codes
condition_failed-any (some code ∷ codes) = ground (arith, condition_failed-any codes)

failure-refusal : (e : WriteError) → failure e ≡ refusal e
unfolding failure
failure-refusal (transaction_canceled codes) =
    ap (λ b. if b then some false else none) (condition_failed-any codes)
failure-refusal other_error = refl

module _ {D : Type 0} (client : DynamoClient D) (c : Condition) where
  -- The transactions, one after the other up to the first that fails.
  unfoldable pub run_batches : List (List TransactItem) → D → D × Option (Option Bool)
  run_batches [] d = (d, none)
  run_batches (b ∷ bs) d =
      let (d', result) = client.transact_write_items (condition_check c ∷ b) d in
      let rest = run_batches bs d' in elim result [ none ↦ rest | some e ↦ (d', some (refusal e)) ]

  -- After a transaction: go on, or return what `ret` makes of the error.
  continue_after :
      (WriteError → Option Bool)
      → D × Option WriteError
      → (D → D × Option (Option Bool))
      → D × Option (Option Bool)
  continue_after ret (d, result) rest = elim result [ none ↦ rest d | some e ↦ (d, some (ret e)) ]

  loop-chunks :
      (fuel start : ℕ) (items rest : List TransactItem) (d : D)
      → drop start items ≡ rest
      → batch_loop client fuel c start items d ≡ run_batches (chunks fuel rest) d
  unfolding batch_loop run_batches chunks continue_after
  loop-chunks zero start items rest d e = refl
  loop-chunks (suc fuel) start items [] d e =
      let past : ltb start (length items) ≡ false = ground (arith, length-drop start items, e) in
      rw past refl
  loop-chunks (suc fuel) start items (x ∷ xs) d e =
      let before : ltb start (length items) ≡ true = ground (arith, length-drop start items, e) in
      let b : slice start (batch_end start (length items)) items ≡ take 24 (x ∷ xs) =
        slice-take start items ∙ ap (take 24) e in
      let next : drop (start + 24) items ≡ drop 24 (x ∷ xs) =
        sym (drop-drop 24 start items) ∙ ap (drop 24) e in
      let transact : List TransactItem → D × Option WriteError =
        λ batch. client.transact_write_items (condition_check c ∷ batch) d in
      let go : (WriteError → Option Bool) → List TransactItem → D × Option (Option Bool) =
        λ ret batch.
          continue_after ret (transact batch) (batch_loop client fuel c (start + 24) items) in
      let unrolled : batch_loop client (suc fuel) c start items d
          ≡ go failure (slice start (batch_end start (length items)) items) =
        rw (batch_loop, before) refl in
      unrolled
      ∙ (ap (go failure) b
          ∙ (ap (λ ret. go ret (take 24 (x ∷ xs))) (fun_ext failure-refusal)
              ∙ ap (continue_after refusal (transact (take 24 (x ∷ xs))))
                  (fun_ext (λ d'. loop-chunks fuel (start + 24) items (drop 24 (x ∷ xs)) d' next))))

  -- A patch is written in transactions of at most 25 items, each of which checks the cursor first. They are
  -- run one after the other up to the first that fails, and all of them if none does; one that fails because a
  -- condition has failed says that the patch does not apply, any other failure is an error. Together they
  -- only hold updates of the patch's segment: for either attribute, additions of exactly the users whom the
  -- patch adds, and removals of exactly those whom it removes, each once and in order.
  pub batch_loop_complete :
      (p : Patch) (e : UpdateExpression) (a : Attribute) (d : D)
      → let items = transaction_items p in
        let batches = chunks (length items) items in
        (batch_loop client (length items) c 0 items d ≡ run_batches batches d)
        × (users_of e a (flatten batches) ≡ users_in p e a)
        × All (Updates p.segment_id) (flatten batches)
        × All Fits batches
  batch_loop_complete p e a d =
      let items = transaction_items p in
      let whole = chunks-flatten (length items) items (omega arith) in
      (
        loop-chunks (length items) 0 items items d (drop_zero items),
        ap (users_of e a) whole ∙ users_of-transaction_items p e a,
        subst (All (Updates p.segment_id)) (sym whole) (transaction_items-Updates p),
        chunks-Fits (length items) items,
      )

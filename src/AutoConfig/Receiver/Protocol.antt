-- ===== src/AutoConfig/Receiver/Protocol.antt =====
-- The order of the actions that the receiver returns for one id: the contract that the comment on
-- `Action` states.
use ld_relay.Base.{
  Option-cases, ℕ, String, ◌≡◌, refl, ◌⊎◌, Option, none, some, Bool, true, false, not, List, [],
  ◌∷◌, ◌++◌, inl, inr, map, ite, string_discrete, Bool-cases, arith,
}
use ld_relay.Base.Assoc.{lookup, lookup-insert, lookup-delete, keys}
use ld_relay.Credential.{string_key}
use ld_relay.AutoConfig.Receiver.{
  Action, action_insert, action_update, action_delete, action_noop, Versioned, Receiver,
  new_versioned, new_tombstone, entomb, update, upsert, remove, forget, purge_loop, add_deleted,
  retain,
}

abbrev pub live_of : {T : Type 0} → Option (Versioned T) → Bool
live_of none = false
live_of (some v) = not v.entombed

-- The item exists for the rest of the system.
abbrev pub live : {T : Type 0} → String → Receiver T → Bool
live id r = live_of (lookup id r.seen)

-- The contract: insert what is not there, update and delete what is there. `none` is a violation.
abbrev pub accept : Bool → Action → Option Bool
accept false action_insert = some true
accept true action_insert = none
accept true action_update = some true
accept false action_update = none
accept true action_delete = some false
accept false action_delete = none
accept b action_noop = some b

unfoldable pub follow : Option Bool → List Action → Option Bool
follow none acts = none
follow (some b) [] = some b
follow (some b) (a ∷ acts) = follow (accept b a) acts

pub data Message (T : Type 0) : Type 0 where
  msg_upsert : String → T → ℕ → Message T
  msg_delete : String → ℕ → Message T
  msg_forget : String → Message T
  msg_retain : (String → Bool) → Message T

-- The action of a call is about the id of the call.
abbrev pub tag : {T : Type 0} → String → Receiver T × Action → Receiver T × List (String × Action)
tag id (r, a) = (r, (id, a) ∷ [])

abbrev pub tag_deleted :
    {T : Type 0} → Receiver T × List String → Receiver T × List (String × Action)
tag_deleted (r, ids) = (r, map (λ id. (id, action_delete)) ids)

unfoldable pub receive : {T : Type 0} → Message T → Receiver T → Receiver T × List (String × Action)
receive (msg_upsert id item version) r = tag id (upsert id item version r)
receive (msg_delete id version) r = tag id (remove id version r)
receive (msg_forget id) r = tag id (forget id r)
receive (msg_retain predicate) r = tag_deleted (retain predicate r)

pub receive_all : {T : Type 0} → List (Message T) → Receiver T → Receiver T × List (String × Action)
receive_all [] r = (r, [])
receive_all (m ∷ ms) r =
    let (r', acts) = receive m r in let (r'', bs) = receive_all ms r' in (r'', acts ++ bs)

-- What was returned about one id, in order.
unfoldable pub about : String → List (String × Action) → List Action
about id [] = []
about id ((j, a) ∷ acts) = ite (string_discrete id j) (a ∷ about id acts) (about id acts)

pub about-append :
    (id : String) (acts bs : List (String × Action))
    → about id (acts ++ bs) ≡ about id acts ++ about id bs
unfolding about
about-append id [] bs = refl
about-append id ((j, a) ∷ acts) bs = ground (arith, about-append id acts bs)

pub follow-none : (acts : List Action) → follow none acts ≡ none
unfolding follow
follow-none acts = refl

pub follow-append :
    (o : Option Bool) (acts bs : List Action) → follow o (acts ++ bs) ≡ follow (follow o acts) bs
unfolding follow
follow-append none acts bs = refl
follow-append (some b) [] bs = refl
follow-append (some b) (a ∷ acts) bs = follow-append (accept b a) acts bs

abbrev pub deletions : List String → List (String × Action)
deletions = map (λ id. (id, action_delete))

follow_added :
    (b : Bool) (j id : String) (a : Action) (ids : List String)
    → (a ≡ action_delete) ⊎ (a ≡ action_noop)
    → follow (some b) (about j (deletions (add_deleted a id ids)))
      ≡ follow (follow (some b) (about j ((id, a) ∷ []))) (about j (deletions ids))
unfolding follow about
follow_added b j id action_delete ids h = ground arith
follow_added b j id action_noop ids h = ground arith
follow_added b j id action_insert ids h = ground arith
follow_added b j id action_update ids h = ground arith

module _ {T : Type 0} where
  upsert_accept :
      (j id : String) (item : T) (n : ℕ) (r : Receiver T)
      → follow (some (live j r)) (about j ((id, (upsert id item n r).1) ∷ []))
        ≡ some (live j (upsert id item n r).0)
  unfolding upsert about follow
  upsert_accept j id item n r = elim (Option-cases (lookup id r.seen)) [
    | inl e ↦ ground (arith, lookup-insert id j (new_versioned item n) r.seen)
    | inr (v, e) ↦ ground (arith, lookup-insert id j (update item n v).0 r.seen)
  ]

  remove_accept :
      (j id : String) (n : ℕ) (r : Receiver T)
      → follow (some (live j r)) (about j ((id, (remove id n r).1) ∷ []))
        ≡ some (live j (remove id n r).0)
  unfolding remove about follow
  remove_accept j id n r = elim (Option-cases (lookup id r.seen)) [
    | inl e ↦ ground (arith, lookup-insert id j (new_tombstone n) r.seen)
    | inr (v, e) ↦ ground (
      arith,
      lookup-insert id j (entomb n v) r.seen,
      lookup-insert id j (record v { version = n }) r.seen,
    )
  ]

  forget_accept :
      (j id : String) (r : Receiver T)
      → follow (some (live j r)) (about j ((id, (forget id r).1) ∷ []))
        ≡ some (live j (forget id r).0)
  unfolding forget about follow
  forget_accept j id r = ground (arith, lookup-delete id j r.seen)

  forget-delete_or_noop :
      (id : String) (r : Receiver T)
      → ((forget id r).1 ≡ action_delete) ⊎ ((forget id r).1 ≡ action_noop)
  unfolding forget
  forget-delete_or_noop id r = ground arith

  -- A `noop` is not reported by `Purge`, and leaves the item as it was.
  purge_accept :
      (j : String) (p : String → Bool) (ids : List String) (r : Receiver T)
      → follow (some (live j r)) (about j (deletions (purge_loop p ids r).1))
        ≡ some (live j (purge_loop p ids r).0)
  unfolding purge_loop
  purge_accept j p [] r = unfold about follow in refl
  purge_accept j p (id ∷ ids) r = elim (Bool-cases (p id)) [
    | inl e ↦
        rw
          (
            e,
            purge_loop,
            follow_added (live j r) j id (forget id r).1 (purge_loop p ids (forget id r).0).1
                (forget-delete_or_noop id r),
            forget_accept j id r,
          )
          (purge_accept j p ids (forget id r).0)
    | inr e ↦ rw (e, purge_loop) (purge_accept j p ids r)
  ]

  -- The actions of any call keep the contract, from the state before it to the state after it.
  pub receive_accept :
      (j : String) (m : Message T) (r : Receiver T)
      → follow (some (live j r)) (about j (receive m r).1) ≡ some (live j (receive m r).0)
  unfolding receive
  receive_accept j (msg_upsert id item n) r = upsert_accept j id item n r
  receive_accept j (msg_delete id n) r = remove_accept j id n r
  receive_accept j (msg_forget id) r = forget_accept j id r
  receive_accept j (msg_retain p) r =
      unfold retain in purge_accept j (λ id. not (p id)) (keys r.seen) r

  -- Whatever messages arrive, in whatever order, the actions for every id follow the contract from
  -- its state before the messages, and end in its state after them.
  pub receive_all_accept :
      (j : String) (ms : List (Message T)) (r : Receiver T)
      → follow (some (live j r)) (about j (receive_all ms r).1) ≡ some (live j (receive_all ms r).0)
  unfolding receive_all
  receive_all_accept j [] r = unfold about follow in refl
  receive_all_accept j (m ∷ ms) r =
      rw
        (
          about-append j (receive m r).1 (receive_all ms (receive m r).0).1,
          follow-append (some (live j r)) (about j (receive m r).1)
              (about j (receive_all ms (receive m r).0).1),
          receive_accept j m r,
        )
        (receive_all_accept j ms (receive m r).0)

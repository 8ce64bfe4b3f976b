-- ===== src/AutoConfig/Receiver/Retain.antt =====
-- What `Retain` leaves and what it reports.
use ld_relay.Base.{
  String, ◌≡◌, refl, ◌∙◌, ◌≢◌, inl, inr, none, Bool, true, false, not, ◌&&◌, List, [], ◌∷◌, ite,
  if◌then◌else◌, string_discrete, Bool-cases, Option-cases, arith,
}
use ld_relay.Base.Assoc.{Assoc, lookup, lookup-delete, keys}
use ld_relay.Credential.{string_key}
use ld_relay.AutoConfig.Receiver.{
  Receiver, Versioned, action_delete, action_noop, forget, purge_loop, add_deleted, retain,
}
use ld_relay.AutoConfig.Receiver.Protocol.{live}

-- Is the id among the ids?
abbrev pub contains : String → List String → Bool
contains j [] = false
contains j (id ∷ ids) = ite (string_discrete j id) true (contains j ids)

module _ {T : Type 0} where
  lookup-forget :
      (j id : String) (r : Receiver T)
      → lookup j (forget id r).0.seen ≡ ite (string_discrete j id) none (lookup j r.seen)
  unfolding forget
  lookup-forget j id r = elim (Option-cases (lookup id r.seen)) [
    | inl e ↦ ground arith
    | inr (v, e) ↦ rw (e, forget) (lookup-delete id j r.seen)
  ]

  forget-live :
      (id : String) (r : Receiver T)
      → (forget id r).1 ≡ (if live id r then action_delete else action_noop)
  unfolding forget
  forget-live id r = ground arith

  lookup-purge_loop :
      (p : String → Bool) (j : String) (ids : List String) (r : Receiver T)
      → lookup j (purge_loop p ids r).0.seen
        ≡ (if p j && contains j ids then none else lookup j r.seen)
  unfolding purge_loop
  lookup-purge_loop p j [] r = ground arith
  lookup-purge_loop p j (id ∷ ids) r = elim (Bool-cases (p id)) [
    | inl e ↦
        rw (e, purge_loop)
          (lookup-purge_loop p j ids (forget id r).0 ∙ ground (arith, lookup-forget j id r))
    | inr e ↦ rw (e, purge_loop) (lookup-purge_loop p j ids r ∙ ground arith)
  ]

  purged-keys :
      (p : String → Bool) (j : String) (m : Assoc String (Versioned T))
      → (if p j && contains j (keys m) then none else lookup j m)
        ≡ (if p j then none else lookup j m)
  unfolding lookup
  purged-keys p j [] = ground arith
  purged-keys p j ((i, v) ∷ m) = ground (arith, purged-keys p j m)

  -- `Retain` forgets every id that fails the test, tombstones included, and leaves the rest as it is.
  pub lookup-retain :
      (p : String → Bool) (j : String) (r : Receiver T)
      → lookup j (retain p r).0.seen ≡ (if p j then lookup j r.seen else none)
  unfolding retain
  lookup-retain p j r =
      lookup-purge_loop (λ id. not (p id)) j (keys r.seen) r
      ∙ purged-keys (λ id. not (p id)) j r.seen
      ∙ ground arith

  contains-added :
      (j id : String) (r : Receiver T) (ids : List String)
      → contains j (add_deleted (forget id r).1 id ids)
        ≡ (if live id r then contains j (id ∷ ids) else contains j ids)
  contains-added j id r ids = ground (arith, forget-live id r)

  contains-purge_loop :
      (p : String → Bool) (j : String) (ids : List String) (r : Receiver T)
      → contains j (purge_loop p ids r).1 ≡ (p j && (live j r && contains j ids))
  unfolding purge_loop
  contains-purge_loop p j [] r = ground arith
  contains-purge_loop p j (id ∷ ids) r = elim (Bool-cases (p id)) [
    | inl e ↦
        rw (e, purge_loop, contains-added j id r (purge_loop p ids (forget id r).0).1)
          (ground (arith, contains-purge_loop p j ids (forget id r).0, lookup-forget j id r))
    | inr e ↦ rw (e, purge_loop) (contains-purge_loop p j ids r ∙ ground arith)
  ]

  live-contains :
      (j : String) (m : Assoc String (Versioned T)) → lookup j m ≢ none → contains j (keys m) ≡ true
  unfolding lookup
  live-contains j [] h = absurd (h refl)
  live-contains j ((i, v) ∷ m) h = ground (arith, live-contains j m)

  -- `Retain` reports exactly the ids that fail the test and were live: the ones to be deleted.
  pub contains-retain :
      (p : String → Bool) (j : String) (r : Receiver T)
      → contains j (retain p r).1 ≡ (not (p j) && live j r)
  unfolding retain
  contains-retain p j r =
      contains-purge_loop (λ id. not (p id)) j (keys r.seen) r
      ∙ ground (arith, live-contains j r.seen)

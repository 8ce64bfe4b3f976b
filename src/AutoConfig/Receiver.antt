-- ===== src/AutoConfig/Receiver.antt =====
-- internal/autoconfig/message_receiver.go. A Go map's pointers are written back after a change: the
-- map is the only holder of a `*versioned[T]`. Versions are the natural numbers, logging is left out.
pub mod Protocol
pub mod Versions
pub mod Retain
use ld_relay.Base.{
  ℕ, String, Option, none, some, Bool, true, false, not, List, [], ◌∷◌, leb, if◌then◌else◌,
}
use ld_relay.Base.Assoc.{Assoc, lookup, insert, delete, keys}
use ld_relay.Credential.{string_key}

pub data Action : Type 0 where
  action_insert action_update action_delete action_noop : Action

-- `item` is `none` for the zero value that `newTombstone` leaves.
pub record Versioned (T : Type 0) : Type 0 where
  pub item : Option T
  pub version : ℕ
  pub entombed : Bool

pub record Receiver (T : Type 0) : Type 0 where
  pub seen : Assoc String (Versioned T)

abbrev pub add_deleted : Action → String → List String → List String
add_deleted action_delete id ids = id ∷ ids
add_deleted _ id ids = ids

module _ {T : Type 0} where
  abbrev pub new_versioned : T → ℕ → Versioned T
  new_versioned item version = record { item = some item; version = version; entombed = false }

  abbrev pub new_tombstone : ℕ → Versioned T
  new_tombstone version = record { item = none; version = version; entombed = true }

  abbrev pub entomb : ℕ → Versioned T → Versioned T
  entomb version v = record v { entombed = true; version = version }

  -- The updated item, and whether it was a tombstone.
  abbrev pub update : T → ℕ → Versioned T → Versioned T × Bool
  update item version v =
      (record v { item = some item; version = version; entombed = false }, v.entombed)

  abbrev pub new_receiver : Receiver T
  new_receiver = record { seen = [] }

  abbrev pub store : String → Versioned T → Receiver T → Receiver T
  store id v r = record { seen = insert id v r.seen }

  unfoldable pub upsert : String → T → ℕ → Receiver T → Receiver T × Action
  upsert id item version r = elim (lookup id r.seen) [
    | none ↦ (store id (new_versioned item version) r, action_insert)
    | some current ↦
        if leb version current.version
        then (r, action_noop)
        else let (updated, resurrected) = update item version current in
          (store id updated r, if resurrected then action_insert else action_update)
  ]

  -- `Delete`
  unfoldable pub remove : String → ℕ → Receiver T → Receiver T × Action
  remove id version r = elim (lookup id r.seen) [
    | none ↦ (store id (new_tombstone version) r, action_noop)
    | some current ↦
        if leb version current.version
        then (r, action_noop)
        else if not current.entombed
        then (store id (entomb version current) r, action_delete)
        else (store id (record current { version = version }) r, action_noop)
  ]

  unfoldable pub forget : String → Receiver T → Receiver T × Action
  forget id r = elim (lookup id r.seen) [
    | none ↦ (r, action_noop)
    | some current ↦ (
      record { seen = delete id r.seen },
      if not current.entombed then action_delete else action_noop,
    )
  ]

  -- The loop of `Purge` over the ids that the map holds when it starts.
  unfoldable pub purge_loop : (String → Bool) → List String → Receiver T → Receiver T × List String
  purge_loop predicate [] r = (r, [])
  purge_loop predicate (id ∷ ids) r = elim (predicate id) [
    | true ↦
        let (r', action) = forget id r in
        let (r'', deleted) = purge_loop predicate ids r' in (r'', add_deleted action id deleted)
    | false ↦ purge_loop predicate ids r
  ]

  unfoldable pub purge : (String → Bool) → Receiver T → Receiver T × List String
  unfolding purge_loop
  purge predicate r = purge_loop predicate (keys r.seen) r

  unfoldable pub retain : (String → Bool) → Receiver T → Receiver T × List String
  unfolding purge
  retain predicate r = purge (λ id. not (predicate id)) r

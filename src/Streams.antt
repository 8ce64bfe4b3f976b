-- ===== src/Streams.antt =====
-- internal/streams: the streams of an environment (env_streams.go), what each provider sends on them
-- (stream_provider*.go, stream_events.go), and the data store that announces its updates
-- (internal/store/relay_feature_store.go). The server of server-sent events is not under the repository:
-- what is published is a list of the provider, the channel and the event. The JSON of an event is left out.
pub mod Deleted
pub mod Counts
pub mod Registered
pub mod Broadcast
use ld_relay.Base.{
  ℕ, zero, suc, String, Option, none, some, Bool, true, false, List, [], ◌∷◌, ◌++◌, map, take,
  if◌then◌else◌,
}
use ld_relay.Credential.{ScopedCredential}
use ld_relay.RelayEnv.{
  StreamProvider, server_side, server_side_flags, mobile_ping, js_client_ping, StreamInfo,
}

pub data DataKind : Type 0 where
  features segments other_kind : DataKind

-- `none` is a deleted item.
pub record ItemDescriptor (I : Type 0) : Type 0 where
  pub version : ℕ
  pub item : Option I

abbrev pub KeyedItem : Type 0 → Type 0
KeyedItem I = String × ItemDescriptor I

pub record Collection (I : Type 0) : Type 0 where
  pub kind : DataKind
  pub items : List (KeyedItem I)

pub data Event (I : Type 0) : Type 0 where
  put_event : List (Collection I) → Event I
  flags_put_event : List (KeyedItem I) → Event I
  patch_event : DataKind → String → ItemDescriptor I → Event I
  flags_patch_event : String → ItemDescriptor I → Event I
  delete_event : DataKind → String → ℕ → Event I
  flags_delete_event : String → ℕ → Event I
  ping_event : Event I

pub record Publication (I : Type 0) : Type 0 where
  pub provider : StreamProvider
  pub channel : ScopedCredential
  pub event : Event I

module _ {I : Type 0} where
  -- The items of the first collection of flags.
  unfoldable pub make_server_side_flags_only_put_event : List (Collection I) → Event I
  make_server_side_flags_only_put_event [] = flags_put_event []
  make_server_side_flags_only_put_event (c ∷ cs) = elim c.kind [
    | features ↦ flags_put_event c.items
    | _ ↦ make_server_side_flags_only_put_event cs
  ]

  -- What a provider sends when all data are new, when an item is, and when only evaluations may differ.
  unfoldable pub send_all_data_update : StreamProvider → List (Collection I) → List (Event I)
  unfolding make_server_side_flags_only_put_event
  send_all_data_update server_side cs = put_event cs ∷ []
  send_all_data_update server_side_flags cs = make_server_side_flags_only_put_event cs ∷ []
  send_all_data_update mobile_ping cs = ping_event ∷ []
  send_all_data_update js_client_ping cs = ping_event ∷ []

  unfoldable pub send_flag_update : DataKind → String → ItemDescriptor I → List (Event I)
  send_flag_update features k d = elim d.item [
    | none ↦ flags_delete_event k d.version ∷ []
    | some i ↦ flags_patch_event k d ∷ []
  ]
  send_flag_update _ k d = []

  unfoldable pub send_single_item_update :
      StreamProvider → DataKind → String → ItemDescriptor I → List (Event I)
  unfolding send_flag_update
  send_single_item_update server_side kind k d = elim d.item [
    | none ↦ delete_event kind k d.version ∷ []
    | some i ↦ patch_event kind k d ∷ []
  ]
  send_single_item_update server_side_flags kind k d = send_flag_update kind k d
  send_single_item_update mobile_ping kind k d = ping_event ∷ []
  send_single_item_update js_client_ping kind k d = ping_event ∷ []

  unfoldable pub invalidate_client_side_state : StreamProvider → List (Event I)
  invalidate_client_side_state server_side = []
  invalidate_client_side_state server_side_flags = []
  invalidate_client_side_state mobile_ping = ping_event ∷ []
  invalidate_client_side_state js_client_ping = ping_event ∷ []

  abbrev pub publish : StreamInfo → List (Event I) → List (Publication I)
  publish s = map (λ e. record { provider = s.provider; channel = s.credential; event = e })

  -- The loops over the active streams.
  unfoldable pub broadcast :
      (StreamProvider → List (Event I)) → List StreamInfo → List (Publication I)
  broadcast send [] = []
  broadcast send (s ∷ ss) = publish s (send s.provider) ++ broadcast send ss

  abbrev pub broadcast_all_data : List (Collection I) → List StreamInfo → List (Publication I)
  broadcast_all_data cs = broadcast (λ p. send_all_data_update p cs)

  abbrev pub broadcast_item :
      DataKind → String → ItemDescriptor I → List StreamInfo → List (Publication I)
  broadcast_item kind k d = broadcast (λ p. send_single_item_update p kind k d)

  abbrev pub broadcast_invalidation : List StreamInfo → List (Publication I)
  broadcast_invalidation = broadcast invalidate_client_side_state

  -- `removeDeleted`, which copies the items only from the first deleted one on: `ret`, `none` for nil.
  abbrev pub kept : Option (List (KeyedItem I)) → ℕ → List (KeyedItem I) → List (KeyedItem I)
  kept none i items = take i items
  kept (some ret) i items = ret

  unfoldable pub remove_deleted_loop :
      List (KeyedItem I)
      → ℕ
      → List (KeyedItem I)
      → Option (List (KeyedItem I))
      → Option (List (KeyedItem I))
  remove_deleted_loop items i [] ret = ret
  remove_deleted_loop items i ((k, d) ∷ rest) ret =
      remove_deleted_loop items (suc i) rest (elim d.item [
        | none ↦ some (kept ret i items)
        | some x ↦ elim ret [ none ↦ none | some r ↦ some (r ++ (k, d) ∷ []) ]
      ])

  unfoldable pub remove_deleted : List (KeyedItem I) → List (KeyedItem I)
  unfolding remove_deleted_loop
  remove_deleted items = elim (remove_deleted_loop items 0 items none) [
    | none ↦ items
    | some ret ↦ ret
  ]

-- The store that is wrapped, which is the SDK's: `false` is an error of Init, `none` one of Upsert.
pub record DataStore (I D : Type 0) : Type 0 where
  pub init : List (Collection I) → D → D × Bool
  pub upsert : DataKind → String → ItemDescriptor I → D → D × Option Bool
  pub get_all : DataKind → D → Option (List (KeyedItem I))
  pub is_initialized : D → Bool

module _ {I D : Type 0} (store : DataStore I D) where
  -- The wrapper's `Init` and `Upsert`, with what is published.
  unfoldable pub init : List (Collection I) → List StreamInfo → D → D × Bool × List (Publication I)
  unfolding broadcast send_all_data_update
  init cs active d =
      let (d', result) = store.init cs d in (d', result, broadcast_all_data cs active)

  unfoldable pub upsert :
      DataKind
      → String
      → ItemDescriptor I
      → List StreamInfo
      → D
      → D × Option Bool × List (Publication I)
  unfolding broadcast send_single_item_update
  upsert kind k item active d =
      let (d', result) = store.upsert kind k item d in
      (d', result, broadcast_item kind k item active)

  -- `getReplayEvent` of both server-side streams, and `Replay` of the four: what a new client is sent.
  unfoldable pub server_side_replay : D → List (Event I)
  unfolding remove_deleted
  server_side_replay d = elim (store.get_all features d) [
    | none ↦ []
    | some flags ↦ elim (store.get_all segments d) [
      | none ↦ []
      | some segs ↦
          put_event (
            record { kind = features; items = remove_deleted flags }
            ∷ record { kind = segments; items = remove_deleted segs }
            ∷ [])
          ∷ []
    ]
  ]

  unfoldable pub flags_only_replay : D → List (Event I)
  unfolding remove_deleted make_server_side_flags_only_put_event
  flags_only_replay d = elim (store.get_all features d) [
    | none ↦ []
    | some flags ↦
        make_server_side_flags_only_put_event
          (record { kind = features; items = remove_deleted flags } ∷ [])
        ∷ []
  ]

  unfoldable pub replay : StreamProvider → D → List (Event I)
  unfolding server_side_replay flags_only_replay
  replay server_side d = if store.is_initialized d then server_side_replay d else []
  replay server_side_flags d = if store.is_initialized d then flags_only_replay d else []
  replay mobile_ping d = if store.is_initialized d then ping_event ∷ [] else []
  replay js_client_ping d = if store.is_initialized d then ping_event ∷ [] else []

-- ===== src/EventPublisher.antt =====
-- internal/events/event_publisher.go: the publisher's queues and its event loop. What the loop's
-- goroutine receives is an input; the posts that it starts are listed in their order.
pub mod Bounds
pub mod History
use ld_relay.Base.{
  ℕ, suc, ◌-◌, String, Option, none, some, Bool, true, false, not, ◌&&◌, List, [], ◌∷◌, ◌++◌, ltb,
  ◌==◌, if◌then◌else◌, length, take, ℕ_discrete, string_discrete,
}
use ld_relay.Base.Assoc.{Assoc, Key, lookup, insert}
use ld_relay.Credential.{SdkCredential, sdk_key, mobile_key, environment_id, auto_config_key}

pub record EventPayloadMetadata : Type 0 where
  pub schema_version : ℕ
  pub tags : String

unfoldable pub Metadata-discrete : Discrete EventPayloadMetadata
Metadata-discrete = hlevel (ℕ_discrete, string_discrete)

instance abbrev pub metadata_key : Key EventPayloadMetadata
metadata_key = record { dec = Metadata-discrete }

-- What a post sends: the metadata of its headers, the authorization and the events.
pub record Post (E : Type 0) : Type 0 where
  pub metadata : EventPayloadMetadata
  pub auth_key : SdkCredential
  pub events : List E

abbrev pub Queues : Type 0 → Type 0
Queues E = Assoc EventPayloadMetadata (List E)

pub record Publisher (E : Type 0) : Type 0 where
  pub auth_key : SdkCredential
  pub queues : Queues E
  pub capacity : ℕ
  pub overflowed : Bool
  pub disabled : Bool
  pub finished : Bool
  pub posts : List (Post E)

pub data Input (E : Type 0) : Type 0 where
  event_batch : EventPayloadMetadata → List E → Input E
  flush_now ticker disable_queue closer : Input E
  replace : SdkCredential → Input E

-- Are the dynamic types the same?
unfoldable pub same_type : SdkCredential → SdkCredential → Bool
same_type (sdk_key a) (sdk_key b) = true
same_type (mobile_key a) (mobile_key b) = true
same_type (environment_id a) (environment_id b) = true
same_type (auto_config_key a) (auto_config_key b) = true
same_type _ _ = false

module _ {E : Type 0} where
  abbrev pub queue_of : EventPayloadMetadata → Queues E → List E
  queue_of m qs = elim (lookup m qs) [ none ↦ [] | some q ↦ q ]

  -- The slice of the events to the number that is available.
  unfoldable pub append : EventPayloadMetadata → List E → Publisher E → Publisher E
  append m events p =
      let queue = queue_of m p.queues in
      let available = p.capacity - length queue in
      let short = ltb available (length events) in
      let taken = if short then available else length events in
      record p { overflowed = short; queues = insert m (queue ++ take taken events) p.queues }

  unfoldable pub replace_credential : SdkCredential → Publisher E → Publisher E
  unfolding same_type
  replace_credential c p = if same_type c p.auth_key then record p { auth_key = c } else p

module _ {E : Type 0} (marshals : List E → Bool) where
  -- One round of the loop of `flush`: what stays in the map, and the posts that it starts. With a
  -- single queue the map is the old one, with more it is a new one with the queues that had events.
  unfoldable pub flush_loop : Bool → SdkCredential → Queues E → Queues E × List (Post E)
  flush_loop discarding auth [] = ([], [])
  flush_loop discarding auth ((m, []) ∷ qs) =
      let (rest, posts) = flush_loop discarding auth qs in
      (if discarding then rest else (m, []) ∷ rest, posts)
  flush_loop discarding auth ((m, e ∷ es) ∷ qs) =
      let (rest, posts) = flush_loop discarding auth qs in
      (
        (m, []) ∷ rest,
        if marshals (e ∷ es)
            then record { metadata = m; auth_key = auth; events = e ∷ es } ∷ posts
            else posts,
      )

  unfoldable pub flush : Publisher E → Publisher E
  unfolding flush_loop
  flush p =
      let (rest, posts) = flush_loop (ltb 1 (length p.queues)) p.auth_key p.queues in
      if length p.queues == 0 then p else record p { queues = rest; posts = p.posts ++ posts }

  unfoldable pub receive : Input E → Publisher E → Publisher E
  unfolding append replace_credential flush
  receive disable_queue p = record p { queues = []; disabled = true }
  receive (event_batch m es) p = if p.disabled then p else append m es p
  receive flush_now p = if p.disabled then p else flush p
  receive ticker p = flush p
  receive closer p = record p { finished = true }
  receive (replace c) p = replace_credential c p

  -- After the loop has ended, only the credential can still change.
  unfoldable pub step : Input E → Publisher E → Publisher E
  unfolding receive replace_credential
  step (replace c) p = replace_credential c p
  step i p = if p.finished then p else receive i p

  unfoldable pub run : List (Input E) → Publisher E → Publisher E
  unfolding step
  run [] p = p
  run (i ∷ is) p = run is (step i p)

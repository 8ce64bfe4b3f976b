-- ===== src/EventDispatcher.antt =====
-- internal/events/event-relay.go: the dispatchers of an environment's events. The relays that an endpoint
-- makes are those of EventPublisher and Summarizing; what they are told over their channels is a step of
-- theirs. The paths, the HTTP configuration and the diagnostic events, which are posted as they are, are
-- left out. The decoding of a body and of the schema's header (`json.Unmarshal`, `strconv.Atoi`) are
-- parameters.
pub mod Summarizing
pub mod Processors
pub mod Credentials
use ld_relay.Base.{
  ℕ, String, Option, none, some, Bool, true, false, List, [], ◌∷◌, ◌++◌, leb, ◌==◌, if◌then◌else◌,
  length,
}
use ld_relay.Base.Assoc.{Assoc, lookup}
use ld_relay.Credential.{
  SdkKey, MobileKey, EnvironmentId, SdkCredential, sdk_key, mobile_key, environment_id, is_defined,
}
use ld_relay.EventPublisher.{
  EventPayloadMetadata, Publisher, same_type, Input, event_batch, closer, flush_now, ticker,
  disable_queue,
}
use ld_relay.EventPublisher
use ld_relay.EventDispatcher.Summarizing.{
  ProcessorRef, SummarizingRelay, new_summarizing, enqueue, Step, recording, ticking, shutting_down,
}
use ld_relay.Middleware.{SdkKind, server_sdk, mobile_sdk, js_client_sdk}

abbrev pub summary_events_schema_version : ℕ
summary_events_schema_version = 3

pub record EndpointDispatcher (E : Type 0) : Type 0 where
  pub auth_key : SdkCredential
  pub capacity : ℕ
  pub verbatim : Option (Publisher E)
  pub summarizing : Option (SummarizingRelay E)

-- What a request brings: its body, `none` if it cannot be read, and the headers of the metadata.
pub record EventRequest (B : Type 0) : Type 0 where
  pub body : Option (List B)
  pub schema : String
  pub tags : String

module _ {E : Type 0} where
  abbrev pub new_endpoint_dispatcher : ℕ → SdkCredential → EndpointDispatcher E
  new_endpoint_dispatcher capacity c = record {
    auth_key = c;
    capacity = capacity;
    verbatim = none;
    summarizing = none;
  }

  -- A new publisher with its defaults.
  unfoldable pub new_publisher : ℕ → SdkCredential → Publisher E
  new_publisher capacity c = record {
    auth_key = c;
    queues = [];
    capacity = capacity;
    overflowed = false;
    disabled = false;
    finished = false;
    posts = [];
  }

  -- `getVerbatimRelay` and `getSummarizingRelay`
  unfoldable pub get_verbatim_relay : EndpointDispatcher E → Publisher E
  unfolding new_publisher
  get_verbatim_relay d = elim d.verbatim [ none ↦ new_publisher d.capacity d.auth_key | some p ↦ p ]

  unfoldable pub get_summarizing_relay : EndpointDispatcher E → SummarizingRelay E
  unfolding new_summarizing
  get_summarizing_relay d = elim d.summarizing [ none ↦ new_summarizing d.auth_key | some s ↦ s ]

  unfoldable pub replace_credential : SdkCredential → EndpointDispatcher E → EndpointDispatcher E
  unfolding same_type Summarizing.replace_credential EventPublisher.replace_credential
  replace_credential c d =
      if same_type d.auth_key c
      then record d {
        auth_key = c;
        summarizing = elim d.summarizing [
          | none ↦ none
          | some s ↦ some (Summarizing.replace_credential c s)
        ];
        verbatim = elim d.verbatim [
          | none ↦ none
          | some p ↦ some (EventPublisher.replace_credential c p)
        ];
      }
      else d

  -- The loop over the endpoints.
  unfoldable pub replace_all :
      SdkCredential → Assoc SdkKind (EndpointDispatcher E) → Assoc SdkKind (EndpointDispatcher E)
  unfolding replace_credential
  replace_all c [] = []
  replace_all c ((k, d) ∷ ds) = (k, replace_credential c d) ∷ replace_all c ds

  unfoldable pub new_event_dispatcher :
      ℕ → SdkKey → MobileKey → EnvironmentId → Assoc SdkKind (EndpointDispatcher E)
  unfolding is_defined
  new_event_dispatcher capacity k m id =
      (server_sdk, new_endpoint_dispatcher capacity (sdk_key k))
      ∷ ((if is_defined m
            then (mobile_sdk, new_endpoint_dispatcher capacity (mobile_key m)) ∷ []
            else [])
          ++ (if is_defined id
              then (js_client_sdk, new_endpoint_dispatcher capacity (environment_id id)) ∷ []
              else []))

module _ {B : Type 0} where
  -- The status, and the body that is handled: none that cannot be read or is empty.
  unfoldable pub consume_events : EventRequest B → ℕ × Option (List B)
  consume_events req = elim req.body [
    | none ↦ (400, none)
    | some body ↦ if length body == 0 then (400, none) else (202, some body)
  ]

module _ (atoi : String → ℕ) {B : Type 0} where
  -- A schema that is no positive number is 1.
  unfoldable pub get_event_payload_metadata : EventRequest B → EventPayloadMetadata
  get_event_payload_metadata req = record {
    schema_version = if atoi req.schema == 0 then 1 else atoi req.schema;
    tags = req.tags;
  }

-- What the publisher's goroutine receives, and what the summarizing relay does, without a call.
pub data PublisherEvent : Type 0 where
  flush_requested flush_timer send_failed publisher_closed : PublisherEvent

pub data SummarizingEvent (E : Type 0) : Type 0 where
  event_recorded : ProcessorRef → E → SummarizingEvent E
  cleanup_timer summarizing_closed : SummarizingEvent E

pub data EndpointStep (B E : Type 0) : Type 0 where
  requested : EventRequest B → EndpointStep B E
  credential_replaced : SdkCredential → EndpointStep B E
  published : PublisherEvent → EndpointStep B E
  summarized : SummarizingEvent E → EndpointStep B E

module _ {E : Type 0} where
  unfoldable pub input_of : PublisherEvent → Input E
  input_of flush_requested = flush_now
  input_of flush_timer = ticker
  input_of send_failed = disable_queue
  input_of publisher_closed = closer

  unfoldable pub step_of : SummarizingEvent E → Step E
  step_of (event_recorded r e) = recording r e
  step_of cleanup_timer = ticking
  step_of summarizing_closed = shutting_down

module _ (atoi : String → ℕ) {B E : Type 0} (marshals : List E → Bool)
    (unmarshal : List B → Option (List E)) where
  -- The events go to the publisher, or to a processor of the summarizing relay, which is told to record
  -- them later.
  unfoldable pub deliver :
      EventPayloadMetadata
      → List E
      → EndpointDispatcher E
      → EndpointDispatcher E × Option ProcessorRef
  unfolding get_verbatim_relay get_summarizing_relay enqueue EventPublisher.step
  deliver m events d =
      if leb summary_events_schema_version m.schema_version
      then (
        record d {
          verbatim =
              some (EventPublisher.step marshals (event_batch m events) (get_verbatim_relay d));
        },
        none,
      )
      else let (s, processor) = enqueue m (get_summarizing_relay d) in
        (record d { summarizing = some s }, processor)

  -- The body is handled after the status has been written.
  unfoldable pub dispatch :
      EventRequest B → EndpointDispatcher E → ℕ × EndpointDispatcher E × Option ProcessorRef
  unfolding consume_events deliver get_event_payload_metadata
  dispatch req d =
      let (status, body) = consume_events req in
      elim body [
        | none ↦ (status, d, none)
        | some b ↦ elim (unmarshal b) [
          | none ↦ (status, d, none)
          | some events ↦
              let (d', processor) = deliver (get_event_payload_metadata atoi req) events d in
              (status, d', processor)
        ]
      ]

  -- What happens to an endpoint: a request, a new credential, and what its relays do by themselves.
  unfoldable pub endpoint_step : EndpointStep B E → EndpointDispatcher E → EndpointDispatcher E
  unfolding dispatch replace_credential EventPublisher.step Summarizing.step
  endpoint_step (requested req) d = (dispatch req d).1
  endpoint_step (credential_replaced c) d = replace_credential c d
  endpoint_step (published i) d = record d {
    verbatim = elim d.verbatim [
      | none ↦ none
      | some p ↦ some (EventPublisher.step marshals (input_of i) p)
    ];
  }
  endpoint_step (summarized i) d = record d {
    summarizing = elim d.summarizing [
      | none ↦ none
      | some s ↦ some (Summarizing.step (step_of i) s)
    ];
  }

  unfoldable pub endpoint_run :
      List (EndpointStep B E) → EndpointDispatcher E → EndpointDispatcher E
  unfolding endpoint_step
  endpoint_run [] d = d
  endpoint_run (x ∷ xs) d = endpoint_run xs (endpoint_step x d)

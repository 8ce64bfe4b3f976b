-- ===== src/Lib.antt =====
-- The Relay Proxy's handling of environments: how the autoconfiguration stream creates, changes and
-- removes them, how requests find them by their credentials, how their events are buffered, and how
-- their big segments are kept in step with LaunchDarkly.
--
-- The parts, in the order in which a message passes through them:
--   * AutoConfig.Stream (internal/autoconfig/stream_manager.go, stream_messages.go, message_handler.go):
--     `consume_stream` is the loop of `consumeStream`, a round of it is `consume`, with the handlers of
--     the put, patch and delete events in AutoConfig.Stream.Consume. A private method is an `Effect`: it
--     maps the state to the new state and the calls of the `MessageHandler`, in order.
--   * AutoConfig.Receiver (internal/autoconfig/message_receiver.go): the versions that have been seen, by
--     which the stream's manager decides what is new; `remove` is `Delete`.
--   * ProjManager.Router and ProjManager.Manager (internal/projmanager/project_router.go,
--     environment_manager.go): the environments of each project, once for each payload filter; the
--     calls of the relay's actions are returned in order.
--   * Pipeline: the stream in front of the router, which is its message handler (ProjManager.Router.Handler).
--   * Relay.Actions (relay/autoconfig_actions.go): these calls act on the relay. `none` is a panic.
--   * Relay.Core and Relay.Environments (relay/relay.go, relay/environment_lookup.go): the relay's
--     environments are a heap that references point into, and the table of the credentials refers to it.
--   * RelayEnv (internal/relayenv/env_context_impl.go, internal/streams/env_streams.go and the stream
--     providers): an environment's credentials, the handlers of its streams and its SDK clients.
--   * Streams (internal/streams, internal/store/relay_feature_store.go): the data store announces its updates on
--     the active streams of a RelayEnv; an announcement is a provider, a channel and an event.
--   * Credential and EnvFactory (config/config_field_types.go, internal/credential, internal/sdkauth,
--     internal/envfactory): credentials, representations, parameters and configurations.
--   * EventPublisher (internal/events/event_publisher.go): the queues of events and the goroutine that
--     owns them; what it receives is an input of `step`, the posts it starts are listed in the state.
--   * BigSegments (internal/bigsegments/sync.go, model.go, store.go): the patches and polls;
--     BigSegments.Sync is the synchronizer's goroutine, a phase for each place where it waits or calls out.
--   * BigSegments.Redis and BigSegments.DynamoDb (internal/bigsegments/store_redis.go, store_dynamodb.go): the
--     stores, instances of that interface.
--   * EventDispatcher (internal/events/event-relay.go, summarizing-relay.go): an endpoint's dispatcher makes
--     an EventPublisher or an EventDispatcher.Summarizing when the first events of their kind arrive.
--   * Middleware (internal/middleware/middleware.go, internal/sdks/sdk_kinds.go, internal/browser/cors.go):
--     how a request finds its environment in Relay.Core, and the headers for browsers.
--   * Relay.Status and Relay.Startup (relay/endpoints_status.go, relay/relay.go): the status resource, and the
--     wait for the first clients, whose reports before the timeout are its input.
--   * Relay.Offline (relay/filedata_actions.go): what the calls of FileData change in the relay.
--   * Config (config/config.go, config/config_validation.go): the configuration, as the validation leaves
--     and accepts it.
--   * FileData (internal/filedata/archive_manager.go): what a new archive of the offline mode changes, and in
--     FileData.Monitor when it is read again.
-- Base holds the helpers: Base.Assoc is Go's map as an association list. Tests applies the theorems at
-- concrete inputs.
--
-- How the model corresponds to the code: a method that holds a lock is one step. A loop over a map goes
-- through its entries in the order of the list. Time is an argument. Versions and lengths are natural
-- numbers; the computation of an expiry keeps its 64-bit wrap-around. Loops are structural recursion over what
-- they go through; only the loop over DynamoDB's batches has fuel, the number of its items, as each batch
-- has one at least. Logging
-- is left out, and so are the fields that are only written (`lastKnownEnvs`).
--
-- Parameters: the decoding of JSON and the splitting of paths (`Decoder`), `strings.ReplaceAll`, whether
-- an environment can be made of a configuration (`fails`), whether a batch of events can be written as
-- JSON (`marshals`), the reader of an archive (`ArchiveReader`, an interface), and the store of big
-- segments (`Store`, an interface of the code; `Sequential` is what its comment promises, with the patch
-- that is applied when there is no cursor yet), the client of Redis (`RedisClient`; `Documented` is what
-- Redis documents of transactions), the client of DynamoDB, the SDK's data store (`DataStore`), `strconv` and `strings` where a module says so, the parser of
-- URLs, and what a client's initialization has come to (`RelayEnvironments`).
--
-- Not modelled: the HTTP connections and servers, the goroutines that start an SDK client or deliver a post
-- (their outcome is an argument or an input), the other uses of databases, metrics, the files of the offline
-- archive, the translation of single events, the other handlers of the endpoints, the counting of requests, and
-- reading the configuration from a file or the environment.
pub mod Base
pub mod Config
pub mod Credential
pub mod EnvFactory
pub mod AutoConfig
pub mod BigSegments
pub mod EventPublisher
pub mod EventDispatcher
pub mod FileData
pub mod Middleware
pub mod Pipeline
pub mod ProjManager
pub mod RelayEnv
pub mod Relay
pub mod Streams
pub mod Tests

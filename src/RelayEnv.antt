-- ===== src/RelayEnv.antt =====
-- internal/relayenv/env_context_impl.go: the credentials of an environment, and what hangs on them:
-- the stream handlers (internal/streams/stream_provider_*.go), the active streams
-- (internal/streams/env_streams.go) and the SDK clients. `starting` lists the keys
-- that `startSDKClient` was called with; a client is a number, and `closed_clients` lists the calls of its
-- `Close`.
pub mod Handlers
pub mod Lookup
use ld_relay.Base.{
  ℕ, String, Option, none, some, Bool, true, false, not, ◌&&◌, List, [], ◌∷◌, ◌++◌, map, ite,
  if◌then◌else◌,
}
use ld_relay.Base.Assoc.{Assoc, Key, lookup, insert, delete, keys, is_some}
use ld_relay.Credential.{
  SdkKey, SdkCredential, sdk_key, mobile_key, environment_id, auto_config_key, ScopedCredential,
  ScopedCredential-discrete, new_scoped, FilterKey, string_key, credential_key, is_defined,
}
use ld_relay.EnvFactory.{EnvIdentifiers, EnvConfig}

-- The four of `allStreamProviders`.
pub data StreamProvider : Type 0 where
  server_side server_side_flags mobile_ping js_client_ping : StreamProvider

-- `Handler` and `Register` return nil for any other credential.
unfoldable pub supports : StreamProvider → SdkCredential → Bool
supports server_side (sdk_key k) = true
supports server_side_flags (sdk_key k) = true
supports mobile_ping (mobile_key k) = true
supports js_client_ping (environment_id k) = true
supports _ _ = false

pub record StreamInfo : Type 0 where
  pub credential : ScopedCredential
  pub provider : StreamProvider

-- The handlers of one provider; a handler serves the channel of a scoped credential.
abbrev pub Handlers : Type 0
Handlers = Assoc SdkCredential ScopedCredential

pub record EnvContext : Type 0 where
  pub identifiers : EnvIdentifiers
  pub secure_mode : Bool
  pub ttl : ℕ
  pub filter_key : FilterKey
  pub credentials : Assoc SdkCredential Bool  -- true if not deprecated
  pub active_streams : List StreamInfo
  pub handlers : List (StreamProvider × Handlers)
  pub clients : Assoc SdkKey ℕ
  pub starting : List SdkKey
  pub closed_clients : List ℕ

-- The loop of `EnvStreams.AddCredential`.
unfoldable pub register_streams :
    ScopedCredential → List (StreamProvider × Handlers) → List StreamInfo → List StreamInfo
register_streams c [] active = active
register_streams c ((p, _) ∷ ps) active = register_streams c ps (
    if supports p c.credential
    then active ++ record { credential = c; provider = p } ∷ []
    else active)

-- The loop of `EnvStreams.RemoveCredential`: what is retained.
unfoldable pub unregister_streams : ScopedCredential → List StreamInfo → List StreamInfo
unregister_streams c [] = []
unregister_streams c (s ∷ ss) =
    ite (ScopedCredential-discrete s.credential c) (unregister_streams c ss)
      (s ∷ unregister_streams c ss)

-- The loops over `c.handlers`.
unfoldable pub add_handler :
    ScopedCredential → List (StreamProvider × Handlers) → List (StreamProvider × Handlers)
add_handler c [] = []
add_handler c ((p, hs) ∷ ps) =
    (p, if supports p c.credential then insert c.credential c hs else hs) ∷ add_handler c ps

unfoldable pub remove_handler :
    SdkCredential → List (StreamProvider × Handlers) → List (StreamProvider × Handlers)
remove_handler c [] = []
remove_handler c ((p, hs) ∷ ps) = (p, delete c hs) ∷ remove_handler c ps

-- A new SDK key starts a client.
abbrev pub start_client : SdkCredential → List SdkKey → List SdkKey
start_client (sdk_key k) ks = ks ++ k ∷ []
start_client _ ks = ks

unfoldable pub add_credential : SdkCredential → EnvContext → EnvContext
unfolding register_streams add_handler
add_credential c env = elim (lookup c env.credentials) [
  | some _ ↦ env
  | none ↦
      let scoped = new_scoped env.filter_key c in
      record env {
        credentials = insert c true env.credentials;
        active_streams = register_streams scoped env.handlers env.active_streams;
        handlers = add_handler scoped env.handlers;
        starting = start_client c env.starting;
      }
]

-- The SDK client of a removed SDK key is closed.
unfoldable pub close_client : SdkCredential → EnvContext → EnvContext
close_client (sdk_key k) env = elim (lookup k env.clients) [
  | none ↦ env
  | some client ↦ record env {
    clients = delete k env.clients;
    closed_clients = env.closed_clients ++ client ∷ [];
  }
]
close_client _ env = env

unfoldable pub remove_credential : SdkCredential → EnvContext → EnvContext
unfolding unregister_streams remove_handler close_client
remove_credential c env = elim (lookup c env.credentials) [
  | none ↦ env
  | some _ ↦ close_client c (record env {
    credentials = delete c env.credentials;
    active_streams = unregister_streams (new_scoped env.filter_key c) env.active_streams;
    handlers = remove_handler c env.handlers;
  })
]

unfoldable pub deprecate_credential : SdkCredential → EnvContext → EnvContext
deprecate_credential c env = elim (lookup c env.credentials) [
  | none ↦ env
  | some _ ↦ record env { credentials = insert c false env.credentials }
]

-- `getCredentialsInternal`
unfoldable pub credentials_where : Bool → Assoc SdkCredential Bool → List SdkCredential
credentials_where preferred [] = []
credentials_where preferred ((c, valid) ∷ cs) =
    let rest = credentials_where preferred cs in
    if (if valid then preferred else not preferred) then c ∷ rest else rest

abbrev pub get_credentials : EnvContext → List SdkCredential
get_credentials env = credentials_where true env.credentials

-- The loop of `GetClient`: the first SDK key that is not deprecated.
unfoldable pub preferred_client : Assoc SdkCredential Bool → Assoc SdkKey ℕ → Option ℕ
preferred_client [] clients = none
preferred_client ((sdk_key k, true) ∷ cs) clients = lookup k clients
preferred_client ((_, _) ∷ cs) clients = preferred_client cs clients

abbrev pub get_client : EnvContext → Option ℕ
get_client env = preferred_client env.credentials env.clients

-- `GetStreamHandler`; `none` is the handler that answers 404.
unfoldable pub find_handler :
    StreamProvider → SdkCredential → List (StreamProvider × Handlers) → Option ScopedCredential
find_handler p c [] = none
find_handler server_side c ((server_side, hs) ∷ ps) = lookup c hs
find_handler server_side_flags c ((server_side_flags, hs) ∷ ps) = lookup c hs
find_handler mobile_ping c ((mobile_ping, hs) ∷ ps) = lookup c hs
find_handler js_client_ping c ((js_client_ping, hs) ∷ ps) = lookup c hs
find_handler p c (_ ∷ ps) = find_handler p c ps

-- The end of `startSDKClient`: the factory returned a client, or none.
unfoldable pub client_started : SdkKey → Option ℕ → EnvContext → EnvContext
client_started k none env = env
client_started k (some client) env = record env { clients = insert k client env.clients }

-- `Close`, as far as the clients.
unfoldable pub close : EnvContext → EnvContext
close env = record env {
  closed_clients = env.closed_clients ++ map (λ c. c.1) env.clients;
  clients = [];
}

-- The four providers, in the order of `allStreamProviders`.
abbrev pub all_providers : List StreamProvider
all_providers = server_side ∷ server_side_flags ∷ mobile_ping ∷ js_client_ping ∷ []

abbrev pub no_handlers : List StreamProvider → List (StreamProvider × Handlers)
no_handlers = map (λ p. (p, []))

abbrev pub add_if_defined :
    String → SdkCredential → Assoc SdkCredential Bool → Assoc SdkCredential Bool
add_if_defined k c cs = if is_defined k then insert c true cs else cs

-- The loops of the constructor over the credentials.
unfoldable pub register_all :
    FilterKey
    → List SdkCredential
    → List (StreamProvider × Handlers)
    → List StreamInfo
    → List StreamInfo
unfolding register_streams
register_all f [] ps active = active
register_all f (c ∷ cs) ps active =
    register_all f cs ps (register_streams (new_scoped f c) ps active)

unfoldable pub handle_all :
    FilterKey
    → List SdkCredential
    → List (StreamProvider × Handlers)
    → List (StreamProvider × Handlers)
unfolding add_handler
handle_all f [] ps = ps
handle_all f (c ∷ cs) ps = handle_all f cs (add_handler (new_scoped f c) ps)

abbrev pub initial_credentials : {L : Type 0} → EnvConfig L → Assoc SdkCredential Bool
initial_credentials config = add_if_defined config.env_id (environment_id config.env_id) (
    add_if_defined config.mobile_key (mobile_key config.mobile_key)
      ((sdk_key config.sdk_key, true) ∷ []))

-- `NewEnvContext` where it returns no error.
unfoldable pub new_env_context : {L : Type 0} → EnvIdentifiers → EnvConfig L → EnvContext
unfolding register_all handle_all is_defined
new_env_context identifiers config =
    let credentials = initial_credentials config in
    record {
      identifiers = identifiers;
      secure_mode = config.secure_mode;
      ttl = elim config.ttl [ none ↦ 0 | some t ↦ t ];
      filter_key = config.filter_key;
      credentials = credentials;
      active_streams =
          register_all config.filter_key (keys credentials) (no_handlers all_providers) [];
      handlers = handle_all config.filter_key (keys credentials) (no_handlers all_providers);
      clients = [];
      starting = config.sdk_key ∷ [];
      closed_clients = [];
    }

-- ===== src/Middleware.antt =====
-- internal/middleware/middleware.go and context.go, internal/sdks/sdk_kinds.go, and the headers of
-- internal/browser/cors.go. A request has the parts that these read, with the context that they attach;
-- a header of the response is the list that its commas separate. The functions of `strings` are a
-- parameter.
pub mod Selection
pub mod Cors
use ld_relay.Base.{
  ℕ, String, Option, none, some, Bool, true, false, not, ◌&&◌, ◌||◌, List, [], ◌∷◌, ◌++◌, ite,
  if◌then◌else◌, string_discrete,
}
use ld_relay.Base.Assoc.{Assoc, Key, lookup, insert}
use ld_relay.Credential.{
  SdkCredential, sdk_key, mobile_key, environment_id, ScopedCredential, new_scoped, FilterKey,
  string_key,
}
use ld_relay.RelayEnv.{get_client}
use ld_relay.Relay.Environments.{EnvRef, ref_key}
use ld_relay.Relay.Core.{
  Relay, Found, found, failed, not_ready, payload_filter_not_found, unrecognized_environment,
  get_environment,
}

-- The SDKs that the relay serves.
pub data SdkKind : Type 0 where
  server_sdk mobile_sdk js_client_sdk : SdkKind

pub record JsClientContext : Type 0 where
  pub origins : List String
  pub headers : List String

pub record EnvContextInfo : Type 0 where
  pub env : EnvRef
  pub credential : SdkCredential

pub record Request : Type 0 where
  pub method : String
  pub authorization : String
  pub origin : String
  pub env_id : String
  pub filter : String
  pub env_context : Option EnvContextInfo
  pub cors_context : Option JsClientContext

-- `none` is a status that is not written yet: 200.
pub record Response : Type 0 where
  pub status : Option ℕ
  pub header : Assoc String (List String)
  pub body : List String

abbrev pub Handler : Type 0
Handler = Request → Response → Response

abbrev pub Middleware : Type 0
Middleware = Handler → Handler

-- The loop goes from the last to the first.
unfoldable pub chain : List Middleware → Middleware
chain [] next = next
chain (m ∷ ms) next = m (chain ms next)

-- Only the first status counts.
unfoldable pub write_header : ℕ → Response → Response
write_header code w = elim w.status [ none ↦ record w { status = some code } | some s ↦ w ]

abbrev pub write : String → Response → Response
write message w = record w { body = w.body ++ message ∷ [] }

abbrev pub set_header : String → List String → Response → Response
set_header name value w = record w { header = insert name value w.header }

pub record Strings : Type 0 where
  pub has_prefix : String → String → Bool
  pub trim_prefix : String → String → String
  pub trim_space : String → String
  pub contains : String → String → Bool

module _ (strings : Strings) where
  unfoldable pub authorization_token : String → String
  authorization_token h =
      if strings.has_prefix h "api_key "
      then strings.trim_space (strings.trim_prefix h "api_key ")
      else h

  -- `none` is an error.
  unfoldable pub fetch_auth_token : Request → Option String
  unfolding authorization_token
  fetch_auth_token req =
      let token = authorization_token req.authorization in
      if ite (string_discrete token "") true (strings.contains token " ") then none else some token

  unfoldable pub get_credential : SdkKind → Request → Option SdkCredential
  unfolding fetch_auth_token
  get_credential server_sdk req = elim (fetch_auth_token req) [
    | none ↦ none
    | some value ↦ some (sdk_key value)
  ]
  get_credential mobile_sdk req = elim (fetch_auth_token req) [
    | none ↦ none
    | some value ↦ some (mobile_key value)
  ]
  get_credential js_client_sdk req =
      ite (string_discrete req.env_id "") none (some (environment_id req.env_id))

-- The interface `RelayEnvironments`, and what the middleware asks an environment for: has its client been
-- refused, has it a client, and its properties for browsers.
pub record RelayEnvironments : Type 0 where
  pub get_environment : ScopedCredential → Found
  pub initialization_failed : EnvRef → Bool
  pub client : EnvRef → Option ℕ
  pub js_client_context : EnvRef → JsClientContext

abbrev pub invalid_env_credential : String
invalid_env_credential =
    "Relay Proxy does not recognize the client credential (missing or invalid Authorization header)"

abbrev pub not_fully_configured : String
not_fully_configured =
    "Relay Proxy is not yet fully initialized, does not have list of environments yet"

abbrev pub filter_not_found : String
filter_not_found =
    "Relay Proxy recognizes the provided credential, but the payload filter was not found"

abbrev pub missing_env_url_param : String
missing_env_url_param = "URL did not contain an environment ID"

abbrev pub sdk_client_not_inited : String
sdk_client_not_inited = "client was not initialized"

-- The answer to a credential that no environment has.
unfoldable pub refuse : SdkKind → Response → Response
unfolding write_header
refuse js_client_sdk w = write missing_env_url_param (write_header 404 w)
refuse _ w = write invalid_env_credential (write_header 401 w)

-- The request with the environment attached, and for a browser its CORS properties.
unfoldable pub attach : SdkKind → RelayEnvironments → EnvRef → SdkCredential → Request → Request
attach js_client_sdk envs env c req = record req {
  env_context = some (record { env = env; credential = c });
  cors_context = some (envs.js_client_context env);
}
attach _ envs env c req = record req { env_context = some (record { env = env; credential = c }) }

module _ (strings : Strings) (kind : SdkKind) (envs : RelayEnvironments) where
  -- With an environment for the credential.
  unfoldable pub serve : EnvRef → SdkCredential → Middleware
  unfolding refuse attach write_header
  serve env c next req w =
      if envs.initialization_failed env then refuse kind w else elim (envs.client env) [
        | none ↦ write sdk_client_not_inited (write_header 503 w)
        | some _ ↦ next (attach kind envs env c req) w
      ]

  unfoldable pub select_environment_by_authorization_key : Middleware
  unfolding get_credential write_header serve refuse
  select_environment_by_authorization_key next req w = elim (get_credential strings kind req) [
    | none ↦ write_header 401 w
    | some c ↦ elim (envs.get_environment (new_scoped req.filter c)) [
      | failed not_ready ↦ write not_fully_configured (write_header 503 w)
      | failed payload_filter_not_found ↦ write filter_not_found (write_header 404 w)
      | failed unrecognized_environment ↦ refuse kind w
      | found env ↦ serve env c next req w
    ]
  ]

-- The relay as the middleware sees it. What `GetInitError` and `GetJSClientContext` return is not in the
-- model of an environment.
unfoldable pub relay_environments :
    {L : Type 0} → (EnvRef → Bool) → (EnvRef → JsClientContext) → Relay L → RelayEnvironments
unfolding get_environment
relay_environments init_failed js r = record {
  get_environment = λ req. get_environment req r;
  initialization_failed = init_failed;
  client = λ env. elim (lookup env r.envs) [ none ↦ none | some ctx ↦ get_client ctx ];
  js_client_context = js;
}

abbrev pub default_allowed_headers : List String
default_allowed_headers =
    "Cache-Control" ∷ "Content-Type" ∷ "Content-Length" ∷ "Accept-Encoding"
    ∷ "X-LaunchDarkly-User-Agent" ∷ "X-LaunchDarkly-Payload-ID" ∷ "X-LaunchDarkly-Wrapper"
    ∷ "X-LaunchDarkly-Event-Schema" ∷ "X-LaunchDarkly-Tags" ∷ []

unfoldable pub set_cors_headers : String → List String → Response → Response
set_cors_headers origin extra w = set_header "Access-Control-Expose-Headers" ("Date" ∷ []) (
    set_header "Access-Control-Allow-Headers" (default_allowed_headers ++ extra) (
      set_header "Access-Control-Max-Age" ("300" ∷ []) (
        set_header "Access-Control-Allow-Credentials" ("false" ∷ [])
          (set_header "Access-Control-Allow-Origin" (origin ∷ []) w))))

-- The loop over the domains: the first that is the request's origin, else `domain`.
unfoldable pub matching_domain : String → List String → String → String
matching_domain origin [] domain = domain
matching_domain origin (d ∷ ds) domain =
    ite (string_discrete origin d) d (matching_domain origin ds domain)

abbrev pub origins_of : Option JsClientContext → List String
origins_of none = []
origins_of (some c) = c.origins

abbrev pub headers_of : Option JsClientContext → List String
headers_of none = []
headers_of (some c) = c.headers

unfoldable pub response_origin : List String → String → String
unfolding matching_domain
response_origin [] origin = ite (string_discrete origin "") "*" origin
response_origin (d ∷ ds) origin = matching_domain origin (d ∷ ds) d

unfoldable pub cors : Middleware
unfolding response_origin set_cors_headers
cors next req w =
    let w' =
      set_cors_headers (response_origin (origins_of req.cors_context) req.origin)
        (headers_of req.cors_context) w in
    ite (string_discrete req.method "OPTIONS") w' (next req w')

abbrev pub header_values : Option (List String) → List String
header_values none = []
header_values (some vs) = vs

-- `Header.Add`
unfoldable pub streaming : Middleware
streaming next req w = next req (
    set_header "X-Accel-Buffering"
      (header_values (lookup "X-Accel-Buffering" w.header) ++ "no" ∷ []) w)

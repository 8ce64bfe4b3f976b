-- ===== src/Tests/RequestTests.antt =====
-- Requests and events at concrete inputs.
use ld_relay.Base.{
  ℕ, String, ◌≡◌, ◌+◌, ◌≤◌, refl, Option, none, some, Bool, true, false, List, [], ◌∷◌,
  if◌then◌else◌, string_discrete,
}
use ld_relay.Base.Assoc.{lookup, is_some}
use ld_relay.Credential.{
  sdk_key, mobile_key, environment_id, ScopedCredential-discrete, new, string_key,
}
use ld_relay.Relay.Environments.{EnvRef, find}
use ld_relay.Relay.Core.{found, get_environment}
use ld_relay.Relay.Actions.{key_expired}
use ld_relay.Tests.RelayTests.{relay}
use ld_relay.Middleware.{
  server_sdk, js_client_sdk, JsClientContext, Request, Response, Handler, Strings,
  RelayEnvironments, get_credential, chain, cors, attach, write, write_header,
  select_environment_by_authorization_key, relay_environments, filter_not_found,
  invalid_env_credential,
}
use ld_relay.EventPublisher.{EventPayloadMetadata, same_type}
use ld_relay.EventDispatcher.Summarizing.{
  Step, enqueued, recording, replacing, ticking, shutting_down, run, new_summarizing, processors,
}
use ld_relay.EventDispatcher.Processors.{count, SendWith, queues_of, summarizing-Sound}
use ld_relay.EventDispatcher.{
  EndpointStep, requested, credential_replaced, summarized, cleanup_timer, endpoint_run,
  new_endpoint_dispatcher,
}
use ld_relay.EventDispatcher.Credentials.{SendsAll, endpoint-Consistent}
use ld_relay.Middleware.Selection.{select_environment-Isolated, key_expired-refused}
use ld_relay.Middleware.Cors.{listed, preflight-origin}

abbrev strings : Strings
strings = record {
  has_prefix = λ s p. false;
  trim_prefix = λ s p. s;
  trim_space = λ s. s;
  contains = λ s t. false;
}

abbrev js_context : JsClientContext
js_context = record { origins = "https://a" ∷ "https://b" ∷ []; headers = [] }

abbrev environments : RelayEnvironments
environments = record {
  get_environment = λ c. found 7;
  initialization_failed = λ env. false;
  client = λ env. some 0;
  js_client_context = λ env. js_context;
}

abbrev request : Request
request = record {
  method = "OPTIONS";
  authorization = "s1";
  origin = "https://b";
  env_id = "e1";
  filter = "";
  env_context = none;
  cors_context = none;
}

abbrev response : Response
response = record { status = none; header = []; body = [] }

-- Handlers that differ where no environment is attached.
abbrev says : String → Handler
says t req w = elim req.env_context [ none ↦ write t w | some info ↦ write "ok" w ]

select_environment-Isolated_example :
    select_environment_by_authorization_key strings server_sdk environments
      (says "a")
      request
      response
    ≡ select_environment_by_authorization_key strings server_sdk environments
        (says "b")
        request
        response
unfolding attach
select_environment-Isolated_example =
    select_environment-Isolated strings server_sdk environments (says "a") (says "b") request
      response (λ env c client e f g h. refl)

abbrev init_failed : EnvRef → Bool
init_failed env = false

abbrev js : EnvRef → JsClientContext
js env = js_context

key_expired-refused_example :
    select_environment_by_authorization_key strings server_sdk
      (relay_environments init_failed js (key_expired "e1" "" "s1" relay))
      (says "a")
      request
      response
    ≡ (if is_some (find (new (sdk_key "s1")) (key_expired "e1" "" "s1" relay).table)
        then write filter_not_found (write_header 404 response)
        else write invalid_env_credential (write_header 401 response))
unfolding get_environment get_credential lookup ScopedCredential-discrete string_discrete
key_expired-refused_example =
    key_expired-refused strings init_failed js "e1" "s1" 0 relay (says "a") request response refl
      refl

preflight-origin_example :
    (lookup "Access-Control-Allow-Origin"
        (chain
          (select_environment_by_authorization_key strings js_client_sdk environments ∷ cors ∷ [])
          (says "a")
          request
          response).header
      ≡ some (
          (if listed "https://b" ("https://a" ∷ "https://b" ∷ []) then "https://b" else "https://a")
          ∷ []))
    × ((chain
          (select_environment_by_authorization_key strings js_client_sdk environments ∷ cors ∷ [])
          (says "a")
          request
          response).status
        ≡ none)
    × ((chain
          (select_environment_by_authorization_key strings js_client_sdk environments ∷ cors ∷ [])
          (says "a")
          request
          response).body
        ≡ [])
unfolding get_credential string_discrete
preflight-origin_example =
    preflight-origin strings environments [] (says "a") request response (environment_id "e1") 7 0
      "https://a" ("https://b" ∷ []) refl refl refl refl refl refl

abbrev tagged : String → EventPayloadMetadata
tagged t = record { schema_version = 2; tags = t }

abbrev steps : List (Step ℕ)
steps =
    enqueued (tagged "a")
    ∷ enqueued (tagged "b")
    ∷ recording 0 5
    ∷ ticking
    ∷ enqueued (tagged "b")
    ∷ replacing (sdk_key "k2")
    ∷ ticking
    ∷ enqueued (tagged "a")
    ∷ shutting_down
    ∷ []

summarizing-Sound_example :
    (count 0 (processors (queues_of (run steps (new_summarizing (sdk_key "k1"))).queues))
        + count 0 (run steps (new_summarizing (sdk_key "k1"))).closed
      ≤ 1)
    × SendWith
        (run steps (new_summarizing (sdk_key "k1"))).auth_key
        (queues_of (run steps (new_summarizing (sdk_key "k1"))).queues)
summarizing-Sound_example = summarizing-Sound steps (sdk_key "k1") 0

abbrev two : String → ℕ
two s = 2

abbrev marshals : List ℕ → Bool
marshals es = true

abbrev unmarshal : List ℕ → Option (List ℕ)
unmarshal b = some b

abbrev endpoint_steps : List (EndpointStep ℕ ℕ)
endpoint_steps =
    requested (record { body = some (1 ∷ []); schema = "2"; tags = "" })
    ∷ credential_replaced (sdk_key "k2")
    ∷ credential_replaced (mobile_key "m2")
    ∷ summarized cleanup_timer
    ∷ []

endpoint-Consistent_example :
    SendsAll (
      endpoint_run two marshals unmarshal endpoint_steps
        (new_endpoint_dispatcher 10 (sdk_key "k1")))
    × (same_type
          (sdk_key "k1")
          (endpoint_run two marshals unmarshal endpoint_steps
            (new_endpoint_dispatcher 10 (sdk_key "k1"))).auth_key
        ≡ true)
endpoint-Consistent_example =
    endpoint-Consistent two marshals unmarshal 10 (sdk_key "k1") endpoint_steps

-- ===== src/Middleware/Selection.antt =====
-- Which environment a handler is called with, and when it is not called.
use ld_relay.Base.{
  ℕ, ◌≡◌, if_pos, refl, ◌∙◌, none, some, Bool, true, false, if◌then◌else◌, inl, inr, Bool-cases,
  Option-cases, arith,
}
use ld_relay.Base.Assoc.{is_some}
use ld_relay.Credential.{
  SdkKey, SdkCredential, sdk_key, environment_id, ScopedCredential-discrete, new_scoped, new,
  EnvironmentId, FilterKey,
}
use ld_relay.Relay.Environments.{EnvRef, find}
use ld_relay.Relay.Core.{
  Found-cases, Relay, modify, remove_connection_mapping, LookupError, found, failed, not_ready,
  payload_filter_not_found, unrecognized_environment, get_environment,
}
use ld_relay.Relay.Actions.{key_expired}
use ld_relay.Relay.Actions.Outcomes.{key_expired-find}
use ld_relay.Middleware.{
  SdkKind, server_sdk, JsClientContext, Request, Response, Handler, Strings, RelayEnvironments,
  get_credential, write, write_header, refuse, attach, serve,
  select_environment_by_authorization_key, relay_environments, filter_not_found,
  invalid_env_credential,
}

-- A credential of an environment that has a client: the handler answers.
pub select_environment-serve :
    (strings : Strings) (kind : SdkKind) (envs : RelayEnvironments) (next : Handler) (req : Request)
    (w : Response) (c : SdkCredential) (env : EnvRef) (client : ℕ)
    → get_credential strings kind req ≡ some c
    → envs.get_environment (new_scoped req.filter c) ≡ found env
    → envs.initialization_failed env ≡ false
    → envs.client env ≡ some client
    → select_environment_by_authorization_key strings kind envs next req w
      ≡ next (attach kind envs env c req) w
unfolding select_environment_by_authorization_key serve
select_environment-serve strings kind envs next req w c env client e f g h =
    rw (select_environment_by_authorization_key, serve, e, f, g, h) refl

module _ (strings : Strings) (kind : SdkKind) (envs : RelayEnvironments) (next next' : Handler)
    (req : Request) (w : Response) where
  -- Do two handlers answer a call alike that the middleware may make?
  abbrev AnswerAlike : Type 0
  AnswerAlike =
      (env : EnvRef) (c : SdkCredential) (client : ℕ)
      → get_credential strings kind req ≡ some c
      → envs.get_environment (new_scoped req.filter c) ≡ found env
      → envs.initialization_failed env ≡ false
      → envs.client env ≡ some client
      → next (attach kind envs env c req) w ≡ next' (attach kind envs env c req) w

  serve-alike :
      (env : EnvRef) (c : SdkCredential)
      → AnswerAlike
      → get_credential strings kind req ≡ some c
      → envs.get_environment (new_scoped req.filter c) ≡ found env
      → serve strings kind envs env c next req w ≡ serve strings kind envs env c next' req w
  unfolding serve
  serve-alike env c same e f = elim (Bool-cases (envs.initialization_failed env)) [
    | inl g ↦ rw g refl
    | inr g ↦ elim (Option-cases (envs.client env)) [
      | inl h ↦ rw (g, h) refl
      | inr (client, h) ↦ rw (g, h) (same env c client e f g h)
    ]
  ]

  -- A handler runs only for an environment that the request's own credential and filter find and that has
  -- a client: handlers that answer alike to those calls answer alike behind the middleware.
  pub select_environment-Isolated :
      ((env : EnvRef) (c : SdkCredential) (client : ℕ)
        → get_credential strings kind req ≡ some c
        → envs.get_environment (new_scoped req.filter c) ≡ found env
        → envs.initialization_failed env ≡ false
        → envs.client env ≡ some client
        → next (attach kind envs env c req) w ≡ next' (attach kind envs env c req) w)
      → select_environment_by_authorization_key strings kind envs next req w
        ≡ select_environment_by_authorization_key strings kind envs next' req w
  unfolding select_environment_by_authorization_key
  select_environment-Isolated same = elim (Option-cases (get_credential strings kind req)) [
    | inl e ↦ rw (e, select_environment_by_authorization_key) refl
    | inr (c, e) ↦ elim (Found-cases (envs.get_environment (new_scoped req.filter c))) [
      | inl (env, f) ↦
          rw (e, f, select_environment_by_authorization_key) (serve-alike env c same e f)
      | inr (failed_with, f) ↦ by_error failed_with c e f
    ]
  ]
    where
      by_error :
          (x : LookupError) (c : SdkCredential)
          → get_credential strings kind req ≡ some c
          → envs.get_environment (new_scoped req.filter c) ≡ failed x
          → select_environment_by_authorization_key strings kind envs next req w
            ≡ select_environment_by_authorization_key strings kind envs next' req w
      by_error not_ready c e f = rw (e, f, select_environment_by_authorization_key) refl
      by_error payload_filter_not_found c e f =
          rw (e, f, select_environment_by_authorization_key) refl
      by_error unrecognized_environment c e f =
          rw (e, f, select_environment_by_authorization_key) refl

module _ {L : Type 0} where
  -- The expiry of an environment's key leaves the relay configured.
  key_expired-configured :
      (id : EnvironmentId) (f : FilterKey) (k : SdkKey) (env : EnvRef) (r : Relay L)
      → get_environment (new_scoped f (environment_id id)) r ≡ found env
      → (key_expired id f k r).fully_configured ≡ true
  unfolding key_expired get_environment modify remove_connection_mapping
  key_expired-configured id f k env r e = ground arith

  key_expired-unrecognized :
      (id : EnvironmentId) (f : FilterKey) (k : SdkKey) (env : EnvRef) (r : Relay L)
      → get_environment (new_scoped f (environment_id id)) r ≡ found env
      → let r' = key_expired id f k r in
        get_environment (new_scoped f (sdk_key k)) r' ≡ (
          if is_some (find (new (sdk_key k)) r'.table)
          then failed payload_filter_not_found
          else failed unrecognized_environment)
  unfolding get_environment
  key_expired-unrecognized id f k env r e =
      let q = new_scoped f (sdk_key k) in
      let gone : find q (key_expired id f k r).table ≡ none =
        key_expired-find id f k env q r e
        ∙ if_pos (ScopedCredential-discrete q q) refl none (find q r.table) in
      rw (key_expired-configured id f k env r e, gone) refl

  -- After the expiry of an SDK key of an environment that is there, a server-side request with the key and
  -- the environment's filter is refused and the handler is not called: with 404 if the key is an environment's
  -- without a filter, else with 401.
  pub key_expired-refused :
      (strings : Strings) (init_failed : EnvRef → Bool) (js : EnvRef → JsClientContext)
      (id : EnvironmentId) (k : SdkKey) (env : EnvRef) (r : Relay L) (next : Handler)
      (req : Request) (w : Response)
      → get_environment (new_scoped req.filter (environment_id id)) r ≡ found env
      → get_credential strings server_sdk req ≡ some (sdk_key k)
      → let r' = key_expired id req.filter k r in
        select_environment_by_authorization_key strings server_sdk
          (relay_environments init_failed js r')
          next
          req
          w
        ≡ (if is_some (find (new (sdk_key k)) r'.table)
            then write filter_not_found (write_header 404 w)
            else write invalid_env_credential (write_header 401 w))
  unfolding select_environment_by_authorization_key relay_environments get_environment refuse
  key_expired-refused strings init_failed js id k env r next req w e f =
      let r' = key_expired id req.filter k r in
      elim (Bool-cases (is_some (find (new (sdk_key k)) r'.table))) [
        | inl g ↦
            rw
              (
                select_environment_by_authorization_key,
                f,
                key_expired-unrecognized id req.filter k env r e,
                g,
              )
              refl
        | inr g ↦
            rw
              (
                select_environment_by_authorization_key,
                f,
                key_expired-unrecognized id req.filter k env r e,
                g,
              )
              refl
      ]

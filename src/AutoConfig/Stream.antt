-- ===== src/AutoConfig/Stream.antt =====
-- internal/autoconfig/stream_manager.go, below the connection: one round of the loop of
-- `consumeStream`. The JSON decoder and `path.Split` are parameters, the clock is an argument, the
-- calls of the handler are returned in order, and a timer is what it will send when it fires.
pub mod Calls
pub mod Expiry
pub mod Consume
pub mod Contract
pub mod Run
pub mod Timers
use ld_relay.Base.{
  ℕ, ◌+◌, ◌-◌, ◌*◌, ◌%◌, ◌^◌, String, Option, none, some, Bool, true, false, not, ◌||◌, List, [],
  ◌∷◌, ◌++◌, ite, leb, ◌==◌, if◌then◌else◌, string_discrete,
}
use ld_relay.Base.Assoc.{Assoc, lookup, insert, is_some}
use ld_relay.Credential.{string_key, SdkKey, EnvironmentId, FilterId}
use ld_relay.EnvFactory.{
  EnvironmentParams, EnvironmentRep, FilterParams, FilterRep, to_params, filter_to_params,
}
use ld_relay.AutoConfig.Receiver.{
  Action, action_insert, action_update, action_delete, action_noop, Receiver, new_receiver, upsert,
  remove, retain,
}

pub record ExpiredKey : Type 0 where
  pub env_id : EnvironmentId
  pub proj_key : String
  pub key : SdkKey

-- The calls of `MessageHandler`.
pub data HandlerCall : Type 0 where
  add_environment : EnvironmentParams → HandlerCall
  update_environment : EnvironmentParams → HandlerCall
  delete_environment : EnvironmentId → HandlerCall
  received_all_environments : HandlerCall
  key_expired : EnvironmentId → String → SdkKey → HandlerCall
  add_filter : FilterParams → HandlerCall
  delete_filter : FilterId → HandlerCall

pub record StreamManager : Type 0 where
  pub expiry_timers : Assoc SdkKey ExpiredKey
  pub env_receiver : Receiver EnvironmentRep
  pub filter_receiver : Receiver FilterRep

abbrev pub new_stream_manager : StreamManager
new_stream_manager = record {
  expiry_timers = [];
  env_receiver = new_receiver;
  filter_receiver = new_receiver;
}

-- What a private method does: the state and the calls of the handler.
abbrev pub Effect : Type 0
Effect = StreamManager → StreamManager × List HandlerCall

abbrev pub call : HandlerCall → Effect
call c s = (s, c ∷ [])

abbrev pub skip : Effect
skip s = (s, [])

unfoldable pub and_then : Effect → Effect → Effect
and_then f g s = let (s', a) = f s in let (s'', b) = g s' in (s'', a ++ b)

-- A `range` loop.
unfoldable pub each : {A : Type 0} → (A → Effect) → List A → Effect
unfolding and_then
each f [] = skip
each f (a ∷ l) = and_then (f a) (each f l)

-- `time.Duration(expiryTime-now) * time.Millisecond <= 0`: a subtraction of unsigned and a product of
-- signed 64-bit integers, which wrap; a negative one has its top bit set.
unfoldable pub is_stale : ℕ → ℕ → Bool
is_stale expiry now =
    let from_now = (expiry + 2 ^ 64 - now) % 2 ^ 64 * 1000000 % 2 ^ 64 in
    from_now == 0 || leb (2 ^ 63) from_now

-- `IgnoreExpiringSDKKey`
unfoldable pub ignore_expiring_sdk_key : ℕ → EnvironmentRep → StreamManager → StreamManager × Bool
unfolding is_stale
ignore_expiring_sdk_key now env s =
    let expiring = env.sdk_key.expiring.value in
    let expiry = env.sdk_key.expiring.timestamp in
    if ite (string_discrete expiring "") true (expiry == 0)
    then (s, false)
    else if is_some (lookup expiring s.expiry_timers)
    then (s, false)
    else if is_stale expiry now
    then (s, true)
    else (
      record s {
        expiry_timers =
            insert expiring
              (record { env_id = env.env_id; proj_key = env.proj_key; key = expiring })
              s.expiry_timers;
      },
      false,
    )

-- The parameters without an expiring key that is to be ignored.
unfoldable pub params_of : ℕ → EnvironmentRep → StreamManager → StreamManager × EnvironmentParams
unfolding ignore_expiring_sdk_key to_params
params_of now rep s =
    let params = to_params rep in
    let (s', ignored) = ignore_expiring_sdk_key now rep s in
    (s', if ignored then record params { expiring_sdk_key = "" } else params)

unfoldable pub dispatch_env_action : ℕ → EnvironmentId → EnvironmentRep → Action → Effect
unfolding params_of
dispatch_env_action now id rep action_noop s = (s, [])
dispatch_env_action now id rep action_insert s =
    let (s', params) = params_of now rep s in (s', add_environment params ∷ [])
dispatch_env_action now id rep action_delete s = (s, delete_environment id ∷ [])
dispatch_env_action now id rep action_update s =
    let (s', params) = params_of now rep s in (s', update_environment params ∷ [])

-- An update of a filter has no case.
unfoldable pub dispatch_filter_action : FilterId → FilterRep → Action → Effect
unfolding filter_to_params
dispatch_filter_action id rep action_noop = skip
dispatch_filter_action id rep action_insert = call (add_filter (filter_to_params id rep))
dispatch_filter_action id rep action_delete = call (delete_filter id)
dispatch_filter_action id rep action_update = skip

unfoldable pub upsert_env : ℕ → EnvironmentId → EnvironmentRep → Effect
unfolding dispatch_env_action upsert
upsert_env now id rep s =
    let (r, action) = upsert id rep rep.version s.env_receiver in
    dispatch_env_action now id rep action (record s { env_receiver = r })

unfoldable pub upsert_filter : FilterId → FilterRep → Effect
unfolding dispatch_filter_action upsert
upsert_filter id rep s =
    let (r, action) = upsert id rep rep.version s.filter_receiver in
    dispatch_filter_action id rep action (record s { filter_receiver = r })

-- `envfactory.EnvironmentRep{}` and `envfactory.FilterRep{}`, which a delete is dispatched with.
abbrev pub zero_environment_rep : EnvironmentRep
zero_environment_rep = record {
  env_id = "";
  env_key = "";
  env_name = "";
  mob_key = "";
  proj_key = "";
  proj_name = "";
  sdk_key = record { value = ""; expiring = record { value = ""; timestamp = 0 } };
  default_ttl = 0;
  secure_mode = false;
  version = 0;
}

abbrev pub zero_filter_rep : FilterRep
zero_filter_rep = record { proj_key = ""; filter_key = ""; version = 0 }

unfoldable pub delete_env : ℕ → EnvironmentId → ℕ → Effect
unfolding dispatch_env_action remove
delete_env now id version s =
    let (r, action) = remove id version s.env_receiver in
    dispatch_env_action now id zero_environment_rep action (record s { env_receiver = r })

unfoldable pub remove_filter : FilterId → ℕ → Effect
unfolding dispatch_filter_action remove
remove_filter id version s =
    let (r, action) = remove id version s.filter_receiver in
    dispatch_filter_action id zero_filter_rep action (record s { filter_receiver = r })

pub record PutContent : Type 0 where
  pub environments : Assoc EnvironmentId EnvironmentRep
  pub filters : Assoc FilterId FilterRep

-- The body of the first loop of `handlePut`.
unfoldable pub put_env : ℕ → EnvironmentId × EnvironmentRep → Effect
unfolding upsert_env
put_env now (id, rep) = ite (string_discrete id rep.env_id) (upsert_env now id rep) skip

unfoldable pub retain_envs : ℕ → (String → Bool) → Effect
unfolding retain each dispatch_env_action
retain_envs now known s =
    let (r, deleted) = retain known s.env_receiver in
    each (λ id. dispatch_env_action now id zero_environment_rep action_delete) deleted
      (record s { env_receiver = r })

unfoldable pub retain_filters : (String → Bool) → Effect
unfolding retain each dispatch_filter_action
retain_filters known s =
    let (r, deleted) = retain known s.filter_receiver in
    each (λ id. dispatch_filter_action id zero_filter_rep action_delete) deleted
      (record s { filter_receiver = r })

-- The four loops of `handlePut`.
abbrev pub put_envs : ℕ → PutContent → Effect
put_envs now content = each (put_env now) content.environments

abbrev pub keep_envs : ℕ → PutContent → Effect
keep_envs now content = retain_envs now (λ id. is_some (lookup id content.environments))

abbrev pub put_filters : PutContent → Effect
put_filters content = each (λ f. upsert_filter f.0 f.1) content.filters

abbrev pub keep_filters : PutContent → Effect
keep_filters content = retain_filters (λ id. is_some (lookup id content.filters))

unfoldable pub handle_put : ℕ → PutContent → Effect
unfolding each and_then put_env upsert_filter retain_envs retain_filters
handle_put now content = and_then (put_envs now content) (
    and_then (keep_envs now content) (
      and_then (put_filters content)
        (and_then (keep_filters content) (call received_all_environments))))

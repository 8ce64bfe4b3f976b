-- ===== src/Config/Validation.antt =====
-- config/config_validation.go. What the code takes from other libraries is a parameter: the parsed
-- defaults, the URL of a Redis host and port (`none` is an error) and `strings.Contains`.
use ld_relay.Base.{
  ℕ, suc, String, Option, none, some, Bool, true, false, not, ◌&&◌, ◌||◌, List, [], ◌∷◌, ◌++◌, ite,
  string_discrete, if◌then◌else◌, length, ltb, ◌==◌,
}
use ld_relay.Base.Assoc.{Assoc, Key, is_some}
use ld_relay.EnvFactory.{EnvConfig, placeholder}
use ld_relay.Config.{
  Config, ConfigError, MainConfig, RedisConfig, AutoConfigConfig, OfflineModeConfig,
  tls_enabled_without_cert_or_key, auto_conf_properties_with_no_key, auto_conf_with_environments,
  file_data_with_auto_conf, offline_mode_properties_with_no_file, offline_mode_with_environments,
  auto_conf_without_db_disambig, redis_url_with_host_and_port, redis_bad_hostname,
  consul_token_and_token_file, auto_conf_with_filters, missing_proj_key,
  environment_with_no_sdk_key, filter_unknown_project, filter_empty_keys, multiple_databases,
  env_without_db_disambiguation, filter_invalid_key,
}

-- `s != ""`
abbrev pub nonempty : String → Bool
nonempty s = ite (string_discrete s "") false true

abbrev pub some_values : {A : Type 0} → List A → Bool
some_values [] = false
some_values (x ∷ xs) = true

abbrev pub error_if : Bool → ConfigError → List ConfigError
error_if b e = if b then e ∷ [] else []

abbrev pub Environments : Type 0
Environments = Assoc String (EnvConfig (List String))

abbrev pub default_redis_host : String
default_redis_host = "localhost"

abbrev pub default_redis_port : ℕ
default_redis_port = 6379

pub record Defaults (U : Type 0) : Type 0 where
  pub base_uri : U
  pub old_base_uri : U
  pub client_side_base_uri : U
  pub stream_uri : U
  pub events_uri : U

abbrev pub or_else {ℓ} : {A : Type ℓ} → Option A → A → Option A
or_else none a = some a
or_else (some b) a = some b

module _ {U : Type 0} ⦃key : Key U⦄ (defaults : Defaults U) where
  abbrev pub is_standard : Option U → Bool
  is_standard none = true
  is_standard (some u) =
      ite (key.dec u defaults.base_uri) true (ite (key.dec u defaults.old_base_uri) true false)

  unfoldable pub default_main : MainConfig U → MainConfig U
  default_main m =
      if is_standard m.base_uri
      then record m {
        base_uri = some defaults.base_uri;
        client_side_base_uri = or_else m.client_side_base_uri defaults.client_side_base_uri;
        stream_uri = or_else m.stream_uri defaults.stream_uri;
      }
      else record m {
        client_side_base_uri = elim m.client_side_base_uri [ none ↦ m.base_uri | some u ↦ some u ];
        stream_uri = or_else m.stream_uri defaults.stream_uri;
      }

  unfoldable pub validate_config_default_urls : Config U → Config U
  unfolding default_main
  validate_config_default_urls c = record c {
    main = default_main c.main;
    events_uri = or_else c.events_uri defaults.events_uri;
  }

module _ {U : Type 0} where
  unfoldable pub validate_config_tls : Config U → List ConfigError
  validate_config_tls c =
      error_if (c.main.tls_enabled && not (nonempty c.main.tls_cert && nonempty c.main.tls_key))
        tls_enabled_without_cert_or_key

unfoldable pub auto_config_properties : AutoConfigConfig → Bool
auto_config_properties a =
    nonempty a.env_datastore_prefix
    || nonempty a.env_datastore_table_name
    || some_values a.env_allowed_origin
    || some_values a.env_allowed_header

unfoldable pub offline_mode_properties : OfflineModeConfig → Bool
offline_mode_properties o =
    nonempty o.env_datastore_prefix
    || nonempty o.env_datastore_table_name
    || some_values o.env_allowed_origin
    || some_values o.env_allowed_header

-- The loop over the environments.
unfoldable pub check_sdk_keys : Environments → List ConfigError
check_sdk_keys [] = []
check_sdk_keys ((name, e) ∷ es) =
    error_if (not (nonempty e.sdk_key)) (environment_with_no_sdk_key name) ++ check_sdk_keys es

-- An environment of the project; an environment without a project.
unfoldable pub find_proj : String → Environments → Bool
find_proj proj [] = false
find_proj proj ((name, e) ∷ es) = ite (string_discrete e.proj_key proj) true (find_proj proj es)

unfoldable pub some_without_proj : Environments → Bool
some_without_proj [] = false
some_without_proj ((name, e) ∷ es) = not (nonempty e.proj_key) || some_without_proj es

unfoldable pub check_filter_keys : String → ℕ → List String → List ConfigError
check_filter_keys proj i [] = []
check_filter_keys proj i (k ∷ ks) =
    error_if (not (nonempty k)) (filter_invalid_key proj i) ++ check_filter_keys proj (suc i) ks

unfoldable pub check_filter : Environments → String → List String → List ConfigError
unfolding find_proj check_filter_keys
check_filter envs proj ks =
    if find_proj proj envs
    then if some_values ks then check_filter_keys proj 0 ks else filter_empty_keys proj ∷ []
    else filter_unknown_project proj ∷ []

unfoldable pub check_filters : Environments → Assoc String (List String) → List ConfigError
unfolding check_filter
check_filters envs [] = []
check_filters envs ((proj, ks) ∷ fs) = check_filter envs proj ks ++ check_filters envs fs

-- Has it a prefix, or a table name where that counts?
abbrev pub distinguished : Bool → EnvConfig (List String) → Bool
distinguished dynamodb e = nonempty e.prefix || (dynamodb && nonempty e.table_name)

unfoldable pub check_prefixes : Bool → Environments → List ConfigError
check_prefixes dynamodb [] = []
check_prefixes dynamodb ((name, e) ∷ es) =
    error_if (not (distinguished dynamodb e)) (env_without_db_disambiguation name dynamodb)
    ++ check_prefixes dynamodb es

abbrev pub filters_of : Option (Assoc String (List String)) → Assoc String (List String)
filters_of none = []
filters_of (some fs) = fs

module _ {U : Type 0} where
  unfoldable pub validate_config_environments : Config U → List ConfigError
  unfolding check_sdk_keys auto_config_properties offline_mode_properties
  validate_config_environments c =
      (if nonempty c.auto_config.key
        then error_if (some_values c.environment) auto_conf_with_environments
        else error_if (auto_config_properties c.auto_config) auto_conf_properties_with_no_key)
      ++ ((if nonempty c.offline_mode.file_data_source
            then error_if (nonempty c.auto_config.key) file_data_with_auto_conf
              ++ error_if (some_values c.environment) offline_mode_with_environments
            else error_if (offline_mode_properties c.offline_mode)
                offline_mode_properties_with_no_file)
          ++ check_sdk_keys c.environment)

  unfoldable pub validate_config_filters : Config U → List ConfigError
  unfolding check_filters some_without_proj
  validate_config_filters c =
      if some_values (filters_of c.filters)
      then if nonempty c.auto_config.key
        then auto_conf_with_filters ∷ []
        else if some_without_proj c.environment
        then missing_proj_key ∷ []
        else check_filters c.environment (filters_of c.filters)
      else []

  module _ (redis_url : String → ℕ → Option U) where
    abbrev pub host_or_default : String → String
    host_or_default h = if nonempty h then h else default_redis_host

    abbrev pub port_or_default : Option ℕ → ℕ
    port_or_default none = default_redis_port
    port_or_default (some p) = p

    unfoldable pub normalize_redis_config : RedisConfig U → RedisConfig U × List ConfigError
    normalize_redis_config r =
        let local = nonempty r.host || is_some r.port in
        let parsed = redis_url (host_or_default r.host) (port_or_default r.port) in
        if is_some r.url
        then (r, error_if local redis_url_with_host_and_port)
        else if local
        then (
          record { host = ""; port = none; url = parsed },
          error_if (not (is_some parsed)) redis_bad_hostname,
        )
        else (r, [])

  -- The databases that are enabled.
  unfoldable pub databases : Config U → List String
  databases c =
      (if is_some c.redis.url then "Redis" ∷ [] else [])
      ++ ((if nonempty c.consul.host then "Consul" ∷ [] else [])
          ++ (if c.dynamodb_enabled then "DynamoDB" ∷ [] else []))

  module _ (contains : String → String → Bool) where
    -- The `switch`; a single environment only gets a warning.
    unfoldable pub check_disambiguation : Config U → List ConfigError
    unfolding check_prefixes
    check_disambiguation c =
        if length c.environment == 1
        then []
        else if ltb 1 (length c.environment)
        then check_prefixes c.dynamodb_enabled c.environment
        else error_if
            (nonempty c.auto_config.key
              && not (
                  contains c.auto_config.env_datastore_prefix placeholder
                  || (c.dynamodb_enabled
                      && contains c.auto_config.env_datastore_table_name placeholder)))
            auto_conf_without_db_disambig

    -- After the Redis configuration has been normalized.
    unfoldable pub check_databases : Config U → List ConfigError
    unfolding databases check_disambiguation
    check_databases c =
        if length (databases c) == 0
        then []
        else if ltb 1 (length (databases c))
        then multiple_databases (databases c) ∷ []
        else error_if
            (nonempty c.consul.host && (nonempty c.consul.token && nonempty c.consul.token_file))
            consul_token_and_token_file
          ++ check_disambiguation c

module _ {U : Type 0} ⦃key : Key U⦄ (defaults : Defaults U) (redis_url : String → ℕ → Option U)
    (contains : String → String → Bool) where
  unfoldable pub validate_config_databases : Config U → Config U × List ConfigError
  unfolding normalize_redis_config check_databases
  validate_config_databases c =
      let (redis, errors) = normalize_redis_config redis_url c.redis in
      let c' = record c { redis = redis } in (c', errors ++ check_databases contains c')

  -- The errors in their order, given what the validation of the databases left.
  unfoldable pub validation_result :
      Config U → Config U × List ConfigError → Config U × List ConfigError
  unfolding validate_config_tls validate_config_environments validate_config_filters
  validation_result c (c', errors) = (
    c',
    validate_config_tls c
        ++ (validate_config_environments c ++ (errors ++ validate_config_filters c')),
  )

  -- `ValidateConfig`: the configuration that it leaves, and the errors.
  unfoldable pub validate_config : Config U → Config U × List ConfigError
  unfolding validate_config_default_urls validate_config_databases validation_result
  validate_config c =
      let c' = validate_config_default_urls defaults c in
      validation_result c' (validate_config_databases c')

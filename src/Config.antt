-- ===== src/Config.antt =====
-- config/config.go and config/config_validation.go. The fields that the validation does not read are
-- left out, and so is what it only logs. The URLs of go-configtypes are a parameter `U`, whose equality
-- is that of their parts; a list option is its values; an error is what `AddError` is given.
pub mod Validation
pub mod Idempotence
pub mod Soundness
use ld_relay.Base.{ℕ, String, Option, Bool, List}
use ld_relay.Base.Assoc.{Assoc}
use ld_relay.EnvFactory.{EnvConfig}

pub record MainConfig (U : Type 0) : Type 0 where
  pub stream_uri : Option U
  pub base_uri : Option U
  pub client_side_base_uri : Option U
  pub tls_enabled : Bool
  pub tls_cert : String
  pub tls_key : String

pub record AutoConfigConfig : Type 0 where
  pub key : String
  pub env_datastore_prefix : String
  pub env_datastore_table_name : String
  pub env_allowed_origin : List String
  pub env_allowed_header : List String

pub record OfflineModeConfig : Type 0 where
  pub file_data_source : String
  pub env_datastore_prefix : String
  pub env_datastore_table_name : String
  pub env_allowed_origin : List String
  pub env_allowed_header : List String

pub record RedisConfig (U : Type 0) : Type 0 where
  pub host : String
  pub port : Option ℕ
  pub url : Option U

pub record ConsulConfig : Type 0 where
  pub host : String
  pub token : String
  pub token_file : String

-- `none` for the filters is the nil map.
pub record Config (U : Type 0) : Type 0 where
  pub main : MainConfig U
  pub auto_config : AutoConfigConfig
  pub offline_mode : OfflineModeConfig
  pub events_uri : Option U
  pub redis : RedisConfig U
  pub consul : ConsulConfig
  pub dynamodb_enabled : Bool
  pub environment : Assoc String (EnvConfig (List String))
  pub filters : Option (Assoc String (List String))

pub data ConfigError : Type 0 where
  tls_enabled_without_cert_or_key auto_conf_properties_with_no_key auto_conf_with_environments :
      ConfigError
  file_data_with_auto_conf offline_mode_properties_with_no_file : ConfigError
  offline_mode_with_environments auto_conf_without_db_disambig : ConfigError
  redis_url_with_host_and_port redis_bad_hostname consul_token_and_token_file : ConfigError
  auto_conf_with_filters missing_proj_key : ConfigError
  environment_with_no_sdk_key filter_unknown_project filter_empty_keys : String → ConfigError
  multiple_databases : List String → ConfigError
  env_without_db_disambiguation : String → Bool → ConfigError
  filter_invalid_key : String → ℕ → ConfigError

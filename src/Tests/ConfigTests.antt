-- ===== src/Tests/ConfigTests.antt =====
-- The configuration at concrete inputs.
use ld_relay.Base.{
  ℕ, String, ◌≡◌, refl, Option, none, some, Bool, false, List, [], ◌∷◌, string_discrete,
}
use ld_relay.Credential.{string_key}
use ld_relay.EnvFactory.{EnvConfig}
use ld_relay.Config.{Config}
use ld_relay.Config.Validation.{Defaults, validate_config}
use ld_relay.Config.Idempotence.{validate_config_idem}
use ld_relay.Config.Soundness.{Accepted, validate_config-Accepted}

abbrev defaults : Defaults String
defaults = record {
  base_uri = "base";
  old_base_uri = "old";
  client_side_base_uri = "client";
  stream_uri = "stream";
  events_uri = "events";
}

abbrev environment : String → String → EnvConfig (List String)
environment k p = record {
  sdk_key = k;
  mobile_key = "";
  env_id = "";
  prefix = p;
  table_name = "";
  allowed_origin = [];
  allowed_header = [];
  secure_mode = false;
  ttl = none;
  proj_key = "proj";
  filter_key = "";
}

-- Two environments in Redis, with a filter.
abbrev config : Config String
config = record {
  main = record {
    stream_uri = none;
    base_uri = some "old";
    client_side_base_uri = none;
    tls_enabled = false;
    tls_cert = "";
    tls_key = "";
  };
  auto_config = record {
    key = "";
    env_datastore_prefix = "";
    env_datastore_table_name = "";
    env_allowed_origin = [];
    env_allowed_header = [];
  };
  offline_mode = record {
    file_data_source = "";
    env_datastore_prefix = "";
    env_datastore_table_name = "";
    env_allowed_origin = [];
    env_allowed_header = [];
  };
  events_uri = none;
  redis = record { host = "db"; port = none; url = none };
  consul = record { host = ""; token = ""; token_file = "" };
  dynamodb_enabled = false;
  environment = ("a", environment "k1" "p1") ∷ ("b", environment "k2" "p2") ∷ [];
  filters = some (("proj", "f" ∷ []) ∷ []);
}

abbrev redis_url : String → ℕ → Option String
redis_url host port = some host

abbrev contains : String → String → Bool
contains s t = false

validate_config_idem_example :
    validate_config defaults redis_url contains
      (validate_config defaults redis_url contains config).0
    ≡ ((validate_config defaults redis_url contains config).0, [])
unfolding validate_config string_discrete
validate_config_idem_example = validate_config_idem defaults redis_url contains config refl

validate_config-Accepted_example : Accepted (validate_config defaults redis_url contains config).0
unfolding validate_config string_discrete
validate_config-Accepted_example = validate_config-Accepted defaults redis_url contains config refl

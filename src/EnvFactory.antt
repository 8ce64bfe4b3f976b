-- ===== src/EnvFactory.antt =====
-- internal/envfactory: the parameters of an environment and of a filter. The list options of
-- go-configtypes and `strings.ReplaceAll` are not the program's: they are parameters. A `time.Duration`
-- is the bit pattern of its 64-bit integer; versions are natural numbers. The log level of an
-- `EnvConfig` is left out.
use Prim.Native.String.{◌++◌ as concat}
use ld_relay.Base.{
  ℕ, ◌*◌, ◌%◌, ◌^◌, String, Option, none, some, Bool, ite, ℕ_discrete, string_discrete,
}
use ld_relay.Credential.{
  SdkKey, MobileKey, EnvironmentId, FilterId, FilterKey, default_filter, AutoConfigCredentials,
}
use ld_relay.Credential

pub record EnvIdentifiers : Type 0 where
  pub env_key : String
  pub env_name : String
  pub proj_key : String
  pub proj_name : String
  pub filter_key : FilterKey
  pub configured_name : String

pub record EnvironmentParams : Type 0 where
  pub env_id : EnvironmentId
  pub identifiers : EnvIdentifiers
  pub sdk_key : SdkKey
  pub mobile_key : MobileKey
  pub expiring_sdk_key : SdkKey
  pub ttl : ℕ
  pub secure_mode : Bool

-- `Credentials`
unfoldable pub credentials : EnvironmentParams → AutoConfigCredentials
credentials e = record {
  sdk_key = Credential.sdk_key e.sdk_key;
  expiring_sdk_key = Credential.sdk_key e.expiring_sdk_key;
  mobile_key = Credential.mobile_key e.mobile_key;
}

-- `WithFilter`: the receiver is a copy.
unfoldable pub with_filter : FilterKey → EnvironmentParams → EnvironmentParams
with_filter key e = record e { identifiers = record e.identifiers { filter_key = key } }

pub record FilterParams : Type 0 where
  pub proj_key : String
  pub id : FilterId
  pub key : FilterKey

pub record ExpiringKeyRep : Type 0 where
  pub value : SdkKey
  pub timestamp : ℕ  -- uint64 milliseconds

pub record SdkKeyRep : Type 0 where
  pub value : SdkKey
  pub expiring : ExpiringKeyRep

pub record EnvironmentRep : Type 0 where
  pub env_id : EnvironmentId
  pub env_key : String
  pub env_name : String
  pub mob_key : MobileKey
  pub proj_key : String
  pub proj_name : String
  pub sdk_key : SdkKeyRep
  pub default_ttl : ℕ  -- int
  pub secure_mode : Bool
  pub version : ℕ

pub record FilterRep : Type 0 where
  pub proj_key : String
  pub filter_key : FilterKey
  pub version : ℕ

unfoldable pub filter_to_params : FilterId → FilterRep → FilterParams
filter_to_params id f = record { proj_key = f.proj_key; id = id; key = f.filter_key }

-- `time.Minute` in nanoseconds.
abbrev pub minute : ℕ
minute = 60000000000

unfoldable pub to_params : EnvironmentRep → EnvironmentParams
to_params r = record {
  env_id = r.env_id;
  identifiers = record {
    env_key = r.env_key;
    env_name = r.env_name;
    proj_key = r.proj_key;
    proj_name = r.proj_name;
    filter_key = default_filter;
    configured_name = "";
  };
  sdk_key = r.sdk_key.value;
  mobile_key = r.mob_key;
  expiring_sdk_key = r.sdk_key.expiring.value;
  ttl = r.default_ttl * minute % 2 ^ 64;
  secure_mode = r.secure_mode;
}

-- `config.EnvConfig`, over the type of go-configtypes' optional lists.
pub record EnvConfig (L : Type 0) : Type 0 where
  pub sdk_key : SdkKey
  pub mobile_key : MobileKey
  pub env_id : EnvironmentId
  pub prefix : String
  pub table_name : String
  pub allowed_origin : L
  pub allowed_header : L
  pub secure_mode : Bool
  pub ttl : Option ℕ
  pub proj_key : String
  pub filter_key : FilterKey

pub record EnvConfigFactory (L : Type 0) : Type 0 where
  pub data_store_prefix : String
  pub table_name : String
  pub allowed_origin : L
  pub allowed_header : L

abbrev pub placeholder : String
placeholder = "$CID"

module _ (replace_all : String → String → String → String) where
  unfoldable pub maybe_substitute_environment_id : String → EnvironmentId → FilterKey → String
  maybe_substitute_environment_id s env_id filter_key =
      replace_all s placeholder
        (ite (string_discrete filter_key "") env_id (concat env_id (concat "." filter_key)))

  module _ {L : Type 0} where
    unfoldable pub make_environment_config : EnvConfigFactory L → EnvironmentParams → EnvConfig L
    unfolding maybe_substitute_environment_id
    make_environment_config f params = record {
      sdk_key = params.sdk_key;
      mobile_key = params.mobile_key;
      env_id = params.env_id;
      prefix =
          maybe_substitute_environment_id f.data_store_prefix params.env_id
            params.identifiers.filter_key;
      table_name =
          maybe_substitute_environment_id f.table_name params.env_id params.identifiers.filter_key;
      allowed_origin = f.allowed_origin;
      allowed_header = f.allowed_header;
      secure_mode = params.secure_mode;
      ttl = ite (ℕ_discrete params.ttl 0) none (some params.ttl);
      proj_key = "";
      filter_key = params.identifiers.filter_key;
    }

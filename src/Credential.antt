-- ===== src/Credential.antt =====
-- internal/credential/credential.go, internal/sdkauth/credential.go and the credential types of
-- config/config_field_types.go.
use ld_relay.Base.{String, Option, none, some, Bool, ite, string_discrete}
use ld_relay.Base.Assoc.{Key}

instance abbrev pub string_key : Key String
string_key = record { dec = string_discrete }

-- Go's type tags over strings.
abbrev pub SdkKey : Type 0
SdkKey = String

abbrev pub MobileKey : Type 0
MobileKey = String

abbrev pub EnvironmentId : Type 0
EnvironmentId = String

abbrev pub FilterId : Type 0
FilterId = String

abbrev pub FilterKey : Type 0
FilterKey = String

abbrev pub default_filter : FilterKey
default_filter = ""

-- `k != ""`
unfoldable pub is_defined : String → Bool
is_defined k = ite (string_discrete k "") Bool.false Bool.true

-- The implementations of the interface `SDKCredential`: two values are equal if their dynamic types
-- and their texts are.
pub data SdkCredential : Type 0 where
  sdk_key : SdkKey → SdkCredential
  mobile_key : MobileKey → SdkCredential
  environment_id : EnvironmentId → SdkCredential
  auto_config_key : String → SdkCredential

unfoldable pub SdkCredential-discrete : Discrete SdkCredential
SdkCredential-discrete = hlevel string_discrete

instance abbrev pub credential_key : Key SdkCredential
credential_key = record { dec = SdkCredential-discrete }

pub data Status : Type 0 where
  unchanged deprecated expired : Status

pub record AutoConfigCredentials : Type 0 where
  pub sdk_key : SdkCredential
  pub expiring_sdk_key : SdkCredential
  pub mobile_key : SdkCredential

unfoldable pub defined : SdkCredential → Bool
unfolding is_defined
defined (sdk_key k) = is_defined k
defined (mobile_key k) = is_defined k
defined (environment_id k) = is_defined k
defined (auto_config_key k) = is_defined k

unfoldable pub authorization_header_value : SdkCredential → String
authorization_header_value (sdk_key k) = k
authorization_header_value (mobile_key k) = k
authorization_header_value (environment_id k) = ""
authorization_header_value (auto_config_key k) = k

-- `Compare` of each of the four types; `none` is the nil credential.
unfoldable pub compare_credential :
    SdkCredential → AutoConfigCredentials → Option SdkCredential × Status
compare_credential (sdk_key k) cr =
    ite (SdkCredential-discrete cr.sdk_key (sdk_key k)) (none, unchanged)
      (ite (SdkCredential-discrete cr.expiring_sdk_key (sdk_key k)) (some cr.sdk_key, deprecated)
        (some cr.sdk_key, expired))
compare_credential (mobile_key k) cr =
    ite (SdkCredential-discrete cr.mobile_key (mobile_key k)) (none, unchanged)
      (some cr.mobile_key, expired)
compare_credential (environment_id k) cr = (none, unchanged)
compare_credential (auto_config_key k) cr = (none, unchanged)

pub record ScopedCredential : Type 0 where
  pub credential : SdkCredential
  pub filter_key : FilterKey

unfoldable pub ScopedCredential-discrete : Discrete ScopedCredential
unfolding SdkCredential-discrete
ScopedCredential-discrete = hlevel (SdkCredential-discrete, string_discrete)

instance abbrev pub scoped_key : Key ScopedCredential
scoped_key = record { dec = ScopedCredential-discrete }

-- `New`
abbrev pub new : SdkCredential → ScopedCredential
new c = record { credential = c; filter_key = default_filter }

abbrev pub new_scoped : FilterKey → SdkCredential → ScopedCredential
new_scoped f c = record { credential = c; filter_key = f }

abbrev pub unscope : ScopedCredential → ScopedCredential
unscope p = record { credential = p.credential; filter_key = "" }

-- ===== src/Relay/Status.antt =====
-- relay/endpoints_status.go: the status resource. What the SDK's client and the big segment store of an
-- environment report is an input; the keys stand as they are before `ObscureKey`, and the details of the
-- last error and of the database are left out.
pub mod Health
use ld_relay.Base.{
  ℕ, ◌+◌, ◌%◌, ◌^◌, String, Option, none, some, Bool, true, false, not, ◌&&◌, ◌||◌, List, [], ◌∷◌,
  leb, ltb, ◌==◌, if◌then◌else◌,
}
use ld_relay.Base.Assoc.{Assoc, insert}
use ld_relay.Credential.{SdkCredential, sdk_key, mobile_key, environment_id, string_key}
use ld_relay.EnvFactory.{EnvIdentifiers}
use ld_relay.RelayEnv.{EnvContext, credentials_where, get_credentials}

pub data DataSourceState : Type 0 where
  initializing valid interrupted off : DataSourceState

-- What a client reports, with the times in milliseconds.
pub record ClientReport : Type 0 where
  pub initialized : Bool
  pub state : DataSourceState
  pub state_since : ℕ
  pub store_available : Bool

-- `none` in the big segment store's answer is an error; 0 is an undefined time.
pub record EnvReport : Type 0 where
  pub context : EnvContext
  pub display_name : String
  pub client : Option ClientReport
  pub big_segment_store : Option (Option ℕ)

pub record StatusConfig : Type 0 where
  pub disconnected_status_time : ℕ
  pub big_segments_stale_threshold : ℕ
  pub big_segments_stale_as_degraded : Bool
  pub log_name_is_env_id : Bool

pub record BigSegmentStatus : Type 0 where
  pub available : Bool
  pub potentially_stale : Bool
  pub last_synchronized_on : ℕ

pub data DataStoreState : Type 0 where
  store_initializing store_valid store_interrupted : DataStoreState

pub record EnvironmentStatus : Type 0 where
  pub identifiers : EnvIdentifiers
  pub sdk_key : String
  pub mobile_key : String
  pub env_id : String
  pub expiring_sdk_key : String
  pub connected : Bool
  pub connection_state : DataSourceState
  pub data_store_state : DataStoreState
  pub big_segments : Option BigSegmentStatus

pub record StatusRep : Type 0 where
  pub environments : Assoc String EnvironmentStatus
  pub healthy : Bool

-- The loops over the credentials.
unfoldable pub show_credentials : List SdkCredential → EnvironmentStatus → EnvironmentStatus
show_credentials [] s = s
show_credentials (sdk_key k ∷ cs) s = show_credentials cs (record s { sdk_key = k })
show_credentials (mobile_key k ∷ cs) s = show_credentials cs (record s { mobile_key = k })
show_credentials (environment_id k ∷ cs) s = show_credentials cs (record s { env_id = k })
show_credentials (_ ∷ cs) s = show_credentials cs s

unfoldable pub show_deprecated : List SdkCredential → EnvironmentStatus → EnvironmentStatus
show_deprecated [] s = s
show_deprecated (sdk_key k ∷ cs) s = show_deprecated cs (record s { expiring_sdk_key = k })
show_deprecated (_ ∷ cs) s = show_deprecated cs s

abbrev pub is_valid : DataSourceState → Bool
is_valid valid = true
is_valid _ = false

-- A client that has been without a valid connection for too long does not count as connected.
unfoldable pub client_connected : ℕ → StatusConfig → ClientReport → Bool
client_connected now config c =
    if not (is_valid c.state) && leb (c.state_since + config.disconnected_status_time) now
    then false
    else c.initialized

-- The sum is one of 64-bit words.
unfoldable pub big_segments_stale : ℕ → StatusConfig → ℕ → Bool
big_segments_stale now config synchronized_on =
    synchronized_on == 0
    || ltb ((synchronized_on + config.big_segments_stale_threshold) % 2 ^ 64) now

unfoldable pub show_client :
    ℕ → StatusConfig → Option ClientReport → EnvironmentStatus → EnvironmentStatus
unfolding client_connected
show_client now config none s = record s {
  connected = false;
  connection_state = initializing;
  data_store_state = store_initializing;
}
show_client now config (some c) s = record s {
  connected = client_connected now config c;
  connection_state = c.state;
  data_store_state = if c.store_available then store_valid else store_interrupted;
}

unfoldable pub show_big_segments : ℕ → StatusConfig → Option ℕ → BigSegmentStatus
unfolding big_segments_stale
show_big_segments now config none = record {
  available = false;
  potentially_stale = false;
  last_synchronized_on = 0;
}
show_big_segments now config (some t) = record {
  available = true;
  potentially_stale = big_segments_stale now config t;
  last_synchronized_on = t;
}

abbrev pub empty_status : EnvIdentifiers → EnvironmentStatus
empty_status identifiers = record {
  identifiers = identifiers;
  sdk_key = "";
  mobile_key = "";
  env_id = "";
  expiring_sdk_key = "";
  connected = false;
  connection_state = initializing;
  data_store_state = store_initializing;
  big_segments = none;
}

unfoldable pub environment_status : ℕ → StatusConfig → EnvReport → EnvironmentStatus
unfolding show_credentials show_deprecated show_client show_big_segments credentials_where
environment_status now config e =
    let ctx = e.context in
    let s = show_credentials (get_credentials ctx) (empty_status ctx.identifiers) in
    let s' =
      show_client now config e.client
        (show_deprecated (credentials_where false ctx.credentials) s) in
    record s' {
      big_segments = elim e.big_segment_store [
        | none ↦ none
        | some t ↦ some (show_big_segments now config t)
      ];
    }

-- Does the environment's status leave the relay healthy?
unfoldable pub stays_healthy : StatusConfig → EnvironmentStatus → Bool
stays_healthy config s = s.connected && elim s.big_segments [
  | none ↦ true
  | some b ↦ not (b.potentially_stale && config.big_segments_stale_as_degraded)
]

-- One pass of the loop over the environments.
unfoldable pub show_environment : ℕ → StatusConfig → EnvReport → StatusRep → StatusRep
unfolding environment_status stays_healthy
show_environment now config e rep =
    let s = environment_status now config e in
    record {
      environments =
          insert (if config.log_name_is_env_id then s.env_id else e.display_name) s
            rep.environments;
      healthy = if stays_healthy config s then rep.healthy else false;
    }

unfoldable pub status_loop : ℕ → StatusConfig → List EnvReport → StatusRep → StatusRep
unfolding show_environment
status_loop now config [] rep = rep
status_loop now config (e ∷ es) rep = status_loop now config es (show_environment now config e rep)

unfoldable pub status_handler : ℕ → StatusConfig → Bool → List EnvReport → StatusRep
unfolding status_loop
status_handler now config fully_configured es =
    status_loop now config es (record { environments = []; healthy = fully_configured })

-- ===== src/Tests/RelayTests.antt =====
-- The relay's environments at concrete inputs.
use ld_relay.Base.{
  not, ◌||◌, String, ◌≡◌, refl, Option, none, some, Bool, true, false, ◌&&◌, List, [], ◌∷◌, ite,
  string_discrete, if◌then◌else◌,
}
use ld_relay.Base.Assoc.{lookup, is_some}
use ld_relay.Credential.{
  is_defined, sdk_key, mobile_key, environment_id, ScopedCredential-discrete, new_scoped,
  scoped_key, credential_key,
}
use ld_relay.EnvFactory.{
  make_environment_config, EnvIdentifiers, EnvironmentParams, EnvConfig, credentials,
}
use ld_relay.RelayEnv.{EnvContext, new_env_context, find_handler, supports, server_side}
use ld_relay.RelayEnv.Lookup.{Change, add, remove, deprecate, change_all, stream_handler_found}
use ld_relay.Relay.Environments.{
  ref_key, EnvironmentLookup, new_environment_lookup, insert_environment, find,
}
use ld_relay.Relay.Environments.Laws.{unless}
use ld_relay.Relay.Environments.Invariant.{
  Inv, new_environment_lookup-Inv, inserts, perform, perform-Inv,
}
use ld_relay.Relay.Core.{Relay, get_environment}
use ld_relay.RelayEnv.{close}
use ld_relay.ProjManager.Manager.{add_env}
use ld_relay.Relay.Actions.Tables.{UnlessPanic, TableInv, act-Inv}
use ld_relay.Relay.Actions
use ld_relay.Relay.Actions.{act, update_environment, key_expired, add_environment_action}
use ld_relay.Relay.Actions.Rotation.{goes, comes}
use ld_relay.Relay.Actions.Outcomes.{
  previous, update_environment-find, add_environment_action-panics, is_found,
  delete_environment_action-find,
}
use ld_relay.Relay.Status.{ClientReport, EnvReport, StatusConfig, valid, status_handler}
use ld_relay.Relay.Status.Health.{status_handler-healthy}
use ld_relay.Relay.Startup.{wait_for_all_clients, all_initialized}
use ld_relay.Relay.Startup.Wait.{wait_result}
use ld_relay.FileData.{ArchiveEnvironment}
use ld_relay.Relay.Offline.{Offline, update_offline, add_offline}
use ld_relay.Relay.Actions.{credentials_of}
use ld_relay.Relay.Offline.Updates.{update_offline-keys, update_each, late_environment-no_data}

abbrev pub identifiers : EnvIdentifiers
identifiers = record {
  env_key = "production";
  env_name = "Production";
  proj_key = "p";
  proj_name = "Project";
  filter_key = "";
  configured_name = "";
}

abbrev pub config : EnvConfig String
config = record {
  sdk_key = "s1";
  mobile_key = "m1";
  env_id = "e1";
  prefix = "";
  table_name = "";
  allowed_origin = "";
  allowed_header = "";
  secure_mode = false;
  ttl = none;
  proj_key = "";
  filter_key = "";
}

-- The keys `s2` and `m1`, while `s1` expires.
abbrev rotated : EnvironmentParams
rotated = record {
  env_id = "e1";
  identifiers = identifiers;
  sdk_key = "s2";
  mobile_key = "m1";
  expiring_sdk_key = "s1";
  ttl = 5;
  secure_mode = false;
}

abbrev replaced : EnvironmentParams
replaced = record rotated { expiring_sdk_key = "" }

abbrev table : EnvironmentLookup
table = record {
  mapping =
      (new_scoped "" (environment_id "e1"), 0)
      ∷ (new_scoped "" (sdk_key "s1"), 0)
      ∷ (new_scoped "" (mobile_key "m1"), 0)
      ∷ [];
  conns = (0, tt) ∷ [];
}

abbrev context : EnvContext
context = record {
  identifiers = identifiers;
  secure_mode = false;
  ttl = 0;
  filter_key = "";
  credentials = (environment_id "e1", true) ∷ (sdk_key "s1", true) ∷ (mobile_key "m1", true) ∷ [];
  active_streams = [];
  handlers = [];
  clients = [];
  starting = [];
  closed_clients = [];
}

abbrev pub relay : Relay String
relay = record {
  factory = record {
    data_store_prefix = "";
    table_name = "";
    allowed_origin = "";
    allowed_header = "";
  };
  table = table;
  envs = (0, context) ∷ [];
  next_ref = 1;
  fully_configured = true;
  closed = false;
}

abbrev pub changes : List Change
changes = add (sdk_key "s2") ∷ deprecate (sdk_key "s1") ∷ remove (sdk_key "s1") ∷ []

stream_handler_found_example :
    let env = change_all changes (new_env_context identifiers config) in
    find_handler server_side (sdk_key "s2") env.handlers ≡ (
      if supports server_side (sdk_key "s2") && is_some (lookup (sdk_key "s2") env.credentials)
      then some (new_scoped "" (sdk_key "s2"))
      else none)
stream_handler_found_example =
    stream_handler_found identifiers config changes server_side (sdk_key "s2")

update_environment-find_example :
    find (new_scoped "" (sdk_key "s1")) (update_environment rotated relay).table
    ≡ ite
        (string_discrete "" "")
        (if goes (credentials rotated) (previous rotated 0 relay) (sdk_key "s1")
          then none
          else if comes (credentials rotated) (previous rotated 0 relay) (sdk_key "s1")
          then some 0
          else find (new_scoped "" (sdk_key "s1")) table)
        (find (new_scoped "" (sdk_key "s1")) table)
unfolding get_environment lookup ScopedCredential-discrete string_discrete
update_environment-find_example = update_environment-find rotated 0 "" (sdk_key "s1") relay refl

abbrev keep_text : String → String → String → String
keep_text s old new = s

abbrev never : EnvConfig String → Bool
never c = false

abbrev closed_relay : Relay String
closed_relay = record relay { table = new_environment_lookup; closed = true }

add_environment_action-panics_example :
    is_some (add_environment_action keep_text never rotated closed_relay)
    ≡ not (
        (closed_relay.closed
          || never (make_environment_config keep_text closed_relay.factory rotated))
        && (is_defined rotated.expiring_sdk_key
            && not (
                is_found (
                  get_environment
                    (new_scoped "" (sdk_key rotated.expiring_sdk_key))
                    closed_relay))))
add_environment_action-panics_example =
    add_environment_action-panics keep_text never rotated closed_relay

abbrev inserted : EnvironmentLookup
inserted = insert_environment "" (sdk_key "s1" ∷ environment_id "e1" ∷ []) 0 new_environment_lookup

inserted-Inv : Inv inserted
unfolding perform
inserted-Inv =
    perform-Inv (inserts "" (sdk_key "s1" ∷ environment_id "e1" ∷ []) 0) new_environment_lookup
      new_environment_lookup-Inv

abbrev inserted_relay : Relay String
inserted_relay = record relay { table = inserted }

delete_environment_action-find_example :
    let r' = Actions.delete_environment "e1" "" inserted_relay in
    (find (new_scoped "" (sdk_key "s1")) r'.table
      ≡ unless 0 (find (new_scoped "" (sdk_key "s1")) inserted))
    × (lookup 0 r'.envs ≡ some (close context))
unfolding insert_environment lookup ScopedCredential-discrete string_discrete
    ld_relay.Base.Assoc.insert ld_relay.Base.ℕ_discrete
delete_environment_action-find_example =
    delete_environment_action-find "e1" "" (new_scoped "" (sdk_key "s1")) 0 context inserted_relay
      inserted-Inv refl refl

act-Inv_example : UnlessPanic TableInv (act keep_text never (add_env rotated) inserted_relay)
act-Inv_example = act-Inv keep_text never (add_env rotated) inserted_relay inserted-Inv

abbrev report : EnvReport
report = record {
  context = context;
  display_name = "Project Production";
  client =
      some (record { initialized = true; state = valid; state_since = 10; store_available = true });
  big_segment_store = some (some 1000);
}

abbrev status_config : StatusConfig
status_config = record {
  disconnected_status_time = 60000;
  big_segments_stale_threshold = 300;
  big_segments_stale_as_degraded = true;
  log_name_is_env_id = false;
}

status_handler-healthy_example :
    (status_handler 1500 status_config true (report ∷ [])).healthy ≡ false
unfolding ld_relay.Relay.Status.Health.all_healthy ld_relay.Relay.Status.Health.is_healthy
    ld_relay.Relay.Status.client_connected ld_relay.Relay.Status.big_segments_stale
status_handler-healthy_example = status_handler-healthy 1500 status_config true (report ∷ [])

wait_result_example : wait_for_all_clients true true 2 (false ∷ true ∷ []) ≡ some all_initialized
unfolding ld_relay.Relay.Startup.Wait.awaited ld_relay.Relay.Startup.Wait.verdict
    ld_relay.Relay.Startup.Wait.any_failed
wait_result_example = wait_result true true 2 (false ∷ true ∷ [])

abbrev archived : ArchiveEnvironment String
archived = record { params = rotated; sdk_data = some "data" }

abbrev offline : Offline String String
offline = record { relay = relay; env_updates = ("e1", 0) ∷ []; inits = [] }

abbrev without_sinks : Offline String String
without_sinks = record { relay = relay; env_updates = []; inits = [] }

update_offline-keys_example :
    (get_environment (new_scoped "" (sdk_key "s2")) (update_offline archived offline).relay
      ≡ get_environment (new_scoped "" (sdk_key "s2")) relay)
    × (credentials_of 0 (update_offline archived offline).relay ≡ credentials_of 0 relay)
update_offline-keys_example = update_offline-keys archived offline (new_scoped "" (sdk_key "s2")) 0

late_environment-no_data_example :
    let s = add_offline keep_text never false archived without_sinks in
    (update_each (archived ∷ []) s ≡ s) × (s.inits ≡ [])
unfolding lookup
late_environment-no_data_example =
    late_environment-no_data keep_text never archived (archived ∷ []) without_sinks refl (refl, tt)

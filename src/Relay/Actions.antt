-- ===== src/Relay/Actions.antt =====
-- relay/autoconfig_actions.go. `none` is a panic: a method call on the nil environment.
pub mod Rotation
pub mod Outcomes
pub mod Tables
use ld_relay.Base.{
  ℕ, String, Option, none, some, Bool, true, false, List, [], ◌∷◌, ite, if◌then◌else◌,
}
use ld_relay.Base.Assoc.{lookup}
use ld_relay.Credential.{
  SdkKey, EnvironmentId, FilterKey, SdkCredential, environment_id, Status, unchanged, deprecated,
  expired, compare_credential, AutoConfigCredentials, new_scoped, is_defined,
}
use ld_relay.Credential
use ld_relay.EnvFactory.{EnvironmentParams, EnvConfig, credentials, make_environment_config}
use ld_relay.RelayEnv.{
  EnvContext, add_credential, remove_credential, deprecate_credential, get_credentials,
}
use ld_relay.ProjManager.Manager.{
  EnvAction, add_env, update_env, delete_env, expire_key, all_received,
}
use ld_relay.Relay.Environments.{EnvRef, ref_key}
use ld_relay.Relay.Core.{
  Relay, found, failed, get_environment, add_environment, modify, remove_environment,
  set_fully_configured, add_connection_mapping, remove_connection_mapping,
}

-- `SetIdentifiers`, `SetTTL`, `SetSecureMode`
abbrev pub set_properties : EnvironmentParams → EnvContext → EnvContext
set_properties params ctx = record ctx {
  identifiers = params.identifiers;
  ttl = params.ttl;
  secure_mode = params.secure_mode;
}

module _ {L : Type 0} where
  -- The `switch` on the status of a credential that has changed.
  unfoldable pub retire : Status → EnvRef → FilterKey → SdkCredential → Relay L → Relay L
  unfolding modify remove_connection_mapping deprecate_credential remove_credential
  retire unchanged env f prev r = r
  retire deprecated env f prev r = modify env (deprecate_credential prev) r
  retire expired env f prev r =
      modify env (remove_credential prev) (remove_connection_mapping (new_scoped f prev) r)

  -- The body of the loop over the previous credentials. `Compare` returns no credential exactly if it
  -- returns `Unchanged`.
  unfoldable pub rotate :
      AutoConfigCredentials → EnvRef → FilterKey → SdkCredential → Relay L → Relay L
  unfolding retire compare_credential add_connection_mapping add_credential modify
  rotate cr env f prev r =
      let (new_cred, status) = compare_credential prev cr in
      elim new_cred [
        | none ↦ r
        | some c ↦
            retire status env f prev
              (add_connection_mapping (new_scoped f c) env (modify env (add_credential c) r))
      ]

  unfoldable pub rotate_all :
      AutoConfigCredentials → EnvRef → FilterKey → List SdkCredential → Relay L → Relay L
  unfolding rotate
  rotate_all cr env f [] r = r
  rotate_all cr env f (prev ∷ prevs) r = rotate_all cr env f prevs (rotate cr env f prev r)

  -- The credentials of the environment that a reference points to.
  abbrev pub credentials_of : EnvRef → Relay L → List SdkCredential
  credentials_of env r = elim (lookup env r.envs) [ none ↦ [] | some ctx ↦ get_credentials ctx ]

  unfoldable pub update_environment : EnvironmentParams → Relay L → Relay L
  unfolding get_environment modify rotate_all credentials
  update_environment params r =
      let f = params.identifiers.filter_key in
      elim (get_environment (new_scoped f (environment_id params.env_id)) r) [
        | failed e ↦ r
        | found env ↦
            let r' = modify env (set_properties params) r in
            rotate_all (credentials params) env f (credentials_of env r') r'
      ]

  unfoldable pub delete_environment : EnvironmentId → FilterKey → Relay L → Relay L
  unfolding remove_environment
  delete_environment id f r = (remove_environment (new_scoped f (environment_id id)) r).0

  unfoldable pub key_expired : EnvironmentId → FilterKey → SdkKey → Relay L → Relay L
  unfolding get_environment remove_connection_mapping modify remove_credential
  key_expired id f old_key r = elim (get_environment (new_scoped f (environment_id id)) r) [
    | failed e ↦ r
    | found env ↦
        modify env (remove_credential (Credential.sdk_key old_key))
          (remove_connection_mapping (new_scoped f (Credential.sdk_key old_key)) r)
  ]

  -- The second half of `AddEnvironment`: the expiring key, if no environment has it.
  unfoldable pub add_expiring_key : FilterKey → SdkKey → Option EnvRef → Relay L → Option (Relay L)
  unfolding get_environment modify add_credential deprecate_credential add_connection_mapping
  add_expiring_key f k env r =
      let c = Credential.sdk_key k in
      elim (get_environment (new_scoped f c) r) [
        | found _ ↦ some r
        | failed _ ↦ elim env [
          | none ↦ none
          | some e ↦ some (
              add_connection_mapping (new_scoped f c) e
                (modify e (deprecate_credential c) (modify e (add_credential c) r)))
        ]
      ]

module _ (replace_all : String → String → String → String) {L : Type 0}
    (fails : EnvConfig L → Bool) where
  unfoldable pub add_environment_action : EnvironmentParams → Relay L → Option (Relay L)
  unfolding make_environment_config add_environment add_expiring_key is_defined
  add_environment_action params r =
      let config = make_environment_config replace_all r.factory params in
      let (r', env) = add_environment fails params.identifiers config r in
      if is_defined params.expiring_sdk_key
      then add_expiring_key params.identifiers.filter_key params.expiring_sdk_key env r'
      else some r'

  unfoldable pub act : EnvAction → Relay L → Option (Relay L)
  unfolding add_environment_action update_environment delete_environment key_expired
  act (add_env params) r = add_environment_action params r
  act (update_env params) r = some (update_environment params r)
  act (delete_env id f) r = some (delete_environment id f r)
  act (expire_key id f k) r = some (key_expired id f k r)
  act all_received r = some (set_fully_configured true r)

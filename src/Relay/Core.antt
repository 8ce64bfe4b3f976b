-- ===== src/Relay/Core.antt =====
-- relay/relay.go: the relay's environments. The environments are a heap that references point into;
-- the locks make each method one step. Whether the data store and the environment's other parts can be
-- made of a configuration is not the program's alone: it is a parameter.
use ld_relay.Base.{
  ◌≡◌, refl, ◌⊎◌, inl, inr, ◌+◌, Option, none, some, Bool, true, false, if◌then◌else◌,
}
use ld_relay.Base.Assoc.{Assoc, lookup, insert, is_some}
use ld_relay.Credential.{ScopedCredential, unscope, scoped_key}
use ld_relay.EnvFactory.{EnvIdentifiers, EnvConfig, EnvConfigFactory}
use ld_relay.RelayEnv.{EnvContext, get_credentials, new_env_context, close}
use ld_relay.Relay.Environments.{
  EnvRef, ref_key, EnvironmentLookup, insert_environment, map_request_params, unmap_request_params,
  find, delete_environment,
}

pub record Relay (L : Type 0) : Type 0 where
  pub factory : EnvConfigFactory L
  pub table : EnvironmentLookup
  pub envs : Assoc EnvRef EnvContext
  pub next_ref : EnvRef
  pub fully_configured : Bool
  pub closed : Bool

pub data LookupError : Type 0 where
  not_ready unrecognized_environment payload_filter_not_found : LookupError

pub data Found : Type 0 where
  found : EnvRef → Found
  failed : LookupError → Found

pub Found-cases :
    (x : Found) → ((env : EnvRef) × (x ≡ found env)) ⊎ ((e : LookupError) × (x ≡ failed e))
Found-cases (found env) = inl (env, refl)
Found-cases (failed e) = inr (e, refl)

module _ {L : Type 0} where
  unfoldable pub get_environment : ScopedCredential → Relay L → Found
  get_environment req r =
      if r.fully_configured
      then elim (find req r.table) [
        | some env ↦ found env
        | none ↦
            if is_some (find (unscope req) r.table)
            then failed payload_filter_not_found
            else failed unrecognized_environment
      ]
      else failed not_ready

  -- `none` is any of the three errors.
  unfoldable pub add_environment :
      (EnvConfig L → Bool) → EnvIdentifiers → EnvConfig L → Relay L → Relay L × Option EnvRef
  unfolding insert_environment new_env_context
  add_environment fails identifiers config r =
      if r.closed
      then (r, none)
      else if fails config
      then (r, none)
      else let env = new_env_context identifiers config in
        (
          record r {
            table = insert_environment env.filter_key (get_credentials env) r.next_ref r.table;
            envs = insert r.next_ref env r.envs;
            next_ref = r.next_ref + 1;
          },
          some r.next_ref,
        )

  -- A method call on the environment.
  unfoldable pub modify : EnvRef → (EnvContext → EnvContext) → Relay L → Relay L
  modify env f r = elim (lookup env r.envs) [
    | none ↦ r
    | some ctx ↦ record r { envs = insert env (f ctx) r.envs }
  ]

  unfoldable pub remove_environment : ScopedCredential → Relay L → Relay L × Bool
  unfolding delete_environment modify close
  remove_environment params r =
      let (table, removed) = delete_environment params r.table in
      elim removed [
        | none ↦ (r, false)
        | some env ↦ (modify env close (record r { table = table }), true)
      ]

  abbrev pub set_fully_configured : Bool → Relay L → Relay L
  set_fully_configured b r = record r { fully_configured = b }

  unfoldable pub add_connection_mapping : ScopedCredential → EnvRef → Relay L → Relay L
  unfolding map_request_params
  add_connection_mapping params env r = record r { table = map_request_params params env r.table }

  unfoldable pub remove_connection_mapping : ScopedCredential → Relay L → Relay L
  unfolding unmap_request_params
  remove_connection_mapping params r = record r { table = unmap_request_params params r.table }

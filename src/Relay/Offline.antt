-- ===== src/Relay/Offline.antt =====
-- relay/filedata_actions.go: what a new archive of the offline mode changes in the relay. A sink of the SDK's
-- updates belongs to an environment, whose reference stands for it. Whether the data source starts within
-- the two seconds is an argument; the status that follows the data is left out, as is the log.
pub mod Updates
use ld_relay.Base.{
  String, Option, none, some, Bool, true, false, List, [], ◌∷◌, ◌++◌, if◌then◌else◌,
}
use ld_relay.Base.Assoc.{Assoc, lookup, insert, delete}
use ld_relay.Credential.{EnvironmentId, FilterKey, environment_id, new_scoped, string_key}
use ld_relay.EnvFactory.{EnvConfig, make_environment_config}
use ld_relay.FileData.{
  ArchiveEnvironment, UpdateCall, add_environment, update_environment, delete_environment,
}
use ld_relay.Relay.Environments.{EnvRef}
use ld_relay.Relay.Core.{Relay, found, failed, get_environment, modify, remove_environment}
use ld_relay.Relay.Core
use ld_relay.Relay.Actions.{set_properties}

-- The relay, `envUpdates`, and the calls of `Init` in their order.
pub record Offline (L D : Type 0) : Type 0 where
  pub relay : Relay L
  pub env_updates : Assoc EnvironmentId EnvRef
  pub inits : List (EnvRef × Option D)

module _ {L D : Type 0} where
  -- Both sinks are there; the data is passed on only if it has changed.
  unfoldable pub apply_update : EnvRef → EnvRef → ArchiveEnvironment D → Offline L D → Offline L D
  unfolding modify
  apply_update env updates ae s = record s {
    relay = modify env (set_properties ae.params) s.relay;
    inits = elim ae.sdk_data [ none ↦ s.inits | some d ↦ s.inits ++ ((updates, some d) ∷ []) ];
  }

  unfoldable pub update_offline : ArchiveEnvironment D → Offline L D → Offline L D
  unfolding apply_update get_environment
  update_offline ae s =
      elim (get_environment
        (new_scoped ae.params.identifiers.filter_key (environment_id ae.params.env_id)) s.relay) [
          | failed e ↦ s
          | found env ↦ elim (lookup ae.params.env_id s.env_updates) [
            | none ↦ s
            | some updates ↦ apply_update env updates ae s
          ]
        ]

  unfoldable pub delete_offline : EnvironmentId → FilterKey → Offline L D → Offline L D
  unfolding remove_environment
  delete_offline id f s = record s {
    relay = (remove_environment (new_scoped f (environment_id id)) s.relay).0;
    env_updates = delete id s.env_updates;
  }

module _ (replace_all : String → String → String → String) {L D : Type 0}
    (fails : EnvConfig L → Bool) where
  unfoldable pub add_offline : Bool → ArchiveEnvironment D → Offline L D → Offline L D
  unfolding make_environment_config Core.add_environment
  add_offline started ae s =
      let config = make_environment_config replace_all s.relay.factory ae.params in
      let (r', env) = Core.add_environment fails ae.params.identifiers config s.relay in
      elim env [
        | none ↦ record s { relay = r' }
        | some e ↦
            if started
            then record {
              relay = r';
              env_updates = insert ae.params.env_id e s.env_updates;
              inits = s.inits ++ ((e, ae.sdk_data) ∷ []);
            }
            else record s { relay = r' }
      ]

  -- A call of the handler, with whether the data source starts.
  unfoldable pub handle_offline : Bool → UpdateCall D → Offline L D → Offline L D
  unfolding add_offline update_offline delete_offline
  handle_offline started (add_environment ae) s = add_offline started ae s
  handle_offline started (update_environment ae) s = update_offline ae s
  handle_offline started (delete_environment id f) s = delete_offline id f s

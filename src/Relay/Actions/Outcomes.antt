-- ===== src/Relay/Actions/Outcomes.antt =====
-- Which requests find an environment after an action.
use mathlib.Core.List.{Memᴰ}
use ld_relay.Base.{
  String, ◌≡◌, ◌∙◌, none, some, Bool, true, false, not, ◌&&◌, ◌||◌, List, [], ◌∷◌, ite, if_pos,
  if_neg, string_discrete, if◌then◌else◌, arith,
}
use ld_relay.Relay.Environments.Laws.{unless}
use ld_relay.Relay.Environments.Invariant.{Inv, delete_environment-find}
use ld_relay.RelayEnv.{EnvContext, close}
use ld_relay.Base.Assoc.{is_some, lookup, lookup-insert_self, lookup-delete}
use ld_relay.Credential.{
  SdkKey, SdkCredential, sdk_key, environment_id, expired, compare_credential,
  AutoConfigCredentials, ScopedCredential, ScopedCredential-discrete, FilterKey, EnvironmentId,
  new_scoped, scoped_key, is_defined,
}
use ld_relay.EnvFactory.{EnvironmentParams, EnvConfig, credentials, make_environment_config}
use ld_relay.RelayEnv.{remove_credential}
use ld_relay.Relay.Environments.{ref_key, EnvRef, find, unmap_request_params}
use ld_relay.Relay.Core.{
  Relay, Found, found, failed, get_environment, add_environment, modify, remove_environment,
  remove_connection_mapping,
}
use ld_relay.Relay.Actions.{
  delete_environment, set_properties, credentials_of, rotate_all, update_environment, key_expired,
  add_environment_action, add_expiring_key,
}
use ld_relay.Relay.Actions.Rotation.{
  comes, goes, credentials-Typed, table-modify, find-rotate_all, find-rotate_all_other,
}

-- A previous credential that has expired is among those that go.
goes-mem :
    (cr : AutoConfigCredentials) (ps : List SdkCredential) (c : SdkCredential)
    → Memᴰ c ps
    → (compare_credential c cr).1 ≡ expired
    → goes cr ps c ≡ true
goes-mem cr [] c m e = elim m [ ]
goes-mem cr (p ∷ ps) c (Memᴰ.head q) e = ground (arith, q)
goes-mem cr (p ∷ ps) c (Memᴰ.tail m) e = ground (arith, goes-mem cr ps c m e)

module _ {L : Type 0} where
  -- The credentials that an update compares with the new ones.
  abbrev pub previous : EnvironmentParams → EnvRef → Relay L → List SdkCredential
  previous params env r = credentials_of env (modify env (set_properties params) r)

  update_environment-eq :
      (params : EnvironmentParams) (env : EnvRef) (r : Relay L)
      → get_environment (new_scoped params.identifiers.filter_key (environment_id params.env_id)) r
        ≡ found env
      → update_environment params r
        ≡ rotate_all
            (credentials params)
            env
            params.identifiers.filter_key
            (previous params env r)
            (modify env (set_properties params) r)
  unfolding update_environment
  update_environment-eq params env r e = rw (e, update_environment)

  -- After an update of an environment that is there: a key with the environment's filter finds nothing
  -- if it is a previous credential that has expired, else the environment if it takes the place of a
  -- previous credential, else what it found before. A key with another filter finds what it found.
  pub update_environment-find :
      (params : EnvironmentParams) (env : EnvRef) (h : FilterKey) (c : SdkCredential) (r : Relay L)
      → get_environment (new_scoped params.identifiers.filter_key (environment_id params.env_id)) r
        ≡ found env
      → find (new_scoped h c) (update_environment params r).table
        ≡ ite
            (string_discrete h params.identifiers.filter_key)
            (if goes (credentials params) (previous params env r) c
              then none
              else if comes (credentials params) (previous params env r) c
              then some env
              else find (new_scoped h c) r.table)
            (find (new_scoped h c) r.table)
  update_environment-find params env h c r e =
      let cr = credentials params in
      let f = params.identifiers.filter_key in
      let r' = modify env (set_properties params) r in
      elim (string_discrete h f) [
        | yes p ↦
            rw (update_environment-eq params env r e, if_pos (string_discrete h f) p, p)
              (find-rotate_all cr env f (previous params env r) c r' (credentials-Typed params)
                ∙ rw (table-modify env (set_properties params) r))
        | no n ↦
            rw (update_environment-eq params env r e, if_neg (string_discrete h f) n)
              (find-rotate_all_other cr env f h (previous params env r) c r' n
                ∙ rw (table-modify env (set_properties params) r))
      ]

  -- When the key of an environment that is there has expired, it finds nothing any more with the
  -- environment's filter, and every other key finds what it found before.
  pub key_expired-find :
      (id : EnvironmentId) (f : FilterKey) (k : SdkKey) (env : EnvRef) (q : ScopedCredential)
      (r : Relay L)
      → get_environment (new_scoped f (environment_id id)) r ≡ found env
      → find q (key_expired id f k r).table
        ≡ ite (ScopedCredential-discrete q (new_scoped f (sdk_key k))) none (find q r.table)
  unfolding key_expired remove_connection_mapping unmap_request_params
  key_expired-find id f k env q r e =
      rw
        (
          e,
          key_expired,
          table-modify env (remove_credential (sdk_key k))
              (remove_connection_mapping (new_scoped f (sdk_key k)) r),
        )
        (lookup-delete (new_scoped f (sdk_key k)) q r.table.mapping)

  -- After an update of an environment that is there, a previous credential that the new ones have
  -- expired finds no environment with the environment's filter.
  pub update_environment-expired :
      (params : EnvironmentParams) (env : EnvRef) (c : SdkCredential) (r : Relay L)
      → get_environment (new_scoped params.identifiers.filter_key (environment_id params.env_id)) r
        ≡ found env
      → Memᴰ c (previous params env r)
      → (compare_credential c (credentials params)).1 ≡ expired
      → find (new_scoped params.identifiers.filter_key c) (update_environment params r).table ≡ none
  update_environment-expired params env c r e m x = ground (
    arith,
    update_environment-find params env params.identifiers.filter_key c r e,
    goes-mem (credentials params) (previous params env r) c m x,
  )

abbrev pub is_found : Found → Bool
is_found (found env) = true
is_found (failed err) = false

module _ (replace_all : String → String → String → String) {L : Type 0}
    (fails : EnvConfig L → Bool) where
  -- Adding an environment panics exactly if it cannot be added, as the relay is closed or the environment
  -- cannot be made of its configuration, and its representation has an expiring key that finds no environment
  -- in the relay.
  pub add_environment_action-panics :
      (params : EnvironmentParams) (r : Relay L)
      → let config = make_environment_config replace_all r.factory params in
        let key = new_scoped params.identifiers.filter_key (sdk_key params.expiring_sdk_key) in
        is_some (add_environment_action replace_all fails params r)
        ≡ not (
            (r.closed || fails config)
            && (is_defined params.expiring_sdk_key && not (is_found (get_environment key r))))
  unfolding add_environment_action add_environment add_expiring_key
  add_environment_action-panics params r = ground arith

module _ {L : Type 0} where
  -- After the deletion of an environment that is there, in a table that keeps its invariant: no key
  -- finds the environment, every other key finds what it found before, and the environment's clients
  -- are closed.
  pub delete_environment_action-find :
      (id : EnvironmentId) (f : FilterKey) (k : ScopedCredential) (env : EnvRef) (ctx : EnvContext)
      (r : Relay L)
      → Inv r.table
      → find (new_scoped f (environment_id id)) r.table ≡ some env
      → lookup env r.envs ≡ some ctx
      → let r' = delete_environment id f r in
        (find k r'.table ≡ unless env (find k r.table)) × (lookup env r'.envs ≡ some (close ctx))
  unfolding delete_environment remove_environment modify
  delete_environment_action-find id f k env ctx r v e q =
      let (removed, found_after, _) =
        delete_environment-find (new_scoped f (environment_id id)) k env r.table v e in
      rw (removed, q, delete_environment, remove_environment, modify)
        (found_after, lookup-insert_self env (close ctx) r.envs)

-- ===== src/Relay/Actions/Tables.antt =====
-- Every action keeps the table and the connections in step.
use ld_relay.Base.{
  String, Option, none, some, Bool, List, [], ◌∷◌, inl, inr, Option-cases, Bool-cases,
}
use ld_relay.Credential.{
  SdkKey, EnvironmentId, FilterKey, SdkCredential, sdk_key, environment_id, Status, unchanged,
  deprecated, expired, compare_credential, AutoConfigCredentials, ScopedCredential, new_scoped,
  is_defined,
}
use ld_relay.EnvFactory.{
  EnvironmentParams, EnvConfig, EnvIdentifiers, credentials, make_environment_config,
}
use ld_relay.RelayEnv.{
  EnvContext, get_credentials, new_env_context, add_credential, remove_credential,
  deprecate_credential, close,
}
use ld_relay.ProjManager.Manager.{
  EnvAction, add_env, update_env, delete_env, expire_key, all_received,
}
use ld_relay.Relay.Environments.{EnvRef}
use ld_relay.Relay.Environments.Invariant.{
  Inv, inserts, maps, unmaps, deletes, perform, perform-Inv,
}
use ld_relay.Relay.Core.{
  Relay, Found, found, failed, get_environment, add_environment, modify, remove_environment,
  add_connection_mapping, remove_connection_mapping,
}
use ld_relay.Relay.Actions.{
  set_properties, retire, rotate, rotate_all, credentials_of, update_environment,
  delete_environment, key_expired, add_expiring_key, add_environment_action, act,
}
use ld_relay.Relay.Actions.Rotation.{table-modify}

-- What holds of the result if there is one.
abbrev pub UnlessPanic : {A : Type 0} → (A → Type 0) → Option A → Type 0
UnlessPanic P none = Unit
UnlessPanic P (some a) = P a

module _ {L : Type 0} where
  abbrev pub TableInv : Relay L → Type 0
  TableInv r = Inv r.table

  modify-Inv :
      (env : EnvRef) (g : EnvContext → EnvContext) (r : Relay L)
      → TableInv r
      → TableInv (modify env g r)
  modify-Inv env g r v = rw (table-modify env g r) v

  add_mapping-Inv :
      (k : ScopedCredential) (env : EnvRef) (r : Relay L)
      → TableInv r
      → TableInv (add_connection_mapping k env r)
  unfolding add_connection_mapping perform
  add_mapping-Inv k env r v = perform-Inv (maps k env) r.table v

  remove_mapping-Inv :
      (k : ScopedCredential) (r : Relay L) → TableInv r → TableInv (remove_connection_mapping k r)
  unfolding remove_connection_mapping perform
  remove_mapping-Inv k r v = perform-Inv (unmaps k) r.table v

  retire-Inv :
      (s : Status) (env : EnvRef) (f : FilterKey) (p : SdkCredential) (r : Relay L)
      → TableInv r
      → TableInv (retire s env f p r)
  unfolding retire
  retire-Inv unchanged env f p r v = v
  retire-Inv deprecated env f p r v = modify-Inv env (deprecate_credential p) r v
  retire-Inv expired env f p r v =
      modify-Inv env (remove_credential p) _ (remove_mapping-Inv (new_scoped f p) r v)

  rotate-Inv :
      (cr : AutoConfigCredentials) (env : EnvRef) (f : FilterKey) (p : SdkCredential) (r : Relay L)
      → TableInv r
      → TableInv (rotate cr env f p r)
  unfolding rotate
  rotate-Inv cr env f p r v = elim (Option-cases (compare_credential p cr).0) [
    | inl e ↦ rw (e, rotate) v
    | inr (c, e) ↦
        let r' : Relay L = modify env (add_credential c) r in
        rw (e, rotate)
          (retire-Inv (compare_credential p cr).1 env f p
            (add_connection_mapping (new_scoped f c) env r')
            (add_mapping-Inv (new_scoped f c) env r' (modify-Inv env (add_credential c) r v)))
  ]

  rotate_all-Inv :
      (cr : AutoConfigCredentials) (env : EnvRef) (f : FilterKey) (ps : List SdkCredential)
      (r : Relay L)
      → TableInv r
      → TableInv (rotate_all cr env f ps r)
  unfolding rotate_all
  rotate_all-Inv cr env f [] r v = v
  rotate_all-Inv cr env f (p ∷ ps) r v =
      rotate_all-Inv cr env f ps (rotate cr env f p r) (rotate-Inv cr env f p r v)

  update_environment-Inv :
      (params : EnvironmentParams) (r : Relay L)
      → TableInv r
      → TableInv (update_environment params r)
  unfolding update_environment
  update_environment-Inv params r v =
      let f = params.identifiers.filter_key in
      by_found (get_environment (new_scoped f (environment_id params.env_id)) r)
    where
      by_found :
          (x : Found)
          → TableInv (elim x [
            | failed e ↦ r
            | found env ↦
                rotate_all
                  (credentials params)
                  env
                  params.identifiers.filter_key
                  (credentials_of env (modify env (set_properties params) r))
                  (modify env (set_properties params) r)
          ])
      by_found (failed e) = v
      by_found (found env) =
          let r' : Relay L = modify env (set_properties params) r in
          rotate_all-Inv (credentials params) env params.identifiers.filter_key
            (credentials_of env r') r' (modify-Inv env (set_properties params) r v)

  key_expired-Inv :
      (id : EnvironmentId) (f : FilterKey) (k : SdkKey) (r : Relay L)
      → TableInv r
      → TableInv (key_expired id f k r)
  unfolding key_expired
  key_expired-Inv id f k r v = by_found (get_environment (new_scoped f (environment_id id)) r)
    where
      by_found :
          (x : Found)
          → TableInv (elim x [
            | failed e ↦ r
            | found env ↦
                modify env
                  (remove_credential (sdk_key k))
                  (remove_connection_mapping (new_scoped f (sdk_key k)) r)
          ])
      by_found (failed e) = v
      by_found (found env) =
          modify-Inv env (remove_credential (sdk_key k)) _
            (remove_mapping-Inv (new_scoped f (sdk_key k)) r v)

  delete_environment-Inv :
      (id : EnvironmentId) (f : FilterKey) (r : Relay L)
      → TableInv r
      → TableInv (delete_environment id f r)
  unfolding delete_environment remove_environment perform
  delete_environment-Inv id f r v =
      let k = new_scoped f (environment_id id) in
      let t = perform-Inv (deletes k) r.table v in
      elim (Option-cases (ld_relay.Relay.Environments.delete_environment k r.table).1) [
        | inl e ↦ rw (e, delete_environment, remove_environment) v
        | inr (env, e) ↦ rw (e, delete_environment, remove_environment) (modify-Inv env close _ t)
      ]

  add_expiring_key-Inv :
      (f : FilterKey) (k : SdkKey) (env : Option EnvRef) (r : Relay L)
      → TableInv r
      → UnlessPanic TableInv (add_expiring_key f k env r)
  unfolding add_expiring_key
  add_expiring_key-Inv f k env r v = by_found (get_environment (new_scoped f (sdk_key k)) r) env
    where
      by_found :
          (x : Found) (env : Option EnvRef)
          → UnlessPanic TableInv (elim x [
            | found _ ↦ some r
            | failed _ ↦ elim env [
              | none ↦ none
              | some e ↦ some (
                  add_connection_mapping (new_scoped f (sdk_key k)) e (
                    modify e
                      (deprecate_credential (sdk_key k))
                      (modify e (add_credential (sdk_key k)) r)))
            ]
          ])
      by_found (found _) env = v
      by_found (failed _) none = tt
      by_found (failed _) (some e) =
          let added : Relay L = modify e (add_credential (sdk_key k)) r in
          add_mapping-Inv (new_scoped f (sdk_key k)) e
            (modify e (deprecate_credential (sdk_key k)) added)
            (modify-Inv e (deprecate_credential (sdk_key k)) added
              (modify-Inv e (add_credential (sdk_key k)) r v))

module _ (replace_all : String → String → String → String) {L : Type 0}
    (fails : EnvConfig L → Bool) where
  add_environment-Inv :
      (ids : EnvIdentifiers) (config : EnvConfig L) (r : Relay L)
      → TableInv r
      → TableInv (add_environment fails ids config r).0
  unfolding add_environment perform
  add_environment-Inv ids config r v =
      let env = new_env_context ids config in
      let t = perform-Inv (inserts env.filter_key (get_credentials env) r.next_ref) r.table v in
      elim (Bool-cases r.closed) [
        | inl e ↦ rw (e, add_environment) v
        | inr e ↦ elim (Bool-cases (fails config)) [
          | inl q ↦ rw (e, q, add_environment) v
          | inr q ↦ rw (e, q, add_environment) t
        ]
      ]

  add_environment_action-Inv :
      (params : EnvironmentParams) (r : Relay L)
      → TableInv r
      → UnlessPanic TableInv (add_environment_action replace_all fails params r)
  unfolding add_environment_action
  add_environment_action-Inv params r v =
      let config = make_environment_config replace_all r.factory params in
      let added = add_environment fails params.identifiers config r in
      let t = add_environment-Inv params.identifiers config r v in
      elim (Bool-cases (is_defined params.expiring_sdk_key)) [
        | inl e ↦
            rw (e, add_environment_action)
              (add_expiring_key-Inv params.identifiers.filter_key params.expiring_sdk_key added.1
                added.0 t)
        | inr e ↦ rw (e, add_environment_action) t
      ]

  -- Every action that does not panic keeps the invariant of the table: no key stands twice, and every
  -- environment that a key finds is one of the connections.
  pub act-Inv :
      (a : EnvAction) (r : Relay L) → TableInv r → UnlessPanic TableInv (act replace_all fails a r)
  unfolding act
  act-Inv (add_env params) r v = add_environment_action-Inv params r v
  act-Inv (update_env params) r v = update_environment-Inv params r v
  act-Inv (delete_env id f) r v = delete_environment-Inv id f r v
  act-Inv (expire_key id f k) r v = key_expired-Inv id f k r v
  act-Inv all_received r v = v

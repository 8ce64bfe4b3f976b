-- ===== src/Relay/Offline/Updates.antt =====
-- What the updates of an archive come to.
use ld_relay.Base.{
  String, ◌≡◌, refl, ap, ◌∙◌, none, Option-cases, inl, inr, ◌⊎◌, Bool, false, List, [], ◌∷◌, arith,
  All,
}
use ld_relay.Base.Assoc.{lookup, lookup-insert}
use ld_relay.Credential.{
  ScopedCredential, EnvironmentId, string_key, environment_id, new_scoped, unscope,
}
use ld_relay.EnvFactory.{make_environment_config, EnvConfig, EnvironmentParams}
use ld_relay.FileData.{ArchiveEnvironment}
use ld_relay.RelayEnv.{EnvContext, credentials_where}
use ld_relay.Relay.Environments.{EnvRef, ref_key, find}
use ld_relay.Relay.Core.{Found-cases, Relay, Found, found, failed, get_environment, modify}
use ld_relay.Relay.Core
use ld_relay.Relay.Actions.{set_properties, credentials_of}
use ld_relay.Relay.Actions.Rotation.{table-modify}
use ld_relay.Relay.Offline.{Offline, apply_update, update_offline, add_offline}

module _ {L : Type 0} where
  get_environment-same :
      (req : ScopedCredential) (r r' : Relay L)
      → r'.table ≡ r.table
      → r'.fully_configured ≡ r.fully_configured
      → get_environment req r' ≡ get_environment req r
  unfolding get_environment
  get_environment-same req r r' t c = ground (arith, c, ap (find req) t, ap (find (unscope req)) t)

  modify-fully_configured :
      (env : EnvRef) (g : EnvContext → EnvContext) (r : Relay L)
      → (modify env g r).fully_configured ≡ r.fully_configured
  unfolding modify
  modify-fully_configured env g r = ground arith

  credentials_of-set_properties :
      (env ref : EnvRef) (params : EnvironmentParams) (r : Relay L)
      → credentials_of ref (modify env (set_properties params) r) ≡ credentials_of ref r
  unfolding modify credentials_where
  credentials_of-set_properties env ref params r = elim (Option-cases (lookup env r.envs)) [
    | inl q ↦ ground (arith, q)
    | inr (ctx, q) ↦ ground (arith, q, lookup-insert env ref (set_properties params ctx) r.envs)
  ]

module _ {L D : Type 0} where
  update_offline-cases :
      (ae : ArchiveEnvironment D) (s : Offline L D)
      → (update_offline ae s ≡ s)
        ⊎ ((env : EnvRef) × ((updates : EnvRef) × (update_offline ae s
                ≡ apply_update env updates ae s)))
  unfolding update_offline
  update_offline-cases ae s =
      elim (Found-cases (
        get_environment
          (new_scoped ae.params.identifiers.filter_key (environment_id ae.params.env_id))
          s.relay)) [
            | inr (e, q) ↦ inl (rw (q, update_offline) refl)
            | inl (env, q) ↦ elim (Option-cases (lookup ae.params.env_id s.env_updates)) [
              | inl u ↦ inl (rw (q, u, update_offline) refl)
              | inr (updates, u) ↦ inr (env, (updates, rw (q, u, update_offline) refl))
            ]
          ]

  -- An update keeps the environment's keys: every request finds what it found before, and each
  -- environment has the credentials that it had, whatever keys the archive now lists.
  pub update_offline-keys :
      (ae : ArchiveEnvironment D) (s : Offline L D) (req : ScopedCredential) (ref : EnvRef)
      → (get_environment req (update_offline ae s).relay ≡ get_environment req s.relay)
        × (credentials_of ref (update_offline ae s).relay ≡ credentials_of ref s.relay)
  unfolding apply_update
  update_offline-keys ae s req ref = elim (update_offline-cases ae s) [
    | inl q ↦ rw q (refl, refl)
    | inr (env, (updates, q)) ↦ rw q (
      get_environment-same req s.relay (modify env (set_properties ae.params) s.relay)
          (table-modify env (set_properties ae.params) s.relay)
          (modify-fully_configured env (set_properties ae.params) s.relay),
      credentials_of-set_properties env ref ae.params s.relay,
    )
  ]

-- Updates, one after the other.
unfoldable pub update_each :
    {L D : Type 0} → List (ArchiveEnvironment D) → Offline L D → Offline L D
update_each [] s = s
update_each (ae ∷ aes) s = update_each aes (update_offline ae s)

update_offline-unknown :
    {L D : Type 0}
    → (ae : ArchiveEnvironment D) (s : Offline L D) → lookup ae.params.env_id s.env_updates ≡ none
    → update_offline ae s ≡ s
unfolding update_offline
update_offline-unknown ae s u =
    elim (Found-cases (
      get_environment
        (new_scoped ae.params.identifiers.filter_key (environment_id ae.params.env_id)) s.relay)) [
          | inr (e, q) ↦ rw (q, update_offline) refl
          | inl (env, q) ↦ rw (q, u, update_offline) refl
        ]

update_each-unknown :
    {L D : Type 0}
    → (id : EnvironmentId) (aes : List (ArchiveEnvironment D)) (s : Offline L D)
    → lookup id s.env_updates ≡ none
    → All (λ a. a.params.env_id ≡ id) aes
    → update_each aes s ≡ s
unfolding update_each
update_each-unknown id [] s u h = refl
update_each-unknown id (ae ∷ aes) s u h =
    ap (update_each aes) (update_offline-unknown ae s (ap (λ i. lookup i s.env_updates) h.0 ∙ u))
    ∙ update_each-unknown id aes s u h.1

module _ (replace_all : String → String → String → String) {L D : Type 0}
    (fails : EnvConfig L → Bool) where
  add_offline-late :
      (ae : ArchiveEnvironment D) (s : Offline L D)
      → ((add_offline replace_all fails false ae s).env_updates ≡ s.env_updates)
        × ((add_offline replace_all fails false ae s).inits ≡ s.inits)
  unfolding add_offline
  add_offline-late ae s =
      elim (Option-cases
        (Core.add_environment fails ae.params.identifiers
          (make_environment_config replace_all s.relay.factory ae.params) s.relay).1) [
            | inl q ↦ rw (q, add_offline) (refl, refl)
            | inr (e, q) ↦ rw (q, add_offline) (refl, refl)
          ]

  -- If the data source of an environment does not start in time, no update of the environment that
  -- follows gets its data to it, or changes anything else.
  pub late_environment-no_data :
      (ae : ArchiveEnvironment D) (aes : List (ArchiveEnvironment D)) (s : Offline L D)
      → lookup ae.params.env_id s.env_updates ≡ none
      → All (λ a. a.params.env_id ≡ ae.params.env_id) aes
      → let s' = add_offline replace_all fails false ae s in
        (update_each aes s' ≡ s') × (s'.inits ≡ s.inits)
  late_environment-no_data ae aes s u h = (
    update_each-unknown ae.params.env_id aes (add_offline replace_all fails false ae s)
        (ap (lookup ae.params.env_id) (add_offline-late ae s).0 ∙ u) h,
    (add_offline-late ae s).1,
  )

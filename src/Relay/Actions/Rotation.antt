-- ===== src/Relay/Actions/Rotation.antt =====
-- Where the table sends the keys of an environment after its keys have changed.
use ld_relay.Base.{
  ◌≡◌, refl, ◌∙◌, ◌≢◌, ◌⊎◌, inl, inr, none, some, Bool, true, false, ◌||◌, List, [], ◌∷◌, ite,
  if_pos, if_neg, if◌then◌else◌, Bool-cases, arith,
}
use ld_relay.Base.Assoc.{lookup-insert, lookup-delete}
use ld_relay.Credential.{
  SdkCredential, SdkCredential-discrete, sdk_key, mobile_key, environment_id, auto_config_key,
  Status, unchanged, deprecated, expired, compare_credential, AutoConfigCredentials,
  ScopedCredential-discrete, FilterKey, new_scoped, scoped_key,
}
use ld_relay.EnvFactory.{EnvironmentParams, credentials}
use ld_relay.RelayEnv.{EnvContext, add_credential, remove_credential, deprecate_credential}
use ld_relay.Relay.Environments.{EnvRef, find, map_request_params, unmap_request_params}
use ld_relay.Relay.Core.{Relay, modify, add_connection_mapping, remove_connection_mapping}
use ld_relay.Relay.Actions.{retire, rotate, rotate_all}

-- The credential that takes the place of the previous one.
abbrev pub replaces : AutoConfigCredentials → SdkCredential → SdkCredential → Bool
replaces cr prev c = elim (compare_credential prev cr).0 [
  | none ↦ false
  | some new ↦ ite (SdkCredential-discrete c new) true false
]

abbrev pub is_expired : Status → Bool
is_expired expired = true
is_expired _ = false

-- Is it one of the credentials that come in, or that go out?
abbrev pub comes : AutoConfigCredentials → List SdkCredential → SdkCredential → Bool
comes cr [] c = false
comes cr (p ∷ ps) c = replaces cr p c || comes cr ps c

abbrev pub goes : AutoConfigCredentials → List SdkCredential → SdkCredential → Bool
goes cr [] c = false
goes cr (p ∷ ps) c =
    ite (SdkCredential-discrete c p) (is_expired (compare_credential p cr).1 || goes cr ps c)
      (goes cr ps c)

-- The credentials of an environment's parameters are of the types that their fields say.
abbrev pub Typed : AutoConfigCredentials → Type 0
Typed cr = ((k : _) × (cr.sdk_key ≡ sdk_key k)) × ((k : _) × (cr.mobile_key ≡ mobile_key k))

pub credentials-Typed : (params : EnvironmentParams) → Typed (credentials params)
unfolding credentials
credentials-Typed params = ((params.sdk_key, refl), (params.mobile_key, refl))

-- What comes in is current, so it is never what goes out.
replaces-unchanged :
    (cr : AutoConfigCredentials) (p c : SdkCredential)
    → Typed cr
    → replaces cr p c ≡ true
    → (compare_credential c cr).1 ≡ unchanged
unfolding compare_credential
replaces-unchanged cr (sdk_key k) c ((s, e), (m, d)) h = ground arith
replaces-unchanged cr (mobile_key k) c ((s, e), (m, d)) h = ground arith
replaces-unchanged cr (environment_id k) c t h = cc
replaces-unchanged cr (auto_config_key k) c t h = cc

pub goes-expired :
    (cr : AutoConfigCredentials) (ps : List SdkCredential) (c : SdkCredential)
    → goes cr ps c ≡ true
    → (compare_credential c cr).1 ≡ expired
goes-expired cr [] c h = cc
goes-expired cr (p ∷ ps) c h = ground (arith, goes-expired cr ps c)

pub comes-unchanged :
    (cr : AutoConfigCredentials) (ps : List SdkCredential) (c : SdkCredential)
    → Typed cr
    → comes cr ps c ≡ true
    → (compare_credential c cr).1 ≡ unchanged
comes-unchanged cr [] c t h = cc
comes-unchanged cr (p ∷ ps) c t h = elim (Bool-cases (replaces cr p c)) [
  | inl e ↦ replaces-unchanged cr p c t e
  | inr e ↦ comes-unchanged cr ps c t (rw e at h)
]

pub compare_cases :
    (p : SdkCredential) (cr : AutoConfigCredentials)
    → (compare_credential p cr ≡ (none, unchanged))
      ⊎ (((new : SdkCredential) × (compare_credential p cr ≡ (some new, deprecated)))
          ⊎ ((new : SdkCredential) × (compare_credential p cr ≡ (some new, expired))))
unfolding compare_credential
compare_cases (sdk_key k) cr = elim (SdkCredential-discrete cr.sdk_key (sdk_key k)) [
  | yes e ↦ inl (rw (if_pos _ e))
  | no n ↦ elim (SdkCredential-discrete cr.expiring_sdk_key (sdk_key k)) [
    | yes e ↦ inr (inl (cr.sdk_key, rw (if_neg _ n, if_pos _ e)))
    | no m ↦ inr (inr (cr.sdk_key, rw (if_neg _ n, if_neg _ m)))
  ]
]
compare_cases (mobile_key k) cr = elim (SdkCredential-discrete cr.mobile_key (mobile_key k)) [
  | yes e ↦ inl (rw (if_pos _ e))
  | no n ↦ inr (inr (cr.mobile_key, rw (if_neg _ n)))
]
compare_cases (environment_id k) cr = inl refl
compare_cases (auto_config_key k) cr = inl refl

module _ {L : Type 0} where
  pub table-modify :
      (env : EnvRef) (g : EnvContext → EnvContext) (r : Relay L) → (modify env g r).table ≡ r.table
  unfolding modify
  table-modify env g r = ground arith

  find-add_mapping :
      (f h : FilterKey) (p c : SdkCredential) (env : EnvRef) (g : EnvContext → EnvContext)
      (r : Relay L)
      → find (new_scoped h c) (add_connection_mapping (new_scoped f p) env (modify env g r)).table
        ≡ ite
            (ScopedCredential-discrete (new_scoped h c) (new_scoped f p))
            (some env)
            (find (new_scoped h c) r.table)
  unfolding add_connection_mapping map_request_params
  find-add_mapping f h p c env g r =
      rw (table-modify env g r)
        (lookup-insert (new_scoped f p) (new_scoped h c) env r.table.mapping)

  find-retire_expired :
      (f h : FilterKey) (p c : SdkCredential) (env : EnvRef) (r : Relay L)
      → find (new_scoped h c) (retire expired env f p r).table
        ≡ ite
            (ScopedCredential-discrete (new_scoped h c) (new_scoped f p))
            none
            (find (new_scoped h c) r.table)
  unfolding retire remove_connection_mapping unmap_request_params
  find-retire_expired f h p c env r =
      rw (table-modify env (remove_credential p) (remove_connection_mapping (new_scoped f p) r))
        (lookup-delete (new_scoped f p) (new_scoped h c) r.table.mapping)

  table-retire_deprecated :
      (f : FilterKey) (p : SdkCredential) (env : EnvRef) (r : Relay L)
      → (retire deprecated env f p r).table ≡ r.table
  unfolding retire
  table-retire_deprecated f p env r = table-modify env (deprecate_credential p) r

  -- One round of the loop, for a credential of the environment's filter.
  find-rotate :
      (cr : AutoConfigCredentials) (env : EnvRef) (f : FilterKey) (p c : SdkCredential)
      (r : Relay L)
      → find (new_scoped f c) (rotate cr env f p r).table ≡ (
          if goes cr (p ∷ []) c
          then none
          else if replaces cr p c
          then some env
          else find (new_scoped f c) r.table)
  unfolding rotate
  find-rotate cr env f p c r = elim (compare_cases p cr) [
    | inl e ↦ rw (e, rotate) (ground arith)
    | inr (inl (new, e)) ↦
        rw (e, rotate)
          (ground (
            arith,
            table-retire_deprecated f p env
                (add_connection_mapping (new_scoped f new) env (modify env (add_credential new) r)),
            find-add_mapping f f new c env (add_credential new) r,
          ))
    | inr (inr (new, e)) ↦
        rw (e, rotate)
          (ground (
            arith,
            find-retire_expired f f p c env
                (add_connection_mapping (new_scoped f new) env (modify env (add_credential new) r)),
            find-add_mapping f f new c env (add_credential new) r,
          ))
  ]

  pub find-rotate_all :
      (cr : AutoConfigCredentials) (env : EnvRef) (f : FilterKey) (ps : List SdkCredential)
      (c : SdkCredential) (r : Relay L)
      → Typed cr
      → find (new_scoped f c) (rotate_all cr env f ps r).table ≡ (
          if goes cr ps c
          then none
          else if comes cr ps c
          then some env
          else find (new_scoped f c) r.table)
  unfolding rotate_all
  find-rotate_all cr env f [] c r t = refl
  find-rotate_all cr env f (p ∷ ps) c r t = ground (
    arith,
    find-rotate_all cr env f ps c (rotate cr env f p r) t,
    find-rotate cr env f p c r,
    goes-expired cr (p ∷ ps) c,
    goes-expired cr ps c,
    comes-unchanged cr ps c t,
    comes-unchanged cr (p ∷ ps) c t,
  )

  -- A key with another filter is not touched.
  find-rotate_other :
      (cr : AutoConfigCredentials) (env : EnvRef) (f h : FilterKey) (p c : SdkCredential)
      (r : Relay L)
      → h ≢ f
      → find (new_scoped h c) (rotate cr env f p r).table ≡ find (new_scoped h c) r.table
  unfolding rotate
  find-rotate_other cr env f h p c r n = elim (compare_cases p cr) [
    | inl e ↦ rw (e, rotate)
    | inr (inl (new, e)) ↦
        rw (e, rotate)
          (ground (
            arith,
            table-retire_deprecated f p env
                (add_connection_mapping (new_scoped f new) env (modify env (add_credential new) r)),
            find-add_mapping f h new c env (add_credential new) r,
          ))
    | inr (inr (new, e)) ↦
        rw (e, rotate)
          (ground (
            arith,
            find-retire_expired f h p c env
                (add_connection_mapping (new_scoped f new) env (modify env (add_credential new) r)),
            find-add_mapping f h new c env (add_credential new) r,
          ))
  ]

  pub find-rotate_all_other :
      (cr : AutoConfigCredentials) (env : EnvRef) (f h : FilterKey) (ps : List SdkCredential)
      (c : SdkCredential) (r : Relay L)
      → h ≢ f
      → find (new_scoped h c) (rotate_all cr env f ps r).table ≡ find (new_scoped h c) r.table
  unfolding rotate_all
  find-rotate_all_other cr env f h [] c r n = refl
  find-rotate_all_other cr env f h (p ∷ ps) c r n =
      find-rotate_all_other cr env f h ps c (rotate cr env f p r) n
      ∙ find-rotate_other cr env f h p c r n

-- ===== src/Streams/Registered.antt =====
-- The streams that an environment registers for its credentials.
use ld_relay.Base.{
  String, ◌≡◌, refl, ap, ◌∙◌, none, some, Bool, true, false, ◌&&◌, List, [], ◌∷◌, if◌then◌else◌,
  inl, inr, Option-cases, Bool-cases, arith,
}
use ld_relay.Base.Assoc.{
  Assoc, lookup, insert, delete, keys, is_some, UniqueKeys, insert-UniqueKeys, lookup-insert,
  lookup-delete,
}
use ld_relay.Credential.{
  SdkCredential, sdk_key, mobile_key, environment_id, credential_key, string_key, ScopedCredential,
  new_scoped, FilterKey, is_defined,
}
use ld_relay.EnvFactory.{EnvIdentifiers, EnvConfig}
use ld_relay.RelayEnv.{
  StreamProvider, supports, StreamInfo, Handlers, EnvContext, register_streams, unregister_streams,
  all_providers, no_handlers, handle_all, add_handler, remove_handler, add_credential, close_client,
  remove_credential, deprecate_credential, new_env_context, initial_credentials, add_if_defined,
}
use ld_relay.RelayEnv.Lookup.{Change, add, remove, deprecate, change, change_all}
use ld_relay.Streams.Counts.{
  count_streams, unregister_streams-count, names, register_all-keys, register_streams-all_providers,
  scoped_ite,
}

-- One stream at each provider for each credential of its kind.
abbrev pub Registered : FilterKey → Assoc SdkCredential Bool → List StreamInfo → Type 0
Registered f cs active =
    (p : StreamProvider) (c : SdkCredential)
    → count_streams p (new_scoped f c) active
      ≡ (if supports p c && is_some (lookup c cs) then 1 else 0)

add-Registered :
    (f : FilterKey) (c : SdkCredential) (cs : Assoc SdkCredential Bool)
    (ps : List (StreamProvider × Handlers)) (active : List StreamInfo)
    → lookup c cs ≡ none
    → names ps ≡ all_providers
    → Registered f cs active
    → Registered f (insert c true cs) (register_streams (new_scoped f c) ps active)
add-Registered f c cs ps active e n h p d = ground (
  arith,
  h p d,
  register_streams-all_providers p (new_scoped f c) (new_scoped f d) ps active n,
  scoped_ite f c d 1 0,
  lookup-insert c d true cs,
)

remove-Registered :
    (f : FilterKey) (c : SdkCredential) (cs : Assoc SdkCredential Bool) (active : List StreamInfo)
    → Registered f cs active
    → Registered f (delete c cs) (unregister_streams (new_scoped f c) active)
remove-Registered f c cs active h p d = ground (
  arith,
  h p d,
  unregister_streams-count p (new_scoped f c) (new_scoped f d) active,
  scoped_ite f c d 0 (count_streams p (new_scoped f d) active),
  lookup-delete c d cs,
)

mark-Registered :
    (f : FilterKey) (c : SdkCredential) (v w : Bool) (cs : Assoc SdkCredential Bool)
    (active : List StreamInfo)
    → lookup c cs ≡ some w
    → Registered f cs active
    → Registered f (insert c v cs) active
mark-Registered f c v w cs active e h p d = ground (arith, h p d, lookup-insert c d v cs)

names-add_handler :
    (c : ScopedCredential) (ps : List (StreamProvider × Handlers))
    → names (add_handler c ps) ≡ names ps
unfolding add_handler
names-add_handler c [] = refl
names-add_handler c (q ∷ ps) = ap (◌∷◌ q.0) (names-add_handler c ps)

names-remove_handler :
    (c : SdkCredential) (ps : List (StreamProvider × Handlers))
    → names (remove_handler c ps) ≡ names ps
unfolding remove_handler
names-remove_handler c [] = refl
names-remove_handler c (q ∷ ps) = ap (◌∷◌ q.0) (names-remove_handler c ps)

names-handle_all :
    (f : FilterKey) (ks : List SdkCredential) (ps : List (StreamProvider × Handlers))
    → names (handle_all f ks ps) ≡ names ps
unfolding handle_all
names-handle_all f [] ps = refl
names-handle_all f (k ∷ ks) ps =
    names-handle_all f ks (add_handler (new_scoped f k) ps) ∙ names-add_handler (new_scoped f k) ps

-- An environment with the four providers, on which its credentials are registered.
abbrev pub Streaming : FilterKey → EnvContext → Type 0
Streaming f env =
    (env.filter_key ≡ f)
    × (names env.handlers ≡ all_providers)
    × Registered f env.credentials env.active_streams

close_client-Streaming :
    (f : FilterKey) (c : SdkCredential) (env : EnvContext)
    → Streaming f env
    → Streaming f (close_client c env)
unfolding close_client
close_client-Streaming f (sdk_key k) env h = elim (Option-cases (lookup k env.clients)) [
  | inl e ↦ rw (close_client, e) h
  | inr (client, e) ↦ rw (close_client, e) h
]
close_client-Streaming f c env h = h

add_credential-Streaming :
    (f : FilterKey) (c : SdkCredential) (env : EnvContext)
    → Streaming f env
    → Streaming f (add_credential c env)
unfolding add_credential
add_credential-Streaming f c env (k, n, r) = elim (Option-cases (lookup c env.credentials)) [
  | inr (v, e) ↦ rw (add_credential, e) (k, n, r)
  | inl e ↦
      rw (add_credential, e, k)
        (
          refl,
          names-add_handler (new_scoped f c) env.handlers ∙ n,
          add-Registered f c env.credentials env.handlers env.active_streams e n r,
        )
]

remove_credential-Streaming :
    (f : FilterKey) (c : SdkCredential) (env : EnvContext)
    → Streaming f env
    → Streaming f (remove_credential c env)
unfolding remove_credential
remove_credential-Streaming f c env (k, n, r) = elim (Option-cases (lookup c env.credentials)) [
  | inl e ↦ rw (remove_credential, e) (k, n, r)
  | inr (v, e) ↦
      let removed : EnvContext = record env {
        credentials = delete c env.credentials;
        active_streams = unregister_streams (new_scoped env.filter_key c) env.active_streams;
        handlers = remove_handler c env.handlers;
      } in
      let streaming : Streaming f removed = rw k (
        refl,
        names-remove_handler c env.handlers ∙ n,
        remove-Registered f c env.credentials env.active_streams r,
      ) in
      rw (remove_credential, e) (close_client-Streaming f c removed streaming)
]

deprecate_credential-Streaming :
    (f : FilterKey) (c : SdkCredential) (env : EnvContext)
    → Streaming f env
    → Streaming f (deprecate_credential c env)
unfolding deprecate_credential
deprecate_credential-Streaming f c env (k, n, r) = elim (Option-cases (lookup c env.credentials)) [
  | inl e ↦ rw (deprecate_credential, e) (k, n, r)
  | inr (v, e) ↦
      rw (deprecate_credential, e)
        (k, n, mark-Registered f c false v env.credentials env.active_streams e r)
]

pub change_all-Streaming :
    (f : FilterKey) (xs : List Change) (env : EnvContext)
    → Streaming f env
    → Streaming f (change_all xs env)
unfolding change_all change
change_all-Streaming f [] env h = h
change_all-Streaming f (add c ∷ xs) env h =
    change_all-Streaming f xs (add_credential c env) (add_credential-Streaming f c env h)
change_all-Streaming f (remove c ∷ xs) env h =
    change_all-Streaming f xs (remove_credential c env) (remove_credential-Streaming f c env h)
change_all-Streaming f (deprecate c ∷ xs) env h =
    change_all-Streaming f xs (deprecate_credential c env)
      (deprecate_credential-Streaming f c env h)

add_if_defined-UniqueKeys :
    (k : String) (c : SdkCredential) (cs : Assoc SdkCredential Bool)
    → UniqueKeys cs
    → UniqueKeys (add_if_defined k c cs)
add_if_defined-UniqueKeys k c cs u = elim (Bool-cases (is_defined k)) [
  | inl e ↦ rw e (insert-UniqueKeys c true cs u)
  | inr e ↦ rw e u
]

initial_credentials-UniqueKeys :
    {L : Type 0} (config : EnvConfig L) → UniqueKeys (initial_credentials config)
unfolding lookup
initial_credentials-UniqueKeys config =
    let keys = (sdk_key config.sdk_key, true) ∷ [] in
    let with_mobile = add_if_defined config.mobile_key (mobile_key config.mobile_key) keys in
    add_if_defined-UniqueKeys config.env_id (environment_id config.env_id) with_mobile
      (add_if_defined-UniqueKeys config.mobile_key (mobile_key config.mobile_key) keys (refl, tt))

pub new_env_context-Streaming :
    {L : Type 0} (identifiers : EnvIdentifiers) (config : EnvConfig L)
    → Streaming config.filter_key (new_env_context identifiers config)
unfolding new_env_context
new_env_context-Streaming identifiers config =
    let cs = initial_credentials config in
    (
      refl,
      names-handle_all config.filter_key (keys cs) (no_handlers all_providers),
      λ p c.
          register_all-keys config.filter_key p c cs (no_handlers all_providers) refl
            (initial_credentials-UniqueKeys config),
    )

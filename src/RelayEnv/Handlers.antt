-- ===== src/RelayEnv/Handlers.antt =====
-- Which stream handlers an environment has.
use ld_relay.Base.{
  ◌≡◌, refl, inl, inr, none, some, Bool, true, false, ◌&&◌, ◌||◌, List, [], ◌∷◌, All, if◌then◌else◌,
  Option-cases, arith,
}
use ld_relay.Base.Assoc.{Assoc, lookup, insert, delete, keys, is_some, lookup-insert, lookup-delete}
use ld_relay.Credential.{SdkCredential, sdk_key, new_scoped, FilterKey, credential_key, string_key}
use ld_relay.EnvFactory.{EnvIdentifiers, EnvConfig}
use ld_relay.RelayEnv.{
  StreamProvider, supports, Handlers, EnvContext, add_handler, remove_handler, add_credential,
  close_client, remove_credential, deprecate_credential, all_providers, no_handlers,
  initial_credentials, handle_all, new_env_context,
}

-- A provider serves the credentials that it supports and that the environment has, each on the channel
-- of the credential and the environment's filter.
abbrev pub Serves : FilterKey → Assoc SdkCredential Bool → StreamProvider × Handlers → Type 0
Serves f cs (p, hs) =
    (c : SdkCredential)
    → lookup c hs ≡ (if supports p c && is_some (lookup c cs) then some (new_scoped f c) else none)

abbrev pub AllServe : EnvContext → Type 0
AllServe env = All (Serves env.filter_key env.credentials) env.handlers

add_handler-Serves :
    (f : FilterKey) (c : SdkCredential) (v : Bool) (cs : Assoc SdkCredential Bool)
    (ps : List (StreamProvider × Handlers))
    → All (Serves f cs) ps
    → All (Serves f (insert c v cs)) (add_handler (new_scoped f c) ps)
unfolding add_handler
add_handler-Serves f c v cs [] h = tt
add_handler-Serves f c v cs ((p, hs) ∷ ps) h = (
  λ d. ground (arith, h.0 d, lookup-insert c d v cs, lookup-insert c d (new_scoped f c) hs),
  add_handler-Serves f c v cs ps h.1,
)

remove_handler-Serves :
    (f : FilterKey) (c : SdkCredential) (cs : Assoc SdkCredential Bool)
    (ps : List (StreamProvider × Handlers))
    → All (Serves f cs) ps
    → All (Serves f (delete c cs)) (remove_handler c ps)
unfolding remove_handler
remove_handler-Serves f c cs [] h = tt
remove_handler-Serves f c cs ((p, hs) ∷ ps) h = (
  λ d. ground (arith, h.0 d, lookup-delete c d cs, lookup-delete c d hs),
  remove_handler-Serves f c cs ps h.1,
)

-- A credential that is there already is there whatever its mark.
mark-Serves :
    (f : FilterKey) (c : SdkCredential) (v w : Bool) (cs : Assoc SdkCredential Bool)
    (ps : List (StreamProvider × Handlers))
    → lookup c cs ≡ some w
    → All (Serves f cs) ps
    → All (Serves f (insert c v cs)) ps
mark-Serves f c v w cs [] e h = tt
mark-Serves f c v w cs ((p, hs) ∷ ps) e h =
    (λ d. ground (arith, h.0 d, lookup-insert c d v cs), mark-Serves f c v w cs ps e h.1)

close_client-AllServe :
    (c : SdkCredential) (env : EnvContext) → AllServe env → AllServe (close_client c env)
unfolding close_client
close_client-AllServe (sdk_key k) env h = elim (Option-cases (lookup k env.clients)) [
  | inl e ↦ rw (e, close_client) h
  | inr (x, e) ↦ rw (e, close_client) h
]
close_client-AllServe c env h = h

pub add_credential-AllServe :
    (c : SdkCredential) (env : EnvContext) → AllServe env → AllServe (add_credential c env)
unfolding add_credential
add_credential-AllServe c env h = elim (Option-cases (lookup c env.credentials)) [
  | inl e ↦
      rw (e, add_credential)
        (add_handler-Serves env.filter_key c true env.credentials env.handlers h)
  | inr (x, e) ↦ rw (e, add_credential) h
]

pub remove_credential-AllServe :
    (c : SdkCredential) (env : EnvContext) → AllServe env → AllServe (remove_credential c env)
unfolding remove_credential
remove_credential-AllServe c env h = elim (Option-cases (lookup c env.credentials)) [
  | inl e ↦ rw (e, remove_credential) h
  | inr (x, e) ↦
      rw (e, remove_credential)
        (close_client-AllServe c _
          (remove_handler-Serves env.filter_key c env.credentials env.handlers h))
]

pub deprecate_credential-AllServe :
    (c : SdkCredential) (env : EnvContext) → AllServe env → AllServe (deprecate_credential c env)
unfolding deprecate_credential
deprecate_credential-AllServe c env h = elim (Option-cases (lookup c env.credentials)) [
  | inl e ↦ rw (e, deprecate_credential) h
  | inr (x, e) ↦
      rw (e, deprecate_credential)
        (mark-Serves env.filter_key c false x env.credentials env.handlers e h)
]

-- The credentials that the constructor has registered so far.
mark_all : List SdkCredential → Assoc SdkCredential Bool → Assoc SdkCredential Bool
mark_all [] cs = cs
mark_all (c ∷ ks) cs = mark_all ks (insert c true cs)

handle_all-Serves :
    (f : FilterKey) (ks : List SdkCredential) (cs : Assoc SdkCredential Bool)
    (ps : List (StreamProvider × Handlers))
    → All (Serves f cs) ps
    → All (Serves f (mark_all ks cs)) (handle_all f ks ps)
unfolding handle_all mark_all
handle_all-Serves f [] cs ps h = h
handle_all-Serves f (c ∷ ks) cs ps h =
    handle_all-Serves f ks (insert c true cs) (add_handler (new_scoped f c) ps)
      (add_handler-Serves f c true cs ps h)

mark_all-has :
    (d : SdkCredential) (m cs : Assoc SdkCredential Bool)
    → is_some (lookup d (mark_all (keys m) cs)) ≡ (is_some (lookup d m) || is_some (lookup d cs))
unfolding mark_all lookup
mark_all-has d [] cs = refl
mark_all-has d ((c, v) ∷ m) cs =
    ground (arith, mark_all-has d m (insert c true cs), lookup-insert c d true cs)

Serves-same :
    (f : FilterKey) (cs ds : Assoc SdkCredential Bool) (ps : List (StreamProvider × Handlers))
    → ((c : SdkCredential) → is_some (lookup c cs) ≡ is_some (lookup c ds))
    → All (Serves f cs) ps
    → All (Serves f ds) ps
Serves-same f cs ds [] same h = tt
Serves-same f cs ds ((p, hs) ∷ ps) same h =
    (λ c. rw (← same c) (h.0 c), Serves-same f cs ds ps same h.1)

pub new_env_context-AllServe :
    {L : Type 0} (identifiers : EnvIdentifiers) (config : EnvConfig L)
    → AllServe (new_env_context identifiers config)
unfolding new_env_context lookup
new_env_context-AllServe identifiers config =
    let cs = initial_credentials config in
    Serves-same config.filter_key (mark_all (keys cs) []) cs _
      (λ c. ground (arith, mark_all-has c cs []))
      (handle_all-Serves config.filter_key (keys cs) [] (no_handlers all_providers) nothing)
  where
    nothing : All (Serves config.filter_key []) (no_handlers all_providers)
    nothing =
        unfold lookup in
        (λ c. ground arith, (λ c. ground arith, (λ c. ground arith, (λ c. ground arith, tt))))

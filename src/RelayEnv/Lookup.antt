-- ===== src/RelayEnv/Lookup.antt =====
-- What a request for a stream finds, after any changes of an environment's credentials.
use ld_relay.Base.{
  ◌≡◌, refl, ◌∙◌, inl, inr, none, some, Bool, true, false, ◌&&◌, List, [], ◌∷◌, map, All,
  if◌then◌else◌, Option-cases, arith,
}
use ld_relay.Base.Assoc.{Assoc, lookup, insert, delete, keys, is_some}
use ld_relay.Credential.{SdkCredential, sdk_key, new_scoped, FilterKey, credential_key, string_key}
use ld_relay.EnvFactory.{EnvIdentifiers, EnvConfig}
use ld_relay.RelayEnv.{
  StreamProvider, server_side, server_side_flags, mobile_ping, js_client_ping, supports, Handlers,
  EnvContext, add_handler, remove_handler, add_credential, close_client, remove_credential,
  deprecate_credential, find_handler, all_providers, no_handlers, handle_all, new_env_context,
  initial_credentials,
}
use ld_relay.RelayEnv.Handlers.{
  Serves, AllServe, add_credential-AllServe, remove_credential-AllServe,
  deprecate_credential-AllServe, new_env_context-AllServe,
}

pub data Change : Type 0 where
  add remove deprecate : SdkCredential → Change

unfoldable pub change : Change → EnvContext → EnvContext
change (add c) env = add_credential c env
change (remove c) env = remove_credential c env
change (deprecate c) env = deprecate_credential c env

unfoldable pub change_all : List Change → EnvContext → EnvContext
change_all [] env = env
change_all (x ∷ xs) env = change_all xs (change x env)

change-AllServe : (x : Change) (env : EnvContext) → AllServe env → AllServe (change x env)
unfolding change
change-AllServe (add c) env h = add_credential-AllServe c env h
change-AllServe (remove c) env h = remove_credential-AllServe c env h
change-AllServe (deprecate c) env h = deprecate_credential-AllServe c env h

provided : StreamProvider → List (StreamProvider × Handlers) → Bool
provided p [] = false
provided server_side ((server_side, hs) ∷ ps) = true
provided server_side_flags ((server_side_flags, hs) ∷ ps) = true
provided mobile_ping ((mobile_ping, hs) ∷ ps) = true
provided js_client_ping ((js_client_ping, hs) ∷ ps) = true
provided p (_ ∷ ps) = provided p ps

find_handler-Serves :
    (f : FilterKey) (cs : Assoc SdkCredential Bool) (p : StreamProvider) (c : SdkCredential)
    (ps : List (StreamProvider × Handlers))
    → All (Serves f cs) ps
    → provided p ps ≡ true
    → find_handler p c ps
      ≡ (if supports p c && is_some (lookup c cs) then some (new_scoped f c) else none)
unfolding find_handler provided
find_handler-Serves f cs p c [] h e = cc
find_handler-Serves f cs server_side c ((server_side, hs) ∷ ps) h e = h.0 c
find_handler-Serves f cs server_side_flags c ((server_side_flags, hs) ∷ ps) h e = h.0 c
find_handler-Serves f cs mobile_ping c ((mobile_ping, hs) ∷ ps) h e = h.0 c
find_handler-Serves f cs js_client_ping c ((js_client_ping, hs) ∷ ps) h e = h.0 c
find_handler-Serves f cs p c (_ ∷ ps) h e = find_handler-Serves f cs p c ps h.1 e

-- The handlers are changed provider by provider.
same_providers :
    (g : StreamProvider × Handlers → Handlers) (p : StreamProvider)
    (ps : List (StreamProvider × Handlers))
    → provided p (map (λ q. (q.0, g q)) ps) ≡ provided p ps
unfolding provided
same_providers g p [] = refl
same_providers g server_side ((server_side, hs) ∷ ps) = refl
same_providers g server_side_flags ((server_side_flags, hs) ∷ ps) = refl
same_providers g mobile_ping ((mobile_ping, hs) ∷ ps) = refl
same_providers g js_client_ping ((js_client_ping, hs) ∷ ps) = refl
same_providers g p (_ ∷ ps) = same_providers g p ps

add_handler-map :
    (f : FilterKey) (c : SdkCredential) (ps : List (StreamProvider × Handlers))
    → add_handler (new_scoped f c) ps
      ≡ map (λ q. (q.0, if supports q.0 c then insert c (new_scoped f c) q.1 else q.1)) ps
unfolding add_handler
add_handler-map f c [] = refl
add_handler-map f c (q ∷ ps) = rw (add_handler-map f c ps)

remove_handler-map :
    (c : SdkCredential) (ps : List (StreamProvider × Handlers))
    → remove_handler c ps ≡ map (λ q. (q.0, delete c q.1)) ps
unfolding remove_handler
remove_handler-map c [] = refl
remove_handler-map c (q ∷ ps) = rw (remove_handler-map c ps)

provided-add_handler :
    (f : FilterKey) (c : SdkCredential) (p : StreamProvider) (ps : List (StreamProvider × Handlers))
    → provided p (add_handler (new_scoped f c) ps) ≡ provided p ps
provided-add_handler f c p ps = rw (add_handler-map f c ps) (same_providers _ p ps)

provided-remove_handler :
    (c : SdkCredential) (p : StreamProvider) (ps : List (StreamProvider × Handlers))
    → provided p (remove_handler c ps) ≡ provided p ps
provided-remove_handler c p ps = rw (remove_handler-map c ps) (same_providers _ p ps)

provided-handle_all :
    (f : FilterKey) (ks : List SdkCredential) (p : StreamProvider)
    (ps : List (StreamProvider × Handlers))
    → provided p (handle_all f ks ps) ≡ provided p ps
unfolding handle_all
provided-handle_all f [] p ps = refl
provided-handle_all f (c ∷ ks) p ps =
    provided-handle_all f ks p (add_handler (new_scoped f c) ps) ∙ provided-add_handler f c p ps

close_client-handlers :
    (c : SdkCredential) (env : EnvContext) → (close_client c env).handlers ≡ env.handlers
unfolding close_client
close_client-handlers (sdk_key k) env = ground arith
close_client-handlers c env = refl

close_client-filter_key :
    (c : SdkCredential) (env : EnvContext) → (close_client c env).filter_key ≡ env.filter_key
unfolding close_client
close_client-filter_key (sdk_key k) env = ground arith
close_client-filter_key c env = refl

change-provided :
    (p : StreamProvider) (x : Change) (env : EnvContext)
    → provided p (change x env).handlers ≡ provided p env.handlers
unfolding change add_credential remove_credential deprecate_credential
change-provided p (add c) env = ground (arith, provided-add_handler env.filter_key c p env.handlers)
change-provided p (remove c) env = elim (Option-cases (lookup c env.credentials)) [
  | inl e ↦ rw (e, remove_credential)
  | inr (x, e) ↦
      rw (e, remove_credential, close_client-handlers c _)
        (provided-remove_handler c p env.handlers)
]
change-provided p (deprecate c) env = ground arith

change-filter_key : (x : Change) (env : EnvContext) → (change x env).filter_key ≡ env.filter_key
unfolding change add_credential remove_credential deprecate_credential
change-filter_key (add c) env = ground arith
change-filter_key (remove c) env = elim (Option-cases (lookup c env.credentials)) [
  | inl e ↦ rw (e, remove_credential)
  | inr (x, e) ↦ rw (e, remove_credential, close_client-filter_key c _)
]
change-filter_key (deprecate c) env = ground arith

change_all-finds :
    (f : FilterKey) (p : StreamProvider) (c : SdkCredential) (xs : List Change) (env : EnvContext)
    → env.filter_key ≡ f
    → AllServe env
    → provided p env.handlers ≡ true
    → find_handler p c (change_all xs env).handlers ≡ (
        if supports p c && is_some (lookup c (change_all xs env).credentials)
        then some (new_scoped f c)
        else none)
unfolding change_all
change_all-finds f p c [] env k h e =
    find_handler-Serves env.filter_key env.credentials p c env.handlers h e ∙ ground arith
change_all-finds f p c (x ∷ xs) env k h e =
    change_all-finds f p c xs (change x env) (change-filter_key x env ∙ k) (change-AllServe x env h)
      (change-provided p x env ∙ e)

providers_at_first :
    {L : Type 0} (identifiers : EnvIdentifiers) (config : EnvConfig L) (p : StreamProvider)
    → provided p (new_env_context identifiers config).handlers ≡ true
unfolding new_env_context
providers_at_first identifiers config p =
    provided-handle_all config.filter_key (keys (initial_credentials config)) p
      (no_handlers all_providers)
    ∙ there p
  where
    there : (q : StreamProvider) → provided q (no_handlers all_providers) ≡ true
    there server_side = unfold provided in refl
    there server_side_flags = unfold provided in refl
    there mobile_ping = unfold provided in refl
    there js_client_ping = unfold provided in refl

-- After any additions, removals and deprecations of credentials of a new environment, a request for a
-- stream finds a handler exactly if its credential is one of the environment's and of the provider's
-- kind, and then the one on the channel of the credential and the environment's filter.
pub stream_handler_found :
    {L : Type 0} (identifiers : EnvIdentifiers) (config : EnvConfig L) (xs : List Change)
    (p : StreamProvider) (c : SdkCredential)
    → let env = change_all xs (new_env_context identifiers config) in
      find_handler p c env.handlers ≡ (
        if supports p c && is_some (lookup c env.credentials)
        then some (new_scoped config.filter_key c)
        else none)
unfolding new_env_context
stream_handler_found identifiers config xs p c =
    change_all-finds config.filter_key p c xs (new_env_context identifiers config) refl
      (new_env_context-AllServe identifiers config) (providers_at_first identifiers config p)

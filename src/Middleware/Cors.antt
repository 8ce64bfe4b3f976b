-- ===== src/Middleware/Cors.antt =====
-- The answers to browsers.
use ld_relay.Base.{
  ℕ, String, ◌≡◌, refl, ◌∙◌, some, Bool, true, false, List, [], ◌∷◌, ite, if_pos, if◌then◌else◌,
  arith, string_discrete,
}
use ld_relay.Base.Assoc.{lookup, lookup-insert_ne, lookup-insert_self}
use ld_relay.Relay.Environments.{EnvRef}
use ld_relay.Relay.Core.{found}
use ld_relay.Credential.{SdkCredential, new_scoped, string_key}
use ld_relay.Middleware.Selection.{select_environment-serve}
use ld_relay.Middleware.{
  headers_of, Strings, RelayEnvironments, js_client_sdk, get_credential, attach, chain,
  select_environment_by_authorization_key, Request, Response, Handler, Middleware, origins_of,
  matching_domain, response_origin, set_cors_headers, cors,
}

-- Is the origin among the domains?
unfoldable pub listed : String → List String → Bool
listed origin [] = false
listed origin (d ∷ ds) = ite (string_discrete origin d) true (listed origin ds)

matching_domain-listed :
    (origin : String) (ds : List String) (d : String)
    → matching_domain origin ds d ≡ (if listed origin ds then origin else d)
unfolding matching_domain listed
matching_domain-listed origin [] d = refl
matching_domain-listed origin (x ∷ ds) d = elim (string_discrete origin x) [
  | yes p ↦ ground (arith, p)
  | no n ↦ ground (arith, n, matching_domain-listed origin ds d)
]

-- The header that says which origin may read the answer.
set_cors_headers-origin :
    (origin : String) (extra : List String) (w : Response)
    → lookup "Access-Control-Allow-Origin" (set_cors_headers origin extra w).header
      ≡ some (origin ∷ [])
unfolding set_cors_headers
set_cors_headers-origin origin extra w =
    lookup-insert_ne _ _ _ _ (λ p. cc)
    ∙ (lookup-insert_ne _ _ _ _ (λ p. cc)
        ∙ (lookup-insert_ne _ _ _ _ (λ p. cc)
            ∙ (lookup-insert_ne _ _ _ _ (λ p. cc) ∙ lookup-insert_self _ _ _)))

cors-preflight :
    (next : Handler) (req : Request) (w : Response) (d : String) (ds : List String)
    → origins_of req.cors_context ≡ d ∷ ds
    → req.method ≡ "OPTIONS"
    → let w' = cors next req w in
      (lookup "Access-Control-Allow-Origin" w'.header
        ≡ some ((if listed req.origin (d ∷ ds) then req.origin else d) ∷ []))
      × (w'.status ≡ w.status)
      × (w'.body ≡ w.body)
unfolding cors response_origin set_cors_headers
cors-preflight next req w d ds o m =
    let allowed = matching_domain-listed req.origin (d ∷ ds) d in
    let headers = headers_of req.cors_context in
    let answered : cors next req w
        ≡ set_cors_headers (matching_domain req.origin (d ∷ ds) d) headers w =
      rw (cors, o) (if_pos (string_discrete req.method "OPTIONS") m _ _) in
    rw (answered, ← allowed)
      (set_cors_headers-origin (matching_domain req.origin (d ∷ ds) d) headers w, refl, refl)

module _ (strings : Strings) (envs : RelayEnvironments) (ms : List Middleware)
    (next : Handler) where
  -- A preflight request of a browser is answered by the middleware alone: the origin that it allows is the
  -- request's if the environment lists it, else the first that the environment lists.
  pub preflight-origin :
      (req : Request) (w : Response) (c : SdkCredential) (env : EnvRef) (client : ℕ) (d : String)
      (ds : List String)
      → get_credential strings js_client_sdk req ≡ some c
      → envs.get_environment (new_scoped req.filter c) ≡ found env
      → envs.initialization_failed env ≡ false
      → envs.client env ≡ some client
      → (envs.js_client_context env).origins ≡ d ∷ ds
      → req.method ≡ "OPTIONS"
      → let w' =
          chain
            (select_environment_by_authorization_key strings js_client_sdk envs ∷ cors ∷ ms)
            next
            req
            w in
        (lookup "Access-Control-Allow-Origin" w'.header
          ≡ some ((if listed req.origin (d ∷ ds) then req.origin else d) ∷ []))
        × (w'.status ≡ w.status)
        × (w'.body ≡ w.body)
  unfolding chain attach
  preflight-origin req w c env client d ds e f g h o m =
      let req' = attach js_client_sdk envs env c req in
      let served =
        select_environment-serve strings js_client_sdk envs (cors (chain ms next)) req w c env
          client e f g h in
      rw (chain, served) (cors-preflight (chain ms next) req' w d ds o m)

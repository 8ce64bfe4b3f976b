-- ===== src/Relay/Environments/Laws.antt =====
-- What the table of environments finds.
use ld_relay.Base.{
  ◌≡◌, refl, ◌∙◌, inl, inr, Option, none, some, Bool, false, ◌||◌, List, [], ◌∷◌, ite, ℕ_discrete,
  if◌then◌else◌, Bool-cases, arith,
}
use ld_relay.Base.Assoc.{Assoc, lookup, insert, UniqueKeys, lookup-insert}
use ld_relay.Credential.{
  SdkCredential, ScopedCredential, ScopedCredential-discrete, new_scoped, FilterKey, defined,
  scoped_key,
}
use ld_relay.Relay.Environments.{
  EnvRef, ref_key, EnvironmentLookup, map_all, find, unmap_environment,
}

-- Is the scoped credential one of the credentials with the filter, and defined?
abbrev pub covers : FilterKey → List SdkCredential → ScopedCredential → Bool
covers f [] k = false
covers f (c ∷ cs) k =
    ite (ScopedCredential-discrete k (new_scoped f c)) (defined c || covers f cs k) (covers f cs k)

pub lookup-map_all :
    (f : FilterKey) (cs : List SdkCredential) (env : EnvRef) (m : Assoc ScopedCredential EnvRef)
    (k : ScopedCredential)
    → lookup k (map_all f cs env m) ≡ (if covers f cs k then some env else lookup k m)
unfolding map_all
lookup-map_all f [] env m k = refl
lookup-map_all f (c ∷ cs) env m k = elim (Bool-cases (defined c)) [
  | inl e ↦
      rw (e, map_all)
        (lookup-map_all f cs env (insert (new_scoped f c) env m) k
          ∙ ground (arith, lookup-insert (new_scoped f c) k env m))
  | inr e ↦ rw (e, map_all) (lookup-map_all f cs env m k ∙ ground arith)
]

-- Every environment in the table is one of the connections.
abbrev pub Connected : EnvironmentLookup → Type 0
Connected e =
    (k : ScopedCredential) (env : EnvRef) → find k e ≡ some env → lookup env e.conns ≡ some tt

pub lookup-unmap_none :
    (env : EnvRef) (m : Assoc ScopedCredential EnvRef) (k : ScopedCredential)
    → lookup k m ≡ none
    → lookup k (unmap_environment env m) ≡ none
unfolding lookup unmap_environment
lookup-unmap_none env [] k e = refl
lookup-unmap_none env ((j, v) ∷ m) k e = ground (arith, lookup-unmap_none env m k)

-- What is left of a find when an environment is gone.
abbrev pub unless : EnvRef → Option EnvRef → Option EnvRef
unless env none = none
unless env (some v) = ite (ℕ_discrete v env) none (some v)

pub lookup-unmap :
    (env : EnvRef) (m : Assoc ScopedCredential EnvRef) (k : ScopedCredential)
    → UniqueKeys m
    → lookup k (unmap_environment env m) ≡ unless env (lookup k m)
unfolding lookup unmap_environment
lookup-unmap env [] k u = refl
lookup-unmap env ((j, v) ∷ m) k u =
    ground (arith, lookup-unmap env m k u.1, lookup-unmap_none env m k)

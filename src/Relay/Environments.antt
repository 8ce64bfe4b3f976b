-- ===== src/Relay/Environments.antt =====
-- relay/environment_lookup.go. An environment is known by its reference, a number: Go compares the
-- pointers. The mutex makes each method one step.
pub mod Laws
pub mod Invariant
use ld_relay.Base.{
  ℕ, Option, none, some, Bool, true, false, List, [], ◌∷◌, ite, ℕ_discrete, if◌then◌else◌,
}
use ld_relay.Base.Assoc.{Assoc, Key, lookup, insert, delete, keys}
use ld_relay.Credential.{
  SdkCredential, ScopedCredential, new_scoped, FilterKey, defined, scoped_key,
}

abbrev pub EnvRef : Type 0
EnvRef = ℕ

instance abbrev pub ref_key : Key EnvRef
ref_key = record { dec = ℕ_discrete }

pub record EnvironmentLookup : Type 0 where
  pub mapping : Assoc ScopedCredential EnvRef
  pub conns : Assoc EnvRef (Unit {0})

abbrev pub new_environment_lookup : EnvironmentLookup
new_environment_lookup = record { mapping = []; conns = [] }

-- The loop of `InsertEnvironment`.
unfoldable pub map_all :
    FilterKey
    → List SdkCredential
    → EnvRef
    → Assoc ScopedCredential EnvRef
    → Assoc ScopedCredential EnvRef
unfolding defined
map_all f [] env m = m
map_all f (c ∷ cs) env m = map_all f cs env (if defined c then insert (new_scoped f c) env m else m)

-- `InsertEnvironment`: the environment's filter and credentials are given.
unfoldable pub insert_environment :
    FilterKey → List SdkCredential → EnvRef → EnvironmentLookup → EnvironmentLookup
unfolding map_all
insert_environment f cs env e = record {
  mapping = map_all f cs env e.mapping;
  conns = insert env tt e.conns;
}

unfoldable pub map_request_params :
    ScopedCredential → EnvRef → EnvironmentLookup → EnvironmentLookup
map_request_params params env e = record {
  mapping = insert params env e.mapping;
  conns = insert env tt e.conns;
}

unfoldable pub unmap_request_params : ScopedCredential → EnvironmentLookup → EnvironmentLookup
unmap_request_params params e = record e { mapping = delete params e.mapping }

-- `Lookup`
abbrev pub find : ScopedCredential → EnvironmentLookup → Option EnvRef
find params e = lookup params e.mapping

-- The loop of `deleteEnvironment`.
unfoldable pub unmap_environment :
    EnvRef → Assoc ScopedCredential EnvRef → Assoc ScopedCredential EnvRef
unmap_environment env [] = []
unmap_environment env ((k, v) ∷ m) =
    ite (ℕ_discrete v env) (unmap_environment env m) ((k, v) ∷ unmap_environment env m)

unfoldable pub delete_environment :
    ScopedCredential → EnvironmentLookup → EnvironmentLookup × Option EnvRef
unfolding unmap_environment
delete_environment params e = elim (find params e) [
  | none ↦ (e, none)
  | some env ↦
      (record { mapping = unmap_environment env e.mapping; conns = delete env e.conns }, some env)
]

abbrev pub environments : EnvironmentLookup → List EnvRef
environments e = keys e.conns

-- ===== src/Relay/Environments/Invariant.antt =====
-- Every method keeps the table and the set of connections in step.
use ld_relay.Base.{
  ◌≡◌, refl, inl, inr, none, some, List, [], ◌∷◌, if◌then◌else◌, Option-cases, Bool-cases, arith,
}
use ld_relay.Base.Assoc.{
  Assoc, lookup, insert, UniqueKeys, lookup-insert, lookup-delete, insert-UniqueKeys,
  delete-UniqueKeys,
}
use ld_relay.Credential.{
  SdkCredential, ScopedCredential, new_scoped, FilterKey, defined, scoped_key,
}
use ld_relay.Relay.Environments.{
  EnvRef, ref_key, EnvironmentLookup, map_all, insert_environment, map_request_params,
  unmap_request_params, find, unmap_environment, delete_environment, new_environment_lookup,
}
use ld_relay.Relay.Environments.Laws.{
  covers, lookup-map_all, Connected, lookup-unmap_none, lookup-unmap, unless,
}

pub record Inv (e : EnvironmentLookup) : Type 0 where
  pub unique : UniqueKeys e.mapping
  pub connected : Connected e

-- The calls from the rest of the relay.
pub data Call : Type 0 where
  inserts : FilterKey → List SdkCredential → EnvRef → Call
  maps : ScopedCredential → EnvRef → Call
  unmaps : ScopedCredential → Call
  deletes : ScopedCredential → Call

unfoldable pub perform : Call → EnvironmentLookup → EnvironmentLookup
perform (inserts f cs env) e = insert_environment f cs env e
perform (maps k env) e = map_request_params k env e
perform (unmaps k) e = unmap_request_params k e
perform (deletes k) e = (delete_environment k e).0

map_all-UniqueKeys :
    (f : FilterKey) (cs : List SdkCredential) (env : EnvRef) (m : Assoc ScopedCredential EnvRef)
    → UniqueKeys m
    → UniqueKeys (map_all f cs env m)
unfolding map_all
map_all-UniqueKeys f [] env m u = u
map_all-UniqueKeys f (c ∷ cs) env m u = elim (Bool-cases (defined c)) [
  | inl e ↦
      rw (e, map_all)
        (map_all-UniqueKeys f cs env (insert (new_scoped f c) env m)
          (insert-UniqueKeys (new_scoped f c) env m u))
  | inr e ↦ rw (e, map_all) (map_all-UniqueKeys f cs env m u)
]

unmap-UniqueKeys :
    (env : EnvRef) (m : Assoc ScopedCredential EnvRef)
    → UniqueKeys m
    → UniqueKeys (unmap_environment env m)
unfolding unmap_environment
unmap-UniqueKeys env [] u = tt
unmap-UniqueKeys env ((k, v) ∷ m) u =
    ground (arith, unmap-UniqueKeys env m u.1, lookup-unmap_none env m k)

inserts-Connected :
    (f : FilterKey) (cs : List SdkCredential) (env : EnvRef) (e : EnvironmentLookup)
    → Connected e
    → Connected (insert_environment f cs env e)
unfolding insert_environment
inserts-Connected f cs env e h k v q =
    ground (arith, lookup-map_all f cs env e.mapping k, lookup-insert env v tt e.conns, h k v)

maps-Connected :
    (params : ScopedCredential) (env : EnvRef) (e : EnvironmentLookup)
    → Connected e
    → Connected (map_request_params params env e)
unfolding map_request_params
maps-Connected params env e h k v q =
    ground (arith, lookup-insert params k env e.mapping, lookup-insert env v tt e.conns, h k v)

unmaps-Connected :
    (params : ScopedCredential) (e : EnvironmentLookup)
    → Connected e
    → Connected (unmap_request_params params e)
unfolding unmap_request_params
unmaps-Connected params e h k v q = ground (arith, lookup-delete params k e.mapping, h k v)

-- What a successful `DeleteEnvironment` leaves: no key finds the environment, every other find is as it
-- was, and the environment is no connection any more.
pub delete_environment-find :
    (params k : ScopedCredential) (env : EnvRef) (e : EnvironmentLookup)
    → Inv e
    → find params e ≡ some env
    → let (e', removed) = delete_environment params e in
      (removed ≡ some env) × (find k e' ≡ unless env (find k e)) × (lookup env e'.conns ≡ none)
unfolding delete_environment
delete_environment-find params k env e v h =
    rw (h, delete_environment)
      (refl, lookup-unmap env e.mapping k v.unique, ground (arith, lookup-delete env env e.conns))

deletes-Inv :
    (params : ScopedCredential) (e : EnvironmentLookup)
    → Inv e
    → Inv (delete_environment params e).0
unfolding delete_environment
deletes-Inv params e v = elim (Option-cases (lookup params e.mapping)) [
  | inl h ↦ rw (h, delete_environment) v
  | inr (env, h) ↦
      rw (h, delete_environment)
        (record {
          unique = unmap-UniqueKeys env e.mapping v.unique;
          connected = λ k w q. ground (
            arith,
            lookup-unmap env e.mapping k v.unique,
            lookup-delete env w e.conns,
            v.connected k w,
          );
        })
]

-- Every method keeps the invariant: no key stands twice, and every environment that a key finds is one
-- of the connections.
pub perform-Inv : (c : Call) (e : EnvironmentLookup) → Inv e → Inv (perform c e)
unfolding perform
perform-Inv (inserts f cs env) e v = record {
  unique = unfold insert_environment in map_all-UniqueKeys f cs env e.mapping v.unique;
  connected = inserts-Connected f cs env e v.connected;
}
perform-Inv (maps k env) e v = record {
  unique = unfold map_request_params in insert-UniqueKeys k env e.mapping v.unique;
  connected = maps-Connected k env e v.connected;
}
perform-Inv (unmaps k) e v = record {
  unique = unfold unmap_request_params in delete-UniqueKeys k e.mapping v.unique;
  connected = unmaps-Connected k e v.connected;
}
perform-Inv (deletes k) e v = deletes-Inv k e v

-- After an insertion, the defined credentials with the environment's filter find the environment, and
-- every other key what it found before.
pub insert_environment-find :
    (f : FilterKey) (cs : List SdkCredential) (env : EnvRef) (e : EnvironmentLookup)
    (k : ScopedCredential)
    → find k (insert_environment f cs env e) ≡ (if covers f cs k then some env else find k e)
unfolding insert_environment
insert_environment-find f cs env e k = lookup-map_all f cs env e.mapping k

pub new_environment_lookup-Inv : Inv new_environment_lookup
unfolding lookup
new_environment_lookup-Inv = record { unique = tt; connected = λ k env e. cc }

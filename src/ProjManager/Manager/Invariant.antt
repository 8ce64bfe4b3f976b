-- ===== src/ProjManager/Manager/Invariant.antt =====
-- Every command keeps the manager's invariant.
use ld_relay.Base.{◌≡◌, refl, inl, inr, Option-cases, arith}
use ld_relay.Base.Assoc.{
  lookup, insert, delete, lookup-insert, lookup-delete, insert-UniqueKeys, delete-UniqueKeys,
}
use ld_relay.Credential.{string_key, EnvironmentId, FilterId}
use ld_relay.EnvFactory.{EnvironmentParams, FilterParams}
use ld_relay.ProjManager.Manager.{
  Manager, update_environment, add_environment, delete_environment, add_filter, delete_filter,
}
use ld_relay.ProjManager.Manager.Mirror.{
  Mirrors, Inv, Command, update, add, remove, filter, unfilter, execute, insert-keyed, delete-All,
  insert-All, map-Mirrors, map-UniqueKeys, has-units, units-UniqueKeys,
}

add-Inv : (env : EnvironmentParams) (m : Manager) → Inv m → Inv (add_environment env m).0
unfolding add_environment
add-Inv env m v = elim (Option-cases (lookup env.env_id m.defaults)) [
  | inr (p, e) ↦ rw (e, add_environment) v
  | inl e ↦
      rw (e, add_environment)
        (record {
          unique_defaults = insert-UniqueKeys env.env_id env m.defaults v.unique_defaults;
          keyed_by_id = insert-keyed env.env_id env m.defaults refl v.keyed_by_id;
          unique_filters = map-UniqueKeys _ m.filtered v.unique_filters;
          mirrored =
              map-Mirrors m.defaults (insert env.env_id env m.defaults) (insert env.env_id tt)
                m.filtered (λ us u. insert-UniqueKeys env.env_id tt us u)
                (λ us h i. ground (
                  arith,
                  h i,
                  lookup-insert env.env_id i tt us,
                  lookup-insert env.env_id i env m.defaults,
                ))
                v.mirrored;
        })
]

remove-Inv : (id : EnvironmentId) (m : Manager) → Inv m → Inv (delete_environment id m).0
unfolding delete_environment
remove-Inv id m v = elim (Option-cases (lookup id m.defaults)) [
  | inl e ↦ rw (e, delete_environment) v
  | inr (p, e) ↦
      rw (e, delete_environment)
        (record {
          unique_defaults = delete-UniqueKeys id m.defaults v.unique_defaults;
          keyed_by_id = delete-All (λ d. d.1.env_id ≡ d.0) id m.defaults v.keyed_by_id;
          unique_filters = map-UniqueKeys _ m.filtered v.unique_filters;
          mirrored =
              map-Mirrors m.defaults (delete id m.defaults) (delete id) m.filtered
                (λ us u. delete-UniqueKeys id us u)
                (λ us h i.
                  ground (arith, h i, lookup-delete id i us, lookup-delete id i m.defaults))
                v.mirrored;
        })
]

filter-Inv : (f : FilterParams) (m : Manager) → Inv m → Inv (add_filter f m).0
unfolding add_filter
filter-Inv f m v = elim (Option-cases (lookup f.id m.filtered)) [
  | inr (p, e) ↦ rw (e, add_filter) v
  | inl e ↦
      rw (e, add_filter)
        (record {
          unique_defaults = v.unique_defaults;
          keyed_by_id = v.keyed_by_id;
          unique_filters = insert-UniqueKeys f.id _ m.filtered v.unique_filters;
          mirrored =
              insert-All (Mirrors m.defaults) f.id _ m.filtered
                (λ j. (units-UniqueKeys m.defaults v.unique_defaults, has-units m.defaults))
                v.mirrored;
        })
]

unfilter-Inv : (f : FilterId) (m : Manager) → Inv m → Inv (delete_filter f m).0
unfolding delete_filter
unfilter-Inv f m v = elim (Option-cases (lookup f m.filtered)) [
  | inl e ↦ rw (e, delete_filter) v
  | inr (p, e) ↦
      rw (e, delete_filter)
        (record {
          unique_defaults = v.unique_defaults;
          keyed_by_id = v.keyed_by_id;
          unique_filters = delete-UniqueKeys f m.filtered v.unique_filters;
          mirrored = delete-All (Mirrors m.defaults) f m.filtered v.mirrored;
        })
]

update-Inv : (env : EnvironmentParams) (m : Manager) → Inv m → Inv (update_environment env m).0
unfolding update_environment
update-Inv env m v = elim (Option-cases (lookup env.env_id m.defaults)) [
  | inl e ↦ rw (e, update_environment) v
  | inr (p, e) ↦ rw (e, update_environment) v
]

-- Every command keeps the invariant: no key stands twice, an environment stands under its own id, and
-- every filter's set of environments is the set of default environments.
pub execute-Inv : (c : Command) (m : Manager) → Inv m → Inv (execute c m).0
unfolding execute
execute-Inv (update env) m v = update-Inv env m v
execute-Inv (add env) m v = add-Inv env m v
execute-Inv (remove id) m v = remove-Inv id m v
execute-Inv (filter f) m v = filter-Inv f m v
execute-Inv (unfilter f) m v = unfilter-Inv f m v

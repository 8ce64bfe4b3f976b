-- ===== src/ProjManager/Manager/Balance.antt =====
-- What a manager has had created and not deleted is what it manages.
use ld_relay.Base.{
  String, ◌+◌, ◌≡◌, inl, inr, some, List, [], ◌∷◌, ◌++◌, map, All, string_discrete, if_pos, if_neg,
  Option-cases, arith,
}
use ld_relay.Base.Assoc.{Assoc, lookup, insert, delete, lookup-insert, lookup-delete}
use ld_relay.Credential.{string_key, EnvironmentId, FilterId, FilterKey, default_filter}
use ld_relay.EnvFactory.{EnvironmentParams, FilterParams}
use ld_relay.ProjManager.Manager.{
  EnvAction, FilterMapping, Manager, new_manager, update_environment, add_environment,
  delete_environment, add_filter, delete_filter,
}
use ld_relay.ProjManager.Manager.Mirror.{
  Mirrors, Inv, Command, update, add, remove, filter, unfilter, execute, new_manager-Inv,
}
use ld_relay.ProjManager.Manager.Invariant.{execute-Inv}
use ld_relay.ProjManager.Manager.Accounts.{
  adds, deletes, managed, adds-filters, deletes-filters, adds-defaults, deletes-envs, no_adds,
  no_adds-envs, no_deletes, no_deletes-defaults, no_calls-updates, keyed-map, keyed-insert,
  keyed-delete,
}

-- The parameters of a new environment name no filter, as `ToParams` makes them.
abbrev pub Unfiltered : Command → Type 0
Unfiltered (add env) = env.identifiers.filter_key ≡ default_filter
Unfiltered _ = Unit

Mirrors-lookup :
    (ds : Assoc EnvironmentId EnvironmentParams) (i : FilterId) (f : FilterMapping)
    (fs : Assoc FilterId FilterMapping)
    → All (Mirrors ds) fs
    → lookup i fs ≡ some f
    → Mirrors ds (i, f)
unfolding lookup
Mirrors-lookup ds i f [] h e = absurd (cc)
Mirrors-lookup ds i f ((j, g) ∷ fs) h e = elim (string_discrete i j) [
  | yes p ↦
      let same : some g ≡ some f = rw (if_pos _ p) at e in let is : g ≡ f = cc in rw (← is) h.0
  | no n ↦ Mirrors-lookup ds i f fs h.1 (rw (if_neg _ n) at e)
]

-- The calls of one command account for the change of what is managed.
abbrev pub Balanced : EnvironmentId → FilterKey → Manager → Manager × List EnvAction → Type 0
Balanced i k m (m', calls) = managed i k m + adds i k calls ≡ deletes i k calls + managed i k m'

module _ (i : EnvironmentId) (k : FilterKey) (m : Manager) where
  add_balance :
      (env : EnvironmentParams)
      → env.identifiers.filter_key ≡ default_filter
      → Balanced i k m (add_environment env m)
  unfolding add_environment managed adds deletes
  add_balance env d = elim (Option-cases (lookup env.env_id m.defaults)) [
    | inr (p, e) ↦ rw (e, add_environment) (omega arith)
    | inl e ↦
        rw (e, add_environment)
          (ground (
            arith,
            adds-filters i k env m.filtered,
            no_deletes i k env m.filtered,
            keyed-map k (insert env.env_id tt) m.filtered,
            lookup-insert env.env_id i env m.defaults,
          ))
  ]

  remove_balance :
      (id : EnvironmentId)
      → let (m', calls, _) = delete_environment id m in Balanced i k m (m', calls)
  unfolding delete_environment managed adds deletes
  remove_balance id = elim (Option-cases (lookup id m.defaults)) [
    | inl e ↦ rw (e, delete_environment) (omega arith)
    | inr (p, e) ↦
        rw (e, delete_environment)
          (ground (
            arith,
            deletes-filters i id k m.filtered,
            no_adds i id k m.filtered,
            keyed-map k (delete id) m.filtered,
            lookup-delete id i m.defaults,
          ))
  ]

  filter_balance : (f : FilterParams) → Inv m → Balanced i k m (add_filter f m)
  unfolding add_filter managed adds deletes
  filter_balance f v = elim (Option-cases (lookup f.id m.filtered)) [
    | inr (p, e) ↦ rw (e, add_filter) (omega arith)
    | inl e ↦
        rw (e, add_filter)
          (ground (
            arith,
            adds-defaults i k f.key m.defaults v.unique_defaults v.keyed_by_id,
            no_deletes-defaults i k f.key m.defaults,
            keyed-insert k f.id (record { key = f.key; envs = map (λ d. (d.0, tt)) m.defaults })
                m.filtered e,
          ))
  ]

  unfilter_balance :
      (f : FilterId) → Inv m → let (m', calls, _) = delete_filter f m in Balanced i k m (m', calls)
  unfolding delete_filter managed adds deletes
  unfilter_balance f v = elim (Option-cases (lookup f m.filtered)) [
    | inl e ↦ rw (e, delete_filter) (omega arith)
    | inr (g, e) ↦
        let mirror = Mirrors-lookup m.defaults f g m.filtered v.mirrored e in
        rw (e, delete_filter)
          (ground (
            arith,
            deletes-envs i k g.key g.envs mirror.0,
            mirror.1 i,
            no_adds-envs i k g.key g.envs,
            keyed-delete k f g m.filtered v.unique_filters e,
          ))
  ]

  update_balance : (env : EnvironmentParams) → Balanced i k m (update_environment env m)
  unfolding update_environment managed adds deletes
  update_balance env = elim (Option-cases (lookup env.env_id m.defaults)) [
    | inl e ↦ rw (e, update_environment) (omega arith)
    | inr (p, e) ↦ rw (e, update_environment) (ground (arith, no_calls-updates i k env m.filtered))
  ]

  pub execute_balance : (c : Command) → Inv m → Unfiltered c → Balanced i k m (execute c m)
  unfolding execute
  execute_balance (update env) v u = update_balance env
  execute_balance (add env) v u = add_balance env u
  execute_balance (remove id) v u = remove_balance id
  execute_balance (filter f) v u = filter_balance f v
  execute_balance (unfilter f) v u = unfilter_balance f v

pub execute_all : List Command → Manager → Manager × List EnvAction
execute_all [] m = (m, [])
execute_all (c ∷ cs) m =
    let (m', calls) = execute c m in let (m'', more) = execute_all cs m' in (m'', calls ++ more)

pub adds-append :
    (i : EnvironmentId) (k : FilterKey) (xs ys : List EnvAction)
    → adds i k (xs ++ ys) ≡ adds i k xs + adds i k ys
unfolding adds
adds-append i k [] ys = omega arith
adds-append i k (x ∷ xs) ys = omega (arith, adds-append i k xs ys)

pub deletes-append :
    (i : EnvironmentId) (k : FilterKey) (xs ys : List EnvAction)
    → deletes i k (xs ++ ys) ≡ deletes i k xs + deletes i k ys
unfolding deletes
deletes-append i k [] ys = omega arith
deletes-append i k (x ∷ xs) ys = omega (arith, deletes-append i k xs ys)

pub new_manager-managed :
    (project : String) (i : EnvironmentId) (k : FilterKey) → managed i k (new_manager project) ≡ 0
unfolding managed lookup
new_manager-managed project i k = omega arith

execute_all_balance :
    (i : EnvironmentId) (k : FilterKey) (cs : List Command) (m : Manager)
    → Inv m
    → All Unfiltered cs
    → Balanced i k m (execute_all cs m)
unfolding execute_all adds deletes
execute_all_balance i k [] m v u = omega arith
execute_all_balance i k (c ∷ cs) m v u = omega (
  arith,
  adds-append i k (execute c m).1 (execute_all cs (execute c m).0).1,
  deletes-append i k (execute c m).1 (execute_all cs (execute c m).0).1,
  execute_balance i k m c v u.0,
  execute_all_balance i k cs (execute c m).0 (execute-Inv c m v) u.1,
)

-- After any commands whose new environments name no filter, and for every id and filter key: the
-- environments that a new manager has had created are those it has had deleted and those it manages,
-- which are each default environment once unfiltered and once for each filter with the key.
pub manager_accounts :
    (project : String) (i : EnvironmentId) (k : FilterKey) (cs : List Command)
    → All Unfiltered cs
    → let (m, calls) = execute_all cs (new_manager project) in
      adds i k calls ≡ deletes i k calls + managed i k m
manager_accounts project i k cs u =
    let balance = execute_all_balance i k cs (new_manager project) (new_manager-Inv project) u in
    omega (arith, balance, new_manager-managed project i k)

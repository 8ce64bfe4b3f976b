-- ===== src/ProjManager/Manager.antt =====
-- internal/projmanager/environment_manager.go. The calls of the handler are returned, in order; the
-- loops over a map go through its entries in the order of the list.
pub mod Accounts
pub mod Balance
pub mod Mirror
pub mod Invariant
pub mod Stale
use ld_relay.Base.{Option, none, some, Bool, true, false, List, [], ◌∷◌, ◌++◌, map, String}
use ld_relay.Base.Assoc.{Assoc, lookup, insert, delete, keys}
use ld_relay.Credential.{string_key, SdkKey, EnvironmentId, FilterId, FilterKey, default_filter}
use ld_relay.EnvFactory.{EnvironmentParams, FilterParams, with_filter}

-- The calls of `EnvironmentActions`, and `ReceivedAllEnvironments` of `AutoConfigActions`.
pub data EnvAction : Type 0 where
  add_env : EnvironmentParams → EnvAction
  update_env : EnvironmentParams → EnvAction
  delete_env : EnvironmentId → FilterKey → EnvAction
  expire_key : EnvironmentId → FilterKey → SdkKey → EnvAction
  all_received : EnvAction

pub record FilterMapping : Type 0 where
  pub key : FilterKey
  pub envs : Assoc EnvironmentId (Unit {0})

pub record Manager : Type 0 where
  pub project : String
  pub defaults : Assoc EnvironmentId EnvironmentParams
  pub filtered : Assoc FilterId FilterMapping

-- `NewEnvironmentManager`
abbrev pub new_manager : String → Manager
new_manager project = record { project = project; defaults = []; filtered = [] }

-- The bodies of the loops over `e.filtered`.
abbrev pub on_mapping :
    (FilterMapping → FilterMapping) → FilterId × FilterMapping → FilterId × FilterMapping
on_mapping f (id, m) = (id, f m)

abbrev pub on_envs :
    (Assoc EnvironmentId (Unit {0}) → Assoc EnvironmentId (Unit {0}))
    → FilterMapping
    → FilterMapping
on_envs f m = record m { envs = f m.envs }

unfoldable pub update_environment : EnvironmentParams → Manager → Manager × List EnvAction
update_environment env e = elim (lookup env.env_id e.defaults) [
  | none ↦ (e, [])
  | some _ ↦ (e, update_env env ∷ map (λ f. update_env (with_filter (f.1).key env)) e.filtered)
]

unfoldable pub add_environment : EnvironmentParams → Manager → Manager × List EnvAction
add_environment env e = elim (lookup env.env_id e.defaults) [
  | some _ ↦ (e, [])
  | none ↦ (
    record e {
      defaults = insert env.env_id env e.defaults;
      filtered = map (on_mapping (on_envs (insert env.env_id tt))) e.filtered;
    },
    add_env env ∷ map (λ f. add_env (with_filter (f.1).key env)) e.filtered,
  )
]

unfoldable pub delete_environment : EnvironmentId → Manager → Manager × List EnvAction × Bool
delete_environment id e = elim (lookup id e.defaults) [
  | none ↦ (e, [], false)
  | some _ ↦ (
    record e {
      defaults = delete id e.defaults;
      filtered = map (on_mapping (on_envs (delete id))) e.filtered;
    },
    delete_env id default_filter ∷ map (λ f. delete_env id (f.1).key) e.filtered,
    true,
  )
]

unfoldable pub add_filter : FilterParams → Manager → Manager × List EnvAction
add_filter filter e = elim (lookup filter.id e.filtered) [
  | some _ ↦ (e, [])
  | none ↦ (
    record e {
      filtered =
          insert filter.id (record { key = filter.key; envs = map (λ d. (d.0, tt)) e.defaults })
            e.filtered;
    },
    map (λ d. add_env (with_filter filter.key d.1)) e.defaults,
  )
]

unfoldable pub delete_filter : FilterId → Manager → Manager × List EnvAction × Bool
delete_filter filter e = elim (lookup filter e.filtered) [
  | none ↦ (e, [], false)
  | some filtered ↦ (
    record e { filtered = delete filter e.filtered },
    map (λ d. delete_env d.0 filtered.key) filtered.envs,
    true,
  )
]

unfoldable pub key_expired : EnvironmentId → SdkKey → Manager → List EnvAction
key_expired id old_key e =
    expire_key id default_filter old_key ∷ map (λ f. expire_key id (f.1).key old_key) e.filtered

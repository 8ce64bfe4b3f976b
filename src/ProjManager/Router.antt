-- ===== src/ProjManager/Router.antt =====
-- internal/projmanager/project_router.go. The calls of the actions are returned, in order. What is
-- logged for a delete that no manager, or more than one, serviced is returned as the count.
pub mod Handler
pub mod Accounts
use ld_relay.Base.{ℕ, ◌+◌, String, none, some, Bool, List, [], ◌∷◌, ◌++◌, if◌then◌else◌}
use ld_relay.Base.Assoc.{Assoc, lookup, insert}
use ld_relay.Credential.{string_key, SdkKey, EnvironmentId, FilterId}
use ld_relay.EnvFactory.{EnvironmentParams, FilterParams}
use ld_relay.ProjManager.Manager.{EnvAction, all_received, new_manager}
use ld_relay.ProjManager.Manager

pub record Router : Type 0 where
  pub managers : Assoc String Manager.Manager

abbrev pub new_router : Router
new_router = record { managers = [] }

-- The entry for the project, which is made if it is missing.
abbrev pub manager_or_new : String → Router → Manager.Manager
manager_or_new proj e = elim (lookup proj e.managers) [ none ↦ new_manager proj | some m ↦ m ]

-- The manager changes in place.
abbrev pub store_manager : String → Manager.Manager → Router → Router
store_manager proj m e = record { managers = insert proj m e.managers }

unfoldable pub key_expired : EnvironmentId → String → SdkKey → Router → List EnvAction
unfolding Manager.key_expired
key_expired id proj_key old_key e = elim (lookup proj_key e.managers) [
  | none ↦ []
  | some m ↦ Manager.key_expired id old_key m
]

unfoldable pub add_environment : EnvironmentParams → Router → Router × List EnvAction
unfolding Manager.add_environment
add_environment params e =
    let proj = params.identifiers.proj_key in
    let (m, calls) = Manager.add_environment params (manager_or_new proj e) in
    (store_manager proj m e, calls)

unfoldable pub update_environment : EnvironmentParams → Router → Router × List EnvAction
unfolding Manager.update_environment
update_environment params e =
    let proj = params.identifiers.proj_key in
    elim (lookup proj e.managers) [
      | none ↦ (e, [])
      | some m ↦
          let (m', calls) = Manager.update_environment params m in (store_manager proj m' e, calls)
    ]

abbrev pub count_if : Bool → ℕ
count_if b = if b then 1 else 0

-- The loop over all managers.
unfoldable pub delete_environment_loop :
    EnvironmentId → Assoc String Manager.Manager → Assoc String Manager.Manager × List EnvAction × ℕ
unfolding Manager.delete_environment
delete_environment_loop id [] = ([], [], 0)
delete_environment_loop id ((proj, m) ∷ ms) =
    let (m', calls, deleted) = Manager.delete_environment id m in
    let (ms', more, count) = delete_environment_loop id ms in
    ((proj, m') ∷ ms', calls ++ more, count_if deleted + count)

unfoldable pub delete_environment : EnvironmentId → Router → Router × List EnvAction × ℕ
unfolding delete_environment_loop
delete_environment id e =
    let (ms, calls, count) = delete_environment_loop id e.managers in
    (record { managers = ms }, calls, count)

abbrev pub received_all_environments : List EnvAction
received_all_environments = all_received ∷ []

unfoldable pub add_filter : FilterParams → Router → Router × List EnvAction
unfolding Manager.add_filter
add_filter params e =
    let proj = params.proj_key in
    let (m, calls) = Manager.add_filter params (manager_or_new proj e) in
    (store_manager proj m e, calls)

unfoldable pub delete_filter_loop :
    FilterId → Assoc String Manager.Manager → Assoc String Manager.Manager × List EnvAction × ℕ
unfolding Manager.delete_filter
delete_filter_loop id [] = ([], [], 0)
delete_filter_loop id ((proj, m) ∷ ms) =
    let (m', calls, deleted) = Manager.delete_filter id m in
    let (ms', more, count) = delete_filter_loop id ms in
    ((proj, m') ∷ ms', calls ++ more, count_if deleted + count)

unfoldable pub delete_filter : FilterId → Router → Router × List EnvAction × ℕ
unfolding delete_filter_loop
delete_filter id e =
    let (ms, calls, count) = delete_filter_loop id e.managers in
    (record { managers = ms }, calls, count)

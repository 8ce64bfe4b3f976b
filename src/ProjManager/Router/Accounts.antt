-- ===== src/ProjManager/Router/Accounts.antt =====
-- What a router has had created and not deleted is what its managers manage.
use ld_relay.Base.{
  ℕ, String, ◌+◌, ◌≡◌, refl, none, some, List, [], ◌∷◌, map, All, string_discrete, if_pos, if_neg,
  inl, inr, Option-cases, arith,
}
use ld_relay.Base.Assoc.{Assoc, lookup, insert}
use ld_relay.Credential.{string_key, SdkKey, EnvironmentId, FilterId, FilterKey, default_filter}
use ld_relay.AutoConfig.Stream.{HandlerCall}
use ld_relay.AutoConfig.Stream
use ld_relay.ProjManager.Manager.{Manager, EnvAction, new_manager, FilterMapping, expire_key}
use ld_relay.ProjManager.Manager
use ld_relay.ProjManager.Manager.Mirror.{
  Inv, Command, update, add, remove, filter, unfilter, execute, new_manager-Inv,
}
use ld_relay.ProjManager.Manager.Invariant.{execute-Inv}
use ld_relay.ProjManager.Manager.Accounts.{adds, deletes, managed}
use ld_relay.ProjManager.Manager.Balance.{
  Unfiltered, execute_balance, new_manager-managed, adds-append, deletes-append,
}
use ld_relay.ProjManager.Router.{
  delete_environment_loop, delete_filter_loop, manager_or_new, new_router,
}
use ld_relay.ProjManager.Router
use ld_relay.ProjManager.Router.Handler.{handle, handle_all}

abbrev Managers : Type 0
Managers = Assoc String Manager

-- The environments of the id with the filter key that all managers manage.
unfoldable pub managed_all : EnvironmentId → FilterKey → Assoc String Manager → ℕ
managed_all i k [] = 0
managed_all i k ((p, m) ∷ ms) = managed i k m + managed_all i k ms

abbrev AllInv : Managers → Type 0
AllInv ms = All (λ q. Inv q.1) ms

-- A new environment names no filter.
abbrev pub Plain : HandlerCall → Type 0
Plain (Stream.add_environment params) = params.identifiers.filter_key ≡ default_filter
Plain _ = Unit

module _ (i : EnvironmentId) (k : FilterKey) where
  abbrev at : String → Managers → Manager
  at p ms = elim (lookup p ms) [ none ↦ new_manager p | some m ↦ m ]

  managed_all-insert :
      (p : String) (m : Manager) (ms : Managers)
      → managed_all i k (insert p m ms) + managed i k (at p ms) ≡ managed_all i k ms + managed i k m
  unfolding managed_all insert lookup
  managed_all-insert p m [] = omega (arith, new_manager-managed p i k)
  managed_all-insert p m ((q, n) ∷ ms) = ground (arith, managed_all-insert p m ms)

  lookup-Inv : (p : String) (m : Manager) (ms : Managers) → AllInv ms → lookup p ms ≡ some m → Inv m
  unfolding lookup
  lookup-Inv p m [] h e = absurd cc
  lookup-Inv p m ((q, n) ∷ ms) h e = elim (string_discrete p q) [
    | yes same ↦
        let found : some n ≡ some m = rw (if_pos _ same) at e in
        let is : n ≡ m = cc in rw (← is) h.0
    | no ne ↦ lookup-Inv p m ms h.1 (rw (if_neg _ ne) at e)
  ]

  at-Inv : (p : String) (ms : Managers) → AllInv ms → Inv (at p ms)
  at-Inv p ms h = elim (Option-cases (lookup p ms)) [
    | inl e ↦ rw (e, at) (new_manager-Inv p)
    | inr (m, e) ↦ rw (e, at) (lookup-Inv p m ms h e)
  ]

  insert-AllInv :
      (p : String) (m : Manager) (ms : Managers) → Inv m → AllInv ms → AllInv (insert p m ms)
  unfolding insert
  insert-AllInv p m [] v h = (v, tt)
  insert-AllInv p m ((q, n) ∷ ms) v h = elim (string_discrete p q) [
    | yes e ↦ rw (if_pos _ e) (v, h.1)
    | no ne ↦ rw (if_neg _ ne) (h.0, insert-AllInv p m ms v h.1)
  ]

  -- The managers and the calls after a call of the router.
  abbrev Kept : Managers → Managers → List EnvAction → Type 0
  Kept ms ms' calls =
      AllInv ms' × (managed_all i k ms + adds i k calls ≡ deletes i k calls + managed_all i k ms')

  -- One manager has executed a command.
  store-Kept :
      (p : String) (c : Command) (ms : Managers)
      → AllInv ms
      → Unfiltered c
      → Kept ms (insert p (execute c (at p ms)).0 ms) (execute c (at p ms)).1
  store-Kept p c ms h u = (
    insert-AllInv p _ ms (execute-Inv c (at p ms) (at-Inv p ms h)) h,
    omega (
      arith,
      managed_all-insert p (execute c (at p ms)).0 ms,
      execute_balance i k (at p ms) c (at-Inv p ms h) u,
    ),
  )

  delete_environment-Kept :
      (id : EnvironmentId) (ms : Managers)
      → AllInv ms
      → Kept ms (delete_environment_loop id ms).0 (delete_environment_loop id ms).1
  unfolding delete_environment_loop managed_all execute adds deletes
  delete_environment-Kept id [] h = (tt, omega arith)
  delete_environment-Kept id ((p, m) ∷ ms) h =
      let c = execute (remove id) m in
      let rest = delete_environment-Kept id ms h.1 in
      (
        (execute-Inv (remove id) m h.0, rest.0),
        omega (
          arith,
          adds-append i k c.1 (delete_environment_loop id ms).1,
          deletes-append i k c.1 (delete_environment_loop id ms).1,
          execute_balance i k m (remove id) h.0 tt,
          rest.1,
        ),
      )

  delete_filter-Kept :
      (id : FilterId) (ms : Managers)
      → AllInv ms
      → Kept ms (delete_filter_loop id ms).0 (delete_filter_loop id ms).1
  unfolding delete_filter_loop managed_all execute adds deletes
  delete_filter-Kept id [] h = (tt, omega arith)
  delete_filter-Kept id ((p, m) ∷ ms) h =
      let c = execute (unfilter id) m in
      let rest = delete_filter-Kept id ms h.1 in
      (
        (execute-Inv (unfilter id) m h.0, rest.0),
        omega (
          arith,
          adds-append i k c.1 (delete_filter_loop id ms).1,
          deletes-append i k c.1 (delete_filter_loop id ms).1,
          execute_balance i k m (unfilter id) h.0 tt,
          rest.1,
        ),
      )

  no_calls-expired :
      (id : EnvironmentId) (old : SdkKey) (fs : Assoc FilterId FilterMapping)
      → (adds i k (map (λ f. expire_key id (f.1).key old) fs) ≡ 0)
        × (deletes i k (map (λ f. expire_key id (f.1).key old) fs) ≡ 0)
  unfolding adds deletes
  no_calls-expired id old [] = (refl, refl)
  no_calls-expired id old (f ∷ fs) = ground (arith, no_calls-expired id old fs)

  handle-Kept :
      (c : HandlerCall) (e : Router.Router)
      → Plain c
      → AllInv e.managers
      → Kept e.managers (handle c e).0.managers (handle c e).1
  unfolding handle Router.add_environment Router.update_environment Router.delete_environment
      Router.key_expired Router.add_filter Router.delete_filter execute adds deletes
      Manager.key_expired
  handle-Kept (Stream.add_environment params) e u h =
      store-Kept params.identifiers.proj_key (add params) e.managers h u
  handle-Kept (Stream.update_environment params) e u h =
      elim (Option-cases (lookup params.identifiers.proj_key e.managers)) [
        | inl q ↦ rw (q, handle, Router.update_environment) (h, omega arith)
        | inr (m, q) ↦
            let t = store-Kept params.identifiers.proj_key (update params) e.managers h tt in
            rw (q, handle, Router.update_environment) (rw (q, at) at t)
      ]
  handle-Kept (Stream.delete_environment id) e u h = delete_environment-Kept id e.managers h
  handle-Kept Stream.received_all_environments e u h = (h, omega arith)
  handle-Kept (Stream.key_expired id proj_key old) e u h =
      elim (Option-cases (lookup proj_key e.managers)) [
        | inl q ↦ rw (q, handle, Router.key_expired) (h, omega arith)
        | inr (m, q) ↦
            rw (q, handle, Router.key_expired, Manager.key_expired)
              (h, omega (arith, no_calls-expired id old m.filtered))
      ]
  handle-Kept (Stream.add_filter params) e u h =
      store-Kept params.proj_key (filter params) e.managers h tt
  handle-Kept (Stream.delete_filter id) e u h = delete_filter-Kept id e.managers h

  handle_all-Kept :
      (cs : List HandlerCall) (e : Router.Router)
      → All Plain cs
      → AllInv e.managers
      → Kept e.managers (handle_all cs e).0.managers (handle_all cs e).1
  unfolding handle_all adds deletes
  handle_all-Kept [] e u h = (h, omega arith)
  handle_all-Kept (c ∷ cs) e u h =
      let now = handle-Kept c e u.0 h in
      let rest = handle_all-Kept cs (handle c e).0 u.1 now.0 in
      (
        rest.0,
        omega (
          arith,
          adds-append i k (handle c e).1 (handle_all cs (handle c e).0).1,
          deletes-append i k (handle c e).1 (handle_all cs (handle c e).0).1,
          now.1,
          rest.1,
        ),
      )

  -- After any calls of a new router whose new environments name no filter: the environments of an id
  -- with a filter key that the managers of all projects together have had created are those that they
  -- have had deleted and those that they manage.
  pub router_accounts :
      (cs : List HandlerCall)
      → All Plain cs
      → let (e, calls) = handle_all cs new_router in
        adds i k calls ≡ deletes i k calls + managed_all i k e.managers
  unfolding managed_all
  router_accounts cs u = let t = handle_all-Kept cs new_router u tt in omega (arith, t.1)

-- ===== src/Relay/Startup.antt =====
-- relay/relay.go, waitForAllClients: the wait for the clients of the first environments. The input is
-- whether each client that reports before the timeout has failed, in the order of the reports.
pub mod Wait
use ld_relay.Base.{
  ℕ, zero, suc, Option, none, some, Bool, true, false, ◌||◌, List, [], ◌∷◌, if◌then◌else◌, ite,
}

pub data WaitResult : Type 0 where
  all_initialized some_environment_failed initialization_timeout exited : WaitResult

-- The goroutine that counts the reports; `none` if it still waits when they end.
unfoldable pub count_reports : Bool → ℕ → Bool → List Bool → Option Bool
count_reports exit_on_error zero failed es = some failed
count_reports exit_on_error (suc n) failed [] = none
count_reports exit_on_error (suc n) failed (e ∷ es) =
    let rest = count_reports exit_on_error n (failed || e) es in
    if exit_on_error then some (failed || e) else rest

-- Without a timeout the wait has no end if the goroutine has none: `none`.
unfoldable pub wait_for_all_clients : Bool → Bool → ℕ → List Bool → Option WaitResult
unfolding count_reports
wait_for_all_clients exit_on_error has_timeout environments es =
    elim (count_reports exit_on_error environments false es) [
      | some failed ↦ some (
          if failed
          then (if exit_on_error then exited else some_environment_failed)
          else all_initialized)
      | none ↦ if has_timeout then some initialization_timeout else none
    ]

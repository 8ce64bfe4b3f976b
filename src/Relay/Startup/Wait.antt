-- ===== src/Relay/Startup/Wait.antt =====
-- What the start of the relay waits for.
use ld_relay.Base.{
  ℕ, zero, suc, ◌≡◌, refl, none, some, Bool, true, false, ◌||◌, List, [], ◌∷◌, leb, length, take,
  if◌then◌else◌, arith,
}
use ld_relay.Relay.Startup.{
  WaitResult, all_initialized, some_environment_failed, initialization_timeout, exited,
  count_reports, wait_for_all_clients,
}

unfoldable pub any_failed : List Bool → Bool
any_failed [] = false
any_failed (e ∷ es) = e || any_failed es

-- How many reports count: all, but only the first one if the relay exits on an error.
unfoldable pub awaited : Bool → ℕ → ℕ
awaited exit_on_error zero = 0
awaited exit_on_error (suc n) = if exit_on_error then 1 else suc n

unfoldable pub verdict : Bool → Bool → WaitResult
verdict exit_on_error failed =
    if failed then (if exit_on_error then exited else some_environment_failed) else all_initialized

count-all :
    (n : ℕ) (failed : Bool) (es : List Bool)
    → count_reports false n failed es
      ≡ (if leb n (length es) then some (failed || any_failed (take n es)) else none)
unfolding count_reports any_failed
count-all zero failed [] = ground arith
count-all zero failed (e ∷ es) = ground arith
count-all (suc n) failed [] = ground arith
count-all (suc n) failed (e ∷ es) = ground (arith, count-all n (failed || e) es)

count-first :
    (n : ℕ) (es : List Bool)
    → count_reports true n false es ≡ (
        if leb (awaited true n) (length es)
        then some (any_failed (take (awaited true n) es))
        else none)
unfolding count_reports any_failed awaited
count-first zero [] = ground arith
count-first zero (e ∷ es) = ground arith
count-first (suc n) [] = ground arith
count-first (suc n) (e ∷ []) = ground arith
count-first (suc n) (e ∷ f ∷ es) = ground arith

awaited-false : (n : ℕ) → awaited false n ≡ n
unfolding awaited
awaited-false zero = refl
awaited-false (suc n) = refl

-- The wait ends once the reports that count have come, and with a timeout in any case. Without
-- `ExitOnError` these are the reports of all environments, and it succeeds exactly if none of them is a
-- failure. With it, only the first report counts, a success too: a later failure neither exits nor is
-- returned.
pub wait_result :
    (exit_on_error has_timeout : Bool) (environments : ℕ) (es : List Bool)
    → wait_for_all_clients exit_on_error has_timeout environments es ≡ (
        if leb (awaited exit_on_error environments) (length es)
        then some
            (verdict exit_on_error (any_failed (take (awaited exit_on_error environments) es)))
        else if has_timeout
        then some initialization_timeout
        else none)
unfolding wait_for_all_clients verdict
wait_result true has_timeout n es = ground (arith, count-first n es)
wait_result false has_timeout n es = ground (arith, count-all n false es, awaited-false n)

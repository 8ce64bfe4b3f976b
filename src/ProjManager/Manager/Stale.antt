-- ===== src/ProjManager/Manager/Stale.antt =====
-- What a filter that is added later gets of an update.
use ld_relay.Base.{◌≡◌, inl, inr, Option-cases}
use ld_relay.Base.Assoc.{lookup}
use ld_relay.Credential.{string_key}
use ld_relay.EnvFactory.{EnvironmentParams, FilterParams}
use ld_relay.ProjManager.Manager.{Manager, update_environment, add_filter}

-- The manager does not remember an update: a filter that is added after it is given the same
-- environments, with the parameters from before the update, as if the update had not been received.
pub update-add_filter_stale :
    (env : EnvironmentParams) (f : FilterParams) (m : Manager)
    → add_filter f (update_environment env m).0 ≡ add_filter f m
unfolding update_environment
update-add_filter_stale env f m = elim (Option-cases (lookup env.env_id m.defaults)) [
  | inl e ↦ rw (e, update_environment)
  | inr (p, e) ↦ rw (e, update_environment)
]

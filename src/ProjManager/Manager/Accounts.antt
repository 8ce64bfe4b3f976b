-- ===== src/ProjManager/Manager/Accounts.antt =====
-- The environments that a manager has had created and not deleted, for each id and filter key.
use ld_relay.Base.{
  String, ℕ, ◌+◌, ◌*◌, ◌≡◌, refl, none, some, List, [], ◌∷◌, map, ite, All, string_discrete, arith,
}
use ld_relay.Base.Assoc.{Assoc, lookup, insert, delete, UniqueKeys}
use ld_relay.Credential.{string_key, EnvironmentId, FilterId, FilterKey, default_filter}
use ld_relay.EnvFactory.{EnvironmentParams, with_filter}
use ld_relay.ProjManager.Manager.{
  EnvAction, add_env, update_env, delete_env, FilterMapping, Manager, on_mapping, on_envs,
}
use ld_relay.ProjManager.Manager.Mirror.{has}

abbrev pub one_if : String → String → ℕ
one_if a b = ite (string_discrete a b) 1 0

abbrev pub added : EnvironmentId → FilterKey → EnvAction → ℕ
added i k (add_env p) = ite (string_discrete i p.env_id) (one_if k p.identifiers.filter_key) 0
added i k _ = 0

abbrev pub deleted : EnvironmentId → FilterKey → EnvAction → ℕ
deleted i k (delete_env id f) = ite (string_discrete i id) (one_if k f) 0
deleted i k _ = 0

-- How many environments of the id with the filter key the calls create, and delete.
unfoldable pub adds : EnvironmentId → FilterKey → List EnvAction → ℕ
adds i k [] = 0
adds i k (c ∷ cs) = added i k c + adds i k cs

unfoldable pub deletes : EnvironmentId → FilterKey → List EnvAction → ℕ
deletes i k [] = 0
deletes i k (c ∷ cs) = deleted i k c + deletes i k cs

-- How many filters have the key.
unfoldable pub keyed : FilterKey → Assoc FilterId FilterMapping → ℕ
keyed k [] = 0
keyed k ((_, f) ∷ fs) = one_if k f.key + keyed k fs

-- The environments that should exist: each default one unfiltered, and once for each filter.
unfoldable pub managed : EnvironmentId → FilterKey → Manager → ℕ
managed i k m = has i m.defaults * (one_if k default_filter + keyed k m.filtered)

pub adds-filters :
    (i : EnvironmentId) (k : FilterKey) (env : EnvironmentParams)
    (fs : Assoc FilterId FilterMapping)
    → adds i k (map (λ f. add_env (with_filter (f.1).key env)) fs)
      ≡ ite (string_discrete i env.env_id) (keyed k fs) 0
unfolding adds keyed with_filter
adds-filters i k env [] = ground arith
adds-filters i k env ((_, f) ∷ fs) = ground (arith, adds-filters i k env fs)

pub deletes-filters :
    (i id : EnvironmentId) (k : FilterKey) (fs : Assoc FilterId FilterMapping)
    → deletes i k (map (λ f. delete_env id (f.1).key) fs)
      ≡ ite (string_discrete i id) (keyed k fs) 0
unfolding deletes keyed
deletes-filters i id k [] = ground arith
deletes-filters i id k ((_, f) ∷ fs) = ground (arith, deletes-filters i id k fs)

pub adds-defaults :
    (i : EnvironmentId) (k key : FilterKey) (ds : Assoc EnvironmentId EnvironmentParams)
    → UniqueKeys ds
    → All (λ d. d.1.env_id ≡ d.0) ds
    → adds i k (map (λ d. add_env (with_filter key d.1)) ds) ≡ one_if k key * has i ds
unfolding adds with_filter lookup
adds-defaults i k key [] u e = ground arith
adds-defaults i k key ((j, p) ∷ ds) u e = ground (arith, adds-defaults i k key ds u.1 e.1)

pub deletes-envs :
    (i : EnvironmentId) (k key : FilterKey) (us : Assoc EnvironmentId (Unit {0}))
    → UniqueKeys us
    → deletes i k (map (λ d. delete_env d.0 key) us) ≡ one_if k key * has i us
unfolding deletes lookup
deletes-envs i k key [] u = ground arith
deletes-envs i k key ((j, p) ∷ us) u = ground (arith, deletes-envs i k key us u.1)

pub no_adds :
    (i id : EnvironmentId) (k : FilterKey) (fs : Assoc FilterId FilterMapping)
    → adds i k (map (λ f. delete_env id (f.1).key) fs) ≡ 0
unfolding adds
no_adds i id k [] = refl
no_adds i id k (f ∷ fs) = ground (arith, no_adds i id k fs)

pub no_adds-envs :
    (i : EnvironmentId) (k key : FilterKey) (us : Assoc EnvironmentId (Unit {0}))
    → adds i k (map (λ d. delete_env d.0 key) us) ≡ 0
unfolding adds
no_adds-envs i k key [] = refl
no_adds-envs i k key (f ∷ fs) = ground (arith, no_adds-envs i k key fs)

pub no_deletes :
    (i : EnvironmentId) (k : FilterKey) (env : EnvironmentParams)
    (fs : Assoc FilterId FilterMapping)
    → deletes i k (map (λ f. add_env (with_filter (f.1).key env)) fs) ≡ 0
unfolding deletes
no_deletes i k env [] = refl
no_deletes i k env (f ∷ fs) = ground (arith, no_deletes i k env fs)

pub no_deletes-defaults :
    (i : EnvironmentId) (k key : FilterKey) (ds : Assoc EnvironmentId EnvironmentParams)
    → deletes i k (map (λ d. add_env (with_filter key d.1)) ds) ≡ 0
unfolding deletes
no_deletes-defaults i k key [] = refl
no_deletes-defaults i k key (f ∷ fs) = ground (arith, no_deletes-defaults i k key fs)

pub no_calls-updates :
    (i : EnvironmentId) (k : FilterKey) (env : EnvironmentParams)
    (fs : Assoc FilterId FilterMapping)
    → (adds i k (map (λ f. update_env (with_filter (f.1).key env)) fs) ≡ 0)
      × (deletes i k (map (λ f. update_env (with_filter (f.1).key env)) fs) ≡ 0)
unfolding adds deletes
no_calls-updates i k env [] = (refl, refl)
no_calls-updates i k env (f ∷ fs) = ground (arith, no_calls-updates i k env fs)

pub keyed-map :
    (k : FilterKey) (f : Assoc EnvironmentId (Unit {0}) → Assoc EnvironmentId (Unit {0}))
    (fs : Assoc FilterId FilterMapping)
    → keyed k (map (on_mapping (on_envs f)) fs) ≡ keyed k fs
unfolding keyed
keyed-map k f [] = refl
keyed-map k f (g ∷ fs) = ground (arith, keyed-map k f fs)

pub keyed-insert :
    (k : FilterKey) (i : FilterId) (f : FilterMapping) (fs : Assoc FilterId FilterMapping)
    → lookup i fs ≡ none
    → keyed k (insert i f fs) ≡ one_if k f.key + keyed k fs
unfolding keyed insert lookup
keyed-insert k i f [] e = refl
keyed-insert k i f ((j, g) ∷ fs) e = ground (arith, keyed-insert k i f fs)

keyed-delete-none :
    (k : FilterKey) (i : FilterId) (fs : Assoc FilterId FilterMapping)
    → lookup i fs ≡ none
    → keyed k (delete i fs) ≡ keyed k fs
unfolding keyed delete lookup
keyed-delete-none k i [] e = refl
keyed-delete-none k i ((j, g) ∷ fs) e = ground (arith, keyed-delete-none k i fs)

pub keyed-delete :
    (k : FilterKey) (i : FilterId) (f : FilterMapping) (fs : Assoc FilterId FilterMapping)
    → UniqueKeys fs
    → lookup i fs ≡ some f
    → one_if k f.key + keyed k (delete i fs) ≡ keyed k fs
unfolding keyed delete lookup
keyed-delete k i f [] u e = cc
keyed-delete k i f ((j, g) ∷ fs) u e =
    ground (arith, keyed-delete-none k i fs, keyed-delete k i f fs u.1)

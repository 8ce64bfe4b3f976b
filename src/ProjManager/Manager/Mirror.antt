-- ===== src/ProjManager/Manager/Mirror.antt =====
-- The state of an environment manager between two commands.
use ld_relay.Base.{
  ℕ, ◌≡◌, refl, none, some, List, [], ◌∷◌, map, All, string_discrete, if_pos, if_neg, arith,
}
use ld_relay.Base.Assoc.{Assoc, lookup, insert, delete, UniqueKeys}
use ld_relay.Credential.{string_key, EnvironmentId, FilterId}
use ld_relay.EnvFactory.{EnvironmentParams, FilterParams}
use ld_relay.ProjManager.Manager.{
  EnvAction, FilterMapping, Manager, new_manager, on_mapping, on_envs, update_environment,
  add_environment, delete_environment, add_filter, delete_filter,
}

-- 1 if the key is in the map.
abbrev pub has : {V : Type 0} → EnvironmentId → Assoc EnvironmentId V → ℕ
has i m = elim (lookup i m) [ none ↦ 0 | some _ ↦ 1 ]

-- A filter's set of environments is the set of default environments.
abbrev pub Mirrors : Assoc EnvironmentId EnvironmentParams → FilterId × FilterMapping → Type 0
Mirrors ds f = UniqueKeys f.1.envs × ((i : EnvironmentId) → has i f.1.envs ≡ has i ds)

pub record Inv (m : Manager) : Type 0 where
  pub unique_defaults : UniqueKeys m.defaults
  pub keyed_by_id : All (λ d. d.1.env_id ≡ d.0) m.defaults
  pub unique_filters : UniqueKeys m.filtered
  pub mirrored : All (Mirrors m.defaults) m.filtered

-- The commands that a router sends.
pub data Command : Type 0 where
  update add : EnvironmentParams → Command
  remove : EnvironmentId → Command
  filter : FilterParams → Command
  unfilter : FilterId → Command

unfoldable pub execute : Command → Manager → Manager × List EnvAction
execute (update env) m = update_environment env m
execute (add env) m = add_environment env m
execute (remove id) m = let (m', calls, _) = delete_environment id m in (m', calls)
execute (filter f) m = add_filter f m
execute (unfilter f) m = let (m', calls, _) = delete_filter f m in (m', calls)

pub new_manager-Inv : (project : _) → Inv (new_manager project)
new_manager-Inv project = record {
  unique_defaults = tt;
  keyed_by_id = tt;
  unique_filters = tt;
  mirrored = tt;
}

pub insert-keyed :
    (i : EnvironmentId) (p : EnvironmentParams) (ds : Assoc EnvironmentId EnvironmentParams)
    → p.env_id ≡ i
    → All (λ d. d.1.env_id ≡ d.0) ds
    → All (λ d. d.1.env_id ≡ d.0) (insert i p ds)
unfolding insert
insert-keyed i p [] e h = (e, tt)
insert-keyed i p ((j, q) ∷ ds) e h = ground (arith, insert-keyed i p ds e)

pub delete-All {ℓ} :
    {V : Type 0} (P : EnvironmentId × V → Type ℓ) (i : EnvironmentId) (ds : Assoc EnvironmentId V)
    → All P ds
    → All P (delete i ds)
unfolding delete
delete-All P i [] h = tt
delete-All P i ((j, q) ∷ ds) h = elim (string_discrete i j) [
  | yes e ↦ rw (if_pos _ e) (delete-All P i ds h.1)
  | no n ↦ rw (if_neg _ n) (h.0, delete-All P i ds h.1)
]

pub insert-All {ℓ} :
    {V : Type 0} (P : EnvironmentId × V → Type ℓ) (i : EnvironmentId) (v : V)
    (ds : Assoc EnvironmentId V)
    → ((j : EnvironmentId) → P (j, v))
    → All P ds
    → All P (insert i v ds)
unfolding insert
insert-All P i v [] new h = (new i, tt)
insert-All P i v ((j, q) ∷ ds) new h = elim (string_discrete i j) [
  | yes e ↦ rw (if_pos _ e) (new j, h.1)
  | no n ↦ rw (if_neg _ n) (h.0, insert-All P i v ds new h.1)
]

-- A change of every filter's set that follows the change of the defaults.
pub map-Mirrors :
    (ds es : Assoc EnvironmentId EnvironmentParams)
    (f : Assoc EnvironmentId (Unit {0}) → Assoc EnvironmentId (Unit {0}))
    (fs : Assoc FilterId FilterMapping)
    → ((us : Assoc EnvironmentId (Unit {0})) → UniqueKeys us → UniqueKeys (f us))
    → ((us : Assoc EnvironmentId (Unit {0}))
        → ((i : EnvironmentId) → has i us ≡ has i ds)
        → (i : EnvironmentId) → has i (f us) ≡ has i es)
    → All (Mirrors ds) fs
    → All (Mirrors es) (map (on_mapping (on_envs f)) fs)
map-Mirrors ds es f [] keep follow h = tt
map-Mirrors ds es f (g ∷ fs) keep follow h =
    ((keep g.1.envs h.0.0, follow g.1.envs h.0.1), map-Mirrors ds es f fs keep follow h.1)

pub lookup-map-none :
    (f : FilterMapping → FilterMapping) (i : FilterId) (fs : Assoc FilterId FilterMapping)
    → lookup i fs ≡ none
    → lookup i (map (on_mapping f) fs) ≡ none
unfolding lookup
lookup-map-none f i [] e = refl
lookup-map-none f i ((j, g) ∷ fs) e = ground (arith, lookup-map-none f i fs)

pub map-UniqueKeys :
    (f : FilterMapping → FilterMapping) (fs : Assoc FilterId FilterMapping)
    → UniqueKeys fs
    → UniqueKeys (map (on_mapping f) fs)
map-UniqueKeys f [] u = tt
map-UniqueKeys f ((j, g) ∷ fs) u = (lookup-map-none f j fs u.0, map-UniqueKeys f fs u.1)

pub has-units :
    (ds : Assoc EnvironmentId EnvironmentParams) (i : EnvironmentId)
    → has i (map (λ d. (d.0, tt)) ds) ≡ has i ds
unfolding lookup
has-units [] i = refl
has-units ((j, p) ∷ ds) i = ground (arith, has-units ds i)

lookup-none-units :
    (ds : Assoc EnvironmentId EnvironmentParams) (i : EnvironmentId)
    → lookup i ds ≡ none
    → lookup i (map (λ d. (d.0, tt)) ds) ≡ none
unfolding lookup
lookup-none-units [] i e = refl
lookup-none-units ((j, p) ∷ ds) i e = ground (arith, lookup-none-units ds i)

pub units-UniqueKeys :
    (ds : Assoc EnvironmentId EnvironmentParams)
    → UniqueKeys ds
    → UniqueKeys (map (λ d. (d.0, tt)) ds)
units-UniqueKeys [] u = tt
units-UniqueKeys ((j, p) ∷ ds) u = (lookup-none-units ds j u.0, units-UniqueKeys ds u.1)

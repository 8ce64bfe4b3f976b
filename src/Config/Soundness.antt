-- ===== src/Config/Soundness.antt =====
-- What a configuration that the validation accepts satisfies.
use ld_relay.Base.{
  ℕ, suc, String, ◌≡◌, ◌≤◌, refl, sym, ◌∙◌, Option, Bool, true, false, not, ◌&&◌, ◌||◌, List, [],
  ◌∷◌, ◌++◌, if◌then◌else◌, inl, inr, Bool-cases, arith, append-eq-nil_iff, All, length, ltb, ◌==◌,
}
use ld_relay.Base.Assoc.{Assoc, Key}
use ld_relay.EnvFactory.{EnvConfig, placeholder}
use ld_relay.Config.{
  Config, ConfigError, auto_conf_with_environments, auto_conf_without_db_disambig,
  file_data_with_auto_conf, offline_mode_with_environments,
}
use ld_relay.Config.Validation.{
  Defaults, Environments, some_values, nonempty, error_if, distinguished, databases, filters_of,
  check_sdk_keys, check_prefixes, find_proj, check_filter_keys, check_filter, check_filters,
  some_without_proj, check_disambiguation, check_databases, validate_config_environments,
  validate_config_filters, validate_config_databases, validate_config_default_urls, validate_config,
  validation_result,
}
use ld_relay.Config.Idempotence.{accepted_parts}

-- A filter's project is an environment's, and each of its keys is given.
ValidFilter : Environments → String × List String → Type 0
ValidFilter envs (proj, ks) =
    (find_proj proj envs ≡ true) × (some_values ks ≡ true) × All (λ k. nonempty k ≡ true) ks

-- Where several environments use a database, does the environment have a prefix, or in DynamoDB a table name?
separated : {U : Type 0} → Config U → EnvConfig (List String) → Bool
separated c e =
    length (databases c) == 0 || (length c.environment == 1 || distinguished c.dynamodb_enabled e)

pub record Accepted {U : Type 0} (c : Config U) : Type 0 where
  one_database : length (databases c) ≤ 1
  sdk_keys : All (λ e. nonempty e.1.sdk_key ≡ true) c.environment
  separate : All (λ e. separated c e.1 ≡ true) c.environment
  filters : All (ValidFilter c.environment) (filters_of c.filters)
  auto_config : (nonempty c.auto_config.key && some_values c.environment) ≡ false
  offline :
      (nonempty c.offline_mode.file_data_source
        && (nonempty c.auto_config.key || some_values c.environment))
      ≡ false

error_if-nil :
    (b : Bool) (e : ConfigError) (es : List ConfigError)
    → error_if b e ++ es ≡ []
    → (b ≡ false) × (es ≡ [])
error_if-nil b e es h = ground arith

nonempty_true : (b : Bool) → not b ≡ false → b ≡ true
nonempty_true b h = ground arith

check_sdk_keys-nil :
    (envs : Environments) → check_sdk_keys envs ≡ [] → All (λ e. nonempty e.1.sdk_key ≡ true) envs
unfolding check_sdk_keys
check_sdk_keys-nil [] h = tt
check_sdk_keys-nil ((name, e) ∷ es) h =
    let (here, rest) = error_if-nil _ _ (check_sdk_keys es) h in
    (nonempty_true _ here, check_sdk_keys-nil es rest)

check_prefixes-nil :
    (dynamodb : Bool) (envs : Environments)
    → check_prefixes dynamodb envs ≡ []
    → All (λ e. distinguished dynamodb e.1 ≡ true) envs
unfolding check_prefixes
check_prefixes-nil d [] h = tt
check_prefixes-nil d ((name, e) ∷ es) h =
    let (here, rest) = error_if-nil _ _ (check_prefixes d es) h in
    (nonempty_true _ here, check_prefixes-nil d es rest)

check_filter_keys-nil :
    (proj : String) (i : ℕ) (ks : List String)
    → check_filter_keys proj i ks ≡ []
    → All (λ k. nonempty k ≡ true) ks
unfolding check_filter_keys
check_filter_keys-nil proj i [] h = tt
check_filter_keys-nil proj i (k ∷ ks) h =
    let (here, rest) = error_if-nil _ _ (check_filter_keys proj (suc i) ks) h in
    (nonempty_true _ here, check_filter_keys-nil proj (suc i) ks rest)

check_filter-nil :
    (envs : Environments) (proj : String) (ks : List String)
    → check_filter envs proj ks ≡ []
    → ValidFilter envs (proj, ks)
unfolding check_filter ValidFilter
check_filter-nil envs proj ks h = elim (Bool-cases (find_proj proj envs)) [
  | inl e ↦ elim (Bool-cases (some_values ks)) [
    | inl f ↦
        let q : check_filter envs proj ks ≡ check_filter_keys proj 0 ks = rw (e, f) refl in
        (e, f, check_filter_keys-nil proj 0 ks (sym q ∙ h))
    | inr f ↦ ground arith
  ]
  | inr e ↦ ground arith
]

check_filters-nil :
    (envs : Environments) (fs : Assoc String (List String))
    → check_filters envs fs ≡ []
    → All (ValidFilter envs) fs
unfolding check_filters
check_filters-nil envs [] h = tt
check_filters-nil envs ((proj, ks) ∷ fs) h =
    let (here, rest) = append-eq-nil_iff.0 h in
    (check_filter-nil envs proj ks here, check_filters-nil envs fs rest)

both_given :
    (a b : Bool) (l : List ConfigError) (e : ConfigError)
    → (if a then error_if b e else l) ≡ []
    → (a && b) ≡ false
both_given a b l e h = ground arith

offline_given :
    (a b b' : Bool) (l : List ConfigError) (e e' : ConfigError)
    → (if a then error_if b e ++ error_if b' e' else l) ≡ []
    → (a && (b || b')) ≡ false
offline_given a b b' l e e' h = ground arith

-- What an environment need not show where there is no database, `a`, or no second environment, `b`.
separated-All :
    (a b d : Bool) (es : Environments)
    → (if a || b then [] else check_prefixes d es) ≡ []
    → All (λ e. (a || (b || distinguished d e.1)) ≡ true) es
separated-All a b d [] h = tt
separated-All true b d (e ∷ es) h = (refl, separated-All true b d es refl)
separated-All false true d (e ∷ es) h = (refl, separated-All false true d es refl)
separated-All false false d es h = check_prefixes-nil d es h

separated_environments :
    (a d : Bool) (es : Environments) (x : List ConfigError)
    → (if a
        then []
        else if length es == 1
        then []
        else if ltb 1 (length es)
        then check_prefixes d es
        else x)
      ≡ []
    → All (λ e. (a || (length es == 1 || distinguished d e.1)) ≡ true) es
separated_environments a d [] x h = tt
separated_environments true d es x h = separated-All true (length es == 1) d es refl
separated_environments false d (e ∷ []) x h = (refl, tt)
separated_environments false d (e ∷ e' ∷ es) x h =
    separated-All false (length (e ∷ e' ∷ es) == 1) d (e ∷ e' ∷ es) (ground arith)

module _ {U : Type 0} where
  filters-Valid :
      (c : Config U)
      → validate_config_filters c ≡ []
      → All (ValidFilter c.environment) (filters_of c.filters)
  unfolding validate_config_filters
  filters-Valid c h = elim (Bool-cases (some_values (filters_of c.filters))) [
    | inl e ↦ elim (Bool-cases (nonempty c.auto_config.key)) [
      | inl f ↦ ground arith
      | inr f ↦ elim (Bool-cases (some_without_proj c.environment)) [
        | inl g ↦ ground arith
        | inr g ↦
            let q : validate_config_filters c ≡ check_filters c.environment (filters_of c.filters) =
              rw (e, f, g) refl in
            check_filters-nil c.environment (filters_of c.filters) (sym q ∙ h)
      ]
    ]
    | inr e ↦ no_filters (filters_of c.filters) e
  ]
    where
      no_filters :
          (fs : Assoc String (List String))
          → some_values fs ≡ false
          → All (ValidFilter c.environment) fs
      no_filters [] e = tt
      no_filters (f ∷ fs) e = cc

  environments-Valid :
      (c : Config U)
      → validate_config_environments c ≡ []
      → ((nonempty c.auto_config.key && some_values c.environment) ≡ false)
        × ((nonempty c.offline_mode.file_data_source
              && (nonempty c.auto_config.key || some_values c.environment))
            ≡ false)
        × (check_sdk_keys c.environment ≡ [])
  unfolding validate_config_environments
  environments-Valid c h =
      let (auto, h1) = append-eq-nil_iff.0 h in
      let (file, keys) = append-eq-nil_iff.0 h1 in
      (
        both_given (nonempty c.auto_config.key) _ _ auto_conf_with_environments auto,
        offline_given (nonempty c.offline_mode.file_data_source) _ _ _ file_data_with_auto_conf
            offline_mode_with_environments file,
        keys,
      )

  module _ (contains : String → String → Bool) where
    databases-Valid : (c : Config U) → check_databases contains c ≡ [] → length (databases c) ≤ 1
    unfolding check_databases
    databases-Valid c h = ground arith

    disambiguation-Valid :
        (c : Config U)
        → check_databases contains c ≡ []
        → All (λ e. separated c e.1 ≡ true) c.environment
    unfolding check_databases check_disambiguation separated
    disambiguation-Valid c h =
        separated_environments (length (databases c) == 0) c.dynamodb_enabled c.environment
          (error_if
            (nonempty c.auto_config.key
              && not (
                  contains c.auto_config.env_datastore_prefix placeholder
                  || (c.dynamodb_enabled
                      && contains c.auto_config.env_datastore_table_name placeholder)))
            auto_conf_without_db_disambig)
          (ground arith)

module _ {U : Type 0} ⦃key : Key U⦄ (defaults : Defaults U) (redis_url : String → ℕ → Option U)
    (contains : String → String → Bool) where
  -- A configuration that is validated without an error has at most one database; its environments have SDK
  -- keys, and where several use a database each has a prefix, or in DynamoDB a table name; its filters are
  -- of the projects of its environments and have keys; and it has only one of an autoconfiguration key, an
  -- offline file and environments.
  pub validate_config-Accepted :
      (c : Config U)
      → (validate_config defaults redis_url contains c).1 ≡ []
      → Accepted (validate_config defaults redis_url contains c).0
  unfolding validate_config validate_config_databases validate_config_default_urls
      validate_config_environments validation_result
  validate_config-Accepted c h =
      let (tls, envs, redis, db, filters) = accepted_parts defaults redis_url contains c h in
      let c' = (validate_config defaults redis_url contains c).0 in
      let (auto_config, offline, keys) = environments-Valid c' envs in
      record {
        one_database = databases-Valid contains c' db;
        sdk_keys = check_sdk_keys-nil c'.environment keys;
        separate = disambiguation-Valid contains c' db;
        filters = filters-Valid c' filters;
        auto_config = auto_config;
        offline = offline;
      }

-- ===== src/Config/Idempotence.antt =====
-- A second validation, as the constructor of the relay makes it.
use ld_relay.Base.{
  ℕ, String, ◌≡◌, refl, ◌∙◌, ap, ap₂, append-eq-nil_iff, Option, none, some, Bool, [], arith,
}
use ld_relay.Base.Assoc.{Key}
use ld_relay.Config.{Config, MainConfig, RedisConfig}
use ld_relay.Config.Validation.{
  Defaults, or_else, default_main, validate_config_default_urls, normalize_redis_config,
  validate_config_tls, validate_config_environments, validate_config_filters, check_databases,
  validate_config_databases, validate_config, validation_result,
}

module _ {U : Type 0} ⦃key : Key U⦄ (defaults : Defaults U) where
  default_main_idem :
      (m : MainConfig U) → default_main defaults (default_main defaults m) ≡ default_main defaults m
  unfolding default_main
  default_main_idem m = ground arith

  or_else_idem : (o : Option U) (a : U) → or_else (or_else o a) a ≡ or_else o a
  or_else_idem none a = refl
  or_else_idem (some b) a = refl

  validate_config_default_urls_idem :
      (c : Config U)
      → validate_config_default_urls defaults (validate_config_default_urls defaults c)
        ≡ validate_config_default_urls defaults c
  unfolding validate_config_default_urls
  validate_config_default_urls_idem c =
      ap₂ (λ m u. record c { main = m; events_uri = u }) (default_main_idem c.main)
        (or_else_idem c.events_uri defaults.events_uri)

module _ {U : Type 0} (redis_url : String → ℕ → Option U) where
  -- Normalized without an error, a Redis configuration stays as it is.
  normalize_redis_config_idem :
      (r : RedisConfig U)
      → (normalize_redis_config redis_url r).1 ≡ []
      → normalize_redis_config redis_url (normalize_redis_config redis_url r).0
        ≡ ((normalize_redis_config redis_url r).0, [])
  unfolding normalize_redis_config
  normalize_redis_config_idem r h = ground arith

module _ {U : Type 0} ⦃key : Key U⦄ (defaults : Defaults U) (redis_url : String → ℕ → Option U)
    (contains : String → String → Bool) where
  -- No part of an accepted validation has an error.
  pub accepted_parts :
      (c : Config U)
      → (validate_config defaults redis_url contains c).1 ≡ []
      → let c' = validate_config_default_urls defaults c in
        let c'' = (validate_config_databases defaults redis_url contains c').0 in
        (validate_config_tls c' ≡ [])
        × (validate_config_environments c' ≡ [])
        × ((normalize_redis_config redis_url c'.redis).1 ≡ [])
        × (check_databases contains c'' ≡ [])
        × (validate_config_filters c'' ≡ [])
  unfolding validate_config validate_config_databases validation_result
  accepted_parts c h =
      let (tls, h1) = append-eq-nil_iff.0 h in
      let (envs, h2) = append-eq-nil_iff.0 h1 in
      let (dbs, filters) = append-eq-nil_iff.0 h2 in
      let (redis, db) = append-eq-nil_iff.0 dbs in (tls, envs, redis, db, filters)

  -- A configuration that has its defaults, is normalized and passes each check is validated as it is.
  revalidate :
      (c : Config U)
      → validate_config_default_urls defaults c ≡ c
      → normalize_redis_config redis_url c.redis ≡ (c.redis, [])
      → validate_config_tls c ≡ []
      → validate_config_environments c ≡ []
      → check_databases contains c ≡ []
      → validate_config_filters c ≡ []
      → validate_config defaults redis_url contains c ≡ (c, [])
  unfolding validate_config validate_config_databases validation_result
  revalidate c urls redis tls envs db filters =
      let dbs : validate_config_databases defaults redis_url contains c ≡ (c, []) =
        rw (redis, db) refl in
      let result : validation_result defaults redis_url contains c (c, []) ≡ (c, []) =
        rw (tls, envs, filters) refl in
      ap
        (λ d.
          validation_result defaults redis_url contains d
            (validate_config_databases defaults redis_url contains d))
        urls
      ∙ (ap (validation_result defaults redis_url contains c) dbs ∙ result)

  -- A configuration that is validated without an error is left as it is, without an error, by a second
  -- validation.
  pub validate_config_idem :
      (c : Config U)
      → (validate_config defaults redis_url contains c).1 ≡ []
      → validate_config defaults redis_url contains
          (validate_config defaults redis_url contains c).0
        ≡ ((validate_config defaults redis_url contains c).0, [])
  unfolding validate_config validate_config_databases validation_result validate_config_default_urls
      validate_config_tls validate_config_environments
  validate_config_idem c h =
      let (tls, envs, redis, db, filters) = accepted_parts c h in
      let c' = (validate_config defaults redis_url contains c).0 in
      revalidate c'
        (ap (λ (d : Config U). record d { redis = c'.redis })
          (validate_config_default_urls_idem defaults c))
        (normalize_redis_config_idem redis_url c.redis redis) tls envs db filters

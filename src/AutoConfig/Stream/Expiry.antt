-- ===== src/AutoConfig/Stream/Expiry.antt =====
-- When an expiring SDK key is ignored.
use ld_relay.Base.{
  inl, inr, Bool-cases, ◌==◌, false, List, ℕ, ◌+◌, ◌^◌, ◌≤◌, ◌<◌, ◌≡◌, true, leb, arith,
}
use ld_relay.Base.Assoc.{lookup, lookup-insert_self, is_some}
use ld_relay.Credential.{is_defined, string_key}
use ld_relay.EnvFactory.{EnvironmentRep, to_params}
use ld_relay.AutoConfig.Stream.{
  ExpiredKey, StreamManager, is_stale, params_of, ignore_expiring_sdk_key,
}
use ld_relay.AutoConfig.Stream.Consume.{Decoder, Input}
use ld_relay.AutoConfig.Stream.Run.{consume_stream}
use ld_relay.AutoConfig.Stream.Timers.{consume_stream-timer}

-- For times before the year 2248, the wrapping 64-bit computation is the comparison that is meant.
pub is_stale_lem :
    (expiry now : ℕ) → expiry < 2 ^ 43 → now < 2 ^ 43 → is_stale expiry now ≡ leb expiry now
unfolding is_stale
is_stale_lem expiry now h k = ground arith

-- A key that expires between 292 and 584 years after now counts as stale: the product overflows.
pub is_stale-overflow :
    (now d : ℕ)
    → 9223372036855 ≤ d
    → d ≤ 18446744073709
    → now + d < 2 ^ 64
    → is_stale (now + d) now ≡ true
unfolding is_stale
is_stale-overflow now d h k l = ground arith

passed_on-timer :
    (now : ℕ) (rep : EnvironmentRep) (s : StreamManager)
    → is_defined rep.sdk_key.expiring.value ≡ true
    → (rep.sdk_key.expiring.timestamp == 0) ≡ false
    → (params_of now rep s).1.expiring_sdk_key ≡ rep.sdk_key.expiring.value
    → is_some (lookup rep.sdk_key.expiring.value (params_of now rep s).0.expiry_timers) ≡ true
unfolding params_of ignore_expiring_sdk_key to_params is_defined
passed_on-timer now rep s k t p =
    let key = rep.sdk_key.expiring.value in
    let timer : ExpiredKey = record { env_id = rep.env_id; proj_key = rep.proj_key; key = key } in
    elim (Bool-cases (is_some (lookup key s.expiry_timers))) [
      | inl h ↦ ground (arith, k, t, p, h)
      | inr h ↦ ground (arith, k, t, p, h, lookup-insert_self key timer s.expiry_timers)
    ]

-- Once a representation with an expiring key and its time has been passed on with the key, then after
-- whatever arrives on the stream, the key's own expiry included, every representation of an environment
-- with the expiring key is passed on with the key, at any time: also when the key has long expired.
pub expired_key_passes :
    (d : Decoder) (now later : ℕ) (first rep : EnvironmentRep) (is : List (ℕ × Input))
    (s : StreamManager)
    → is_defined first.sdk_key.expiring.value ≡ true
    → (first.sdk_key.expiring.timestamp == 0) ≡ false
    → (params_of now first s).1.expiring_sdk_key ≡ first.sdk_key.expiring.value
    → rep.sdk_key.expiring.value ≡ first.sdk_key.expiring.value
    → let s' = (consume_stream d is (params_of now first s).0).0 in
      params_of later rep s' ≡ (s', to_params rep)
unfolding params_of ignore_expiring_sdk_key
expired_key_passes d now later first rep is s k t p e =
    let kept =
      consume_stream-timer first.sdk_key.expiring.value d is (params_of now first s).0
        (passed_on-timer now first s k t p) in
    ground (arith, kept, e)

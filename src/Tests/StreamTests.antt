-- ===== src/Tests/StreamTests.antt =====
-- The streams of an environment at a concrete input.
use ld_relay.Base.{map, [], ℕ, ◌≡◌, none, some, true, false, ◌&&◌, if◌then◌else◌}
use ld_relay.Base.Assoc.{lookup, is_some}
use ld_relay.Credential.{sdk_key, new_scoped, credential_key}
use ld_relay.RelayEnv.{new_env_context, supports, server_side}
use ld_relay.RelayEnv.Lookup.{change_all}
use ld_relay.Streams.{features, ItemDescriptor, DataStore, upsert}
use ld_relay.Streams.Broadcast.{events_on, news, due, upsert-announced}
use ld_relay.Tests.RelayTests.{identifiers, config, changes}

-- A store whose updates fail.
abbrev failing : DataStore ℕ ℕ
failing = record {
  init = λ cs d. (d, false);
  upsert = λ kind k item d. (d, none);
  get_all = λ kind d. none;
  is_initialized = λ d. true;
}

abbrev flag : ItemDescriptor ℕ
flag = record { version = 3; item = some 8 }

upsert-announced_example :
    let env = change_all changes (new_env_context identifiers config) in
    let published = (upsert failing features "f" flag env.active_streams 0).2 in
    map news (events_on server_side (new_scoped "" (sdk_key "s2")) published) ≡ (
      if supports server_side (sdk_key "s2") && is_some (lookup (sdk_key "s2") env.credentials)
      then due server_side features "f" flag
      else [])
upsert-announced_example =
    upsert-announced failing identifiers config changes features "f" flag 0 server_side
      (sdk_key "s2")

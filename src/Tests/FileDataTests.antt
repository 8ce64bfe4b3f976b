-- ===== src/Tests/FileDataTests.antt =====
-- A new archive at concrete inputs.
use ld_relay.FileData.Monitor.{
  timer_signal, Look, FileInfo, new_monitor, Happening, file_event, signal_dropped, happen,
  happen_all,
}
use ld_relay.FileData.Monitor.Retries.{pending_retry_reloads, dropped_signal_ends}
use ld_relay.Base.{
  ℕ, String, ◌≡◌, refl, Option, none, some, Bool, true, false, List, [], ◌∷◌, if◌then◌else◌, arith,
}
use ld_relay.Base.Assoc.{lookup}
use ld_relay.Credential.{string_key, EnvironmentId}
use ld_relay.EnvFactory.{EnvironmentParams}
use ld_relay.FileData.{EnvironmentMetadata, ArchiveReader, Known, updated_archive}
use ld_relay.FileData.Updates.{listed, settled, updated_archive-lookup}
use ld_relay.FileData.Handler.{params_of, hear_all, updated_archive-Agrees}

abbrev params : EnvironmentId → String → EnvironmentParams
params id key = record {
  env_id = id;
  identifiers = record {
    env_key = "production";
    env_name = "Production";
    proj_key = "p";
    proj_name = "Project";
    filter_key = "";
    configured_name = "";
  };
  sdk_key = key;
  mobile_key = "m1";
  expiring_sdk_key = "";
  ttl = 0;
  secure_mode = false;
}

-- Every environment of the archive has the key `s2` and new data.
abbrev archive : ArchiveReader String
archive = record {
  environment_ids = "e1" ∷ "e2" ∷ [];
  environment_metadata =
      λ id. some (record { params = params id "s2"; version = 2; data_id = "d2" });
  environment_sdk_data = λ id. some "flags";
}

abbrev before : Known
before =
    ("e1", record { params = params "e1" "s1"; version = 1; data_id = "d1" })
    ∷ ("e3", record { params = params "e3" "s3"; version = 1; data_id = "d1" })
    ∷ []

updated_archive-lookup_example : lookup "e3" (updated_archive archive before).0 ≡ (
    if listed "e3" archive.environment_ids then settled archive "e3" (lookup "e3" before) else none)
updated_archive-lookup_example = updated_archive-lookup archive "e3" before

archive-named :
    (id : EnvironmentId) (new : EnvironmentMetadata)
    → archive.environment_metadata id ≡ some new
    → new.params.env_id ≡ id
archive-named id new e = ground arith

updated_archive-Agrees_example :
    let (known, calls) = updated_archive archive before in
    lookup "e1" (hear_all calls (("e1", params "e1" "s1") ∷ [])) ≡ params_of (lookup "e1" known)
unfolding lookup ld_relay.Base.string_discrete
updated_archive-Agrees_example =
    updated_archive-Agrees archive archive-named "e1" before (("e1", params "e1" "s1") ∷ []) refl

abbrev info : ℕ → FileInfo
info t = record { size = 1; mod_time = t }

-- The file has changed, and cannot be read.
abbrev unreadable : Happening ℕ
unreadable = file_event (record { now = 5; file_info = some (info 1); archive = none })

abbrev readable : Happening ℕ
readable = file_event (record { now = 9; file_info = some (info 2); archive = some 7 })

pending_retry_reloads_example :
    let m = happen_all 2 (unreadable ∷ []) (new_monitor (info 0)) in
    let look : Look ℕ = record { now = 9; file_info = some (info 2); archive = some 7 } in
    let m' = happen 2 (timer_signal look) m in
    (m'.reloaded ≡ 7 ∷ []) × ((m'.pending_retry ≡ false) × (m'.timers ≡ 0)) × (m.timers ≡ 1)
unfolding happen_all
pending_retry_reloads_example =
    pending_retry_reloads 2 (unreadable ∷ []) (info 0) (info 2) 9 7 refl refl

dropped_signal_ends_example :
    (happen_all 2
      (readable ∷ [])
      (happen 2 signal_dropped (happen_all 2 (unreadable ∷ []) (new_monitor (info 0))))).reloaded
    ≡ (happen_all 2 (unreadable ∷ []) (new_monitor (info 0))).reloaded
unfolding happen_all
dropped_signal_ends_example =
    dropped_signal_ends 2 (unreadable ∷ []) (readable ∷ []) (info 0) refl refl

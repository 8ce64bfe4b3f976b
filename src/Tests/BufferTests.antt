-- ===== src/Tests/BufferTests.antt =====
-- The event publisher and the big segments at concrete inputs.
use ld_relay.Base.{
  ℕ, String, ◌≡◌, refl, Option, none, some, Bool, true, false, List, [], ◌∷◌, ◌++◌, arith, length,
  if◌then◌else◌,
}
use ld_relay.Credential.{sdk_key, string_key}
use ld_relay.EventPublisher.{
  EventPayloadMetadata, Publisher, Input, event_batch, flush_now, disable_queue, replace, run,
}
use ld_relay.EventPublisher.Bounds.{Bounded, run-Bounded, Discards, run-disabled}
use ld_relay.EventPublisher.History.{history, published, run-history}
use ld_relay.BigSegments.{
  Patch, Store, Changes, no_changes, other_fault, no_response, response, apply_patches, poll,
}
use ld_relay.BigSegments.Patches.{
  Sequential, starts_from, chain, last_version, segment_changes, apply_patches-chain,
}
use ld_relay.BigSegments.Sync.{
  Synchronizer, Input as SyncInput, polling, timer, answer, connected, run as run_sync,
}
use ld_relay.BigSegments.Supervisor.{Live, run-Live}
use ld_relay.BigSegments.Losses.{failed_poll_loses_changes}

abbrev plain : EventPayloadMetadata
plain = record { schema_version = 3; tags = "" }

abbrev tagged : EventPayloadMetadata
tagged = record { schema_version = 3; tags = "a" }

abbrev publisher : Publisher String
publisher = record {
  auth_key = sdk_key "s1";
  queues = [];
  capacity = 3;
  overflowed = false;
  disabled = false;
  finished = false;
  posts = [];
}

abbrev inputs : List (Input String)
inputs =
    event_batch plain ("x" ∷ "y" ∷ [])
    ∷ event_batch tagged ("z" ∷ [])
    ∷ flush_now
    ∷ replace (sdk_key "s2")
    ∷ event_batch plain ("v" ∷ [])
    ∷ []

abbrev all_valid : List String → Bool
all_valid es = true

run-history_example :
    history plain (run all_valid inputs publisher)
    ≡ history plain publisher ++ published plain inputs
unfolding ld_relay.Base.Assoc.lookup ld_relay.EventPublisher.Metadata-discrete
    ld_relay.Base.ℕ_discrete ld_relay.Base.string_discrete
run-history_example =
    run-history all_valid (λ es. refl) plain inputs publisher refl (refl, refl, tt) (omega arith)

run-Bounded_example : Bounded (run all_valid inputs publisher)
run-Bounded_example = run-Bounded all_valid inputs publisher (tt, tt)

run-disabled_example :
    Discards all_valid publisher.posts (run all_valid (disable_queue ∷ inputs) publisher)
run-disabled_example = run-disabled all_valid inputs publisher refl

-- A store that keeps only its cursor.
abbrev cursor_store : Store (Option String)
cursor_store = record {
  get_cursor = λ c. elim c [ none ↦ some "" | some v ↦ some v ];
  apply_patch = λ p c. if starts_from c p then (some p.version, some true) else (c, some false);
  set_synchronized_on = λ now c. some c;
}

abbrev cursor_store-Sequential : Sequential cursor_store
cursor_store-Sequential = record {
  cursor = λ c. c;
  applies = λ p s h. rw h (refl, refl);
  refuses = λ p s h. rw h (refl, refl);
}

abbrev patch_to : String → String → Patch
patch_to from to = record {
  environment_id = "e1";
  segment_id = 115 ∷ 46 ∷ 103 ∷ [];
  version = to;
  previous_version = from;
  included = record { add = "u" ∷ []; remove = [] };
  excluded = record { add = []; remove = [] };
}

abbrev patches : List Patch
patches = patch_to "v1" "v2" ∷ patch_to "v2" "v3" ∷ patch_to "v4" "v5" ∷ []

apply_patches-chain_example :
    let r = apply_patches cursor_store (some patches) (some "v1") in
    (r.2 ≡ none)
    × (r.1.total_patches_count ≡ length patches)
    × (r.1.patches_applied_count ≡ length (chain (some "v1") patches))
    × (r.1.segments_updated ≡ segment_changes (chain (some "v1") patches) no_changes)
    × (r.0 ≡ last_version (some "v1") (chain (some "v1") patches))
unfolding apply_patches
apply_patches-chain_example =
    apply_patches-chain cursor_store cursor_store-Sequential patches (some "v1")

abbrev synchronizer : Synchronizer (Option String)
synchronizer = record {
  store = some "v1";
  has_synced = false;
  updates = [];
  updates_closed = false;
}

abbrev refusals : List (ℕ × SyncInput)
refusals =
    (0, answer (response 200 (some patches)))
    ∷ (1, answer (response 401 none))
    ∷ (5, timer)
    ∷ (6, answer (response 200 (some [])))
    ∷ (7, connected)
    ∷ (8, answer (response 200 (some [])))
    ∷ []

run-Live_example :
    Live cursor_store (run_sync cursor_store refusals (polling no_changes) synchronizer)
run-Live_example = run-Live cursor_store refusals (polling no_changes) synchronizer refl refl

abbrev changed : Changes
changed = record { segments = (115 ∷ [], tt) ∷ [] }

failed_poll_loses_changes_example :
    run_sync cursor_store ((0, answer no_response) ∷ (5, timer) ∷ []) (polling changed) synchronizer
    ≡ (polling no_changes, synchronizer)
unfolding poll
failed_poll_loses_changes_example =
    failed_poll_loses_changes cursor_store 0 5 no_response other_fault changed synchronizer refl

-- ===== src/Tests/StoreTests.antt =====
-- The Redis store with a client that executes the commands.
use ld_relay.Base.{
  length, flatten, All, ◌+◌, ℕ, String, ◌≡◌, refl, none, some, Bool, true, false, List, [], ◌∷◌,
}
use ld_relay.BigSegments.{Bytes, Patch}
use ld_relay.BigSegments.Patches.{starts_from}
use ld_relay.BigSegments.DynamoDb.{
  update_add, included_attr, DynamoClient, is, no_value, transaction_items, batch_loop,
}
use ld_relay.BigSegments.DynamoDb.Items.{users_of, Updates}
use ld_relay.BigSegments.DynamoDb.Batches.{chunks, run_batches, Fits, batch_loop_complete}
use ld_relay.BigSegments.Redis.{
  Command, set_text, GetReply, nil_reply, RedisClient, apply_patch, get_cursor, redis_include_key,
  redis_exclude_key,
}
use ld_relay.BigSegments.Redis.Semantics.{text_after, member_after, Documented, mutated}
use ld_relay.BigSegments.Redis.Applied.{redis_patch_applied}

record Data : Type 0 where
  texts : String → GetReply
  members : String → Bytes → Bool

abbrev executed : List Command → Data → Data
unfolding text_after member_after
executed cs d = record {
  texts = λ k. text_after k cs (d.texts k);
  members = λ k m. member_after k m cs (d.members k m);
}

abbrev client : RedisClient Data
client = record {
  watch_fails = λ ks d. false;
  get = λ k d. d.texts k;
  set = λ k v d. some (executed (set_text k v ∷ []) d);
  tx_pipelined = λ cs d. (executed cs d, some []);
}

documented : Documented client
unfolding text_after executed
documented = record {
  is_member = λ k m d. d.members k m;
  executed_text = λ cs d failures k e f g. refl;
  executed_member = λ cs d failures k m e f g. refl;
}

abbrev empty : Data
empty = record { texts = λ k. nil_reply; members = λ k m. false }

abbrev patch : Patch
patch = record {
  environment_id = "e";
  segment_id = 115 ∷ [];
  version = "v1";
  previous_version = "v0";
  included = record { add = "u1" ∷ "u2" ∷ []; remove = "u1" ∷ [] };
  excluded = record { add = []; remove = [] };
}

redis_patch_applied_example :
    (starts_from none patch ≡ true)
    × (get_cursor client "p" (apply_patch client "p" patch empty).0 ≡ some "v1")
    × (documented.is_member
          (redis_include_key "p" "u1")
          (115 ∷ [])
          (apply_patch client "p" patch empty).0
        ≡ mutated patch.included "u1" false)
    × (documented.is_member
          (redis_exclude_key "p" "u1")
          (115 ∷ [])
          (apply_patch client "p" patch empty).0
        ≡ mutated patch.excluded "u1" false)
unfolding apply_patch documented
redis_patch_applied_example = redis_patch_applied client documented "p" patch empty "u1" refl

abbrev dynamo_client : DynamoClient ℕ
dynamo_client = record {
  transact_write_items = λ items d. (d + 1, none);
  update_cursor = λ c v d. (d, true);
  update_sync_time = λ v d. (d, true);
  get_cursor_item = λ d. no_value;
  get_sync_time_item = λ d. no_value;
}

batch_loop_complete_example :
    let items = transaction_items patch in
    let batches = chunks (length items) items in
    (batch_loop dynamo_client (length items) (is "v0") 0 items 0
      ≡ run_batches dynamo_client (is "v0") batches 0)
    × (users_of update_add included_attr (flatten batches) ≡ "u1" ∷ "u2" ∷ [])
    × All (Updates (115 ∷ [])) (flatten batches)
    × All Fits batches
batch_loop_complete_example =
    batch_loop_complete dynamo_client (is "v0") patch update_add included_attr 0

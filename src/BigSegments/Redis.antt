-- ===== src/BigSegments/Redis.antt =====
-- internal/bigsegments/store_redis.go: the store as an instance of the interface. The client of go-redis
-- and `strconv` are parameters; what `Sprintf` does here is to join texts. Connecting and closing are left
-- out.
pub mod Keys
pub mod Semantics
pub mod Loops
pub mod Applied
use ld_relay.Base.{
  ℕ, String, Option, none, some, Bool, true, false, ◌||◌, List, [], ◌∷◌, ◌++◌, map, ite,
  string_discrete, if◌then◌else◌,
}
use ld_relay.BigSegments.{Bytes, Patch, Store}
use Prim.Native.String.{◌++◌ as str_append}

abbrev pub redis_lock_key : String → String
redis_lock_key prefix = str_append prefix ":big_segments_lock"

abbrev pub redis_cursor_key : String → String
redis_cursor_key prefix = str_append prefix ":big_segments_cursor"

abbrev pub redis_include_key : String → String → String
redis_include_key prefix user = str_append prefix (str_append ":big_segment_include:" user)

abbrev pub redis_exclude_key : String → String → String
redis_exclude_key prefix user = str_append prefix (str_append ":big_segment_exclude:" user)

abbrev pub redis_synchronized_key : String → String
redis_synchronized_key prefix = str_append prefix ":big_segments_synchronized_on"

-- The commands of a pipeline.
pub data Command : Type 0 where
  set_text : String → String → Command
  s_add s_rem : String → Bytes → Command

-- `nil_reply` is `redis.Nil`.
pub data GetReply : Type 0 where
  nil_reply get_error : GetReply
  text_reply : String → GetReply

-- `watch_fails` is an error of `Watch` before it calls the function; `tx_pipelined` has an error, `none`,
-- or for each command if it has failed.
pub record RedisClient (D : Type 0) : Type 0 where
  pub watch_fails : List String → D → Bool
  pub get : String → D → GetReply
  pub set : String → String → D → Option D
  pub tx_pipelined : List Command → D → D × Option (List Bool)

unfoldable pub any_failed : List Bool → Bool
any_failed [] = false
any_failed (f ∷ fs) = f || any_failed fs

-- The four loops over the users.
unfoldable pub for_each : (String → Command) → List String → List Command
for_each command [] = []
for_each command (v ∷ vs) = command v ∷ for_each command vs

unfoldable pub patch_commands : String → Patch → List Command
unfolding for_each
patch_commands prefix p =
    set_text (redis_lock_key prefix) ""
    ∷ set_text (redis_cursor_key prefix) p.version
    ∷ (for_each (λ v. s_add (redis_include_key prefix v) p.segment_id) p.included.add
        ++ (for_each (λ v. s_rem (redis_include_key prefix v) p.segment_id) p.included.remove
            ++ (for_each (λ v. s_add (redis_exclude_key prefix v) p.segment_id) p.excluded.add
                ++ for_each (λ v. s_rem (redis_exclude_key prefix v) p.segment_id)
                    p.excluded.remove)))

module _ {D : Type 0} (client : RedisClient D) (prefix : String) where
  -- An error of the pipeline itself is no error of the function.
  unfoldable pub transact : Patch → D → D × Option Bool
  unfolding patch_commands any_failed
  transact p d =
      let (d', result) = client.tx_pipelined (patch_commands prefix p) d in
      elim result [
        | none ↦ (d', some false)
        | some failures ↦ if any_failed failures then (d', none) else (d', some true)
      ]

  unfoldable pub apply_patch : Patch → D → D × Option Bool
  unfolding transact
  apply_patch p d =
      if client.watch_fails (redis_lock_key prefix ∷ []) d
      then (d, none)
      else elim (client.get (redis_cursor_key prefix) d) [
        | get_error ↦ (d, none)
        | nil_reply ↦ transact p d
        | text_reply cursor ↦
            ite (string_discrete p.previous_version cursor) (transact p d) (d, some false)
      ]

  unfoldable pub get_cursor : D → Option String
  get_cursor d = elim (client.get (redis_cursor_key prefix) d) [
    | nil_reply ↦ some ""
    | get_error ↦ none
    | text_reply cursor ↦ some cursor
  ]

  module _ (format_uint : ℕ → String) (parse_int : String → Option ℕ) where
    unfoldable pub set_synchronized_on : ℕ → D → Option D
    set_synchronized_on synchronized_on d =
        client.set (redis_synchronized_key prefix) (format_uint synchronized_on) d

    unfoldable pub get_synchronized_on : D → Option ℕ
    get_synchronized_on d = elim (client.get (redis_synchronized_key prefix) d) [
      | nil_reply ↦ some 0
      | get_error ↦ none
      | text_reply t ↦ parse_int t
    ]

    unfoldable pub redis_store : Store D
    unfolding get_cursor apply_patch set_synchronized_on
    redis_store = record {
      get_cursor = get_cursor;
      apply_patch = apply_patch;
      set_synchronized_on = set_synchronized_on;
    }

-- ===== src/BigSegments.antt =====
-- internal/bigsegments: model.go, and the patches and polls of sync.go. Segment ids are byte strings.
-- The store is a parameter: the interface of store.go.
pub mod Sync
pub mod Patches
pub mod Supervisor
pub mod Retries
pub mod Losses
pub mod Redis
pub mod DynamoDb
use ld_relay.Base.{
  ℕ, zero, suc, ◌+◌, String, Option, none, some, Bool, true, false, ◌&&◌, List, [], ◌∷◌, ite, ltb,
  leb, ◌==◌, if◌then◌else◌, length, ℕ_discrete,
}
use ld_relay.Base.Assoc.{Assoc, Key, insert, keys}
use mathlib.Core.List.{List-discrete}

abbrev pub Bytes : Type 0
Bytes = List ℕ

instance abbrev pub bytes_key : Key Bytes
bytes_key = record { dec = List-discrete ℕ_discrete }

pub record Mutations : Type 0 where
  pub add : List String
  pub remove : List String

pub record Patch : Type 0 where
  pub environment_id : String
  pub segment_id : Bytes
  pub version : String
  pub previous_version : String
  pub included : Mutations
  pub excluded : Mutations

-- `none` is an error; `apply_patch` says whether the patch was applied.
pub record Store (S : Type 0) : Type 0 where
  pub get_cursor : S → Option String
  pub apply_patch : Patch → S → S × Option Bool
  pub set_synchronized_on : ℕ → S → Option S

-- The dynamic type of an error: a pointer to a status error is not a status error.
pub data Fault : Type 0 where
  http_status http_status_pointer : ℕ → Fault
  other_fault : Fault

pub record Changes : Type 0 where
  pub segments : Assoc Bytes Unit

abbrev pub no_changes : Changes
no_changes = record { segments = [] }

pub record ApplyPatchesResult : Type 0 where
  pub total_patches_count : ℕ
  pub patches_applied_count : ℕ
  pub segments_updated : Changes

-- `strings.LastIndexByte(segmentID, '.')`
unfoldable pub last_dot : Bytes → Option ℕ
last_dot [] = none
last_dot (b ∷ bs) =
    let rest = last_dot bs in
    elim rest [ some p ↦ some (suc p) | none ↦ if b == 46 then some 0 else none ]

unfoldable pub prefix : ℕ → Bytes → Bytes
prefix zero bs = []
prefix (suc n) [] = []
prefix (suc n) (b ∷ bs) = b ∷ prefix n bs

unfoldable pub segment_id_to_segment_key : Bytes → Bytes
unfolding last_dot prefix
segment_id_to_segment_key id = elim (last_dot id) [
  | none ↦ id
  | some p ↦ if ltb 0 p then prefix p id else id
]

unfoldable pub add_segment_id : Bytes → Changes → Changes
unfolding segment_id_to_segment_key
add_segment_id id c = record { segments = insert (segment_id_to_segment_key id) tt c.segments }

unfoldable pub add_keys : List Bytes → Assoc Bytes Unit → Assoc Bytes Unit
add_keys [] m = m
add_keys (k ∷ ks) m = add_keys ks (insert k tt m)

unfoldable pub add_all : Changes → Changes → Changes
unfolding add_keys
add_all other c = record { segments = add_keys (keys other.segments) c.segments }

abbrev pub get_updated_segment_keys : Changes → List Bytes
get_updated_segment_keys c = keys c.segments

unfoldable pub is_http_error_recoverable : ℕ → Bool
is_http_error_recoverable code =
    if leb 400 code && ltb code 500
    then if code == 400
      then true
      else if code == 408
      then true
      else if code == 429
      then true
      else false
    else true

-- The answer to a poll: no response, or a status with a body, `none` if the body cannot be read or is
-- no list of patches.
pub data Reply : Type 0 where
  no_response : Reply
  response : ℕ → Option (List Patch) → Reply

-- What `poll` returns; its other results are not used with an error.
pub data PollResult : Type 0 where
  polled : Bool → Changes → PollResult
  poll_failed : Fault → PollResult

module _ {S : Type 0} (store : Store S) where
  unfoldable pub apply_loop :
      List Patch → ApplyPatchesResult → S → S × ApplyPatchesResult × Option Fault
  unfolding add_segment_id
  apply_loop [] ret s = (s, ret, none)
  apply_loop (p ∷ ps) ret s =
      let (s', success) = store.apply_patch p s in
      elim success [
        | none ↦ (s', ret, some other_fault)
        | some false ↦ (s', ret, none)
        | some true ↦
            apply_loop ps
              (record ret {
                patches_applied_count = ret.patches_applied_count + 1;
                segments_updated = add_segment_id p.segment_id ret.segments_updated;
              })
              s'
      ]

  -- `none` is a body that is no list of patches.
  unfoldable pub apply_patches : Option (List Patch) → S → S × ApplyPatchesResult × Option Fault
  unfolding apply_loop
  apply_patches none s = (
    s,
    record { total_patches_count = 0; patches_applied_count = 0; segments_updated = no_changes },
    some other_fault,
  )
  apply_patches (some patches) s =
      apply_loop patches
        (record {
          total_patches_count = length patches;
          patches_applied_count = 0;
          segments_updated = no_changes;
        })
        s

  unfoldable pub poll_body : S × ApplyPatchesResult × Option Fault → S × PollResult
  poll_body (s, ret, none) = (s, polled (ret.total_patches_count == 0) ret.segments_updated)
  poll_body (s, ret, some e) = (s, poll_failed e)

  unfoldable pub poll : Reply → S → S × PollResult
  unfolding apply_patches poll_body
  poll reply s = elim (store.get_cursor s) [
    | none ↦ (s, poll_failed other_fault)
    | some cursor ↦ elim reply [
      | no_response ↦ (s, poll_failed other_fault)
      | response status body ↦
          if status == 200
          then poll_body (apply_patches body s)
          else (s, poll_failed (http_status_pointer status))
    ]
  ]

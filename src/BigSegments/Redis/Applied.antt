-- ===== src/BigSegments/Redis/Applied.antt =====
-- What an applied patch leaves in the database, and the time of the synchronization.
use ld_relay.Base.{
  String, ◌≡◌, refl, sym, ap, ◌∙◌, Option, none, some, Bool, true, false, List, [], ◌∷◌, ite,
  if_pos, if_neg, string_discrete, if◌then◌else◌, inl, inr, Bool-cases, Option-cases, arith,
}
use ld_relay.BigSegments.{bytes_key, Patch}
use ld_relay.BigSegments.Patches.{starts_from}
use ld_relay.BigSegments.Redis.{
  Command, GetReply, nil_reply, get_error, text_reply, RedisClient, any_failed, patch_commands,
  transact, apply_patch, get_cursor, redis_lock_key, redis_cursor_key, redis_include_key,
  redis_exclude_key,
}
use ld_relay.BigSegments.Redis.Keys.{
  include-exclude, include-cursor, include-lock, exclude-cursor, exclude-lock,
  redis_include_key-inj, redis_exclude_key-inj,
}
use ld_relay.BigSegments.Redis.Semantics.{
  only_set, never_set, text_after, member_after, Documented, listed, mutated,
}
use ld_relay.BigSegments.Redis.Loops.{
  only_set-four, never_set-four, text_after-four, member_after-four, adds, rems, adds-text,
  rems-text, adds-never_set, rems-never_set, adds-only_set, rems-only_set, adds-other, rems-other,
  adds-member, rems-member,
}

module _ (prefix : String) (p : Patch) where
  abbrev inc : String → String
  inc = redis_include_key prefix

  abbrev exc : String → String
  exc = redis_exclude_key prefix

  abbrev inc_adds : List Command
  inc_adds = adds inc p.segment_id p.included.add

  abbrev inc_rems : List Command
  inc_rems = rems inc p.segment_id p.included.remove

  abbrev exc_adds : List Command
  exc_adds = adds exc p.segment_id p.excluded.add

  abbrev exc_rems : List Command
  exc_rems = rems exc p.segment_id p.excluded.remove

  patch-only_set : only_set (redis_cursor_key prefix) (patch_commands prefix p) ≡ true
  unfolding patch_commands only_set
  patch-only_set =
      let k = redis_cursor_key prefix in
      only_set-four k inc_adds inc_rems exc_adds exc_rems
        (adds-only_set inc p.segment_id k (include-cursor prefix) p.included.add)
        (rems-only_set inc p.segment_id k (include-cursor prefix) p.included.remove)
        (adds-only_set exc p.segment_id k (exclude-cursor prefix) p.excluded.add)
        (rems-only_set exc p.segment_id k (exclude-cursor prefix) p.excluded.remove)

  patch-text :
      (r : GetReply)
      → text_after (redis_cursor_key prefix) (patch_commands prefix p) r ≡ text_reply p.version
  unfolding patch_commands text_after
  patch-text r =
      let k = redis_cursor_key prefix in
      text_after-four k inc_adds inc_rems exc_adds exc_rems _
      ∙ (rems-text exc p.segment_id k p.excluded.remove _
          ∙ (adds-text exc p.segment_id k p.excluded.add _
              ∙ (rems-text inc p.segment_id k p.included.remove _
                  ∙ (adds-text inc p.segment_id k p.included.add _
                      ∙ if_pos (string_discrete k k) refl _ _))))

  patch-never_set :
      (k : String)
      → ¬ (k ≡ redis_lock_key prefix)
      → ¬ (k ≡ redis_cursor_key prefix)
      → never_set k (patch_commands prefix p) ≡ true
  unfolding patch_commands never_set
  patch-never_set k lock cursor =
      let rest =
        never_set-four k inc_adds inc_rems exc_adds exc_rems
          (adds-never_set inc p.segment_id k p.included.add)
          (rems-never_set inc p.segment_id k p.included.remove)
          (adds-never_set exc p.segment_id k p.excluded.add)
          (rems-never_set exc p.segment_id k p.excluded.remove) in
      if_neg (string_discrete (redis_lock_key prefix) k) (λ e. lock (sym e)) _ _
      ∙ (if_neg (string_discrete (redis_cursor_key prefix) k) (λ e. cursor (sym e)) _ _ ∙ rest)

  patch-included :
      (u : String) (b : Bool)
      → member_after (inc u) p.segment_id (patch_commands prefix p) b ≡ mutated p.included u b
  unfolding patch_commands member_after mutated
  patch-included u b =
      let apart : (v : String) → ¬ (exc v ≡ inc u) = λ v e. include-exclude prefix u v (sym e) in
      let inj = redis_include_key-inj prefix in
      member_after-four (inc u) p.segment_id inc_adds inc_rems exc_adds exc_rems b
      ∙ (rems-other exc p.segment_id (inc u) apart p.segment_id p.excluded.remove _
          ∙ (adds-other exc p.segment_id (inc u) apart p.segment_id p.excluded.add _
              ∙ (rems-member inc p.segment_id inj u p.included.remove _
                  ∙ ap (λ x. if listed u p.included.remove then false else x)
                      (adds-member inc p.segment_id inj u p.included.add b))))

  patch-excluded :
      (u : String) (b : Bool)
      → member_after (exc u) p.segment_id (patch_commands prefix p) b ≡ mutated p.excluded u b
  unfolding patch_commands member_after mutated
  patch-excluded u b =
      let apart : (v : String) → ¬ (inc v ≡ exc u) = λ v e. include-exclude prefix v u e in
      let inj = redis_exclude_key-inj prefix in
      member_after-four (exc u) p.segment_id inc_adds inc_rems exc_adds exc_rems b
      ∙ (rems-member exc p.segment_id inj u p.excluded.remove _
          ∙ (ap (λ x. if listed u p.excluded.remove then false else x)
              (adds-member exc p.segment_id inj u p.excluded.add _
                ∙ ap (λ x. if listed u p.excluded.add then true else x)
                    (rems-other inc p.segment_id (exc u) apart p.segment_id p.included.remove _
                      ∙ adds-other inc p.segment_id (exc u) apart p.segment_id p.included.add b))))

abbrev pub stored_cursor : GetReply → Option String
stored_cursor (text_reply v) = some v
stored_cursor _ = none

module _ {D : Type 0} (client : RedisClient D) (doc : Documented client) (prefix : String) where
  transact-applied :
      (p : Patch) (d : D)
      → (transact client prefix p d).1 ≡ some true
      → (failures : List Bool) × ((client.tx_pipelined (patch_commands prefix p) d).1
          ≡ some failures)
        × (any_failed failures ≡ false)
        × ((transact client prefix p d).0 ≡ (client.tx_pipelined (patch_commands prefix p) d).0)
  unfolding transact
  transact-applied p d h = elim (Option-cases (client.tx_pipelined (patch_commands prefix p) d).1) [
    | inl e ↦ ground arith
    | inr (failures, e) ↦ elim (Bool-cases (any_failed failures)) [
      | inl f ↦ ground arith
      | inr f ↦ (failures, e, f, rw (transact, e, f) refl)
    ]
  ]

  applied_reply :
      (w : Bool) (g : GetReply) (p : Patch) (d : D) (t : D × Option Bool)
      → let r = if w then (d, none) else elim g as (λ _. D × Option Bool) [
        | get_error ↦ (d, none)
        | nil_reply ↦ t
        | text_reply cursor ↦ ite (string_discrete p.previous_version cursor) t (d, some false)
      ] in
        r.1 ≡ some true → (starts_from (stored_cursor g) p ≡ true) × (t.1 ≡ some true) × (r.0 ≡ t.0)
  unfolding starts_from
  applied_reply true g p d t h = ground arith
  applied_reply false get_error p d t h = ground arith
  applied_reply false nil_reply p d t h = (refl, h, refl)
  applied_reply false (text_reply cursor) p d t h = ground arith

  -- Only a patch that starts from the stored cursor, or finds none, can be applied.
  apply_patch-applied :
      (p : Patch) (d : D)
      → (apply_patch client prefix p d).1 ≡ some true
      → (starts_from (stored_cursor (client.get (redis_cursor_key prefix) d)) p ≡ true)
        × ((transact client prefix p d).1 ≡ some true)
        × ((apply_patch client prefix p d).0 ≡ (transact client prefix p d).0)
  unfolding apply_patch
  apply_patch-applied p d h =
      applied_reply (client.watch_fails (redis_lock_key prefix ∷ []) d)
        (client.get (redis_cursor_key prefix) d) p d (transact client prefix p d) h

  -- A patch that is applied starts from the cursor, or there was none; the cursor is then its version, and
  -- a user is in the segment's set of included, or excluded, users as the patch says: not if it is removed,
  -- else if it is added, else as before.
  pub redis_patch_applied :
      (p : Patch) (d : D) (u : String)
      → (apply_patch client prefix p d).1 ≡ some true
      → let d' = (apply_patch client prefix p d).0 in
        (starts_from (stored_cursor (client.get (redis_cursor_key prefix) d)) p ≡ true)
        × (get_cursor client prefix d' ≡ some p.version)
        × (doc.is_member (redis_include_key prefix u) p.segment_id d'
            ≡ mutated p.included u (doc.is_member (redis_include_key prefix u) p.segment_id d))
        × (doc.is_member (redis_exclude_key prefix u) p.segment_id d'
            ≡ mutated p.excluded u (doc.is_member (redis_exclude_key prefix u) p.segment_id d))
  unfolding get_cursor
  redis_patch_applied p d u h =
      let (starts, done, moved) = apply_patch-applied p d h in
      let (failures, replied, fine, to) = transact-applied p d done in
      let cs = patch_commands prefix p in
      let cursor =
        doc.executed_text cs d failures (redis_cursor_key prefix) replied fine
          (patch-only_set prefix p)
        ∙ patch-text prefix p (client.get (redis_cursor_key prefix) d) in
      let included =
        doc.executed_member cs d failures (redis_include_key prefix u) p.segment_id replied fine (
          patch-never_set prefix p (redis_include_key prefix u) (include-lock prefix u)
            (include-cursor prefix u))
        ∙ patch-included prefix p u _ in
      let excluded =
        doc.executed_member cs d failures (redis_exclude_key prefix u) p.segment_id replied fine (
          patch-never_set prefix p (redis_exclude_key prefix u) (exclude-lock prefix u)
            (exclude-cursor prefix u))
        ∙ patch-excluded prefix p u _ in
      (
        starts,
        rw (moved, to, get_cursor, cursor) refl,
        rw (moved, to) included,
        rw (moved, to) excluded,
      )

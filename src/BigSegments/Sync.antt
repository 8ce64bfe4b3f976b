-- ===== src/BigSegments/Sync.antt =====
-- internal/bigsegments/sync.go: the synchronizer's goroutine. Each place where it waits or calls out is
-- a phase, and what comes back there is an input.
use ld_relay.Base.{ℕ, Option, none, some, Bool, true, ◌++◌, List, [], ◌∷◌, if◌then◌else◌, ltb}
use ld_relay.BigSegments.{
  Bytes, Patch, Store, Fault, http_status, http_status_pointer, other_fault, Changes, no_changes,
  add_all, get_updated_segment_keys, is_http_error_recoverable, Reply, polled, poll_failed,
  apply_patches, poll,
}

pub data Phase : Type 0 where
  polling connecting checking : Changes → Phase
  streaming waiting stopped : Phase

pub data Input : Type 0 where
  closed timer stream_end connected connect_error : Input
  subscription_error : ℕ → Input
  answer : Reply → Input
  event : Option (List Patch) → Input

pub record Synchronizer (S : Type 0) : Type 0 where
  pub store : S
  pub has_synced : Bool
  -- What went into `segmentUpdatesChan`, and whether it is closed.
  pub updates : List (List Bytes)
  pub updates_closed : Bool

-- `syncSupervisor`, when `sync` returns.
unfoldable pub supervise : Option Fault → Phase
unfolding is_http_error_recoverable
supervise (some (http_status code)) = if is_http_error_recoverable code then waiting else stopped
supervise (some (http_status_pointer code)) = waiting
supervise (some other_fault) = waiting
supervise none = waiting

module _ {S : Type 0} where
  unfoldable pub notify_segments_updated : Changes → Synchronizer S → Synchronizer S
  notify_segments_updated c s = elim (get_updated_segment_keys c) [
    | [] ↦ s
    | k ∷ ks ↦ record s { updates = s.updates ++ ((k ∷ ks) ∷ []) }
  ]

module _ {S : Type 0} (store : Store S) where
  unfoldable pub set_synced : ℕ → Synchronizer S → Option (Synchronizer S)
  set_synced now s = elim (store.set_synchronized_on now s.store) [
    | none ↦ none
    | some t ↦ some (record s { store = t; has_synced = true })
  ]

  -- The rest of a round of `sync` when a poll has returned, before the stream is connected and after.
  unfoldable pub poll_first : Reply → Changes → Synchronizer S → Phase × Synchronizer S
  unfolding supervise add_all poll
  poll_first reply c s =
      let (t, r) = poll store reply s.store in
      elim r [
        | poll_failed e ↦ (supervise (some e), record s { store = t })
        | polled done u ↦ (
          if done then connecting (add_all u c) else polling (add_all u c),
          record s { store = t },
        )
      ]

  unfoldable pub poll_again : ℕ → Reply → Changes → Synchronizer S → Phase × Synchronizer S
  unfolding supervise add_all set_synced notify_segments_updated poll
  poll_again now reply c s =
      let (t, r) = poll store reply s.store in
      elim r [
        | poll_failed e ↦ (supervise (some e), record s { store = t })
        | polled done u ↦
            if done
            then elim (set_synced now (record s { store = t })) [
              | none ↦ (supervise (some other_fault), record s { store = t })
              | some s' ↦ (streaming, notify_segments_updated (add_all u c) s')
            ]
            else (polling (add_all u c), record s { store = t })
      ]

  unfoldable pub refresh : ℕ → Synchronizer S → Phase × Synchronizer S
  unfolding set_synced supervise
  refresh now s = elim (set_synced now s) [
    | none ↦ (supervise (some other_fault), s)
    | some s' ↦ (streaming, s')
  ]

  -- An event of the stream.
  unfoldable pub consume_event : ℕ → Option (List Patch) → Synchronizer S → Phase × Synchronizer S
  unfolding notify_segments_updated supervise refresh apply_patches
  consume_event now body s =
      let (t, ret, err) = apply_patches store body s.store in
      elim err [
        | some e ↦ (supervise (some e), record s { store = t })
        | none ↦
            let s' = notify_segments_updated ret.segments_updated (record s { store = t }) in
            if ltb ret.patches_applied_count ret.total_patches_count
            then (supervise none, s')
            else refresh now s'
      ]

  unfoldable pub step : ℕ → Input → Phase → Synchronizer S → Phase × Synchronizer S
  unfolding supervise poll_first poll_again refresh consume_event
  step now closed (polling c) s = (supervise none, s)
  step now (answer reply) (polling c) s = poll_first reply c s
  step now connected (connecting c) s = (checking c, s)
  step now connect_error (connecting c) s = (supervise (some other_fault), s)
  step now (subscription_error code) (connecting c) s =
      (supervise (some (http_status_pointer code)), s)
  step now (answer reply) (checking c) s = poll_again now reply c s
  step now (event body) streaming s = consume_event now body s
  step now stream_end streaming s = (supervise none, s)
  step now timer streaming s = refresh now s
  step now closed streaming s = (supervise none, s)
  step now closed waiting s = (stopped, record s { updates_closed = true })
  step now timer waiting s = (polling no_changes, s)
  step now _ p s = (p, s)

  unfoldable pub run : List (ℕ × Input) → Phase → Synchronizer S → Phase × Synchronizer S
  unfolding step
  run [] p s = (p, s)
  run ((now, i) ∷ is) p s = let (p', s') = step now i p s in run is p' s'

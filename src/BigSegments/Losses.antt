-- ===== src/BigSegments/Losses.antt =====
-- What a failed poll loses.
use ld_relay.Base.{ℕ, ◌≡◌, some, [], ◌∷◌, arith}
use ld_relay.BigSegments.{Store, Fault, Changes, no_changes, Reply, poll_failed, poll}
use ld_relay.BigSegments.Sync.{
  polling, waiting, timer, answer, Synchronizer, supervise, poll_first, step, run,
}
use ld_relay.BigSegments.Retries.{poll-Retried}

module _ {S : Type 0} (store : Store S) where
  -- When a poll fails, the segments that the earlier polls of its round have changed in the store are
  -- lost: after the wait, the next round starts with no changed segments, and no update has been sent.
  pub failed_poll_loses_changes :
      (now now' : ℕ) (reply : Reply) (e : Fault) (c : Changes) (s : Synchronizer S)
      → (poll store reply s.store).1 ≡ poll_failed e
      → run store ((now, answer reply) ∷ (now', timer) ∷ []) (polling c) s
        ≡ (polling no_changes, record s { store = (poll store reply s.store).0 })
  unfolding run step poll_first
  failed_poll_loses_changes now now' reply e c s q = rw (q, run, step, poll_first, lost)
    where
      lost : supervise (some e) ≡ waiting
      lost = ground (arith, poll-Retried store reply s.store, q)

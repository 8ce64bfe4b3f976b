-- ===== src/BigSegments/Supervisor.antt =====
-- What keeps the synchronizer going.
use ld_relay.Base.{
  ℕ, ◌≡◌, refl, inl, inr, Option, some, Bool, true, false, ◌||◌, List, [], ◌∷◌, arith, Option-cases,
  Bool-cases, if◌then◌else◌, ltb,
}
use ld_relay.BigSegments.{
  Patch, Store, Fault, Changes, Reply, PollResult, polled, poll_failed, apply_patches, poll,
  add_all,
}
use ld_relay.BigSegments.Sync.{
  Phase, polling, connecting, checking, streaming, waiting, stopped, Input, closed, timer,
  stream_end, connected, connect_error, subscription_error, answer, event, Synchronizer, supervise,
  notify_segments_updated, set_synced, poll_first, poll_again, refresh, consume_event, step, run,
}
use ld_relay.BigSegments.Retries.{
  Retried, PollRetried, Poll-cases, apply_patches-Retried, poll-Retried,
}

module _ {S : Type 0} (store : Store S) where
  -- The goroutine goes on: it has not stopped, the channel of updates is open, and while it streams the
  -- store has been marked as synchronized.
  abbrev pub Live : Phase × Synchronizer S → Type 0
  Live (streaming, s) = (s.has_synced ≡ true) × (s.updates_closed ≡ false)
  Live (stopped, s) = true ≡ false
  Live (_, s) = s.updates_closed ≡ false

  abbrev pub is_closed : Input → Bool
  is_closed closed = true
  is_closed _ = false

  abbrev pub any_closed : List (ℕ × Input) → Bool
  any_closed [] = false
  any_closed (i ∷ is) = is_closed i.1 || any_closed is

  notify-fields :
      (c : Changes) (s : Synchronizer S)
      → ((notify_segments_updated c s).has_synced ≡ s.has_synced)
        × ((notify_segments_updated c s).updates_closed ≡ s.updates_closed)
  unfolding notify_segments_updated
  notify-fields c s = ground arith

  Live-open : (p : Phase) (s : Synchronizer S) → Live (p, s) → s.updates_closed ≡ false
  Live-open (polling c) s h = h
  Live-open (connecting c) s h = h
  Live-open (checking c) s h = h
  Live-open streaming s h = h.1
  Live-open waiting s h = h
  Live-open stopped s h = cc

  supervise-Live :
      (err : Option Fault) (s : Synchronizer S)
      → Retried err
      → s.updates_closed ≡ false
      → Live (supervise err, s)
  supervise-Live err s r h = rw r h

  refresh-Live :
      (now : ℕ) (s : Synchronizer S) → s.updates_closed ≡ false → Live (refresh store now s)
  unfolding refresh set_synced supervise
  refresh-Live now s h = elim (Option-cases (store.set_synchronized_on now s.store)) [
    | inl e ↦ rw (e, refresh, set_synced, supervise) h
    | inr (t, e) ↦ rw (e, refresh, set_synced) (refl, h)
  ]

  poll_first-Live :
      (reply : Reply) (c : Changes) (s : Synchronizer S)
      → s.updates_closed ≡ false
      → Live (poll_first store reply c s)
  unfolding poll_first
  poll_first-Live reply c s h = first (poll store reply s.store) (poll-Retried store reply s.store)
    where
      first :
          (r : S × PollResult)
          → PollRetried r.1
          → Live (elim r.1 [
            | poll_failed e ↦ (supervise (some e), record s { store = r.0 })
            | polled done u ↦ (
              if done then connecting (add_all u c) else polling (add_all u c),
              record s { store = r.0 },
            )
          ])
      first (t, poll_failed e) q = rw q h
      first (t, polled true u) q = h
      first (t, polled false u) q = h

  poll_again-Live :
      (now : ℕ) (reply : Reply) (c : Changes) (s : Synchronizer S)
      → s.updates_closed ≡ false
      → Live (poll_again store now reply c s)
  unfolding poll_again set_synced supervise
  poll_again-Live now reply c s h = elim (Poll-cases (poll store reply s.store).1) [
    | inl (e, q) ↦
        rw (q, poll_again)
          (supervise-Live (some e) _ (ground (arith, poll-Retried store reply s.store, q)) h)
    | inr (false, u, q) ↦ rw (q, poll_again) h
    | inr (true, u, q) ↦
        elim (Option-cases (store.set_synchronized_on now (poll store reply s.store).0)) [
          | inl e ↦ rw (q, poll_again, set_synced, e, supervise) h
          | inr (t, e) ↦
              rw (q, poll_again, set_synced, e)
                (let n = notify-fields (add_all u c) (record s { store = t; has_synced = true }) in
                  ground (arith, n))
        ]
  ]

  consume_event-Live :
      (now : ℕ) (body : Option (List Patch)) (s : Synchronizer S)
      → s.updates_closed ≡ false
      → Live (consume_event store now body s)
  unfolding consume_event supervise
  consume_event-Live now body s h = elim (Option-cases (apply_patches store body s.store).2) [
    | inr (e, q) ↦
        rw (q, consume_event)
          (supervise-Live (some e) _ (ground (arith, apply_patches-Retried store body s.store, q))
            h)
    | inl q ↦
        let r = apply_patches store body s.store in
        let n = notify-fields r.1.segments_updated (record s { store = r.0 }) in
        elim (Bool-cases (ltb r.1.patches_applied_count r.1.total_patches_count)) [
          | inl e ↦ rw (q, consume_event, e) (ground (arith, n))
          | inr e ↦ rw (q, consume_event, e) (refresh-Live now _ (ground (arith, n)))
        ]
  ]

  step-Live :
      (now : ℕ) (i : Input) (p : Phase) (s : Synchronizer S)
      → is_closed i ≡ false
      → Live (p, s)
      → Live (step store now i p s)
  unfolding step supervise
  step-Live now i stopped s c h = cc
  step-Live now closed p s c h = cc
  step-Live now (answer reply) (polling k) s c h = poll_first-Live reply k s h
  step-Live now (answer reply) (checking k) s c h = poll_again-Live now reply k s h
  step-Live now (event body) streaming s c h = consume_event-Live now body s h.1
  step-Live now timer streaming s c h = refresh-Live now s h.1
  step-Live now stream_end streaming s c h = h.1
  step-Live now timer (polling k) s c h = h
  step-Live now timer (connecting k) s c h = h
  step-Live now timer (checking k) s c h = h
  step-Live now timer waiting s c h = h
  step-Live now stream_end (polling k) s c h = h
  step-Live now stream_end (connecting k) s c h = h
  step-Live now stream_end (checking k) s c h = h
  step-Live now stream_end waiting s c h = h
  step-Live now connected (polling k) s c h = h
  step-Live now connected (connecting k) s c h = h
  step-Live now connected (checking k) s c h = h
  step-Live now connected waiting s c h = h
  step-Live now connected streaming s c h = h
  step-Live now connect_error (polling k) s c h = h
  step-Live now connect_error (connecting k) s c h = h
  step-Live now connect_error (checking k) s c h = h
  step-Live now connect_error waiting s c h = h
  step-Live now connect_error streaming s c h = h
  step-Live now (subscription_error n) (polling k) s c h = h
  step-Live now (subscription_error n) (connecting k) s c h = h
  step-Live now (subscription_error n) (checking k) s c h = h
  step-Live now (subscription_error n) waiting s c h = h
  step-Live now (subscription_error n) streaming s c h = h
  step-Live now (answer reply) (connecting k) s c h = h
  step-Live now (answer reply) waiting s c h = h
  step-Live now (answer reply) streaming s c h = h
  step-Live now (event body) (polling k) s c h = h
  step-Live now (event body) (connecting k) s c h = h
  step-Live now (event body) (checking k) s c h = h
  step-Live now (event body) waiting s c h = h

  -- If it goes on at the start and no input closes it, the synchronizer goes on, whatever it is answered, refusals with an
  -- unrecoverable status among them: it never stops, its channel of updates stays open, and while it
  -- reads the stream the store has been marked as synchronized.
  pub run-Live :
      (is : List (ℕ × Input)) (p : Phase) (s : Synchronizer S)
      → any_closed is ≡ false
      → Live (p, s)
      → Live (run store is p s)
  unfolding run
  run-Live [] p s c h = h
  run-Live ((now, i) ∷ is) p s c h = elim (Bool-cases (is_closed i)) [
    | inl e ↦ cc
    | inr e ↦
        run-Live is (step store now i p s).0 (step store now i p s).1 (ground arith)
          (step-Live now i p s e h)
  ]

-- ===== src/BigSegments/Retries.antt =====
-- The errors of polls and patches, as the supervisor takes them.
use ld_relay.Base.{
  ◌≡◌, refl, ◌⊎◌, inl, inr, Option, none, some, Bool, true, false, List, [], ◌∷◌, arith,
  Option-cases,
}
use ld_relay.BigSegments.{
  Patch, Store, Fault, Changes, ApplyPatchesResult, Reply, no_response, response, PollResult,
  polled, poll_failed, apply_loop, apply_patches, poll, poll_body,
}
use ld_relay.BigSegments.Sync.{waiting, supervise}

-- An error that the supervisor takes for one that may pass.
abbrev pub Retried : Option Fault → Type 0
Retried err = supervise err ≡ waiting

abbrev pub PollRetried : PollResult → Type 0
PollRetried (polled d c) = Unit
PollRetried (poll_failed e) = Retried (some e)

pub Poll-cases :
    (r : PollResult)
    → ((e : Fault) × (r ≡ poll_failed e)) ⊎ ((d : Bool) × (u : Changes) × (r ≡ polled d u))
Poll-cases (poll_failed e) = inl (e, refl)
Poll-cases (polled d u) = inr (d, u, refl)

module _ {S : Type 0} (store : Store S) where
  apply_loop-Retried :
      (ps : List Patch) (ret : ApplyPatchesResult) (s : S) → Retried (apply_loop store ps ret s).2
  unfolding apply_loop supervise
  apply_loop-Retried [] ret s = refl
  apply_loop-Retried (p ∷ ps) ret s = elim (Option-cases (store.apply_patch p s).1) [
    | inl e ↦ rw (e, apply_loop, supervise)
    | inr (false, e) ↦ rw (e, apply_loop, supervise)
    | inr (true, e) ↦ rw (e, apply_loop) (apply_loop-Retried ps _ _)
  ]

  pub apply_patches-Retried :
      (body : Option (List Patch)) (s : S) → Retried (apply_patches store body s).2
  unfolding apply_patches supervise
  apply_patches-Retried none s = refl
  apply_patches-Retried (some ps) s = apply_loop-Retried ps _ s

  poll_body-Retried :
      (r : S × ApplyPatchesResult × Option Fault) → Retried r.2 → PollRetried (poll_body store r).1
  unfolding poll_body
  poll_body-Retried (s, ret, none) h = tt
  poll_body-Retried (s, ret, some e) h = h

  pub poll-Retried : (reply : Reply) (s : S) → PollRetried (poll store reply s).1
  unfolding poll supervise
  poll-Retried no_response s = elim (Option-cases (store.get_cursor s)) [
    | inl e ↦ rw (e, poll) refl
    | inr (cursor, e) ↦ rw (e, poll) refl
  ]
  poll-Retried (response status body) s = elim (Option-cases (store.get_cursor s)) [
    | inl e ↦ rw (e, poll) refl
    | inr (cursor, e) ↦
        rw (e, poll)
          (ground
            (arith, poll_body-Retried (apply_patches store body s) (apply_patches-Retried body s)))
  ]

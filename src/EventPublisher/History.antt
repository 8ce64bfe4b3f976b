-- ===== src/EventPublisher/History.antt =====
-- The events of each kind of metadata on their way through the publisher.
use ld_relay.Base.{
  ◌+◌, ◌-◌, ◌≤◌, ◌≡◌, refl, sym, ap, ◌∙◌, none, Bool, true, false, List, [], ◌∷◌, ◌++◌, ite, ltb,
  ◌==◌, length, take, length-append, take-length, inl, inr, Bool-cases, arith,
}
use ld_relay.Base.Assoc.{lookup, lookup-insert, insert-UniqueKeys, UniqueKeys}
use ld_relay.Credential.{SdkCredential}
use mathlib.Core.List.{append_assoc, append-nil}
use ld_relay.EventPublisher.{
  EventPayloadMetadata, Metadata-discrete, metadata_key, Post, Queues, Publisher, Input,
  event_batch, flush_now, ticker, disable_queue, closer, replace, queue_of, append,
  replace_credential, flush_loop, flush, receive, step, run,
}

module _ {E : Type 0} where
  -- The events of some posts with the metadata, in the posts' order.
  abbrev pub posted : EventPayloadMetadata → List (Post E) → List E
  posted m [] = []
  posted m (p ∷ ps) = ite (Metadata-discrete p.metadata m) (p.events ++ posted m ps) (posted m ps)

  -- All that the publisher has taken with the metadata: what it has posted, then what is waiting.
  abbrev pub history : EventPayloadMetadata → Publisher E → List E
  history m p = posted m p.posts ++ queue_of m p.queues

  -- The events that some inputs publish with the metadata.
  abbrev pub published : EventPayloadMetadata → List (Input E) → List E
  published m [] = []
  published m (event_batch j es ∷ is) =
      ite (Metadata-discrete j m) (es ++ published m is) (published m is)
  published m (_ ∷ is) = published m is

  -- Does the loop only get batches, flushes and credentials?
  abbrev pub undisturbed : List (Input E) → Bool
  undisturbed [] = true
  undisturbed (disable_queue ∷ is) = false
  undisturbed (closer ∷ is) = false
  undisturbed (_ ∷ is) = undisturbed is

  published-cons :
      (m : EventPayloadMetadata) (i : Input E) (is : List (Input E))
      → undisturbed (i ∷ is) ≡ true
      → (published m (i ∷ is) ≡ published m (i ∷ []) ++ published m is)
        × (undisturbed (i ∷ []) ≡ true)
        × (undisturbed is ≡ true)
  published-cons m (event_batch j es) is d = ground (arith, d, append-nil es)
  published-cons m flush_now is d = (refl, refl, d)
  published-cons m ticker is d = (refl, refl, d)
  published-cons m (replace c) is d = (refl, refl, d)
  published-cons m disable_queue is d = cc
  published-cons m closer is d = cc

  posted-append :
      (m : EventPayloadMetadata) (ps qs : List (Post E))
      → posted m (ps ++ qs) ≡ posted m ps ++ posted m qs
  posted-append m [] qs = refl
  posted-append m (p ∷ ps) qs =
      ground (arith, posted-append m ps qs, append_assoc p.events (posted m ps) (posted m qs))

  -- A queue with room takes the whole batch, the others stay.
  queue_of-append :
      (m j : EventPayloadMetadata) (es : List E) (p : Publisher E)
      → length (queue_of m p.queues) + length (published m (event_batch j es ∷ [])) ≤ p.capacity
      → queue_of m (append j es p).queues
        ≡ ite (Metadata-discrete j m) (queue_of m p.queues ++ es) (queue_of m p.queues)
  unfolding append
  queue_of-append m j es p h =
      let q = queue_of j p.queues in
      ground (
        arith,
        h,
        append-nil es,
        take-length es,
        lookup-insert j m (q ++ take (length es) es) p.queues,
        lookup-insert j m (q ++ take (p.capacity - length q) es) p.queues,
      )

  append-UniqueKeys :
      (j : EventPayloadMetadata) (es : List E) (p : Publisher E)
      → UniqueKeys p.queues
      → UniqueKeys (append j es p).queues
        × ((append j es p).posts ≡ p.posts)
        × ((append j es p).capacity ≡ p.capacity)
        × ((append j es p).disabled ≡ p.disabled)
        × ((append j es p).finished ≡ p.finished)
  unfolding append
  append-UniqueKeys j es p u = (insert-UniqueKeys j _ p.queues u, refl, refl, refl, refl)

module _ {E : Type 0} (marshals : List E → Bool) (valid : (es : List E) → marshals es ≡ true) where
  flush_loop-none :
      (m : EventPayloadMetadata) (d : Bool) (auth : SdkCredential) (qs : Queues E)
      → lookup m qs ≡ none
      → (lookup m (flush_loop marshals d auth qs).0 ≡ none)
        × (posted m (flush_loop marshals d auth qs).1 ≡ [])
  unfolding flush_loop lookup
  flush_loop-none m d auth [] h = (refl, refl)
  flush_loop-none m d auth ((j, []) ∷ qs) h = ground (arith, h, flush_loop-none m d auth qs)
  flush_loop-none m d auth ((j, e ∷ es) ∷ qs) h =
      ground (arith, h, flush_loop-none m d auth qs, valid (e ∷ es))

  flush_loop-UniqueKeys :
      (d : Bool) (auth : SdkCredential) (qs : Queues E)
      → UniqueKeys qs
      → UniqueKeys (flush_loop marshals d auth qs).0
  unfolding flush_loop lookup
  flush_loop-UniqueKeys d auth [] u = tt
  flush_loop-UniqueKeys d auth ((j, []) ∷ qs) u =
      ground (arith, flush_loop-none j d auth qs u.0, flush_loop-UniqueKeys d auth qs u.1)
  flush_loop-UniqueKeys d auth ((j, e ∷ es) ∷ qs) u =
      ground (arith, flush_loop-none j d auth qs u.0, flush_loop-UniqueKeys d auth qs u.1)

  flush_loop-posted :
      (m : EventPayloadMetadata) (d : Bool) (auth : SdkCredential) (qs : Queues E)
      → UniqueKeys qs
      → (posted m (flush_loop marshals d auth qs).1 ≡ queue_of m qs)
        × (queue_of m (flush_loop marshals d auth qs).0 ≡ [])
  unfolding flush_loop lookup
  flush_loop-posted m d auth [] u = (refl, refl)
  flush_loop-posted m d auth ((j, []) ∷ qs) u =
      ground (arith, u.0, flush_loop-none m d auth qs, flush_loop-posted m d auth qs u.1)
  flush_loop-posted m d auth ((j, e ∷ es) ∷ qs) u = ground (
    arith,
    u.0,
    valid (e ∷ es),
    append-nil (e ∷ es),
    flush_loop-none m d auth qs,
    flush_loop-posted m d auth qs u.1,
  )

  -- A flush moves the events from the queues to the posts.
  flush-history :
      (m : EventPayloadMetadata) (p : Publisher E)
      → UniqueKeys p.queues
      → (history m (flush marshals p) ≡ history m p)
        × (length (queue_of m (flush marshals p).queues) ≤ length (queue_of m p.queues))
        × UniqueKeys (flush marshals p).queues
  unfolding flush
  flush-history m p u =
      let d = ltb 1 (length p.queues) in
      let r = flush_loop marshals d p.auth_key p.queues in
      let (a, b) = flush_loop-posted m d p.auth_key p.queues u in
      elim (Bool-cases (length p.queues == 0)) [
        | inl e ↦ rw (e, flush) (refl, omega arith, u)
        | inr e ↦
            rw (e, flush)
              (
                rw (posted-append m p.posts r.1, a, b)
                    (append-nil (posted m p.posts ++ queue_of m p.queues)),
                rw b (omega arith),
                flush_loop-UniqueKeys d p.auth_key p.queues u,
              )
      ]

  -- The loop runs, and no key of its map stands twice.
  abbrev pub Running : Publisher E → Type 0
  Running p = (p.disabled ≡ false) × (p.finished ≡ false) × UniqueKeys p.queues

  abbrev Takes : EventPayloadMetadata → List E → Publisher E → Publisher E → Type 0
  Takes m es p q =
      (history m q ≡ history m p ++ es)
      × (length (queue_of m q.queues) ≤ length (queue_of m p.queues) + length es)
      × (q.capacity ≡ p.capacity)
      × Running q

  step-history :
      (m : EventPayloadMetadata) (i : Input E) (p : Publisher E)
      → undisturbed (i ∷ []) ≡ true
      → Running p
      → length (queue_of m p.queues) + length (published m (i ∷ [])) ≤ p.capacity
      → Takes m (published m (i ∷ [])) p (step marshals i p)
  unfolding step receive replace_credential
  step-history m (event_batch j es) p d r h = ground (
    arith,
    r,
    queue_of-append m j es p h,
    append-UniqueKeys j es p r.2,
    append-nil es,
    append_assoc (posted m p.posts) (queue_of m p.queues) es,
    append-nil (posted m p.posts ++ queue_of m p.queues),
    length-append (queue_of m p.queues) es,
  )
  step-history m flush_now p d r h =
      ground (arith, r, flush-history m p, append-nil (posted m p.posts ++ queue_of m p.queues))
  step-history m ticker p d r h =
      ground (arith, r, flush-history m p, append-nil (posted m p.posts ++ queue_of m p.queues))
  step-history m disable_queue p d r h = cc
  step-history m closer p d r h = cc
  step-history m (replace c) p d r h =
      ground (arith, r, append-nil (posted m p.posts ++ queue_of m p.queues))

  -- If the loop runs, only gets batches, flushes and new credentials, every queue of events can be
  -- written as JSON, no key of the map of queues stands twice, and the capacity is at least the number
  -- of the events waiting with some metadata plus all that are published with it, then what has been
  -- posted with this metadata followed by what waits is what it was, followed by what was published, in
  -- its order: nothing is dropped, repeated, reordered or sent with other metadata, however the flushes
  -- fall.
  pub run-history :
      (m : EventPayloadMetadata) (is : List (Input E)) (p : Publisher E)
      → undisturbed is ≡ true
      → Running p
      → length (queue_of m p.queues) + length (published m is) ≤ p.capacity
      → history m (run marshals is p) ≡ history m p ++ published m is
  unfolding run
  run-history m [] p d r h = sym (append-nil (history m p))
  run-history m (i ∷ is) p d r h =
      let (a, b, c) = published-cons m i is d in
      let t =
        step-history m i p b r
          (omega (arith, h, length-append (published m (i ∷ [])) (published m is), ap length a)) in
      run-history m is (step marshals i p) c t.3 (
        omega
          (arith, h, t.1, t.2, length-append (published m (i ∷ [])) (published m is), ap length a))
      ∙ rw (t.0, a) (append_assoc (history m p) (published m (i ∷ [])) (published m is))

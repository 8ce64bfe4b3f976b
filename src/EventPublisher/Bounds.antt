-- ===== src/EventPublisher/Bounds.antt =====
-- The publisher's capacity, and what it does when it is disabled.
use ld_relay.Base.{
  ℕ, ◌≤◌, ◌≡◌, Bool, true, false, List, [], ◌∷◌, ltb, length, take, ◌==◌, All, All-append,
  length-append, length-take-le, inl, inr, Bool-cases, ◌-◌, arith,
}
use ld_relay.Base.Assoc.{lookup, insert}
use ld_relay.Credential.{SdkCredential}
use ld_relay.EventPublisher.{
  EventPayloadMetadata, metadata_key, Post, Queues, Publisher, Input, event_batch, flush_now,
  ticker, disable_queue, closer, replace, queue_of, append, replace_credential, flush_loop, flush,
  receive, step, run,
}

module _ {E : Type 0} where
  abbrev pub Fits : ℕ → Queues E → Type 0
  Fits n qs = All (λ (q : EventPayloadMetadata × List E). length q.1 ≤ n) qs

  abbrev pub PostsFit : ℕ → List (Post E) → Type 0
  PostsFit n posts = All (λ (p : Post E). length p.events ≤ n) posts

  -- No queue and no post has more events than the capacity.
  abbrev pub Bounded : Publisher E → Type 0
  Bounded p = Fits p.capacity p.queues × PostsFit p.capacity p.posts

  queue_of-Fits :
      (n : ℕ) (m : EventPayloadMetadata) (qs : Queues E) → Fits n qs → length (queue_of m qs) ≤ n
  unfolding lookup
  queue_of-Fits n m [] h = omega arith
  queue_of-Fits n m ((j, q) ∷ qs) h = ground (arith, queue_of-Fits n m qs h.1)

  insert-Fits :
      (n : ℕ) (m : EventPayloadMetadata) (q : List E) (qs : Queues E)
      → length q ≤ n
      → Fits n qs
      → Fits n (insert m q qs)
  unfolding insert
  insert-Fits n m q [] l h = (l, tt)
  insert-Fits n m q ((j, r) ∷ qs) l h = ground (arith, insert-Fits n m q qs l h.1)

  append-Bounded :
      (m : EventPayloadMetadata) (es : List E) (p : Publisher E)
      → Bounded p
      → Bounded (append m es p)
  unfolding append
  append-Bounded m es p h =
      let q = queue_of m p.queues in
      let l = queue_of-Fits p.capacity m p.queues h.0 in
      (
        insert-Fits p.capacity m _ p.queues
            (elim (Bool-cases (ltb (p.capacity - length q) (length es))) [
              | inl e ↦ rw e (
                  omega (
                    arith,
                    l,
                    length-append q (take (p.capacity - length q) es),
                    length-take-le es (p.capacity - length q),
                  ))
              | inr e ↦ rw e (
                  ground (
                    arith,
                    l,
                    e,
                    length-append q (take (length es) es),
                    length-take-le es (length es),
                  ))
            ])
            h.0,
        h.1,
      )

module _ {E : Type 0} (marshals : List E → Bool) where
  flush_loop-Bounded :
      (n : ℕ) (d : Bool) (auth : SdkCredential) (qs : Queues E)
      → Fits n qs
      → Fits n (flush_loop marshals d auth qs).0 × PostsFit n (flush_loop marshals d auth qs).1
  unfolding flush_loop
  flush_loop-Bounded n d auth [] h = (tt, tt)
  flush_loop-Bounded n d auth ((m, []) ∷ qs) h = ground (arith, flush_loop-Bounded n d auth qs h.1)
  flush_loop-Bounded n d auth ((m, e ∷ es) ∷ qs) h =
      ground (arith, flush_loop-Bounded n d auth qs h.1)

  flush-Bounded : (p : Publisher E) → Bounded p → Bounded (flush marshals p)
  unfolding flush
  flush-Bounded p h =
      let d = ltb 1 (length p.queues) in
      let r = flush_loop marshals d p.auth_key p.queues in
      let b = flush_loop-Bounded p.capacity d p.auth_key p.queues h.0 in
      elim (Bool-cases (length p.queues == 0)) [
        | inl e ↦ rw (e, flush) h
        | inr e ↦ rw (e, flush) (b.0, All-append _ p.posts r.1 h.1 b.1)
      ]

  receive-Bounded : (i : Input E) (p : Publisher E) → Bounded p → Bounded (receive marshals i p)
  unfolding receive replace_credential
  receive-Bounded (event_batch m es) p h = ground (arith, append-Bounded m es p h)
  receive-Bounded flush_now p h = ground (arith, flush-Bounded p h)
  receive-Bounded ticker p h = flush-Bounded p h
  receive-Bounded disable_queue p h = (tt, h.1)
  receive-Bounded closer p h = h
  receive-Bounded (replace c) p h = ground arith

  step-Bounded : (i : Input E) (p : Publisher E) → Bounded p → Bounded (step marshals i p)
  unfolding step replace_credential
  step-Bounded (replace c) p h = ground arith
  step-Bounded (event_batch m es) p h = ground (arith, receive-Bounded (event_batch m es) p h)
  step-Bounded flush_now p h = ground (arith, receive-Bounded flush_now p h)
  step-Bounded ticker p h = ground (arith, receive-Bounded ticker p h)
  step-Bounded disable_queue p h = ground (arith, receive-Bounded disable_queue p h)
  step-Bounded closer p h = ground (arith, receive-Bounded closer p h)

  -- Whatever the publisher receives, no queue and no post ever has more events than its capacity, if
  -- this holds at the start.
  pub run-Bounded :
      (is : List (Input E)) (p : Publisher E) → Bounded p → Bounded (run marshals is p)
  unfolding run
  run-Bounded [] p h = h
  run-Bounded (i ∷ is) p h = run-Bounded is (step marshals i p) (step-Bounded i p h)

  -- What a failure that is not recoverable leaves: no queue is kept any more, and no post is made.
  abbrev pub Discards : List (Post E) → Publisher E → Type 0
  Discards posts p = (p.disabled ≡ true) × (p.queues ≡ []) × (p.posts ≡ posts)

  step-Discards :
      (i : Input E) (posts : List (Post E)) (p : Publisher E)
      → Discards posts p
      → Discards posts (step marshals i p)
  unfolding step receive replace_credential
  step-Discards (replace c) posts p h = ground arith
  step-Discards (event_batch m es) posts p h = ground arith
  step-Discards flush_now posts p h = ground arith
  step-Discards ticker posts p h = ground arith
  step-Discards disable_queue posts p h = ground arith
  step-Discards closer posts p h = ground arith

  run-Discards :
      (is : List (Input E)) (posts : List (Post E)) (p : Publisher E)
      → Discards posts p
      → Discards posts (run marshals is p)
  unfolding run
  run-Discards [] posts p h = h
  run-Discards (i ∷ is) posts p h =
      run-Discards is posts (step marshals i p) (step-Discards i posts p h)

  -- Once a publisher that has not finished is disabled, it discards its queues and all that it receives
  -- later: its queues stay empty and it makes no post.
  pub run-disabled :
      (is : List (Input E)) (p : Publisher E)
      → p.finished ≡ false
      → Discards p.posts (run marshals (disable_queue ∷ is) p)
  unfolding run step receive
  run-disabled is p h = run-Discards is p.posts _ (ground arith)

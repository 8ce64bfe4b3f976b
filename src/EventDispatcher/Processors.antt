-- ===== src/EventDispatcher/Processors.antt =====
-- How the summarizing relay uses and shuts down its event processors.
use mathlib.Core.Path.{subst}
use ld_relay.Base.{
  ℕ, ◌+◌, ◌≤◌, ◌≡◌, refl, Option, none, some, true, List, [], ◌∷◌, ◌++◌, ite, ℕ_discrete, dec_le,
  leb, length, arith, inl, inr, Option-cases, Bool-cases,
}
use ld_relay.Base.Assoc.{lookup, insert}
use ld_relay.Credential.{SdkCredential}
use ld_relay.EventPublisher.{EventPayloadMetadata, metadata_key, same_type}
use ld_relay.EventDispatcher.Summarizing.{
  ProcessorRef, Queue, Queues, SummarizingRelay, activate, set_wrapped, sweep, processors,
  new_summarizing, enqueue, replace_credential, tick, shut_down, Step, step, run, enqueued,
  recording, replacing, ticking, shutting_down,
}

unfoldable pub count : ℕ → List ℕ → ℕ
count r [] = 0
count r (x ∷ xs) = ite (ℕ_discrete x r) 1 0 + count r xs

count-append : (r : ℕ) (xs ys : List ℕ) → count r (xs ++ ys) ≡ count r xs + count r ys
unfolding count
count-append r [] ys = omega arith
count-append r (x ∷ xs) ys = omega (arith, count-append r xs ys)

-- The processors in use.
in_use : Option Queues → List ℕ
unfolding processors
in_use none = []
in_use (some qs) = processors qs

sweep-count :
    (r : ℕ) (qs : Queues)
    → count r (processors (sweep qs).0) + count r (sweep qs).1 ≡ count r (processors qs)
unfolding sweep processors count
sweep-count r [] = refl
sweep-count r ((m, q) ∷ qs) = ground (arith, sweep-count r qs)

insert-old-count :
    (r : ℕ) (m : EventPayloadMetadata) (q q' : Queue) (qs : Queues)
    → lookup m qs ≡ some q
    → q'.event_processor ≡ q.event_processor
    → count r (processors (insert m q' qs)) ≡ count r (processors qs)
unfolding processors count insert lookup
insert-old-count r m q q' [] h k = cc
insert-old-count r m q q' ((m', x) ∷ qs) h k = ground (arith, insert-old-count r m q q' qs)

insert-new-count :
    (r : ℕ) (m : EventPayloadMetadata) (q' : Queue) (qs : Queues)
    → lookup m qs ≡ none
    → count r (processors (insert m q' qs))
      ≡ count r (processors qs) + ite (ℕ_discrete q'.event_processor r) 1 0
unfolding processors count insert lookup
insert-new-count r m q' [] h = ground arith
insert-new-count r m q' ((m', x) ∷ qs) h = ground (arith, insert-new-count r m q' qs)

-- Every queue sends with the credential.
unfoldable pub SendWith : SdkCredential → Queues → Type 0
SendWith c [] = Unit
SendWith c ((m, q) ∷ qs) = (q.event_sender ≡ c) × SendWith c qs

set_wrapped-SendWith : (c : SdkCredential) (qs : Queues) → SendWith c (set_wrapped c qs)
unfolding set_wrapped SendWith
set_wrapped-SendWith c [] = tt
set_wrapped-SendWith c ((m, q) ∷ qs) = (refl, set_wrapped-SendWith c qs)

set_wrapped-processors :
    (c : SdkCredential) (qs : Queues) → processors (set_wrapped c qs) ≡ processors qs
unfolding set_wrapped processors
set_wrapped-processors c [] = refl
set_wrapped-processors c ((m, q) ∷ qs) = ground (arith, set_wrapped-processors c qs)

sweep-SendWith : (c : SdkCredential) (qs : Queues) → SendWith c qs → SendWith c (sweep qs).0
unfolding sweep SendWith
sweep-SendWith c [] h = tt
sweep-SendWith c ((m, q) ∷ qs) (here, h) = ground (arith, sweep-SendWith c qs h)

insert-SendWith :
    (c : SdkCredential) (m : EventPayloadMetadata) (q : Queue) (qs : Queues)
    → q.event_sender ≡ c
    → SendWith c qs
    → SendWith c (insert m q qs)
unfolding insert SendWith
insert-SendWith c m q [] e h = (e, tt)
insert-SendWith c m q ((m', q') ∷ qs) e (here, h) = ground (arith, insert-SendWith c m q qs e h)

lookup-SendWith :
    (c : SdkCredential) (m : EventPayloadMetadata) (q : Queue) (qs : Queues)
    → SendWith c qs
    → lookup m qs ≡ some q
    → q.event_sender ≡ c
unfolding lookup SendWith
lookup-SendWith c m q [] h e = cc
lookup-SendWith c m q ((m', q') ∷ qs) (here, h) e = ground (arith, lookup-SendWith c m q qs h)

abbrev pub queues_of : Option Queues → Queues
queues_of none = []
queues_of (some qs) = qs

-- A processor is in use or has been closed at most once, and none from the next on is.
Single : Queues → ProcessorRef → List ProcessorRef → Type 0
Single qs next closed =
    (r : ℕ) → count r (processors qs) + count r closed + ite (dec_le next r) 1 0 ≤ 1

Valid : SdkCredential → Queues → ProcessorRef → List ProcessorRef → Type 0
Valid c qs next closed = Single qs next closed × SendWith c qs

enqueue_new-Valid :
    (m : EventPayloadMetadata) (c : SdkCredential) (qs : Queues) (next : ProcessorRef)
    (closed : List ProcessorRef)
    → lookup m qs ≡ none
    → Valid c qs next closed
    → Valid c
        (insert m (record { event_processor = next; event_sender = c; active = true }) qs)
        (next + 1)
        closed
unfolding Valid Single
enqueue_new-Valid m c qs next closed f (one, auth) =
    let q : Queue = record { event_processor = next; event_sender = c; active = true } in
    (λ r. ground (arith, one r, insert-new-count r m q qs f), insert-SendWith c m q qs refl auth)

enqueue_old-Valid :
    (m : EventPayloadMetadata) (c : SdkCredential) (q : Queue) (qs : Queues) (next : ProcessorRef)
    (closed : List ProcessorRef)
    → lookup m qs ≡ some q
    → Valid c qs next closed
    → Valid c (insert m (activate q) qs) next closed
unfolding Valid Single
enqueue_old-Valid m c q qs next closed f (one, auth) = (
  λ r. rw (insert-old-count r m q (activate q) qs f refl) (one r),
  insert-SendWith c m (activate q) qs (lookup-SendWith c m q qs auth f) auth,
)

set_wrapped-Valid :
    (c c' : SdkCredential) (qs : Queues) (next : ProcessorRef) (closed : List ProcessorRef)
    → Valid c qs next closed
    → Valid c' (set_wrapped c' qs) next closed
unfolding Valid Single
set_wrapped-Valid c c' qs next closed (one, auth) =
    (λ r. rw (set_wrapped-processors c' qs) (one r), set_wrapped-SendWith c' qs)

sweep-Valid :
    (c : SdkCredential) (qs : Queues) (next : ProcessorRef) (closed : List ProcessorRef)
    → Valid c qs next closed
    → Valid c (sweep qs).0 next (closed ++ (sweep qs).1)
unfolding Valid Single
sweep-Valid c qs next closed (one, auth) = (
  λ r. omega (arith, one r, sweep-count r qs, count-append r closed (sweep qs).1),
  sweep-SendWith c qs auth,
)

shut_down-Valid :
    (c : SdkCredential) (qs : Queues) (next : ProcessorRef) (closed : List ProcessorRef)
    → Valid c qs next closed
    → Valid c [] next (closed ++ processors qs)
unfolding Valid Single SendWith count processors
shut_down-Valid c qs next closed (one, auth) =
    (λ r. omega (arith, one r, count-append r closed (processors qs)), tt)

module _ {E : Type 0} where
  pub Inv : SummarizingRelay E → Type 0
  Inv s = Valid s.auth_key (queues_of s.queues) s.next_processor s.closed

  -- The invariant of a relay whose queues are there.
  opened :
      (s : SummarizingRelay E) (qs : Queues)
      → s.queues ≡ some qs
      → Inv s
      → Valid s.auth_key qs s.next_processor s.closed
  unfolding Inv
  opened s qs e h = subst (λ o. Valid s.auth_key (queues_of o) s.next_processor s.closed) e h

  pub enqueue-Inv :
      (m : EventPayloadMetadata) (s : SummarizingRelay E) → Inv s → Inv (enqueue m s).0
  unfolding Inv enqueue
  enqueue-Inv m s h = elim (Option-cases s.queues) [
    | inl e ↦ rw (enqueue, e) h
    | inr (qs, e) ↦ elim (Option-cases (lookup m qs)) [
      | inl f ↦
          rw (enqueue, e, f)
            (enqueue_new-Valid m s.auth_key qs s.next_processor s.closed f (opened s qs e h))
      | inr (q, f) ↦
          rw (enqueue, e, f)
            (enqueue_old-Valid m s.auth_key q qs s.next_processor s.closed f (opened s qs e h))
    ]
  ]

  pub replace_credential-Inv :
      (c : SdkCredential) (s : SummarizingRelay E) → Inv s → Inv (replace_credential c s)
  unfolding Inv replace_credential
  replace_credential-Inv c s h = elim (Bool-cases (same_type c s.auth_key)) [
    | inr f ↦ rw (replace_credential, f) h
    | inl f ↦ elim (Option-cases s.queues) [
      | inl e ↦
          rw (replace_credential, f, e)
            (set_wrapped-Valid s.auth_key c [] s.next_processor s.closed
              (subst (λ o. Valid s.auth_key (queues_of o) s.next_processor s.closed) e h))
      | inr (qs, e) ↦
          rw (replace_credential, f, e)
            (set_wrapped-Valid s.auth_key c qs s.next_processor s.closed (opened s qs e h))
    ]
  ]

  tick-Inv : (s : SummarizingRelay E) → Inv s → Inv (tick s)
  unfolding Inv tick
  tick-Inv s h = elim (Option-cases s.queues) [
    | inl e ↦ rw (tick, e) h
    | inr (qs, e) ↦ elim (Bool-cases (leb (length qs) 1)) [
      | inl f ↦ rw (tick, e, f) h
      | inr f ↦
          rw (tick, e, f) (sweep-Valid s.auth_key qs s.next_processor s.closed (opened s qs e h))
    ]
  ]

  shut_down-Inv : (s : SummarizingRelay E) → Inv s → Inv (shut_down s)
  unfolding Inv shut_down
  shut_down-Inv s h = elim (Option-cases s.queues) [
    | inl e ↦ rw (shut_down, e) h
    | inr (qs, e) ↦
        rw (shut_down, e)
          (shut_down-Valid s.auth_key qs s.next_processor s.closed (opened s qs e h))
  ]

  pub step-Inv : (x : Step E) (s : SummarizingRelay E) → Inv s → Inv (step x s)
  unfolding step Inv
  step-Inv (enqueued m) s h = enqueue-Inv m s h
  step-Inv (recording r e) s h = h
  step-Inv (replacing c) s h = replace_credential-Inv c s h
  step-Inv ticking s h = tick-Inv s h
  step-Inv shutting_down s h = shut_down-Inv s h

  run-Inv : (xs : List (Step E)) (s : SummarizingRelay E) → Inv s → Inv (run xs s)
  unfolding run
  run-Inv [] s h = h
  run-Inv (x ∷ xs) s h = run-Inv xs (step x s) (step-Inv x s h)

pub new_summarizing-Inv : (E : Type 0) (c : SdkCredential) → Inv {E = E} (new_summarizing c)
unfolding new_summarizing Inv Valid Single SendWith count processors
new_summarizing-Inv E c = (λ r. ground arith, tt)

module _ {E : Type 0} where
  pub Inv-SendWith : (s : SummarizingRelay E) → Inv s → SendWith s.auth_key (queues_of s.queues)
  unfolding Inv Valid
  Inv-SendWith s h = h.1

  -- Whatever the order of the calls: a processor that is in use has not been closed, none is closed twice,
  -- and each queue sends with the relay's credential.
  pub summarizing-Sound :
      (xs : List (Step E)) (c : SdkCredential) (r : ProcessorRef)
      → let s = run xs (new_summarizing c) in
        (count r (processors (queues_of s.queues)) + count r s.closed ≤ 1)
        × SendWith s.auth_key (queues_of s.queues)
  unfolding Inv Valid Single
  summarizing-Sound xs c r =
      let h = run-Inv xs (new_summarizing c) (new_summarizing-Inv E c) in
      (omega (arith, h.0 r), h.1)

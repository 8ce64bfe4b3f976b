-- ===== src/EventDispatcher/Credentials.antt =====
-- The credentials that the relays of an endpoint send with.
use mathlib.Core.Path.{subst}
use ld_relay.Base.{
  ℕ, String, ◌≡◌, refl, ◌∙◌, Option, none, some, Bool, true, List, [], ◌∷◌, leb, inl, inr,
  Bool-cases, Option-cases, arith,
}
use ld_relay.Credential.{SdkCredential}
use ld_relay.EventPublisher.{EventPayloadMetadata, Publisher, same_type, event_batch}
use ld_relay.EventPublisher
use ld_relay.EventDispatcher.Summarizing.{SummarizingRelay, enqueue}
use ld_relay.EventDispatcher.Summarizing as Summarizing
use ld_relay.EventDispatcher.Processors.{
  SendWith, queues_of, Inv, new_summarizing-Inv, enqueue-Inv, replace_credential-Inv, step-Inv,
  Inv-SendWith,
}
use ld_relay.EventDispatcher.{
  consume_events, PublisherEvent, flush_requested, flush_timer, send_failed, publisher_closed,
  SummarizingEvent, event_recorded, cleanup_timer, summarizing_closed, EndpointStep, requested,
  credential_replaced, published, summarized, input_of, step_of, endpoint_step, endpoint_run,
  EndpointDispatcher, EventRequest, get_verbatim_relay, get_summarizing_relay, replace_credential,
  new_endpoint_dispatcher, get_event_payload_metadata, deliver, dispatch,
  summary_events_schema_version,
}

same_type-sym : (a b : SdkCredential) → same_type a b ≡ same_type b a
unfolding same_type
same_type-sym a b = ground arith

module _ {E : Type 0} where
  abbrev pub SendsVerbatim : SdkCredential → Option (Publisher E) → Type 0
  SendsVerbatim c none = Unit
  SendsVerbatim c (some p) = p.auth_key ≡ c

  -- The credential of the relay, for queues to come, and that of each queue's sender.
  abbrev pub SendsSummaries : SdkCredential → Option (SummarizingRelay E) → Type 0
  SendsSummaries c none = Unit
  SendsSummaries c (some s) = (s.auth_key ≡ c) × SendWith c (queues_of s.queues)

  -- Both relays of an endpoint, where it has them, send with its credential.
  abbrev pub SendsAll : EndpointDispatcher E → Type 0
  SendsAll d = SendsVerbatim d.auth_key d.verbatim × SendsSummaries d.auth_key d.summarizing

  -- The summarizing relay keeps its own invariant.
  abbrev Summarizes : SdkCredential → Option (SummarizingRelay E) → Type 0
  Summarizes c none = Unit
  Summarizes c (some s) = (s.auth_key ≡ c) × Inv s

  abbrev Consistent : EndpointDispatcher E → Type 0
  Consistent d = SendsVerbatim d.auth_key d.verbatim × Summarizes d.auth_key d.summarizing

  Summarizes-SendsSummaries :
      (c : SdkCredential) (o : Option (SummarizingRelay E)) → Summarizes c o → SendsSummaries c o
  Summarizes-SendsSummaries c none h = tt
  Summarizes-SendsSummaries c (some s) (e, h) =
      (e, subst (λ k. SendWith k (queues_of s.queues)) e (Inv-SendWith s h))

  replace-SendsVerbatim :
      (c c' : SdkCredential) (o : Option (Publisher E))
      → same_type c' c ≡ true
      → SendsVerbatim c' o
      → SendsVerbatim c
          (elim o [ none ↦ none | some p ↦ some (EventPublisher.replace_credential c p) ])
  unfolding EventPublisher.replace_credential
  replace-SendsVerbatim c c' none t h = tt
  replace-SendsVerbatim c c' (some p) t h = ground (arith, same_type-sym c c')

  replace-Summarizes :
      (c c' : SdkCredential) (o : Option (SummarizingRelay E))
      → same_type c' c ≡ true
      → Summarizes c' o
      → Summarizes c (elim o [ none ↦ none | some s ↦ some (Summarizing.replace_credential c s) ])
  unfolding Summarizing.replace_credential
  replace-Summarizes c c' none t h = tt
  replace-Summarizes c c' (some s) t (e, h) =
      (ground (arith, e, t, same_type-sym c c'), replace_credential-Inv c s h)

  replace_credential-Consistent :
      (c : SdkCredential) (d : EndpointDispatcher E)
      → Consistent d
      → Consistent (replace_credential c d)
  unfolding replace_credential
  replace_credential-Consistent c d (v, s) = elim (Bool-cases (same_type d.auth_key c)) [
    | inr f ↦ rw (replace_credential, f) (v, s)
    | inl f ↦
        rw (replace_credential, f)
          (
            replace-SendsVerbatim c d.auth_key d.verbatim f v,
            replace-Summarizes c d.auth_key d.summarizing f s,
          )
  ]

  -- Only a new credential changes the publisher's.
  step-auth_key :
      (marshals : List E → Bool) (i : PublisherEvent) (p : Publisher E)
      → (EventPublisher.step marshals (input_of i) p).auth_key ≡ p.auth_key
  unfolding input_of EventPublisher.step EventPublisher.receive EventPublisher.flush
  step-auth_key marshals flush_requested p = ground arith
  step-auth_key marshals flush_timer p = ground arith
  step-auth_key marshals send_failed p = ground arith
  step-auth_key marshals publisher_closed p = ground arith

  batch-auth_key :
      (marshals : List E → Bool) (m : EventPayloadMetadata) (es : List E) (p : Publisher E)
      → (EventPublisher.step marshals (event_batch m es) p).auth_key ≡ p.auth_key
  unfolding EventPublisher.step EventPublisher.receive EventPublisher.append
  batch-auth_key marshals m es p = ground arith

  summarizing_step-auth_key :
      (i : SummarizingEvent E) (s : SummarizingRelay E)
      → (Summarizing.step (step_of i) s).auth_key ≡ s.auth_key
  unfolding step_of Summarizing.step Summarizing.record_event Summarizing.tick Summarizing.shut_down
  summarizing_step-auth_key (event_recorded r e) s = refl
  summarizing_step-auth_key cleanup_timer s = ground arith
  summarizing_step-auth_key summarizing_closed s = ground arith

  enqueue-auth_key :
      (m : EventPayloadMetadata) (s : SummarizingRelay E) → (enqueue m s).0.auth_key ≡ s.auth_key
  unfolding enqueue
  enqueue-auth_key m s = ground arith

  published-SendsVerbatim :
      (marshals : List E → Bool) (i : PublisherEvent) (c : SdkCredential) (o : Option (Publisher E))
      → SendsVerbatim c o
      → SendsVerbatim c
          (elim o [ none ↦ none | some p ↦ some (EventPublisher.step marshals (input_of i) p) ])
  published-SendsVerbatim marshals i c none h = tt
  published-SendsVerbatim marshals i c (some p) h = step-auth_key marshals i p ∙ h

  summarized-Summarizes :
      (i : SummarizingEvent E) (c : SdkCredential) (o : Option (SummarizingRelay E))
      → Summarizes c o
      → Summarizes c (elim o [ none ↦ none | some s ↦ some (Summarizing.step (step_of i) s) ])
  summarized-Summarizes i c none h = tt
  summarized-Summarizes i c (some s) (e, h) =
      (summarizing_step-auth_key i s ∙ e, step-Inv (step_of i) s h)

  verbatim_relay-auth_key :
      (d : EndpointDispatcher E)
      → SendsVerbatim d.auth_key d.verbatim
      → (get_verbatim_relay d).auth_key ≡ d.auth_key
  unfolding get_verbatim_relay
  verbatim_relay-auth_key d h = elim (Option-cases d.verbatim) [
    | inl e ↦ rw (get_verbatim_relay, e) refl
    | inr (r, e) ↦ rw (get_verbatim_relay, e) (subst (SendsVerbatim d.auth_key) e h)
  ]

  summarizing_relay-Summarizes :
      (d : EndpointDispatcher E)
      → Summarizes d.auth_key d.summarizing
      → Summarizes d.auth_key (some (get_summarizing_relay d))
  unfolding get_summarizing_relay
  summarizing_relay-Summarizes d h = elim (Option-cases d.summarizing) [
    | inl e ↦ rw (get_summarizing_relay, e) (refl, new_summarizing-Inv E d.auth_key)
    | inr (r, e) ↦ rw (get_summarizing_relay, e) (subst (Summarizes d.auth_key) e h)
  ]

module _ (atoi : String → ℕ) {B E : Type 0} (marshals : List E → Bool)
    (unmarshal : List B → Option (List E)) where
  deliver-Consistent :
      (m : EventPayloadMetadata) (events : List E) (d : EndpointDispatcher E)
      → Consistent d
      → Consistent (deliver atoi marshals unmarshal m events d).0
  unfolding deliver
  deliver-Consistent m events d (v, s) =
      elim (Bool-cases (leb summary_events_schema_version m.schema_version)) [
        | inl f ↦
            rw (deliver, f)
              (
                batch-auth_key marshals m events (get_verbatim_relay d)
                    ∙ verbatim_relay-auth_key d v,
                s,
              )
        | inr f ↦
            rw (deliver, f)
              (
                v,
                let (e, i) = summarizing_relay-Summarizes d s in
                    (
                      enqueue-auth_key m (get_summarizing_relay d) ∙ e,
                      enqueue-Inv m (get_summarizing_relay d) i,
                    ),
              )
      ]

  dispatch-Consistent :
      (req : EventRequest B) (d : EndpointDispatcher E)
      → Consistent d
      → Consistent (dispatch atoi marshals unmarshal req d).1
  unfolding dispatch
  dispatch-Consistent req d h = elim (Option-cases (consume_events req).1) [
    | inl e ↦ rw (dispatch, e) h
    | inr (body, e) ↦ elim (Option-cases (unmarshal body)) [
      | inl g ↦ rw (dispatch, e, g) h
      | inr (events, g) ↦
          rw (dispatch, e, g) (deliver-Consistent (get_event_payload_metadata atoi req) events d h)
    ]
  ]

  endpoint_step-Consistent :
      (x : EndpointStep B E) (d : EndpointDispatcher E)
      → Consistent d
      → Consistent (endpoint_step atoi marshals unmarshal x d)
  unfolding endpoint_step
  endpoint_step-Consistent (requested req) d h = dispatch-Consistent req d h
  endpoint_step-Consistent (credential_replaced c) d h = replace_credential-Consistent c d h
  endpoint_step-Consistent (published i) d (v, s) =
      (published-SendsVerbatim marshals i d.auth_key d.verbatim v, s)
  endpoint_step-Consistent (summarized i) d (v, s) =
      (v, summarized-Summarizes i d.auth_key d.summarizing s)

  endpoint_run-Consistent :
      (xs : List (EndpointStep B E)) (d : EndpointDispatcher E)
      → Consistent d
      → Consistent (endpoint_run atoi marshals unmarshal xs d)
  unfolding endpoint_run
  endpoint_run-Consistent [] d h = h
  endpoint_run-Consistent (x ∷ xs) d h =
      endpoint_run-Consistent xs (endpoint_step atoi marshals unmarshal x d)
        (endpoint_step-Consistent x d h)

  endpoint_step-same_type :
      (c : SdkCredential) (x : EndpointStep B E) (d : EndpointDispatcher E)
      → same_type c d.auth_key ≡ true
      → same_type c (endpoint_step atoi marshals unmarshal x d).auth_key ≡ true
  unfolding endpoint_step dispatch deliver replace_credential same_type
  endpoint_step-same_type c (requested req) d h = ground arith
  endpoint_step-same_type c (credential_replaced c') d h = ground arith
  endpoint_step-same_type c (published i) d h = h
  endpoint_step-same_type c (summarized i) d h = h

  endpoint_run-same_type :
      (c : SdkCredential) (xs : List (EndpointStep B E)) (d : EndpointDispatcher E)
      → same_type c d.auth_key ≡ true
      → same_type c (endpoint_run atoi marshals unmarshal xs d).auth_key ≡ true
  unfolding endpoint_run
  endpoint_run-same_type c [] d h = h
  endpoint_run-same_type c (x ∷ xs) d h =
      endpoint_run-same_type c xs (endpoint_step atoi marshals unmarshal x d)
        (endpoint_step-same_type c x d h)

  -- Whatever happens to an endpoint, in any order: its publisher, made when it is first needed, has its
  -- present credential, so has its summarizing relay, and each of that relay's queues sends with it; the
  -- credential is of the kind that the endpoint was made with.
  pub endpoint-Consistent :
      (capacity : ℕ) (c : SdkCredential) (xs : List (EndpointStep B E))
      → let d = endpoint_run atoi marshals unmarshal xs (new_endpoint_dispatcher capacity c) in
        SendsAll d × (same_type c d.auth_key ≡ true)
  unfolding same_type
  endpoint-Consistent capacity c xs =
      let new : EndpointDispatcher E = new_endpoint_dispatcher capacity c in
      let d = endpoint_run atoi marshals unmarshal xs new in
      let (v, s) = endpoint_run-Consistent xs new (tt, tt) in
      (
        (v, Summarizes-SendsSummaries d.auth_key d.summarizing s),
        endpoint_run-same_type c xs new (ground arith),
      )

-- ===== src/EventDispatcher/Summarizing.antt =====
-- internal/events/summarizing-relay.go. An event processor of the SDK is a number; the calls of its
-- `Close`, and the events that are recorded with it, are listed. A queue's delegating sender is the
-- credential that it sends with. The lock makes each method one step; the events of `enqueue` are recorded
-- after it is released, so that each is a step of its own. What `dispatchEvent` makes of an event is not
-- modelled: `E` is what it records.
use ld_relay.Base.{
  ℕ, ◌+◌, Option, none, some, Bool, true, false, List, [], ◌∷◌, ◌++◌, leb, if◌then◌else◌, length,
}
use ld_relay.Base.Assoc.{Assoc, lookup, insert}
use ld_relay.Credential.{SdkCredential}
use ld_relay.EventPublisher.{EventPayloadMetadata, metadata_key, same_type}

abbrev pub ProcessorRef : Type 0
ProcessorRef = ℕ

pub record Queue : Type 0 where
  pub event_processor : ProcessorRef
  pub event_sender : SdkCredential
  pub active : Bool

abbrev pub Queues : Type 0
Queues = Assoc EventPayloadMetadata Queue

-- `none` for the queues is the nil map of a relay that has been shut down.
pub record SummarizingRelay (E : Type 0) : Type 0 where
  pub queues : Option Queues
  pub auth_key : SdkCredential
  pub next_processor : ProcessorRef
  pub closed : List ProcessorRef
  pub recorded : List (ProcessorRef × E)

abbrev pub activate : Queue → Queue
activate q = record q { active = true }

-- The loop of `replaceCredential`.
unfoldable pub set_wrapped : SdkCredential → Queues → Queues
set_wrapped c [] = []
set_wrapped c ((m, q) ∷ qs) = (m, record q { event_sender = c }) ∷ set_wrapped c qs

-- The loop over the queues at a tick: those that stay, and the processors that are unused.
unfoldable pub sweep : Queues → Queues × List ProcessorRef
sweep [] = ([], [])
sweep ((m, q) ∷ qs) =
    let (kept, unused) = sweep qs in
    if q.active
    then ((m, record q { active = false }) ∷ kept, unused)
    else (kept, q.event_processor ∷ unused)

unfoldable pub processors : Queues → List ProcessorRef
processors [] = []
processors ((m, q) ∷ qs) = q.event_processor ∷ processors qs

module _ {E : Type 0} where
  unfoldable pub new_summarizing : SdkCredential → SummarizingRelay E
  new_summarizing c = record {
    queues = some [];
    auth_key = c;
    next_processor = 0;
    closed = [];
    recorded = [];
  }

  -- `enqueue` while it has the lock: the processor for the events, `none` after the shutdown.
  unfoldable pub enqueue :
      EventPayloadMetadata → SummarizingRelay E → SummarizingRelay E × Option ProcessorRef
  enqueue m s = elim s.queues [
    | none ↦ (s, none)
    | some qs ↦ elim (lookup m qs) [
      | some q ↦ (record s { queues = some (insert m (activate q) qs) }, some q.event_processor)
      | none ↦ (
        record s {
          queues = some (
              insert m
                (record {
                  event_processor = s.next_processor;
                  event_sender = s.auth_key;
                  active = true;
                })
                qs);
          next_processor = s.next_processor + 1;
        },
        some s.next_processor,
      )
    ]
  ]

  unfoldable pub record_event : ProcessorRef → E → SummarizingRelay E → SummarizingRelay E
  record_event r e s = record s { recorded = s.recorded ++ (r, e) ∷ [] }

  unfoldable pub replace_credential : SdkCredential → SummarizingRelay E → SummarizingRelay E
  unfolding same_type set_wrapped
  replace_credential c s =
      if same_type c s.auth_key
      then record s {
        auth_key = c;
        queues = elim s.queues [ none ↦ none | some qs ↦ some (set_wrapped c qs) ];
      }
      else s

  -- The two cases of the cleanup task: its ticker, and its end.
  unfoldable pub tick : SummarizingRelay E → SummarizingRelay E
  unfolding sweep
  tick s = elim s.queues [
    | none ↦ s
    | some qs ↦
        if leb (length qs) 1
        then s
        else let (kept, unused) = sweep qs in
          record s { queues = some kept; closed = s.closed ++ unused }
  ]

  unfoldable pub shut_down : SummarizingRelay E → SummarizingRelay E
  unfolding processors
  shut_down s = elim s.queues [
    | none ↦ s
    | some qs ↦ record s { queues = none; closed = s.closed ++ processors qs }
  ]

pub data Step (E : Type 0) : Type 0 where
  enqueued : EventPayloadMetadata → Step E
  recording : ProcessorRef → E → Step E
  replacing : SdkCredential → Step E
  ticking shutting_down : Step E

module _ {E : Type 0} where
  unfoldable pub step : Step E → SummarizingRelay E → SummarizingRelay E
  unfolding enqueue record_event replace_credential tick shut_down
  step (enqueued m) s = (enqueue m s).0
  step (recording r e) s = record_event r e s
  step (replacing c) s = replace_credential c s
  step ticking s = tick s
  step shutting_down s = shut_down s

  unfoldable pub run : List (Step E) → SummarizingRelay E → SummarizingRelay E
  unfolding step
  run [] s = s
  run (x ∷ xs) s = run xs (step x s)

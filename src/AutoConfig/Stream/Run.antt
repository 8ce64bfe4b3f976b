-- ===== src/AutoConfig/Stream/Run.antt =====
-- The loop of `consumeStream` over what arrives.
use ld_relay.Base.{ℕ, ◌≡◌, refl, some, List, [], ◌∷◌, ◌++◌, false}
use ld_relay.Base.Assoc.{lookup}
use ld_relay.Credential.{EnvironmentId}
use ld_relay.AutoConfig.Receiver.Protocol.{live, follow, follow-append}
use ld_relay.AutoConfig.Stream.{HandlerCall, StreamManager, new_stream_manager}
use ld_relay.AutoConfig.Stream.Calls.{env_actions, env_actions-append}
use ld_relay.AutoConfig.Stream.Consume.{Decoder, Input, Control, continue, restart, leave, consume}
use ld_relay.AutoConfig.Stream.Contract.{consume-Follows}

-- What the loop does after a round.
abbrev pub after :
    Control
    → StreamManager × List HandlerCall
    → List HandlerCall
    → StreamManager
    → StreamManager × List HandlerCall
after leave rest calls s' = (s', calls)
after continue rest calls s' = (rest.0, calls ++ rest.1)
after restart rest calls s' = (rest.0, calls ++ rest.1)

-- Every input comes with the time at which it is handled. The loop ends by the input that leaves it.
unfoldable pub consume_stream :
    Decoder → List (ℕ × Input) → StreamManager → StreamManager × List HandlerCall
unfolding consume
consume_stream d [] s = (s, [])
consume_stream d ((now, i) ∷ is) s =
    let (s', calls, control) = consume d now i s in
    let rest = consume_stream d is s' in after control rest calls s'

-- `s` before the round, `s'` after it.
after-Follows :
    (j : EnvironmentId) (c : Control) (rest : StreamManager × List HandlerCall)
    (calls : List HandlerCall) (s s' : StreamManager)
    → follow (some (live j s.env_receiver)) (env_actions j calls) ≡ some (live j s'.env_receiver)
    → follow (some (live j s'.env_receiver)) (env_actions j rest.1)
      ≡ some (live j rest.0.env_receiver)
    → follow (some (live j s.env_receiver)) (env_actions j (after c rest calls s').1)
      ≡ some (live j (after c rest calls s').0.env_receiver)
after-Follows j leave rest calls s s' h k = h
after-Follows j continue rest calls s s' h k =
    rw
      (
        env_actions-append j calls rest.1,
        follow-append (some (live j s.env_receiver)) (env_actions j calls) (env_actions j rest.1),
        h,
      )
      k
after-Follows j restart rest calls s s' h k =
    rw
      (
        env_actions-append j calls rest.1,
        follow-append (some (live j s.env_receiver)) (env_actions j calls) (env_actions j rest.1),
        h,
      )
      k

consume_stream-Follows :
    (d : Decoder) (j : EnvironmentId) (is : List (ℕ × Input)) (s : StreamManager)
    → follow (some (live j s.env_receiver)) (env_actions j (consume_stream d is s).1)
      ≡ some (live j (consume_stream d is s).0.env_receiver)
unfolding consume_stream
consume_stream-Follows d j [] s = unfold follow env_actions in refl
consume_stream-Follows d j ((now, i) ∷ is) s =
    let (s', calls, control) = consume d now i s in
    after-Follows j control (consume_stream d is s') calls s s' (consume-Follows d now j i s)
      (consume_stream-Follows d j is s')

-- Whatever arrives on the stream, the calls of the handler about every environment follow the
-- contract: it is added when it is not there, updated and deleted only when it is; at the end it is
-- there exactly if the receiver has it.
pub stream_contract :
    (d : Decoder) (j : EnvironmentId) (is : List (ℕ × Input))
    → follow (some false) (env_actions j (consume_stream d is new_stream_manager).1)
      ≡ some (live j (consume_stream d is new_stream_manager).0.env_receiver)
unfolding lookup
stream_contract d j is = consume_stream-Follows d j is new_stream_manager

-- ===== src/AutoConfig/Stream/Consume.antt =====
-- internal/autoconfig/stream_manager.go and stream_messages.go: one round of the loop of
-- `consumeStream`, from an event of the stream to the calls of the handler.
use ld_relay.Base.{ℕ, String, Option, none, some, List, [], ite, string_discrete}
use ld_relay.EnvFactory.{EnvironmentRep, FilterRep}
use ld_relay.AutoConfig.Stream.{
  ExpiredKey, HandlerCall, key_expired, StreamManager, Effect, call, skip, upsert_env,
  upsert_filter, delete_env, remove_filter, PutContent, handle_put,
}

pub record PutMessageData : Type 0 where
  pub path : String
  pub content : PutContent

pub record PatchMessageData : Type 0 where
  pub path : String
  pub raw : String

pub record DeleteMessageData : Type 0 where
  pub path : String
  pub version : ℕ

-- What the handler uses of encoding/json and path; `none` is a decoding error.
pub record Decoder : Type 0 where
  pub decode_put : String → Option PutMessageData
  pub decode_patch : String → Option PatchMessageData
  pub decode_delete : String → Option DeleteMessageData
  pub decode_env : String → Option EnvironmentRep
  pub decode_filter : String → Option FilterRep
  pub split : String → String × String

pub record StreamEvent : Type 0 where
  pub event : String
  pub payload : String

-- The three channels of the `select`; `closed` is the closed channel of events.
pub data Input : Type 0 where
  stream_event : StreamEvent → Input
  closed : Input
  expired : ExpiredKey → Input
  halt : Input

-- How the round ends: the loop goes on, the stream is restarted first, or the loop is left.
pub data Control : Type 0 where
  continue restart leave : Control

abbrev pub Round : Type 0
Round = StreamManager → StreamManager × List HandlerCall × Control

abbrev pub ending : Control → Effect → Round
ending c f s = let (s', calls) = f s in (s', calls, c)

abbrev pub environment_path_prefix : String
environment_path_prefix = "/environments/"

abbrev pub filter_path_prefix : String
filter_path_prefix = "/filters/"

abbrev pub restarting : Round
restarting = ending restart skip

abbrev pub ignored : Round
ignored = ending continue skip

module _ (d : Decoder) (now : ℕ) where
  open d use {decode_put, decode_patch, decode_delete, decode_env, decode_filter, split}

  unfoldable pub on_put : String → Round
  unfolding handle_put
  on_put text = elim (decode_put text) [
    | none ↦ restarting
    | some m ↦ ite (string_discrete m.path "/") (ending continue (handle_put now m.content)) ignored
  ]

  unfoldable pub on_patch_env : String → String → Round
  unfolding upsert_env
  on_patch_env id raw = elim (decode_env raw) [
    | none ↦ restarting
    | some rep ↦
        ite (string_discrete id rep.env_id) (ending continue (upsert_env now id rep)) ignored
  ]

  unfoldable pub on_patch_filter : String → String → Round
  unfolding upsert_filter
  on_patch_filter id raw = elim (decode_filter raw) [
    | none ↦ restarting
    | some rep ↦ ending continue (upsert_filter id rep)
  ]

  unfoldable pub on_patch : String → Round
  unfolding on_patch_env on_patch_filter
  on_patch text = elim (decode_patch text) [
    | none ↦ restarting
    | some m ↦
        let (prefix, id) = split m.path in
        ite (string_discrete prefix environment_path_prefix) (on_patch_env id m.raw)
          (ite (string_discrete prefix filter_path_prefix) (on_patch_filter id m.raw) ignored)
  ]

  unfoldable pub on_delete : String → Round
  unfolding delete_env remove_filter
  on_delete text = elim (decode_delete text) [
    | none ↦ restarting
    | some m ↦
        let (prefix, id) = split m.path in
        ite (string_discrete prefix environment_path_prefix)
          (ending continue (delete_env now id m.version))
          (ite (string_discrete prefix filter_path_prefix)
            (ending continue (remove_filter id m.version)) ignored)
  ]

  unfoldable pub on_event : StreamEvent → Round
  unfolding on_put on_patch on_delete
  on_event e = ite (string_discrete e.event "put") (on_put e.payload) (
      ite (string_discrete e.event "patch") (on_patch e.payload) (
        ite (string_discrete e.event "delete") (on_delete e.payload)
          (ite (string_discrete e.event "reconnect") restarting ignored)))

  unfoldable pub consume : Input → Round
  unfolding on_event
  consume (stream_event e) s = on_event e s
  consume closed s = (s, [], leave)
  consume (expired k) s = ending continue (call (key_expired k.env_id k.proj_key k.key)) s
  consume halt s = (s, [], leave)

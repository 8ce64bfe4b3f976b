-- ===== src/Pipeline.antt =====
-- The stream and the router together: internal/autoconfig in front of internal/projmanager.
pub mod Calls
pub mod Accounts
use ld_relay.Base.{ℕ, List}
use ld_relay.AutoConfig.Stream.{new_stream_manager}
use ld_relay.AutoConfig.Stream.Consume.{Decoder, Input}
use ld_relay.AutoConfig.Stream.Run.{consume_stream}
use ld_relay.ProjManager.Manager.{EnvAction}
use ld_relay.ProjManager.Router.{Router, new_router}
use ld_relay.ProjManager.Router.Handler.{handle_all}

-- What a new router does with the calls of a new stream manager.
abbrev pub receive_stream : Decoder → List (ℕ × Input) → Router × List EnvAction
receive_stream d is = handle_all (consume_stream d is new_stream_manager).1 new_router

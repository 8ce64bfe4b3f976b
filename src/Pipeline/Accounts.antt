-- ===== src/Pipeline/Accounts.antt =====
-- The environments that the relay is told to create, from the stream to the managers.
use ld_relay.Base.{ℕ, ◌+◌, ◌≡◌, List}
use ld_relay.Credential.{EnvironmentId, FilterKey}
use ld_relay.AutoConfig.Stream.{new_stream_manager}
use ld_relay.AutoConfig.Stream.Consume.{Decoder, Input}
use ld_relay.AutoConfig.Stream.Run.{consume_stream}
use ld_relay.ProjManager.Manager.Accounts.{adds, deletes}
use ld_relay.ProjManager.Router.Accounts.{managed_all, router_accounts}
use ld_relay.Pipeline.{receive_stream}
use ld_relay.Pipeline.Calls.{consume_stream-Plain}

-- Whatever arrives on the stream, in whatever order: the environments of an id with a filter key that
-- the relay has been told to create are those that it has been told to delete and those that the
-- managers of all projects manage at the end.
pub stream_accounts :
    (d : Decoder) (is : List (ℕ × Input)) (i : EnvironmentId) (k : FilterKey)
    → let (e, calls) = receive_stream d is in
      adds i k calls ≡ deletes i k calls + managed_all i k e.managers
stream_accounts d is i k =
    router_accounts i k (consume_stream d is new_stream_manager).1
      (consume_stream-Plain d is new_stream_manager)

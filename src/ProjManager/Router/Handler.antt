-- ===== src/ProjManager/Router/Handler.antt =====
-- internal/projmanager/project_router.go as the stream's message handler.
use ld_relay.Base.{List, [], ◌∷◌, ◌++◌}
use ld_relay.AutoConfig.Stream.{HandlerCall}
use ld_relay.AutoConfig.Stream
use ld_relay.ProjManager.Manager.{EnvAction}
use ld_relay.ProjManager.Router

-- One call of the handler.
unfoldable pub handle : HandlerCall → Router.Router → Router.Router × List EnvAction
unfolding Router.add_environment Router.update_environment Router.delete_environment
    Router.key_expired Router.add_filter Router.delete_filter
handle (Stream.add_environment params) e = Router.add_environment params e
handle (Stream.update_environment params) e = Router.update_environment params e
handle (Stream.delete_environment id) e =
    let (e', calls, _) = Router.delete_environment id e in (e', calls)
handle Stream.received_all_environments e = (e, Router.received_all_environments)
handle (Stream.key_expired id proj_key old_key) e = (e, Router.key_expired id proj_key old_key e)
handle (Stream.add_filter params) e = Router.add_filter params e
handle (Stream.delete_filter id) e = let (e', calls, _) = Router.delete_filter id e in (e', calls)

unfoldable pub handle_all : List HandlerCall → Router.Router → Router.Router × List EnvAction
unfolding handle
handle_all [] e = (e, [])
handle_all (c ∷ cs) e =
    let (e', calls) = handle c e in let (e'', more) = handle_all cs e' in (e'', calls ++ more)

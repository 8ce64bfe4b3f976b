-- ===== src/Tests/AutoConfigTests.antt =====
-- The autoconfiguration stream and the environment managers at concrete inputs.
use mathlib.Core.List.{Memᴰ}
use ld_relay.Base.{
  ℕ, String, ◌+◌, ◌≡◌, refl, Option, none, some, Bool, true, false, not, ◌&&◌, List, [], ◌∷◌, leb,
  arith, if◌then◌else◌,
}
use ld_relay.Base.Assoc.{lookup}
use ld_relay.Credential.{string_key}
use ld_relay.EnvFactory.{EnvironmentRep, EnvironmentParams, FilterParams, to_params}
use ld_relay.AutoConfig.Receiver.{Receiver, new_receiver}
use ld_relay.AutoConfig.Receiver.Protocol.{
  Message, msg_upsert, msg_delete, live, follow, about, receive_all, receive_all_accept,
}
use ld_relay.AutoConfig.Receiver.Versions.{Revision, view, deliver_all, deliver_all_order}
use ld_relay.AutoConfig.Stream.{ExpiredKey, StreamManager, new_stream_manager, is_stale, params_of}
use ld_relay.AutoConfig.Stream.Calls.{env_actions}
use ld_relay.AutoConfig.Stream.Consume.{
  Decoder, Input, stream_event, expired, closed, environment_path_prefix,
}
use ld_relay.AutoConfig.Stream.Run.{consume_stream, stream_contract}
use ld_relay.AutoConfig.Stream.Expiry.{is_stale_lem, is_stale-overflow, expired_key_passes}
use ld_relay.ProjManager.Manager.{new_manager, update_environment, add_filter}
use ld_relay.ProjManager.Manager.Mirror.{
  Inv, Command, add, filter, remove, execute, new_manager-Inv,
}
use ld_relay.ProjManager.Manager.Invariant.{execute-Inv}
use ld_relay.ProjManager.Manager.Accounts.{adds, deletes, managed}
use ld_relay.ProjManager.Manager.Balance.{execute_all, manager_accounts}
use ld_relay.ProjManager.Manager.Stale.{update-add_filter_stale}
use ld_relay.AutoConfig.Stream.{HandlerCall, add_environment, delete_environment}
use ld_relay.AutoConfig.Stream
use ld_relay.ProjManager.Router.{new_router}
use ld_relay.ProjManager.Router.Handler.{handle_all}
use ld_relay.ProjManager.Router.Accounts.{managed_all, router_accounts}
use ld_relay.Pipeline.{receive_stream}
use ld_relay.Pipeline.Accounts.{stream_accounts}

abbrev rep : EnvironmentRep
rep = record {
  env_id = "e1";
  env_key = "production";
  env_name = "Production";
  mob_key = "m1";
  proj_key = "p";
  proj_name = "Project";
  sdk_key = record { value = "s2"; expiring = record { value = "s1"; timestamp = 1000 } };
  default_ttl = 5;
  secure_mode = false;
  version = 1;
}

-- Every put has the one environment, and every delete is for it.
abbrev decoder : Decoder
decoder = record {
  decode_put = λ t.
      some
        (record { path = "/"; content = record { environments = ("e1", rep) ∷ []; filters = [] } });
  decode_patch = λ t. none;
  decode_delete = λ t. some (record { path = "/environments/e1"; version = 2 });
  decode_env = λ t. none;
  decode_filter = λ t. none;
  split = λ t. (environment_path_prefix, "e1");
}

abbrev stream : List (ℕ × Input)
stream =
    (500, stream_event (record { event = "put"; payload = "" }))
    ∷ (501, stream_event (record { event = "put"; payload = "" }))
    ∷ (502, stream_event (record { event = "delete"; payload = "" }))
    ∷ (503, closed)
    ∷ []

stream_contract_example :
    follow (some false) (env_actions "e1" (consume_stream decoder stream new_stream_manager).1)
    ≡ some (live "e1" (consume_stream decoder stream new_stream_manager).0.env_receiver)
stream_contract_example = stream_contract decoder "e1" stream

abbrev one_way : List (String × Revision String)
one_way = ("a", (1, some "x")) ∷ ("a", (2, none)) ∷ []

abbrev other_way : List (String × Revision String)
other_way = ("a", (2, none)) ∷ ("a", (1, some "x")) ∷ ("a", (2, none)) ∷ []

swap : (d : String × Revision String) → Memᴰ d one_way → Memᴰ d other_way
swap d (Memᴰ.head e) = Memᴰ.tail (Memᴰ.head e)
swap d (Memᴰ.tail (Memᴰ.head e)) = Memᴰ.head e
swap d (Memᴰ.tail (Memᴰ.tail m)) = elim m [ ]

swap_back : (d : String × Revision String) → Memᴰ d other_way → Memᴰ d one_way
swap_back d (Memᴰ.head e) = Memᴰ.tail (Memᴰ.head e)
swap_back d (Memᴰ.tail (Memᴰ.head e)) = Memᴰ.head e
swap_back d (Memᴰ.tail (Memᴰ.tail (Memᴰ.head e))) = Memᴰ.tail (Memᴰ.head e)
swap_back d (Memᴰ.tail (Memᴰ.tail (Memᴰ.tail m))) = elim m [ ]

consistent :
    (j : String) (m w : Revision String)
    → Memᴰ (j, m) one_way
    → Memᴰ (j, w) one_way
    → m.0 ≡ w.0
    → m ≡ w
consistent j m w (Memᴰ.head a) (Memᴰ.head b) e = grind arith
consistent j m w (Memᴰ.head a) (Memᴰ.tail (Memᴰ.head b)) e = grind arith
consistent j m w (Memᴰ.tail (Memᴰ.head a)) (Memᴰ.head b) e = grind arith
consistent j m w (Memᴰ.tail (Memᴰ.head a)) (Memᴰ.tail (Memᴰ.head b)) e = grind arith
consistent j m w (Memᴰ.tail (Memᴰ.tail a)) b e = elim a [ ]
consistent j m w a (Memᴰ.tail (Memᴰ.tail b)) e = elim b [ ]

deliver_all_order_example :
    view "a" (deliver_all one_way new_receiver) ≡ view "a" (deliver_all other_way new_receiver)
deliver_all_order_example = deliver_all_order one_way other_way consistent swap swap_back "a"

abbrev seen : Receiver String
seen = record {
  seen =
      ("a", record { item = some "x"; version = 1; entombed = false })
      ∷ ("b", record { item = none; version = 2; entombed = true })
      ∷ [];
}

abbrev messages : List (Message String)
messages = msg_upsert "a" "y" 2 ∷ msg_delete "a" 3 ∷ msg_upsert "b" "z" 3 ∷ []

receive_all_accept_example :
    follow (some (live "a" seen)) (about "a" (receive_all messages seen).1)
    ≡ some (live "a" (receive_all messages seen).0)
receive_all_accept_example = receive_all_accept "a" messages seen

abbrev nothing : String → Bool
nothing id = false

is_stale_lem_example : is_stale 1000 1001 ≡ leb 1000 1001
is_stale_lem_example = is_stale_lem 1000 1001 (omega arith) (omega arith)

is_stale-overflow_example : is_stale (1700000000000 + 9300000000000) 1700000000000 ≡ true
is_stale-overflow_example =
    is_stale-overflow 1700000000000 9300000000000 (omega arith) (omega arith) (omega arith)

abbrev old_key : ExpiredKey
old_key = record { env_id = "e1"; proj_key = "p"; key = "s1" }

expired_key_passes_example :
    let s = (params_of 0 rep new_stream_manager).0 in
    let s' = (consume_stream decoder ((1000, expired old_key) ∷ []) s).0 in
    params_of 2000 rep s' ≡ (s', to_params rep)
unfolding lookup ld_relay.Base.string_discrete params_of is_stale to_params
    ld_relay.Credential.is_defined
expired_key_passes_example =
    expired_key_passes decoder 0 2000 rep rep ((1000, expired old_key) ∷ []) new_stream_manager refl
      refl refl refl

abbrev params : EnvironmentParams
params = record {
  env_id = "e1";
  identifiers = record {
    env_key = "production";
    env_name = "Production";
    proj_key = "p";
    proj_name = "Project";
    filter_key = "";
    configured_name = "";
  };
  sdk_key = "s1";
  mobile_key = "m1";
  expiring_sdk_key = "";
  ttl = 5;
  secure_mode = false;
}

abbrev filter_x : FilterParams
filter_x = record { proj_key = "p"; id = "f1"; key = "x" }

abbrev commands : List Command
commands = add params ∷ filter filter_x ∷ remove "e1" ∷ []

manager_accounts_example :
    let (m, calls) = execute_all commands (new_manager "p") in
    adds "e1" "x" calls ≡ deletes "e1" "x" calls + managed "e1" "x" m
manager_accounts_example = manager_accounts "p" "e1" "x" commands (refl, (tt, (tt, tt)))

execute-Inv_example : Inv (execute (add params) (new_manager "p")).0
execute-Inv_example = execute-Inv (add params) (new_manager "p") (new_manager-Inv "p")

update-add_filter_stale_example :
    add_filter filter_x (update_environment params (new_manager "p")).0
    ≡ add_filter filter_x (new_manager "p")
update-add_filter_stale_example = update-add_filter_stale params filter_x (new_manager "p")

stream_accounts_example :
    let (e, calls) = receive_stream decoder stream in
    adds "e1" "" calls ≡ deletes "e1" "" calls + managed_all "e1" "" e.managers
stream_accounts_example = stream_accounts decoder stream "e1" ""

abbrev handler_calls : List HandlerCall
handler_calls = add_environment params ∷ Stream.add_filter filter_x ∷ delete_environment "e1" ∷ []

router_accounts_example :
    let (e, calls) = handle_all handler_calls new_router in
    adds "e1" "x" calls ≡ deletes "e1" "x" calls + managed_all "e1" "x" e.managers
router_accounts_example = router_accounts "e1" "x" handler_calls (refl, (tt, (tt, tt)))

-- ===== src/Server/Tests.antt =====
-- Concrete packets and tasks of src/server_full.cpp.
use hc_tcp_im_server.Common.{
  ℕ, ◌≡◌, refl, Bool, true, false, ◌⊎◌, length, Option, none, some, List, [], ◌∷◌, String,
}
use hc_tcp_im_server.Common.Dict.{Dict}
use hc_tcp_im_server.Protocol.{Command, login_req, p2p_msg_req, p2p_msg_resp}
use hc_tcp_im_server.Protocol.Messages.{LoginReq, P2pMsgReq}
use hc_tcp_im_server.Serializer.Overloads.{Message}
use hc_tcp_im_server.Serializer.Tests.{trees_lib}
use hc_tcp_im_server.Codec.Tests.{little}
use hc_tcp_im_server.Store.{MessageStore}
use hc_tcp_im_server.Store
use hc_tcp_im_server.Breaker
use hc_tcp_im_server.Breaker.{CircuitBreaker, opened, closed}
use hc_tcp_im_server.Heartbeat
use hc_tcp_im_server.Heartbeat.{Conn}
use hc_tcp_im_server.Auth
use hc_tcp_im_server.Messaging.Store.{in_memory}
use hc_tcp_im_server.Routing.Tests.{keys}
use hc_tcp_im_server.Overload
use hc_tcp_im_server.Overload.{can_accept_connection, has_room}
use hc_tcp_im_server.Overload.Tests.{whole}
use hc_tcp_im_server.Server.{Env, Server, login_task}
use hc_tcp_im_server.Server.Packets.{on_packet}
use hc_tcp_im_server.Server.Tasks.{run_next, run_task, run_login, logged_in}
use hc_tcp_im_server.Server.Replies.{IsAnswer}
use hc_tcp_im_server.Server.Drain.{run_turns, request-IsAnswer}
use hc_tcp_im_server.Server.Access.{IsGuarded, on_packet-IsGuarded}

abbrev ann : Conn
ann = record { fd = 7; object = 1 }

abbrev ann_login : LoginReq
ann_login = record { user_id = "ann"; token = "valid_token_ann"; device_id = "pc" }

abbrev hello : P2pMsgReq
hello = record { from_user_id = "eve"; to_user_id = "bob"; client_msg_id = "c1"; content = "hello" }

-- Stands for the generated classes: every payload of a login or a message reads as these two.
abbrev parsed : (c : Command) → List ℕ → Option (Message c)
parsed login_req payload = some ann_login
parsed p2p_msg_req payload = some hello
parsed _ payload = none

abbrev env : Env
env = record {
  Messages = MessageStore;
  message_store = in_memory;
  Routes = Dict String String;
  redis = keys;
  double = whole;
  net = little;
  json = trees_lib;
  to_text = λ payload. trees_lib.empty_object_text;
  to_bytes = λ t. [];
  is_json = false;
  have_protobuf = true;
  compatible_json = true;
  parse_from_string = parsed;
  serialize_to_string = λ c m. some (1 ∷ 2 ∷ []);
  store_error = "failed";
}

abbrev start : Server env
start = record {
  node_id = "node-a";
  cluster_enabled = true;
  breaker = Breaker.new true 5 1000;
  pool = record { running = true; max_queue_size = 0; task_queue = [] };
  auth = Auth.new;
  messaging = record {
    message_store = some Store.new;
    has_session_repository = false;
    user_to_conn = [];
    ack_timeout_ms = 15000;
    retry_backoff_ms = 3000;
    max_retry_count = 5;
    retry_batch_size = 200;
  };
  heartbeat = Heartbeat.new 30;
  overload = Overload.new whole 10 100 0;
  routing = record { redis_client = none; route_ttl_seconds = 30; local_routes = [] };
}

abbrev up : Conn → Bool
up c = true

-- Ann has logged in.
abbrev ann_in : Server env
ann_in = (run_task env up start (login_task ann 1 ann_login) "s1" 100).0

ann_in-running : ann_in.pool.running ≡ true
unfolding run_task run_login logged_in Auth.login Auth.validate_token
ann_in-running = refl

request-IsAnswer_example :
    let r = on_packet env ann_in ann 5 77 [] 200 in
    IsAnswer env ann p2p_msg_resp 77 r.1
    ⊎ IsAnswer env ann p2p_msg_resp 77
        (run_next env up (run_turns env up r.0 (length ann_in.pool.task_queue) "" 300) "" 300).1
request-IsAnswer_example =
    request-IsAnswer env up ann_in ann 77 [] 200 5 p2p_msg_resp "" 300 ann_in-running refl

on_packet-IsGuarded_example :
    IsGuarded env ann_in ann 5 77 [] (on_packet env ann_in ann 5 77 [] 200)
on_packet-IsGuarded_example = on_packet-IsGuarded env ann_in ann 5 77 [] 200

abbrev tripped : Server env
tripped = record start {
  breaker = record {
    enabled = true;
    failure_threshold = 5;
    half_open_after_ms = 1000;
    state = opened;
    consecutive_failures = 5;
    opened_at_ms = 100;
  };
}

-- No connection is allowed at all.
abbrev full : Server env
full = record start { overload = Overload.new whole 0 100 0 }

full_refuses : (can_accept_connection whole full.overload "10.0.0.1" 5).1 ≡ false
unfolding can_accept_connection Overload.new has_room
full_refuses = refl

full_current : full.overload.current_connections ≡ 0
unfolding Overload.new
full_current = refl

full_max : full.overload.max_connections ≡ 0
unfolding Overload.new
full_max = refl

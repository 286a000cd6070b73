-- ===== src/Server.antt =====
-- src/server_full.cpp: the services behind one codec. A packet is handled on the loop thread and may
-- queue a task, which a worker of the thread pool runs later (Packets, Tasks); the connection callback
-- is in Connections. Each handler and each task is one step that reads the clock as `now`. Sends and
-- calls that leave the program are effects in order. Metrics, traces and the log are left out.
pub mod Payload
pub mod Packets
pub mod Tasks
pub mod Connections
pub mod Replies
pub mod Answers
pub mod Debts
pub mod Access
pub mod Gates
pub mod Drain
mod Tests
use hc_tcp_im_server.Common.{
  ℕ, Bool, true, false, not, ◌&&◌, Option, none, some, List, [], ◌∷◌, ◌++◌, String, ltb, leb, ◌==◌,
  length, if◌then◌else◌,
}
use hc_tcp_im_server.Buffer.{Buffer}
use hc_tcp_im_server.Buffer
use hc_tcp_im_server.ByteOrder.{Inet}
use hc_tcp_im_server.Protocol.{
  PacketHeader, default_header, Command, code, guess_flags_from_command,
}
use hc_tcp_im_server.Protocol.Messages.{
  P2pMsgReq, MessageAckReq, PullOfflineReq, BroadcastMsgReq, LoginReq,
}
use hc_tcp_im_server.Codec.{pack}
use hc_tcp_im_server.Serializer.{JsonLib}
use hc_tcp_im_server.Serializer.Overloads.{Message}
use hc_tcp_im_server.Breaker.{CircuitBreaker, allow_request, record_success, record_failure}
use hc_tcp_im_server.Heartbeat.{HeartbeatService, Conn}
use hc_tcp_im_server.Heartbeat
use hc_tcp_im_server.Auth.{AuthService}
use hc_tcp_im_server.Auth
use hc_tcp_im_server.Messaging.{MessageService}
use hc_tcp_im_server.Messaging
use hc_tcp_im_server.Messaging.Store.{IMessageStore}
use hc_tcp_im_server.Routing.{RouteStore, RoutingService}
use hc_tcp_im_server.Overload.{Double, OverloadProtectService}

-- What the server is built with and configured to. A payload is bytes, and JSON text is the same bytes.
pub record Env : Type 1 where
  pub Messages : Type 0
  pub message_store : IMessageStore Messages
  pub Routes : Type 0
  pub redis : RouteStore Routes
  pub double : Double
  pub net : Inet
  pub json : JsonLib
  pub to_text : List ℕ → json.Bytes
  pub to_bytes : json.Bytes → List ℕ
  -- `payloadFormat == PayloadFormat::Json`, HAVE_PROTOBUF and `compatibleJson`
  pub is_json : Bool
  pub have_protobuf : Bool
  pub compatible_json : Bool
  -- `ParseFromString` and `SerializeToString` of the generated classes, with their fields.
  pub parse_from_string : (c : Command) → List ℕ → Option (Message c)
  pub serialize_to_string : (c : Command) → Message c → Option (List ℕ)
  -- The text that a failing call of the store gives.
  pub store_error : String

-- What `submitBusinessTask` gets, with what the lambdas capture.
pub data Task : Type 0 where
  login_task : Conn → ℕ → LoginReq → Task
  p2p_task : Conn → ℕ → P2pMsgReq → String → Task
  ack_task : Conn → ℕ → MessageAckReq → String → Task
  pull_task : Conn → ℕ → PullOfflineReq → String → Task
  broadcast_task : String → BroadcastMsgReq → Task
  logout_task : Conn → Task

pub data Effect : Type 0 where
  reply : Conn → Buffer → Effect
  message : Messaging.Effect → Effect
  health : Heartbeat.Effect → Effect
  session : Auth.Effect → Effect
  force_close : Conn → Effect

-- `ThreadPool`: the queue, whose limit 0 means none.
pub record ThreadPool : Type 0 where
  pub running : Bool
  pub max_queue_size : ℕ
  pub task_queue : List Task

-- `submit`: none is the exception. A pool that does not run drops the task.
unfoldable pub submit : ThreadPool → Task → Option ThreadPool
submit p t =
    if not p.running
    then some p
    else if ltb 0 p.max_queue_size && leb p.max_queue_size (length p.task_queue)
    then none
    else some (record p { task_queue = p.task_queue ++ (t ∷ []) })

-- The task names that `submitBusinessTask` lets through an open breaker.
unfoldable pub is_exempt : Task → Bool
is_exempt (login_task c rid m) = true
is_exempt (ack_task c rid m user) = true
is_exempt _ = false

module _ (e : Env) where
  pub record Server : Type 0 where
    pub node_id : String
    pub cluster_enabled : Bool
    pub breaker : CircuitBreaker
    pub pool : ThreadPool
    pub auth : AuthService
    pub messaging : MessageService e.Messages
    pub heartbeat : HeartbeatService
    pub overload : OverloadProtectService e.double
    pub routing : RoutingService e.Routes

  -- `submitBusinessTask`
  unfoldable pub submit_business_task : Server → Task → ℕ → Server × Bool
  submit_business_task s t now =
      let q = allow_request s.breaker now in
      if not q.0 && not (is_exempt t)
      then (record s { breaker = q.1 }, false)
      else elim (submit s.pool t) [
        | none ↦ (record s { breaker = record_failure q.1 now }, false)
        | some p ↦ (record s { breaker = record_success q.1; pool = p }, true)
      ]

  -- The header of `sendPacket`.
  unfoldable pub packet_header :
      Command → ℕ → (flags client_seq server_seq error_code : ℕ) → PacketHeader
  packet_header command rid flags client_seq server_seq error_code = record default_header {
    command = code command;
    flags = if flags == 0 then guess_flags_from_command (code command) else flags;
    request_id = rid;
    client_seq = client_seq;
    server_seq = server_seq;
    error_code = error_code;
  }

  -- `sendPacket`
  unfoldable pub send_packet :
      Conn → Command → ℕ → List ℕ → (flags client_seq server_seq error_code : ℕ) → Effect
  send_packet c command rid payload flags client_seq server_seq error_code = reply c (
      pack e.net Buffer.new (packet_header command rid flags client_seq server_seq error_code)
        payload)

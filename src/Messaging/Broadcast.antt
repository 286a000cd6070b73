-- ===== src/Messaging/Broadcast.antt =====
-- src/service/messageService.cpp: `broadcastMessage`.
use hc_tcp_im_server.Common.{ℕ, Bool, List, [], ◌∷◌, String, if◌then◌else◌}
use hc_tcp_im_server.Common.Dict.{Dict, text_key}
use hc_tcp_im_server.Buffer.{Buffer}
use hc_tcp_im_server.Buffer
use hc_tcp_im_server.ByteOrder.{Inet}
use hc_tcp_im_server.Protocol.{PacketHeader, default_header, code, broadcast_msg_notify, flag_none}
use hc_tcp_im_server.Protocol.Messages.{BroadcastMsgNotify}
use hc_tcp_im_server.Codec.{pack}
use hc_tcp_im_server.Heartbeat.{Conn}
use hc_tcp_im_server.Messaging.{MessageService, Effect, send}

-- `broadcastMessage` to the connections that are up, with the bytes of the notification.
unfoldable pub broadcast_loop : Inet → (Conn → Bool) → List ℕ → ℕ → Dict String Conn → List Effect
broadcast_loop net connected notify_msg now [] = []
broadcast_loop net connected notify_msg now ((user, c) ∷ d) =
    let rest = broadcast_loop net connected notify_msg now d in
    let header : PacketHeader = record default_header {
      command = code broadcast_msg_notify;
      flags = flag_none;
      request_id = 0;
      client_seq = now;
    } in
    if connected c then send c (pack net Buffer.new header notify_msg) ∷ rest else rest

unfoldable pub broadcast_message :
    {S : Type 0}
    → Inet
    → (Conn → Bool)
    → (BroadcastMsgNotify → List ℕ)
    → MessageService S
    → String
    → String
    → ℕ
    → List Effect
broadcast_message net connected encode s from_user content now =
    broadcast_loop net connected
      (encode (record { from_user_id = from_user; content = content; timestamp = now })) now
      s.user_to_conn

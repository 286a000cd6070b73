-- ===== src/Server/Replies.antt =====
-- The packets that src/server_full.cpp answers a request with.
use hc_tcp_im_server.Common.{
  ℕ, ◌≡◌, inl, inr, refl, ap, ◌∙◌, Option, none, some, List, [], ◌∷◌, ◌++◌, String, ◌==◌, map,
  if◌then◌else◌, Option-cases,
}
use hc_tcp_im_server.Protocol.{
  Command, code, login_req, login_resp, heartbeat_req, heartbeat_resp, p2p_msg_req, p2p_msg_resp,
  broadcast_msg_req, kick_user_req, kick_user_resp, message_ack_req, message_ack_resp,
  pull_offline_req, pull_offline_resp,
}
use hc_tcp_im_server.Heartbeat.{Conn, on_heartbeat, on_authenticated}
use hc_tcp_im_server.Heartbeat
use hc_tcp_im_server.Auth
use hc_tcp_im_server.Auth.{get_user_context, login}
use hc_tcp_im_server.Messaging
use hc_tcp_im_server.Messaging.{register_connection, send_reliable_p2p_message, process_ack}
use hc_tcp_im_server.Server.{
  Env, Task, login_task, p2p_task, ack_task, pull_task, broadcast_task, logout_task, Effect, reply,
  message, health, session, force_close, send_packet,
}
use hc_tcp_im_server.Server.Payload.{decode_kick_req}
use hc_tcp_im_server.Server.Packets.{refuse_login, refuse_p2p, refuse_ack, refuse_pull, on_kick}

-- The packets that `sendPacket` sends, which do not include the notifications of the services.
abbrev pub replies : List Effect → List Effect
replies [] = []
replies (reply c b ∷ es) = reply c b ∷ replies es
replies (message x ∷ es) = replies es
replies (health x ∷ es) = replies es
replies (session x ∷ es) = replies es
replies (force_close c ∷ es) = replies es

pub replies-messages :
    (xs : List Messaging.Effect) (es : List Effect) → replies (map message xs ++ es) ≡ replies es
replies-messages [] es = refl
replies-messages (x ∷ xs) es = replies-messages xs es

pub replies-healths :
    (xs : List Heartbeat.Effect) (es : List Effect) → replies (map health xs ++ es) ≡ replies es
replies-healths [] es = refl
replies-healths (x ∷ xs) es = replies-healths xs es

pub replies-map_health : (xs : List Heartbeat.Effect) → replies (map health xs) ≡ []
replies-map_health [] = refl
replies-map_health (x ∷ xs) = replies-map_health xs

pub replies-sessions :
    (xs : List Auth.Effect) (es : List Effect) → replies (map session xs ++ es) ≡ replies es
replies-sessions [] es = refl
replies-sessions (x ∷ xs) es = replies-sessions xs es

-- The command of the response to a command.
abbrev pub response_of : ℕ → Option Command
response_of n =
    if n == code login_req
    then some login_resp
    else if n == code heartbeat_req
    then some heartbeat_resp
    else if n == code p2p_msg_req
    then some p2p_msg_resp
    else if n == code message_ack_req
    then some message_ack_resp
    else if n == code pull_offline_req
    then some pull_offline_resp
    else if n == code broadcast_msg_req
    then none
    else if n == code kick_user_req
    then some kick_user_resp
    else none

-- The connection, the command and the request id of the response that a task owes.
abbrev pub owed : Task → Option (Conn × Command × ℕ)
owed (login_task c rid m) = some (c, login_resp, rid)
owed (p2p_task c rid m user) = some (c, p2p_msg_resp, rid)
owed (ack_task c rid m user) = some (c, message_ack_resp, rid)
owed (pull_task c rid m user) = some (c, pull_offline_resp, rid)
owed (broadcast_task user m) = none
owed (logout_task c) = none

module _ (e : Env) where
  -- The effects send one packet of this command and request id to this connection.
  pub record IsAnswer (c : Conn) (command : Command) (rid : ℕ) (es : List Effect) : Type 0 where
    pub payload : List ℕ
    pub flags : ℕ
    pub client_seq : ℕ
    pub server_seq : ℕ
    pub error_code : ℕ
    pub one_reply :
        replies es ≡ send_packet e c command rid payload flags client_seq server_seq error_code ∷ []

  pub reply-IsAnswer :
      {c : Conn} {command : Command} {rid : ℕ} (rest : List Effect) (payload : List ℕ)
      (flags client_seq server_seq error : ℕ)
      → replies rest ≡ []
      → IsAnswer c command rid
          (send_packet e c command rid payload flags client_seq server_seq error ∷ rest)
  unfolding send_packet
  reply-IsAnswer {c} {command} {rid} rest payload flags client_seq server_seq error q = record {
    payload = payload;
    flags = flags;
    client_seq = client_seq;
    server_seq = server_seq;
    error_code = error;
    one_reply =
        ap
          (λ (r : List Effect).
            send_packet e c command rid payload flags client_seq server_seq error ∷ r)
          q;
  }

  -- Effects in front that are no replies do not matter.
  pub behind-IsAnswer :
      {c : Conn} {command : Command} {rid : ℕ} (before es : List Effect)
      → ((r : List Effect) → replies (before ++ r) ≡ replies r)
      → IsAnswer c command rid es
      → IsAnswer c command rid (before ++ es)
  behind-IsAnswer before es quiet a = record {
    payload = a.payload;
    flags = a.flags;
    client_seq = a.client_seq;
    server_seq = a.server_seq;
    error_code = a.error_code;
    one_reply = quiet es ∙ a.one_reply;
  }

  pub messages-IsAnswer :
      {c : Conn} {command : Command} {rid : ℕ} (xs : List Messaging.Effect) {es : List Effect}
      → IsAnswer c command rid es
      → IsAnswer c command rid (map message xs ++ es)
  messages-IsAnswer xs {es} = behind-IsAnswer (map message xs) es (replies-messages xs)

  pub healths-IsAnswer :
      {c : Conn} {command : Command} {rid : ℕ} (xs : List Heartbeat.Effect) {es : List Effect}
      → IsAnswer c command rid es
      → IsAnswer c command rid (map health xs ++ es)
  healths-IsAnswer xs {es} = behind-IsAnswer (map health xs) es (replies-healths xs)

  pub sessions-IsAnswer :
      {c : Conn} {command : Command} {rid : ℕ} (xs : List Auth.Effect) {es : List Effect}
      → IsAnswer c command rid es
      → IsAnswer c command rid (map session xs ++ es)
  sessions-IsAnswer xs {es} = behind-IsAnswer (map session xs) es (replies-sessions xs)

  -- What a response that is owed means for effects.
  abbrev pub IsPaid : Option (Conn × Command × ℕ) → List Effect → Type 0
  IsPaid none es = Unit
  IsPaid (some q) es = IsAnswer q.0 q.1 q.2 es

  pub login-IsAnswer :
      (c : Conn) (rid : ℕ) (text : String) (error : ℕ)
      → IsAnswer c login_resp rid (refuse_login e c rid text error)
  unfolding refuse_login
  login-IsAnswer c rid text error = reply-IsAnswer [] _ _ _ _ _ refl

  pub p2p-IsAnswer :
      (c : Conn) (rid : ℕ) (text : String) (error : ℕ)
      → IsAnswer c p2p_msg_resp rid (refuse_p2p e c rid text error)
  unfolding refuse_p2p
  p2p-IsAnswer c rid text error = reply-IsAnswer [] _ _ _ _ _ refl

  pub ack-IsAnswer :
      (c : Conn) (rid msg_id : ℕ) (text : String) (error : ℕ)
      → IsAnswer c message_ack_resp rid (refuse_ack e c rid msg_id text error)
  unfolding refuse_ack
  ack-IsAnswer c rid msg_id text error = reply-IsAnswer [] _ _ _ _ _ refl

  pub pull-IsAnswer :
      (c : Conn) (rid : ℕ) (text : String) (error : ℕ)
      → IsAnswer c pull_offline_resp rid (refuse_pull e c rid text error)
  unfolding refuse_pull
  pull-IsAnswer c rid text error = reply-IsAnswer [] _ _ _ _ _ refl

  pub kick-IsAnswer :
      (c : Conn) (rid : ℕ) (payload : List ℕ)
      → IsAnswer c kick_user_resp rid (on_kick e c rid payload)
  unfolding on_kick
  kick-IsAnswer c rid payload = elim (Option-cases (decode_kick_req e payload)) [
    | inl n ↦ rw (on_kick, n) (reply-IsAnswer [] _ _ _ _ _ refl)
    | inr (m, n) ↦ rw (on_kick, n) (reply-IsAnswer [] _ _ _ _ _ refl)
  ]

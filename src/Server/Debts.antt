-- ===== src/Server/Debts.antt =====
-- Every request of src/server_full.cpp is answered once: the tasks.
use hc_tcp_im_server.Common.{
  ℕ, ◌≡◌, inl, inr, refl, ◌∙◌, Bool, some, [], String, Option-cases, Bool-cases,
}
use hc_tcp_im_server.Protocol.{Command, login_resp, p2p_msg_resp, message_ack_resp}
use hc_tcp_im_server.Protocol.Messages.{P2pMsgReq, LoginReq, MessageAckReq}
use hc_tcp_im_server.Heartbeat.{Conn, on_authenticated}
use hc_tcp_im_server.Auth.{login}
use hc_tcp_im_server.Messaging.{register_connection}
use hc_tcp_im_server.Messaging.Redelivery.{deliver_pending_messages}
use hc_tcp_im_server.Routing.{lookup_user_route}
use hc_tcp_im_server.Server.{
  Env, Server, Task, login_task, p2p_task, ack_task, pull_task, broadcast_task, logout_task,
}
use hc_tcp_im_server.Server.Tasks.{
  run_login, run_send, run_p2p, run_ack, run_pull, logged_in, run_task,
}
use mathlib.Core.Path.{subst}
use hc_tcp_im_server.Common.{str_eq}
use hc_tcp_im_server.Server.Payload.{encode_p2p_notify}
use hc_tcp_im_server.Server.Replies.{
  replies, replies-messages, owed, IsAnswer, IsPaid, reply-IsAnswer, messages-IsAnswer,
  sessions-IsAnswer, login-IsAnswer, p2p-IsAnswer, replies-map_health,
}

module _ (e : Env) (connected : Conn → Bool) where
  run_send-IsAnswer :
      (s : Server e) (c : Conn) (rid : ℕ) (m : P2pMsgReq) (user : String) (now : ℕ)
      → IsAnswer e c p2p_msg_resp rid (run_send e connected s c rid m user now).1
  unfolding run_send
  run_send-IsAnswer s c rid m user now = messages-IsAnswer e _ (reply-IsAnswer e [] _ _ _ _ _ refl)

  run_p2p-IsAnswer :
      (s : Server e) (c : Conn) (rid : ℕ) (m : P2pMsgReq) (user : String) (now : ℕ)
      → IsAnswer e c p2p_msg_resp rid (run_p2p e connected s c rid m user now).1
  unfolding run_p2p run_send
  run_p2p-IsAnswer s c rid m user now =
      let route = lookup_user_route e.redis s.routing m.to_user_id in
      let t : Server e = record s { routing = route.0 } in
      elim (Bool-cases s.cluster_enabled) [
        | inr b ↦ rw (run_p2p, b) (run_send-IsAnswer s c rid m user now)
        | inl b ↦ elim (Option-cases route.1) [
          | inl n ↦ rw (run_p2p, b, n) (run_send-IsAnswer t c rid m user now)
          | inr (k, n) ↦ elim (Bool-cases (str_eq k s.node_id)) [
            | inl y ↦ rw (run_p2p, b, n, y) (run_send-IsAnswer t c rid m user now)
            | inr y ↦ rw (run_p2p, b, n, y) (p2p-IsAnswer e c rid _ _)
          ]
        ]
      ]

  run_ack-IsAnswer :
      (s : Server e) (c : Conn) (rid : ℕ) (m : MessageAckReq) (user : String) (now : ℕ)
      → IsAnswer e c message_ack_resp rid (run_ack e connected s c rid m user now).1
  unfolding run_ack
  run_ack-IsAnswer s c rid m user now = messages-IsAnswer e _ (reply-IsAnswer e [] _ _ _ _ _ refl)

  logged_in-quiet :
      (s : Server e) (c : Conn) (user id : String) (now : ℕ)
      → replies (logged_in e connected s c user id now).1 ≡ []
  unfolding logged_in
  logged_in-quiet s c user id now =
      replies-messages
        (deliver_pending_messages e.net (encode_p2p_notify e) connected e.message_store
          (register_connection s.messaging user c) user now).1
        _
      ∙ replies-map_health (on_authenticated s.heartbeat c user now).1

  run_login-IsAnswer :
      (s : Server e) (c : Conn) (rid : ℕ) (m : LoginReq) (id : String) (now : ℕ)
      → IsAnswer e c login_resp rid (run_login e connected s c rid m id now).1
  unfolding run_login
  run_login-IsAnswer s c rid m id now =
      elim (Option-cases (login s.auth c.fd m.user_id m.token m.device_id id now).1) [
        | inl n ↦ rw (run_login, n) (sessions-IsAnswer e _ (login-IsAnswer e c rid _ _))
        | inr (i, n) ↦
            rw (run_login, n)
              (sessions-IsAnswer e _
                (reply-IsAnswer e _ _ _ _ _ _ (logged_in-quiet _ c m.user_id id now)))
      ]

  task-IsPaid :
      (s : Server e) (t : Task) (id : String) (now : ℕ)
      → IsPaid e (owed t) (run_task e connected s t id now).1
  unfolding run_task run_pull
  task-IsPaid s (login_task c rid m) id now = run_login-IsAnswer s c rid m id now
  task-IsPaid s (p2p_task c rid m user) id now = run_p2p-IsAnswer s c rid m user now
  task-IsPaid s (ack_task c rid m user) id now = run_ack-IsAnswer s c rid m user now
  task-IsPaid s (pull_task c rid m user) id now = reply-IsAnswer e [] _ _ _ _ _ refl
  task-IsPaid s (broadcast_task user m) id now = tt
  task-IsPaid s (logout_task c) id now = tt

  -- Whatever the state in which a task runs, it sends the response that it owes, once.
  pub run_task-IsAnswer :
      (s : Server e) (t : Task) (id : String) (now : ℕ) (c : Conn) (command : Command) (rid : ℕ)
      → owed t ≡ some (c, command, rid)
      → IsAnswer e c command rid (run_task e connected s t id now).1
  run_task-IsAnswer s t id now c command rid h =
      subst (λ o. IsPaid e o (run_task e connected s t id now).1) h (task-IsPaid s t id now)

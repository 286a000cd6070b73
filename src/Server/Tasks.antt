-- ===== src/Server/Tasks.antt =====
-- The tasks of src/server_full.cpp, which workers run. `connected` says which connections are up
-- when the task runs, and `session` is the id that a login draws.
use Prim.Native.Nat.{bit_or}
use hc_tcp_im_server.Common.{
  ℕ, Bool, true, false, not, none, some, List, [], ◌∷◌, ◌++◌, String, ◌==◌, map, min, str_eq,
  if◌then◌else◌,
}
use hc_tcp_im_server.Protocol.{
  login_resp, p2p_msg_resp, message_ack_resp, pull_offline_resp, flag_response, flag_ack, err_ok,
  err_invalid_packet, err_server_busy, err_auth_failed,
}
use hc_tcp_im_server.Protocol.Messages.{
  LoginReq, P2pMsgReq, MessageAckReq, PullOfflineReq, LoginResp, P2pMsgResp, MessageAckResp,
  PullOfflineResp,
}
use hc_tcp_im_server.Breaker.{is_open}
use hc_tcp_im_server.Heartbeat.{Conn, on_authenticated}
use hc_tcp_im_server.Auth.{login, logout, bind_session_to_node}
use hc_tcp_im_server.Messaging.{
  SendResult, not_configured, not_saved, not_marked, delivered, queued, is_ok, register_connection,
  send_reliable_p2p_message, process_ack, pull_offline_messages,
}
use hc_tcp_im_server.Messaging.Redelivery.{deliver_pending_messages}
use hc_tcp_im_server.Messaging.Broadcast.{broadcast_message}
use hc_tcp_im_server.Routing.{bind_user_route, lookup_user_route}
use hc_tcp_im_server.Server.{
  Env, Server, Task, login_task, p2p_task, ack_task, pull_task, broadcast_task, logout_task, Effect,
  message, health, session, send_packet,
}
use hc_tcp_im_server.Server.Payload.{
  encode_login_resp, encode_p2p_resp, encode_p2p_notify, encode_ack_resp, encode_pull_resp,
  encode_broadcast_notify,
}
use hc_tcp_im_server.Server.Packets.{refuse_login, refuse_p2p}

module _ (e : Env) where
  -- `resultMsg` of `sendReliableP2PMessage`.
  unfoldable pub result_text : SendResult → String
  result_text not_configured = "message store is not configured"
  result_text not_saved = e.store_error
  result_text not_marked = e.store_error
  result_text (delivered d) =
      if d then "duplicate request redelivered" else "persisted and delivered"
  result_text (queued d) =
      if d then "duplicate request still pending offline" else "persisted and queued offline"

  module _ (connected : Conn → Bool) where
    -- What the callback of a login does for a success, behind the response.
    unfoldable pub logged_in : Server e → Conn → String → String → ℕ → Server e × List Effect
    logged_in s c user id now =
        let registered = register_connection s.messaging user c in
        let sent =
          deliver_pending_messages e.net (encode_p2p_notify e) connected e.message_store registered
            user now in
        let alive = on_authenticated s.heartbeat c user now in
        (
          record s {
            auth = (bind_session_to_node s.auth id s.node_id).0;
            messaging = sent.0;
            heartbeat = alive.0;
            routing =
                if s.cluster_enabled
                then (bind_user_route e.redis s.routing user s.node_id).0
                else s.routing;
          },
          map message sent.1 ++ map health alive.1,
        )

    unfoldable pub run_login : Server e → Conn → ℕ → LoginReq → String → ℕ → Server e × List Effect
    run_login s c rid m id now =
        let r = login s.auth c.fd m.user_id m.token m.device_id id now in
        let t : Server e = record s { auth = r.0 } in
        let resp : LoginResp = record {
          result_code = 0;
          result_msg = "success";
          session_id = id;
        } in
        let after = logged_in t c m.user_id id now in
        elim r.1 [
          | none ↦ (t, map session r.2 ++ refuse_login e c rid "Invalid token" err_auth_failed)
          | some i ↦ (
            after.0,
            map session r.2
                ++ (send_packet e c login_resp rid (encode_login_resp e resp) flag_response 0 0
                      err_ok
                    ∷ after.1),
          )
        ]

    -- The message goes to the service here.
    unfoldable pub run_send : Server e → Conn → ℕ → P2pMsgReq → String → ℕ → Server e × List Effect
    run_send s c rid m user now =
        let r =
          send_reliable_p2p_message e.net (encode_p2p_notify e) connected e.message_store
            s.messaging user m.to_user_id m.client_msg_id m.content now in
        let resp : P2pMsgResp = record {
          result_code = if is_ok r.1 then 0 else 1;
          result_msg = result_text r.1;
          msg_id = r.2;
          server_seq = r.3;
        } in
        (
          record s { messaging = r.0 },
          map message r.4
              ++ (send_packet e c p2p_msg_resp rid (encode_p2p_resp e resp) flag_response
                    resp.msg_id resp.server_seq (if is_ok r.1 then err_ok else err_invalid_packet)
                  ∷ []),
        )

    unfoldable pub run_p2p : Server e → Conn → ℕ → P2pMsgReq → String → ℕ → Server e × List Effect
    run_p2p s c rid m user now =
        let route = lookup_user_route e.redis s.routing m.to_user_id in
        let t : Server e = record s { routing = route.0 } in
        let is_remote : Bool = elim route.1 [ none ↦ false | some n ↦ not (str_eq n s.node_id) ] in
        if s.cluster_enabled
        then (if is_remote
            then (t, refuse_p2p e c rid "remote forwarding not enabled" err_server_busy)
            else run_send t c rid m user now)
        else run_send s c rid m user now

    unfoldable pub run_ack :
        Server e → Conn → ℕ → MessageAckReq → String → ℕ → Server e × List Effect
    run_ack s c rid m user now =
        let r =
          process_ack e.net (encode_p2p_notify e) connected e.message_store s.messaging user
            m.msg_id m.server_seq m.ack_code now in
        let configured : Bool = elim s.messaging.message_store [ none ↦ false | some st ↦ true ] in
        let resp : MessageAckResp = record {
          result_code = if r.2 then 0 else 1;
          result_msg =
              if r.2
              then "success"
              else if configured
              then e.store_error
              else "message store is not configured";
          server_seq = r.1;
        } in
        (
          record s { messaging = r.0 },
          map message r.3
              ++ (send_packet e c message_ack_resp rid (encode_ack_resp e resp)
                    (bit_or flag_response flag_ack) m.msg_id r.1
                    (if r.2 then err_ok else err_invalid_packet)
                  ∷ []),
        )

    unfoldable pub run_pull : Server e → Conn → ℕ → PullOfflineReq → String → List Effect
    run_pull s c rid m user =
        let asked = if m.limit == 0 then 100 else m.limit in
        let limit = if is_open s.breaker then min asked 20 else asked in
        let r =
          pull_offline_messages e.net (encode_p2p_notify e) connected e.message_store s.messaging
            user m.last_acked_seq limit in
        let resp : PullOfflineResp = record {
          result_code = 0;
          result_msg = "success";
          next_begin_seq = r.1;
          messages = r.0;
        } in
        send_packet e c pull_offline_resp rid (encode_pull_resp e resp) flag_response 0 r.1 err_ok
        ∷ []

    unfoldable pub run_task : Server e → Task → String → ℕ → Server e × List Effect
    run_task s (login_task c rid m) id now = run_login s c rid m id now
    run_task s (p2p_task c rid m user) id now = run_p2p s c rid m user now
    run_task s (ack_task c rid m user) id now = run_ack s c rid m user now
    run_task s (pull_task c rid m user) id now = (s, run_pull s c rid m user)
    run_task s (broadcast_task user m) id now = (
      s,
      map message (
          broadcast_message e.net connected (encode_broadcast_notify e) s.messaging user m.content
            now),
    )
    run_task s (logout_task c) id now =
        let r = logout s.auth c.fd in (record s { auth = r.0 }, map session r.1)

    -- A worker takes the first task of the queue.
    unfoldable pub run_next : Server e → String → ℕ → Server e × List Effect
    run_next s id now = elim s.pool.task_queue [
      | [] ↦ (s, [])
      | t ∷ ts ↦ run_task (record s { pool = record s.pool { task_queue = ts } }) t id now
    ]

-- ===== src/Server/Packets.antt =====
-- The packet callback of src/server_full.cpp.
use Prim.Native.Nat.{bit_or}
use hc_tcp_im_server.Common.{
  ℕ, not, ◌||◌, none, some, List, [], ◌∷◌, ◌++◌, String, ◌==◌, map, if◌then◌else◌,
}
use hc_tcp_im_server.Protocol.{
  code, login_req, login_resp, heartbeat_req, heartbeat_resp, p2p_msg_req, p2p_msg_resp,
  broadcast_msg_req, kick_user_req, kick_user_resp, message_ack_req, message_ack_resp,
  pull_offline_req, pull_offline_resp, flag_response, flag_ack, err_ok, err_invalid_packet,
  err_server_busy,
}
use hc_tcp_im_server.Protocol.Messages.{LoginResp, P2pMsgResp, MessageAckResp, PullOfflineResp}
use hc_tcp_im_server.Heartbeat.{Conn, on_heartbeat}
use hc_tcp_im_server.Auth.{get_user_context}
use hc_tcp_im_server.Overload.{can_process_command, can_send_message}
use hc_tcp_im_server.Server.{
  Env, Server, Task, login_task, p2p_task, ack_task, pull_task, broadcast_task, Effect, health,
  submit_business_task, send_packet,
}
use hc_tcp_im_server.Server.Payload.{
  decode_login_req, encode_login_resp, encode_heartbeat_resp, decode_p2p_req, encode_p2p_resp,
  decode_ack_req, decoded_msg_id, encode_ack_resp, decode_pull_req, encode_pull_resp,
  decode_broadcast_req, decode_kick_req, encode_kick_resp,
}

module _ (e : Env) where
  -- A login response that is no success.
  unfoldable pub refuse_login : Conn → ℕ → String → ℕ → List Effect
  refuse_login c rid text error =
      let resp : LoginResp = record { result_code = 1; result_msg = text; session_id = "" } in
      send_packet e c login_resp rid (encode_login_resp e resp) flag_response 0 0 error ∷ []

  unfoldable pub refuse_p2p : Conn → ℕ → String → ℕ → List Effect
  refuse_p2p c rid text error =
      let resp : P2pMsgResp = record {
        result_code = 1;
        result_msg = text;
        msg_id = 0;
        server_seq = 0;
      } in
      send_packet e c p2p_msg_resp rid (encode_p2p_resp e resp) flag_response 0 0 error ∷ []

  unfoldable pub refuse_ack : Conn → ℕ → ℕ → String → ℕ → List Effect
  refuse_ack c rid msg_id text error =
      let resp : MessageAckResp = record { result_code = 1; result_msg = text; server_seq = 0 } in
      send_packet e c message_ack_resp rid (encode_ack_resp e resp) (bit_or flag_response flag_ack)
        msg_id 0 error
      ∷ []

  unfoldable pub refuse_pull : Conn → ℕ → String → ℕ → List Effect
  refuse_pull c rid text error =
      let resp : PullOfflineResp = record {
        result_code = 1;
        result_msg = text;
        next_begin_seq = 0;
        messages = [];
      } in
      send_packet e c pull_offline_resp rid (encode_pull_resp e resp) flag_response 0 0 error ∷ []

  -- Submit a task, and answer with these effects if it is refused.
  unfoldable pub submit_or : Server e → Task → ℕ → List Effect → Server e × List Effect
  submit_or s t now busy = let q = submit_business_task e s t now in (q.0, if q.1 then [] else busy)

  unfoldable pub on_login : Server e → Conn → ℕ → List ℕ → ℕ → Server e × List Effect
  on_login s c rid payload now = elim (decode_login_req e payload) [
    | none ↦ (s, refuse_login c rid "invalid login payload" err_invalid_packet)
    | some m ↦
        submit_or s (login_task c rid m) now (refuse_login c rid "server busy" err_server_busy)
  ]

  unfoldable pub on_heartbeat_req : Server e → Conn → ℕ → ℕ → Server e × List Effect
  on_heartbeat_req s c rid now =
      let r = on_heartbeat s.heartbeat c now in
      (
        record s { heartbeat = r.0 },
        map health r.1
            ++ (send_packet e c heartbeat_resp rid
                  (encode_heartbeat_resp e (record { server_time = now })) flag_response 0 0 err_ok
                ∷ []),
      )

  unfoldable pub on_p2p : Server e → Conn → ℕ → List ℕ → ℕ → Server e × List Effect
  on_p2p s c rid payload now = elim (decode_p2p_req e payload) [
    | none ↦ (s, refuse_p2p c rid "invalid p2p payload" err_invalid_packet)
    | some m ↦ elim (get_user_context s.auth c.fd) [
      | none ↦ (s, refuse_p2p c rid "unauthenticated" err_invalid_packet)
      | some u ↦
          let q = can_send_message e.double s.overload u.user_id now in
          let t : Server e = record s { overload = q.0 } in
          let queued =
            submit_or t (p2p_task c rid m u.user_id) now
              (refuse_p2p c rid "server busy" err_server_busy) in
          if not q.1 then (t, refuse_p2p c rid "user send rate limited" err_server_busy) else queued
    ]
  ]

  unfoldable pub on_ack : Server e → Conn → ℕ → List ℕ → ℕ → Server e × List Effect
  on_ack s c rid payload now =
      let msg_id = decoded_msg_id e payload in
      elim (decode_ack_req e payload) [
        | none ↦ (s, refuse_ack c rid msg_id "invalid ack payload" err_invalid_packet)
        | some m ↦ elim (get_user_context s.auth c.fd) [
          | none ↦ (s, refuse_ack c rid msg_id "unauthenticated" err_invalid_packet)
          | some u ↦
              submit_or s (ack_task c rid m u.user_id) now
                (refuse_ack c rid msg_id "server busy" err_server_busy)
        ]
      ]

  unfoldable pub on_pull : Server e → Conn → ℕ → List ℕ → ℕ → Server e × List Effect
  on_pull s c rid payload now = elim (decode_pull_req e payload) [
    | none ↦ (s, refuse_pull c rid "invalid pull payload" err_invalid_packet)
    | some m ↦ elim (get_user_context s.auth c.fd) [
      | none ↦ (s, refuse_pull c rid "unauthenticated" err_invalid_packet)
      | some u ↦
          submit_or s (pull_task c rid m u.user_id) now
            (refuse_pull c rid "server busy" err_server_busy)
    ]
  ]

  unfoldable pub on_broadcast : Server e → Conn → List ℕ → ℕ → Server e × List Effect
  on_broadcast s c payload now = elim (decode_broadcast_req e payload) [
    | none ↦ (s, [])
    | some m ↦ elim (get_user_context s.auth c.fd) [
      | none ↦ (s, [])
      | some u ↦ submit_or s (broadcast_task u.user_id m) now []
    ]
  ]

  unfoldable pub on_kick : Conn → ℕ → List ℕ → List Effect
  on_kick c rid payload =
      let answer = λ (n : ℕ) (text : String) (error : ℕ).
        send_packet e c kick_user_resp rid
          (encode_kick_resp e (record { result_code = n; result_msg = text })) flag_response 0 0
          error
        ∷ [] in
      elim (decode_kick_req e payload) [
        | none ↦ answer 1 "invalid kick payload" err_invalid_packet
        | some m ↦ answer 0 "success" err_ok
      ]

  -- The answer to a command that the overload check rejects.
  unfoldable pub rate_limited : Conn → ℕ → ℕ → List Effect
  rate_limited c command rid =
      if command == code login_req
      then refuse_login c rid "rate limited" err_server_busy
      else if command == code p2p_msg_req
      then refuse_p2p c rid "rate limited" err_server_busy
      else []

  -- The chain of commands behind the overload check.
  unfoldable pub on_command : Server e → Conn → ℕ → ℕ → List ℕ → ℕ → Server e × List Effect
  on_command s c command rid payload now =
      if command == code login_req
      then on_login s c rid payload now
      else if command == code heartbeat_req
      then on_heartbeat_req s c rid now
      else if command == code p2p_msg_req
      then on_p2p s c rid payload now
      else if command == code message_ack_req
      then on_ack s c rid payload now
      else if command == code pull_offline_req
      then on_pull s c rid payload now
      else if command == code broadcast_msg_req
      then on_broadcast s c payload now
      else if command == code kick_user_req
      then (s, on_kick c rid payload)
      else (s, [])

  -- The callback on a packet with this command and request id.
  unfoldable pub on_packet : Server e → Conn → ℕ → ℕ → List ℕ → ℕ → Server e × List Effect
  on_packet s c command rid payload now =
      let q = can_process_command e.double s.overload command now in
      let t : Server e = record s { overload = q.0 } in
      let limited =
        command == code login_req
        || command == code p2p_msg_req
        || command == code broadcast_msg_req in
      if limited
      then (if q.1 then on_command t c command rid payload now else (t, rate_limited c command rid))
      else on_command s c command rid payload now

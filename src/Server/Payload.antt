-- ===== src/Server/Payload.antt =====
-- The payloads of src/server_full.cpp, as JSON or protobuf. A member that a failing decoder has set
-- matters for an acknowledgement only, whose id goes into the answer.
use hc_tcp_im_server.Common.{ℕ, Option, none, some, List, if◌then◌else◌}
use hc_tcp_im_server.Protocol.{
  Command, login_req, login_resp, heartbeat_resp, p2p_msg_req, p2p_msg_resp, p2p_msg_notify,
  broadcast_msg_req, broadcast_msg_notify, kick_user_req, kick_user_resp, message_ack_req,
  message_ack_resp, pull_offline_req, pull_offline_resp,
}
use hc_tcp_im_server.Protocol.Messages.{
  LoginReq, LoginResp, HeartbeatResp, P2pMsgReq, P2pMsgResp, P2pMsgNotify, BroadcastMsgReq,
  BroadcastMsgNotify, KickUserReq, KickUserResp, MessageAckReq, MessageAckResp, PullOfflineReq,
  PullOfflineResp,
}
use hc_tcp_im_server.Serializer.{get_at}
use hc_tcp_im_server.Serializer.Overloads.{Message, serialize, deserialize}
use hc_tcp_im_server.Server.{Env}

module _ (e : Env) where
  -- The shape of each decoder; the last argument is the message before the call.
  unfoldable pub decode : (c : Command) → List ℕ → Message c → Option (Message c)
  decode c payload before =
      let from_json = deserialize e.json c (e.to_text payload) before in
      let from_protobuf : Option (Message c) =
        if e.have_protobuf then e.parse_from_string c payload else none in
      if e.is_json then from_json else elim from_protobuf [
        | some m ↦ some m
        | none ↦ if e.compatible_json then from_json else none
      ]

  -- The shape of each encoder.
  unfoldable pub encode : (c : Command) → Message c → List ℕ
  encode c m =
      let to_json = e.to_bytes (serialize e.json c m) in
      let to_protobuf : Option (List ℕ) =
        if e.have_protobuf then e.serialize_to_string c m else none in
      if e.is_json then to_json else elim to_protobuf [ some out ↦ out | none ↦ to_json ]

  unfoldable pub decode_login_req : List ℕ → Option LoginReq
  decode_login_req payload =
      decode login_req payload (record { user_id = ""; token = ""; device_id = "" })

  unfoldable pub encode_login_resp : LoginResp → List ℕ
  encode_login_resp = encode login_resp

  unfoldable pub encode_heartbeat_resp : HeartbeatResp → List ℕ
  encode_heartbeat_resp = encode heartbeat_resp

  unfoldable pub decode_p2p_req : List ℕ → Option P2pMsgReq
  decode_p2p_req payload =
      decode p2p_msg_req payload
        (record { from_user_id = ""; to_user_id = ""; client_msg_id = ""; content = "" })

  unfoldable pub encode_p2p_resp : P2pMsgResp → List ℕ
  encode_p2p_resp = encode p2p_msg_resp

  unfoldable pub encode_p2p_notify : P2pMsgNotify → List ℕ
  encode_p2p_notify = encode p2p_msg_notify

  unfoldable pub decode_ack_req : List ℕ → Option MessageAckReq
  decode_ack_req payload =
      decode message_ack_req payload (record { msg_id = 0; server_seq = 0; ack_code = 0 })

  -- `ackReq.msgId` behind `decodeAckReq`.
  unfoldable pub decoded_msg_id : List ℕ → ℕ
  decoded_msg_id payload =
      let id : Option ℕ = elim (e.json.parse (e.to_text payload)) [
        | none ↦ none
        | some j ↦ get_at e.json e.json.get_uint64 j "msg_id"
      ] in
      let left : ℕ = elim id [ none ↦ 0 | some n ↦ n ] in
      elim (decode_ack_req payload) [
        | some m ↦ m.msg_id
        | none ↦ if e.is_json then left else if e.compatible_json then left else 0
      ]

  unfoldable pub encode_ack_resp : MessageAckResp → List ℕ
  encode_ack_resp = encode message_ack_resp

  unfoldable pub decode_pull_req : List ℕ → Option PullOfflineReq
  decode_pull_req payload =
      decode pull_offline_req payload (record { user_id = ""; last_acked_seq = 0; limit = 0 })

  unfoldable pub encode_pull_resp : PullOfflineResp → List ℕ
  encode_pull_resp = encode pull_offline_resp

  unfoldable pub decode_broadcast_req : List ℕ → Option BroadcastMsgReq
  decode_broadcast_req payload =
      decode broadcast_msg_req payload (record { from_user_id = ""; content = "" })

  unfoldable pub encode_broadcast_notify : BroadcastMsgNotify → List ℕ
  encode_broadcast_notify = encode broadcast_msg_notify

  unfoldable pub decode_kick_req : List ℕ → Option KickUserReq
  decode_kick_req payload =
      decode kick_user_req payload (record { target_user_id = ""; reason = "" })

  unfoldable pub encode_kick_resp : KickUserResp → List ℕ
  encode_kick_resp = encode kick_user_resp

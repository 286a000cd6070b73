-- ===== src/Serializer/RoundTrip.antt =====
-- `Deserialize` after `Serialize`, in src/codec/messageSerializer.cpp.
pub mod Session
pub mod Chat
pub mod Delivery
use hc_tcp_im_server.Common.{◌≡◌, refl, some}
use hc_tcp_im_server.Protocol.{
  Command, login_req, login_resp, heartbeat_req, heartbeat_resp, p2p_msg_req, p2p_msg_resp,
  p2p_msg_notify, broadcast_msg_req, broadcast_msg_notify, kick_user_req, kick_user_resp,
  message_ack_req, message_ack_resp, pull_offline_req, pull_offline_resp,
}
use hc_tcp_im_server.Serializer.{JsonLib}
use hc_tcp_im_server.Serializer.Session.{deserialize_heartbeat_req}
use hc_tcp_im_server.Serializer.Overloads.{Message, serialize, deserialize}
use Session.{
  login_req_round, FitsLoginResp, login_resp_round, FitsHeartbeatResp, heartbeat_resp_round,
  kick_user_req_round, FitsKickUserResp, kick_user_resp_round,
}
use Chat.{
  p2p_msg_req_round, FitsP2pMsgResp, p2p_msg_resp_round, FitsP2pMsgNotify, p2p_msg_notify_round,
  broadcast_msg_req_round, FitsBroadcastMsgNotify, broadcast_msg_notify_round,
}
use Delivery.{
  FitsMessageAckReq, message_ack_req_round, FitsMessageAckResp, message_ack_resp_round,
  FitsPullOfflineReq, pull_offline_req_round, FitsPullOfflineResp, pull_offline_resp_round,
}

-- The numbers in a message fit their types. A heartbeat request has none.
abbrev pub Fits : (c : Command) → Message c → Type 0
Fits login_req m = Unit
Fits login_resp m = FitsLoginResp m
Fits heartbeat_req m = Unit
Fits heartbeat_resp m = FitsHeartbeatResp m
Fits p2p_msg_req m = Unit
Fits p2p_msg_resp m = FitsP2pMsgResp m
Fits p2p_msg_notify m = FitsP2pMsgNotify m
Fits broadcast_msg_req m = Unit
Fits broadcast_msg_notify m = FitsBroadcastMsgNotify m
Fits kick_user_req m = Unit
Fits kick_user_resp m = FitsKickUserResp m
Fits message_ack_req m = FitsMessageAckReq m
Fits message_ack_resp m = FitsMessageAckResp m
Fits pull_offline_req m = FitsPullOfflineReq m
Fits pull_offline_resp m = FitsPullOfflineResp m

-- Every message whose numbers fit their types, of all fifteen commands, is read back as it was
-- written, whatever the message held that it is read into.
pub deserialize-serialize :
    (lib : JsonLib) (c : Command) (m before : Message c)
    → Fits c m
    → deserialize lib c (serialize lib c m) before ≡ some m
unfolding serialize deserialize deserialize_heartbeat_req
deserialize-serialize lib login_req m before fits = login_req_round lib m before
deserialize-serialize lib login_resp m before fits = login_resp_round lib m before fits
deserialize-serialize lib heartbeat_req m before fits = refl
deserialize-serialize lib heartbeat_resp m before fits = heartbeat_resp_round lib m fits
deserialize-serialize lib p2p_msg_req m before fits = p2p_msg_req_round lib m
deserialize-serialize lib p2p_msg_resp m before fits = p2p_msg_resp_round lib m fits
deserialize-serialize lib p2p_msg_notify m before fits = p2p_msg_notify_round lib m fits
deserialize-serialize lib broadcast_msg_req m before fits = broadcast_msg_req_round lib m
deserialize-serialize lib broadcast_msg_notify m before fits = broadcast_msg_notify_round lib m fits
deserialize-serialize lib kick_user_req m before fits = kick_user_req_round lib m
deserialize-serialize lib kick_user_resp m before fits = kick_user_resp_round lib m fits
deserialize-serialize lib message_ack_req m before fits = message_ack_req_round lib m fits
deserialize-serialize lib message_ack_resp m before fits = message_ack_resp_round lib m fits
deserialize-serialize lib pull_offline_req m before fits = pull_offline_req_round lib m fits
deserialize-serialize lib pull_offline_resp m before fits = pull_offline_resp_round lib m fits

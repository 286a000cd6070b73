-- ===== src/Serializer/Overloads.antt =====
-- The overloads of `Serialize` and `Deserialize` in src/codec/messageSerializer.cpp as two functions
-- of the command whose message they take.
use hc_tcp_im_server.Common.{Option}
use hc_tcp_im_server.Protocol.{
  Command, login_req, login_resp, heartbeat_req, heartbeat_resp, p2p_msg_req, p2p_msg_resp,
  p2p_msg_notify, broadcast_msg_req, broadcast_msg_notify, kick_user_req, kick_user_resp,
  message_ack_req, message_ack_resp, pull_offline_req, pull_offline_resp,
}
use hc_tcp_im_server.Protocol.Messages.{
  LoginReq, LoginResp, HeartbeatReq, HeartbeatResp, P2pMsgReq, P2pMsgResp, P2pMsgNotify,
  BroadcastMsgReq, BroadcastMsgNotify, KickUserReq, KickUserResp, MessageAckReq, MessageAckResp,
  PullOfflineReq, PullOfflineResp,
}
use hc_tcp_im_server.Serializer.{JsonLib}
use hc_tcp_im_server.Serializer.Session.{
  serialize_login_req, deserialize_login_req, serialize_login_resp, deserialize_login_resp,
  serialize_heartbeat_req, deserialize_heartbeat_req, serialize_heartbeat_resp,
  deserialize_heartbeat_resp, serialize_kick_user_req, deserialize_kick_user_req,
  serialize_kick_user_resp, deserialize_kick_user_resp,
}
use hc_tcp_im_server.Serializer.Chat.{
  serialize_p2p_msg_req, deserialize_p2p_msg_req, serialize_p2p_msg_resp, deserialize_p2p_msg_resp,
  serialize_p2p_msg_notify, deserialize_p2p_msg_notify, serialize_broadcast_msg_req,
  deserialize_broadcast_msg_req, serialize_broadcast_msg_notify, deserialize_broadcast_msg_notify,
}
use hc_tcp_im_server.Serializer.Delivery.{
  serialize_message_ack_req, deserialize_message_ack_req, serialize_message_ack_resp,
  deserialize_message_ack_resp, serialize_pull_offline_req, deserialize_pull_offline_req,
  serialize_pull_offline_resp, deserialize_pull_offline_resp,
}

-- The message type of a command.
abbrev pub Message : Command → Type 0
Message login_req = LoginReq
Message login_resp = LoginResp
Message heartbeat_req = HeartbeatReq
Message heartbeat_resp = HeartbeatResp
Message p2p_msg_req = P2pMsgReq
Message p2p_msg_resp = P2pMsgResp
Message p2p_msg_notify = P2pMsgNotify
Message broadcast_msg_req = BroadcastMsgReq
Message broadcast_msg_notify = BroadcastMsgNotify
Message kick_user_req = KickUserReq
Message kick_user_resp = KickUserResp
Message message_ack_req = MessageAckReq
Message message_ack_resp = MessageAckResp
Message pull_offline_req = PullOfflineReq
Message pull_offline_resp = PullOfflineResp

module _ (lib : JsonLib) where
  unfoldable pub serialize : (c : Command) → Message c → lib.Bytes
  serialize login_req m = serialize_login_req lib m
  serialize login_resp m = serialize_login_resp lib m
  serialize heartbeat_req m = serialize_heartbeat_req lib m
  serialize heartbeat_resp m = serialize_heartbeat_resp lib m
  serialize p2p_msg_req m = serialize_p2p_msg_req lib m
  serialize p2p_msg_resp m = serialize_p2p_msg_resp lib m
  serialize p2p_msg_notify m = serialize_p2p_msg_notify lib m
  serialize broadcast_msg_req m = serialize_broadcast_msg_req lib m
  serialize broadcast_msg_notify m = serialize_broadcast_msg_notify lib m
  serialize kick_user_req m = serialize_kick_user_req lib m
  serialize kick_user_resp m = serialize_kick_user_resp lib m
  serialize message_ack_req m = serialize_message_ack_req lib m
  serialize message_ack_resp m = serialize_message_ack_resp lib m
  serialize pull_offline_req m = serialize_pull_offline_req lib m
  serialize pull_offline_resp m = serialize_pull_offline_resp lib m

  -- The last argument is the message before the call, whose optional members stay.
  unfoldable pub deserialize : (c : Command) → lib.Bytes → Message c → Option (Message c)
  deserialize login_req bytes before = deserialize_login_req lib bytes before
  deserialize login_resp bytes before = deserialize_login_resp lib bytes before
  deserialize heartbeat_req bytes before = deserialize_heartbeat_req lib bytes before
  deserialize heartbeat_resp bytes before = deserialize_heartbeat_resp lib bytes
  deserialize p2p_msg_req bytes before = deserialize_p2p_msg_req lib bytes
  deserialize p2p_msg_resp bytes before = deserialize_p2p_msg_resp lib bytes
  deserialize p2p_msg_notify bytes before = deserialize_p2p_msg_notify lib bytes
  deserialize broadcast_msg_req bytes before = deserialize_broadcast_msg_req lib bytes
  deserialize broadcast_msg_notify bytes before = deserialize_broadcast_msg_notify lib bytes
  deserialize kick_user_req bytes before = deserialize_kick_user_req lib bytes
  deserialize kick_user_resp bytes before = deserialize_kick_user_resp lib bytes
  deserialize message_ack_req bytes before = deserialize_message_ack_req lib bytes
  deserialize message_ack_resp bytes before = deserialize_message_ack_resp lib bytes
  deserialize pull_offline_req bytes before = deserialize_pull_offline_req lib bytes
  deserialize pull_offline_resp bytes before = deserialize_pull_offline_resp lib bytes

-- ===== src/Serializer/Chat.antt =====
-- The chat and broadcast messages of src/codec/messageSerializer.cpp.
use hc_tcp_im_server.Common.{Option, some, [], ◌∷◌}
use hc_tcp_im_server.Protocol.Messages.{
  P2pMsgReq, P2pMsgResp, P2pMsgNotify, BroadcastMsgReq, BroadcastMsgNotify,
}
use hc_tcp_im_server.Serializer.{JsonLib, ◌>>=◌, get_at, get_value}

module _ (lib : JsonLib) where
  open lib use {number, text, object, dump, parse, get_text, get_uint32, get_uint64, get_int64}

  unfoldable pub serialize_p2p_msg_req : P2pMsgReq → lib.Bytes
  serialize_p2p_msg_req m = dump (
      object (
        ("from_user_id", text m.from_user_id)
        ∷ ("to_user_id", text m.to_user_id)
        ∷ ("client_msg_id", text m.client_msg_id)
        ∷ ("content", text m.content)
        ∷ []))

  unfoldable pub deserialize_p2p_msg_req : lib.Bytes → Option P2pMsgReq
  deserialize_p2p_msg_req bytes = do
    j ← parse bytes
    from_user_id ← get_at lib get_text j "from_user_id"
    to_user_id ← get_at lib get_text j "to_user_id"
    client_msg_id ← get_value lib get_text j "client_msg_id" ""
    content ← get_at lib get_text j "content"
    some (record {
      from_user_id = from_user_id;
      to_user_id = to_user_id;
      client_msg_id = client_msg_id;
      content = content;
    })

  unfoldable pub serialize_p2p_msg_resp : P2pMsgResp → lib.Bytes
  serialize_p2p_msg_resp m = dump (
      object (
        ("result_code", number m.result_code)
        ∷ ("result_msg", text m.result_msg)
        ∷ ("msg_id", number m.msg_id)
        ∷ ("server_seq", number m.server_seq)
        ∷ []))

  unfoldable pub deserialize_p2p_msg_resp : lib.Bytes → Option P2pMsgResp
  deserialize_p2p_msg_resp bytes = do
    j ← parse bytes
    result_code ← get_at lib get_uint32 j "result_code"
    result_msg ← get_at lib get_text j "result_msg"
    msg_id ← get_at lib get_uint64 j "msg_id"
    server_seq ← get_value lib get_uint64 j "server_seq" 0
    some (record {
      result_code = result_code;
      result_msg = result_msg;
      msg_id = msg_id;
      server_seq = server_seq;
    })

  unfoldable pub serialize_p2p_msg_notify : P2pMsgNotify → lib.Bytes
  serialize_p2p_msg_notify m = dump (
      object (
        ("msg_id", number m.msg_id)
        ∷ ("server_seq", number m.server_seq)
        ∷ ("from_user_id", text m.from_user_id)
        ∷ ("to_user_id", text m.to_user_id)
        ∷ ("client_msg_id", text m.client_msg_id)
        ∷ ("content", text m.content)
        ∷ ("timestamp", number m.timestamp)
        ∷ []))

  unfoldable pub deserialize_p2p_msg_notify : lib.Bytes → Option P2pMsgNotify
  deserialize_p2p_msg_notify bytes = do
    j ← parse bytes
    msg_id ← get_at lib get_uint64 j "msg_id"
    server_seq ← get_at lib get_uint64 j "server_seq"
    from_user_id ← get_at lib get_text j "from_user_id"
    to_user_id ← get_at lib get_text j "to_user_id"
    client_msg_id ← get_value lib get_text j "client_msg_id" ""
    content ← get_at lib get_text j "content"
    timestamp ← get_at lib get_int64 j "timestamp"
    some (record {
      msg_id = msg_id;
      server_seq = server_seq;
      from_user_id = from_user_id;
      to_user_id = to_user_id;
      client_msg_id = client_msg_id;
      content = content;
      timestamp = timestamp;
    })

  unfoldable pub serialize_broadcast_msg_req : BroadcastMsgReq → lib.Bytes
  serialize_broadcast_msg_req m =
      dump (object (("from_user_id", text m.from_user_id) ∷ ("content", text m.content) ∷ []))

  unfoldable pub deserialize_broadcast_msg_req : lib.Bytes → Option BroadcastMsgReq
  deserialize_broadcast_msg_req bytes = do
    j ← parse bytes
    from_user_id ← get_at lib get_text j "from_user_id"
    content ← get_at lib get_text j "content"
    some (record { from_user_id = from_user_id; content = content })

  unfoldable pub serialize_broadcast_msg_notify : BroadcastMsgNotify → lib.Bytes
  serialize_broadcast_msg_notify m = dump (
      object (
        ("from_user_id", text m.from_user_id)
        ∷ ("content", text m.content)
        ∷ ("timestamp", number m.timestamp)
        ∷ []))

  unfoldable pub deserialize_broadcast_msg_notify : lib.Bytes → Option BroadcastMsgNotify
  deserialize_broadcast_msg_notify bytes = do
    j ← parse bytes
    from_user_id ← get_at lib get_text j "from_user_id"
    content ← get_at lib get_text j "content"
    timestamp ← get_at lib get_int64 j "timestamp"
    some (record { from_user_id = from_user_id; content = content; timestamp = timestamp })

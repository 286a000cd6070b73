-- ===== src/Serializer/Delivery.antt =====
-- The acknowledgement and offline messages of src/codec/messageSerializer.cpp.
use hc_tcp_im_server.Common.{Option, none, some, List, [], ◌∷◌}
use hc_tcp_im_server.Protocol.{ack_received}
use hc_tcp_im_server.Protocol.Messages.{
  MessageAckReq, MessageAckResp, PullOfflineReq, OfflineItem, PullOfflineResp,
}
use hc_tcp_im_server.Serializer.{JsonLib, ◌>>=◌, get_at, get_value}

module _ (lib : JsonLib) where
  open lib use {number, text, object, dump, parse, get_text, get_uint32, get_uint64, get_int64}

  unfoldable pub serialize_message_ack_req : MessageAckReq → lib.Bytes
  serialize_message_ack_req m = dump (
      object (
        ("msg_id", number m.msg_id)
        ∷ ("server_seq", number m.server_seq)
        ∷ ("ack_code", number m.ack_code)
        ∷ []))

  unfoldable pub deserialize_message_ack_req : lib.Bytes → Option MessageAckReq
  deserialize_message_ack_req bytes = do
    j ← parse bytes
    msg_id ← get_at lib get_uint64 j "msg_id"
    server_seq ← get_at lib get_uint64 j "server_seq"
    ack_code ← get_value lib get_uint32 j "ack_code" ack_received
    some (record { msg_id = msg_id; server_seq = server_seq; ack_code = ack_code })

  unfoldable pub serialize_message_ack_resp : MessageAckResp → lib.Bytes
  serialize_message_ack_resp m = dump (
      object (
        ("result_code", number m.result_code)
        ∷ ("result_msg", text m.result_msg)
        ∷ ("server_seq", number m.server_seq)
        ∷ []))

  unfoldable pub deserialize_message_ack_resp : lib.Bytes → Option MessageAckResp
  deserialize_message_ack_resp bytes = do
    j ← parse bytes
    result_code ← get_at lib get_uint32 j "result_code"
    result_msg ← get_at lib get_text j "result_msg"
    server_seq ← get_value lib get_uint64 j "server_seq" 0
    some (record { result_code = result_code; result_msg = result_msg; server_seq = server_seq })

  unfoldable pub serialize_pull_offline_req : PullOfflineReq → lib.Bytes
  serialize_pull_offline_req m = dump (
      object (
        ("user_id", text m.user_id)
        ∷ ("last_acked_seq", number m.last_acked_seq)
        ∷ ("limit", number m.limit)
        ∷ []))

  unfoldable pub deserialize_pull_offline_req : lib.Bytes → Option PullOfflineReq
  deserialize_pull_offline_req bytes = do
    j ← parse bytes
    user_id ← get_at lib get_text j "user_id"
    last_acked_seq ← get_value lib get_uint64 j "last_acked_seq" 0
    limit ← get_value lib get_uint32 j "limit" 100
    some (record { user_id = user_id; last_acked_seq = last_acked_seq; limit = limit })

  unfoldable pub item_json : OfflineItem → lib.Json
  item_json m = object (
      ("msg_id", number m.msg_id)
      ∷ ("server_seq", number m.server_seq)
      ∷ ("from_user_id", text m.from_user_id)
      ∷ ("to_user_id", text m.to_user_id)
      ∷ ("client_msg_id", text m.client_msg_id)
      ∷ ("content", text m.content)
      ∷ ("timestamp", number m.timestamp)
      ∷ [])

  unfoldable pub items_json : List OfflineItem → List lib.Json
  items_json [] = []
  items_json (m ∷ ms) = item_json m ∷ items_json ms

  unfoldable pub serialize_pull_offline_resp : PullOfflineResp → lib.Bytes
  serialize_pull_offline_resp m = dump (
      object (
        ("result_code", number m.result_code)
        ∷ ("result_msg", text m.result_msg)
        ∷ ("next_begin_seq", number m.next_begin_seq)
        ∷ ("messages", lib.array (items_json m.messages))
        ∷ []))

  -- One turn of the loop. The item is const there, and `[]` of a missing key is undefined; here it is
  -- none.
  unfoldable pub read_item : lib.Json → Option OfflineItem
  read_item j = do
    msg_id ← get_at lib get_uint64 j "msg_id"
    server_seq ← get_at lib get_uint64 j "server_seq"
    from_user_id ← get_at lib get_text j "from_user_id"
    to_user_id ← get_at lib get_text j "to_user_id"
    client_msg_id ← get_value lib get_text j "client_msg_id" ""
    content ← get_at lib get_text j "content"
    timestamp ← get_at lib get_int64 j "timestamp"
    some (record {
      msg_id = msg_id;
      server_seq = server_seq;
      from_user_id = from_user_id;
      to_user_id = to_user_id;
      client_msg_id = client_msg_id;
      content = content;
      timestamp = timestamp;
    })

  unfoldable pub read_items : List lib.Json → Option (List OfflineItem)
  read_items [] = some []
  read_items (j ∷ js) = do m ← read_item j; ms ← read_items js; some (m ∷ ms)

  unfoldable pub deserialize_pull_offline_resp : lib.Bytes → Option PullOfflineResp
  deserialize_pull_offline_resp bytes = do
    j ← parse bytes
    result_code ← get_at lib get_uint32 j "result_code"
    result_msg ← get_at lib get_text j "result_msg"
    next_begin_seq ← get_value lib get_uint64 j "next_begin_seq" 0
    messages ← elim (lib.member j "messages") [
      | none ↦ some []
      | some js ↦ read_items (lib.items js)
    ]
    some (record {
      result_code = result_code;
      result_msg = result_msg;
      next_begin_seq = next_begin_seq;
      messages = messages;
    })

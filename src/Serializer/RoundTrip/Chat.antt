-- ===== src/Serializer/RoundTrip/Chat.antt =====
-- The chat and broadcast messages of src/codec/messageSerializer.cpp, written and read back.
use hc_tcp_im_server.Common.{◌<◌, ◌≡◌, refl, some, [], ◌∷◌, String, u32, u64, ◌^◌}
use hc_tcp_im_server.Common.Dict.{Dict, find}
use hc_tcp_im_server.Protocol.Messages.{
  P2pMsgReq, P2pMsgResp, P2pMsgNotify, BroadcastMsgReq, BroadcastMsgNotify,
}
use hc_tcp_im_server.Serializer.{JsonLib}
use hc_tcp_im_server.Serializer.Chat.{
  serialize_p2p_msg_req, deserialize_p2p_msg_req, serialize_p2p_msg_resp, deserialize_p2p_msg_resp,
  serialize_p2p_msg_notify, deserialize_p2p_msg_notify, serialize_broadcast_msg_req,
  deserialize_broadcast_msg_req, serialize_broadcast_msg_notify, deserialize_broadcast_msg_notify,
}
use hc_tcp_im_server.Serializer.Steps.{step, at_object, value_object}

-- The fields fit their types.
pub record FitsP2pMsgResp (m : P2pMsgResp) : Type 0 where
  pub result_code : m.result_code < u32
  pub msg_id : m.msg_id < u64
  pub server_seq : m.server_seq < u64

pub record FitsP2pMsgNotify (m : P2pMsgNotify) : Type 0 where
  pub msg_id : m.msg_id < u64
  pub server_seq : m.server_seq < u64
  pub timestamp : m.timestamp < 2 ^ 63

pub record FitsBroadcastMsgNotify (m : BroadcastMsgNotify) : Type 0 where
  pub timestamp : m.timestamp < 2 ^ 63

module _ (lib : JsonLib) where
  pub p2p_msg_req_round :
      (m : P2pMsgReq) → deserialize_p2p_msg_req lib (serialize_p2p_msg_req lib m) ≡ some m
  unfolding serialize_p2p_msg_req deserialize_p2p_msg_req find
  p2p_msg_req_round m =
      let d : Dict String lib.Json =
        ("from_user_id", lib.text m.from_user_id)
        ∷ ("to_user_id", lib.text m.to_user_id)
        ∷ ("client_msg_id", lib.text m.client_msg_id)
        ∷ ("content", lib.text m.content)
        ∷ [] in
      step (lib.object d) _ (lib.parse-dump (lib.object d)) (
        step m.from_user_id _
          (at_object lib lib.get_text d "from_user_id" refl (lib.get_text-text m.from_user_id))
          (step m.to_user_id _
            (at_object lib lib.get_text d "to_user_id" refl (lib.get_text-text m.to_user_id))
            (step m.client_msg_id _
              (value_object lib lib.get_text d "client_msg_id" "" refl
                (lib.get_text-text m.client_msg_id))
              (step m.content _
                (at_object lib lib.get_text d "content" refl (lib.get_text-text m.content)) refl))))

  pub p2p_msg_resp_round :
      (m : P2pMsgResp)
      → FitsP2pMsgResp m
      → deserialize_p2p_msg_resp lib (serialize_p2p_msg_resp lib m) ≡ some m
  unfolding serialize_p2p_msg_resp deserialize_p2p_msg_resp find
  p2p_msg_resp_round m fits =
      let d : Dict String lib.Json =
        ("result_code", lib.number m.result_code)
        ∷ ("result_msg", lib.text m.result_msg)
        ∷ ("msg_id", lib.number m.msg_id)
        ∷ ("server_seq", lib.number m.server_seq)
        ∷ [] in
      step (lib.object d) _ (lib.parse-dump (lib.object d)) (
        step m.result_code _
          (at_object lib lib.get_uint32 d "result_code" refl
            (lib.get_uint32-number m.result_code fits.result_code))
          (step m.result_msg _
            (at_object lib lib.get_text d "result_msg" refl (lib.get_text-text m.result_msg))
            (step m.msg_id _
              (at_object lib lib.get_uint64 d "msg_id" refl
                (lib.get_uint64-number m.msg_id fits.msg_id))
              (step m.server_seq _
                (value_object lib lib.get_uint64 d "server_seq" 0 refl
                  (lib.get_uint64-number m.server_seq fits.server_seq))
                refl))))

  pub p2p_msg_notify_round :
      (m : P2pMsgNotify)
      → FitsP2pMsgNotify m
      → deserialize_p2p_msg_notify lib (serialize_p2p_msg_notify lib m) ≡ some m
  unfolding serialize_p2p_msg_notify deserialize_p2p_msg_notify find
  p2p_msg_notify_round m fits =
      let d : Dict String lib.Json =
        ("msg_id", lib.number m.msg_id)
        ∷ ("server_seq", lib.number m.server_seq)
        ∷ ("from_user_id", lib.text m.from_user_id)
        ∷ ("to_user_id", lib.text m.to_user_id)
        ∷ ("client_msg_id", lib.text m.client_msg_id)
        ∷ ("content", lib.text m.content)
        ∷ ("timestamp", lib.number m.timestamp)
        ∷ [] in
      step (lib.object d) _ (lib.parse-dump (lib.object d)) (
        step m.msg_id _
          (at_object lib lib.get_uint64 d "msg_id" refl
            (lib.get_uint64-number m.msg_id fits.msg_id))
          (step m.server_seq _
            (at_object lib lib.get_uint64 d "server_seq" refl
              (lib.get_uint64-number m.server_seq fits.server_seq))
            (step m.from_user_id _
              (at_object lib lib.get_text d "from_user_id" refl (lib.get_text-text m.from_user_id))
              (step m.to_user_id _
                (at_object lib lib.get_text d "to_user_id" refl (lib.get_text-text m.to_user_id))
                (step m.client_msg_id _
                  (value_object lib lib.get_text d "client_msg_id" "" refl
                    (lib.get_text-text m.client_msg_id))
                  (step m.content _
                    (at_object lib lib.get_text d "content" refl (lib.get_text-text m.content))
                    (step m.timestamp _
                      (at_object lib lib.get_int64 d "timestamp" refl
                        (lib.get_int64-number m.timestamp fits.timestamp))
                      refl)))))))

  pub broadcast_msg_req_round :
      (m : BroadcastMsgReq)
      → deserialize_broadcast_msg_req lib (serialize_broadcast_msg_req lib m) ≡ some m
  unfolding serialize_broadcast_msg_req deserialize_broadcast_msg_req find
  broadcast_msg_req_round m =
      let d : Dict String lib.Json =
        ("from_user_id", lib.text m.from_user_id) ∷ ("content", lib.text m.content) ∷ [] in
      step (lib.object d) _ (lib.parse-dump (lib.object d)) (
        step m.from_user_id _
          (at_object lib lib.get_text d "from_user_id" refl (lib.get_text-text m.from_user_id))
          (step m.content _
            (at_object lib lib.get_text d "content" refl (lib.get_text-text m.content)) refl))

  pub broadcast_msg_notify_round :
      (m : BroadcastMsgNotify)
      → FitsBroadcastMsgNotify m
      → deserialize_broadcast_msg_notify lib (serialize_broadcast_msg_notify lib m) ≡ some m
  unfolding serialize_broadcast_msg_notify deserialize_broadcast_msg_notify find
  broadcast_msg_notify_round m fits =
      let d : Dict String lib.Json =
        ("from_user_id", lib.text m.from_user_id)
        ∷ ("content", lib.text m.content)
        ∷ ("timestamp", lib.number m.timestamp)
        ∷ [] in
      step (lib.object d) _ (lib.parse-dump (lib.object d)) (
        step m.from_user_id _
          (at_object lib lib.get_text d "from_user_id" refl (lib.get_text-text m.from_user_id))
          (step m.content _
            (at_object lib lib.get_text d "content" refl (lib.get_text-text m.content))
            (step m.timestamp _
              (at_object lib lib.get_int64 d "timestamp" refl
                (lib.get_int64-number m.timestamp fits.timestamp))
              refl)))

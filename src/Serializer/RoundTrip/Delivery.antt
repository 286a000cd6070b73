-- ===== src/Serializer/RoundTrip/Delivery.antt =====
-- The acknowledgement and offline messages of src/codec/messageSerializer.cpp, written and read back.
use hc_tcp_im_server.Common.{
  ◌<◌, ◌≡◌, refl, some, [], ◌∷◌, String, u32, u64, ◌^◌, List, ap, ◌∙◌, All, Option, none,
}
use hc_tcp_im_server.Common.Dict.{Dict, find}
use hc_tcp_im_server.Protocol.{ack_received}
use hc_tcp_im_server.Protocol.Messages.{
  MessageAckReq, MessageAckResp, PullOfflineReq, OfflineItem, PullOfflineResp,
}
use hc_tcp_im_server.Serializer.{JsonLib}
use hc_tcp_im_server.Serializer.Delivery.{
  serialize_message_ack_req, deserialize_message_ack_req, serialize_message_ack_resp,
  deserialize_message_ack_resp, serialize_pull_offline_req, deserialize_pull_offline_req, item_json,
  items_json, read_item, read_items, serialize_pull_offline_resp, deserialize_pull_offline_resp,
}
use hc_tcp_im_server.Serializer.Steps.{step, at_object, value_object}

-- The fields fit their types.
pub record FitsMessageAckReq (m : MessageAckReq) : Type 0 where
  pub msg_id : m.msg_id < u64
  pub server_seq : m.server_seq < u64
  pub ack_code : m.ack_code < u32

pub record FitsMessageAckResp (m : MessageAckResp) : Type 0 where
  pub result_code : m.result_code < u32
  pub server_seq : m.server_seq < u64

pub record FitsPullOfflineReq (m : PullOfflineReq) : Type 0 where
  pub last_acked_seq : m.last_acked_seq < u64
  pub limit : m.limit < u32

pub record FitsOfflineItem (m : OfflineItem) : Type 0 where
  pub msg_id : m.msg_id < u64
  pub server_seq : m.server_seq < u64
  pub timestamp : m.timestamp < 2 ^ 63

pub record FitsPullOfflineResp (m : PullOfflineResp) : Type 0 where
  pub result_code : m.result_code < u32
  pub next_begin_seq : m.next_begin_seq < u64
  pub messages : All FitsOfflineItem m.messages

module _ (lib : JsonLib) where
  pub message_ack_req_round :
      (m : MessageAckReq)
      → FitsMessageAckReq m
      → deserialize_message_ack_req lib (serialize_message_ack_req lib m) ≡ some m
  unfolding serialize_message_ack_req deserialize_message_ack_req find
  message_ack_req_round m fits =
      let d : Dict String lib.Json =
        ("msg_id", lib.number m.msg_id)
        ∷ ("server_seq", lib.number m.server_seq)
        ∷ ("ack_code", lib.number m.ack_code)
        ∷ [] in
      step (lib.object d) _ (lib.parse-dump (lib.object d)) (
        step m.msg_id _
          (at_object lib lib.get_uint64 d "msg_id" refl
            (lib.get_uint64-number m.msg_id fits.msg_id))
          (step m.server_seq _
            (at_object lib lib.get_uint64 d "server_seq" refl
              (lib.get_uint64-number m.server_seq fits.server_seq))
            (step m.ack_code _
              (value_object lib lib.get_uint32 d "ack_code" ack_received refl
                (lib.get_uint32-number m.ack_code fits.ack_code))
              refl)))

  pub message_ack_resp_round :
      (m : MessageAckResp)
      → FitsMessageAckResp m
      → deserialize_message_ack_resp lib (serialize_message_ack_resp lib m) ≡ some m
  unfolding serialize_message_ack_resp deserialize_message_ack_resp find
  message_ack_resp_round m fits =
      let d : Dict String lib.Json =
        ("result_code", lib.number m.result_code)
        ∷ ("result_msg", lib.text m.result_msg)
        ∷ ("server_seq", lib.number m.server_seq)
        ∷ [] in
      step (lib.object d) _ (lib.parse-dump (lib.object d)) (
        step m.result_code _
          (at_object lib lib.get_uint32 d "result_code" refl
            (lib.get_uint32-number m.result_code fits.result_code))
          (step m.result_msg _
            (at_object lib lib.get_text d "result_msg" refl (lib.get_text-text m.result_msg))
            (step m.server_seq _
              (value_object lib lib.get_uint64 d "server_seq" 0 refl
                (lib.get_uint64-number m.server_seq fits.server_seq))
              refl)))

  pub pull_offline_req_round :
      (m : PullOfflineReq)
      → FitsPullOfflineReq m
      → deserialize_pull_offline_req lib (serialize_pull_offline_req lib m) ≡ some m
  unfolding serialize_pull_offline_req deserialize_pull_offline_req find
  pull_offline_req_round m fits =
      let d : Dict String lib.Json =
        ("user_id", lib.text m.user_id)
        ∷ ("last_acked_seq", lib.number m.last_acked_seq)
        ∷ ("limit", lib.number m.limit)
        ∷ [] in
      step (lib.object d) _ (lib.parse-dump (lib.object d)) (
        step m.user_id _ (at_object lib lib.get_text d "user_id" refl (lib.get_text-text m.user_id))
          (step m.last_acked_seq _
            (value_object lib lib.get_uint64 d "last_acked_seq" 0 refl
              (lib.get_uint64-number m.last_acked_seq fits.last_acked_seq))
            (step m.limit _
              (value_object lib lib.get_uint32 d "limit" 100 refl
                (lib.get_uint32-number m.limit fits.limit))
              refl)))

  item_round : (m : OfflineItem) → FitsOfflineItem m → read_item lib (item_json lib m) ≡ some m
  unfolding item_json read_item find
  item_round m fits =
      let d : Dict String lib.Json =
        ("msg_id", lib.number m.msg_id)
        ∷ ("server_seq", lib.number m.server_seq)
        ∷ ("from_user_id", lib.text m.from_user_id)
        ∷ ("to_user_id", lib.text m.to_user_id)
        ∷ ("client_msg_id", lib.text m.client_msg_id)
        ∷ ("content", lib.text m.content)
        ∷ ("timestamp", lib.number m.timestamp)
        ∷ [] in
      step m.msg_id _
        (at_object lib lib.get_uint64 d "msg_id" refl (lib.get_uint64-number m.msg_id fits.msg_id))
        (step m.server_seq _
          (at_object lib lib.get_uint64 d "server_seq" refl
            (lib.get_uint64-number m.server_seq fits.server_seq))
          (step m.from_user_id _
            (at_object lib lib.get_text d "from_user_id" refl (lib.get_text-text m.from_user_id))
            (step m.to_user_id _
              (at_object lib lib.get_text d "to_user_id" refl (lib.get_text-text m.to_user_id))
              (step m.client_msg_id _
                (value_object lib lib.get_text d "client_msg_id" "" refl
                  (lib.get_text-text m.client_msg_id))
                (step m.content _
                  (at_object lib lib.get_text d "content" refl (lib.get_text-text m.content))
                  (step m.timestamp _
                    (at_object lib lib.get_int64 d "timestamp" refl
                      (lib.get_int64-number m.timestamp fits.timestamp))
                    refl))))))

  items_round :
      (ms : List OfflineItem)
      → All FitsOfflineItem ms
      → read_items lib (items_json lib ms) ≡ some ms
  unfolding items_json read_items
  items_round [] h = refl
  items_round (m ∷ ms) h = step m _ (item_round m h.0) (step ms _ (items_round ms h.1) refl)

  pub pull_offline_resp_round :
      (m : PullOfflineResp)
      → FitsPullOfflineResp m
      → deserialize_pull_offline_resp lib (serialize_pull_offline_resp lib m) ≡ some m
  unfolding serialize_pull_offline_resp deserialize_pull_offline_resp find
  pull_offline_resp_round m fits =
      let js = items_json lib m.messages in
      let d : Dict String lib.Json =
        ("result_code", lib.number m.result_code)
        ∷ ("result_msg", lib.text m.result_msg)
        ∷ ("next_begin_seq", lib.number m.next_begin_seq)
        ∷ ("messages", lib.array js)
        ∷ [] in
      step (lib.object d) _ (lib.parse-dump (lib.object d)) (
        step m.result_code _
          (at_object lib lib.get_uint32 d "result_code" refl
            (lib.get_uint32-number m.result_code fits.result_code))
          (step m.result_msg _
            (at_object lib lib.get_text d "result_msg" refl (lib.get_text-text m.result_msg))
            (step m.next_begin_seq _
              (value_object lib lib.get_uint64 d "next_begin_seq" 0 refl
                (lib.get_uint64-number m.next_begin_seq fits.next_begin_seq))
              (step m.messages _
                (ap
                    (λ (o : Option lib.Json). elim o [
                      | none ↦ some []
                      | some j ↦ read_items lib (lib.items j)
                    ])
                    (lib.member-object d "messages")
                  ∙ ap (read_items lib) (lib.items-array js)
                  ∙ items_round m.messages fits.messages)
                refl))))

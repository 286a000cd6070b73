-- ===== src/Messaging/Tests.antt =====
-- Concrete runs of the service of src/service/messageService.cpp.
use hc_tcp_im_server.Common.{
  ℕ, ◌<◌, ◌≡◌, refl, Bool, true, false, some, List, [], ◌∷◌, map, arith, take, max, All,
}
use hc_tcp_im_server.Common.Dict.{find, put, get_or, number_key, text_key}
use hc_tcp_im_server.Protocol.{delivering}
use hc_tcp_im_server.Protocol.Messages.{P2pMsgNotify}
use hc_tcp_im_server.Codec.Tests.{little}
use hc_tcp_im_server.Heartbeat.{Conn}
use hc_tcp_im_server.Store.{
  MessageStore, StoredMessage, CreateMessageRequest, new, find_duplicate, make_dedup_key,
  new_message, store_message, save_message_and_delivery, get_last_acked_seq, load_pending_messages,
}
use hc_tcp_im_server.Store.Runs.{Call, save, run}
use hc_tcp_im_server.Store.Pending.{undelivered, IsBelow}
use hc_tcp_im_server.Messaging.{MessageService, online, send_reliable_p2p_message}
use hc_tcp_im_server.Messaging.Redelivery.{deliver_pending_messages}
use hc_tcp_im_server.Messaging.Store.{in_memory}
use hc_tcp_im_server.Messaging.Retry.{
  packet, due_messages, deliver_pending_messages_lem, deliver_in_memory,
}
use hc_tcp_im_server.Messaging.Sending.{IsAnswered, send-IsAnswered, duplicate_sent}

abbrev encode : P2pMsgNotify → List ℕ
encode n = n.msg_id ∷ []

abbrev up : Conn → Bool
up c = true

abbrev bob : Conn
bob = record { fd = 8; object = 1 }

abbrev eve : Conn
eve = record { fd = 9; object = 2 }

abbrev hello : CreateMessageRequest
hello = record {
  from_user_id = "ann";
  to_user_id = "bob";
  client_msg_id = "c1";
  content = "hello";
  timestamp = 1700000000000;
}

abbrev calls : List Call
calls = save hello ∷ []

abbrev st : MessageStore
st = run new calls

abbrev service : MessageService MessageStore
service = record {
  message_store = some st;
  has_session_repository = false;
  user_to_conn = ("bob", bob) ∷ ("eve", eve) ∷ [];
  ack_timeout_ms = 15000;
  retry_backoff_ms = 3000;
  max_retry_count = 5;
  retry_batch_size = 200;
}

bob-online : online up service "bob" ≡ some bob
unfolding online find
bob-online = refl

eve-online : online up service "eve" ≡ some eve
unfolding online find
eve-online = refl

deliver_pending_messages_lem_example :
    let page = load_pending_messages st "bob" (get_last_acked_seq st "bob") 200 in
    (deliver_pending_messages little encode up in_memory service "bob" 1700000001000).1
    ≡ map (packet little encode up in_memory bob) (due_messages 5 15000 3000 1700000001000 page.0)
deliver_pending_messages_lem_example =
    deliver_pending_messages_lem little encode up in_memory service st "bob" 1700000001000 bob
      (load_pending_messages st "bob" (get_last_acked_seq st "bob") 200) refl bob-online refl

st-IsBelow : IsBelow 1 st.messages
unfolding run new save_message_and_delivery find_duplicate make_dedup_key store_message new_message
    put find
st-IsBelow = (omega arith, tt)

st-last : get_last_acked_seq st "bob" ≡ 0
unfolding run new save_message_and_delivery find_duplicate make_dedup_key store_message new_message
    put find get_last_acked_seq
st-last = refl

deliver_in_memory_example :
    let last = get_last_acked_seq st "bob" in
    let page =
      take
        (max 200 1)
        (undelivered st.messages last (get_or "bob" st.pending_msg_ids_by_user [])) in
    let ms = due_messages 5 15000 3000 1700000001000 page in
    (((deliver_pending_messages little encode up in_memory service "bob" 1700000001000).1
        ≡ map (packet little encode up in_memory bob) ms)
      × All (λ (m : StoredMessage). (last < m.notify.server_seq) × (m.retry_count < 5)) ms)
deliver_in_memory_example =
    deliver_in_memory little encode up service st "bob" 1700000001000 1 bob refl bob-online
      (omega arith) (omega (arith, st-last)) st-IsBelow

send-IsAnswered_example :
    IsAnswered little encode up
      (online up service "eve")
      (save_message_and_delivery st (record {
        from_user_id = "ann";
        to_user_id = "eve";
        client_msg_id = "c2";
        content = "hi";
        timestamp = 1700000002000;
      })).1
      (send_reliable_p2p_message little encode up in_memory service "ann" "eve" "c2" "hi"
        1700000002000)
send-IsAnswered_example =
    send-IsAnswered little encode up service calls "ann" "eve" "c2" "hi" 1700000002000 refl
      (omega arith)

abbrev stored : StoredMessage
stored = new_message new hello

-- The client id of the message to Bob, in a message to Eve.
known :
    find_duplicate st (record {
      from_user_id = "ann";
      to_user_id = "eve";
      client_msg_id = "c1";
      content = "hi";
      timestamp = 1700000002000;
    })
    ≡ some stored
unfolding run new save_message_and_delivery find_duplicate make_dedup_key store_message new_message
    put find
known = refl

-- Eve gets the message to Bob.
duplicate_sent_example :
    let q =
      send_reliable_p2p_message little encode up in_memory service "ann" "eve" "c1" "hi"
        1700000002000 in
    (q.4 ≡ packet little encode up in_memory eve stored ∷ [])
    × ((t : MessageStore) × (m' : StoredMessage) × (q.0.message_store ≡ some t)
        × (find stored.notify.msg_id t.messages ≡ some m')
        × (m'.status ≡ delivering))
duplicate_sent_example =
    duplicate_sent little encode up service calls "ann" "eve" "c1" "hi" 1700000002000 eve stored
      refl (omega arith) eve-online known

-- ===== src/Store/Tests.antt =====
-- Concrete runs of the store of src/storage/messageStore.cpp.
use hc_tcp_im_server.Common.{
  ℕ, some, none, List, [], ◌∷◌, ◌≤◌, ◌≡◌, ◌≢◌, refl, true, arith, length, max, take, All,
  str_eq_iff,
}
use hc_tcp_im_server.Common.Dict.{put, find, get_or, text_key, number_key}
use hc_tcp_im_server.Protocol.{ack_received}
use hc_tcp_im_server.Store.{
  MessageStore, StoredMessage, CreateMessageRequest, new, save_message_and_delivery, mark_acked,
  load_pending_messages, find_duplicate, make_dedup_key, store_message, new_message,
}
use hc_tcp_im_server.Store.Runs.{Call, save, ack, run}
use hc_tcp_im_server.Store.Exactly.{save_once, run_unique}
use hc_tcp_im_server.Store.Done.{acked_not_loaded}
use hc_tcp_im_server.Store.Pending.{undelivered, IsPaged, IsBelow, load_pending_messages_lem}

abbrev hello : CreateMessageRequest
hello = record {
  from_user_id = "ann";
  to_user_id = "bob";
  client_msg_id = "c1";
  content = "hello";
  timestamp = 1700000000000;
}

-- The same request, sent again with another text and time.
abbrev hello_again : CreateMessageRequest
hello_again = record hello { content = "hello?"; timestamp = 1700000009000 }

c1-ne : hello.client_msg_id ≢ ""
c1-ne e = ground (arith, (str_eq_iff "c1" "").1 e)

abbrev one : MessageStore
one = (save_message_and_delivery new hello).0

one-IsBelow : IsBelow 1 one.messages
unfolding new save_message_and_delivery find_duplicate make_dedup_key store_message new_message put
    find
one-IsBelow = (omega arith, tt)

load_pending_messages_lem_example :
    let r = load_pending_messages one "bob" 0 10 in
    ((r.0
        ≡ take
            (max 10 1)
            (undelivered one.messages 0 (get_or "bob" one.pending_msg_ids_by_user [])))
      × All (IsPaged 0 r.1) r.0
      × (length r.0 ≤ max 10 1))
load_pending_messages_lem_example =
    load_pending_messages_lem one "bob" 0 10 1 (omega arith) (omega arith) one-IsBelow

abbrev ping : CreateMessageRequest
ping = record {
  from_user_id = "bob";
  to_user_id = "ann";
  client_msg_id = "c9";
  content = "ping";
  timestamp = 1700000002000;
}

save_once_example :
    let first = save_message_and_delivery (run new (save ping ∷ [])) hello in
    let t = run first.0 (ack "bob" 2 1 ack_received 1700000003000 ∷ save ping ∷ []) in
    ((m : StoredMessage) × (save_message_and_delivery t hello_again ≡ (t, m, true))
      × (m.notify ≡ first.1.notify))
save_once_example =
    save_once (save ping ∷ []) (ack "bob" 2 1 ack_received 1700000003000 ∷ save ping ∷ []) hello
      hello_again (omega arith) c1-ne refl refl

-- The two messages, in the store that the calls leave.
abbrev both : List Call
both = save hello ∷ save ping ∷ []

abbrev hello_stored : StoredMessage
hello_stored = new_message new hello

hello_found : find 1 (run new both).messages ≡ some hello_stored
unfolding run new save_message_and_delivery find_duplicate make_dedup_key store_message new_message
    put find
hello_found = refl

abbrev hello_id : ℕ
hello_id = 1

run_unique_example : (hello_stored.notify.msg_id ≡ hello_id) × (hello_id ≡ hello_id)
run_unique_example =
    run_unique both hello_id hello_id hello_stored hello_stored (omega arith) hello_found
      hello_found refl refl

hello_acked : (mark_acked (run new both) "bob" 1 1 ack_received 1700000003000).2 ≡ none
unfolding run new save_message_and_delivery find_duplicate make_dedup_key store_message new_message
    put find mark_acked
hello_acked = refl

acked_not_loaded_example :
    let t = (mark_acked (run new both) "bob" 1 1 ack_received 1700000003000).0 in
    All (λ (m : StoredMessage). m.notify.msg_id ≢ 1) (load_pending_messages t "bob" 0 10).0
acked_not_loaded_example =
    acked_not_loaded both "bob" "bob" 1 1 ack_received 1700000003000 0 10 (omega arith) hello_acked

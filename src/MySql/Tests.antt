-- ===== src/MySql/Tests.antt =====
-- Concrete runs of `MySqlMessageStore` against a MySQL library that answers from a list.
use hc_tcp_im_server.Common.{
  ◌≡◌, refl, Bool, true, false, Option, none, some, List, [], ◌∷◌, arith, max,
}
use hc_tcp_im_server.Common.Dict.{find, put, get_or, text_key}
use hc_tcp_im_server.Protocol.{persisted, ack_received}
use hc_tcp_im_server.Serializer.{◌>>=◌}
use hc_tcp_im_server.Store.{CreateMessageRequest, StoredMessage}
use hc_tcp_im_server.MySql
use hc_tcp_im_server.MySql.{Mysql, Result, Client}
use hc_tcp_im_server.MySql.Messages
use hc_tcp_im_server.MySql.Messages.{done, build_message_record, insert_message_sql}
use hc_tcp_im_server.MySql.Deliveries
use hc_tcp_im_server.MySql.Deliveries.{
  build_delivery_record, insert_delivery_sql, get_max_server_seq,
}
use hc_tcp_im_server.MySql.MessageStore
use hc_tcp_im_server.MySql.MessageStore.{
  MySqlStoreOptions, MySqlMessageStore, save_new, save_message_and_delivery, next_message,
  message_record, delivery_record, stored_message,
}
use hc_tcp_im_server.MySql.Marks
use hc_tcp_im_server.MySql.Text
use hc_tcp_im_server.MySql.Marks.{mark_acked, last_acked_seq}
use hc_tcp_im_server.MySql.Logged
use hc_tcp_im_server.MySql.Logged.{Logged, logged, log_of}
use hc_tcp_im_server.MySql.Statements.{has_open}
use hc_tcp_im_server.MySql.Calls.{Call, save, ack, load, run, run_closed}
use hc_tcp_im_server.MySql.Written.{IsWritten, save_message_and_delivery-IsWritten}
use hc_tcp_im_server.MySql.Cursors.{mark_acked_reports}
use hc_tcp_im_server.MySql.RoundTrip.{
  row_of, insert_into, message_columns, delivery_columns, next_message_read_back,
}

-- What the statements that follow are answered: whether they are accepted, and with which rows. After
-- the list, every statement is accepted, without rows.
abbrev Answers : Type 0
Answers = List (Option Result)

-- The result of the last statement, and the answers left. A none refuses the statement.
abbrev Script : Type 0
Script = Option Result × Answers

abbrev nothing : Result
nothing = record { fields = []; rows = [] }

abbrev answer : Script → Script × Bool
answer (last, []) = ((some nothing, []), true)
answer (last, none ∷ rest) = ((none, rest), false)
answer (last, some r ∷ rest) = ((some r, rest), true)

instance abbrev scripted : Mysql Script
scripted = record {
  mysql_init = some (none, []);
  mysql_options = λ h n. h;
  mysql_real_connect = λ h host user password database port. (h, true);
  mysql_query = λ h sql. answer h;
  mysql_store_result = λ h. (h, h.0);
  mysql_field_count = λ h. 1;
  mysql_error = λ h. "lost connection";
  mysql_real_escape_string = λ h s. s;
}

abbrev options : MySqlStoreOptions
options = record {
  enabled = true;
  host = "127.0.0.1";
  port = 3306;
  user = "im";
  password = "im";
  database = "im_server";
  connect_timeout_ms = 2000;
}

abbrev hello : CreateMessageRequest
hello = record {
  from_user_id = "ann";
  to_user_id = "bob";
  client_msg_id = "c1";
  content = "hello";
  timestamp = 1700000000000;
}

-- A store with its connection open, over a library with answers.
abbrev store : Answers → MySqlMessageStore Script
store answers = record {
  options = options;
  client = record { impl = some (none, answers); last_error = "" };
  has_repositories = true;
  next_msg_id = 8;
  next_server_seq_by_user = [];
  last_acked_seq_cache = [];
}

abbrev logged_store : Answers → MySqlMessageStore (Logged Script)
logged_store answers = record {
  options = options;
  client = record { impl = some ((none, answers), []); last_error = "" };
  has_repositories = true;
  next_msg_id = 8;
  next_server_seq_by_user = [];
  last_acked_seq_cache = [];
}

-- The second insert is refused.
abbrev refusing : Answers
refusing = some nothing ∷ some nothing ∷ some nothing ∷ some nothing ∷ none ∷ []

abbrev calls : List Call
calls = save hello ∷ load "bob" 0 10 ∷ ack 5 "bob" 8 1 ack_received 6 ∷ []

run_closed_example : has_open (run (logged_store refusing) calls).client ≡ false
unfolding has_open log_of Logged.is_in_transaction
run_closed_example = run_closed (logged_store refusing) calls refl

next_message_read_back_example :
    let s = store [] in
    let message = next_message s hello in
    let into_message = message_columns (message_record message) in
    let into_delivery = delivery_columns (delivery_record message) in
    ((insert_message_sql s.client (message_record message)
        ≡ insert_into "im_message" s.client into_message)
      × (insert_delivery_sql s.client (delivery_record message)
          ≡ insert_into "im_message_delivery" s.client into_delivery)
      × ((build_message_record (row_of into_message) >>= λ a.
            build_delivery_record (row_of into_delivery) >>= λ b. some (stored_message a b))
          ≡ some message))
next_message_read_back_example =
    next_message_read_back (store []) hello (omega arith) (omega arith) (omega arith)

-- The message that the store saves, with the receiver's cursor at 0.
abbrev saved : StoredMessage
saved = record {
  notify = record {
    msg_id = 8;
    server_seq = 1;
    from_user_id = "ann";
    to_user_id = "bob";
    client_msg_id = "c1";
    content = "hello";
    timestamp = 1700000000000;
  };
  status = persisted;
  receiver_id = "bob";
  created_at = 1700000000000;
  last_deliver_at = 0;
  acked_at = 0;
  retry_count = 0;
}

save_message_and_delivery-IsWritten_example :
    IsWritten Script saved (log_of (save_message_and_delivery (logged_store []) hello).0.client)
unfolding MySql.query MySql.fetch MySql.execute MySql.begin MySql.commit MySql.row_loop
    MySql.text_of Messages.find_by_sender_client_msg_id Messages.first_message Messages.first_number
    Messages.create_message Deliveries.create_delivery Deliveries.get_max_server_seq
    MessageStore.find_duplicate_message MessageStore.ensure_server_seq_cursor
    MessageStore.transaction MessageStore.insert_both MessageStore.next_message
    MessageStore.take_numbers MessageStore.save_new MessageStore.save_message_and_delivery
    MessageStore.is_failed find put
save_message_and_delivery-IsWritten_example =
    save_message_and_delivery-IsWritten (logged_store []) hello saved refl

abbrev to_carol : CreateMessageRequest
to_carol = record hello { to_user_id = "carol"; client_msg_id = "c2" }

-- The message of the third save that is tried behind the refused query.
abbrev saved_third : StoredMessage
saved_third = record saved {
  notify = record {
    msg_id = 10;
    server_seq = 2;
    from_user_id = "ann";
    to_user_id = "bob";
    client_msg_id = "c1";
    content = "hello";
    timestamp = 1700000000000;
  };
}

-- The query of the highest number is refused, and all after it is accepted.
abbrev lost : MySqlMessageStore Script
lost = store (none ∷ [])

-- The delivery of message 8, with number 3.
abbrev found : Result
found = record {
  fields =
      some "message_id"
      ∷ some "receiver_user_id"
      ∷ some "server_seq"
      ∷ some "status"
      ∷ some "retry_count"
      ∷ some "last_error"
      ∷ [];
  rows = (some "8" ∷ some "bob" ∷ some "3" ∷ some "2" ∷ some "0" ∷ some "" ∷ []) ∷ [];
}

mark_acked_reports_example :
    let s = store (some found ∷ []) in
    (3 ≡ max (get_or "bob" s.last_acked_seq_cache 0) 3)
    × ((last_acked_seq (mark_acked s 5 "bob" 8 3 ack_received 6).0 "bob").1 ≡ some 3)
unfolding MySql.query MySql.fetch MySql.execute MySql.begin MySql.commit MySql.row_loop
    MySql.text_of Deliveries.find_by_message_and_receiver Deliveries.first_delivery
    Deliveries.build_delivery_record Deliveries.update_delivery_status Deliveries.append_ack_log
    Messages.or_thrown MessageStore.transaction Marks.mark_acked Marks.ack_found
    Marks.update_and_log Text.to_uint64 Text.to_int64 Text.column_status Text.column_uint32
    Text.status_of Text.stoull Text.stoll Text.sto Text.read_digits Text.is_digit find put
mark_acked_reports_example =
    mark_acked_reports (store (some found ∷ [])) 5 "bob" 8 3 ack_received 6 3 refl

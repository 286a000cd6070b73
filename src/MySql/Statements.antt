-- ===== src/MySql/Statements.antt =====
-- src/storage/messageRepository.cpp and deliveryRepository.cpp: no statement of theirs opens or ends
-- a transaction.
use hc_tcp_im_server.Common.{
  ℕ, ◌≡◌, refl, Bool, Option, none, some, List, [], ◌∷◌, String, arith, ◌∙◌, ap,
}
use hc_tcp_im_server.Common.Dict.{text_key}
use hc_tcp_im_server.Protocol.{DeliveryStatus}
use hc_tcp_im_server.MySql.{Mysql, Client, Row}
use hc_tcp_im_server.MySql.Messages.{
  MessageRecord, create_message, insert_message_sql, first_message, find_by_message_id,
  find_by_sender_client_msg_id, first_number,
}
use hc_tcp_im_server.MySql.Deliveries.{
  DeliveryRecord, create_delivery, insert_delivery_sql, update_delivery_status, update_status_sql,
  find_by_message_and_receiver, first_delivery, all_deliveries, list_pending_by_receiver,
  get_max_server_seq, read_last_acked_seq, append_ack_log, append_ack_log_sql,
}
use hc_tcp_im_server.MySql.Logged.{
  Logged, logged, log_of, is_in_transaction, stream-IsLong, execute_long, query_long,
}

module _ {H : Type 0} ⦃m : Mysql H⦄ where
  -- Whether the client's connection has a transaction open.
  unfoldable pub has_open : Client (Logged H) → Bool
  has_open c = is_in_transaction (log_of c)

  -- The statements of the repositories leave it as it is.
  module _ (c : Client (Logged H)) where
    pub create_message_open : (r : MessageRecord) → has_open (create_message c r).0 ≡ has_open c
    unfolding has_open create_message insert_message_sql
    create_message_open r =
        execute_long c (insert_message_sql c r) (stream-IsLong _ _ (omega arith))

    pub create_delivery_open : (r : DeliveryRecord) → has_open (create_delivery c r).0 ≡ has_open c
    unfolding has_open create_delivery insert_delivery_sql
    create_delivery_open r =
        execute_long c (insert_delivery_sql c r) (stream-IsLong _ _ (omega arith))

    pub update_delivery_status_open :
        (now id : ℕ) (user : String) (st : DeliveryStatus) (n d a : ℕ)
        → has_open (update_delivery_status c now id user st n d a).0 ≡ has_open c
    unfolding has_open update_delivery_status update_status_sql
    update_delivery_status_open now id user st n d a =
        execute_long c (update_status_sql c now id user st n d a) (stream-IsLong _ _ (omega arith))

    pub append_ack_log_open :
        (id : ℕ) (user : String) (seq code at : ℕ)
        → has_open (append_ack_log c id user seq code at).0 ≡ has_open c
    unfolding has_open append_ack_log append_ack_log_sql
    append_ack_log_open id user seq code at =
        execute_long c (append_ack_log_sql c id user seq code at) (stream-IsLong _ _ (omega arith))

  first_message_client : (q : Client (Logged H) × Option (List Row)) → (first_message q).0 ≡ q.0
  unfolding first_message
  first_message_client (c, none) = refl
  first_message_client (c, some []) = refl
  first_message_client (c, some (row ∷ rows)) = refl

  first_delivery_client : (q : Client (Logged H) × Option (List Row)) → (first_delivery q).0 ≡ q.0
  unfolding first_delivery
  first_delivery_client (c, none) = refl
  first_delivery_client (c, some []) = refl
  first_delivery_client (c, some (row ∷ rows)) = refl

  all_deliveries_client : (q : Client (Logged H) × Option (List Row)) → (all_deliveries q).0 ≡ q.0
  unfolding all_deliveries
  all_deliveries_client (c, none) = refl
  all_deliveries_client (c, some rows) = refl

  first_number_client :
      (column : String) (q : Client (Logged H) × Option (List Row))
      → (first_number column q).0 ≡ q.0
  unfolding first_number
  first_number_client column (c, none) = refl
  first_number_client column (c, some []) = refl
  first_number_client column (c, some (row ∷ rows)) = refl

  module _ (c : Client (Logged H)) where
    pub find_by_message_id_open : (id : ℕ) → has_open (find_by_message_id c id).0 ≡ has_open c
    unfolding has_open find_by_message_id
    find_by_message_id_open id =
        ap has_open (first_message_client _) ∙ query_long c _ (stream-IsLong _ _ (omega arith))

    pub find_by_sender_open :
        (user id : String) → has_open (find_by_sender_client_msg_id c user id).0 ≡ has_open c
    unfolding has_open find_by_sender_client_msg_id
    find_by_sender_open user id =
        ap has_open (first_message_client _) ∙ query_long c _ (stream-IsLong _ _ (omega arith))

    pub find_by_receiver_open :
        (id : ℕ) (user : String) → has_open (find_by_message_and_receiver c id user).0 ≡ has_open c
    unfolding has_open find_by_message_and_receiver
    find_by_receiver_open id user =
        ap has_open (first_delivery_client _) ∙ query_long c _ (stream-IsLong _ _ (omega arith))

    pub list_pending_open :
        (user : String) (from limit : ℕ)
        → has_open (list_pending_by_receiver c user from limit).0 ≡ has_open c
    unfolding has_open list_pending_by_receiver
    list_pending_open user from limit =
        ap has_open (all_deliveries_client _) ∙ query_long c _ (stream-IsLong _ _ (omega arith))

    pub get_max_server_seq_open :
        (user : String) → has_open (get_max_server_seq c user).0 ≡ has_open c
    unfolding has_open get_max_server_seq
    get_max_server_seq_open user =
        ap has_open (first_number_client _ _) ∙ query_long c _ (stream-IsLong _ _ (omega arith))

    pub read_last_acked_seq_open :
        (user : String) → has_open (read_last_acked_seq c user).0 ≡ has_open c
    unfolding has_open read_last_acked_seq
    read_last_acked_seq_open user =
        ap has_open (first_number_client _ _) ∙ query_long c _ (stream-IsLong _ _ (omega arith))

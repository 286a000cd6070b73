-- ===== src/MySql/Deliveries.antt =====
-- src/storage/deliveryRepository.cpp: `DeliveryRepository`, the tables im_message_delivery and
-- im_message_ack_log. The clock of `updated_at_ms` is a parameter of the call.
use hc_tcp_im_server.Common.{ℕ, Bool, Option, none, some, List, [], ◌∷◌, String}
use hc_tcp_im_server.Common.Dict.{find, text_key}
use hc_tcp_im_server.Protocol.{DeliveryStatus, persisted, delivering, delivered, read}
use hc_tcp_im_server.Serializer.{◌>>=◌}
use hc_tcp_im_server.MySql.{Mysql, Client, Row, execute, query, escape}
use hc_tcp_im_server.MySql.Text.{
  stream, decimal, to_uint64, to_int64, column_uint32, column_status, status_number,
}
use hc_tcp_im_server.MySql.Messages.{Answer, done, refused, or_thrown, first_number}

-- `DeliveryRecord`
pub record DeliveryRecord : Type 0 where
  pub message_id : ℕ
  pub receiver_user_id : String
  pub server_seq : ℕ
  pub status : DeliveryStatus
  pub retry_count : ℕ
  pub last_error : String
  pub delivered_at_ms : ℕ
  pub acked_at_ms : ℕ
  pub created_at_ms : ℕ
  pub updated_at_ms : ℕ

unfoldable pub build_delivery_record : Row → Option DeliveryRecord
build_delivery_record row = to_uint64 row "message_id" >>= λ message_id.
    find "receiver_user_id" row >>= λ receiver_user_id. to_uint64 row "server_seq" >>= λ server_seq.
    column_status row >>= λ status. column_uint32 row "retry_count" >>= λ retry_count.
    find "last_error" row >>= λ last_error. to_int64 row "delivered_at_ms" >>= λ delivered_at_ms.
    to_int64 row "acked_at_ms" >>= λ acked_at_ms. to_int64 row "created_at_ms" >>= λ created_at_ms.
    to_int64 row "updated_at_ms" >>= λ updated_at_ms. some (record {
      message_id = message_id;
      receiver_user_id = receiver_user_id;
      server_seq = server_seq;
      status = status;
      retry_count = retry_count;
      last_error = last_error;
      delivered_at_ms = delivered_at_ms;
      acked_at_ms = acked_at_ms;
      created_at_ms = created_at_ms;
      updated_at_ms = updated_at_ms;
    })

-- The loop over the rows: an exception at one of them leaves the call.
unfoldable pub build_records : List Row → Option (List DeliveryRecord)
build_records [] = some []
build_records (row ∷ rows) =
    let rest = build_records rows in build_delivery_record row >>= λ r. rest >>= λ rs. some (r ∷ rs)

module _ {H : Type 0} ⦃m : Mysql H⦄ where
  unfoldable pub insert_delivery_sql : Client H → DeliveryRecord → String
  insert_delivery_sql c r = stream (
      "INSERT INTO im_message_delivery "
      ∷ "(message_id, receiver_user_id, server_seq, status, retry_count, last_error, "
      ∷ "delivered_at_ms, acked_at_ms, created_at_ms, updated_at_ms) VALUES ("
      ∷ decimal r.message_id
      ∷ ", '"
      ∷ (escape c r.receiver_user_id).1
      ∷ "', "
      ∷ decimal r.server_seq
      ∷ ", "
      ∷ decimal (status_number r.status)
      ∷ ", "
      ∷ decimal r.retry_count
      ∷ ", '"
      ∷ (escape c r.last_error).1
      ∷ "', "
      ∷ decimal r.delivered_at_ms
      ∷ ", "
      ∷ decimal r.acked_at_ms
      ∷ ", "
      ∷ decimal r.created_at_ms
      ∷ ", "
      ∷ decimal r.updated_at_ms
      ∷ ")"
      ∷ [])

  unfoldable pub create_delivery : Client H → DeliveryRecord → Client H × Bool
  create_delivery c r = execute c (insert_delivery_sql c r)

  unfoldable pub update_status_sql : Client H → ℕ → ℕ → String → DeliveryStatus → ℕ → ℕ → ℕ → String
  update_status_sql c now id receiver status retry_count delivered_at acked_at = stream (
      "UPDATE im_message_delivery SET "
      ∷ "status="
      ∷ decimal (status_number status)
      ∷ ", "
      ∷ "retry_count="
      ∷ decimal retry_count
      ∷ ", "
      ∷ "delivered_at_ms="
      ∷ decimal delivered_at
      ∷ ", "
      ∷ "acked_at_ms="
      ∷ decimal acked_at
      ∷ ", "
      ∷ "updated_at_ms="
      ∷ decimal now
      ∷ " "
      ∷ "WHERE message_id="
      ∷ decimal id
      ∷ " AND receiver_user_id='"
      ∷ (escape c receiver).1
      ∷ "'"
      ∷ [])

  unfoldable pub update_delivery_status :
      Client H → ℕ → ℕ → String → DeliveryStatus → ℕ → ℕ → ℕ → Client H × Bool
  update_delivery_status c now id receiver status retry_count delivered_at acked_at =
      execute c (update_status_sql c now id receiver status retry_count delivered_at acked_at)

  unfoldable pub first_delivery :
      Client H × Option (List Row) → Client H × Answer (Option DeliveryRecord)
  first_delivery (c, none) = (c, refused)
  first_delivery (c, some []) = (c, done none)
  first_delivery (c, some (row ∷ rows)) =
      (c, or_thrown (build_delivery_record row >>= λ r. some (some r)))

  unfoldable pub find_by_message_and_receiver :
      Client H → ℕ → String → Client H × Answer (Option DeliveryRecord)
  find_by_message_and_receiver c id receiver = first_delivery (
      query c (
        stream (
          "SELECT message_id, receiver_user_id, server_seq, status, retry_count, last_error, "
          ∷ "delivered_at_ms, acked_at_ms, created_at_ms, updated_at_ms "
          ∷ "FROM im_message_delivery WHERE message_id="
          ∷ decimal id
          ∷ " AND receiver_user_id='"
          ∷ (escape c receiver).1
          ∷ "' LIMIT 1"
          ∷ [])))

  unfoldable pub all_deliveries :
      Client H × Option (List Row) → Client H × Answer (List DeliveryRecord)
  all_deliveries (c, none) = (c, refused)
  all_deliveries (c, some rows) = (c, or_thrown (build_records rows))

  unfoldable pub list_pending_by_receiver :
      Client H → String → ℕ → ℕ → Client H × Answer (List DeliveryRecord)
  list_pending_by_receiver c receiver from limit = all_deliveries (
      query c (
        stream (
          "SELECT message_id, receiver_user_id, server_seq, status, retry_count, last_error, "
          ∷ "delivered_at_ms, acked_at_ms, created_at_ms, updated_at_ms "
          ∷ "FROM im_message_delivery WHERE receiver_user_id='"
          ∷ (escape c receiver).1
          ∷ "' "
          ∷ "AND server_seq > "
          ∷ decimal from
          ∷ " "
          ∷ "AND status IN ("
          ∷ decimal (status_number persisted)
          ∷ ", "
          ∷ decimal (status_number delivering)
          ∷ ") "
          ∷ "ORDER BY server_seq ASC LIMIT "
          ∷ decimal limit
          ∷ [])))

  unfoldable pub get_max_server_seq : Client H → String → Client H × Answer ℕ
  get_max_server_seq c receiver = first_number "max_server_seq" (
      query c (
        stream (
          "SELECT COALESCE(MAX(server_seq), 0) AS max_server_seq "
          ∷ "FROM im_message_delivery WHERE receiver_user_id='"
          ∷ (escape c receiver).1
          ∷ "'"
          ∷ [])))

  unfoldable pub read_last_acked_seq : Client H → String → Client H × Answer ℕ
  read_last_acked_seq c receiver = first_number "last_acked_seq" (
      query c (
        stream (
          "SELECT COALESCE(MAX(server_seq), 0) AS last_acked_seq "
          ∷ "FROM im_message_delivery WHERE receiver_user_id='"
          ∷ (escape c receiver).1
          ∷ "' "
          ∷ "AND status IN ("
          ∷ decimal (status_number delivered)
          ∷ ", "
          ∷ decimal (status_number read)
          ∷ ")"
          ∷ [])))

  unfoldable pub append_ack_log_sql : Client H → ℕ → String → ℕ → ℕ → ℕ → String
  append_ack_log_sql c id receiver seq ack_code acked_at = stream (
      "INSERT INTO im_message_ack_log "
      ∷ "(message_id, receiver_user_id, server_seq, ack_code, acked_at_ms) VALUES ("
      ∷ decimal id
      ∷ ", '"
      ∷ (escape c receiver).1
      ∷ "', "
      ∷ decimal seq
      ∷ ", "
      ∷ decimal ack_code
      ∷ ", "
      ∷ decimal acked_at
      ∷ ")"
      ∷ [])

  unfoldable pub append_ack_log : Client H → ℕ → String → ℕ → ℕ → ℕ → Client H × Bool
  append_ack_log c id receiver seq ack_code acked_at =
      execute c (append_ack_log_sql c id receiver seq ack_code acked_at)

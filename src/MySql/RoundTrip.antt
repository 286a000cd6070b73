-- ===== src/MySql/RoundTrip.antt =====
-- src/storage/: a message that `saveMessageAndDelivery` writes is read back as it was.
use Prim.Native.String.{◌++◌ as str_append}
use text.Mathlib.TextLemmas.{append_assoc}
use hc_tcp_im_server.Common.{
  sym, ◌∙◌, List, ℕ, ◌^◌, ◌<◌, ◌≡◌, refl, some, [], ◌∷◌, String, arith, u64, u32, ap,
}
use hc_tcp_im_server.Common.Dict.{find, text_key}
use hc_tcp_im_server.Protocol.{
  DeliveryStatus, created, persisted, delivering, delivered, failed, read,
}
use hc_tcp_im_server.Serializer.{◌>>=◌}
use hc_tcp_im_server.Store.{CreateMessageRequest}
use hc_tcp_im_server.MySql.{Mysql, Client, Row, escape}
use hc_tcp_im_server.MySql.Text.{
  stream, sto, digits_before, is_digit, digit, read_digits, decimal, stoull, stoll, to_uint64,
  to_int64, column_uint32, column_status, status_number, status_of,
}
use hc_tcp_im_server.MySql.Numbers.{sto-decimal, decimal_filled}
use hc_tcp_im_server.MySql.Messages.{MessageRecord, insert_message_sql, build_message_record}
use hc_tcp_im_server.MySql.Deliveries.{DeliveryRecord, insert_delivery_sql, build_delivery_record}
use hc_tcp_im_server.MySql.MessageStore.{
  MySqlMessageStore, stored_message, message_record, delivery_record, next_message,
}

-- A value that an INSERT writes: a number in decimal, or a text that is escaped between quotes.
pub data Literal : Type 0 where
  number : ℕ → Literal
  quoted : String → Literal

-- The columns that a statement names, each with the value at its place.
abbrev pub Columns : Type 0
Columns = List (String × Literal)

-- What a statement that is accepted leaves in its row, as a query reads it: each column has the text of
-- its value. MySQL takes the escapes of a quoted text back, and prints a number in decimal.
abbrev pub row_of : Columns → Row
row_of [] = []
row_of ((name, number n) ∷ cs) = (name, decimal n) ∷ row_of cs
row_of ((name, quoted t) ∷ cs) = (name, t) ∷ row_of cs

abbrev names_of : Columns → String
names_of [] = ""
names_of ((name, v) ∷ []) = name
names_of ((name, v) ∷ (name', v') ∷ cs) =
    str_append name (str_append ", " (names_of ((name', v') ∷ cs)))

-- Between two values: the quote that closes the first, a comma, and the quote that opens the second.
abbrev between : Literal → Literal → String
between (number n) (number k) = ", "
between (number n) (quoted t) = ", '"
between (quoted t) (number k) = "', "
between (quoted t) (quoted u) = "', '"

module _ {H : Type 0} ⦃m : Mysql H⦄ where
  abbrev raw : Client H → Literal → String
  raw c (number n) = decimal n
  raw c (quoted t) = (escape c t).1

  abbrev values_of : Client H → Columns → List String
  values_of c [] = ")" ∷ []
  values_of c ((name, number n) ∷ []) = decimal n ∷ ")" ∷ []
  values_of c ((name, quoted t) ∷ []) = (escape c t).1 ∷ "')" ∷ []
  values_of c ((name, v) ∷ (name', v') ∷ cs) =
      raw c v ∷ between v v' ∷ values_of c ((name', v') ∷ cs)

  -- `INSERT INTO table (names) VALUES (values)`, whose first value is a number.
  abbrev pub insert_into : String → Client H → Columns → String
  insert_into table c cs =
      str_append
        (str_append "INSERT INTO "
          (str_append table (str_append " (" (str_append (names_of cs) ") VALUES ("))))
        (stream (values_of c cs))

-- The columns of a row of im_message.
abbrev pub message_columns : MessageRecord → Columns
message_columns r =
    ("id", number r.message_id)
    ∷ ("client_msg_id", quoted r.client_msg_id)
    ∷ ("from_user_id", quoted r.from_user_id)
    ∷ ("to_user_id", quoted r.to_user_id)
    ∷ ("conversation_id", quoted r.conversation_id)
    ∷ ("payload_format", number r.payload_format)
    ∷ ("content", quoted r.content)
    ∷ ("message_type", quoted r.message_type)
    ∷ ("status", number (status_number r.status))
    ∷ ("created_at_ms", number r.created_at_ms)
    ∷ ("updated_at_ms", number r.updated_at_ms)
    ∷ []

-- The columns of a row of im_message_delivery.
abbrev pub delivery_columns : DeliveryRecord → Columns
delivery_columns r =
    ("message_id", number r.message_id)
    ∷ ("receiver_user_id", quoted r.receiver_user_id)
    ∷ ("server_seq", number r.server_seq)
    ∷ ("status", number (status_number r.status))
    ∷ ("retry_count", number r.retry_count)
    ∷ ("last_error", quoted r.last_error)
    ∷ ("delivered_at_ms", number r.delivered_at_ms)
    ∷ ("acked_at_ms", number r.acked_at_ms)
    ∷ ("created_at_ms", number r.created_at_ms)
    ∷ ("updated_at_ms", number r.updated_at_ms)
    ∷ []

three_pieces :
    (a b c rest : String)
    → str_append a (str_append b (str_append c rest))
      ≡ str_append (str_append (str_append a b) c) rest
three_pieces a b c rest =
    sym (append_assoc (str_append a b) c rest ∙ append_assoc a b (str_append c rest))

module _ {H : Type 0} ⦃m : Mysql H⦄ (c : Client H) where
  insert_message_sql_lem :
      (r : MessageRecord) → insert_message_sql c r ≡ insert_into "im_message" c (message_columns r)
  unfolding insert_message_sql stream
  insert_message_sql_lem r =
      three_pieces "INSERT INTO im_message "
        "(id, client_msg_id, from_user_id, to_user_id, conversation_id, payload_format, content, "
        "message_type, status, created_at_ms, updated_at_ms) VALUES ("
        (stream (values_of c (message_columns r)))

  insert_delivery_sql_lem :
      (r : DeliveryRecord)
      → insert_delivery_sql c r ≡ insert_into "im_message_delivery" c (delivery_columns r)
  unfolding insert_delivery_sql stream
  insert_delivery_sql_lem r =
      three_pieces "INSERT INTO im_message_delivery "
        "(message_id, receiver_user_id, server_seq, status, retry_count, last_error, "
        "delivered_at_ms, acked_at_ms, created_at_ms, updated_at_ms) VALUES ("
        (stream (values_of c (delivery_columns r)))

module _ (row : Row) (key : String) (n : ℕ) (e : find key row ≡ some (decimal n)) where
  to_uint64-decimal : n < u64 → to_uint64 row key ≡ some n
  unfolding to_uint64 stoull
  to_uint64-decimal h = rw (to_uint64, e, decimal_filled n) (sto-decimal u64 n h (omega arith))

  to_int64-decimal : n < 2 ^ 63 → to_int64 row key ≡ some n
  unfolding to_int64 stoll
  to_int64-decimal h = rw (to_int64, e, decimal_filled n) (sto-decimal (2 ^ 63) n h (omega arith))

  column_uint32-decimal : n < u32 → column_uint32 row key ≡ some n
  unfolding column_uint32 stoull
  column_uint32-decimal h =
      rw (e, sto-decimal u64 n (omega arith) (omega arith)) (ap some (omega arith))

column_status-decimal :
    (row : Row) (s : DeliveryStatus)
    → find "status" row ≡ some (decimal (status_number s))
    → column_status row ≡ some s
unfolding column_status stoull status_number status_of sto decimal digits_before is_digit digit
    read_digits
column_status-decimal row created e = rw e refl
column_status-decimal row persisted e = rw e refl
column_status-decimal row delivering e = rw e refl
column_status-decimal row delivered e = rw e refl
column_status-decimal row failed e = rw e refl
column_status-decimal row read e = rw e refl

stoll-decimal : (n : ℕ) → n < 2 ^ 63 → stoll (decimal n) ≡ some n
unfolding stoll
stoll-decimal n h = sto-decimal (2 ^ 63) n h (omega arith)

pub build_message_record-row_of :
    (r : MessageRecord)
    → r.message_id < u64
    → r.payload_format < u32
    → r.created_at_ms < 2 ^ 63
    → r.updated_at_ms < 2 ^ 63
    → build_message_record (row_of (message_columns r)) ≡ some r
unfolding build_message_record find
build_message_record-row_of r a b c d =
    let row = row_of (message_columns r) in
    rw
      (
        to_uint64-decimal row "id" r.message_id refl a,
        column_uint32-decimal row "payload_format" r.payload_format refl b,
        column_status-decimal row r.status refl,
        stoll-decimal r.created_at_ms c,
        stoll-decimal r.updated_at_ms d,
      )
      refl

pub build_delivery_record-row_of :
    (r : DeliveryRecord)
    → r.message_id < u64
    → r.server_seq < u64
    → r.retry_count < u32
    → r.delivered_at_ms < 2 ^ 63
    → r.acked_at_ms < 2 ^ 63
    → r.created_at_ms < 2 ^ 63
    → r.updated_at_ms < 2 ^ 63
    → build_delivery_record (row_of (delivery_columns r)) ≡ some r
unfolding build_delivery_record find
build_delivery_record-row_of r a b c d f g h =
    let row = row_of (delivery_columns r) in
    rw
      (
        to_uint64-decimal row "message_id" r.message_id refl a,
        to_uint64-decimal row "server_seq" r.server_seq refl b,
        column_status-decimal row r.status refl,
        column_uint32-decimal row "retry_count" r.retry_count refl c,
        to_int64-decimal row "delivered_at_ms" r.delivered_at_ms refl d,
        to_int64-decimal row "acked_at_ms" r.acked_at_ms refl f,
        to_int64-decimal row "created_at_ms" r.created_at_ms refl g,
        to_int64-decimal row "updated_at_ms" r.updated_at_ms refl h,
      )
      refl

-- A new message whose id is positive and below 2 ^ 64 and whose time is below 2 ^ 63. Its two INSERT
-- statements name the columns of the tables im_message and im_message_delivery, and write at each
-- column the value that these columns list. The rows that hold these values are read back as
-- records that make the same message.
pub next_message_read_back :
    {H : Type 0} ⦃m : Mysql H⦄ (s : MySqlMessageStore H) (r : CreateMessageRequest)
    → 0 < s.next_msg_id
    → s.next_msg_id < u64
    → r.timestamp < 2 ^ 63
    → let message = next_message s r in
      let into_message = message_columns (message_record message) in
      let into_delivery = delivery_columns (delivery_record message) in
      ((insert_message_sql s.client (message_record message)
          ≡ insert_into "im_message" s.client into_message)
        × (insert_delivery_sql s.client (delivery_record message)
            ≡ insert_into "im_message_delivery" s.client into_delivery)
        × ((build_message_record (row_of into_message) >>= λ a.
              build_delivery_record (row_of into_delivery) >>= λ b. some (stored_message a b))
            ≡ some message))
unfolding next_message message_record delivery_record stored_message
next_message_read_back s r p a b =
    let message = next_message s r in
    (
      insert_message_sql_lem s.client (message_record message),
      insert_delivery_sql_lem s.client (delivery_record message),
      rw
          (
            build_message_record-row_of (message_record message) a (omega arith) b b,
            build_delivery_record-row_of (delivery_record message) a (omega arith) (omega arith)
                (omega arith) (omega arith) b b,
          )
          refl,
    )

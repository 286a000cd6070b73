-- ===== src/MySql/Messages.antt =====
-- src/storage/messageRepository.cpp: `MessageRepository`, the table im_message.
use hc_tcp_im_server.Common.{
  ◌≡◌, refl, ◌⊎◌, inl, inr, ℕ, Bool, Option, none, some, List, [], ◌∷◌, String,
}
use hc_tcp_im_server.Common.Dict.{find, text_key}
use hc_tcp_im_server.Protocol.{DeliveryStatus}
use hc_tcp_im_server.Serializer.{◌>>=◌}
use hc_tcp_im_server.MySql.{Mysql, Client, Row, execute, query, escape}
use hc_tcp_im_server.MySql.Text.{
  stream, decimal, to_uint64, column_uint32, column_status, status_number, stoll,
}

-- What a reading call leaves: a value, an error whose text is the client's last one, or an exception.
pub data Answer {ℓ} (A : Type ℓ) : Type ℓ where
  done : A → Answer A
  refused thrown : Answer A

pub Answer-cases {ℓ} :
    {A : Type ℓ} (q : Answer A) → ((a : A) × (q ≡ done a)) ⊎ ((q ≡ refused) ⊎ (q ≡ thrown))
Answer-cases (done a) = inl (a, refl)
Answer-cases refused = inr (inl refl)
Answer-cases thrown = inr (inr refl)

-- The value of a row that is there, or an exception.
unfoldable pub or_thrown {ℓ} : {A : Type ℓ} → Option A → Answer A
or_thrown none = thrown
or_thrown (some a) = done a

-- `MessageRecord`
pub record MessageRecord : Type 0 where
  pub message_id : ℕ
  pub client_msg_id : String
  pub from_user_id : String
  pub to_user_id : String
  pub conversation_id : String
  pub payload_format : ℕ
  pub content : String
  pub message_type : String
  pub status : DeliveryStatus
  pub created_at_ms : ℕ
  pub updated_at_ms : ℕ

unfoldable pub build_message_record : Row → Option MessageRecord
build_message_record row = to_uint64 row "id" >>= λ id.
    find "client_msg_id" row >>= λ client_msg_id. find "from_user_id" row >>= λ from_user_id.
    find "to_user_id" row >>= λ to_user_id. find "conversation_id" row >>= λ conversation_id.
    column_uint32 row "payload_format" >>= λ payload_format. find "content" row >>= λ content.
    find "message_type" row >>= λ message_type. column_status row >>= λ status.
    find "created_at_ms" row >>= λ created. stoll created >>= λ created_at_ms.
    find "updated_at_ms" row >>= λ updated. stoll updated >>= λ updated_at_ms. some (record {
      message_id = id;
      client_msg_id = client_msg_id;
      from_user_id = from_user_id;
      to_user_id = to_user_id;
      conversation_id = conversation_id;
      payload_format = payload_format;
      content = content;
      message_type = message_type;
      status = status;
      created_at_ms = created_at_ms;
      updated_at_ms = updated_at_ms;
    })

module _ {H : Type 0} ⦃m : Mysql H⦄ where
  -- The statement of `createMessage`. The client with its connection escapes the texts.
  unfoldable pub insert_message_sql : Client H → MessageRecord → String
  insert_message_sql c r = stream (
      "INSERT INTO im_message "
      ∷ "(id, client_msg_id, from_user_id, to_user_id, conversation_id, payload_format, content, "
      ∷ "message_type, status, created_at_ms, updated_at_ms) VALUES ("
      ∷ decimal r.message_id
      ∷ ", '"
      ∷ (escape c r.client_msg_id).1
      ∷ "', '"
      ∷ (escape c r.from_user_id).1
      ∷ "', '"
      ∷ (escape c r.to_user_id).1
      ∷ "', '"
      ∷ (escape c r.conversation_id).1
      ∷ "', "
      ∷ decimal r.payload_format
      ∷ ", '"
      ∷ (escape c r.content).1
      ∷ "', '"
      ∷ (escape c r.message_type).1
      ∷ "', "
      ∷ decimal (status_number r.status)
      ∷ ", "
      ∷ decimal r.created_at_ms
      ∷ ", "
      ∷ decimal r.updated_at_ms
      ∷ ")"
      ∷ [])

  unfoldable pub create_message : Client H → MessageRecord → Client H × Bool
  create_message c r = execute c (insert_message_sql c r)

  -- `rows.front()`, or nothing.
  unfoldable pub first_message :
      Client H × Option (List Row) → Client H × Answer (Option MessageRecord)
  first_message (c, none) = (c, refused)
  first_message (c, some []) = (c, done none)
  first_message (c, some (row ∷ rows)) =
      (c, or_thrown (build_message_record row >>= λ r. some (some r)))

  unfoldable pub find_by_message_id : Client H → ℕ → Client H × Answer (Option MessageRecord)
  find_by_message_id c id = first_message (
      query c (
        stream (
          "SELECT id, client_msg_id, from_user_id, to_user_id, conversation_id, payload_format, "
          ∷ "content, message_type, status, created_at_ms, updated_at_ms "
          ∷ "FROM im_message WHERE id="
          ∷ decimal id
          ∷ " LIMIT 1"
          ∷ [])))

  unfoldable pub find_by_sender_client_msg_id :
      Client H → String → String → Client H × Answer (Option MessageRecord)
  find_by_sender_client_msg_id c sender client_msg_id = first_message (
      query c (
        stream (
          "SELECT id, client_msg_id, from_user_id, to_user_id, conversation_id, payload_format, "
          ∷ "content, message_type, status, created_at_ms, updated_at_ms "
          ∷ "FROM im_message WHERE from_user_id='"
          ∷ (escape c sender).1
          ∷ "' AND client_msg_id='"
          ∷ (escape c client_msg_id).1
          ∷ "' LIMIT 1"
          ∷ [])))

  -- The number in the first row, or 0 without a row.
  unfoldable pub first_number : String → Client H × Option (List Row) → Client H × Answer ℕ
  first_number column (c, none) = (c, refused)
  first_number column (c, some []) = (c, done 0)
  first_number column (c, some (row ∷ rows)) = (c, or_thrown (to_uint64 row column))

  unfoldable pub get_max_message_id : Client H → Client H × Answer ℕ
  get_max_message_id c =
      first_number "max_id" (query c "SELECT COALESCE(MAX(id), 0) AS max_id FROM im_message")

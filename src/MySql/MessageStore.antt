-- ===== src/MySql/MessageStore.antt =====
-- src/storage/messageStore.cpp, `MySqlMessageStore`, over the two repositories. `!errorMsg.empty()`
-- after a reading call is a test of the client's last error; the error texts that a failing call
-- hands on are left out. A none of an Option is an exception, from a row that cannot be read.
use Prim.Native.String.{◌++◌ as str_append}
use hc_tcp_im_server.Common.{
  ℕ, ◌+◌, ◌%◌, Bool, true, false, not, Option, none, some, [], String, u64, str_eq, if◌then◌else◌,
}
use hc_tcp_im_server.Common.Dict.{Dict, find, put, get_or, text_key}
use hc_tcp_im_server.Protocol.{persisted}
use hc_tcp_im_server.Store.{CreateMessageRequest, StoredMessage}
use hc_tcp_im_server.MySql.{Mysql, Client, new_client, connect, begin, commit, rollback}
use hc_tcp_im_server.MySql.Messages.{
  Answer, done, refused, thrown, MessageRecord, create_message, find_by_sender_client_msg_id,
  get_max_message_id,
}
use hc_tcp_im_server.MySql.Deliveries.{
  DeliveryRecord, create_delivery, find_by_message_and_receiver, get_max_server_seq,
}

-- `MySqlStoreOptions`
pub record MySqlStoreOptions : Type 0 where
  pub enabled : Bool
  pub host : String
  pub port : ℕ
  pub user : String
  pub password : String
  pub database : String
  pub connect_timeout_ms : ℕ

-- `has_repositories` is false while the two pointers are null, before `init`.
pub record MySqlMessageStore (H : Type 0) : Type 0 where
  pub options : MySqlStoreOptions
  pub client : Client H
  pub has_repositories : Bool
  pub next_msg_id : ℕ
  pub next_server_seq_by_user : Dict String ℕ
  pub last_acked_seq_cache : Dict String ℕ

unfoldable pub new_store : {H : Type 0} → MySqlStoreOptions → MySqlMessageStore H
new_store o = record {
  options = o;
  client = new_client;
  has_repositories = false;
  next_msg_id = 1;
  next_server_seq_by_user = [];
  last_acked_seq_cache = [];
}

-- `!errorMsg.empty()`, after a call that was refused.
unfoldable pub is_failed : {H : Type 0} → Client H → Bool
is_failed c = not (str_eq c.last_error "")

-- The message of a row of each table.
unfoldable pub stored_message : MessageRecord → DeliveryRecord → StoredMessage
stored_message m d = record {
  notify = record {
    msg_id = m.message_id;
    server_seq = d.server_seq;
    from_user_id = m.from_user_id;
    to_user_id = m.to_user_id;
    client_msg_id = m.client_msg_id;
    content = m.content;
    timestamp = m.created_at_ms;
  };
  receiver_id = d.receiver_user_id;
  created_at = m.created_at_ms;
  last_deliver_at = d.delivered_at_ms;
  acked_at = d.acked_at_ms;
  retry_count = d.retry_count;
  status = d.status;
}

unfoldable pub message_record : StoredMessage → MessageRecord
message_record m = record {
  message_id = m.notify.msg_id;
  client_msg_id = m.notify.client_msg_id;
  from_user_id = m.notify.from_user_id;
  to_user_id = m.notify.to_user_id;
  conversation_id = str_append m.notify.from_user_id (str_append ":" m.notify.to_user_id);
  payload_format = 0;
  content = m.notify.content;
  message_type = "text";
  status = m.status;
  created_at_ms = m.created_at;
  updated_at_ms = m.created_at;
}

unfoldable pub delivery_record : StoredMessage → DeliveryRecord
delivery_record m = record {
  message_id = m.notify.msg_id;
  receiver_user_id = m.receiver_id;
  server_seq = m.notify.server_seq;
  status = m.status;
  retry_count = m.retry_count;
  last_error = "";
  delivered_at_ms = m.last_deliver_at;
  acked_at_ms = m.acked_at;
  created_at_ms = m.created_at;
  updated_at_ms = m.created_at;
}

-- The message that `saveMessageAndDelivery` builds, once the receiver has a cursor.
unfoldable pub next_message :
    {H : Type 0} → MySqlMessageStore H → CreateMessageRequest → StoredMessage
next_message s r = record {
  notify = record {
    msg_id = s.next_msg_id;
    server_seq = (get_or r.to_user_id s.next_server_seq_by_user 0 + 1) % u64;
    from_user_id = r.from_user_id;
    to_user_id = r.to_user_id;
    client_msg_id = r.client_msg_id;
    content = r.content;
    timestamp = r.timestamp;
  };
  status = persisted;
  receiver_id = r.to_user_id;
  created_at = r.timestamp;
  last_deliver_at = 0;
  acked_at = 0;
  retry_count = 0;
}

-- `m_nextMsgId++` and `++m_nextServerSeqByUser[…]`.
unfoldable pub take_numbers :
    {H : Type 0} → MySqlMessageStore H → CreateMessageRequest → MySqlMessageStore H
take_numbers s r = record s {
  next_msg_id = (s.next_msg_id + 1) % u64;
  next_server_seq_by_user =
      put r.to_user_id (next_message s r).notify.server_seq s.next_server_seq_by_user;
}

module _ {H : Type 0} ⦃m : Mysql H⦄ where
  unfoldable pub load_max_message_id : MySqlMessageStore H → MySqlMessageStore H × Option Bool
  load_max_message_id s =
      let r = get_max_message_id s.client in
      let s' = record s { client = r.0 } in
      elim r.1 [
        | done n ↦ (record s' { next_msg_id = (n + 1) % u64 }, some true)
        | refused ↦
            if is_failed r.0 then (s', some false) else (record s' { next_msg_id = 1 }, some true)
        | thrown ↦ (s', none)
      ]

  unfoldable pub init : MySqlMessageStore H → MySqlMessageStore H × Option Bool
  init s =
      let o = s.options in
      let r = connect s.client o.host o.port o.user o.password o.database o.connect_timeout_ms in
      let s' = record s { client = r.0 } in
      if r.1 then load_max_message_id (record s' { has_repositories = true }) else (s', some false)

  -- `ensureServerSeqCursor`: the number is stored before the error is looked at.
  unfoldable pub ensure_server_seq_cursor :
      MySqlMessageStore H → String → MySqlMessageStore H × Option Bool
  ensure_server_seq_cursor s receiver = elim (find receiver s.next_server_seq_by_user) [
    | some seq ↦ (s, some true)
    | none ↦
        let r = get_max_server_seq s.client receiver in
        let stored : ℕ → MySqlMessageStore H = λ n. record s {
          client = r.0;
          next_server_seq_by_user = put receiver n s.next_server_seq_by_user;
        } in
        elim r.1 [
          | done n ↦ (stored n, some true)
          | refused ↦ (stored 0, some (not (is_failed r.0)))
          | thrown ↦ (record s { client = r.0 }, none)
        ]
  ]

  -- The second half of `findDuplicateMessage`.
  unfoldable pub find_delivery_of :
      Client H → CreateMessageRequest → MessageRecord → Client H × Answer (Option StoredMessage)
  find_delivery_of c r message =
      let q = find_by_message_and_receiver c message.message_id r.to_user_id in
      elim q.1 [
        | done none ↦ (q.0, done none)
        | done (some d) ↦ (q.0, done (some (stored_message message d)))
        | refused ↦ (q.0, refused)
        | thrown ↦ (q.0, thrown)
      ]

  unfoldable pub find_duplicate_message :
      Client H → CreateMessageRequest → Client H × Answer (Option StoredMessage)
  find_duplicate_message c r =
      if str_eq r.client_msg_id ""
      then (c, done none)
      else (let q = find_by_sender_client_msg_id c r.from_user_id r.client_msg_id in
          elim q.1 [
            | done none ↦ (q.0, done none)
            | done (some message) ↦ find_delivery_of q.0 r message
            | refused ↦ (q.0, refused)
            | thrown ↦ (q.0, thrown)
          ])

  -- `begin`, the statements, and `commit`; `rollback` after a statement or the commit that fails.
  unfoldable pub transaction : (Client H → Client H × Bool) → Client H → Client H × Bool
  transaction statements c =
      let b = begin c in
      let w = statements b.0 in
      let k = commit w.0 in
      if not b.1
      then (b.0, false)
      else if not w.1
      then ((rollback w.0).0, false)
      else if k.1
      then (k.0, true)
      else ((rollback k.0).0, false)

  -- `executeInsertMessage` and `executeInsertDelivery`.
  unfoldable pub insert_both : StoredMessage → Client H → Client H × Bool
  insert_both message c =
      let a = create_message c (message_record message) in
      if a.1 then create_delivery a.0 (delivery_record message) else (a.0, false)

  -- `saveMessageAndDelivery` without a duplicate.
  unfoldable pub save_new :
      MySqlMessageStore H
      → CreateMessageRequest
      → MySqlMessageStore H × Answer (StoredMessage × Bool)
  save_new s r =
      let (s', cursor) = ensure_server_seq_cursor s r.to_user_id in
      elim cursor [
        | some true ↦
            let message = next_message s' r in
            let w = transaction (insert_both message) s'.client in
            (
              record (take_numbers s' r) { client = w.0 },
              if w.1 then done (message, false) else refused,
            )
        | some false ↦ (s', refused)
        | none ↦ (s', thrown)
      ]

  -- The message and whether it is a duplicate.
  unfoldable pub save_message_and_delivery :
      MySqlMessageStore H
      → CreateMessageRequest
      → MySqlMessageStore H × Answer (StoredMessage × Bool)
  save_message_and_delivery s r =
      let q = find_duplicate_message s.client r in
      let s' = record s { client = q.0 } in
      elim q.1 [
        | done (some message) ↦ (s', done (message, true))
        | done none ↦ save_new s' r
        | refused ↦ if is_failed q.0 then (s', refused) else save_new s' r
        | thrown ↦ (s', thrown)
      ]

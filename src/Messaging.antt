-- ===== src/Messaging.antt =====
-- src/service/messageService.cpp: reliable messages between users, over the interface `IMessageStore`
-- of src/storage/messageStore.h. A connection is the `shared_ptr` of the Heartbeat module; `connected`
-- says which are up. The encoder of a notification, which the server sets, is a parameter. A call
-- reads the clock once, as `now`. Buffers handed to `conn->send` and calls of the session repository
-- are effects in order.
pub mod Store
pub mod Broadcast
pub mod Redelivery
pub mod Sending
pub mod Retry
mod Tests
use Prim.Native.Nat.{bit_or}
use hc_tcp_im_server.Common.{
  ℕ, ◌+◌, ◌-◌, ◌*◌, ◌%◌, Bool, true, false, not, Option, none, some, List, [], ◌∷◌, ◌++◌, String,
  ltb, leb, if◌then◌else◌, u32, map,
}
use hc_tcp_im_server.Common.Dict.{Key, Dict, find, put, erase, text_key}
use hc_tcp_im_server.Buffer.{Buffer}
use hc_tcp_im_server.Buffer
use hc_tcp_im_server.ByteOrder.{Inet}
use hc_tcp_im_server.Protocol.{
  PacketHeader, default_header, code, p2p_msg_notify, broadcast_msg_notify, flag_none, flag_retry,
  DeliveryStatus, persisted, delivering, failed,
}
use hc_tcp_im_server.Protocol.Messages.{P2pMsgNotify, BroadcastMsgNotify, OfflineItem}
use hc_tcp_im_server.Codec.{pack}
use hc_tcp_im_server.Heartbeat.{Conn}
use hc_tcp_im_server.Store.{StoredMessage, CreateMessageRequest}
use Store.{IMessageStore}

pub record MessageService (S : Type 0) : Type 0 where
  pub message_store : Option S
  pub has_session_repository : Bool
  pub user_to_conn : Dict String Conn
  pub ack_timeout_ms : ℕ
  pub retry_backoff_ms : ℕ
  pub max_retry_count : ℕ
  pub retry_batch_size : ℕ

pub data Effect : Type 0 where
  send : Conn → Buffer → Effect
  update_last_acked_seq : String → ℕ → Effect

-- The text and the answer of `sendReliableP2PMessage`. The flag is for a duplicate.
pub data SendResult : Type 0 where
  not_configured not_saved not_marked : SendResult
  delivered queued : Bool → SendResult

unfoldable pub is_ok : SendResult → Bool
is_ok (delivered d) = true
is_ok (queued d) = true
is_ok _ = false

unfoldable pub register_connection :
    {S : Type 0} → MessageService S → String → Conn → MessageService S
register_connection s user c = record s { user_to_conn = put user c s.user_to_conn }

unfoldable pub unregister_connection : {S : Type 0} → MessageService S → String → MessageService S
unregister_connection s user = record s { user_to_conn = erase user s.user_to_conn }

unfoldable pub set_message_store : {S : Type 0} → MessageService S → Option S → MessageService S
set_message_store s st = record s { message_store = st }

unfoldable pub set_session_repository : {S : Type 0} → MessageService S → Bool → MessageService S
set_session_repository s given = record s { has_session_repository = given }

unfoldable pub set_retry_policy :
    {S : Type 0} → MessageService S → (ack_timeout backoff max_retry : ℕ) → MessageService S
set_retry_policy s ack_timeout backoff max_retry = record s {
  ack_timeout_ms = ack_timeout;
  retry_backoff_ms = backoff;
  max_retry_count = max_retry;
}

-- `setRetryConfig`, without the interval of the retry thread.
unfoldable pub set_retry_config : {S : Type 0} → MessageService S → ℕ → MessageService S
set_retry_config s batch = record s { retry_batch_size = batch }

-- The connection of a user, if it is up.
unfoldable pub online : {S : Type 0} → (Conn → Bool) → MessageService S → String → Option Conn
online connected s user = elim (find user s.user_to_conn) [
  | none ↦ none
  | some c ↦ if connected c then some c else none
]

-- `header` of `deliverLocked`.
unfoldable pub notify_header : StoredMessage → PacketHeader
notify_header m = record default_header {
  command = code p2p_msg_notify;
  flags = if ltb 0 m.retry_count then bit_or flag_none flag_retry else flag_none;
  request_id = 0;
  client_seq = m.notify.msg_id;
  server_seq = m.notify.server_seq;
}

module _ (net : Inet) (encode : P2pMsgNotify → List ℕ) (connected : Conn → Bool) {S : Type 0}
    (store : IMessageStore S) where
  -- What `deliverLocked` stores of the attempt.
  unfoldable pub attempted : StoredMessage → ℕ → StoredMessage
  attempted m now = record m {
    status = delivering;
    last_deliver_at = now;
    retry_count = (m.retry_count + 1) % u32;
  }

  -- `deliverLocked` on a connection that is up: the store, whether the attempt was recorded, and the
  -- buffer that was sent.
  unfoldable pub deliver_locked : S → Conn → StoredMessage → ℕ → S × Bool × List Effect
  deliver_locked s c m now =
      let m' = attempted m now in
      let r =
        store.mark_attempt s m'.receiver_id m'.notify.msg_id m'.status m'.last_deliver_at
          m'.retry_count in
      (r.0, r.1, send c (pack net Buffer.new (notify_header m) (encode m.notify)) ∷ [])

  -- `sendReliableP2PMessage` behind the store: the service, the result, the message id and the
  -- number, and the effects.
  unfoldable pub dispatch :
      MessageService S
      → S
      → String
      → StoredMessage
      → Bool
      → ℕ
      → MessageService S × SendResult × ℕ × ℕ × List Effect
  dispatch s st to_user m duplicate now = elim (online connected s to_user) [
    | none ↦ (
      record s { message_store = some st },
      queued duplicate,
      m.notify.msg_id,
      m.notify.server_seq,
      [],
    )
    | some c ↦
        let r = deliver_locked st c m now in
        (
          record s { message_store = some r.0 },
          if r.1 then delivered duplicate else not_marked,
          m.notify.msg_id,
          m.notify.server_seq,
          r.2,
        )
  ]

  -- A call that does not reach the ids leaves those of the caller, which are zero.
  unfoldable pub send_reliable_p2p_message :
      MessageService S
      → String
      → String
      → String
      → String
      → ℕ
      → MessageService S × SendResult × ℕ × ℕ × List Effect
  send_reliable_p2p_message s from_user to_user client_msg_id content now =
      let request : CreateMessageRequest = record {
        from_user_id = from_user;
        to_user_id = to_user;
        client_msg_id = client_msg_id;
        content = content;
        timestamp = now;
      } in
      elim s.message_store [
        | none ↦ (s, not_configured, 0, 0, [])
        | some st ↦
            let saved = store.save st request in
            elim saved.1 [
              | none ↦ (record s { message_store = some saved.0 }, not_saved, 0, 0, [])
              | some q ↦ dispatch s saved.0 to_user q.0 q.1 now
            ]
      ]

  -- The id comes back as a uint32_t.
  unfoldable pub send_p2p_message :
      MessageService S
      → String
      → String
      → String
      → ℕ
      → MessageService S × SendResult × ℕ × List Effect
  send_p2p_message s from_user to_user content now =
      let r = send_reliable_p2p_message s from_user to_user "" content now in
      (r.0, r.1, r.2 % u32, r.4)

  -- The service, the last acknowledged number and the answer, and the effects.
  unfoldable pub process_ack :
      MessageService S → String → ℕ → ℕ → ℕ → ℕ → MessageService S × ℕ × Bool × List Effect
  process_ack s user id seq ack_code now = elim s.message_store [
    | none ↦ (s, 0, false, [])
    | some st ↦
        let r = store.mark_ack st user id seq ack_code now in
        (
          record s { message_store = some r.0 },
          r.1,
          r.2,
          if r.2
              then (if s.has_session_repository then update_last_acked_seq user r.1 ∷ [] else [])
              else [],
        )
  ]

  unfoldable pub offline_item : StoredMessage → OfflineItem
  offline_item m = record {
    msg_id = m.notify.msg_id;
    server_seq = m.notify.server_seq;
    from_user_id = m.notify.from_user_id;
    to_user_id = m.notify.to_user_id;
    client_msg_id = m.notify.client_msg_id;
    content = m.notify.content;
    timestamp = m.notify.timestamp;
  }

  -- The items and `nextBeginSeq`.
  unfoldable pub pull_offline_messages : MessageService S → String → ℕ → ℕ → List OfflineItem × ℕ
  pull_offline_messages s user last_acked limit = elim s.message_store [
    | none ↦ ([], last_acked)
    | some st ↦ elim (store.load_pending st user last_acked limit) [
      | none ↦ ([], last_acked)
      | some r ↦ (map offline_item r.0, r.1)
    ]
  ]

-- ===== src/Messaging/Retry.antt =====
-- What `deliverPendingMessages` of src/service/messageService.cpp sends.
use hc_tcp_im_server.Common.{
  ℕ, ◌+◌, ◌≤◌, ◌<◌, ◌≡◌, refl, inl, inr, Bool, true, ◌&&◌, some, List, [], ◌∷◌, map, String, arith,
  max, take, ltb, All, All-map, u64, if◌then◌else◌, Bool-cases,
}
use hc_tcp_im_server.Buffer
use hc_tcp_im_server.ByteOrder.{Inet}
use hc_tcp_im_server.Protocol.{failed}
use hc_tcp_im_server.Protocol.Messages.{P2pMsgNotify}
use hc_tcp_im_server.Codec.{pack}
use hc_tcp_im_server.Heartbeat.{Conn}
use hc_tcp_im_server.Store.{MessageStore, StoredMessage, get_last_acked_seq, load_pending_messages}
use hc_tcp_im_server.Common.Dict.{get_or, text_key}
use hc_tcp_im_server.Store.Pending.{undelivered, IsPaged, IsBelow, load_pending_messages_lem}
use hc_tcp_im_server.Messaging.{MessageService, Effect, send, online, notify_header, deliver_locked}
use hc_tcp_im_server.Messaging.Redelivery.{should_retry, deliver_loop, deliver_pending_messages}
use hc_tcp_im_server.Messaging.Store.{IMessageStore, in_memory}

-- A message that has attempts left, and is new or has waited long enough for its acknowledgement.
unfoldable pub is_due : ℕ → ℕ → ℕ → ℕ → StoredMessage → Bool
is_due max_retry ack_timeout backoff now m =
    ltb m.retry_count max_retry && should_retry m now ack_timeout backoff

unfoldable pub due_messages : ℕ → ℕ → ℕ → ℕ → List StoredMessage → List StoredMessage
due_messages max_retry ack_timeout backoff now [] = []
due_messages max_retry ack_timeout backoff now (m ∷ ms) =
    let rest = due_messages max_retry ack_timeout backoff now ms in
    if is_due max_retry ack_timeout backoff now m then m ∷ rest else rest

due-All :
    (P : StoredMessage → Type 0) (max_retry ack_timeout backoff now : ℕ) (ms : List StoredMessage)
    → All P ms
    → All
        (λ m. P m × (is_due max_retry ack_timeout backoff now m ≡ true))
        (due_messages max_retry ack_timeout backoff now ms)
unfolding due_messages
due-All P max_retry ack_timeout backoff now [] h = tt
due-All P max_retry ack_timeout backoff now (m ∷ ms) h =
    let rest = due-All P max_retry ack_timeout backoff now ms h.1 in
    elim (Bool-cases (is_due max_retry ack_timeout backoff now m)) [
      | inl t ↦ rw (t, due_messages) ((h.0, t), rest)
      | inr t ↦ rw (t, due_messages) rest
    ]

module _ (net : Inet) (encode : P2pMsgNotify → List ℕ) (connected : Conn → Bool) {S : Type 0}
    (store : IMessageStore S) where
  -- The packet of a message.
  abbrev pub packet : Conn → StoredMessage → Effect
  packet c m = send c (pack net Buffer.new (notify_header m) (encode m.notify))

  deliver_loop_lem :
      (st : S) (c : Conn) (max_retry ack_timeout backoff now : ℕ) (ms : List StoredMessage)
      → (deliver_loop net encode connected store st c max_retry ack_timeout backoff now ms).1
        ≡ map (packet c) (due_messages max_retry ack_timeout backoff now ms)
  unfolding deliver_loop deliver_locked due_messages is_due
  deliver_loop_lem st c max_retry ack_timeout backoff now [] = refl
  deliver_loop_lem st c max_retry ack_timeout backoff now (m ∷ ms) =
      let loop = λ (t : S). deliver_loop_lem t c max_retry ack_timeout backoff now ms in
      let gave_up =
        store.mark_attempt st m.receiver_id m.notify.msg_id failed m.last_deliver_at
          m.retry_count in
      ground (
        arith,
        loop gave_up.0,
        loop st,
        loop (deliver_locked net encode connected store st c m now).0,
      )

  -- Whatever the store is: `deliverPendingMessages` sends to the user's connection, if it is up, one
  -- packet for each message that the store has for the user behind the last acknowledged number, has
  -- attempts left and is due, in the order of the store.
  pub deliver_pending_messages_lem :
      (s : MessageService S) (st : S) (user : String) (now : ℕ) (c : Conn)
      (page : List StoredMessage × ℕ)
      → s.message_store ≡ some st
      → online connected s user ≡ some c
      → store.load_pending st user (store.last_acked_seq st user) s.retry_batch_size ≡ some page
      → (deliver_pending_messages net encode connected store s user now).1
        ≡ map
            (packet c)
            (due_messages s.max_retry_count s.ack_timeout_ms s.retry_backoff_ms now page.0)
  unfolding deliver_pending_messages
  deliver_pending_messages_lem s st user now c page e f g =
      rw (e, f, g, deliver_pending_messages)
        (deliver_loop_lem st c s.max_retry_count s.ack_timeout_ms s.retry_backoff_ms now page.0)

in_turn :
    (last next max_retry ack_timeout backoff now : ℕ) (m : StoredMessage)
    → IsPaged last next m
    → is_due max_retry ack_timeout backoff now m ≡ true
    → (last < m.notify.server_seq) × (m.retry_count < max_retry)
unfolding is_due
in_turn last next max_retry ack_timeout backoff now m p d = (p.0, ground (arith, d))

-- With the store in memory whose numbers do not reach 2^64 - 1: of the messages that the store holds
-- as pending for the user, that have numbers above the last acknowledged one and are not delivered,
-- read or failed, `deliverPendingMessages` takes the first ones, up to the batch or one where it is 0. It sends the
-- packets of those of them that are due. Each of these has a number above the acknowledged one and
-- fewer attempts than the limit. So a message that was skipped by a later acknowledgement is not sent
-- again.
pub deliver_in_memory :
    (net : Inet) (encode : P2pMsgNotify → List ℕ) (connected : Conn → Bool)
    (s : MessageService MessageStore) (st : MessageStore) (user : String) (now top : ℕ) (c : Conn)
    → s.message_store ≡ some st
    → online connected s user ≡ some c
    → top + 1 < u64
    → get_last_acked_seq st user ≤ top
    → IsBelow top st.messages
    → let last = get_last_acked_seq st user in
      let page =
        take
          (max s.retry_batch_size 1)
          (undelivered st.messages last (get_or user st.pending_msg_ids_by_user [])) in
      let ms = due_messages s.max_retry_count s.ack_timeout_ms s.retry_backoff_ms now page in
      (((deliver_pending_messages net encode connected in_memory s user now).1
          ≡ map (packet net encode connected in_memory c) ms)
        × All
            (λ (m : StoredMessage).
              (last < m.notify.server_seq) × (m.retry_count < s.max_retry_count))
            ms)
deliver_in_memory net encode connected s st user now top c e f g h b =
    let last = get_last_acked_seq st user in
    let page = load_pending_messages st user last s.retry_batch_size in
    let (same, all, few) = load_pending_messages_lem st user last s.retry_batch_size top g h b in
    rw (← same) (
      deliver_pending_messages_lem net encode connected in_memory s st user now c page e f refl,
      All-map {Q = λ m. (last < m.notify.server_seq) × (m.retry_count < s.max_retry_count)}
          (λ m q.
            in_turn last page.1 s.max_retry_count s.ack_timeout_ms s.retry_backoff_ms now m q.0 q.1)
          (due_messages s.max_retry_count s.ack_timeout_ms s.retry_backoff_ms now page.0)
          (due-All (IsPaged last page.1) s.max_retry_count s.ack_timeout_ms s.retry_backoff_ms now
            page.0 all),
    )

-- ===== src/Messaging/Redelivery.antt =====
-- src/service/messageService.cpp: `deliverPendingMessages` and the turns of the retry thread.
use hc_tcp_im_server.Common.{
  ℕ, ◌+◌, ◌-◌, ◌*◌, Bool, true, false, not, none, some, List, [], ◌∷◌, ◌++◌, String, ltb, leb,
  if◌then◌else◌,
}
use hc_tcp_im_server.Common.Dict.{Dict, text_key}
use hc_tcp_im_server.ByteOrder.{Inet}
use hc_tcp_im_server.Protocol.{persisted, delivering, failed}
use hc_tcp_im_server.Protocol.Messages.{P2pMsgNotify}
use hc_tcp_im_server.Heartbeat.{Conn}
use hc_tcp_im_server.Store.{StoredMessage}
use hc_tcp_im_server.Messaging.Store.{IMessageStore}
use hc_tcp_im_server.Messaging.{MessageService, Effect, online, deliver_locked}

-- `ShouldRetryMessage`
unfoldable pub should_retry : StoredMessage → ℕ → ℕ → ℕ → Bool
should_retry m now ack_timeout backoff =
    let last = if ltb 0 m.last_deliver_at then m.last_deliver_at else m.created_at in
    let waits = if ltb 0 m.retry_count then m.retry_count - 1 else 0 in
    elim m.status [
      | persisted ↦ true
      | delivering ↦ leb (last + (ack_timeout + waits * backoff)) now
      | _ ↦ false
    ]

module _ (net : Inet) (encode : P2pMsgNotify → List ℕ) (connected : Conn → Bool) {S : Type 0}
    (store : IMessageStore S) where
  -- The loop of `deliverPendingMessages`, with the limits as arguments.
  unfoldable pub deliver_loop :
      S → Conn → (max_retry ack_timeout backoff now : ℕ) → List StoredMessage → S × List Effect
  deliver_loop st c max_retry ack_timeout backoff now [] = (st, [])
  deliver_loop st c max_retry ack_timeout backoff now (m ∷ ms) =
      let gave_up =
        (store.mark_attempt st m.receiver_id m.notify.msg_id failed m.last_deliver_at
          m.retry_count).0 in
      let sent = deliver_locked net encode connected store st c m now in
      let after_failure = deliver_loop gave_up c max_retry ack_timeout backoff now ms in
      let after_wait = deliver_loop st c max_retry ack_timeout backoff now ms in
      let after_sent = deliver_loop sent.0 c max_retry ack_timeout backoff now ms in
      if leb max_retry m.retry_count
      then after_failure
      else if not (should_retry m now ack_timeout backoff)
      then after_wait
      else (after_sent.0, sent.2 ++ after_sent.1)

  unfoldable pub deliver_pending_messages :
      MessageService S → String → ℕ → MessageService S × List Effect
  deliver_pending_messages s user now = elim s.message_store [
    | none ↦ (s, [])
    | some st ↦ elim (online connected s user) [
      | none ↦ (s, [])
      | some c ↦
          elim (store.load_pending st user (store.last_acked_seq st user) s.retry_batch_size) [
            | none ↦ (s, [])
            | some page ↦
                let r =
                  deliver_loop st c s.max_retry_count s.ack_timeout_ms s.retry_backoff_ms now
                    page.0 in
                (record s { message_store = some r.0 }, r.1)
          ]
    ]
  ]

  -- A turn of the retry thread goes over the users whose connection was up when it began.
  unfoldable pub online_users : Dict String Conn → List String
  online_users [] = []
  online_users ((user, c) ∷ d) =
      let rest = online_users d in if connected c then user ∷ rest else rest

  unfoldable pub deliver_all : MessageService S → List String → ℕ → MessageService S × List Effect
  deliver_all s [] now = (s, [])
  deliver_all s (user ∷ users) now =
      let one = deliver_pending_messages s user now in
      let rest = deliver_all one.0 users now in (rest.0, one.1 ++ rest.1)

  unfoldable pub retry_turn : MessageService S → ℕ → MessageService S × List Effect
  retry_turn s now = deliver_all s (online_users s.user_to_conn) now

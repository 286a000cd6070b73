-- ===== src/Messaging/Store.antt =====
-- `IMessageStore` of src/storage/messageStore.h, and `InMemoryMessageStore` behind it.
use hc_tcp_im_server.Common.{ℕ, Bool, true, false, Option, none, some, List, String}
use hc_tcp_im_server.Protocol.{DeliveryStatus}
use hc_tcp_im_server.Store.{
  MessageStore, StoredMessage, CreateMessageRequest, save_message_and_delivery,
  mark_delivery_attempt, mark_acked, load_pending_messages, get_last_acked_seq,
}

-- A failing call has an error text, which is left out. So are the exceptions that a call of
-- `MySqlMessageStore` may end in: none of these operations of the interface throws.
pub record IMessageStore (S : Type 0) : Type 0 where
  pub save : S → CreateMessageRequest → S × Option (StoredMessage × Bool)
  pub mark_attempt : S → String → ℕ → DeliveryStatus → ℕ → ℕ → S × Bool
  pub mark_ack : S → String → ℕ → ℕ → ℕ → ℕ → S × ℕ × Bool
  -- The messages and `nextBeginSeq`, or none with an error.
  pub load_pending : S → String → ℕ → ℕ → Option (List StoredMessage × ℕ)
  pub last_acked_seq : S → String → ℕ

abbrev is_none {ℓ} : {A : Type ℓ} → Option A → Bool
is_none none = true
is_none (some a) = false

instance abbrev pub in_memory : IMessageStore MessageStore
in_memory = record {
  save = λ s r. let q = save_message_and_delivery s r in (q.0, some (q.1, q.2));
  mark_attempt = λ s user id status at count.
      let q = mark_delivery_attempt s user id status at count in (q.0, is_none q.1);
  mark_ack = λ s user id seq ack_code at.
      let q = mark_acked s user id seq ack_code at in (q.0, q.1, is_none q.2);
  load_pending = λ s user from limit. some (load_pending_messages s user from limit);
  last_acked_seq = get_last_acked_seq;
}

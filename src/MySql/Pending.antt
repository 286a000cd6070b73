-- ===== src/MySql/Pending.antt =====
-- src/storage/messageStore.cpp: `loadPendingMessages` of `MySqlMessageStore`.
use hc_tcp_im_server.Common.{
  ℕ, ◌+◌, ◌%◌, max, none, some, List, [], ◌∷◌, String, u64, if◌then◌else◌,
}
use hc_tcp_im_server.Common.Dict.{text_key}
use hc_tcp_im_server.Store.{StoredMessage}
use hc_tcp_im_server.MySql.{Mysql, Client}
use hc_tcp_im_server.MySql.Messages.{Answer, done, refused, thrown, find_by_message_id}
use hc_tcp_im_server.MySql.Deliveries.{DeliveryRecord, list_pending_by_receiver}
use hc_tcp_im_server.MySql.MessageStore.{MySqlMessageStore, is_failed, stored_message}

-- `++nextBeginSeq`, when there are messages.
unfoldable pub pending_answer : Answer (List StoredMessage × ℕ) → Answer (List StoredMessage × ℕ)
pending_answer (done ([], n)) = done ([], n)
pending_answer (done (a ∷ ms, n)) = done (a ∷ ms, (n + 1) % u64)
pending_answer refused = refused
pending_answer thrown = thrown

module _ {H : Type 0} ⦃m : Mysql H⦄ where
  -- The loop of `loadPendingMessages`: a delivery without a message is passed over.
  unfoldable pub pending_loop :
      ℕ → List DeliveryRecord → Client H → Client H × Answer (List StoredMessage × ℕ)
  pending_loop next [] c = (c, done ([], next))
  pending_loop next (d ∷ ds) c =
      let q = find_by_message_id c d.message_id in
      let skip = pending_loop next ds q.0 in
      let rest = pending_loop (max next d.server_seq) ds q.0 in
      elim q.1 [
        | done none ↦ skip
        | done (some message) ↦ (
          rest.0,
          elim rest.1 [
            | done (ms, n) ↦ done (stored_message message d ∷ ms, n)
            | refused ↦ refused
            | thrown ↦ thrown
          ],
        )
        | refused ↦ if is_failed q.0 then (q.0, refused) else skip
        | thrown ↦ (q.0, thrown)
      ]

  -- The messages and `nextBeginSeq`.
  unfoldable pub load_pending_messages :
      MySqlMessageStore H → String → ℕ → ℕ → MySqlMessageStore H × Answer (List StoredMessage × ℕ)
  load_pending_messages s receiver from limit =
      let q = list_pending_by_receiver s.client receiver from limit in
      elim q.1 [
        | done ds ↦
            let l = pending_loop from ds q.0 in (record s { client = l.0 }, pending_answer l.1)
        | refused ↦ (record s { client = q.0 }, if is_failed q.0 then refused else done ([], from))
        | thrown ↦ (record s { client = q.0 }, thrown)
      ]

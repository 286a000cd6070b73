-- ===== src/MySql/Marks.antt =====
-- src/storage/messageStore.cpp: the calls of `MySqlMessageStore` that mark a message, and
-- `getLastAckedSeq`. The clock of the column updated_at_ms is a parameter of a call.
use hc_tcp_im_server.Common.{
  ℕ, max, Bool, true, false, Option, none, some, String, ◌==◌, if◌then◌else◌,
}
use hc_tcp_im_server.Common.Dict.{find, put, get_or, text_key}
use hc_tcp_im_server.Protocol.{DeliveryStatus, delivered, read, ack_read}
use hc_tcp_im_server.MySql.{Mysql, Client}
use hc_tcp_im_server.MySql.Messages.{done, refused, thrown}
use hc_tcp_im_server.MySql.Deliveries.{
  DeliveryRecord, update_delivery_status, find_by_message_and_receiver, read_last_acked_seq,
  append_ack_log,
}
use hc_tcp_im_server.MySql.MessageStore.{MySqlMessageStore, is_failed, transaction}

module _ {H : Type 0} ⦃m : Mysql H⦄ where
  -- `getLastAckedSeq`
  unfoldable pub last_acked_seq : MySqlMessageStore H → String → MySqlMessageStore H × Option ℕ
  last_acked_seq s receiver = elim (find receiver s.last_acked_seq_cache) [
    | some seq ↦ (s, some seq)
    | none ↦
        if s.has_repositories
        then (let r = read_last_acked_seq s.client receiver in
            let s' = record s { client = r.0 } in
            let cached : ℕ → MySqlMessageStore H =
              λ n. record s' { last_acked_seq_cache = put receiver n s.last_acked_seq_cache } in
            elim r.1 [
              | done n ↦ (cached n, some n)
              | refused ↦ if is_failed r.0 then (s', some 0) else (cached 0, some 0)
              | thrown ↦ (s', none)
            ])
        else (record s { last_acked_seq_cache = put receiver 0 s.last_acked_seq_cache }, some 0)
  ]

  -- The update writes 0 as the time of the acknowledgement.
  unfoldable pub mark_delivery_attempt :
      MySqlMessageStore H → ℕ → String → ℕ → DeliveryStatus → ℕ → ℕ → MySqlMessageStore H × Bool
  mark_delivery_attempt s now receiver msg_id status deliver_at retry_count =
      let u = update_delivery_status s.client now msg_id receiver status retry_count deliver_at 0 in
      (record s { client = u.0 }, u.1)

  -- The ways out of `markAcked` with false.
  unfoldable pub not_acked : MySqlMessageStore H → String → MySqlMessageStore H × Option (ℕ × Bool)
  not_acked s receiver =
      let r = last_acked_seq s receiver in
      (r.0, elim r.1 [ none ↦ none | some last ↦ some (last, false) ])

  unfoldable pub update_and_log :
      ℕ → String → ℕ → ℕ → ℕ → ℕ → DeliveryRecord → Client H → Client H × Bool
  update_and_log now receiver msg_id seq ack_code acked_at d c =
      let status = if ack_code == ack_read then read else delivered in
      let a =
        update_delivery_status c now msg_id receiver status d.retry_count d.delivered_at_ms
          acked_at in
      if a.1 then append_ack_log a.0 msg_id receiver seq ack_code acked_at else (a.0, false)

  -- `markAcked` of a delivery with the number of the call.
  unfoldable pub ack_found :
      MySqlMessageStore H
      → ℕ
      → String
      → ℕ
      → ℕ
      → ℕ
      → ℕ
      → DeliveryRecord
      → MySqlMessageStore H × Option (ℕ × Bool)
  ack_found s now receiver msg_id seq ack_code acked_at d =
      let w = transaction (update_and_log now receiver msg_id seq ack_code acked_at d) s.client in
      let s' = record s { client = w.0 } in
      let last = max (get_or receiver s.last_acked_seq_cache 0) seq in
      if w.1
      then (
        record s' { last_acked_seq_cache = put receiver last s.last_acked_seq_cache },
        some (last, true),
      )
      else not_acked s' receiver

  -- The highest acknowledged number, and whether the message is acknowledged.
  unfoldable pub mark_acked :
      MySqlMessageStore H → ℕ → String → ℕ → ℕ → ℕ → ℕ → MySqlMessageStore H × Option (ℕ × Bool)
  mark_acked s now receiver msg_id seq ack_code acked_at =
      let q = find_by_message_and_receiver s.client msg_id receiver in
      let s' = record s { client = q.0 } in
      elim q.1 [
        | done none ↦ not_acked s' receiver
        | done (some d) ↦
            if d.server_seq == seq
            then ack_found s' now receiver msg_id seq ack_code acked_at d
            else not_acked s' receiver
        | refused ↦ not_acked s' receiver
        | thrown ↦ (s', none)
      ]

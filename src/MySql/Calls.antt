-- ===== src/MySql/Calls.antt =====
-- src/storage/messageStore.cpp: the calls of `MySqlMessageStore` one after the other, and the
-- transactions that they leave.
use hc_tcp_im_server.Common.{
  ℕ, ◌≡◌, refl, false, List, [], ◌∷◌, String, ◌==◌, Option-cases, Bool-cases, if◌then◌else◌, inl,
  inr, ◌∙◌, max,
}
use hc_tcp_im_server.Common.Dict.{find, text_key}
use hc_tcp_im_server.Protocol.{DeliveryStatus, read, delivered, ack_read}
use hc_tcp_im_server.Store.{CreateMessageRequest}
use hc_tcp_im_server.MySql.{Mysql, Client}
use hc_tcp_im_server.MySql.Messages.{Answer-cases, find_by_message_id}
use hc_tcp_im_server.MySql.Deliveries.{
  DeliveryRecord, update_delivery_status, find_by_message_and_receiver, list_pending_by_receiver,
  read_last_acked_seq,
}
use hc_tcp_im_server.MySql.MessageStore.{
  MySqlMessageStore, is_failed, transaction, save_message_and_delivery,
}
use hc_tcp_im_server.MySql.Marks.{
  last_acked_seq, not_acked, update_and_log, ack_found, mark_acked, mark_delivery_attempt,
}
use hc_tcp_im_server.MySql.Pending.{pending_loop, load_pending_messages}
use hc_tcp_im_server.MySql.Statements.{
  has_open, update_delivery_status_open, append_ack_log_open, find_by_message_id_open,
  find_by_receiver_open, list_pending_open, read_last_acked_seq_open,
}
use hc_tcp_im_server.MySql.Logged.{Logged, logged}
use hc_tcp_im_server.MySql.Transactions.{transaction_closed, save_message_and_delivery_closed}

-- The calls of `IMessageStore`, with the clock where a statement holds it.
pub data Call : Type 0 where
  save : CreateMessageRequest → Call
  attempt : ℕ → String → ℕ → DeliveryStatus → ℕ → ℕ → Call
  ack : ℕ → String → ℕ → ℕ → ℕ → ℕ → Call
  load : String → ℕ → ℕ → Call
  last_acked : String → Call

module _ {H : Type 0} ⦃m : Mysql H⦄ where
  update_and_log_open :
      (now : ℕ) (user : String) (id seq code at : ℕ) (d : DeliveryRecord) (c : Client (Logged H))
      → has_open (update_and_log now user id seq code at d c).0 ≡ has_open c
  unfolding update_and_log
  update_and_log_open now user id seq code at d c =
      let status = if code == ack_read then read else delivered in
      let a = update_delivery_status c now id user status d.retry_count d.delivered_at_ms at in
      let kept =
        update_delivery_status_open c now id user status d.retry_count d.delivered_at_ms at in
      elim (Bool-cases a.1) [
        | inl e ↦ rw e (append_ack_log_open a.0 id user seq code at ∙ kept)
        | inr e ↦ rw e kept
      ]

  last_acked_seq_open :
      (s : MySqlMessageStore (Logged H)) (user : String)
      → has_open (last_acked_seq s user).0.client ≡ has_open s.client
  unfolding last_acked_seq
  last_acked_seq_open s user =
      let r = read_last_acked_seq s.client user in
      let kept = read_last_acked_seq_open s.client user in
      elim (Option-cases (find user s.last_acked_seq_cache)) [
        | inr (n, e) ↦ rw (last_acked_seq, e) refl
        | inl e ↦ elim (Bool-cases s.has_repositories) [
          | inr f ↦ rw (last_acked_seq, e, f) refl
          | inl f ↦ elim (Answer-cases r.1) [
            | inl (n, a) ↦ rw (last_acked_seq, e, f, a) kept
            | inr (inl a) ↦ elim (Bool-cases (is_failed r.0)) [
              | inl g ↦ rw (last_acked_seq, e, f, a, g) kept
              | inr g ↦ rw (last_acked_seq, e, f, a, g) kept
            ]
            | inr (inr a) ↦ rw (last_acked_seq, e, f, a) kept
          ]
        ]
      ]

  mark_delivery_attempt_closed :
      (s : MySqlMessageStore (Logged H)) (now : ℕ) (user : String) (id : ℕ) (st : DeliveryStatus)
      → (at n : ℕ) → has_open s.client ≡ false
      → has_open (mark_delivery_attempt s now user id st at n).0.client ≡ false
  unfolding mark_delivery_attempt
  mark_delivery_attempt_closed s now user id st at n z =
      update_delivery_status_open s.client now id user st n at 0 ∙ z

  not_acked_open :
      (s : MySqlMessageStore (Logged H)) (user : String)
      → has_open (not_acked s user).0.client ≡ has_open s.client
  unfolding not_acked
  not_acked_open = last_acked_seq_open

  ack_found_closed :
      (s : MySqlMessageStore (Logged H)) (now : ℕ) (user : String) (id seq code at : ℕ)
      → (d : DeliveryRecord) → has_open s.client ≡ false
      → has_open (ack_found s now user id seq code at d).0.client ≡ false
  unfolding ack_found
  ack_found_closed s now user id seq code at d z =
      let body = update_and_log now user id seq code at d in
      let w = transaction body s.client in
      let kept =
        transaction_closed body s.client (update_and_log_open now user id seq code at d) z in
      elim (Bool-cases w.1) [
        | inl e ↦ rw (ack_found, e) kept
        | inr e ↦ rw (ack_found, e) (not_acked_open (record s { client = w.0 }) user ∙ kept)
      ]

  mark_acked_closed :
      (s : MySqlMessageStore (Logged H)) (now : ℕ) (user : String) (id seq code at : ℕ)
      → has_open s.client ≡ false
      → has_open (mark_acked s now user id seq code at).0.client ≡ false
  unfolding mark_acked
  mark_acked_closed s now user id seq code at z =
      let q = find_by_message_and_receiver s.client id user in
      let s' = record s { client = q.0 } in
      let kept = find_by_receiver_open s.client id user ∙ z in
      let left = not_acked_open s' user ∙ kept in
      elim (Answer-cases q.1) [
        | inl (found, e) ↦ elim (Option-cases found) [
          | inl f ↦ rw (mark_acked, e, f) left
          | inr (d, f) ↦ elim (Bool-cases (d.server_seq == seq)) [
            | inl g ↦ rw (mark_acked, e, f, g) (ack_found_closed s' now user id seq code at d kept)
            | inr g ↦ rw (mark_acked, e, f, g) left
          ]
        ]
        | inr (inl e) ↦ rw (mark_acked, e) left
        | inr (inr e) ↦ rw (mark_acked, e) kept
      ]

  pending_loop_open :
      (ds : List DeliveryRecord) (next : ℕ) (c : Client (Logged H))
      → has_open (pending_loop next ds c).0 ≡ has_open c
  unfolding pending_loop
  pending_loop_open [] next c = refl
  pending_loop_open (d ∷ ds) next c =
      let q = find_by_message_id c d.message_id in
      let kept = find_by_message_id_open c d.message_id in
      let skip = pending_loop_open ds next q.0 ∙ kept in
      elim (Answer-cases q.1) [
        | inl (found, e) ↦ elim (Option-cases found) [
          | inl f ↦ rw (pending_loop, e, f) skip
          | inr (message, f) ↦
              rw (pending_loop, e, f) (pending_loop_open ds (max next d.server_seq) q.0 ∙ kept)
        ]
        | inr (inl e) ↦ elim (Bool-cases (is_failed q.0)) [
          | inl f ↦ rw (pending_loop, e, f) kept
          | inr f ↦ rw (pending_loop, e, f) skip
        ]
        | inr (inr e) ↦ rw (pending_loop, e) kept
      ]

  load_pending_messages_closed :
      (s : MySqlMessageStore (Logged H)) (user : String) (from limit : ℕ)
      → has_open s.client ≡ false
      → has_open (load_pending_messages s user from limit).0.client ≡ false
  unfolding load_pending_messages
  load_pending_messages_closed s user from limit z =
      let q = list_pending_by_receiver s.client user from limit in
      let kept = list_pending_open s.client user from limit ∙ z in
      elim (Answer-cases q.1) [
        | inl (ds, e) ↦ rw (load_pending_messages, e) (pending_loop_open ds from q.0 ∙ kept)
        | inr (inl e) ↦ rw (load_pending_messages, e) kept
        | inr (inr e) ↦ rw (load_pending_messages, e) kept
      ]

  -- The store after a call, whether the call returns or leaves by an exception.
  unfoldable pub step : MySqlMessageStore (Logged H) → Call → MySqlMessageStore (Logged H)
  step s (save r) = (save_message_and_delivery s r).0
  step s (attempt now user id st at n) = (mark_delivery_attempt s now user id st at n).0
  step s (ack now user id seq code at) = (mark_acked s now user id seq code at).0
  step s (load user from limit) = (load_pending_messages s user from limit).0
  step s (last_acked user) = (last_acked_seq s user).0

  unfoldable pub run : MySqlMessageStore (Logged H) → List Call → MySqlMessageStore (Logged H)
  run s [] = s
  run s (c ∷ cs) = run (step s c) cs

  step_closed :
      (s : MySqlMessageStore (Logged H)) (c : Call)
      → has_open s.client ≡ false
      → has_open (step s c).client ≡ false
  unfolding step
  step_closed s (save r) z = save_message_and_delivery_closed s r z
  step_closed s (attempt now user id st at n) z =
      mark_delivery_attempt_closed s now user id st at n z
  step_closed s (ack now user id seq code at) z = mark_acked_closed s now user id seq code at z
  step_closed s (load user from limit) z = load_pending_messages_closed s user from limit z
  step_closed s (last_acked user) z = last_acked_seq_open s user ∙ z

  -- Over any MySQL library, whichever statements it refuses: when no transaction is open on the
  -- connection, none is open after any calls of the store, one after the other, each of which returns
  -- or leaves by an exception. A transaction counts as ended by a COMMIT that is accepted or by a
  -- ROLLBACK that is sent.
  pub run_closed :
      (s : MySqlMessageStore (Logged H)) (cs : List Call)
      → has_open s.client ≡ false
      → has_open (run s cs).client ≡ false
  unfolding run
  run_closed s [] z = z
  run_closed s (c ∷ cs) z = run_closed (step s c) cs (step_closed s c z)

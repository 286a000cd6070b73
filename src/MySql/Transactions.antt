-- ===== src/MySql/Transactions.antt =====
-- src/storage/messageStore.cpp: the transactions of `MySqlMessageStore`, by the statements that the
-- MySQL library is sent.
use hc_tcp_im_server.Common.{
  ◌≡◌, refl, Bool, false, String, str_eq, Option-cases, Bool-cases, inl, inr, ◌∙◌, ap,
}
use hc_tcp_im_server.Common.Dict.{find, text_key}
use hc_tcp_im_server.Store.{CreateMessageRequest, StoredMessage}
use hc_tcp_im_server.MySql.{Mysql, Client, begin, commit, rollback}
use hc_tcp_im_server.MySql.Messages.{
  Answer-cases, MessageRecord, create_message, find_by_sender_client_msg_id,
}
use hc_tcp_im_server.MySql.Deliveries.{find_by_message_and_receiver, get_max_server_seq}
use hc_tcp_im_server.MySql.MessageStore.{
  MySqlMessageStore, is_failed, transaction, insert_both, save_new, save_message_and_delivery,
  find_duplicate_message, find_delivery_of, ensure_server_seq_cursor, take_numbers, next_message,
  message_record, delivery_record,
}
use hc_tcp_im_server.MySql.Statements.{
  has_open, create_message_open, create_delivery_open, find_by_sender_open, find_by_receiver_open,
  get_max_server_seq_open,
}
use hc_tcp_im_server.MySql.Logged.{Logged, logged, open_after, execute_open}

module _ {H : Type 0} ⦃m : Mysql H⦄ where
  pub transaction_closed :
      (body : Client (Logged H) → Client (Logged H) × Bool) (c : Client (Logged H))
      → ((d : Client (Logged H)) → has_open (body d).0 ≡ has_open d)
      → has_open c ≡ false
      → has_open (transaction body c).0 ≡ false
  unfolding has_open transaction begin commit rollback open_after
  transaction_closed body c h z =
      let opened = begin c in
      let written = body opened.0 in
      let kept = commit written.0 in
      elim (Bool-cases opened.1) [
        | inl b ↦ elim (Bool-cases written.1) [
          | inl w ↦ elim (Bool-cases kept.1) [
            | inl k ↦
                rw (b, w, k)
                  (execute_open written.0 "COMMIT"
                    ∙ ap (λ ok. open_after "COMMIT" ok (has_open written.0)) k)
            | inr k ↦ rw (b, w, k) (execute_open kept.0 "ROLLBACK")
          ]
          | inr w ↦ rw (b, w) (execute_open written.0 "ROLLBACK")
        ]
        | inr b ↦
            rw b (execute_open c "BEGIN" ∙ ap (λ ok. open_after "BEGIN" ok (has_open c)) b ∙ z)
      ]

  insert_both_open :
      (message : StoredMessage) (c : Client (Logged H))
      → has_open (insert_both message c).0 ≡ has_open c
  unfolding insert_both
  insert_both_open message c =
      let a = create_message c (message_record message) in
      elim (Bool-cases a.1) [
        | inl e ↦ rw e (
            create_delivery_open a.0 (delivery_record message)
            ∙ create_message_open c (message_record message))
        | inr e ↦ rw e (create_message_open c (message_record message))
      ]

  -- The calls, by the client that they leave.
  ensure_server_seq_cursor_open :
      (s : MySqlMessageStore (Logged H)) (user : String)
      → has_open (ensure_server_seq_cursor s user).0.client ≡ has_open s.client
  unfolding ensure_server_seq_cursor
  ensure_server_seq_cursor_open s user =
      let r = get_max_server_seq s.client user in
      elim (Option-cases (find user s.next_server_seq_by_user)) [
        | inl e ↦ elim (Answer-cases r.1) [
          | inl (n, a) ↦ rw (ensure_server_seq_cursor, e, a) (get_max_server_seq_open s.client user)
          | inr (inl a) ↦
              rw (ensure_server_seq_cursor, e, a) (get_max_server_seq_open s.client user)
          | inr (inr a) ↦
              rw (ensure_server_seq_cursor, e, a) (get_max_server_seq_open s.client user)
        ]
        | inr (n, e) ↦ rw (ensure_server_seq_cursor, e) refl
      ]

  save_new_closed :
      (s : MySqlMessageStore (Logged H)) (r : CreateMessageRequest)
      → has_open s.client ≡ false
      → has_open (save_new s r).0.client ≡ false
  unfolding save_new take_numbers
  save_new_closed s r z =
      let q = ensure_server_seq_cursor s r.to_user_id in
      let kept = ensure_server_seq_cursor_open s r.to_user_id ∙ z in
      elim (Option-cases q.1) [
        | inl e ↦ rw (save_new, e) kept
        | inr (b, e) ↦ elim (Bool-cases b) [
          | inl f ↦
              rw (save_new, e, f)
                (transaction_closed (insert_both (next_message q.0 r)) q.0.client
                  (insert_both_open (next_message q.0 r)) kept)
          | inr f ↦ rw (save_new, e, f) kept
        ]
      ]

  find_delivery_of_open :
      (c : Client (Logged H)) (r : CreateMessageRequest) (message : MessageRecord)
      → has_open (find_delivery_of c r message).0 ≡ has_open c
  unfolding find_delivery_of
  find_delivery_of_open c r message =
      let q = find_by_message_and_receiver c message.message_id r.to_user_id in
      let kept = find_by_receiver_open c message.message_id r.to_user_id in
      elim (Answer-cases q.1) [
        | inl (found, e) ↦ elim (Option-cases found) [
          | inl f ↦ rw (find_delivery_of, e, f) kept
          | inr (d, f) ↦ rw (find_delivery_of, e, f) kept
        ]
        | inr (inl e) ↦ rw (find_delivery_of, e) kept
        | inr (inr e) ↦ rw (find_delivery_of, e) kept
      ]

  find_duplicate_message_open :
      (c : Client (Logged H)) (r : CreateMessageRequest)
      → has_open (find_duplicate_message c r).0 ≡ has_open c
  unfolding find_duplicate_message
  find_duplicate_message_open c r =
      let q = find_by_sender_client_msg_id c r.from_user_id r.client_msg_id in
      let kept = find_by_sender_open c r.from_user_id r.client_msg_id in
      elim (Bool-cases (str_eq r.client_msg_id "")) [
        | inl b ↦ rw (find_duplicate_message, b) refl
        | inr b ↦ elim (Answer-cases q.1) [
          | inl (found, e) ↦ elim (Option-cases found) [
            | inl f ↦ rw (find_duplicate_message, b, e, f) kept
            | inr (d, f) ↦
                rw (find_duplicate_message, b, e, f) (find_delivery_of_open q.0 r d ∙ kept)
          ]
          | inr (inl e) ↦ rw (find_duplicate_message, b, e) kept
          | inr (inr e) ↦ rw (find_duplicate_message, b, e) kept
        ]
      ]

  pub save_message_and_delivery_closed :
      (s : MySqlMessageStore (Logged H)) (r : CreateMessageRequest)
      → has_open s.client ≡ false
      → has_open (save_message_and_delivery s r).0.client ≡ false
  unfolding save_message_and_delivery
  save_message_and_delivery_closed s r z =
      let q = find_duplicate_message s.client r in
      let kept = find_duplicate_message_open s.client r ∙ z in
      let next = save_new_closed (record s { client = q.0 }) r kept in
      elim (Answer-cases q.1) [
        | inl (found, e) ↦ elim (Option-cases found) [
          | inl f ↦ rw (save_message_and_delivery, e, f) next
          | inr (message, f) ↦ rw (save_message_and_delivery, e, f) kept
        ]
        | inr (inl e) ↦ elim (Bool-cases (is_failed q.0)) [
          | inl f ↦ rw (save_message_and_delivery, e, f) kept
          | inr f ↦ rw (save_message_and_delivery, e, f) next
        ]
        | inr (inr e) ↦ rw (save_message_and_delivery, e) kept
      ]

-- ===== src/MySql/Written.antt =====
-- src/storage/messageStore.cpp: what `saveMessageAndDelivery` has written when it reports a message as
-- new, by the statements that the MySQL library accepted.
use hc_tcp_im_server.Common.{
  ◌≡◌, Bool, true, false, ◌∷◌, String, arith, Option-cases, inl, inr, ◌∙◌, ap, sym,
}
use mathlib.Core.Path.{subst}
use hc_tcp_im_server.Store.{CreateMessageRequest, StoredMessage}
use hc_tcp_im_server.MySql.{Mysql, Client, begin, commit, execute}
use hc_tcp_im_server.MySql.Messages.{done, create_message, insert_message_sql}
use hc_tcp_im_server.MySql.Deliveries.{create_delivery, insert_delivery_sql}
use hc_tcp_im_server.MySql.MessageStore.{
  MySqlMessageStore, transaction, insert_both, save_new, save_message_and_delivery,
  find_duplicate_message, ensure_server_seq_cursor, take_numbers, next_message, message_record,
  delivery_record,
}
use hc_tcp_im_server.MySql.Logged.{Logged, Log, logged, log_of, execute_log}

-- The two rows of a message, written in one transaction after other statements. The clients are those
-- that escape the texts.
unfoldable pub IsWritten : (H : Type 0) ⦃m : Mysql H⦄ → StoredMessage → Log → Type 0
IsWritten H message after =
    (before : Log) × (c : Client (Logged H)) × (d : Client (Logged H)) × (after
      ≡ ("COMMIT", true)
        ∷ (insert_delivery_sql d (delivery_record message), true)
        ∷ (insert_message_sql c (message_record message), true)
        ∷ ("BEGIN", true)
        ∷ before)

module _ {H : Type 0} ⦃m : Mysql H⦄ where
  execute_accepted :
      (c : Client (Logged H)) (sql : String)
      → (execute c sql).1 ≡ true
      → log_of (execute c sql).0 ≡ (sql, true) ∷ log_of c
  unfolding execute log_of
  execute_accepted c sql h = elim (Option-cases c.impl) [
    | inl e ↦ ground (arith, h, e)
    | inr (k, e) ↦ execute_log c sql k e ∙ ap (λ ok. (sql, ok) ∷ log_of c) h
  ]

  transaction_accepted :
      (body : Client (Logged H) → Client (Logged H) × Bool) (c : Client (Logged H))
      → (transaction body c).1 ≡ true
      → let b = begin c in
        let w = body b.0 in
        let k = commit w.0 in
        ((b.1 ≡ true) × (w.1 ≡ true) × (k.1 ≡ true) × ((transaction body c).0 ≡ k.0))
  unfolding transaction
  transaction_accepted body c h = ground (arith, h)

  insert_both_accepted :
      (message : StoredMessage) (c : Client (Logged H))
      → (insert_both message c).1 ≡ true
      → let a = create_message c (message_record message) in
        let d = create_delivery a.0 (delivery_record message) in
        ((a.1 ≡ true) × (d.1 ≡ true) × ((insert_both message c).0 ≡ d.0))
  unfolding insert_both
  insert_both_accepted message c h = ground (arith, h)

  transaction-IsWritten :
      (message : StoredMessage) (c : Client (Logged H))
      → (transaction (insert_both message) c).1 ≡ true
      → IsWritten H message (log_of (transaction (insert_both message) c).0)
  unfolding begin commit create_message create_delivery IsWritten
  transaction-IsWritten message c h =
      let (b, w, k, e) = transaction_accepted (insert_both message) c h in
      let (f, g, i) = insert_both_accepted message (begin c).0 w in
      let a = create_message (begin c).0 (message_record message) in
      let w' = insert_both message (begin c).0 in
      let one = execute_accepted c "BEGIN" b in
      let first = insert_message_sql (begin c).0 (message_record message) in
      let second = insert_delivery_sql a.0 (delivery_record message) in
      let two = execute_accepted (begin c).0 first f in
      let three = execute_accepted a.0 second g in
      let four = execute_accepted w'.0 "COMMIT" k in
      (
        log_of c,
        (begin c).0,
        a.0,
        ap log_of e
            ∙ (four
                ∙ ap (λ l. ("COMMIT", true) ∷ l)
                    (ap log_of i
                      ∙ (three
                          ∙ ap (λ l. (second, true) ∷ l) (two ∙ ap (λ l. (first, true) ∷ l) one)))),
      )

  save_new_accepted :
      (s : MySqlMessageStore (Logged H)) (r : CreateMessageRequest) (message : StoredMessage)
      → (d : Bool) → (save_new s r).1 ≡ done (message, d)
      → let q = ensure_server_seq_cursor s r.to_user_id in
        let new = next_message q.0 r in
        let w = transaction (insert_both new) q.0.client in
        ((w.1 ≡ true) × (new ≡ message) × ((save_new s r).0.client ≡ w.0))
  unfolding save_new take_numbers
  save_new_accepted s r message d h =
      let q = ensure_server_seq_cursor s r.to_user_id in ground (arith, h)

  save_new-IsWritten :
      (s : MySqlMessageStore (Logged H)) (r : CreateMessageRequest) (message : StoredMessage)
      → (d : Bool) → (save_new s r).1 ≡ done (message, d)
      → IsWritten H message (log_of (save_new s r).0.client)
  save_new-IsWritten s r message d h =
      let q = ensure_server_seq_cursor s r.to_user_id in
      let (w, e, f) = save_new_accepted s r message d h in
      subst (λ x. IsWritten H x (log_of (save_new s r).0.client)) e
        (subst (λ x. IsWritten H (next_message q.0 r) (log_of x)) (sym f)
          (transaction-IsWritten (next_message q.0 r) q.0.client w))

  save_accepted :
      (s : MySqlMessageStore (Logged H)) (r : CreateMessageRequest) (message : StoredMessage)
      → (save_message_and_delivery s r).1 ≡ done (message, false)
      → let next = save_new (record s { client = (find_duplicate_message s.client r).0 }) r in
        ((next.1 ≡ done (message, false)) × ((save_message_and_delivery s r).0 ≡ next.0))
  unfolding save_message_and_delivery
  save_accepted s r message h = ground (arith, h)

  -- When a call reports a message as saved and not as a duplicate, the last four statements that the
  -- library was sent were accepted: BEGIN, the two inserts of that message, and COMMIT.
  pub save_message_and_delivery-IsWritten :
      (s : MySqlMessageStore (Logged H)) (r : CreateMessageRequest) (message : StoredMessage)
      → (save_message_and_delivery s r).1 ≡ done (message, false)
      → IsWritten H message (log_of (save_message_and_delivery s r).0.client)
  save_message_and_delivery-IsWritten s r message h =
      let (e, f) = save_accepted s r message h in
      let s' = record s { client = (find_duplicate_message s.client r).0 } in
      subst (λ x. IsWritten H message (log_of x.client)) (sym f)
        (save_new-IsWritten s' r message false e)

-- ===== src/MySql/Cursors.antt =====
-- src/storage/messageStore.cpp: the numbers that `MySqlMessageStore` keeps in memory, the cursor of a
-- receiver and the last acknowledged number, against what the database holds.
use hc_tcp_im_server.Common.{
  ℕ, max, ◌≡◌, refl, Bool, true, false, some, String, arith, Option-cases, inl, inr, suc, List, [],
  ◌∷◌, str_eq, if◌then◌else◌,
}
use hc_tcp_im_server.Common.Dict.{find, put, get_or, text_key, find-put_self}
use hc_tcp_im_server.Store.{CreateMessageRequest}
use hc_tcp_im_server.MySql.{Mysql}
use hc_tcp_im_server.MySql.Messages.{Answer-cases}
use hc_tcp_im_server.MySql.Deliveries.{
  DeliveryRecord, get_max_server_seq, find_by_message_and_receiver,
}
use hc_tcp_im_server.MySql.MessageStore.{MySqlMessageStore, transaction, save_new}
use hc_tcp_im_server.MySql.Marks.{last_acked_seq, not_acked, update_and_log, ack_found, mark_acked}

-- How many of the requests are for this receiver.
abbrev pub attempts : String → List CreateMessageRequest → ℕ
attempts user [] = 0
attempts user (r ∷ rs) =
    let rest = attempts user rs in if str_eq r.to_user_id user then suc rest else rest

module _ {H : Type 0} ⦃m : Mysql H⦄ where
  -- The store with a cursor of 0, which a refused query leaves.
  abbrev zeroed : MySqlMessageStore H → String → MySqlMessageStore H
  zeroed s user = record s {
    client = (get_max_server_seq s.client user).0;
    next_server_seq_by_user = put user 0 s.next_server_seq_by_user;
  }

  -- The saves of these requests, one after the other.
  unfoldable pub saves : MySqlMessageStore H → List CreateMessageRequest → MySqlMessageStore H
  saves s [] = s
  saves s (r ∷ rs) = saves (save_new s r).0 rs

  not_acked-false :
      (s : MySqlMessageStore H) (user : String) (last : ℕ) (ok : Bool)
      → (not_acked s user).1 ≡ some (last, ok)
      → ok ≡ false
  unfolding not_acked
  not_acked-false s user last ok h = ground (arith, h)

  ack_found_last :
      (s : MySqlMessageStore H) (now : ℕ) (user : String) (id seq code at last : ℕ)
      → (d : DeliveryRecord) → (ack_found s now user id seq code at d).1 ≡ some (last, true)
      → (last ≡ max (get_or user s.last_acked_seq_cache 0) seq)
        × ((ack_found s now user id seq code at d).0.last_acked_seq_cache
            ≡ put user last s.last_acked_seq_cache)
  unfolding ack_found
  ack_found_last s now user id seq code at last d h =
      let w = transaction (update_and_log now user id seq code at d) s.client in
      ground (arith, h, not_acked-false (record s { client = w.0 }) user last true)

  mark_acked_cache :
      (s : MySqlMessageStore H) (now : ℕ) (user : String) (id seq code at last : ℕ)
      → (mark_acked s now user id seq code at).1 ≡ some (last, true)
      → (last ≡ max (get_or user s.last_acked_seq_cache 0) seq)
        × ((mark_acked s now user id seq code at).0.last_acked_seq_cache
            ≡ put user last s.last_acked_seq_cache)
  unfolding mark_acked
  mark_acked_cache s now user id seq code at last h =
      let q = find_by_message_and_receiver s.client id user in
      let s' = record s { client = q.0 } in
      let left = not_acked-false s' user last true in
      elim (Answer-cases q.1) [
        | inl (found, e) ↦ elim (Option-cases found) [
          | inl f ↦ ground (arith, h, e, f, left)
          | inr (d, f) ↦
              ground (arith, h, e, f, left, ack_found_last s' now user id seq code at last d)
        ]
        | inr (inl e) ↦ ground (arith, h, e, left)
        | inr (inr e) ↦ ground (arith, h, e)
      ]

  last_acked_seq_cached :
      (s : MySqlMessageStore H) (user : String) (n : ℕ)
      → find user s.last_acked_seq_cache ≡ some n
      → (last_acked_seq s user).1 ≡ some n
  unfolding last_acked_seq
  last_acked_seq_cached s user n e = rw (last_acked_seq, e) refl

  -- An acknowledgement that succeeds reports and keeps the greater of its number and the number in
  -- memory, which is 0 when none is there.
  pub mark_acked_reports :
      (s : MySqlMessageStore H) (now : ℕ) (user : String) (id seq code at last : ℕ)
      → (mark_acked s now user id seq code at).1 ≡ some (last, true)
      → (last ≡ max (get_or user s.last_acked_seq_cache 0) seq)
        × ((last_acked_seq (mark_acked s now user id seq code at).0 user).1 ≡ some last)
  mark_acked_reports s now user id seq code at last h =
      let (e, f) = mark_acked_cache s now user id seq code at last h in
      (
        e,
        last_acked_seq_cached (mark_acked s now user id seq code at).0 user last
            (rw f (find-put_self user last s.last_acked_seq_cache)),
      )

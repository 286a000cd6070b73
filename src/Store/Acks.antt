-- ===== src/Store/Acks.antt =====
-- Acknowledgement in `markAcked` of src/storage/messageStore.cpp.
use hc_tcp_im_server.Common.{
  ℕ, ◌≤◌, ◌≡◌, refl, ap, ◌∙◌, Option, none, some, arith, String, str_eq, str_eq_iff, if◌then◌else◌,
}
use hc_tcp_im_server.Common.Dict.{put, get_or, number_key, text_key, find-put, same_refl}
use hc_tcp_im_server.Store.{MessageStore, mark_acked, acknowledge, touch, get_last_acked_seq}

last_put :
    (s : MessageStore) (user other : String) (n : ℕ)
    → get_or other (put user n s.last_acked_seq_by_user) 0
      ≡ (if str_eq user other then n else get_or other s.last_acked_seq_by_user 0)
last_put s user other n =
    ap (λ (o : Option ℕ). elim o [ none ↦ 0 | some v ↦ v ])
      (find-put user other n s.last_acked_seq_by_user)
    ∙ (ground arith)

-- On every branch, the number that the call returns is what it leaves for the receiver.
mark_acked_last :
    (s : MessageStore) (receiver : String) (msg_id seq ack_code at : ℕ)
    → let r = mark_acked s receiver msg_id seq ack_code at in
      ((r.0.last_acked_seq_by_user ≡ put receiver r.1 s.last_acked_seq_by_user)
        × (get_or receiver s.last_acked_seq_by_user 0 ≤ r.1))
unfolding mark_acked acknowledge touch
mark_acked_last s receiver msg_id seq ack_code at = ground arith

-- No call of `markAcked`, whether it succeeds or not, lowers the last acknowledged number of any
-- user, and it is the number that the call returns for the receiver.
pub mark_acked_monotone :
    (s : MessageStore) (receiver user : String) (msg_id seq ack_code at : ℕ)
    → let r = mark_acked s receiver msg_id seq ack_code at in
      ((get_last_acked_seq s user ≤ get_last_acked_seq r.0 user)
        × (get_last_acked_seq r.0 receiver ≡ r.1))
unfolding get_last_acked_seq
mark_acked_monotone s receiver user msg_id seq ack_code at =
    let r = mark_acked s receiver msg_id seq ack_code at in
    let (e, le) = mark_acked_last s receiver msg_id seq ack_code at in
    let back = str_eq_iff receiver user in
    rw e (
      ground (arith, last_put s receiver user r.1, le, back),
      last_put s receiver receiver r.1 ∙ rw (same_refl receiver) refl,
    )

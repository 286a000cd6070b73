-- ===== src/Store/Exactly.antt =====
-- What holds of every store that calls can reach, in src/storage/messageStore.cpp.
use hc_tcp_im_server.Common.{
  ℕ, ◌+◌, ◌<◌, ◌≡◌, ◌≢◌, refl, inl, inr, true, false, some, List, arith, u64, length, str_eq,
  Option-cases,
}
use hc_tcp_im_server.Common.Dict.{find, number_key, text_key, find-put_self}
use hc_tcp_im_server.Store.{
  MessageStore, StoredMessage, CreateMessageRequest, new, make_dedup_key, find_duplicate,
  new_message, store_message, save_message_and_delivery,
}
use hc_tcp_im_server.Store.Dedup.{make_dedup_key-ne, save_fresh, save_known}
use hc_tcp_im_server.Store.Invariant.{IsSound}
use hc_tcp_im_server.Store.Runs.{Call, save, run, run-IsKept, after-IsKept, found_duplicate}

pub new-IsSound : IsSound new
unfolding new find
new-IsSound = record {
  counted = λ user. omega arith;
  numbered = λ i m h. ground (arith, h);
  unique = λ i j m n h. ground (arith, h);
  indexed = λ key i h. absurd (ground (arith, h));
}

pub new_next : new.next_msg_id ≡ 1
unfolding new
new_next = refl

-- Where a saved message is found under its key.
saved_entry :
    (s : MessageStore) (r : CreateMessageRequest)
    → str_eq (make_dedup_key r.from_user_id r.client_msg_id) "" ≡ false
    → let first = save_message_and_delivery s r in
      ((i : ℕ) × (find
            (make_dedup_key r.from_user_id r.client_msg_id)
            first.0.client_msg_dedup_index
          ≡ some i)
        × (find i first.0.messages ≡ some first.1))
unfolding store_message find_duplicate
saved_entry s r t =
    let k = make_dedup_key r.from_user_id r.client_msg_id in
    elim (Option-cases (find_duplicate s r)) [
      | inl d ↦ rw (save_fresh s r d) (
        s.next_msg_id,
        rw t (find-put_self k s.next_msg_id s.client_msg_dedup_index),
        find-put_self s.next_msg_id (new_message s r) s.messages,
      )
      | inr (m, d) ↦
          rw (save_known s r m d) (elim (Option-cases (find k s.client_msg_dedup_index)) [
            | inl none_there ↦ absurd (ground (arith, d, t, none_there))
            | inr (i, h) ↦ (i, h, ground (arith, d, t, h))
          ])
    ]

-- From the empty store, after any calls, a message is saved under a client message id that is not
-- empty; after any further calls, saving again under the same sender and client id stores nothing,
-- and returns a duplicate with the id, number, users, text and time of the first. All this while the
-- calls are fewer than 2^64 - 2.
pub save_once :
    (before between : List Call) (r r' : CreateMessageRequest)
    → length before + length between + 2 < u64
    → r.client_msg_id ≢ ""
    → r'.from_user_id ≡ r.from_user_id
    → r'.client_msg_id ≡ r.client_msg_id
    → let first = save_message_and_delivery (run new before) r in
      let t = run first.0 between in
      ((m : StoredMessage) × (save_message_and_delivery t r' ≡ (t, m, true))
        × (m.notify ≡ first.1.notify))
save_once before between r r' f n e e' =
    let t0 = make_dedup_key-ne r.from_user_id r.client_msg_id n in
    let key : make_dedup_key r'.from_user_id r'.client_msg_id
        ≡ make_dedup_key r.from_user_id r.client_msg_id =
      rw (e, e') refl in
    let s = run new before in
    let base = run-IsKept before new new-IsSound (omega (arith, f, new_next)) in
    let one = after-IsKept s (save r) base.sound (omega (arith, f, new_next, base.grown)) in
    let first = save_message_and_delivery s r in
    let (i, h, g) = saved_entry s r t0 in
    let rest =
      run-IsKept between first.0 one.sound (omega (arith, f, new_next, base.grown, one.grown)) in
    let (m, k, same) = rest.messages i first.1 g in
    (
      m,
      save_known (run first.0 between) r' m
          (found_duplicate (run first.0 between) r' i m (rw key t0) (rw key (rest.index _ i h)) k),
      same,
    )

-- From the empty store, after fewer than 2^64 - 1 calls: every message is stored under its own id, and no
-- two messages for one receiver have the same number.
pub run_unique :
    (cs : List Call) (i j : ℕ) (m n : StoredMessage)
    → length cs + 1 < u64
    → find i (run new cs).messages ≡ some m
    → find j (run new cs).messages ≡ some n
    → m.receiver_id ≡ n.receiver_id
    → m.notify.server_seq ≡ n.notify.server_seq
    → ((m.notify.msg_id ≡ i) × (i ≡ j))
run_unique cs i j m n f h k e q =
    let v = (run-IsKept cs new new-IsSound (omega (arith, f, new_next))).sound in
    let (_, id, _) = v.numbered i m h in (id, v.unique i j m n h k e q)

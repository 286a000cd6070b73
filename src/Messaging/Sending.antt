-- ===== src/Messaging/Sending.antt =====
-- `sendReliableP2PMessage` of src/service/messageService.cpp over the store in memory.
use mathlib.Core.Path.{subst}
use hc_tcp_im_server.Common.{
  ℕ, ◌+◌, ◌<◌, ◌≡◌, refl, ap, ◌∙◌, inl, inr, Bool, true, Option, none, some, List, [], ◌∷◌, String,
  arith, length, u32, u64, ◌%◌, if◌then◌else◌, Option-cases,
}
use hc_tcp_im_server.Common.Dict.{find, number_key, text_key, find-put_self, same_refl}
use hc_tcp_im_server.ByteOrder.{Inet}
use hc_tcp_im_server.Protocol.{DeliveryStatus, delivering}
use hc_tcp_im_server.Protocol.Messages.{P2pMsgNotify}
use hc_tcp_im_server.Heartbeat.{Conn}
use hc_tcp_im_server.Store.{
  MessageStore, StoredMessage, CreateMessageRequest, new, find_duplicate, new_message,
  store_message, save_message_and_delivery, mark_delivery_attempt,
}
use hc_tcp_im_server.Store.Dedup.{find_duplicate-found, save_fresh, save_known}
use hc_tcp_im_server.Store.Invariant.{IsSound}
use hc_tcp_im_server.Store.Runs.{Call, run, run-IsKept}
use hc_tcp_im_server.Store.Exactly.{new-IsSound, new_next}
use hc_tcp_im_server.Messaging.{
  MessageService, Effect, SendResult, delivered, queued, not_marked, is_ok, online, attempted,
  deliver_locked, dispatch, send_reliable_p2p_message,
}
use hc_tcp_im_server.Messaging.Store.{in_memory}
use hc_tcp_im_server.Messaging.Retry.{packet}

duplicate_stored :
    (s : MessageStore) (r : CreateMessageRequest) (m : StoredMessage)
    → IsSound s
    → find_duplicate s r ≡ some m
    → find m.notify.msg_id s.messages ≡ some m
duplicate_stored s r m v d =
    let (i, h) = find_duplicate-found s r m d in
    let (_, id, _) = v.numbered i m h in ap (λ k. find k s.messages) id ∙ h

new_stored :
    (s : MessageStore) (r : CreateMessageRequest)
    → find (new_message s r).notify.msg_id (store_message s r).messages ≡ some (new_message s r)
unfolding new_message store_message
new_stored s r = find-put_self s.next_msg_id (new_message s r) s.messages

saved_stored :
    (s : MessageStore) (r : CreateMessageRequest)
    → IsSound s
    → let first = save_message_and_delivery s r in
      find first.1.notify.msg_id first.0.messages ≡ some first.1
saved_stored s r v = elim (Option-cases (find_duplicate s r)) [
  | inl d ↦ rw (save_fresh s r d) (new_stored s r)
  | inr (m, d) ↦ rw (save_known s r m d) (duplicate_stored s r m v d)
]

-- Recording an attempt for a stored message succeeds, and the message is then stored as given.
attempt_stored :
    (s : MessageStore) (m : StoredMessage) (now : ℕ)
    → find m.notify.msg_id s.messages ≡ some m
    → let m' = record m {
      status = delivering;
      last_deliver_at = now;
      retry_count = (m.retry_count + 1) % u32;
    } in
      let r = mark_delivery_attempt s m.receiver_id m.notify.msg_id delivering now m'.retry_count in
      (r.1 ≡ none) × (find m.notify.msg_id r.0.messages ≡ some m')
unfolding mark_delivery_attempt
attempt_stored s m now h =
    let m' : StoredMessage = record m {
      status = delivering;
      last_deliver_at = now;
      retry_count = (m.retry_count + 1) % u32;
    } in
    let mine = same_refl m.receiver_id in
    (ground (arith, h, mine), ground (arith, h, mine, find-put_self m.notify.msg_id m' s.messages))

module _ (net : Inet) (encode : P2pMsgNotify → List ℕ) (connected : Conn → Bool) where
  -- The answer to a sender: the call succeeds, the ids are those of a message `m` of the store, and
  -- the store holds it after the call; the receiver's connection, if it is up, got this message in one
  -- packet, which is recorded as an attempt.
  abbrev pub IsAnswered :
      Option Conn
      → StoredMessage
      → MessageService MessageStore × SendResult × ℕ × ℕ × List Effect
      → Type 0
  IsAnswered receiver m q =
      (is_ok q.1 ≡ true)
      × (q.2 ≡ m.notify.msg_id)
      × (q.3 ≡ m.notify.server_seq)
      × (q.4 ≡ (elim receiver as (λ o. List Effect) [
        | none ↦ []
        | some c ↦ packet net encode connected in_memory c m ∷ []
      ]))
      × ((t : MessageStore) × (m' : StoredMessage) × (q.0.message_store ≡ some t)
          × (find m.notify.msg_id t.messages ≡ some m')
          × (m'.notify ≡ m.notify)
          × (m'.status
              ≡ (elim receiver as (λ o. DeliveryStatus) [ none ↦ m.status | some c ↦ delivering ])))

  module _ (s : MessageService MessageStore) (st : MessageStore) (to_user : String)
      (m : StoredMessage) (duplicate : Bool) (now : ℕ) where
    abbrev sent : MessageService MessageStore × SendResult × ℕ × ℕ × List Effect
    sent = dispatch net encode connected in_memory s st to_user m duplicate now

    dispatch_offline :
        online connected s to_user ≡ none
        → sent ≡ (
          record s { message_store = some st },
          queued duplicate,
          m.notify.msg_id,
          m.notify.server_seq,
          [],
        )
    unfolding dispatch
    dispatch_offline e = rw (e, dispatch) refl

    dispatch_online :
        (c : Conn)
        → online connected s to_user ≡ some c
        → let r = deliver_locked net encode connected in_memory st c m now in
          sent ≡ (
            record s { message_store = some r.0 },
            if r.1 then delivered duplicate else not_marked,
            m.notify.msg_id,
            m.notify.server_seq,
            r.2,
          )
    unfolding dispatch
    dispatch_online c e = rw (e, dispatch) refl

    dispatch-IsAnswered :
        find m.notify.msg_id st.messages ≡ some m → IsAnswered (online connected s to_user) m sent
    unfolding deliver_locked attempted is_ok
    dispatch-IsAnswered h =
        let (done, stored) = attempt_stored st m now h in
        elim (Option-cases (online connected s to_user)) [
          | inl e ↦
              rw (dispatch_offline e, e) (refl, refl, refl, refl, (st, m, refl, h, refl, refl))
          | inr (c, e) ↦
              rw (dispatch_online c e, e)
                (ground (arith, done), refl, refl, refl, (_, _, refl, stored, refl, refl))
        ]

  -- The store in memory has had any calls, fewer than 2^64 - 2. Sending a message, whether it is a
  -- duplicate or not, succeeds with the ids of the message that saving the request gives; the store
  -- holds this message after the call; and the named user's connection, if it is up, got exactly one
  -- packet, that of this message, whose status is then delivering.
  pub send-IsAnswered :
      (s : MessageService MessageStore) (cs : List Call)
      (from_user to_user client_msg_id content : String) (now : ℕ)
      → s.message_store ≡ some (run new cs)
      → length cs + 2 < u64
      → let r : CreateMessageRequest = record {
        from_user_id = from_user;
        to_user_id = to_user;
        client_msg_id = client_msg_id;
        content = content;
        timestamp = now;
      } in
        IsAnswered (online connected s to_user) (save_message_and_delivery (run new cs) r).1 (
          send_reliable_p2p_message net encode connected in_memory s from_user to_user client_msg_id
            content now)
  unfolding send_reliable_p2p_message online
  send-IsAnswered s cs from_user to_user client_msg_id content now e f =
      let r : CreateMessageRequest = record {
        from_user_id = from_user;
        to_user_id = to_user;
        client_msg_id = client_msg_id;
        content = content;
        timestamp = now;
      } in
      let base = run-IsKept cs new new-IsSound (omega (arith, f, new_next)) in
      let first = save_message_and_delivery (run new cs) r in
      rw (e, send_reliable_p2p_message)
        (dispatch-IsAnswered s first.0 to_user first.1 first.2 now
          (saved_stored (run new cs) r base.sound))

  -- A request whose sender and client id belong to a stored message `m`: the named user's connection,
  -- if it is up, gets the packet of `m`, and the store has `m` as being delivered, whoever the
  -- receiver of `m` is and whether or not `m` was acknowledged.
  pub duplicate_sent :
      (s : MessageService MessageStore) (cs : List Call)
      (from_user to_user client_msg_id content : String) (now : ℕ) (c : Conn) (m : StoredMessage)
      → s.message_store ≡ some (run new cs)
      → length cs + 2 < u64
      → online connected s to_user ≡ some c
      → find_duplicate (run new cs) (record {
        from_user_id = from_user;
        to_user_id = to_user;
        client_msg_id = client_msg_id;
        content = content;
        timestamp = now;
      })
        ≡ some m
      → let q =
          send_reliable_p2p_message net encode connected in_memory s from_user to_user client_msg_id
            content now in
        (q.4 ≡ packet net encode connected in_memory c m ∷ [])
        × ((t : MessageStore) × (m' : StoredMessage) × (q.0.message_store ≡ some t)
            × (find m.notify.msg_id t.messages ≡ some m')
            × (m'.status ≡ delivering))
  duplicate_sent s cs from_user to_user client_msg_id content now c m e f up d =
      let r : CreateMessageRequest = record {
        from_user_id = from_user;
        to_user_id = to_user;
        client_msg_id = client_msg_id;
        content = content;
        timestamp = now;
      } in
      let same : (save_message_and_delivery (run new cs) r).1 ≡ m =
        ap (λ (q : MessageStore × StoredMessage × Bool). q.1) (save_known (run new cs) r m d) in
      let q =
        send_reliable_p2p_message net encode connected in_memory s from_user to_user client_msg_id
          content now in
      let answer : IsAnswered (some c) m q =
        subst (λ o. IsAnswered o m q) up
          (subst (λ w. IsAnswered (online connected s to_user) w q) same
            (send-IsAnswered s cs from_user to_user client_msg_id content now e f)) in
      let (ok, id, seq, packets, (t, m', stored, there, kept, status)) = answer in
      (packets, (t, m', stored, there, status))

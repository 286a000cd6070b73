-- ===== src/Store/Runs.antt =====
-- Runs of calls on the `InMemoryMessageStore` of src/storage/messageStore.cpp.
use hc_tcp_im_server.Common.{
  ℕ, ◌+◌, ◌≤◌, ◌<◌, ◌≡◌, refl, sym, ap, ◌∙◌, inl, inr, false, none, some, List, [], ◌∷◌, arith,
  String, u64, length, str_eq, str_eq_iff, ◌==◌, ==_iff, Bool-cases, Option-cases, if◌then◌else◌,
}
use hc_tcp_im_server.Common.Dict.{find, put, number_key, text_key, find-put}
use hc_tcp_im_server.Protocol.{DeliveryStatus, delivered, read, ack_read}
use hc_tcp_im_server.Store.{
  MessageStore, StoredMessage, CreateMessageRequest, make_dedup_key, find_duplicate, store_message,
  save_message_and_delivery, mark_delivery_attempt, mark_acked, acknowledge, touch,
}
use hc_tcp_im_server.Store.Dedup.{save_fresh, save_known}
use hc_tcp_im_server.Store.Invariant.{
  IsSound, replace-IsSound, store_message-IsSound, kept, stored_next,
}

-- The calls that change the store.
pub data Call : Type 0 where
  save : CreateMessageRequest → Call
  attempt : String → ℕ → DeliveryStatus → ℕ → ℕ → Call
  ack : String → ℕ → ℕ → ℕ → ℕ → Call

abbrev pub after : MessageStore → Call → MessageStore
after s (save r) = (save_message_and_delivery s r).0
after s (attempt receiver id status at count) =
    (mark_delivery_attempt s receiver id status at count).0
after s (ack receiver id seq ack_code at) = (mark_acked s receiver id seq ack_code at).0

unfoldable pub run : MessageStore → List Call → MessageStore
run s [] = s
run s (c ∷ cs) = run (after s c) cs

-- What a later store keeps of an earlier one: the envelope of each message, and the index.
pub record IsKept (s t : MessageStore) (n : ℕ) : Type 0 where
  pub sound : IsSound t
  pub grown : t.next_msg_id ≤ s.next_msg_id + n
  pub messages :
      (i : ℕ) (m : StoredMessage)
      → find i s.messages ≡ some m
      → ((m' : StoredMessage) × (find i t.messages ≡ some m') × (m'.notify ≡ m.notify))
  pub index :
      (key : String) (i : ℕ)
      → find key s.client_msg_dedup_index ≡ some i
      → find key t.client_msg_dedup_index ≡ some i

same-IsKept :
    (s t : MessageStore)
    → IsSound s
    → t.next_msg_id ≡ s.next_msg_id
    → t.next_server_seq_by_user ≡ s.next_server_seq_by_user
    → t.client_msg_dedup_index ≡ s.client_msg_dedup_index
    → t.messages ≡ s.messages
    → IsKept s t 1
same-IsKept s t v e1 e2 e3 e4 = record {
  sound = record {
    counted = λ user. rw (e1, e2) (v.counted user);
    numbered = λ i m h. rw (e1, e2) (v.numbered i m (ap (find i) (sym e4) ∙ h));
    unique = λ i j m n h k. v.unique i j m n (ap (find i) (sym e4) ∙ h) (ap (find j) (sym e4) ∙ k);
    indexed = λ key i h.
        let (m, k) = v.indexed key i (ap (find key) (sym e3) ∙ h) in (m, ap (find i) e4 ∙ k);
  };
  grown = omega (arith, e1);
  messages = λ i m h. (m, ap (find i) e4 ∙ h, refl);
  index = λ key i h. ap (find key) e3 ∙ h;
}

replace-IsKept :
    (s t : MessageStore) (id : ℕ) (m m' : StoredMessage)
    → IsSound s
    → find id s.messages ≡ some m
    → m'.notify ≡ m.notify
    → m'.receiver_id ≡ m.receiver_id
    → t.next_msg_id ≡ s.next_msg_id
    → t.next_server_seq_by_user ≡ s.next_server_seq_by_user
    → t.client_msg_dedup_index ≡ s.client_msg_dedup_index
    → t.messages ≡ put id m' s.messages
    → IsKept s t 1
replace-IsKept s t id m m' v f en er e1 e2 e3 e4 = record {
  sound = replace-IsSound s t id m m' v f en er e1 e2 e3 e4;
  grown = omega (arith, e1);
  messages = λ i w h. elim (Bool-cases (id == i)) [
    | inl p ↦
        let same : id ≡ i = (==_iff id i).0 p in
        let same_m : m ≡ w = ground (arith, f, h, same) in
        (
          m',
          ap (find i) e4 ∙ find-put id i m' s.messages ∙ rw p refl,
          en ∙ ap (λ (x : StoredMessage). x.notify) same_m,
        )
    | inr p ↦ (w, ap (find i) e4 ∙ find-put id i m' s.messages ∙ rw p h, refl)
  ];
  index = λ key i h. ap (find key) e3 ∙ h;
}

attempt-IsKept :
    (s : MessageStore) (receiver : String) (id : ℕ) (status : DeliveryStatus) (at count : ℕ)
    → IsSound s
    → IsKept s (mark_delivery_attempt s receiver id status at count).0 1
unfolding mark_delivery_attempt
attempt-IsKept s receiver id status at count v = elim (Option-cases (find id s.messages)) [
  | inl e ↦ rw (e, mark_delivery_attempt) (same-IsKept s s v refl refl refl refl)
  | inr (m, e) ↦ elim (Bool-cases (str_eq m.receiver_id receiver)) [
    | inl t ↦
        rw (e, t, mark_delivery_attempt)
          (replace-IsKept s _ id m
            (record m { status = status; last_deliver_at = at; retry_count = count }) v e refl refl
            refl refl refl refl)
    | inr t ↦ rw (e, t, mark_delivery_attempt) (same-IsKept s s v refl refl refl refl)
  ]
]

touch-IsKept : (s : MessageStore) (user : String) → IsSound s → IsKept s (touch s user) 1
unfolding touch
touch-IsKept s user v = same-IsKept s (touch s user) v refl refl refl refl

ack-IsKept :
    (s : MessageStore) (receiver : String) (id seq ack_code at : ℕ)
    → IsSound s
    → IsKept s (mark_acked s receiver id seq ack_code at).0 1
unfolding mark_acked acknowledge
ack-IsKept s receiver id seq ack_code at v = elim (Option-cases (find id s.messages)) [
  | inl e ↦ rw (e, mark_acked) (touch-IsKept s receiver v)
  | inr (m, e) ↦ elim (Bool-cases (str_eq m.receiver_id receiver)) [
    | inl t ↦ elim (Bool-cases (m.notify.server_seq == seq)) [
      | inl q ↦
          rw (e, t, q, mark_acked)
            (replace-IsKept s (acknowledge s receiver id seq ack_code at m) id m
              (record m {
                acked_at = at;
                status = if ack_code == ack_read then read else delivered;
              })
              v e refl refl refl refl refl refl)
      | inr q ↦ rw (e, t, q, mark_acked) (touch-IsKept s receiver v)
    ]
    | inr t ↦ rw (e, t, mark_acked) (touch-IsKept s receiver v)
  ]
]

pub found_duplicate :
    (s : MessageStore) (r : CreateMessageRequest) (i : ℕ) (m : StoredMessage)
    → str_eq (make_dedup_key r.from_user_id r.client_msg_id) "" ≡ false
    → find (make_dedup_key r.from_user_id r.client_msg_id) s.client_msg_dedup_index ≡ some i
    → find i s.messages ≡ some m
    → find_duplicate s r ≡ some m
unfolding find_duplicate
found_duplicate s r i m t h f = rw (t, h, f) refl

-- A request that is no duplicate does not overwrite an entry of the index.
store_message-index :
    (s : MessageStore) (r : CreateMessageRequest)
    → IsSound s
    → find_duplicate s r ≡ none
    → (key : String) (i : ℕ) → find key s.client_msg_dedup_index ≡ some i
    → find key (store_message s r).client_msg_dedup_index ≡ some i
unfolding store_message find_duplicate
store_message-index s r v d key i h =
    let k = make_dedup_key r.from_user_id r.client_msg_id in
    let (m, f) = v.indexed key i h in
    elim (Bool-cases (str_eq k "")) [
      | inl t ↦ rw t h
      | inr t ↦ rw t (
          find-put k key s.next_msg_id s.client_msg_dedup_index ∙ elim (Bool-cases (str_eq k key)) [
            | inl p ↦ absurd (clash ((str_eq_iff k key).0 p) t m f)
            | inr p ↦ rw p h
          ])
    ]
  where
    clash :
        make_dedup_key r.from_user_id r.client_msg_id ≡ key
        → str_eq (make_dedup_key r.from_user_id r.client_msg_id) "" ≡ false
        → (m : StoredMessage) → find i s.messages ≡ some m
        → ⊥
    clash p t m f =
        let found : find_duplicate s r ≡ some m =
          found_duplicate s r i m t (ap (λ q. find q s.client_msg_dedup_index) p ∙ h) f in
        ground (arith, d, found)

store_message-IsKept :
    (s : MessageStore) (r : CreateMessageRequest)
    → IsSound s
    → s.next_msg_id + 1 < u64
    → find_duplicate s r ≡ none
    → IsKept s (store_message s r) 1
store_message-IsKept s r v room d = record {
  sound = store_message-IsSound s r v room;
  grown = omega (arith, stored_next s r v room);
  messages = λ i m h. (m, kept s r v room i m h, refl);
  index = store_message-index s r v d;
}

pub after-IsKept :
    (s : MessageStore) (c : Call) → IsSound s → s.next_msg_id + 1 < u64 → IsKept s (after s c) 1
after-IsKept s (save r) v room = elim (Option-cases (find_duplicate s r)) [
  | inl d ↦ rw (save_fresh s r d, after) (store_message-IsKept s r v room d)
  | inr (m, d) ↦ rw (save_known s r m d, after) (same-IsKept s s v refl refl refl refl)
]
after-IsKept s (attempt receiver id status at count) v room =
    attempt-IsKept s receiver id status at count v
after-IsKept s (ack receiver id seq ack_code at) v room = ack-IsKept s receiver id seq ack_code at v

pub run-IsKept :
    (cs : List Call) (s : MessageStore)
    → IsSound s
    → s.next_msg_id + length cs < u64
    → IsKept s (run s cs) (length cs)
unfolding run
run-IsKept [] s v room = record {
  sound = v;
  grown = omega arith;
  messages = λ i m h. (m, h, refl);
  index = λ key i h. h;
}
run-IsKept (c ∷ cs) s v room =
    let one = after-IsKept s c v (omega arith) in
    let rest = run-IsKept cs (after s c) one.sound (omega (arith, one.grown)) in
    record {
      sound = rest.sound;
      grown = omega (arith, one.grown, rest.grown);
      messages = λ i m h.
          let (m1, h1, n1) = one.messages i m h in
          let (m2, h2, n2) = rest.messages i m1 h1 in (m2, h2, n2 ∙ n1);
      index = λ key i h. rest.index key i (one.index key i h);
    }

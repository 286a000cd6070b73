-- ===== src/Store/Invariant.antt =====
-- What every operation of `InMemoryMessageStore` in src/storage/messageStore.cpp keeps true.
use hc_tcp_im_server.Common.{
  ℕ, ◌+◌, ◌≤◌, ◌<◌, ◌≡◌, refl, sym, ap, ◌∙◌, ◌⊎◌, inl, inr, Option, none, some, arith, String, u64,
  str_eq, str_eq_iff, ◌==◌, Bool-cases, if◌then◌else◌,
}
use hc_tcp_im_server.Common.Dict.{
  Key, Dict, find, put, get_or, number_key, text_key, find-put, find-put_self,
}
use hc_tcp_im_server.Protocol.Messages.{P2pMsgNotify}
use hc_tcp_im_server.Store.{
  MessageStore, StoredMessage, CreateMessageRequest, make_dedup_key, new_message, store_message,
}

pub found_put :
    {K : Type 0} ⦃e : Key K⦄ {V : Type 0} (k j : K) (v w : V) (m : Dict K V)
    → find j (put k v m) ≡ some w
    → (((k ≡ j) × (v ≡ w)) ⊎ (find j m ≡ some w))
found_put ⦃e⦄ k j v w m h = elim (Bool-cases (e.same k j)) [
  | inl t ↦ inl ((e.same_iff k j).0 t, ground (arith, h, find-put k j v m, t))
  | inr f ↦ inr (ground (arith, h, find-put k j v m, f))
]

-- Each user's numbers start below the next message id; each message is stored under its id, below the
-- next one, and with a number that its receiver has reached; no receiver has a number twice; and the
-- deduplication index leads to stored messages.
pub record IsSound (s : MessageStore) : Type 0 where
  pub counted : (user : String) → get_or user s.next_server_seq_by_user 0 < s.next_msg_id
  pub numbered :
      (i : ℕ) (m : StoredMessage)
      → find i s.messages ≡ some m
      → ((i < s.next_msg_id)
          × (m.notify.msg_id ≡ i)
          × (m.notify.server_seq ≤ get_or m.receiver_id s.next_server_seq_by_user 0))
  pub unique :
      (i j : ℕ) (m n : StoredMessage)
      → find i s.messages ≡ some m
      → find j s.messages ≡ some n
      → m.receiver_id ≡ n.receiver_id
      → m.notify.server_seq ≡ n.notify.server_seq
      → i ≡ j
  pub indexed :
      (key : String) (i : ℕ)
      → find key s.client_msg_dedup_index ≡ some i
      → ((m : StoredMessage) × (find i s.messages ≡ some m))

-- Other fields of the message stored under an id may change, and other maps of the store.
pub replace-IsSound :
    (s t : MessageStore) (id : ℕ) (m m' : StoredMessage)
    → IsSound s
    → find id s.messages ≡ some m
    → m'.notify ≡ m.notify
    → m'.receiver_id ≡ m.receiver_id
    → t.next_msg_id ≡ s.next_msg_id
    → t.next_server_seq_by_user ≡ s.next_server_seq_by_user
    → t.client_msg_dedup_index ≡ s.client_msg_dedup_index
    → t.messages ≡ put id m' s.messages
    → IsSound t
replace-IsSound s t id m m' v f en er e1 e2 e3 e4 =
    let back : (i : ℕ) (w : StoredMessage)
        → find i t.messages ≡ some w
        → ((u : StoredMessage) × (find i s.messages ≡ some u)
            × (w.notify ≡ u.notify)
            × (w.receiver_id ≡ u.receiver_id)) =
      λ i w h. elim (found_put id i m' w s.messages (ap (find i) (sym e4) ∙ h)) [
        | inl (p, q) ↦ (
          m,
          ap (λ k. find k s.messages) (sym p) ∙ f,
          ap (λ (x : StoredMessage). x.notify) (sym q) ∙ en,
          ap (λ (x : StoredMessage). x.receiver_id) (sym q) ∙ er,
        )
        | inr h' ↦ (w, h', refl, refl)
      ] in
    record {
      counted = λ user. rw (e1, e2) (v.counted user);
      numbered = λ i w h.
          let (u, hu, n, r) = back i w h in
          let (a, b, c) = v.numbered i u hu in rw (e1, e2, n, r) (a, b, c);
      unique = λ i j w x h k r q.
          let (u, hu, n, ru) = back i w h in
          let (y, hy, ny, ry) = back j x k in
          v.unique i j u y hu hy (sym ru ∙ r ∙ ry) (
            ap (λ (z : P2pMsgNotify). z.server_seq) (sym n)
            ∙ q
            ∙ ap (λ (z : P2pMsgNotify). z.server_seq) ny);
      indexed = λ key i h.
          let (u, hu) = v.indexed key i (ap (find key) (sym e3) ∙ h) in
          elim (Bool-cases (id == i)) [
            | inl t' ↦ (m', ap (find i) e4 ∙ find-put id i m' s.messages ∙ rw t' refl)
            | inr t' ↦ (u, ap (find i) e4 ∙ find-put id i m' s.messages ∙ rw t' hu)
          ];
    }

get_or-put :
    (user other : String) (n : ℕ) (m : Dict String ℕ)
    → get_or other (put user n m) 0 ≡ (if str_eq user other then n else get_or other m 0)
get_or-put user other n m =
    ap (λ (o : Option ℕ). elim o [ none ↦ 0 | some v ↦ v ]) (find-put user other n m)
    ∙ (ground arith)

module _ (s : MessageStore) (r : CreateMessageRequest) (v : IsSound s)
    (room : s.next_msg_id + 1 < u64) where
  abbrev last : ℕ
  last = get_or r.to_user_id s.next_server_seq_by_user 0

  new_seq : (new_message s r).notify.server_seq ≡ last + 1
  unfolding new_message
  new_seq = omega (arith, v.counted r.to_user_id, room)

  new_receiver : (new_message s r).receiver_id ≡ r.to_user_id
  unfolding new_message
  new_receiver = refl

  new_id : (new_message s r).notify.msg_id ≡ s.next_msg_id
  unfolding new_message
  new_id = refl

  -- The numbers after the call.
  stored_seq :
      (user : String)
      → get_or user (store_message s r).next_server_seq_by_user 0
        ≡ (if str_eq r.to_user_id user then last + 1 else get_or user s.next_server_seq_by_user 0)
  unfolding store_message
  stored_seq user =
      get_or-put r.to_user_id user (new_message s r).notify.server_seq s.next_server_seq_by_user
      ∙ rw new_seq refl

  pub stored_next : (store_message s r).next_msg_id ≡ s.next_msg_id + 1
  unfolding store_message
  stored_next = omega (arith, room)

  stored_messages : (store_message s r).messages ≡ put s.next_msg_id (new_message s r) s.messages
  unfolding store_message
  stored_messages = refl

  -- A message is the new one, or was there.
  stored :
      (i : ℕ) (w : StoredMessage)
      → find i (store_message s r).messages ≡ some w
      → (((s.next_msg_id ≡ i) × (new_message s r ≡ w)) ⊎ (find i s.messages ≡ some w))
  stored i w h =
      found_put s.next_msg_id i (new_message s r) w s.messages
        (ap (find i) (sym stored_messages) ∙ h)

  pub kept :
      (i : ℕ) (w : StoredMessage)
      → find i s.messages ≡ some w
      → find i (store_message s r).messages ≡ some w
  kept i w h =
      let (lt, _, _) = v.numbered i w h in
      ap (find i) stored_messages
      ∙ find-put s.next_msg_id i (new_message s r) s.messages
      ∙ (ground (arith, h, lt))

  indexed_old :
      (key : String) (i : ℕ)
      → find key s.client_msg_dedup_index ≡ some i
      → ((m : StoredMessage) × (find i (store_message s r).messages ≡ some m))
  indexed_old key i h = let (u, hu) = v.indexed key i h in (u, kept i u hu)

  -- The index after the call: the entry is the new one, or was there.
  stored_index :
      (key : String) (i : ℕ)
      → find key (store_message s r).client_msg_dedup_index ≡ some i
      → ((s.next_msg_id ≡ i) ⊎ (find key s.client_msg_dedup_index ≡ some i))
  unfolding store_message
  stored_index key i h =
      let k = make_dedup_key r.from_user_id r.client_msg_id in
      elim (Bool-cases (str_eq k "")) [
        | inl t ↦ inr (rw t at h)
        | inr f ↦ elim (found_put k key s.next_msg_id i s.client_msg_dedup_index (rw f at h)) [
          | inl p ↦ inl p.1
          | inr q ↦ inr q
        ]
      ]

  stored-unique_new :
      (j : ℕ) (x : StoredMessage)
      → find j s.messages ≡ some x
      → x.receiver_id ≡ r.to_user_id
      → x.notify.server_seq ≡ last + 1
      → ⊥
  stored-unique_new j x h e q =
      let (_, _, le) = v.numbered j x h in
      omega (arith, le, ap (λ u. get_or u s.next_server_seq_by_user 0) e, q)

  seq-le :
      (user : String)
      → get_or user s.next_server_seq_by_user 0
        ≤ get_or user (store_message s r).next_server_seq_by_user 0
  seq-le user = ground (arith, stored_seq user, str_eq_iff r.to_user_id user)

  pub store_message-IsSound : IsSound (store_message s r)
  store_message-IsSound = record {
    counted = λ user.
        ground (arith, stored_seq user, stored_next, v.counted user, v.counted r.to_user_id);
    numbered = λ i w h. elim (stored i w h) [
      | inl (p, q) ↦ (
        omega (arith, p, stored_next),
        ap (λ (m : StoredMessage). m.notify.msg_id) (sym q) ∙ new_id ∙ p,
        rw (← q, new_seq, new_receiver)
            (ground (arith, stored_seq r.to_user_id, str_eq_iff r.to_user_id r.to_user_id)),
      )
      | inr old ↦
          let (a, b, c) = v.numbered i w old in
          (omega (arith, a, stored_next), b, omega (arith, c, seq-le w.receiver_id))
    ];
    unique = λ i j w x h k e q. elim (stored i w h) [
      | inl (p, m) ↦ elim (stored j x k) [
        | inl (p', m') ↦ sym p ∙ p'
        | inr old ↦ absurd (
            stored-unique_new j x old
              (sym e ∙ ap (λ (z : StoredMessage). z.receiver_id) (sym m) ∙ new_receiver)
              (sym q ∙ ap (λ (z : StoredMessage). z.notify.server_seq) (sym m) ∙ new_seq))
      ]
      | inr old ↦ elim (stored j x k) [
        | inl (p', m') ↦ absurd (
            stored-unique_new i w old
              (e ∙ ap (λ (z : StoredMessage). z.receiver_id) (sym m') ∙ new_receiver)
              (q ∙ ap (λ (z : StoredMessage). z.notify.server_seq) (sym m') ∙ new_seq))
        | inr old' ↦ v.unique i j w x old old' e q
      ]
    ];
    indexed = λ key i h. elim (stored_index key i h) [
      | inl p ↦ (
        new_message s r,
        rw (stored_messages, ← p) (find-put_self s.next_msg_id (new_message s r) s.messages),
      )
      | inr old ↦ indexed_old key i old
    ];
  }

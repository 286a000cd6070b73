-- ===== src/Store/Dedup.antt =====
-- Deduplication in `saveMessageAndDelivery` of src/storage/messageStore.cpp.
use Prim.Native.String.{String, ◌++◌ as str_append}
use text.Mathlib.TextLemmas.{append-ne-nil_of_right_ne-nil}
use hc_tcp_im_server.Common.{
  ℕ, ◌≡◌, ◌≢◌, refl, ◌∙◌, inl, inr, true, false, none, some, arith, str_eq, str_eq_iff, Bool-cases,
  Option-cases,
}
use hc_tcp_im_server.Common.Dict.{find, number_key, text_key, find-put_self}
use hc_tcp_im_server.Store.{
  MessageStore, StoredMessage, CreateMessageRequest, make_dedup_key, find_duplicate, new_message,
  store_message, save_message_and_delivery,
}

pub make_dedup_key-ne : (a b : String) → b ≢ "" → str_eq (make_dedup_key a b) "" ≡ false
unfolding make_dedup_key
make_dedup_key-ne a b n = elim (Bool-cases (str_eq b "")) [
  | inl t ↦ absurd (n ((str_eq_iff b "").0 t))
  | inr f ↦ elim (Bool-cases (str_eq (str_append a (str_append "#" b)) "")) [
    | inl t ↦ absurd (
        append-ne-nil_of_right_ne-nil a (append-ne-nil_of_right_ne-nil "#" n)
          ((str_eq_iff (str_append a (str_append "#" b)) "").0 t))
    | inr g ↦ rw f g
  ]
]

find_duplicate-store :
    (s : MessageStore) (r r' : CreateMessageRequest)
    → str_eq (make_dedup_key r.from_user_id r.client_msg_id) "" ≡ false
    → make_dedup_key r'.from_user_id r'.client_msg_id
      ≡ make_dedup_key r.from_user_id r.client_msg_id
    → find_duplicate (store_message s r) r' ≡ some (new_message s r)
unfolding find_duplicate store_message
find_duplicate-store s r r' f e =
    let key = make_dedup_key r.from_user_id r.client_msg_id in
    rw
      (
        e,
        f,
        find-put_self key s.next_msg_id s.client_msg_dedup_index,
        find-put_self s.next_msg_id (new_message s r) s.messages,
      )
      refl

pub save_fresh :
    (s : MessageStore) (r : CreateMessageRequest)
    → find_duplicate s r ≡ none
    → save_message_and_delivery s r ≡ (store_message s r, new_message s r, false)
unfolding save_message_and_delivery
save_fresh s r e = rw (e, save_message_and_delivery) refl

pub save_known :
    (s : MessageStore) (r : CreateMessageRequest) (m : StoredMessage)
    → find_duplicate s r ≡ some m
    → save_message_and_delivery s r ≡ (s, m, true)
unfolding save_message_and_delivery
save_known s r m e = rw (e, save_message_and_delivery) refl

find_duplicate-key :
    (s : MessageStore) (r r' : CreateMessageRequest)
    → make_dedup_key r'.from_user_id r'.client_msg_id
      ≡ make_dedup_key r.from_user_id r.client_msg_id
    → find_duplicate s r' ≡ find_duplicate s r
unfolding find_duplicate
find_duplicate-key s r r' e = rw e refl

-- Saving a message, and then saving again under the same sender and client message id, when that id
-- is not empty: the second call stores nothing, and returns the stored message of the first, marked
-- as a duplicate.
pub save_again :
    (s : MessageStore) (r r' : CreateMessageRequest)
    → r.client_msg_id ≢ ""
    → r'.from_user_id ≡ r.from_user_id
    → r'.client_msg_id ≡ r.client_msg_id
    → let first = save_message_and_delivery s r in
      save_message_and_delivery first.0 r' ≡ (first.0, first.1, true)
save_again s r r' n e e' =
    let k : make_dedup_key r'.from_user_id r'.client_msg_id
        ≡ make_dedup_key r.from_user_id r.client_msg_id =
      rw (e, e') refl in
    elim (Option-cases (find_duplicate s r)) [
      | inl none_yet ↦ rw (save_fresh s r none_yet) (
          save_known (store_message s r) r' (new_message s r)
            (find_duplicate-store s r r' (make_dedup_key-ne r.from_user_id r.client_msg_id n) k))
      | inr (m, known) ↦
          rw (save_known s r m known) (save_known s r' m (find_duplicate-key s r r' k ∙ known))
    ]

-- A duplicate stands among the stored messages.
pub find_duplicate-found :
    (s : MessageStore) (r : CreateMessageRequest) (m : StoredMessage)
    → find_duplicate s r ≡ some m
    → (i : ℕ) × (find i s.messages ≡ some m)
unfolding find_duplicate
find_duplicate-found s r m d =
    let k = make_dedup_key r.from_user_id r.client_msg_id in
    elim (Bool-cases (str_eq k "")) [
      | inl t ↦ absurd (ground (arith, d, t))
      | inr t ↦ elim (Option-cases (find k s.client_msg_dedup_index)) [
        | inl e ↦ absurd (ground (arith, d, t, e))
        | inr (i, e) ↦ (i, ground (arith, d, t, e))
      ]
    ]

-- ===== src/Store.antt =====
-- src/storage/messageStore.cpp, `InMemoryMessageStore`. The maps are dictionaries; `m[k]` on an
-- absent key, which stores a zero or an empty vector there, stores it here too. The error text comes
-- back as an Option.
pub mod Dedup
pub mod Acks
pub mod Pending
pub mod Invariant
pub mod Runs
pub mod Exactly
pub mod Done
mod Tests
use hc_tcp_im_server.Common.{
  ℕ, ◌+◌, ◌%◌, max, Bool, true, false, not, ◌||◌, Option, none, some, List, [], ◌∷◌, ◌++◌, String,
  u64, leb, ◌==◌, str_eq, if◌then◌else◌, length,
}
use Prim.Native.String.{◌++◌ as str_append}
use hc_tcp_im_server.Common.Dict.{Key, Dict, find, put, get_or, number_key, text_key}
use hc_tcp_im_server.Protocol.Messages.{P2pMsgNotify}
use hc_tcp_im_server.Protocol.{DeliveryStatus, persisted, delivered, failed, read, ack_read}

-- `CreateMessageRequest`
pub record CreateMessageRequest : Type 0 where
  pub from_user_id : String
  pub to_user_id : String
  pub client_msg_id : String
  pub content : String
  pub timestamp : ℕ

-- `StoredMessage`
pub record StoredMessage : Type 0 where
  pub notify : P2pMsgNotify
  pub status : DeliveryStatus
  pub receiver_id : String
  pub created_at : ℕ
  pub last_deliver_at : ℕ
  pub acked_at : ℕ
  pub retry_count : ℕ

pub record MessageStore : Type 0 where
  pub next_msg_id : ℕ
  pub next_server_seq_by_user : Dict String ℕ
  pub last_acked_seq_by_user : Dict String ℕ
  pub client_msg_dedup_index : Dict String ℕ
  pub messages : Dict ℕ StoredMessage
  pub pending_msg_ids_by_user : Dict String (List ℕ)

unfoldable pub new : MessageStore
new = record {
  next_msg_id = 1;
  next_server_seq_by_user = [];
  last_acked_seq_by_user = [];
  client_msg_dedup_index = [];
  messages = [];
  pending_msg_ids_by_user = [];
}

unfoldable pub make_dedup_key : String → String → String
make_dedup_key from_user_id client_msg_id =
    if str_eq client_msg_id "" then "" else str_append from_user_id (str_append "#" client_msg_id)

-- The message that `saveMessageAndDelivery` has already stored under the key of a request.
unfoldable pub find_duplicate : MessageStore → CreateMessageRequest → Option StoredMessage
find_duplicate s r =
    let key = make_dedup_key r.from_user_id r.client_msg_id in
    if str_eq key "" then none else elim (find key s.client_msg_dedup_index) [
      | none ↦ none
      | some msg_id ↦ find msg_id s.messages
    ]

unfoldable pub new_message : MessageStore → CreateMessageRequest → StoredMessage
new_message s r = record {
  notify = record {
    msg_id = s.next_msg_id;
    server_seq = (get_or r.to_user_id s.next_server_seq_by_user 0 + 1) % u64;
    from_user_id = r.from_user_id;
    to_user_id = r.to_user_id;
    client_msg_id = r.client_msg_id;
    content = r.content;
    timestamp = r.timestamp;
  };
  status = persisted;
  receiver_id = r.to_user_id;
  created_at = r.timestamp;
  last_deliver_at = 0;
  acked_at = 0;
  retry_count = 0;
}

unfoldable pub store_message : MessageStore → CreateMessageRequest → MessageStore
store_message s r =
    let m = new_message s r in
    let key = make_dedup_key r.from_user_id r.client_msg_id in
    let pending = get_or r.to_user_id s.pending_msg_ids_by_user [] in
    record {
      next_msg_id = (s.next_msg_id + 1) % u64;
      next_server_seq_by_user = put r.to_user_id m.notify.server_seq s.next_server_seq_by_user;
      last_acked_seq_by_user = s.last_acked_seq_by_user;
      client_msg_dedup_index =
          if str_eq key ""
          then s.client_msg_dedup_index
          else put key s.next_msg_id s.client_msg_dedup_index;
      messages = put s.next_msg_id m s.messages;
      pending_msg_ids_by_user =
          put r.to_user_id (pending ++ (s.next_msg_id ∷ [])) s.pending_msg_ids_by_user;
    }

-- The store, the message, and whether it is a duplicate. The call never fails.
unfoldable pub save_message_and_delivery :
    MessageStore → CreateMessageRequest → MessageStore × StoredMessage × Bool
save_message_and_delivery s r = elim (find_duplicate s r) [
  | some m ↦ (s, m, true)
  | none ↦ (store_message s r, new_message s r, false)
]

-- The error texts of the calls that mark a message.
pub data StoreError : Type 0 where
  message_not_found receiver_mismatch ack_user_mismatch server_seq_mismatch : StoreError

unfoldable pub mark_delivery_attempt :
    MessageStore → String → ℕ → DeliveryStatus → ℕ → ℕ → MessageStore × Option StoreError
mark_delivery_attempt s receiver msg_id status deliver_at retry_count =
    elim (find msg_id s.messages) [
      | none ↦ (s, some message_not_found)
      | some m ↦
          if not (str_eq m.receiver_id receiver)
          then (s, some receiver_mismatch)
          else let m' : StoredMessage = record m {
            status = status;
            last_deliver_at = deliver_at;
            retry_count = retry_count;
          } in
            (record s { messages = put msg_id m' s.messages }, none)
    ]

-- Reading the last acknowledged number with `[]`.
unfoldable pub touch : MessageStore → String → MessageStore
touch s user = record s {
  last_acked_seq_by_user =
      put user (get_or user s.last_acked_seq_by_user 0) s.last_acked_seq_by_user;
}

-- `std::remove` and `erase`
unfoldable pub remove : ℕ → List ℕ → List ℕ
remove x [] = []
remove x (y ∷ ys) = let rest = remove x ys in if y == x then rest else y ∷ rest

unfoldable pub acknowledge : MessageStore → String → ℕ → ℕ → ℕ → ℕ → StoredMessage → MessageStore
acknowledge s receiver msg_id seq ack_code acked_at m =
    let m' : StoredMessage = record m {
      acked_at = acked_at;
      status = if ack_code == ack_read then read else delivered;
    } in
    let pending = get_or receiver s.pending_msg_ids_by_user [] in
    record s {
      messages = put msg_id m' s.messages;
      last_acked_seq_by_user =
          put receiver (max (get_or receiver s.last_acked_seq_by_user 0) seq)
            s.last_acked_seq_by_user;
      pending_msg_ids_by_user = put receiver (remove msg_id pending) s.pending_msg_ids_by_user;
    }

-- The store, the highest acknowledged number, and the error.
unfoldable pub mark_acked :
    MessageStore → String → ℕ → ℕ → ℕ → ℕ → MessageStore × ℕ × Option StoreError
mark_acked s receiver msg_id seq ack_code acked_at =
    let last = get_or receiver s.last_acked_seq_by_user 0 in
    elim (find msg_id s.messages) [
      | none ↦ (touch s receiver, last, some message_not_found)
      | some m ↦
          if not (str_eq m.receiver_id receiver)
          then (touch s receiver, last, some ack_user_mismatch)
          else if not (m.notify.server_seq == seq)
          then (touch s receiver, last, some server_seq_mismatch)
          else (acknowledge s receiver msg_id seq ack_code acked_at m, max last seq, none)
    ]

-- The test of the loop of `loadPendingMessages`.
unfoldable pub is_skipped : ℕ → StoredMessage → Bool
is_skipped from m =
    leb m.notify.server_seq from
    || elim m.status [ delivered ↦ true | read ↦ true | failed ↦ true | _ ↦ false ]

-- The loop of `loadPendingMessages`: `taken` is the size of the result so far, `next` is
-- `nextBeginSeq`.
unfoldable pub load_loop : Dict ℕ StoredMessage → ℕ → ℕ → ℕ → ℕ → List ℕ → List StoredMessage × ℕ
load_loop ms from limit taken next [] = ([], next)
load_loop ms from limit taken next (msg_id ∷ msg_ids) =
    let skip = load_loop ms from limit taken next msg_ids in
    elim (find msg_id ms) [
      | none ↦ skip
      | some m ↦
          if is_skipped from m
          then skip
          else let next' = max next m.notify.server_seq in
            let rest = load_loop ms from limit (taken + 1) next' msg_ids in
            if leb limit (taken + 1) then (m ∷ [], next') else (m ∷ rest.0, rest.1)
    ]

-- `++nextBeginSeq`, when there are messages.
unfoldable pub count_up : List StoredMessage × ℕ → List StoredMessage × ℕ
count_up ([], next) = ([], next)
count_up (m ∷ ms, next) = (m ∷ ms, (next + 1) % u64)

-- The messages and `nextBeginSeq`.
unfoldable pub load_pending_messages : MessageStore → String → ℕ → ℕ → List StoredMessage × ℕ
load_pending_messages s receiver from limit = elim (find receiver s.pending_msg_ids_by_user) [
  | none ↦ ([], from)
  | some msg_ids ↦ count_up (load_loop s.messages from limit 0 from msg_ids)
]

unfoldable pub get_last_acked_seq : MessageStore → String → ℕ
get_last_acked_seq s user = get_or user s.last_acked_seq_by_user 0

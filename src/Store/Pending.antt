-- ===== src/Store/Pending.antt =====
-- `loadPendingMessages` of src/storage/messageStore.cpp.
use mathlib.Core.Path.{subst}
use hc_tcp_im_server.Common.{
  All-map, ℕ, suc, ◌-◌, refl, sym, ◌∙◌, Bool, true, not, none, ltb, ◌&&◌, take, take-nil,
  if◌then◌else◌, ◌+◌, ◌≤◌, ◌<◌, ◌≡◌, inl, inr, false, some, List, [], ◌∷◌, arith, max, String, ◌==◌,
  length, All, u64, ◌≢◌, leb, leb→le, Bool-cases, Option-cases,
}
use hc_tcp_im_server.Common.Dict.{Dict, find, get_or, number_key, text_key}
use hc_tcp_im_server.Protocol.{
  DeliveryStatus, created, persisted, delivering, delivered, failed, read,
}
use hc_tcp_im_server.Store.{
  MessageStore, StoredMessage, is_skipped, load_loop, count_up, load_pending_messages,
}

-- What the caller may expect of each message it gets.
abbrev pub IsPending : ℕ → ℕ → StoredMessage → Type 0
IsPending from next m = (is_skipped from m ≡ false) × (m.notify.server_seq ≤ next)

-- The messages of a loop, their number, and where it ends.
record IsLoaded (from limit taken next : ℕ) (r : List StoredMessage × ℕ) : Type 0 where
  pub pending : All (IsPending from r.1) r.0
  pub bounded : taken < max limit 1 → taken + length r.0 ≤ max limit 1
  pub grown : next ≤ r.1

IsLoaded-take :
    {from limit taken next : ℕ} {r : List StoredMessage × ℕ} (m : StoredMessage)
    → is_skipped from m ≡ false
    → suc taken < max limit 1
    → IsLoaded from limit (taken + 1) (max next m.notify.server_seq) r
    → IsLoaded from limit taken next (m ∷ r.0, r.1)
IsLoaded-take m e f v = record {
  pending = ((e, omega (arith, v.grown)), v.pending);
  bounded = λ g. omega (arith, v.bounded (omega arith));
  grown = omega (arith, v.grown);
}

IsLoaded-last :
    {from limit taken next : ℕ} (m : StoredMessage)
    → is_skipped from m ≡ false
    → limit ≤ taken + 1
    → IsLoaded from limit taken next (m ∷ [], max next m.notify.server_seq)
IsLoaded-last m e f = record {
  pending = ((e, omega arith), tt);
  bounded = λ g. omega arith;
  grown = omega arith;
}

load_loop-IsLoaded :
    (ms : Dict ℕ StoredMessage) (from limit taken next : ℕ) (ids : List ℕ)
    → IsLoaded from limit taken next (load_loop ms from limit taken next ids)
unfolding load_loop
load_loop-IsLoaded ms from limit taken next [] = record {
  pending = tt;
  bounded = λ f. omega arith;
  grown = omega arith;
}
load_loop-IsLoaded ms from limit taken next (id ∷ ids) =
    let skip = load_loop-IsLoaded ms from limit taken next ids in
    let rest = λ (m : StoredMessage).
      load_loop-IsLoaded ms from limit (taken + 1) (max next m.notify.server_seq) ids in
    elim (Option-cases (find id ms)) [
      | inl e ↦ rw (e, load_loop) skip
      | inr (m, e) ↦ elim (Bool-cases (is_skipped from m)) [
        | inl s ↦ rw (e, s, load_loop) skip
        | inr s ↦ elim (Bool-cases (leb limit (taken + 1))) [
          | inl t ↦ rw (e, s, t, load_loop) (IsLoaded-last m s (leb→le limit (taken + 1) t))
          | inr t ↦ rw (e, s, t, load_loop) (IsLoaded-take m s (ground arith) (rest m))
        ]
      ]
    ]

All-find :
    (P : StoredMessage → Type 0) (ms : Dict ℕ StoredMessage) (id : ℕ) (m : StoredMessage)
    → All (λ e. P e.1) ms
    → find id ms ≡ some m
    → P m
unfolding find
All-find P [] id m h e = ground (arith, e)
All-find P ((j, n) ∷ ms) id m h e = elim (Bool-cases (j == id)) [
  | inl t ↦ subst P (ground (arith, e, t)) h.0
  | inr t ↦ All-find P ms id m h.1 (ground (arith, e, t))
]

-- No message of the store has a number above this one.
abbrev pub IsBelow : ℕ → Dict ℕ StoredMessage → Type 0
IsBelow top ms = All (λ (e : ℕ × StoredMessage). e.1.notify.server_seq ≤ top) ms

load_loop-below :
    (ms : Dict ℕ StoredMessage) (from limit taken next : ℕ) (ids : List ℕ) (top : ℕ)
    → IsBelow top ms
    → next ≤ top
    → (load_loop ms from limit taken next ids).1 ≤ top
unfolding load_loop
load_loop-below ms from limit taken next [] top h p = p
load_loop-below ms from limit taken next (id ∷ ids) top h p =
    let found = λ (m : StoredMessage).
      All-find (λ (m : StoredMessage). m.notify.server_seq ≤ top) ms id m h in
    let rest = λ (m : StoredMessage).
      load_loop-below ms from limit (taken + 1) (max next m.notify.server_seq) ids top h in
    let skip = load_loop-below ms from limit taken next ids top h p in
    elim (Option-cases (find id ms)) [
      | inl e ↦ rw (e, load_loop) skip
      | inr (m, e) ↦ rw (e, load_loop) (ground (arith, skip, found m e, rest m))
    ]

-- The statuses of a message that is still to be delivered.
unfoldable pub is_undelivered : DeliveryStatus → Bool
is_undelivered created = true
is_undelivered persisted = true
is_undelivered delivering = true
is_undelivered delivered = false
is_undelivered read = false
is_undelivered failed = false

-- The stored messages with these ids that are still to be delivered, above a number, in the order of
-- the ids.
unfoldable pub undelivered : Dict ℕ StoredMessage → ℕ → List ℕ → List StoredMessage
undelivered ms from [] = []
undelivered ms from (id ∷ ids) =
    let rest = undelivered ms from ids in
    elim (find id ms) [
      | none ↦ rest
      | some m ↦ if ltb from m.notify.server_seq && is_undelivered m.status then m ∷ rest else rest
    ]

is_skipped_lem :
    (from : ℕ) (m : StoredMessage)
    → (ltb from m.notify.server_seq && is_undelivered m.status) ≡ not (is_skipped from m)
unfolding is_skipped is_undelivered
is_skipped_lem from m = ground arith

take-cons :
    (n k : ℕ) (m : StoredMessage) (ms : List StoredMessage)
    → n ≡ suc k
    → take n (m ∷ ms) ≡ m ∷ take k ms
take-cons n k m ms e = rw e refl

load_loop-take :
    (ms : Dict ℕ StoredMessage) (from limit taken next : ℕ) (ids : List ℕ)
    → taken < max limit 1
    → (load_loop ms from limit taken next ids).0
      ≡ take (max limit 1 - taken) (undelivered ms from ids)
unfolding load_loop undelivered
load_loop-take ms from limit taken next [] p = sym (take-nil StoredMessage (max limit 1 - taken))
load_loop-take ms from limit taken next (id ∷ ids) p =
    let skip = load_loop-take ms from limit taken next ids p in
    elim (Option-cases (find id ms)) [
      | inl e ↦ rw (e, load_loop, undelivered) skip
      | inr (m, e) ↦ elim (Bool-cases (is_skipped from m)) [
        | inl s ↦ rw (e, load_loop, undelivered, is_skipped_lem from m, s) skip
        | inr s ↦
            let out = undelivered ms from ids in
            let rest =
              load_loop-take ms from limit (taken + 1) (max next m.notify.server_seq) ids in
            elim (Bool-cases (leb limit (taken + 1))) [
              | inl t ↦
                  let last = leb→le limit (taken + 1) t in
                  rw (e, load_loop, undelivered, is_skipped_lem from m, s, t)
                    (sym (take-cons (max limit 1 - taken) 0 m out (omega arith)))
              | inr t ↦
                  let more : taken + 1 < max limit 1 = ground arith in
                  rw (e, load_loop, undelivered, is_skipped_lem from m, s, t, rest more)
                    (sym (
                      take-cons (max limit 1 - taken) (max limit 1 - (taken + 1)) m out
                        (omega arith)))
            ]
      ]
    ]

-- A message of a page, and where the page says that the next one begins.
abbrev pub IsPaged : ℕ → ℕ → StoredMessage → Type 0
IsPaged from next m =
    (from < m.notify.server_seq) × (m.notify.server_seq < next) × (is_undelivered m.status ≡ true)

IsPaged-pending :
    (from next : ℕ) (m : StoredMessage) → IsPending from next m → IsPaged from (next + 1) m
unfolding is_skipped is_undelivered
IsPaged-pending from next m p = (ground (arith, p.0), omega (arith, p.1), ground (arith, p.0))

count_up_lem :
    (from limit : ℕ) (r : List StoredMessage × ℕ)
    → r.1 + 1 < u64
    → IsLoaded from limit 0 from r
    → (All (IsPaged from (count_up r).1) (count_up r).0
        × (length (count_up r).0 ≤ max limit 1)
        × ((count_up r).0 ≡ r.0))
unfolding count_up
count_up_lem from limit ([], next) f v = (tt, omega arith, refl)
count_up_lem from limit (m ∷ ms, next) f v = (
  All-map (λ n (h : IsPending from next n). ground (arith, IsPaged-pending from next n h)) (m ∷ ms)
      v.pending,
  omega (arith, v.bounded (omega arith)),
  refl,
)

-- When the numbers asked for and stored do not reach 2^64 - 1: `loadPendingMessages` returns those of
-- the receiver's pending messages that have a number above the one asked for and a status that is not
-- delivered, read or failed, in their order and up to the limit, or one where the limit is 0. Each has
-- a number below `nextBeginSeq`.
pub load_pending_messages_lem :
    (s : MessageStore) (receiver : String) (from limit top : ℕ)
    → top + 1 < u64
    → from ≤ top
    → IsBelow top s.messages
    → let r = load_pending_messages s receiver from limit in
      ((r.0
          ≡ take
              (max limit 1)
              (undelivered s.messages from (get_or receiver s.pending_msg_ids_by_user [])))
        × All (IsPaged from r.1) r.0
        × (length r.0 ≤ max limit 1))
unfolding load_pending_messages undelivered
load_pending_messages_lem s receiver from limit top f g h =
    elim (Option-cases (find receiver s.pending_msg_ids_by_user)) [
      | inl e ↦
          rw (e, load_pending_messages)
            (rw (get_or, e) (sym (take-nil StoredMessage (max limit 1))), tt, omega arith)
      | inr (ids, e) ↦
          let whole : max limit 1 - 0 ≡ max limit 1 = omega arith in
          let page = load_loop s.messages from limit 0 from ids in
          let (all, few, same) =
            count_up_lem from limit page
              (omega (arith, load_loop-below s.messages from limit 0 from ids top h g))
              (load_loop-IsLoaded s.messages from limit 0 from ids) in
          rw (e, load_pending_messages)
            (
              rw (get_or, e, ← whole)
                  (same ∙ load_loop-take s.messages from limit 0 from ids (omega arith)),
              all,
              few,
            )
    ]

-- While the numbers asked for and stored do not reach 2^64 - 1, a load from a number, such as the
-- `nextBeginSeq` of the page before, never returns the message with that number, whatever the limit is.
pub load_pending_messages_gap :
    (s : MessageStore) (receiver : String) (next limit top : ℕ)
    → top + 1 < u64
    → next ≤ top
    → IsBelow top s.messages
    → All
        (λ (m : StoredMessage). m.notify.server_seq ≢ next)
        (load_pending_messages s receiver next limit).0
unfolding is_skipped
load_pending_messages_gap s receiver next limit top f g h =
    let page = load_pending_messages_lem s receiver next limit top f g h in
    All-map
      (λ m (p : IsPaged next (load_pending_messages s receiver next limit).1 m). omega (arith, p.0))
      (load_pending_messages s receiver next limit).0 page.1

-- ===== src/Store/Done.antt =====
-- An acknowledged message is not loaded again, in src/storage/messageStore.cpp.
use hc_tcp_im_server.Common.{
  All-map, ℕ, ◌+◌, ◌<◌, ◌≡◌, ◌≢◌, sym, ap, ◌∙◌, inl, inr, true, false, none, some, List, [], ◌∷◌,
  arith, String, u64, length, max, leb, str_eq, ◌==◌, Bool-cases, Option-cases, if◌then◌else◌, All,
}
use hc_tcp_im_server.Common.Dict.{Dict, find, number_key, text_key, find-put_self}
use hc_tcp_im_server.Protocol.{ack_read, read, delivered}
use hc_tcp_im_server.Store.{
  MessageStore, StoredMessage, new, mark_acked, acknowledge, is_skipped, load_loop, count_up,
  load_pending_messages,
}
use hc_tcp_im_server.Store.Runs.{Call, ack, run, run-IsKept, after-IsKept}
use hc_tcp_im_server.Store.Exactly.{new-IsSound, new_next}

-- A stored message that the loop does not skip.
abbrev IsListed : Dict ℕ StoredMessage → ℕ → StoredMessage → Type 0
IsListed ms from m = (i : ℕ) × (find i ms ≡ some m) × (is_skipped from m ≡ false)

load_loop-IsListed :
    (ms : Dict ℕ StoredMessage) (from limit taken next : ℕ) (ids : List ℕ)
    → All (IsListed ms from) (load_loop ms from limit taken next ids).0
unfolding load_loop
load_loop-IsListed ms from limit taken next [] = tt
load_loop-IsListed ms from limit taken next (id ∷ ids) =
    let skip = load_loop-IsListed ms from limit taken next ids in
    let rest = λ (m : StoredMessage).
      load_loop-IsListed ms from limit (taken + 1) (max next m.notify.server_seq) ids in
    elim (Option-cases (find id ms)) [
      | inl e ↦ rw (e, load_loop) skip
      | inr (m, e) ↦ elim (Bool-cases (is_skipped from m)) [
        | inl s ↦ rw (e, s, load_loop) skip
        | inr s ↦ elim (Bool-cases (leb limit (taken + 1))) [
          | inl t ↦ rw (e, s, t, load_loop) ((id, e, s), tt)
          | inr t ↦ rw (e, s, t, load_loop) ((id, e, s), rest m)
        ]
      ]
    ]

count_up-All :
    (P : StoredMessage → Type 0) (r : List StoredMessage × ℕ) → All P r.0 → All P (count_up r).0
unfolding count_up
count_up-All P ([], n) h = tt
count_up-All P (m ∷ ms, n) h = h

load_pending-IsListed :
    (s : MessageStore) (receiver : String) (from limit : ℕ)
    → All (IsListed s.messages from) (load_pending_messages s receiver from limit).0
unfolding load_pending_messages
load_pending-IsListed s receiver from limit =
    elim (Option-cases (find receiver s.pending_msg_ids_by_user)) [
      | inl e ↦ rw (e, load_pending_messages) tt
      | inr (ids, e) ↦
          rw (e, load_pending_messages)
            (count_up-All (IsListed s.messages from) (load_loop s.messages from limit 0 from ids)
              (load_loop-IsListed s.messages from limit 0 from ids))
    ]

-- After a call without error, the message is stored with a final status.
mark_acked-done :
    (s : MessageStore) (receiver : String) (id seq ack_code at from : ℕ)
    → (mark_acked s receiver id seq ack_code at).2 ≡ none
    → ((m : StoredMessage) × (find id (mark_acked s receiver id seq ack_code at).0.messages
          ≡ some m)
        × (is_skipped from m ≡ true))
unfolding mark_acked acknowledge is_skipped
mark_acked-done s receiver id seq ack_code at from ok = elim (Option-cases (find id s.messages)) [
  | inl e ↦ absurd (ground (arith, ok, e))
  | inr (m, e) ↦ elim (Bool-cases (str_eq m.receiver_id receiver)) [
    | inl t ↦ elim (Bool-cases (m.notify.server_seq == seq)) [
      | inl q ↦
          let m' : StoredMessage = record m {
            acked_at = at;
            status = if ack_code == ack_read then read else delivered;
          } in
          (m', rw (e, t, q, mark_acked) (find-put_self id m' s.messages), ground arith)
      | inr q ↦ absurd (ground (arith, ok, e, t, q))
    ]
    | inr t ↦ absurd (ground (arith, ok, e, t))
  ]
]

-- From the empty store, after fewer than 2^64 - 2 calls, a message is acknowledged without an error,
-- as received or as read. No load of pending messages of any user, from any number and with any
-- limit, then returns this message.
pub acked_not_loaded :
    (cs : List Call) (receiver user : String) (id seq ack_code at from limit : ℕ)
    → length cs + 2 < u64
    → (mark_acked (run new cs) receiver id seq ack_code at).2 ≡ none
    → let t = (mark_acked (run new cs) receiver id seq ack_code at).0 in
      All (λ (m : StoredMessage). m.notify.msg_id ≢ id) (load_pending_messages t user from limit).0
acked_not_loaded cs receiver user id seq ack_code at from limit f ok =
    let s = run new cs in
    let base = run-IsKept cs new new-IsSound (omega (arith, f, new_next)) in
    let one =
      after-IsKept s (ack receiver id seq ack_code at) base.sound
        (omega (arith, f, new_next, base.grown)) in
    let t = (mark_acked s receiver id seq ack_code at).0 in
    let (d, h, final) = mark_acked-done s receiver id seq ack_code at from ok in
    All-map {Q = λ m. m.notify.msg_id ≢ id}
      (λ m (l : IsListed t.messages from m) e.
        let (_, named, _) = one.sound.numbered l.0 m l.1 in
        let here : find id t.messages ≡ some m =
          ap (λ k. find k t.messages) (sym e ∙ named) ∙ l.1 in
        ground (arith, h, here, final, l.2))
      (load_pending_messages t user from limit).0 (load_pending-IsListed t user from limit)

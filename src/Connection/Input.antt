-- ===== src/Connection/Input.antt =====
-- What `handleRead` of src/net/tcpConnection.cpp hands to the message callback.
use hc_tcp_im_server.Common.{
  ◌≡◌, refl, sym, ap, ◌∙◌, ℕ, Bool, true, false, some, List, [], ◌∷◌, ◌++◌, map, append_assoc,
  append-nil, All, arith,
}
use hc_tcp_im_server.Buffer.{contents, read_fd}
use hc_tcp_im_server.Buffer.Contents.{IsValid, contents-read_fd, read_fd-IsValid}
use hc_tcp_im_server.Connection.{
  Connection, Event, ReadAnswer, got, end_of_stream, no_more, read_loop, handle_read, handle_close,
  message, is_live, disconnected,
}

-- All the bytes of the chunks, in order.
abbrev pub joined : List (List ℕ) → List ℕ
joined [] = []
joined (x ∷ xs) = x ++ joined xs

abbrev pub is_message : Event → Bool
is_message message = true
is_message _ = false

-- What a round of reads leaves once the chunks are in the buffer: the loop goes on with the rest.
read_loop-got :
    (c : Connection) (x : List ℕ) (xs : List (List ℕ)) (any : Bool) (ws : List ReadAnswer)
    → IsValid c.input
    → (d : Connection) × (read_loop c any (map got (x ∷ xs) ++ ws) ≡ read_loop d true ws)
      × (contents d.input ≡ contents c.input ++ joined (x ∷ xs))
      × (d.state ≡ c.state)
unfolding read_loop
read_loop-got c x [] any ws v = (
  record c { input = read_fd c.input (some x) },
  refl,
  contents-read_fd v (some x) ∙ ap (◌++◌ (contents c.input)) (sym (append-nil x)),
  refl,
)
read_loop-got c x (y ∷ ys) any ws v =
    let next : Connection = record c { input = read_fd c.input (some x) } in
    let (d, e, f, g) = read_loop-got next y ys true ws (read_fd-IsValid v (some x)) in
    (
      d,
      e,
      f
          ∙ ap (λ q. q ++ joined (y ∷ ys)) (contents-read_fd v (some x))
          ∙ append_assoc (contents c.input) x (joined (y ∷ ys)),
      g,
    )

-- Closing keeps what was read, and does not call the message callback.
handle_close_lem :
    (c : Connection)
    → (contents (handle_close c).0.input ≡ contents c.input)
      × All (λ e. is_message e ≡ false) (handle_close c).1
      × (is_live c.state ≡ true → (handle_close c).0.state ≡ disconnected)
unfolding handle_close
handle_close_lem c = ground arith

-- A connection with a valid input buffer, and any positive number of chunks that the socket gives.
-- When the socket then would block, `handleRead` calls the message callback once and nothing else,
-- with the bytes that were there and all that were read, in order, in the input buffer. When the peer
-- has then closed its side, these bytes are in the buffer too, but the callback is not called, and the
-- connection, if it was up, is disconnected.
pub handle_read_lem :
    (c : Connection) (x : List ℕ) (xs : List (List ℕ))
    → IsValid c.input
    → let chunks = map got (x ∷ xs) in
      let all = contents c.input ++ joined (x ∷ xs) in
      let r = handle_read c (chunks ++ (no_more ∷ [])) in
      let q = handle_read c (chunks ++ (end_of_stream ∷ [])) in
      ((contents r.0.input ≡ all)
        × (r.1 ≡ message ∷ [])
        × (contents q.0.input ≡ all)
        × All (λ e. is_message e ≡ false) q.1
        × (is_live c.state ≡ true → q.0.state ≡ disconnected))
unfolding handle_read read_loop
handle_read_lem c x xs v =
    let (d, e, f, g) = read_loop-got c x xs false (no_more ∷ []) v in
    let (d', e', f', g') = read_loop-got c x xs false (end_of_stream ∷ []) v in
    let (kept, silent, down) = handle_close_lem d' in
    (
      ap (λ k. contents k.0.input) e ∙ f,
      ap (λ k. k.1) e,
      ap (λ k. contents k.0.input) e' ∙ kept ∙ f',
      rw e' silent,
      λ live. ap (λ k. k.0.state) e' ∙ down (rw g' live),
    )

-- ===== src/Codec/Termination.antt =====
-- src/codec/codec.cpp: the loop of `onMessage` ends on every stream of bytes, and how soon.
use hc_tcp_im_server.Common.{
  ℕ, zero, suc, ◌+◌, ◌-◌, ◌≤◌, ◌<◌, ◌≡◌, ◌≢◌, ◌⊎◌, refl, Bool, true, false, Option, none, some,
  List, [], arith, Bool-cases, inl, inr, ◌∙◌, ap,
}
use hc_tcp_im_server.Buffer.{Buffer, readable_bytes}
use hc_tcp_im_server.Buffer.Contents.{readable_bytes-retrieve}
use hc_tcp_im_server.Protocol.{header_size}
use hc_tcp_im_server.ByteOrder.{Inet}
use hc_tcp_im_server.Codec.{
  Codec, Event, ParseState, expect_header, expect_payload, check_header, parse_header,
  parse_payload, header_part, payload_part, then_payload, round, after, on_message,
}

-- The bytes to read, and one more while a payload is awaited: a payload may be of no bytes.
abbrev pub work : Codec → Buffer → ℕ
work c b = readable_bytes b + elim c.state [ expect_header ↦ 0 | expect_payload ↦ 1 ]

state-cases : (s : ParseState) → (s ≡ expect_header) ⊎ (s ≡ expect_payload)
state-cases expect_header = inl refl
state-cases expect_payload = inr refl

work_header : (c : Codec) (b : Buffer) → c.state ≡ expect_header → work c b ≡ readable_bytes b
work_header c b e = ground (arith, e)

work_payload : (c : Codec) (b : Buffer) → c.state ≡ expect_payload → work c b ≡ readable_bytes b + 1
work_payload c b e = ground (arith, e)

work_le : (c : Codec) (b : Buffer) → work c b ≤ readable_bytes b + 1
work_le c b = ground arith

module _ (net : Inet) where
  -- A payload that is taken ends with a header to come, and takes the expected bytes.
  payload_taken_work :
      (conn : ℕ) (c : Codec) (b : Buffer)
      → c.state ≡ expect_payload
      → (payload_part net conn c b).0 ≡ true
      → (work (payload_part net conn c b).1 (payload_part net conn c b).2
          ≡ readable_bytes b - c.expected_length)
        × (c.expected_length ≤ readable_bytes b)
  unfolding payload_part parse_payload
  payload_taken_work conn c b e h =
      ground (arith, e, h, readable_bytes-retrieve b c.expected_length)

  -- A header that is accepted announces at least its own bytes, and leaves the buffer.
  header_taken :
      (c : Codec) (b : Buffer)
      → c.state ≡ expect_header
      → (header_part net c b).0 ≡ true
      → let (again, c', b', es) = header_part net c b in
        ((c'.state ≡ expect_payload)
          × (header_size ≤ c'.expected_length)
          × (b' ≡ b)
          × (header_size ≤ readable_bytes b))
  unfolding header_part parse_header check_header
  header_taken c b e h = ground (arith, e, h)

  header_passed :
      (c : Codec) (b : Buffer) → c.state ≡ expect_payload → header_part net c b ≡ (true, c, b, [])
  unfolding header_part
  header_passed c b e = ground (arith, e)

  -- When the loop goes on, both parts of the round allowed it.
  then_payload_again :
      (conn : ℕ) (q : Bool × Codec × Buffer × List Event)
      → (then_payload net conn q).0 ≡ true
      → let r = payload_part net conn q.1 q.2 in
        ((q.0 ≡ true)
          × (r.0 ≡ true)
          × (work (then_payload net conn q).1 (then_payload net conn q).2 ≡ work r.1 r.2))
  unfolding then_payload
  then_payload_again conn (true, c, b, es) h = (refl, h, refl)
  then_payload_again conn (false, c, b, es) h = ground (arith, h)

  round_less_header :
      (conn : ℕ) (c : Codec) (b : Buffer)
      → c.state ≡ expect_header
      → (round net conn c b).0 ≡ true
      → work (round net conn c b).1 (round net conn c b).2 < work c b
  unfolding round
  round_less_header conn c b e h =
      let q = header_part net c b in
      let (f, g, i) = then_payload_again conn q h in
      let (st, large, same, there) = header_taken c b e f in
      let (l, enough) = payload_taken_work conn q.1 q.2 st g in
      let whole : readable_bytes q.2 ≡ readable_bytes b = ap (λ x. readable_bytes x) same in
      omega (arith, i, l, whole, large, there, work_header c b e)

  round_less_payload :
      (conn : ℕ) (c : Codec) (b : Buffer)
      → c.state ≡ expect_payload
      → (round net conn c b).0 ≡ true
      → work (round net conn c b).1 (round net conn c b).2 < work c b
  unfolding round
  round_less_payload conn c b e h =
      let q = header_part net c b in
      let (f, g, i) = then_payload_again conn q h in
      let same = header_passed c b e in
      let st : q.1.state ≡ expect_payload = ap (λ x. x.1.state) same ∙ e in
      let (l, enough) = payload_taken_work conn q.1 q.2 st g in
      let whole : readable_bytes q.2 ≡ readable_bytes b = ap (λ x. readable_bytes x.2) same in
      omega (arith, i, l, whole, work_payload c b e)

  -- A round after which the loop goes on leaves less work.
  round_less :
      (conn : ℕ) (c : Codec) (b : Buffer)
      → (round net conn c b).0 ≡ true
      → work (round net conn c b).1 (round net conn c b).2 < work c b
  round_less conn c b h = elim (state-cases c.state) [
    | inl e ↦ round_less_header conn c b e h
    | inr e ↦ round_less_payload conn c b e h
  ]

  after-some :
      (es : List Event) (r : Option (Codec × Buffer × List Event)) → after es r ≡ none → r ≡ none
  after-some es none h = refl
  after-some es (some q) h = ground (arith, h)

  on_message_enough :
      (fuel conn : ℕ) (c : Codec) (b : Buffer)
      → work c b < fuel
      → on_message net fuel conn c b ≢ none
  unfolding on_message
  on_message_enough zero conn c b h n = omega arith
  on_message_enough (suc fuel) conn c b h n =
      let r = round net conn c b in
      elim (Bool-cases r.0) [
        | inl e ↦
            on_message_enough fuel conn r.1 r.2 (omega (arith, round_less conn c b e))
              (after-some r.3 (on_message net fuel conn r.1 r.2) (ground (arith, n, e)))
        | inr e ↦ ground (arith, n, e)
      ]

  -- Whatever the parser holds and whatever bytes are in the buffer, more turns than the readable bytes
  -- and one more are enough: the loop ends.
  pub on_message_ends :
      (fuel conn : ℕ) (c : Codec) (b : Buffer)
      → readable_bytes b + 1 < fuel
      → on_message net fuel conn c b ≢ none
  on_message_ends fuel conn c b h = on_message_enough fuel conn c b (omega (arith, work_le c b))

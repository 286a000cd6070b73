-- ===== src/Codec/Stream.antt =====
-- The loop of `onMessage` of src/codec/codec.cpp on a stream of packets, however the network cuts it.
use hc_tcp_im_server.Common.{
  ℕ, zero, suc, ◌≤◌, ◌<◌, ◌≡◌, refl, sym, ap, ◌∙◌, ◌⊎◌, inl, inr, true, false, List, [], ◌∷◌, ◌++◌,
  map, arith, some, length, take, drop, ltb, Bool-cases, All, append_assoc, append-nil,
  length-append, take-append, drop-append, take-append-drop, take-append_le, drop-append_le, ltb→lt,
}
use hc_tcp_im_server.Buffer.{Buffer, contents, readable_bytes, retrieve}
use hc_tcp_im_server.Buffer.Contents.{IsValid, length-contents, retrieve-IsValid, contents-retrieve}
use hc_tcp_im_server.Protocol.{PacketHeader, header_size}
use hc_tcp_im_server.ByteOrder.{Inet}
use hc_tcp_im_server.Header.Layout.{header_bytes}
use hc_tcp_im_server.Codec.{
  Codec, Event, packet, expect_header, sealed, packet_length, then_payload, round, after,
  on_message,
}
use hc_tcp_im_server.Codec.Pack.{IsSendable, wire, length-wire}
use hc_tcp_im_server.Codec.Parse.{
  Fits, awaiting, settled, decoded, header_accepted, has_header, payload_taken, header_part_short,
  header_part_awaits, payload_part_short,
}

abbrev pub Message : Type 0
Message = PacketHeader × List ℕ

-- A message that `pack` can send and the parser accepts.
abbrev pub IsGood : Message → Type 0
IsGood (h, m) = IsSendable h × Fits m

abbrev pub wire_all : List Message → List ℕ
wire_all [] = []
wire_all ((h, m) ∷ ms) = wire h m ++ wire_all ms

abbrev pub event_of : ℕ → Message → Event
event_of conn (h, m) = packet conn (decoded h m)

-- The parser is between packets, or holds the header of the first packet to come.
abbrev pub Pending : Codec → List Message → Type 0
Pending c [] = c.state ≡ expect_header
Pending c ((h, m) ∷ ms) = (c.state ≡ expect_header) ⊎ (c ≡ awaiting h m)

-- The first packet to come has not arrived whole.
abbrev pub IsShort : List ℕ → List Message → Type 0
IsShort q [] = Unit {0}
IsShort q ((h, m) ∷ ms) = length q < length (wire h m)

settled-Pending : (h : PacketHeader) (m : List ℕ) (ms : List Message) → Pending (settled h m) ms
settled-Pending h m [] = refl
settled-Pending h m (x ∷ ms) = inl refl

module _ (net : Inet) (conn : ℕ) {b : Buffer} (v : IsValid b) where
  -- A packet that has arrived whole goes out in one round.
  round_whole :
      (c : Codec) (h : PacketHeader) (m rest : List ℕ)
      → IsSendable h
      → Fits m
      → (c.state ≡ expect_header) ⊎ (c ≡ awaiting h m)
      → contents b ≡ wire h m ++ rest
      → round net conn c b
        ≡ (true, settled h m, retrieve b (packet_length m), event_of conn (h, m) ∷ [])
  unfolding round
  round_whole c h m rest s fits (inl st) e =
      ap (then_payload net conn) (
        header_accepted net v m s c st fits
          (has_header net v m s [] (m ++ rest)
            (append-nil (contents b) ∙ e ∙ append_assoc (header_bytes (sealed h m)) m rest) enough)
          enough)
      ∙ rw (payload_taken net v m s conn rest fits e, then_payload)
    where
      enough : header_size ≤ readable_bytes b
      enough = omega (
        arith,
        length-contents v,
        ap {B = ℕ} length e,
        length-append (wire h m) rest,
        length-wire h m,
      )
  round_whole c h m rest s fits (inr st) e = rw st (
      ap (then_payload net conn) (header_part_awaits net b h m)
      ∙ rw (payload_taken net v m s conn rest fits e, then_payload))

  -- A part of a packet stays in the buffer.
  round_part :
      (c : Codec) (h : PacketHeader) (m future rest : List ℕ)
      → IsSendable h
      → Fits m
      → (c.state ≡ expect_header) ⊎ (c ≡ awaiting h m)
      → contents b ++ future ≡ wire h m ++ rest
      → length (contents b) < length (wire h m)
      → (c' : Codec) × ((c'.state ≡ expect_header) ⊎ (c' ≡ awaiting h m))
        × (round net conn c b ≡ (false, c', b, []))
  unfolding round
  round_part c h m future rest s fits (inl st) e short =
      elim (Bool-cases (ltb (readable_bytes b) header_size)) [
        | inl few ↦
            (c, inl st, ap (then_payload net conn) (header_part_short net c b st (ltb→lt _ _ few)))
        | inr more ↦ (
          awaiting h m,
          inr refl,
          ap (then_payload net conn) (
                header_accepted net v m s c st fits
                  (has_header net v m s future (m ++ rest)
                    (e ∙ append_assoc (header_bytes (sealed h m)) m rest) (ground arith))
                  (ground arith))
              ∙ rw (payload_part_short net conn b h m part, then_payload),
        )
      ]
    where
      part : readable_bytes b < packet_length m
      part = omega (arith, length-contents v, length-wire h m)
  round_part c h m future rest s fits (inr st) e short = (
    awaiting h m,
    inr refl,
    rw st (
        ap (then_payload net conn) (header_part_awaits net b h m)
        ∙ rw (payload_part_short net conn b h m part, then_payload)),
  )
    where
      part : readable_bytes b < packet_length m
      part = omega (arith, length-contents v, length-wire h m)

  round_nothing :
      (c : Codec)
      → c.state ≡ expect_header
      → contents b ≡ []
      → round net conn c b ≡ (false, c, b, [])
  unfolding round
  round_nothing c st e =
      ap (then_payload net conn)
        (header_part_short net c b st (omega (arith, length-contents v, ap {B = ℕ} length e)))

-- What a call of `onMessage` does: it takes out the packets that have arrived whole, in order, and
-- leaves a part of the next one.
pub record Handled (net : Inet) (conn fuel : ℕ) (c : Codec) (b : Buffer) (msgs : List Message)
    (future : List ℕ) : Type 0 where
  pub out : List Message
  pub left : List Message
  pub codec : Codec
  pub buffer : Buffer
  pub split : msgs ≡ out ++ left
  pub result : on_message net fuel conn c b ≡ some (codec, buffer, map (event_of conn) out)
  pub valid : IsValid buffer
  pub pending : Pending codec left
  pub stream : contents buffer ++ future ≡ wire_all left
  pub short : IsShort (contents buffer) left

append-eq-nil_left : {A : Type 0} (xs ys : List A) → xs ++ ys ≡ [] → xs ≡ []
append-eq-nil_left [] ys e = refl
append-eq-nil_left (x ∷ xs) ys e = cc

-- A stream that holds a whole packet is that packet and the rest.
module _ (q future w rest : List ℕ) (e : q ++ future ≡ w ++ rest) (h : length w ≤ length q) where
  whole_first : q ≡ w ++ drop (length w) q
  whole_first =
      sym (take-append-drop (length w) q)
      ∙ ap (λ (r : List ℕ). r ++ drop (length w) q)
          (sym (take-append_le (length w) q future h)
            ∙ ap (take (length w)) e
            ∙ take-append (length w) w rest refl)

  whole_rest : drop (length w) q ++ future ≡ rest
  whole_rest =
      sym (drop-append_le (length w) q future h)
      ∙ ap (drop (length w)) e
      ∙ drop-append (length w) w rest refl

module _ (net : Inet) (conn : ℕ) where
  on_message_stops :
      (fuel : ℕ) (c : Codec) (b : Buffer) {c' : Codec} {b' : Buffer} {es : List Event}
      → round net conn c b ≡ (false, c', b', es)
      → on_message net (suc fuel) conn c b ≡ some (c', b', es)
  unfolding on_message
  on_message_stops fuel c b e = rw (e, on_message)

  on_message_goes :
      (fuel : ℕ) (c : Codec) (b : Buffer) {c' : Codec} {b' : Buffer} {es : List Event}
      → round net conn c b ≡ (true, c', b', es)
      → on_message net (suc fuel) conn c b ≡ after es (on_message net fuel conn c' b')
  unfolding on_message
  on_message_goes fuel c b e = rw (e, on_message)

  Handled-first :
      (fuel : ℕ) (c : Codec) {b b' : Buffer} (h : PacketHeader) (m : List ℕ) {ms : List Message}
      {future : List ℕ}
      → round net conn c b ≡ (true, settled h m, b', event_of conn (h, m) ∷ [])
      → Handled net conn fuel (settled h m) b' ms future
      → Handled net conn (suc fuel) c b ((h, m) ∷ ms) future
  Handled-first fuel c {b} h m e r = record {
    out = (h, m) ∷ r.out;
    left = r.left;
    codec = r.codec;
    buffer = r.buffer;
    split = ap (◌∷◌ (h, m)) r.split;
    result = on_message_goes fuel c b e ∙ ap (after (event_of conn (h, m) ∷ [])) r.result;
    valid = r.valid;
    pending = r.pending;
    stream = r.stream;
    short = r.short;
  }

  pub on_message-Handled :
      (msgs : List Message) (fuel : ℕ) (c : Codec) {b : Buffer} (future : List ℕ)
      → length msgs < fuel
      → All IsGood msgs
      → IsValid b
      → Pending c msgs
      → contents b ++ future ≡ wire_all msgs
      → Handled net conn fuel c b msgs future
  on_message-Handled [] zero c future f g v p e = absurd (omega arith)
  on_message-Handled (x ∷ ms) zero c future f g v p e = absurd (omega arith)
  on_message-Handled [] (suc fuel) c {b} future f g v p e = record {
    out = [];
    left = [];
    codec = c;
    buffer = b;
    split = refl;
    result =
        on_message_stops fuel c b
          (round_nothing net conn v c p (append-eq-nil_left (contents b) future e));
    valid = v;
    pending = p;
    stream = e;
    short = tt;
  }
  on_message-Handled ((h, m) ∷ ms) (suc fuel) c {b} future f g v p e =
      elim (Bool-cases (ltb (length (contents b)) (length (wire h m)))) [
        | inl few ↦
            let (c', p', r) =
              round_part net conn v c h m future (wire_all ms) g.0.0 g.0.1 p e (ltb→lt _ _ few) in
            record {
              out = [];
              left = (h, m) ∷ ms;
              codec = c';
              buffer = b;
              split = refl;
              result = on_message_stops fuel c b r;
              valid = v;
              pending = p';
              stream = e;
              short = ltb→lt _ _ few;
            }
        | inr more ↦
            let n = packet_length m in
            let size : length (wire h m) ≡ n = omega (arith, length-wire h m) in
            let enough : length (wire h m) ≤ length (contents b) = ground arith in
            Handled-first fuel c h m
              (round_whole net conn v c h m _ g.0.0 g.0.1 p
                (whole_first (contents b) future (wire h m) (wire_all ms) e enough))
              (on_message-Handled ms fuel (settled h m) future (omega arith) g.1
                (retrieve-IsValid n v) (settled-Pending h m ms)
                (ap (λ (q : List ℕ). q ++ future)
                    (contents-retrieve n v ∙ ap (λ (k : ℕ). drop k (contents b)) (sym size))
                  ∙ whole_rest (contents b) future (wire h m) (wire_all ms) e enough))
      ]

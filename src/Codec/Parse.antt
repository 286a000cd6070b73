-- ===== src/Codec/Parse.antt =====
-- One packet through the parser of src/codec/codec.cpp: each round of the loop of `onMessage`.
use hc_tcp_im_server.Common.{
  ℕ, ◌+◌, ◌-◌, ◌≤◌, ◌<◌, ◌≡◌, refl, sym, ap, ◌∙◌, true, false, List, [], ◌∷◌, ◌++◌, arith, none,
  length, take, drop, append_assoc, length-append, take-append, drop-append, take-append_le,
  take-append-drop, u32,
}
use hc_tcp_im_server.Buffer.Vector.{slice}
use hc_tcp_im_server.Buffer.{Buffer, contents, readable_bytes, retrieve, retrieve_all}
use hc_tcp_im_server.Buffer.Contents.{IsValid, length-contents}
use hc_tcp_im_server.Protocol.{PacketHeader, header_size, max_message_size, err_payload_too_large}
use hc_tcp_im_server.ByteOrder.{Inet}
use hc_tcp_im_server.Header.{read_header}
use hc_tcp_im_server.Header.Layout.{header_bytes}
use hc_tcp_im_server.Header.RoundTrip.{read_header_lem}
use hc_tcp_im_server.Codec.{
  Codec, DecodedPacket, packet, error, expect_header, expect_payload, sealed, packet_length, peek,
  parse_header, check_header, parse_payload, header_part, payload_part,
}
use hc_tcp_im_server.Codec.Pack.{IsSendable, sealed-InRange, wire, length-wire, length-header_bytes}

-- The payload fits the limit of the protocol.
abbrev pub Fits : List ℕ → Type 0
Fits m = header_size + length m ≤ max_message_size

-- What the parser holds while the payload of a packet is to come.
abbrev pub awaiting : PacketHeader → List ℕ → Codec
awaiting h m = record {
  state = expect_payload;
  expected_length = packet_length m;
  current_header = sealed h m;
}

-- What it holds after a packet.
abbrev pub settled : PacketHeader → List ℕ → Codec
settled h m = record {
  state = expect_header;
  expected_length = header_size;
  current_header = sealed h m;
}

abbrev pub decoded : PacketHeader → List ℕ → DecodedPacket
decoded h m = record { header = sealed h m; payload = m }

-- The tests of `parseHeader`, on the header of a packet.
check_accepted :
    (net : Inet) (c : Codec) (b : Buffer) (h : PacketHeader) (m : List ℕ)
    → Fits m
    → check_header net (record c { current_header = sealed h m }) b ≡ (true, awaiting h m, b, [])
unfolding check_header
check_accepted net c b h m fits = ground arith

check_refused :
    (net : Inet) (c : Codec) (b : Buffer) (h : PacketHeader) (m : List ℕ)
    → max_message_size < header_size + length m
    → length m < u32 - header_size
    → check_header net (record c { current_header = sealed h m }) b
      ≡ (false, settled h m, retrieve_all b, error none err_payload_too_large ∷ [])
unfolding check_header
check_refused net c b h m big small = ground arith

header_part_reads :
    (net : Inet) (c : Codec) (b : Buffer)
    → c.state ≡ expect_header
    → header_size ≤ readable_bytes b
    → header_part net c b
      ≡ check_header net (record c { current_header = read_header net (peek net b) }) b
unfolding header_part parse_header
header_part_reads net c b st r = rw (st, header_part) (ground arith)

-- A round breaks off where the header, or the packet, has not arrived.
pub header_part_short :
    (net : Inet) (c : Codec) (b : Buffer)
    → c.state ≡ expect_header
    → readable_bytes b < header_size
    → header_part net c b ≡ (false, c, b, [])
unfolding header_part
header_part_short net c b st r = rw (st, header_part) (ground arith)

pub header_part_awaits :
    (net : Inet) (b : Buffer) (h : PacketHeader) (m : List ℕ)
    → header_part net (awaiting h m) b ≡ (true, awaiting h m, b, [])
unfolding header_part
header_part_awaits net b h m = refl

pub payload_part_short :
    (net : Inet) (conn : ℕ) (b : Buffer) (h : PacketHeader) (m : List ℕ)
    → readable_bytes b < packet_length m
    → payload_part net conn (awaiting h m) b ≡ (false, awaiting h m, b, [])
unfolding payload_part
payload_part_short net conn b h m r = ground arith

module _ (net : Inet) {b : Buffer} (v : IsValid b) where
  peek-contents : peek net b ≡ contents b ++ drop (readable_bytes b) (peek net b)
  peek-contents = sym (take-append-drop (readable_bytes b) (peek net b))

  -- The bytes behind as many as a header has, whatever these are.
  pub front_peek :
      (front body rest : List ℕ)
      → length front ≡ header_size
      → contents b ≡ front ++ (body ++ rest)
      → slice header_size (length body) (peek net b) ≡ body
  front_peek front body rest f e =
      ap (slice header_size (length body))
        (peek-contents ∙ ap (λ (q : List ℕ). q ++ tail) e ∙ append_assoc front (body ++ rest) tail)
      ∙ ap (take (length body))
          (drop-append header_size front ((body ++ rest) ++ tail) f ∙ append_assoc body rest tail)
      ∙ take-append (length body) body (rest ++ tail) refl
    where
      tail : List ℕ
      tail = drop (readable_bytes b) (peek net b)

  module _ {h : PacketHeader} (m : List ℕ) (s : IsSendable h) where
    -- The header of a packet, of which at least as much has arrived.
    pub has_header :
        (future body : List ℕ)
        → contents b ++ future ≡ header_bytes (sealed h m) ++ body
        → header_size ≤ readable_bytes b
        → take header_size (contents b) ≡ header_bytes (sealed h m)
    has_header future body e r =
        sym (take-append_le header_size (contents b) future (omega (arith, length-contents v)))
        ∙ ap (take header_size) e
        ∙ take-append header_size (header_bytes (sealed h m)) body
            (length-header_bytes (sealed h m))

    read_peek :
        take header_size (contents b) ≡ header_bytes (sealed h m)
        → read_header net (peek net b) ≡ sealed h m
    read_peek e =
        ap (read_header net) (
          peek-contents
          ∙ ap (λ (q : List ℕ). q ++ drop (readable_bytes b) (peek net b))
              (sym (take-append-drop header_size (contents b))
                ∙ ap (λ (q : List ℕ). q ++ drop header_size (contents b)) e)
          ∙ append_assoc (header_bytes (sealed h m)) (drop header_size (contents b))
              (drop (readable_bytes b) (peek net b)))
        ∙ read_header_lem net (sealed h m) _ (sealed-InRange m s)

    -- The bytes behind a header that have arrived whole, whether or not they are the payload sealed.
    pub body_peek :
        (body rest : List ℕ)
        → contents b ≡ header_bytes (sealed h m) ++ (body ++ rest)
        → slice header_size (length body) (peek net b) ≡ body
    body_peek body rest e =
        front_peek (header_bytes (sealed h m)) body rest (length-header_bytes (sealed h m)) e

    -- A complete header of a packet that fits is accepted.
    pub header_accepted :
        (c : Codec)
        → c.state ≡ expect_header
        → Fits m
        → take header_size (contents b) ≡ header_bytes (sealed h m)
        → header_size ≤ readable_bytes b
        → header_part net c b ≡ (true, awaiting h m, b, [])
    header_accepted c st fits e r =
        header_part_reads net c b st r
        ∙ ap (λ (k : PacketHeader). check_header net (record c { current_header = k }) b)
            (read_peek e)
        ∙ check_accepted net c b h m fits

    -- A packet that is too large is refused: everything readable goes, and one error is reported.
    pub header_refused :
        (c : Codec)
        → c.state ≡ expect_header
        → max_message_size < header_size + length m
        → length m < u32 - header_size
        → take header_size (contents b) ≡ header_bytes (sealed h m)
        → header_size ≤ readable_bytes b
        → header_part net c b
          ≡ (false, settled h m, retrieve_all b, error none err_payload_too_large ∷ [])
    header_refused c st big small e r =
        header_part_reads net c b st r
        ∙ ap (λ (k : PacketHeader). check_header net (record c { current_header = k }) b)
            (read_peek e)
        ∙ check_refused net c b h m big small

    pub payload_taken :
        (conn : ℕ) (rest : List ℕ)
        → Fits m
        → contents b ≡ wire h m ++ rest
        → payload_part net conn (awaiting h m) b
          ≡ (true, settled h m, retrieve b (packet_length m), packet conn (decoded h m) ∷ [])
    unfolding payload_part parse_payload
    payload_taken conn rest fits e = ground (
      arith,
      body_peek m rest (e ∙ append_assoc (header_bytes (sealed h m)) m rest),
      length-contents v,
      ap {B = ℕ} length e,
      length-append (wire h m) rest,
      length-wire h m,
    )

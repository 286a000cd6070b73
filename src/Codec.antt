-- ===== src/Codec.antt =====
-- src/codec/codec.cpp and src/codec/codec.h: packing a packet into a buffer, and the two-state parser
-- that takes packets out of the stream. The callbacks are modelled by the list of events that they
-- receive; a connection is a number, and `none` is the null pointer that `parseHeader` passes on.
pub mod Pack
pub mod Parse
pub mod Stream
pub mod Segments
pub mod Errors
pub mod Termination
pub mod Tests
use hc_tcp_im_server.Common.{
  ℕ, zero, suc, ◌+◌, ◌-◌, ◌%◌, ◌≡◌, Bool, true, false, List, [], ◌∷◌, ◌++◌, Option, none, some,
  length, take, drop, ltb, ◌==◌, not, ◌||◌, if◌then◌else◌, u32,
}
use hc_tcp_im_server.Buffer.Vector.{slice}
use hc_tcp_im_server.Buffer.{
  Buffer, readable_bytes, ensure_writable_bytes, has_written, append, retrieve, retrieve_all,
}
use hc_tcp_im_server.Protocol.{
  PacketHeader, default_header, magic_number, protocol_version_v1, header_size, max_message_size,
  guess_flags_from_command, calc_crc16, err_invalid_packet, err_unsupported_version,
  err_payload_too_large, err_checksum_mismatch,
}
use hc_tcp_im_server.ByteOrder.{Inet}
use hc_tcp_im_server.Header.{write_header, read_header}

-- `ParseState`
pub data ParseState : Type 0 where
  expect_header expect_payload : ParseState

-- The members of `Codec` that parsing changes.
pub record Codec : Type 0 where
  pub state : ParseState
  pub expected_length : ℕ
  pub current_header : PacketHeader

-- `Codec()`
abbrev pub new : Codec
new = record {
  state = expect_header;
  expected_length = header_size;
  current_header = default_header;
}

-- `DecodedPacket`
pub record DecodedPacket : Type 0 where
  pub header : PacketHeader
  pub payload : List ℕ

-- What reaches the callbacks: an error with its connection, or a packet, which goes to the packet
-- callback and then, by its command, request and payload, to the message callback.
pub data Event : Type 0 where
  error : Option ℕ → ℕ → Event
  packet : ℕ → DecodedPacket → Event

-- What the message callback receives of a packet.
pub message_of : DecodedPacket → ℕ × ℕ × List ℕ
message_of p = (p.header.command, p.header.request_id, p.payload)

-- `static_cast<uint32_t>(message.size())` and the sum in uint32_t.
abbrev pub packet_length : List ℕ → ℕ
packet_length message = (header_size + length message % u32) % u32

-- The header that `pack` sends: the caller's, with the fields that describe the packet set.
abbrev pub sealed : PacketHeader → List ℕ → PacketHeader
sealed raw message = record raw {
  magic = magic_number;
  version = protocol_version_v1;
  header_len = header_size;
  total_len = packet_length message;
  checksum = calc_crc16 message;
}

-- The header that the short form of `pack` starts from.
abbrev pub request_header : ℕ → ℕ → List ℕ → PacketHeader
request_header command seq_id message = record default_header {
  command = command;
  flags = guess_flags_from_command command;
  request_id = seq_id;
  client_seq = seq_id;
  total_len = packet_length message;
  checksum = calc_crc16 message;
}

-- The events of a round stand before those of the next rounds.
abbrev pub after :
    List Event → Option (Codec × Buffer × List Event) → Option (Codec × Buffer × List Event)
after es none = none
after es (some (c, b, fs)) = some (c, b, es ++ fs)

module _ (net : Inet) where
  -- `pack(buffer, header, message)`
  pub pack : Buffer → PacketHeader → List ℕ → Buffer
  pack buffer raw_header message =
      let header = sealed raw_header message in
      let room = ensure_writable_bytes buffer header_size in
      let out = drop room.writer_index room.bytes in
      let written = record room {
        bytes = take room.writer_index room.bytes ++ write_header net out header;
      } in
      append (has_written written header_size) message

  -- `pack(buffer, command, seqId, message)`
  pub pack_request : Buffer → ℕ → ℕ → List ℕ → Buffer
  pack_request buffer command seq_id message =
      pack buffer (request_header command seq_id message) message

  -- `m_state = kExpectHeader; m_expectedLength = kHeaderSize`
  abbrev reset : Codec → Codec
  reset c = record c { state = expect_header; expected_length = header_size }

  -- A refused header drops everything that is readable.
  abbrev refuse : Codec → Buffer → ℕ → Bool × Codec × Buffer × List Event
  refuse c b e = (false, reset c, retrieve_all b, error none e ∷ [])

  -- `parseHeader`, with `m_currentHeader` assigned in `c`.
  pub check_header : Codec → Buffer → Bool × Codec × Buffer × List Event
  check_header c b =
      let h = c.current_header in
      if not (h.magic == magic_number)
      then refuse c b err_invalid_packet
      else if not (h.version == protocol_version_v1)
      then refuse c b err_unsupported_version
      else if not (h.header_len == header_size)
          || ltb h.total_len header_size
          || ltb max_message_size h.total_len
      then refuse c b err_payload_too_large
      else (true, record c { state = expect_payload; expected_length = h.total_len }, b, [])

  abbrev pub peek : Buffer → List ℕ
  peek b = drop b.reader_index b.bytes

  pub parse_header : Codec → Buffer → Bool × Codec × Buffer × List Event
  parse_header c b = check_header (record c { current_header = read_header net (peek b) }) b

  -- `parsePayload`. The difference of the lengths is a uint32_t.
  pub parse_payload : ℕ → Codec → Buffer → Bool × Codec × Buffer × List Event
  parse_payload conn c b =
      let h = c.current_header in
      let payload_len = (h.total_len + u32 - h.header_len) % u32 in
      let payload = slice h.header_len payload_len (peek b) in
      let rest = retrieve b c.expected_length in
      if not (h.checksum == calc_crc16 payload)
      then (false, reset c, rest, error (some conn) err_checksum_mismatch ∷ [])
      else (true, reset c, rest, packet conn (record { header = h; payload = payload }) ∷ [])

  -- The two `if`s of the loop of `onMessage`. The first part of the result is false for `break`.
  pub header_part : Codec → Buffer → Bool × Codec × Buffer × List Event
  header_part c b = elim c.state [
    | expect_header ↦
        if ltb (readable_bytes b) header_size then (false, c, b, []) else parse_header c b
    | expect_payload ↦ (true, c, b, [])
  ]

  pub payload_part : ℕ → Codec → Buffer → Bool × Codec × Buffer × List Event
  payload_part conn c b = elim c.state [
    | expect_header ↦ (true, c, b, [])
    | expect_payload ↦
        if ltb (readable_bytes b) c.expected_length
        then (false, c, b, [])
        else parse_payload conn c b
  ]

  pub then_payload : ℕ → Bool × Codec × Buffer × List Event → Bool × Codec × Buffer × List Event
  then_payload conn (false, c, b, es) = (false, c, b, es)
  then_payload conn (true, c, b, es) =
      let (again, c', b', fs) = payload_part conn c b in (again, c', b', es ++ fs)

  pub round : ℕ → Codec → Buffer → Bool × Codec × Buffer × List Event
  unfolding then_payload
  round conn c b = then_payload conn (header_part c b)

  -- `onMessage`: `none` if the fuel runs out, and otherwise the parser, the buffer and the events.
  pub on_message : ℕ → ℕ → Codec → Buffer → Option (Codec × Buffer × List Event)
  on_message zero conn c b = none
  on_message (suc fuel) conn c b =
      let (again, c', b', es) = round conn c b in
      let rest = on_message fuel conn c' b' in if again then after es rest else some (c', b', es)

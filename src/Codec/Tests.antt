-- ===== src/Codec/Tests.antt =====
-- Runs of src/codec on small packets, on a host where `htons` and `htonl` swap the bytes.
use hc_tcp_im_server.Common.{
  ℕ, ◌+◌, ◌*◌, ◌/◌, ◌%◌, ◌<◌, ◌≡◌, ◌≢◌, refl, sym, ap, ◌∙◌, true, false, ◌==◌, if◌then◌else◌, List,
  [], ◌∷◌, ◌++◌, arith, some, none, u16, u32, le_bytes, be_bytes, All, take, drop, append-nil,
  take-append-drop,
}
use hc_tcp_im_server.Buffer.{Buffer, contents, append, retrieve}
use hc_tcp_im_server.Buffer
use hc_tcp_im_server.Buffer.Contents.{new-IsValid, contents-append, append-IsValid}
use hc_tcp_im_server.Buffer.Refine.{
  Op, appends, reads, takes, takes_all, run, queue_run, run_refines,
}
use hc_tcp_im_server.Protocol.{PacketHeader, default_header, calc_crc16, err_checksum_mismatch}
use hc_tcp_im_server.Protocol.Crc.{calc_crc16_detects}
use hc_tcp_im_server.ByteOrder.{Inet}
use hc_tcp_im_server.Header.{read_header}
use hc_tcp_im_server.Header.Layout.{InRange, header_bytes}
use hc_tcp_im_server.Header.RoundTrip.{read_header_lem}
use hc_tcp_im_server.Codec.{new, error, packet, round, sealed, on_message, packet_length}
use hc_tcp_im_server.Codec.Termination.{on_message_ends}
use hc_tcp_im_server.Codec.Pack.{IsSendable, sealed-InRange, length-header_bytes}
use hc_tcp_im_server.Codec.Parse.{awaiting, settled}
use hc_tcp_im_server.Codec.Stream.{Message, IsGood, wire_all}
use hc_tcp_im_server.Codec.Segments.{feed, pack_all, pack_all_lem, joined, Delivers, feed-pack_all}
use hc_tcp_im_server.Codec.Errors.{round_corrupt, round_shared}

abbrev swap16 : ℕ → ℕ
swap16 x = x % 256 * 256 + x / 256 % 256

abbrev swap32 : ℕ → ℕ
swap32 x =
    x % 256 * 0x100_0000
    + x / 256 % 256 * 0x1_0000
    + x / 0x1_0000 % 256 * 256
    + x / 0x100_0000 % 256

pub swap16_order : (x : ℕ) → x < u16 → le_bytes 2 (swap16 x) ≡ be_bytes 2 x
unfolding le_bytes be_bytes
swap16_order x h = ground arith

pub swap32_order : (x : ℕ) → x < u32 → le_bytes 4 (swap32 x) ≡ be_bytes 4 x
unfolding le_bytes be_bytes
swap32_order x h = ground arith

pub swap16-lt : (x : ℕ) → x < u16 → swap16 x < u16
swap16-lt x h = omega arith

pub swap32-lt : (x : ℕ) → x < u32 → swap32 x < u32
swap32-lt x h = omega arith

pub swap16_twice : (x : ℕ) → x < u16 → swap16 (swap16 x) ≡ x
swap16_twice x h = omega arith

pub swap32_twice : (x : ℕ) → x < u32 → swap32 (swap32 x) ≡ x
swap32_twice x h = omega arith

abbrev pub little : Inet
little = record {
  htons = swap16;
  htonl = swap32;
  ntohs = swap16;
  ntohl = swap32;
  htons-lt = swap16-lt;
  htonl-lt = swap32-lt;
  htons_order = swap16_order;
  htonl_order = swap32_order;
  ntohs-htons = swap16_twice;
  ntohl-htonl = swap32_twice;
}

abbrev ping : PacketHeader
ping = record default_header { command = 3; flags = 1; request_id = 7; client_seq = 7 }

ping-IsSendable : IsSendable ping
ping-IsSendable = omega arith

-- A login and a heartbeat, with payloads "hi" and "".
abbrev two : List Message
two = (ping, 104 ∷ 105 ∷ []) ∷ (ping, []) ∷ []

crc_of_check :
    calc_crc16 (0x31 ∷ 0x32 ∷ 0x33 ∷ 0x34 ∷ 0x35 ∷ 0x36 ∷ 0x37 ∷ 0x38 ∷ 0x39 ∷ []) ≡ 0x29b1
unfolding calc_crc16
crc_of_check = refl

two-IsGood : All IsGood two
two-IsGood = ((ping-IsSendable, omega arith), ((ping-IsSendable, omega arith), tt))

-- The stream of both packets, cut inside the first header.
abbrev segments : List (List ℕ)
segments = take 10 (wire_all two) ∷ drop 10 (wire_all two) ∷ []

segments_lem : joined segments ≡ contents (pack_all little Buffer.new two)
unfolding Buffer.new
segments_lem =
    ap (◌++◌ (take 10 (wire_all two))) (append-nil (drop 10 (wire_all two)))
    ∙ take-append-drop 10 (wire_all two)
    ∙ sym (pack_all_lem little two new-IsValid two-IsGood)

feed-pack_all_example : Delivers 5 (feed little 3 5 new Buffer.new segments) two
feed-pack_all_example = feed-pack_all little 3 5 two segments two-IsGood (omega arith) segments_lem

calc_crc16_detects_example : ◌≢◌ {A = ℕ} (calc_crc16 (1 ∷ 2 ∷ 3 ∷ [])) (calc_crc16 (1 ∷ 9 ∷ 3 ∷ []))
calc_crc16_detects_example =
    calc_crc16_detects (1 ∷ []) (3 ∷ []) 2 9 (omega arith) (omega arith) (omega arith)

ping-InRange : InRange (sealed ping [])
ping-InRange = sealed-InRange [] ping-IsSendable

read_header_lem_example :
    read_header little (header_bytes (sealed ping []) ++ (1 ∷ 2 ∷ [])) ≡ sealed ping []
read_header_lem_example = read_header_lem little (sealed ping []) (1 ∷ 2 ∷ []) ping-InRange

-- The payload "hi" arrives as "ho".
abbrev damaged : Buffer
damaged = append Buffer.new (header_bytes (sealed ping (104 ∷ 105 ∷ [])) ++ (104 ∷ 111 ∷ []))

round_corrupt_example :
    (b' : Buffer) × (round little 5 new damaged
      ≡ (false, settled ping (104 ∷ 105 ∷ []), b', error (some 5) err_checksum_mismatch ∷ []))
    × (contents b' ≡ [])
unfolding Buffer.new
round_corrupt_example =
    round_corrupt little 5 (append-IsValid _ new-IsValid) ping-IsSendable new (104 ∷ []) [] [] 105
      111 refl (omega arith) (omega arith) (omega arith) (omega arith)
      (contents-append _ new-IsValid)

-- The header of a ping whose payload is to come, and a whole packet of another connection with the
-- same payload.
abbrev half : Buffer
half = append Buffer.new (header_bytes (sealed ping (104 ∷ 105 ∷ [])))

abbrev greeting : PacketHeader
greeting = record ping { command = 5; request_id = 9 }

abbrev whole : Buffer
whole = append Buffer.new (header_bytes (sealed greeting (104 ∷ 105 ∷ [])) ++ (104 ∷ 105 ∷ []))

round_shared_example :
    let m : List ℕ = 104 ∷ 105 ∷ [] in
    let left = retrieve whole (packet_length m) in
    ((round little 5 new half ≡ (false, awaiting ping m, half, []))
      × (round little 6 (awaiting ping m) whole ≡ (
          if calc_crc16 m == calc_crc16 m
          then (
            true,
            settled ping m,
            left,
            packet 6 (record { header = sealed ping m; payload = m }) ∷ [],
          )
          else (false, settled ping m, left, error (some 6) err_checksum_mismatch ∷ [])))
      × (contents left ≡ []))
unfolding Buffer.new
round_shared_example =
    let m : List ℕ = 104 ∷ 105 ∷ [] in
    round_shared little 5 6 new m (header_bytes (sealed greeting m)) m [] (omega arith)
      (append-IsValid _ new-IsValid) (append-IsValid _ new-IsValid) ping-IsSendable refl
      (omega arith) (omega arith) (contents-append _ new-IsValid)
      (length-header_bytes (sealed greeting m)) refl (contents-append _ new-IsValid)

-- Three bytes, while the parser awaits an empty payload.
abbrev ragged : Buffer
ragged = record { bytes = 1 ∷ 2 ∷ 3 ∷ []; reader_index = 0; writer_index = 3 }

on_message_ends_example : on_message little 5 7 (awaiting ping []) ragged ≢ none
on_message_ends_example = on_message_ends little 5 7 (awaiting ping []) ragged (omega arith)

script : List Op
script = appends (1 ∷ 2 ∷ []) ∷ takes 1 ∷ reads (some (3 ∷ [])) ∷ takes_all ∷ []

run_refines_example : run Buffer.new script ≡ queue_run (contents Buffer.new) script
unfolding script Buffer.new
run_refines_example = run_refines script new-IsValid (omega arith)

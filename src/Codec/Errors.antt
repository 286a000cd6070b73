-- ===== src/Codec/Errors.antt =====
-- Packets that the parser of src/codec/codec.cpp refuses, and what a parser does that two
-- connections share (`Codec codec` in src/server_full.cpp is one for all of them).
use hc_tcp_im_server.Common.{
  ℕ, ◌-◌, ◌≤◌, ◌<◌, ◌≡◌, ◌≢◌, refl, sym, ap, ◌∙◌, true, false, List, [], ◌∷◌, ◌++◌, arith, none,
  some, length, drop, append_assoc, append-nil, length-append, drop-append, u32, ◌==◌, ◌+◌,
  if◌then◌else◌,
}
use hc_tcp_im_server.Buffer.{Buffer, contents, readable_bytes, retrieve, retrieve_all}
use hc_tcp_im_server.Buffer.Contents.{IsValid, length-contents, contents-retrieve}
use hc_tcp_im_server.Protocol.{
  PacketHeader, header_size, max_message_size, calc_crc16, err_payload_too_large,
  err_checksum_mismatch,
}
use hc_tcp_im_server.Protocol.Crc.{IsByte, calc_crc16_detects}
use hc_tcp_im_server.ByteOrder.{Inet}
use hc_tcp_im_server.Header.Layout.{header_bytes}
use hc_tcp_im_server.Codec.{
  Codec, error, packet, expect_header, sealed, packet_length, parse_payload, payload_part,
  then_payload, round,
}
use hc_tcp_im_server.Codec.Pack.{IsSendable, wire, length-wire, length-header_bytes}
use hc_tcp_im_server.Codec.Parse.{
  Fits, awaiting, settled, body_peek, header_accepted, header_refused, header_part_awaits,
  payload_part_short, front_peek, has_header,
}

module _ (net : Inet) (conn : ℕ) {b : Buffer} {h : PacketHeader} (v : IsValid b)
    (s : IsSendable h) where
  body_refused :
      (m body rest : List ℕ)
      → Fits m
      → length body ≡ length m
      → calc_crc16 m ≢ calc_crc16 body
      → contents b ≡ header_bytes (sealed h m) ++ (body ++ rest)
      → payload_part net conn (awaiting h m) b ≡ (
        false,
        settled h m,
        retrieve b (packet_length m),
        error (some conn) err_checksum_mismatch ∷ [],
      )
  unfolding payload_part parse_payload
  body_refused m body rest fits same ne e = ground (
    arith,
    body_peek net v m s body rest e,
    length-contents v,
    ap {B = ℕ} length e,
    length-append (header_bytes (sealed h m)) (body ++ rest),
    length-append body rest,
    length-header_bytes (sealed h m),
  )

  -- A packet whose payload was changed in one byte on the way: the round reports a checksum mismatch
  -- for its connection, takes exactly this packet off the buffer, and waits for a header again.
  pub round_corrupt :
      (c : Codec) (pre post rest : List ℕ) (x y : ℕ)
      → c.state ≡ expect_header
      → Fits (pre ++ (x ∷ post))
      → IsByte x
      → IsByte y
      → x ≢ y
      → contents b ≡ header_bytes (sealed h (pre ++ (x ∷ post))) ++ ((pre ++ (y ∷ post)) ++ rest)
      → (b' : Buffer) × (round net conn c b ≡ (
        false,
        settled h (pre ++ (x ∷ post)),
        b',
        error (some conn) err_checksum_mismatch ∷ [],
      ))
        × (contents b' ≡ rest)
  unfolding round
  round_corrupt c pre post rest x y st fits p q ne e = (
    retrieve b (packet_length m),
    ap (then_payload net conn) (
          header_accepted net v m s c st fits
            (has_header net v m s [] (body ++ rest) (append-nil (contents b) ∙ e) enough) enough)
        ∙ rw (
          body_refused m body rest fits same (calc_crc16_detects pre post x y p q ne) e,
          then_payload,
        ),
    contents-retrieve (packet_length m) v
        ∙ ap (drop (packet_length m)) (e ∙ sym (append_assoc (header_bytes (sealed h m)) body rest))
        ∙ drop-append (packet_length m) (header_bytes (sealed h m) ++ body) rest (
            omega (
              arith,
              length-append (header_bytes (sealed h m)) body,
              length-header_bytes (sealed h m),
              same,
            )),
  )
    where
      m : List ℕ
      m = pre ++ (x ∷ post)

      body : List ℕ
      body = pre ++ (y ∷ post)

      same : length body ≡ length m
      same = omega (arith, length-append pre (x ∷ post), length-append pre (y ∷ post))

      enough : header_size ≤ readable_bytes b
      enough = omega (
        arith,
        length-contents v,
        ap {B = ℕ} length e,
        length-append (header_bytes (sealed h m)) (body ++ rest),
        length-header_bytes (sealed h m),
      )

  -- A packet that `pack` built from a message beyond the size limit, and whose length fits 32 bits: the
  -- round reports it too large, with no connection, and drops all that is readable, what stands behind
  -- the packet included.
  pub round_oversize :
      (c : Codec) (m rest : List ℕ)
      → c.state ≡ expect_header
      → max_message_size < header_size + length m
      → length m < u32 - header_size
      → contents b ≡ wire h m ++ rest
      → (b' : Buffer) × (round net conn c b
          ≡ (false, settled h m, b', error none err_payload_too_large ∷ []))
        × (contents b' ≡ [])
  unfolding round retrieve_all
  round_oversize c m rest st big small e = (
    retrieve_all b,
    ap (then_payload net conn) (
        header_refused net v m s c st big small
          (has_header net v m s [] (m ++ rest)
            (append-nil (contents b) ∙ e ∙ append_assoc (header_bytes (sealed h m)) m rest) enough)
          enough),
    refl,
  )
    where
      enough : header_size ≤ readable_bytes b
      enough = omega (
        arith,
        length-contents v,
        ap {B = ℕ} length e,
        length-append (wire h m) rest,
        length-wire h m,
      )

-- The payload of another connection's packet, while the parser holds the header of `m`.
shared_payload :
    (net : Inet) (conn : ℕ) (h : PacketHeader) {b : Buffer} (front m body rest : List ℕ)
    → IsValid b
    → length front ≡ header_size
    → length body ≡ length m
    → Fits m
    → contents b ≡ front ++ (body ++ rest)
    → payload_part net conn (awaiting h m) b ≡ (
        if calc_crc16 m == calc_crc16 body
        then (
          true,
          settled h m,
          retrieve b (packet_length m),
          packet conn (record { header = sealed h m; payload = body }) ∷ [],
        )
        else (
          false,
          settled h m,
          retrieve b (packet_length m),
          error (some conn) err_checksum_mismatch ∷ [],
        ))
unfolding payload_part parse_payload
shared_payload net conn h {b} front m body rest v f same fits e = ground (
  arith,
  front_peek net v front body rest f e,
  length-contents v,
  ap {B = ℕ} length e,
  length-append front (body ++ rest),
  length-append body rest,
)

-- One connection has sent the header of a packet, and its payload is still to come. The round for it
-- waits. Then bytes of another connection come first: whatever its first 44 bytes are, a header of its
-- own included, the shared parser skips them, and takes as many bytes as the first connection's
-- payload has. When their checksum is that of the first connection's payload, as when the two payloads
-- are the same, it reports a packet of the other connection with the first connection's header.
-- Otherwise it reports a checksum mismatch for the other connection. Either way these bytes are off
-- the other connection's buffer, and the parser no longer waits for the first connection's payload.
pub round_shared :
    (net : Inet) (conn other : ℕ) (c : Codec) {a b : Buffer} {h : PacketHeader}
    (m front body rest : List ℕ)
    → conn ≢ other
    → IsValid a
    → IsValid b
    → IsSendable h
    → c.state ≡ expect_header
    → Fits m
    → 0 < length m
    → contents a ≡ header_bytes (sealed h m)
    → length front ≡ header_size
    → length body ≡ length m
    → contents b ≡ front ++ (body ++ rest)
    → let left = retrieve b (packet_length m) in
      ((round net conn c a ≡ (false, awaiting h m, a, []))
        × (round net other (awaiting h m) b ≡ (
            if calc_crc16 m == calc_crc16 body
            then (
              true,
              settled h m,
              left,
              packet other (record { header = sealed h m; payload = body }) ∷ [],
            )
            else (false, settled h m, left, error (some other) err_checksum_mismatch ∷ [])))
        × (contents left ≡ rest))
unfolding round then_payload
round_shared net conn other c {a} {b} {h} m front body rest ne v w s st fits p e f same g = (
  ap (then_payload net conn) (
        header_accepted net v m s c st fits
          (has_header net v m s [] [] (append-nil (contents a) ∙ e ∙ sym (append-nil _)) enough)
          enough)
      ∙ rw (payload_part_short net conn a h m (omega (arith, got)), then_payload) refl,
  rw
      (
        header_part_awaits net b h m,
        then_payload,
        shared_payload net other h front m body rest w f same fits g,
      )
      (ground arith),
  contents-retrieve (packet_length m) w
      ∙ ap (drop (packet_length m)) (g ∙ sym (append_assoc front body rest))
      ∙ drop-append (packet_length m) (front ++ body) rest
          (omega (arith, length-append front body, f, same)),
)
  where
    got : readable_bytes a ≡ header_size
    got = omega (arith, length-contents v, ap {B = ℕ} length e, length-header_bytes (sealed h m))

    enough : header_size ≤ readable_bytes a
    enough = omega (arith, got)

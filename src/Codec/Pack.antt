-- ===== src/Codec/Pack.antt =====
-- `Codec::pack` of src/codec/codec.cpp appends one packet in wire format.
use hc_tcp_im_server.Common.{
  ℕ, ◌+◌, ◌<◌, ◌≡◌, refl, ap, ◌∙◌, List, ◌++◌, arith, length, take, drop, append_assoc,
  length-append, u16, u32, u64, be_bytes, drop-drop,
}
use hc_tcp_im_server.Buffer.Vector.{write_at}
use hc_tcp_im_server.Buffer.{Buffer, contents, ensure_writable_bytes, has_written, copy_in}
use hc_tcp_im_server.Buffer.Contents.{
  IsValid, ensure_writable_bytes-IsValid, ensure_writable_bytes-room,
  contents-ensure_writable_bytes, written-IsValid, contents-written, append-IsValid,
  contents-append,
}
use hc_tcp_im_server.Protocol.{PacketHeader, header_size}
use hc_tcp_im_server.Protocol.Crc.{calc_crc16-lt}
use hc_tcp_im_server.ByteOrder.{Inet}
use hc_tcp_im_server.Header.{write_header}
use hc_tcp_im_server.Header.Layout.{InRange, header_bytes, write_header_lem}
use hc_tcp_im_server.Codec.{sealed, pack}

-- The fields that the caller sets fit their types.
pub record IsSendable (h : PacketHeader) : Type 0 where
  pub command : h.command < u16
  pub flags : h.flags < u16
  pub request_id : h.request_id < u32
  pub client_seq : h.client_seq < u64
  pub server_seq : h.server_seq < u64
  pub error_code : h.error_code < u32

pub sealed-InRange : {h : PacketHeader} (m : List ℕ) → IsSendable h → InRange (sealed h m)
sealed-InRange m s = omega (arith, calc_crc16-lt m)

-- One packet on the wire.
abbrev pub wire : PacketHeader → List ℕ → List ℕ
wire h m = header_bytes (sealed h m) ++ m

pub length-header_bytes : (h : PacketHeader) → length (header_bytes h) ≡ header_size
unfolding be_bytes
length-header_bytes h = refl

pub length-wire : (h : PacketHeader) (m : List ℕ) → length (wire h m) ≡ header_size + length m
length-wire h m =
    omega (arith, length-append (header_bytes (sealed h m)) m, length-header_bytes (sealed h m))

module _ (net : Inet) {b : Buffer} {h : PacketHeader} (m : List ℕ) (v : IsValid b)
    (s : IsSendable h) where
  room : Buffer
  room = ensure_writable_bytes b header_size

  -- Writing the header in place is copying its bytes in.
  placed :
      take room.writer_index room.bytes
        ++ write_header net (drop room.writer_index room.bytes) (sealed h m)
      ≡ write_at room.bytes room.writer_index (header_bytes (sealed h m))
  unfolding write_at be_bytes
  placed = ap (◌++◌ (take room.writer_index room.bytes)) (
      write_header_lem net (sealed h m) (sealed-InRange m s) (drop room.writer_index room.bytes)
      ∙ ap (◌++◌ (header_bytes (sealed h m))) (drop-drop header_size room.writer_index room.bytes))

  abbrev headed : Buffer
  headed = has_written (copy_in room (header_bytes (sealed h m))) header_size

  headed-IsValid : IsValid headed
  unfolding room be_bytes
  headed-IsValid =
      written-IsValid (header_bytes (sealed h m)) (ensure_writable_bytes-IsValid header_size v)
        (ensure_writable_bytes-room header_size v)

  contents-headed : contents headed ≡ contents b ++ header_bytes (sealed h m)
  unfolding room be_bytes
  contents-headed =
      contents-written (header_bytes (sealed h m)) (ensure_writable_bytes-IsValid header_size v)
        (ensure_writable_bytes-room header_size v)
      ∙ ap (λ (q : List ℕ). q ++ header_bytes (sealed h m))
          (contents-ensure_writable_bytes header_size v)

  -- `pack` appends exactly the packet in wire format, and keeps the buffer valid.
  pub pack_lem : IsValid (pack net b h m) × (contents (pack net b h m) ≡ contents b ++ wire h m)
  unfolding pack room copy_in be_bytes
  pack_lem = rw placed (
    append-IsValid m headed-IsValid,
    contents-append m headed-IsValid
        ∙ ap (λ (q : List ℕ). q ++ m) contents-headed
        ∙ append_assoc (contents b) (header_bytes (sealed h m)) m,
  )

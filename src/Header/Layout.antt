-- ===== src/Header/Layout.antt =====
-- The bytes that `WriteHeader` of src/codec/codec.cpp leaves, against the format that the comment of
-- src/codec/protocol.h draws.
use hc_tcp_im_server.Common.{
  ℕ, ◌+◌, ◌<◌, ◌≡◌, refl, sym, ap, ◌∙◌, List, [], ◌++◌, length, drop, take-append, drop-append,
  drop-drop, append_assoc, u16, u32, u64, be_bytes,
}
use mathlib.Core.Path.{ap₂}
use hc_tcp_im_server.Buffer.Vector.{write_at}
use hc_tcp_im_server.Protocol.{PacketHeader, header_size}
use hc_tcp_im_server.ByteOrder.{Inet}
use hc_tcp_im_server.ByteOrder.Wire.{host_to_network64_order}
use hc_tcp_im_server.Header.{write_header}

-- Every field fits its type.
pub record InRange (h : PacketHeader) : Type 0 where
  pub magic : h.magic < u32
  pub version : h.version < u16
  pub header_len : h.header_len < u16
  pub total_len : h.total_len < u32
  pub command : h.command < u16
  pub flags : h.flags < u16
  pub request_id : h.request_id < u32
  pub client_seq : h.client_seq < u64
  pub server_seq : h.server_seq < u64
  pub error_code : h.error_code < u32
  pub checksum : h.checksum < u32

-- The documented format: the fields in order, each in network order.
abbrev pub header_bytes : PacketHeader → List ℕ
header_bytes h =
    be_bytes 4 h.magic
    ++ (be_bytes 2 h.version
        ++ (be_bytes 2 h.header_len
            ++ (be_bytes 4 h.total_len
                ++ (be_bytes 2 h.command
                    ++ (be_bytes 2 h.flags
                        ++ (be_bytes 4 h.request_id
                            ++ (be_bytes 8 h.client_seq
                                ++ (be_bytes 8 h.server_seq
                                    ++ (be_bytes 4 h.error_code ++ be_bytes 4 h.checksum)))))))))

-- A write just behind what is written extends it.
write_next :
    (i j : ℕ) (pre region new : List ℕ)
    → length pre ≡ i
    → i + length new ≡ j
    → write_at (pre ++ drop i region) i new ≡ (pre ++ new) ++ drop j region
unfolding write_at
write_next i j pre region new p q =
    ap₂ ◌++◌ (take-append i pre (drop i region) p)
      (ap (◌++◌ new) (ap (λ (k : ℕ). drop k (pre ++ drop i region)) q ∙ rest))
    ∙ sym (append_assoc pre new (drop j region))
  where
    rest : drop j (pre ++ drop i region) ≡ drop j region
    rest =
        ap (λ (k : ℕ). drop k (pre ++ drop i region)) (sym q)
        ∙ sym (drop-drop (length new) i (pre ++ drop i region))
        ∙ ap (drop (length new)) (drop-append i pre (drop i region) p)
        ∙ drop-drop (length new) i region
        ∙ ap (λ (k : ℕ). drop k region) q

-- A region that is written up to an offset.
abbrev done : List ℕ → ℕ → List ℕ → List ℕ
done pre i region = pre ++ drop i region

module _ (net : Inet) (h : PacketHeader) (r : InRange h) (region : List ℕ) where
  -- What `WriteHeader` writes is the documented format, and the bytes behind it stay.
  pub write_header_lem : write_header net region h ≡ header_bytes h ++ drop header_size region
  unfolding write_header be_bytes
  write_header_lem =
      rw
        (
          net.htonl_order h.magic r.magic,
          net.htons_order h.version r.version,
          net.htons_order h.header_len r.header_len,
          net.htonl_order h.total_len r.total_len,
          net.htons_order h.command r.command,
          net.htons_order h.flags r.flags,
          net.htonl_order h.request_id r.request_id,
          host_to_network64_order net h.client_seq r.client_seq,
          host_to_network64_order net h.server_seq r.server_seq,
          net.htonl_order h.error_code r.error_code,
          net.htonl_order h.checksum r.checksum,
          write_next 0 4 ([]) region (be_bytes 4 h.magic) refl refl,
          write_next 4 6 (([] ++ be_bytes 4 h.magic)) region (be_bytes 2 h.version) refl refl,
          write_next 6 8 ((([] ++ be_bytes 4 h.magic) ++ be_bytes 2 h.version)) region
              (be_bytes 2 h.header_len) refl refl,
          write_next 8 12
              (((([] ++ be_bytes 4 h.magic) ++ be_bytes 2 h.version) ++ be_bytes 2 h.header_len))
              region (be_bytes 4 h.total_len) refl refl,
          write_next 12 14
              ((((([] ++ be_bytes 4 h.magic) ++ be_bytes 2 h.version) ++ be_bytes 2 h.header_len)
                ++ be_bytes 4 h.total_len))
              region (be_bytes 2 h.command) refl refl,
          write_next 14 16
              (((((([] ++ be_bytes 4 h.magic) ++ be_bytes 2 h.version) ++ be_bytes 2 h.header_len)
                  ++ be_bytes 4 h.total_len)
                ++ be_bytes 2 h.command))
              region (be_bytes 2 h.flags) refl refl,
          write_next 16 20
              ((((((([] ++ be_bytes 4 h.magic) ++ be_bytes 2 h.version) ++ be_bytes 2 h.header_len)
                    ++ be_bytes 4 h.total_len)
                  ++ be_bytes 2 h.command)
                ++ be_bytes 2 h.flags))
              region (be_bytes 4 h.request_id) refl refl,
          write_next 20 28
              (((((((([] ++ be_bytes 4 h.magic) ++ be_bytes 2 h.version) ++ be_bytes 2 h.header_len)
                      ++ be_bytes 4 h.total_len)
                    ++ be_bytes 2 h.command)
                  ++ be_bytes 2 h.flags)
                ++ be_bytes 4 h.request_id))
              region (be_bytes 8 h.client_seq) refl refl,
          write_next 28 36
              ((((((((([] ++ be_bytes 4 h.magic) ++ be_bytes 2 h.version)
                          ++ be_bytes 2 h.header_len)
                        ++ be_bytes 4 h.total_len)
                      ++ be_bytes 2 h.command)
                    ++ be_bytes 2 h.flags)
                  ++ be_bytes 4 h.request_id)
                ++ be_bytes 8 h.client_seq))
              region (be_bytes 8 h.server_seq) refl refl,
          write_next 36 40
              (((((((((([] ++ be_bytes 4 h.magic) ++ be_bytes 2 h.version)
                            ++ be_bytes 2 h.header_len)
                          ++ be_bytes 4 h.total_len)
                        ++ be_bytes 2 h.command)
                      ++ be_bytes 2 h.flags)
                    ++ be_bytes 4 h.request_id)
                  ++ be_bytes 8 h.client_seq)
                ++ be_bytes 8 h.server_seq))
              region (be_bytes 4 h.error_code) refl refl,
          write_next 40 44
              ((((((((((([] ++ be_bytes 4 h.magic) ++ be_bytes 2 h.version)
                              ++ be_bytes 2 h.header_len)
                            ++ be_bytes 4 h.total_len)
                          ++ be_bytes 2 h.command)
                        ++ be_bytes 2 h.flags)
                      ++ be_bytes 4 h.request_id)
                    ++ be_bytes 8 h.client_seq)
                  ++ be_bytes 8 h.server_seq)
                ++ be_bytes 4 h.error_code))
              region (be_bytes 4 h.checksum) refl refl,
        )
        refl

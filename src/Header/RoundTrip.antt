-- ===== src/Header/RoundTrip.antt =====
-- `ReadHeader` of src/codec/codec.cpp reads back what `WriteHeader` wrote.
use hc_tcp_im_server.Common.{
  ℕ, ◌<◌, ◌≡◌, sym, ap, ◌∙◌, List, ◌++◌, u16, u32, u64, le_word, be_bytes,
}
use hc_tcp_im_server.Protocol.{PacketHeader}
use hc_tcp_im_server.ByteOrder.{Inet, network_to_host64}
use hc_tcp_im_server.ByteOrder.Wire.{
  le_word-le_bytes_2, le_word-le_bytes_4, le_word-le_bytes_8, host_to_network64_order,
  host_to_network64-lt, network_to_host64-host_to_network64,
}
use hc_tcp_im_server.Header.{read_header}
use hc_tcp_im_server.Header.Layout.{InRange, header_bytes}

module _ (net : Inet) where
  open net use {
    htons, htonl, ntohs, ntohl, htons-lt, htonl-lt, htons_order, htonl_order, ntohs-htons,
    ntohl-htonl,
  }

  read16 : (x : ℕ) → x < u16 → ntohs (le_word (be_bytes 2 x)) ≡ x
  read16 x h =
      ap (λ (bs : List ℕ). ntohs (le_word bs)) (sym (htons_order x h))
      ∙ ap ntohs (le_word-le_bytes_2 (htons x) (htons-lt x h))
      ∙ ntohs-htons x h

  read32 : (x : ℕ) → x < u32 → ntohl (le_word (be_bytes 4 x)) ≡ x
  read32 x h =
      ap (λ (bs : List ℕ). ntohl (le_word bs)) (sym (htonl_order x h))
      ∙ ap ntohl (le_word-le_bytes_4 (htonl x) (htonl-lt x h))
      ∙ ntohl-htonl x h

  read64 : (x : ℕ) → x < u64 → network_to_host64 net (le_word (be_bytes 8 x)) ≡ x
  read64 x h =
      ap (λ (bs : List ℕ). network_to_host64 net (le_word bs))
        (sym (host_to_network64_order net x h))
      ∙ ap (network_to_host64 net) (le_word-le_bytes_8 _ (host_to_network64-lt net x h))
      ∙ network_to_host64-host_to_network64 net x h

  -- Reading the documented bytes of a header whose fields fit their types gives the header, whatever
  -- follows it.
  pub read_header_lem :
      (h : PacketHeader) (rest : List ℕ) → InRange h → read_header net (header_bytes h ++ rest) ≡ h
  unfolding read_header be_bytes
  read_header_lem h rest r = λ i. record {
    magic = read32 h.magic r.magic i;
    version = read16 h.version r.version i;
    header_len = read16 h.header_len r.header_len i;
    total_len = read32 h.total_len r.total_len i;
    command = read16 h.command r.command i;
    flags = read16 h.flags r.flags i;
    request_id = read32 h.request_id r.request_id i;
    client_seq = read64 h.client_seq r.client_seq i;
    server_seq = read64 h.server_seq r.server_seq i;
    error_code = read32 h.error_code r.error_code i;
    checksum = read32 h.checksum r.checksum i;
  }

-- ===== src/Header.antt =====
-- `WriteHeader` and `ReadHeader` of src/codec/codec.cpp: the packet header in network order, at fixed
-- offsets of a region of 44 bytes.
pub mod Layout
pub mod RoundTrip
use hc_tcp_im_server.Common.{ℕ, List, length, le_bytes, le_word}
use hc_tcp_im_server.Buffer.Vector.{slice, write_at}
use hc_tcp_im_server.Protocol.{PacketHeader}
use hc_tcp_im_server.ByteOrder.{
  Inet, host_to_network16, host_to_network32, host_to_network64, network_to_host16,
  network_to_host32, network_to_host64,
}

abbrev pub magic_field_offset : ℕ
magic_field_offset = 0

abbrev pub version_field_offset : ℕ
version_field_offset = 4

abbrev pub header_len_field_offset : ℕ
header_len_field_offset = 6

abbrev pub total_len_field_offset : ℕ
total_len_field_offset = 8

abbrev pub command_field_offset : ℕ
command_field_offset = 12

abbrev pub flags_field_offset : ℕ
flags_field_offset = 14

abbrev pub request_id_field_offset : ℕ
request_id_field_offset = 16

abbrev pub client_seq_field_offset : ℕ
client_seq_field_offset = 20

abbrev pub server_seq_field_offset : ℕ
server_seq_field_offset = 28

abbrev pub error_code_field_offset : ℕ
error_code_field_offset = 36

abbrev pub checksum_field_offset : ℕ
checksum_field_offset = 40

module _ (net : Inet) where
  -- `out` is the region from `beginWrite()` on. A local of the source holds the converted field.
  pub write_header : List ℕ → PacketHeader → List ℕ
  write_header out header =
      let magic = host_to_network32 net header.magic in
      let version = host_to_network16 net header.version in
      let header_len = host_to_network16 net header.header_len in
      let total_len = host_to_network32 net header.total_len in
      let command = host_to_network16 net header.command in
      let flags = host_to_network16 net header.flags in
      let request_id = host_to_network32 net header.request_id in
      let client_seq = host_to_network64 net header.client_seq in
      let server_seq = host_to_network64 net header.server_seq in
      let error_code = host_to_network32 net header.error_code in
      let checksum = host_to_network32 net header.checksum in
      let out = write_at out magic_field_offset (le_bytes 4 magic) in
      let out = write_at out version_field_offset (le_bytes 2 version) in
      let out = write_at out header_len_field_offset (le_bytes 2 header_len) in
      let out = write_at out total_len_field_offset (le_bytes 4 total_len) in
      let out = write_at out command_field_offset (le_bytes 2 command) in
      let out = write_at out flags_field_offset (le_bytes 2 flags) in
      let out = write_at out request_id_field_offset (le_bytes 4 request_id) in
      let out = write_at out client_seq_field_offset (le_bytes 8 client_seq) in
      let out = write_at out server_seq_field_offset (le_bytes 8 server_seq) in
      let out = write_at out error_code_field_offset (le_bytes 4 error_code) in
      write_at out checksum_field_offset (le_bytes 4 checksum)

  -- `memcpy` from an offset into a local, read as a word of the host.
  abbrev pub load : List ℕ → ℕ → ℕ → ℕ
  load bytes offset size = le_word (slice offset size bytes)

  pub read_header : List ℕ → PacketHeader
  read_header bytes = record {
    magic = network_to_host32 net (load bytes magic_field_offset 4);
    version = network_to_host16 net (load bytes version_field_offset 2);
    header_len = network_to_host16 net (load bytes header_len_field_offset 2);
    total_len = network_to_host32 net (load bytes total_len_field_offset 4);
    command = network_to_host16 net (load bytes command_field_offset 2);
    flags = network_to_host16 net (load bytes flags_field_offset 2);
    request_id = network_to_host32 net (load bytes request_id_field_offset 4);
    client_seq = network_to_host64 net (load bytes client_seq_field_offset 8);
    server_seq = network_to_host64 net (load bytes server_seq_field_offset 8);
    error_code = network_to_host32 net (load bytes error_code_field_offset 4);
    checksum = network_to_host32 net (load bytes checksum_field_offset 4);
  }

-- ===== src/ByteOrder.antt =====
-- src/base/util.cpp: host and network byte order, on a little-endian host (the branch that x86 and
-- ARM Linux builds compile). `htons`, `htonl`, `ntohs` and `ntohl` are the C library's.
pub mod Wire
use Prim.Native.Nat.{bit_and, bit_or}
use hc_tcp_im_server.Common.{
  ℕ, ◌+◌, ◌-◌, ◌*◌, ◌/◌, ◌%◌, ◌^◌, ◌<◌, ◌≡◌, List, u16, u32, u64, le_bytes, le_word, be_bytes,
}

-- What the C library documents: the stored result of `hton` is in network order, and `ntoh` undoes it.
pub record Inet : Type 0 where
  pub htons : ℕ → ℕ
  pub htonl : ℕ → ℕ
  pub ntohs : ℕ → ℕ
  pub ntohl : ℕ → ℕ
  pub htons-lt : (x : ℕ) → x < u16 → htons x < u16
  pub htonl-lt : (x : ℕ) → x < u32 → htonl x < u32
  pub htons_order : (x : ℕ) → x < u16 → le_bytes 2 (htons x) ≡ be_bytes 2 x
  pub htonl_order : (x : ℕ) → x < u32 → le_bytes 4 (htonl x) ≡ be_bytes 4 x
  pub ntohs-htons : (x : ℕ) → x < u16 → ntohs (htons x) ≡ x
  pub ntohl-htonl : (x : ℕ) → x < u32 → ntohl (htonl x) ≡ x

module _ (net : Inet) where
  abbrev pub host_to_network16 : ℕ → ℕ
  host_to_network16 = net.htons

  abbrev pub network_to_host16 : ℕ → ℕ
  network_to_host16 = net.ntohs

  abbrev pub host_to_network32 : ℕ → ℕ
  host_to_network32 = net.htonl

  abbrev pub network_to_host32 : ℕ → ℕ
  network_to_host32 = net.ntohl

  -- The argument of `htonl` is cut to 32 bits, as its type says.
  pub host_to_network64 : ℕ → ℕ
  host_to_network64 x =
      bit_or ((net.htonl (bit_and x 0xffff_ffff) * 2 ^ 32) % u64) (net.htonl ((x / 2 ^ 32) % u32))

  pub network_to_host64 : ℕ → ℕ
  network_to_host64 x =
      bit_or ((net.ntohl (bit_and x 0xffff_ffff) * 2 ^ 32) % u64) (net.ntohl ((x / 2 ^ 32) % u32))

-- ===== src/ByteOrder/Wire.antt =====
-- What a word of src/base/util.cpp looks like in memory, and that reading it back gives the word.
use Prim.Native.Nat.{bit_and, bit_or}
use hc_tcp_im_server.Common.{
  ℕ, ◌+◌, ◌*◌, ◌/◌, ◌%◌, ◌^◌, ◌<◌, ◌≡◌, sym, ap, ◌∙◌, ◌++◌, arith, u16, u32, u64, le_bytes, le_word,
  be_bytes,
}
use mathlib.Core.Path.{ap₂}
use hc_tcp_im_server.Common.Bits.{and_mask, or_disjoint}
use hc_tcp_im_server.ByteOrder.{Inet, host_to_network64, network_to_host64}

pub le_word-le_bytes_2 : (x : ℕ) → x < u16 → le_word (le_bytes 2 x) ≡ x
unfolding le_word le_bytes
le_word-le_bytes_2 x h = omega arith

pub le_word-le_bytes_4 : (x : ℕ) → x < u32 → le_word (le_bytes 4 x) ≡ x
unfolding le_word le_bytes
le_word-le_bytes_4 x h = omega arith

pub le_word-le_bytes_8 : (x : ℕ) → x < u64 → le_word (le_bytes 8 x) ≡ x
unfolding le_word le_bytes
le_word-le_bytes_8 x h = omega arith

-- A 64-bit word is its two halves, in memory and in network order.
le_bytes_halves :
    (hi lo : ℕ) → lo < u32 → le_bytes 8 (hi * 2 ^ 32 + lo) ≡ le_bytes 4 lo ++ le_bytes 4 hi
unfolding le_bytes
le_bytes_halves hi lo h = ground arith

be_bytes_halves :
    (hi lo : ℕ) → lo < u32 → be_bytes 8 (hi * 2 ^ 32 + lo) ≡ be_bytes 4 hi ++ be_bytes 4 lo
unfolding be_bytes
be_bytes_halves hi lo h = ground arith

low_half : (x : ℕ) → bit_and x 0xffff_ffff ≡ x % u32
low_half x =
    ap (λ (r : ℕ). bit_and r 0xffff_ffff) (omega arith)
    ∙ and_mask 32 (x / 2 ^ 32) (x % 2 ^ 32) (omega arith)

module _ (net : Inet) where
  open net use {htonl, htonl-lt, htonl_order, ntohl, ntohl-htonl}

  joined :
      (x : ℕ) → x < u64 → host_to_network64 net x ≡ htonl (x % u32) * 2 ^ 32 + htonl (x / 2 ^ 32)
  unfolding host_to_network64
  joined x h =
      ap₂ (λ (a b : ℕ). bit_or ((a * 2 ^ 32) % u64) b) (ap htonl (low_half x))
        (ap htonl (omega arith))
      ∙ ap (λ (r : ℕ). bit_or r (htonl (x / 2 ^ 32)))
          (omega (arith, htonl-lt (x % u32) (omega arith)))
      ∙ or_disjoint 32 (htonl (x % u32)) (htonl (x / 2 ^ 32)) (htonl-lt (x / 2 ^ 32) (omega arith))

  -- The bytes of the converted word are in network order.
  pub host_to_network64_order :
      (x : ℕ) → x < u64 → le_bytes 8 (host_to_network64 net x) ≡ be_bytes 8 x
  host_to_network64_order x h =
      ap (le_bytes 8) (joined x h)
      ∙ le_bytes_halves (htonl (x % u32)) (htonl (x / 2 ^ 32)) (htonl-lt _ (omega arith))
      ∙ ap₂ ◌++◌ (htonl_order (x / 2 ^ 32) (omega arith)) (htonl_order (x % u32) (omega arith))
      ∙ sym (be_bytes_halves (x / 2 ^ 32) (x % u32) (omega arith))
      ∙ ap (be_bytes 8) (omega arith)

  pub host_to_network64-lt : (x : ℕ) → x < u64 → host_to_network64 net x < u64
  host_to_network64-lt x h =
      omega
        (arith, joined x h, htonl-lt (x % u32) (omega arith), htonl-lt (x / 2 ^ 32) (omega arith))

  -- Converting back gives the word.
  pub network_to_host64-host_to_network64 :
      (x : ℕ) → x < u64 → network_to_host64 net (host_to_network64 net x) ≡ x
  unfolding network_to_host64
  network_to_host64-host_to_network64 x h = rw (joined x h) (
      ap₂ (λ (a b : ℕ). bit_or ((a * 2 ^ 32) % u64) b)
        (ap ntohl (and_mask 32 lo hi hi_small) ∙ ntohl-htonl (x / 2 ^ 32) (omega arith))
        (ap ntohl (omega (arith, htonl-lt (x % u32) (omega arith)))
          ∙ ntohl-htonl (x % u32) (omega arith))
      ∙ ap (λ (r : ℕ). bit_or r (x % u32)) (omega arith)
      ∙ or_disjoint 32 (x / 2 ^ 32) (x % u32) (omega arith)
      ∙ omega arith)
    where
      lo : ℕ
      lo = htonl (x % u32)

      hi : ℕ
      hi = htonl (x / 2 ^ 32)

      hi_small : hi < 2 ^ 32
      hi_small = htonl-lt (x / 2 ^ 32) (omega arith)

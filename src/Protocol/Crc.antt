-- ===== src/Protocol/Crc.antt =====
-- The checksum of src/codec/protocol.cpp: its range, and the errors that it detects.
use Prim.Native.Nat.{bit_xor}
use hc_tcp_im_server.Common.{
  ℕ, zero, suc, ◌+◌, ◌-◌, ◌*◌, ◌/◌, ◌%◌, ◌^◌, ◌≤◌, ◌<◌, ◌≡◌, ◌≢◌, sym, ap, ◌∙◌, inl, inr, List, [],
  ◌∷◌, ◌++◌, arith, ◌==◌, if◌then◌else◌, Bool-cases, ltb, ltb→lt, u16,
}
use hc_tcp_im_server.Common.Bits.{
  xor-lt, xor_lowest, xor_cancel, xor_cancel_left, and_high_zero, and_high_one,
}
use hc_tcp_im_server.Protocol.{crc_bit, crc_bits, crc_byte, crc_loop, calc_crc16}

abbrev pub IsByte : ℕ → Type 0
IsByte b = b < 256

crc_bit_low : (c : ℕ) → c < 2 ^ 15 → crc_bit c ≡ c * 2
unfolding crc_bit
crc_bit_low c h = ground (arith, and_high_zero 15 c h)

crc_bit_high : (c : ℕ) → 2 ^ 15 ≤ c → c < u16 → crc_bit c ≡ bit_xor (c * 2 - u16) 0x1021
unfolding crc_bit
crc_bit_high c h k = rw (and_high_one 15 c h k) (ap (λ (r : ℕ). bit_xor r 0x1021) (omega arith))

crc_bit-lt : (c : ℕ) → c < u16 → crc_bit c < u16
crc_bit-lt c h = elim (Bool-cases (ltb c (2 ^ 15))) [
  | inl low ↦ omega (arith, crc_bit_low c (ltb→lt _ _ low), ltb→lt _ _ low)
  | inr high ↦ rw (crc_bit_high c (ground arith) h) (xor-lt 16 _ _ (omega arith) (omega arith))
]

-- What undoes a round: the polynomial is odd, so the lowest digit tells the branch.
crc_unbit : ℕ → ℕ
crc_unbit c = if c % 2 == 0 then c / 2 else bit_xor c 0x1021 / 2 + 2 ^ 15

crc_unbit-crc_bit : (c : ℕ) → c < u16 → crc_unbit (crc_bit c) ≡ c
unfolding crc_unbit
crc_unbit-crc_bit c h = elim (Bool-cases (ltb c (2 ^ 15))) [
  | inl low ↦ ground (arith, crc_bit_low c (ltb→lt _ _ low))
  | inr high ↦ ground (
    arith,
    crc_bit_high c (ground arith) h,
    xor_lowest (c * 2 - u16) 0x1021,
    xor_cancel (c * 2 - u16) 0x1021,
  )
]

crc_bits-lt : (n c : ℕ) → c < u16 → crc_bits n c < u16
unfolding crc_bits
crc_bits-lt zero c h = h
crc_bits-lt (suc n) c h = crc_bits-lt n (crc_bit c) (crc_bit-lt c h)

crc_bits_injective : (n a b : ℕ) → a < u16 → b < u16 → crc_bits n a ≡ crc_bits n b → a ≡ b
unfolding crc_bits
crc_bits_injective zero a b p q e = e
crc_bits_injective (suc n) a b p q e =
    sym (crc_unbit-crc_bit a p)
    ∙ ap crc_unbit
        (crc_bits_injective n (crc_bit a) (crc_bit b) (crc_bit-lt a p) (crc_bit-lt b q) e)
    ∙ crc_unbit-crc_bit b q

mixed-lt : (c b : ℕ) → c < u16 → bit_xor c ((b * 2 ^ 8) % u16) < u16
mixed-lt c b h = xor-lt 16 c _ h (omega arith)

crc_byte-lt : (c b : ℕ) → c < u16 → crc_byte c b < u16
unfolding crc_byte
crc_byte-lt c b h = crc_bits-lt 8 _ (mixed-lt c b h)

-- The checksum is a uint16_t, whatever the bytes.
pub crc_loop-lt : (bs : List ℕ) (c : ℕ) → c < u16 → crc_loop c bs < u16
unfolding crc_loop
crc_loop-lt [] c h = h
crc_loop-lt (b ∷ bs) c h = crc_loop-lt bs (crc_byte c b) (crc_byte-lt c b h)

pub calc_crc16-lt : (bs : List ℕ) → calc_crc16 bs < u16
unfolding calc_crc16
calc_crc16-lt bs = crc_loop-lt bs 0xffff (omega arith)

-- A different state before a byte stays different after it, and so does a different byte.
crc_byte_state : (a c b : ℕ) → a < u16 → c < u16 → crc_byte a b ≡ crc_byte c b → a ≡ c
unfolding crc_byte
crc_byte_state a c b p q e =
    sym (xor_cancel a x)
    ∙ ap (λ (r : ℕ). bit_xor r x) (crc_bits_injective 8 _ _ (mixed-lt a b p) (mixed-lt c b q) e)
    ∙ xor_cancel c x
  where
    x : ℕ
    x = (b * 2 ^ 8) % u16

crc_byte_input : (c x y : ℕ) → c < u16 → IsByte x → IsByte y → crc_byte c x ≡ crc_byte c y → x ≡ y
unfolding crc_byte
crc_byte_input c x y h p q e = omega (arith, shifted)
  where
    shifted : (x * 2 ^ 8) % u16 ≡ (y * 2 ^ 8) % u16
    shifted =
        sym (xor_cancel_left c ((x * 2 ^ 8) % u16))
        ∙ ap (bit_xor c) (crc_bits_injective 8 _ _ (mixed-lt c x h) (mixed-lt c y h) e)
        ∙ xor_cancel_left c ((y * 2 ^ 8) % u16)

crc_loop_state : (bs : List ℕ) (a c : ℕ) → a < u16 → c < u16 → crc_loop a bs ≡ crc_loop c bs → a ≡ c
unfolding crc_loop
crc_loop_state [] a c p q e = e
crc_loop_state (b ∷ bs) a c p q e =
    crc_byte_state a c b p q
      (crc_loop_state bs (crc_byte a b) (crc_byte c b) (crc_byte-lt a b p) (crc_byte-lt c b q) e)

crc_loop_change :
    (pre post : List ℕ) (x y c : ℕ)
    → c < u16
    → IsByte x
    → IsByte y
    → crc_loop c (pre ++ (x ∷ post)) ≡ crc_loop c (pre ++ (y ∷ post))
    → x ≡ y
unfolding crc_loop
crc_loop_change [] post x y c h p q e =
    crc_byte_input c x y h p q
      (crc_loop_state post (crc_byte c x) (crc_byte c y) (crc_byte-lt c x h) (crc_byte-lt c y h) e)
crc_loop_change (b ∷ pre) post x y c h p q e =
    crc_loop_change pre post x y (crc_byte c b) (crc_byte-lt c b h) p q e

-- The checksum detects a change of any one byte of the payload to any other byte, in whatever place
-- it stands.
pub calc_crc16_detects :
    (pre post : List ℕ) (x y : ℕ)
    → IsByte x
    → IsByte y
    → x ≢ y
    → calc_crc16 (pre ++ (x ∷ post)) ≢ calc_crc16 (pre ++ (y ∷ post))
unfolding calc_crc16
calc_crc16_detects pre post x y p q ne e =
    ne (crc_loop_change pre post x y 0xffff (omega arith) p q e)

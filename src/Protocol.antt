-- ===== src/Protocol.antt =====
-- src/codec/protocol.h and src/codec/protocol.cpp: constants, commands, flags, the packet header and
-- the checksum. `uint` fields are numbers; what bounds them is `Protocol.Header.InRange`.
pub mod Crc
pub mod Commands
pub mod Messages
use Prim.Native.Nat.{bit_and, bit_or, bit_xor}
use hc_tcp_im_server.Common.{
  ℕ, zero, suc, ◌+◌, ◌*◌, ◌%◌, ◌^◌, Bool, true, false, List, [], ◌∷◌, ◌==◌, ◌||◌, if◌then◌else◌,
  u16,
}

abbrev pub magic_number : ℕ
magic_number = 0xabcd1234

abbrev pub protocol_version_v1 : ℕ
protocol_version_v1 = 1

abbrev pub header_size : ℕ
header_size = 44

abbrev pub max_message_size : ℕ
max_message_size = 64 * 1024 * 1024

-- `PacketFlags`, as far as the program sets them.
abbrev pub flag_none : ℕ
flag_none = 0x0000

abbrev pub flag_request : ℕ
flag_request = 0x0001

abbrev pub flag_response : ℕ
flag_response = 0x0002

abbrev pub flag_ack : ℕ
flag_ack = 0x0004

abbrev pub flag_retry : ℕ
flag_retry = 0x0008

-- `ErrorCode`
abbrev pub err_ok : ℕ
err_ok = 0

abbrev pub err_invalid_packet : ℕ
err_invalid_packet = 1001

abbrev pub err_unsupported_version : ℕ
err_unsupported_version = 1002

abbrev pub err_checksum_mismatch : ℕ
err_checksum_mismatch = 1003

abbrev pub err_payload_too_large : ℕ
err_payload_too_large = 1004

abbrev pub err_auth_failed : ℕ
err_auth_failed = 2001

abbrev pub err_server_busy : ℕ
err_server_busy = 5001

-- `Command`
pub data Command : Type 0 where
  login_req login_resp heartbeat_req heartbeat_resp : Command
  p2p_msg_req p2p_msg_resp p2p_msg_notify : Command
  broadcast_msg_req broadcast_msg_notify : Command
  kick_user_req kick_user_resp : Command
  message_ack_req message_ack_resp : Command
  pull_offline_req pull_offline_resp : Command

abbrev pub code : Command → ℕ
code login_req = 0x0001
code login_resp = 0x0002
code heartbeat_req = 0x0003
code heartbeat_resp = 0x0004
code p2p_msg_req = 0x0005
code p2p_msg_resp = 0x0006
code p2p_msg_notify = 0x0007
code broadcast_msg_req = 0x0008
code broadcast_msg_notify = 0x0009
code kick_user_req = 0x000a
code kick_user_resp = 0x000b
code message_ack_req = 0x000c
code message_ack_resp = 0x000d
code pull_offline_req = 0x000e
code pull_offline_resp = 0x000f

-- `DeliveryStatus`
pub data DeliveryStatus : Type 0 where
  created persisted delivering delivered failed read : DeliveryStatus

-- `AckCode`
abbrev pub ack_received : ℕ
ack_received = 0

abbrev pub ack_read : ℕ
ack_read = 1

-- `PacketHeader`
pub record PacketHeader : Type 0 where
  pub magic : ℕ
  pub version : ℕ
  pub header_len : ℕ
  pub total_len : ℕ
  pub command : ℕ
  pub flags : ℕ
  pub request_id : ℕ
  pub client_seq : ℕ
  pub server_seq : ℕ
  pub error_code : ℕ
  pub checksum : ℕ

-- The header with the default value of each field.
abbrev pub default_header : PacketHeader
default_header = record {
  magic = magic_number;
  version = protocol_version_v1;
  header_len = header_size;
  total_len = header_size;
  command = 0;
  flags = flag_none;
  request_id = 0;
  client_seq = 0;
  server_seq = 0;
  error_code = err_ok;
  checksum = 0;
}

-- `IsResponseCommand`
pub is_response_command : ℕ → Bool
is_response_command c =
    c == code login_resp
    || c == code heartbeat_resp
    || c == code p2p_msg_resp
    || c == code kick_user_resp
    || c == code message_ack_resp
    || c == code pull_offline_resp

-- `GuessFlagsFromCommand`
pub guess_flags_from_command : ℕ → ℕ
unfolding is_response_command
guess_flags_from_command c =
    if c == code p2p_msg_notify || c == code broadcast_msg_notify
    then flag_none
    else if c == code message_ack_req
    then bit_or flag_request flag_ack
    else if c == code message_ack_resp
    then bit_or flag_response flag_ack
    else if is_response_command c
    then flag_response
    else flag_request

-- One round of the inner loop of `CalcCRC16`: `crc` is a uint16_t.
crc_bit : ℕ → ℕ
crc_bit crc = if bit_and crc 0x8000 == 0 then (crc * 2) % u16 else bit_xor ((crc * 2) % u16) 0x1021

crc_bits : ℕ → ℕ → ℕ
crc_bits zero crc = crc
crc_bits (suc n) crc = crc_bits n (crc_bit crc)

-- The body of the outer loop.
crc_byte : ℕ → ℕ → ℕ
unfolding crc_bits crc_bit
crc_byte crc b = crc_bits 8 (bit_xor crc ((b * 2 ^ 8) % u16))

pub crc_loop : ℕ → List ℕ → ℕ
unfolding crc_byte
crc_loop crc [] = crc
crc_loop crc (b ∷ bs) = crc_loop (crc_byte crc b) bs

-- `CalcCRC16`
unfoldable pub calc_crc16 : List ℕ → ℕ
unfolding crc_loop
calc_crc16 bs = crc_loop 0xffff bs

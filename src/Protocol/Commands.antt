-- ===== src/Protocol/Commands.antt =====
-- The commands and default flags of src/codec/protocol.cpp.
use Prim.Native.Nat.{bit_and}
use hc_tcp_im_server.Common.{ℕ, ◌≡◌, true, false, arith}
use hc_tcp_im_server.Protocol.{
  Command, code, flag_request, flag_response, is_response_command, guess_flags_from_command,
}

-- Whatever the command, the default flags mark a response exactly when the command is one, and never
-- both a request and a response.
pub guess_flags_response :
    (c : ℕ)
    → ((is_response_command c ≡ true
          → bit_and (guess_flags_from_command c) flag_response ≡ flag_response)
        × (is_response_command c ≡ false → bit_and (guess_flags_from_command c) flag_response ≡ 0)
        × (is_response_command c ≡ true → bit_and (guess_flags_from_command c) flag_request ≡ 0))
unfolding guess_flags_from_command
guess_flags_response c = ground arith

code_injective : (c d : Command) → code c ≡ code d → c ≡ d
code_injective c d e = ground arith

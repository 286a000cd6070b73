-- ===== src/Breaker.antt =====
-- src/infra/circuitBreaker.cpp: the switch in front of the message path. Times are milliseconds; the
-- clock's reading is an argument, and `now - opened >= wait` is written without the subtraction,
-- which agrees with it for clocks and waits that are not negative.
pub mod Behaviour
mod Tests
use hc_tcp_im_server.Common.{ℕ, ◌+◌, ◌%◌, Bool, true, false, not, u32, leb, if◌then◌else◌}

pub data State : Type 0 where
  closed opened half_open : State

pub record CircuitBreaker : Type 0 where
  pub enabled : Bool
  pub failure_threshold : ℕ
  pub half_open_after_ms : ℕ
  pub state : State
  pub consecutive_failures : ℕ
  pub opened_at_ms : ℕ

unfoldable pub new : Bool → ℕ → ℕ → CircuitBreaker
new enabled threshold wait = record {
  enabled = enabled;
  failure_threshold = threshold;
  half_open_after_ms = wait;
  state = closed;
  consecutive_failures = 0;
  opened_at_ms = 0;
}

-- The answer, and the breaker after the call, which an open one may leave half open.
unfoldable pub allow_request : CircuitBreaker → ℕ → Bool × CircuitBreaker
allow_request b now = if not b.enabled then (true, b) else elim b.state [
  | closed ↦ (true, b)
  | opened ↦
      if leb (b.opened_at_ms + b.half_open_after_ms) now
      then (true, record b { state = half_open })
      else (false, b)
  | half_open ↦ (true, b)
]

unfoldable pub record_success : CircuitBreaker → CircuitBreaker
record_success b = record b { state = closed; consecutive_failures = 0; opened_at_ms = 0 }

unfoldable pub record_failure : CircuitBreaker → ℕ → CircuitBreaker
record_failure b now =
    let failures = (b.consecutive_failures + 1) % u32 in
    if not b.enabled
    then b
    else if leb b.failure_threshold failures
    then record b { state = opened; consecutive_failures = failures; opened_at_ms = now }
    else record b { consecutive_failures = failures }

unfoldable pub configure : CircuitBreaker → Bool → ℕ → ℕ → CircuitBreaker
configure b enabled threshold wait = record b {
  enabled = enabled;
  failure_threshold = threshold;
  half_open_after_ms = wait;
  state = closed;
  consecutive_failures = 0;
  opened_at_ms = 0;
}

unfoldable pub is_open : CircuitBreaker → Bool
is_open b = elim b.state [ opened ↦ true | _ ↦ false ]

-- ===== src/Overload.antt =====
-- src/service/overloadProtectService.cpp and src/infra/rateLimiter.cpp: limits on connections and
-- requests. A `double` is the parameter; the clock's reading, in milliseconds, is the argument `now`.
-- Counters are `std::atomic<size_t>`, of 64 bits.
pub mod Limits
pub mod Tests
use hc_tcp_im_server.Common.{
  ℕ, ◌+◌, ◌-◌, ◌%◌, ◌≡◌, Bool, true, false, not, ◌&&◌, ◌||◌, Option, none, some, List, [], ◌∷◌,
  String, u64, ltb, leb, str_eq, ◌==◌, if◌then◌else◌,
}
use hc_tcp_im_server.Common.Dict.{Key, Dict, find, put, text_key}
use hc_tcp_im_server.Protocol.{code, login_req, p2p_msg_req, broadcast_msg_req}

-- The `double` of IEEE 754, with two of its laws, which also hold for infinities and NaN.
pub record Double : Type 1 where
  pub Number : Type 0
  pub zero : Number
  pub one : Number
  pub thousand : Number
  pub from_ms : ℕ → Number
  pub add : Number → Number → Number
  pub sub : Number → Number → Number
  pub mul : Number → Number → Number
  pub div : Number → Number → Number
  pub less : Number → Number → Bool
  pub at_most : Number → Number → Bool
  pub less-asym : (a b : Number) → less b a ≡ true → less a b ≡ false
  pub less-sub : (a b : Number) → less b a ≡ false → less b (sub a one) ≡ false

module _ (d : Double) where
  open d use {Number, less, at_most, one, sub, add, mul, div, from_ms, thousand}

  -- `TokenBucketRateLimiter`
  pub record Limiter : Type 0 where
    pub rate : d.Number
    pub burst : d.Number
    pub tokens : d.Number
    pub last_refill_ms : d.Number

  -- `std::min` and `std::max`
  abbrev pub min_of : d.Number → d.Number → d.Number
  min_of a b = if less b a then b else a

  abbrev pub max_of : d.Number → d.Number → d.Number
  max_of a b = if less a b then b else a

  unfoldable pub new_limiter : d.Number → d.Number → ℕ → Limiter
  new_limiter rate burst now = record {
    rate = rate;
    burst = max_of one burst;
    tokens = max_of one burst;
    last_refill_ms = from_ms now;
  }

  unfoldable pub refill : Limiter → ℕ → Limiter
  refill l now =
      let now_ms = from_ms now in
      let delta_ms = sub now_ms l.last_refill_ms in
      if at_most delta_ms d.zero || at_most l.rate d.zero
      then record l { last_refill_ms = now_ms }
      else record l {
        tokens = min_of l.burst (add l.tokens (mul delta_ms (div l.rate thousand)));
        last_refill_ms = now_ms;
      }

  -- `allow()`, which takes one token.
  unfoldable pub allow : Limiter → ℕ → Limiter × Bool
  allow l now =
      let r = refill l now in
      if less r.tokens one then (r, false) else (record r { tokens = sub r.tokens one }, true)

  unfoldable pub reset : Limiter → d.Number → d.Number → ℕ → Limiter
  reset l rate burst now = record l {
    rate = rate;
    burst = max_of one burst;
    tokens = max_of one burst;
    last_refill_ms = from_ms now;
  }

  pub record OverloadProtectService : Type 0 where
    pub max_connections : ℕ
    pub max_qps : ℕ
    pub current_connections : ℕ
    pub message_count : ℕ
    pub last_reset_time : ℕ
    pub rate_limit_enabled : Bool
    pub ip_connect_rate_per_second : d.Number
    pub user_send_rate_per_second : d.Number
    pub login_limiter : Option Limiter
    pub p2p_limiter : Option Limiter
    pub broadcast_limiter : Option Limiter
    pub ip_limiters : Dict String Limiter
    pub user_limiters : Dict String Limiter

  unfoldable pub new : ℕ → ℕ → ℕ → OverloadProtectService
  new max_connections max_qps now = record {
    max_connections = max_connections;
    max_qps = max_qps;
    current_connections = 0;
    message_count = 0;
    last_reset_time = now;
    rate_limit_enabled = false;
    ip_connect_rate_per_second = d.zero;
    user_send_rate_per_second = d.zero;
    login_limiter = none;
    p2p_limiter = none;
    broadcast_limiter = none;
    ip_limiters = [];
    user_limiters = [];
  }

  -- `getOrCreateLimiter` and `allow` of what it returns.
  unfoldable pub allow_key :
      Dict String Limiter → String → d.Number → ℕ → Dict String Limiter × Bool
  allow_key pool key rate now =
      let limiter : Limiter = elim (find key pool) [
        | none ↦ new_limiter rate rate now
        | some l ↦ l
      ] in
      let r = allow limiter now in (put key r.0 pool, r.1)

  unfoldable pub has_room : OverloadProtectService → Bool
  has_room s = ltb s.current_connections s.max_connections

  unfoldable pub can_accept_connection :
      OverloadProtectService → String → ℕ → OverloadProtectService × Bool
  can_accept_connection s ip now =
      let r = allow_key s.ip_limiters ip s.ip_connect_rate_per_second now in
      if not (has_room s)
      then (s, false)
      else if not s.rate_limit_enabled
          || at_most s.ip_connect_rate_per_second d.zero
          || str_eq ip ""
      then (s, true)
      else (record s { ip_limiters = r.0 }, r.1)

  unfoldable pub on_connection_accepted : OverloadProtectService → OverloadProtectService
  on_connection_accepted s = record s { current_connections = (s.current_connections + 1) % u64 }

  unfoldable pub on_connection_closed : OverloadProtectService → OverloadProtectService
  on_connection_closed s = record s {
    current_connections = (s.current_connections + (u64 - 1)) % u64;
  }

  unfoldable pub can_process_message : OverloadProtectService → ℕ → OverloadProtectService × Bool
  can_process_message s now =
      let t : OverloadProtectService =
        if leb (s.last_reset_time + 1000) now
        then record s { message_count = 0; last_reset_time = now }
        else s in
      (t, ltb t.message_count t.max_qps)

  -- `allow` of a command's limiter, if there is one.
  unfoldable pub allow_command : Option Limiter → ℕ → Option Limiter × Bool
  allow_command none now = (none, true)
  allow_command (some l) now = let r = allow l now in (some r.0, r.1)

  unfoldable pub can_process_command :
      OverloadProtectService → ℕ → ℕ → OverloadProtectService × Bool
  can_process_command s command now =
      let q = can_process_message s now in
      let t = q.0 in
      let l = allow_command t.login_limiter now in
      let p = allow_command t.p2p_limiter now in
      let b = allow_command t.broadcast_limiter now in
      if not q.1
      then (t, false)
      else if not t.rate_limit_enabled
      then (t, true)
      else if command == code login_req
      then (record t { login_limiter = l.0 }, l.1)
      else if command == code p2p_msg_req
      then (record t { p2p_limiter = p.0 }, p.1)
      else if command == code broadcast_msg_req
      then (record t { broadcast_limiter = b.0 }, b.1)
      else (t, true)

  unfoldable pub can_send_message :
      OverloadProtectService → String → ℕ → OverloadProtectService × Bool
  can_send_message s user now =
      let r = allow_key s.user_limiters user s.user_send_rate_per_second now in
      if not s.rate_limit_enabled || at_most s.user_send_rate_per_second d.zero || str_eq user ""
      then (s, true)
      else (record s { user_limiters = r.0 }, r.1)

  unfoldable pub on_message_processed : OverloadProtectService → OverloadProtectService
  on_message_processed s = record s { message_count = (s.message_count + 1) % u64 }

  unfoldable pub configure_ip_connect_rate :
      OverloadProtectService → d.Number → OverloadProtectService
  configure_ip_connect_rate s rate = record s {
    ip_connect_rate_per_second = rate;
    ip_limiters = [];
  }

  unfoldable pub optional_limiter : d.Number → ℕ → Option Limiter
  optional_limiter qps now = if less d.zero qps then some (new_limiter qps qps now) else none

  unfoldable pub configure_command_rates :
      OverloadProtectService
      → (login_qps p2p_qps broadcast_qps : d.Number) → ℕ
      → OverloadProtectService
  configure_command_rates s login_qps p2p_qps broadcast_qps now = record s {
    login_limiter = optional_limiter login_qps now;
    p2p_limiter = optional_limiter p2p_qps now;
    broadcast_limiter = optional_limiter broadcast_qps now;
  }

  unfoldable pub configure_user_send_rate :
      OverloadProtectService → d.Number → OverloadProtectService
  configure_user_send_rate s rate = record s {
    user_send_rate_per_second = rate;
    user_limiters = [];
  }

  unfoldable pub set_max_connections : OverloadProtectService → ℕ → OverloadProtectService
  set_max_connections s limit = record s { max_connections = limit }

  unfoldable pub set_max_qps : OverloadProtectService → ℕ → OverloadProtectService
  set_max_qps s limit = record s { max_qps = limit }

  unfoldable pub set_rate_limit_enabled : OverloadProtectService → Bool → OverloadProtectService
  set_rate_limit_enabled s enabled = record s { rate_limit_enabled = enabled }

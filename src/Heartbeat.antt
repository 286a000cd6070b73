-- ===== src/Heartbeat.antt =====
-- src/service/heartbeatService.cpp: which connections are alive, and whose they are. The key
-- `std::to_string(conn->fd())` is the descriptor; each call reads the clock once, which is its
-- argument `now`, in milliseconds; `now - t > limit` is written without the subtraction. What goes to
-- Redis, directly or through the thread pool, and to the kick callback is a list of effects in the
-- order of the calls; the timer thread is a call of `report_node_alive` and `check_heartbeat`.
pub mod Check
pub mod Kicks
pub mod Alive
mod Tests
use hc_tcp_im_server.Common.{
  ℕ, ◌+◌, ◌*◌, Bool, true, false, not, ◌&&◌, ◌||◌, Option, none, some, List, [], ◌∷◌, ◌++◌, String,
  ltb, ◌==◌, str_eq, if◌then◌else◌, length,
}
use hc_tcp_im_server.Common.Dict.{Key, Dict, find, put, erase, update, number_key}

-- `HeartbeatService::ConnectionHealthState`
pub data HealthState : Type 0 where
  fresh auth_pending active idle back_pressured closing : HealthState

-- `ConnectionHealth`
pub record ConnectionHealth : Type 0 where
  pub state : HealthState
  pub created_at_ms : ℕ
  pub last_heartbeat_at_ms : ℕ
  pub last_blocked_at_ms : ℕ
  pub authenticated : Bool

abbrev pub default_health : ConnectionHealth
default_health = record {
  state = fresh;
  created_at_ms = 0;
  last_heartbeat_at_ms = 0;
  last_blocked_at_ms = 0;
  authenticated = false;
}

-- A `shared_ptr<TcpConnection>`: the descriptor, and which object it is.
pub record Conn : Type 0 where
  pub fd : ℕ
  pub object : ℕ

pub record HeartbeatService : Type 0 where
  pub timeout_seconds : ℕ
  pub auth_timeout_seconds : ℕ
  pub idle_timeout_seconds : ℕ
  pub slow_consumer_kick_seconds : ℕ
  pub use_redis : Bool
  pub last_heartbeat_time : Dict ℕ ℕ
  pub connections : Dict ℕ Conn
  pub conn_to_user : Dict ℕ String
  pub connection_health : Dict ℕ ConnectionHealth

pub data Reason : Type 0 where
  auth_timeout slow_consumer heartbeat_timeout idle_timeout : Reason

pub data Effect : Type 0 where
  online offline refresh : String → Effect
  node_alive : ℕ → Effect
  timeout_counted : Effect
  kick : Conn → Reason → Effect

unfoldable pub new : ℕ → HeartbeatService
new timeout_seconds = record {
  timeout_seconds = timeout_seconds;
  auth_timeout_seconds = 10;
  idle_timeout_seconds = 300;
  slow_consumer_kick_seconds = 30;
  use_redis = false;
  last_heartbeat_time = [];
  connections = [];
  conn_to_user = [];
  connection_health = [];
}

-- `updateOnlineStatusAsync`
unfoldable pub update_online_status : HeartbeatService → String → Bool → List Effect
update_online_status s user is_online =
    if not s.use_redis then [] else if is_online then online user ∷ [] else offline user ∷ []

-- `refreshOnlineStatusAsync`
unfoldable pub refresh_online_status : HeartbeatService → String → List Effect
refresh_online_status s user = if not s.use_redis then [] else refresh user ∷ []

unfoldable pub report_node_alive : HeartbeatService → List Effect
report_node_alive s = if not s.use_redis then [] else node_alive (length s.connections) ∷ []

unfoldable pub beat : ℕ → ConnectionHealth → ConnectionHealth
beat now h =
    let h' : ConnectionHealth = record h { last_heartbeat_at_ms = now } in
    let is_blocked : Bool = elim h.state [ back_pressured ↦ true | _ ↦ false ] in
    if h.authenticated && not is_blocked then record h' { state = active } else h'

unfoldable pub on_heartbeat : HeartbeatService → Conn → ℕ → HeartbeatService × List Effect
on_heartbeat s c now = (
  record s {
    last_heartbeat_time = put c.fd now s.last_heartbeat_time;
    connection_health = update c.fd (beat now) s.connection_health;
  },
  elim (find c.fd s.conn_to_user) [
    | none ↦ []
    | some user ↦ if str_eq user "" then [] else refresh_online_status s user
  ],
)

-- The entries of a descriptor in the four maps.
unfoldable pub forget : HeartbeatService → ℕ → HeartbeatService
forget s fd = record s {
  last_heartbeat_time = erase fd s.last_heartbeat_time;
  connections = erase fd s.connections;
  conn_to_user = erase fd s.conn_to_user;
  connection_health = erase fd s.connection_health;
}

unfoldable pub on_connection : HeartbeatService → Conn → Bool → ℕ → HeartbeatService × List Effect
on_connection s c connected now =
    if connected
    then (
      record s {
        connections = put c.fd c s.connections;
        last_heartbeat_time = put c.fd now s.last_heartbeat_time;
        connection_health =
            put c.fd
              (record default_health {
                state = auth_pending;
                created_at_ms = now;
                last_heartbeat_at_ms = now;
              })
              s.connection_health;
      },
      [],
    )
    else (
      forget s c.fd,
      elim (find c.fd s.conn_to_user) [ none ↦ [] | some user ↦ update_online_status s user false ],
    )

unfoldable pub register_user_id : HeartbeatService → ℕ → String → HeartbeatService × List Effect
register_user_id s fd user =
    (record s { conn_to_user = put fd user s.conn_to_user }, update_online_status s user true)

unfoldable pub authenticate : ℕ → ConnectionHealth → ConnectionHealth
authenticate now h = record h {
  created_at_ms = if h.created_at_ms == 0 then now else h.created_at_ms;
  last_heartbeat_at_ms = now;
  authenticated = true;
  state = active;
}

unfoldable pub on_authenticated :
    HeartbeatService → Conn → String → ℕ → HeartbeatService × List Effect
on_authenticated s c user now =
    let h : ConnectionHealth = elim (find c.fd s.connection_health) [
      | none ↦ default_health
      | some h ↦ h
    ] in
    let s' : HeartbeatService = record s {
      conn_to_user = put c.fd user s.conn_to_user;
      connection_health = put c.fd (authenticate now h) s.connection_health;
    } in
    (s', update_online_status s user true ++ report_node_alive s')

unfoldable pub block : ℕ → ConnectionHealth → ConnectionHealth
block now h = record h { state = back_pressured; last_blocked_at_ms = now }

unfoldable pub on_write_blocked : HeartbeatService → Conn → ℕ → HeartbeatService
on_write_blocked s c now = record s {
  connection_health = update c.fd (block now) s.connection_health;
}

unfoldable pub recover : ConnectionHealth → ConnectionHealth
recover h = record h {
  state = if h.authenticated then active else auth_pending;
  last_blocked_at_ms = 0;
}

unfoldable pub on_back_pressure_recovered : HeartbeatService → Conn → HeartbeatService
on_back_pressure_recovered s c = record s {
  connection_health = update c.fd recover s.connection_health;
}

unfoldable pub close : ConnectionHealth → ConnectionHealth
close h = record h { authenticated = false; state = closing }

unfoldable pub unregister_user_id : HeartbeatService → ℕ → HeartbeatService × List Effect
unregister_user_id s fd = elim (find fd s.conn_to_user) [
  | none ↦ (s, [])
  | some user ↦ (
    record s {
      conn_to_user = erase fd s.conn_to_user;
      connection_health = update fd close s.connection_health;
    },
    update_online_status s user false,
  )
]

unfoldable pub set_connection_governance : HeartbeatService → ℕ → ℕ → ℕ → HeartbeatService
set_connection_governance s auth quiet slow = record s {
  auth_timeout_seconds = auth;
  idle_timeout_seconds = quiet;
  slow_consumer_kick_seconds = slow;
}

-- The loop of `isUserOnline`; with Redis, the answer is that of the key there.
unfoldable pub has_user : String → Dict ℕ String → Bool
has_user user [] = false
has_user user ((fd, u) ∷ d) = str_eq u user || has_user user d

unfoldable pub is_user_online : HeartbeatService → (String → Bool) → String → Bool
is_user_online s exists_in_redis user =
    if s.use_redis then exists_in_redis user else has_user user s.conn_to_user

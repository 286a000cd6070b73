-- ===== src/Heartbeat/Check.antt =====
-- `checkHeartbeat` of src/service/heartbeatService.cpp.
use hc_tcp_im_server.Common.{
  ℕ, ◌+◌, ◌*◌, Bool, true, false, not, ◌&&◌, Option, none, some, List, [], ◌∷◌, ◌++◌, String, ltb,
  str_eq, if◌then◌else◌,
}
use hc_tcp_im_server.Common.Dict.{Dict, find, number_key}
use hc_tcp_im_server.Heartbeat.{
  HeartbeatService, ConnectionHealth, Conn, Reason, auth_timeout, slow_consumer, heartbeat_timeout,
  idle_timeout, Effect, kick, timeout_counted, back_pressured, forget, update_online_status,
}

-- Why a connection is kicked, if it is.
unfoldable pub reason : HeartbeatService → ℕ → ConnectionHealth → Option Reason
reason s now h =
    let is_blocked : Bool = elim h.state [ back_pressured ↦ true | _ ↦ false ] in
    if not h.authenticated && ltb (h.created_at_ms + s.auth_timeout_seconds * 1000) now
    then some auth_timeout
    else if is_blocked
        && ltb 0 h.last_blocked_at_ms
        && ltb (h.last_blocked_at_ms + s.slow_consumer_kick_seconds * 1000) now
    then some slow_consumer
    else if ltb (h.last_heartbeat_at_ms + s.timeout_seconds * 1000) now
    then some heartbeat_timeout
    else if h.authenticated
        && ltb (s.timeout_seconds * 1000) (s.idle_timeout_seconds * 1000)
        && ltb (h.last_heartbeat_at_ms + s.idle_timeout_seconds * 1000) now
    then some idle_timeout
    else none

-- An entry of `toKick`; a connection without a user has the empty text.
pub record Kick : Type 0 where
  pub fd : ℕ
  pub conn : Conn
  pub user : String
  pub reason : Reason

-- The loop over the connections.
unfoldable pub to_kick : HeartbeatService → ℕ → Dict ℕ Conn → List Kick
to_kick s now [] = []
to_kick s now ((fd, c) ∷ cs) =
    let rest = to_kick s now cs in
    elim (find fd s.connection_health) [
      | none ↦ rest
      | some h ↦ elim (reason s now h) [
        | none ↦ rest
        | some why ↦
            record {
              fd = fd;
              conn = c;
              user = elim (find fd s.conn_to_user) [ none ↦ "" | some u ↦ u ];
              reason = why;
            }
            ∷ rest
      ]
    ]

-- The loop that erases.
unfoldable pub forget_all : HeartbeatService → List Kick → HeartbeatService
forget_all s [] = s
forget_all s (k ∷ ks) = forget_all (forget s k.fd) ks

-- What the last loop does for one connection.
unfoldable pub kick_effects : HeartbeatService → Kick → List Effect
kick_effects s k =
    (elim k.reason [ heartbeat_timeout ↦ timeout_counted ∷ [] | _ ↦ [] ])
    ++ (if str_eq k.user "" then [] else update_online_status s k.user false)
    ++ (kick k.conn k.reason ∷ [])

unfoldable pub all_effects : HeartbeatService → List Kick → List Effect
all_effects s [] = []
all_effects s (k ∷ ks) = kick_effects s k ++ all_effects s ks

unfoldable pub check_heartbeat : HeartbeatService → ℕ → HeartbeatService × List Effect
check_heartbeat s now = let ks = to_kick s now s.connections in (forget_all s ks, all_effects s ks)

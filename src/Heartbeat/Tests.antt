-- ===== src/Heartbeat/Tests.antt =====
-- Concrete runs of the service of src/service/heartbeatService.cpp.
use hc_tcp_im_server.Common.{
  ◌≡◌, ◌≢◌, refl, Bool, true, false, none, some, [], ◌∷◌, arith, if◌then◌else◌,
}
use hc_tcp_im_server.Common.Dict.{find, put, has, number_key}
use hc_tcp_im_server.Heartbeat.{
  HeartbeatService, ConnectionHealth, Conn, active, back_pressured, default_health, new,
  on_connection, on_authenticated, authenticate,
}
use hc_tcp_im_server.Heartbeat.Check.{reason, check_heartbeat}
use hc_tcp_im_server.Heartbeat.Kicks.{due, due_conns, kicked, check_heartbeat_lem}
use hc_tcp_im_server.Heartbeat.Alive.{
  heard, opened, authenticated, check, closed, run, IsHeld, heartbeat_keeps,
}

abbrev ann : Conn
ann = record { fd = 7; object = 1 }

abbrev bob : Conn
bob = record { fd = 8; object = 2 }

-- Two connections, of which one has a user.
abbrev two : HeartbeatService
two = run (new 30) (opened ann 1000 ∷ opened bob 1500 ∷ authenticated ann "ann" 2000 ∷ [])

-- Bob has not logged in within ten seconds.
check_heartbeat_lem_example :
    let r = check_heartbeat two 12000 in
    let gone = elim (find 8 two.connections) as (λ o. Bool) [
      | none ↦ false
      | some c ↦ due two 12000 8
    ] in
    (find 8 r.0.connections ≡ (if gone then none else find 8 two.connections))
    × (find 8 r.0.connection_health ≡ (if gone then none else find 8 two.connection_health))
    × (find 8 r.0.conn_to_user ≡ (if gone then none else find 8 two.conn_to_user))
    × (find 8 r.0.last_heartbeat_time ≡ (if gone then none else find 8 two.last_heartbeat_time))
    × (kicked r.1 ≡ due_conns two 12000 two.connections)
check_heartbeat_lem_example = check_heartbeat_lem two 12000 8

-- He is kicked, and Ann is not.
bob_kicked : due_conns two 12000 two.connections ≡ bob ∷ []
unfolding run new on_connection on_authenticated authenticate put find due due_conns reason
bob_kicked = refl

two_has_ann : has 7 two.connections ≡ true
unfolding run new on_connection on_authenticated put find
two_has_ann = refl

abbrev ann_health : ConnectionHealth
ann_health = record default_health {
  created_at_ms = 1000;
  last_heartbeat_at_ms = 2000;
  authenticated = true;
  state = active;
}

ann_found : find 7 two.connections ≡ some ann
unfolding run new on_connection on_authenticated put find
ann_found = refl

ann_healthy : find 7 two.connection_health ≡ some ann_health
unfolding run new on_connection on_authenticated authenticate put find
ann_healthy = refl

same_timeout : two.timeout_seconds ≡ 30
unfolding run new on_connection on_authenticated
same_timeout = refl

ann_free : ann_health.state ≢ back_pressured
ann_free e = ground (arith, e)

heartbeat_keeps_example :
    IsHeld
      (run two (heard ann 20000 ∷ check 30000 ∷ closed bob 31000 ∷ check 50000 ∷ []))
      7
      ann
      (record ann_health { state = active; last_heartbeat_at_ms = 20000 })
heartbeat_keeps_example =
    heartbeat_keeps two ann ann_health 20000 (check 30000 ∷ closed bob 31000 ∷ check 50000 ∷ [])
      ann_found ann_healthy refl ann_free
      (omega (arith, same_timeout), ((λ e. omega (arith, e)), (omega (arith, same_timeout), tt)))

-- ===== src/Server/Connections.antt =====
-- The connection callback and the kick callback of src/server_full.cpp, with the callbacks that the
-- first one sets on a connection.
use hc_tcp_im_server.Common.{
  ℕ, true, false, not, none, some, List, [], ◌∷◌, ◌++◌, String, map, if◌then◌else◌,
}
use hc_tcp_im_server.Heartbeat.{
  Conn, kick, on_connection, on_write_blocked, on_back_pressure_recovered, report_node_alive,
}
use hc_tcp_im_server.Heartbeat
use hc_tcp_im_server.Heartbeat.Check.{check_heartbeat}
use hc_tcp_im_server.Auth.{get_user_context}
use hc_tcp_im_server.Messaging.{unregister_connection}
use hc_tcp_im_server.Routing.{unbind_user_route}
use hc_tcp_im_server.Overload.{can_accept_connection, on_connection_accepted, on_connection_closed}
use hc_tcp_im_server.Server.{
  Env, Server, logout_task, Effect, health, force_close, submit_business_task,
}

module _ (e : Env) where
  -- The callback on a connection that is up; `ip` is the peer's address.
  unfoldable pub connection_up : Server e → Conn → String → ℕ → Server e × List Effect
  connection_up s c ip now =
      let q = can_accept_connection e.double s.overload ip now in
      let h = on_connection s.heartbeat c true now in
      if not q.1 then (record s { overload = q.0 }, force_close c ∷ []) else (
        record s { overload = on_connection_accepted e.double q.0; heartbeat = h.0 },
        map health h.1,
      )

  -- What the callback does for the user of a connection that is down.
  unfoldable pub leave : Server e → Conn → Server e
  leave s c = elim (get_user_context s.auth c.fd) [
    | none ↦ s
    | some u ↦ record s {
      messaging = unregister_connection s.messaging u.user_id;
      routing =
          if s.cluster_enabled
          then (unbind_user_route e.redis s.routing u.user_id).0
          else s.routing;
    }
  ]

  -- The callback on a connection that is down.
  unfoldable pub connection_down : Server e → Conn → ℕ → Server e × List Effect
  connection_down s c now =
      let h = on_connection s.heartbeat c false now in
      let t : Server e = record s {
        overload = on_connection_closed e.double s.overload;
        heartbeat = h.0;
      } in
      ((submit_business_task e (leave t c) (logout_task c) now).0, map health h.1)

  -- The high-water-mark and the write-complete callback.
  unfoldable pub write_blocked : Server e → Conn → ℕ → Server e
  write_blocked s c now = record s { heartbeat = on_write_blocked s.heartbeat c now }

  unfoldable pub write_completed : Server e → Conn → Server e
  write_completed s c = record s { heartbeat = on_back_pressure_recovered s.heartbeat c }

  -- The kick callback closes the connection.
  unfoldable pub carried_out : Heartbeat.Effect → Effect
  carried_out (kick c why) = force_close c
  carried_out x = health x

  -- A turn of the heartbeat thread.
  unfoldable pub heartbeat_turn : Server e → ℕ → Server e × List Effect
  heartbeat_turn s now =
      let r = check_heartbeat s.heartbeat now in
      (
        record s { heartbeat = r.0 },
        map health (report_node_alive s.heartbeat) ++ map carried_out r.1,
      )

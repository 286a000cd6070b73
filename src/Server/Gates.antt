-- ===== src/Server/Gates.antt =====
-- The circuit breaker and the connection counter as src/server_full.cpp uses them.
use hc_tcp_im_server.Common.{ℕ, ◌+◌, ◌<◌, ◌≡◌, refl, ap, ◌∙◌, true, false, String, arith, u64}
use hc_tcp_im_server.Breaker.{allow_request, record_success, opened, closed}
use hc_tcp_im_server.Heartbeat.{Conn}
use hc_tcp_im_server.Overload.{
  OverloadProtectService, has_room, can_accept_connection, on_connection_closed,
}
use hc_tcp_im_server.Server.{Env, Server, Task, submit, is_exempt, submit_business_task}
use hc_tcp_im_server.Server.Connections.{connection_up, connection_down, leave}

module _ (e : Env) where
  -- The breaker is open and still waits, and the queue of the pool has no limit. A login or an acknowledgement is
  -- submitted all the same, and it closes the breaker; any other task is refused, and the breaker stays
  -- open.
  pub open_breaker_lem :
      (s : Server e) (t : Task) (now : ℕ)
      → s.breaker.enabled ≡ true
      → s.breaker.state ≡ opened
      → now < s.breaker.opened_at_ms + s.breaker.half_open_after_ms
      → s.pool.max_queue_size ≡ 0
      → let q = submit_business_task e s t now in
        (is_exempt t ≡ true → (q.1 ≡ true) × (q.0.breaker.state ≡ closed))
        × (is_exempt t ≡ false → (q.1 ≡ false) × (q.0.breaker.state ≡ opened))
  unfolding submit_business_task allow_request record_success submit
  open_breaker_lem s t now on o wait room = ground (arith, on, o, wait, room)

  accept-count :
      (s : OverloadProtectService e.double) (ip : String) (now : ℕ)
      → let t = (can_accept_connection e.double s ip now).0 in
        (t.current_connections ≡ s.current_connections) × (t.max_connections ≡ s.max_connections)
  unfolding can_accept_connection
  accept-count s ip now = ground arith

  leave-overload : (s : Server e) (c : Conn) → (leave e s c).overload ≡ s.overload
  unfolding leave
  leave-overload s c = ground arith

  submit-overload :
      (s : Server e) (t : Task) (now : ℕ) → (submit_business_task e s t now).0.overload ≡ s.overload
  unfolding submit_business_task
  submit-overload s t now = ground arith

  down-overload :
      (s : Server e) (c : Conn) (now : ℕ)
      → (connection_down e s c now).0.overload ≡ on_connection_closed e.double s.overload
  unfolding connection_down
  down-overload s c now = submit-overload _ _ now ∙ leave-overload _ c

  up-overload :
      (s : Server e) (c : Conn) (ip : String) (now : ℕ)
      → (can_accept_connection e.double s.overload ip now).1 ≡ false
      → (connection_up e s c ip now).0.overload
        ≡ (can_accept_connection e.double s.overload ip now).0
  unfolding connection_up
  up-overload s c ip now refused = rw (connection_up, refused) refl

  closed-count :
      (s : OverloadProtectService e.double)
      → s.current_connections < u64
      → s.max_connections < u64
      → let t = on_connection_closed e.double s in
        (0 < s.current_connections → t.current_connections + 1 ≡ s.current_connections)
        × (s.current_connections ≡ 0 → has_room e.double t ≡ false)
  unfolding on_connection_closed has_room
  closed-count s small low = ground (arith, small, low)

  -- The overload check rejects a connection, which is then closed. The counter, which did not count it,
  -- is one less than before; if it was zero, there is no room for any connection from then on.
  pub rejected_closed :
      (s : Server e) (c : Conn) (ip : String) (now later : ℕ)
      → (can_accept_connection e.double s.overload ip now).1 ≡ false
      → s.overload.current_connections < u64
      → s.overload.max_connections < u64
      → let t = (connection_down e (connection_up e s c ip now).0 c later).0.overload in
        (0 < s.overload.current_connections
          → t.current_connections + 1 ≡ s.overload.current_connections)
        × (s.overload.current_connections ≡ 0 → has_room e.double t ≡ false)
  rejected_closed s c ip now later refused small low =
      let q = (can_accept_connection e.double s.overload ip now).0 in
      let (same, limit) = accept-count s.overload ip now in
      let now_is =
        down-overload (connection_up e s c ip now).0 c later
        ∙ ap (on_connection_closed e.double) (up-overload s c ip now refused) in
      let (one_less, full) = closed-count q (rw same small) (rw limit low) in
      rw now_is (λ h. one_less (rw same h) ∙ same, λ h. full (same ∙ h))

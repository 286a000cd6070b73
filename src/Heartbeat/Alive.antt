-- ===== src/Heartbeat/Alive.antt =====
-- What holds of the service of src/service/heartbeatService.cpp over any order of calls.
use mathlib.Core.Path.{subst}
use hc_tcp_im_server.Common.{
  ℕ, ◌+◌, ◌*◌, ◌≤◌, ◌≡◌, ◌≢◌, refl, sym, ap, ◌∙◌, true, false, Option, none, some, List, [], ◌∷◌,
  String, arith, All,
}
use hc_tcp_im_server.Common.Dict.{
  find, update, number_key, same_refl, has, has-put, has-erase, has-update, find-put, find-erase,
  find-update,
}
use hc_tcp_im_server.Heartbeat.{
  HeartbeatService, ConnectionHealth, Conn, active, auth_pending, default_health, new, on_heartbeat,
  on_connection, register_user_id, on_authenticated, on_write_blocked, on_back_pressure_recovered,
  unregister_user_id, beat, forget, close, back_pressured,
}
use hc_tcp_im_server.Heartbeat.Check.{check_heartbeat, reason}
use hc_tcp_im_server.Heartbeat.Kicks.{due, check_heartbeat_lem, check-timeout}

-- A call of the server or of the timer, with the clock.
pub data Call : Type 0 where
  heard opened closed blocked recovered : Conn → ℕ → Call
  registered : ℕ → String → Call
  authenticated : Conn → String → ℕ → Call
  unregistered : ℕ → Call
  check : ℕ → Call

abbrev pub after : HeartbeatService → Call → HeartbeatService
after s (heard c now) = (on_heartbeat s c now).0
after s (opened c now) = (on_connection s c true now).0
after s (closed c now) = (on_connection s c false now).0
after s (blocked c now) = on_write_blocked s c now
after s (recovered c now) = on_back_pressure_recovered s c
after s (registered fd user) = (register_user_id s fd user).0
after s (authenticated c user now) = (on_authenticated s c user now).0
after s (unregistered fd) = (unregister_user_id s fd).0
after s (check now) = (check_heartbeat s now).0

unfoldable pub run : HeartbeatService → List Call → HeartbeatService
run s [] = s
run s (c ∷ cs) = run (after s c) cs

-- Every connection in the map has a record of its health and a time of its last heartbeat.
abbrev pub IsTracked : HeartbeatService → Type 0
IsTracked s =
    (fd : ℕ)
    → has fd s.connections ≡ true
    → (has fd s.connection_health ≡ true) × (has fd s.last_heartbeat_time ≡ true)

module _ (s : HeartbeatService) (i : ℕ) where
  unregister-connections : (unregister_user_id s i).0.connections ≡ s.connections
  unfolding unregister_user_id
  unregister-connections = ground arith

  unregister-times : (unregister_user_id s i).0.last_heartbeat_time ≡ s.last_heartbeat_time
  unfolding unregister_user_id
  unregister-times = ground arith

  unregister-timeout : (unregister_user_id s i).0.timeout_seconds ≡ s.timeout_seconds
  unfolding unregister_user_id
  unregister-timeout = ground arith

  unregister-find :
      (fd : ℕ)
      → find fd (unregister_user_id s i).0.connection_health
        ≡ (elim (find i s.conn_to_user) as (λ o. Option ConnectionHealth) [
          | none ↦ find fd s.connection_health
          | some u ↦ find fd (update i close s.connection_health)
        ])
  unfolding unregister_user_id
  unregister-find fd = ground arith

  unregister-has :
      (fd : ℕ) → has fd (unregister_user_id s i).0.connection_health ≡ has fd s.connection_health
  unregister-has fd = ground (arith, unregister-find fd, has-update i fd close s.connection_health)

after-IsTracked : (s : HeartbeatService) (c : Call) → IsTracked s → IsTracked (after s c)
unfolding on_heartbeat on_connection register_user_id on_authenticated on_write_blocked
    on_back_pressure_recovered unregister_user_id forget
after-IsTracked s (heard c now) t fd h =
    let (a, b) = t fd h in
    (
      has-update c.fd fd (beat now) s.connection_health ∙ a,
      ground (arith, has-put c.fd fd now s.last_heartbeat_time, b),
    )
after-IsTracked s (opened c now) t fd h = ground (
  arith,
  t fd,
  h,
  has-put c.fd fd c s.connections,
  has-put c.fd fd now s.last_heartbeat_time,
  has-put c.fd fd
      (record default_health {
        state = auth_pending;
        created_at_ms = now;
        last_heartbeat_at_ms = now;
      })
      s.connection_health,
)
after-IsTracked s (closed c now) t fd h = ground (
  arith,
  t fd,
  h,
  has-erase c.fd fd s.connections,
  has-erase c.fd fd s.last_heartbeat_time,
  has-erase c.fd fd s.connection_health,
)
after-IsTracked s (blocked c now) t fd h =
    let (a, b) = t fd h in (has-update c.fd fd _ s.connection_health ∙ a, b)
after-IsTracked s (recovered c now) t fd h =
    let (a, b) = t fd h in (has-update c.fd fd _ s.connection_health ∙ a, b)
after-IsTracked s (registered i user) t fd h = t fd h
after-IsTracked s (authenticated c user now) t fd h =
    let (a, b) = t fd h in (has-put c.fd fd _ s.connection_health ∙ (ground (arith, a)), b)
after-IsTracked s (unregistered i) t fd h =
    let (a, b) = t fd (rw (unregister-connections s i) at h) in
    (unregister-has s i fd ∙ a, rw (unregister-times s i) b)
after-IsTracked s (check now) t fd h =
    let (conn, health, user, time, out) = check_heartbeat_lem s now fd in
    ground (arith, t fd, h, conn, health, time)

run-IsTracked : (cs : List Call) (s : HeartbeatService) → IsTracked s → IsTracked (run s cs)
unfolding run
run-IsTracked [] s t = t
run-IsTracked (c ∷ cs) s t = run-IsTracked cs (after s c) (after-IsTracked s c t)

new-IsTracked : (timeout : ℕ) → IsTracked (new timeout)
unfolding new find
new-IsTracked timeout fd h = ground (arith, h)

-- From a new service, after any calls: every connection that the service holds has a health record
-- and a heartbeat time, so that `checkHeartbeat` skips none of them.
pub run_tracked :
    (timeout : ℕ) (cs : List Call) (fd : ℕ)
    → let s = run (new timeout) cs in
      has fd s.connections ≡ true
      → (has fd s.connection_health ≡ true) × (has fd s.last_heartbeat_time ≡ true)
run_tracked timeout cs fd h = run-IsTracked cs (new timeout) (new-IsTracked timeout) fd h

-- A call about another descriptor, or a check no later than a time.
abbrev pub IsElsewhere : ℕ → ℕ → Call → Type 0
IsElsewhere fd limit (heard c now) = c.fd ≢ fd
IsElsewhere fd limit (opened c now) = c.fd ≢ fd
IsElsewhere fd limit (closed c now) = c.fd ≢ fd
IsElsewhere fd limit (blocked c now) = c.fd ≢ fd
IsElsewhere fd limit (recovered c now) = c.fd ≢ fd
IsElsewhere fd limit (registered i user) = Unit
IsElsewhere fd limit (authenticated c user now) = c.fd ≢ fd
IsElsewhere fd limit (unregistered i) = i ≢ fd
IsElsewhere fd limit (check now) = now ≤ limit

-- The service holds this connection with this health.
abbrev pub IsHeld : HeartbeatService → ℕ → Conn → ConnectionHealth → Type 0
IsHeld s fd c h = (find fd s.connections ≡ some c) × (find fd s.connection_health ≡ some h)

not_due :
    (s : HeartbeatService) (now fd : ℕ) (h : ConnectionHealth)
    → h.authenticated ≡ true
    → h.state ≡ active
    → now ≤ h.last_heartbeat_at_ms + s.timeout_seconds * 1000
    → find fd s.connection_health ≡ some h
    → due s now fd ≡ false
unfolding due reason
not_due s now fd h a q o y = ground arith

after-IsHeld :
    (s : HeartbeatService) (k : Call) (fd : ℕ) (c : Conn) (h : ConnectionHealth)
    → h.authenticated ≡ true
    → h.state ≡ active
    → IsElsewhere fd (h.last_heartbeat_at_ms + s.timeout_seconds * 1000) k
    → IsHeld s fd c h
    → IsHeld (after s k) fd c h × ((after s k).timeout_seconds ≡ s.timeout_seconds)
unfolding on_heartbeat on_connection register_user_id on_authenticated on_write_blocked
    on_back_pressure_recovered unregister_user_id forget
after-IsHeld s (heard d now) fd c h a q o (x, y) =
    ((x, find-update d.fd fd _ s.connection_health ∙ (ground (arith, x, y, o))), refl)
after-IsHeld s (opened d now) fd c h a q o (x, y) = (
  (
    find-put d.fd fd d s.connections ∙ (ground (arith, x, y, o)),
    find-put d.fd fd _ s.connection_health ∙ (ground (arith, x, y, o)),
  ),
  refl,
)
after-IsHeld s (closed d now) fd c h a q o (x, y) = (
  (
    find-erase d.fd fd s.connections ∙ (ground (arith, x, y, o)),
    find-erase d.fd fd s.connection_health ∙ (ground (arith, x, y, o)),
  ),
  refl,
)
after-IsHeld s (blocked d now) fd c h a q o (x, y) =
    ((x, find-update d.fd fd _ s.connection_health ∙ (ground (arith, x, y, o))), refl)
after-IsHeld s (recovered d now) fd c h a q o (x, y) =
    ((x, find-update d.fd fd _ s.connection_health ∙ (ground (arith, x, y, o))), refl)
after-IsHeld s (registered i user) fd c h a q o v = (v, refl)
after-IsHeld s (authenticated d user now) fd c h a q o (x, y) =
    ((x, find-put d.fd fd _ s.connection_health ∙ (ground (arith, x, y, o))), refl)
after-IsHeld s (unregistered i) fd c h a q o (x, y) = (
  (
    rw (unregister-connections s i) x,
    unregister-find s i fd ∙ (ground (arith, y, o, find-update i fd close s.connection_health)),
  ),
  unregister-timeout s i,
)
after-IsHeld s (check now) fd c h a q o (x, y) =
    let (conn, health, user, time, out) = check_heartbeat_lem s now fd in
    let kept : due s now fd ≡ false = not_due s now fd h a q o y in
    ((conn ∙ rw (x, kept) refl, health ∙ rw (x, kept) y), check-timeout s now)

run-IsHeld :
    (ks : List Call) (s : HeartbeatService) (fd : ℕ) (c : Conn) (h : ConnectionHealth)
    → h.authenticated ≡ true
    → h.state ≡ active
    → All (IsElsewhere fd (h.last_heartbeat_at_ms + s.timeout_seconds * 1000)) ks
    → IsHeld s fd c h
    → IsHeld (run s ks) fd c h
unfolding run
run-IsHeld [] s fd c h a q o v = v
run-IsHeld (k ∷ ks) s fd c h a q o v =
    let (v', e) = after-IsHeld s k fd c h a q o.0 v in
    run-IsHeld ks (after s k) fd c h a q
      (subst (λ n. All (IsElsewhere fd (h.last_heartbeat_at_ms + n * 1000)) ks) (sym e) o.1) v'

beat-active :
    (h : ConnectionHealth) (now : ℕ)
    → h.authenticated ≡ true
    → h.state ≢ back_pressured
    → beat now h ≡ record h { state = active; last_heartbeat_at_ms = now }
unfolding beat
beat-active h now a q = ground arith

-- A connection that is authenticated, and not back-pressured, sends a heartbeat. Then whatever
-- happens to other connections, it stays in the service, and its health is that of the heartbeat, in
-- every check up to the timeout after the heartbeat.
pub heartbeat_keeps :
    (s : HeartbeatService) (c : Conn) (h : ConnectionHealth) (now : ℕ) (ks : List Call)
    → find c.fd s.connections ≡ some c
    → find c.fd s.connection_health ≡ some h
    → h.authenticated ≡ true
    → h.state ≢ back_pressured
    → All (IsElsewhere c.fd (now + s.timeout_seconds * 1000)) ks
    → IsHeld
        (run s (heard c now ∷ ks))
        c.fd
        c
        (record h { state = active; last_heartbeat_at_ms = now })
unfolding run on_heartbeat
heartbeat_keeps s c h now ks x y a q o =
    let h' : ConnectionHealth = record h { state = active; last_heartbeat_at_ms = now } in
    run-IsHeld ks (after s (heard c now)) c.fd c h' a refl o (
      x,
      find-update c.fd c.fd (beat now) s.connection_health
          ∙ rw (same_refl c.fd, y) (ap {B = Option ConnectionHealth} some (beat-active h now a q)),
    )

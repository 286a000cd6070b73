-- ===== src/Heartbeat/Kicks.antt =====
-- Which connections `checkHeartbeat` of src/service/heartbeatService.cpp kicks, and which it keeps.
use hc_tcp_im_server.Common.{
  ℕ, ◌+◌, ◌*◌, ◌<◌, ◌≡◌, ◌≢◌, ◌↔◌, ◌⊎◌, refl, ap, ◌∙◌, inl, inr, Bool, true, false, Option, none,
  some, List, [], ◌∷◌, ◌++◌, arith, ◌==◌, ==_iff, if◌then◌else◌, Option-cases,
}
use hc_tcp_im_server.Common.Dict.{Dict, find, number_key, find-erase}
use hc_tcp_im_server.Heartbeat.{
  HeartbeatService, ConnectionHealth, Conn, idle_timeout, back_pressured, forget, Effect, kick,
  update_online_status,
}
use hc_tcp_im_server.Heartbeat.Check.{
  reason, Kick, to_kick, forget_all, kick_effects, all_effects, check_heartbeat,
}

-- What the program means by a connection that is due.
abbrev pub IsDue : HeartbeatService → ℕ → ConnectionHealth → Type 0
IsDue s now h =
    ((h.authenticated ≡ false) × (h.created_at_ms + s.auth_timeout_seconds * 1000 < now))
    ⊎ ((h.state ≡ back_pressured)
        × (0 < h.last_blocked_at_ms)
        × (h.last_blocked_at_ms + s.slow_consumer_kick_seconds * 1000 < now))
    ⊎ (h.last_heartbeat_at_ms + s.timeout_seconds * 1000 < now)

-- The code has a reason for exactly the connections that are due, and it is never an idle timeout.
pub reason-IsDue :
    (s : HeartbeatService) (now : ℕ) (h : ConnectionHealth)
    → ((reason s now h ≢ none) ↔ IsDue s now h) × (reason s now h ≢ some idle_timeout)
unfolding reason
reason-IsDue s now h = ground arith

-- The entry of a descriptor in the list of kicks.
pub is_kicked : ℕ → List Kick → Bool
is_kicked fd [] = false
is_kicked fd (k ∷ ks) = let rest = is_kicked fd ks in if k.fd == fd then true else rest

forget_all-find :
    (ks : List Kick) (s : HeartbeatService) (fd : ℕ)
    → let t = forget_all s ks in
      let gone = is_kicked fd ks in
      (find fd t.connections ≡ (if gone then none else find fd s.connections))
      × (find fd t.connection_health ≡ (if gone then none else find fd s.connection_health))
      × (find fd t.conn_to_user ≡ (if gone then none else find fd s.conn_to_user))
      × (find fd t.last_heartbeat_time ≡ (if gone then none else find fd s.last_heartbeat_time))
unfolding forget_all forget is_kicked
forget_all-find [] s fd = (refl, refl, refl, refl)
forget_all-find (k ∷ ks) s fd =
    let (a, b, c, d) = forget_all-find ks (forget s k.fd) fd in
    (
      ground (arith, a, find-erase k.fd fd s.connections),
      ground (arith, b, find-erase k.fd fd s.connection_health),
      ground (arith, c, find-erase k.fd fd s.conn_to_user),
      ground (arith, d, find-erase k.fd fd s.last_heartbeat_time),
    )

forget_all-timeout :
    (ks : List Kick) (s : HeartbeatService) → (forget_all s ks).timeout_seconds ≡ s.timeout_seconds
unfolding forget_all forget
forget_all-timeout [] s = refl
forget_all-timeout (k ∷ ks) s = forget_all-timeout ks (forget s k.fd)

-- A check changes no limit.
pub check-timeout :
    (s : HeartbeatService) (now : ℕ) → (check_heartbeat s now).0.timeout_seconds ≡ s.timeout_seconds
unfolding check_heartbeat
check-timeout s now = forget_all-timeout (to_kick s now s.connections) s

abbrev is_some {ℓ} : {A : Type ℓ} → Option A → Bool
is_some none = false
is_some (some a) = true

-- Whether a descriptor has a connection that is due.
unfoldable pub due : HeartbeatService → ℕ → ℕ → Bool
due s now fd = elim (find fd s.connection_health) [
  | none ↦ false
  | some h ↦ is_some (reason s now h)
]

to_kick-due :
    (s : HeartbeatService) (now fd : ℕ) (cs : Dict ℕ Conn)
    → is_kicked fd (to_kick s now cs) ≡ (elim (find fd cs) [ none ↦ false | some c ↦ due s now fd ])
unfolding to_kick is_kicked due find
to_kick-due s now fd [] = refl
to_kick-due s now fd ((i, c) ∷ cs) =
    let rest = to_kick-due s now fd cs in
    elim (Option-cases (find i s.connection_health)) [
      | inl e ↦ ground (arith, rest, e, ==_iff i fd)
      | inr (h, e) ↦ ground (arith, rest, e, ==_iff i fd)
    ]

-- The connections that are handed to the kick callback.
abbrev pub kicked : List Effect → List Conn
kicked [] = []
kicked (kick c why ∷ es) = c ∷ kicked es
kicked (e ∷ es) = kicked es

unfoldable pub due_conns : HeartbeatService → ℕ → Dict ℕ Conn → List Conn
due_conns s now [] = []
due_conns s now ((fd, c) ∷ cs) =
    let rest = due_conns s now cs in if due s now fd then c ∷ rest else rest

kicked-kick_effects :
    (s : HeartbeatService) (k : Kick) (es : List Effect)
    → kicked (kick_effects s k ++ es) ≡ k.conn ∷ kicked es
unfolding kick_effects update_online_status
kicked-kick_effects s k es = ground arith

abbrev conns : List Kick → List Conn
conns [] = []
conns (k ∷ ks) = k.conn ∷ conns ks

kicked-all : (s : HeartbeatService) (ks : List Kick) → kicked (all_effects s ks) ≡ conns ks
unfolding all_effects
kicked-all s [] = refl
kicked-all s (k ∷ ks) =
    kicked-kick_effects s k (all_effects s ks)
    ∙ ap (λ (q : List Conn). k.conn ∷ q) (kicked-all s ks)

conns-to_kick :
    (s : HeartbeatService) (now : ℕ) (cs : Dict ℕ Conn)
    → conns (to_kick s now cs) ≡ due_conns s now cs
unfolding to_kick due_conns due
conns-to_kick s now [] = refl
conns-to_kick s now ((fd, c) ∷ cs) = ground (arith, conns-to_kick s now cs)

-- A check at `now`: the descriptors of a connection that is due are gone from all four maps, every
-- other entry is as before, and exactly the connections that are due go to the kick callback, each
-- once and in the order of the map.
pub check_heartbeat_lem :
    (s : HeartbeatService) (now fd : ℕ)
    → let r = check_heartbeat s now in
      let gone = elim (find fd s.connections) as (λ o. Bool) [
        | none ↦ false
        | some c ↦ due s now fd
      ] in
      (find fd r.0.connections ≡ (if gone then none else find fd s.connections))
      × (find fd r.0.connection_health ≡ (if gone then none else find fd s.connection_health))
      × (find fd r.0.conn_to_user ≡ (if gone then none else find fd s.conn_to_user))
      × (find fd r.0.last_heartbeat_time ≡ (if gone then none else find fd s.last_heartbeat_time))
      × (kicked r.1 ≡ due_conns s now s.connections)
unfolding check_heartbeat
check_heartbeat_lem s now fd =
    let e = to_kick-due s now fd s.connections in
    let (a, b, c, d) = forget_all-find (to_kick s now s.connections) s fd in
    (
      rw (← e) a,
      rw (← e) b,
      rw (← e) c,
      rw (← e) d,
      kicked-all s (to_kick s now s.connections) ∙ conns-to_kick s now s.connections,
    )

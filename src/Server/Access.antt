-- ===== src/Server/Access.antt =====
-- What a packet may cause in src/server_full.cpp, by who has sent it.
use hc_tcp_im_server.Common.{
  ℕ, ◌≡◌, ◌⊎◌, inl, inr, refl, Bool, true, false, not, Option, none, some, List, String, ◌==◌, ◌||◌,
  arith, if◌then◌else◌, Option-cases,
}
use hc_tcp_im_server.Heartbeat.{Conn}
use hc_tcp_im_server.Auth.{get_user_context}
use hc_tcp_im_server.Auth.Sessions.{user_at}
use hc_tcp_im_server.Overload.{can_process_command, can_send_message}
use hc_tcp_im_server.Server.{
  Env, Server, Task, login_task, p2p_task, ack_task, pull_task, broadcast_task, logout_task, Effect,
  submit, submit_business_task,
}
use hc_tcp_im_server.Server.Payload.{
  decode_login_req, decode_p2p_req, decode_ack_req, decode_pull_req, decode_broadcast_req,
}
use hc_tcp_im_server.Server.Packets.{
  submit_or, on_login, on_heartbeat_req, on_p2p, on_ack, on_pull, on_broadcast, on_kick,
  rate_limited, on_command, on_packet,
}
use hc_tcp_im_server.Server.Answers.{pushed}

-- The user that a task acts for.
abbrev pub acts_for : Task → Option String
acts_for (login_task c rid m) = none
acts_for (p2p_task c rid m user) = some user
acts_for (ack_task c rid m user) = some user
acts_for (pull_task c rid m user) = some user
acts_for (broadcast_task user m) = some user
acts_for (logout_task c) = none

module _ (e : Env) where
  -- The task is what a packet with this command, request id and payload asks for: it is made of the
  -- message that the payload decodes to.
  abbrev pub IsAsked : Conn → ℕ → ℕ → List ℕ → Task → Type 0
  IsAsked c n rid payload (login_task d i m) =
      (n ≡ 1) × (d ≡ c) × (i ≡ rid) × (decode_login_req e payload ≡ some m)
  IsAsked c n rid payload (p2p_task d i m user) =
      (n ≡ 5) × (d ≡ c) × (i ≡ rid) × (decode_p2p_req e payload ≡ some m)
  IsAsked c n rid payload (ack_task d i m user) =
      (n ≡ 12) × (d ≡ c) × (i ≡ rid) × (decode_ack_req e payload ≡ some m)
  IsAsked c n rid payload (pull_task d i m user) =
      (n ≡ 14) × (d ≡ c) × (i ≡ rid) × (decode_pull_req e payload ≡ some m)
  IsAsked c n rid payload (broadcast_task user m) =
      (n ≡ 8) × (decode_broadcast_req e payload ≡ some m)
  IsAsked c n rid payload (logout_task d) = ⊥

  -- The task is a login, or acts for the user of the connection.
  abbrev pub IsGranted : Server e → Conn → ℕ → Task → Type 0
  IsGranted s c n t =
      (n ≡ 1) ⊎ ((user : String) × (acts_for t ≡ some user) × (user_at s.auth c.fd ≡ some user))

  -- Nothing changes at once but the limits, the breaker and the heartbeats, and a task that is queued
  -- is asked for and granted.
  pub record IsGuarded (s : Server e) (c : Conn) (n rid : ℕ) (payload : List ℕ)
      (r : Server e × List Effect) : Type 0 where
    pub messages : r.0.messaging ≡ s.messaging
    pub logins : r.0.auth ≡ s.auth
    pub routes : r.0.routing ≡ s.routing
    pub queued :
        (r.0.pool ≡ s.pool)
        ⊎ ((t : Task) × IsAsked c n rid payload t
            × IsGranted s c n t
            × (r.0.pool ≡ pushed e s.pool t))

  kept-IsGuarded :
      (s : Server e) (c : Conn) (n rid : ℕ) (payload : List ℕ) (r : Server e × List Effect)
      → r.0.messaging ≡ s.messaging
      → r.0.auth ≡ s.auth
      → r.0.routing ≡ s.routing
      → r.0.pool ≡ s.pool
      → IsGuarded s c n rid payload r
  kept-IsGuarded s c n rid payload r f g h k = record {
    messages = f;
    logins = g;
    routes = h;
    queued = inl k;
  }

  if-IsGuarded :
      (s : Server e) (c : Conn) (n rid : ℕ) (payload : List ℕ) (b : Bool)
      (x y : Server e × List Effect)
      → (b ≡ true → IsGuarded s c n rid payload x)
      → IsGuarded s c n rid payload y
      → IsGuarded s c n rid payload (if b then x else y)
  if-IsGuarded s c n rid payload true x y g h = g refl
  if-IsGuarded s c n rid payload false x y g h = h

  module _ (s : Server e) (c : Conn) (n rid : ℕ) (payload : List ℕ) where
    submitted :
        (t : Task) (now : ℕ)
        → let q = (submit_business_task e s t now).0 in
          (q.messaging ≡ s.messaging)
          × (q.auth ≡ s.auth)
          × (q.routing ≡ s.routing)
          × ((q.pool ≡ s.pool) ⊎ (q.pool ≡ pushed e s.pool t))
    unfolding submit_business_task submit
    submitted t now = ground arith

    submit_or-IsGuarded :
        (t : Task) (now : ℕ) (busy : List Effect)
        → IsAsked c n rid payload t
        → IsGranted s c n t
        → IsGuarded s c n rid payload (submit_or e s t now busy)
    unfolding submit_or
    submit_or-IsGuarded t now busy asks g =
        let (a, b, d, p) = submitted t now in
        record {
          messages = a;
          logins = b;
          routes = d;
          queued = elim p [ inl same ↦ inl same | inr more ↦ inr (t, asks, g, more) ];
        }

    user_at-context :
        (u : _) → get_user_context s.auth c.fd ≡ some u → user_at s.auth c.fd ≡ some u.user_id
    user_at-context u k = rw (user_at, k) refl

  -- The limits may differ before the call.
  rebase :
      {s : Server e} {c : Conn} {n rid : ℕ} {payload : List ℕ} {limits : _}
      {r : Server e × List Effect}
      → IsGuarded (record s { overload = limits }) c n rid payload r
      → IsGuarded s c n rid payload r
  rebase g = record {
    messages = g.messages;
    logins = g.logins;
    routes = g.routes;
    queued = g.queued;
  }

  module _ (s : Server e) (c : Conn) (n rid : ℕ) (payload : List ℕ) (now : ℕ) where
    same : (es : List Effect) → IsGuarded s c n rid payload (s, es)
    same es = kept-IsGuarded s c n rid payload (s, es) refl refl refl refl

    login-IsGuarded : n ≡ 1 → IsGuarded s c n rid payload (on_login e s c rid payload now)
    unfolding on_login
    login-IsGuarded at = elim (Option-cases (decode_login_req e payload)) [
      | inl d ↦ rw (on_login, d) (same _)
      | inr (m, d) ↦
          rw (on_login, d)
            (submit_or-IsGuarded s c n rid payload _ now _ (at, refl, refl, d) (inl at))
    ]

    ack-IsGuarded : n ≡ 12 → IsGuarded s c n rid payload (on_ack e s c rid payload now)
    unfolding on_ack
    ack-IsGuarded at = elim (Option-cases (decode_ack_req e payload)) [
      | inl d ↦ rw (on_ack, d) (same _)
      | inr (m, d) ↦ elim (Option-cases (get_user_context s.auth c.fd)) [
        | inl k ↦ rw (on_ack, d, k) (same _)
        | inr (u, k) ↦
            rw (on_ack, d, k)
              (submit_or-IsGuarded s c n rid payload _ now _ (at, refl, refl, d)
                (inr (u.user_id, refl, user_at-context s c n rid payload u k)))
      ]
    ]

    pull-IsGuarded : n ≡ 14 → IsGuarded s c n rid payload (on_pull e s c rid payload now)
    unfolding on_pull
    pull-IsGuarded at = elim (Option-cases (decode_pull_req e payload)) [
      | inl d ↦ rw (on_pull, d) (same _)
      | inr (m, d) ↦ elim (Option-cases (get_user_context s.auth c.fd)) [
        | inl k ↦ rw (on_pull, d, k) (same _)
        | inr (u, k) ↦
            rw (on_pull, d, k)
              (submit_or-IsGuarded s c n rid payload _ now _ (at, refl, refl, d)
                (inr (u.user_id, refl, user_at-context s c n rid payload u k)))
      ]
    ]

    broadcast-IsGuarded : n ≡ 8 → IsGuarded s c n rid payload (on_broadcast e s c payload now)
    unfolding on_broadcast
    broadcast-IsGuarded at = elim (Option-cases (decode_broadcast_req e payload)) [
      | inl d ↦ rw (on_broadcast, d) (same _)
      | inr (m, d) ↦ elim (Option-cases (get_user_context s.auth c.fd)) [
        | inl k ↦ rw (on_broadcast, d, k) (same _)
        | inr (u, k) ↦
            rw (on_broadcast, d, k)
              (submit_or-IsGuarded s c n rid payload _ now _ (at, d)
                (inr (u.user_id, refl, user_at-context s c n rid payload u k)))
      ]
    ]

    p2p-IsGuarded : n ≡ 5 → IsGuarded s c n rid payload (on_p2p e s c rid payload now)
    unfolding on_p2p
    p2p-IsGuarded at = elim (Option-cases (decode_p2p_req e payload)) [
      | inl d ↦ rw (on_p2p, d) (same _)
      | inr (m, d) ↦ elim (Option-cases (get_user_context s.auth c.fd)) [
        | inl k ↦ rw (on_p2p, d, k) (same _)
        | inr (u, k) ↦
            let t : Server e = record s {
              overload = (can_send_message e.double s.overload u.user_id now).0;
            } in
            rw (on_p2p, d, k)
              (if-IsGuarded s c n rid payload
                (not (can_send_message e.double s.overload u.user_id now).1) (t, _) _
                (λ no. kept-IsGuarded s c n rid payload _ refl refl refl refl)
                (rebase (
                  submit_or-IsGuarded t c n rid payload _ now _ (at, refl, refl, d)
                    (inr (u.user_id, refl, user_at-context s c n rid payload u k)))))
      ]
    ]

    command-IsGuarded : IsGuarded s c n rid payload (on_command e s c n rid payload now)
    unfolding on_command on_heartbeat_req
    command-IsGuarded =
        let choose = if-IsGuarded s c n rid payload in
        choose (n == 1) _ _ (λ f. login-IsGuarded (ground (arith, f)))
          (choose (n == 3) (on_heartbeat_req e s c rid now) _
            (λ f. kept-IsGuarded s c n rid payload _ refl refl refl refl)
            (choose (n == 5) _ _ (λ f. p2p-IsGuarded (ground (arith, f)))
              (choose (n == 12) _ _ (λ f. ack-IsGuarded (ground (arith, f)))
                (choose (n == 14) _ _ (λ f. pull-IsGuarded (ground (arith, f)))
                  (choose (n == 8) _ _ (λ f. broadcast-IsGuarded (ground (arith, f)))
                    (choose (n == 10) (s, on_kick e c rid payload) _ (λ f. same _) (same _)))))))

  -- Any packet from any connection: at once, it changes neither the messages, nor who is logged in,
  -- nor the routes. If it queues a task, it is one task, which its command names and whose message is
  -- the one that its payload decodes to. Unless the command is a login, the task acts for the user who
  -- is logged in on this connection, whatever the payload names.
  pub on_packet-IsGuarded :
      (s : Server e) (c : Conn) (n rid : ℕ) (payload : List ℕ) (now : ℕ)
      → IsGuarded s c n rid payload (on_packet e s c n rid payload now)
  unfolding on_packet
  on_packet-IsGuarded s c n rid payload now =
      let choose = if-IsGuarded s c n rid payload in
      let t : Server e = record s {
        overload = (can_process_command e.double s.overload n now).0;
      } in
      choose (n == 1 || n == 5 || n == 8) _ _
        (λ f.
          choose (can_process_command e.double s.overload n now).1 _ (t, rate_limited e c n rid)
            (λ g. rebase (command-IsGuarded t c n rid payload now))
            (kept-IsGuarded s c n rid payload _ refl refl refl refl))
        (command-IsGuarded s c n rid payload now)

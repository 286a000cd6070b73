-- ===== src/Server/Answers.antt =====
-- Every request of src/server_full.cpp is answered once: the packet callback.
use hc_tcp_im_server.Common.{
  ℕ, ◌≡◌, ◌⊎◌, inl, inr, refl, sym, true, false, Option, none, some, List, [], ◌∷◌, ◌++◌, ◌==◌,
  ◌||◌, ==_iff, arith, Option-cases, Bool-cases,
}
use hc_tcp_im_server.Protocol.{
  Command, login_resp, heartbeat_resp, p2p_msg_resp, message_ack_resp, pull_offline_resp,
}
use hc_tcp_im_server.Heartbeat.{Conn, on_heartbeat}
use hc_tcp_im_server.Auth.{get_user_context}
use hc_tcp_im_server.Overload.{can_process_command, can_send_message}
use hc_tcp_im_server.Server.{Env, Server, Task, Effect, ThreadPool, submit, submit_business_task}
use hc_tcp_im_server.Server.Payload.{
  decode_login_req, decode_p2p_req, decode_ack_req, decode_pull_req,
}
use hc_tcp_im_server.Server.Packets.{
  submit_or, on_login, on_heartbeat_req, on_p2p, on_ack, on_pull, rate_limited, on_command,
  on_packet,
}
use mathlib.Core.Path.{subst}
use hc_tcp_im_server.Server.Replies.{
  response_of, owed, IsAnswer, reply-IsAnswer, healths-IsAnswer, login-IsAnswer, p2p-IsAnswer,
  ack-IsAnswer, pull-IsAnswer, kick-IsAnswer,
}

module _ (e : Env) where
  -- The request is answered at once, or a task owes the response.
  abbrev pub IsHandled : Server e → Conn → Command → ℕ → Server e × List Effect → Type 0
  IsHandled s c command rid r =
      ((r.0.pool ≡ s.pool) × IsAnswer e c command rid r.1)
      ⊎ ((r.1 ≡ [])
          × ((t : Task) × (owed t ≡ some (c, command, rid))
              × (r.0.pool ≡ record s.pool { task_queue = s.pool.task_queue ++ (t ∷ []) })))

  abbrev pub pushed : ThreadPool → Task → ThreadPool
  pushed p t = record p { task_queue = p.task_queue ++ (t ∷ []) }

  pool-submit :
      (s : Server e) (t : Task) (now : ℕ)
      → s.pool.running ≡ true
      → let q = submit_business_task e s t now in
        ((q.1 ≡ false) × (q.0.pool ≡ s.pool)) ⊎ ((q.1 ≡ true) × (q.0.pool ≡ pushed s.pool t))
  unfolding submit_business_task submit
  pool-submit s t now on = ground (arith, on)

  submit_or-IsHandled :
      (s : Server e) (c : Conn) (command : Command) (rid : ℕ) (t : Task) (now : ℕ)
      (busy : List Effect)
      → s.pool.running ≡ true
      → owed t ≡ some (c, command, rid)
      → IsAnswer e c command rid busy
      → IsHandled s c command rid (submit_or e s t now busy)
  unfolding submit_or
  submit_or-IsHandled s c command rid t now busy on o b = elim (pool-submit s t now on) [
    | inl (n, same) ↦ inl (same, rw (submit_or, n) b)
    | inr (n, more) ↦ inr (rw (submit_or, n) refl, (t, o, more))
  ]

  module _ (s : Server e) (c : Conn) (rid : ℕ) (payload : List ℕ) (now : ℕ) where
    heartbeat-IsHandled : IsHandled s c heartbeat_resp rid (on_heartbeat_req e s c rid now)
    unfolding on_heartbeat_req
    heartbeat-IsHandled = inl (
      refl,
      healths-IsAnswer e (on_heartbeat s.heartbeat c now).1 (reply-IsAnswer e [] _ _ _ _ _ refl),
    )

    module _ (on : s.pool.running ≡ true) where
      login-IsHandled : IsHandled s c login_resp rid (on_login e s c rid payload now)
      unfolding on_login
      login-IsHandled = elim (Option-cases (decode_login_req e payload)) [
        | inl n ↦ rw (on_login, n) (inl (refl, login-IsAnswer e c rid _ _))
        | inr (m, n) ↦
            rw (on_login, n)
              (submit_or-IsHandled s c login_resp rid _ now _ on refl (login-IsAnswer e c rid _ _))
      ]

      ack-IsHandled : IsHandled s c message_ack_resp rid (on_ack e s c rid payload now)
      unfolding on_ack
      ack-IsHandled = elim (Option-cases (decode_ack_req e payload)) [
        | inl n ↦ rw (on_ack, n) (inl (refl, ack-IsAnswer e c rid _ _ _))
        | inr (m, n) ↦ elim (Option-cases (get_user_context s.auth c.fd)) [
          | inl k ↦ rw (on_ack, n, k) (inl (refl, ack-IsAnswer e c rid _ _ _))
          | inr (u, k) ↦
              rw (on_ack, n, k)
                (submit_or-IsHandled s c message_ack_resp rid _ now _ on refl
                  (ack-IsAnswer e c rid _ _ _))
        ]
      ]

      pull-IsHandled : IsHandled s c pull_offline_resp rid (on_pull e s c rid payload now)
      unfolding on_pull
      pull-IsHandled = elim (Option-cases (decode_pull_req e payload)) [
        | inl n ↦ rw (on_pull, n) (inl (refl, pull-IsAnswer e c rid _ _))
        | inr (m, n) ↦ elim (Option-cases (get_user_context s.auth c.fd)) [
          | inl k ↦ rw (on_pull, n, k) (inl (refl, pull-IsAnswer e c rid _ _))
          | inr (u, k) ↦
              rw (on_pull, n, k)
                (submit_or-IsHandled s c pull_offline_resp rid _ now _ on refl
                  (pull-IsAnswer e c rid _ _))
        ]
      ]

      p2p-IsHandled : IsHandled s c p2p_msg_resp rid (on_p2p e s c rid payload now)
      unfolding on_p2p
      p2p-IsHandled = elim (Option-cases (decode_p2p_req e payload)) [
        | inl n ↦ rw (on_p2p, n) (inl (refl, p2p-IsAnswer e c rid _ _))
        | inr (m, n) ↦ elim (Option-cases (get_user_context s.auth c.fd)) [
          | inl k ↦ rw (on_p2p, n, k) (inl (refl, p2p-IsAnswer e c rid _ _))
          | inr (u, k) ↦
              let q = can_send_message e.double s.overload u.user_id now in
              elim (Bool-cases q.1) [
                | inl b ↦
                    rw (on_p2p, n, k, b)
                      (submit_or-IsHandled (record s { overload = q.0 }) c p2p_msg_resp rid _ now _
                        on refl (p2p-IsAnswer e c rid _ _))
                | inr b ↦ rw (on_p2p, n, k, b) (inl (refl, p2p-IsAnswer e c rid _ _))
              ]
        ]
      ]

      -- A command with a response is handled.
      abbrev Handles : Option Command → Server e × List Effect → Type 0
      Handles none r = Unit
      Handles (some response) r = IsHandled s c response rid r

      command-Handles : (n : ℕ) → Handles (response_of n) (on_command e s c n rid payload now)
      unfolding on_command
      command-Handles n =
          let at =
            λ (m : ℕ) (b : (n == m) ≡ true)
                (h : Handles (response_of m) (on_command e s c m rid payload now)).
              subst (λ k. Handles (response_of k) (on_command e s c k rid payload now))
                (sym ((==_iff n m).0 b)) h in
          elim (Bool-cases (n == 1)) [
            | inl b ↦ at 1 b login-IsHandled
            | inr b1 ↦ elim (Bool-cases (n == 3)) [
              | inl b ↦ at 3 b heartbeat-IsHandled
              | inr b3 ↦ elim (Bool-cases (n == 5)) [
                | inl b ↦ at 5 b p2p-IsHandled
                | inr b5 ↦ elim (Bool-cases (n == 12)) [
                  | inl b ↦ at 12 b ack-IsHandled
                  | inr b12 ↦ elim (Bool-cases (n == 14)) [
                    | inl b ↦ at 14 b pull-IsHandled
                    | inr b14 ↦ elim (Bool-cases (n == 8)) [
                      | inl b ↦ at 8 b tt
                      | inr b8 ↦ elim (Bool-cases (n == 10)) [
                        | inl b ↦ at 10 b (inl (refl, kick-IsAnswer e c rid payload))
                        | inr b10 ↦ rw (b1, b3, b5, b12, b14, b8, b10) tt
                      ]
                    ]
                  ]
                ]
              ]
            ]
          ]

      limited-Handles :
          (n : ℕ)
          → (n == 1 || n == 5 || n == 8) ≡ true
          → Handles (response_of n) (s, rate_limited e c n rid)
      unfolding rate_limited
      limited-Handles n l =
          let at =
            λ (m : ℕ) (b : (n == m) ≡ true)
                (h : Handles (response_of m) (s, rate_limited e c m rid)).
              subst (λ k. Handles (response_of k) (s, rate_limited e c k rid))
                (sym ((==_iff n m).0 b)) h in
          elim (Bool-cases (n == 1)) [
            | inl b ↦ at 1 b (inl (refl, login-IsAnswer e c rid _ _))
            | inr b1 ↦ elim (Bool-cases (n == 5)) [
              | inl b ↦ at 5 b (inl (refl, p2p-IsAnswer e c rid _ _))
              | inr b5 ↦ at 8 (ground (arith, l, b1, b5)) tt
            ]
          ]

  packet-Handles :
      (s : Server e) (c : Conn) (rid : ℕ) (payload : List ℕ) (now : ℕ) (on : s.pool.running ≡ true)
      (n : ℕ)
      → Handles s c rid payload now on (response_of n) (on_packet e s c n rid payload now)
  unfolding on_packet
  packet-Handles s c rid payload now on n =
      let q = can_process_command e.double s.overload n now in
      let t : Server e = record s { overload = q.0 } in
      elim (Bool-cases (n == 1 || n == 5 || n == 8)) [
        | inl l ↦ elim (Bool-cases q.1) [
          | inl y ↦ rw (on_packet, l, y) (command-Handles t c rid payload now on n)
          | inr y ↦ rw (on_packet, l, y) (limited-Handles t c rid payload now on n l)
        ]
        | inr l ↦ rw (on_packet, l) (command-Handles s c rid payload now on n)
      ]

  -- The pool runs, and a request comes that has a response: either it is answered at once, with one
  -- packet of the response's command and the same request id to the same connection, or nothing is
  -- sent and exactly one task is queued, which owes this response.
  pub on_packet-IsHandled :
      (s : Server e) (c : Conn) (rid : ℕ) (payload : List ℕ) (now n : ℕ) (response : Command)
      → s.pool.running ≡ true
      → response_of n ≡ some response
      → IsHandled s c response rid (on_packet e s c n rid payload now)
  on_packet-IsHandled s c rid payload now n response on h =
      subst (λ o. Handles s c rid payload now on o (on_packet e s c n rid payload now)) h
        (packet-Handles s c rid payload now on n)

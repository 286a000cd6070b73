-- ===== src/Server/Drain.antt =====
-- A request of src/server_full.cpp is answered when the workers have come to its task.
use hc_tcp_im_server.Common.{
  ℕ, zero, suc, ◌≡◌, ◌⊎◌, inl, inr, refl, ap, Bool, true, some, List, [], ◌∷◌, ◌++◌, String, arith,
  length,
}
use hc_tcp_im_server.Protocol.{Command}
use hc_tcp_im_server.Protocol.Messages.{LoginReq, P2pMsgReq}
use hc_tcp_im_server.Heartbeat.{Conn}
use hc_tcp_im_server.Server.{
  Env, Server, Task, login_task, p2p_task, ack_task, pull_task, broadcast_task, logout_task,
}
use hc_tcp_im_server.Server.Packets.{on_packet}
use hc_tcp_im_server.Server.Tasks.{
  run_login, run_send, run_p2p, run_ack, logged_in, run_task, run_next,
}
use hc_tcp_im_server.Server.Replies.{response_of, owed, IsAnswer}
use hc_tcp_im_server.Server.Answers.{on_packet-IsHandled}
use hc_tcp_im_server.Server.Debts.{run_task-IsAnswer}

module _ (e : Env) (connected : Conn → Bool) where
  -- The server after this many turns of the workers.
  unfoldable pub run_turns : Server e → ℕ → String → ℕ → Server e
  run_turns s zero id now = s
  run_turns s (suc n) id now = run_turns (run_next e connected s id now).0 n id now

  login-pool :
      (s : Server e) (c : Conn) (rid : ℕ) (m : LoginReq) (id : String) (now : ℕ)
      → (run_login e connected s c rid m id now).0.pool ≡ s.pool
  unfolding run_login logged_in
  login-pool s c rid m id now = ground arith

  p2p-pool :
      (s : Server e) (c : Conn) (rid : ℕ) (m : P2pMsgReq) (user : String) (now : ℕ)
      → (run_p2p e connected s c rid m user now).0.pool ≡ s.pool
  unfolding run_p2p run_send
  p2p-pool s c rid m user now = ground arith

  task-pool :
      (s : Server e) (t : Task) (id : String) (now : ℕ)
      → (run_task e connected s t id now).0.pool ≡ s.pool
  unfolding run_task run_ack
  task-pool s (login_task c rid m) id now = login-pool s c rid m id now
  task-pool s (p2p_task c rid m user) id now = p2p-pool s c rid m user now
  task-pool s (ack_task c rid m user) id now = refl
  task-pool s (pull_task c rid m user) id now = refl
  task-pool s (broadcast_task user m) id now = refl
  task-pool s (logout_task c) id now = refl

  -- A turn takes the first task off the queue and runs it.
  next-queue :
      (s : Server e) (t : Task) (ts : List Task) (id : String) (now : ℕ)
      → s.pool.task_queue ≡ t ∷ ts
      → (run_next e connected s id now).0.pool.task_queue ≡ ts
  unfolding run_next
  next-queue s t ts id now h = rw (run_next, h) (ap (λ p. p.task_queue) (task-pool _ t id now))

  next-IsAnswer :
      (s : Server e) (t : Task) (ts : List Task) (id : String) (now : ℕ) (c : Conn)
      (command : Command) (rid : ℕ)
      → s.pool.task_queue ≡ t ∷ ts
      → owed t ≡ some (c, command, rid)
      → IsAnswer e c command rid (run_next e connected s id now).1
  unfolding run_next
  next-IsAnswer s t ts id now c command rid h o =
      rw (run_next, h) (run_task-IsAnswer e connected _ t id now c command rid o)

  turns-IsAnswer :
      (ts : List Task) (s : Server e) (t : Task) (id : String) (now : ℕ) (c : Conn)
      (command : Command) (rid : ℕ)
      → s.pool.task_queue ≡ ts ++ (t ∷ [])
      → owed t ≡ some (c, command, rid)
      → IsAnswer e c command rid (run_next e connected (run_turns s (length ts) id now) id now).1
  unfolding run_turns
  turns-IsAnswer [] s t id now c command rid h o = next-IsAnswer s t [] id now c command rid h o
  turns-IsAnswer (u ∷ ts) s t id now c command rid h o =
      turns-IsAnswer ts (run_next e connected s id now).0 t id now c command rid
        (next-queue s u (ts ++ (t ∷ [])) id now h) o

  -- The pool runs, and a request comes that has a response, while tasks wait in the queue. The request
  -- is answered at once, or when the workers have run those tasks and one more, by that last one: with
  -- one packet of the response's command and the same request id to the same connection.
  pub request-IsAnswer :
      (s : Server e) (c : Conn) (rid : ℕ) (payload : List ℕ) (now n : ℕ) (response : Command)
      (id : String) (later : ℕ)
      → s.pool.running ≡ true
      → response_of n ≡ some response
      → let r = on_packet e s c n rid payload now in
        IsAnswer e c response rid r.1
        ⊎ IsAnswer e c response rid
            (run_next e connected (run_turns r.0 (length s.pool.task_queue) id later) id later).1
  request-IsAnswer s c rid payload now n response id later on h =
      elim (on_packet-IsHandled e s c rid payload now n response on h) [
        | inl (same, a) ↦ inl a
        | inr (quiet, q) ↦ inr (
            turns-IsAnswer s.pool.task_queue _ q.0 id later c response rid
              (ap (λ p. p.task_queue) q.2) q.1)
      ]

-- ===== src/Connection/Lifecycle.antt =====
-- The life of a connection of src/net/tcpConnection.cpp, over any order of calls and queued functors.
use hc_tcp_im_server.Common.{
  ℕ, ◌+◌, ◌≤◌, ◌≡◌, refl, Bool, true, false, some, List, [], ◌∷◌, ◌++◌, arith, drop,
}
use hc_tcp_im_server.Buffer.{read_fd}
use hc_tcp_im_server.Connection.{
  Connection, State, connecting, connected, disconnecting, disconnected, Event, closed, WriteAnswer,
  ReadAnswer, got, end_of_stream, no_more, read_failed, is_live, handle_close, read_loop,
  handle_read, wrote, would_block, broken, write_failed, shutdown_in_loop, force_close_in_loop,
  drain, write_loop, write_done, handle_write, keep_rest, send_in_loop, send, shutdown, force_close,
  connect_established, connect_destroyed,
}

-- A call of the user or the poller, or a functor that the loop runs.
pub data Call : Type 0 where
  established destroyed shut close close_queued : Call
  readable : List ReadAnswer → Call
  writable : List WriteAnswer → Call
  say queued_say : WriteAnswer → List ℕ → Call

abbrev pub call : Connection → Call → Connection × List Event
call c established = connect_established c
call c destroyed = connect_destroyed c
call c shut = shutdown c
call c close = (force_close c, [])
call c close_queued = force_close_in_loop c
call c (readable ws) = handle_read c ws
call c (writable ws) = let r = handle_write c ws in (r.0, r.2)
call c (say a xs) = let r = send c a xs in (r.0, r.2)
call c (queued_say a xs) = let r = send_in_loop c a xs in (r.0, r.2)

-- The connection after the calls, and all callbacks in order.
pub run : Connection → List Call → Connection × List Event
run c [] = (c, [])
run c (k ∷ ks) = let r = call c k in let rest = run r.0 ks in (rest.0, r.1 ++ rest.1)

abbrev pub rank : State → ℕ
rank connecting = 0
rank connected = 1
rank disconnecting = 2
rank disconnected = 3

-- How often the close callback is called.
abbrev pub closes : List Event → ℕ
closes [] = 0
closes (e ∷ es) = (elim e [ closed ↦ 1 | _ ↦ 0 ]) + closes es

closes-append : (es fs : List Event) → closes (es ++ fs) ≡ closes es + closes fs
closes-append [] fs = omega arith
closes-append (e ∷ es) fs = omega (arith, closes-append es fs)

-- How often it may still be called.
abbrev pub left : State → ℕ
left disconnected = 0
left _ = 1

-- A step of the life: the state does not go back, and the close callback uses up its one call.
abbrev pub IsStep : Connection → Connection × List Event → Type 0
IsStep c r = (rank c.state ≤ rank r.0.state) × (closes r.1 + left r.0.state ≤ left c.state)

handle_close-IsStep : (c : Connection) → IsStep c (handle_close c)
unfolding handle_close is_live
handle_close-IsStep c = ground arith

read_loop-IsStep :
    (ws : List ReadAnswer) (c : Connection) (any : Bool) → IsStep c (read_loop c any ws)
unfolding read_loop
read_loop-IsStep [] c any = ground arith
read_loop-IsStep (got xs ∷ ws) c any =
    read_loop-IsStep ws (record c { input = read_fd c.input (some xs) }) true
read_loop-IsStep (end_of_stream ∷ ws) c any = handle_close-IsStep c
read_loop-IsStep (no_more ∷ ws) c any = ground arith
read_loop-IsStep (read_failed ∷ ws) c any = (omega arith, omega arith)

write_loop-state : (ws : List WriteAnswer) (c : Connection) → (write_loop c ws).0.state ≡ c.state
unfolding write_loop drain
write_loop-state [] c = refl
write_loop-state (wrote n ∷ ws) c = ground (arith, write_loop-state ws (drain c n))
write_loop-state (would_block ∷ ws) c = ground arith
write_loop-state (broken ∷ ws) c = ground arith
write_loop-state (write_failed ∷ ws) c = ground arith

write_done-IsStep : (c : Connection) → IsStep c (write_done c)
unfolding write_done shutdown_in_loop
write_done-IsStep c = ground arith

keep_rest-IsStep : (c : Connection) (xs : List ℕ) → IsStep c (keep_rest c xs)
unfolding keep_rest
keep_rest-IsStep c xs = ground arith

handle_write-IsStep : (c : Connection) (ws : List WriteAnswer) → IsStep c (call c (writable ws))
unfolding handle_write
handle_write-IsStep c ws =
    ground (arith, write_loop-state ws c, write_done-IsStep (write_loop c ws).0)

send_in_loop-IsStep :
    (c : Connection) (a : WriteAnswer) (xs : List ℕ) → IsStep c (call c (queued_say a xs))
unfolding send_in_loop
send_in_loop-IsStep c (wrote n) xs =
    ground (arith, keep_rest-IsStep c xs, keep_rest-IsStep c (drop n xs))
send_in_loop-IsStep c would_block xs = ground (arith, keep_rest-IsStep c xs)
send_in_loop-IsStep c broken xs = ground (arith, keep_rest-IsStep c xs)
send_in_loop-IsStep c write_failed xs = ground (arith, keep_rest-IsStep c xs)

call-IsStep : (k : Call) (c : Connection) → IsStep c (call c k)
unfolding connect_established connect_destroyed shutdown shutdown_in_loop force_close
    force_close_in_loop is_live handle_read send
call-IsStep established c = ground arith
call-IsStep destroyed c = ground arith
call-IsStep shut c = ground arith
call-IsStep close c = ground arith
call-IsStep close_queued c = ground (arith, handle_close-IsStep c)
call-IsStep (readable ws) c = read_loop-IsStep ws c false
call-IsStep (writable ws) c = handle_write-IsStep c ws
call-IsStep (say a xs) c = ground (arith, send_in_loop-IsStep c a xs)
call-IsStep (queued_say a xs) c = send_in_loop-IsStep c a xs

run-IsStep : (ks : List Call) (c : Connection) → IsStep c (run c ks)
unfolding run
run-IsStep [] c = (omega arith, omega arith)
run-IsStep (k ∷ ks) c =
    let one = call-IsStep k c in
    let rest = run-IsStep ks (call c k).0 in
    (
      omega (arith, one.0, rest.0),
      omega (arith, one.1, rest.1, closes-append (call c k).1 (run (call c k).0 ks).1),
    )

-- Whatever calls and queued functors a connection sees, in any order and with any answers of the
-- socket: its state never goes back in the order connecting, connected, disconnecting, disconnected;
-- and the close callback is called at most once, and not at all if it was disconnected before.
pub run_once :
    (c : Connection) (ks : List Call)
    → ((rank c.state ≤ rank (run c ks).0.state) × (closes (run c ks).1 ≤ left c.state))
run_once c ks = let (up, once) = run-IsStep ks c in (up, omega (arith, once))

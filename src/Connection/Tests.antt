-- ===== src/Connection/Tests.antt =====
-- Concrete runs of the connection of src/net/tcpConnection.cpp.
use hc_tcp_im_server.Common.{◌≤◌, ◌≡◌, ◌++◌, true, false, List, [], ◌∷◌, arith, map, All}
use hc_tcp_im_server.Buffer
use hc_tcp_im_server.Buffer.{contents, append}
use hc_tcp_im_server.Buffer.Contents.{new-IsValid}
use hc_tcp_im_server.Connection.{
  Connection, connected, wrote, would_block, got, no_more, end_of_stream, handle_read, handle_write,
  send_in_loop, is_live, disconnected, message,
}
use hc_tcp_im_server.Connection.Output.{IsBounded, handle_write_lem}
use hc_tcp_im_server.Connection.Send.{IsSent, send_in_loop_lem}
use hc_tcp_im_server.Connection.Lifecycle.{
  Call, say, readable, close, close_queued, run, rank, closes, left, run_once,
}
use hc_tcp_im_server.Connection.Input.{joined, is_message, handle_read_lem}

abbrev quiet : Connection
quiet = record {
  state = connected;
  reading = true;
  writing = false;
  input = Buffer.new;
  output = Buffer.new;
  high_water_mark = 4;
  low_water_mark = 2;
  max_output_buffer_bytes = 8;
  back_pressured = false;
}

quiet-IsBounded : IsBounded quiet
unfolding Buffer.new
quiet-IsBounded = record { valid = new-IsValid; within = omega arith }

-- The socket would block, and three bytes wait.
abbrev waiting : Connection
waiting = (send_in_loop quiet would_block (1 ∷ 2 ∷ 3 ∷ [])).0

waiting-IsBounded : IsBounded waiting
waiting-IsBounded = (send_in_loop_lem quiet would_block (1 ∷ 2 ∷ 3 ∷ []) quiet-IsBounded).0

send_in_loop_lem_example :
    IsSent quiet (wrote 1) (7 ∷ 8 ∷ 9 ∷ []) (send_in_loop quiet (wrote 1) (7 ∷ 8 ∷ 9 ∷ []))
send_in_loop_lem_example = send_in_loop_lem quiet (wrote 1) (7 ∷ 8 ∷ 9 ∷ []) quiet-IsBounded

handle_write_lem_example :
    let r = handle_write waiting (wrote 2 ∷ would_block ∷ []) in
    (IsBounded r.0 × (r.1 ++ contents r.0.output ≡ contents waiting.output))
handle_write_lem_example = handle_write_lem waiting (wrote 2 ∷ would_block ∷ []) waiting-IsBounded

handle_read_lem_example :
    let chunks = map got ((5 ∷ []) ∷ (6 ∷ []) ∷ []) in
    let all = contents quiet.input ++ joined ((5 ∷ []) ∷ (6 ∷ []) ∷ []) in
    let r = handle_read quiet (chunks ++ (no_more ∷ [])) in
    let q = handle_read quiet (chunks ++ (end_of_stream ∷ [])) in
    ((contents r.0.input ≡ all)
      × (r.1 ≡ message ∷ [])
      × (contents q.0.input ≡ all)
      × All (λ e. is_message e ≡ false) q.1
      × (is_live quiet.state ≡ true → q.0.state ≡ disconnected))
handle_read_lem_example = handle_read_lem quiet (5 ∷ []) ((6 ∷ []) ∷ []) new-IsValid

abbrev busy_life : List Call
busy_life =
    say would_block (1 ∷ 2 ∷ [])
    ∷ readable (got (5 ∷ []) ∷ end_of_stream ∷ [])
    ∷ close
    ∷ close_queued
    ∷ []

run_once_example :
    (rank quiet.state ≤ rank (run quiet busy_life).0.state)
    × (closes (run quiet busy_life).1 ≤ left quiet.state)
run_once_example = run_once quiet busy_life

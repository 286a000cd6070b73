-- ===== src/Connection.antt =====
-- src/net/tcpConnection.cpp on its loop thread. What `read` and `write` of the socket return is an
-- argument of each call, and when a list of answers ends, the socket would block. Callbacks are
-- events, as if all were set; they do not call back into the connection.
pub mod Output
pub mod Send
pub mod Input
pub mod Lifecycle
mod Tests
use hc_tcp_im_server.Common.{
  ℕ, ◌+◌, Bool, true, false, not, ◌&&◌, ◌||◌, some, List, [], ◌∷◌, ◌++◌, ltb, leb, ◌==◌,
  if◌then◌else◌, length, take, drop,
}
use hc_tcp_im_server.Buffer.{
  Buffer, readable_bytes, contents, append, retrieve, retrieve_all, read_fd,
}

-- `TcpConnection::State`
pub data State : Type 0 where
  connecting connected disconnecting disconnected : State

pub record Connection : Type 0 where
  pub state : State
  -- The interest of the channel.
  pub reading : Bool
  pub writing : Bool
  pub input : Buffer
  pub output : Buffer
  pub high_water_mark : ℕ
  pub low_water_mark : ℕ
  pub max_output_buffer_bytes : ℕ
  pub back_pressured : Bool

pub data Event : Type 0 where
  message write_complete state_changed closed shut_down : Event
  high_water : ℕ → Event

-- What `write` answers: a count, EWOULDBLOCK, EPIPE or ECONNRESET, and any other error.
pub data WriteAnswer : Type 0 where
  wrote : ℕ → WriteAnswer
  would_block broken write_failed : WriteAnswer

-- What `readFd` answers: bytes, the end of the stream, EAGAIN, and any other error.
pub data ReadAnswer : Type 0 where
  got : List ℕ → ReadAnswer
  end_of_stream no_more read_failed : ReadAnswer

unfoldable pub is_live : State → Bool
is_live connected = true
is_live disconnecting = true
is_live _ = false

unfoldable pub handle_close : Connection → Connection × List Event
handle_close c =
    if is_live c.state
    then (
      record c { state = disconnected; reading = false; writing = false },
      state_changed ∷ closed ∷ [],
    )
    else (c, [])

-- The loop of `handleRead`; `any` is `receivedData`. An error is only logged.
unfoldable pub read_loop : Connection → Bool → List ReadAnswer → Connection × List Event
read_loop c any [] = (c, if any then message ∷ [] else [])
read_loop c any (got xs ∷ ws) = read_loop (record c { input = read_fd c.input (some xs) }) true ws
read_loop c any (end_of_stream ∷ ws) = handle_close c
read_loop c any (no_more ∷ ws) = (c, if any then message ∷ [] else [])
read_loop c any (read_failed ∷ ws) = (c, [])

unfoldable pub handle_read : Connection → List ReadAnswer → Connection × List Event
handle_read c ws = read_loop c false ws

unfoldable pub shutdown_in_loop : Connection → Connection × List Event
shutdown_in_loop c = if not c.writing then (c, shut_down ∷ []) else (c, [])

unfoldable pub force_close_in_loop : Connection → Connection × List Event
force_close_in_loop c = if is_live c.state then handle_close c else (c, [])

-- `m_outputBuffer.retrieve(n)`, with the recovery behind it.
unfoldable pub drain : Connection → ℕ → Connection
drain c n =
    let rest = retrieve c.output n in
    record c {
      output = rest;
      back_pressured = c.back_pressured && not (leb (readable_bytes rest) c.low_water_mark);
    }

-- The loop of `handleWrite`: the connection, and the bytes that the socket took.
unfoldable pub write_loop : Connection → List WriteAnswer → Connection × List ℕ
write_loop c [] = (c, [])
write_loop c (a ∷ ws) = if readable_bytes c.output == 0 then (c, []) else elim a [
  | wrote n ↦
      let rest = write_loop (drain c n) ws in
      if n == 0 then (c, []) else (rest.0, take n (contents c.output) ++ rest.1)
  | _ ↦ (c, [])
]

-- What `handleWrite` does when the output buffer is empty.
unfoldable pub write_done : Connection → Connection × List Event
write_done c =
    let quiet : Connection = record c { writing = false } in
    (quiet, write_complete ∷ elim c.state [ disconnecting ↦ (shutdown_in_loop quiet).1 | _ ↦ [] ])

unfoldable pub handle_write : Connection → List WriteAnswer → Connection × List ℕ × List Event
handle_write c ws =
    if not c.writing
    then (c, [], [])
    else let r = write_loop c ws in
      if readable_bytes r.0.output == 0
      then ((write_done r.0).0, r.1, (write_done r.0).1)
      else (r.0, r.1, [])

-- The second half of `sendInLoop`: what the socket did not take goes to the output buffer.
unfoldable pub keep_rest : Connection → List ℕ → Connection × List Event
keep_rest c rest =
    let pending = readable_bytes c.output + length rest in
    let full = append c.output rest in
    let high = not c.back_pressured && leb c.high_water_mark (readable_bytes full) in
    if length rest == 0
    then (c, [])
    else if ltb c.max_output_buffer_bytes pending
    then (record c { back_pressured = true }, [])
    else (
      record c { output = full; back_pressured = c.back_pressured || high; writing = true },
      if high then high_water (readable_bytes full) ∷ [] else [],
    )

-- `sendInLoop`: the connection, the bytes that the socket took, and the callbacks. The answer is read
-- only where the code calls `write`.
unfoldable pub send_in_loop : Connection → WriteAnswer → List ℕ → Connection × List ℕ × List Event
send_in_loop c a xs =
    let queued = keep_rest c xs in
    elim c.state [
      | disconnected ↦ (c, [], [])
      | _ ↦
          if c.writing || not (readable_bytes c.output == 0)
          then (queued.0, [], queued.1)
          else elim a [
            | wrote n ↦
                let rest = drop n xs in
                let kept = keep_rest c rest in
                if length rest == 0
                then (c, take n xs, write_complete ∷ [])
                else (kept.0, take n xs, kept.1)
            | broken ↦ (c, [], [])
            | _ ↦ (queued.0, [], queued.1)
          ]
    ]

-- `send` on the loop thread. Off it, a copy of the bytes goes to `sendInLoop` by the loop's queue.
unfoldable pub send : Connection → WriteAnswer → List ℕ → Connection × List ℕ × List Event
send c a xs = elim c.state [ connected ↦ send_in_loop c a xs | _ ↦ (c, [], []) ]

-- `send(Buffer*)` on the loop thread, with the buffer behind the call.
unfoldable pub send_buffer :
    Connection → WriteAnswer → Buffer → Connection × Buffer × List ℕ × List Event
send_buffer c a b =
    let r = send_in_loop c a (contents b) in
    elim c.state [ connected ↦ (r.0, retrieve_all b, r.1, r.2) | _ ↦ (c, b, [], []) ]

-- `forceCloseWithDelay`, which does what `forceClose` does.
unfoldable pub force_close_with_delay : Connection → ℕ → Connection
force_close_with_delay c seconds = if is_live c.state then record c { state = disconnecting } else c

unfoldable pub set_high_water_mark : Connection → ℕ → Connection
set_high_water_mark c bytes = record c { high_water_mark = bytes }

unfoldable pub set_low_water_mark : Connection → ℕ → Connection
set_low_water_mark c bytes = record c { low_water_mark = bytes }

unfoldable pub set_max_output_buffer_bytes : Connection → ℕ → Connection
set_max_output_buffer_bytes c bytes = record c { max_output_buffer_bytes = bytes }

-- `shutdown` on the loop thread, which runs `shutdownInLoop` at once.
unfoldable pub shutdown : Connection → Connection × List Event
shutdown c = elim c.state [
  | connected ↦ shutdown_in_loop (record c { state = disconnecting })
  | _ ↦ (c, [])
]

-- `forceClose`, without the call of `forceCloseInLoop` that it puts in the loop's queue.
unfoldable pub force_close : Connection → Connection
force_close c = if is_live c.state then record c { state = disconnecting } else c

unfoldable pub connect_established : Connection → Connection × List Event
connect_established c = elim c.state [
  | connecting ↦ (record c { state = connected; reading = true }, state_changed ∷ [])
  | _ ↦ (c, [])
]

-- `connectDestroyed`; the channel is then removed from its poller.
unfoldable pub connect_destroyed : Connection → Connection × List Event
connect_destroyed c = elim c.state [
  | connected ↦
      (record c { state = disconnected; reading = false; writing = false }, state_changed ∷ [])
  | _ ↦ (c, [])
]

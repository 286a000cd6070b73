-- ===== src/Loop/Tests.antt =====
-- Concrete states of the loop of src/net/eventLoop.cpp. A functor is a number.
use hc_tcp_im_server.Common.{ℕ, ◌+◌, ◌<◌, ◌≡◌, refl, ◌++◌, arith, inl}
use hc_tcp_im_server.Loop
use hc_tcp_im_server.Loop.Steps.{
  System, begin, enter, test_quit, push_there, Reach, here, next, entered, tested, pushed,
}
use hc_tcp_im_server.Loop.Wakeups.{to_call, called_in_order, poll_awake}

-- The loop is in `poll`, and another thread has pushed a functor.
abbrev asleep : System ℕ
asleep = push_there (test_quit (enter begin)) 7

asleep_reached : Reach asleep
unfolding begin enter test_quit Loop.new_loop Loop.start
asleep_reached =
    next (next (next here (entered begin refl)) (tested (enter begin) refl))
      (pushed (test_quit (enter begin)) 7)

called_in_order_example :
    asleep.called ++ (to_call asleep.place ++ asleep.loop.pending_functors) ≡ asleep.queued
called_in_order_example = called_in_order asleep asleep_reached

poll_awake_example : 0 < asleep.loop.eventfd + asleep.owed
unfolding begin enter test_quit push_there Loop.new_loop Loop.start Loop.push_functor
poll_awake_example = poll_awake asleep asleep_reached refl (inl (omega arith))

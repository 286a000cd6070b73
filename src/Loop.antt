-- ===== src/Loop.antt =====
-- src/net/eventLoop.cpp: the functors that wait for the loop, and the eventfd that wakes it. The code
-- of a functor is a parameter: the state after it runs. `in_loop` says whether the caller is on the
-- loop's thread.
pub mod Steps
pub mod Wakeups
mod Tests
use hc_tcp_im_server.Common.{
  ℕ, ◌+◌, Bool, true, false, not, ◌||◌, List, [], ◌∷◌, ◌++◌, if◌then◌else◌,
}

-- `eventfd` is the counter in the kernel: a write adds to it, a read sets it to 0, and the loop's
-- channel on it is readable while it is not 0.
pub record EventLoop (F : Type 0) : Type 0 where
  pub looping : Bool
  pub quit : Bool
  pub calling_pending_functors : Bool
  pub pending_functors : List F
  pub eventfd : ℕ

unfoldable pub new_loop : {F : Type 0} → EventLoop F
new_loop = record {
  looping = false;
  quit = false;
  calling_pending_functors = false;
  pending_functors = [];
  eventfd = 0;
}

module _ {F : Type 0} where
  unfoldable pub wakeup : EventLoop F → EventLoop F
  wakeup l = record l { eventfd = l.eventfd + 1 }

  -- `handleRead`
  unfoldable pub handle_read : EventLoop F → EventLoop F
  handle_read l = record l { eventfd = 0 }

  -- The part of `queueInLoop` under the lock.
  unfoldable pub push_functor : EventLoop F → F → EventLoop F
  push_functor l f = record l { pending_functors = l.pending_functors ++ (f ∷ []) }

  unfoldable pub queue_in_loop : EventLoop F → Bool → F → EventLoop F
  queue_in_loop l in_loop f =
      let pushed = push_functor l f in
      if not in_loop || l.calling_pending_functors then wakeup pushed else pushed

  -- `quit`
  unfoldable pub stop : EventLoop F → Bool → EventLoop F
  stop l in_loop =
      let l' : EventLoop F = record l { quit = true } in if in_loop then l' else wakeup l'

  -- The first lines of `loop`.
  unfoldable pub start : EventLoop F → EventLoop F
  start l = record l { looping = true; quit = false }

  -- `loop` behind its `while`.
  unfoldable pub leave : EventLoop F → EventLoop F
  leave l = record l { looping = false }

  -- `doPendingFunctors` up to its loop: the vector that is taken, and what is left.
  unfoldable pub take_functors : EventLoop F → EventLoop F × List F
  take_functors l =
      (record l { calling_pending_functors = true; pending_functors = [] }, l.pending_functors)

  -- `doPendingFunctors` behind its loop.
  unfoldable pub functors_done : EventLoop F → EventLoop F
  functors_done l = record l { calling_pending_functors = false }

  module _ (call : F → EventLoop F → EventLoop F) where
    unfoldable pub run_in_loop : EventLoop F → Bool → F → EventLoop F
    run_in_loop l in_loop f = if in_loop then call f l else queue_in_loop l in_loop f

    unfoldable pub call_all : List F → EventLoop F → EventLoop F
    call_all [] l = l
    call_all (f ∷ fs) l = call_all fs (call f l)

    unfoldable pub do_pending_functors : EventLoop F → EventLoop F
    do_pending_functors l =
        let (l', functors) = take_functors l in functors_done (call_all functors l')

-- ===== src/Loop/Steps.antt =====
-- src/net/eventLoop.cpp: the loop's thread and the other threads, step by step.
use hc_tcp_im_server.Common.{ℕ, ◌+◌, suc, ◌≡◌, Bool, true, false, List, [], ◌∷◌, ◌++◌}
use hc_tcp_im_server.Loop.{
  EventLoop, new_loop, wakeup, handle_read, push_functor, queue_in_loop, stop, start, leave,
  take_functors, functors_done,
}

-- Where the thread of the loop is: before `loop` or behind it, in `poll`, at the callbacks of the
-- channels, at the functors that it has taken and not yet called, or behind them at the test of
-- `while`.
pub data Place (F : Type 0) : Type 0 where
  outside polling handling testing : Place F
  calling : List F → Place F

-- The loop, where its thread is, and how many other threads have pushed a functor or set `m_quit` and
-- not yet called `wakeup`. `queued` and `called` are the functors ever queued and called, in order.
-- `signalled` is whether a signal handler has called `quit` on the loop's own thread since `loop` began.
pub record System (F : Type 0) : Type 0 where
  pub loop : EventLoop F
  pub place : Place F
  pub owed : ℕ
  pub queued : List F
  pub called : List F
  pub signalled : Bool

unfoldable pub begin : {F : Type 0} → System F
begin = record {
  loop = new_loop;
  place = outside;
  owed = 0;
  queued = [];
  called = [];
  signalled = false;
}

unfoldable pub enter : {F : Type 0} → System F → System F
enter s = record s { loop = start s.loop; place = testing; signalled = false }

unfoldable pub test_quit : {F : Type 0} → System F → System F
test_quit s = elim s.loop.quit [
  | true ↦ record s { loop = leave s.loop; place = outside }
  | false ↦ record s { place = polling }
]

-- A functor that the loop's own thread queues, from a callback or from a functor.
unfoldable pub queue_here : {F : Type 0} → System F → F → System F
queue_here s f = record s { loop = queue_in_loop s.loop true f; queued = s.queued ++ (f ∷ []) }

unfoldable pub take_all : {F : Type 0} → System F → System F
take_all s = let (l, fs) = take_functors s.loop in record s { loop = l; place = calling fs }

unfoldable pub call_next : {F : Type 0} → System F → F → List F → System F
call_next s f fs = record s { place = calling fs; called = s.called ++ (f ∷ []) }

unfoldable pub all_called : {F : Type 0} → System F → System F
all_called s = record s { loop = functors_done s.loop; place = testing }

-- Another thread's `queueInLoop` is two steps: the push under the lock, and `wakeup`.
unfoldable pub push_there : {F : Type 0} → System F → F → System F
push_there s f = record s {
  loop = push_functor s.loop f;
  owed = s.owed + 1;
  queued = s.queued ++ (f ∷ []);
}

unfoldable pub quit_there : {F : Type 0} → System F → System F
quit_there s = record s { loop = record s.loop { quit = true }; owed = s.owed + 1 }

unfoldable pub wake_there : {F : Type 0} → System F → ℕ → System F
wake_there s n = record s { loop = wakeup s.loop; owed = n }

-- A signal handler that the loop's own thread runs, wherever it is: `quit` sets `m_quit`, and does not
-- call `wakeup`.
unfoldable pub quit_by_signal : {F : Type 0} → System F → System F
quit_by_signal s = record s { loop = stop s.loop true; signalled = true }

-- On the loop's own thread, `queueInLoop` is called by callbacks and functors only, and `quit` by them
-- and by signal handlers. A handler that another thread runs is that thread's `quit`.
pub data Step {F : Type 0} : System F → System F → Type 0 where
  entered : (s : System F) → s.place ≡ outside → Step s (enter s)
  tested : (s : System F) → s.place ≡ testing → Step s (test_quit s)
  poll_returned : (s : System F) → s.place ≡ polling → Step s (record s { place = handling })
  woken : (s : System F) → s.place ≡ handling → Step s (record s { loop = handle_read s.loop })
  queued_by_callback : (s : System F) (f : F) → s.place ≡ handling → Step s (queue_here s f)
  quit_by_callback :
      (s : System F) → s.place ≡ handling → Step s (record s { loop = stop s.loop true })
  taken : (s : System F) → s.place ≡ handling → Step s (take_all s)
  queued_by_functor :
      (s : System F) (f : F) (fs : List F) → s.place ≡ calling fs → Step s (queue_here s f)
  quit_by_functor :
      (s : System F) (fs : List F)
      → s.place ≡ calling fs
      → Step s (record s { loop = stop s.loop true })
  called_next :
      (s : System F) (f : F) (fs : List F) → s.place ≡ calling (f ∷ fs) → Step s (call_next s f fs)
  called_all : (s : System F) → s.place ≡ calling [] → Step s (all_called s)
  signal_came : (s : System F) → Step s (quit_by_signal s)
  pushed : (s : System F) (f : F) → Step s (push_there s f)
  quit_asked : (s : System F) → Step s (quit_there s)
  wakeup_called : (s : System F) (n : ℕ) → s.owed ≡ suc n → Step s (wake_there s n)

pub data Reach {F : Type 0} : System F → Type 0 where
  here : Reach begin
  next : {s t : System F} → Reach s → Step s t → Reach t

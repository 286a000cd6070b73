-- ===== src/Loop/Wakeups.antt =====
-- src/net/eventLoop.cpp: no functor is lost, called twice or out of order, and none waits while the
-- loop sleeps.
use hc_tcp_im_server.Common.{
  ◌+◌, ◌<◌, ◌≡◌, refl, Bool, true, false, List, [], ◌∷◌, ◌++◌, arith, append_assoc, append-nil,
  length, Bool-cases, inl, inr, ◌⊎◌,
}
use hc_tcp_im_server.Loop.{
  EventLoop, new_loop, wakeup, handle_read, push_functor, queue_in_loop, stop, start, leave,
  take_functors, functors_done,
}
use hc_tcp_im_server.Loop.Steps.{
  System, Place, outside, polling, handling, testing, calling, begin, enter, test_quit, queue_here,
  take_all, call_next, all_called, push_there, quit_there, wake_there, Step, entered, tested,
  poll_returned, woken, queued_by_callback, quit_by_callback, taken, queued_by_functor,
  quit_by_functor, called_next, called_all, pushed, quit_asked, wakeup_called, signal_came,
  quit_by_signal, Reach, here, next,
}

-- The functors that were taken and are still to call.
abbrev pub to_call : {F : Type 0} → Place F → List F
to_call (calling fs) = fs
to_call _ = []

abbrev is_calling : {F : Type 0} → Place F → Bool
is_calling (calling fs) = true
is_calling _ = false

abbrev is_handling : {F : Type 0} → Place F → Bool
is_handling handling = true
is_handling _ = false

abbrev is_polling : {F : Type 0} → Place F → Bool
is_polling polling = true
is_polling _ = false

-- Outside the callbacks, a functor that waits has a wakeup: the loop will not sleep on it. At the
-- callbacks it needs none, since the loop takes the functors next.
record IsSound {F : Type 0} (s : System F) : Type 0 where
  ordered : s.called ++ (to_call s.place ++ s.loop.pending_functors) ≡ s.queued
  flag : s.loop.calling_pending_functors ≡ is_calling s.place
  awake :
      is_handling s.place ≡ false → 0 < length s.loop.pending_functors → 0 < s.loop.eventfd + s.owed
  stopping :
      is_polling s.place ≡ true
      → s.loop.quit ≡ true
      → s.signalled ≡ false
      → 0 < s.loop.eventfd + s.owed

module _ {F : Type 0} where
  begin-IsSound : IsSound (begin {F = F})
  unfolding begin new_loop
  begin-IsSound = record {
    ordered = refl;
    flag = refl;
    awake = λ h l. omega arith;
    stopping = λ h l q. ground (arith, h);
  }

  append_pushed :
      (a b c q : List F) (f : F) → a ++ (b ++ c) ≡ q → a ++ (b ++ (c ++ (f ∷ []))) ≡ q ++ (f ∷ [])
  append_pushed a b c q f h =
      rw (← h, append_assoc a (b ++ c) (f ∷ []), append_assoc b c (f ∷ [])) refl

  queue_in_loop_pending :
      (l : EventLoop F) (in_loop : Bool) (f : F)
      → (queue_in_loop l in_loop f).pending_functors ≡ l.pending_functors ++ (f ∷ [])
  unfolding queue_in_loop push_functor wakeup
  queue_in_loop_pending l in_loop f = ground arith

  ordered_at :
      (s : System F) (p : Place F)
      → IsSound s
      → s.place ≡ p
      → s.called ++ (to_call p ++ s.loop.pending_functors) ≡ s.queued
  ordered_at s p i e = rw (← e) i.ordered

  Step-IsSound : {s t : System F} → Step s t → IsSound s → IsSound t
  unfolding quit_by_signal enter test_quit queue_here take_all call_next all_called push_there
      quit_there wake_there start leave handle_read queue_in_loop push_functor wakeup stop
      take_functors functors_done
  Step-IsSound (entered s e) i = record {
    ordered = ordered_at s outside i e;
    flag = ground (arith, e, i.flag);
    awake = λ h l. ground (arith, e, h, l, i.flag, i.awake);
    stopping = λ h l q. ground (arith, e, h, l, q, i.stopping);
  }
  Step-IsSound (tested s e) i = record {
    ordered = elim (Bool-cases s.loop.quit) [
      | inl q ↦ rw (test_quit, q) (ordered_at s testing i e)
      | inr q ↦ rw (test_quit, q) (ordered_at s testing i e)
    ];
    flag = ground (arith, e, i.flag);
    awake = λ h l. ground (arith, e, h, l, i.flag, i.awake);
    stopping = λ h l q. ground (arith, e, h, l, q, i.stopping);
  }
  Step-IsSound (poll_returned s e) i = record {
    ordered = ordered_at s polling i e;
    flag = ground (arith, e, i.flag);
    awake = λ h l. ground (arith, e, h, l, i.flag, i.awake);
    stopping = λ h l q. ground (arith, e, h, l, q, i.stopping);
  }
  Step-IsSound (woken s e) i = record {
    ordered = i.ordered;
    flag = ground (arith, e, i.flag);
    awake = λ h l. ground (arith, e, h, l, i.flag, i.awake);
    stopping = λ h l q. ground (arith, e, h, l, q, i.stopping);
  }
  Step-IsSound (queued_by_callback s f e) i = record {
    ordered =
        rw (queue_in_loop_pending s.loop true f)
          (append_pushed s.called (to_call s.place) s.loop.pending_functors s.queued f i.ordered);
    flag = ground (arith, e, i.flag);
    awake = λ h l. ground (arith, e, h, l, i.flag, i.awake);
    stopping = λ h l q. ground (arith, e, h, l, q, i.stopping);
  }
  Step-IsSound (quit_by_callback s e) i = record {
    ordered = i.ordered;
    flag = ground (arith, e, i.flag);
    awake = λ h l. ground (arith, e, h, l, i.flag, i.awake);
    stopping = λ h l q. ground (arith, e, h, l, q, i.stopping);
  }
  Step-IsSound (taken s e) i = record {
    ordered = rw (append-nil s.loop.pending_functors) (ordered_at s handling i e);
    flag = ground (arith, e, i.flag);
    awake = λ h l. ground (arith, e, h, l, i.flag, i.awake);
    stopping = λ h l q. ground (arith, e, h, l, q, i.stopping);
  }
  Step-IsSound (queued_by_functor s f fs e) i = record {
    ordered =
        rw (queue_in_loop_pending s.loop true f)
          (append_pushed s.called (to_call s.place) s.loop.pending_functors s.queued f i.ordered);
    flag = ground (arith, e, i.flag);
    awake = λ h l. ground (arith, e, h, l, i.flag, i.awake);
    stopping = λ h l q. ground (arith, e, h, l, q, i.stopping);
  }
  Step-IsSound (quit_by_functor s fs e) i = record {
    ordered = i.ordered;
    flag = ground (arith, e, i.flag);
    awake = λ h l. ground (arith, e, h, l, i.flag, i.awake);
    stopping = λ h l q. ground (arith, e, h, l, q, i.stopping);
  }
  Step-IsSound (called_next s f fs e) i = record {
    ordered =
        rw (append_assoc s.called (f ∷ []) (fs ++ s.loop.pending_functors))
          (ordered_at s (calling (f ∷ fs)) i e);
    flag = ground (arith, e, i.flag);
    awake = λ h l. ground (arith, e, h, l, i.flag, i.awake);
    stopping = λ h l q. ground (arith, e, h, l, q, i.stopping);
  }
  Step-IsSound (called_all s e) i = record {
    ordered = ordered_at s (calling []) i e;
    flag = ground (arith, e, i.flag);
    awake = λ h l. ground (arith, e, h, l, i.flag, i.awake);
    stopping = λ h l q. ground (arith, e, h, l, q, i.stopping);
  }
  Step-IsSound (signal_came s) i = record {
    ordered = i.ordered;
    flag = i.flag;
    awake = i.awake;
    stopping = λ h l q. ground (arith, q);
  }
  Step-IsSound (pushed s f) i = record {
    ordered = append_pushed s.called (to_call s.place) s.loop.pending_functors s.queued f i.ordered;
    flag = ground (arith, i.flag);
    awake = λ h l. ground (arith, h, l, i.flag, i.awake);
    stopping = λ h l q. ground (arith, h, l, q, i.stopping);
  }
  Step-IsSound (quit_asked s) i = record {
    ordered = i.ordered;
    flag = ground (arith, i.flag);
    awake = λ h l. ground (arith, h, l, i.flag, i.awake);
    stopping = λ h l q. ground (arith, h, l, q, i.stopping);
  }
  Step-IsSound (wakeup_called s n e) i = record {
    ordered = i.ordered;
    flag = ground (arith, e, i.flag);
    awake = λ h l. ground (arith, e, h, l, i.flag, i.awake);
    stopping = λ h l q. ground (arith, e, h, l, q, i.stopping);
  }

  Reach-IsSound : {s : System F} → Reach s → IsSound s
  Reach-IsSound here = begin-IsSound
  Reach-IsSound (next r t) = Step-IsSound t (Reach-IsSound r)

  -- However the threads take turns: the functors that were called, those that the loop has taken and
  -- those that wait are together the functors that were queued, in the order of the queue.
  pub called_in_order :
      (s : System F) → Reach s → s.called ++ (to_call s.place ++ s.loop.pending_functors) ≡ s.queued
  called_in_order s r = (Reach-IsSound r).ordered

  -- However the threads take turns: while the loop is in `poll`, and a functor waits, or `m_quit` is
  -- set and no signal handler of the loop's own thread has called `quit` since `loop` began, the
  -- eventfd is readable, or a thread has still to write to it.
  pub poll_awake :
      (s : System F)
      → Reach s
      → s.place ≡ polling
      → (0 < length s.loop.pending_functors) ⊎ ((s.loop.quit ≡ true) × (s.signalled ≡ false))
      → 0 < s.loop.eventfd + s.owed
  poll_awake s r e (inl l) = (Reach-IsSound r).awake (rw e refl) l
  poll_awake s r e (inr (q, n)) = (Reach-IsSound r).stopping (rw e refl) q n

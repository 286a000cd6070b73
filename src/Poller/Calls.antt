-- ===== src/Poller/Calls.antt =====
-- src/net/channel.h and channel.cpp: the calls of a channel, one after the other.
use hc_tcp_im_server.Common.{
  ℕ, ◌≡◌, refl, sym, ◌∙◌, Bool, true, false, not, ◌&&◌, Option, none, some, List, [], ◌∷◌, arith,
  ◌==◌, Bool-cases, Option-cases, some_same, inl, inr,
}
use mathlib.Core.Path.{subst}
use hc_tcp_im_server.Common.Dict.{number_key}
use hc_tcp_im_server.Poller.{
  Channel, Epoll, EpollPoller, is_none_event, remove, enable_reading, disable_reading,
  enable_writing, disable_writing, disable_all,
}
use hc_tcp_im_server.Poller.Watching.{
  IsSound, IsLeft, is_new, set_events-IsLeft, remove-IsLeft, remove_refused,
}

-- The calls of a channel.
pub data Call : Type 0 where
  enables_reading disables_reading enables_writing disables_writing disables_all removes : Call

-- The calls whose asserts hold.
unfoldable pub is_allowed : Channel → Call → Bool
is_allowed c removes = is_none_event c && not (is_new c)
is_allowed c _ = true

module _ {K : Type 0} ⦃e : Epoll K⦄ where
  unfoldable pub step : EpollPoller K → Channel → Call → Option (EpollPoller K × Channel)
  step p c enables_reading = enable_reading p c
  step p c disables_reading = disable_reading p c
  step p c enables_writing = enable_writing p c
  step p c disables_writing = disable_writing p c
  step p c disables_all = disable_all p c
  step p c removes = remove p c

  -- The calls of a channel one after the other, up to an assert that fails.
  unfoldable pub run : EpollPoller K → Channel → List Call → Option (EpollPoller K × Channel)
  run p c [] = some (p, c)
  run p c (x ∷ xs) = elim (step p c x) [ none ↦ none | some q ↦ run q.0 q.1 xs ]

  -- Where epoll_ctl succeeds: a sound channel aborts at a call exactly if the call is a removal, while
  -- it has events or is not registered. After any other call it is sound, its descriptor is the same,
  -- and the registrations of all other descriptors are the same: the kernel watches the descriptor
  -- exactly while the channel is added, for the channel's events and with its address.
  pub step-IsLeft :
      (p : EpollPoller K) (c : Channel) (x : Call)
      → IsSound p c
      → (is_allowed c x ≡ true
          → (q : EpollPoller K × Channel) × (step p c x ≡ some q) × IsLeft p c.fd q)
        × (is_allowed c x ≡ false → step p c x ≡ none)
  unfolding step is_allowed enable_reading disable_reading enable_writing disable_writing
      disable_all
  step-IsLeft p c enables_reading s = (λ h. set_events-IsLeft p c _ s, λ h. ground (arith, h))
  step-IsLeft p c disables_reading s = (λ h. set_events-IsLeft p c _ s, λ h. ground (arith, h))
  step-IsLeft p c enables_writing s = (λ h. set_events-IsLeft p c _ s, λ h. ground (arith, h))
  step-IsLeft p c disables_writing s = (λ h. set_events-IsLeft p c _ s, λ h. ground (arith, h))
  step-IsLeft p c disables_all s = (λ h. set_events-IsLeft p c _ s, λ h. ground (arith, h))
  step-IsLeft p c removes s = (remove-IsLeft p c s, remove_refused p c s)

  step-some :
      (p : EpollPoller K) (c : Channel) (x : Call) (q : EpollPoller K × Channel)
      → IsSound p c
      → step p c x ≡ some q
      → IsLeft p c.fd q
  step-some p c x q s h = elim (Bool-cases (is_allowed c x)) [
    | inl a ↦
        let (r, f, l) = (step-IsLeft p c x s).0 a in
        subst (λ y. IsLeft p c.fd y) (some_same r q (sym f ∙ h)) l
    | inr a ↦ ground (arith, h, (step-IsLeft p c x s).1 a)
  ]

  run_cons :
      (p : EpollPoller K) (c : Channel) (x : Call) (xs : List Call) (r : EpollPoller K × Channel)
      → step p c x ≡ some r
      → run p c (x ∷ xs) ≡ run r.0 r.1 xs
  unfolding run
  run_cons p c x xs r n = rw (run, n) refl

  stays-IsLeft : (p : EpollPoller K) (c : Channel) → IsSound p c → IsLeft p c.fd (p, c)
  stays-IsLeft p c s = record { sound = s; same_fd = refl; rest = λ g n. (refl, refl) }

  then-IsLeft :
      (p : EpollPoller K) (fd : ℕ) (r q : EpollPoller K × Channel)
      → IsLeft p fd r
      → IsLeft r.0 r.1.fd q
      → IsLeft p fd q
  then-IsLeft p fd r q l k = record {
    sound = k.sound;
    same_fd = k.same_fd ∙ l.same_fd;
    rest = λ g n.
        let n' : (r.1.fd == g) ≡ false = rw l.same_fd n in
        ((k.rest g n').0 ∙ (l.rest g n).0, (k.rest g n').1 ∙ (l.rest g n).1);
  }

  -- From a sound channel, calls that no assert stops leave the channel sound, with its descriptor, and
  -- the registrations of all other descriptors as they were.
  pub run-IsLeft :
      (p : EpollPoller K) (c : Channel) (xs : List Call) (q : EpollPoller K × Channel)
      → IsSound p c
      → run p c xs ≡ some q
      → IsLeft p c.fd q
  unfolding run
  run-IsLeft p c [] q s h = subst (λ y. IsLeft p c.fd y) (some_same (p, c) q h) (stays-IsLeft p c s)
  run-IsLeft p c (x ∷ xs) q s h = elim (Option-cases (step p c x)) [
    | inl n ↦ ground (arith, h, n)
    | inr (r, n) ↦
        let l = step-some p c x r s n in
        then-IsLeft p c.fd r q l (run-IsLeft r.0 r.1 xs q l.sound (sym (run_cons p c x xs r n) ∙ h))
  ]

-- ===== src/Poller/Tests.antt =====
-- A channel of src/net/channel.cpp with a kernel that is a list of descriptors.
use hc_tcp_im_server.Common.{ℕ, ◌+◌, ◌^◌, ◌≡◌, refl, true, false, none, some, List, [], ◌∷◌}
use hc_tcp_im_server.Common.Dict.{Dict, find, put, erase, number_key, find-put, find-erase}
use hc_tcp_im_server.Poller
use hc_tcp_im_server.Poller.{
  Channel, Epoll, EpollPoller, Operation, epoll_ctl_add, epoll_ctl_mod, epoll_ctl_del, new_channel,
  k_new, k_added, k_deleted,
}
use hc_tcp_im_server.Poller.Watching.{IsSound, IsLeft, fresh}
use hc_tcp_im_server.Poller.Calls
use hc_tcp_im_server.Poller.Calls.{
  Call, enables_reading, enables_writing, disables_all, removes, step, run, is_allowed, step-IsLeft,
  run-IsLeft,
}

abbrev Kernel : Type 0
Kernel = Dict ℕ (ℕ × ℕ)

abbrev control : Kernel → Operation → ℕ → ℕ → ℕ → Kernel
control k epoll_ctl_add fd events p = put fd (events, p) k
control k epoll_ctl_mod fd events p = put fd (events, p) k
control k epoll_ctl_del fd events p = erase fd k

instance abbrev listed : Epoll Kernel
listed = record {
  epoll_ctl = control;
  watched = λ k fd. find fd k;
  watched_add = λ k fd events p g h. find-put fd g (events, p) k;
  watched_mod = λ k fd events p g w h. find-put fd g (events, p) k;
  watched_del = λ k fd events p g w h. find-erase fd g k;
}

-- Descriptor 4 is watched for another channel.
abbrev poller : EpollPoller Kernel
poller = record { kernel = (4, (1, 900)) ∷ []; channels = (4, 900) ∷ []; use_edge_trigger = true }

abbrev channel : Channel
channel = record {
  address = 1000;
  fd = 7;
  events = 0;
  revents = 0;
  index = k_new;
  added_to_loop = false;
}

channel-IsSound : IsSound poller channel
unfolding find
channel-IsSound = fresh refl refl refl

step-IsLeft_example :
    (is_allowed channel enables_reading ≡ true
      → (q : EpollPoller Kernel × Channel) × (step poller channel enables_reading ≡ some q)
        × IsLeft poller 7 q)
    × (is_allowed channel enables_reading ≡ false → step poller channel enables_reading ≡ none)
step-IsLeft_example = step-IsLeft poller channel enables_reading channel-IsSound

abbrev calls : List Call
calls = enables_reading ∷ enables_writing ∷ disables_all ∷ removes ∷ enables_reading ∷ []

run-IsLeft_example : IsLeft poller 7 (
  record {
    kernel = (4, (1, 900)) ∷ (7, (3 + 2 ^ 31, 1000)) ∷ [];
    channels = (4, 900) ∷ (7, 1000) ∷ [];
    use_edge_trigger = true;
  },
  record channel { events = 3; index = k_added; added_to_loop = true },
)
unfolding find put erase Calls.run Calls.step Poller.enable_reading Poller.enable_writing
    Poller.disable_all Poller.remove Poller.set_events Poller.update_channel Poller.remove_channel
    Poller.update Poller.update_events Poller.is_at Poller.is_absent
run-IsLeft_example = run-IsLeft poller channel calls _ channel-IsSound refl

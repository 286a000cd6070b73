-- ===== src/Poller.antt =====
-- src/net/channel.h, channel.cpp and epollPoller.cpp: a channel, and the poller that has the kernel
-- watch its descriptor. epoll is a parameter. A channel is its members together with its address; an
-- `assert` that fails is a none. The asserts on the thread and the loop are left out.
pub mod Watching
pub mod Calls
mod Tests
use Prim.Native.Nat.{bit_or, bit_and}
use hc_tcp_im_server.Common.{
  ℕ, ◌+◌, ◌-◌, ◌*◌, ◌^◌, ◌≡◌, Bool, true, false, not, ◌&&◌, ◌||◌, Option, none, some, List, [], ◌∷◌,
  ◌++◌, ◌==◌, if◌then◌else◌,
}
use hc_tcp_im_server.Common.Dict.{Dict, find, put, erase, number_key}

-- The bits of poll.h and sys/epoll.h.
abbrev pub pollin : ℕ
pollin = 1

abbrev pub pollpri : ℕ
pollpri = 2

abbrev pub pollout : ℕ
pollout = 4

abbrev pub pollerr : ℕ
pollerr = 8

abbrev pub pollhup : ℕ
pollhup = 16

abbrev pub pollnval : ℕ
pollnval = 32

abbrev pub pollrdhup : ℕ
pollrdhup = 2 ^ 13

abbrev pub epollet : ℕ
epollet = 2 ^ 31

abbrev pub k_none_event : ℕ
k_none_event = 0

abbrev pub k_read_event : ℕ
k_read_event = bit_or pollin pollpri

abbrev pub k_write_event : ℕ
k_write_event = pollout

-- `kNew`, `kAdded` and `kDeleted`
pub data Index : Type 0 where
  k_new k_added k_deleted : Index

pub record Channel : Type 0 where
  pub address : ℕ
  pub fd : ℕ
  pub events : ℕ
  pub revents : ℕ
  pub index : Index
  pub added_to_loop : Bool

unfoldable pub new_channel : ℕ → ℕ → Channel
new_channel address fd = record {
  address = address;
  fd = fd;
  events = 0;
  revents = 0;
  index = k_new;
  added_to_loop = false;
}

abbrev pub is_none_event : Channel → Bool
is_none_event c = c.events == k_none_event

pub data Callback : Type 0 where
  close error read write : Callback

unfoldable pub has_bits : ℕ → ℕ → Bool
has_bits a b = not (bit_and a b == 0)

-- The callbacks that `handleEvent` calls, in order, those that are not set included.
unfoldable pub handle_event : Channel → List Callback
handle_event c =
    let r = c.revents in
    (if has_bits r pollhup && not (has_bits r pollin) then close ∷ [] else [])
    ++ ((if has_bits r (bit_or pollerr pollnval) then error ∷ [] else [])
        ++ ((if has_bits r (bit_or pollin (bit_or pollpri pollrdhup)) then read ∷ [] else [])
            ++ (if has_bits r pollout then write ∷ [] else [])))

pub data Operation : Type 0 where
  epoll_ctl_add epoll_ctl_mod epoll_ctl_del : Operation

-- `epoll_ctl` on a descriptor with its events and the pointer that comes back with them, and what the
-- kernel watches. A descriptor is added when it is not watched and changed or deleted when it is. These
-- are calls that succeed: one that fails, which `update` only logs, is not modelled.
pub record Epoll (K : Type 0) : Type 0 where
  pub epoll_ctl : K → Operation → ℕ → ℕ → ℕ → K
  pub watched : K → ℕ → Option (ℕ × ℕ)
  pub watched_add :
      (k : K) (fd events p g : ℕ)
      → watched k fd ≡ none
      → watched (epoll_ctl k epoll_ctl_add fd events p) g
        ≡ (if fd == g then some (events, p) else watched k g)
  pub watched_mod :
      (k : K) (fd events p g : ℕ) (w : ℕ × ℕ)
      → watched k fd ≡ some w
      → watched (epoll_ctl k epoll_ctl_mod fd events p) g
        ≡ (if fd == g then some (events, p) else watched k g)
  pub watched_del :
      (k : K) (fd events p g : ℕ) (w : ℕ × ℕ)
      → watched k fd ≡ some w
      → watched (epoll_ctl k epoll_ctl_del fd events p) g ≡ (if fd == g then none else watched k g)

-- `m_channels` leads from descriptors to the addresses of channels.
pub record EpollPoller (K : Type 0) : Type 0 where
  pub kernel : K
  pub channels : Dict ℕ ℕ
  pub use_edge_trigger : Bool

unfoldable pub is_at : {K : Type 0} → EpollPoller K → Channel → Bool
is_at p c = elim (find c.fd p.channels) [ none ↦ false | some a ↦ a == c.address ]

-- `m_channels.find(fd) == m_channels.end()`
unfoldable pub is_absent : {K : Type 0} → EpollPoller K → Channel → Bool
is_absent p c = elim (find c.fd p.channels) [ none ↦ true | some a ↦ false ]

module _ {K : Type 0} ⦃e : Epoll K⦄ where
  -- The events that `update` passes on.
  unfoldable pub update_events : EpollPoller K → Operation → Channel → ℕ
  update_events p op c = elim op [
    | epoll_ctl_del ↦ c.events
    | _ ↦ if p.use_edge_trigger then bit_or c.events epollet else c.events
  ]

  unfoldable pub update : EpollPoller K → Operation → Channel → EpollPoller K
  update p op c = record p {
    kernel = e.epoll_ctl p.kernel op c.fd (update_events p op c) c.address;
  }

  unfoldable pub update_channel : EpollPoller K → Channel → Option (EpollPoller K × Channel)
  update_channel p c =
      let added : Channel = record c { index = k_added } in
      elim c.index [
        | k_new ↦
            if is_absent p c
            then (let p' = record p { channels = put c.fd c.address p.channels } in
                some (update p' epoll_ctl_add added, added))
            else none
        | k_deleted ↦ if is_at p c then some (update p epoll_ctl_add added, added) else none
        | k_added ↦
            if not (is_at p c)
            then none
            else if is_none_event c
            then some (update p epoll_ctl_del c, record c { index = k_deleted })
            else some (update p epoll_ctl_mod c, c)
      ]

  unfoldable pub remove_channel : EpollPoller K → Channel → Option (EpollPoller K × Channel)
  remove_channel p c =
      let erased = record p { channels = erase c.fd p.channels } in
      let gone : Channel = record c { index = k_new } in
      if not (is_at p c) || not (is_none_event c) then none else elim c.index [
        | k_new ↦ none
        | k_added ↦ some (update erased epoll_ctl_del c, gone)
        | k_deleted ↦ some (erased, gone)
      ]

  -- `Channel::update`
  unfoldable pub set_events : EpollPoller K → Channel → ℕ → Option (EpollPoller K × Channel)
  set_events p c events = update_channel p (record c { events = events; added_to_loop = true })

  unfoldable pub enable_reading : EpollPoller K → Channel → Option (EpollPoller K × Channel)
  enable_reading p c = set_events p c (bit_or c.events k_read_event)

  -- The complement has 32 bits.
  unfoldable pub disable_reading : EpollPoller K → Channel → Option (EpollPoller K × Channel)
  disable_reading p c = set_events p c (bit_and c.events (2 ^ 32 - 1 - k_read_event))

  unfoldable pub enable_writing : EpollPoller K → Channel → Option (EpollPoller K × Channel)
  enable_writing p c = set_events p c (bit_or c.events k_write_event)

  unfoldable pub disable_writing : EpollPoller K → Channel → Option (EpollPoller K × Channel)
  disable_writing p c = set_events p c (bit_and c.events (2 ^ 32 - 1 - k_write_event))

  unfoldable pub disable_all : EpollPoller K → Channel → Option (EpollPoller K × Channel)
  disable_all p c = set_events p c k_none_event

  -- `Channel::remove`
  unfoldable pub remove : EpollPoller K → Channel → Option (EpollPoller K × Channel)
  remove p c =
      if not (is_none_event c) then none else remove_channel p (record c { added_to_loop = false })

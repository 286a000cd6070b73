-- ===== src/Poller/Watching.antt =====
-- src/net/epollPoller.cpp and channel.cpp: the kernel watches a channel's descriptor as the channel
-- says, whatever calls it sees, and the calls leave the other descriptors alone.
use Prim.Native.Nat.{bit_or}
use hc_tcp_im_server.Common.{
  ℕ, ◌≡◌, ◌⊎◌, refl, ap, ◌∙◌, Bool, true, false, not, ◌&&◌, none, some, arith, ◌==◌, ==_iff,
  Bool-cases, inl, inr, if◌then◌else◌,
}
use hc_tcp_im_server.Common.Dict.{find, put, erase, number_key, find-put, find-erase, find-put_self}
use hc_tcp_im_server.Poller.{
  Channel, Epoll, EpollPoller, k_new, k_added, k_deleted, epollet, is_none_event, epoll_ctl_add,
  epoll_ctl_mod, epoll_ctl_del, is_at, is_absent, update_events, update, update_channel,
  remove_channel, set_events, remove,
}

-- The kernel has the channel's events, edge-triggered or not, and its address.
abbrev pub IsMask : Channel → ℕ × ℕ → Type 0
IsMask c w = (w ≡ (c.events, c.address)) ⊎ (w ≡ (bit_or c.events epollet, c.address))

abbrev pub is_new : Channel → Bool
is_new c = elim c.index [ k_new ↦ true | _ ↦ false ]

if_same : {A : Type 0} (fd : ℕ) (x y : A) → (if fd == fd then x else y) ≡ x
if_same fd x y = rw ((==_iff fd fd).1 refl) refl

if_other : {A : Type 0} (fd g : ℕ) (x y : A) → (fd == g) ≡ false → (if fd == g then x else y) ≡ y
if_other fd g x y n = rw n refl

module _ {K : Type 0} ⦃e : Epoll K⦄ where
  -- A new channel is not registered. An added one is registered and watched, a deleted one is only
  -- registered.
  pub data IsSound (p : EpollPoller K) (c : Channel) : Type 0 where
    fresh :
        c.index ≡ k_new → find c.fd p.channels ≡ none → e.watched p.kernel c.fd ≡ none → IsSound p c
    watching :
        (w : ℕ × ℕ)
        → c.index ≡ k_added
        → find c.fd p.channels ≡ some c.address
        → e.watched p.kernel c.fd ≡ some w
        → IsMask c w
        → IsSound p c
    paused :
        c.index ≡ k_deleted
        → find c.fd p.channels ≡ some c.address
        → e.watched p.kernel c.fd ≡ none
        → IsSound p c

  -- Two pollers have the same registrations, but for one descriptor.
  abbrev pub SameBut : ℕ → EpollPoller K → EpollPoller K → Type 0
  SameBut fd p q =
      (g : ℕ)
      → (fd == g) ≡ false
      → (find g q.channels ≡ find g p.channels) × (e.watched q.kernel g ≡ e.watched p.kernel g)

  -- What a call leaves.
  pub record IsLeft (p : EpollPoller K) (fd : ℕ) (q : EpollPoller K × Channel) : Type 0 where
    pub sound : IsSound q.0 q.1
    pub same_fd : q.1.fd ≡ fd
    pub rest : SameBut fd p q.0

  add-IsMask :
      (p : EpollPoller K) (c : Channel) → IsMask c (update_events p epoll_ctl_add c, c.address)
  unfolding update_events
  add-IsMask p c = elim (Bool-cases p.use_edge_trigger) [
    | inl h ↦ inr (rw h refl)
    | inr h ↦ inl (rw h refl)
  ]

  mod-IsMask :
      (p : EpollPoller K) (c : Channel) → IsMask c (update_events p epoll_ctl_mod c, c.address)
  unfolding update_events
  mod-IsMask p c = elim (Bool-cases p.use_edge_trigger) [
    | inl h ↦ inr (rw h refl)
    | inr h ↦ inl (rw h refl)
  ]

  -- The four ways through `updateChannel`.
  update_new :
      (p : EpollPoller K) (c : Channel)
      → c.index ≡ k_new
      → find c.fd p.channels ≡ none
      → let added : Channel = record c { index = k_added } in
        let p' = record p { channels = put c.fd c.address p.channels } in
        update_channel p c ≡ some (update p' epoll_ctl_add added, added)
  unfolding update_channel is_absent
  update_new p c i f = ground (arith, i, f)

  update_deleted :
      (p : EpollPoller K) (c : Channel)
      → c.index ≡ k_deleted
      → find c.fd p.channels ≡ some c.address
      → let added : Channel = record c { index = k_added } in
        update_channel p c ≡ some (update p epoll_ctl_add added, added)
  unfolding update_channel is_at
  update_deleted p c i f = ground (arith, i, f)

  update_added :
      (p : EpollPoller K) (c : Channel)
      → c.index ≡ k_added
      → find c.fd p.channels ≡ some c.address
      → update_channel p c ≡ (
          if is_none_event c
          then some (update p epoll_ctl_del c, record c { index = k_deleted })
          else some (update p epoll_ctl_mod c, c))
  unfolding update_channel is_at
  update_added p c i f = ground (arith, i, f)

  added-IsLeft :
      (p p' : EpollPoller K) (c : Channel)
      → p'.kernel ≡ p.kernel
      → find c.fd p'.channels ≡ some c.address
      → ((g : ℕ) → (c.fd == g) ≡ false → find g p'.channels ≡ find g p.channels)
      → e.watched p.kernel c.fd ≡ none
      → let added : Channel = record c { index = k_added } in
        IsLeft p c.fd (update p' epoll_ctl_add added, added)
  unfolding update
  added-IsLeft p p' c k f o w =
      let added : Channel = record c { index = k_added } in
      let events = update_events p' epoll_ctl_add added in
      let w' : e.watched p'.kernel c.fd ≡ none = rw k w in
      let law : (g : ℕ)
          → e.watched (e.epoll_ctl p'.kernel epoll_ctl_add c.fd events c.address) g
            ≡ (if c.fd == g then some (events, c.address) else e.watched p'.kernel g) =
        λ g. e.watched_add p'.kernel c.fd events c.address g w' in
      record {
        sound =
            watching (events, c.address) refl f (law c.fd ∙ if_same c.fd _ _) (add-IsMask p' added);
        same_fd = refl;
        rest = λ g n. (o g n, law g ∙ (if_other c.fd g _ _ n ∙ ap (λ x. e.watched x g) k));
      }

  mod-IsLeft :
      (p : EpollPoller K) (c : Channel) (w : ℕ × ℕ)
      → c.index ≡ k_added
      → find c.fd p.channels ≡ some c.address
      → e.watched p.kernel c.fd ≡ some w
      → IsLeft p c.fd (update p epoll_ctl_mod c, c)
  unfolding update
  mod-IsLeft p c w i f h =
      let events = update_events p epoll_ctl_mod c in
      let law : (g : ℕ)
          → e.watched (e.epoll_ctl p.kernel epoll_ctl_mod c.fd events c.address) g
            ≡ (if c.fd == g then some (events, c.address) else e.watched p.kernel g) =
        λ g. e.watched_mod p.kernel c.fd events c.address g w h in
      record {
        sound = watching (events, c.address) i f (law c.fd ∙ if_same c.fd _ _) (mod-IsMask p c);
        same_fd = refl;
        rest = λ g n. (refl, law g ∙ if_other c.fd g _ _ n);
      }

  -- A descriptor that is no longer watched, by a poller with the same kernel.
  del_watched :
      (p p' : EpollPoller K) (c : Channel) (w : ℕ × ℕ) (g : ℕ)
      → p'.kernel ≡ p.kernel
      → e.watched p.kernel c.fd ≡ some w
      → e.watched (update p' epoll_ctl_del c).kernel g
        ≡ (if c.fd == g then none else e.watched p.kernel g)
  unfolding update update_events
  del_watched p p' c w g k h =
      rw k (e.watched_del p.kernel c.fd (update_events p' epoll_ctl_del c) c.address g w h)

  del-IsLeft :
      (p : EpollPoller K) (c : Channel) (w : ℕ × ℕ)
      → find c.fd p.channels ≡ some c.address
      → e.watched p.kernel c.fd ≡ some w
      → IsLeft p c.fd (update p epoll_ctl_del c, record c { index = k_deleted })
  unfolding update
  del-IsLeft p c w f h = record {
    sound = paused refl f (del_watched p p c w c.fd refl h ∙ if_same c.fd _ _);
    same_fd = refl;
    rest = λ g n. (refl, del_watched p p c w g refl h ∙ if_other c.fd g _ _ n);
  }

  -- A change of the events of a sound channel passes the asserts.
  pub set_events-IsLeft :
      (p : EpollPoller K) (c : Channel) (events : ℕ)
      → IsSound p c
      → (q : EpollPoller K × Channel) × (set_events p c events ≡ some q) × IsLeft p c.fd q
  unfolding set_events
  set_events-IsLeft p c events sound =
      let d : Channel = record c { events = events; added_to_loop = true } in
      let added : Channel = record d { index = k_added } in
      elim sound [
        | fresh i f w ↦
            let p' = record p { channels = put c.fd c.address p.channels } in
            (
              (update p' epoll_ctl_add added, added),
              update_new p d i f,
              added-IsLeft p p' d refl (find-put_self c.fd c.address p.channels)
                  (λ g n. find-put c.fd g c.address p.channels ∙ if_other c.fd g _ _ n) w,
            )
        | paused i f w ↦ (
          (update p epoll_ctl_add added, added),
          update_deleted p d i f,
          added-IsLeft p p d refl f (λ g n. refl) w,
        )
        | watching w i f h m ↦ elim (Bool-cases (is_none_event d)) [
          | inl b ↦ (
            (update p epoll_ctl_del d, record d { index = k_deleted }),
            update_added p d i f ∙ rw b refl,
            del-IsLeft p d w f h,
          )
          | inr b ↦ (
            (update p epoll_ctl_mod d, d),
            update_added p d i f ∙ rw b refl,
            mod-IsLeft p d w i f h,
          )
        ]
      ]

  -- `remove` passes its asserts for a registered channel without events.
  pub remove-IsLeft :
      (p : EpollPoller K) (c : Channel)
      → IsSound p c
      → (is_none_event c && not (is_new c)) ≡ true
      → (q : EpollPoller K × Channel) × (remove p c ≡ some q) × IsLeft p c.fd q
  unfolding remove remove_channel is_at update
  remove-IsLeft p c (fresh i f w) h = absurd (ground (arith, i, h))
  remove-IsLeft p c (paused i f w) h =
      let gone : Channel = record c { index = k_new; added_to_loop = false } in
      (
        (record p { channels = erase c.fd p.channels }, gone),
        ground (arith, i, f, h),
        record {
          sound = fresh refl (find-erase c.fd c.fd p.channels ∙ if_same c.fd _ _) w;
          same_fd = refl;
          rest = λ g n. (find-erase c.fd g p.channels ∙ if_other c.fd g _ _ n, refl);
        },
      )
  remove-IsLeft p c (watching w i f k m) h =
      let d : Channel = record c { added_to_loop = false } in
      let gone : Channel = record d { index = k_new } in
      let erased = record p { channels = erase c.fd p.channels } in
      (
        (update erased epoll_ctl_del d, gone),
        ground (arith, i, f, h),
        record {
          sound =
              fresh refl (find-erase c.fd c.fd p.channels ∙ if_same c.fd _ _)
                (del_watched p erased d w c.fd refl k ∙ if_same c.fd _ _);
          same_fd = refl;
          rest = λ g n. (
            find-erase c.fd g p.channels ∙ if_other c.fd g _ _ n,
            del_watched p erased d w g refl k ∙ if_other c.fd g _ _ n,
          );
        },
      )

  pub remove_refused :
      (p : EpollPoller K) (c : Channel)
      → IsSound p c
      → (is_none_event c && not (is_new c)) ≡ false
      → remove p c ≡ none
  unfolding remove remove_channel is_at
  remove_refused p c (fresh i f w) h = ground (arith, i, f, h)
  remove_refused p c (paused i f w) h = ground (arith, i, f, h)
  remove_refused p c (watching w i f k m) h = ground (arith, i, f, h)

-- ===== src/Poller.antt =====
-- Poller.h, Poller.cpp and poller/EPollPoller.cpp: the registry of channels beside the kernel's
-- interest list. The kernel's epoll is a parameter.
pub mod Registry
pub mod Poll
use epoll.Base.{
  ℕ, ◌≡◌, ◌≢◌, Bool, true, false, not, ◌||◌, List, [], ◌∷◌, ◌==◌, Option, none, some, if◌then◌else◌,
  Text, codes, is_some, Result, ok, err, assert, fatal, ◌>>=◌, ◌>>◌,
}
use epoll.Channel.{Channel, Index, pos, index_eq, new_index, is_none_event, set_index}

-- EPOLL_CTL_ADD, EPOLL_CTL_MOD and EPOLL_CTL_DEL
pub data Operation : Type 0 where
  ctl_add ctl_mod ctl_del : Operation

unfoldable pub operation_to_string : Operation → Text
operation_to_string ctl_add = codes "ADD"
operation_to_string ctl_del = codes "DEL"
operation_to_string ctl_mod = codes "MOD"

-- `struct epoll_event`: `events`, and `data.ptr` as the address of a channel.
pub record EpollEvent : Type 0 where
  pub events : ℕ
  pub ptr : ℕ

-- What epoll_ctl(2) documents of one epoll instance. `can_watch` says that the descriptor is open,
-- supports epoll, and that the kernel has room for it.
pub record Epoll : Type 1 where
  pub Kernel : Type 0
  pub interest : Kernel → ℕ → Option EpollEvent
  pub can_watch : Kernel → ℕ → Bool
  -- `true` for a return of 0, `false` for -1
  pub epoll_ctl : Operation → ℕ → EpollEvent → Kernel → Bool × Kernel
  pub add_lem :
      (k : Kernel) (fd : ℕ) (e : EpollEvent)
      → can_watch k fd ≡ true
      → interest k fd ≡ none
      → ((epoll_ctl ctl_add fd e k).0 ≡ true) × (interest (epoll_ctl ctl_add fd e k).1 fd ≡ some e)
  pub mod_lem :
      (k : Kernel) (fd : ℕ) (old e : EpollEvent)
      → can_watch k fd ≡ true
      → interest k fd ≡ some old
      → ((epoll_ctl ctl_mod fd e k).0 ≡ true) × (interest (epoll_ctl ctl_mod fd e k).1 fd ≡ some e)
  pub del_lem :
      (k : Kernel) (fd : ℕ) (old e : EpollEvent)
      → can_watch k fd ≡ true
      → interest k fd ≡ some old
      → ((epoll_ctl ctl_del fd e k).0 ≡ true) × (interest (epoll_ctl ctl_del fd e k).1 fd ≡ none)
  pub frame_lem :
      (o : Operation) (k : Kernel) (fd other : ℕ) (e : EpollEvent)
      → other ≢ fd
      → interest (epoll_ctl o fd e k).1 other ≡ interest k other
  pub can_watch_lem :
      (o : Operation) (k : Kernel) (fd other : ℕ) (e : EpollEvent)
      → can_watch (epoll_ctl o fd e k).1 other ≡ can_watch k other

-- `std::map<int, Channel*>`: descriptors with addresses of channels.
abbrev pub ChannelMap : Type 0
ChannelMap = List (ℕ × ℕ)

unfoldable pub find : ℕ → ChannelMap → Option ℕ
find fd [] = none
find fd ((key, address) ∷ m) = if key == fd then some address else find fd m

unfoldable pub insert : ℕ → ℕ → ChannelMap → ChannelMap
insert fd address [] = (fd, address) ∷ []
insert fd address ((key, old) ∷ m) =
    if key == fd then (fd, address) ∷ m else (key, old) ∷ insert fd address m

unfoldable pub erase : ℕ → ChannelMap → ChannelMap
erase fd [] = []
erase fd ((key, address) ∷ m) = if key == fd then erase fd m else (key, address) ∷ erase fd m

-- `it != end() && it->second == address`
abbrev pub points_to : Option ℕ → ℕ → Bool
points_to none address = false
points_to (some found) address = found == address

abbrev pub added_index : Index
added_index = pos 1

abbrev pub deleted_index : Index
deleted_index = pos 2

module _ (epoll : Epoll) where
  open epoll use {Kernel, epoll_ctl}

  pub record Poller : Type 0 where
    pub channels : ChannelMap
    pub kernel : Kernel

  -- The constructor, with the new epoll instance, none for a negative answer of epoll_create.
  unfoldable pub new : Option Kernel → Result Poller
  new none = err fatal
  new (some k) = ok (record { channels = []; kernel = k })

  unfoldable pub has_channel : Channel → Poller → Bool
  has_channel c p = points_to (find c.fd p.channels) c.address

  -- A failed EPOLL_CTL_DEL is logged, any other failure is fatal.
  after_ctl : Operation → Bool → Poller → Result Poller
  after_ctl o true p = ok p
  after_ctl ctl_del false p = ok p
  after_ctl ctl_add false p = err fatal
  after_ctl ctl_mod false p = err fatal

  unfoldable pub update : Operation → Channel → Poller → Result Poller
  unfolding after_ctl
  update o c p =
      let event : EpollEvent = record { events = c.events; ptr = c.address } in
      let (done, k) = epoll_ctl o c.fd event p.kernel in after_ctl o done (record p { kernel = k })

  add_channel : Channel → Poller → Result (Channel × Poller)
  add_channel c p = do let c' = set_index added_index c; p' ← update ctl_add c' p; ok (c', p')

  -- The three cases of `updateChannel`: the index is kNew, kDeleted, or another.
  update_new : Channel → Poller → Result (Channel × Poller)
  unfolding add_channel
  update_new c p = do
    assert (not (is_some (find c.fd p.channels)))
    add_channel c (record p { channels = insert c.fd c.address p.channels })

  update_deleted : Channel → Poller → Result (Channel × Poller)
  unfolding add_channel
  update_deleted c p = do
    assert (is_some (find c.fd p.channels))
    assert (points_to (find c.fd p.channels) c.address)
    add_channel c p

  delete_channel : Channel → Poller → Result (Channel × Poller)
  delete_channel c p = do p' ← update ctl_del c p; ok (set_index deleted_index c, p')

  modify_channel : Channel → Poller → Result (Channel × Poller)
  modify_channel c p = do p' ← update ctl_mod c p; ok (c, p')

  update_added : Channel → Poller → Result (Channel × Poller)
  unfolding delete_channel modify_channel
  update_added c p = do
    assert (is_some (find c.fd p.channels))
    assert (points_to (find c.fd p.channels) c.address)
    assert (index_eq c.index added_index)
    if is_none_event c then delete_channel c p else modify_channel c p

  unfoldable pub update_channel : Channel → Poller → Result (Channel × Poller)
  unfolding update_new update_deleted update_added
  update_channel c p =
      if index_eq c.index new_index
      then update_new c p
      else (if index_eq c.index deleted_index then update_deleted c p else update_added c p)

  erased : Channel → Poller → Result Poller
  erased c p =
      let p' : Poller = record p { channels = erase c.fd p.channels } in
      if index_eq c.index added_index then update ctl_del c p' else ok p'

  unfoldable pub remove_channel : Channel → Poller → Result (Channel × Poller)
  unfolding erased
  remove_channel c p = do
    assert (is_some (find c.fd p.channels))
    assert (points_to (find c.fd p.channels) c.address)
    assert (is_none_event c)
    assert (index_eq c.index added_index || index_eq c.index deleted_index)
    let n : ℕ = if is_some (find c.fd p.channels) then 1 else 0
    assert (n == 1)
    p' ← erased c p
    ok (set_index new_index c, p')

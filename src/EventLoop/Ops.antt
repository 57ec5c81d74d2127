-- ===== src/EventLoop/Ops.antt =====
-- The event loop, over any epoll, fulfils what channels and their owners ask of it.
use epoll.Base.{ℕ, ◌≡◌, ◌≢◌, refl, Bool, true, not, ◌||◌, [], ◌∷◌, ◌++◌, ok, arith}
use epoll.Channel.{Channel, Index, new_index, none_event, set_index, LoopOps}
use epoll.Poller.{Epoll, Poller}
use epoll.Poller.Registry.{
  Tracks, Fits, Others, unknown, watched, unwatched, next_index, update_channel_lem,
  remove_channel_lem,
}
use epoll.EventLoop.{
  EventLoop, is_in_loop_thread, is_current, absent, queue_in_loop, update_channel, remove_channel,
}

module _ (epoll : Epoll) (F : Type 0) (tid : ℕ) where
  pub record LoopTracks (l : EventLoop epoll F) (c : Channel) : Type 0 where
    pub owner : c.owner_loop ≡ l.address
    pub thread : l.thread_id ≡ tid
    pub tracks : Tracks epoll l.poller c

  -- The `assert` of `removeChannel` on the active channels holds for the channel at `a`.
  abbrev pub LoopRemovable : EventLoop epoll F → ℕ → Type 0
  LoopRemovable l a =
      (not l.event_handling
        || (is_current l.current_active_channel a || absent a l.active_channels))
      ≡ true

  -- The channels of other descriptors stay tracked, and the loop stays the one it is.
  abbrev pub LoopSpares : ℕ → EventLoop epoll F → EventLoop epoll F → Type 0
  LoopSpares fd l l' = (c : Channel) → c.fd ≢ fd → LoopTracks l c → LoopTracks l' c

  pub spares_trans :
      (fd : ℕ) (k l m : EventLoop epoll F)
      → LoopSpares fd k l
      → LoopSpares fd l m
      → LoopSpares fd k m
  spares_trans fd k l m v w c ne t = w c ne (v c ne t)

  -- What the poller spares, the loop spares.
  poller_spares :
      (fd : ℕ) (l : EventLoop epoll F) (p : Poller epoll)
      → Others epoll fd l.poller p
      → LoopSpares fd l (record l { poller = p })
  poller_spares fd l p others c ne t = record {
    owner = t.owner;
    thread = t.thread;
    tracks = others c ne t.tracks;
  }

  next_index-ne-new : (c : Channel) → next_index epoll c ≢ new_index
  next_index-ne-new c = λ e. ground arith

  pub update_lem :
      (c : Channel) (l : EventLoop epoll F)
      → LoopTracks l c
      → (i : Index) × (l' : EventLoop epoll F) × (update_channel epoll F tid c l
          ≡ ok (set_index i c, l'))
        × LoopTracks l' (set_index i c)
        × (i ≢ new_index)
        × (l'.pending_functors ≡ l.pending_functors)
        × (LoopRemovable l c.address → LoopRemovable l' c.address)
        × LoopSpares c.fd l l'
  unfolding update_channel
  update_lem c l t =
      let (p, u) = update_channel_lem epoll l.poller c t.tracks in
      (
        next_index epoll c,
        record l { poller = p },
        ground (arith, t.owner, t.thread, u.done),
        record { owner = t.owner; thread = t.thread; tracks = u.tracks },
        next_index-ne-new c,
        refl,
        λ r. r,
        poller_spares c.fd l p u.others,
      )

  pub remove_lem :
      (c : Channel) (l : EventLoop epoll F)
      → LoopTracks l c
      → LoopRemovable l c.address
      → c.events ≡ none_event
      → c.index ≢ new_index
      → (l' : EventLoop epoll F) × (remove_channel epoll F tid c l ≡ ok (set_index new_index c, l'))
        × LoopTracks l' (set_index new_index c)
        × (l'.pending_functors ≡ l.pending_functors)
        × LoopSpares c.fd l l'
  unfolding remove_channel
  remove_lem c l t r quiet known =
      let (p, u) = remove_channel_lem epoll l.poller c t.tracks quiet known in
      (
        record l { poller = p },
        rw (r) (ground (arith, t.owner, t.thread, u.done)),
        record { owner = t.owner; thread = t.thread; tracks = u.tracks },
        refl,
        poller_spares c.fd l p u.others,
      )

  pub queue_lem :
      (f : F) (c : Channel) (l : EventLoop epoll F)
      → LoopTracks l c
      → LoopTracks (queue_in_loop epoll F f l) c
        × ((queue_in_loop epoll F f l).pending_functors ≡ l.pending_functors ++ (f ∷ []))
        × (LoopRemovable l c.address → LoopRemovable (queue_in_loop epoll F f l) c.address)
        × (true ≡ true → LoopSpares c.fd l (queue_in_loop epoll F f l))
  unfolding queue_in_loop
  queue_lem f c l t = (
    record { owner = t.owner; thread = t.thread; tracks = t.tracks },
    refl,
    λ r. r,
    λ _ o ne u. record { owner = u.owner; thread = u.thread; tracks = u.tracks },
  )

  pub thread_lem :
      (c : Channel) (l : EventLoop epoll F)
      → LoopTracks l c
      → is_in_loop_thread epoll F tid l ≡ true
  thread_lem c l t = ground (arith, t.thread)

  flags_fit :
      (c : Channel) (p : Poller epoll) (handling added tied : Bool) (revents events : ℕ)
      → Fits epoll p c
      → Fits epoll p (record c {
        event_handling = handling;
        added_to_loop = added;
        tied = tied;
        revents = revents;
        events = events;
      })
  flags_fit c p h a t r ev (unknown i f n) = unknown i f n
  flags_fit c p h a t r ev (watched e i f n) = watched e i f n
  flags_fit c p h a t r ev (unwatched i f n) = unwatched i f n

  pub flags_lem :
      (c : Channel) (l : EventLoop epoll F) (handling added tied : Bool) (revents events : ℕ)
      → LoopTracks l c
      → LoopTracks l (record c {
        event_handling = handling;
        added_to_loop = added;
        tied = tied;
        revents = revents;
        events = events;
      })
  flags_lem c l h a t r ev k = record {
    owner = k.owner;
    thread = k.thread;
    tracks = record {
      open_fd = k.tracks.open_fd;
      fits = flags_fit c l.poller h a t r ev k.tracks.fits;
    };
  }

  abbrev pub loop_ops : LoopOps F
  loop_ops = record {
    Loop = EventLoop epoll F;
    update_channel = update_channel epoll F tid;
    remove_channel = remove_channel epoll F tid;
    queue_in_loop = queue_in_loop epoll F;
    in_loop_thread = is_in_loop_thread epoll F tid;
    pending = λ l. l.pending_functors;
    Tracks = LoopTracks;
    Removable = LoopRemovable;
    Spares = LoopSpares;
    calm = λ f. true;
    spares_refl = λ fd l c ne t. t;
    spares_trans = spares_trans;
    update_lem = update_lem;
    remove_lem = remove_lem;
    queue_lem = queue_lem;
    thread_lem = thread_lem;
    flags_lem = flags_lem;
  }

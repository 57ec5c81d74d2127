-- ===== src/Session/Queue.antt =====
-- The event loop as `LoopOps`, with what its own operations may put in its queue: write-complete
-- functors.
use epoll.Base.{
  ℕ, ◌≡◌, ◌≢◌, refl, sym, ap, ◌∙◌, Bool, true, false, ◌&&◌, List, [], ◌∷◌, ◌++◌, ok, arith,
  append_assoc, append-nil,
}
use epoll.Channel.{Channel, Index, new_index, none_event, set_index, LoopOps}
use epoll.Poller.{Epoll}
use epoll.EventLoop.{EventLoop, is_in_loop_thread, queue_in_loop, update_channel, remove_channel}
use epoll.EventLoop.Ops.{
  LoopTracks, LoopRemovable, LoopSpares, spares_trans, update_lem, remove_lem, queue_lem,
  thread_lem, flags_lem,
}
use epoll.TcpConnection.{
  Functor, call_write_complete, call_shutdown_in_loop, call_send_in_loop, call_connect_destroyed,
}

abbrev pub is_write_complete : Functor → Bool
is_write_complete call_write_complete = true
is_write_complete call_shutdown_in_loop = false
is_write_complete (call_send_in_loop message) = false
is_write_complete call_connect_destroyed = false

-- Nothing but write-complete functors.
abbrev pub all_complete : List Functor → Bool
all_complete [] = true
all_complete (f ∷ fs) = is_write_complete f && all_complete fs

all_complete-append :
    (fs gs : List Functor)
    → all_complete fs ≡ true
    → all_complete gs ≡ true
    → all_complete (fs ++ gs) ≡ true
all_complete-append [] gs h k = k
all_complete-append (f ∷ fs) gs h k = ground (arith, h, all_complete-append fs gs, k)

module _ (epoll : Epoll) (tid : ℕ) where
  abbrev Loop : Type 0
  Loop = EventLoop epoll Functor

  -- Other channels are spared, and only write-complete functors have come into the queue.
  pub record Grows (fd : ℕ) (l l' : Loop) : Type 0 where
    pub spares : LoopSpares epoll Functor tid fd l l'
    pub more : List Functor
    pub complete : all_complete more ≡ true
    pub pending_lem : l'.pending_functors ≡ l.pending_functors ++ more

  same-Grows :
      (fd : ℕ) (l l' : Loop)
      → LoopSpares epoll Functor tid fd l l'
      → l'.pending_functors ≡ l.pending_functors
      → Grows fd l l'
  same-Grows fd l l' s p = record {
    spares = s;
    more = [];
    complete = refl;
    pending_lem = p ∙ sym (append-nil l.pending_functors);
  }

  pub Grows-refl : (fd : ℕ) (l : Loop) → Grows fd l l
  Grows-refl fd l = same-Grows fd l l (λ c ne t. t) refl

  pub Grows-trans : (fd : ℕ) (k l m : Loop) → Grows fd k l → Grows fd l m → Grows fd k m
  Grows-trans fd k l m g h = record {
    spares = spares_trans epoll Functor tid fd k l m g.spares h.spares;
    more = g.more ++ h.more;
    complete = all_complete-append g.more h.more g.complete h.complete;
    pending_lem =
        h.pending_lem
        ∙ ap (λ fs. fs ++ h.more) g.pending_lem
        ∙ append_assoc k.pending_functors g.more h.more;
  }

  pub update-Grows :
      (c : Channel) (l : Loop)
      → LoopTracks epoll Functor tid l c
      → (i : Index) × (l' : Loop) × (update_channel epoll Functor tid c l ≡ ok (set_index i c, l'))
        × LoopTracks epoll Functor tid l' (set_index i c)
        × (i ≢ new_index)
        × (l'.pending_functors ≡ l.pending_functors)
        × (LoopRemovable epoll Functor tid l c.address
            → LoopRemovable epoll Functor tid l' c.address)
        × Grows c.fd l l'
  update-Grows c l t =
      let (i, l', e, t', known, p, r, s) = update_lem epoll Functor tid c l t in
      (i, l', e, t', known, p, r, same-Grows c.fd l l' s p)

  pub remove-Grows :
      (c : Channel) (l : Loop)
      → LoopTracks epoll Functor tid l c
      → LoopRemovable epoll Functor tid l c.address
      → c.events ≡ none_event
      → c.index ≢ new_index
      → (l' : Loop) × (remove_channel epoll Functor tid c l ≡ ok (set_index new_index c, l'))
        × LoopTracks epoll Functor tid l' (set_index new_index c)
        × (l'.pending_functors ≡ l.pending_functors)
        × Grows c.fd l l'
  remove-Grows c l t r quiet known =
      let (l', e, t', p, s) = remove_lem epoll Functor tid c l t r quiet known in
      (l', e, t', p, same-Grows c.fd l l' s p)

  pub queue-Grows :
      (f : Functor) (c : Channel) (l : Loop)
      → LoopTracks epoll Functor tid l c
      → LoopTracks epoll Functor tid (queue_in_loop epoll Functor f l) c
        × ((queue_in_loop epoll Functor f l).pending_functors ≡ l.pending_functors ++ (f ∷ []))
        × (LoopRemovable epoll Functor tid l c.address
            → LoopRemovable epoll Functor tid (queue_in_loop epoll Functor f l) c.address)
        × (is_write_complete f ≡ true → Grows c.fd l (queue_in_loop epoll Functor f l))
  queue-Grows f c l t =
      let (t', p, r, s) = queue_lem epoll Functor tid f c l t in
      (
        t',
        p,
        r,
        λ calm. record {
          spares = s refl;
          more = f ∷ [];
          complete = ground (arith, calm);
          pending_lem = p;
        },
      )

  abbrev pub queue_ops : LoopOps Functor
  queue_ops = record {
    Loop = EventLoop epoll Functor;
    update_channel = update_channel epoll Functor tid;
    remove_channel = remove_channel epoll Functor tid;
    queue_in_loop = queue_in_loop epoll Functor;
    in_loop_thread = is_in_loop_thread epoll Functor tid;
    pending = λ l. l.pending_functors;
    Tracks = LoopTracks epoll Functor tid;
    Removable = LoopRemovable epoll Functor tid;
    Spares = Grows;
    calm = is_write_complete;
    spares_refl = Grows-refl;
    spares_trans = Grows-trans;
    update_lem = update-Grows;
    remove_lem = remove-Grows;
    queue_lem = queue-Grows;
    thread_lem = thread_lem epoll Functor tid;
    flags_lem = flags_lem epoll Functor tid;
  }

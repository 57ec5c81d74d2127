-- ===== src/Poller/Registry.antt =====
-- EPollPoller::updateChannel and removeChannel keep the registry and the kernel's interest list
-- in step with the channel's index and events.
use epoll.Base.{
  ℕ, ◌≡◌, ◌≢◌, refl, ap, subst, ◌∙◌, inl, inr, true, ◌&&◌, [], ◌∷◌, ◌==◌, Option, none, some,
  if◌then◌else◌, Bool-cases, ok, arith,
}
use epoll.Channel.{Channel, Index, index_eq, new_index, is_none_event, none_event, set_index}
use epoll.Poller.{
  Operation, ctl_add, ctl_mod, ctl_del, EpollEvent, Epoll, ChannelMap, find, insert, erase,
  added_index, deleted_index, Poller, after_ctl, update, add_channel, update_new, update_deleted,
  delete_channel, modify_channel, update_added, update_channel, erased, remove_channel,
}

find-insert :
    (fd other address : ℕ) (m : ChannelMap)
    → find other (insert fd address m) ≡ (if fd == other then some address else find other m)
unfolding find insert
find-insert fd other address [] = refl
find-insert fd other address ((key, old) ∷ m) = ground (arith, find-insert fd other address m)

find-erase :
    (fd other : ℕ) (m : ChannelMap)
    → find other (erase fd m) ≡ (if fd == other then none else find other m)
unfolding find erase
find-erase fd other [] = ground arith
find-erase fd other ((key, address) ∷ m) = ground (arith, find-erase fd other m)

module _ (epoll : Epoll) where
  open epoll use {
    Kernel, interest, can_watch, epoll_ctl, add_lem, mod_lem, del_lem, frame_lem, can_watch_lem,
  }

  -- The three states of a channel: unknown to the poller, watched, and registered but not watched.
  pub data Fits (p : Poller epoll) (c : Channel) : Type 0 where
    unknown :
        c.index ≡ new_index → find c.fd p.channels ≡ none → interest p.kernel c.fd ≡ none → Fits p c
    watched :
        (e : EpollEvent)
        → c.index ≡ added_index
        → find c.fd p.channels ≡ some c.address
        → interest p.kernel c.fd ≡ some e
        → Fits p c
    unwatched :
        c.index ≡ deleted_index
        → find c.fd p.channels ≡ some c.address
        → interest p.kernel c.fd ≡ none
        → Fits p c

  pub record Tracks (p : Poller epoll) (c : Channel) : Type 0 where
    pub open_fd : can_watch p.kernel c.fd ≡ true
    pub fits : Fits p c

  -- What the kernel is to watch the channel for, and the index that says so.
  abbrev pub wanted : Channel → Option EpollEvent
  wanted c =
      if index_eq c.index added_index && is_none_event c
      then none
      else some (record { events = c.events; ptr = c.address })

  abbrev pub next_index : Channel → Index
  next_index c =
      if index_eq c.index added_index && is_none_event c then deleted_index else added_index

  -- What is tracked of the channels of other descriptors stays so.
  abbrev pub Others : ℕ → Poller epoll → Poller epoll → Type 0
  Others fd p p' = (c : Channel) → c.fd ≢ fd → Tracks p c → Tracks p' c

  pub record Updated (p : Poller epoll) (c : Channel) (p' : Poller epoll) : Type 0 where
    pub done : update_channel epoll c p ≡ ok (set_index (next_index c) c, p')
    pub tracks : Tracks p' (set_index (next_index c) c)
    pub interest_lem : interest p'.kernel c.fd ≡ wanted c
    pub others : Others c.fd p p'

  event_of : Channel → EpollEvent
  event_of c = record { events = c.events; ptr = c.address }

  after : Operation → Channel → Poller epoll → Poller epoll
  unfolding event_of
  after o c p = record p { kernel = (epoll_ctl o c.fd (event_of c) p.kernel).1 }

  Fits_same :
      (p q : Poller epoll) (c : Channel)
      → find c.fd q.channels ≡ find c.fd p.channels
      → interest q.kernel c.fd ≡ interest p.kernel c.fd
      → Fits p c
      → Fits q c
  Fits_same p q c same alike (unknown i f n) = unknown i (same ∙ f) (alike ∙ n)
  Fits_same p q c same alike (watched e i f n) = watched e i (same ∙ f) (alike ∙ n)
  Fits_same p q c same alike (unwatched i f n) = unwatched i (same ∙ f) (alike ∙ n)

  -- A call of epoll_ctl for one descriptor, after a change of the registry for it.
  after-Others :
      (o : Operation) (c : Channel) (p : Poller epoll) (channels : ChannelMap)
      → ((fd : ℕ) → fd ≢ c.fd → find fd channels ≡ find fd p.channels)
      → Others c.fd p (after o c (record p { channels = channels }))
  unfolding after event_of
  after-Others o c p channels same other ne t = record {
    open_fd = can_watch_lem o p.kernel c.fd other.fd (event_of c) ∙ t.open_fd;
    fits =
        Fits_same p _ other (same other.fd ne) (frame_lem o p.kernel c.fd other.fd (event_of c) ne)
          t.fits;
  }

  insert_other :
      (fd other address : ℕ) (m : ChannelMap)
      → other ≢ fd
      → find other (insert fd address m) ≡ find other m
  insert_other fd other address m ne = ground (arith, find-insert fd other address m)

  erase_other :
      (fd other : ℕ) (m : ChannelMap) → other ≢ fd → find other (erase fd m) ≡ find other m
  erase_other fd other m ne = ground (arith, find-erase fd other m)

  update_of_done :
      (o : Operation) (c : Channel) (p : Poller epoll)
      → (epoll_ctl o c.fd (event_of c) p.kernel).0 ≡ true
      → update epoll o c p ≡ ok (after o c p)
  unfolding update after event_of
  update_of_done o c p e = rw (e, after_ctl) refl

  update_by :
      (o : Operation) (p q : Poller epoll) (c : Channel) (i : Index)
      → update_channel epoll c p ≡ ok (set_index i c, after o c q)
      → can_watch q.kernel c.fd ≡ true
      → i ≡ next_index c
      → Fits (after o c q) (set_index i c)
      → interest (after o c q).kernel c.fd ≡ wanted c
      → Others c.fd p (after o c q)
      → (p' : Poller epoll) × Updated p c p'
  unfolding after
  update_by o p q c i call can index fits effect others = (
    after o c q,
    record {
      done = call ∙ ap (λ k. ok (set_index k c, after o c q)) index;
      tracks =
          subst (λ k. Tracks (after o c q) (set_index k c)) index
            (record {
              open_fd = can_watch_lem o q.kernel c.fd c.fd (event_of c) ∙ can;
              fits = fits;
            });
      interest_lem = effect;
      others = others;
    },
  )

  update_unknown :
      (p : Poller epoll) (c : Channel)
      → can_watch p.kernel c.fd ≡ true
      → c.index ≡ new_index
      → find c.fd p.channels ≡ none
      → interest p.kernel c.fd ≡ none
      → (p' : Poller epoll) × Updated p c p'
  unfolding update_channel update_new add_channel after event_of
  update_unknown p c can i f n =
      let q : Poller epoll = record p { channels = insert c.fd c.address p.channels } in
      let (good, new) = add_lem p.kernel c.fd (event_of c) can n in
      update_by ctl_add p q c added_index
        (ground (arith, update_of_done ctl_add (set_index added_index c) q good)) can (ground arith)
        (watched (event_of c) refl (ground (arith, find-insert c.fd c.fd c.address p.channels)) new)
        (ground (arith, new))
        (after-Others ctl_add c p _ (λ fd ne. insert_other c.fd fd c.address p.channels ne))

  update_unwatched :
      (p : Poller epoll) (c : Channel)
      → can_watch p.kernel c.fd ≡ true
      → c.index ≡ deleted_index
      → find c.fd p.channels ≡ some c.address
      → interest p.kernel c.fd ≡ none
      → (p' : Poller epoll) × Updated p c p'
  unfolding update_channel update_deleted add_channel after event_of
  update_unwatched p c can i f n =
      let (good, new) = add_lem p.kernel c.fd (event_of c) can n in
      update_by ctl_add p p c added_index
        (ground (arith, update_of_done ctl_add (set_index added_index c) p good)) can (ground arith)
        (watched (event_of c) refl f new) (ground (arith, new))
        (after-Others ctl_add c p p.channels (λ fd ne. refl))

  update_watched :
      (p : Poller epoll) (c : Channel) (old : EpollEvent)
      → can_watch p.kernel c.fd ≡ true
      → c.index ≡ added_index
      → find c.fd p.channels ≡ some c.address
      → interest p.kernel c.fd ≡ some old
      → (p' : Poller epoll) × Updated p c p'
  unfolding update_channel update_added delete_channel modify_channel after event_of
  update_watched p c old can i f n = elim (Bool-cases (is_none_event c)) [
    | inl quiet ↦
        let (good, new) = del_lem p.kernel c.fd old (event_of c) can n in
        update_by ctl_del p p c deleted_index (ground (arith, update_of_done ctl_del c p good)) can
          (ground arith) (unwatched refl f new) (ground (arith, new))
          (after-Others ctl_del c p p.channels (λ fd ne. refl))
    | inr busy ↦
        let (good, new) = mod_lem p.kernel c.fd old (event_of c) can n in
        update_by ctl_mod p p c added_index (ground (arith, update_of_done ctl_mod c p good)) can
          (ground arith) (watched (event_of c) refl f new) (ground (arith, new))
          (after-Others ctl_mod c p p.channels (λ fd ne. refl))
  ]

  -- `updateChannel` on a channel that the poller keeps track of: no `assert` fails and no
  -- `epoll_ctl` is fatal, the kernel then watches the descriptor for exactly the channel's events
  -- (or no longer, if a watched channel has none), and the index says which.
  pub update_channel_lem :
      (p : Poller epoll) (c : Channel) → Tracks p c → (p' : Poller epoll) × Updated p c p'
  update_channel_lem p c t = by_cases t.fits
    where
      by_cases : Fits p c → (p' : Poller epoll) × Updated p c p'
      by_cases (unknown i f n) = update_unknown p c t.open_fd i f n
      by_cases (watched e i f n) = update_watched p c e t.open_fd i f n
      by_cases (unwatched i f n) = update_unwatched p c t.open_fd i f n

  pub record Removed (p : Poller epoll) (c : Channel) (p' : Poller epoll) : Type 0 where
    pub done : remove_channel epoll c p ≡ ok (set_index new_index c, p')
    pub tracks : Tracks p' (set_index new_index c)
    pub others : Others c.fd p p'

  -- `removeChannel` on a registered channel without events succeeds and forgets it: neither the
  -- poller nor the kernel knows the descriptor afterwards.
  pub remove_channel_lem :
      (p : Poller epoll) (c : Channel)
      → Tracks p c
      → c.events ≡ none_event
      → c.index ≢ new_index
      → (p' : Poller epoll) × Removed p c p'
  unfolding remove_channel erased after event_of
  remove_channel_lem p c t quiet registered = by_cases t.fits
    where
      q : Poller epoll
      q = record p { channels = erase c.fd p.channels }

      gone : find c.fd (erase c.fd p.channels) ≡ none
      gone = ground (arith, find-erase c.fd c.fd p.channels)

      by_cases : Fits p c → (p' : Poller epoll) × Removed p c p'
      by_cases (unknown i f n) = absurd (registered i)
      by_cases (watched e i f n) =
          let (good, new) = del_lem p.kernel c.fd e (event_of c) t.open_fd n in
          (
            after ctl_del c q,
            record {
              done = ground (arith, update_of_done ctl_del c q good);
              tracks = record {
                open_fd = can_watch_lem ctl_del p.kernel c.fd c.fd (event_of c) ∙ t.open_fd;
                fits = unknown refl gone new;
              };
              others = after-Others ctl_del c p _ (λ fd ne. erase_other c.fd fd p.channels ne);
            },
          )
      by_cases (unwatched i f n) = (
        q,
        record {
          done = ground arith;
          tracks = record { open_fd = t.open_fd; fits = unknown refl gone n };
          others = λ other ne o. record {
            open_fd = o.open_fd;
            fits = Fits_same p q other (erase_other c.fd other.fd p.channels ne) refl o.fits;
          };
        },
      )

-- ===== src/Poller/Poll.antt =====
-- `EPollPoller::poll` and `fillActiveChannels`: from what epoll_wait returns to the active channels.
-- The channels lie in a store, by their addresses.
use epoll.Base.{
  ℕ, ◌≡◌, ◌≤◌, refl, sym, ap, ◌∙◌, inl, inr, Bool, true, false, ◌&&◌, List, [], ◌∷◌, map, ltb, leb,
  ◌==◌, Option, none, some, if◌then◌else◌, Bool-cases, Option-cases, is_some, length, Result, ok,
  err, assert, out_of_bounds, ◌>>=◌, ◌>>◌, arith, le→leb, ==_iff,
}
use epoll.Channel.{Channel, set_revents}
use epoll.Poller.{Epoll, EpollEvent, ChannelMap, find, points_to, Poller}

abbrev pub Store : Type 0
Store = ℕ → Option Channel

-- A read or write through a pointer to a channel.
unfoldable pub channel_at : ℕ → Store → Result Channel
channel_at a store = elim (store a) [ none ↦ err out_of_bounds | some c ↦ ok c ]

unfoldable pub put_channel : ℕ → Channel → Store → Store
put_channel a c store b = if b == a then some c else store b

unfoldable pub fill_active_channels : ChannelMap → List EpollEvent → Store → Result (List ℕ × Store)
fill_active_channels channels [] store = ok ([], store)
fill_active_channels channels (e ∷ es) store = do
  c ← channel_at e.ptr store
  assert (is_some (find c.fd channels))
  assert (points_to (find c.fd channels) e.ptr)
  (active, store') ←
      fill_active_channels channels es (put_channel e.ptr (set_revents e.events c) store)
  ok (e.ptr ∷ active, store')

-- `kInitEventListSize`
abbrev pub event_list_size : ℕ
event_list_size = 16

-- What epoll_wait returns: -1, or the events that it wrote to the array.
unfoldable pub poll :
    (epoll : Epoll) → Option (List EpollEvent) → Poller epoll → Store → Result (List ℕ × Store)
poll epoll none p store = ok ([], store)
poll epoll (some es) p store =
    if ltb 0 (length es)
    then assert (leb (length es) event_list_size) >> fill_active_channels p.channels es store
    else ok ([], store)

-- Every event carries the address of a channel that is registered under its descriptor.
unfoldable pub is_known : ChannelMap → Option Channel → ℕ → Bool
is_known channels none a = false
is_known channels (some c) a = points_to (find c.fd channels) a

unfoldable pub are_known : ChannelMap → List EpollEvent → Store → Bool
are_known channels [] store = true
are_known channels (e ∷ es) store =
    is_known channels (store e.ptr) e.ptr && are_known channels es store

-- The events that were received last for the channel at `a`.
unfoldable pub received : ℕ → List EpollEvent → Option ℕ
received a [] = none
received a (e ∷ es) = elim (received a es) [
  | some r ↦ some r
  | none ↦ if a == e.ptr then some e.events else none
]

unfoldable pub updated : Option ℕ → Option Channel → Option Channel
updated none o = o
updated (some r) none = none
updated (some r) (some c) = some (set_revents r c)

known_after :
    (channels : ChannelMap) (es : List EpollEvent) (a r : ℕ) (c : Channel) (store : Store)
    → store a ≡ some c
    → are_known channels es store ≡ true
    → are_known channels es (put_channel a (set_revents r c) store) ≡ true
unfolding are_known put_channel is_known
known_after channels [] a r c store here h = refl
known_after channels (e ∷ es) a r c store here h = elim (Bool-cases (e.ptr == a)) [
  | inl same ↦
      let own : store e.ptr ≡ some c = ap store ((==_iff e.ptr a).0 same) ∙ here in
      let first : is_known channels (store e.ptr) e.ptr ≡ true = ground (arith, h) in
      rw same (
        ground (
          arith,
          ap (λ o. is_known channels o e.ptr) own,
          first,
          h,
          known_after channels es a r c store here,
        ))
  | inr other ↦ rw other (ground (arith, h, known_after channels es a r c store here))
]

updated_step :
    (e : EpollEvent) (es : List EpollEvent) (a : ℕ) (c : Channel) (store : Store)
    → store e.ptr ≡ some c
    → updated (received a es) (put_channel e.ptr (set_revents e.events c) store a)
      ≡ updated (received a (e ∷ es)) (store a)
unfolding updated received put_channel
updated_step e es a c store here = elim (Bool-cases (a == e.ptr)) [
  | inr other ↦ elim (Option-cases (received a es)) [
    | inl nothing ↦ rw (nothing, other) refl
    | inr (r, later) ↦ rw (later, other) refl
  ]
  | inl same ↦
      let own : store a ≡ some c = ap store ((==_iff a e.ptr).0 same) ∙ here in
      elim (Option-cases (received a es)) [
        | inl nothing ↦ rw (nothing, same, own) refl
        | inr (r, later) ↦ rw (later, same, own) refl
      ]
]

is_some-points_to : (o : Option ℕ) (a : ℕ) → points_to o a ≡ true → is_some o ≡ true
is_some-points_to none a h = cc
is_some-points_to (some x) a h = refl

channel_at_lem :
    (a : ℕ) (c : Channel) (store : Store) → store a ≡ some c → channel_at a store ≡ ok c
unfolding channel_at
channel_at_lem a c store here = ground (arith, here)

fill_step :
    (channels : ChannelMap) (e : EpollEvent) (es : List EpollEvent) (store : Store) (c : Channel)
    → store e.ptr ≡ some c
    → points_to (find c.fd channels) e.ptr ≡ true
    → fill_active_channels channels (e ∷ es) store ≡ (
        fill_active_channels channels es (put_channel e.ptr (set_revents e.events c) store)
        >>= λ (active, store'). ok (e.ptr ∷ active, store'))
unfolding fill_active_channels
fill_step channels e es store c here known =
    rw
      (channel_at_lem e.ptr c store here, is_some-points_to (find c.fd channels) e.ptr known, known)
      refl

fill_lem :
    (channels : ChannelMap) (es : List EpollEvent) (store : Store)
    → are_known channels es store ≡ true
    → (store' : Store) × (fill_active_channels channels es store ≡ ok (map (λ e. e.ptr) es, store'))
      × ((a : ℕ) → store' a ≡ updated (received a es) (store a))
unfolding fill_active_channels are_known is_known received updated
fill_lem channels [] store h = (store, refl, λ a. refl)
fill_lem channels (e ∷ es) store h = elim (Option-cases (store e.ptr)) [
  | inl lost ↦ absurd (ground (arith, h, lost))
  | inr (c, here) ↦
      let next = put_channel e.ptr (set_revents e.events c) store in
      let rest = known_after channels es e.ptr e.events c store here (ground (arith, h)) in
      let (store', done, all) = fill_lem channels es next rest in
      let first : is_known channels (store e.ptr) e.ptr ≡ true = ground (arith, h) in
      let known : points_to (find c.fd channels) e.ptr ≡ true =
        sym (ap (λ o. is_known channels o e.ptr) here) ∙ first in
      (
        store',
        fill_step channels e es store c here known ∙ rw done refl,
        λ a. all a ∙ updated_step e es a c store here,
      )
]

empty_fill :
    (channels : ChannelMap) (es : List EpollEvent) (store : Store)
    → ltb 0 (length es) ≡ false
    → ◌≡◌ {A = Result (List ℕ × Store)} (ok ([], store)) (fill_active_channels channels es store)
unfolding fill_active_channels
empty_fill channels [] store h = refl
empty_fill channels (e ∷ es) store h = absurd (ground (arith, h))

-- `poll` with at most 16 events, all of registered channels, succeeds: the active channels are
-- those of the events in their order, a channel with an event has the events that were received for
-- it last, and nothing else of it, and no other channel, is changed.
pub poll_lem :
    (epoll : Epoll) (es : List EpollEvent) (p : Poller epoll) (store : Store)
    → length es ≤ 16
    → are_known p.channels es store ≡ true
    → (store' : Store) × (poll epoll (some es) p store ≡ ok (map (λ e. e.ptr) es, store'))
      × ((a : ℕ) → store' a ≡ updated (received a es) (store a))
unfolding poll
poll_lem epoll es p store few h =
    let (store', done, all) = fill_lem p.channels es store h in
    elim (Bool-cases (ltb 0 (length es))) [
      | inl more ↦ (store', rw (more, le→leb (length es) 16 few) done, all)
      | inr nothing ↦ (store', rw nothing (empty_fill p.channels es store nothing ∙ done), all)
    ]

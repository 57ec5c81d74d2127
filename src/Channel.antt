-- ===== src/Channel.antt =====
-- Channel.h and Channel.cpp: the events that a file descriptor is watched for, and how the events
-- that arrive are handed to the callbacks.
pub mod Events
pub mod Update
pub mod Dispatch
pub mod Printing
use epoll.Base.{
  ℕ, ◌+◌, ◌-◌, ◌^◌, ◌≡◌, ◌≢◌, bit_and, bit_or, Bool, true, false, not, List, [], ◌∷◌, ◌++◌, ◌==◌,
  if◌then◌else◌, Result, ok, assert, ◌>>=◌, ◌>>◌,
}

-- <poll.h>
abbrev pub pollin : ℕ
pollin = 0x1

abbrev pub pollpri : ℕ
pollpri = 0x2

abbrev pub pollout : ℕ
pollout = 0x4

abbrev pub pollerr : ℕ
pollerr = 0x8

abbrev pub pollhup : ℕ
pollhup = 0x10

abbrev pub pollnval : ℕ
pollnval = 0x20

abbrev pub pollrdhup : ℕ
pollrdhup = 0x2000

abbrev pub none_event : ℕ
none_event = 0

abbrev pub read_event : ℕ
read_event = bit_or pollin pollpri

abbrev pub write_event : ℕ
write_event = pollout

-- `int _index`, one of the three constants of EPollPoller.cpp or another number.
pub data Index : Type 0 where
  pos : ℕ → Index
  negsuc : ℕ → Index

abbrev pub index_eq : Index → Index → Bool
index_eq (pos a) (pos b) = a == b
index_eq (negsuc a) (negsuc b) = a == b
index_eq _ _ = false

-- `kNew` of EPollPoller.cpp, and the index of a new channel.
abbrev pub new_index : Index
new_index = negsuc 0

-- A channel; `address` is `this`. Its owner sets all four callbacks, and they are arguments of
-- `handle_event`.
pub record Channel : Type 0 where
  pub owner_loop : ℕ
  pub address : ℕ
  pub fd : ℕ
  pub events : ℕ
  pub revents : ℕ
  pub index : Index
  pub event_handling : Bool
  pub added_to_loop : Bool
  pub tied : Bool

-- The constructor.
unfoldable pub new : ℕ → ℕ → ℕ → Channel
new loop address fd = record {
  owner_loop = loop;
  address = address;
  fd = fd;
  events = 0;
  revents = 0;
  index = new_index;
  event_handling = false;
  added_to_loop = false;
  tied = false;
}

-- `a & b` as a test, and `a & ~b` of an `int` that is not negative.
abbrev pub has : ℕ → ℕ → Bool
has a b = not (bit_and a b == 0)

abbrev pub without : ℕ → ℕ → ℕ
without a b = bit_and a (2 ^ 31 - 1 - b)

abbrev pub is_none_event : Channel → Bool
is_none_event c = c.events == none_event

abbrev pub is_writing : Channel → Bool
is_writing c = has c.events write_event

abbrev pub is_reading : Channel → Bool
is_reading c = has c.events read_event

abbrev pub set_revents : ℕ → Channel → Channel
set_revents r c = record c { revents = r }

abbrev pub set_index : Index → Channel → Channel
set_index i c = record c { index = i }

abbrev pub tie : Channel → Channel
tie c = record c { tied = true }

-- The destructor, with what `isInLoopThread` and `hasChannel` of the loop answer.
unfoldable pub destroy : Bool → Result Bool → Channel → Result (Unit {0})
destroy in_loop_thread has_channel c = do
  assert (not c.event_handling)
  assert (not c.added_to_loop)
  if in_loop_thread then (do found ← has_channel; assert (not found)) else ok _

-- What a channel and its owner ask of the event loop. `F` is the type of the functors that the
-- loop queues.
pub record LoopOps (F : Type 0) : Type 1 where
  pub Loop : Type 0
  pub update_channel : Channel → Loop → Result (Channel × Loop)
  pub remove_channel : Channel → Loop → Result (Channel × Loop)
  pub queue_in_loop : F → Loop → Loop
  pub in_loop_thread : Loop → Bool
  pub pending : Loop → List F
  -- the loop's records fit the channel, and this is the loop's thread
  pub Tracks : Loop → Channel → Type 0
  -- the loop is not about to dispatch to the channel at this address
  pub Removable : Loop → ℕ → Type 0
  -- how a loop may change for the sake of the channel with a descriptor, which spares the channels
  -- with other descriptors; only `calm` functors may be queued
  pub Spares : ℕ → Loop → Loop → Type 0
  pub calm : F → Bool
  pub spares_refl : (fd : ℕ) (l : Loop) → Spares fd l l
  pub spares_trans : (fd : ℕ) (k l m : Loop) → Spares fd k l → Spares fd l m → Spares fd k m
  -- an update succeeds, changes the channel's index only, and leaves it registered
  pub update_lem :
      (c : Channel) (l : Loop)
      → Tracks l c
      → (i : Index) × (l' : Loop) × (update_channel c l ≡ ok (set_index i c, l'))
        × Tracks l' (set_index i c)
        × (i ≢ new_index)
        × (pending l' ≡ pending l)
        × (Removable l c.address → Removable l' c.address)
        × Spares c.fd l l'
  -- a registered channel without events can be removed, and may be registered again
  pub remove_lem :
      (c : Channel) (l : Loop)
      → Tracks l c
      → Removable l c.address
      → c.events ≡ none_event
      → c.index ≢ new_index
      → (l' : Loop) × (remove_channel c l ≡ ok (set_index new_index c, l'))
        × Tracks l' (set_index new_index c)
        × (pending l' ≡ pending l)
        × Spares c.fd l l'
  pub queue_lem :
      (f : F) (c : Channel) (l : Loop)
      → Tracks l c
      → Tracks (queue_in_loop f l) c
        × (pending (queue_in_loop f l) ≡ pending l ++ (f ∷ []))
        × (Removable l c.address → Removable (queue_in_loop f l) c.address)
        × (calm f ≡ true → Spares c.fd l (queue_in_loop f l))
  pub thread_lem : (c : Channel) (l : Loop) → Tracks l c → in_loop_thread l ≡ true
  -- of the channel, only owner, address, descriptor and index matter to the loop
  pub flags_lem :
      (c : Channel) (l : Loop) (handling added tied : Bool) (revents events : ℕ)
      → Tracks l c
      → Tracks l (record c {
        event_handling = handling;
        added_to_loop = added;
        tied = tied;
        revents = revents;
        events = events;
      })

module _ {F : Type 0} (ops : LoopOps F) where
  open ops use {Loop, update_channel, remove_channel}

  pub update : Channel → Loop → Result (Channel × Loop)
  update c l = update_channel (record c { added_to_loop = true }) l

  unfoldable pub remove : Channel → Loop → Result (Channel × Loop)
  remove c l = do assert (is_none_event c); remove_channel (record c { added_to_loop = false }) l

  unfoldable pub enable_reading : Channel → Loop → Result (Channel × Loop)
  unfolding update
  enable_reading c l = update (record c { events = bit_or c.events read_event }) l

  unfoldable pub disable_reading : Channel → Loop → Result (Channel × Loop)
  unfolding update
  disable_reading c l = update (record c { events = without c.events read_event }) l

  unfoldable pub enable_writing : Channel → Loop → Result (Channel × Loop)
  unfolding update
  enable_writing c l = update (record c { events = bit_or c.events write_event }) l

  unfoldable pub disable_writing : Channel → Loop → Result (Channel × Loop)
  unfolding update
  disable_writing c l = update (record c { events = without c.events write_event }) l

  unfoldable pub disable_all : Channel → Loop → Result (Channel × Loop)
  unfolding update
  disable_all c l = update (record c { events = none_event }) l

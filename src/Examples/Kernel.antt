-- ===== src/Examples/Kernel.antt =====
-- An epoll instance that is a function from descriptors to events, and an event loop over it.
use epoll.Base.{
  ℕ, ◌≡◌, ◌≢◌, refl, Bool, true, false, [], ◌∷◌, ◌==◌, Option, none, some, if◌then◌else◌, arith,
}
use epoll.Channel.{Channel, LoopOps, pos}
use epoll.Poller.{Operation, ctl_add, ctl_mod, ctl_del, EpollEvent, Epoll, Poller}
use epoll.EventLoop.{EventLoop}
use epoll.EventLoop.Ops.{loop_ops}
use epoll.TcpConnection.{Functor}

abbrev pub Interests : Type 0
Interests = ℕ → Option EpollEvent

abbrev pub write_interest : Interests → ℕ → Option EpollEvent → Interests
write_interest k fd e = λ other. if other == fd then e else k other

-- EEXIST for a descriptor that is there, ENOENT for one that is not.
abbrev pub ctl_at : Operation → Option EpollEvent → ℕ → EpollEvent → Interests → Bool × Interests
ctl_at ctl_add none fd e k = (true, write_interest k fd (some e))
ctl_at ctl_add (some old) fd e k = (false, k)
ctl_at ctl_mod none fd e k = (false, k)
ctl_at ctl_mod (some old) fd e k = (true, write_interest k fd (some e))
ctl_at ctl_del none fd e k = (false, k)
ctl_at ctl_del (some old) fd e k = (true, write_interest k fd none)

abbrev pub ctl : Operation → ℕ → EpollEvent → Interests → Bool × Interests
ctl o fd e k = ctl_at o (k fd) fd e k

pub add_fits :
    (k : Interests) (fd : ℕ) (e : EpollEvent)
    → true ≡ true
    → k fd ≡ none
    → ((ctl ctl_add fd e k).0 ≡ true) × ((ctl ctl_add fd e k).1 fd ≡ some e)
add_fits k fd e _ n = rw n (refl, ground arith)

pub mod_fits :
    (k : Interests) (fd : ℕ) (old e : EpollEvent)
    → true ≡ true
    → k fd ≡ some old
    → ((ctl ctl_mod fd e k).0 ≡ true) × ((ctl ctl_mod fd e k).1 fd ≡ some e)
mod_fits k fd old e _ n = rw n (refl, ground arith)

pub del_fits :
    (k : Interests) (fd : ℕ) (old e : EpollEvent)
    → true ≡ true
    → k fd ≡ some old
    → ((ctl ctl_del fd e k).0 ≡ true) × ((ctl ctl_del fd e k).1 fd ≡ none)
del_fits k fd old e _ n = rw n (refl, ground arith)

pub frame_fits :
    (o : Operation) (k : Interests) (fd other : ℕ) (e : EpollEvent)
    → other ≢ fd
    → (ctl o fd e k).1 other ≡ k other
frame_fits o k fd other e ne = at (k fd) o
  where
    at : (old : Option EpollEvent) (o : Operation) → (ctl_at o old fd e k).1 other ≡ k other
    at none ctl_add = ground (arith, ne)
    at (some old) ctl_add = refl
    at none ctl_mod = refl
    at (some old) ctl_mod = ground (arith, ne)
    at none ctl_del = refl
    at (some old) ctl_del = ground (arith, ne)

abbrev pub epoll_model : Epoll
epoll_model = record {
  Kernel = Interests;
  interest = λ k. k;
  can_watch = λ k fd. true;
  epoll_ctl = ctl;
  add_lem = add_fits;
  mod_lem = mod_fits;
  del_lem = del_fits;
  frame_lem = frame_fits;
  can_watch_lem = λ o k fd other e. refl;
}

abbrev pub thread : ℕ
thread = 1

abbrev pub ops : LoopOps Functor
ops = loop_ops epoll_model Functor thread

-- Descriptor 5 is watched for input by the channel at address 100.
abbrev pub reading : EpollEvent
reading = record { events = 3; ptr = 100 }

abbrev pub poller : Poller epoll_model
poller = record { channels = (5, 100) ∷ []; kernel = write_interest (λ fd. none) 5 (some reading) }

abbrev pub loop : EventLoop epoll_model Functor
loop = record {
  address = 7;
  looping = true;
  quit = false;
  event_handling = false;
  calling_pending_functors = false;
  thread_id = thread;
  poll_return_time = 0;
  poller = poller;
  active_channels = [];
  current_active_channel = none;
  pending_functors = [];
}

abbrev pub channel : Channel
channel = record {
  owner_loop = 7;
  address = 100;
  fd = 5;
  events = 3;
  revents = 0;
  index = pos 1;
  event_handling = false;
  added_to_loop = true;
  tied = true;
}

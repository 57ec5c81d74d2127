-- ===== src/Examples/Sessions.antt =====
-- A loop with one connection: witnesses.
use epoll.Base.{
  ℕ, ◌≡◌, refl, inr, true, false, List, [], ◌∷◌, ◌==◌, some, none, if◌then◌else◌, ok, arith,
}
use epoll.Buffer.ReadFd.{Received, received}
use epoll.EventLoop.{EventLoop}
use epoll.EventLoop.Ops.{LoopTracks, LoopSpares}
use epoll.EventLoop.Rounds.{Round, round, loop}
use epoll.Poller.{find}
use epoll.Poller.Registry.{Tracks, watched}
use epoll.TcpConnection.{Functor, connected, Connection, Written, wrote}
use epoll.TcpConnection.Invariant.{Inv, stream}
use epoll.Session.{ops, runtime}
use epoll.Session.Polling.{event_of}
use epoll.Session.Rounds.{IsGone, round-IsGone}
use epoll.Examples.Kernel.{epoll_model, thread, reading, poller}
use epoll.Examples.Kernel
use epoll.Examples.Arrivals.{ready, blank}

abbrev Conn : Type 0
Conn = Connection (ops epoll_model thread)

abbrev idle_loop : EventLoop epoll_model Functor
idle_loop = record (Kernel.loop) { looping = false }

abbrev served : Conn
served = record {
  loop = idle_loop;
  state = connected;
  channel = ready;
  input_buffer = blank;
  output_buffer = blank;
  write_complete = true;
  wire = [];
  write_closed = false;
}

-- `hi` arrives at the time 33, and then the end of the input.
abbrev hi : ℕ → Received
hi time = if time == 33 then received (104 ∷ 105 ∷ []) else received []

abbrev nothing_taken : Conn → Written
nothing_taken w = wrote 0

ready-Tracks : Tracks epoll_model poller ready
unfolding find
ready-Tracks = record { open_fd = refl; fits = watched reading refl refl refl }

idle_loop-Tracks : LoopTracks epoll_model Functor thread idle_loop ready
idle_loop-Tracks = record { owner = refl; thread = refl; tracks = ready-Tracks }

served-Inv : Inv (ops epoll_model thread) served
served-Inv = record {
  tracks = idle_loop-Tracks;
  input_valid = omega arith;
  output_valid = omega arith;
  mask = omega arith;
  flow = λ _. refl;
  quiet = λ down. cc;
  registered = λ _ e. cc;
}

round-IsGone_example :
    (w : Conn) × (round epoll_model Functor
        (runtime epoll_model thread hi nothing_taken)
        (some (event_of epoll_model thread 1 served ∷ []), 40)
        served
      ≡ ok w)
    × IsGone epoll_model thread hi nothing_taken w
    × (stream (ops epoll_model thread) w ≡ [])
    × LoopSpares epoll_model Functor thread 5 idle_loop w.loop
round-IsGone_example =
    round-IsGone epoll_model thread hi nothing_taken 1 40 served served-Inv refl refl
      (inr (refl, refl, refl, omega arith))

abbrev rounds : List Round
rounds = (some (event_of epoll_model thread 1 served ∷ []), 33) ∷ (none, 40) ∷ []

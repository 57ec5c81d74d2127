-- ===== src/Examples/Arrivals.antt =====
-- Input that arrives at a connection, and its end: witnesses.
use epoll.Base.{◌≡◌, ◌≤◌, refl, Bool, true, false, [], ◌∷◌, length, replicate, ok, arith}
use epoll.Buffer.{Buffer}
use epoll.Buffer.Valid.{content}
use epoll.Buffer.ReadFd.{received}
use epoll.Channel.{Channel}
use epoll.Channel.Dispatch.{handle_event}
use epoll.Poller.{find}
use epoll.Poller.Registry.{Tracks, watched}
use epoll.EventLoop.Ops.{LoopTracks}
use epoll.TcpConnection.{Functor, connected, Connection, Callbacks, Written, wrote}
use epoll.TcpConnection.Invariant.{Inv, Keeps-refl, Keeps, is_up}
use epoll.TcpConnection.Owner.{taken, Minds, MindsInput, as_owner}
use epoll.TcpConnection.Dispatch.{handle_event-Inv}
use epoll.Examples.Kernel.{epoll_model, thread, ops, poller, loop, channel, reading}

-- POLLIN and POLLOUT have arrived.
abbrev pub ready : Channel
ready = record channel { revents = 5; tied = true }

abbrev pub blank : Buffer
blank = record { buffer = replicate 24 0; reader_index = 8; writer_index = 8 }

abbrev pub served : Connection ops
served = record {
  loop = loop;
  state = connected;
  channel = ready;
  input_buffer = blank;
  output_buffer = blank;
  write_complete = false;
  wire = [];
  write_closed = false;
}

ready-Tracks : Tracks epoll_model poller ready
unfolding find
ready-Tracks = record { open_fd = refl; fits = watched reading refl refl refl }

ready_loop-Tracks : LoopTracks epoll_model Functor thread loop ready
ready_loop-Tracks = record { owner = refl; thread = refl; tracks = ready-Tracks }

pub served-Inv : Inv ops served
served-Inv = record {
  tracks = ready_loop-Tracks;
  input_valid = omega arith;
  output_valid = omega arith;
  mask = omega arith;
  flow = λ _. refl;
  quiet = λ down. cc;
  registered = λ _ e. cc;
}

abbrev silent : Callbacks ops
silent = record {
  connection_callback = λ w. ok w;
  message_callback = λ w. ok w;
  close_callback = λ w. ok w;
}

silent-MindsInput : MindsInput ops (λ w. ok w)
silent-MindsInput = record { input_lem = λ w v u fits. (w, refl, v, u, refl, Keeps-refl ops w) }

silent-Minds : (up : Bool) → Minds ops (λ w. ok w) up
silent-Minds up = record { mind_lem = λ w v u. (w, refl, v, u, refl, Keeps-refl ops w) }

abbrev pub none_taken : Connection ops → Written
none_taken w = wrote 0

pub none_taken_fits : (w : Connection ops) → taken (none_taken w) ≤ length (content w.output_buffer)
none_taken_fits w = omega arith

handle_event-Inv_example :
    (w : Connection ops) × (handle_event
        (as_owner ops silent (received (104 ∷ 105 ∷ [])) none_taken)
        true
        33
        served
      ≡ ok w)
    × Inv ops w
    × (w.channel.event_handling ≡ false)
    × (is_up w.state ≡ true)
    × Keeps ops served w
handle_event-Inv_example =
    handle_event-Inv ops silent silent-MindsInput (silent-Minds false) (silent-Minds false) refl
      (received (104 ∷ 105 ∷ [])) none_taken none_taken_fits 33 served served-Inv refl refl
      (omega arith) (omega arith) (omega arith)

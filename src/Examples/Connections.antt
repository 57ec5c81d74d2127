-- ===== src/Examples/Connections.antt =====
-- The poller, and the stream of a connection over the concrete epoll.
use epoll.Base.{◌≡◌, refl, true, false, [], ◌∷◌, ◌++◌, replicate, ok, arith}
use epoll.Buffer.{Buffer, append, retrieve, ensure_writable_bytes}
use epoll.Channel.{Channel}
use epoll.Poller.{Poller, find}
use epoll.Poller.Registry.{
  Tracks, watched, Updated, Removed, update_channel_lem, remove_channel_lem,
}
use epoll.EventLoop.Ops.{LoopTracks}
use epoll.TcpConnection.{
  write_output, after_handle_write, write_taken, Functor, connected, disconnecting, Connection,
  wrote, handle_write, shutdown,
}
use epoll.TcpConnection.Sending.{attempt, buffer_rest, send, send_in_loop_ex}
use epoll.TcpConnection.Invariant.{Inv}
use epoll.TcpConnection.Stream.{Sent, send_in_loop_ex_lem}
use epoll.TcpConnection.Flush.{Flushed, handle_write_lem}
use epoll.TcpConnection.Progress.{History-proceeds}
use epoll.TcpConnection.History.{History, start, sends, writes, shuts, Streams, History-Streams}
use epoll.Examples.Kernel.{epoll_model, thread, ops, poller, loop, channel, reading}

poller-Tracks : Tracks epoll_model poller channel
unfolding find
poller-Tracks = record { open_fd = refl; fits = watched reading refl refl refl }

loop-Tracks : LoopTracks epoll_model Functor thread loop channel
loop-Tracks = record { owner = refl; thread = refl; tracks = poller-Tracks }

-- The channel now waits for room to write too.
abbrev both : Channel
both = record channel { events = 7 }

both-Tracks : Tracks epoll_model poller both
unfolding find
both-Tracks = record { open_fd = refl; fits = watched reading refl refl refl }

update_channel_lem_example : (p : Poller epoll_model) × Updated epoll_model poller both p
update_channel_lem_example = update_channel_lem epoll_model poller both both-Tracks

abbrev off : Channel
off = record channel { events = 0 }

off-Tracks : Tracks epoll_model poller off
unfolding find
off-Tracks = record { open_fd = refl; fits = watched reading refl refl refl }

remove_channel_lem_example : (p : Poller epoll_model) × Removed epoll_model poller off p
remove_channel_lem_example = remove_channel_lem epoll_model poller off off-Tracks refl (λ e. cc)

abbrev pub hello : Buffer
hello = record {
  buffer = replicate 8 0 ++ (104 ∷ 105 ∷ 0 ∷ 0 ∷ []);
  reader_index = 8;
  writer_index = 10;
}

abbrev pub empty : Buffer
empty = record { buffer = replicate 12 0; reader_index = 8; writer_index = 8 }

-- A connection that is up, with two bytes of input.
abbrev pub conn : Connection ops
conn = record {
  loop = loop;
  state = connected;
  channel = channel;
  input_buffer = hello;
  output_buffer = empty;
  write_complete = true;
  wire = [];
  write_closed = false;
}

pub conn-Inv : Inv ops conn
conn-Inv = record {
  tracks = loop-Tracks;
  input_valid = omega arith;
  output_valid = omega arith;
  mask = omega arith;
  flow = λ _. refl;
  quiet = λ down. cc;
  registered = λ _ e. cc;
}

pub conn-Streams : Streams ops [] conn
conn-Streams = record { valid = conn-Inv; up = refl; stream_lem = refl; shut_lem = λ shut. cc }

-- What the connection is after "hi" was sent, and what it is after one byte was written.
sent :
    (w : Connection ops) × (send_in_loop_ex ops (104 ∷ 105 ∷ []) (wrote 0) conn ≡ ok w)
    × Sent ops (104 ∷ 105 ∷ []) conn w
sent = send_in_loop_ex_lem ops (104 ∷ 105 ∷ []) (wrote 0) conn conn-Inv refl (omega arith)

send_in_loop_ex_lem_example :
    (w : Connection ops) × (send_in_loop_ex ops (1 ∷ 2 ∷ []) (wrote 2) conn ≡ ok w)
    × Sent ops (1 ∷ 2 ∷ []) conn w
send_in_loop_ex_lem_example =
    send_in_loop_ex_lem ops (1 ∷ 2 ∷ []) (wrote 2) conn conn-Inv refl (omega arith)

-- Two bytes wait for room.
abbrev waiting_channel : Channel
waiting_channel = record channel { events = 7 }

waiting-Tracks : LoopTracks epoll_model Functor thread loop waiting_channel
waiting-Tracks = record { owner = refl; thread = refl; tracks = both-Tracks }

abbrev waiting : Connection ops
waiting = record conn { channel = waiting_channel; output_buffer = hello }

waiting-Inv : Inv ops waiting
waiting-Inv = record {
  tracks = waiting-Tracks;
  input_valid = omega arith;
  output_valid = omega arith;
  mask = omega arith;
  flow = λ _. refl;
  quiet = λ down. cc;
  registered = λ _ e. cc;
}

handle_write_lem_example :
    (w : Connection ops) × (handle_write ops (wrote 1) waiting ≡ ok w) × Flushed ops 1 waiting w
handle_write_lem_example = handle_write_lem ops 1 waiting waiting-Inv refl (omega arith)

handle_write_all :
    (w : Connection ops) × (handle_write ops (wrote 2) waiting ≡ ok w) × Flushed ops 2 waiting w
handle_write_all = handle_write_lem ops 2 waiting waiting-Inv refl (omega arith)

-- One byte of "hi" is written, "!" is sent, and the connection is half closed while two bytes wait.
abbrev one_written : Connection ops
one_written = record waiting { output_buffer = record hello { reader_index = 9 }; wire = 104 ∷ [] }

abbrev more_sent : Connection ops
more_sent = record one_written {
  output_buffer = record {
    buffer = replicate 8 0 ++ (104 ∷ 105 ∷ 33 ∷ 0 ∷ []);
    reader_index = 9;
    writer_index = 11;
  };
}

abbrev half_closed : Connection ops
half_closed = record more_sent { state = disconnecting }

history : History ops waiting (33 ∷ []) half_closed
unfolding handle_write write_output after_handle_write write_taken retrieve send send_in_loop_ex
    attempt buffer_rest append ensure_writable_bytes shutdown
history =
    shuts (sends (33 ∷ []) (wrote 0) (writes 1 start (omega arith) refl) (omega arith) refl) refl

History-Streams_example : Streams ops (104 ∷ 105 ∷ 33 ∷ []) half_closed
History-Streams_example = History-Streams ops history waiting-Inv refl refl

History-proceeds_example :
    ((after : Connection ops) × (send ops (33 ∷ []) (wrote 0) half_closed ≡ ok after))
    × ((after : Connection ops) × (handle_write ops (wrote 1) half_closed ≡ ok after))
    × ((after : Connection ops) × (shutdown ops half_closed ≡ ok after))
History-proceeds_example =
    History-proceeds ops (33 ∷ []) (wrote 0) 1 history waiting-Inv refl refl (omega arith)
      (omega arith)

-- ===== src/Session/Serving.antt =====
-- Rounds of the loop in which its connection stays connected.
use epoll.Base.{
  ℕ, ◌+◌, ◌^◌, ◌≡◌, ◌≤◌, ◌<◌, refl, sym, ap, ◌∙◌, true, false, List, [], ◌∷◌, ◌++◌, ◌==◌, some,
  none, length, ok, max_size, arith, append-nil,
}
use epoll.Buffer.Valid.{content}
use epoll.Buffer.ReadFd.{Received, received, readv_room, extra_size}
use epoll.Channel.Dispatch.{is_hung_up, is_readable}
use epoll.Poller.{Epoll}
use epoll.Poller.Poll.{poll}
use epoll.EventLoop.{EventLoop, run_all, do_pending_functors}
use epoll.EventLoop.Rounds.{round, handle_active}
use epoll.TcpConnection.{Functor, connected, Connection, Written}
use epoll.TcpConnection.History.{Streams}
use epoll.TcpConnection.Owner.{taken, AnswerFits}
use epoll.TcpConnection.Echo.{handle_event-still}
use epoll.Session.Queue.{Grows}
use epoll.Session.{ops, remove_connection, run_functor, runtime}
use epoll.Session.Polling.{event_of, run_complete}
use epoll.Session.Rounds.{polled, swapped, finished, relooped, polled-Inv, round_of}

module _ (epoll : Epoll) (tid : ℕ) where
  abbrev Conn : Type 0
  Conn = Connection (ops epoll tid)

  -- The connection is connected, has heard and answered these bytes, and nothing waits.
  pub record Serves (heard : List ℕ) (w : Conn) : Type 0 where
    pub streams : Streams (ops epoll tid) heard w
    pub open_lem : w.state ≡ connected
    pub idle_lem : w.loop.pending_functors ≡ []
    pub read_lem : content w.input_buffer ≡ []

  -- Bytes that arrive, and for which there is room.
  pub record Arrives (answer : Received) (x : ℕ) (bytes : List ℕ) (w : Conn) : Type 0 where
    pub answer_lem : answer ≡ received (x ∷ bytes)
    pub still : is_hung_up w.channel.revents ≡ false
    pub readable : is_readable w.channel.revents ≡ true
    pub room : length (x ∷ bytes) ≤ readv_room w.input_buffer
    pub limit : length w.input_buffer.buffer + extra_size ≤ max_size
    pub answer_room : AnswerFits (ops epoll tid) (length (x ∷ bytes)) w
    pub short : length (content w.input_buffer) + length (x ∷ bytes) < 2 ^ 31

  pub relooped-Streams :
      (l : EventLoop epoll Functor) (heard : List ℕ) (w : Conn)
      → l.address ≡ w.loop.address
      → l.thread_id ≡ w.loop.thread_id
      → l.poller ≡ w.loop.poller
      → Streams (ops epoll tid) heard w
      → Streams (ops epoll tid) heard (record w { loop = l })
  relooped-Streams l heard w a t p s = record {
    valid = relooped epoll tid l w a t p s.valid;
    up = s.up;
    stream_lem = s.stream_lem;
    shut_lem = s.shut_lem;
  }

  polled-Streams :
      (events time : ℕ) (heard : List ℕ) (w : Conn)
      → Streams (ops epoll tid) heard w
      → Streams (ops epoll tid) heard (polled epoll tid events time w)
  polled-Streams events time heard w s = record {
    valid = polled-Inv epoll tid events time w s.valid;
    up = s.up;
    stream_lem = s.stream_lem;
    shut_lem = s.shut_lem;
  }

  module _ (readv : ℕ → Received) (write : Conn → Written)
      (fits : (w : Conn) → taken (write w) ≤ length (content w.output_buffer)) where
    -- Only write-complete functors have come in.
    all_ran :
        (w w₃ : Conn)
        → w.loop.pending_functors ≡ []
        → Grows epoll tid w.channel.fd w.loop w₃.loop
        → run_all epoll Functor
            (run_functor epoll tid readv write)
            w₃.loop.pending_functors
            (swapped epoll tid w₃)
          ≡ ok (swapped epoll tid w₃)
    unfolding run_all
    all_ran w w₃ idle g =
        ap
          (λ fs.
            run_all epoll Functor (run_functor epoll tid readv write) fs (swapped epoll tid w₃))
          (g.pending_lem ∙ ap (λ fs. fs ++ g.more) idle ∙ sym (append-nil g.more))
        ∙ run_complete epoll tid readv write g.more [] (swapped epoll tid w₃) g.complete

    -- The same without input or a hang-up: only the output may move.
    pub still-Serves :
        (events time : ℕ) (heard : List ℕ) (w : Conn)
        → Serves heard w
        → is_hung_up events ≡ false
        → is_readable events ≡ false
        → (w' : Conn) × (round epoll Functor
              (runtime epoll tid readv write)
              (some (event_of epoll tid events w ∷ []), time)
              w
            ≡ ok w')
          × Serves heard w'
    still-Serves events time heard w s still silent =
        let u = polled epoll tid events time w in
        let v = s.streams.valid in
        let (w₃, e₃, t₃, same, state_lem, keeps) =
          handle_event-still (ops epoll tid) (remove_connection epoll tid) write fits (readv time)
            time heard u (polled-Streams events time heard w s.streams) still silent in
        let g = (keeps refl).spares in
        (
          finished epoll tid (swapped epoll tid w₃),
          round_of epoll tid readv write events time w w₃ (swapped epoll tid w₃) v.tracks
              (v.registered s.streams.up) e₃ (all_ran u w₃ s.idle_lem g),
          record {
            streams =
                relooped-Streams (finished epoll tid (swapped epoll tid w₃)).loop _ w₃ refl refl
                  refl t₃;
            open_lem = state_lem ∙ s.open_lem;
            idle_lem = refl;
            read_lem = ap content same ∙ s.read_lem;
          },
        )

    -- The connection after a round without events.
    abbrev pub passed : ℕ → Conn → Conn
    passed time w = record w {
      loop = record (w.loop) {
        active_channels = [];
        poll_return_time = time;
        event_handling = false;
        current_active_channel = none;
        calling_pending_functors = false;
        pending_functors = [];
      };
    }

    pub nothing_lem :
        (time : ℕ) (w : Conn)
        → w.loop.pending_functors ≡ []
        → round epoll Functor (runtime epoll tid readv write) (none, time) w ≡ ok (passed time w)
    unfolding round poll handle_active do_pending_functors run_all
    nothing_lem time w idle =
        let own : (w.channel.address == w.channel.address) ≡ true = ground arith in
        rw (own, idle) refl

    pub nothing-Serves :
        (time : ℕ) (heard : List ℕ) (w : Conn) → Serves heard w → Serves heard (passed time w)
    nothing-Serves time heard w s = record {
      streams = relooped-Streams (passed time w).loop heard w refl refl refl s.streams;
      open_lem = s.open_lem;
      idle_lem = refl;
      read_lem = s.read_lem;
    }

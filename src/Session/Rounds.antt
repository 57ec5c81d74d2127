-- ===== src/Session/Rounds.antt =====
-- A round of the loop that brings one event of its connection.
use epoll.Base.{
  ℕ, ◌≡◌, ◌≢◌, refl, sym, ap, ◌∙◌, true, false, [], ◌∷◌, ◌++◌, ◌==◌, some, none, ok, arith, ◌>>=◌,
}
use epoll.Buffer.ReadFd.{Received}
use epoll.Channel.{Channel, new_index, set_revents}
use epoll.Channel
use epoll.Channel.Dispatch.{is_hung_up, is_readable}
use epoll.Channel.Dispatch
use epoll.Poller.{Epoll}
use epoll.EventLoop.{EventLoop, run_all, do_pending_functors, is_in_loop_thread, has_channel}
use epoll.EventLoop.Ops.{LoopTracks, LoopSpares, flags_lem}
use epoll.EventLoop.Rounds.{round, handle_active}
use epoll.TcpConnection.{Functor, call_connect_destroyed, disconnected, Connection, Written}
use epoll.TcpConnection.Ending
use epoll.TcpConnection.EndOfLife.{unknown_lem}
use epoll.TcpConnection.Invariant.{Inv, is_up, stream}
use epoll.TcpConnection.Lifecycle.{connect_destroyed_lem}
use epoll.TcpConnection.Stages.{handlers}
use epoll.Session.{ops, callbacks, run_functor, handle_event, runtime}
use epoll.Session.Closing.{Ends, handle_event-Leaves}
use epoll.Session.Polling.{event_of, told, poll_one, run_complete}

module _ (epoll : Epoll) (tid : ℕ) where
  abbrev Conn : Type 0
  Conn = Connection (ops epoll tid)

  -- The connection as its handler finds it.
  abbrev pub polled : ℕ → ℕ → Conn → Conn
  polled events time w = record w {
    channel = set_revents events w.channel;
    loop = record (w.loop) {
      active_channels = w.channel.address ∷ [];
      poll_return_time = time;
      event_handling = true;
      current_active_channel = some w.channel.address;
    };
  }

  -- The connection as its functors find it, and after them.
  abbrev pub swapped : Conn → Conn
  swapped w = record w {
    loop = record (w.loop) {
      current_active_channel = none;
      event_handling = false;
      calling_pending_functors = true;
      pending_functors = [];
    };
  }

  abbrev pub finished : Conn → Conn
  finished w = record w { loop = record (w.loop) { calling_pending_functors = false } }

  -- The invariant asks of the loop only that it tracks the channel.
  pub relooped :
      (l : EventLoop epoll Functor) (w : Conn)
      → l.address ≡ w.loop.address
      → l.thread_id ≡ w.loop.thread_id
      → l.poller ≡ w.loop.poller
      → Inv (ops epoll tid) w
      → Inv (ops epoll tid) (record w { loop = l })
  relooped l w a t p v = record {
    tracks = record {
      owner = v.tracks.owner ∙ sym a;
      thread = t ∙ v.tracks.thread;
      tracks = rw p v.tracks.tracks;
    };
    input_valid = v.input_valid;
    output_valid = v.output_valid;
    mask = v.mask;
    flow = v.flow;
    quiet = v.quiet;
    registered = v.registered;
  }

  pub polled-Inv :
      (events time : ℕ) (w : Conn)
      → Inv (ops epoll tid) w
      → Inv (ops epoll tid) (polled events time w)
  polled-Inv events time w v =
      let t =
        flags_lem epoll Functor tid w.channel w.loop w.channel.event_handling
          w.channel.added_to_loop w.channel.tied events w.channel.events v.tracks in
      relooped (polled events time w).loop (record w { channel = set_revents events w.channel })
        refl refl refl
        (record {
          tracks = t;
          input_valid = v.input_valid;
          output_valid = v.output_valid;
          mask = v.mask;
          flow = v.flow;
          quiet = v.quiet;
          registered = v.registered;
        })

  module _ (readv : ℕ → Received) (write : Conn → Written) where
    -- A round, from the poll to the functors.
    pub round_of :
        (events time : ℕ) (w w₃ w₅ : Conn)
        → LoopTracks epoll Functor tid w.loop w.channel
        → w.channel.index ≢ new_index
        → Dispatch.handle_event
            (handlers (ops epoll tid) (callbacks epoll tid readv write) (readv time) write)
            true
            time
            (polled events time w)
          ≡ ok w₃
        → run_all epoll Functor
            (run_functor epoll tid readv write)
            w₃.loop.pending_functors
            (swapped w₃)
          ≡ ok w₅
        → round epoll Functor
            (runtime epoll tid readv write)
            (some (event_of epoll tid events w ∷ []), time)
            w
          ≡ ok (finished w₅)
    unfolding round handle_active do_pending_functors handle_event
    round_of events time w w₃ w₅ t known e₃ e₅ =
        let (store, e, here) = poll_one epoll tid readv write events w t known in
        let own : (w.channel.address == w.channel.address) ≡ true = ground arith in
        rw (e, here, own, e₃, e₅) refl

    -- The connection is destroyed, its channel is unknown to the poller, no functor waits, and the
    -- destructors of both will find their asserts true.
    pub record IsGone (w : Conn) : Type 0 where
      pub valid : Inv (ops epoll tid) w
      pub down : w.state ≡ disconnected
      pub unknown_lem : w.channel.index ≡ new_index
      pub still : w.channel.event_handling ≡ false
      pub off : w.channel.added_to_loop ≡ false
      pub pending_lem : w.loop.pending_functors ≡ []
      pub object_lem : Ending.destroy (ops epoll tid) w ≡ ok _
      pub channel_lem :
          Channel.destroy
            (is_in_loop_thread epoll Functor tid w.loop)
            (has_channel epoll Functor tid w.channel w.loop)
            w.channel
          ≡ ok _

    gone :
        (w : Conn)
        → Inv (ops epoll tid) w
        → w.state ≡ disconnected
        → w.channel.index ≡ new_index
        → w.channel.event_handling ≡ false
        → w.channel.added_to_loop ≡ false
        → w.loop.pending_functors ≡ []
        → IsGone w
    unfolding Ending.destroy Channel.destroy
    gone w v down new still off none_waits = record {
      valid = v;
      down = down;
      unknown_lem = new;
      still = still;
      off = off;
      pending_lem = none_waits;
      object_lem = rw down refl;
      channel_lem =
          rw
            (
              unknown_lem epoll tid Functor w.loop w.channel v.tracks new,
              still,
              off,
              v.tracks.thread,
            )
            (ground arith);
    }

    pub relooped-IsGone :
        (l : EventLoop epoll Functor) (w : Conn)
        → l.address ≡ w.loop.address
        → l.thread_id ≡ w.loop.thread_id
        → l.poller ≡ w.loop.poller
        → l.pending_functors ≡ w.loop.pending_functors
        → IsGone w
        → IsGone (record w { loop = l })
    relooped-IsGone l w a t p f g =
        gone (record w { loop = l }) (relooped l w a t p g.valid) g.down g.unknown_lem g.still g.off
          (f ∙ g.pending_lem)

    -- A round in which a connection that is up is hung up with nothing to read, or the end of its
    -- input is read, while no functor waits: nothing faults, the close callback has
    -- `connectDestroyed` queued, which runs before the round ends, and afterwards the connection is
    -- gone: the poller does not know its channel, no functor waits, and the asserts of the
    -- destructors of the connection and of its channel hold. What it has sent stays as it is, and
    -- other channels of the loop are spared.
    pub round-IsGone :
        (events time : ℕ) (w : Conn)
        → Inv (ops epoll tid) w
        → is_up w.state ≡ true
        → w.loop.pending_functors ≡ []
        → Ends epoll tid (readv time) (told epoll tid events w)
        → (w' : Conn) × (round epoll Functor
              (runtime epoll tid readv write)
              (some (event_of epoll tid events w ∷ []), time)
              w
            ≡ ok w')
          × IsGone w'
          × (stream (ops epoll tid) w' ≡ stream (ops epoll tid) w)
          × LoopSpares epoll Functor tid w.channel.fd w.loop w'.loop
    unfolding run_all run_functor
    round-IsGone events time w v up idle ends =
        let u = polled events time w in
        let (w₃, e₃, l, still) =
          handle_event-Leaves epoll tid readv write time (readv time) u (polled-Inv events time w v)
            up ends in
        let v₄ = relooped (swapped w₃).loop w₃ refl refl refl l.valid in
        let (w₅, e₅, v₅, down, new, off, mark, p, s, k) =
          connect_destroyed_lem (ops epoll tid) (callbacks epoll tid readv write) (swapped w₃) v₄
            l.down l.registered refl in
        let waits : w₃.loop.pending_functors ≡ l.more ++ (call_connect_destroyed ∷ []) =
          l.pending_lem ∙ ap (λ fs. fs ++ (l.more ++ (call_connect_destroyed ∷ []))) idle in
        let ran : run_all epoll Functor (run_functor epoll tid readv write) w₃.loop.pending_functors
              (swapped w₃)
            ≡ ok w₅ =
          ap (λ fs. run_all epoll Functor (run_functor epoll tid readv write) fs (swapped w₃)) waits
          ∙ run_complete epoll tid readv write l.more (call_connect_destroyed ∷ []) (swapped w₃)
              l.complete
          ∙ ap (λ r. r >>= run_all epoll Functor (run_functor epoll tid readv write) []) e₅ in
        (
          finished w₅,
          round_of events time w w₃ w₅ v.tracks (v.registered up) e₃ ran,
          gone (finished w₅) (relooped (finished w₅).loop w₅ refl refl refl v₅) down new
              (mark ∙ still) off p,
          s ∙ l.stream_lem,
          λ c ne t.
              let t₃ =
                l.spares c ne (record { owner = t.owner; thread = t.thread; tracks = t.tracks }) in
              let t₅ =
                k.spares.spares c (λ same. ne (same ∙ l.fd_lem))
                  (record { owner = t₃.owner; thread = t₃.thread; tracks = t₃.tracks }) in
              record { owner = t₅.owner; thread = t₅.thread; tracks = t₅.tracks },
        )

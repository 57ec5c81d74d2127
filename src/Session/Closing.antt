-- ===== src/Session/Closing.antt =====
-- `handleEvent` of a connection whose input ends or which is hung up, in its loop.
use epoll.Base.{
  ℕ, ◌+◌, ◌≡◌, ◌≢◌, ◌≤◌, refl, ap, ◌∙◌, ◌⊎◌, inl, inr, Bool, true, false, List, [], ◌∷◌, ◌++◌,
  if◌then◌else◌, length, Result, ok, max_size, append_assoc,
}
use epoll.Buffer.ReadFd.{Received, received, extra_size}
use epoll.Channel.{new_index}
use epoll.Channel.Dispatch.{
  call, call_read, is_hung_up, is_readable, is_writable, revents_of, set_event_handling,
}
use epoll.Channel.Dispatch
use epoll.Poller.{Epoll}
use epoll.EventLoop.{queue_in_loop}
use epoll.EventLoop.Ops.{LoopSpares}
use epoll.TcpConnection.{
  Functor, call_connect_destroyed, disconnected, Connection, Written, handle_close, handle_read,
}
use epoll.TcpConnection.Invariant.{Inv, is_up, stream}
use epoll.TcpConnection.Lifecycle.{handle_close_lem}
use epoll.TcpConnection.Reading.{handle_read_eof}
use epoll.TcpConnection.Owner.{mark-Inv, input-Inv, write_down}
use epoll.TcpConnection.Stages.{handlers, four_stages, alive_lem}
use epoll.TcpConnection.Defaults.{default_connection_callback}
use epoll.Session.Queue.{all_complete}
use epoll.Session.{ops, remove_connection, callbacks}

module _ (epoll : Epoll) (tid : ℕ) where
  abbrev Conn : Type 0
  Conn = Connection (ops epoll tid)

  -- The connection is closed, and its destruction waits in the loop behind what waited there.
  pub record Leaves (w w' : Conn) : Type 0 where
    pub valid : Inv (ops epoll tid) w'
    pub down : w'.state ≡ disconnected
    pub registered : w'.channel.index ≢ new_index
    pub fd_lem : w'.channel.fd ≡ w.channel.fd
    pub address_lem : w'.channel.address ≡ w.channel.address
    pub revents_lem : w'.channel.revents ≡ w.channel.revents
    pub stream_lem : stream (ops epoll tid) w' ≡ stream (ops epoll tid) w
    pub spares : LoopSpares epoll Functor tid w.channel.fd w.loop w'.loop
    pub more : List Functor
    pub complete : all_complete more ≡ true
    pub pending_lem :
        w'.loop.pending_functors
        ≡ w.loop.pending_functors ++ (more ++ (call_connect_destroyed ∷ []))

  -- The events that close a connection: a hang-up with nothing to read, or the end of the input.
  abbrev pub Ends : Received → Conn → Type 0
  Ends answer w =
      ((is_hung_up w.channel.revents ≡ true) × (is_readable w.channel.revents ≡ false))
      ⊎ ((is_hung_up w.channel.revents ≡ false)
          × (is_readable w.channel.revents ≡ true)
          × (answer ≡ received [])
          × (length w.input_buffer.buffer + extra_size ≤ max_size))

  module _ (readv : ℕ → Received) (write : Conn → Written) where
    close-Leaves :
        (w : Conn)
        → Inv (ops epoll tid) w
        → is_up w.state ≡ true
        → (w' : Conn) × (handle_close (ops epoll tid) (callbacks epoll tid readv write) w ≡ ok w')
          × Leaves w w'
    unfolding default_connection_callback remove_connection queue_in_loop
    close-Leaves w v up =
        let (u, e, v', down, quiet, known, _, r, k, input, kept) =
          handle_close_lem (ops epoll tid) (callbacks epoll tid readv write) w v up in
        let (t, p, _, _) =
          (ops epoll tid).queue_lem call_connect_destroyed u.channel u.loop v'.tracks in
        (
          record u { loop = queue_in_loop epoll Functor call_connect_destroyed u.loop },
          e,
          record {
            valid = record {
              tracks = t;
              input_valid = v'.input_valid;
              output_valid = v'.output_valid;
              mask = v'.mask;
              flow = v'.flow;
              quiet = v'.quiet;
              registered = v'.registered;
            };
            down = down;
            registered = known;
            fd_lem = k.fd_lem;
            address_lem = k.address_lem;
            revents_lem = r;
            stream_lem = kept;
            spares = λ c ne s.
                let s' = k.spares.spares c ne s in
                record { owner = s'.owner; thread = s'.thread; tracks = s'.tracks };
            more = k.spares.more;
            complete = k.spares.complete;
            pending_lem =
                ap (λ fs. fs ++ (call_connect_destroyed ∷ [])) k.spares.pending_lem
                ∙ append_assoc w.loop.pending_functors k.spares.more (call_connect_destroyed ∷ []);
          },
        )

    -- The mark that an event is handled does not matter.
    mark-Leaves :
        (w w' : Conn)
        → Leaves (record w { channel = record (w.channel) { event_handling = true } }) w'
        → Leaves w (record w' { channel = record (w'.channel) { event_handling = false } })
    mark-Leaves w w' l = record {
      valid = mark-Inv (ops epoll tid) false w' l.valid;
      down = l.down;
      registered = l.registered;
      fd_lem = l.fd_lem;
      address_lem = l.address_lem;
      revents_lem = l.revents_lem;
      stream_lem = l.stream_lem;
      spares = l.spares;
      more = l.more;
      complete = l.complete;
      pending_lem = l.pending_lem;
    }

    either : {w : Conn} {r : Result Conn} (b : Bool) → r ≡ ok w → (if b then r else ok w) ≡ ok w
    either true e = e
    either false e = refl

    end-Leaves :
        (w : Conn)
        → Inv (ops epoll tid) w
        → is_up w.state ≡ true
        → length w.input_buffer.buffer + extra_size ≤ max_size
        → (w' : Conn) × (handle_read
              (ops epoll tid)
              (callbacks epoll tid readv write)
              (received [])
              w
            ≡ ok w')
          × Leaves w w'
    end-Leaves w v up m =
        let (b, e, h) = handle_read_eof (ops epoll tid) (callbacks epoll tid readv write) w v m in
        let u : Conn = record w { input_buffer = b } in
        let (w', e', l) = close-Leaves u (input-Inv (ops epoll tid) b w h.valid v) up in
        (
          w',
          e ∙ e',
          record {
            valid = l.valid;
            down = l.down;
            registered = l.registered;
            fd_lem = l.fd_lem;
            address_lem = l.address_lem;
            revents_lem = l.revents_lem;
            stream_lem = l.stream_lem;
            spares = l.spares;
            more = l.more;
            complete = l.complete;
            pending_lem = l.pending_lem;
          },
        )

    pub handle_event-Leaves :
        (time : ℕ) (answer : Received) (w : Conn)
        → Inv (ops epoll tid) w
        → is_up w.state ≡ true
        → Ends answer w
        → (w' : Conn) × (Dispatch.handle_event
              (handlers (ops epoll tid) (callbacks epoll tid readv write) answer write)
              true
              time
              w
            ≡ ok w')
          × Leaves w w'
          × (w'.channel.event_handling ≡ false)
    unfolding call call_read
    handle_event-Leaves time answer w v up (inl (hung, silent)) =
        let cb = callbacks epoll tid readv write in
        let owner = handlers (ops epoll tid) cb answer write in
        let w₀ = set_event_handling owner true w in
        let (w₁, e₁, l) = close-Leaves w₀ (mark-Inv (ops epoll tid) true w v) up in
        let e₃ = write_down (ops epoll tid) (write w₁) w₁ l.valid (ap is_up l.down) in
        (
          set_event_handling owner false w₁,
          alive_lem (ops epoll tid) cb answer write time w
              ∙ four_stages (ops epoll tid) cb answer write time w w₁ w₁ w₁ (rw hung e₁)
                  (rw (ap is_readable l.revents_lem ∙ silent) refl)
                  (either (is_writable (revents_of owner w₁)) e₃),
          mark-Leaves w w₁ l,
          refl,
        )
    handle_event-Leaves time answer w v up (inr (still, readable, end, m)) =
        let cb = callbacks epoll tid readv write in
        let owner = handlers (ops epoll tid) cb answer write in
        let w₀ = set_event_handling owner true w in
        let (w₂, e₂, l) = end-Leaves w₀ (mark-Inv (ops epoll tid) true w v) up m in
        let e₃ = write_down (ops epoll tid) (write w₂) w₂ l.valid (ap is_up l.down) in
        (
          set_event_handling owner false w₂,
          alive_lem (ops epoll tid) cb answer write time w
              ∙ four_stages (ops epoll tid) cb answer write time w w₀ w₂ w₂ (rw still refl)
                  (rw (readable, end) e₂) (either (is_writable (revents_of owner w₂)) e₃),
          mark-Leaves w w₂ l,
          refl,
        )

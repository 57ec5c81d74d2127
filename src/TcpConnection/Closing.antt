-- ===== src/TcpConnection/Closing.antt =====
-- A connection with the callbacks that a server sets at first, when its input ends.
use epoll.Base.{
  ℕ, ◌+◌, ◌≡◌, ◌≢◌, ◌≤◌, refl, ap, ◌∙◌, Bool, true, false, [], if◌then◌else◌, length, Result, ok,
  max_size,
}
use epoll.Buffer.Valid.{content}
use epoll.Buffer.ReadFd.{received, extra_size}
use epoll.Channel.{LoopOps, is_none_event, new_index}
use epoll.Channel.Dispatch.{
  call, call_read, is_hung_up, is_readable, is_writable, handle_event, revents_of,
  set_event_handling,
}
use epoll.TcpConnection.{Functor, disconnected, Connection, Written, handle_read}
use epoll.TcpConnection.Defaults.{default_callbacks, default_connection_callback}
use epoll.TcpConnection.Invariant.{Inv, is_up, stream}
use epoll.TcpConnection.Lifecycle.{handle_close_lem}
use epoll.TcpConnection.Reading.{handle_read_eof}
use epoll.TcpConnection.Owner.{mark-Inv, input-Inv, write_down}
use epoll.TcpConnection.Stages.{handlers, four_stages, alive_lem}

module _ (ops : LoopOps Functor) where
  -- What a connection is like when it can be destroyed, once nothing else wants it.
  pub record IsClosed (w : Connection ops) : Type 0 where
    pub valid : Inv ops w
    pub down : w.state ≡ disconnected
    pub quiet : is_none_event w.channel ≡ true
    pub registered : w.channel.index ≢ new_index

module _ (ops : LoopOps Functor) (write : Connection ops → Written) where
  ended :
      (w : Connection ops)
      → Inv ops w
      → is_up w.state ≡ true
      → length w.input_buffer.buffer + extra_size ≤ max_size
      → (w' : Connection ops) × (handle_read ops (default_callbacks ops write) (received []) w
          ≡ ok w')
        × IsClosed ops w'
        × (content w'.input_buffer ≡ content w.input_buffer)
        × (stream ops w' ≡ stream ops w)
  unfolding default_connection_callback
  ended w v up m =
      let (b, e, h) = handle_read_eof ops (default_callbacks ops write) w v m in
      let u : Connection ops = record w { input_buffer = b } in
      let (w', e', v', down, quiet, known, _, _, _, input, kept) =
        handle_close_lem ops (default_callbacks ops write) u (input-Inv ops b w h.valid v) up in
      (
        w',
        e ∙ e',
        record { valid = v'; down = down; quiet = quiet; registered = known },
        ap content input ∙ h.holds,
        kept,
      )

  -- When the end of its input is read, and it has not been hung up, `handleEvent` of a connection
  -- that is up, with the default callbacks, closes it: the connection is disconnected, its channel
  -- is registered still but wants no events, and is not marked as handling one. What has been read
  -- and the stream of what has been sent stay as they are.
  pub handle_event-end :
      (time : ℕ) (w : Connection ops)
      → Inv ops w
      → is_up w.state ≡ true
      → is_hung_up w.channel.revents ≡ false
      → is_readable w.channel.revents ≡ true
      → length w.input_buffer.buffer + extra_size ≤ max_size
      → (w' : Connection ops) × (handle_event
            (handlers ops (default_callbacks ops write) (received []) write)
            true
            time
            w
          ≡ ok w')
        × IsClosed ops w'
        × (w'.channel.event_handling ≡ false)
        × (content w'.input_buffer ≡ content w.input_buffer)
        × (stream ops w' ≡ stream ops w)
  unfolding call call_read
  handle_event-end time w v up still readable m =
      let owner = handlers ops (default_callbacks ops write) (received []) write in
      let w₀ = set_event_handling owner true w in
      let (w₂, e₂, c, same, kept) = ended w₀ (mark-Inv ops true w v) up m in
      let e₃ = write_down ops (write w₂) w₂ c.valid (ap is_up c.down) in
      (
        set_event_handling owner false w₂,
        alive_lem ops (default_callbacks ops write) (received []) write time w
            ∙ four_stages ops (default_callbacks ops write) (received []) write time w w₀ w₂ w₂
                (rw still refl) (rw readable e₂) (either (is_writable (revents_of owner w₂)) e₃),
        record {
          valid = mark-Inv ops false w₂ c.valid;
          down = c.down;
          quiet = c.quiet;
          registered = c.registered;
        },
        refl,
        same,
        kept,
      )
    where
      either :
          {w : Connection ops} {r : Result (Connection ops)} (b : Bool)
          → r ≡ ok w
          → (if b then r else ok w) ≡ ok w
      either true e = e
      either false e = refl

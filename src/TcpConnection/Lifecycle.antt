-- ===== src/TcpConnection/Lifecycle.antt =====
-- From connecting to destroyed: establishing, closing and taking down a connection.
use epoll.Base.{
  ℕ, zero, suc, ◌≡◌, ◌≢◌, bit_or, refl, ◌∙◌, true, false, ◌==◌, ok, err, assertion, ◌>>=◌, arith,
}
use epoll.Channel.{
  Channel, LoopOps, has, is_reading, new_index, none_event, read_event, is_none_event,
}
use epoll.Channel
use epoll.Channel.Events.{switch_lem}
use epoll.Channel.Update.{switched, enable_reading_lem, disable_all_lem}
use epoll.TcpConnection.{
  Functor, disconnected, connecting, connected, disconnecting, Connection, Callbacks,
  is_disconnected, is_connected, connect_established, handle_close, connect_destroyed,
}
use epoll.TcpConnection.Invariant.{Inv, Keeps, is_up, stream}

-- A mask with a read event is not empty.
reads-not_none : (ev : ℕ) → has ev read_event ≡ true → (ev == none_event) ≡ false
reads-not_none zero h = cc
reads-not_none (suc ev) h = ground arith

module _ (ops : LoopOps Functor) (cb : Callbacks ops) where
  open ops use {Tracks, Removable}

  -- `connectEstablished` of a connecting connection reaches its callback, connected, with the
  -- invariant, the channel tied and waiting for input, and the buffers as they were; the channels
  -- of other descriptors are spared.
  pub connect_established_lem :
      (w : Connection ops)
      → Inv ops w
      → w.state ≡ connecting
      → (w' : Connection ops) × (connect_established ops cb w ≡ cb.connection_callback w')
        × Inv ops w'
        × (w'.state ≡ connected)
        × (is_reading w'.channel ≡ true)
        × (w'.channel.tied ≡ true)
        × (stream ops w' ≡ stream ops w)
        × Keeps ops w w'
  unfolding connect_established
  connect_established_lem w v e =
      let tied = Channel.tie w.channel in
      let t =
        ops.flags_lem w.channel w.loop w.channel.event_handling w.channel.added_to_loop true
          w.channel.revents w.channel.events v.tracks in
      let s = enable_reading_lem ops tied w.loop t in
      let m = switch_lem w.channel.events v.mask in
      let thread = ops.thread_lem w.channel w.loop v.tracks in
      let here : is_disconnected w.state ≡ false = ground (arith, e) in
      (
        record w {
          state = connected;
          channel = switched tied (bit_or w.channel.events read_event) s.index;
          loop = s.loop;
        },
        rw (thread, e, s.done) refl,
        record {
          tracks = s.tracks;
          input_valid = v.input_valid;
          output_valid = v.output_valid;
          mask = m.on_read_mask;
          flow = λ _. m.on_read_writes ∙ v.flow here;
          quiet = λ down. cc;
          registered = λ _. s.known;
        },
        refl,
        m.on_read_lem,
        refl,
        refl,
        record { fd_lem = refl; address_lem = refl; spares = s.spares },
      )

  -- `handleClose` of a connection that is up reaches the connection and close callbacks with the
  -- connection down, its channel off, its received events as they were and the invariant kept; what
  -- the loop needs in order to remove the channel stays true, and the channels of other descriptors
  -- are spared; the buffers stay.
  pub handle_close_lem :
      (w : Connection ops)
      → Inv ops w
      → is_up w.state ≡ true
      → (w' : Connection ops) × (handle_close ops cb w
          ≡ (cb.connection_callback w' >>= cb.close_callback))
        × Inv ops w'
        × (w'.state ≡ disconnected)
        × (is_none_event w'.channel ≡ true)
        × (w'.channel.index ≢ new_index)
        × (Removable w.loop w.channel.address → Removable w'.loop w'.channel.address)
        × (w'.channel.revents ≡ w.channel.revents)
        × Keeps ops w w'
        × (w'.input_buffer ≡ w.input_buffer)
        × (stream ops w' ≡ stream ops w)
  unfolding handle_close
  handle_close_lem w v up =
      let s = disable_all_lem ops w.channel w.loop v.tracks in
      let thread = ops.thread_lem w.channel w.loop v.tracks in
      (
        record w {
          state = disconnected;
          channel = switched w.channel none_event s.index;
          loop = s.loop;
        },
        rw (thread, up, s.done) refl,
        record {
          tracks = s.tracks;
          input_valid = v.input_valid;
          output_valid = v.output_valid;
          mask = omega arith;
          flow = λ down. cc;
          quiet = λ _. refl;
          registered = λ down. cc;
        },
        refl,
        refl,
        s.known,
        s.removable,
        refl,
        record { fd_lem = refl; address_lem = refl; spares = s.spares },
        refl,
        refl,
      )

  -- A closed connection is destroyed without a failing `assert`; its channel is then unknown to the
  -- poller, its mark that an event is handled is as before, nothing is
  -- queued, the stream stays as it is, and the channels of other descriptors
  -- are spared.
  pub connect_destroyed_lem :
      (w : Connection ops)
      → Inv ops w
      → w.state ≡ disconnected
      → w.channel.index ≢ new_index
      → Removable w.loop w.channel.address
      → (w' : Connection ops) × (connect_destroyed ops cb w ≡ ok w')
        × Inv ops w'
        × (w'.state ≡ disconnected)
        × (w'.channel.index ≡ new_index)
        × (w'.channel.added_to_loop ≡ false)
        × (w'.channel.event_handling ≡ w.channel.event_handling)
        × (ops.pending w'.loop ≡ ops.pending w.loop)
        × (stream ops w' ≡ stream ops w)
        × Keeps ops w w'
  unfolding connect_destroyed Channel.remove
  connect_destroyed_lem w v down known free =
      let off = v.quiet (ground (arith, down)) in
      let thread = ops.thread_lem w.channel w.loop v.tracks in
      let c : Channel = record w.channel { added_to_loop = false } in
      let t =
        ops.flags_lem w.channel w.loop w.channel.event_handling false w.channel.tied
          w.channel.revents w.channel.events v.tracks in
      let (l, e, t', p, others) = ops.remove_lem c w.loop t free off known in
      let quietly : is_none_event w.channel ≡ true = ground (arith, off) in
      let closed : is_connected w.state ≡ false = ground (arith, down) in
      (
        record w { channel = Channel.set_index new_index c; loop = l },
        rw (thread, closed, quietly, e) refl,
        record {
          tracks = t';
          input_valid = v.input_valid;
          output_valid = v.output_valid;
          mask = v.mask;
          flow = λ up. ground (arith, down, up);
          quiet = λ _. off;
          registered = λ up. ground (arith, down, up);
        },
        down,
        refl,
        refl,
        refl,
        p,
        refl,
        record { fd_lem = refl; address_lem = refl; spares = others },
      )

  -- A half-closed connection that still waits for input cannot be destroyed: `connectDestroyed`
  -- does not switch its channel off, and the `assert` of `Channel::remove` stops the program.
  pub connect_destroyed_half_closed :
      (w : Connection ops)
      → Inv ops w
      → w.state ≡ disconnecting
      → is_reading w.channel ≡ true
      → connect_destroyed ops cb w ≡ err assertion
  unfolding connect_destroyed Channel.remove
  connect_destroyed_half_closed w v half reading =
      let thread = ops.thread_lem w.channel w.loop v.tracks in
      let on : is_none_event w.channel ≡ false = reads-not_none w.channel.events reading in
      rw (thread, half, on) refl

-- ===== src/TcpConnection/Reading.antt =====
-- What arrives at a connection: reading, and the echo of the default message callback.
use epoll.Base.{
  ℕ, ◌+◌, ◌≡◌, ◌≤◌, ◌<◌, refl, ◌∙◌, true, List, [], ◌++◌, length, ok, max_size, ◌^◌, ap,
  size_of_int, le→leb, take_of_length, arith, lt→ltb, append-nil,
}
use epoll.Buffer.{Buffer}
use epoll.Buffer.Valid.{content}
use epoll.Buffer.Bytes.{Holds}
use epoll.Buffer.Transfer.{retrieve_all_as_string_lem}
use epoll.Buffer.ReadFd.{received, read_fd_lem, readv_room, extra_size}
use epoll.Channel.{LoopOps}
use epoll.TcpConnection.{
  Functor, is_connected, connected, Connection, Callbacks, Written, handle_close, after_read,
  handle_read,
}
use epoll.TcpConnection.Sending.{string_piece, default_message_callback}
use epoll.TcpConnection.Invariant.{Inv, Keeps}
use epoll.TcpConnection.History.{Streams, accepted, send_lem}

module _ (ops : LoopOps Functor) (cb : Callbacks ops) where
  -- What `handleRead` does with each answer of `readv`: bytes go into the input buffer behind those
  -- that are there and on to the message callback, end of file closes, and an error changes nothing.
  pub handle_read_bytes :
      (bytes : List ℕ) (w : Connection ops)
      → Inv ops w
      → 0 < length bytes
      → length bytes ≤ readv_room w.input_buffer
      → length w.input_buffer.buffer + extra_size ≤ max_size
      → (b : Buffer) × (handle_read ops cb (received bytes) w
          ≡ cb.message_callback (record w { input_buffer = b }))
        × Holds (content w.input_buffer ++ bytes) b
  unfolding handle_read after_read
  handle_read_bytes bytes w v pos room m =
      let (b, e, h) = read_fd_lem bytes w.input_buffer v.input_valid room m in
      (b, rw (ops.thread_lem w.channel w.loop v.tracks, e, lt→ltb 0 (length bytes) pos) refl, h)

  pub handle_read_eof :
      (w : Connection ops)
      → Inv ops w
      → length w.input_buffer.buffer + extra_size ≤ max_size
      → (b : Buffer) × (handle_read ops cb (received []) w
          ≡ handle_close ops cb (record w { input_buffer = b }))
        × Holds (content w.input_buffer) b
  unfolding handle_read after_read
  handle_read_eof w v m =
      let (b, e, h) = read_fd_lem [] w.input_buffer v.input_valid (omega arith) m in
      (
        b,
        rw (ops.thread_lem w.channel w.loop v.tracks, e) refl,
        record { valid = h.valid; holds = h.holds ∙ append-nil (content w.input_buffer) },
      )

-- A string that is shorter than 2 ^ 31 is shown as it is.
pub string_piece_lem : (s : List ℕ) → length s < 2 ^ 31 → string_piece s ≡ ok s
unfolding string_piece
string_piece_lem s short =
    let e : size_of_int (length s) ≡ length s = ground (arith, short) in
    rw (e, le→leb (0 + length s) (length s) (omega arith))
      (ap ok (take_of_length (length s) s (omega arith)))

module _ (ops : LoopOps Functor) where
  -- The default message callback echoes: the input buffer is emptied, and its bytes join the stream
  -- of a connected connection. It is shorter than 2 ^ 31.
  pub default_message_callback_lem :
      (answer : Written) (bytes : List ℕ) (w : Connection ops)
      → Streams ops bytes w
      → w.state ≡ connected
      → w.output_buffer.writer_index + length (content w.input_buffer) ≤ max_size
      → length (content w.input_buffer) < 2 ^ 31
      → (w' : Connection ops) × (default_message_callback ops answer w ≡ ok w')
        × Streams ops (bytes ++ content w.input_buffer) w'
        × (content w'.input_buffer ≡ [])
        × (w'.state ≡ connected)
        × Keeps ops w w'
  unfolding default_message_callback
  default_message_callback_lem answer bytes w t open_state fits short =
      let (b, e, h) = retrieve_all_as_string_lem w.input_buffer t.valid.input_valid in
      let v = t.valid in
      let u : Connection ops = record w { input_buffer = b } in
      let start : Streams ops bytes u = record {
        valid = record {
          tracks = v.tracks;
          input_valid = h.valid;
          output_valid = v.output_valid;
          mask = v.mask;
          flow = v.flow;
          quiet = v.quiet;
          registered = v.registered;
        };
        up = t.up;
        stream_lem = t.stream_lem;
        shut_lem = t.shut_lem;
      } in
      let (w', e', t', i, s, k) = send_lem ops (content w.input_buffer) answer bytes u start fits in
      let all : accepted ops (content w.input_buffer) u ≡ content w.input_buffer =
        ground (arith, open_state) in
      let connected_lem : is_connected w.state ≡ true = ground (arith, open_state) in
      (
        w',
        rw (e, connected_lem, string_piece_lem (content w.input_buffer) short) e',
        rw (← all) t',
        rw i h.holds,
        s ∙ open_state,
        record { fd_lem = k.fd_lem; address_lem = k.address_lem; spares = k.spares },
      )

-- ===== src/TcpConnection/Sending.antt =====
-- The sends of TcpConnection.cpp, and its default message callback, which echoes.
use epoll.Base.{
  ℕ, Bool, false, not, ◌&&◌, ◌||◌, List, ◌++◌, ltb, leb, ◌==◌, if◌then◌else◌, length, take, Result,
  ok, assert, ◌>>=◌, ◌>>◌, sub_size, size_of_int,
}
use epoll.Buffer.{
  Buffer, readable_bytes, peek, read_at, append, retrieve_all, retrieve_all_as_string,
}
use epoll.Channel
use epoll.Channel.{LoopOps, is_writing}
use epoll.TcpConnection.{
  Functor, call_send_in_loop, Written, wrote, write_failed, ewouldblock, epipe, econnreset,
  is_connected, is_disconnected, Connection, assert_in_loop_thread, on_channel,
  queue_write_complete,
}

-- `StringPiece(const string&)`: the characters that it shows. The length passes through an `int`.
unfoldable pub string_piece : List ℕ → Result (List ℕ)
string_piece s = read_at 0 (size_of_int (length s)) s

module _ (ops : LoopOps Functor) where
  open ops use {queue_in_loop, in_loop_thread}

  -- `nwrote`, `remaining` and `faultError` of `sendInLoopEX` after its attempt to write.
  pub record Attempt : Type 0 where
    pub nwrote : ℕ
    pub remaining : ℕ
    pub fault_error : Bool
    pub after : Connection ops

  unfoldable pub after_write : List ℕ → Written → Connection ops → Attempt
  after_write bytes (wrote n) w =
      let remaining = sub_size (length bytes) n in
      let sent : Connection ops = record w { wire = w.wire ++ take n bytes } in
      record {
        nwrote = n;
        remaining = remaining;
        fault_error = false;
        after = if remaining == 0 then queue_write_complete ops sent else sent;
      }
  after_write bytes (write_failed errno) w = record {
    nwrote = 0;
    remaining = length bytes;
    fault_error = not (errno == ewouldblock) && (errno == epipe || errno == econnreset);
    after = w;
  }

  -- The test is the source's: it writes only when the output buffer is not empty.
  unfoldable pub attempt : List ℕ → Written → Connection ops → Attempt
  unfolding after_write
  attempt bytes answer w =
      if not (is_writing w.channel) && not (readable_bytes w.output_buffer == 0)
      then after_write bytes answer w
      else record { nwrote = 0; remaining = length bytes; fault_error = false; after = w }

  unfoldable pub buffer_rest : List ℕ → Attempt → Result (Connection ops)
  buffer_rest bytes a = do
    rest ← read_at a.nwrote a.remaining bytes
    let w = a.after
    output ← append rest w.output_buffer
    let w' : Connection ops = record w { output_buffer = output }
    if not (is_writing w'.channel) then on_channel ops (Channel.enable_writing ops) w' else ok w'

  unfoldable pub send_in_loop_ex : List ℕ → Written → Connection ops → Result (Connection ops)
  send_in_loop_ex bytes answer w = do
    assert_in_loop_thread ops w
    let a = attempt bytes answer w
    if is_disconnected w.state then ok w else (do
      assert (leb a.remaining (length bytes))
      if not a.fault_error && ltb 0 a.remaining then buffer_rest bytes a else ok a.after)

  unfoldable pub send_in_loop : List ℕ → Written → Connection ops → Result (Connection ops)
  send_in_loop message answer w = send_in_loop_ex message answer w

  -- `send` of a message.
  unfoldable pub send : List ℕ → Written → Connection ops → Result (Connection ops)
  unfolding send_in_loop
  send message answer w =
      if is_connected w.state
      then (if in_loop_thread w.loop
          then send_in_loop message answer w
          else ok (record w { loop = queue_in_loop (call_send_in_loop message) w.loop }))
      else ok w

  send_buffer_directly : Buffer → Written → Connection ops → Result (Buffer × Connection ops)
  send_buffer_directly buf answer w = do
    bytes ← read_at (peek buf) (readable_bytes buf) buf.buffer
    w' ← send_in_loop_ex bytes answer w
    ok (retrieve_all buf, w')

  send_buffer_later : Buffer → Connection ops → Result (Buffer × Connection ops)
  send_buffer_later buf w = do
    (bytes, buf') ← retrieve_all_as_string buf
    ok (buf', record w { loop = queue_in_loop (call_send_in_loop bytes) w.loop })

  -- `send` of a buffer, which is empty afterwards if the connection is up.
  unfoldable pub send_buffer : Buffer → Written → Connection ops → Result (Buffer × Connection ops)
  unfolding send_buffer_directly send_buffer_later
  send_buffer buf answer w =
      if is_connected w.state
      then (if in_loop_thread w.loop
          then send_buffer_directly buf answer w
          else send_buffer_later buf w)
      else ok (buf, w)

  -- `defaultMessageCallback`: echo. The message becomes a `StringPiece`, whose characters are read
  -- when the connection is connected.
  unfoldable pub default_message_callback : Written → Connection ops → Result (Connection ops)
  default_message_callback answer w = do
    (msg, input) ← retrieve_all_as_string w.input_buffer
    let w' : Connection ops = record w { input_buffer = input }
    if is_connected w.state then (do message ← string_piece msg; send message answer w') else ok w'

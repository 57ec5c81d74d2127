-- ===== src/TcpConnection.antt =====
-- TcpConnection.h and TcpConnection.cpp: the states of a connection, its buffers and its channel.
-- The loop is what `LoopOps` asks for. What `write` and `readv` answer are arguments, and the
-- user's callbacks are parameters.
pub mod Invariant
pub mod Sending
pub mod Stream
pub mod Flush
pub mod History
pub mod Progress
pub mod Lifecycle
pub mod Reading
pub mod Ending
pub mod EndOfLife
pub mod Owner
pub mod Stages
pub mod Dispatch
pub mod Echo
pub mod Closing
pub mod Defaults
use epoll.Base.{
  ℕ, ◌+◌, Bool, true, false, not, ◌||◌, List, [], ◌++◌, ltb, ◌==◌, if◌then◌else◌, take, Result, ok,
  check, assert, fatal, ◌>>=◌, ◌>>◌,
}
use epoll.Buffer
use epoll.Buffer.{Buffer, initial_size, readable_bytes, peek, read_at, retrieve}
use epoll.Buffer.ReadFd.{Received, ReadCount, count, saved_errno, read_fd}
use epoll.Channel.{Channel, LoopOps, is_writing, tie}
use epoll.Channel

pub data StateE : Type 0 where
  disconnected connecting connected disconnecting : StateE

abbrev pub is_disconnected : StateE → Bool
is_disconnected disconnected = true
is_disconnected _ = false

abbrev pub is_connecting : StateE → Bool
is_connecting connecting = true
is_connecting _ = false

abbrev pub is_connected : StateE → Bool
is_connected connected = true
is_connected _ = false

abbrev pub is_disconnecting : StateE → Bool
is_disconnecting disconnecting = true
is_disconnecting _ = false

-- What a connection leaves for its loop to run later.
pub data Functor : Type 0 where
  call_write_complete : Functor
  call_shutdown_in_loop : Functor
  call_send_in_loop : List ℕ → Functor
  call_connect_destroyed : Functor

-- The answer of `write`: a count, or -1 with `errno`.
pub data Written : Type 0 where
  wrote : ℕ → Written
  write_failed : ℕ → Written

-- <errno.h>
abbrev pub ewouldblock : ℕ
ewouldblock = 11

abbrev pub epipe : ℕ
epipe = 32

abbrev pub econnreset : ℕ
econnreset = 104

module _ (ops : LoopOps Functor) where
  open ops use {Loop, queue_in_loop, in_loop_thread}

  -- `wire` holds the bytes that the kernel has accepted, `write_closed` that SHUT_WR was called;
  -- `write_complete` says that there is a write-complete callback.
  pub record Connection : Type 0 where
    pub loop : Loop
    pub state : StateE
    pub channel : Channel
    pub input_buffer : Buffer
    pub output_buffer : Buffer
    pub write_complete : Bool
    pub wire : List ℕ
    pub write_closed : Bool

  -- The constructor: a channel at `address` for the descriptor, and two empty buffers.
  unfoldable pub new : Loop → ℕ → ℕ → ℕ → Bool → Result Connection
  new l loop_address address sockfd write_complete = do
    input ← Buffer.new initial_size
    output ← Buffer.new initial_size
    ok (record {
      loop = l;
      state = connecting;
      channel = Channel.new loop_address address sockfd;
      input_buffer = input;
      output_buffer = output;
      write_complete = write_complete;
      wire = [];
      write_closed = false;
    })

  abbrev pub assert_in_loop_thread : Connection → Result (Unit {0})
  assert_in_loop_thread w = check (in_loop_thread w.loop) fatal

  -- A function of the channel, applied to the connection's.
  abbrev pub on_channel :
      (Channel → Loop → Result (Channel × Loop)) → Connection → Result Connection
  on_channel f w = f w.channel w.loop >>= λ (c, l). ok (record w { channel = c; loop = l })

  unfoldable pub queue_write_complete : Connection → Connection
  queue_write_complete w =
      if w.write_complete then record w { loop = queue_in_loop call_write_complete w.loop } else w

  unfoldable pub shutdown_in_loop : Connection → Result Connection
  shutdown_in_loop w = do
    assert_in_loop_thread w
    ok (if not (is_writing w.channel) then record w { write_closed = true } else w)

  unfoldable pub shutdown : Connection → Result Connection
  unfolding shutdown_in_loop
  shutdown w = do
    assert_in_loop_thread w
    let closing : Connection = record w { state = disconnecting }
    if is_connected w.state
        then (if in_loop_thread w.loop
            then shutdown_in_loop closing
            else ok (record closing { loop = queue_in_loop call_shutdown_in_loop w.loop }))
        else ok w

  -- The end of `handleWrite` when the output buffer has become empty.
  unfoldable pub drained : Connection → Result Connection
  drained w = do
    w' ← on_channel (Channel.disable_writing ops) w
    let w'' = queue_write_complete w'
    if is_disconnecting w.state then shutdown_in_loop w'' else ok w''

  unfoldable pub write_taken : ℕ → List ℕ → Connection → Result Connection
  write_taken n bytes w = do
    output ← retrieve n w.output_buffer
    let w' : Connection = record w { output_buffer = output; wire = w.wire ++ take n bytes }
    if readable_bytes output == 0 then drained w' else ok w'

  unfoldable pub after_handle_write : Written → List ℕ → Connection → Result Connection
  after_handle_write (write_failed errno) bytes w = ok w
  after_handle_write (wrote n) bytes w = if ltb 0 n then write_taken n bytes w else ok w

  unfoldable pub write_output : Written → Connection → Result Connection
  write_output answer w = do
    bytes ← read_at (peek w.output_buffer) (readable_bytes w.output_buffer) w.output_buffer.buffer
    after_handle_write answer bytes w

  unfoldable pub handle_write : Written → Connection → Result Connection
  handle_write answer w =
      assert_in_loop_thread w >> (if is_writing w.channel then write_output answer w else ok w)

  -- The user's callbacks.
  pub record Callbacks : Type 0 where
    pub connection_callback : Connection → Result Connection
    pub message_callback : Connection → Result Connection
    pub close_callback : Connection → Result Connection

  module _ (callbacks : Callbacks) where
    open callbacks use {connection_callback, message_callback, close_callback}

    unfoldable pub connect_established : Connection → Result Connection
    connect_established w = do
      assert_in_loop_thread w
      assert (is_connecting w.state)
      w' ←
          on_channel (Channel.enable_reading ops)
            (record w { state = connected; channel = tie w.channel })
      connection_callback w'

    unfoldable pub handle_close : Connection → Result Connection
    handle_close w = do
      assert_in_loop_thread w
      assert (is_connected w.state || is_disconnecting w.state)
      w' ← on_channel (Channel.disable_all ops) (record w { state = disconnected })
      w'' ← connection_callback w'
      close_callback w''

    unfoldable pub after_read : ReadCount → Connection → Result Connection
    after_read (saved_errno e) w = ok w
    after_read (count n) w = if ltb 0 n then message_callback w else handle_close w

    -- `handleError` only logs SO_ERROR.
    unfoldable pub handle_read : Received → Connection → Result Connection
    unfolding after_read
    handle_read answer w = do
      assert_in_loop_thread w
      (n, input) ← read_fd answer w.input_buffer
      after_read n (record w { input_buffer = input })

    take_down : Connection → Result Connection
    take_down w = do
      w' ← on_channel (Channel.disable_all ops) (record w { state = disconnected })
      connection_callback w'

    unfoldable pub connect_destroyed : Connection → Result Connection
    unfolding take_down
    connect_destroyed w = do
      assert_in_loop_thread w
      w' ← if is_connected w.state then take_down w else ok w
      on_channel (Channel.remove ops) w'

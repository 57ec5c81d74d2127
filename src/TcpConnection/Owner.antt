-- ===== src/TcpConnection/Owner.antt =====
-- A connection as the owner of its channel, with the handlers that the constructor of
-- `TcpConnection` sets.
use epoll.Base.{
  max_size, ◌+◌, ℕ, ◌≡◌, ◌≤◌, refl, inl, inr, Bool, true, false, List, [], ◌∷◌, some, Bool-cases,
  length, Result, ok, arith,
}
use epoll.Buffer.{Buffer}
use epoll.Buffer.Valid.{IsValid, content}
use epoll.Buffer.ReadFd.{Received, received, failed}
use epoll.Channel.{LoopOps, is_writing}
use epoll.Channel.Dispatch.{Owner}
use epoll.TcpConnection.{
  Functor, call_write_complete, Connection, Callbacks, Written, wrote, write_failed, handle_read,
  handle_write, handle_close, write_output, after_handle_write,
}
use epoll.TcpConnection.Invariant.{Inv, Keeps, Keeps-refl, is_up}
use epoll.TcpConnection.Flush.{handle_write_lem, read_content}

-- The bytes that an answer says were written or read.
abbrev pub taken : Written → ℕ
taken (wrote n) = n
taken (write_failed errno) = 0

abbrev pub bytes_of : Received → List ℕ
bytes_of (received bytes) = bytes
bytes_of (failed errno) = []

-- The end of the input.
abbrev pub is_end : Received → Bool
is_end (received []) = true
is_end (received (x ∷ bytes)) = false
is_end (failed errno) = false

module _ (ops : LoopOps Functor) where
  -- SO_ERROR is only logged.
  unfoldable pub handle_error : Connection ops → Result (Connection ops)
  handle_error w = ok w

  -- `write` gives what the kernel answers a write of the connection.
  abbrev pub as_owner :
      Callbacks ops → Received → (Connection ops → Written) → Owner (Connection ops)
  as_owner cb answer write = record {
    channel = λ w. w.channel;
    set_channel = λ c w. record w { channel = c };
    close_callback = some (handle_close ops cb);
    error_callback = some handle_error;
    read_callback = some (λ time. handle_read ops cb answer);
    write_callback = some (λ w. handle_write ops (write w) w);
  }

  -- What a user's callback may do: it succeeds, keeps the invariant and whether the connection is
  -- up, leaves the received events, and spares other channels.
  pub record Minds (callback : Connection ops → Result (Connection ops)) (up : Bool) : Type 0 where
    pub mind_lem :
        (w : Connection ops)
        → Inv ops w
        → is_up w.state ≡ up
        → (w' : Connection ops) × (callback w ≡ ok w')
          × Inv ops w'
          × (is_up w'.state ≡ up)
          × (w'.channel.revents ≡ w.channel.revents)
          × Keeps ops w w'

  -- The room that the output needs for all of the input and `n` bytes more.
  abbrev pub AnswerFits : ℕ → Connection ops → Type 0
  AnswerFits n w = w.output_buffer.writer_index + (length (content w.input_buffer) + n) ≤ max_size

  -- The same of a message callback, if there is room to send all of the input.
  pub record MindsInput (callback : Connection ops → Result (Connection ops)) : Type 0 where
    pub input_lem :
        (w : Connection ops)
        → Inv ops w
        → is_up w.state ≡ true
        → AnswerFits 0 w
        → (w' : Connection ops) × (callback w ≡ ok w')
          × Inv ops w'
          × (is_up w'.state ≡ true)
          × (w'.channel.revents ≡ w.channel.revents)
          × Keeps ops w w'

  -- The mark that an event is handled does not matter to the invariant.
  pub mark-Inv :
      (b : Bool) (w : Connection ops)
      → Inv ops w
      → Inv ops (record w { channel = record (w.channel) { event_handling = b } })
  mark-Inv b w v = record {
    tracks =
        ops.flags_lem w.channel w.loop b w.channel.added_to_loop w.channel.tied w.channel.revents
          w.channel.events v.tracks;
    input_valid = v.input_valid;
    output_valid = v.output_valid;
    mask = v.mask;
    flow = v.flow;
    quiet = v.quiet;
    registered = v.registered;
  }

  pub input-Inv :
      (b : Buffer) (w : Connection ops)
      → IsValid b
      → Inv ops w
      → Inv ops (record w { input_buffer = b })
  input-Inv b w i v = record {
    tracks = v.tracks;
    input_valid = i;
    output_valid = v.output_valid;
    mask = v.mask;
    flow = v.flow;
    quiet = v.quiet;
    registered = v.registered;
  }

  pub write_failed_lem :
      (errno : ℕ) (w : Connection ops) → Inv ops w → handle_write ops (write_failed errno) w ≡ ok w
  unfolding handle_write write_output after_handle_write
  write_failed_lem errno w v =
      rw (ops.thread_lem w.channel w.loop v.tracks, read_content w.output_buffer v.output_valid)
        (ground arith)

  -- A connection that is down does not write.
  pub write_down :
      (answer : Written) (w : Connection ops)
      → Inv ops w
      → is_up w.state ≡ false
      → handle_write ops answer w ≡ ok w
  unfolding handle_write
  write_down answer w v down =
      let still : is_writing w.channel ≡ false = rw (v.quiet down) refl in
      rw (ops.thread_lem w.channel w.loop v.tracks, still) refl

  -- `handleWrite` in any state, which it leaves.
  pub write_any :
      (answer : Written) (w : Connection ops)
      → Inv ops w
      → taken answer ≤ length (content w.output_buffer)
      → (w' : Connection ops) × (handle_write ops answer w ≡ ok w')
        × Inv ops w'
        × (w'.state ≡ w.state)
        × (ops.calm call_write_complete ≡ true → Keeps ops w w')
  write_any (write_failed errno) w v fits =
      (w, write_failed_lem errno w v, v, refl, λ calm. Keeps-refl ops w)
  write_any (wrote n) w v fits = elim (Bool-cases (is_up w.state)) [
    | inl up ↦
        let (w', e, f) = handle_write_lem ops n w v up fits in
        (w', e, f.valid, f.state_lem, f.keeps)
    | inr down ↦ (w, write_down (wrote n) w v down, v, refl, λ calm. Keeps-refl ops w)
  ]

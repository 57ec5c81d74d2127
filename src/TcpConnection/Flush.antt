-- ===== src/TcpConnection/Flush.antt =====
-- `handleWrite`: the output buffer is written from the front, and when it is empty the channel
-- stops waiting for room and a half-closed connection is shut.
use epoll.Base.{
  ℕ, ◌+◌, ◌-◌, ◌≡◌, ◌≤◌, refl, sym, subst, inl, inr, true, false, ◌&&◌, ◌||◌, ◌++◌, ltb,
  if◌then◌else◌, Bool-cases, length, take, drop, ok, arith, ltb-false, le→leb, append-nil,
}
use epoll.Buffer.{Buffer, readable_bytes, peek, read_at}
use epoll.Buffer.Valid.{IsValid, content, readable_bytes-content}
use epoll.Buffer.Bytes.{Holds, retrieve_lem}
use epoll.Channel.{LoopOps, is_writing, write_event, without}
use epoll.Channel.Events.{switch_lem}
use epoll.Channel.Update.{switched, disable_writing_lem}
use epoll.TcpConnection.{
  Functor, call_write_complete, Connection, wrote, is_disconnected, is_disconnecting,
  queue_write_complete, shutdown_in_loop, drained, write_taken, after_handle_write, write_output,
  handle_write,
}
use epoll.TcpConnection.Invariant.{Inv, Keeps, Keeps-refl, is_up, is_empty}

pub read_content :
    (b : Buffer) → IsValid b → read_at (peek b) (readable_bytes b) b.buffer ≡ ok (content b)
read_content b v =
    let e : readable_bytes b ≡ b.writer_index - b.reader_index =
      omega (arith, v.ordered, v.inside, v.bounded) in
    rw
      (
        e,
        le→leb (peek b + (b.writer_index - b.reader_index)) (length b.buffer)
            (omega (arith, v.ordered, v.inside)),
      )
      refl

module _ (ops : LoopOps Functor) where
  open ops use {Tracks, pending, queue_in_loop}

  -- What `handleWrite` leaves when the kernel takes `n` bytes of the output.
  pub record Flushed (n : ℕ) (w w' : Connection ops) : Type 0 where
    pub valid : Inv ops w'
    pub state_lem : w'.state ≡ w.state
    pub input_lem : w'.input_buffer ≡ w.input_buffer
    pub wire_lem : w'.wire ≡ w.wire ++ take n (content w.output_buffer)
    pub output_lem : content w'.output_buffer ≡ drop n (content w.output_buffer)
    pub keeps : ops.calm call_write_complete ≡ true → Keeps ops w w'
    pub closed_lem : w'.write_closed ≡ (
        w.write_closed
        || (is_writing w.channel && (is_empty w'.output_buffer && is_disconnecting w.state)))

  -- The loop keeps track of the channel when the write-complete callback is queued.
  queued_loop : Connection ops → ops.Loop
  queued_loop w = if w.write_complete then queue_in_loop call_write_complete w.loop else w.loop

  queued_loop-Tracks :
      (w : Connection ops) → Tracks w.loop w.channel → Tracks (queued_loop w) w.channel
  unfolding queued_loop
  queued_loop-Tracks w t = elim (Bool-cases w.write_complete) [
    | inl set ↦ rw set (ops.queue_lem call_write_complete w.channel w.loop t).0
    | inr unset ↦ rw unset t
  ]

  queued_loop-Spares :
      (w : Connection ops)
      → Tracks w.loop w.channel
      → ops.calm call_write_complete ≡ true
      → ops.Spares w.channel.fd w.loop (queued_loop w)
  unfolding queued_loop
  queued_loop-Spares w t calm = elim (Bool-cases w.write_complete) [
    | inl set ↦ rw set ((ops.queue_lem call_write_complete w.channel w.loop t).3 calm)
    | inr unset ↦ rw unset (ops.spares_refl w.channel.fd w.loop)
  ]

  queue_write_complete_lem :
      (w : Connection ops) → queue_write_complete ops w ≡ record w { loop = queued_loop w }
  unfolding queue_write_complete queued_loop
  queue_write_complete_lem w = ground arith

  -- The state after a write of `n` bytes that left the buffer `b`.
  written : ℕ → Buffer → Connection ops → Connection ops
  written n b w = record w { output_buffer = b; wire = w.wire ++ take n (content w.output_buffer) }

  drained_lem :
      (n : ℕ) (b : Buffer) (w : Connection ops)
      → Inv ops w
      → is_up w.state ≡ true
      → is_writing w.channel ≡ true
      → Holds (drop n (content w.output_buffer)) b
      → is_empty b ≡ true
      → (w' : Connection ops) × (drained ops (written n b w) ≡ ok w') × Flushed n w w'
  unfolding drained written shutdown_in_loop
  drained_lem n b w v up writing h empty =
      let s = disable_writing_lem ops w.channel w.loop v.tracks in
      let m = switch_lem w.channel.events v.mask in
      let off : Connection ops = record (written n b w) {
        channel = switched w.channel (without w.channel.events write_event) s.index;
        loop = s.loop;
      } in
      let tracked = queued_loop-Tracks off s.tracks in
      let thread = ops.thread_lem off.channel (queued_loop off) tracked in
      (
        record off {
          loop = queued_loop off;
          write_closed = w.write_closed || is_disconnecting w.state;
        },
        rw (s.done, queue_write_complete_lem off) (ground (arith, thread, m.off_write_lem)),
        record {
          valid = record {
            tracks = tracked;
            input_valid = v.input_valid;
            output_valid = h.valid;
            mask = m.off_write_mask;
            flow = λ _. ground (arith, m.off_write_lem, empty);
            quiet = λ down. ground (arith, down, up);
            registered = λ _. s.known;
          };
          state_lem = refl;
          input_lem = refl;
          wire_lem = refl;
          output_lem = h.holds;
          keeps = λ calm. record {
            fd_lem = refl;
            address_lem = refl;
            spares =
                ops.spares_trans w.channel.fd w.loop s.loop (queued_loop off) s.spares
                  (queued_loop-Spares off s.tracks calm);
          };
          closed_lem = rw (writing, empty) refl;
        },
      )

  write_taken_lem :
      (n : ℕ) (w : Connection ops)
      → Inv ops w
      → is_up w.state ≡ true
      → is_writing w.channel ≡ true
      → n ≤ length (content w.output_buffer)
      → (w' : Connection ops) × (write_taken ops n (content w.output_buffer) w ≡ ok w')
        × Flushed n w w'
  unfolding write_taken written
  write_taken_lem n w v up writing fits =
      let (b, e, h) = retrieve_lem n w.output_buffer v.output_valid fits in
      elim (Bool-cases (is_empty b)) [
        | inl empty ↦
            let (w', e', f) = drained_lem n b w v up writing h empty in (w', rw (e, empty) e', f)
        | inr more ↦ (
          written n b w,
          rw (e, more) refl,
          record {
            valid = record {
              tracks = v.tracks;
              input_valid = v.input_valid;
              output_valid = h.valid;
              mask = v.mask;
              flow = λ _. ground (arith, writing, more);
              quiet = v.quiet;
              registered = v.registered;
            };
            state_lem = refl;
            input_lem = refl;
            wire_lem = refl;
            output_lem = h.holds;
            keeps =
                λ calm. record { fd_lem = refl; address_lem = refl; spares = ops.spares_refl _ _ };
            closed_lem = ground (arith, writing, more);
          },
        )
      ]

  untouched :
      (w : Connection ops)
      → Inv ops w
      → is_writing w.channel && is_empty w.output_buffer ≡ false
      → Flushed 0 w w
  untouched w v quiet = record {
    valid = v;
    state_lem = refl;
    input_lem = refl;
    wire_lem = sym (append-nil w.wire);
    output_lem = refl;
    keeps = λ calm. Keeps-refl ops w;
    closed_lem = ground (arith, quiet);
  }

  -- `handleWrite` succeeds when the kernel takes `n` of the waiting bytes: those go out in front of
  -- the others, nothing is lost or doubled, and the invariant is kept. When the output becomes
  -- empty in a half-closed connection, and only then, the writing side is shut.
  pub handle_write_lem :
      (n : ℕ) (w : Connection ops)
      → Inv ops w
      → is_up w.state ≡ true
      → n ≤ length (content w.output_buffer)
      → (w' : Connection ops) × (handle_write ops (wrote n) w ≡ ok w') × Flushed n w w'
  unfolding handle_write write_output after_handle_write
  handle_write_lem n w v up fits =
      let thread = ops.thread_lem w.channel w.loop v.tracks in
      let here : is_disconnected w.state ≡ false = ground (arith, up) in
      let flow = v.flow here in
      elim (Bool-cases (is_writing w.channel)) [
        | inl writing ↦ elim (Bool-cases (ltb 0 n)) [
          | inl pos ↦
              let (w', e, f) = write_taken_lem n w v up writing fits in
              (w', rw (thread, writing, read_content w.output_buffer v.output_valid, pos) e, f)
          | inr zero_count ↦
              let none_taken : 0 ≡ n = omega (arith, ltb-false _ _ zero_count) in
              (
                w,
                rw (thread, writing, read_content w.output_buffer v.output_valid, zero_count) refl,
                subst (λ k. Flushed k w w) none_taken
                    (untouched w v (ground (arith, flow, writing))),
              )
        ]
        | inr still ↦
            let empty : length (content w.output_buffer) ≡ 0 =
              ground (arith, flow, still, readable_bytes-content v.output_valid) in
            let none_taken : 0 ≡ n = omega (arith, empty) in
            (
              w,
              rw (thread, still) refl,
              subst (λ k. Flushed k w w) none_taken (untouched w v (ground (arith, still))),
            )
      ]

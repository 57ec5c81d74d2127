-- ===== src/TcpConnection/Stream.antt =====
-- Sending and writing: every byte that is sent reaches the kernel once and in order.
use epoll.Base.{
  ℕ, ◌+◌, ◌≡◌, ◌≤◌, ◌<◌, bit_or, refl, sym, ap, inl, inr, true, false, not, List, [], ◌∷◌, ◌++◌,
  ltb, if◌then◌else◌, Bool-cases, length, ok, max_size, arith, length-append, take_of_length,
  ltb→lt, ltb-false, le→leb, append-nil,
}
use epoll.Buffer.{Buffer, readable_bytes, read_at}
use epoll.Buffer.Valid.{content, readable_bytes-content}
use epoll.Buffer.Bytes.{Holds}
use epoll.Buffer.Transfer.{append_lem}
use epoll.Channel.{Channel, LoopOps, is_writing, write_event}
use epoll.Channel
use epoll.Channel.Events.{switch_lem}
use epoll.Channel.Update.{switched, enable_writing_lem}
use epoll.TcpConnection.{Functor, Connection, Written, is_disconnected, on_channel}
use epoll.TcpConnection.Sending.{attempt, buffer_rest, send_in_loop_ex}
use epoll.TcpConnection.Invariant.{Keeps, Keeps-refl, Inv, is_up, is_empty}

is_empty-append :
    (bytes xs : List ℕ) (b : Buffer) → Holds (xs ++ bytes) b → 0 < length bytes → is_empty b ≡ false
is_empty-append bytes xs b h pos =
    let n : 0 < readable_bytes b =
      omega (arith, readable_bytes-content h.valid, ap length h.holds, length-append xs bytes) in
    ground arith

nil_of_length : (xs : List ℕ) → length xs ≤ 0 → xs ≡ []
nil_of_length [] h = refl
nil_of_length (x ∷ xs) h = absurd (omega arith)

module _ (ops : LoopOps Functor) where
  open ops use {Tracks, pending}

  -- While output waits the channel is writing, so nothing is written past it.
  attempt_lem :
      (bytes : List ℕ) (answer : Written) (w : Connection ops)
      → Inv ops w
      → is_disconnected w.state ≡ false
      → attempt ops bytes answer w
        ≡ record { nwrote = 0; remaining = length bytes; fault_error = false; after = w }
  unfolding attempt
  attempt_lem bytes answer w v up = ground (arith, v.flow up)

  -- What `sendInLoopEX` leaves: `bytes` at the end of the output, and nothing on the wire.
  pub record Sent (bytes : List ℕ) (w w' : Connection ops) : Type 0 where
    pub valid : Inv ops w'
    pub state_lem : w'.state ≡ w.state
    pub wire_lem : w'.wire ≡ w.wire
    pub closed_lem : w'.write_closed ≡ w.write_closed
    pub input_lem : w'.input_buffer ≡ w.input_buffer
    pub output_lem : content w'.output_buffer ≡ content w.output_buffer ++ bytes
    pub revents_lem : w'.channel.revents ≡ w.channel.revents
    pub keeps : Keeps ops w w'

  enabled :
      (bytes : List ℕ) (w : Connection ops) (b : Buffer)
      → Inv ops w
      → is_disconnected w.state ≡ false
      → is_up w.state ≡ true
      → 0 < length bytes
      → Holds (content w.output_buffer ++ bytes) b
      → let w₁ : Connection ops = record w { output_buffer = b } in
        (w' : Connection ops) × ((if not (is_writing w.channel)
            then on_channel ops (Channel.enable_writing ops) w₁
            else ok w₁)
          ≡ ok w')
        × Sent bytes w w'
  enabled bytes w b v here up pos h = elim (Bool-cases (is_writing w.channel)) [
    | inl writing ↦ (
      record w { output_buffer = b },
      rw writing refl,
      record {
        valid = record {
          tracks = v.tracks;
          input_valid = v.input_valid;
          output_valid = h.valid;
          mask = v.mask;
          flow = λ _. ground (arith, is_empty-append bytes (content w.output_buffer) b h pos);
          quiet = v.quiet;
          registered = v.registered;
        };
        state_lem = refl;
        wire_lem = refl;
        closed_lem = refl;
        input_lem = refl;
        output_lem = h.holds;
        revents_lem = refl;
        keeps = record {
          fd_lem = refl;
          address_lem = refl;
          spares = ops.spares_refl w.channel.fd w.loop;
        };
      },
    )
    | inr still ↦
        let s = enable_writing_lem ops w.channel w.loop v.tracks in
        let m = switch_lem w.channel.events v.mask in
        (
          record w {
            output_buffer = b;
            channel = switched w.channel (bit_or w.channel.events write_event) s.index;
            loop = s.loop;
          },
          rw (still, s.done) refl,
          record {
            valid = record {
              tracks = s.tracks;
              input_valid = v.input_valid;
              output_valid = h.valid;
              mask = m.on_write_mask;
              flow = λ _.
                  ground (
                    arith,
                    m.on_write_lem,
                    is_empty-append bytes (content w.output_buffer) b h pos,
                  );
              quiet = λ down. ground (arith, down, up);
              registered = λ _. s.known;
            };
            state_lem = refl;
            wire_lem = refl;
            closed_lem = refl;
            input_lem = refl;
            output_lem = h.holds;
            revents_lem = refl;
            keeps = record { fd_lem = refl; address_lem = refl; spares = s.spares };
          },
        )
  ]

  read_all : (bytes : List ℕ) → read_at 0 (length bytes) bytes ≡ ok bytes
  read_all bytes =
      rw
        (
          le→leb (0 + length bytes) (length bytes) (omega arith),
          take_of_length (length bytes) bytes (omega arith),
        )
        refl

  -- In every state but kDisconnected `sendInLoopEX` succeeds, whatever the kernel would answer,
  -- keeps the invariant, and puts the bytes behind those that wait already.
  pub send_in_loop_ex_lem :
      (bytes : List ℕ) (answer : Written) (w : Connection ops)
      → Inv ops w
      → is_up w.state ≡ true
      → w.output_buffer.writer_index + length bytes ≤ max_size
      → (w' : Connection ops) × (send_in_loop_ex ops bytes answer w ≡ ok w') × Sent bytes w w'
  unfolding send_in_loop_ex buffer_rest
  send_in_loop_ex_lem bytes answer w v up fits =
      let here : is_disconnected w.state ≡ false = ground (arith, up) in
      let thread = ops.thread_lem w.channel w.loop v.tracks in
      elim (Bool-cases (ltb 0 (length bytes))) [
        | inl pos ↦
            let (b, e, h) = append_lem bytes w.output_buffer v.output_valid fits in
            let (w', e', s) = enabled bytes w b v here up (ltb→lt _ _ pos) h in
            (
              w',
              rw
                  (
                    thread,
                    attempt_lem bytes answer w v here,
                    here,
                    le→leb (length bytes) (length bytes) (omega arith),
                    pos,
                    read_all bytes,
                    e,
                  )
                  e',
              s,
            )
        | inr empty ↦
            let nil : bytes ≡ [] = nil_of_length bytes (ltb-false _ _ empty) in
            (
              w,
              rw
                  (
                    thread,
                    attempt_lem bytes answer w v here,
                    here,
                    le→leb (length bytes) (length bytes) (omega arith),
                    empty,
                  )
                  refl,
              record {
                valid = v;
                state_lem = refl;
                wire_lem = refl;
                closed_lem = refl;
                input_lem = refl;
                output_lem = rw nil (sym (append-nil (content w.output_buffer)));
                revents_lem = refl;
                keeps = Keeps-refl ops w;
              },
            )
      ]

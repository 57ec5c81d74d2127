-- ===== src/TcpConnection/History.antt =====
-- Any sequence of sends, writes and a shutdown of a connection that is up.
use epoll.Base.{
  ℕ, ◌+◌, ◌≡◌, ◌≤◌, refl, sym, ap, ◌∙◌, inl, inr, true, false, not, ◌||◌, List, [], ◌++◌,
  if◌then◌else◌, Bool-cases, length, take, drop, Result, ok, max_size, arith, take-append-drop,
  length-drop, append_assoc, append-nil,
}
use epoll.Buffer.Valid.{content, readable_bytes-content}
use epoll.Channel.{LoopOps, is_writing}
use epoll.TcpConnection.{
  Functor, call_write_complete, disconnecting, Connection, Written, wrote, is_connected, shutdown,
  shutdown_in_loop, handle_write,
}
use epoll.TcpConnection.Sending.{send, send_in_loop}
use epoll.TcpConnection.Invariant.{Keeps, Keeps-refl, Inv, is_up, is_empty, stream}
use epoll.TcpConnection.Stream.{send_in_loop_ex_lem}
use epoll.TcpConnection.Flush.{Flushed, handle_write_lem}

module _ (ops : LoopOps Functor) where
  -- The message, if `send` does not drop it.
  abbrev pub accepted : List ℕ → Connection ops → List ℕ
  accepted message w = if is_connected w.state then message else []

  -- A run from `w` in which `bytes` were sent: with what the kernel answered each time.
  pub data History (w : Connection ops) : List ℕ → Connection ops → Type 0 where
    start : History w [] w
    sends :
        {bytes : List ℕ} {v v' : Connection ops} (message : List ℕ) (answer : Written)
        → History w bytes v
        → v.output_buffer.writer_index + length message ≤ max_size
        → send ops message answer v ≡ ok v'
        → History w (bytes ++ accepted message v) v'
    writes :
        {bytes : List ℕ} {v v' : Connection ops} (n : ℕ)
        → History w bytes v
        → n ≤ length (content v.output_buffer)
        → handle_write ops (wrote n) v ≡ ok v'
        → History w bytes v'
    shuts :
        {bytes : List ℕ} {v v' : Connection ops}
        → History w bytes v
        → shutdown ops v ≡ ok v'
        → History w bytes v'

  -- A connection that is up, with `bytes` in its stream. Its writing side is shut only after all
  -- of them are on the wire.
  pub record Streams (bytes : List ℕ) (w : Connection ops) : Type 0 where
    pub valid : Inv ops w
    pub up : is_up w.state ≡ true
    pub stream_lem : stream ops w ≡ bytes
    pub shut_lem :
        w.write_closed ≡ true → (is_connected w.state ≡ false) × (is_empty w.output_buffer ≡ true)

  ok_injective : {A : Type 0} (a b : A) → ◌≡◌ {A = Result A} (ok a) (ok b) → a ≡ b
  ok_injective a b e = cc

  pub send_lem :
      (message : List ℕ) (answer : Written) (bytes : List ℕ) (w : Connection ops)
      → Streams bytes w
      → w.output_buffer.writer_index + length message ≤ max_size
      → (w' : Connection ops) × (send ops message answer w ≡ ok w')
        × Streams (bytes ++ accepted message w) w'
        × (w'.input_buffer ≡ w.input_buffer)
        × (w'.state ≡ w.state)
        × Keeps ops w w'
  unfolding send send_in_loop
  send_lem message answer bytes w t fits = elim (Bool-cases (is_connected w.state)) [
    | inl open_state ↦
        let (w', e, s) = send_in_loop_ex_lem ops message answer w t.valid t.up fits in
        (
          w',
          rw (open_state, ops.thread_lem w.channel w.loop t.valid.tracks) e,
          record {
            valid = s.valid;
            up = rw s.state_lem t.up;
            stream_lem =
                rw (open_state, s.wire_lem, s.output_lem)
                  (sym (append_assoc w.wire (content w.output_buffer) message)
                    ∙ ap (λ l. l ++ message) t.stream_lem);
            shut_lem = λ shut. cc ((t.shut_lem (sym s.closed_lem ∙ shut)).0, open_state);
          },
          s.input_lem,
          s.state_lem,
          s.keeps,
        )
    | inr closing ↦ (
      w,
      rw closing refl,
      record {
        valid = t.valid;
        up = t.up;
        stream_lem = rw closing (t.stream_lem ∙ sym (append-nil bytes));
        shut_lem = t.shut_lem;
      },
      refl,
      refl,
      Keeps-refl ops w,
    )
  ]

  pub shutdown_lem :
      (bytes : List ℕ) (w : Connection ops)
      → Streams bytes w
      → (w' : Connection ops) × (shutdown ops w ≡ ok w')
        × Streams bytes w'
        × (w'.state ≡ disconnecting)
  unfolding shutdown shutdown_in_loop
  shutdown_lem bytes w t =
      let v = t.valid in
      let thread = ops.thread_lem w.channel w.loop v.tracks in
      let flow = v.flow (ground (arith, t.up)) in
      elim (Bool-cases (is_connected w.state)) [
        | inl open_state ↦ (
          record w {
            state = disconnecting;
            write_closed = w.write_closed || not (is_writing w.channel);
          },
          rw (thread, open_state) (ground (arith)),
          record {
            valid = record {
              tracks = v.tracks;
              input_valid = v.input_valid;
              output_valid = v.output_valid;
              mask = v.mask;
              flow = λ _. flow;
              quiet = λ down. cc;
              registered = λ _. v.registered t.up;
            };
            up = refl;
            stream_lem = t.stream_lem;
            shut_lem = λ shut. (refl, ground (arith, flow, shut, t.shut_lem));
          },
          refl,
        )
        | inr closing ↦ (w, rw (thread, closing) refl, t, ground (arith, closing, t.up))
      ]

  -- A write that shuts the connection has emptied the output.
  shut_after :
      (n : ℕ) (bytes : List ℕ) (w w' : Connection ops)
      → Streams bytes w
      → Flushed ops n w w'
      → w'.write_closed ≡ true
      → (is_connected w'.state ≡ false) × (is_empty w'.output_buffer ≡ true)
  shut_after n bytes w w' t f shut = elim (Bool-cases w.write_closed) [
    | inl before ↦
        let (down, empty) = t.shut_lem before in
        let none_left : length (content w'.output_buffer) ≡ 0 = ground (
          arith,
          ap length f.output_lem,
          length-drop n (content w.output_buffer),
          readable_bytes-content t.valid.output_valid,
          empty,
        ) in
        (
          rw f.state_lem down,
          ground (arith, none_left, readable_bytes-content f.valid.output_valid),
        )
    | inr fresh ↦
        let now = sym f.closed_lem ∙ shut in
        (rw f.state_lem (ground (arith, fresh, now)), ground (arith, fresh, now))
  ]

  pub handle_write-Streams :
      (n : ℕ) (bytes : List ℕ) (w : Connection ops)
      → Streams bytes w
      → n ≤ length (content w.output_buffer)
      → (w' : Connection ops) × (handle_write ops (wrote n) w ≡ ok w')
        × Streams bytes w'
        × (w'.input_buffer ≡ w.input_buffer)
        × (w'.state ≡ w.state)
        × (ops.calm call_write_complete ≡ true → Keeps ops w w')
  handle_write-Streams n bytes w t fits =
      let (w', e, f) = handle_write_lem ops n w t.valid t.up fits in
      (
        w',
        e,
        record {
          valid = f.valid;
          up = rw (f.state_lem) t.up;
          stream_lem =
              rw (f.wire_lem, f.output_lem)
                (append_assoc w.wire (take n (content w.output_buffer))
                    (drop n (content w.output_buffer))
                  ∙ ap (◌++◌ w.wire) (take-append-drop n (content w.output_buffer))
                  ∙ t.stream_lem);
          shut_lem = λ shut. shut_after n bytes w w' t f shut;
        },
        f.input_lem,
        f.state_lem,
        f.keeps,
      )

  -- However its sends, the kernel's partial writes and a shutdown are interleaved, what a
  -- connection has put on the wire followed by what waits in its output buffer is exactly what was
  -- sent, in the order of sending, and SHUT_WR comes after all of it.
  pub History-Streams :
      {w : Connection ops} {bytes : List ℕ} {w' : Connection ops}
      → History w bytes w'
      → Inv ops w
      → is_up w.state ≡ true
      → w.write_closed ≡ false
      → Streams (stream ops w ++ bytes) w'
  History-Streams {w = w} start v up still = record {
    valid = v;
    up = up;
    stream_lem = sym (append-nil (stream ops w));
    shut_lem = λ shut. cc;
  }
  History-Streams {w = w} (sends {bytes = bs} {v = u} {v' = u'} message answer h fits e) v up
        still =
      let t = History-Streams h v up still in
      let (r, e', t', _, _, _) = send_lem message answer (stream ops w ++ bs) u t fits in
      rw (ok_injective u' r (sym e ∙ e'), ← append_assoc (stream ops w) bs (accepted message u)) t'
  History-Streams {w = w} (writes {bytes = bs} {v = u} {v' = u'} n h fits e) v up still =
      let (r, e', t', _, _, _) =
        handle_write-Streams n (stream ops w ++ bs) u (History-Streams h v up still) fits in
      rw (ok_injective u' r (sym e ∙ e')) t'
  History-Streams {w = w} (shuts {bytes = bs} {v = u} {v' = u'} h e) v up still =
      let (r, e', t', _) = shutdown_lem (stream ops w ++ bs) u (History-Streams h v up still) in
      rw (ok_injective u' r (sym e ∙ e')) t'

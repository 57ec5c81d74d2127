-- ===== src/TcpConnection/Echo.antt =====
-- A connection with the callbacks that a server sets at first, when input arrives.
use epoll.Base.{
  ℕ, ◌+◌, ◌^◌, ◌≡◌, ◌≤◌, ◌<◌, refl, ap, subst, ◌∙◌, Bool, true, false, List, [], ◌∷◌, ◌++◌,
  if◌then◌else◌, length, Result, ok, max_size, arith, length-append,
}
use epoll.Buffer.{Buffer}
use epoll.Buffer.Valid.{content, IsValid}
use epoll.Buffer.ReadFd.{Received, received, readv_room, extra_size}
use epoll.Channel.{LoopOps}
use epoll.Channel.Dispatch.{
  call, call_read, is_hung_up, is_readable, is_writable, handle_event, revents_of,
  set_event_handling,
}
use epoll.TcpConnection.{
  Functor, call_write_complete, connected, Connection, Written, wrote, write_failed, handle_read,
  handle_write,
}
use epoll.TcpConnection.Invariant.{Keeps, Keeps-refl, Keeps-trans}
use epoll.TcpConnection.Defaults.{callbacks_with}
use epoll.TcpConnection.History.{Streams, handle_write-Streams}
use epoll.TcpConnection.Reading.{handle_read_bytes, default_message_callback_lem}
use epoll.TcpConnection.Owner.{taken, mark-Inv, input-Inv, write_failed_lem, AnswerFits}
use epoll.TcpConnection.Stages.{handlers, four_stages, alive_lem}

module _ (ops : LoopOps Functor) (close : Connection ops → Result (Connection ops))
    (write : Connection ops → Written)
    (fits : (w : Connection ops) → taken (write w) ≤ length (content w.output_buffer)) where
  -- Neither the mark that an event is handled nor the input matter to the stream.
  mark-Streams :
      (b : Bool) (bytes : List ℕ) (w : Connection ops)
      → Streams ops bytes w
      → Streams ops bytes (record w { channel = record (w.channel) { event_handling = b } })
  mark-Streams b bytes w t = record {
    valid = mark-Inv ops b w t.valid;
    up = t.up;
    stream_lem = t.stream_lem;
    shut_lem = t.shut_lem;
  }

  input-Streams :
      (b : Buffer) (bytes : List ℕ) (w : Connection ops)
      → IsValid b
      → Streams ops bytes w
      → Streams ops bytes (record w { input_buffer = b })
  input-Streams b bytes w i t = record {
    valid = input-Inv ops b w i t.valid;
    up = t.up;
    stream_lem = t.stream_lem;
    shut_lem = t.shut_lem;
  }

  write-Streams :
      (heard : List ℕ) (w : Connection ops) (answer : Written)
      → Streams ops heard w
      → taken answer ≤ length (content w.output_buffer)
      → (w' : Connection ops) × (handle_write ops answer w ≡ ok w')
        × Streams ops heard w'
        × (w'.input_buffer ≡ w.input_buffer)
        × (w'.state ≡ w.state)
        × (ops.calm call_write_complete ≡ true → Keeps ops w w')
  write-Streams heard w (wrote n) t room = handle_write-Streams ops n heard w t room
  write-Streams heard w (write_failed errno) t room =
      (w, write_failed_lem ops errno w t.valid, t, refl, refl, λ calm. Keeps-refl ops w)

  echoed :
      (heard : List ℕ) (x : ℕ) (bytes : List ℕ) (w : Connection ops)
      → Streams ops heard w
      → w.state ≡ connected
      → length (x ∷ bytes) ≤ readv_room w.input_buffer
      → length w.input_buffer.buffer + extra_size ≤ max_size
      → AnswerFits ops (length (x ∷ bytes)) w
      → length (content w.input_buffer) + length (x ∷ bytes) < 2 ^ 31
      → (w' : Connection ops) × (handle_read ops
            (callbacks_with ops close write)
            (received (x ∷ bytes))
            w
          ≡ ok w')
        × Streams ops (heard ++ (content w.input_buffer ++ (x ∷ bytes))) w'
        × (content w'.input_buffer ≡ [])
        × (w'.state ≡ connected)
        × Keeps ops w w'
  echoed heard x bytes w t open_state room m answers short =
      let (b, e, h) =
        handle_read_bytes ops (callbacks_with ops close write) (x ∷ bytes) w t.valid (omega arith)
          room m in
      let u : Connection ops = record w { input_buffer = b } in
      let (w', e', t', nothing, s, k) =
        default_message_callback_lem ops (write u) heard u (input-Streams b heard w h.valid t)
          open_state
          (omega
            (arith, ap length h.holds, length-append (content w.input_buffer) (x ∷ bytes), answers))
          (omega (
            arith,
            ap length h.holds,
            length-append (content w.input_buffer) (x ∷ bytes),
            short,
          )) in
      (
        w',
        e ∙ e',
        subst (λ c. Streams ops (heard ++ c) w') h.holds t',
        nothing,
        s,
        record { fd_lem = k.fd_lem; address_lem = k.address_lem; spares = k.spares },
      )

  last_stage :
      (answer : Received) (heard : List ℕ) (b : Bool) (w : Connection ops)
      → Streams ops heard w
      → (w' : Connection ops) × ((let owner =
              handlers ops (callbacks_with ops close write) answer write in
            if b then call owner owner.write_callback w else ok w)
          ≡ ok w')
        × Streams ops heard w'
        × (w'.input_buffer ≡ w.input_buffer)
        × (w'.state ≡ w.state)
        × (ops.calm call_write_complete ≡ true → Keeps ops w w')
  unfolding call
  last_stage answer heard true w t = write-Streams heard w (write w) t (fits w)
  last_stage answer heard false w t = (w, refl, t, refl, refl, λ calm. Keeps-refl ops w)

  -- When bytes arrive at a connected connection with the default callbacks and any close callback,
  -- and no hang-up without POLLIN, `handleEvent` succeeds, and puts all of the input on the stream, behind what was there:
  -- on the wire or waiting in the output buffer, whatever part of the output the kernel takes. No
  -- input is left. There is room for the bytes in the input and then in the output, and the input
  -- with them stays below the 2 ^ 31 bytes that a `StringPiece` can show. The connection stays
  -- connected, its channel is not marked, and if the loop's operations may queue the write-complete
  -- functor, the loop spares the other channels.
  pub handle_event-echo :
      (time : ℕ) (heard : List ℕ) (x : ℕ) (bytes : List ℕ) (w : Connection ops)
      → Streams ops heard w
      → w.state ≡ connected
      → is_hung_up w.channel.revents ≡ false
      → is_readable w.channel.revents ≡ true
      → length (x ∷ bytes) ≤ readv_room w.input_buffer
      → length w.input_buffer.buffer + extra_size ≤ max_size
      → AnswerFits ops (length (x ∷ bytes)) w
      → length (content w.input_buffer) + length (x ∷ bytes) < 2 ^ 31
      → (w' : Connection ops) × (handle_event
            (handlers ops (callbacks_with ops close write) (received (x ∷ bytes)) write)
            true
            time
            w
          ≡ ok w')
        × Streams ops (heard ++ (content w.input_buffer ++ (x ∷ bytes))) w'
        × (content w'.input_buffer ≡ [])
        × (w'.state ≡ connected)
        × (w'.channel.event_handling ≡ false)
        × (ops.calm call_write_complete ≡ true → Keeps ops w w')
  unfolding call_read
  handle_event-echo time heard x bytes w t open_state still readable room m answers short =
      let owner = handlers ops (callbacks_with ops close write) (received (x ∷ bytes)) write in
      let w₀ = set_event_handling owner true w in
      let (w₂, e₂, t₂, nothing, s₂, k₂) =
        echoed heard x bytes w₀ (mark-Streams true heard w t) open_state room m answers short in
      let (w₃, e₃, t₃, same, s₃, k₃) =
        last_stage (received (x ∷ bytes)) (heard ++ (content w.input_buffer ++ (x ∷ bytes)))
          (is_writable (revents_of owner w₂)) w₂ t₂ in
      (
        set_event_handling owner false w₃,
        alive_lem ops (callbacks_with ops close write) (received (x ∷ bytes)) write time w
            ∙ four_stages ops (callbacks_with ops close write) (received (x ∷ bytes)) write time w
                w₀ w₂ w₃ (rw still refl) (rw readable e₂) e₃,
        mark-Streams false (heard ++ (content w.input_buffer ++ (x ∷ bytes))) w₃ t₃,
        ap content same ∙ nothing,
        s₃ ∙ s₂,
        refl,
        λ calm.
            let k = Keeps-trans ops w₀ w₂ w₃ k₂ (k₃ calm) in
            record { fd_lem = k.fd_lem; address_lem = k.address_lem; spares = k.spares },
      )

  -- Without input or a hang-up only the output may move, and the stream stays as it is.
  pub handle_event-still :
      (answer : Received) (time : ℕ) (heard : List ℕ) (w : Connection ops)
      → Streams ops heard w
      → is_hung_up w.channel.revents ≡ false
      → is_readable w.channel.revents ≡ false
      → (w' : Connection ops) × (handle_event
            (handlers ops (callbacks_with ops close write) answer write)
            true
            time
            w
          ≡ ok w')
        × Streams ops heard w'
        × (w'.input_buffer ≡ w.input_buffer)
        × (w'.state ≡ w.state)
        × (ops.calm call_write_complete ≡ true → Keeps ops w w')
  handle_event-still answer time heard w t still silent =
      let owner = handlers ops (callbacks_with ops close write) answer write in
      let w₀ = set_event_handling owner true w in
      let (w₃, e₃, t₃, same, s₃, k₃) =
        last_stage answer heard (is_writable (revents_of owner w₀)) w₀
          (mark-Streams true heard w t) in
      (
        set_event_handling owner false w₃,
        alive_lem ops (callbacks_with ops close write) answer write time w
            ∙ four_stages ops (callbacks_with ops close write) answer write time w w₀ w₀ w₃
                (rw still refl) (rw silent refl) e₃,
        mark-Streams false heard w₃ t₃,
        same,
        s₃,
        λ calm.
            let k = k₃ calm in
            record { fd_lem = k.fd_lem; address_lem = k.address_lem; spares = k.spares },
      )

-- ===== src/TcpConnection/Dispatch.antt =====
-- What `Channel::handleEvent` does with the handlers of a connection.
use epoll.Base.{
  List, ◌++◌, length-append, ℕ, ◌+◌, ◌≡◌, ◌≤◌, refl, ap, ◌∙◌, inl, inr, Bool, true, false, not,
  ◌&&◌, ◌||◌, [], ◌∷◌, if◌then◌else◌, Bool-cases, length, ok, max_size, arith,
}
use epoll.Buffer.{Buffer}
use epoll.Buffer.Valid.{content}
use epoll.Buffer.Bytes.{Holds}
use epoll.Buffer.ReadFd.{Received, received, failed, readv_room, extra_size, read_fd}
use epoll.Channel.{LoopOps}
use epoll.Channel.Dispatch.{
  Owner, call, call_read, is_hung_up, is_readable, is_writable, handle_event, revents_of,
  set_event_handling,
}
use epoll.TcpConnection.{
  Functor, call_write_complete, Connection, Callbacks, Written, handle_read, after_read,
  handle_close,
}
use epoll.TcpConnection.Invariant.{Inv, Keeps, Keeps-refl, Keeps-trans, is_up}
use epoll.TcpConnection.Lifecycle.{handle_close_lem}
use epoll.TcpConnection.Reading.{handle_read_bytes, handle_read_eof}
use epoll.TcpConnection.Stages.{handlers, four_stages, alive_lem}
use epoll.TcpConnection.Owner.{
  taken, bytes_of, is_end, Minds, MindsInput, AnswerFits, mark-Inv, input-Inv, write_any,
}

module _ (ops : LoopOps Functor) where
  module _ (cb : Callbacks ops) (on_message : MindsInput ops cb.message_callback)
      (on_down : Minds ops cb.connection_callback false)
      (on_close : Minds ops cb.close_callback false)
      (calm : ops.calm call_write_complete ≡ true) where
    close_up :
        (w : Connection ops)
        → Inv ops w
        → is_up w.state ≡ true
        → (w' : Connection ops) × (handle_close ops cb w ≡ ok w')
          × Inv ops w'
          × (is_up w'.state ≡ false)
          × (w'.channel.revents ≡ w.channel.revents)
          × Keeps ops w w'
    close_up w v up =
        let (w₁, e₁, v₁, s₁, _, _, _, r₁, k₁, _, _) = handle_close_lem ops cb w v up in
        let (w₂, e₂, v₂, u₂, r₂, k₂) = on_down.mind_lem w₁ v₁ (ap is_up s₁) in
        let (w₃, e₃, v₃, u₃, r₃, k₃) = on_close.mind_lem w₂ v₂ u₂ in
        (
          w₃,
          e₁ ∙ rw e₂ e₃,
          v₃,
          u₃,
          r₃ ∙ r₂ ∙ r₁,
          Keeps-trans ops w w₁ w₃ k₁ (Keeps-trans ops w₁ w₂ w₃ k₂ k₃),
        )

    -- The input does not matter to the channel.
    input-Keeps :
        (b : Buffer) (w w' : Connection ops)
        → Keeps ops (record w { input_buffer = b }) w'
        → Keeps ops w w'
    input-Keeps b w w' k = record {
      fd_lem = k.fd_lem;
      address_lem = k.address_lem;
      spares = k.spares;
    }

    -- The room that is left when the bytes have been read.
    still_fits :
        (bytes : List ℕ) (b : Buffer) (w : Connection ops)
        → Holds (content w.input_buffer ++ bytes) b
        → AnswerFits ops (length bytes) w
        → AnswerFits ops 0 (record w { input_buffer = b })
    still_fits bytes b w h fits =
        omega (arith, ap length h.holds, length-append (content w.input_buffer) bytes, fits)

    read_up :
        (answer : Received) (w : Connection ops)
        → Inv ops w
        → is_up w.state ≡ true
        → length (bytes_of answer) ≤ readv_room w.input_buffer
        → length w.input_buffer.buffer + extra_size ≤ max_size
        → AnswerFits ops (length (bytes_of answer)) w
        → (w' : Connection ops) × (handle_read ops cb answer w ≡ ok w')
          × Inv ops w'
          × (is_up w'.state ≡ not (is_end answer))
          × Keeps ops w w'
    unfolding handle_read read_fd after_read
    read_up (failed errno) w v up room m a =
        (w, rw (ops.thread_lem w.channel w.loop v.tracks) refl, v, up, Keeps-refl ops w)
    read_up (received []) w v up room m a =
        let (b, e, h) = handle_read_eof ops cb w v m in
        let (w', e', v', u', _, k') =
          close_up (record w { input_buffer = b }) (input-Inv ops b w h.valid v) up in
        (w', e ∙ e', v', u', input-Keeps b w w' k')
    read_up (received (x ∷ bytes)) w v up room m a =
        let (b, e, h) = handle_read_bytes ops cb (x ∷ bytes) w v (omega arith) room m in
        let (w', e', v', u', _, k') =
          on_message.input_lem (record w { input_buffer = b }) (input-Inv ops b w h.valid v) up
            (still_fits (x ∷ bytes) b w h a) in
        (w', e ∙ e', v', u', input-Keeps b w w' k')

    module _ (answer : Received) (write : Connection ops → Written)
        (fits : (w : Connection ops) → taken (write w) ≤ length (content w.output_buffer)) where
      abbrev owner : Owner (Connection ops)
      owner = handlers ops cb answer write

      reading_stage :
          (time : ℕ) (b : Bool) (w : Connection ops)
          → Inv ops w
          → is_up w.state ≡ true
          → length (bytes_of answer) ≤ readv_room w.input_buffer
          → length w.input_buffer.buffer + extra_size ≤ max_size
          → AnswerFits ops (length (bytes_of answer)) w
          → (w' : Connection ops) × ((if b
                then call_read owner owner.read_callback time w
                else ok w)
              ≡ ok w')
            × Inv ops w'
            × (is_up w'.state ≡ not (b && is_end answer))
            × Keeps ops w w'
      unfolding call_read
      reading_stage time true w v up room m a = read_up answer w v up room m a
      reading_stage time false w v up room m a = (w, refl, v, up, Keeps-refl ops w)

      writing_stage :
          (b : Bool) (w : Connection ops)
          → Inv ops w
          → (w' : Connection ops) × ((if b then call owner owner.write_callback w else ok w)
              ≡ ok w')
            × Inv ops w'
            × (w'.state ≡ w.state)
            × Keeps ops w w'
      unfolding call
      writing_stage true w v =
          let (w', e, v', s, k) = write_any ops (write w) w v (fits w) in (w', e, v', s, k calm)
      writing_stage false w v = (w, refl, v, refl, Keeps-refl ops w)

      -- Nor does the mark that an event is handled.
      mark-Keeps :
          (w w' : Connection ops)
          → Keeps ops (set_event_handling owner true w) w'
          → Keeps ops w (set_event_handling owner false w')
      mark-Keeps w w' k = record {
        fd_lem = k.fd_lem;
        address_lem = k.address_lem;
        spares = k.spares;
      }

      -- `handleEvent` of a channel whose connection is up never faults and keeps the invariant,
      -- whatever events it has received but a hang-up together with something to read other than
      -- POLLIN; whatever `readv` answers within its room and that of the output, and whatever `write`
      -- takes of the output. Afterwards the connection is down exactly if it was hung up or the end
      -- of its input was read.
      -- The channel stays the connection's, and the loop spares the other channels. The user's
      -- callbacks succeed, the message callback if there is room to send all of the input, keep the invariant, do not take the connection down or up and spare the
      -- other channels.
      pub handle_event-Inv :
          (time : ℕ) (w : Connection ops)
          → Inv ops w
          → is_up w.state ≡ true
          → is_hung_up w.channel.revents && is_readable w.channel.revents ≡ false
          → length (bytes_of answer) ≤ readv_room w.input_buffer
          → length w.input_buffer.buffer + extra_size ≤ max_size
          → AnswerFits ops (length (bytes_of answer)) w
          → (w' : Connection ops) × (handle_event owner true time w ≡ ok w')
            × Inv ops w'
            × (w'.channel.event_handling ≡ false)
            × (is_up w'.state
                ≡ not (
                    is_hung_up w.channel.revents
                    || (is_readable w.channel.revents && is_end answer)))
            × Keeps ops w w'
      unfolding call
      handle_event-Inv time w v up once room m a =
          let w₀ = set_event_handling owner true w in
          let v₀ = mark-Inv ops true w v in
          let r = w.channel.revents in
          elim (Bool-cases (is_hung_up r)) [
            | inl hung ↦
                let (w₁, e₁, v₁, u₁, r₁, k₁) = close_up w₀ v₀ up in
                let silent : is_readable (revents_of owner w₁) ≡ false =
                  ap (is_readable) r₁ ∙ ground (arith, once, hung) in
                let (w₃, e₃, v₃, s₃, k₃) =
                  writing_stage (is_writable (revents_of owner w₁)) w₁ v₁ in
                (
                  set_event_handling owner false w₃,
                  alive_lem ops cb answer write time w
                      ∙ four_stages ops cb answer write time w w₁ w₁ w₃ (rw hung e₁)
                          (rw silent refl) e₃,
                  mark-Inv ops false w₃ v₃,
                  refl,
                  rw hung (ap is_up s₃ ∙ u₁),
                  mark-Keeps w w₃ (Keeps-trans ops w₀ w₁ w₃ k₁ k₃),
                )
            | inr still ↦
                let (w₂, e₂, v₂, u₂, k₂) = reading_stage time (is_readable r) w₀ v₀ up room m a in
                let (w₃, e₃, v₃, s₃, k₃) =
                  writing_stage (is_writable (revents_of owner w₂)) w₂ v₂ in
                (
                  set_event_handling owner false w₃,
                  alive_lem ops cb answer write time w
                      ∙ four_stages ops cb answer write time w w₀ w₂ w₃ (rw still refl) e₂ e₃,
                  mark-Inv ops false w₃ v₃,
                  refl,
                  rw still (ap is_up s₃ ∙ u₂),
                  mark-Keeps w w₃ (Keeps-trans ops w₀ w₂ w₃ k₂ k₃),
                )
          ]

-- ===== src/TcpConnection/Stages.antt =====
-- `handleEvent` of a connection, stage by stage.
use epoll.Base.{ℕ, ◌≡◌, refl, inl, inr, Bool, true, false, if◌then◌else◌, Bool-cases, ok}
use epoll.Buffer.ReadFd.{Received}
use epoll.Channel.{LoopOps}
use epoll.Channel.Dispatch.{
  Owner, call, call_read, is_hung_up, is_error, is_readable, is_writable, handle_event,
  handle_event_with_guard, revents_of, set_event_handling,
}
use epoll.TcpConnection.{Functor, Connection, Callbacks, Written}
use epoll.TcpConnection.Owner.{handle_error, as_owner}

module _ (ops : LoopOps Functor) where
  module _ (cb : Callbacks ops) (answer : Received) (write : Connection ops → Written) where
    abbrev pub handlers : Owner (Connection ops)
    handlers = as_owner ops cb answer write

    error_stage :
        (b : Bool) (w : Connection ops)
        → (if b then call handlers handlers.error_callback w else ok w) ≡ ok w
    unfolding call handle_error
    error_stage true w = refl
    error_stage false w = refl

    -- The four stages of `handleEvent`.
    pub four_stages :
        (time : ℕ) (w w₁ w₂ w₃ : Connection ops)
        → (let w₀ = set_event_handling handlers true w in
            (if is_hung_up (revents_of handlers w₀)
              then call handlers handlers.close_callback w₀
              else ok w₀)
            ≡ ok w₁)
        → ((if is_readable (revents_of handlers w₁)
              then call_read handlers handlers.read_callback time w₁
              else ok w₁)
            ≡ ok w₂)
        → ((if is_writable (revents_of handlers w₂)
              then call handlers handlers.write_callback w₂
              else ok w₂)
            ≡ ok w₃)
        → handle_event_with_guard handlers time w ≡ ok (set_event_handling handlers false w₃)
    unfolding handle_event_with_guard
    four_stages time w w₁ w₂ w₃ closed read written =
        let failing = error_stage (is_error (revents_of handlers w₁)) w₁ in
        rw (closed, failing, read, written) refl

    pub alive_lem :
        (time : ℕ) (w : Connection ops)
        → handle_event handlers true time w ≡ handle_event_with_guard handlers time w
    unfolding handle_event
    alive_lem time w = elim (Bool-cases w.channel.tied) [
      | inl tied ↦ rw tied refl
      | inr free ↦ rw free refl
    ]

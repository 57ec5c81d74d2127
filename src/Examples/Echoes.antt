-- ===== src/Examples/Echoes.antt =====
-- The echo server: witnesses.
use epoll.Base.{false, ◌≡◌, refl, true, [], ◌∷◌, ok, Result, err, assertion, arith}
use epoll.Buffer.ReadFd.{received}
use epoll.Buffer.Valid.{content}
use epoll.Channel.Dispatch.{handle_event}
use epoll.TcpConnection.{Connection, connected}
use epoll.TcpConnection.Stages.{handlers}
use epoll.TcpConnection.Defaults.{default_callbacks, callbacks_with}
use epoll.TcpConnection.Closing.{IsClosed, handle_event-end}
use epoll.TcpConnection.Invariant.{stream, Keeps}
use epoll.TcpConnection.Echo.{handle_event-echo}
use epoll.TcpConnection.History.{Streams}
use epoll.Examples.Kernel.{epoll_model, thread}
use epoll.Examples.Kernel
use epoll.Examples.Arrivals.{served, served-Inv, none_taken, none_taken_fits}

served-Streams : Streams Kernel.ops [] served
served-Streams = record { valid = served-Inv; up = refl; stream_lem = refl; shut_lem = λ shut. cc }

-- A close callback of the user's, which never comes to run here.
abbrev failing : Connection Kernel.ops → Result (Connection Kernel.ops)
failing w = err assertion

handle_event-echo_example :
    (w : Connection Kernel.ops) × (handle_event
        (handlers Kernel.ops
          (callbacks_with Kernel.ops failing none_taken)
          (received (104 ∷ 105 ∷ []))
          none_taken)
        true
        33
        served
      ≡ ok w)
    × Streams Kernel.ops (104 ∷ 105 ∷ []) w
    × (content w.input_buffer ≡ [])
    × (w.state ≡ connected)
    × (w.channel.event_handling ≡ false)
    × (true ≡ true → Keeps Kernel.ops served w)
handle_event-echo_example =
    handle_event-echo Kernel.ops failing none_taken none_taken_fits 33 [] 104 (105 ∷ []) served
      served-Streams refl refl refl (omega arith) (omega arith) (omega arith) (omega arith)

handle_event-end_example :
    (w : Connection Kernel.ops) × (handle_event
        (handlers Kernel.ops (default_callbacks Kernel.ops none_taken) (received []) none_taken)
        true
        33
        served
      ≡ ok w)
    × IsClosed Kernel.ops w
    × (w.channel.event_handling ≡ false)
    × (content w.input_buffer ≡ [])
    × (stream Kernel.ops w ≡ [])
handle_event-end_example =
    handle_event-end Kernel.ops none_taken 33 served served-Inv refl refl refl (omega arith)

-- ===== src/TcpConnection/Defaults.antt =====
-- The callbacks that a server sets at first: they log, and the message callback echoes.
use epoll.Base.{Result, ok}
use epoll.Channel.{LoopOps}
use epoll.TcpConnection.{Functor, Connection, Callbacks, Written}
use epoll.TcpConnection.Sending.{default_message_callback}

module _ (ops : LoopOps Functor) where
  -- They only log.
  unfoldable pub default_connection_callback : Connection ops → Result (Connection ops)
  default_connection_callback w = ok w

  unfoldable pub default_write_complete_callback : Connection ops → Result (Connection ops)
  default_write_complete_callback w = ok w

  -- `close` is the close callback, which the server sets, and `write` gives what the kernel answers.
  abbrev pub callbacks_with :
      (Connection ops → Result (Connection ops)) → (Connection ops → Written) → Callbacks ops
  callbacks_with close write = record {
    connection_callback = default_connection_callback;
    message_callback = λ w. default_message_callback ops (write w) w;
    close_callback = close;
  }

  -- A close callback that leaves the connection.
  abbrev pub default_callbacks : (Connection ops → Written) → Callbacks ops
  default_callbacks write = callbacks_with (λ w. ok w) write

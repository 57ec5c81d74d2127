-- ===== src/Session.antt =====
-- An event loop with one connection, from event to functor: EventLoop.cpp, Channel.cpp and
-- TcpConnection.cpp together, and the close callback of TcpServer.cpp. The connection holds its
-- loop. Other channels may be registered, but no event of theirs comes.
pub mod Queue
pub mod Closing
pub mod Polling
pub mod Rounds
pub mod Serving
pub mod Loop
use epoll.Base.{
  ℕ, refl, Bool, true, false, List, none, some, ◌==◌, if◌then◌else◌, Option, Result, ok, err,
  out_of_bounds, ◌>>=◌,
}
use epoll.Buffer.ReadFd.{Received}
use epoll.Channel.{Channel, LoopOps}
use epoll.Channel.Dispatch
use epoll.Poller.{Epoll}
use epoll.Poller.Poll.{Store}
use epoll.EventLoop.{EventLoop, HasLoop, queue_in_loop}
use epoll.EventLoop.Rounds.{Runtime}
use epoll.TcpConnection.{
  Functor, call_write_complete, call_shutdown_in_loop, call_send_in_loop, call_connect_destroyed,
  Connection, Callbacks, Written, shutdown_in_loop, connect_destroyed,
}
use epoll.TcpConnection.Sending.{string_piece, send_in_loop}
use epoll.TcpConnection.Stages.{handlers}
use epoll.TcpConnection.Defaults.{callbacks_with, default_write_complete_callback}
use epoll.Session.Queue.{queue_ops}

module _ (epoll : Epoll) (tid : ℕ) where
  abbrev pub ops : LoopOps Functor
  ops = queue_ops epoll tid

  -- `TcpServer::removeConnection` where the server's loop is the connection's: what it does to this
  -- loop. What it does to the server's map is in `TcpServer`.
  unfoldable pub remove_connection : Connection ops → Result (Connection ops)
  remove_connection w =
      ok (record w { loop = queue_in_loop epoll Functor call_connect_destroyed w.loop })

  -- `readv` gives what it answers at a time, and `write` what it answers a connection.
  module _ (readv : ℕ → Received) (write : Connection ops → Written) where
    abbrev pub callbacks : Callbacks ops
    callbacks = callbacks_with ops remove_connection write

    -- What the functors are bound to.
    unfoldable pub run_functor : Functor → Connection ops → Result (Connection ops)
    run_functor call_write_complete w = default_write_complete_callback ops w
    run_functor call_shutdown_in_loop w = shutdown_in_loop ops w
    run_functor (call_send_in_loop message) w = do
      piece ← string_piece message
      send_in_loop ops piece (write w) w
    run_functor call_connect_destroyed w = connect_destroyed ops callbacks w

    -- The connection's part of the loop over the active channels.
    unfoldable pub handle_event : ℕ → ℕ → Connection ops → Result (Connection ops)
    handle_event a time w =
        if a == w.channel.address
        then Dispatch.handle_event (handlers ops callbacks (readv time) write) true time w
        else err out_of_bounds

    abbrev pub has_loop : HasLoop epoll Functor (Connection ops)
    has_loop = record { loop_of = λ w. w.loop; set_loop = λ l w. record w { loop = l } }

    abbrev pub stored : Option Channel → Connection ops → Connection ops
    stored none w = w
    stored (some c) w = record w { channel = c }

    abbrev pub runtime : Runtime epoll Functor (Connection ops)
    runtime = record {
      state = has_loop;
      store_of = λ w a. if a == w.channel.address then some w.channel else none;
      set_store = λ store w. stored (store w.channel.address) w;
      handle_event = handle_event;
      run = run_functor;
    }

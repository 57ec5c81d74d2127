-- ===== src/Examples/Launch.antt =====
-- main.cpp at a concrete system: witnesses.
use epoll.Base.{◌≡◌, ◌≢◌, refl, true, false, [], none, some, ok, err, fatal}
use epoll.Channel.{read_event, new_index}
use epoll.Sockets.{returned, zero_addr}
use epoll.EventLoop.Ops.{LoopTracks}
use epoll.TcpServer.{ServerFunctor, TcpServer}
use epoll.TcpServer.Connections.{IsValid}
use epoll.Main.{loops, Host, start_up}
use epoll.Main.Starting.{start_up_lem}
use epoll.Main.Failing.{not_bound, start_up_fatal}
use epoll.Examples.Kernel.{epoll_model, thread}
use epoll.Examples.Servers.{inet, plain}

abbrev host : Host epoll_model inet plain thread
host = record {
  loop_address = 7;
  channel_address = 300;
  kernel = some (λ fd. none);
  old = zero_addr;
  created = returned 6;
  bound = true;
  listening = true;
}

start_up_lem_example :
    (s : TcpServer (loops epoll_model inet plain thread) plain) × (start_up epoll_model inet plain
        thread host
      ≡ ok s)
    × IsValid (loops epoll_model inet plain thread) plain s
    × (s.acceptor.listenning ≡ true)
    × (s.acceptor.accept_channel.events ≡ read_event)
    × LoopTracks epoll_model ServerFunctor thread s.loop s.acceptor.accept_channel
    × (s.acceptor.accept_channel.index ≢ new_index)
    × (s.thread_pool.loops ≡ [])
start_up_lem_example =
    start_up_lem epoll_model inet plain thread host (λ fd. none) 6 refl refl refl refl refl refl

start_up_fatal_example :
    start_up epoll_model inet plain thread (record host { bound = false }) ≡ err fatal
start_up_fatal_example =
    start_up_fatal epoll_model inet plain thread (record host { bound = false })
      (not_bound (λ fd. none) 6 refl refl refl)

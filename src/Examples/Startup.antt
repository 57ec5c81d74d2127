-- ===== src/Examples/Startup.antt =====
-- A server from its constructor to its start: a witness.
use epoll.Base.{◌≡◌, bit_or, refl, true, false, [], none, ok, arith, codes, digits_of, value_from}
use epoll.Channel
use epoll.Channel.{read_event}
use epoll.Acceptor
use epoll.EventLoopThreadPool
use epoll.Sockets.{returned, zero_addr, create_nonblocking_or_die, bind_or_die, listen_or_die}
use epoll.Sockets.Address.{of_ip}
use epoll.Sockets.Options.{
  set_reuse_addr, set_reuse_port, bind_address, start_listening, record_call, bind, listen,
}
use epoll.TcpServer.{ServerFunctor, TcpServer, new, start, run_in_loop, call_functor}
use epoll.Sockets.Laws.{with_port, of_ip_lem}
use epoll.Channel.Update.{switched, enable_reading_lem}
use epoll.Poller.{find}
use epoll.Poller.Registry.{unknown}
use epoll.EventLoop.Ops.{LoopTracks}
use epoll.Examples.Kernel.{epoll_model, thread}
use epoll.TcpServer.Connections.{IsValid}
use epoll.TcpServer.Runs.{begin, starts}
use epoll.TcpServer.Beginning.{new-Run}
use epoll.Examples.Servers.{inet, ip, server_loops, base, here, plain}

abbrev Server : Type 0
Server = TcpServer server_loops plain

abbrev made : Server
made = record {
  base_loop = 7;
  loop = base;
  ip_port = with_port ip 2009;
  name = codes "TcpServer";
  acceptor = record {
    accept_socket =
        record_call (bind (of_ip inet zero_addr ip 2009 false))
          (set_reuse_port false (set_reuse_addr true (record { sockfd = 6; calls = [] })));
    accept_channel = Channel.new 7 300 6;
    listenning = false;
  };
  thread_pool = EventLoopThreadPool.new 7;
  started = 0;
  next_conn_id = 1;
  connections = [];
  store = λ a. none;
  queues = λ l. [];
}

-- The constructor, where the socket 6 is returned and bound.
made_lem :
    new server_loops plain inet 7 base 300
      (returned 6)
      true
      (of_ip inet zero_addr ip 2009 false)
      (codes "TcpServer")
      false
    ≡ ok made
unfolding new Acceptor.new create_nonblocking_or_die bind_address bind_or_die value_from digits_of
made_lem =
    let (_, _, text, _) =
      of_ip_lem inet zero_addr ip 2009 false (2130706433, refl, refl) (omega arith) in
    rw text refl

unwatched_channel : LoopTracks epoll_model ServerFunctor thread base made.acceptor.accept_channel
unfolding find Channel.new
unwatched_channel = record {
  owner = refl;
  thread = refl;
  tracks = record { open_fd = refl; fits = unknown refl refl refl };
}

-- `start` in the base loop's thread, without threads.
launched : (t : Server) × (start server_loops plain here (λ i. i) true made ≡ ok t)
unfolding start EventLoopThreadPool.start EventLoopThreadPool.start_threads EventLoopThreadPool.new
    run_in_loop call_functor Acceptor.listen start_listening listen_or_die
launched =
    let c = made.acceptor.accept_channel in
    let s = enable_reading_lem server_loops c base unwatched_channel in
    (
      record made {
        started = 1;
        thread_pool = record (made.thread_pool) { started = true };
        loop = s.loop;
        acceptor = record {
          accept_socket = record_call listen made.acceptor.accept_socket;
          accept_channel = switched c (bit_or c.events read_event) s.index;
          listenning = true;
        };
      },
      rw s.done refl,
    )

new-Run_example : IsValid server_loops plain (launched.0)
unfolding value_from digits_of
new-Run_example =
    new-Run server_loops plain inet 7 base 300 (returned 6) true zero_addr ip 2009 false
      (codes "TcpServer") false (2130706433, refl, refl) (omega arith) made_lem
      (starts here (λ i. i) true begin (launched.1))

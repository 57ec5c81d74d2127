-- ===== src/Main/Failing.antt =====
-- main.cpp, when a system call fails at the start.
use epoll.Base.{
  ℕ, ◌≡◌, refl, sym, ap, subst, ◌∙◌, true, false, [], ◌==◌, none, some, err, fatal, ◌>>=◌, arith,
}
use epoll.Poller
use epoll.Poller.{Epoll, Poller}
use epoll.EventLoop.{EventLoop}
use epoll.EventLoop
use epoll.Acceptor
use epoll.EventLoopThreadPool
use epoll.Sockets.{returned, errno, Inet, create_nonblocking_or_die, bind_or_die, listen_or_die}
use epoll.Sockets.Options.{bind_address, start_listening}
use epoll.Sockets.Laws.{of_port_lem}
use epoll.TcpServer.{ConnectionOps, TcpServer, run_in_loop, call_functor}
use epoll.TcpServer
use epoll.Main.Starting.{made, same, started_up, served, new_loop}
use epoll.Main.{loops, Host, serve, start_up}

module _ (epoll : Epoll) (inet : Inet) (conns : ConnectionOps) (tid : ℕ) where
  -- What may be missing at the start.
  pub data Missing (host : Host epoll inet conns tid) : Type 0 where
    no_kernel : host.kernel ≡ none → Missing host
    no_socket :
        (k : epoll.Kernel) (e : ℕ) → host.kernel ≡ some k → host.created ≡ errno e → Missing host
    not_bound :
        (k : epoll.Kernel) (fd : ℕ)
        → host.kernel ≡ some k
        → host.created ≡ returned fd
        → host.bound ≡ false
        → Missing host
    not_listening :
        (k : epoll.Kernel) (fd : ℕ)
        → host.kernel ≡ some k
        → host.created ≡ returned fd
        → host.bound ≡ true
        → host.listening ≡ false
        → Missing host

  without_socket :
      (host : Host epoll inet conns tid) (k : epoll.Kernel) (e : ℕ)
      → host.created ≡ errno e
      → serve epoll inet conns tid host (record { channels = []; kernel = k }) ≡ err fatal
  unfolding serve EventLoop.new TcpServer.new Acceptor.new create_nonblocking_or_die
  without_socket host k e failed =
      let (_, text, _) = of_port_lem inet host.old 2009 false false (omega arith) in
      rw (text, failed) refl

  without_address :
      (host : Host epoll inet conns tid) (k : epoll.Kernel) (fd : ℕ)
      → host.created ≡ returned fd
      → host.bound ≡ false
      → serve epoll inet conns tid host (record { channels = []; kernel = k }) ≡ err fatal
  unfolding serve EventLoop.new TcpServer.new Acceptor.new create_nonblocking_or_die bind_address
      bind_or_die
  without_address host k fd created failed =
      let (_, text, _) = of_port_lem inet host.old 2009 false false (omega arith) in
      rw (text, created, failed) refl

  deaf :
      (host : Host epoll inet conns tid) (k : epoll.Kernel) (fd : ℕ)
      → TcpServer.start
          (loops epoll inet conns tid)
          conns
          (λ l. l == host.loop_address)
          (λ i. host.loop_address)
          false
          (made epoll inet conns tid host k fd)
        ≡ err fatal
  unfolding TcpServer.start EventLoopThreadPool.start EventLoopThreadPool.start_threads
      EventLoopThreadPool.new run_in_loop call_functor Acceptor.listen start_listening listen_or_die
      made new_loop
  deaf host k fd =
      rw (same epoll inet conns tid host.loop_address, same epoll inet conns tid tid) refl

  -- If epoll_create, socket, bind or listen fails, the program ends there, with LOG_FATAL.
  pub start_up_fatal :
      (host : Host epoll inet conns tid)
      → Missing host
      → start_up epoll inet conns tid host ≡ err fatal
  unfolding start_up Poller.new
  start_up_fatal host (no_kernel none_made) =
      ap (λ o. Poller.new epoll o >>= serve epoll inet conns tid host) none_made
  start_up_fatal host (no_socket k e kernel failed) =
      started_up epoll inet conns tid host k kernel ∙ without_socket host k e failed
  start_up_fatal host (not_bound k fd kernel created failed) =
      started_up epoll inet conns tid host k kernel ∙ without_address host k fd created failed
  start_up_fatal host (not_listening k fd kernel created bound failed) =
      started_up epoll inet conns tid host k kernel
      ∙ served epoll inet conns tid host k fd created bound
      ∙ subst
          (λ b.
            TcpServer.start (loops epoll inet conns tid) conns (λ l. l == host.loop_address)
              (λ i. host.loop_address) b (made epoll inet conns tid host k fd)
            ≡ err fatal)
          (sym failed) (deaf host k fd)

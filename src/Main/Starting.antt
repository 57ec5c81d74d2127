-- ===== src/Main/Starting.antt =====
-- What main.cpp has before it calls `loop`.
use epoll.Base.{
  ℕ, ◌≡◌, ◌≢◌, bit_or, refl, sym, ap, subst, ◌∙◌, true, false, [], ◌==◌, none, some, ok, ◌>>=◌,
  arith, ==_iff, codes,
}
use epoll.Channel
use epoll.Channel.{Channel, read_event, new_index}
use epoll.Channel.Update.{switched, enable_reading_lem}
use epoll.Poller
use epoll.Poller.{Epoll, Poller, find}
use epoll.Poller.Registry.{unknown}
use epoll.EventLoop.{EventLoop}
use epoll.EventLoop
use epoll.EventLoop.Ops.{LoopTracks}
use epoll.Acceptor
use epoll.EventLoopThreadPool
use epoll.Sockets.{SockAddr, returned, Inet, create_nonblocking_or_die, bind_or_die, listen_or_die}
use epoll.Sockets.Options.{
  set_reuse_addr, set_reuse_port, bind_address, start_listening, record_call, bind, listen,
}
use epoll.Sockets.Address.{of_port}
use epoll.Sockets.Laws.{port_text, with_port, of_port_lem}
use epoll.TcpServer.{ServerFunctor, ConnectionOps, TcpServer, run_in_loop, call_functor}
use epoll.TcpServer
use epoll.TcpServer.Connections.{IsValid}
use epoll.TcpServer.Runs.{begin, starts, Run-IsValid}
use epoll.TcpServer.Beginning.{new-IsValid}
use epoll.Main.{loops, Host, serve, start_up}

module _ (epoll : Epoll) (inet : Inet) (conns : ConnectionOps) (tid : ℕ) where
  abbrev Server : Type 0
  Server = TcpServer (loops epoll inet conns tid) conns

  -- The loop that the constructor makes.
  unfoldable pub new_loop : ℕ → epoll.Kernel → EventLoop epoll ServerFunctor
  new_loop address k = record {
    address = address;
    looping = false;
    quit = false;
    event_handling = false;
    calling_pending_functors = false;
    thread_id = tid;
    poll_return_time = 0;
    poller = record { channels = []; kernel = k };
    active_channels = [];
    current_active_channel = none;
    pending_functors = [];
  }

  new_channel-Tracks :
      (loop_address address fd : ℕ) (k : epoll.Kernel)
      → epoll.can_watch k fd ≡ true
      → epoll.interest k fd ≡ none
      → LoopTracks epoll ServerFunctor tid
          (new_loop loop_address k)
          (Channel.new loop_address address fd)
  unfolding find Channel.new new_loop
  new_channel-Tracks loop_address address fd k open_fd unwatched = record {
    owner = refl;
    thread = refl;
    tracks = record { open_fd = open_fd; fits = unknown refl refl unwatched };
  }

  pub listen_addr : Host epoll inet conns tid → SockAddr
  listen_addr host = of_port host.old 2009 false false

  -- The server that the constructor makes.
  unfoldable pub made : Host epoll inet conns tid → epoll.Kernel → ℕ → Server
  made host k fd = record {
    base_loop = host.loop_address;
    loop = new_loop host.loop_address k;
    ip_port = with_port (port_text inet false false) 2009;
    name = codes "TcpServer";
    acceptor = record {
      accept_socket =
          record_call (bind (listen_addr host))
            (set_reuse_port false (set_reuse_addr true (record { sockfd = fd; calls = [] })));
      accept_channel = Channel.new host.loop_address host.channel_address fd;
      listenning = false;
    };
    thread_pool = EventLoopThreadPool.new host.loop_address;
    started = 0;
    next_conn_id = 1;
    connections = [];
    store = λ a. none;
    queues = λ l. [];
  }

  made_lem :
      (host : Host epoll inet conns tid) (k : epoll.Kernel) (fd : ℕ)
      → host.created ≡ returned fd
      → host.bound ≡ true
      → TcpServer.new
          (loops epoll inet conns tid)
          conns
          inet
          host.loop_address
          (new_loop host.loop_address k)
          host.channel_address
          host.created
          host.bound
          (listen_addr host)
          (codes "TcpServer")
          false
        ≡ ok (made host k fd)
  unfolding TcpServer.new Acceptor.new create_nonblocking_or_die bind_address bind_or_die made
      listen_addr
  made_lem host k fd created bound =
      let (_, text, _) = of_port_lem inet host.old 2009 false false (omega arith) in
      rw (created, bound, text) refl

  new_reads :
      (loop_address address fd : ℕ)
      → bit_or (Channel.new loop_address address fd).events read_event ≡ read_event
  unfolding Channel.new
  new_reads loop_address address fd = refl

  pub same : (a : ℕ) → (a == a) ≡ true
  same a = (==_iff a a).1 refl

  -- `start` in the loop's thread: the acceptor listens, and no thread is started.
  record Started (host : Host epoll inet conns tid) (k : epoll.Kernel) (fd : ℕ) : Type 0 where
    server : TcpServer (loops epoll inet conns tid) conns
    started :
        TcpServer.start
          (loops epoll inet conns tid)
          conns
          (λ l. l == host.loop_address)
          (λ i. host.loop_address)
          true
          (made host k fd)
        ≡ ok server
    listens : server.acceptor.listenning ≡ true
    reads : server.acceptor.accept_channel.events ≡ read_event
    tracks : LoopTracks epoll ServerFunctor tid server.loop server.acceptor.accept_channel
    registered : server.acceptor.accept_channel.index ≢ new_index
    no_threads : server.thread_pool.loops ≡ []

  started_lem :
      (host : Host epoll inet conns tid) (k : epoll.Kernel) (fd : ℕ)
      → epoll.can_watch k fd ≡ true
      → epoll.interest k fd ≡ none
      → Started host k fd
  unfolding TcpServer.start EventLoopThreadPool.start EventLoopThreadPool.start_threads
      EventLoopThreadPool.new run_in_loop call_functor Acceptor.listen start_listening listen_or_die
      made
  started_lem host k fd open_fd unwatched =
      let c = (made host k fd).acceptor.accept_channel in
      let t = new_channel-Tracks host.loop_address host.channel_address fd k open_fd unwatched in
      let s = enable_reading_lem (loops epoll inet conns tid) c (new_loop host.loop_address k) t in
      record {
        server = record (made host k fd) {
          started = 1;
          thread_pool = record ((made host k fd).thread_pool) { started = true };
          loop = s.loop;
          acceptor = record {
            accept_socket = record_call listen (made host k fd).acceptor.accept_socket;
            accept_channel = switched c (bit_or c.events read_event) s.index;
            listenning = true;
          };
        };
        started =
            rw
              (
                same host.loop_address,
                (loops epoll inet conns tid).thread_lem c (new_loop host.loop_address k) t,
                s.done,
              )
              refl;
        listens = refl;
        reads = new_reads host.loop_address host.channel_address fd;
        tracks = s.tracks;
        registered = s.known;
        no_threads = refl;
      }

  pub started_up :
      (host : Host epoll inet conns tid) (k : epoll.Kernel)
      → host.kernel ≡ some k
      → start_up epoll inet conns tid host
        ≡ serve epoll inet conns tid host (record { channels = []; kernel = k })
  unfolding start_up Poller.new
  started_up host k kernel = ap (λ o. Poller.new epoll o >>= serve epoll inet conns tid host) kernel

  pub served :
      (host : Host epoll inet conns tid) (k : epoll.Kernel) (fd : ℕ)
      → host.created ≡ returned fd
      → host.bound ≡ true
      → serve epoll inet conns tid host (record { channels = []; kernel = k })
        ≡ TcpServer.start
            (loops epoll inet conns tid)
            conns
            (λ l. l == host.loop_address)
            (λ i. host.loop_address)
            host.listening
            (made host k fd)
  unfolding serve EventLoop.new listen_addr new_loop
  served host k fd created bound = rw (made_lem host k fd created bound) refl

  -- The part of main.cpp before `loop` succeeds, when epoll_create, socket, bind and listen do, and
  -- the new descriptor can be watched: the server is valid and its acceptor listens, the acceptor's
  -- channel is registered with the loop for reading and nothing else, and there are no threads.
  pub start_up_lem :
      (host : Host epoll inet conns tid) (k : epoll.Kernel) (fd : ℕ)
      → host.kernel ≡ some k
      → host.created ≡ returned fd
      → host.bound ≡ true
      → host.listening ≡ true
      → epoll.can_watch k fd ≡ true
      → epoll.interest k fd ≡ none
      → (s : TcpServer (loops epoll inet conns tid) conns) × (start_up epoll inet conns tid host
          ≡ ok s)
        × IsValid (loops epoll inet conns tid) conns s
        × (s.acceptor.listenning ≡ true)
        × (s.acceptor.accept_channel.events ≡ read_event)
        × LoopTracks epoll ServerFunctor tid s.loop s.acceptor.accept_channel
        × (s.acceptor.accept_channel.index ≢ new_index)
        × (s.thread_pool.loops ≡ [])
  unfolding listen_addr
  start_up_lem host k fd kernel created bound listening open_fd unwatched =
      let m = made_lem host k fd created bound in
      let t = started_lem host k fd open_fd unwatched in
      let (_, text, short) = of_port_lem inet host.old 2009 false false (omega arith) in
      let v =
        new-IsValid (loops epoll inet conns tid) conns inet host.loop_address
          (new_loop host.loop_address k) host.channel_address host.created host.bound
          (listen_addr host) (codes "TcpServer") (with_port (port_text inet false false) 2009) false
          (made host k fd) text short m in
      (
        t.server,
        started_up host k kernel
            ∙ served host k fd created bound
            ∙ subst
                (λ b.
                  TcpServer.start (loops epoll inet conns tid) conns (λ l. l == host.loop_address)
                    (λ i. host.loop_address) b (made host k fd)
                  ≡ ok t.server)
                (sym listening) t.started,
        Run-IsValid (loops epoll inet conns tid) conns
            (starts (λ l. l == host.loop_address) (λ i. host.loop_address) true begin t.started) v,
        t.listens,
        t.reads,
        t.tracks,
        t.registered,
        t.no_threads,
      )

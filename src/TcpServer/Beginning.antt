-- ===== src/TcpServer/Beginning.antt =====
-- A server from its constructor on.
use epoll.Base.{
  ℕ, ◌≡◌, ◌≤◌, ◌<◌, sym, subst, ◌∙◌, Bool, [], none, length, ok, bind_inversion, ok_injective, Text,
}
use epoll.Channel.{LoopOps}
use epoll.Sockets.{SockAddr, Answer, Inet}
use epoll.Sockets.Address.{of_ip, ip_port_text}
use epoll.Sockets.Laws.{IsCanonical, of_ip_lem}
use epoll.Acceptor
use epoll.Acceptor.{Acceptor}
use epoll.EventLoopThreadPool
use epoll.TcpServer.{ServerFunctor, ConnectionOps, TcpServer, find, new}
use epoll.TcpServer.Connections.{IsValid}
use epoll.TcpServer.Runs.{Run, Run-IsValid}

module _ (loops : LoopOps ServerFunctor) (conns : ConnectionOps) (inet : Inet) where
  open loops use {Loop}

  -- What the constructor makes of the printed address and the acceptor.
  begun : ℕ → Loop → Text → Text → Acceptor → TcpServer loops conns
  begun base_loop l ip_port name a = record {
    base_loop = base_loop;
    loop = l;
    ip_port = ip_port;
    name = name;
    acceptor = a;
    thread_pool = EventLoopThreadPool.new base_loop;
    started = 0;
    next_conn_id = 1;
    connections = [];
    store = λ a. none;
    queues = λ l. [];
  }

  -- An address that prints shortly gives a valid server.
  pub new-IsValid :
      (base_loop : ℕ) (l : Loop) (channel : ℕ) (created : Answer ℕ) (bound : Bool)
      (listen_addr : SockAddr) (name printed : Text) (reuse_port : Bool) (s : TcpServer loops conns)
      → ip_port_text inet listen_addr ≡ ok printed
      → length printed ≤ 51
      → new loops conns inet base_loop l channel created bound listen_addr name reuse_port ≡ ok s
      → IsValid loops conns s
  unfolding new find begun
  new-IsValid base_loop l channel created bound listen_addr name printed reuse_port s text short h =
      let (t, e, h₁) = bind_inversion (ip_port_text inet listen_addr) _ s h in
      let (a, e₁, h₂) =
        bind_inversion (Acceptor.new base_loop channel created bound listen_addr reuse_port) _ s
          h₁ in
      let same : printed ≡ t = ok_injective (sym text ∙ e) in
      let made : ok (begun base_loop l t name a) ≡ ok s = h₂ in
      subst (IsValid loops conns) (ok_injective made) (record {
        short = subst (λ p. length p ≤ 51) same short;
        named = λ n b f. cc;
        held = λ n b f. cc;
      })

  -- A server that is made for a canonical text and a port: whatever the order in which it is
  -- started and connections arrive, are removed and are served by their loops, as long as nothing
  -- faults, which the overflow of the connections' number does, each entry of its map has the name
  -- of an earlier number and holds the connection of that name.
  pub new-Run :
      (base_loop : ℕ) (l : Loop) (channel : ℕ) (created : Answer ℕ) (bound : Bool) (old : SockAddr)
      (ip : Text) (port : ℕ) (ipv6 : Bool) (name : Text) (reuse_port : Bool)
      {s t : TcpServer loops conns}
      → IsCanonical inet ipv6 ip
      → port < 65536
      → new loops conns inet base_loop l channel created bound
          (of_ip inet old ip port ipv6)
          name
          reuse_port
        ≡ ok s
      → Run loops conns s t
      → IsValid loops conns t
  new-Run base_loop l channel created bound old ip port ipv6 name reuse_port {s = s} canonical range
        made r =
      let (_, _, text, short) = of_ip_lem inet old ip port ipv6 canonical range in
      Run-IsValid loops conns r
        (new-IsValid base_loop l channel created bound _ name _ reuse_port s text short made)

-- ===== src/TcpServer.antt =====
-- TcpServer.h and TcpServer.cpp: the connections of a server, by name, and the loops that run them.
-- `here` says of each loop, by its address, whether the operation runs in its thread.
pub mod Map
pub mod Names
pub mod Connections
pub mod Runs
pub mod Beginning
pub mod Instance
use epoll.Base.{
  ℕ, ◌+◌, ◌-◌, ◌≡◌, Bool, false, not, List, [], ◌∷◌, ◌++◌, ◌==◌, ◌^◌, ltb, Option, none, some,
  if◌then◌else◌, is_some, take, Result, ok, err, check, assert, out_of_bounds, overflow, fatal,
  ◌>>=◌, ◌>>◌, Text, decimal, text_eq,
}
use epoll.Channel.{LoopOps}
use epoll.EventLoopThreadPool.{ThreadPool, get_next_loop}
use epoll.EventLoopThreadPool
use epoll.Sockets.{SockAddr, Answer, Inet, get_local_addr}
use epoll.Sockets.Address.{InetAddress, ip_port_text}
use epoll.Acceptor.{Acceptor}
use epoll.Acceptor

-- The functors that a server hands to loops; a connection is named by its address.
pub data ServerFunctor : Type 0 where
  call_connect_established : ℕ → ServerFunctor
  call_connect_destroyed : ℕ → ServerFunctor
  call_remove_connection_in_loop : ℕ → ServerFunctor
  call_listen : ServerFunctor

-- `++i` of an `int` that is not negative
unfoldable pub increment : ℕ → Result ℕ
increment i = do check (ltb (i + 1) (2 ^ 31)) overflow; ok (i + 1)

-- What a server asks of connections. A connection's name and loop never change.
pub record ConnectionOps : Type 1 where
  pub Connection : Type 0
  pub create : ℕ → Text → ℕ → InetAddress → InetAddress → Result Connection
  pub connect_established : Connection → Result Connection
  pub connect_destroyed : Connection → Result Connection
  pub name : Connection → Text
  pub get_loop : Connection → ℕ
  pub create_lem :
      (loop : ℕ) (n : Text) (sockfd : ℕ) (local peer : InetAddress)
      → (c : Connection) × (create loop n sockfd local peer ≡ ok c)
        × (name c ≡ n)
        × (get_loop c ≡ loop)
  pub established_name : (c c' : Connection) → connect_established c ≡ ok c' → name c' ≡ name c
  pub destroyed_name : (c c' : Connection) → connect_destroyed c ≡ ok c' → name c' ≡ name c

-- `std::map<std::string, TcpConnectionPtr>`: names with addresses.
abbrev pub ConnectionMap : Type 0
ConnectionMap = List (Text × ℕ)

unfoldable pub find : Text → ConnectionMap → Option ℕ
find name [] = none
find name (entry ∷ m) =
    let rest = find name m in if text_eq entry.0 name then some entry.1 else rest

-- `_connections[name] = address`
unfoldable pub assign : Text → ℕ → ConnectionMap → ConnectionMap
assign name address [] = (name, address) ∷ []
assign name address (entry ∷ m) =
    let rest = assign name address m in
    if text_eq entry.0 name then (name, address) ∷ m else entry ∷ rest

unfoldable pub erase : Text → ConnectionMap → ConnectionMap
erase name [] = []
erase name (entry ∷ m) =
    let rest = erase name m in if text_eq entry.0 name then rest else entry ∷ rest

-- `snprintf(buf, sizeof(buf), "-%s#%d", ...)` with `char buf[64]`, behind the server's name
unfoldable pub connection_name : Text → Text → ℕ → Text
connection_name name ip_port id = name ++ take 63 (b'-' ∷ (ip_port ++ (b'#' ∷ decimal id)))

module _ (loops : LoopOps ServerFunctor) (conns : ConnectionOps) where
  open loops use {Loop}
  open conns use {Connection}

  -- `store` has the connection objects at their addresses, `queues` the functors that wait in each
  -- loop, and `loop` is the state of the base loop.
  pub record TcpServer : Type 0 where
    pub base_loop : ℕ
    pub loop : Loop
    pub ip_port : Text
    pub name : Text
    pub acceptor : Acceptor
    pub thread_pool : ThreadPool
    pub started : ℕ
    pub next_conn_id : ℕ
    pub connections : ConnectionMap
    pub store : ℕ → Option Connection
    pub queues : ℕ → List ServerFunctor

  -- The constructor: `channel` is the address of the acceptor's channel, `created` and `bound`
  -- answer socket and bind.
  unfoldable pub new :
      Inet → ℕ → Loop → ℕ → Answer ℕ → Bool → InetAddress → Text → Bool → Result TcpServer
  new inet base_loop loop channel created bound listen_addr name reuse_port = do
    ip_port ← ip_port_text inet listen_addr
    acceptor ← Acceptor.new base_loop channel created bound listen_addr reuse_port
    ok (record {
      base_loop = base_loop;
      loop = loop;
      ip_port = ip_port;
      name = name;
      acceptor = acceptor;
      thread_pool = EventLoopThreadPool.new base_loop;
      started = 0;
      next_conn_id = 1;
      connections = [];
      store = λ a. none;
      queues = λ l. [];
    })

  unfoldable pub connection_at : ℕ → TcpServer → Result Connection
  connection_at a s = elim (s.store a) [ none ↦ err out_of_bounds | some c ↦ ok c ]

  unfoldable pub set_connection : ℕ → Connection → TcpServer → TcpServer
  set_connection a c s = record s { store = λ b. if b == a then some c else s.store b }

  -- `queueInLoop` of the loop at an address
  unfoldable pub queue_in_loop : ℕ → ServerFunctor → TcpServer → TcpServer
  queue_in_loop l f s = record s {
    queues = λ k. if k == l then s.queues k ++ (f ∷ []) else s.queues k;
  }

  unfoldable pub remove_connection_in_loop : (ℕ → Bool) → ℕ → TcpServer → Result TcpServer
  remove_connection_in_loop here address s = do
    check (here s.base_loop) fatal
    c ← connection_at address s
    let n : ℕ = if is_some (find (conns.name c) s.connections) then 1 else 0
    let s' : TcpServer = record s { connections = erase (conns.name c) s.connections }
    assert (n == 1)
    ok (queue_in_loop (conns.get_loop c) (call_connect_destroyed address) s')

  -- A functor is called; `listening` answers listen(2).
  unfoldable pub call_functor : (ℕ → Bool) → Bool → ServerFunctor → TcpServer → Result TcpServer
  call_functor here listening (call_connect_established a) s = do
    c ← connection_at a s
    c' ← conns.connect_established c
    ok (set_connection a c' s)
  call_functor here listening (call_connect_destroyed a) s = do
    c ← connection_at a s
    c' ← conns.connect_destroyed c
    ok (set_connection a c' s)
  call_functor here listening (call_remove_connection_in_loop a) s =
      remove_connection_in_loop here a s
  call_functor here listening call_listen s = do
    (a, l) ← Acceptor.listen loops listening s.acceptor s.loop
    ok (record s { acceptor = a; loop = l })

  unfoldable pub run_in_loop : (ℕ → Bool) → Bool → ℕ → ServerFunctor → TcpServer → Result TcpServer
  run_in_loop here listening l f s =
      if here l then call_functor here listening f s else ok (queue_in_loop l f s)

  -- `start_loop` has the addresses of the threads' loops.
  unfoldable pub start : (ℕ → Bool) → (ℕ → ℕ) → Bool → TcpServer → Result TcpServer
  start here start_loop listening s =
      let begun : TcpServer = record s { started = 1 } in
      if s.started == 0
      then (do
        pool ← EventLoopThreadPool.start start_loop (here s.base_loop) s.thread_pool
        assert (not s.acceptor.listenning)
        run_in_loop here listening s.base_loop call_listen (record begun { thread_pool = pool }))
      else ok begun

  -- The callback of the acceptor; `address` is where the connection object lies, and `local` answers
  -- getsockname.
  unfoldable pub new_connection :
      (ℕ → Bool) → ℕ → Answer SockAddr → ℕ → InetAddress → TcpServer → Result TcpServer
  new_connection here address local sockfd peer s = do
    check (here s.base_loop) fatal
    (io_loop, pool) ← get_next_loop (here s.base_loop) s.thread_pool
    let conn_name = connection_name s.name s.ip_port s.next_conn_id
    after ← increment s.next_conn_id
    c ← conns.create io_loop conn_name sockfd (get_local_addr local) peer
    let s' : TcpServer = record s {
      thread_pool = pool;
      next_conn_id = after;
      connections = assign conn_name address s.connections;
    }
    run_in_loop here false io_loop (call_connect_established address) (set_connection address c s')

  unfoldable pub remove_connection : (ℕ → Bool) → ℕ → TcpServer → Result TcpServer
  remove_connection here address s =
      run_in_loop here false s.base_loop (call_remove_connection_in_loop address) s

  -- The destructor's loop over the map.
  unfoldable pub destroy_all : (ℕ → Bool) → ConnectionMap → TcpServer → Result TcpServer
  destroy_all here [] s = ok s
  destroy_all here (entry ∷ m) s = do
    c ← connection_at entry.1 s
    s' ← run_in_loop here false (conns.get_loop c) (call_connect_destroyed entry.1) s
    destroy_all here m s'

  unfoldable pub destroy : (ℕ → Bool) → TcpServer → Result TcpServer
  destroy here s = do check (here s.base_loop) fatal; destroy_all here s.connections s

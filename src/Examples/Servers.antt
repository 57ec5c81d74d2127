-- ===== src/Examples/Servers.antt =====
-- A server with two loops beside the base loop: witnesses.
use epoll.Base.{
  ℕ, ◌+◌, ◌^◌, ◌≡◌, ◌≤◌, ◌<◌, refl, sym, ap, inr, Bool, true, false, List, [], ◌∷◌, ◌++◌, ◌==◌,
  Option, none, some, if◌then◌else◌, length, take, ok, err, assertion, ok_injective, arith,
  take_of_length, length-take, Text, codes, decimal, digits_of, power_of_ten, digits_lem,
  length-digits, value_from, text_eq,
}
use epoll.Channel.{LoopOps}
use epoll.EventLoop.{EventLoop}
use epoll.EventLoop.Ops.{loop_ops}
use epoll.EventLoopThreadPool.{ThreadPool, get_next_loop, next_of, loop_at}
use epoll.Sockets.{errno, zero_addr, Inet}
use epoll.Sockets.Address.{of_ip, ip_text, ip_port_text, to_port}
use epoll.Sockets.Laws.{with_port, of_ip_lem}
use epoll.TcpConnection.{Callbacks}
use epoll.TcpServer.{
  ServerFunctor, call_connect_established, call_connect_destroyed, ConnectionOps, find, assign,
  connection_name, TcpServer, set_connection, queue_in_loop, remove_connection_in_loop, run_in_loop,
  increment, new_connection,
}
use epoll.TcpServer.Instance.{Named, connection_ops}
use epoll.TcpServer.Connections.{
  IsValid, next_name, new_connection_lem, remove_connection_in_loop_lem,
}
use epoll.TcpServer.Runs.{Run, begin, accepts, Run-IsValid}
use epoll.Examples.Kernel.{epoll_model, thread, ops, poller, channel}
use epoll.Examples.Kernel

abbrev silent : Callbacks ops
silent = record {
  connection_callback = λ w. ok w;
  message_callback = λ w. ok w;
  close_callback = λ w. ok w;
}

-- An address as text: the digits of a number, and the 16 bytes themselves.
abbrev pub written6 : List ℕ → Text
written6 a = take 16 a

pub written6_size : (a : List ℕ) → length (written6 a) < 46
written6_size a = omega (arith, length-take 16 a)

pub read4 : (a : ℕ) → a < 2 ^ 32 → ◌≡◌ {A = Option ℕ} (some (value_from 0 (decimal a))) (some a)
unfolding power_of_ten
read4 a h = ap some (digits_lem 10 a (omega (arith, h)))

abbrev pub inet : Inet
inet = record {
  ntop4 = λ a. decimal a;
  ntop6 = written6;
  pton4 = λ t. some (value_from 0 t);
  pton6 = λ t. some t;
  pton4-ntop4 = read4;
  pton6-ntop6 = λ a h. ap some (take_of_length 16 a (omega (arith, h)));
  ntop4_size = λ a. omega (arith, length-digits 10 a);
  ntop6_size = written6_size;
}

abbrev pub ip : Text
ip = codes "2130706433"

of_ip_lem_example :
    (ip_text inet (of_ip inet zero_addr ip 2009 false) ≡ ok ip)
    × (to_port (of_ip inet zero_addr ip 2009 false) ≡ 2009)
    × (ip_port_text inet (of_ip inet zero_addr ip 2009 false) ≡ ok (with_port ip 2009))
    × (length (with_port ip 2009) ≤ 51)
unfolding value_from digits_of
of_ip_lem_example = of_ip_lem inet zero_addr ip 2009 false (2130706433, refl, refl) (omega arith)

abbrev pub server_loops : LoopOps ServerFunctor
server_loops = loop_ops epoll_model ServerFunctor thread

abbrev pub base : EventLoop epoll_model ServerFunctor
base = record {
  address = 7;
  looping = true;
  quit = false;
  event_handling = false;
  calling_pending_functors = false;
  thread_id = thread;
  poll_return_time = 0;
  poller = poller;
  active_channels = [];
  current_active_channel = none;
  pending_functors = [];
}

abbrev conns : ConnectionOps
conns = connection_ops ops silent (λ l. Kernel.loop) (λ fd. 100 + fd)

abbrev pool : ThreadPool
pool = record { base_loop = 7; started = true; num_threads = 2; next = 1; loops = 1000 ∷ 1100 ∷ [] }

abbrev Server : Type 0
Server = TcpServer server_loops conns

abbrev idle : Server
idle = record {
  base_loop = 7;
  loop = base;
  ip_port = codes "0.0.0.0:2009";
  name = codes "TcpServer";
  acceptor = record {
    accept_socket = record { sockfd = 5; calls = [] };
    accept_channel = channel;
    listenning = true;
  };
  thread_pool = pool;
  started = 1;
  next_conn_id = 1;
  connections = [];
  store = λ a. none;
  queues = λ l. [];
}

-- Only the base loop's thread runs.
abbrev pub here : ℕ → Bool
here l = l == 7

idle-IsValid : IsValid server_loops conns idle
unfolding find
idle-IsValid = record { short = omega arith; named = λ n a e. cc; held = λ n a e. cc }

new_connection_lem_example :
    (l : ℕ) × (pool' : ThreadPool) × (c : Named ops) × (s' : Server) × (get_next_loop true pool
      ≡ ok (l, pool'))
    × (new_connection server_loops conns here 900 (errno 107) 8 zero_addr idle
        ≡ run_in_loop server_loops conns here false l (call_connect_established 900) s')
    × IsValid server_loops conns s'
    × (s'.connections ≡ [] ++ ((next_name server_loops conns idle, 900) ∷ []))
    × (s'.store 900 ≡ some c)
    × (c.loop_address ≡ l)
    × (s'.next_conn_id ≡ 2)
new_connection_lem_example =
    new_connection_lem server_loops conns here 900 (errno 107) 8 zero_addr idle idle-IsValid refl
      refl (inr (omega arith)) (omega arith) refl

-- Connections that have a name and a loop only.
abbrev pub plain : ConnectionOps
plain = record {
  Connection = Text × ℕ;
  create = λ l n sockfd local peer. ok (n, l);
  connect_established = λ c. ok c;
  connect_destroyed = λ c. ok c;
  name = λ c. c.0;
  get_loop = λ c. c.1;
  create_lem = λ l n sockfd local peer. ((n, l), refl, refl, refl);
  established_name = λ c c' e. ap (λ d. d.0) (sym (ok_injective e));
  destroyed_name = λ c c' e. ap (λ d. d.0) (sym (ok_injective e));
}

abbrev vacant : TcpServer server_loops plain
vacant = record {
  base_loop = 7;
  loop = base;
  ip_port = codes "0.0.0.0:2009";
  name = codes "TcpServer";
  acceptor = idle.acceptor;
  thread_pool = pool;
  started = 1;
  next_conn_id = 1;
  connections = [];
  store = λ a. none;
  queues = λ l. [];
}

vacant-IsValid : IsValid server_loops plain vacant
unfolding find
vacant-IsValid = record { short = omega arith; named = λ n a e. cc; held = λ n a e. cc }

abbrev first_name : Text
first_name = codes "TcpServer-0.0.0.0:2009#1"

abbrev first : Text × ℕ
first = (first_name, 1100)

abbrev served : TcpServer server_loops plain
served = record vacant {
  thread_pool = record pool { next = 0 };
  next_conn_id = 2;
  connections = (first_name, 900) ∷ [];
  store = λ b. if b == 900 then some first else none;
  queues = λ k. if k == 1100 then call_connect_established 900 ∷ [] else [];
}

one_accepted : Run server_loops plain vacant served
unfolding new_connection increment get_next_loop next_of loop_at connection_name digits_of assign
    set_connection run_in_loop queue_in_loop
one_accepted = accepts here 900 (errno 107) 8 zero_addr begin refl refl

remove_connection_in_loop_lem_example :
    (s' : TcpServer server_loops plain) × (remove_connection_in_loop server_loops plain here 900
        served
      ≡ ok s')
    × IsValid server_loops plain s'
    × ((n : Text)
        → find n s'.connections
          ≡ (if text_eq first_name n then none else find n served.connections))
    × ((l : ℕ)
        → s'.queues l ≡ (
            if l == 1100
            then served.queues l ++ (call_connect_destroyed 900 ∷ [])
            else served.queues l))
    × (remove_connection_in_loop server_loops plain here 900 s' ≡ err assertion)
unfolding find
remove_connection_in_loop_lem_example =
    remove_connection_in_loop_lem server_loops plain here 900 first served
      (Run-IsValid server_loops plain one_accepted vacant-IsValid) refl refl refl

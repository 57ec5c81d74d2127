-- ===== src/TcpServer/Instance.antt =====
-- Connections of `TcpConnection` are what a server asks for.
use epoll.Base.{ℕ, ◌≡◌, refl, sym, ap, true, Result, ok, bind_inversion, ok_injective, ◌>>=◌, Text}
use epoll.Buffer
use epoll.Channel.{LoopOps}
use epoll.Sockets.Address.{InetAddress}
use epoll.TcpConnection.{Functor, Connection, Callbacks}
use epoll.TcpConnection
use epoll.TcpServer.{ConnectionOps}

-- A connection with its name, and the address of its loop.
pub record Named (ops : LoopOps Functor) : Type 0 where
  pub label : Text
  pub loop_address : ℕ
  pub connection : Connection ops

module _ (ops : LoopOps Functor) (callbacks : Callbacks ops) where
  -- `loop` has the states of the loops, and `channel` the address of each descriptor's channel.
  abbrev pub create :
      (ℕ → ops.Loop) → (ℕ → ℕ) → ℕ → Text → ℕ → InetAddress → InetAddress → Result (Named ops)
  create loop channel l name sockfd local peer = do
    w ← TcpConnection.new ops (loop l) l (channel sockfd) sockfd true
    ok (record { label = name; loop_address = l; connection = w })

  abbrev pub established : Named ops → Result (Named ops)
  established n = do
    w ← TcpConnection.connect_established ops callbacks n.connection
    ok (record n { connection = w })

  abbrev pub destroyed : Named ops → Result (Named ops)
  destroyed n = do
    w ← TcpConnection.connect_destroyed ops callbacks n.connection
    ok (record n { connection = w })

  pub created_lem :
      (loop : ℕ → ops.Loop) (channel : ℕ → ℕ) (l : ℕ) (name : Text) (sockfd : ℕ)
      (local peer : InetAddress)
      → (c : Named ops) × (create loop channel l name sockfd local peer ≡ ok c)
        × (c.label ≡ name)
        × (c.loop_address ≡ l)
  unfolding TcpConnection.new Buffer.new
  created_lem loop channel l name sockfd local peer = (_, refl, refl, refl)

  pub established_label : (n n' : Named ops) → established n ≡ ok n' → n'.label ≡ n.label
  established_label n n' h =
      let (w, done, e) =
        bind_inversion (TcpConnection.connect_established ops callbacks n.connection) _ n' h in
      ap (λ m. m.label) (sym (ok_injective e))

  pub destroyed_label : (n n' : Named ops) → destroyed n ≡ ok n' → n'.label ≡ n.label
  destroyed_label n n' h =
      let (w, done, e) =
        bind_inversion (TcpConnection.connect_destroyed ops callbacks n.connection) _ n' h in
      ap (λ m. m.label) (sym (ok_injective e))

  abbrev pub connection_ops : (ℕ → ops.Loop) → (ℕ → ℕ) → ConnectionOps
  connection_ops loop channel = record {
    Connection = Named ops;
    create = create loop channel;
    connect_established = established;
    connect_destroyed = destroyed;
    name = λ n. n.label;
    get_loop = λ n. n.loop_address;
    create_lem = created_lem loop channel;
    established_name = established_label;
    destroyed_name = destroyed_label;
  }

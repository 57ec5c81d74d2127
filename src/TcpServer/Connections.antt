-- ===== src/TcpServer/Connections.antt =====
-- Accepting and removing connections: the map has each connection under its own name.
use epoll.Base.{
  ℕ, ◌+◌, ◌≡◌, ◌≤◌, ◌<◌, refl, sym, ap, ◌∙◌, ◌⊎◌, ◌^◌, ltb, inl, inr, Bool, true, false, [], ◌∷◌,
  ◌++◌, ◌==◌, none, some, if◌then◌else◌, Bool-cases, Option-cases, length, ok, err, assertion,
  arith, ==_iff, Text, text_eq, text_eq-eq, text_eq_refl,
}
use epoll.Channel.{LoopOps}
use epoll.EventLoopThreadPool.{ThreadPool, get_next_loop}
use epoll.EventLoopThreadPool.Start.{next_found, next_base}
use epoll.Sockets.{SockAddr, Answer, get_local_addr}
use epoll.Sockets.Address.{InetAddress}
use epoll.TcpServer.{
  ServerFunctor, call_connect_established, call_connect_destroyed, ConnectionOps, find, assign,
  erase, connection_name, TcpServer, connection_at, set_connection, queue_in_loop,
  remove_connection_in_loop, run_in_loop, increment, new_connection,
}
use epoll.TcpServer.Map.{find-assign, find-erase, assign-new}
use epoll.TcpServer.Names.{id_limit, connection_name_injective}

-- The number that follows, if it fits an `int`.
increment_lem : (i : ℕ) → i + 1 < id_limit → increment i ≡ ok (i + 1)
unfolding increment
increment_lem i h = ground (arith, h)

pub increment_inversion :
    (i after : ℕ) → increment i ≡ ok after → (after ≡ i + 1) × (i + 1 < id_limit)
unfolding increment
increment_inversion i after h = elim (Bool-cases (ltb (i + 1) (2 ^ 31))) [
  | inl fits ↦ (ground (arith, h, fits), ground (arith, fits))
  | inr over ↦ absurd (ground (arith, h, over))
]

-- A started pool has a next loop: one of its threads', or the base loop if it has no threads.
next_loop :
    (p : ThreadPool)
    → p.started ≡ true
    → (length p.loops ≡ 0) ⊎ (p.next < length p.loops)
    → (l : ℕ) × (p' : ThreadPool) × (get_next_loop true p ≡ ok (l, p'))
next_loop p on (inl empty) = (p.base_loop, p, next_base p on empty)
next_loop p on (inr some_threads) = next_found p on some_threads

module _ (loops : LoopOps ServerFunctor) (conns : ConnectionOps) where
  open conns use {Connection}

  -- Every entry has the name of an earlier number, and the connection of that name.
  pub record IsValid (s : TcpServer loops conns) : Type 0 where
    pub short : length s.ip_port ≤ 51
    pub named :
        (n : Text) (a : ℕ)
        → find n s.connections ≡ some a
        → (id : ℕ) × (id < s.next_conn_id) × (n ≡ connection_name s.name s.ip_port id)
    pub held :
        (n : Text) (a : ℕ)
        → find n s.connections ≡ some a
        → (c : Connection) × (s.store a ≡ some c) × (conns.name c ≡ n)

  -- The name of the next connection.
  abbrev pub next_name : TcpServer loops conns → Text
  next_name s = connection_name s.name s.ip_port s.next_conn_id

  pub next_name-new :
      (s : TcpServer loops conns)
      → IsValid s
      → s.next_conn_id < id_limit
      → find (next_name s) s.connections ≡ none
  next_name-new s v h = elim (Option-cases (find (next_name s) s.connections)) [
    | inl free ↦ free
    | inr (a, taken) ↦
        let (id, below, same) = v.named (next_name s) a taken in
        let equal : s.next_conn_id ≡ id =
          connection_name_injective s.name s.ip_port s.next_conn_id id v.short h
            (omega (arith, h, below)) same in
        absurd (omega (arith, equal, below))
  ]

  -- The server with the new connection `c` at `address`, before its loop hears of it.
  abbrev pub added : ThreadPool → ℕ → Connection → TcpServer loops conns → TcpServer loops conns
  added pool address c s = set_connection loops conns address c (record s {
    thread_pool = pool;
    next_conn_id = s.next_conn_id + 1;
    connections = assign (next_name s) address s.connections;
  })

  pub added-IsValid :
      (pool : ThreadPool) (address : ℕ) (c : Connection) (s : TcpServer loops conns)
      → IsValid s
      → s.store address ≡ none
      → conns.name c ≡ next_name s
      → IsValid (added pool address c s)
  unfolding set_connection
  added-IsValid pool address c s v free own = record {
    short = v.short;
    named = λ n a e. elim (Bool-cases (text_eq (next_name s) n)) [
      | inl new ↦ (s.next_conn_id, omega arith, sym (text_eq-eq (next_name s) n new))
      | inr old ↦
          let before : find n s.connections ≡ some a =
            ground (arith, find-assign (next_name s) n address s.connections, e, old) in
          let (id, below, same) = v.named n a before in (id, omega (arith, below), same)
    ];
    held = λ n a e. elim (Bool-cases (text_eq (next_name s) n)) [
      | inl new ↦
          let there : address ≡ a =
            ground (arith, find-assign (next_name s) n address s.connections, e, new) in
          (c, ground (arith, there), own ∙ text_eq-eq (next_name s) n new)
      | inr old ↦
          let before : find n s.connections ≡ some a =
            ground (arith, find-assign (next_name s) n address s.connections, e, old) in
          let (c', here, same) = v.held n a before in
          (
            c',
            elim (Bool-cases (a == address)) [
              | inl clash ↦
                  absurd (ground (arith, free, ap s.store ((==_iff a address).0 clash), here))
              | inr apart ↦ rw apart here
            ],
            same,
          )
    ];
  }

  -- `newConnection` in the base loop's thread, of a started pool, which has no threads or a next
  -- index within its loops, with a number that can be counted up within an `int` and a fresh object: no connection is replaced, the new one is put behind the others
  -- under the name of its number, the next number follows, the map stays valid, and its loop, the
  -- next of the pool, is handed the one functor that establishes it.
  pub new_connection_lem :
      (here : ℕ → Bool) (address : ℕ) (local : Answer SockAddr) (sockfd : ℕ) (peer : InetAddress)
      (s : TcpServer loops conns)
      → IsValid s
      → here s.base_loop ≡ true
      → s.thread_pool.started ≡ true
      → (length s.thread_pool.loops ≡ 0) ⊎ (s.thread_pool.next < length s.thread_pool.loops)
      → s.next_conn_id + 1 < id_limit
      → s.store address ≡ none
      → (l : ℕ) × (pool : ThreadPool) × (c : Connection) × (s' : TcpServer loops conns)
        × (get_next_loop true s.thread_pool ≡ ok (l, pool))
        × (new_connection loops conns here address local sockfd peer s
            ≡ run_in_loop loops conns here false l (call_connect_established address) s')
        × IsValid s'
        × (s'.connections ≡ s.connections ++ ((next_name s, address) ∷ []))
        × (s'.store address ≡ some c)
        × (conns.get_loop c ≡ l)
        × (s'.next_conn_id ≡ s.next_conn_id + 1)
  unfolding new_connection set_connection
  new_connection_lem here address local sockfd peer s v thread on ready limit free =
      let (l, pool, picked) = next_loop s.thread_pool on ready in
      let (c, made, own, at) =
        conns.create_lem l (next_name s) sockfd (get_local_addr local) peer in
      (
        l,
        pool,
        c,
        added pool address c s,
        picked,
        rw (thread, picked, increment_lem s.next_conn_id limit, made) refl,
        added-IsValid pool address c s v free own,
        assign-new (next_name s) address s.connections (next_name-new s v (omega (arith, limit))),
        ground arith,
        at,
        refl,
      )

  connection_at_lem :
      (a : ℕ) (c : Connection) (s : TcpServer loops conns)
      → s.store a ≡ some c
      → connection_at loops conns a s ≡ ok c
  unfolding connection_at
  connection_at_lem a c s held = ground (arith, held)

  -- The server without the connection `c` at `address`, whose loop is about to destroy it.
  abbrev pub removed : ℕ → Connection → TcpServer loops conns → TcpServer loops conns
  removed address c s =
      queue_in_loop loops conns (conns.get_loop c) (call_connect_destroyed address)
        (record s { connections = erase (conns.name c) s.connections })

  pub removed-IsValid :
      (address : ℕ) (c : Connection) (s : TcpServer loops conns)
      → IsValid s
      → IsValid (removed address c s)
  unfolding queue_in_loop
  removed-IsValid address c s v = record {
    short = v.short;
    named = λ n a e. v.named n a (kept n a e);
    held = λ n a e. v.held n a (kept n a e);
  }
    where
      kept :
          (n : Text) (a : ℕ)
          → find n (erase (conns.name c) s.connections) ≡ some a
          → find n s.connections ≡ some a
      kept n a e = elim (Bool-cases (text_eq (conns.name c) n)) [
        | inl gone ↦ absurd (ground (arith, find-erase (conns.name c) n s.connections, e, gone))
        | inr other ↦ ground (arith, find-erase (conns.name c) n s.connections, e, other)
      ]

  -- `removeConnectionInLoop` of a connection in the map, in the base loop's thread: its assert
  -- holds, the map stays valid, the entry of its name is gone and all others stay, and its loop is
  -- handed the one functor that destroys it. A second removal fails the assert.
  pub remove_connection_in_loop_lem :
      (here : ℕ → Bool) (address : ℕ) (c : Connection) (s : TcpServer loops conns)
      → IsValid s
      → here s.base_loop ≡ true
      → s.store address ≡ some c
      → find (conns.name c) s.connections ≡ some address
      → (s' : TcpServer loops conns) × (remove_connection_in_loop loops conns here address s
          ≡ ok s')
        × IsValid s'
        × ((n : Text)
            → find n s'.connections
              ≡ (if text_eq (conns.name c) n then none else find n s.connections))
        × ((l : ℕ)
            → s'.queues l ≡ (
                if l == conns.get_loop c
                then s.queues l ++ (call_connect_destroyed address ∷ [])
                else s.queues l))
        × (remove_connection_in_loop loops conns here address s' ≡ err assertion)
  unfolding remove_connection_in_loop queue_in_loop
  remove_connection_in_loop_lem here address c s v thread held listed =
      let gone : find (conns.name c) (erase (conns.name c) s.connections) ≡ none = ground (
        arith,
        find-erase (conns.name c) (conns.name c) s.connections,
        text_eq_refl (conns.name c),
      ) in
      (
        removed address c s,
        rw (thread, connection_at_lem address c s held, listed) refl,
        removed-IsValid address c s v,
        λ n. find-erase (conns.name c) n s.connections,
        λ l. refl,
        rw (thread, connection_at_lem address c (removed address c s) held, gone) refl,
      )

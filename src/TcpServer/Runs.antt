-- ===== src/TcpServer/Runs.antt =====
-- Every state that a server reaches has a valid map.
use epoll.Base.{
  ℕ, ◌≡◌, sym, ap, subst, ◌∙◌, inl, inr, Bool, false, not, List, ◌∷◌, ◌==◌, none, some,
  if◌then◌else◌, Bool-cases, Option-cases, ok, check, assert, bind_inversion, then_inversion,
  ok_injective, fatal, ◌>>=◌, arith, ==_iff,
}
use epoll.Channel.{LoopOps}
use epoll.EventLoopThreadPool
use epoll.EventLoopThreadPool.{get_next_loop}
use epoll.Sockets.{SockAddr, Answer, get_local_addr}
use epoll.Sockets.Address.{InetAddress}
use epoll.Acceptor
use epoll.TcpServer.{
  ServerFunctor, call_connect_established, call_connect_destroyed, call_remove_connection_in_loop,
  call_listen, ConnectionOps, TcpServer, connection_at, set_connection, queue_in_loop,
  remove_connection_in_loop, call_functor, run_in_loop, new_connection, increment,
  remove_connection, start,
}
use epoll.TcpServer.Connections.{
  IsValid, increment_inversion, next_name, added, added-IsValid, removed-IsValid,
}

module _ (loops : LoopOps ServerFunctor) (conns : ConnectionOps) where
  open conns use {Connection}

  abbrev Server : Type 0
  Server = TcpServer loops conns

  found_connection :
      (a : ℕ) (s : Server) (c : Connection)
      → connection_at loops conns a s ≡ ok c
      → s.store a ≡ some c
  unfolding connection_at
  found_connection a s c h = elim (Option-cases (s.store a)) [
    | inl lost ↦ absurd (ground (arith, h, lost))
    | inr (c', here) ↦ ground (arith, h, here)
  ]

  -- A connection may change, but for its name.
  renewed-IsValid :
      (a : ℕ) (c c' : Connection) (s : Server)
      → IsValid loops conns s
      → s.store a ≡ some c
      → conns.name c' ≡ conns.name c
      → IsValid loops conns (set_connection loops conns a c' s)
  unfolding set_connection
  renewed-IsValid a c c' s v here same = record {
    short = v.short;
    named = v.named;
    held = λ n b e.
        let (d, there, own) = v.held n b e in
        elim (Bool-cases (b == a)) [
          | inl equal ↦
              let found : s.store a ≡ some d = ap s.store (sym ((==_iff b a).0 equal)) ∙ there in
              let one : c ≡ d = cc in (c', ground (arith, equal), same ∙ ap conns.name one ∙ own)
          | inr apart ↦ (d, rw apart there, own)
        ];
  }

  queued-IsValid :
      (l : ℕ) (f : ServerFunctor) (s : Server)
      → IsValid loops conns s
      → IsValid loops conns (queue_in_loop loops conns l f s)
  unfolding queue_in_loop
  queued-IsValid l f s v = record { short = v.short; named = v.named; held = v.held }

  established-IsValid :
      (a : ℕ) (s s' : Server)
      → IsValid loops conns s
      → (connection_at loops conns a s >>= λ c.
          conns.connect_established c >>= λ c'. ok (set_connection loops conns a c' s))
        ≡ ok s'
      → IsValid loops conns s'
  established-IsValid a s s' v h =
      let (c, at, h₁) = bind_inversion (connection_at loops conns a s) _ s' h in
      let (c', done, h₂) = bind_inversion (conns.connect_established c) _ s' h₁ in
      let here = found_connection a s c at in
      let w = renewed-IsValid a c c' s v here (conns.established_name c c' done) in
      subst (IsValid loops conns) (ok_injective h₂) w

  destroyed-IsValid :
      (a : ℕ) (s s' : Server)
      → IsValid loops conns s
      → (connection_at loops conns a s >>= λ c.
          conns.connect_destroyed c >>= λ c'. ok (set_connection loops conns a c' s))
        ≡ ok s'
      → IsValid loops conns s'
  destroyed-IsValid a s s' v h =
      let (c, at, h₁) = bind_inversion (connection_at loops conns a s) _ s' h in
      let (c', done, h₂) = bind_inversion (conns.connect_destroyed c) _ s' h₁ in
      let here = found_connection a s c at in
      let w = renewed-IsValid a c c' s v here (conns.destroyed_name c c' done) in
      subst (IsValid loops conns) (ok_injective h₂) w

  remove-IsValid :
      (here : ℕ → Bool) (a : ℕ) (s s' : Server)
      → IsValid loops conns s
      → remove_connection_in_loop loops conns here a s ≡ ok s'
      → IsValid loops conns s'
  unfolding remove_connection_in_loop
  remove-IsValid here a s s' v h =
      let (thread, h₁) = then_inversion (check (here s.base_loop) fatal) _ s' h in
      let (c, at, h₂) = bind_inversion (connection_at loops conns a s) _ s' h₁ in
      let (one, h₃) = then_inversion _ _ s' h₂ in
      subst (IsValid loops conns) (ok_injective h₃) (removed-IsValid loops conns a c s v)

  call_functor-IsValid :
      (here : ℕ → Bool) (listening : Bool) (f : ServerFunctor) (s s' : Server)
      → IsValid loops conns s
      → call_functor loops conns here listening f s ≡ ok s'
      → IsValid loops conns s'
  unfolding call_functor
  call_functor-IsValid here listening (call_connect_established a) s s' v h =
      established-IsValid a s s' v h
  call_functor-IsValid here listening (call_connect_destroyed a) s s' v h =
      destroyed-IsValid a s s' v h
  call_functor-IsValid here listening (call_remove_connection_in_loop a) s s' v h =
      remove-IsValid here a s s' v h
  call_functor-IsValid here listening call_listen s s' v h =
      let (r, done, h₁) =
        bind_inversion (Acceptor.listen loops listening s.acceptor s.loop) _ s' h in
      subst (IsValid loops conns) (ok_injective h₁)
        (record { short = v.short; named = v.named; held = v.held })

  run_in_loop-IsValid :
      (here : ℕ → Bool) (listening : Bool) (l : ℕ) (f : ServerFunctor) (s s' : Server)
      → IsValid loops conns s
      → run_in_loop loops conns here listening l f s ≡ ok s'
      → IsValid loops conns s'
  unfolding run_in_loop
  run_in_loop-IsValid here listening l f s s' v h = elim (Bool-cases (here l)) [
    | inl direct ↦ call_functor-IsValid here listening f s s' v (rw direct at h)
    | inr elsewhere ↦
        subst (IsValid loops conns) (ok_injective (rw elsewhere at h)) (queued-IsValid l f s v)
  ]

  new_connection-IsValid :
      (here : ℕ → Bool) (address : ℕ) (local : Answer SockAddr) (sockfd : ℕ) (peer : InetAddress)
      (s s' : Server)
      → IsValid loops conns s
      → s.store address ≡ none
      → new_connection loops conns here address local sockfd peer s ≡ ok s'
      → IsValid loops conns s'
  unfolding new_connection
  new_connection-IsValid here address local sockfd peer s s' v free h =
      let (thread, h₁) = then_inversion (check (here s.base_loop) fatal) _ s' h in
      let ((l, pool), picked, h₂) =
        bind_inversion (get_next_loop (here s.base_loop) s.thread_pool) _ s' h₁ in
      let (after, counted, h₂) = bind_inversion (increment s.next_conn_id) _ s' h₂ in
      let follows = increment_inversion s.next_conn_id after counted in
      let (c, made, own, at) =
        conns.create_lem l (next_name loops conns s) sockfd (get_local_addr local) peer in
      let h₃ : run_in_loop loops conns here false l (call_connect_established address)
            (added loops conns pool address c s)
          ≡ ok s' =
        rw (← follows.0) (rw made at h₂) in
      run_in_loop-IsValid here false l (call_connect_established address) _ s'
        (added-IsValid loops conns pool address c s v free own) h₃

  start-IsValid :
      (here : ℕ → Bool) (start_loop : ℕ → ℕ) (listening : Bool) (s s' : Server)
      → IsValid loops conns s
      → start loops conns here start_loop listening s ≡ ok s'
      → IsValid loops conns s'
  unfolding start
  start-IsValid here start_loop listening s s' v h = elim (Bool-cases (s.started == 0)) [
    | inr again ↦
        subst (IsValid loops conns) (ok_injective (rw again at h))
          (record { short = v.short; named = v.named; held = v.held })
    | inl first ↦
        let h₀ = rw first at h in
        let (pool, done, h₁) =
          bind_inversion (EventLoopThreadPool.start start_loop (here s.base_loop) s.thread_pool) _
            s' h₀ in
        let (silent, h₂) = then_inversion (assert (not s.acceptor.listenning)) _ s' h₁ in
        run_in_loop-IsValid here listening s.base_loop call_listen _ s'
          (record { short = v.short; named = v.named; held = v.held }) h₂
  ]

  -- A run of a server: connections arrive and are removed, and loops call what waits in their
  -- queues. Each step says which threads it runs in and what the system answered.
  pub data Run (s : Server) : Server → Type 0 where
    begin : Run s s
    starts :
        {t t' : Server} (here : ℕ → Bool) (start_loop : ℕ → ℕ) (listening : Bool)
        → Run s t
        → start loops conns here start_loop listening t ≡ ok t'
        → Run s t'
    accepts :
        {t t' : Server} (here : ℕ → Bool) (address : ℕ) (local : Answer SockAddr) (sockfd : ℕ)
        (peer : InetAddress)
        → Run s t
        → t.store address ≡ none
        → new_connection loops conns here address local sockfd peer t ≡ ok t'
        → Run s t'
    removes :
        {t t' : Server} (here : ℕ → Bool) (address : ℕ)
        → Run s t
        → remove_connection loops conns here address t ≡ ok t'
        → Run s t'
    calls :
        {t t' : Server} (here : ℕ → Bool) (listening : Bool) (l : ℕ) (f : ServerFunctor)
        (rest : List ServerFunctor)
        → Run s t
        → t.queues l ≡ f ∷ rest
        → call_functor loops conns here listening f
            (record t { queues = λ k. if k == l then rest else t.queues k })
          ≡ ok t'
        → Run s t'

  -- Whatever the order in which connections arrive, are removed and are served by their loops, each
  -- entry of the server's map has the name of an earlier number and holds the connection of that
  -- name.
  pub Run-IsValid : {s t : Server} → Run s t → IsValid loops conns s → IsValid loops conns t
  unfolding remove_connection
  Run-IsValid begin v = v
  Run-IsValid (starts {t = t} {t' = t'} here start_loop listening r h) v =
      start-IsValid here start_loop listening t t' (Run-IsValid r v) h
  Run-IsValid (accepts {t = t} {t' = t'} here address local sockfd peer r free h) v =
      new_connection-IsValid here address local sockfd peer t t' (Run-IsValid r v) free h
  Run-IsValid (removes {t = t} {t' = t'} here address r h) v =
      run_in_loop-IsValid here false t.base_loop (call_remove_connection_in_loop address) t t'
        (Run-IsValid r v) h
  Run-IsValid (calls {t = t} {t' = t'} here listening l f rest r waiting h) v =
      let w = Run-IsValid r v in
      call_functor-IsValid here listening f _ t'
        (record { short = w.short; named = w.named; held = w.held }) h

-- ===== src/Session/Polling.antt =====
-- One event of a connection, from epoll_wait to the handlers, and the functors afterwards.
use epoll.Base.{
  ℕ, ◌≡◌, ◌≢◌, refl, ◌∙◌, true, List, [], ◌∷◌, ◌++◌, ◌==◌, some, none, ok, arith, if◌then◌else◌,
}
use epoll.Buffer.ReadFd.{Received}
use epoll.Channel.{new_index, set_revents}
use epoll.Poller.{Epoll, EpollEvent, find}
use epoll.Poller.Poll.{Store, poll, poll_lem, are_known, is_known, updated, received}
use epoll.Poller.Registry.{Fits, unknown, watched, unwatched}
use epoll.EventLoop.{run_all}
use epoll.EventLoop.Ops.{LoopTracks}
use epoll.TcpConnection.{
  Functor, call_write_complete, call_shutdown_in_loop, call_send_in_loop, call_connect_destroyed,
  Connection, Written,
}
use epoll.TcpConnection.Defaults.{default_write_complete_callback}
use epoll.Session.Queue.{all_complete}
use epoll.Session.{ops, run_functor}

module _ (epoll : Epoll) (tid : ℕ) where
  abbrev Conn : Type 0
  Conn = Connection (ops epoll tid)

  registered_at :
      (w : Conn)
      → LoopTracks epoll Functor tid w.loop w.channel
      → w.channel.index ≢ new_index
      → find w.channel.fd w.loop.poller.channels ≡ some w.channel.address
  registered_at w t known = at t.tracks.fits
    where
      at :
          Fits epoll w.loop.poller w.channel
          → find w.channel.fd w.loop.poller.channels ≡ some w.channel.address
      at (unknown i f k) = absurd (known i)
      at (watched e i f k) = f
      at (unwatched i f k) = f

  -- What epoll_wait writes for the connection.
  abbrev pub event_of : ℕ → Conn → EpollEvent
  event_of events w = record { events = events; ptr = w.channel.address }

  -- The connection when its channel has received events.
  abbrev pub told : ℕ → Conn → Conn
  told events w = record w { channel = set_revents events w.channel }

  module _ (readv : ℕ → Received) (write : Conn → Written) where
    abbrev store_of : Conn → Store
    store_of w a = if a == w.channel.address then some w.channel else none

    pub poll_one :
        (events : ℕ) (w : Conn)
        → LoopTracks epoll Functor tid w.loop w.channel
        → w.channel.index ≢ new_index
        → (store : Store) × (poll epoll (some (event_of events w ∷ [])) w.loop.poller (store_of w)
            ≡ ok (w.channel.address ∷ [], store))
          × (store w.channel.address ≡ some (set_revents events w.channel))
    unfolding are_known is_known updated received
    poll_one events w t known =
        let found = registered_at w t known in
        let (store, e, all) =
          poll_lem epoll (event_of events w ∷ []) w.loop.poller (store_of w) (omega arith)
            (ground (arith, found)) in
        (store, e, all w.channel.address ∙ ground arith)

    -- Write-complete functors leave the connection as it is.
    pub run_complete :
        (more fs : List Functor) (w : Conn)
        → all_complete more ≡ true
        → run_all epoll Functor (run_functor epoll tid readv write) (more ++ fs) w
          ≡ run_all epoll Functor (run_functor epoll tid readv write) fs w
    unfolding run_all run_functor default_write_complete_callback
    run_complete [] fs w h = refl
    run_complete (call_write_complete ∷ more) fs w h = run_complete more fs w h
    run_complete (call_shutdown_in_loop ∷ more) fs w h = cc
    run_complete (call_send_in_loop message ∷ more) fs w h = cc
    run_complete (call_connect_destroyed ∷ more) fs w h = cc

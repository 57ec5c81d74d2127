-- ===== src/TcpConnection/EndOfLife.antt =====
-- The end of a connection in an event loop: the loop no longer has its channel.
use epoll.Base.{ℕ, ◌≡◌, false, none, ok, arith}
use epoll.Channel.{Channel, new_index}
use epoll.Poller
use epoll.Poller.{Epoll, Poller, find}
use epoll.Poller.Registry.{Fits, unknown, watched, unwatched}
use epoll.EventLoop.{EventLoop, has_channel}
use epoll.EventLoop.Ops.{LoopTracks}

module _ (epoll : Epoll) (tid : ℕ) where
  -- A channel with the index of a new one is not in the registry.
  new_unknown :
      (p : Poller epoll) (c : Channel)
      → Fits epoll p c
      → c.index ≡ new_index
      → find c.fd p.channels ≡ none
  new_unknown p c (unknown i f k) new = f
  new_unknown p c (watched e i f k) new = absurd (ground (arith, i, new))
  new_unknown p c (unwatched i f k) new = absurd (ground (arith, i, new))

  pub unknown_lem :
      (F : Type 0) (l : EventLoop epoll F) (c : Channel)
      → LoopTracks epoll F tid l c
      → c.index ≡ new_index
      → has_channel epoll F tid c l ≡ ok false
  unfolding has_channel Poller.has_channel
  unknown_lem F l c t new =
      rw (new_unknown l.poller c t.tracks.fits new) (ground (arith, t.owner, t.thread))

-- ===== src/Session/Loop.antt =====
-- `EventLoop::loop` over a connection, for any number of rounds.
use epoll.Base.{ℕ, ◌≡◌, ◌≢◌, true, false, Bool, List, [], ◌∷◌, ◌++◌, none, some, ok}
use epoll.Buffer.ReadFd.{Received}
use epoll.Channel.{new_index}
use epoll.Channel.Dispatch.{is_hung_up, is_readable}
use epoll.Poller.{Epoll}
use epoll.EventLoop.{EventLoop}
use epoll.EventLoop.Rounds.{Round, Outcome, ended, polling, round}
use epoll.TcpConnection.{Functor, Connection, Written}
use epoll.TcpConnection.Invariant.{stream}
use epoll.Session.{ops, runtime}
use epoll.Session.Closing.{Ends}
use epoll.Session.Polling.{event_of, told}
use epoll.Session.Rounds.{IsGone}
use epoll.Session.Serving.{Serves, Arrives}

module _ (epoll : Epoll) (tid : ℕ) where
  abbrev Conn : Type 0
  Conn = Connection (ops epoll tid)

  module _ (readv : ℕ → Received) (write : Conn → Written) where
    -- What a round may bring, with the bytes that the connection then hears: nothing, or one event of
    -- the connection, whose channel the poller knows: bytes for which there is room, room for output,
    -- or the end.
    pub data Admissible (w : Conn) : Round → List ℕ → Type 0 where
      nothing : (time : ℕ) → Admissible w (none, time) []
      arrives :
          (events time x : ℕ) (bytes : List ℕ)
          → w.channel.index ≢ new_index
          → Arrives epoll tid (readv time) x bytes (told epoll tid events w)
          → Admissible w (some (event_of epoll tid events w ∷ []), time) (x ∷ bytes)
      moves :
          (events time : ℕ)
          → w.channel.index ≢ new_index
          → is_hung_up events ≡ false
          → is_readable events ≡ false
          → Admissible w (some (event_of epoll tid events w ∷ []), time) []
      ends :
          (events time : ℕ)
          → w.channel.index ≢ new_index
          → Ends epoll tid (readv time) (told epoll tid events w)
          → Admissible w (some (event_of epoll tid events w ∷ []), time) []

    -- Every round is admissible in the state in which it comes; with the bytes of all of them.
    pub data AllAdmissible : List Round → List ℕ → Conn → Type 0 where
      none_left : (w : Conn) → AllAdmissible [] [] w
      next :
          (r : Round) (rest : List Round) (bytes more : List ℕ) (w : Conn)
          → Admissible w r bytes
          → ((w' : Conn)
              → round epoll Functor (runtime epoll tid readv write) r w ≡ ok w'
              → AllAdmissible rest more w')
          → AllAdmissible (r ∷ rest) (bytes ++ more) w

    -- The connection serves, and has answered all of these bytes, or it is gone, and has.
    pub data IsSettled (heard : List ℕ) (w : Conn) : Type 0 where
      serving : Serves epoll tid heard w → IsSettled heard w
      left : IsGone epoll tid readv write w → stream (ops epoll tid) w ≡ heard → IsSettled heard w

    -- The connection when the loop has ended or polls.
    abbrev pub state_of : Outcome epoll Functor Conn → Conn
    state_of (ended rest w) = w
    state_of (polling w) = w

    abbrev pub is_polling : Outcome epoll Functor Conn → Bool
    is_polling (ended rest w) = false
    is_polling (polling w) = true

    -- The loop comes out with a settled connection, which has answered what it has heard before the
    -- loop ended, and all of it if the loop polls still.
    pub record Settles (heard : List ℕ) (o : Outcome epoll Functor Conn) : Type 0 where
      pub answered : List ℕ
      pub unheard : List ℕ
      pub heard_lem : answered ++ unheard ≡ heard
      pub settled : IsSettled answered (state_of o)
      pub all_heard : is_polling o ≡ true → unheard ≡ []

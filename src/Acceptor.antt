-- ===== src/Acceptor.antt =====
-- Acceptor.h and Acceptor.cpp: the listening socket. `_idleFd` is never set and is left out.
use epoll.Base.{
  ℕ, Bool, true, false, List, [], ◌∷◌, Option, none, some, Result, ok, check, fatal, ◌>>=◌, ◌>>◌,
}
use epoll.Channel.{Channel, LoopOps}
use epoll.Channel
use epoll.Sockets.{SockAddr, Answer, create_nonblocking_or_die}
use epoll.Sockets.Address.{InetAddress, of_port}
use epoll.Sockets.Options.{
  Socket, set_reuse_addr, set_reuse_port, bind_address, start_listening, accept_from,
}

pub record Acceptor : Type 0 where
  pub accept_socket : Socket
  pub accept_channel : Channel
  pub listenning : Bool

-- The constructor: `address` is the channel's, `created` and `bound` answer socket and bind.
unfoldable pub new : ℕ → ℕ → Answer ℕ → Bool → InetAddress → Bool → Result Acceptor
new loop_address address created bound listen_addr reuseport = do
  fd ← create_nonblocking_or_die created
  let s : Socket = record { sockfd = fd; calls = [] }
  s' ← bind_address bound listen_addr (set_reuse_port reuseport (set_reuse_addr true s))
  ok (record {
    accept_socket = s';
    accept_channel = Channel.new loop_address address fd;
    listenning = false;
  })

module _ {F : Type 0} (ops : LoopOps F) where
  open ops use {Loop, in_loop_thread}

  -- `done` answers listen(2).
  unfoldable pub listen : Bool → Acceptor → Loop → Result (Acceptor × Loop)
  listen done a l = do
    check (in_loop_thread l) fatal
    s ← start_listening done a.accept_socket
    (c, l') ← Channel.enable_reading ops a.accept_channel l
    ok (record { accept_socket = s; accept_channel = c; listenning = true }, l')

-- The callback for a new connection works on a state `S`, with the descriptors that were closed.
-- The peer's address comes from the default constructor, over the memory `old`.
abbrev pub NewConnectionCallback : Type 0 → Type 0
NewConnectionCallback S = ℕ → InetAddress → S → Result S

module _ {S : Type 0} where
  -- The connection is handed on, or closed where there is no callback.
  unfoldable pub hand_over :
      Option (NewConnectionCallback S) → Option ℕ → InetAddress → S → Result (List ℕ × S)
  hand_over callback none peer s = ok ([], s)
  hand_over none (some connfd) peer s = ok (connfd ∷ [], s)
  hand_over (some callback) (some connfd) peer s = do s' ← callback connfd peer s; ok ([], s')

  unfoldable pub handle_read :
      Bool
      → SockAddr
      → Answer (ℕ × SockAddr)
      → Option (NewConnectionCallback S)
      → S
      → Result (List ℕ × S)
  handle_read in_loop_thread old answer callback s = do
    check in_loop_thread fatal
    (connfd, peer) ← accept_from answer (of_port old 0 false false)
    hand_over callback connfd peer s

-- ===== src/Main.antt =====
-- main.cpp: the server is made and started, up to the call of `loop`.
pub mod Starting
pub mod Failing
use epoll.Base.{ℕ, Bool, false, ◌==◌, Option, none, Result, ◌>>=◌, ◌>>◌, codes}
use epoll.Channel
use epoll.Channel.{LoopOps}
use epoll.Poller
use epoll.Poller.{Epoll, Poller}
use epoll.EventLoop.{EventLoop}
use epoll.EventLoop
use epoll.EventLoop.Ops.{loop_ops}
use epoll.Sockets.{SockAddr, Answer, Inet}
use epoll.Sockets.Address.{of_port}
use epoll.TcpServer.{ServerFunctor, ConnectionOps, TcpServer}
use epoll.TcpServer

module _ (epoll : Epoll) (inet : Inet) (conns : ConnectionOps) (tid : ℕ) where
  abbrev pub loops : LoopOps ServerFunctor
  loops = loop_ops epoll ServerFunctor tid

  -- What the system gives at the start: where the loop and the acceptor's channel lie, the epoll
  -- instance, what was in the memory of the address, and the answers of socket, bind and listen.
  pub record Host : Type 0 where
    pub loop_address : ℕ
    pub channel_address : ℕ
    pub kernel : Option (epoll.Kernel)
    pub old : SockAddr
    pub created : Answer ℕ
    pub bound : Bool
    pub listening : Bool

  -- The server is made over a new loop, and started in the loop's thread.
  unfoldable pub serve : Host → Poller epoll → Result (TcpServer loops conns)
  serve host poller = do
    (loop, in_this_thread) ← EventLoop.new epoll ServerFunctor host.loop_address tid poller none
    let listen_addr = of_port host.old 2009 false false
    server ←
        TcpServer.new loops conns inet host.loop_address loop host.channel_address host.created
          host.bound listen_addr (codes "TcpServer") false
    TcpServer.start loops conns (λ l. l == host.loop_address) (λ i. host.loop_address)
        host.listening server

  unfoldable pub start_up : Host → Result (TcpServer loops conns)
  start_up host = do poller ← Poller.new epoll host.kernel; serve host poller

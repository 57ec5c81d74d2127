-- ===== src/TcpConnection/Ending.antt =====
-- The destructor of a connection, and the names of its states.
use epoll.Base.{Result, assert, Text, codes}
use epoll.Channel.{LoopOps}
use epoll.TcpConnection.{
  Functor, StateE, connecting, connected, disconnecting, disconnected, is_disconnected, Connection,
}

unfoldable pub state_to_string : StateE → Text
state_to_string disconnected = codes "kDisconnected"
state_to_string connecting = codes "kConnecting"
state_to_string connected = codes "kConnected"
state_to_string disconnecting = codes "kDisconnecting"

module _ (ops : LoopOps Functor) where
  unfoldable pub destroy : Connection ops → Result (Unit {0})
  destroy w = assert (is_disconnected w.state)

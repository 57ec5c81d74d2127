-- ===== src/Sockets/Options.antt =====
-- Socket.h and Socket.cpp: a descriptor that is owned, and the calls that are made on it. The calls
-- are kept in their order.
use epoll.Base.{
  ℕ, ◌-◌, Bool, true, false, List, [], ◌∷◌, ◌++◌, Option, none, some, if◌then◌else◌, take, Result,
  ok, ◌>>=◌, ◌>>◌, Text, codes, decimal,
}
use epoll.Sockets.{SockAddr, Answer, returned, errno, accept, bind_or_die, listen_or_die}
use epoll.Sockets.Address.{InetAddress, set_sock_addr_inet6}

-- The options of setsockopt that are set.
pub data SocketOption : Type 0 where
  tcp_nodelay so_reuseaddr so_reuseport so_keepalive : SocketOption

pub data Call : Type 0 where
  setsockopt : SocketOption → ℕ → Call
  bind : InetAddress → Call
  listen : Call
  shutdown_wr : Call
  close : Call

pub record Socket : Type 0 where
  pub sockfd : ℕ
  pub calls : List Call

abbrev pub record_call : Call → Socket → Socket
record_call c s = record s { calls = s.calls ++ (c ∷ []) }

abbrev pub optval : Bool → ℕ
optval on = if on then 1 else 0

unfoldable pub set_tcp_no_delay : Bool → Socket → Socket
set_tcp_no_delay on s = record_call (setsockopt tcp_nodelay (optval on)) s

unfoldable pub set_reuse_addr : Bool → Socket → Socket
set_reuse_addr on s = record_call (setsockopt so_reuseaddr (optval on)) s

-- A failure is logged.
unfoldable pub set_reuse_port : Bool → Socket → Socket
set_reuse_port on s = record_call (setsockopt so_reuseport (optval on)) s

unfoldable pub set_keep_alive : Bool → Socket → Socket
set_keep_alive on s = record_call (setsockopt so_keepalive (optval on)) s

unfoldable pub bind_address : Bool → InetAddress → Socket → Result Socket
bind_address done a s = do bind_or_die done; ok (record_call (bind a) s)

unfoldable pub start_listening : Bool → Socket → Result Socket
start_listening done s = do listen_or_die done; ok (record_call listen s)

unfoldable pub shutdown_write : Socket → Socket
shutdown_write s = record_call shutdown_wr s

-- The destructor.
unfoldable pub destroy : Socket → Socket
destroy s = record_call close s

-- The descriptor, and the address of the peer, which stays as it was after a failure.
unfoldable pub accept_from : Answer (ℕ × SockAddr) → InetAddress → Result (Option ℕ × InetAddress)
accept_from answer peer = do
  accepted ← accept answer
  ok (elim accepted [
    | none ↦ (none, peer)
    | some (fd, addr) ↦ (some fd, set_sock_addr_inet6 addr peer)
  ])

-- The fields of `struct tcp_info` that are printed, in the order of the format.
pub record TcpInfo : Type 0 where
  pub retransmits : ℕ
  pub rto : ℕ
  pub ato : ℕ
  pub snd_mss : ℕ
  pub rcv_mss : ℕ
  pub lost : ℕ
  pub retrans : ℕ
  pub rtt : ℕ
  pub rttvar : ℕ
  pub snd_ssthresh : ℕ
  pub snd_cwnd : ℕ
  pub total_retrans : ℕ

-- `true` when getsockopt succeeds.
unfoldable pub get_tcp_info : Answer TcpInfo → Option TcpInfo
get_tcp_info (returned info) = some info
get_tcp_info (errno e) = none

-- Each name with its number.
unfoldable pub fields_text : List (Text × ℕ) → Text
fields_text [] = []
fields_text ((name, value) ∷ fields) = name ++ (decimal value ++ fields_text fields)

unfoldable pub tcp_info_text : TcpInfo → Text
tcp_info_text i = fields_text (
    (codes "unrecovered=", i.retransmits)
    ∷ (codes " rto=", i.rto)
    ∷ (codes " ato=", i.ato)
    ∷ (codes " snd_mss=", i.snd_mss)
    ∷ (codes " rcv_mss=", i.rcv_mss)
    ∷ (codes " lost=", i.lost)
    ∷ (codes " retrans=", i.retrans)
    ∷ (codes " rtt=", i.rtt)
    ∷ (codes " rttvar=", i.rttvar)
    ∷ (codes " sshthresh=", i.snd_ssthresh)
    ∷ (codes " cwnd=", i.snd_cwnd)
    ∷ (codes " total_retrans=", i.total_retrans)
    ∷ [])

-- `buf` keeps its text when the call fails; `snprintf` leaves room for the end mark.
unfoldable pub get_tcp_info_string : Answer TcpInfo → Text → ℕ → Bool × Text
get_tcp_info_string answer buf len = elim (get_tcp_info answer) [
  | none ↦ (false, buf)
  | some info ↦ (true, take (len - 1) (tcp_info_text info))
]

-- ===== src/Sockets/Address.antt =====
-- InetAddress.h and InetAddress.cpp: the address of an endpoint.
use epoll.Base.{
  ℕ, Bool, true, false, ◌&&◌, List, [], ◌∷◌, ◌++◌, ◌==◌, Option, none, some, if◌then◌else◌, drop,
  replicate, Result, ok, assert, ◌>>◌, Text,
}
use epoll.Endian.{host_to_network16, host_to_network32, network_to_host16}
use epoll.Sockets.{
  SockAddr, af_inet, af_inet6, zero_addr, Inet, Answer, returned, errno, to_ip, to_ip_port,
  from_ip_port4, from_ip_port6,
}

-- `InetAddress` is the union.
abbrev pub InetAddress : Type 0
InetAddress = SockAddr

abbrev pub inaddr_any : ℕ
inaddr_any = 0

abbrev pub inaddr_loopback : ℕ
inaddr_loopback = 0x7f000001

-- `in6addr_any` and `in6addr_loopback` of <netinet/in.h>
abbrev pub in6addr_any : List ℕ
in6addr_any = replicate 16 0

abbrev pub in6addr_loopback : List ℕ
in6addr_loopback = replicate 15 0 ++ (1 ∷ [])

-- `bzero` of the 16 bytes of a `sockaddr_in` in an object whose memory was `old`.
abbrev pub zero_sockaddr_in : SockAddr → SockAddr
zero_sockaddr_in old = record old {
  family = 0;
  port = 0;
  word = 0;
  addr6 = replicate 8 0 ++ drop 8 old.addr6;
}

-- The constructor from a port.
unfoldable pub of_port : SockAddr → ℕ → Bool → Bool → InetAddress
of_port old port loopback_only ipv6 =
    if ipv6
    then record zero_addr {
      family = af_inet6;
      addr6 = if loopback_only then in6addr_loopback else in6addr_any;
      port = host_to_network16 port;
    }
    else record (zero_sockaddr_in old) {
      family = af_inet;
      word = host_to_network32 (if loopback_only then inaddr_loopback else inaddr_any);
      port = host_to_network16 port;
    }

abbrev pub port_net_endian : InetAddress → ℕ
port_net_endian a = a.port

unfoldable pub to_port : InetAddress → ℕ
to_port a = network_to_host16 (port_net_endian a)

unfoldable pub ip_net_endian : InetAddress → Result ℕ
ip_net_endian a = do assert (a.family == af_inet); ok a.word

abbrev pub set_sock_addr_inet6 : SockAddr → InetAddress → InetAddress
set_sock_addr_inet6 addr a = addr

-- What gethostbyname_r finds: the type and the length of the first address, and its bytes.
pub record HostEnt : Type 0 where
  pub addr_type : ℕ
  pub addr_length : ℕ
  pub first : ℕ

-- `returned none` is a return of 0 without a host.
unfoldable pub resolve : Answer (Option HostEnt) → InetAddress → Result (Bool × InetAddress)
resolve (errno e) out = ok (false, out)
resolve (returned none) out = ok (false, out)
resolve (returned (some host)) out = do
  assert (host.addr_type == af_inet && host.addr_length == 4)
  ok (true, record out { word = host.first })

-- `char buf[64]`
abbrev pub buffer_size : ℕ
buffer_size = 64

module _ (inet : Inet) where
  -- The constructor from the text of an address and a port.
  unfoldable pub of_ip : SockAddr → Text → ℕ → Bool → InetAddress
  of_ip old ip port ipv6 =
      if ipv6
      then from_ip_port6 inet ip port zero_addr
      else from_ip_port4 inet ip port (zero_sockaddr_in old)

  unfoldable pub ip_port_text : InetAddress → Result Text
  ip_port_text a = to_ip_port inet [] buffer_size a

  unfoldable pub ip_text : InetAddress → Result Text
  ip_text a = to_ip inet [] buffer_size a

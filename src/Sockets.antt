-- ===== src/Sockets.antt =====
-- SocketsOps.h and SocketsOps.cpp: the wrappers of the system calls. What a call answers is an
-- argument of its wrapper; inet_ntop and inet_pton are the record `Inet`.
pub mod Address
pub mod Options
pub mod Laws
use epoll.Base.{
  ℕ, ◌+◌, ◌-◌, ◌^◌, ◌≡◌, ◌<◌, Bool, false, ◌&&◌, ◌||◌, List, ◌∷◌, ◌++◌, ltb, leb, ◌==◌, Option,
  none, some, if◌then◌else◌, length, take, replicate, Result, ok, err, check, assert, fatal, ◌>>=◌,
  ◌>>◌, Text, decimal, text_eq,
}
use epoll.Endian.{host_to_network16, network_to_host16}

-- The union of `sockaddr_in` and `sockaddr_in6`: family and port lie at the same places, `word` is
-- `sin_addr.s_addr` and `sin6_flowinfo`, and `addr6` has the 16 bytes of `sin6_addr`.
pub record SockAddr : Type 0 where
  pub family : ℕ
  pub port : ℕ
  pub word : ℕ
  pub addr6 : List ℕ
  pub scope_id : ℕ

abbrev pub af_inet : ℕ
af_inet = 2

abbrev pub af_inet6 : ℕ
af_inet6 = 10

-- `bzero` of a `sockaddr_in6`
abbrev pub zero_addr : SockAddr
zero_addr = record { family = 0; port = 0; word = 0; addr6 = replicate 16 0; scope_id = 0 }

-- inet_ntop(3) and inet_pton(3): an address that is written as text is read back, and the text with
-- its end mark fits INET_ADDRSTRLEN, or INET6_ADDRSTRLEN.
pub record Inet : Type 0 where
  pub ntop4 : ℕ → Text
  pub ntop6 : List ℕ → Text
  pub pton4 : Text → Option ℕ
  pub pton6 : Text → Option (List ℕ)
  pub pton4-ntop4 : (a : ℕ) → a < 2 ^ 32 → pton4 (ntop4 a) ≡ some a
  pub pton6-ntop6 : (a : List ℕ) → length a ≡ 16 → pton6 (ntop6 a) ≡ some a
  pub ntop4_size : (a : ℕ) → length (ntop4 a) < 16
  pub ntop6_size : (a : List ℕ) → length (ntop6 a) < 46

-- A call that returns a descriptor or a value, or sets `errno`.
pub data Answer {ℓ} (A : Type ℓ) : Type ℓ where
  returned : A → Answer A
  errno : ℕ → Answer A

unfoldable pub create_nonblocking_or_die : Answer ℕ → Result ℕ
create_nonblocking_or_die (returned fd) = ok fd
create_nonblocking_or_die (errno e) = err fatal

-- `true` for a return of 0
unfoldable pub bind_or_die : Bool → Result (Unit {0})
bind_or_die done = check done fatal

unfoldable pub listen_or_die : Bool → Result (Unit {0})
listen_or_die done = check done fatal

-- EPERM, EINTR, EAGAIN, EMFILE, EPROTO and ECONNABORTED
abbrev pub is_expected : ℕ → Bool
is_expected e = e == 11 || (e == 103 || (e == 4 || (e == 71 || (e == 1 || e == 24))))

-- `none` is a return of -1.
unfoldable pub accept : Answer (ℕ × SockAddr) → Result (Option (ℕ × SockAddr))
accept (returned peer) = ok (some peer)
accept (errno e) = if is_expected e then ok none else err fatal

module _ (inet : Inet) where
  open inet use {ntop4, ntop6, pton4, pton6}

  -- `buf` is the text that stands in the buffer, which keeps it for an unknown family.
  unfoldable pub to_ip : Text → ℕ → SockAddr → Result Text
  to_ip buf size a =
      if a.family == af_inet
      then assert (leb 16 size) >> ok (ntop4 a.word)
      else (if a.family == af_inet6 then assert (leb 46 size) >> ok (ntop6 a.addr6) else ok buf)

  -- `snprintf` writes at most `size - end - 1` characters.
  unfoldable pub to_ip_port : Text → ℕ → SockAddr → Result Text
  to_ip_port buf size a = do
    ip ← to_ip buf size a
    let end = length ip
    assert (ltb end size)
    ok (ip ++ take (size - end - 1) (b':' ∷ decimal (network_to_host16 a.port)))

  -- An address that cannot be read is logged, and the bytes stay as they are.
  unfoldable pub from_ip_port4 : Text → ℕ → SockAddr → SockAddr
  from_ip_port4 ip port a =
      let named : SockAddr = record a { family = af_inet; port = host_to_network16 port } in
      elim (pton4 ip) [ none ↦ named | some word ↦ record named { word = word } ]

  unfoldable pub from_ip_port6 : Text → ℕ → SockAddr → SockAddr
  from_ip_port6 ip port a =
      let named : SockAddr = record a { family = af_inet6; port = host_to_network16 port } in
      elim (pton6 ip) [ none ↦ named | some addr6 ↦ record named { addr6 = addr6 } ]

-- The option's value, or `errno` of the call.
unfoldable pub get_socket_error : Answer ℕ → ℕ
get_socket_error (returned value) = value
get_socket_error (errno e) = e

-- A failure is logged, and leaves the zeroed address.
unfoldable pub get_local_addr : Answer SockAddr → SockAddr
get_local_addr (returned a) = a
get_local_addr (errno e) = zero_addr

unfoldable pub get_peer_addr : Answer SockAddr → SockAddr
get_peer_addr (returned a) = a
get_peer_addr (errno e) = zero_addr

-- The test for a connection to itself; the arguments answer getsockname and getpeername.
unfoldable pub is_self_connect : Answer SockAddr → Answer SockAddr → Bool
is_self_connect local_answer peer_answer =
    let local = get_local_addr local_answer in
    let peer = get_peer_addr peer_answer in
    if local.family == af_inet
    then local.port == peer.port && local.word == peer.word
    else (if local.family == af_inet6
        then local.port == peer.port && text_eq local.addr6 peer.addr6
        else false)

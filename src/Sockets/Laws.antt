-- ===== src/Sockets/Laws.antt =====
-- Addresses to and from text.
use epoll.Base.{
  ℕ, ◌-◌, ◌≡◌, ◌≤◌, ◌<◌, refl, subst, Bool, true, false, List, [], ◌∷◌, ◌++◌, some, if◌then◌else◌,
  length, take, ok, arith, length-append, take_of_length, lt→ltb, Text, decimal,
  length-decimal_port,
}
use epoll.Endian.{host_to_network32, host_to_network16, network_to_host16}
use epoll.Sockets.{
  SockAddr, zero_addr, af_inet, af_inet6, Inet, to_ip, to_ip_port, from_ip_port4, from_ip_port6,
}
use epoll.Sockets.Address.{
  of_port, inaddr_any, inaddr_loopback, in6addr_any, in6addr_loopback, zero_sockaddr_in, of_ip,
  ip_text, ip_port_text, to_port,
}

port_lem : (port : ℕ) → port < 65536 → network_to_host16 (host_to_network16 port) ≡ port
unfolding host_to_network16 network_to_host16
port_lem port h = omega (arith, h)

-- A text that inet_pton reads, and that inet_ntop writes for what was read.
abbrev pub IsCanonical : Inet → Bool → Text → Type 0
IsCanonical inet true ip = (a : List ℕ) × (inet.pton6 ip ≡ some a) × (inet.ntop6 a ≡ ip)
IsCanonical inet false ip = (a : ℕ) × (inet.pton4 ip ≡ some a) × (inet.ntop4 a ≡ ip)

-- What the text of an address with a port is.
abbrev pub with_port : Text → ℕ → Text
with_port ip port = ip ++ (b':' ∷ decimal port)

-- The port fits behind an address of at most 45 characters.
port_fits :
    (ip : Text) (port : ℕ)
    → length ip < 46
    → port < 65536
    → take (64 - length ip - 1) (b':' ∷ decimal port) ≡ (b':' ∷ decimal port)
port_fits ip port short h =
    take_of_length (64 - length ip - 1) (b':' ∷ decimal port)
      (omega (arith, short, length-decimal_port port h))

with_port_size :
    (ip : Text) (port : ℕ) → length ip < 46 → port < 65536 → length (with_port ip port) ≤ 51
with_port_size ip port short h =
    omega (arith, short, length-append ip (b':' ∷ decimal port), length-decimal_port port h)

module _ (inet : Inet) where
  named_port :
      (a : SockAddr) (ip : Text) (port : ℕ)
      → to_ip inet [] 64 a ≡ ok ip
      → a.port ≡ host_to_network16 port
      → length ip < 46
      → port < 65536
      → ip_port_text inet a ≡ ok (with_port ip port)
  unfolding ip_port_text to_ip_port
  named_port a ip port e p short h =
      rw
        (
          e,
          p,
          port_lem port h,
          lt→ltb (length ip) 64 (omega (arith, short)),
          port_fits ip port short h,
        )
        refl

  read6 :
      (ip : Text) (port : ℕ) (a : List ℕ) (z : SockAddr)
      → inet.pton6 ip ≡ some a
      → from_ip_port6 inet ip port z
        ≡ record z { family = af_inet6; port = host_to_network16 port; addr6 = a }
  unfolding from_ip_port6
  read6 ip port a z e = ground (arith, e)

  read4 :
      (ip : Text) (port a : ℕ) (z : SockAddr)
      → inet.pton4 ip ≡ some a
      → from_ip_port4 inet ip port z
        ≡ record z { family = af_inet; port = host_to_network16 port; word = a }
  unfolding from_ip_port4
  read4 ip port a z e = ground (arith, e)

  -- The address that is made from a canonical text and a port gives both back, and its printed form
  -- is the text, a colon and the port's digits, with nothing cut off.
  pub of_ip_lem :
      (old : SockAddr) (ip : Text) (port : ℕ) (ipv6 : Bool)
      → IsCanonical inet ipv6 ip
      → port < 65536
      → (ip_text inet (of_ip inet old ip port ipv6) ≡ ok ip)
        × (to_port (of_ip inet old ip port ipv6) ≡ port)
        × (ip_port_text inet (of_ip inet old ip port ipv6) ≡ ok (with_port ip port))
        × (length (with_port ip port) ≤ 51)
  unfolding of_ip ip_text to_port to_ip
  of_ip_lem old ip port true (a, read, written) h =
      let short : length ip < 46 = subst (λ t. length t < 46) written (inet.ntop6_size a) in
      let e = read6 ip port a zero_addr read in
      (
        rw (e, written) refl,
        rw e (port_lem port h),
        rw e (named_port _ ip port (rw written refl) refl short h),
        with_port_size ip port short h,
      )
  of_ip_lem old ip port false (a, read, written) h =
      let short : length ip < 46 =
        omega (arith, subst (λ t. length t < 16) written (inet.ntop4_size a)) in
      let e = read4 ip port a (zero_sockaddr_in old) read in
      (
        rw (e, written) refl,
        rw e (port_lem port h),
        rw e (named_port _ ip port (rw written refl) refl short h),
        with_port_size ip port short h,
      )

  any4_size : (a : ℕ) → length (inet.ntop4 a) < 46
  any4_size a = omega (arith, inet.ntop4_size a)

  -- What the constructor from a port prints.
  unfoldable pub port_text : Bool → Bool → Text
  port_text loopback_only true =
      inet.ntop6 (if loopback_only then in6addr_loopback else in6addr_any)
  port_text loopback_only false =
      inet.ntop4 (host_to_network32 (if loopback_only then inaddr_loopback else inaddr_any))

  -- The address that is made from a port gives the port back, and its printed form ends in it.
  pub of_port_lem :
      (old : SockAddr) (port : ℕ) (loopback_only ipv6 : Bool)
      → port < 65536
      → (to_port (of_port old port loopback_only ipv6) ≡ port)
        × (ip_port_text inet (of_port old port loopback_only ipv6)
            ≡ ok (with_port (port_text loopback_only ipv6) port))
        × (length (with_port (port_text loopback_only ipv6) port) ≤ 51)
  unfolding of_port to_port to_ip port_text
  of_port_lem old port loopback_only true h =
      let short = inet.ntop6_size (if loopback_only then in6addr_loopback else in6addr_any) in
      (port_lem port h, named_port _ _ port refl refl short h, with_port_size _ port short h)
  of_port_lem old port loopback_only false h =
      let short =
        any4_size (host_to_network32 (if loopback_only then inaddr_loopback else inaddr_any)) in
      (port_lem port h, named_port _ _ port refl refl short h, with_port_size _ port short h)

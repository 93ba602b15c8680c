-- ===== src/Sockets/Ops.antt =====
-- The texts of addresses in twnl/SocketsOps.cc, and what Socket::accept of twnl/Socket.cc hands on.
use twnl.Base.{
  ℕ, ◌-◌, ◌<◌, ◌==◌, ◌≡◌, ◌⊎◌, refl, inl, inr, ltb, leb, lt→ltb, if◌then◌else◌, true, false, Option,
  none, some, List, ◌∷◌, ◌++◌, length, take, check, ◌>>=◌, ◌>>◌, arith,
}
use twnl.LogStream.Decimal.{decimal}
use twnl.Sockets
use twnl.Sockets.{
  SockAddr, Ntop, zero_addr, of_ip, host_to_network16, network_to_host16, af_inet, af_inet6, Call,
  goes_on, died, Log, Answer, gave, failed, accept,
}

-- INET_ADDRSTRLEN and INET6_ADDRSTRLEN
abbrev pub inet_addrstrlen : ℕ
inet_addrstrlen = 16

abbrev pub inet6_addrstrlen : ℕ
inet6_addrstrlen = 46

-- `toIp` into an array of `size` bytes that holds the text `buf`.
unfoldable pub to_ip : Ntop → ℕ → List ℕ → SockAddr → Option (List ℕ)
to_ip ntop size buf a =
    if a.family == af_inet
    then (check (leb inet_addrstrlen size) >> some (ntop.four a.word))
    else (if a.family == af_inet6
        then (check (leb inet6_addrstrlen size) >> some (ntop.six a.addr6))
        else some buf)

-- `snprintf` writes at most as many characters as the array has left, less one.
unfoldable pub to_ip_port : Ntop → ℕ → List ℕ → SockAddr → Option (List ℕ)
unfolding to_ip network_to_host16 decimal
to_ip_port ntop size buf a = do
  ip ← to_ip ntop size buf a
  check (ltb (length ip) size)
  some (ip ++ take (size - length ip - 1) (b':' ∷ decimal (network_to_host16 a.port)))

-- The two forms of `fromIpPort`, with what `inet_pton` makes of the text.
unfoldable pub from_ip_port4 : Option ℕ → ℕ → SockAddr → SockAddr
unfolding host_to_network16
from_ip_port4 none port a = record a { family = af_inet; port = host_to_network16 port }
from_ip_port4 (some w) port a = record a {
  family = af_inet;
  port = host_to_network16 port;
  word = w;
}

unfoldable pub from_ip_port6 : Option (List ℕ) → ℕ → SockAddr → SockAddr
unfolding host_to_network16
from_ip_port6 none port a = record a { family = af_inet6; port = host_to_network16 port }
from_ip_port6 (some bytes) port a = record a {
  family = af_inet6;
  port = host_to_network16 port;
  addr6 = bytes;
}

-- `Socket::accept`: the descriptor, and `*peeraddr` with the address that the kernel gives.
unfoldable pub accept_peer : Log → Answer → SockAddr → SockAddr → Call (Answer × SockAddr)
unfolding accept
accept_peer lg answer addr peer = elim (accept lg answer) [
  | died ↦ died
  | goes_on (gave fd) ↦ goes_on (gave fd, addr)
  | goes_on (failed e) ↦ goes_on (failed e, peer)
]

-- What `inet_ntop` promises: the final 0 fits with the text.
pub record IsText (ntop : Ntop) : Type 0 where
  pub four : (word : ℕ) → length (ntop.four word) < inet_addrstrlen
  pub six : (bytes : List ℕ) → length (ntop.six bytes) < inet6_addrstrlen

-- An address of one of the two families, and `inet_ntop` whose texts fit the sizes that it asks for:
-- `sockets::toIp` and `sockets::toIpPort` into 64 bytes fail no assertion, and give the texts of
-- `InetAddress::toIp` and `InetAddress::toIpPort`.
pub to_ip_port-same :
    (ntop : Ntop) (buf : List ℕ) (a : SockAddr)
    → IsText ntop
    → (a.family ≡ af_inet) ⊎ (a.family ≡ af_inet6)
    → (to_ip ntop 64 buf a ≡ some (Sockets.to_ip ntop a))
      × (to_ip_port ntop 64 buf a ≡ some (Sockets.to_ip_port ntop a))
unfolding to_ip_port to_ip Sockets.to_ip Sockets.to_ip_port
to_ip_port-same ntop buf a t (inl four) =
    let fits : ltb (length (ntop.four a.word)) 64 ≡ true =
      lt→ltb (length (ntop.four a.word)) 64 (omega (arith, t.four a.word)) in
    rw (four, fits) (refl, refl)
to_ip_port-same ntop buf a t (inr six) =
    let fits : ltb (length (ntop.six a.addr6)) 64 ≡ true =
      lt→ltb (length (ntop.six a.addr6)) 64 (omega (arith, t.six a.addr6)) in
    rw (six, fits) (refl, refl)

-- Starting from a zero address, both forms of `fromIpPort` give the address that the constructor of
-- InetAddress for a text makes, whether or not `inet_pton` takes the text.
pub from_ip_port-of_ip :
    (pton4 : Option ℕ) (pton6 : Option (List ℕ)) (port : ℕ)
    → (from_ip_port4 pton4 port zero_addr ≡ of_ip pton4 pton6 port false)
      × (from_ip_port6 pton6 port zero_addr ≡ of_ip pton4 pton6 port true)
unfolding of_ip from_ip_port4 from_ip_port6
from_ip_port-of_ip pton4 pton6 port = (four pton4, six pton6)
  where
    four : (p : Option ℕ) → from_ip_port4 p port zero_addr ≡ of_ip p pton6 port false
    four none = refl
    four (some w) = refl

    six : (p : Option (List ℕ)) → from_ip_port6 p port zero_addr ≡ of_ip pton4 p port true
    six none = refl
    six (some bytes) = refl

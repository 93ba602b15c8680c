-- ===== src/Sockets/Address.antt =====
-- Addresses of twnl/InetAddress.cc and twnl/SocketsOps.cc: ports, texts, and connections to oneself.
use twnl.Base.{
  ℕ, ◌-◌, ◌^◌, ◌<◌, ◌==◌, ◌≡◌, ◌⊎◌, ◌↔◌, refl, sym, ap, ◌∙◌, if◌then◌else◌, Bool, true, false,
  Option, none, some, List, [], ◌∷◌, ◌++◌, length, take_all, arith,
}
use twnl.LogStream.Radix.{read}
use twnl.LogStream.Decimal.{decimal, dec_value, read-decimal, length-decimal}
use twnl.Sockets.{
  SockAddr, Ntop, of_port, of_ip, to_port, to_ip, to_ip_port, host_to_network16, network_to_host16,
  get_local_addr, get_peer_addr, same_bytes, is_self_connect, af_inet, af_inet6,
}

-- For every port of 16 bits: `toPort` of the address that any of the constructors makes of it is that
-- port.
pub to_port-of_port :
    (port : ℕ) (loopback_only ipv6 : Bool) (pton4 : Option ℕ) (pton6 : Option (List ℕ))
    → port < 2 ^ 16
    → (to_port (of_port port loopback_only ipv6) ≡ port)
      × (to_port (of_ip pton4 pton6 port ipv6) ≡ port)
unfolding to_port of_port of_ip host_to_network16 network_to_host16
to_port-of_port port lo true p4 p6 h = (omega (arith, h), omega (arith, h))
to_port-of_port port lo false p4 p6 h = (omega (arith, h), omega (arith, h))

-- For an address whose text has fewer than 57 characters, as `inet_ntop` writes at most 45: `toIpPort`
-- cuts nothing off, and its text is that of `toIp`, a colon, and digits that read as `toPort`.
pub to_ip_port_lem :
    (ntop : Ntop) (a : SockAddr)
    → length (to_ip ntop a) < 57
    → a.port < 2 ^ 16
    → (digits : List ℕ) × (to_ip_port ntop a ≡ to_ip ntop a ++ b':' ∷ digits)
      × (read 10 dec_value 0 digits ≡ to_port a)
unfolding to_ip_port to_port
to_ip_port_lem ntop a short h =
    let small : network_to_host16 a.port < 10 ^ 5 = bounded a.port h in
    (
      decimal (network_to_host16 a.port),
      ap (to_ip ntop a ++◌) (
          take_all (64 - length (to_ip ntop a) - 1) (b':' ∷ decimal (network_to_host16 a.port))
            (omega (arith, short, length-decimal 4 (network_to_host16 a.port) small))),
      read-decimal (network_to_host16 a.port) (omega (arith, small)),
    )
  where
    bounded : (n : ℕ) → n < 2 ^ 16 → network_to_host16 n < 10 ^ 5
    bounded n h = omega (arith, h)

-- What tells a socket's two ends apart.
pub data Endpoint : Type 0 where
  four : ℕ → ℕ → Endpoint
  six : ℕ → List ℕ → Endpoint

unfoldable pub endpoint : SockAddr → Endpoint
endpoint a = if a.family == af_inet then four a.port a.word else six a.port a.addr6

-- An address of one of the two families.
pub record IsInet (a : SockAddr) : Type 0 where
  pub known : (a.family ≡ af_inet) ⊎ (a.family ≡ af_inet6)
  pub bytes : length a.addr6 ≡ 16

same_bytes_iff : (xs ys : List ℕ) → length xs ≡ length ys → (same_bytes xs ys ≡ true) ↔ (xs ≡ ys)
unfolding same_bytes
same_bytes_iff [] [] e = (λ h. refl, λ h. refl)
same_bytes_iff [] (y ∷ ys) e = absurd (omega (arith, e))
same_bytes_iff (x ∷ xs) [] e = absurd (omega (arith, e))
same_bytes_iff (x ∷ xs) (y ∷ ys) e =
    let ih = same_bytes_iff xs ys (omega (arith, e)) in
    (λ h. ground (arith, h, ih.0), λ h. ground (arith, h, ih.1))

-- If the kernel gives both addresses of a socket, of one family: `isSelfConnect` holds exactly if both
-- ends are the same. If it does not give the local one, `isSelfConnect` does not hold.
pub is_self_connect_iff :
    (l p : SockAddr)
    → IsInet l
    → IsInet p
    → l.family ≡ p.family
    → ((is_self_connect (some l) (some p) ≡ true) ↔ (endpoint l ≡ endpoint p))
      × (is_self_connect none (some p) ≡ false)
unfolding is_self_connect get_local_addr get_peer_addr endpoint
is_self_connect_iff l p il ip e =
    let bytes = same_bytes_iff l.addr6 p.addr6 (il.bytes ∙ sym ip.bytes) in
    ((λ h. ground (arith, il.known, e, bytes.0), λ h. ground (arith, il.known, e, bytes.1)), refl)

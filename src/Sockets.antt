-- ===== src/Sockets.antt =====
-- twnl/SocketsOps.h, twnl/SocketsOps.cc, twnl/InetAddress.h and twnl/InetAddress.cc: addresses, and the
-- calls of the kernel that the program checks. What the kernel and the C library answer are arguments.
-- The host is little-endian.
pub mod Address
pub mod Failing
pub mod Ops
mod Tests
use twnl.Base.{
  ℕ, ◌+◌, ◌*◌, ◌-◌, ◌/◌, ◌%◌, ◌^◌, ◌==◌, ltb, leb, if◌then◌else◌, Bool, true, false, ◌&&◌, ◌||◌,
  Option, none, some, List, [], ◌∷◌, ◌++◌, length, take, replicate, check, ◌>>=◌, ◌>>◌,
}
use twnl.LogStream.Decimal.{decimal}
use twnl.Logging.{Level, Macro, log_warn, log_fatal, enabled}

unfoldable pub host_to_network16 : ℕ → ℕ
host_to_network16 n = n % 256 * 256 + n / 256 % 256

unfoldable pub network_to_host16 : ℕ → ℕ
network_to_host16 n = n % 256 * 256 + n / 256 % 256

unfoldable pub host_to_network32 : ℕ → ℕ
unfolding host_to_network16
host_to_network32 n =
    host_to_network16 (n % 2 ^ 16) * 2 ^ 16 + host_to_network16 (n / 2 ^ 16 % 2 ^ 16)

abbrev pub af_unspec : ℕ
af_unspec = 0

abbrev pub af_inet : ℕ
af_inet = 2

abbrev pub af_inet6 : ℕ
af_inet6 = 10

-- The union of `sockaddr_in` and `sockaddr_in6`: `word` is the place of `sin_addr` and `sin6_flowinfo`.
pub record SockAddr : Type 0 where
  pub family : ℕ
  -- in network order
  pub port : ℕ
  pub word : ℕ
  pub addr6 : List ℕ
  pub scope_id : ℕ

-- After `memset`.
abbrev pub zero_addr : SockAddr
zero_addr = record { family = af_unspec; port = 0; word = 0; addr6 = replicate 16 0; scope_id = 0 }

abbrev pub inaddr_loopback : ℕ
inaddr_loopback = 0x7f000001

abbrev pub in6addr_loopback : List ℕ
in6addr_loopback = replicate 15 0 ++ 1 ∷ []

-- The constructor for a port.
unfoldable pub of_port : ℕ → Bool → Bool → SockAddr
unfolding host_to_network16 host_to_network32
of_port port loopback_only ipv6 =
    if ipv6
    then record zero_addr {
      family = af_inet6;
      port = host_to_network16 port;
      addr6 = if loopback_only then in6addr_loopback else replicate 16 0;
    }
    else record zero_addr {
      family = af_inet;
      port = host_to_network16 port;
      word = host_to_network32 (if loopback_only then inaddr_loopback else 0);
    }

abbrev or_else : List ℕ → Option (List ℕ) → List ℕ
or_else d none = d
or_else d (some a) = a

abbrev word_or_else : ℕ → Option ℕ → ℕ
word_or_else d none = d
word_or_else d (some a) = a

-- The constructor for an address in words; `pton4` and `pton6` are what `inet_pton` makes of it.
unfoldable pub of_ip : Option ℕ → Option (List ℕ) → ℕ → Bool → SockAddr
unfolding host_to_network16
of_ip pton4 pton6 port ipv6 =
    if ipv6
    then record zero_addr {
      family = af_inet6;
      port = host_to_network16 port;
      addr6 = or_else (replicate 16 0) pton6;
    }
    else record zero_addr {
      family = af_inet;
      port = host_to_network16 port;
      word = word_or_else 0 pton4;
    }

-- `inet_ntop` for the two families; its text and final 0 fit in `buf`.
pub record Ntop : Type 0 where
  pub four : ℕ → List ℕ
  pub six : List ℕ → List ℕ

unfoldable pub to_ip : Ntop → SockAddr → List ℕ
to_ip ntop a = if a.family == af_inet6 then ntop.six a.addr6 else ntop.four a.word

-- `snprintf` writes at most as many characters as `buf` has left, less one.
unfoldable pub to_ip_port : Ntop → SockAddr → List ℕ
unfolding to_ip network_to_host16 decimal
to_ip_port ntop a =
    let ip = to_ip ntop a in
    ip ++ take (64 - length ip - 1) (b':' ∷ decimal (network_to_host16 a.port))

unfoldable pub to_port : SockAddr → ℕ
unfolding network_to_host16
to_port a = network_to_host16 a.port

unfoldable pub ip_net_endian : SockAddr → Option ℕ
ip_net_endian a = check (a.family == af_inet) >> some a.word

unfoldable pub set_scope_id : ℕ → SockAddr → SockAddr
set_scope_id scope a = if a.family == af_inet6 then record a { scope_id = scope } else a

-- `getLocalAddr` and `getPeerAddr`, with what `getsockname` and `getpeername` write, if they do.
unfoldable pub get_local_addr : Option SockAddr → SockAddr
get_local_addr none = zero_addr
get_local_addr (some a) = a

unfoldable pub get_peer_addr : Option SockAddr → SockAddr
get_peer_addr none = zero_addr
get_peer_addr (some a) = a

-- `memcmp` of two arrays of one size gives 0.
unfoldable pub same_bytes : List ℕ → List ℕ → Bool
same_bytes [] ys = true
same_bytes (x ∷ xs) [] = true
same_bytes (x ∷ xs) (y ∷ ys) = let rest = same_bytes xs ys in (x == y) && rest

unfoldable pub is_self_connect : Option SockAddr → Option SockAddr → Bool
unfolding get_local_addr get_peer_addr same_bytes
is_self_connect local peer =
    let l = get_local_addr local in
    let p = get_peer_addr peer in
    if l.family == af_inet
    then (l.port == p.port) && (l.word == p.word)
    else (if l.family == af_inet6 then (l.port == p.port) && same_bytes l.addr6 p.addr6 else false)

-- What a statement of the log leaves in `errno`: the level that is set, and what writing does to it.
pub record Log : Type 0 where
  pub level : Level
  pub disturb : ℕ → ℕ

abbrev pub errno_after : Log → Macro → ℕ → ℕ
errno_after lg m e = if enabled lg.level m then lg.disturb e else e

-- A call that may end the program by `LOG_FATAL`.
pub data Call (A : Type 0) : Type 0 where
  died : Call A
  goes_on : A → Call A

-- `LOG_FATAL`, and what follows where it does not abort.
abbrev pub fatal_or : {A : Type 0} → Log → A → Call A
fatal_or lg a = if enabled lg.level log_fatal then died else goes_on a

-- The answer of a call of the kernel: a descriptor or 0, or `errno`.
pub data Answer : Type 0 where
  gave : ℕ → Answer
  failed : ℕ → Answer

-- `createNonblockingOrDie`
unfoldable pub create_nonblocking : Log → Answer → Call Answer
create_nonblocking lg (gave fd) = goes_on (gave fd)
create_nonblocking lg (failed e) = fatal_or lg (failed e)

-- `bindOrDie` and `listenOrDie`
unfoldable pub bind : Log → Answer → Call (Option ℕ)
bind lg (gave n) = goes_on (some n)
bind lg (failed e) = fatal_or lg none

unfoldable pub listen : Log → Answer → Call (Option ℕ)
listen lg (gave n) = goes_on (some n)
listen lg (failed e) = fatal_or lg none

abbrev pub emfile : ℕ
emfile = 24

-- The first group of the `switch` in `accept`: EAGAIN, ECONNABORTED, EINTR, EPROTO, EPERM, EMFILE.
abbrev pub expected_error : ℕ → Bool
expected_error e = (e == 11) || (e == 103) || (e == 4) || (e == 71) || (e == 1) || (e == emfile)

-- The failing branch carries the `errno` that the caller finds; the other groups differ in their text.
unfoldable pub accept : Log → Answer → Call Answer
accept lg (gave fd) = goes_on (gave fd)
accept lg (failed saved) =
    if expected_error saved
    then goes_on (failed saved)
    else fatal_or lg (failed (errno_after lg log_warn saved))

-- `getSocketError`: SO_ERROR, or the `errno` of a failing `getsockopt`.
unfoldable pub get_socket_error : Answer → ℕ
get_socket_error (gave optval) = optval
get_socket_error (failed e) = e

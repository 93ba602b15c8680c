-- ===== src/Sockets/Tests.antt =====
-- Addresses and failing calls of twnl/SocketsOps.cc on concrete inputs.
use twnl.Base.{◌≡◌, ◌↔◌, refl, true, false, none, some, [], ◌∷◌, replicate, inl, arith}
use twnl.Sockets
use twnl.Sockets.Ops
use twnl.Sockets.Ops.{to_ip_port-same}
use twnl.Sockets.{SockAddr, Ntop, to_ip_port, is_self_connect}
use twnl.Sockets.Address.{is_self_connect_iff, endpoint, IsInet}

abbrev any : Ntop
any = record { four = λ w. b'0' ∷ []; six = λ bytes. b':' ∷ b':' ∷ [] }

abbrev local : SockAddr
local = record { family = 2; port = 36895; word = 0; addr6 = replicate 16 0; scope_id = 0 }

shown : to_ip_port any local ≡ b'0' ∷ b':' ∷ b'8' ∷ b'0' ∷ b'8' ∷ b'0' ∷ []
unfolding to_ip_port
shown = refl

local-IsInet : IsInet local
local-IsInet = record { known = inl refl; bytes = refl }

is_self_connect_iff_example :
    ((is_self_connect (some local) (some local) ≡ true) ↔ (endpoint local ≡ endpoint local))
    × (is_self_connect none (some local) ≡ false)
is_self_connect_iff_example = is_self_connect_iff local local local-IsInet local-IsInet refl

to_ip_port-same_example :
    (Ops.to_ip any 64 [] local ≡ some (b'0' ∷ []))
    × (Ops.to_ip_port any 64 [] local ≡ some (to_ip_port any local))
unfolding Sockets.to_ip
to_ip_port-same_example =
    to_ip_port-same any [] local (record { four = λ w. omega arith; six = λ b. omega arith })
      (inl refl)

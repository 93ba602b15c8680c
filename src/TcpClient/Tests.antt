-- ===== src/TcpClient/Tests.antt =====
-- The client of twnl/TcpClient.cc on a concrete run.
use twnl.Base.{◌≡◌, refl, true, false, some, [], ◌∷◌}
use twnl.Channel.{zeroed}
use twnl.TcpClient.{
  Client, new, connect, connector_write, retry_op, connect_op, write_op, Reaches, made, stepped,
  enable_retry,
}
use twnl.TcpClient.One.{one-live, live}

-- One connection is made, and retries are allowed.
joined : (c : Client) × Reaches zeroed c × (c.connection ≡ some 1)
unfolding new connect connector_write enable_retry
joined = (
  _,
  stepped retry_op
      (stepped (write_op 0 false 7 (b'h' ∷ []))
        (stepped (connect_op true (record { sockfd = 4; errno = 0; timer = 0 })) made refl) refl)
      refl,
  refl,
)

one-live_example : live joined.0.trace ≡ 1 ∷ []
unfolding joined
one-live_example = one-live joined.1

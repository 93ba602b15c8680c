-- ===== src/Connector/Sockets.antt =====
-- What becomes of the sockets that twnl/Connector.cc opens.
use twnl.Base.{◌≡◌, refl, some, Ensures, Ensures-some}
use twnl.Channel.{Defaults}
use twnl.Connector.{
  Connector, new, Op, step, start_op, start_in_loop_op, restart_op, ring_op, stop_op, reset_op,
  write_op, error_op, Proper, Reaches, made, stepped,
}
use twnl.Connector.Books.{
  ledger, held_in, Settled, start-Settled, start_in_loop-Settled, restart-Settled, ring-Settled,
  stop-Settled, handle_write-Settled, handle_error-Settled, reset_channel-Settled,
}

step-Settled :
    (d : Defaults) (op : Op) (c : Connector)
    → Settled c
    → Proper op c
    → Ensures Settled (step d op c)
step-Settled d (start_op here a) c v p = start-Settled d here a c v
step-Settled d (start_in_loop_op a) c v p = start_in_loop-Settled d a c v
step-Settled d (restart_op a) c v p = restart-Settled d a c v p
step-Settled d (ring_op t a) c v p = ring-Settled d t a c v
step-Settled d stop_op c v p = stop-Settled c v
step-Settled d reset_op c v p = reset_channel-Settled c v
step-Settled d (write_op err self timer) c v p = handle_write-Settled d err self timer c v
step-Settled d (error_op timer) c v p = handle_error-Settled d timer c v

new-Settled : Settled new
unfolding new ledger
new-Settled = record { books = refl; due = refl }

reached-Settled : {d : Defaults} {c : Connector} → Reaches d c → Settled c
reached-Settled made = new-Settled
reached-Settled {d} (stepped {c} op r p e) =
    Ensures-some Settled (step-Settled d op c (reached-Settled r) p) e

-- After any order of the steps of a connector in which no assertion fails and `restart` is not called
-- while connecting: no socket was opened while another was owned, each was closed or handed over at
-- most once and only while owned, the poller was told of its channel only while it was owned, and the one that is owned now is the channel's while connecting, and
-- otherwise there is none.
pub reached-ledger :
    {d : Defaults} {c : Connector} → Reaches d c → ledger c.trace ≡ some (held_in c.state c.channel)
reached-ledger r = (reached-Settled r).books

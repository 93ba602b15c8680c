-- ===== src/TcpClient/Keeping.antt =====
-- What the operations of twnl/Connector.cc do to a connector that is connected.
use twnl.Base.{ℕ, ◌≡◌, Bool, true, false, Option, some, arith}
use twnl.Channel.{Defaults}
use twnl.Connector
use twnl.Connector.{
  Connector, State, disconnected, connecting, connected, Dial, is_connecting, start_in_loop,
  restart, reset_channel, handle_error, handle_write, remove_and_reset_channel, retry, ring,
  drop_timer,
}
use twnl.TcpClient.{handed_last}

abbrev pub is_connected : State → Bool
is_connected connected = true
is_connected _ = false

-- A connector that is connected stays so.
abbrev pub Keeps : (Connector → Option Connector) → Type 0
Keeps f =
    (k k' : Connector) → is_connected k.state ≡ true → f k ≡ some k' → is_connected k'.state ≡ true

pub start_in_loop-Keeps : (d : Defaults) (dial : Dial) → Keeps (start_in_loop d dial)
unfolding start_in_loop
start_in_loop-Keeps d dial k k' h e = absurd (ground (arith, h, e))

pub ring-Keeps : (d : Defaults) (t : ℕ) (dial : Dial) → Keeps (ring d t dial)
unfolding ring start_in_loop drop_timer
ring-Keeps d t dial k k' h e = absurd (ground (arith, h, e))

pub start-Keeps : (d : Defaults) (here : Bool) (dial : Dial) → Keeps (Connector.start d here dial)
unfolding Connector.start
start-Keeps d true dial k k' h e = start_in_loop-Keeps d dial (record k { connect = true }) k' h e
start-Keeps d false dial k k' h e = ground (arith, h, e)

pub stop-Keeps : Keeps Connector.stop
unfolding Connector.stop Connector.cancel_retry
stop-Keeps k k' h e = ground (arith, h, e)

pub reset_channel-Keeps : Keeps reset_channel
unfolding reset_channel
reset_channel-Keeps k k' h e = ground (arith, h, e)

pub handle_error-Keeps : (d : Defaults) (timer : ℕ) → Keeps (handle_error d timer)
unfolding handle_error
handle_error-Keeps d timer k k' h e = absurd (ground (arith, h, e))

pub handle_write-Keeps :
    (d : Defaults) (err : ℕ) (self : Bool) (timer : ℕ) → Keeps (handle_write d err self timer)
unfolding handle_write
handle_write-Keeps d err self timer k k' h e = absurd (ground (arith, h, e))

-- A connector that has just handed its socket over is connected.
pub handle_write-handed :
    (d : Defaults) (err : ℕ) (self : Bool) (timer fd : ℕ) (k k' : Connector)
    → is_connecting k.state ≡ true
    → handle_write d err self timer k ≡ some k'
    → handed_last k'.trace ≡ some fd
    → is_connected k'.state ≡ true
unfolding handle_write remove_and_reset_channel retry
handle_write-handed d err self timer fd k k' h e f = ground (arith, h, e, f)

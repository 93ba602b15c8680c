-- ===== src/TcpClient.antt =====
-- twnl/TcpClient.h and twnl/TcpClient.cc: a connector and the one connection that it makes.
-- A connection object is the number in its name; what is done with it is in `trace`, newest first.
-- `none` is a failed assertion or fault, here or in the connector, or the signed overflow of
-- `nextConnId_`. All operations but `connect`,
-- `disconnect` and `stop` run in the loop's thread, as the code asserts.
pub mod Keeping
pub mod One
mod Tests
use twnl.Base.{
  ℕ, ◌+◌, ◌-◌, ◌==◌, ◌≡◌, if◌then◌else◌, Bool, true, false, not, ◌&&◌, Option, none, some, List, [],
  ◌∷◌, ◌++◌, take, ltb, check, ◌>>=◌, ◌>>◌,
}
use twnl.Channel.{Defaults}
use twnl.Connector
use twnl.Connector.{Connector, Dial, handed, closed, is_connecting}
use twnl.LogStream.Decimal.{decimal}
use twnl.TcpServer.{int_max}

pub data Effect : Type 0 where
  -- a new connection by its number, with its name and socket, and `connectEstablished`
  established : ℕ → List ℕ → ℕ → Effect
  -- `queueInLoop` of `connectDestroyed`
  destroyed : ℕ → Effect
  -- `shutdown`, and `setCloseCallback` by the destructor
  shut detached : ℕ → Effect

pub record Client : Type 0 where
  pub connector : Connector
  pub retry : Bool
  pub connect : Bool
  pub next_conn_id : ℕ
  pub connection : Option ℕ
  pub trace : List Effect

abbrev pub log : Effect → Client → Client
log e c = record c { trace = e ∷ c.trace }

unfoldable pub new : Client
unfolding Connector.new
new = record {
  connector = Connector.new;
  retry = false;
  connect = true;
  next_conn_id = 1;
  connection = none;
  trace = [];
}

-- `buf` in `newConnection`, for the text of the peer's address.
unfoldable pub conn_name : List ℕ → ℕ → List ℕ
unfolding decimal
conn_name peer id = take 31 (b':' ∷ peer ++ b'#' ∷ decimal id)

unfoldable pub enable_retry : Client → Client
enable_retry c = record c { retry = true }

-- An operation of the connector that makes no connection.
abbrev pub on_connector : (Connector → Option Connector) → Client → Option Client
on_connector f c = f c.connector >>= λ k. some (record c { connector = k })

-- `here` and the kernel's answers are those of the connector.
unfoldable pub connect : Defaults → Bool → Dial → Client → Option Client
unfolding Connector.start
connect d here dial c = on_connector (Connector.start d here dial) (record c { connect = true })

abbrev pub shutdown_if : Option ℕ → Client → Client
shutdown_if none c = c
shutdown_if (some id) c = log (shut id) c

unfoldable pub disconnect : Client → Client
disconnect c = shutdown_if c.connection (record c { connect = false })

unfoldable pub stop : Client → Option Client
unfolding Connector.stop
stop c = on_connector Connector.stop (record c { connect = false })

-- `peer` is the text of `getPeerAddr`.
unfoldable pub new_connection : List ℕ → ℕ → Client → Option Client
unfolding conn_name
new_connection peer sockfd c = do
  check (ltb c.next_conn_id int_max)
  some (record c {
    next_conn_id = c.next_conn_id + 1;
    connection = some c.next_conn_id;
    trace = established c.next_conn_id (conn_name peer c.next_conn_id) sockfd ∷ c.trace;
  })

-- Whether the last thing that a connector did was to hand its socket over.
abbrev pub handed_last : List Connector.Effect → Option ℕ
handed_last (handed fd ∷ es) = some fd
handed_last _ = none

abbrev pub deliver : List ℕ → Option ℕ → Client → Option Client
deliver peer none c = some c
deliver peer (some fd) c = new_connection peer fd c

-- The connector's `handleWrite`, whose callback is `newConnection`.
unfoldable pub connector_write : Defaults → ℕ → Bool → ℕ → List ℕ → Client → Option Client
unfolding Connector.handle_write new_connection
connector_write d err self timer peer c =
    Connector.handle_write d err self timer c.connector >>= λ k.
    if is_connecting c.connector.state
    then deliver peer (handed_last k.trace) (record c { connector = k })
    else some (record c { connector = k })

abbrev same_conn : Option ℕ → ℕ → Bool
same_conn none id = false
same_conn (some k) id = k == id

-- `dial` answers the `restart`.
unfoldable pub remove_connection : Defaults → Dial → ℕ → Client → Option Client
unfolding Connector.restart
remove_connection d dial id c = do
  check (same_conn c.connection id)
  let c1 : Client = log (destroyed id) (record c { connection = none })
  if c.retry && c.connect then on_connector (Connector.restart d dial) c1 else some c1

abbrev pub let_go : Option ℕ → Client → Option Client
let_go (some id) c = some (log (detached id) c)
let_go none c = on_connector Connector.stop c

-- The destructor.
unfoldable pub destroy : Client → Option Client
unfolding Connector.stop
destroy c = let_go c.connection c

-- What can happen to a client: its functions, and the functors, timers and events of its connector.
pub data Op : Type 0 where
  connect_op : Bool → Dial → Op
  start_op : Dial → Op
  ring_op : ℕ → Dial → Op
  reset_op disconnect_op stop_op retry_op : Op
  write_op : ℕ → Bool → ℕ → List ℕ → Op
  error_op : ℕ → Op
  remove_op : Dial → ℕ → Op

abbrev pub step : Defaults → Op → Client → Option Client
step d (connect_op here dial) c = connect d here dial c
step d (start_op dial) c = on_connector (Connector.start_in_loop d dial) c
step d (ring_op t dial) c = on_connector (Connector.ring d t dial) c
step d reset_op c = on_connector Connector.reset_channel c
step d disconnect_op c = some (disconnect c)
step d stop_op c = stop c
step d retry_op c = some (enable_retry c)
step d (write_op err self timer peer) c = connector_write d err self timer peer c
step d (error_op timer) c = on_connector (Connector.handle_error d timer) c
step d (remove_op dial id) c = remove_connection d dial id c

-- The clients that any order of these leads to.
pub data Reaches (d : Defaults) : Client → Type 0 where
  made : Reaches d new
  stepped : {c c' : Client} (op : Op) → Reaches d c → step d op c ≡ some c' → Reaches d c'

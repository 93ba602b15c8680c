-- ===== src/TcpConnection/Calls.antt =====
-- The public functions of TcpConnection, and everything that can happen to a connection, one call at
-- a time. `here` is `isInLoopThread()`: a call from another thread only queues its functor.
use twnl.Base.{ℕ, if◌then◌else◌, Bool, true, false, ◌||◌, Option, some, List, [], ◌∷◌, ◌>>=◌}
use twnl.Buffer
use twnl.Buffer.{contents}
use twnl.Buffer.Io.{Reading, Writing, wrote}
use twnl.Channel.{Defaults}
use twnl.TcpConnection.{
  Conn, Task, disconnecting, shutdown_task, force_close_task, start_read_task, stop_read_task,
  write_complete_task, send_task, high_water_task, queued, write_complete_callback,
  high_water_callback, log, is_connected, is_disconnecting, connect_established, connect_destroyed,
  shutdown_in_loop, start_read_in_loop, stop_read_in_loop, force_close_in_loop, send_in_loop,
  handle_read, handle_write, handle_close,
}

-- A functor run by the loop. `answer` is the kernel's, should it write. The bytes of a send are those that
-- its memory holds when it runs: the source binds the caller's pointer, so they need not be those that
-- were there when it was queued. It binds `this` too; the connection is taken to be alive.
unfoldable pub run_task : Defaults → Writing → Task → Conn → Option Conn
run_task d answer shutdown_task c = some (shutdown_in_loop d c)
run_task d answer force_close_task c = force_close_in_loop d c
run_task d answer start_read_task c = some (start_read_in_loop d c)
run_task d answer stop_read_task c = some (stop_read_in_loop d c)
run_task d answer (send_task bytes) c = send_in_loop d answer bytes c
run_task d answer write_complete_task c = some (log write_complete_callback c)
run_task d answer (high_water_task n) c = some (log (high_water_callback n) c)

-- `EventLoop::runInLoop`
abbrev pub run_in_loop : Bool → Defaults → Writing → Task → Conn → Option Conn
run_in_loop true d answer t c = run_task d answer t c
run_in_loop false d answer t c = some (log (queued t) c)

-- `send(const void*, size_t)` and `send(std::string_view)`
unfoldable pub send : Bool → Defaults → Writing → List ℕ → Conn → Option Conn
send here d answer bytes c =
    if is_connected c.state then run_in_loop here d answer (send_task bytes) c else some c

-- `send(Buffer*)` writes at once, whatever the state and the thread, and empties the given buffer.
unfoldable pub send_buffer :
    Defaults → Writing → Buffer.Buffer → Conn → Option (Conn × Buffer.Buffer)
send_buffer d answer message c = do
  c' ← send_in_loop d answer (contents message) c
  some (c', Buffer.retrieve_all message)

unfoldable pub shutdown : Bool → Defaults → Conn → Option Conn
shutdown here d c =
    if is_connected c.state
    then run_in_loop here d (wrote 0) shutdown_task (record c { state = disconnecting })
    else some c

unfoldable pub force_close : Conn → Conn
force_close c =
    if is_connected c.state || is_disconnecting c.state
    then log (queued force_close_task) (record c { state = disconnecting })
    else c

unfoldable pub start_read : Bool → Defaults → Conn → Option Conn
start_read here d c = run_in_loop here d (wrote 0) start_read_task c

unfoldable pub stop_read : Bool → Defaults → Conn → Option Conn
stop_read here d c = run_in_loop here d (wrote 0) stop_read_task c

-- The setters; a callback is a flag, since what it does is not part of the connection.
abbrev pub set_write_complete_callback : Bool → Conn → Conn
set_write_complete_callback cb c = record c { has_write_complete = cb }

abbrev pub set_high_water_mark_callback : Bool → ℕ → Conn → Conn
set_high_water_mark_callback cb mark c = record c { has_high_water = cb; high_water_mark = mark }

-- `defaultMessageCallback`
unfoldable pub default_message_callback : Conn → Conn
default_message_callback c = record c { input_buffer = Buffer.retrieve_all c.input_buffer }

-- What happens to a connection: calls of its owner or user, and events of its channel.
pub data Call : Type 0 where
  establishes destroys closes : Call
  sends : Bool → Writing → List ℕ → Call
  sends_buffer : Writing → Buffer.Buffer → Call
  shuts_down : Bool → Call
  forces_close : Call
  starts_read stops_read : Bool → Call
  runs : Writing → Task → Call
  reads : List Reading → Call
  writes : List Writing → Call

unfoldable pub step : Defaults → Call → Conn → Option Conn
step d establishes c = connect_established d c
step d destroys c = connect_destroyed d c
step d closes c = handle_close d c
step d (sends here answer bytes) c = send here d answer bytes c
step d (sends_buffer answer message) c = do (c', message') ← send_buffer d answer message c; some c'
step d (shuts_down here) c = shutdown here d c
step d forces_close c = some (force_close c)
step d (starts_read here) c = start_read here d c
step d (stops_read here) c = stop_read here d c
step d (runs answer t) c = run_task d answer t c
step d (reads answers) c = handle_read d answers c
step d (writes answers) c = handle_write d answers c

-- A history; `none` as soon as an assertion fails.
unfoldable pub run : Defaults → List Call → Conn → Option Conn
run d [] c = some c
run d (k ∷ ks) c = do c' ← step d k c; run d ks c'

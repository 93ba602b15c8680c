-- ===== src/Echo.antt =====
-- example/echo.cc: a server that sends back what it receives.
-- A message is handled in the loop of its connection. What goes to the log is left out.
pub mod Session
pub mod Message
pub mod Serving
pub mod Whole
mod Tests
use twnl.Base.{ℕ, suc, zero, ℤ, pos, negsuc, Bool, true, false, Option, some, List, ◌>>=◌}
use twnl.Buffer.{retrieve_all_as_string}
use twnl.Buffer.Io.{Reading, Writing, Io}
use twnl.Channel.{Defaults}
use twnl.TcpConnection.{Conn, read_input, read_result}
use twnl.TcpConnection.Calls.{send}
use twnl.TcpServer
use twnl.TcpServer.{Server}

-- The constructor of EchoServer, without the callbacks that it sets.
unfoldable pub new : ℕ → List ℕ → ℤ → Option Server
unfolding TcpServer.new TcpServer.set_thread_num
new loop listen_addr num_threads =
    TcpServer.set_thread_num num_threads (TcpServer.new loop listen_addr)

-- `EchoServer::start`
unfoldable pub start : (ℕ → ℕ) → Bool → Server → Option Server
unfolding TcpServer.start
start loop_of cb s = TcpServer.start loop_of cb s

-- `TcpServer::kNoReusePort`
abbrev pub no_reuse_port : ℤ
no_reuse_port = pos 0

-- `main` up to `loop`: the option stands where the constructor takes the number of threads.
unfoldable pub main : (ℕ → ℕ) → ℕ → List ℕ → Option Server
unfolding new start
main loop_of loop listen_addr = new loop listen_addr no_reuse_port >>= start loop_of false

unfoldable pub on_message : Defaults → Writing → Conn → Option Conn
unfolding retrieve_all_as_string send
on_message d answer c = do
  (msg, input) ← retrieve_all_as_string c.input_buffer
  send true d answer msg (record c { input_buffer = input })

-- `messageCallback_` runs where the read gave bytes.
abbrev pub react : Defaults → Writing → Io → Conn → Option Conn
react d answer (input, pos (suc n), saved) c = on_message d answer c
react d answer (input, pos zero, saved) c = some c
react d answer (input, negsuc e, saved) c = some c

-- `TcpConnection::handleRead` with `onMessage` for `messageCallback_`.
unfoldable pub handle_read : Defaults → List Reading → Writing → Conn → Option Conn
unfolding read_result on_message
handle_read d answers answer c = do
  r ← read_input d answers c.input_buffer
  c' ← read_result d c r
  react d answer r c'

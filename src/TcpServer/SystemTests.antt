-- ===== src/TcpServer/SystemTests.antt =====
-- A server with a connection that comes and goes.
use twnl.Base.{ℕ, ◌≡◌, refl, true, false, some, none, List, [], ◌∷◌}
use twnl.Buffer.{Buffer}
use twnl.Buffer.Io.{got, read_fd}
use twnl.Channel
use twnl.Channel.{enable_reading, disable_all, init_default_event}
use twnl.TcpConnection
use twnl.TcpConnection.{
  handle_read, handle_close, read_result, connect_established, connect_destroyed,
}
use twnl.TcpConnection.Calls
use twnl.TcpConnection.Calls.{reads}
use twnl.TcpServer.{Entry, Server, listened, new, start, new_connection, conn_name}
use twnl.TcpServer.Live
use twnl.TcpServer.Live.{made, started}
use twnl.TcpServer.Settled.{settled, functor-Runs, IsSettled, Runs}
use twnl.TcpServer.Sound.{has_id}
use twnl.TcpServer.System.{
  System, Member, removing, start_of, Reaches, here, later, accepts, establishes, calls, removes,
  destroys,
}
use twnl.ThreadPool

abbrev address : List ℕ
address = b'h' ∷ b':' ∷ b'1' ∷ []

-- Started, and without connections.
server : Server
unfolding new start
server = record (new 7 address) {
  pool = record (new 7 address).pool { started = true };
  started = true;
  listenning = true;
  trace = listened ∷ [];
}

server-Reaches : Live.Reaches 7 address server
unfolding server new start ThreadPool.start
server-Reaches = started (λ i. i) false made refl

abbrev input : Buffer
input = record { buffer = 0 ∷ 0 ∷ []; reader_index = 0; writer_index = 0 }

abbrev first : Entry
unfolding new server
first = record { id = 1; name = conn_name address [] 1; loop = 7 }

-- One connection comes, is established, and its peer closes it.
closing : (s : System) × Reaches (start_of server) s
unfolding server new new_connection connect_established TcpConnection.new Calls.step handle_read
    init_default_event read_fd
closing = (
  _,
  later
      (later (later here (accepts first 5 input input refl refl))
        (establishes [] [] 1 _ refl refl refl))
      (calls (reads (got [] ∷ [])) 1 _ refl refl tt refl),
)

-- It is taken out of the map and destroyed.
history : (s : System) × Reaches (start_of server) s
unfolding closing server new new_connection connect_established TcpConnection.new Calls.step
    handle_read init_default_event read_fd connect_destroyed Channel.remove disable_all
history =
    (_, later (later closing.1 (removes [] [] 1 _ refl refl)) (destroys [] [] 1 _ refl refl refl))

-- The connection at the end.
last : Member
unfolding history
last = elim (history.0.store 1) [
  | some m ↦ m
  | none ↦ record { entry = first; conn = TcpConnection.new 5 input input }
]

last-held : history.0.store 1 ≡ some last
unfolding history last
last-held = refl

functor-Runs_example :
    (m : Member) × (closing.0.store 1 ≡ some m)
    × (Runs removing m.conn)
    × (has_id 1 closing.0.server.connections ≡ true)
unfolding closing
functor-Runs_example = functor-Runs removing [] [] 1 server-Reaches refl closing.1 refl

settled_example : IsSettled (has_id 1 history.0.server.connections) last.conn
unfolding history
settled_example = settled 1 last server-Reaches refl history.1 refl last-held

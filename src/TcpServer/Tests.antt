-- ===== src/TcpServer/Tests.antt =====
-- The server of twnl/TcpServer.cc on a concrete run.
use twnl.Base.{some, pos, get_elem?, ℕ, ◌≡◌, refl, false, List, [], ◌∷◌, arith}
use twnl.TcpServer.{
  Entry, set_thread_num, Server, new, start, new_connection, destroy, conn_name, name_eq,
}
use twnl.TcpServer.Names.{name_eq-conn_name}
use twnl.ThreadPool.Rounds.{Running}
use twnl.TcpServer.Destroying.{destroy-live}
use twnl.TcpServer.Making.{new_connection-adds}
use twnl.TcpServer.Live.{Reaches, made, configured, started, connected, connections-live, live}

abbrev address : List ℕ
address = b'h' ∷ b':' ∷ b'1' ∷ []

name_eq-conn_name_example : name_eq (conn_name address [] 1) (conn_name address [] 12) ≡ false
name_eq-conn_name_example = name_eq-conn_name address 1 12 (omega arith) (omega arith)

-- Started, two connections made.
two : (s : Server) × Reaches 7 address s
unfolding new start new_connection
two = (_, connected (connected (started (λ i. i) false made refl) refl) refl)

connections-live_example : two.0.connections ≡ live two.0.trace
connections-live_example = connections-live two.1

destroy-live_example : live (destroy two.0).trace ≡ []
destroy-live_example = destroy-live two.1

-- Started with two threads.
ready : (s : Server) × Reaches 7 address s × Running s.pool
unfolding new start set_thread_num
ready = (
  _,
  started (λ i. i) false (configured (pos 2) made refl) refl,
  record { up = refl; in_range = omega arith },
)

new_connection-adds_example :
    (e : Entry) × (s' : Server) × (new_connection ready.0 ≡ some s')
    × (s'.connections ≡ e ∷ [])
    × (get_elem? ready.0.pool.loops ready.0.pool.next ≡ some e.loop)
    × (e.name ≡ conn_name address [] 1)
    × Running s'.pool
unfolding ready
new_connection-adds_example = new_connection-adds ready.1 ready.2 (omega arith)

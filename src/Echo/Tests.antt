-- ===== src/Echo/Tests.antt =====
-- The echo server at concrete inputs.
use twnl.Base.{
  ℕ, ◌≡◌, refl, none, some, List, [], ◌∷◌, ◌++◌, arith, replicate, length-replicate, pos, ◌>>=◌,
}
use twnl.Buffer.{Buffer, contents}
use twnl.Channel
use twnl.Channel.{enable_reading, init_default_event}
use twnl.Echo.{main}
use twnl.Echo.Serving.{run-Serves}
use twnl.Echo.Session.{Event, arrives, drains, step, run, view, AllPossible, IsFresh, Serves}
use twnl.Echo.Whole.{idle, session, session_whole, message_overflow}
use twnl.TcpConnection.{Conn, connected, new}
use twnl.TcpConnection.Pending.{socket_bytes}
use twnl.TcpConnection.Sending.{level}
use twnl.TcpServer
use twnl.ThreadPool

-- The kernel takes one byte of three, then the rest, then the next message at once.
abbrev talk : List Event
talk = arrives (7 ∷ 8 ∷ 9 ∷ []) 1 ∷ drains 2 ∷ arrives (5 ∷ 6 ∷ []) 2 ∷ []

talk-AllPossible : AllPossible talk idle
talk-AllPossible = (
  (omega arith, omega arith, omega arith, omega arith),
  (omega arith, ((omega arith, omega arith, omega arith, omega arith), tt)),
)

session_whole_example :
    (c : Conn) × (session 5 talk ≡ some c)
    × (socket_bytes c.trace ++ contents c.output_buffer ≡ 7 ∷ 8 ∷ 9 ∷ 5 ∷ 6 ∷ [])
session_whole_example = session_whole 5 talk (refl, (refl, tt)) talk-AllPossible

buffer : Buffer
buffer = record { buffer = replicate 1024 0; reader_index = 0; writer_index = 0 }

buffer-IsFresh : IsFresh buffer
unfolding buffer
buffer-IsFresh = record { reader = refl; writer = refl; size = length-replicate {A = ℕ} 1024 0 }

abbrev up : Conn
unfolding new
up = record (new 5 buffer buffer) {
  state = connected;
  channel = enable_reading level (Channel.new 5);
}

up-Serves : Serves up idle
unfolding buffer enable_reading init_default_event new
up-Serves = record {
  up = refl;
  input = buffer-IsFresh;
  output = omega (arith, length-replicate {A = ℕ} 1024 0);
  sent = refl;
  pending = refl;
  writing = refl;
  end = refl;
}

run-Serves_example : (c : Conn) × (run talk up ≡ some c) × Serves c (view talk idle)
unfolding new
run-Serves_example = run-Serves talk up-Serves talk-AllPossible

message_overflow_example : step (arrives (replicate 1500 7) 0) up ≡ none
unfolding new
message_overflow_example =
    message_overflow (replicate 1500 7) 0 up-Serves (omega (arith, length-replicate {A = ℕ} 1500 7))
      (omega (arith, length-replicate {A = ℕ} 1500 7))

-- The option that `main` gives leaves the server without a thread of its own.
main_threads : (main (λ i. i) 0 (b'a' ∷ []) >>= λ s. some s.pool.num_threads) ≡ some (pos 0)
unfolding main TcpServer.new TcpServer.set_thread_num TcpServer.start ThreadPool.new
    ThreadPool.start
main_threads = refl

-- ===== src/TcpConnection/Tests.antt =====
-- Connections at concrete inputs.
use twnl.Base.{◌≡◌, refl, true, false, none, some, List, [], ◌∷◌, arith}
use twnl.Buffer.{Buffer, contents, append}
use twnl.Buffer.Io.{got, wrote, read_fd}
use twnl.Channel
use twnl.Channel.{
  is_writing, enable_writing, enable_reading, init_default_event, disable_all, is_none_event,
}
use twnl.TcpConnection.{
  Conn, Effect, connected, disconnected, disconnecting, new, connect_established, connect_destroyed,
  handle_close, handle_write, handle_read, shutdown_write, connection_callback, updated_channel,
  shutdown_in_loop, read_result,
}
use twnl.TcpConnection.Calls.{
  Call, establishes, reads, shuts_down, run, step, shutdown, run_task, destroys,
}
use twnl.TcpConnection.Sending.{level, edge}
use twnl.TcpConnection.Lifecycle.{notices, connection_callbacks_due}
use twnl.TcpConnection.Closing.{shutdown_after_drain}

abbrev input : Buffer
input = record { buffer = 0 ∷ 0 ∷ 0 ∷ 0 ∷ []; reader_index = 0; writer_index = 0 }

abbrev output : Buffer
output = record { buffer = 0 ∷ 0 ∷ 0 ∷ 0 ∷ []; reader_index = 0; writer_index = 0 }

abbrev pending : Buffer
pending = record { buffer = 1 ∷ 2 ∷ 3 ∷ 0 ∷ []; reader_index = 1; writer_index = 3 }

abbrev idle : Conn
unfolding new
idle = record (new 5 input output) { state = connected }

-- A connection that waits to send two bytes.
abbrev busy : Conn
busy = record idle {
  output_buffer = pending;
  channel = record (Channel.new 5) { events = record Channel.no_events { writable = true } };
}

-- The same in edge-triggered mode.
abbrev busy_edge : Conn
busy_edge = record busy {
  channel = record (Channel.new 5) {
    events = record Channel.no_events { writable = true; edge = true };
  };
}

abbrev edge_up : Conn
unfolding new enable_reading init_default_event
edge_up = record idle {
  channel = enable_reading edge (Channel.new 5);
  trace =
      connection_callback connected
      ∷ updated_channel (enable_reading edge (Channel.new 5)).events
      ∷ [];
}

edge_established : connect_established edge (new 5 input output) ≡ some edge_up
unfolding new connect_established enable_reading init_default_event
edge_established = refl

abbrev history : List Call
history =
    establishes ∷ reads (got (7 ∷ []) ∷ []) ∷ shuts_down true ∷ reads (got [] ∷ []) ∷ destroys ∷ []

-- Where the history ends.
final : Conn
unfolding run step new connect_established shutdown handle_read handle_close connect_destroyed
    init_default_event
final = elim (run level history (new 5 input output)) [ some c ↦ c | none ↦ idle ]

history_runs : run level history (new 5 input output) ≡ some final
unfolding final Channel.remove append read_fd enable_reading disable_all run_task shutdown_in_loop
    read_result
history_runs = refl

connection_callbacks_due_example : notices final.trace ≡ disconnected ∷ connected ∷ []
unfolding final Channel.remove read_fd enable_reading disable_all run_task shutdown_in_loop
    read_result
connection_callbacks_due_example =
    connection_callbacks_due level history 5 input output history_runs

shutdown_after_drain_example :
    (shutdown true level busy ≡ some (record busy { state = disconnecting }))
    × ((c2 : Conn) × (handle_write level (wrote 2 ∷ []) (record busy { state = disconnecting })
          ≡ some c2)
        × (contents c2.output_buffer ≡ [])
        × (is_writing level c2.channel ≡ false)
        × (c2.state ≡ disconnecting)
        × ((rest : List Effect) × (c2.trace ≡ shutdown_write ∷ rest)))
unfolding new init_default_event
shutdown_after_drain_example = shutdown_after_drain busy refl refl (omega arith) (omega arith)

-- ===== src/TcpConnection/Lifecycle.antt =====
-- What a user sees of a connection's life through `connectionCallback_`.
use twnl.Base.{
  ℕ, zero, suc, pos, negsuc, take, drop, Bool, true, false, Ensures, faulted, returned,
  Ensures-bind, Ensures-if, Ensures-some, Ensures-check, Ensures-then, Bool-cases, not, ◌&&◌, ◌||◌,
  leb, ltb, sub_size, length, ◌≡◌, refl, Option, some, List, [], ◌∷◌, arith, Option-cases, inl, inr,
}
use twnl.Buffer.{Buffer, append, contents}
use twnl.Buffer.Io.{Io, Writing, wrote, write_failed}
use twnl.Channel
use twnl.Channel.{Defaults}
use twnl.TcpConnection.{
  State, Conn, Effect, is_connected, is_connecting, is_disconnecting, Task, connecting, connected,
  disconnected, disconnecting, connection_callback, new, connect_established, connect_destroyed,
  shutdown_in_loop, start_read_in_loop, stop_read_in_loop, force_close_in_loop, keep_remaining,
  send_in_loop, send_rest, note_high_water, start_writing, send_now, log, log_if, read_result,
  write_result, handle_close, handle_read, handle_write, shutdown_task, force_close_task,
  start_read_task, stop_read_task, write_complete_task, send_task, read_input, write_output,
  message_callback, close_callback, write_complete_callback, high_water_callback, wrote_socket,
  shutdown_write, note_sent, queued, updated_channel, removed_channel,
}
use twnl.TcpConnection.Calls.{
  Call, establishes, destroys, closes, sends, sends_buffer, shuts_down, forces_close, starts_read,
  stops_read, runs, reads, writes, run_task, run_in_loop, send, send_buffer, shutdown, force_close,
  start_read, stop_read, step, run,
}

-- The states that `connectionCallback_` has seen, newest first.
abbrev pub notices : List Effect → List State
notices [] = []
notices (connection_callback s ∷ es) = s ∷ notices es
notices (message_callback _ ∷ es) = notices es
notices (close_callback ∷ es) = notices es
notices (write_complete_callback ∷ es) = notices es
notices (high_water_callback _ ∷ es) = notices es
notices (wrote_socket _ ∷ es) = notices es
notices (shutdown_write ∷ es) = notices es
notices (queued _ ∷ es) = notices es
notices (updated_channel _ ∷ es) = notices es
notices (removed_channel ∷ es) = notices es

abbrev pub due : State → List State
due connecting = []
due connected = connected ∷ []
due disconnecting = connected ∷ []
due disconnected = disconnected ∷ connected ∷ []

-- `connectionCallback_` has been told exactly what the state makes due: nothing before the connection
-- is up, once that it is up, and once more that it is down.
pub record Notified (c : Conn) : Type 0 where
  pub seen : notices c.trace ≡ due c.state

abbrev pub Keeps : Option Conn → Type 0
Keeps = Ensures Notified

log_if-Notified : (b : Bool) (t : Task) {c : Conn} → Notified c → Notified (log_if b (queued t) c)
log_if-Notified true t v = record { seen = v.seen }
log_if-Notified false t v = v

keep_remaining-Notified :
    (d : Defaults) (rest : List ℕ) {c : Conn} → Notified c → Keeps (keep_remaining d rest c)
unfolding keep_remaining note_high_water start_writing
keep_remaining-Notified d rest {c} v =
    Ensures-bind Notified (append rest _) _ λ out. returned (ground arith)

send_rest-Notified :
    (d : Defaults) (bytes : List ℕ) (nwrote : ℕ) (fault : Bool) {c : Conn}
    → Notified c
    → Keeps (send_rest d bytes nwrote fault c)
unfolding send_rest
send_rest-Notified d bytes nwrote fault v =
    Ensures-check Notified (leb (sub_size (length bytes) nwrote) (length bytes)) _ λ _.
      Ensures-if Notified (not fault && ltb 0 (sub_size (length bytes) nwrote)) _ _
        (keep_remaining-Notified d (drop nwrote bytes) v) (returned v)

send_now-Notified :
    (d : Defaults) (answer : Writing) (bytes : List ℕ) {c : Conn}
    → Notified c
    → Keeps (send_now d answer bytes c)
send_now-Notified d (wrote n) bytes {c} v = send_rest-Notified d bytes n false (
    log_if-Notified _ write_complete_task {c = log (wrote_socket (take n bytes)) c}
      (record { seen = v.seen }))
send_now-Notified d (write_failed n) bytes v = send_rest-Notified d bytes 0 _ v

send_in_loop-Notified :
    (d : Defaults) (answer : Writing) (bytes : List ℕ) {c : Conn}
    → Notified c
    → Keeps (send_in_loop d answer bytes c)
unfolding send_in_loop
send_in_loop-Notified d answer bytes {c} v =
    Ensures-if Notified _ _ _ (returned v)
      (Ensures-if Notified _ _ _ (send_now-Notified d answer bytes v) (returned v))

handle_close-Notified : (d : Defaults) {c : Conn} → Notified c → Keeps (handle_close d c)
unfolding handle_close
handle_close-Notified d {c} v =
    Ensures-check Notified (is_connected c.state || is_disconnecting c.state) _
      λ up. returned (ground arith)

pub connect_established-Notified :
    (d : Defaults) {c : Conn} → Notified c → Keeps (connect_established d c)
unfolding connect_established
connect_established-Notified d {c} v =
    Ensures-check Notified (is_connecting c.state) _ λ fresh. returned (ground arith)

pub connect_destroyed-Notified :
    (d : Defaults) {c : Conn} → Notified c → Keeps (connect_destroyed d c)
unfolding connect_destroyed
connect_destroyed-Notified d v =
    Ensures-bind Notified (Channel.remove d _) _ λ ch. returned (ground arith)

read_result-Notified : (d : Defaults) (r : Io) {c : Conn} → Notified c → Keeps (read_result d c r)
unfolding read_result
read_result-Notified d (b, pos zero, s) v = handle_close-Notified d (record { seen = v.seen })
read_result-Notified d (b, pos (suc n), s) v = returned (record { seen = v.seen })
read_result-Notified d (b, negsuc n, s) v = returned (record { seen = v.seen })

write_result-Notified :
    (d : Defaults) (r : Io) {c : Conn} → Notified c → Notified (write_result d c r)
unfolding write_result
write_result-Notified d (b, pos zero, s) v = record { seen = v.seen }
write_result-Notified d (b, pos (suc n), s) v = ground arith
write_result-Notified d (b, negsuc n, s) v = record { seen = v.seen }

run_task-Notified :
    (d : Defaults) (answer : Writing) (t : Task) {c : Conn}
    → Notified c
    → Keeps (run_task d answer t c)
unfolding run_task force_close_in_loop shutdown_in_loop start_read_in_loop stop_read_in_loop
run_task-Notified d answer (send_task bytes) v = send_in_loop-Notified d answer bytes v
run_task-Notified d answer force_close_task v =
    Ensures-if Notified _ _ _ (handle_close-Notified d v) (returned v)
run_task-Notified d answer shutdown_task v = returned (ground arith)
run_task-Notified d answer _ v = returned (ground arith)

run_in_loop-Notified :
    (here : Bool) (d : Defaults) (answer : Writing) (t : Task) {c : Conn}
    → Notified c
    → Keeps (run_in_loop here d answer t c)
run_in_loop-Notified true d answer t v = run_task-Notified d answer t v
run_in_loop-Notified false d answer t v = returned (record { seen = v.seen })

send_buffer-Notified :
    (d : Defaults) (answer : Writing) (message : Buffer) {c : Conn}
    → Notified c
    → Keeps (step d (sends_buffer answer message) c)
unfolding step send_buffer
send_buffer-Notified d answer message {c} v =
    elim (Option-cases (send_in_loop d answer (contents message) c)) [
      | inl e ↦ rw e faulted
      | inr (c', e) ↦
          rw e (
            returned
              (Ensures-some Notified (send_in_loop-Notified d answer (contents message) v) e))
    ]

shutdown-Notified : (here : Bool) (d : Defaults) {c : Conn} → Notified c → Keeps (shutdown here d c)
unfolding shutdown
shutdown-Notified here d {c} v = elim (Bool-cases (is_connected c.state)) [
  | inl up ↦ rw up (
      run_in_loop-Notified here d (wrote 0) shutdown_task {c = record c { state = disconnecting }}
        (record { seen = ground arith }))
  | inr other ↦ rw other (returned v)
]

-- Every call keeps it.
pub step-Notified : (d : Defaults) (k : Call) {c : Conn} → Notified c → Keeps (step d k c)
unfolding step send shutdown force_close start_read stop_read send_buffer handle_read handle_write
step-Notified d establishes v = connect_established-Notified d v
step-Notified d destroys v = connect_destroyed-Notified d v
step-Notified d closes v = handle_close-Notified d v
step-Notified d (sends here answer bytes) v =
    Ensures-if Notified _ _ _ (run_in_loop-Notified here d answer (send_task bytes) v) (returned v)
step-Notified d (sends_buffer answer message) v = send_buffer-Notified d answer message v
step-Notified d (shuts_down here) v = shutdown-Notified here d v
step-Notified d forces_close v = returned (ground arith)
step-Notified d (starts_read here) v = run_in_loop-Notified here d (wrote 0) start_read_task v
step-Notified d (stops_read here) v = run_in_loop-Notified here d (wrote 0) stop_read_task v
step-Notified d (runs answer t) v = run_task-Notified d answer t v
step-Notified d (reads answers) {c} v =
    Ensures-bind Notified (read_input d answers c.input_buffer) _ λ r. read_result-Notified d r v
step-Notified d (writes answers) {c} v =
    Ensures-if Notified _ _ _
      (Ensures-bind Notified (write_output d answers c.output_buffer) _
        λ r. returned (write_result-Notified d r {c = note_sent r.0 c} (record { seen = v.seen })))
      (returned v)

run-Notified : (d : Defaults) (ks : List Call) {c : Conn} → Notified c → Keeps (run d ks c)
unfolding run
run-Notified d [] v = returned v
run-Notified d (k ∷ ks) v =
    Ensures-then Notified (run d ks) (step-Notified d k v) (λ c' v'. run-Notified d ks v')

-- Over every history of a new connection that meets no failed assertion, in whatever mode and with
-- whatever the kernel answers, `connectionCallback_` has run exactly as the state then says: never
-- while connecting, once (as connected) when connected or disconnecting, and twice (as connected,
-- then as disconnected) when disconnected.
pub connection_callbacks_due :
    (d : Defaults) (ks : List Call) (sockfd : ℕ) (input output : Buffer) {c : Conn}
    → run d ks (new sockfd input output) ≡ some c
    → notices c.trace ≡ due c.state
unfolding new
connection_callbacks_due d ks sockfd input output e =
    (Ensures-some Notified (run-Notified d ks (record { seen = refl })) e).seen

-- ===== src/TcpConnection.antt =====
-- twnl/TcpConnection.h and twnl/TcpConnection.cc: one connection, driven by its loop.
-- What an operation does outside the object is an entry of `trace`, newest first; the kernel's answers
-- are arguments. `none` is a failed assertion (or a loop of `Buffer.Io` still waiting for an answer).
-- The functions with `in_loop` and the handlers run in the loop's thread, as the code asserts.
pub mod Calls
pub mod Sending
pub mod Pending
pub mod Draining
pub mod Ending
pub mod Ended
pub mod Closing
pub mod Lifecycle
mod Tests
use twnl.Base.{
  ℕ, zero, suc, ◌*◌, ◌==◌, ltb, leb, if◌then◌else◌, pos, negsuc, Bool, true, false, not, ◌&&◌, ◌||◌,
  Option, none, some, List, [], ◌∷◌, length, take, drop, add_size, sub_size, check, ◌>>=◌, ◌>>◌,
}
use twnl.Buffer
use twnl.Buffer.{Buffer, readable_bytes, contents, append}
use twnl.Buffer.Io.{
  Reading, Writing, wrote, write_failed, read_fd, read_fd_et, write_fd, write_fd_et, Io,
}
use twnl.Channel
use twnl.Channel.{
  Events, Defaults, Channel, is_et, is_reading, is_writing, enable_reading, disable_reading,
  enable_writing, disable_writing, disable_all,
}

pub data State : Type 0 where
  connecting connected disconnected disconnecting : State

abbrev pub is_connected : State → Bool
is_connected connected = true
is_connected _ = false

abbrev pub is_disconnected : State → Bool
is_disconnected disconnected = true
is_disconnected _ = false

abbrev pub is_disconnecting : State → Bool
is_disconnecting disconnecting = true
is_disconnecting _ = false

abbrev pub is_connecting : State → Bool
is_connecting connecting = true
is_connecting _ = false

-- The functors that a connection hands to its loop.
pub data Task : Type 0 where
  shutdown_task force_close_task start_read_task stop_read_task write_complete_task : Task
  send_task : List ℕ → Task
  high_water_task : ℕ → Task

pub data Effect : Type 0 where
  -- `connectionCallback_`, with the state that the callback sees
  connection_callback : State → Effect
  -- `messageCallback_`, with the bytes of the input buffer
  message_callback : List ℕ → Effect
  close_callback : Effect
  write_complete_callback : Effect
  high_water_callback : ℕ → Effect
  -- the bytes that the kernel took in one try to write
  wrote_socket : List ℕ → Effect
  shutdown_write : Effect
  queued : Task → Effect
  -- `EventLoop::updateChannel` and `EventLoop::removeChannel`
  updated_channel : Events → Effect
  removed_channel : Effect

pub record Conn : Type 0 where
  pub state : State
  pub reading : Bool
  pub channel : Channel
  pub input_buffer : Buffer
  pub output_buffer : Buffer
  pub high_water_mark : ℕ
  -- whether `writeCompleteCallback_` and `highWaterMarkCallback_` are set
  pub has_write_complete : Bool
  pub has_high_water : Bool
  pub trace : List Effect

abbrev pub log : Effect → Conn → Conn
log e c = record c { trace = e ∷ c.trace }

abbrev pub log_if : Bool → Effect → Conn → Conn
log_if true e c = log e c
log_if false e c = c

-- A switch of the channel's events, with the `updateChannel` that it makes.
abbrev pub switch : (Defaults → Channel → Channel) → Defaults → Conn → Conn
switch f d c =
    let ch = f d c.channel in record c { channel = ch; trace = updated_channel ch.events ∷ c.trace }

unfoldable pub new : ℕ → Buffer → Buffer → Conn
new sockfd input output = record {
  state = connecting;
  reading = true;
  channel = Channel.new sockfd;
  input_buffer = input;
  output_buffer = output;
  high_water_mark = 64 * 1024 * 1024;
  has_write_complete = false;
  has_high_water = false;
  trace = [];
}

unfoldable pub connect_established : Defaults → Conn → Option Conn
connect_established d c = do
  check (is_connecting c.state)
  let c1 : Conn = switch enable_reading d (record c { state = connected })
  some (log (connection_callback c1.state) c1)

unfoldable pub shutdown_in_loop : Defaults → Conn → Conn
shutdown_in_loop d c = log_if (not (is_writing d c.channel)) shutdown_write c

unfoldable pub start_read_in_loop : Defaults → Conn → Conn
start_read_in_loop d c =
    if not c.reading || not (is_reading d c.channel)
    then record (switch enable_reading d c) { reading = true }
    else c

unfoldable pub stop_read_in_loop : Defaults → Conn → Conn
stop_read_in_loop d c =
    if c.reading || is_reading d c.channel
    then record (switch disable_reading d c) { reading = false }
    else c

unfoldable pub handle_close : Defaults → Conn → Option Conn
handle_close d c = do
  check (is_connected c.state || is_disconnecting c.state)
  let c1 : Conn = switch disable_all d (record c { state = disconnected })
  some (log close_callback (log (connection_callback c1.state) c1))

unfoldable pub force_close_in_loop : Defaults → Conn → Option Conn
force_close_in_loop d c =
    if is_disconnecting c.state || is_connected c.state then handle_close d c else some c

unfoldable pub connect_destroyed : Defaults → Conn → Option Conn
connect_destroyed d c = do
  let c1 : Conn = switch disable_all d (record c { state = disconnected })
  let c2 : Conn = if is_connected c.state then log (connection_callback c1.state) c1 else c
  ch ← Channel.remove d c2.channel
  some (log removed_channel (record c2 { channel = ch }))

-- The high-water test before `remaining` bytes are added to the output buffer.
unfoldable pub note_high_water : ℕ → Conn → Conn
note_high_water remaining c =
    let old_len = readable_bytes c.output_buffer in
    let total = add_size old_len remaining in
    log_if (leb c.high_water_mark total && ltb old_len c.high_water_mark && c.has_high_water)
      (queued (high_water_task total)) c

unfoldable pub start_writing : Defaults → Conn → Conn
start_writing d c = if is_writing d c.channel then c else switch enable_writing d c

-- The bytes that the kernel did not take go to the output buffer.
unfoldable pub keep_remaining : Defaults → List ℕ → Conn → Option Conn
keep_remaining d rest c = do
  let c1 : Conn = note_high_water (length rest) c
  out ← append rest c1.output_buffer
  some (start_writing d (record c1 { output_buffer = out }))

abbrev pub ewouldblock : ℕ
ewouldblock = 11

abbrev pub epipe : ℕ
epipe = 32

abbrev pub econnreset : ℕ
econnreset = 104

-- `remaining`, at the `assert` after the write, and what follows it inside the same `if`.
unfoldable pub send_rest : Defaults → List ℕ → ℕ → Bool → Conn → Option Conn
send_rest d bytes nwrote fault c = do
  let remaining : ℕ = sub_size (length bytes) nwrote
  check (leb remaining (length bytes))
  if not fault && ltb 0 remaining then keep_remaining d (drop nwrote bytes) c else some c

-- The write that is tried at once.
abbrev pub send_now : Defaults → Writing → List ℕ → Conn → Option Conn
send_now d (wrote n) bytes c =
    let c1 = log (wrote_socket (take n bytes)) c in
    let all = (sub_size (length bytes) n == 0) && c1.has_write_complete in
    send_rest d bytes n false (log_if all (queued write_complete_task) c1)
send_now d (write_failed e) bytes c =
    send_rest d bytes 0 (not (e == ewouldblock) && ((e == epipe) || (e == econnreset))) c

unfoldable pub send_in_loop : Defaults → Writing → List ℕ → Conn → Option Conn
send_in_loop d answer bytes c =
    if is_disconnected c.state
    then some c
    else (if not (is_writing d c.channel) && (readable_bytes c.output_buffer == 0)
        then send_now d answer bytes c
        else some c)

-- `handleError` only reads SO_ERROR and logs it.
abbrev pub handle_error : Conn → Conn
handle_error c = c

-- What one event reads: a single `readFd`, or the loop of `readFdET`.
abbrev pub read_input : Defaults → List Reading → Buffer → Option Io
read_input d [] b = none
read_input d (r ∷ rs) b = if is_et d then read_fd_et (r ∷ rs) b 0 0 else read_fd r b 0

abbrev pub write_output : Defaults → List Writing → Buffer → Option Io
write_output d [] b = none
write_output d (w ∷ ws) b = if is_et d then write_fd_et (w ∷ ws) b 0 0 else some (write_fd w b 0)

-- What `handleRead` makes of the buffer and the value that the read gave.
unfoldable pub read_result : Defaults → Conn → Io → Option Conn
unfolding handle_close
read_result d c (input, pos (suc n), saved) =
    some (log (message_callback (contents input)) (record c { input_buffer = input }))
read_result d c (input, pos zero, saved) = handle_close d (record c { input_buffer = input })
read_result d c (input, negsuc e, saved) = some (handle_error (record c { input_buffer = input }))

unfoldable pub handle_read : Defaults → List Reading → Conn → Option Conn
unfolding read_result
handle_read d answers c = do r ← read_input d answers c.input_buffer; read_result d c r

-- What follows when `handleWrite` has emptied the output buffer.
abbrev pub output_drained : Defaults → Conn → Conn
output_drained d c =
    let c1 = switch disable_writing d c in
    let c2 = log_if c1.has_write_complete (queued write_complete_task) c1 in
    if is_disconnecting c2.state then shutdown_in_loop d c2 else c2

-- What `handleWrite` makes of the buffer and the value that the write gave.
unfoldable pub write_result : Defaults → Conn → Io → Conn
unfolding shutdown_in_loop
write_result d c (output, pos (suc n), saved) =
    let c1 = record c { output_buffer = output } in
    if readable_bytes output == 0 then output_drained d c1 else c1
write_result d c (output, pos zero, saved) = record c { output_buffer = output }
write_result d c (output, negsuc e, saved) = record c { output_buffer = output }

-- The bytes that a write has taken off a buffer.
abbrev pub sent : Buffer → Buffer → List ℕ
sent before after = take (sub_size after.reader_index before.reader_index) (contents before)

abbrev pub note_sent : Buffer → Conn → Conn
note_sent output c = log (wrote_socket (sent c.output_buffer output)) c

unfoldable pub handle_write : Defaults → List Writing → Conn → Option Conn
unfolding write_result
handle_write d answers c =
    if is_writing d c.channel
    then (write_output d answers c.output_buffer >>= λ r. some (write_result d (note_sent r.0 c) r))
    else some c

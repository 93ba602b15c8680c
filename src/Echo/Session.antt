-- ===== src/Echo/Session.antt =====
-- The echo server against a specification of its sessions.
use twnl.Base.{
  ℕ, ◌+◌, ◌≤◌, ◌<◌, ◌^◌, ◌≡◌, Option, some, List, [], ◌∷◌, ◌++◌, length, take, drop, ltb, ◌>>=◌,
}
use twnl.Buffer.{Buffer, IsValid, contents, initial_size}
use twnl.Buffer.Io.{got, wrote}
use twnl.Channel.{is_writing}
use twnl.TcpConnection
use twnl.TcpConnection.{
  Conn, Effect, connected, connection_callback, message_callback, close_callback,
  write_complete_callback, high_water_callback, wrote_socket, shutdown_write, queued,
  updated_channel, removed_channel,
}
use twnl.TcpConnection.Sending.{level}
use twnl.TcpConnection.Pending.{socket_bytes}
use twnl.Echo.{handle_read}

-- What happens to a connection between being set up and being closed, in level-triggered mode: bytes
-- come in, of whose echo the kernel takes `n`; or the socket is writable, and the kernel takes `n`.
pub data Event : Type 0 where
  arrives : List ℕ → ℕ → Event
  drains : ℕ → Event

unfoldable pub step : Event → Conn → Option Conn
unfolding handle_read TcpConnection.handle_write
step (arrives bytes n) c = handle_read level (got bytes ∷ []) (wrote n) c
step (drains n) c = TcpConnection.handle_write level (wrote n ∷ []) c

unfoldable pub run : List Event → Conn → Option Conn
unfolding step
run [] c = some c
run (e ∷ es) c = do c' ← step e c; run es c'

-- The specification's view: what the peer has been sent, what waits, and how many bytes ever waited.
pub record View : Type 0 where
  pub sent : List ℕ
  pub pending : List ℕ
  pub buffered : ℕ

abbrev pub echo : List ℕ → ℕ → List ℕ → View → View
echo bytes n [] v = record {
  sent = v.sent ++ take n bytes;
  pending = drop n bytes;
  buffered = v.buffered + length (drop n bytes);
}
echo bytes n (x ∷ xs) v = v

-- A message is echoed if nothing waits, and lost otherwise.
abbrev pub next : Event → View → View
next (arrives bytes n) v = echo bytes n v.pending v
next (drains n) v = record v { sent = v.sent ++ take n v.pending; pending = drop n v.pending }

abbrev pub view : List Event → View → View
view [] v = v
view (e ∷ es) v = view es (next e v)

-- What the kernel and the peer may do: a message has bytes and fits a new buffer, and the kernel takes
-- no more than there is.
abbrev pub Possible : Event → View → Type 0
Possible (arrives bytes n) v =
    (0 < length bytes)
    × (length bytes ≤ initial_size)
    × (n ≤ length bytes)
    × (v.buffered + length bytes < 2 ^ 63)
Possible (drains n) v = n ≤ length v.pending

abbrev pub AllPossible : List Event → View → Type 0
AllPossible [] v = Unit {0}
AllPossible (e ∷ es) v = Possible e v × AllPossible es (next e v)

-- An input buffer that has been emptied, of its first size.
pub record IsFresh (b : Buffer) : Type 0 where
  pub reader : b.reader_index ≡ 0
  pub writer : b.writer_index ≡ 0
  pub size : length b.buffer ≡ initial_size

-- The connection is up and stands where the view says.
pub record Serves (c : Conn) (v : View) : Type 0 where
  pub up : c.state ≡ connected
  pub input : IsFresh c.input_buffer
  pub output : IsValid c.output_buffer
  pub sent : socket_bytes c.trace ≡ v.sent
  pub pending : contents c.output_buffer ≡ v.pending
  pub writing : is_writing level c.channel ≡ ltb 0 (length v.pending)
  pub end : c.output_buffer.writer_index ≡ v.buffered

-- ===== src/Buffer/Overflow.antt =====
-- `readFd` of twnl/Buffer.cc when the spill does not fit.
use twnl.Base.{ℕ, ◌-◌, ◌≤◌, ◌<◌, ◌≡◌, none, List, arith, length, drop, length-drop}
use twnl.Buffer.{Buffer, IsValid, append}
use twnl.Buffer.Append.{append_overflow}
use twnl.Buffer.Io.{got, read_fd}
use twnl.Buffer.Receive.{room, filled, filled-Received}

read_fd-append-none :
    (bytes : List ℕ) {b : Buffer} (v : IsValid b) (saved : ℕ)
    → room bytes v < length bytes
    → append (drop (room bytes v) bytes) (filled bytes v) ≡ none
    → read_fd (got bytes) b saved ≡ none
unfolding read_fd filled room
read_fd-append-none bytes v saved over e = ground (arith, e)

-- If the bytes that a valid buffer gets exceed its free tail by more than the bytes already read, but
-- by no more than the array less the bytes already read, `readFd` fails the assertion of `append`.
pub read_fd_overflow :
    (bytes : List ℕ) {b : Buffer} (saved : ℕ)
    → IsValid b
    → b.reader_index < length bytes - (length b.buffer - b.writer_index)
    → length bytes - (length b.buffer - b.writer_index) ≤ length b.buffer - b.reader_index
    → read_fd (got bytes) b saved ≡ none
unfolding filled room
read_fd_overflow bytes {b} saved v short long =
    let (r, same) = filled-Received bytes v (omega arith) in
    let rest = drop (length b.buffer - b.writer_index) bytes in
    let left : length rest ≡ length bytes - (length b.buffer - b.writer_index) =
      length-drop (length b.buffer - b.writer_index) bytes in
    read_fd-append-none bytes v saved (omega arith)
      (append_overflow rest r.valid (omega (arith, same, left)) (omega (arith, same, left)))

-- ===== src/Buffer/Io.antt =====
-- twnl/Buffer.cc: moving bytes between a descriptor and the buffer.
-- The kernel is outside: its answers are arguments. A loop takes the list of the answers that it will
-- get; the empty list stands for a loop that is still waiting for one, and gives `none`.
use twnl.Base.{
  ℕ, suc, ◌+◌, ◌==◌, leb, if◌then◌else◌, ℤ, pos, negsuc, Option, none, some, List, [], ◌∷◌, length,
  take, drop, copy_to, add_size, ◌>>=◌,
}
use twnl.Buffer.{Buffer, writable_bytes, append}

-- What `readv` gives: the bytes, put into the free tail and then into `extrabuf`, or -1 and `errno`.
pub data Reading : Type 0 where
  got : List ℕ → Reading
  read_failed : ℕ → Reading

-- What `write` gives: how many bytes the kernel took, or -1 and `errno`.
pub data Writing : Type 0 where
  wrote : ℕ → Writing
  write_failed : ℕ → Writing

abbrev pub eagain : ℕ
eagain = 11

-- The buffer, the value returned, and `*savedErrno`.
abbrev pub Io : Type 0
Io = Buffer × ℤ × ℕ

unfoldable pub read_fd : Reading → Buffer → ℕ → Option Io
read_fd (read_failed e) b saved = some (b, negsuc 0, e)
read_fd (got bytes) b saved =
    let writable = writable_bytes b in
    let filled = copy_to b.buffer b.writer_index (take writable bytes) in
    if leb (length bytes) writable
    then some (
      record b { buffer = filled; writer_index = add_size b.writer_index (length bytes) },
      pos (length bytes),
      saved,
    )
    else do
      b' ←
          append (drop writable bytes)
            (record b { buffer = filled; writer_index = length b.buffer })
      some (b', pos (length bytes), saved)

unfoldable pub write_fd : Writing → Buffer → ℕ → Io
write_fd (write_failed e) b saved = (b, negsuc 0, e)
write_fd (wrote n) b saved = (record b { reader_index = add_size b.reader_index n }, pos n, saved)

-- What a loop returns when a call moved no byte.
abbrev pub stopped : Buffer → ℕ → ℤ → ℕ → Io
stopped b n len saved = if saved == eagain then (b, pos n, saved) else (b, len, saved)

unfoldable pub read_fd_et : List Reading → Buffer → ℕ → ℕ → Option Io
unfolding read_fd
read_fd_et [] b saved n = none
read_fd_et (r ∷ rs) b saved n = do
  (b', len, saved') ← read_fd r b saved
  elim len [
    | pos (suc k) ↦ read_fd_et rs b' saved' (n + suc k)
    | other ↦ some (stopped b' n other saved')
  ]

unfoldable pub write_fd_et : List Writing → Buffer → ℕ → ℕ → Option Io
write_fd_et [] b saved n = none
write_fd_et (w ∷ ws) b saved n =
    let (b', len, saved') = write_fd w b saved in
    elim len [
      | pos (suc k) ↦ write_fd_et ws b' saved' (n + suc k)
      | other ↦ some (stopped b' n other saved')
    ]

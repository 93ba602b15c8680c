-- ===== src/Buffer.antt =====
-- twnl/Buffer.h: the byte buffer between a socket and the code that reads or writes it.
-- A pointer into `buffer_` is its index. `none` is a failed `assert`: the release build compiles
-- the assertions out, and goes on outside the array instead.
pub mod Append
pub mod Io
pub mod Receive
pub mod Overflow
pub mod Swap
mod Tests
pub mod Transmit
pub mod Retrieve
use twnl.Base.{
  ℕ, suc, ◌+◌, ◌-◌, ◌==◌, ltb, leb, if◌then◌else◌, ◌&&◌, Option, none, some, ◌≤◌, ◌<◌, ◌^◌, List,
  [], ◌∷◌, ◌++◌, length, take, drop, replicate, slice, copy_to, add_size, sub_size, check, ◌>>=◌,
  ◌>>◌,
}

-- `buffer` is the whole array, `buffer_.size()` its length.
pub record Buffer : Type 0 where
  pub buffer : List ℕ
  pub reader_index : ℕ
  pub writer_index : ℕ

abbrev pub initial_size : ℕ
initial_size = 1024

abbrev pub readable_bytes : Buffer → ℕ
readable_bytes b = sub_size b.writer_index b.reader_index

abbrev pub writable_bytes : Buffer → ℕ
writable_bytes b = sub_size (length b.buffer) b.writer_index

unfoldable pub new : ℕ → Option Buffer
new size = do
  let b : Buffer = record { buffer = replicate size 0; reader_index = 0; writer_index = 0 }
  check (readable_bytes b == 0)
  check (writable_bytes b == size)
  some b

-- `swap` as it stands: the second exchange of `readerIndex_` undoes the first.
unfoldable pub swap : Buffer → Buffer → Buffer × Buffer
swap a b =
    let a1 = record a { buffer = b.buffer; reader_index = b.reader_index } in
    let b1 = record b { buffer = a.buffer; reader_index = a.reader_index } in
    (record a1 { reader_index = b1.reader_index }, record b1 { reader_index = a1.reader_index })

abbrev pub peek : Buffer → ℕ
peek b = b.reader_index

abbrev pub begin_write : Buffer → ℕ
begin_write b = b.writer_index

unfoldable pub retrieve_all : Buffer → Buffer
retrieve_all b = record b { reader_index = 0; writer_index = 0 }

unfoldable pub retrieve : ℕ → Buffer → Option Buffer
unfolding retrieve_all
retrieve len b = do
  check (leb len (readable_bytes b))
  some (
      if ltb len (readable_bytes b)
      then record b { reader_index = add_size b.reader_index len }
      else retrieve_all b)

unfoldable pub retrieve_until : ℕ → Buffer → Option Buffer
unfolding retrieve
retrieve_until end b = do
  check (leb (peek b) end)
  check (leb end (begin_write b))
  retrieve (end - peek b) b

-- The bytes are copied out before `retrieve` looks at the length.
unfoldable pub retrieve_as_string : ℕ → Buffer → Option (List ℕ × Buffer)
unfolding retrieve
retrieve_as_string len b = do
  let str : List ℕ = take len (drop (peek b) b.buffer)
  b' ← retrieve len b
  some (str, b')

unfoldable pub retrieve_all_as_string : Buffer → Option (List ℕ × Buffer)
unfolding retrieve_as_string
retrieve_all_as_string b = retrieve_as_string (readable_bytes b) b

-- `std::vector::resize`; new bytes are 0.
abbrev pub resize : ℕ → List ℕ → List ℕ
resize n xs = take n xs ++ replicate (n - length xs) 0

unfoldable pub make_space : ℕ → Buffer → Option Buffer
make_space len b =
    if ltb (add_size (writable_bytes b) (readable_bytes b)) len
    then some (record b { buffer = resize (add_size b.writer_index len) b.buffer })
    else do
      let readable : ℕ = readable_bytes b
      let b' : Buffer = record {
        buffer = copy_to b.buffer 0 (slice b.reader_index b.writer_index b.buffer);
        reader_index = 0;
        writer_index = add_size 0 readable;
      }
      check (readable == readable_bytes b')
      some b'

unfoldable pub ensure_write_bytes : ℕ → Buffer → Option Buffer
unfolding make_space
ensure_write_bytes len b = do
  b' ← if ltb (writable_bytes b) len then make_space len b else some b
  check (leb len (writable_bytes b'))
  some b'

unfoldable pub has_written : ℕ → Buffer → Option Buffer
has_written len b = do
  check (leb len (writable_bytes b))
  some (record b { writer_index = add_size b.writer_index len })

unfoldable pub append : List ℕ → Buffer → Option Buffer
unfolding ensure_write_bytes has_written
append bytes b = do
  b' ← ensure_write_bytes (length bytes) b
  has_written (length bytes) (record b' { buffer = copy_to b'.buffer (begin_write b') bytes })

-- `std::search(first, last, kCRLF, kCRLF + 2)`: the offset of the first "\r\n", or the length.
unfoldable pub search_crlf : List ℕ → ℕ
search_crlf [] = 0
search_crlf (x ∷ []) = 1
search_crlf (x ∷ y ∷ xs) =
    let rest = search_crlf (y ∷ xs) in if (x == 0x0d) && (y == 0x0a) then 0 else suc rest

-- `findCRLF(start)`; `findCRLF()` starts at `peek()`. `none` is NULL.
unfoldable pub find_crlf_from : ℕ → Buffer → Option ℕ
unfolding search_crlf
find_crlf_from start b =
    let crlf = start + search_crlf (slice start (begin_write b) b.buffer) in
    if crlf == begin_write b then none else some crlf

unfoldable pub find_crlf : Buffer → Option ℕ
unfolding find_crlf_from
find_crlf b = find_crlf_from (peek b) b

-- What the buffer holds, oldest byte first.
abbrev pub contents : Buffer → List ℕ
contents b = slice b.reader_index b.writer_index b.buffer

-- The representation invariant. A `std::vector<char>` has fewer than 2^63 bytes.
pub record IsValid (b : Buffer) : Type 0 where
  pub ordered : b.reader_index ≤ b.writer_index
  pub inside : b.writer_index ≤ length b.buffer
  pub addressable : length b.buffer < 2 ^ 63

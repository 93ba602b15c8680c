-- ===== src/Echo/Message.antt =====
-- One message through the buffers of an echo connection.
use twnl.Base.{ℕ, ◌≤◌, ◌-◌, ◌≡◌, refl, sym, ap, ◌∙◌, pos, some, List, [], ◌++◌, arith, length}
use twnl.Buffer.{
  Buffer, IsValid, contents, initial_size, retrieve, retrieve_all, retrieve_as_string,
  retrieve_all_as_string,
}
use twnl.Buffer.Append.{contents_empty}
use twnl.Buffer.Receive.{tail, tail-Received, read_fd_within}
use twnl.Buffer.Io.{got, read_fd}
use twnl.Echo.Session.{IsFresh}

pub IsFresh-IsValid : {b : Buffer} → IsFresh b → IsValid b
IsFresh-IsValid {b} f = ground (arith, f.reader, f.writer, f.size)

retrieve_all_as_string-all :
    (b : Buffer)
    → IsValid b
    → retrieve_all_as_string b ≡ some (contents b, record b { reader_index = 0; writer_index = 0 })
unfolding retrieve_all_as_string retrieve_as_string retrieve retrieve_all
retrieve_all_as_string-all b v = ground arith

-- Bytes that fit an emptied input buffer come out of it whole, and leave it empty again.
pub message_lem :
    (bytes : List ℕ) {b : Buffer}
    → IsFresh b
    → length bytes ≤ initial_size
    → (b1 b2 : Buffer) × (read_fd (got bytes) b 0 ≡ some (b1, pos (length bytes), 0))
      × (retrieve_all_as_string b1 ≡ some (bytes, b2))
      × IsFresh b2
unfolding tail
message_lem bytes {b} f fits =
    let v = IsFresh-IsValid f in
    let fit : length bytes ≤ length b.buffer - b.writer_index = omega (arith, f.writer, f.size) in
    let (r, same) = tail-Received bytes v fit in
    let none : contents b ≡ [] = contents_empty b (f.reader ∙ sym f.writer) in
    (
      tail bytes v,
      record (tail bytes v) { reader_index = 0; writer_index = 0 },
      read_fd_within bytes v 0 fit,
      retrieve_all_as_string-all (tail bytes v) r.valid
          ∙ ap (λ s. some (s, record (tail bytes v) { reader_index = 0; writer_index = 0 }))
              (r.more ∙ ap (◌++ bytes) none),
      record { reader = refl; writer = refl; size = same ∙ f.size },
    )

-- ===== src/Buffer/Receive.antt =====
-- `readFd` and `readFdET` of twnl/Buffer.cc: what a read adds to the buffer, and what it reports.
use twnl.Base.{
  ℕ, ◌+◌, ◌-◌, ◌≤◌, ◌<◌, ◌^◌, ◌≡◌, refl, sym, ap, ◌∙◌, ◌⊎◌, ◌≢◌, pos, some, List, [], ◌∷◌, ◌++◌,
  arith, length, take, drop, copy_to, append-nil, append_assoc, take_all, take-append-drop,
  length-take, length-drop, length-copy_to, slice-copy_to, dec_le,
}
use twnl.Buffer.{Buffer, IsValid, contents, append}
use twnl.Buffer.Append.{Accepts, append_lem}
use twnl.Buffer.Io.{Reading, got, read_failed, eagain, read_fd, read_fd_et}

-- The `got` bytes that do not fit the free tail go through `extrabuf` to `append`, which takes them
-- if they exceed the unread part of the array or fit the bytes already read.
abbrev pub Spills : Buffer → ℕ → Type 0
Spills b n =
    (n ≤ length b.buffer - b.writer_index)
    ⊎ (length b.buffer - b.reader_index < n - (length b.buffer - b.writer_index))
    ⊎ (n - (length b.buffer - b.writer_index) ≤ b.reader_index)

-- `bytes` have come in behind the contents of `b`.
pub record Received (b : Buffer) (bytes : List ℕ) (b' : Buffer) : Type 0 where
  pub valid : IsValid b'
  pub more : contents b' ≡ contents b ++ bytes

module _ (bytes : List ℕ) {b : Buffer} (v : IsValid b) where
  open b use {buffer, reader_index, writer_index}

  unfoldable pub tail : Buffer
  tail = record b {
    buffer = copy_to buffer writer_index bytes;
    writer_index = writer_index + length bytes;
  }

  pub tail-Received :
      length bytes ≤ length buffer - writer_index
      → Received b bytes tail × (length tail.buffer ≡ length buffer)
  unfolding tail
  tail-Received h =
      let same : length (copy_to buffer writer_index bytes) ≡ length buffer =
        length-copy_to buffer writer_index bytes (omega arith) in
      (
        record {
          valid = omega (arith, same);
          more = slice-copy_to buffer bytes reader_index writer_index _ v.ordered v.inside refl;
        },
        same,
      )

  pub read_fd_within :
      (saved : ℕ)
      → length bytes ≤ length buffer - writer_index
      → read_fd (got bytes) b saved ≡ some (tail, pos (length bytes), saved)
  unfolding read_fd tail
  read_fd_within saved h = ground (arith, take_all (length buffer - writer_index) bytes h)

  unfoldable pub room : ℕ
  room = length buffer - writer_index

  unfoldable pub filled : Buffer
  unfolding room
  filled = record b {
    buffer = copy_to buffer writer_index (take room bytes);
    writer_index = length buffer;
  }

  pub filled-Received :
      room < length bytes
      → Received b (take room bytes) filled × (length filled.buffer ≡ length buffer)
  unfolding filled room
  filled-Received h =
      let some_fit : length (take (length buffer - writer_index) bytes)
          ≡ length buffer - writer_index =
        omega (arith, length-take (length buffer - writer_index) bytes) in
      let same : length (copy_to buffer writer_index (take (length buffer - writer_index) bytes))
          ≡ length buffer =
        length-copy_to buffer writer_index (take (length buffer - writer_index) bytes)
          (omega arith) in
      (
        record {
          valid = omega (arith, same);
          more =
              slice-copy_to buffer (take (length buffer - writer_index) bytes) reader_index
                writer_index _ v.ordered v.inside (omega arith);
        },
        same,
      )

  read_fd-append :
      (saved : ℕ) {b' : Buffer}
      → room < length bytes
      → append (drop room bytes) filled ≡ some b'
      → read_fd (got bytes) b saved ≡ some (b', pos (length bytes), saved)
  unfolding read_fd filled room
  read_fd-append saved over e = ground (arith, e)

  read_fd_beyond :
      (saved : ℕ)
      → length buffer + length bytes < 2 ^ 63
      → room < length bytes
      → (length buffer - reader_index < length bytes - room) ⊎ (length bytes - room ≤ reader_index)
      → (b' : Buffer) × (read_fd (got bytes) b saved ≡ some (b', pos (length bytes), saved))
        × Received b bytes b'
  unfolding read_fd filled room
  read_fd_beyond saved fits over h =
      let (r, same) = filled-Received over in
      let rest : length (drop (length buffer - writer_index) bytes)
          ≡ length bytes - (length buffer - writer_index) =
        length-drop (length buffer - writer_index) bytes in
      let accepts : Accepts filled (length (drop (length buffer - writer_index) bytes)) =
        omega (arith, same, rest) in
      let (b', e, more, valid) =
        append_lem (drop (length buffer - writer_index) bytes) r.valid (omega (arith, same, rest))
          accepts in
      (
        b',
        read_fd-append saved over e,
        record {
          valid = valid;
          more =
              more
              ∙ ap (◌++ drop (length buffer - writer_index) bytes) r.more
              ∙ append_assoc (contents b) _ _
              ∙ ap (contents b ++◌) (take-append-drop (length buffer - writer_index) bytes);
        },
      )

-- One `readFd` that delivers bytes to a valid buffer, where the bytes fit the free tail or the rest
-- of them can be appended: it returns their number, leaves `*savedErrno` alone, puts exactly those
-- bytes behind the contents, and keeps the buffer valid.
pub read_fd_lem :
    (bytes : List ℕ) {b : Buffer} (saved : ℕ)
    → IsValid b
    → length b.buffer + length bytes < 2 ^ 63
    → Spills b (length bytes)
    → (b' : Buffer) × (read_fd (got bytes) b saved ≡ some (b', pos (length bytes), saved))
      × (contents b' ≡ contents b ++ bytes)
      × IsValid b'
unfolding room
read_fd_lem bytes {b} saved v fits h =
    elim (dec_le (length bytes) (length b.buffer - b.writer_index)) [
      | yes p ↦
          let (r, _) = tail-Received bytes v p in
          (tail bytes v, read_fd_within bytes v saved p, r.more, r.valid)
      | no p ↦
          let (b', e, r) = read_fd_beyond bytes v saved fits (omega arith) (omega arith) in
          (b', e, r.more, r.valid)
    ]

-- Every chunk has a byte.
abbrev pub AllSome : List (List ℕ) → Type 0
AllSome [] = Unit {0}
AllSome (c ∷ cs) = (0 < length c) × AllSome cs

abbrev pub total : List (List ℕ) → ℕ
total [] = 0
total (c ∷ cs) = length c + total cs

abbrev pub concat : List (List ℕ) → List ℕ
concat [] = []
concat (c ∷ cs) = c ++ concat cs

-- The answers of one edge-triggered read: some chunks, then `end`.
abbrev pub arrivals : List (List ℕ) → Reading → List Reading
arrivals [] end = end ∷ []
arrivals (c ∷ cs) end = got c ∷ arrivals cs end

-- A round that moved bytes goes on to the next.
read_fd_et_next :
    (c : List ℕ) (rs : List Reading) (b b' : Buffer) (saved n : ℕ)
    → 0 < length c
    → read_fd (got c) b saved ≡ some (b', pos (length c), saved)
    → read_fd_et (got c ∷ rs) b saved n ≡ read_fd_et rs b' saved (n + length c)
unfolding read_fd_et
read_fd_et_next [] rs b b' saved n h e = absurd (omega arith)
read_fd_et_next (x ∷ c) rs b b' saved n h e = rw e

read_fd_et-arrivals :
    (cs : List (List ℕ)) (end : Reading) {b : Buffer} (saved n : ℕ)
    → IsValid b
    → AllSome cs
    → total cs ≤ length b.buffer - b.writer_index
    → (b' : Buffer) × (read_fd_et (arrivals cs end) b saved n
        ≡ read_fd_et (end ∷ []) b' saved (n + total cs))
      × Received b (concat cs) b'
unfolding tail
read_fd_et-arrivals [] end {b} saved n v s h = (
  b,
  ap (read_fd_et (end ∷ []) b saved) (omega arith),
  record { valid = v; more = sym (append-nil (contents b)) },
)
read_fd_et-arrivals (c ∷ cs) end {b} saved n v s h =
    let (r, same) = tail-Received c v (omega arith) in
    let (b', e, r') =
      read_fd_et-arrivals cs end {b = tail c v} saved (n + length c) r.valid s.1
        (omega (arith, same)) in
    (
      b',
      read_fd_et_next c (arrivals cs end) b (tail c v) saved n s.0
            (read_fd_within c v saved (omega arith))
          ∙ e
          ∙ ap (read_fd_et (end ∷ []) b' saved) (omega arith),
      record {
        valid = r'.valid;
        more = r'.more ∙ ap (◌++ concat cs) r.more ∙ append_assoc (contents b) c (concat cs);
      },
    )

-- On a valid buffer, an edge-triggered read that gets non-empty chunks within the free tail until
-- the kernel answers EAGAIN: the loop ends, returns the number of bytes, the contents have grown
-- by exactly those bytes, and the buffer is valid.
pub read_fd_et-eagain :
    (cs : List (List ℕ)) {b : Buffer} (saved : ℕ)
    → IsValid b
    → AllSome cs
    → total cs ≤ length b.buffer - b.writer_index
    → (b' : Buffer) × (read_fd_et (arrivals cs (read_failed eagain)) b saved 0
        ≡ some (b', pos (total cs), eagain))
      × (contents b' ≡ contents b ++ concat cs)
      × IsValid b'
unfolding read_fd_et
read_fd_et-eagain cs saved v s h =
    let (b', e, r) = read_fd_et-arrivals cs (read_failed eagain) saved 0 v s h in
    (b', e ∙ ap (λ k. some (b', pos k, eagain)) (omega arith), r.more, r.valid)

-- On a valid buffer, an edge-triggered read that gets non-empty chunks within the free tail and
-- then 0 bytes, where `*savedErrno` is not EAGAIN before: the contents have grown by exactly
-- those bytes and the buffer is valid, but the value returned is 0, whatever came in.
pub read_fd_et_eof :
    (cs : List (List ℕ)) {b : Buffer} (saved : ℕ)
    → IsValid b
    → AllSome cs
    → total cs ≤ length b.buffer - b.writer_index
    → saved ≢ eagain
    → (b' : Buffer) × (read_fd_et (arrivals cs (got [])) b saved 0 ≡ some (b', pos 0, saved))
      × (contents b' ≡ contents b ++ concat cs)
      × IsValid b'
unfolding read_fd_et
read_fd_et_eof cs saved v s h ne =
    let (b', e, r) = read_fd_et-arrivals cs (got []) saved 0 v s h in
    let (r', _) = tail-Received [] r.valid (omega arith) in
    (
      tail [] r.valid,
      e ∙ rw (read_fd_within [] r.valid saved (omega arith)) (ground arith),
      r'.more ∙ append-nil (contents b') ∙ r.more,
      r'.valid,
    )

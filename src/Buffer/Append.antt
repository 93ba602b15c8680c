-- ===== src/Buffer/Append.antt =====
-- `append`, `ensureWriteBytes` and `makeSpace` of twnl/Buffer.h.
use twnl.Base.{
  ℕ, [], take, drop, List, ◌+◌, ◌-◌, ◌≤◌, ◌<◌, ◌^◌, ◌≡◌, refl, sym, ap, ◌∙◌, ◌⊎◌, none, some, List,
  ◌++◌, arith, length, replicate, slice, copy_to, length-append, length-replicate, length-slice,
  length-copy_to, slice-copy_to, slice-copy_front, slice-append_right, take_all, dec_lt, dec_le,
}
use twnl.Buffer.{
  Buffer, IsValid, contents, resize, make_space, ensure_write_bytes, has_written, append,
}

-- When `makeSpace` finds room for `n` more bytes: there is room already, or so little of the array
-- is past the read bytes that it grows, or the bytes already read leave enough.
abbrev pub Accepts : Buffer → ℕ → Type 0
Accepts b n =
    (n ≤ length b.buffer - b.writer_index)
    ⊎ (length b.buffer - b.reader_index < n)
    ⊎ (n ≤ b.reader_index + (length b.buffer - b.writer_index))

-- A buffer with the same contents and room for `n` more bytes.
record Room (b : Buffer) (n : ℕ) (b' : Buffer) : Type 0 where
  valid : IsValid b'
  same : contents b' ≡ contents b
  room : n ≤ length b'.buffer - b'.writer_index

resize_grows :
    (n : ℕ) (xs : List ℕ) → length xs ≤ n → resize n xs ≡ xs ++ replicate (n - length xs) 0
resize_grows n xs h = ap (λ zs. zs ++ replicate (n - length xs) 0) (take_all n xs h)

module _ (n : ℕ) {b : Buffer} (v : IsValid b) (fits : b.writer_index + n < 2 ^ 63) where
  grown : Buffer
  grown = record b { buffer = resize (b.writer_index + n) b.buffer }

  grown-length : length b.buffer - b.reader_index < n → length grown.buffer ≡ b.writer_index + n
  unfolding grown
  grown-length h =
      ap length (resize_grows (b.writer_index + n) b.buffer (omega arith))
      ∙ omega (
        arith,
        length-append b.buffer (replicate (b.writer_index + n - length b.buffer) 0),
        length-replicate {A = ℕ} (b.writer_index + n - length b.buffer) 0,
      )

  grown-Room : length b.buffer - b.reader_index < n → Room b n grown
  unfolding grown
  grown-Room h = record {
    valid = omega (arith, grown-length h);
    same =
        ap (slice b.reader_index b.writer_index)
          (resize_grows (b.writer_index + n) b.buffer (omega arith))
        ∙ slice-append_right b.buffer _ b.reader_index b.writer_index v.ordered v.inside;
    room = omega (arith, grown-length h);
  }

  moved : Buffer
  moved = record {
    buffer = copy_to b.buffer 0 (contents b);
    reader_index = 0;
    writer_index = b.writer_index - b.reader_index;
  }

  moved-Room : n ≤ b.reader_index + (length b.buffer - b.writer_index) → Room b n moved
  unfolding moved
  moved-Room h = record {
    valid = omega (arith, moved-length);
    same = slice-copy_front b.buffer (contents b) _ (sym contents-length);
    room = omega (arith, moved-length);
  }
    where
      contents-length : length (contents b) ≡ b.writer_index - b.reader_index
      contents-length = length-slice b.reader_index b.writer_index b.buffer v.inside

      moved-length : length moved.buffer ≡ length b.buffer
      moved-length = length-copy_to b.buffer 0 (contents b) (omega (arith, contents-length))

  make_space-Room :
      length b.buffer - b.writer_index < n
      → Accepts b n
      → (b' : Buffer) × (make_space n b ≡ some b') × Room b n b'
  unfolding make_space grown moved
  make_space-Room full h = elim (dec_lt (length b.buffer - b.reader_index) n) [
    | yes p ↦ (grown, ground arith, grown-Room p)
    | no p ↦ (moved, ground arith, moved-Room (omega arith))
  ]

  ensure_write_bytes-Room :
      Accepts b n → (b' : Buffer) × (ensure_write_bytes n b ≡ some b') × Room b n b'
  unfolding ensure_write_bytes
  ensure_write_bytes-Room h = elim (dec_le n (length b.buffer - b.writer_index)) [
    | yes p ↦ (b, ground arith, record { valid = v; same = refl; room = p })
    | no p ↦ let (b', e, r) = make_space-Room (omega arith) h in (b', ground (arith, e, r), r)
  ]

-- A valid buffer of which `makeSpace` accepts the request, and whose end stays below 2^63, takes
-- the bytes: `append` returns, the contents are the old ones followed by the new bytes, and the
-- buffer stays valid.
pub append_lem :
    (bytes : List ℕ) {b : Buffer}
    → IsValid b
    → b.writer_index + length bytes < 2 ^ 63
    → Accepts b (length bytes)
    → (b' : Buffer) × (append bytes b ≡ some b') × (contents b' ≡ contents b ++ bytes) × IsValid b'
unfolding append has_written
append_lem bytes v fits h =
    let (b', e, r) = ensure_write_bytes-Room (length bytes) v fits h in
    let full : length (copy_to b'.buffer b'.writer_index bytes) ≡ length b'.buffer =
      length-copy_to b'.buffer b'.writer_index bytes (omega (arith, r.room, r.valid)) in
    (
      record b' {
        buffer = copy_to b'.buffer b'.writer_index bytes;
        writer_index = b'.writer_index + length bytes;
      },
      rw e (ground (arith, full, r.room, r.valid)),
      slice-copy_to b'.buffer bytes b'.reader_index b'.writer_index _ r.valid.ordered r.valid.inside
            refl
          ∙ ap (◌++ bytes) r.same,
      omega (arith, full, r.room, r.valid),
    )

pub contents_empty : (b : Buffer) → b.reader_index ≡ b.writer_index → contents b ≡ []
contents_empty b e = ap (λ n. take n (drop b.reader_index b.buffer)) none_left
  where
    none_left : b.writer_index - b.reader_index ≡ 0
    none_left = omega arith

append_empty-end :
    (bytes : List ℕ) {b b' : Buffer}
    → IsValid b
    → b.reader_index ≡ b.writer_index
    → b.writer_index + length bytes < 2 ^ 63
    → append bytes b ≡ some b'
    → b'.writer_index ≡ b.writer_index + length bytes
unfolding append has_written ensure_write_bytes make_space
append_empty-end bytes {b} v empty fits e = ground arith

-- A valid buffer that holds nothing takes any bytes, as long as its end stays below 2^63: they are
-- then its contents, and its end has moved by their number, however much was read before.
pub append_empty :
    (bytes : List ℕ) {b : Buffer}
    → IsValid b
    → b.reader_index ≡ b.writer_index
    → b.writer_index + length bytes < 2 ^ 63
    → (b' : Buffer) × (append bytes b ≡ some b')
      × (contents b' ≡ bytes)
      × IsValid b'
      × (b'.writer_index ≡ b.writer_index + length bytes)
append_empty bytes {b} v empty fits =
    let (b', e, more, v') = append_lem bytes v fits (omega arith) in
    (
      b',
      e,
      more ∙ ap (◌++ bytes) (contents_empty b empty),
      v',
      append_empty-end bytes v empty fits e,
    )

-- On a valid buffer, a request that exceeds the bytes already read together with the free tail,
-- but does not exceed the array less the bytes already read, makes `append` fail its assertion.
pub append_overflow :
    (bytes : List ℕ) {b : Buffer}
    → IsValid b
    → b.reader_index + (length b.buffer - b.writer_index) < length bytes
    → length bytes ≤ length b.buffer - b.reader_index
    → append bytes b ≡ none
unfolding append make_space ensure_write_bytes
append_overflow bytes {b} v short long = ground (
  arith,
  length-copy_to b.buffer 0 (contents b),
  length-slice b.reader_index b.writer_index b.buffer,
)

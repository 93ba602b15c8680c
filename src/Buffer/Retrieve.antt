-- ===== src/Buffer/Retrieve.antt =====
-- `retrieve`, `retrieveAsString`, `retrieveUntil` and `findCRLF` of twnl/Buffer.h.
use twnl.Base.{
  ℕ, suc, zero, ◌+◌, ◌-◌, ◌≤◌, ◌<◌, ◌≡◌, refl, sym, ap, ◌∙◌, none, some, List, [], ◌∷◌, arith,
  length, take, drop, get_elem?, get_elem?-lt, drop-take, drop-drop, drop_all, take-take, take_all,
  length-slice, dec_lt, ◌==◌, ◌&&◌, Bool-cases, false, inl, inr,
}
use twnl.Buffer.{
  Buffer, IsValid, contents, readable_bytes, peek, retrieve_all, retrieve, retrieve_until,
  retrieve_as_string, retrieve_all_as_string, search_crlf, find_crlf,
}

-- `n` bytes are gone from the front of `b`.
record Dropped (b : Buffer) (n : ℕ) (b' : Buffer) : Type 0 where
  valid : IsValid b'
  rest : contents b' ≡ drop n (contents b)

contents-length : {b : Buffer} → IsValid b → length (contents b) ≡ b.writer_index - b.reader_index
contents-length {b} v = length-slice b.reader_index b.writer_index b.buffer v.inside

retrieve-Dropped :
    (n : ℕ) {b : Buffer}
    → IsValid b
    → n ≤ b.writer_index - b.reader_index
    → (b' : Buffer) × (retrieve n b ≡ some b') × Dropped b n b'
unfolding retrieve retrieve_all
retrieve-Dropped n {b} v h = elim (dec_lt n (b.writer_index - b.reader_index)) [
  | yes p ↦ (
    record b { reader_index = b.reader_index + n },
    ground arith,
    record {
      valid = omega arith;
      rest = sym (
          drop-take n (b.writer_index - b.reader_index) (b.writer_index - (b.reader_index + n)) _
            (omega arith)
          ∙ ap (take (b.writer_index - (b.reader_index + n)))
              (drop-drop n b.reader_index (b.reader_index + n) b.buffer refl));
    },
  )
  | no p ↦ (
    retrieve_all b,
    ground arith,
    record {
      valid = omega arith;
      rest = sym (drop_all n (contents b) (omega (arith, contents-length v)));
    },
  )
]

-- On a valid buffer, taking `n` of the held bytes returns exactly the oldest `n`, leaves the
-- others in order, and keeps the buffer valid; asking for more than it holds fails the assertion.
pub retrieve_as_string_lem :
    (n : ℕ) {b : Buffer}
    → IsValid b
    → (n ≤ length (contents b)
        → (b' : Buffer) × (retrieve_as_string n b ≡ some (take n (contents b), b'))
          × (contents b' ≡ drop n (contents b))
          × IsValid b')
      × (length (contents b) < n → retrieve_as_string n b ≡ none)
unfolding retrieve_as_string
retrieve_as_string_lem n {b} v = (held, λ h. ground (arith, contents-length v))
  where
    held :
        n ≤ length (contents b)
        → (b' : Buffer) × (retrieve_as_string n b ≡ some (take n (contents b), b'))
          × (contents b' ≡ drop n (contents b))
          × IsValid b'
    held h =
        let (b', e, d) = retrieve-Dropped n v (omega (arith, contents-length v)) in
        (
          b',
          rw e (
              ap (λ s. some (s, b'))
                (sym (
                  take-take n (b.writer_index - b.reader_index) _
                    (omega (arith, contents-length v))))),
          d.rest,
          d.valid,
        )

-- On a valid buffer, `retrieveAllAsString` returns all the held bytes, and leaves a valid buffer
-- that holds none.
pub retrieve_all_as_string_lem :
    {b : Buffer}
    → IsValid b
    → (b' : Buffer) × (retrieve_all_as_string b ≡ some (contents b, b'))
      × (contents b' ≡ [])
      × IsValid b'
unfolding retrieve_all_as_string
retrieve_all_as_string_lem {b} v =
    let (b', e, rest, v') =
      (retrieve_as_string_lem (readable_bytes b) v).0 (omega (arith, contents-length v)) in
    (
      b',
      e
          ∙ ap (λ s. some (s, b'))
              (take_all (readable_bytes b) (contents b) (omega (arith, contents-length v))),
      rest ∙ drop_all (readable_bytes b) (contents b) (omega (arith, contents-length v)),
      v',
    )

-- A "\r\n" stands at index `i`.
abbrev pub HasCrlf : List ℕ → ℕ → Type 0
HasCrlf xs i = (get_elem? xs i ≡ some 0x0d) × (get_elem? xs (suc i) ≡ some 0x0a)

-- What `std::search` returns: the first match, or the end.
record Search (xs : List ℕ) (n : ℕ) : Type 0 where
  inside : n ≤ length xs
  first : (j : ℕ) → j < n → ¬ HasCrlf xs j
  here : n < length xs → HasCrlf xs n

not_first :
    (x y : ℕ) (xs : List ℕ) (n : ℕ)
    → ((x == 0x0d) && (y == 0x0a)) ≡ false
    → ((j : ℕ) → j < n → ¬ HasCrlf (y ∷ xs) j)
    → (j : ℕ) → j < suc n
    → ¬ HasCrlf (x ∷ y ∷ xs) j
not_first x y xs n e later zero h c = ground arith
not_first x y xs n e later (suc j) h c = later j (omega arith) c

search_crlf-Search : (xs : List ℕ) → Search xs (search_crlf xs)
unfolding search_crlf
search_crlf-Search [] = record {
  inside = omega arith;
  first = λ j h. absurd (omega arith);
  here = λ h. absurd (omega arith);
}
search_crlf-Search (x ∷ []) = record {
  inside = omega arith;
  first = λ j h c. ground arith;
  here = λ h. absurd (omega arith);
}
search_crlf-Search (x ∷ y ∷ xs) = elim (Bool-cases ((x == 0x0d) && (y == 0x0a))) [
  | inl e ↦ rw e (record {
    inside = omega arith;
    first = λ j h. absurd (omega arith);
    here = λ h. ground arith;
  })
  | inr e ↦
      let s = search_crlf-Search (y ∷ xs) in
      rw e (record {
        inside = omega (arith, s.inside);
        first = not_first x y xs (search_crlf (y ∷ xs)) e s.first;
        here = λ h. s.here (omega arith);
      })
]

-- A line search on a valid buffer. If `findCRLF` returns a position, that is the first "\r\n" of the
-- contents, and `retrieveUntil` that position succeeds, drops exactly the bytes before it and keeps
-- the buffer valid.
pub find_crlf-retrieve_until :
    (p : ℕ) {b : Buffer}
    → IsValid b
    → find_crlf b ≡ some p
    → HasCrlf (contents b) (p - peek b)
      × ((j : ℕ) → j < p - peek b → ¬ HasCrlf (contents b) j)
      × ((b' : Buffer) × (retrieve_until p b ≡ some b')
          × (contents b' ≡ drop (p - peek b) (contents b))
          × IsValid b')
unfolding find_crlf retrieve_until
find_crlf-retrieve_until p {b} v found =
    let s = search_crlf-Search (contents b) in
    let at : p ≡ b.reader_index + search_crlf (contents b) = ground arith in
    let before : search_crlf (contents b) < length (contents b) =
      ground (arith, contents-length v, s.inside) in
    let offset : p - peek b ≡ search_crlf (contents b) = omega arith in
    let (b', e, d) = retrieve-Dropped (p - peek b) v (omega (arith, contents-length v)) in
    (
      rw offset (s.here before),
      rw offset s.first,
      (b', ground (arith, e, contents-length v), d.rest, d.valid),
    )

-- If `findCRLF` returns NULL on a valid buffer, no "\r\n" stands anywhere in the contents.
pub find_crlf-none :
    {b : Buffer} → IsValid b → find_crlf b ≡ none → (j : ℕ) → ¬ HasCrlf (contents b) j
unfolding find_crlf
find_crlf-none {b} v missing j c =
    let s = search_crlf-Search (contents b) in
    let end : search_crlf (contents b) ≡ length (contents b) =
      ground (arith, contents-length v, s.inside) in
    s.first j (omega (arith, get_elem?-lt (contents b) j c.0)) c

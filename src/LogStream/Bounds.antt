-- ===== src/LogStream/Bounds.antt =====
-- Stores into the array of `FixedBuffer`, twnl/Log/LogStream.h.
use twnl.Base.{
  ℕ, ◌+◌, ◌-◌, ◌^◌, ◌≤◌, ◌<◌, leb, ltb, ◌≡◌, ◌⊎◌, refl, sym, ap, ◌∙◌, subst, if◌then◌else◌, if_true,
  if_false, pos, false, Bool-cases, inl, inr, Option, some, List, [], ◌∷◌, ◌++◌, length,
  length-append, length-copy_to, take-copy_to, take, copy_to, ◌>>=◌, arith, le→leb, ltb→lt, leb→le,
  check_passed, take-append_of_eq, append-nil,
}
use twnl.LogStream.{
  FixedBuffer, avail, to_size, at_least, add, to_string, store, append, max_numeric_size,
}

pub record IsValid (b : FixedBuffer) : Type 0 where
  pub inside : b.cur < length b.bytes
  pub small : length b.bytes < 2 ^ 31

-- What an operator makes of `text`: the array keeps its size; the text stands whole behind what was
-- there, or nothing is new; and it is printed where 32 bytes more than it needs are free.
pub record Printed (b : FixedBuffer) (text : List ℕ) (b' : FixedBuffer) : Type 0 where
  pub valid : IsValid b'
  pub size : length b'.bytes ≡ length b.bytes
  pub whole : (to_string b' ≡ to_string b ++ text) ⊎ (to_string b' ≡ to_string b)
  pub room :
      length text + max_numeric_size ≤ length b.bytes - b.cur → to_string b' ≡ to_string b ++ text

avail_pos : (b : FixedBuffer) → IsValid b → avail b ≡ pos (length b.bytes - b.cur)
avail_pos b v =
    if_true (leb b.cur (length b.bytes)) _ _
      (le→leb b.cur (length b.bytes) (omega (arith, v.inside)))

unchanged :
    (b : FixedBuffer) (text : List ℕ)
    → IsValid b
    → length b.bytes - b.cur < length text + max_numeric_size
    → Printed b text b
unchanged b text v h = record {
  valid = v;
  size = refl;
  whole = inr refl;
  room = λ k. absurd (omega (arith, h, k));
}

pub store_lem :
    (at : ℕ) (text : List ℕ) (b : FixedBuffer)
    → b.cur + at + length text ≤ length b.bytes
    → store at text b ≡ some (record b { bytes = copy_to b.bytes (b.cur + at) text })
unfolding store
store_lem at text b h = check_passed _ _ (le→leb (b.cur + at + length text) (length b.bytes) h)

-- Storing a text and more behind it, and moving over the text.
pub stored :
    (text more : List ℕ) (b : FixedBuffer)
    → IsValid b
    → length text < length b.bytes - b.cur
    → length text + length more ≤ length b.bytes - b.cur
    → Printed b text
        (add (length text) (record b { bytes = copy_to b.bytes (b.cur + 0) (text ++ more) }))
stored text more b v h k =
    let size : length (copy_to b.bytes (b.cur + 0) (text ++ more)) ≡ length b.bytes =
      length-copy_to b.bytes (b.cur + 0) (text ++ more)
        (omega (arith, v.inside, h, k, length-append text more)) in
    let whole : take (b.cur + length text) (copy_to b.bytes (b.cur + 0) (text ++ more))
        ≡ to_string b ++ text =
      take-copy_to b.bytes (text ++ more) (b.cur + 0) (length text) (b.cur + length text)
        (omega arith) (omega (arith, v.inside)) (omega (arith, length-append text more))
      ∙ ap (λ n. take n b.bytes ++ take (length text) (text ++ more)) (omega arith)
      ∙ ap (to_string b ++◌) (take-append_of_eq (length text) text more refl) in
    record {
      valid = record {
        inside = omega (arith, size, v.inside, h);
        small = omega (arith, size, v.small);
      };
      size = size;
      whole = inl whole;
      room = λ _. whole;
    }

pub append_lem :
    (text : List ℕ) (b : FixedBuffer)
    → IsValid b
    → (b' : FixedBuffer) × (append text b ≡ some b') × Printed b text b'
unfolding append
append_lem text b v =
    let free : to_size (avail b) ≡ length b.bytes - b.cur = ap to_size (avail_pos b v) in
    elim (Bool-cases (ltb (length text) (to_size (avail b)))) [
      | inl h ↦
          let fits : length text < length b.bytes - b.cur =
            subst (length text <◌) free (ltb→lt _ _ h) in
          (
            add (length text) (record b { bytes = copy_to b.bytes (b.cur + 0) (text ++ []) }),
            if_true _ _ _ h
                ∙ rw (append-nil text) (
                    ap (◌>>= λ b1. some (add (length text) b1))
                      (store_lem 0 text b (omega (arith, v.inside, fits)))),
            stored text [] b v fits (omega (arith, fits)),
          )
      | inr h ↦ (b, if_false _ _ _ h, unchanged b text v (ground (arith, h, free)))
    ]

-- The test that the operators for numbers make.
numeric_room :
    (b : FixedBuffer) (v : IsValid b)
    → at_least max_numeric_size (avail b) ≡ leb max_numeric_size (length b.bytes - b.cur)
numeric_room b v = ap (at_least max_numeric_size) (avail_pos b v)

module _ (b : FixedBuffer) (v : IsValid b) (text : List ℕ)
    (short : length text < max_numeric_size) where
  -- An operator that tests for 32 free bytes, and prints by `print`.
  pub numeric :
      (print : Option FixedBuffer) (b1 : FixedBuffer)
      → (max_numeric_size ≤ length b.bytes - b.cur → (print ≡ some b1) × Printed b text b1)
      → (b' : FixedBuffer) × ((if at_least max_numeric_size (avail b) then print else some b)
          ≡ some b')
        × Printed b text b'
  numeric print b1 h = elim (Bool-cases (at_least max_numeric_size (avail b))) [
    | inl room ↦
        let done = h (leb→le _ _ (sym (numeric_room b v) ∙ room)) in
        (b1, if_true _ _ _ room ∙ done.0, done.1)
    | inr full ↦
        let narrow : leb max_numeric_size (length b.bytes - b.cur) ≡ false =
          sym (numeric_room b v) ∙ full in
        (b, if_false _ _ _ full, unchanged b text v (ground (arith, narrow)))
  ]

  -- A text and its final 0.
  pub store_text :
      max_numeric_size ≤ length b.bytes - b.cur
      → store 0 (text ++ 0 ∷ []) b
        ≡ some (record b { bytes = copy_to b.bytes (b.cur + 0) (text ++ 0 ∷ []) })
  store_text room =
      store_lem 0 (text ++ 0 ∷ []) b
        (omega (arith, room, v.inside, short, length-append text (0 ∷ [])))

  pub stored_text :
      max_numeric_size ≤ length b.bytes - b.cur
      → Printed b text
          (add (length text) (record b { bytes = copy_to b.bytes (b.cur + 0) (text ++ 0 ∷ []) }))
  stored_text room =
      stored text (0 ∷ []) b v (omega (arith, room, short)) (omega (arith, room, short))

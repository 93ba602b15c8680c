-- ===== src/LogStream/Chains.antt =====
-- What a chain of the operators of twnl/Log/LogStream.h prints.
use twnl.Base.{
  ℕ, ◌+◌, ◌-◌, ◌<◌, leb, ◌≡◌, ◌⊎◌, refl, sym, ap, ◌∙◌, subst, Bool-cases, inl, inr, some, List, [],
  ◌∷◌, ◌++◌, length, length-append, length-take, ◌>>=◌, arith, append_assoc, append-nil, leb→le,
}
use twnl.LogStream.{FixedBuffer, to_string, max_numeric_size, Item, put_all}
use twnl.LogStream.Operators.{Shows, AllFit, put-Printed}
use twnl.LogStream.Bounds.{IsValid, Printed}

-- A text that shows the operands in their order, printed where `room` bytes are free: each operand
-- whole, or left out, which happens only to one that does not leave 32 bytes free.
unfoldable pub Written : ℕ → List Item → List ℕ → Type 0
Written room [] text = text ≡ []
Written room (i ∷ is) text =
    (piece : List ℕ) × Shows i piece
    × (((rest : List ℕ) × (text ≡ piece ++ rest) × Written (room - length piece) is rest)
        ⊎ ((room < length piece + max_numeric_size) × Written room is text))

length-to_string : (b : FixedBuffer) → IsValid b → length (to_string b) ≡ b.cur
length-to_string b v = omega (arith, length-take b.cur b.bytes, v.inside)

abbrev free : FixedBuffer → ℕ
free b = length b.bytes - b.cur

-- What a chain of operators makes of a buffer.
pub record Chained (is : List Item) (b b' : FixedBuffer) (more : List ℕ) : Type 0 where
  pub valid : IsValid b'
  pub size : length b'.bytes ≡ length b.bytes
  pub behind : to_string b' ≡ to_string b ++ more
  pub written : Written (free b) is more

module _ (i : Item) (is : List Item) (b b1 b' : FixedBuffer) (piece rest : List ℕ)
    (shows : Shows i piece) (v : IsValid b) (p : Printed b piece b1)
    (c : Chained is b1 b' rest) where
  -- The operand is printed.
  printed-Chained : to_string b1 ≡ to_string b ++ piece → Chained (i ∷ is) b b' (piece ++ rest)
  unfolding Written
  printed-Chained e =
      let moved : free b1 ≡ free b - length piece = omega (
        arith,
        length-to_string b v,
        length-to_string b1 p.valid,
        p.size,
        ap length e,
        length-append (to_string b) piece,
      ) in
      record {
        valid = c.valid;
        size = c.size ∙ p.size;
        behind = c.behind ∙ ap (◌++ rest) e ∙ append_assoc (to_string b) piece rest;
        written = (piece, shows, inl (rest, refl, subst (λ n. Written n is rest) moved c.written));
      }

  -- The operand is left out.
  left_out-Chained :
      to_string b1 ≡ to_string b
      → free b < length piece + max_numeric_size
      → Chained (i ∷ is) b b' rest
  unfolding Written
  left_out-Chained e narrow =
      let same : free b1 ≡ free b =
        omega (arith, length-to_string b v, length-to_string b1 p.valid, p.size, ap length e) in
      record {
        valid = c.valid;
        size = c.size ∙ p.size;
        behind = c.behind ∙ ap (◌++ rest) e;
        written = (piece, shows, inr (narrow, subst (λ n. Written n is rest) same c.written));
      }

  put-Chained : (more : List ℕ) × Chained (i ∷ is) b b' more
  put-Chained = elim (Bool-cases (leb (length piece + max_numeric_size) (free b))) [
    | inl room ↦ (piece ++ rest, printed-Chained (p.room (leb→le _ _ room)))
    | inr narrow ↦ elim p.whole [
      | inl e ↦ (piece ++ rest, printed-Chained e)
      | inr e ↦ (rest, left_out-Chained e (ground (arith, narrow)))
    ]
  ]

-- However many operators are chained, no store leaves the array, and behind what was printed before
-- stands what the chain has written.
pub put_all-Chained :
    (is : List Item) (b : FixedBuffer)
    → AllFit is
    → IsValid b
    → (b' : FixedBuffer) × (more : List ℕ) × (put_all is b ≡ some b') × Chained is b b' more
unfolding put_all AllFit Written
put_all-Chained [] b f ok = (
  b,
  [],
  refl,
  record { valid = ok; size = refl; behind = sym (append-nil (to_string b)); written = refl },
)
put_all-Chained (i ∷ is) b (f, fs) ok =
    let (piece, b1, shows, runs, printed) = put-Printed i b f ok in
    let (b', rest, more, chained) = put_all-Chained is b1 fs printed.valid in
    let (text, all) = put-Chained i is b b1 b' piece rest shows ok printed chained in
    (b', text, ap (◌>>= put_all is) runs ∙ more, all)

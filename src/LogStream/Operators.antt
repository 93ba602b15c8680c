-- ===== src/LogStream/Operators.antt =====
-- The operators of twnl/Log/LogStream.h and twnl/Log/LogStream.cc, one by one and in a chain.
use twnl.Base.{
  ℕ, ◌+◌, ◌-◌, ◌^◌, ◌≤◌, ◌<◌, ◌≡◌, refl, ap, ◌∙◌, if◌then◌else◌, ℤ, none, some, List, [], ◌∷◌, ◌++◌,
  length, length-append, length-copy_to, take_all, copy_to, ◌>>=◌, arith, copy_to-copy_to,
}
use twnl.LogStream.{
  FixedBuffer, add, to_string, store, format_integer, put_pointer, put_double, max_numeric_size,
  Item, bool_item, integer_item, pointer_item, double_item, char_item, c_string_item, string_item,
  buffer_item, thread_id_item, put,
}
use twnl.LogStream.Convert.{convert_hex}
use twnl.LogStream.Decimal.{magnitude, read_integer, convert-read_integer}
use twnl.LogStream.Radix.{read}
use twnl.LogStream.Hex.{hex_value, convert_hex-read}
use twnl.LogStream.Bounds.{
  IsValid, Printed, store_lem, append_lem, numeric, store_text, stored_text,
}

-- What a text says of the operand that it was printed for.
unfoldable pub Shows : Item → List ℕ → Type 0
unfolding read_integer
Shows (bool_item v) text = text ≡ (if v then b'1' else b'0') ∷ []
Shows (integer_item v) text = read_integer text ≡ v
Shows (pointer_item p) text =
    (hex : List ℕ) × (text ≡ b'0' ∷ b'x' ∷ hex) × (read 16 hex_value 0 hex ≡ p)
Shows (double_item t) text = text ≡ t
Shows (char_item c) text = text ≡ c ∷ []
Shows (c_string_item none) text = text ≡ b'(' ∷ b'n' ∷ b'u' ∷ b'l' ∷ b'l' ∷ b')' ∷ []
Shows (c_string_item (some t)) text = text ≡ t
Shows (string_item t) text = text ≡ t
Shows (buffer_item v) text = text ≡ to_string v
Shows (thread_id_item own id) text = text ≡ b' ' ∷ own ++ b' ' ∷ []

-- Every operand of the source's types: integers of at most 64 bits are below 10^20, and "%.12g" makes
-- fewer than 32 characters.
unfoldable pub Fits : Item → Type 0
Fits (integer_item v) = magnitude v < 10 ^ 20
Fits (pointer_item p) = p < 2 ^ 64
Fits (double_item text) = length text < max_numeric_size
Fits _ = Unit {0}

integer_lem :
    (v : ℤ) (b : FixedBuffer)
    → magnitude v < 10 ^ 20
    → IsValid b
    → (text : List ℕ) × (b' : FixedBuffer) × (read_integer text ≡ v)
      × (format_integer v b ≡ some b')
      × Printed b text b'
unfolding format_integer
integer_lem v b small ok =
    let (text, converts, reads, short) = convert-read_integer v small in
    let (b', runs, printed) = numeric b ok text (omega (arith, short)) _ _ λ room. (
      ap (◌>>= λ out. store 0 (out ++ 0 ∷ []) b >>= λ b1. some (add (length out) b1)) converts
          ∙ ap (◌>>= λ b1. some (add (length text) b1))
              (store_text b ok text (omega (arith, short)) room),
      stored_text b ok text (omega (arith, short)) room,
    ) in
    (text, b', reads, runs, printed)

double_lem :
    (text : List ℕ) (b : FixedBuffer)
    → length text < max_numeric_size
    → IsValid b
    → (b' : FixedBuffer) × (put_double text b ≡ some b') × Printed b text b'
unfolding put_double
double_lem text b short ok = numeric b ok text short _ _ λ room. (
  rw (take_all (max_numeric_size - 1) text (omega (arith, short)))
      (ap (◌>>= λ b1. some (add (length text) b1)) (store_text b ok text short room)),
  stored_text b ok text short room,
)

-- The buffer after the store of "0x".
abbrev prefixed : FixedBuffer → FixedBuffer
prefixed b = record b { bytes = copy_to b.bytes (b.cur + 0) (b'0' ∷ b'x' ∷ []) }

store_behind :
    (hex : List ℕ) (b : FixedBuffer)
    → IsValid b
    → max_numeric_size ≤ length b.bytes - b.cur
    → length hex ≤ 20
    → store 2 (hex ++ 0 ∷ []) (prefixed b)
      ≡ some (record b { bytes = copy_to b.bytes (b.cur + 0) (b'0' ∷ b'x' ∷ hex ++ 0 ∷ []) })
store_behind hex b ok room short =
    let size : length (prefixed b).bytes ≡ length b.bytes =
      length-copy_to b.bytes (b.cur + 0) (b'0' ∷ b'x' ∷ []) (omega (arith, ok.inside, room)) in
    store_lem 2 (hex ++ 0 ∷ []) (prefixed b)
      (omega (arith, size, ok.inside, room, short, length-append hex (0 ∷ [])))
    ∙ ap (λ s. some (record b { bytes = s }))
        (copy_to-copy_to b.bytes (b'0' ∷ b'x' ∷ []) (hex ++ 0 ∷ []) (b.cur + 0) (b.cur + 2)
          (omega arith) (omega (arith, ok.inside)))

pointer_lem :
    (p : ℕ) (b : FixedBuffer)
    → p < 2 ^ 64
    → IsValid b
    → (hex : List ℕ) × (b' : FixedBuffer) × (read 16 hex_value 0 hex ≡ p)
      × (put_pointer p b ≡ some b')
      × Printed b (b'0' ∷ b'x' ∷ hex) b'
unfolding put_pointer
pointer_lem p b small ok =
    let (hex, converts, reads, short) = convert_hex-read p small in
    let text : List ℕ = b'0' ∷ b'x' ∷ hex in
    let few : length text < max_numeric_size = omega (arith, short) in
    let (b', runs, printed) = numeric b ok text few _ _ λ room. (
      ap
            (◌>>= λ b1. convert_hex p >>= λ out.
              store 2 (out ++ 0 ∷ []) b1 >>= λ b2. some (add (length out + 2) b2))
            (store_lem 0 (b'0' ∷ b'x' ∷ []) b (omega (arith, ok.inside, room)))
          ∙ ap
              (◌>>= λ out.
                store 2 (out ++ 0 ∷ []) (prefixed b) >>= λ b2. some (add (length out + 2) b2))
              converts
          ∙ ap (◌>>= λ b2. some (add (length hex + 2) b2)) (store_behind hex b ok room short)
          ∙ ap
              (λ n.
                some (add n (record b { bytes = copy_to b.bytes (b.cur + 0) (text ++ 0 ∷ []) })))
              (omega arith),
      stored_text b ok text few room,
    ) in
    (hex, b', reads, runs, printed)

pub put-Printed :
    (i : Item) (b : FixedBuffer)
    → Fits i
    → IsValid b
    → (text : List ℕ) × (b' : FixedBuffer) × Shows i text × (put i b ≡ some b') × Printed b text b'
unfolding put Shows Fits
put-Printed (bool_item v) b f ok =
    let (b', runs, printed) = append_lem ((if v then b'1' else b'0') ∷ []) b ok in
    (_, b', refl, runs, printed)
put-Printed (integer_item v) b f ok = integer_lem v b f ok
put-Printed (pointer_item p) b f ok =
    let (hex, b', reads, runs, printed) = pointer_lem p b f ok in
    (b'0' ∷ b'x' ∷ hex, b', (hex, refl, reads), runs, printed)
put-Printed (double_item text) b f ok =
    let (b', runs, printed) = double_lem text b f ok in (text, b', refl, runs, printed)
put-Printed (char_item c) b f ok =
    let (b', runs, printed) = append_lem (c ∷ []) b ok in (_, b', refl, runs, printed)
put-Printed (c_string_item none) b f ok =
    let (b', runs, printed) = append_lem (b'(' ∷ b'n' ∷ b'u' ∷ b'l' ∷ b'l' ∷ b')' ∷ []) b ok in
    (_, b', refl, runs, printed)
put-Printed (c_string_item (some t)) b f ok =
    let (b', runs, printed) = append_lem t b ok in (t, b', refl, runs, printed)
put-Printed (string_item t) b f ok =
    let (b', runs, printed) = append_lem t b ok in (t, b', refl, runs, printed)
put-Printed (buffer_item v) b f ok =
    let (b', runs, printed) = append_lem (to_string v) b ok in
    (to_string v, b', refl, runs, printed)
put-Printed (thread_id_item own id) b f ok =
    let (b', runs, printed) = append_lem (b' ' ∷ own ++ b' ' ∷ []) b ok in
    (_, b', refl, runs, printed)

unfoldable pub AllFit : List Item → Type 0
AllFit [] = Unit {0}
AllFit (i ∷ is) = Fits i × AllFit is

-- ===== src/LogStream.antt =====
-- twnl/Log/LogStream.h and twnl/Log/LogStream.cc: a buffer of fixed size, and the operators that print
-- into it. `none` is a store outside the array.
pub mod Convert
pub mod Radix
pub mod Decimal
pub mod Hex
pub mod Bounds
pub mod Operators
pub mod Chains
mod Tests
use twnl.Base.{
  ℕ, ◌+◌, ◌-◌, ◌^◌, min, leb, ltb, if◌then◌else◌, ℤ, pos, negsuc, Bool, true, false, Option, none,
  some, List, [], ◌∷◌, ◌++◌, length, take, copy_to, check, ◌>>=◌, ◌>>◌,
}
use Convert.{convert, convert_hex}

abbrev pub small_buffer : ℕ
small_buffer = 4000

abbrev pub max_numeric_size : ℕ
max_numeric_size = 32

-- `data_` and the offset of `cur_`.
pub record FixedBuffer : Type 0 where
  pub bytes : List ℕ
  pub cur : ℕ

-- The array is not initialised: `bytes` is what it happens to hold.
abbrev pub new : List ℕ → FixedBuffer
new bytes = record { bytes = bytes; cur = 0 }

abbrev pub avail : FixedBuffer → ℤ
avail b =
    if leb b.cur (length b.bytes)
    then pos (length b.bytes - b.cur)
    else negsuc (b.cur - length b.bytes - 1)

-- `static_cast<size_t>`
abbrev pub to_size : ℤ → ℕ
to_size (pos n) = n
to_size (negsuc n) = 2 ^ 64 - 1 - n

abbrev pub at_least : ℕ → ℤ → Bool
at_least n (pos k) = leb n k
at_least n (negsuc k) = false

abbrev pub add : ℕ → FixedBuffer → FixedBuffer
add len b = record b { cur = b.cur + len }

abbrev pub reset : FixedBuffer → FixedBuffer
reset b = record b { cur = 0 }

-- `toString`
abbrev pub to_string : FixedBuffer → List ℕ
to_string b = take b.cur b.bytes

-- Stores behind `cur_ + at`.
unfoldable pub store : ℕ → List ℕ → FixedBuffer → Option FixedBuffer
store at text b = do
  check (leb (b.cur + at + length text) (length b.bytes))
  some (record b { bytes = copy_to b.bytes (b.cur + at) text })

unfoldable pub append : List ℕ → FixedBuffer → Option FixedBuffer
unfolding store
append text b =
    if ltb (length text) (to_size (avail b))
    then (store 0 text b >>= λ b1. some (add (length text) b1))
    else some b

unfoldable pub format_integer : ℤ → FixedBuffer → Option FixedBuffer
unfolding store
format_integer v b =
    if at_least max_numeric_size (avail b)
    then (convert v >>= λ text. store 0 (text ++ 0 ∷ []) b >>= λ b1. some (add (length text) b1))
    else some b

unfoldable pub put_pointer : ℕ → FixedBuffer → Option FixedBuffer
unfolding store
put_pointer p b =
    if at_least max_numeric_size (avail b)
    then (store 0 (b'0' ∷ b'x' ∷ []) b >>= λ b1. convert_hex p >>= λ text.
        store 2 (text ++ 0 ∷ []) b1 >>= λ b2. some (add (length text + 2) b2))
    else some b

-- `text` is what the format "%.12g" makes of the number.
unfoldable pub put_double : List ℕ → FixedBuffer → Option FixedBuffer
unfolding store
put_double text b =
    if at_least max_numeric_size (avail b)
    then (store 0 (take (max_numeric_size - 1) text ++ 0 ∷ []) b >>= λ b1.
        some (add (length text) b1))
    else some b

unfoldable pub put_bool : Bool → FixedBuffer → Option FixedBuffer
unfolding append
put_bool v = append ((if v then b'1' else b'0') ∷ [])

unfoldable pub put_char : ℕ → FixedBuffer → Option FixedBuffer
unfolding append
put_char c = append (c ∷ [])

-- `none` is the null pointer; the text has no final 0.
unfoldable pub put_c_string : Option (List ℕ) → FixedBuffer → Option FixedBuffer
unfolding append
put_c_string none = append (b'(' ∷ b'n' ∷ b'u' ∷ b'l' ∷ b'l' ∷ b')' ∷ [])
put_c_string (some text) = append text

-- The operator for a thread's id prints the id of the thread that runs it, `own`.
unfoldable pub put_thread_id : List ℕ → List ℕ → FixedBuffer → Option FixedBuffer
unfolding append
put_thread_id own id = append (b' ' ∷ own ++ b' ' ∷ [])

-- The operands of `<<`.
pub data Item : Type 0 where
  bool_item : Bool → Item
  integer_item : ℤ → Item
  pointer_item : ℕ → Item
  double_item : List ℕ → Item
  char_item : ℕ → Item
  c_string_item : Option (List ℕ) → Item
  string_item : List ℕ → Item
  buffer_item : FixedBuffer → Item
  thread_id_item : List ℕ → List ℕ → Item

unfoldable pub put : Item → FixedBuffer → Option FixedBuffer
unfolding put_bool format_integer put_pointer put_double put_char put_c_string append put_thread_id
put (bool_item v) b = put_bool v b
put (integer_item v) b = format_integer v b
put (pointer_item p) b = put_pointer p b
put (double_item text) b = put_double text b
put (char_item c) b = put_char c b
put (c_string_item s) b = put_c_string s b
put (string_item s) b = append s b
put (buffer_item v) b = append (to_string v) b
put (thread_id_item own id) b = put_thread_id own id b

-- A chain of operators.
unfoldable pub put_all : List Item → FixedBuffer → Option FixedBuffer
unfolding put
put_all [] b = some b
put_all (i ∷ is) b = put i b >>= put_all is

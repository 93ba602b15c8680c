-- ===== src/LogStream/Tests.antt =====
-- The stream of twnl/Log/LogStream.cc on concrete operands.
use twnl.Base.{ℕ, ◌≤◌, ◌≡◌, refl, none, some, List, [], ◌∷◌, arith, length, negsuc}
use twnl.LogStream.{FixedBuffer, Item, pointer_item, c_string_item}
use twnl.LogStream.Convert.{convert, convert_hex}
use twnl.LogStream.Decimal.{read_integer, convert-read_integer}
use twnl.LogStream.Operators.{AllFit, Fits}

convert-read_integer_example :
    (text : List ℕ) × (convert (negsuc 41) ≡ some text)
    × (read_integer text ≡ negsuc 41)
    × (length text ≤ 21)
convert-read_integer_example = convert-read_integer (negsuc 41) (omega arith)

minus_42 : convert (negsuc 41) ≡ some (b'-' ∷ b'4' ∷ b'2' ∷ [])
unfolding convert
minus_42 = refl

beef : convert_hex 48879 ≡ some (b'B' ∷ b'E' ∷ b'E' ∷ b'F' ∷ [])
unfolding convert_hex
beef = refl

-- 40 bytes, with "x" printed.
abbrev forty : FixedBuffer
forty = record {
  bytes =
      b'x' ∷ 0 ∷ 0 ∷ 0 ∷ 0 ∷ 0 ∷ 0 ∷ 0 ∷ 0 ∷ 0 ∷ 0 ∷ 0 ∷ 0 ∷ 0 ∷ 0 ∷ 0 ∷ 0 ∷ 0 ∷ 0 ∷ 0 ∷ 0 ∷ 0 ∷ 0
      ∷ 0 ∷ 0 ∷ 0 ∷ 0 ∷ 0 ∷ 0 ∷ 0 ∷ 0 ∷ 0 ∷ 0 ∷ 0 ∷ 0 ∷ 0 ∷ 0 ∷ 0 ∷ 0 ∷ 0 ∷ [];
  cur = 1;
}

abbrev two : List Item
two = pointer_item 48879 ∷ c_string_item none ∷ []

two_fit : AllFit two
unfolding AllFit Fits
two_fit = (omega arith, (tt, tt))

-- ===== src/LogStream/Convert.antt =====
-- The conversions of integers to text in twnl/Log/LogStream.cc.
-- The loops write behind `buf`; the text written so far is the list. The rounds are bounded by `fuel`:
-- 20, as many digits as a 64-bit integer has; `none` is a read outside a table, or no fuel left.
use mathlib.Core.List.{reverse}
use twnl.Base.{
  ℕ, zero, suc, ◌+◌, ◌-◌, ◌/◌, ◌%◌, ◌==◌, ltb, if◌then◌else◌, ℤ, pos, negsuc, Bool, true, false,
  Option, none, some, List, [], ◌∷◌, ◌++◌, get_elem?, ◌>>=◌,
}

-- "9876543210123456789", with `zero` at its middle
abbrev pub digits : List ℕ
digits =
    57 ∷ 56 ∷ 55 ∷ 54 ∷ 53 ∷ 52 ∷ 51 ∷ 50 ∷ 49 ∷ 48 ∷ 49 ∷ 50 ∷ 51 ∷ 52 ∷ 53 ∷ 54 ∷ 55 ∷ 56 ∷ 57
    ∷ []

-- "0123456789ABCDEF"
abbrev pub digits_hex : List ℕ
digits_hex = 48 ∷ 49 ∷ 50 ∷ 51 ∷ 52 ∷ 53 ∷ 54 ∷ 55 ∷ 56 ∷ 57 ∷ 65 ∷ 66 ∷ 67 ∷ 68 ∷ 69 ∷ 70 ∷ []

-- `zero[lsd]`
abbrev pub zero_at : ℤ → Option ℕ
zero_at (pos d) = get_elem? digits (9 + d)
zero_at (negsuc d) = if ltb d 9 then get_elem? digits (8 - d) else none

-- -n
abbrev pub neg : ℕ → ℤ
neg zero = pos 0
neg (suc n) = negsuc n

-- `i % 10` and `i / 10`, which round towards 0
abbrev pub rem10 : ℤ → ℤ
rem10 (pos n) = pos (n % 10)
rem10 (negsuc n) = neg (suc n % 10)

abbrev pub quot10 : ℤ → ℤ
quot10 (pos n) = pos (n / 10)
quot10 (negsuc n) = neg (suc n / 10)

abbrev pub is_zero : ℤ → Bool
is_zero (pos n) = n == 0
is_zero (negsuc n) = false

abbrev pub is_negative : ℤ → Bool
is_negative (pos n) = false
is_negative (negsuc n) = true

unfoldable pub convert_loop : ℕ → ℤ → List ℕ → Option (List ℕ)
convert_loop zero i out = none
convert_loop (suc fuel) i out = zero_at (rem10 i) >>= λ c.
    let rest = convert_loop fuel (quot10 i) (out ++ c ∷ []) in
    if is_zero (quot10 i) then some (out ++ c ∷ []) else rest

abbrev pub max_digits : ℕ
max_digits = 20

-- The text without its final 0.
unfoldable pub convert : ℤ → Option (List ℕ)
unfolding convert_loop
convert value = convert_loop max_digits value [] >>= λ out.
    some (reverse (if is_negative value then out ++ b'-' ∷ [] else out))

unfoldable pub convert_hex_loop : ℕ → ℕ → List ℕ → Option (List ℕ)
convert_hex_loop zero i out = none
convert_hex_loop (suc fuel) i out = get_elem? digits_hex (i % 16) >>= λ c.
    let rest = convert_hex_loop fuel (i / 16) (out ++ c ∷ []) in
    if i / 16 == 0 then some (out ++ c ∷ []) else rest

unfoldable pub convert_hex : ℕ → Option (List ℕ)
unfolding convert_hex_loop
convert_hex value = convert_hex_loop max_digits value [] >>= λ out. some (reverse out)

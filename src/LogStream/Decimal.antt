-- ===== src/LogStream/Decimal.antt =====
-- What twnl/Log/LogStream.cc writes for an integer reads as the integer.
use mathlib.Core.List.{reverse, reverse-append}
use native.Mathlib.Nat.{pow-suc}
use twnl.Base.{
  ℕ, zero, suc, ◌+◌, ◌-◌, ◌/◌, ◌%◌, ◌^◌, ◌≤◌, ◌<◌, ◌==◌, ◌≡◌, refl, sym, ap, ◌∙◌, if◌then◌else◌, ℤ,
  pos, negsuc, Bool, true, false, Bool-cases, inl, inr, ◌&&◌, not, if_false, some, List, [], ◌∷◌,
  ◌++◌, length, length-append, length-reverse, append_assoc, arith, ◌>>=◌,
}
use twnl.LogStream.Convert.{zero_at, neg, rem10, quot10, is_zero, convert_loop, convert}
use twnl.LogStream.Radix.{
  passes_from, passes_from-at, gives, gives-some, read, low_first, read-low_first, length-low_first,
}

-- The character of a decimal digit, and what a character stands for.
abbrev pub dec_digit : ℕ → ℕ
dec_digit d = 48 + d

abbrev pub dec_value : ℕ → ℕ
dec_value c = c - 48

-- The integer of the magnitude `n` on the side of 0 that `minus` says.
abbrev signed : Bool → ℕ → ℤ
signed true n = neg n
signed false n = pos n

-- The table gives the digit of `d` on both sides of its middle.
abbrev both_sides : ℕ → Bool
both_sides d = gives (zero_at (pos d)) (dec_digit d) && gives (zero_at (neg d)) (dec_digit d)

digits_table : passes_from both_sides 0 10 ≡ true
unfolding passes_from
digits_table = refl

zero_at_digit :
    (d : ℕ)
    → d < 10
    → (zero_at (pos d) ≡ some (dec_digit d)) × (zero_at (neg d) ≡ some (dec_digit d))
zero_at_digit d h =
    let both = passes_from-at both_sides 0 10 d (omega arith) (omega (arith, h)) digits_table in
    (gives-some _ _ (and_left _ _ both), gives-some _ _ (and_right _ _ both))
  where
    and_left : (a b : Bool) → a && b ≡ true → a ≡ true
    and_left true b e = refl
    and_left false b e = e

    and_right : (a b : Bool) → a && b ≡ true → b ≡ true
    and_right true b e = e
    and_right false b e = absurd (cc e)

rem10-signed : (minus : Bool) (n : ℕ) → rem10 (signed minus n) ≡ signed minus (n % 10)
rem10-signed false n = refl
rem10-signed true zero = refl
rem10-signed true (suc n) = refl

zero_at-signed :
    (minus : Bool) (n : ℕ) → zero_at (rem10 (signed minus n)) ≡ some (dec_digit (n % 10))
zero_at-signed false n = (zero_at_digit (n % 10) (omega arith)).0
zero_at-signed true n = ap zero_at (rem10-signed true n) ∙ (zero_at_digit (n % 10) (omega arith)).1

quot10-signed : (minus : Bool) (n : ℕ) → quot10 (signed minus n) ≡ signed minus (n / 10)
quot10-signed false n = refl
quot10-signed true zero = refl
quot10-signed true (suc n) = refl

is_zero-signed : (minus : Bool) (n : ℕ) → is_zero (signed minus n) ≡ (n == 0)
is_zero-signed false n = refl
is_zero-signed true zero = refl
is_zero-signed true (suc n) = ground arith

-- One round of the loop.
convert_loop_round :
    (minus : Bool) (fuel n : ℕ) (out : List ℕ)
    → convert_loop (suc fuel) (signed minus n) out ≡ (
        if n / 10 == 0
        then some (out ++ dec_digit (n % 10) ∷ [])
        else convert_loop fuel (signed minus (n / 10)) (out ++ dec_digit (n % 10) ∷ []))
unfolding convert_loop
convert_loop_round minus fuel n out =
    rw (convert_loop, zero_at-signed minus n, quot10-signed minus n, is_zero-signed minus (n / 10))
      refl

convert_loop_lem :
    (minus : Bool) (fuel n : ℕ) (out : List ℕ)
    → n < 10 ^ suc fuel
    → convert_loop (suc fuel) (signed minus n) out
      ≡ some (out ++ low_first 10 dec_digit (suc fuel) n)
unfolding low_first
convert_loop_lem minus zero n out h =
    let e : (n / 10 == 0) ≡ true = ground (arith, h) in
    convert_loop_round minus zero n out ∙ rw e refl
convert_loop_lem minus (suc fuel) n out h = elim (Bool-cases (n / 10 == 0)) [
  | inl e ↦ convert_loop_round minus (suc fuel) n out ∙ rw e refl
  | inr e ↦
      let c : ℕ = dec_digit (n % 10) in
      convert_loop_round minus (suc fuel) n out
      ∙ if_false (n / 10 == 0) _ _ e
      ∙ convert_loop_lem minus fuel (n / 10) (out ++ c ∷ []) (omega (arith, h))
      ∙ ap some (append_assoc out (c ∷ []) (low_first 10 dec_digit (suc fuel) (n / 10)))
      ∙ ap (λ t. some (out ++ c ∷ t))
          (sym (if_false (n / 10 == 0) [] (low_first 10 dec_digit (suc fuel) (n / 10)) e))
]

-- An integer as a text: an optional minus, and decimal digits.
unfoldable pub read_integer : List ℕ → ℤ
unfolding read
read_integer [] = pos 0
read_integer (c ∷ cs) =
    if c == b'-' then neg (read 10 dec_value 0 cs) else pos (read 10 dec_value 0 (c ∷ cs))

abbrev pub magnitude : ℤ → ℕ
magnitude (pos n) = n
magnitude (negsuc n) = suc n

no_minus : List ℕ → Bool
no_minus [] = true
no_minus (c ∷ cs) = not (c == b'-') && no_minus cs

no_minus-snoc :
    (cs : List ℕ) (c : ℕ)
    → no_minus cs ≡ true
    → (c == b'-') ≡ false
    → no_minus (cs ++ c ∷ []) ≡ true
unfolding no_minus
no_minus-snoc [] c h e = rw e refl
no_minus-snoc (x ∷ xs) c h e = ground (arith, h, no_minus-snoc xs c, e)

no_minus-low_first : (fuel n : ℕ) → no_minus (reverse (low_first 10 dec_digit fuel n)) ≡ true
unfolding low_first no_minus
no_minus-low_first zero n = refl
no_minus-low_first (suc fuel) n = elim (Bool-cases (n / 10 == 0)) [
  | inl e ↦ rw e (ground arith)
  | inr e ↦ rw e (
      ap no_minus (reverse-append (dec_digit (n % 10) ∷ []) (low_first 10 dec_digit fuel (n / 10)))
      ∙ no_minus-snoc (reverse (low_first 10 dec_digit fuel (n / 10))) (dec_digit (n % 10))
          (no_minus-low_first fuel (n / 10)) (ground arith))
]

read_integer-digits :
    (cs : List ℕ) → no_minus cs ≡ true → read_integer cs ≡ pos (read 10 dec_value 0 cs)
unfolding read_integer no_minus read
read_integer-digits [] h = refl
read_integer-digits (c ∷ cs) h = ground (arith, h)

-- The text of "%d" and "%u" for a number that is not negative.
unfoldable pub decimal : ℕ → List ℕ
unfolding low_first
decimal n = reverse (low_first 10 dec_digit 20 n)

reads_digits :
    (n : ℕ) → n < 10 ^ 20 → read 10 dec_value 0 (reverse (low_first 10 dec_digit 20 n)) ≡ n
reads_digits n h = read-low_first 10 (omega arith) dec_digit dec_value (λ d k. omega arith) 20 n h

length-low_first_lt :
    (k fuel n : ℕ) → n < 10 ^ suc k → length (low_first 10 dec_digit fuel n) ≤ suc k
unfolding low_first
length-low_first_lt k zero n h = omega arith
length-low_first_lt zero (suc fuel) n h = ground (arith, h)
length-low_first_lt (suc k) (suc fuel) n h = elim (Bool-cases (n / 10 == 0)) [
  | inl e ↦ rw e (omega arith)
  | inr e ↦
      rw e
        (omega (arith, length-low_first_lt k fuel (n / 10) (omega (arith, h, pow-suc 10 (suc k)))))
]

pub length-decimal : (k n : ℕ) → n < 10 ^ suc k → length (decimal n) ≤ suc k
unfolding decimal
length-decimal k n h =
    omega (arith, length-reverse (low_first 10 dec_digit 20 n), length-low_first_lt k 20 n h)

pub read-decimal : (n : ℕ) → n < 10 ^ 20 → read 10 dec_value 0 (decimal n) ≡ n
unfolding decimal
read-decimal n h = reads_digits n h

-- For every integer below 10^20 in size, so for every integer type of at most 64 bits: `convert` ends
-- within its 20 rounds and reads only inside its table, its text reads as the integer, and the text has
-- at most 21 characters.
pub convert-read_integer :
    (v : ℤ)
    → magnitude v < 10 ^ 20
    → (text : List ℕ) × (convert v ≡ some text) × (read_integer text ≡ v) × (length text ≤ 21)
unfolding convert read_integer
convert-read_integer (pos n) h =
    let low = low_first 10 dec_digit 20 n in
    (
      reverse low,
      ap (◌>>= λ out. some (reverse out)) (convert_loop_lem false 19 n [] h),
      read_integer-digits (reverse low) (no_minus-low_first 20 n) ∙ ap pos (reads_digits n h),
      omega (arith, length-reverse low, length-low_first 10 dec_digit 20 n),
    )
convert-read_integer (negsuc k) h =
    let low = low_first 10 dec_digit 20 (suc k) in
    (
      reverse (low ++ b'-' ∷ []),
      ap (◌>>= λ out. some (reverse (out ++ b'-' ∷ []))) (convert_loop_lem true 19 (suc k) [] h),
      ap read_integer (reverse-append low (b'-' ∷ [])) ∙ ap neg (reads_digits (suc k) h),
      omega (
        arith,
        length-reverse (low ++ b'-' ∷ []),
        length-append low (b'-' ∷ []),
        length-low_first 10 dec_digit 20 (suc k),
      ),
    )

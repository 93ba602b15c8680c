-- ===== src/LogStream/Hex.antt =====
-- What twnl/Log/LogStream.cc writes for a pointer reads as the pointer.
use mathlib.Core.List.{reverse}
use twnl.Base.{
  Bool, ℕ, zero, suc, ◌+◌, ◌-◌, ◌/◌, ◌%◌, ◌^◌, ◌≤◌, ◌<◌, ◌==◌, ◌≡◌, refl, sym, ap, ◌∙◌,
  if◌then◌else◌, if_false, ltb, true, Bool-cases, inl, inr, some, List, [], ◌∷◌, ◌++◌, length,
  length-reverse, get_elem?, append_assoc, arith, ◌>>=◌,
}
use twnl.LogStream.Convert.{digits_hex, convert_hex_loop, convert_hex}
use twnl.LogStream.Radix.{
  passes_from, passes_from-at, gives, gives-some, read, low_first, read-low_first, length-low_first,
}

abbrev hex_digit : ℕ → ℕ
hex_digit d = if ltb d 10 then 48 + d else 55 + d

abbrev pub hex_value : ℕ → ℕ
hex_value c = if ltb c 58 then c - 48 else c - 55

abbrev in_table : ℕ → Bool
in_table d = gives (get_elem? digits_hex d) (hex_digit d)

digits_table : passes_from in_table 0 16 ≡ true
unfolding passes_from
digits_table = refl

digit_at : (n : ℕ) → get_elem? digits_hex (n % 16) ≡ some (hex_digit (n % 16))
digit_at n =
    gives-some _ _ (passes_from-at in_table 0 16 (n % 16) (omega arith) (omega arith) digits_table)

convert_hex_loop_round :
    (fuel n : ℕ) (out : List ℕ)
    → convert_hex_loop (suc fuel) n out ≡ (
        if n / 16 == 0
        then some (out ++ hex_digit (n % 16) ∷ [])
        else convert_hex_loop fuel (n / 16) (out ++ hex_digit (n % 16) ∷ []))
unfolding convert_hex_loop
convert_hex_loop_round fuel n out = rw (convert_hex_loop, digit_at n) refl

convert_hex_loop_lem :
    (fuel n : ℕ) (out : List ℕ)
    → n < 16 ^ suc fuel
    → convert_hex_loop (suc fuel) n out ≡ some (out ++ low_first 16 hex_digit (suc fuel) n)
unfolding low_first
convert_hex_loop_lem zero n out h =
    let e : (n / 16 == 0) ≡ true = ground (arith, h) in
    convert_hex_loop_round zero n out ∙ rw e refl
convert_hex_loop_lem (suc fuel) n out h = elim (Bool-cases (n / 16 == 0)) [
  | inl e ↦ convert_hex_loop_round (suc fuel) n out ∙ rw e refl
  | inr e ↦
      let c : ℕ = hex_digit (n % 16) in
      convert_hex_loop_round (suc fuel) n out
      ∙ if_false (n / 16 == 0) _ _ e
      ∙ convert_hex_loop_lem fuel (n / 16) (out ++ c ∷ []) (omega (arith, h))
      ∙ ap some (append_assoc out (c ∷ []) (low_first 16 hex_digit (suc fuel) (n / 16)))
      ∙ ap (λ t. some (out ++ c ∷ t))
          (sym (if_false (n / 16 == 0) [] (low_first 16 hex_digit (suc fuel) (n / 16)) e))
]

-- For every `uintptr_t`: `convertHex` ends within its 20 rounds and reads only inside its table, and its
-- text, of at most 20 characters, reads in base 16 as the value.
pub convert_hex-read :
    (n : ℕ)
    → n < 2 ^ 64
    → (text : List ℕ) × (convert_hex n ≡ some text)
      × (read 16 hex_value 0 text ≡ n)
      × (length text ≤ 20)
unfolding convert_hex
convert_hex-read n h =
    let low = low_first 16 hex_digit 20 n in
    (
      reverse low,
      ap (◌>>= λ out. some (reverse out)) (convert_hex_loop_lem 19 n [] (omega (arith, h))),
      read-low_first 16 (omega arith) hex_digit hex_value (λ d k. ground (arith, k)) 20 n
          (omega (arith, h)),
      omega (arith, length-reverse low, length-low_first 16 hex_digit 20 n),
    )

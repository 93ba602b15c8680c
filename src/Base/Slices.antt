-- ===== src/Base/Slices.antt =====
-- Ranges of an array: reading one, and copying bytes over one.
use Prim.Native.Nat.{ℕ, ◌+◌, ◌-◌, ◌≤◌}
use mathlib.Core.Path.{◌≡◌, refl, sym, ap, ◌∙◌}
use mathlib.Core.List.{List, ◌++◌, append_assoc}
use native.Mathlib.Omega.{arith}
use twnl.Base.Lists.{
  length, take, drop, length-append, length-take, length-drop, take-append_of_eq, take-append_of_le,
  drop-append_of_le, take-append_add, drop-take, take_all, drop-append_add, drop-drop,
}

module _ {ℓ} {A : Type ℓ} where
  -- The items at the indices `from`, .., `to - 1`.
  abbrev pub slice : ℕ → ℕ → List A → List A
  slice from to xs = take (to - from) (drop from xs)

  -- `std::copy(ys.begin(), ys.end(), xs.begin() + at)`, for a range inside `xs`.
  abbrev pub copy_to : List A → ℕ → List A → List A
  copy_to xs at ys = take at xs ++ (ys ++ drop (at + length ys) xs)

module _ {ℓ} {A : Type ℓ} where
  pub length-slice :
      (from to : ℕ) (xs : List A) → to ≤ length xs → length (slice from to xs) ≡ to - from
  length-slice from to xs h =
      omega (arith, length-take (to - from) (drop from xs), length-drop from xs)

  pub length-copy_to :
      (xs : List A) (at : ℕ) (ys : List A)
      → at + length ys ≤ length xs
      → length (copy_to xs at ys) ≡ length xs
  length-copy_to xs at ys h = omega (
    arith,
    length-append (take at xs) (ys ++ drop (at + length ys) xs),
    length-append ys (drop (at + length ys) xs),
    length-take at xs,
    length-drop (at + length ys) xs,
  )

  -- Writing `ys` at the end of a range extends the range by `ys`.
  pub slice-copy_to :
      (xs ys : List A) (from to end : ℕ)
      → from ≤ to
      → to ≤ length xs
      → end ≡ to + length ys
      → slice from end (copy_to xs to ys) ≡ slice from to xs ++ ys
  slice-copy_to xs ys from to end h k e =
      ap (take (end - from)) (
        drop-append_of_le from (take to xs) _ (omega (arith, length-take to xs))
        ∙ ap (λ zs. zs ++ (ys ++ drop (to + length ys) xs)) (drop-take from to (to - from) xs refl))
      ∙ take-append_add (end - from) (length ys) (slice from to xs) _
          (omega (arith, length-slice from to xs))
      ∙ ap (slice from to xs ++◌) (take-append_of_eq (length ys) ys _ refl)

  -- Writing at the front makes the written bytes the first range.
  pub slice-copy_front :
      (xs ys : List A) (end : ℕ) → end ≡ length ys → slice 0 end (copy_to xs 0 ys) ≡ ys
  slice-copy_front xs ys end e = take-append_of_eq (end - 0) ys _ (omega arith)

  -- What a larger array keeps.
  pub slice-append_right :
      (xs ys : List A) (from to : ℕ)
      → from ≤ to
      → to ≤ length xs
      → slice from to (xs ++ ys) ≡ slice from to xs
  slice-append_right xs ys from to h k =
      ap (take (to - from)) (drop-append_of_le from xs ys (omega arith))
      ∙ take-append_of_le (to - from) (drop from xs) ys (omega (arith, length-drop from xs))

  -- The bytes up to a place inside what was written.
  pub take-copy_to :
      (xs ys : List A) (at k n : ℕ)
      → n ≡ at + k
      → at ≤ length xs
      → k ≤ length ys
      → take n (copy_to xs at ys) ≡ take at xs ++ take k ys
  take-copy_to xs ys at k n e h w =
      take-append_add n k (take at xs) _ (omega (arith, length-take at xs))
      ∙ ap (take at xs ++◌) (take-append_of_le k ys _ w)

  -- A write right behind another one.
  pub copy_to-copy_to :
      (xs ys zs : List A) (at next : ℕ)
      → next ≡ at + length ys
      → at ≤ length xs
      → copy_to (copy_to xs at ys) next zs ≡ copy_to xs at (ys ++ zs)
  copy_to-copy_to xs ys zs at next e h =
      ap (◌++ (zs ++ drop (next + length zs) (copy_to xs at ys))) (
        take-copy_to xs ys at (length ys) next e h (omega arith)
        ∙ ap (take at xs ++◌) (take_all (length ys) ys (omega arith)))
      ∙ ap (λ rest. (take at xs ++ ys) ++ (zs ++ rest))
          (drop-append_add (next + length zs) (length ys + length zs) (take at xs) _
              (omega (arith, length-take at xs))
            ∙ drop-append_add (length ys + length zs) (length zs) ys _ (omega arith)
            ∙ drop-drop (length zs) (at + length ys) (at + length (ys ++ zs)) xs
                (omega (arith, length-append ys zs)))
      ∙ append_assoc (take at xs) ys _
      ∙ ap (take at xs ++◌) (sym (append_assoc ys zs _))

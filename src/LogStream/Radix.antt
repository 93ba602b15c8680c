-- ===== src/LogStream/Radix.antt =====
-- Numbers in a base, lowest digit first, and what they read as when they are turned round.
use mathlib.Core.List.{reverse, reverse-append}
use native.Mathlib.Nat.{div-lt_iff_lt-mul, div-add-mod', mod-lt, pow-suc, pow-zero}
use twnl.Base.{
  ℕ, zero, suc, ◌+◌, ◌*◌, ◌/◌, ◌%◌, ◌^◌, ◌≤◌, ◌<◌, ◌==◌, ◌≡◌, refl, ap, ◌∙◌, subst, if◌then◌else◌,
  Bool, true, false, Bool-cases, inl, inr, Option, none, some, List, [], ◌∷◌, ◌++◌, length, arith,
}

-- A test on `n` numbers from `i` on.
unfoldable pub passes_from : (ℕ → Bool) → ℕ → ℕ → Bool
passes_from test i zero = true
passes_from test i (suc n) = if test i then passes_from test (i + 1) n else false

pub passes_from-at :
    (test : ℕ → Bool) (i n d : ℕ) → i ≤ d → d < i + n → passes_from test i n ≡ true → test d ≡ true
unfolding passes_from
passes_from-at test i zero d low high h = absurd (omega (arith, low, high))
passes_from-at test i (suc n) d low high h = elim (Bool-cases (i == d)) [
  | inl e ↦ subst (λ k. test k ≡ true) (same i d e) (first (test i) (passes_from test (i + 1) n) h)
  | inr e ↦
      passes_from-at test (i + 1) n d (ground (arith, low, e)) (omega (arith, high))
        (second (test i) (passes_from test (i + 1) n) h)
]
  where
    same : (a b : ℕ) → a == b ≡ true → a ≡ b
    same a b e = ground (arith, e)

    first : (a b : Bool) → (if a then b else false) ≡ true → a ≡ true
    first true b e = refl
    first false b e = e

    second : (a b : Bool) → (if a then b else false) ≡ true → b ≡ true
    second true b e = e
    second false b e = absurd (cc)

-- Whether a table gives the item `c`.
abbrev pub gives : Option ℕ → ℕ → Bool
gives none c = false
gives (some c') c = c' == c

pub gives-some : (o : Option ℕ) (c : ℕ) → gives o c ≡ true → o ≡ some c
gives-some none c h = absurd (ground (arith, h))
gives-some (some c') c h = ground (arith, h)

-- Reading a text of digits, highest first.
unfoldable pub read : ℕ → (ℕ → ℕ) → ℕ → List ℕ → ℕ
read base val acc [] = acc
read base val acc (c ∷ cs) = read base val (acc * base + val c) cs

-- The digits of `n`, lowest first, at most `fuel` of them.
unfoldable pub low_first : ℕ → (ℕ → ℕ) → ℕ → ℕ → List ℕ
low_first base dig zero n = []
low_first base dig (suc fuel) n =
    let rest = low_first base dig fuel (n / base) in
    dig (n % base) ∷ (if n / base == 0 then [] else rest)

read-append :
    (base : ℕ) (val : ℕ → ℕ) (acc : ℕ) (xs ys : List ℕ)
    → read base val acc (xs ++ ys) ≡ read base val (read base val acc xs) ys
unfolding read
read-append base val acc [] ys = refl
read-append base val acc (x ∷ xs) ys = read-append base val (acc * base + val x) xs ys

read-reverse-cons :
    (base : ℕ) (val : ℕ → ℕ) (c : ℕ) (cs : List ℕ)
    → read base val 0 (reverse (c ∷ cs)) ≡ read base val 0 (reverse cs) * base + val c
unfolding read
read-reverse-cons base val c cs =
    ap (read base val 0) (reverse-append (c ∷ []) cs) ∙ read-append base val 0 (reverse cs) (c ∷ [])

-- A base with its digits, and a function that reads them.
module _ (base : ℕ) (big : 1 < base) (dig val : ℕ → ℕ)
    (reads : (d : ℕ) → d < base → val (dig d) ≡ d) where
  div_lt : (fuel n : ℕ) → n < base ^ suc fuel → n / base < base ^ fuel
  div_lt fuel n h = (div-lt_iff_lt-mul (omega (arith, big))).1 (subst (n <◌) (pow-suc base fuel) h)

  split : (n : ℕ) → n / base * base + n % base ≡ n
  split n = div-add-mod' n base

  read_turned :
      (n : ℕ) (cs : List ℕ)
      → read base val 0 (reverse cs) ≡ n / base
      → read base val 0 (reverse (dig (n % base) ∷ cs)) ≡ n
  read_turned n cs h =
      read-reverse-cons base val (dig (n % base)) cs
      ∙ ap (λ t. t * base + val (dig (n % base))) h
      ∙ ap (n / base * base +◌) (reads (n % base) (mod-lt n (omega (arith, big))))
      ∙ split n

  pub read-low_first :
      (fuel n : ℕ) → n < base ^ fuel → read base val 0 (reverse (low_first base dig fuel n)) ≡ n
  unfolding low_first read
  read-low_first zero n h = omega (arith, h, pow-zero base)
  read-low_first (suc fuel) n h = elim (Bool-cases (n / base == 0)) [
    | inl e ↦ rw e (read_turned n [] (ground (arith, e)))
    | inr e ↦ rw e (
        read_turned n (low_first base dig fuel (n / base))
          (read-low_first fuel (n / base) (div_lt fuel n h)))
  ]

pub length-low_first :
    (base : ℕ) (dig : ℕ → ℕ) (fuel n : ℕ) → length (low_first base dig fuel n) ≤ fuel
unfolding low_first
length-low_first base dig zero n = omega arith
length-low_first base dig (suc fuel) n = elim (Bool-cases (n / base == 0)) [
  | inl e ↦ rw e (omega arith)
  | inr e ↦ rw e (omega (arith, length-low_first base dig fuel (n / base)))
]

-- ===== src/TimerQueue/Order.antt =====
-- The set of twnl/TimerQueue.cc in its order, and which entries are due.
use twnl.Base.{
  ℕ, ◌+◌, ◌≤◌, ◌<◌, ◌≡◌, ◌≢◌, refl, sym, ap, inl, inr, true, false, leb, if◌then◌else◌, List, [],
  ◌∷◌, ◌++◌, arith, take-append-drop, Bool-cases,
}
use twnl.TimerQueue.{Entry, before, insert, lower_bound, get_expired}

unfoldable pub All {ℓ} : (Entry → Type ℓ) → List Entry → Type ℓ
All P [] = Unit
All P (x ∷ xs) = P x × All P xs

module _ {ℓ κ} {P : Entry → Type ℓ} {Q : Entry → Type κ} where
  pub All-map : ((x : Entry) → P x → Q x) → (xs : List Entry) → All P xs → All Q xs
  unfolding All
  All-map f [] a = tt
  All-map f (x ∷ xs) (p, a) = (f x p, All-map f xs a)

pub All-zip {ℓ κ μ} :
    (P : Entry → Type ℓ) (Q : Entry → Type κ) {R : Entry → Type μ}
    → ((x : Entry) → P x → Q x → R x)
    → (xs : List Entry) → All P xs
    → All Q xs
    → All R xs
unfolding All
All-zip P Q f [] a b = tt
All-zip P Q f (x ∷ xs) (p, a) (q, b) = (f x p q, All-zip P Q f xs a b)

abbrev pub Above : Entry → Entry → Type 0
Above e x = before e x ≡ true

-- Each entry is before all that follow it.
unfoldable pub Sorted : List Entry → Type 0
Sorted [] = Unit
Sorted (x ∷ xs) = All (Above x) xs × Sorted xs

before_trans : (x y z : Entry) → before x y ≡ true → before y z ≡ true → before x z ≡ true
before_trans x y z h k = ground (arith, h, k)

-- What `insert` keeps of the entries, and the new one.
pub All-insert {ℓ} :
    (P : Entry → Type ℓ) (e : Entry) (xs : List Entry) → P e → All P xs → All P (insert e xs).0
unfolding All insert
All-insert P e [] p a = (p, tt)
All-insert P e (x ∷ xs) p (px, a) = elim (Bool-cases (before e x)) [
  | inl h ↦ rw h (p, (px, a))
  | inr h ↦ elim (Bool-cases (before x e)) [
    | inl k ↦ rw (h, k) (px, All-insert P e xs p a)
    | inr k ↦ rw (h, k) (px, a)
  ]
]

pub insert-Sorted : (e : Entry) (xs : List Entry) → Sorted xs → Sorted (insert e xs).0
unfolding Sorted All insert
insert-Sorted e [] s = (tt, tt)
insert-Sorted e (x ∷ xs) (a, s) = elim (Bool-cases (before e x)) [
  | inl h ↦ rw h ((h, All-map (λ y. before_trans e x y h) xs a), (a, s))
  | inr h ↦ elim (Bool-cases (before x e)) [
    | inl k ↦ rw (h, k) (All-insert (Above x) e xs k a, insert-Sorted e xs s)
    | inr k ↦ rw (h, k) (a, s)
  ]
]

-- An entry whose timer is not in the set is new to it.
pub insert_fresh :
    (e : Entry) (xs : List Entry) → All (λ x. x.timer ≢ e.timer) xs → (insert e xs).1 ≡ true
unfolding All insert
insert_fresh e [] a = refl
insert_fresh e (x ∷ xs) (ne, a) = elim (Bool-cases (before e x)) [
  | inl h ↦ rw h refl
  | inr h ↦ elim (Bool-cases (before x e)) [
    | inl k ↦ rw (h, k) (insert_fresh e xs a)
    | inr k ↦ absurd (ground (arith, h, k, ne))
  ]
]

late :
    (now : ℕ) (xs : List Entry) (x : Entry)
    → All (Above x) xs
    → now < x.at
    → All (λ y. now < y.at) xs
late now xs x a h = All-map (λ y k. ground (arith, h, k)) xs a

-- For a set in order, the entries that `getExpired` returns and those that it leaves make up the set in
-- its order; the first are due at `now`, the others are later.
pub get_expired_lem :
    (now : ℕ) (xs : List Entry)
    → Sorted xs
    → ((get_expired now xs).0 ++ (get_expired now xs).1 ≡ xs)
      × All (λ x. x.at ≤ now) (get_expired now xs).0
      × All (λ x. now < x.at) (get_expired now xs).1
unfolding get_expired lower_bound Sorted All
get_expired_lem now xs s = (
  take-append-drop (lower_bound (record { at = now + 1; timer = 0 }) xs) xs,
  due now xs,
  rest now xs s,
)
  where
    due : (now : ℕ) (xs : List Entry) → All (λ x. x.at ≤ now) (get_expired now xs).0
    due now [] = tt
    due now (x ∷ xs) = elim (Bool-cases (before x (record { at = now + 1; timer = 0 }))) [
      | inl h ↦ rw h (ground (arith, h), due now xs)
      | inr h ↦ rw h tt
    ]

    rest : (now : ℕ) (xs : List Entry) → Sorted xs → All (λ x. now < x.at) (get_expired now xs).1
    rest now [] s = tt
    rest now (x ∷ xs) (a, s) = elim (Bool-cases (before x (record { at = now + 1; timer = 0 }))) [
      | inl h ↦ rw h (rest now xs s)
      | inr h ↦ rw h (ground (arith, h), late now xs x a (ground (arith, h)))
    ]

-- The entries whose time has come at `now`, by looking at each of them.
unfoldable pub due_at : ℕ → List Entry → List Entry
due_at now [] = []
due_at now (x ∷ xs) = let rest = due_at now xs in if leb x.at now then x ∷ rest else rest

due_at-late : (now : ℕ) (xs : List Entry) → All (λ x. now < x.at) xs → due_at now xs ≡ []
unfolding due_at All
due_at-late now [] a = refl
due_at-late now (x ∷ xs) (h, a) = rw (due_at-late now xs a) (ground (arith, h))

-- For a set in order, `getExpired` returns just the entries whose time has come.
pub get_expired-due_at :
    (now : ℕ) (xs : List Entry) → Sorted xs → (get_expired now xs).0 ≡ due_at now xs
unfolding get_expired lower_bound Sorted due_at
get_expired-due_at now [] s = refl
get_expired-due_at now (x ∷ xs) (a, s) =
    elim (Bool-cases (before x (record { at = now + 1; timer = 0 }))) [
      | inl h ↦
          let due : leb x.at now ≡ true = ground (arith, h) in
          rw (h, due) (ap (x ∷◌) (get_expired-due_at now xs s))
      | inr h ↦
          let not_due : leb x.at now ≡ false = ground (arith, h) in
          rw (h, not_due) (sym (due_at-late now xs (late now xs x a (ground (arith, h)))))
    ]

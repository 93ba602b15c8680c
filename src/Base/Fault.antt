-- ===== src/Base/Fault.antt =====
-- Steps that can fail. `none` is a failed `assert`, or an access outside an object.
use mathlib.Core.Path.{◌≡◌, refl, subst}
use mathlib.Core.Bool.{Bool, true, false}
use mathlib.Core.Option.{Option, none, some, some_inj}
use twnl.Base.Tests.{if◌then◌else◌}
use native.Mathlib.Omega.{arith}

infixl 5 ◌>>=◌ ◌>>◌
abbrev pub ◌>>=◌ {ℓ κ} : {A : Type ℓ} {B : Type κ} → Option A → (A → Option B) → Option B
none >>= f = none
some a >>= f = f a

abbrev pub ◌>>◌ {ℓ} : {B : Type ℓ} → Option (Unit {0}) → Option B → Option B
m >> k = m >>= λ _. k

-- `assert(test)`
abbrev pub check : Bool → Option (Unit {0})
check true = some tt
check false = none

pub check_passed {ℓ} : {A : Type ℓ} (b : Bool) (x : Option A) → b ≡ true → (check b >> x) ≡ x
check_passed true x e = refl
check_passed false x e = absurd (ground arith)

pub >>=-eq-some {ℓ κ} :
    {A : Type ℓ} {B : Type κ} (m : Option A) (f : A → Option B) {b : B}
    → (m >>= f) ≡ some b
    → (a : A) × (m ≡ some a) × (f a ≡ some b)
>>=-eq-some none f h = absurd (ground arith)
>>=-eq-some (some a) f h = (a, refl, h)

-- What holds of the result, if there is one. A family, so that its rules can read their arguments.
pub data Ensures {ℓ κ} {A : Type ℓ} (P : A → Type κ) : Option A → Type (ℓ ⊔ κ) where
  faulted : Ensures P none
  returned : {a : A} → P a → Ensures P (some a)

module _ {ℓ κ} {A : Type ℓ} (P : A → Type κ) where
  pub Ensures-bind {μ} :
      {B : Type μ} (m : Option B) (f : B → Option A)
      → ((b : B) → Ensures P (f b))
      → Ensures P (m >>= f)
  Ensures-bind none f h = faulted
  Ensures-bind (some b) f h = h b

  pub Ensures-if :
      (b : Bool) (x y : Option A) → Ensures P x → Ensures P y → Ensures P (if b then x else y)
  Ensures-if true x y p q = p
  Ensures-if false x y p q = q

  pub Ensures-some : {o : Option A} {a : A} → Ensures P o → o ≡ some a → P a
  Ensures-some faulted e = absurd (cc)
  Ensures-some (returned {a = b} p) e = subst P (some_inj.0 e) p

  pub Ensures-check :
      (b : Bool) (x : Option A) → (b ≡ true → Ensures P x) → Ensures P (check b >> x)
  Ensures-check true x h = h refl
  Ensures-check false x h = faulted

  -- A step whose own result is known first.
  pub Ensures-then {μ ν} :
      {B : Type μ} {Q : B → Type ν} {m : Option B} (f : B → Option A)
      → Ensures Q m
      → ((b : B) → Q b → Ensures P (f b))
      → Ensures P (m >>= f)
  Ensures-then f faulted h = faulted
  Ensures-then f (returned {a = b} q) h = h b q

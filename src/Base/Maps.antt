-- ===== src/Base/Maps.antt =====
-- Finite maps and stores as functions from numbers.
use Prim.Native.Nat.{ℕ}
use mathlib.Core.Path.{◌≡◌}
use mathlib.Core.Logic.{◌≢◌}
use native.Mathlib.Omega.{arith}
use twnl.Base.Tests.{◌==◌, if◌then◌else◌}

module _ {ℓ} {A : Type ℓ} where
  -- `f` with `v` at `k`.
  abbrev pub put : (ℕ → A) → ℕ → A → ℕ → A
  put f k v j = if k == j then v else f j

module _ {ℓ} {A : Type ℓ} where
  pub put_self : (f : ℕ → A) (k j : ℕ) (v : A) → k ≡ j → put f k v j ≡ v
  put_self f k j v e = ground arith

  pub put_other : (f : ℕ → A) (k j : ℕ) (v : A) → k ≢ j → put f k v j ≡ f j
  put_other f k j v ne = ground arith

-- ===== src/Base.antt =====
-- What the components share: the library names they use, Boolean tests, lists with native indices,
-- steps that can fault, and `size_t` arithmetic.
mod Tests
mod Lists
mod Slices
mod Maps
mod Fault
mod Int
pub use Tests.*
pub use Lists.*
pub use Slices.*
pub use Maps.*
pub use Fault.*
pub use Int.*
pub use Prim.Native.Nat.{ℕ, zero, suc, ◌+◌, ◌-◌, ◌*◌, ◌/◌, ◌%◌, ◌^◌, ◌≤◌, ◌<◌, min}
pub use mathlib.Core.Path.{◌≡◌, refl, sym, ap, ◌∙◌, subst}
pub use mathlib.Core.Logic.{◌≢◌, ◌↔◌, ◌⊎◌, inl, inr}
pub use mathlib.Core.Bool.{Bool, true, false, not, ◌&&◌, ◌||◌}
pub use mathlib.Core.Option.{Option, none, some}
pub use mathlib.Core.List.{List, [], ◌∷◌, ◌++◌, map, append-nil, append_assoc}
unfoldable pub use native.Mathlib.Decide.{dec_lt, dec_le, ℕ_discrete}
pub use native.Mathlib.Omega.{arith}

-- `size_t` arithmetic wraps at 64 bits.
abbrev pub add_size : ℕ → ℕ → ℕ
add_size a b = (a + b) % 2 ^ 64

abbrev pub sub_size : ℕ → ℕ → ℕ
sub_size a b = (a + 2 ^ 64 - b) % 2 ^ 64

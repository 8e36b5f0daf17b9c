-- ===== src/Prelude/Update.antt =====
-- Memory as a function from addresses: a write changes one address.
use Prim.Native.Nat.{ℕ}
use mathlib.Core.Path.{◌≡◌}
use mathlib.Core.Logic.{◌≢◌}
use native.Mathlib.Omega.{arith}
use rapidfire.Prelude.Tests.{◌==◌, if◌then◌else◌}

module _ {ℓ} {A : Type ℓ} where
  unfoldable pub update : (ℕ → A) → ℕ → A → ℕ → A
  update f i a j = if i == j then a else f j

  pub update_self : (f : ℕ → A) (i : ℕ) (a : A) → update f i a i ≡ a
  unfolding update
  update_self f i a = ground arith

  pub update_ne : (f : ℕ → A) {i j : ℕ} (a : A) → i ≢ j → update f i a j ≡ f j
  unfolding update
  update_ne f {i} {j} a h = ground arith

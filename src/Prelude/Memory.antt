-- ===== src/Prelude/Memory.antt =====
-- A memory of cells under numeric addresses, as a function.
use Prim.Native.Nat.{ℕ}
use mathlib.Core.Path.{◌≡◌}
use mathlib.Core.Logic.{◌≢◌}
use native.Mathlib.Omega.{arith}
use grace_os.Prelude.Tests.{◌==◌, if◌then◌else◌}

module _ {ℓ} {A : Type ℓ} where
  -- The memory with `v` at address `a`.
  abbrev pub put : (ℕ → A) → ℕ → A → ℕ → A
  put m a v b = if a == b then v else m b

  -- The memory with the cell at `a` changed by `f`.
  abbrev pub modify : (ℕ → A) → ℕ → (A → A) → ℕ → A
  modify m a f = put m a (f (m a))

  pub put_self : (m : ℕ → A) (a : ℕ) (v : A) → put m a v a ≡ v
  put_self m a v = ground arith

  pub put_ne : (m : ℕ → A) (a b : ℕ) (v : A) → a ≢ b → put m a v b ≡ m b
  put_ne m a b v h = ground arith

-- ===== src/Prelude/Update.antt =====
-- Arrays as functions from the index.
use Prim.Native.Nat.{ℕ}
use mos_riscv.Prelude.Tests.{◌==◌, if◌then◌else◌}

module _ {ℓ} {A : Type ℓ} where
  abbrev pub update : (ℕ → A) → ℕ → A → ℕ → A
  update f i v j = if j == i then v else f j

-- ===== src/Common/Arith.antt =====
-- Quotients and remainders of the native numbers.
use Prim.Native.Nat.{ℕ, ◌+◌, ◌*◌, ◌/◌, ◌≤◌, ◌<◌}
use mathlib.Core.Path.{◌≡◌, ap}
use mathlib.Core.Logic.{◌↔◌}
use native.Mathlib.Omega.{arith}

pub div_unique : (v q h : ℕ) → q * h ≤ v → v < q * h + h → v / h ≡ q
div_unique v q h lo hi = grind arith

pub div_parts : (p n : ℕ) → 0 < n → (p + 1 ≤ p / n * n + n) × (p / n * n ≤ p)
div_parts p n h = (grind arith, grind arith)

pub div_zero : (p n : ℕ) → 0 < n → (p / n ≡ 0) ↔ (p < n)
div_zero p n h = (λ e. omega (arith, div_parts p n h, ap (λ (t : ℕ). t * n) e), λ l. grind arith)

-- ===== src/Common/Keys.antt =====
-- Keys of maps: a Boolean equality with its law.
use Prim.Native.Nat.{ℕ}
use mathlib.Core.Path.{◌≡◌}
use mathlib.Core.Logic.{◌↔◌}
use mathlib.Core.Bool.{Bool, true}
use go_warp_scanner.Common.Tests.{◌==◌, ==_iff}
use go_warp_scanner.Common.Text.{Text, text_eq, text_eq_iff}

pub record KeyEq {ℓ} (K : Type ℓ) : Type ℓ where
  pub same : K → K → Bool
  pub same_iff : (a b : K) → (same a b ≡ true) ↔ (a ≡ b)

abbrev pub ℕ_keys : KeyEq ℕ
ℕ_keys = record { same = ◌==◌; same_iff = ==_iff }

abbrev pub text_keys : KeyEq Text
text_keys = record { same = text_eq; same_iff = text_eq_iff }

-- ===== src/Prelude/Classes.antt =====
-- Keys that a program compares: equality as an instance.
use Prim.Native.Nat.{ℕ}
use mathlib.Core.Path.{◌≡◌}
use mathlib.Core.Logic.{◌↔◌}
use mathlib.Core.Bool.{Bool, true}
use poly_holy_market_bot.Prelude.Tests.{◌==◌, ==_iff}
use poly_holy_market_bot.Prelude.Codes.{Text, text_eq, text_eq_iff}

pub record Eq {ℓ} (A : Type ℓ) : Type ℓ where
  pub beq : A → A → Bool
  pub beq_iff : (a b : A) → (beq a b ≡ true) ↔ (a ≡ b)

instance abbrev pub nat_eq : Eq ℕ
nat_eq = record { beq = ◌==◌; beq_iff = ==_iff }

instance abbrev pub text_keys : Eq Text
text_keys = record { beq = text_eq; beq_iff = text_eq_iff }

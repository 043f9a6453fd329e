-- ===== src/Float.antt =====
-- Python's `float`: a type with the operations that the program applies to it. The type and the
-- operations are parameters of the model; `Float/Micro.antt` has an instance that runs.
pub mod Micro
use vault_recon_ai.Prelude.{Bool, Option, true, ℕ, ◌≡◌}
use vault_recon_ai.Decimal.{Decimal}
use vault_recon_ai.Prelude.Int.{ℤ}
use vault_recon_ai.Text.{Text}

pub record Float (F : Type 0) : Type 0 where
  -- the literal m / 10 ^ e, such as 0.01 for `lit 1 2`
  pub lit : ℕ → ℕ → F
  -- an `int` where a `float` is wanted
  pub of_int : ℤ → F
  pub add : F → F → F
  pub sub : F → F → F
  pub mul : F → F → F
  pub div : F → F → F
  pub abs : F → F
  -- a <= b and a < b
  pub le : F → F → Bool
  pub lt : F → F → Bool
  -- round(x, places)
  pub round : F → ℕ → F
  -- str(x), and float(s), which may raise ValueError
  pub show : F → Text
  pub of_text : Text → Option F
  -- Decimal(str(x)), and float(d)
  pub to_decimal : F → Decimal
  pub of_decimal : Decimal → F

infix 4 ◌≼◌
abbrev pub ◌≼◌ : {F : Type 0} ⦃d : Float F⦄ → F → F → Type 0
◌≼◌ ⦃d⦄ a b = d.le a b ≡ true

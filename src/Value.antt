-- ===== src/Value.antt =====
-- The values of a `Dict[str, Any]`, and such a dictionary in insertion order. A list or dict
-- inside one is kept as its `str()` and whether it is empty: the program asks no more of it.
use vault_recon_ai.Prelude.{Bool, [], false, if◌then◌else◌, is_empty, none, not, some, ◌&&◌}
use vault_recon_ai.Dict.{Dict, dict_get}
use vault_recon_ai.Float.{Float}
use vault_recon_ai.Prelude.Int.{is_zero, ℤ}
use vault_recon_ai.Text.{Text, codes, show_int}

pub data Value (F : Type 0) : Type 0 where
  null : Value F
  bool : Bool → Value F
  int : ℤ → Value F
  float : F → Value F
  str : Text → Value F
  container : Text → Bool → Value F

abbrev pub Fields : Type 0 → Type 0
Fields F = Dict (Value F)

module _ {F : Type 0} where
  -- d.get(k, "").
  unfoldable pub text_field : Fields F → Text → Value F
  unfolding dict_get
  text_field m k = elim (dict_get m k) [ none ↦ str [] | some v ↦ v ]

module _ {F : Type 0} ⦃d : Float F⦄ where
  open d use {lit, le, show}

  -- bool(x): a number is false at zero only; `le` both ways is `== 0.0`.
  unfoldable pub truthy : Value F → Bool
  truthy null = false
  truthy (bool b) = b
  truthy (int n) = not (is_zero n)
  truthy (float x) = not (le x (lit 0 0) && le (lit 0 0) x)
  truthy (str s) = not (is_empty s)
  truthy (container s e) = not e

  -- bool(d.get(k)).
  unfoldable pub truthy_field : Fields F → Text → Bool
  unfolding dict_get truthy
  truthy_field m k = elim (dict_get m k) [ none ↦ false | some v ↦ truthy v ]

  -- str(x).
  unfoldable pub show_value : Value F → Text
  unfolding show_int
  show_value null = codes "None"
  show_value (bool b) = if b then codes "True" else codes "False"
  show_value (int n) = show_int n
  show_value (float x) = show x
  show_value (str s) = s
  show_value (container s e) = s

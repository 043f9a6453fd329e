-- ===== src/Rules.antt =====
-- recon/rules.py: `ReconciliationRules`.
pub mod Similarity
use text.Mathlib.Text.{◌==◌ as str_eq}
use vault_recon_ai.Prelude.{Bool, Option, String, if◌then◌else◌, none, not, some, true, ◌||◌}
use vault_recon_ai.Fees.{FeePolicy, FeePolicyRegistry, calculate_fee, get_policy, match_policy}
use vault_recon_ai.Float.{Float}
use vault_recon_ai.Prelude.Int.{distance, leb_ℤ, pos, ℤ, ◌*ℤ◌}
use vault_recon_ai.Result.{Result, ok, raised, ◌>>=◌}
use vault_recon_ai.Text.{Text, strip, text_eq, upper}
use vault_recon_ai.Value.{Value, truthy}

pub record ReconciliationRules (F : Type 0) : Type 0 where
  pub amount_tolerance : F
  pub timing_window_days : ℤ
  pub tolerance_window_days : ℤ
  pub fuzzy_threshold : F
  pub time_window_seconds : F
  pub enable_fee_validation : Bool
  pub topology : String
  pub fee_registry : FeePolicyRegistry F

module _ {F : Type 0} ⦃d : Float F⦄ where
  open d use {lit, mul, add, sub, abs, le, of_int}

  -- The constructor's defaults, with the hours turned into seconds.
  unfoldable pub default_rules : FeePolicyRegistry F → ReconciliationRules F
  default_rules registry = record {
    amount_tolerance = lit 1 2;
    timing_window_days = pos 5;
    tolerance_window_days = pos 7;
    fuzzy_threshold = lit 35 2;
    time_window_seconds = mul (lit 720 1) (of_int (pos 3600));
    enable_fee_validation = true;
    topology = "GATEWAY";
    fee_registry = registry;
  }

  -- The fee of the policy, if there is one.
  unfoldable pub fee_of : F → Option (FeePolicy F) → Result (Option F)
  unfolding calculate_fee
  fee_of amount none = ok none
  fee_of amount (some p) = do fee ← calculate_fee p amount; ok (some fee)

  -- `self.fee_registry.get(policy_id)`: a key that is no text is in no registry, and a list or
  -- dict cannot be hashed.
  registry_get : FeePolicyRegistry F → Value F → Result (Option (FeePolicy F))
  unfolding get_policy
  registry_get registry (Value.str i) = ok (get_policy registry i)
  registry_get registry (Value.container s e) = raised
  registry_get registry v = ok none

  -- The policy that `compute_expected_fee` takes: the one that is named, or the best match.
  unfoldable pub choose_policy :
      ReconciliationRules F
      → (payment_method processor currency merchant_id : Option Text) → Option (Value F)
      → Result (Option (FeePolicy F))
  unfolding registry_get match_policy truthy
  choose_policy rules payment_method processor currency merchant_id none =
      ok (match_policy rules.fee_registry merchant_id processor payment_method currency)
  choose_policy rules payment_method processor currency merchant_id (some v) =
      if truthy v
      then registry_get rules.fee_registry v
      else ok (match_policy rules.fee_registry merchant_id processor payment_method currency)

  -- `compute_expected_fee`: `none` is "no policy is known".
  unfoldable pub compute_expected_fee :
      ReconciliationRules F
      → F
      → (payment_method processor currency merchant_id : Option Text) → Option (Value F)
      → Result (Option F)
  unfolding choose_policy fee_of
  compute_expected_fee rules amount payment_method processor currency merchant_id policy_id =
      if not rules.enable_fee_validation || str_eq rules.topology "BANK_GL"
      then ok (some (lit 0 0))
      else do
        policy ← choose_policy rules payment_method processor currency merchant_id policy_id
        fee_of amount policy

  -- `is_amount_matching`, with its tolerance; 1e-6 is the slack of the code.
  unfoldable pub is_amount_matching : F → F → F → Bool
  is_amount_matching expected actual tolerance =
      le (abs (sub expected actual)) (add tolerance (lit 1 6))

  -- `is_within_time_window`.
  unfoldable pub is_within_time_window : ReconciliationRules F → ℤ → ℤ → Bool
  is_within_time_window rules t1 t2 = le (of_int (pos (distance t1 t2))) rules.time_window_seconds

-- `is_currency_matching`.
unfoldable pub is_currency_matching : Text → Text → Bool
unfolding text_eq upper strip
is_currency_matching c1 c2 = text_eq (upper (strip c1)) (upper (strip c2))

-- `is_within_days_window`.
unfoldable pub is_within_days_window : ℤ → ℤ → ℤ → Bool
is_within_days_window t1 t2 max_days = leb_ℤ (pos (distance t1 t2)) (max_days *ℤ pos 86400)

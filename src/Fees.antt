-- ===== src/Fees.antt =====
-- The fee policies: `FeePolicy` of ingestion/schemas.py and `FeePolicyRegistry` of recon/rules.py.
pub mod Choice
use mathlib.Core.List.{foldl}
use vault_recon_ai.Prelude.{
  Bool, List, Option, String, [], false, find?, if◌then◌else◌, is_empty, none, not, or_else, some,
  ◌&&◌, ◌||◌, ◌∷◌,
}
use vault_recon_ai.Decimal.{Decimal, decimal_add, decimal_mul, decimal_sub, percent, quantize_cents}
use vault_recon_ai.Dict.{Dict, dict_get, dict_set}
use vault_recon_ai.Float.{Float}
use vault_recon_ai.Result.{Result, of_option, ok, ◌>>=◌}
use vault_recon_ai.Text.{Text, codes, text_eq}

pub record FeePolicy (F : Type 0) : Type 0 where
  pub policy_id : Text
  pub name : Text
  pub percentage_rate : F
  pub fixed_charge : F
  pub currency : Text
  pub processor : Text
  pub merchant_id : Text
  pub payment_method : Text
  pub rounding_mode : Text

pub record FeePolicyRegistry (F : Type 0) : Type 0 where
  -- the dict's values under their ids, in insertion order
  pub policies : Dict (FeePolicy F)
  pub allow_global_fallback : Bool

abbrev pub any_text : Text
any_text = codes "ANY"

-- `x and y == x` on an optional text, which is false at None and at "".
abbrev pub given_eq : Option Text → Text → Bool
given_eq none y = false
given_eq (some x) y = not (is_empty x) && text_eq y x

-- `x and y not in ("ANY", x)`.
abbrev pub given_excludes : Option Text → Text → Bool
given_excludes none y = false
given_excludes (some x) y = not (is_empty x) && not (text_eq y any_text || text_eq y x)

-- `y == x` where `x` may be None.
abbrev pub eq_optional : Text → Option Text → Bool
eq_optional y none = false
eq_optional y (some x) = text_eq y x

module _ {F : Type 0} where
  unfoldable pub register : FeePolicyRegistry F → FeePolicy F → FeePolicyRegistry F
  unfolding dict_set
  register reg policy = record reg { policies = dict_set policy.policy_id policy reg.policies }

  unfoldable pub get_policy : FeePolicyRegistry F → Text → Option (FeePolicy F)
  unfolding dict_get
  get_policy reg policy_id = dict_get reg.policies policy_id

  -- list(reversed(list(self.policies.values())))
  unfoldable pub reversed_values : Dict (FeePolicy F) → List (FeePolicy F) → List (FeePolicy F)
  reversed_values [] acc = acc
  reversed_values ((k, p) ∷ m) acc = reversed_values m (p ∷ acc)

  unfoldable pub policy_list : FeePolicyRegistry F → List (FeePolicy F)
  unfolding reversed_values
  policy_list reg = reversed_values reg.policies []

  -- The tests of the four loops of `match_policy`.
  abbrev pub by_processor : Option Text → FeePolicy F → Bool
  by_processor processor p = given_eq processor p.processor && not (text_eq p.processor any_text)

  abbrev pub exact_policy : Option Text → Option Text → Option Text → FeePolicy F → Bool
  exact_policy processor payment_method currency p =
      by_processor processor p
      && not (given_excludes payment_method p.payment_method)
      && not (given_excludes currency p.currency)

  abbrev pub by_method_and_currency : Option Text → Option Text → FeePolicy F → Bool
  by_method_and_currency payment_method currency p =
      given_eq payment_method p.payment_method && eq_optional p.currency currency

  abbrev pub by_method : Option Text → FeePolicy F → Bool
  by_method payment_method p = given_eq payment_method p.payment_method

  -- `match_policy`; the code takes the merchant's id too, and does not look at it.
  unfoldable pub match_policy :
      FeePolicyRegistry F
      → Option Text
      → Option Text
      → Option Text
      → Option Text
      → Option (FeePolicy F)
  unfolding policy_list
  match_policy reg merchant_id processor payment_method currency =
      let l = policy_list reg in
      or_else (find? (exact_policy processor payment_method currency) l) (
        or_else (find? (by_method_and_currency payment_method currency) l) (
          or_else (find? (by_method payment_method) l) (
            or_else (find? (by_processor processor) l) (
              if reg.allow_global_fallback
              then dict_get reg.policies (codes "DEFAULT_FALLBACK")
              else none))))

module _ {F : Type 0} ⦃d : Float F⦄ where
  open d use {lit, round, to_decimal, of_decimal}

  -- g = Decimal(str(round(gross_amount, 4))), and the fee before it is rounded.
  unfoldable pub raw_fee : FeePolicy F → F → Result Decimal
  unfolding decimal_mul decimal_add percent
  raw_fee p gross_amount = do
    product ←
        of_option
          (decimal_mul (to_decimal (round gross_amount 4)) (percent (to_decimal p.percentage_rate)))
    of_option (decimal_add product (to_decimal p.fixed_charge))

  unfoldable pub calculate_fee : FeePolicy F → F → Result F
  unfolding raw_fee quantize_cents
  calculate_fee p gross_amount = do
    raw ← raw_fee p gross_amount
    fee ← of_option (quantize_cents raw)
    ok (of_decimal fee)

  unfoldable pub calculate_net : FeePolicy F → F → Result F
  unfolding calculate_fee decimal_sub quantize_cents
  calculate_net p gross_amount = do
    fee ← calculate_fee p gross_amount
    raw ← of_option (decimal_sub (to_decimal (round gross_amount 4)) (to_decimal fee))
    net ← of_option (quantize_cents raw)
    ok (of_decimal net)

  policy : String → String → F → F → String → String → FeePolicy F
  policy policy_id name rate fixed method currency = record {
    policy_id = codes policy_id;
    name = codes name;
    percentage_rate = rate;
    fixed_charge = fixed;
    currency = codes currency;
    processor = any_text;
    merchant_id = any_text;
    payment_method = codes method;
    rounding_mode = codes "HALF_UP";
  }

  -- The policies of `_register_default_policies`, in its order.
  default_policies : List (FeePolicy F)
  unfolding policy
  default_policies =
      policy "STRIPE_STANDARD" "Stripe Standard (2.9% + $0.30)" (lit 290 2) (lit 30 2) "ANY" "USD"
      ∷ policy "CARD_STANDARD_2.9" "Standard Card Policy (2.9% + $0.30)" (lit 290 2) (lit 30 2)
          "CARD" "ANY"
      ∷ policy "UPI_STANDARD" "UPI Standard (0%)" (lit 0 0) (lit 0 0) "UPI" "ANY"
      ∷ policy "DEBIT_CARD_STANDARD" "Debit Card Standard (0.9%)" (lit 9 1) (lit 0 0) "DEBIT_CARD"
          "INR"
      ∷ policy "CREDIT_CARD_STANDARD" "Domestic Credit Card (2.0%)" (lit 20 1) (lit 0 0)
          "CREDIT_CARD" "INR"
      ∷ policy "NET_BANKING_STANDARD" "Net Banking Flat Fee (₹15)" (lit 0 0) (lit 150 1)
          "NET_BANKING" "INR"
      ∷ policy "DIRECT_DEBIT_ZERO" "Direct Debit Transfer (0%)" (lit 0 0) (lit 0 0) "DIRECT_DEBIT"
          "ANY"
      ∷ policy "BANK_TRANSFER_ZERO" "Bank Transfer / Wire (0%)" (lit 0 0) (lit 0 0) "BANK_TRANSFER"
          "ANY"
      ∷ policy "CHEQUE_ZERO" "Cheque Clearing (0%)" (lit 0 0) (lit 0 0) "CHEQUE" "ANY"
      ∷ policy "SEPA_CREDIT_ZERO" "SEPA Credit Transfer (0%)" (lit 0 0) (lit 0 0)
          "SEPA_CREDIT_TRANSFER" "ANY"
      ∷ policy "RULE_INTL_CARD_3.5" "International Premium Card Surcharge (3.5%)" (lit 35 1)
          (lit 0 0) "INTERNATIONAL_CARD" "ANY"
      ∷ policy "RULE_HIGH_VOLUME_DISCOUNT" "Tier 1 High Volume Discount (1.2%)" (lit 12 1) (lit 0 0)
          "ANY" "ANY"
      ∷ []

  -- `FeePolicyRegistry.__init__`.
  unfoldable pub new_registry : Bool → FeePolicyRegistry F
  unfolding default_policies register
  new_registry fallback =
      foldl register (record { policies = []; allow_global_fallback = fallback }) default_policies

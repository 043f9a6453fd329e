-- ===== src/Vault/Tests.antt =====
-- recon/storage.py, recon/rules.py and ingestion/ on small vaults and registries.
use vault_recon_ai.Prelude.{
  All, In, [], false, if◌then◌else◌, none, refl, some, true, ◌&&◌, ◌++◌, ◌↔◌, ◌∷◌, ◌≡◌, ◌⊎◌,
}
use vault_recon_ai.Fees.{
  FeePolicy, FeePolicyRegistry, by_method, by_processor, exact_policy, get_policy, match_policy,
  policy_list,
}
use vault_recon_ai.Fees.Choice.{Chosen, match_policy-Chosen, match_policy-none}
use vault_recon_ai.Float.Micro.{Micro, micro_float}
use vault_recon_ai.Ingestion.{NormalizedDataset}
use vault_recon_ai.Prelude.Int.{pos}
use vault_recon_ai.Result.{ok}
use vault_recon_ai.Sample.{empty_vault, payment_p1, processor_x1, sample_codec}
use vault_recon_ai.Schemas.{AnyRecord}
use vault_recon_ai.Schemas.Keys.{
  index_prefix, payment_order_key, primary_key, processor_batch_key, processor_order_key, to_key,
  to_merchant_temporal_key,
}
use vault_recon_ai.Text.{Text, codes, text_eq}
use vault_recon_ai.Value.{Fields, Value}
use vault_recon_ai.Vault.{Vault, get, scan_prefix}
use vault_recon_ai.Vault.Found.{put_record-In}
use vault_recon_ai.Vault.Indexing.{IsLinked, put_record-IsLinked}
use vault_recon_ai.Vault.Records.{put_record}
use vault_recon_ai.Vault.Stored.{get-put_record}
use vault_recon_ai.Vault.Window.{scan_merchant_window}
use vault_recon_ai.Vault.Window.Answers.{Holds, scan_merchant_window-Holds}

-- Nothing is there, so every index entry is linked.
empty-IsLinked : IsLinked empty_vault
unfolding get
empty-IsLinked k v idx at = cc

put_record-IsLinked_example :
    IsLinked (put_record sample_codec (AnyRecord.payment payment_p1) empty_vault).1
put_record-IsLinked_example =
    put_record-IsLinked sample_codec (AnyRecord.payment payment_p1) empty_vault empty-IsLinked

get-put_record_example :
    (get
        (put_record sample_codec (AnyRecord.payment payment_p1) empty_vault).1
        (primary_key "PAYMENT" (codes "P1"))
      ≡ (if true
            && text_eq (to_key (AnyRecord.payment payment_p1)) (primary_key "PAYMENT" (codes "P1"))
          then some (codes "P")
          else get empty_vault (primary_key "PAYMENT" (codes "P1"))))
    × ((put_record sample_codec (AnyRecord.payment payment_p1) empty_vault).0 ≡ true)
get-put_record_example =
    get-put_record sample_codec (AnyRecord.payment payment_p1) empty_vault "PAYMENT" (codes "P1")

abbrev one_payment : NormalizedDataset Micro
one_payment = record {
  source_name = codes "test";
  payments = payment_p1 ∷ [];
  invoices = [];
  processor_transactions = processor_x1 ∷ [];
  settlements = [];
  batches = [];
  bank_transactions = [];
  refunds = [];
  adjustments = [];
  fee_policies = [];
  ground_truth = [];
  schema_failures = [];
}

abbrev card : FeePolicy Micro
card = record {
  policy_id = codes "CARD";
  name = codes "Card";
  percentage_rate = pos 2_900_000;
  fixed_charge = pos 300_000;
  currency = codes "ANY";
  processor = codes "ANY";
  merchant_id = codes "ANY";
  payment_method = codes "CARD";
  rounding_mode = codes "HALF_UP";
}

abbrev card_registry : FeePolicyRegistry Micro
card_registry = record { policies = (codes "CARD", card) ∷ []; allow_global_fallback = false }

card_found :
    match_policy card_registry none none (some (codes "CARD")) (some (codes "USD")) ≡ some card
unfolding match_policy text_eq
card_found = refl

match_policy-Chosen_example :
    Chosen card_registry none (some (codes "CARD")) (some (codes "USD")) card
match_policy-Chosen_example =
    match_policy-Chosen card_registry none none (some (codes "CARD")) (some (codes "USD")) card
      card_found

nothing_found : match_policy card_registry none none (some (codes "UPI")) none ≡ none
unfolding match_policy text_eq
nothing_found = refl

match_policy-none_example :
    All
      (λ (p : FeePolicy Micro).
        (exact_policy none (some (codes "UPI")) none p ≡ false)
        × (by_method (some (codes "UPI")) p ≡ false)
        × (by_processor none p ≡ false))
      (policy_list card_registry)
    × ((card_registry.allow_global_fallback ≡ false)
        ⊎ (get_policy card_registry (codes "DEFAULT_FALLBACK") ≡ none))
match_policy-none_example =
    match_policy-none card_registry none none (some (codes "UPI")) none nothing_found

put_record-In_example :
    In
      (payment_order_key payment_p1, to_key (AnyRecord.payment payment_p1))
      (scan_prefix
        (put_record sample_codec (AnyRecord.payment payment_p1) empty_vault).1
        (index_prefix "ORDER" (codes "O1") "PAYMENT"))
put_record-In_example = put_record-In sample_codec payment_p1 empty_vault refl refl

abbrev dated_vault : Vault
dated_vault = (put_record sample_codec (AnyRecord.processor processor_x1) empty_vault).1

abbrev x1_fields : Fields Micro
x1_fields = (codes "order_id", Value.str (codes "O1")) ∷ []

window_scanned :
    scan_merchant_window sample_codec dated_vault
      (codes "M1")
      (pos 0)
      (pos 2000)
      (some (codes "processor"))
    ≡ ok (x1_fields ∷ [])
unfolding scan_merchant_window put_record get to_key to_merchant_temporal_key processor_order_key
    processor_batch_key micro_float
window_scanned = refl

scan_merchant_window-Holds_example : In x1_fields (x1_fields ∷ []) ↔ (
    (e : Text × Text) × In e
      (scan_prefix dated_vault (codes "IDX:MERCHANT:" ++ (codes "M1" ++ b':' ∷ [])))
    × Holds sample_codec dated_vault (pos 0) (pos 2000) (some (codes "processor")) e x1_fields)
scan_merchant_window-Holds_example =
    scan_merchant_window-Holds sample_codec dated_vault (codes "M1") (pos 0) (pos 2000)
      (some (codes "processor")) x1_fields window_scanned

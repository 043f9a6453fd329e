-- ===== src/Matcher.antt =====
-- recon/matcher.py: the matches, the report, and what an engine is built from.
pub mod Index
pub mod Order
pub mod Batch
pub mod Run
pub mod Sound
pub mod Outcomes
pub mod OneToOne
pub mod Payout
pub mod Counts
pub mod Answers
pub mod RunOneToOne
pub mod Ledger
pub mod Distinct
pub mod Returns
pub mod ReturnsTests
pub mod Tests
use mathlib.Core.Option
use vault_recon_ai.Prelude.{
  List, Option, String, [], if◌then◌else◌, is_empty, map, none, some, ◌++◌,
}
use vault_recon_ai.Exceptions.{Details, FinancialException, Moment, log_event}
use vault_recon_ai.Float.{Float}
use vault_recon_ai.Result.{Result, of_option, ok}
use vault_recon_ai.Rules.{ReconciliationRules}
use vault_recon_ai.Text.{Text, codes}
use vault_recon_ai.Value.{Fields, Value}
use vault_recon_ai.Vault.{Vault, get}
use vault_recon_ai.Vault.Codec.{Codec}

pub record ReconciliationMatch (F : Type 0) : Type 0 where
  pub match_id : Text
  pub scope : String
  pub work_key : Text
  pub internal_payment_id : Option Text
  pub processor_transaction_id : Option Text
  pub settlement_batch_id : Option Text
  pub bank_entry_id : Option Text
  pub amount : F
  pub fees : F
  pub net_amount : F
  pub confidence : F
  pub reason_code : String
  pub match_strategy : String
  pub matched_at : F
  pub metadata : Fields F

-- `ReconciliationEngine`, without `consumed_target_ids`, which its methods pass on. `ratio` is that
-- of `difflib.SequenceMatcher`.
pub record Engine (F : Type 0) : Type 0 where
  pub db : Vault
  pub codec : Codec F
  pub rules : ReconciliationRules F
  pub ratio : Text → Text → F

-- The Optional pair that the methods return.
abbrev pub Outcome : Type 0 → Type 0
Outcome F = Option (ReconciliationMatch F) × Option (FinancialException F)

-- `raw = self.db.get(key)` and, if it is there and not empty, the class's `model_validate_json`.
unfoldable pub load_at {ℓ} : {A : Type ℓ} → Vault → (Text → Option A) → Text → Result (Option A)
unfolding get
load_at db load key = elim (get db key) [
  | none ↦ ok none
  | some raw ↦ if is_empty raw then ok none else of_option (Option.map some (load raw))
]

module _ {F : Type 0} ⦃d : Float F⦄ where
  open d use {lit}

  -- The constructor call that every branch makes, with the event that is logged behind it. The
  -- clock is read for `created_at`, `updated_at`, the event and its `updated_at`.
  unfoldable pub new_exception :
      Moment F
      → String
      → Text
      → String
      → String
      → Text
      → List Text
      → Value F
      → Value F
      → F
      → FinancialException F
  new_exception now prefix merchant_id exception_type record_type record_id related expected actual
        diff =
      record {
        exception_id = codes prefix ++ now.hex;
        merchant_id = merchant_id;
        exception_type = codes exception_type;
        primary_record_type = codes record_type;
        primary_record_id = record_id;
        related_record_ids = related;
        expected_value = expected;
        actual_value = actual;
        difference = diff;
        candidate_records = [];
        evidence = [];
        status = "OPEN";
        resolution_reason = none;
        ai_confidence = none;
        created_at = now.time 0;
        updated_at = now.time 1;
        metadata = record { findings = none; finding_count = none };
        audit_trail = [];
      }

  -- exc.log_event("EXCEPTION_CREATED", "DETERMINISTIC_MATCHER", details)
  unfoldable pub log_created : Moment F → Details F → FinancialException F → FinancialException F
  unfolding log_event
  log_created now details =
      log_event (now.time 2) (now.time 3) "EXCEPTION_CREATED" "DETERMINISTIC_MATCHER" details none

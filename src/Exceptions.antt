-- ===== src/Exceptions.antt =====
-- recon/exceptions.py: exceptions and their audit trail; the findings of recon/matcher.py. A reason
-- is kept as its template and the values that the text shows.
pub mod Trail
use vault_recon_ai.Prelude.{Bool, List, Option, String, [], ℕ, ◌++◌, ◌∷◌}
use vault_recon_ai.Ai.Decision.{AiDecisionResult, Rationale}
use vault_recon_ai.Text.{Text}
use vault_recon_ai.Value.{Fields, Value}

pub data Reason (F : Type 0) : Type 0 where
  duplicate_flag : Text → Reason F
  duplicate_records : Text → Reason F
  partner_consumed : Text → Reason F
  refunded : Text → Text → String → Reason F
  overpaid : F → F → Reason F
  invoice_differs : F → F → Reason F
  several_processors : Text → Reason F
  no_processor : Text → Reason F
  currency_differs : Text → Text → Reason F
  tolerance_or_similarity : F → F → Reason F
  gross_differs : F → F → F → ℕ → Reason F
  no_fee_policy : Text → Text → Option (Value F) → Reason F
  fee_differs : F → F → F → Reason F
  no_internal_entry : Text → Text → Reason F
  duplicate_bank : Text → Reason F
  no_bank_entry : Text → Reason F
  batch_net_differs : F → F → Reason F
  late_payout : Reason F

-- One entry of `findings`.
pub record Finding (F : Type 0) : Type 0 where
  pub type : String
  pub expected : Value F
  pub actual : Value F
  pub diff : F
  pub related_ids : List Text
  pub reason : Reason F

-- The `details` that the program logs: under "reason", under "reason" and "all_findings", under
-- "primary_reason" and "all_findings", and those of the controller.
pub data Details (F : Type 0) : Type 0 where
  reason : Reason F → Details F
  reason_and_findings : Reason F → List (Finding F) → Details F
  primary_reason_and_findings : Reason F → List (Finding F) → Details F
  investigation : Text → Text → Text → Details F
  decision_result : AiDecisionResult F → Details F
  completed : String → F → List Text → List Text → List Text → F → Bool → Details F

pub record AuditEvent (F : Type 0) : Type 0 where
  pub timestamp : F
  pub action : String
  pub actor : String
  pub details : Details F
  pub rationale : Option (Rationale F)

-- The keys that the program puts into an exception's `metadata`.
pub record ExceptionMetadata (F : Type 0) : Type 0 where
  pub findings : Option (List (Finding F))
  pub finding_count : Option ℕ

pub record FinancialException (F : Type 0) : Type 0 where
  pub exception_id : Text
  pub merchant_id : Text
  pub exception_type : Text
  pub primary_record_type : Text
  pub primary_record_id : Text
  pub related_record_ids : List Text
  pub expected_value : Value F
  pub actual_value : Value F
  pub difference : F
  pub candidate_records : List (Fields F)
  pub evidence : List Text
  pub status : String
  pub resolution_reason : Option (Rationale F)
  pub ai_confidence : Option F
  pub created_at : F
  pub updated_at : F
  pub metadata : ExceptionMetadata F
  pub audit_trail : List (AuditEvent F)

-- What one call reads from outside: `uuid.uuid4().hex[:8].upper()`, and the clock's readings in
-- the order in which the call makes them.
pub record Moment (F : Type 0) : Type 0 where
  pub hex : Text
  pub time : ℕ → F

module _ {F : Type 0} where
  -- `log_event`: reads the clock for the event, and again for `updated_at`.
  unfoldable pub log_event :
      F
      → F
      → String
      → String
      → Details F
      → Option (Rationale F)
      → FinancialException F
      → FinancialException F
  log_event stamp updated action actor details rationale e = record e {
    audit_trail =
        e.audit_trail
        ++ record {
          timestamp = stamp;
          action = action;
          actor = actor;
          details = details;
          rationale = rationale;
        }
          ∷ [];
    updated_at = updated;
  }

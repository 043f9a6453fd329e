-- ===== src/Exceptions/Trail.antt =====
-- recon/exceptions.py: an audit trail and a later one.
-- `old` is the beginning of `new`, and `n` events were added behind it.
use vault_recon_ai.Prelude.{List, Option, String, [], suc, zero, ℕ, ◌++◌, ◌∷◌}
use vault_recon_ai.Ai.Decision.{Rationale}
use vault_recon_ai.Exceptions.{AuditEvent, Details, FinancialException, log_event}

pub data Extends {F : Type 0} (old : List (AuditEvent F)) : ℕ → List (AuditEvent F) → Type 0 where
  same : Extends old zero old
  more :
      {n : ℕ} {new : List (AuditEvent F)} (e : AuditEvent F)
      → Extends old n new
      → Extends old (suc n) (new ++ e ∷ [])

module _ {F : Type 0} where
  pub Extends-log_event :
      (stamp updated : F) (action actor : String) (details : Details F)
      (rationale : Option (Rationale F)) (e : FinancialException F) {old : List (AuditEvent F)}
      {n : ℕ}
      → Extends old n e.audit_trail
      → Extends old (suc n) (log_event stamp updated action actor details rationale e).audit_trail
  unfolding log_event
  Extends-log_event stamp updated action actor details rationale e h = more _ h

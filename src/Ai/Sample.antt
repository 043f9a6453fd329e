-- ===== src/Ai/Sample.antt =====
-- An exception at the sample vault, and the clock of its investigation.
use vault_recon_ai.Prelude.{[], none}
use vault_recon_ai.Ai.Agent.{Times}
use vault_recon_ai.Exceptions.{FinancialException}
use vault_recon_ai.Float.Micro.{Micro}
use vault_recon_ai.Prelude.Int.{pos}
use vault_recon_ai.Text.{codes}
use vault_recon_ai.Value.{Value}

abbrev pub sample_mismatch : FinancialException Micro
sample_mismatch = record {
  exception_id = codes "EXC_1";
  merchant_id = codes "M1";
  exception_type = codes "TIMING";
  primary_record_type = codes "PROCESSOR";
  primary_record_id = codes "X1";
  related_record_ids = [];
  expected_value = Value.null;
  actual_value = Value.null;
  difference = pos 0;
  candidate_records = [];
  evidence = [];
  status = "OPEN";
  resolution_reason = none;
  ai_confidence = none;
  created_at = pos 0;
  updated_at = pos 0;
  metadata = record { findings = none; finding_count = none };
  audit_trail = [];
}

abbrev pub sample_times : Times Micro
sample_times = record {
  duration_ms = pos 7;
  started = pos 1;
  started_updated = pos 2;
  decided = pos 3;
  decided_updated = pos 4;
}

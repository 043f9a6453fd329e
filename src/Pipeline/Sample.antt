-- ===== src/Pipeline/Sample.antt =====
-- A data set with a payment that no processor has, the setting of its run, and an empty report.
use vault_recon_ai.Prelude.{[], none, some, ◌∷◌}
use vault_recon_ai.Ai.Agent.{generated}
use vault_recon_ai.Ai.Sample.{sample_times}
use vault_recon_ai.Float.Micro.{Micro}
use vault_recon_ai.Ingestion.{NormalizedDataset}
use vault_recon_ai.Matcher.Run.{MatcherReport}
use vault_recon_ai.Pipeline.{Setting}
use vault_recon_ai.Prelude.Int.{pos}
use vault_recon_ai.Sample.{empty_registry, empty_vault, moment, payment_p1, sample_codec}
use vault_recon_ai.Text.{codes}

abbrev pub unmatched_dataset : NormalizedDataset Micro
unmatched_dataset = record {
  source_name = codes "test";
  payments = payment_p1 ∷ [];
  invoices = [];
  processor_transactions = [];
  settlements = [];
  batches = [];
  bank_transactions = [];
  refunds = [];
  adjustments = [];
  fee_policies = [];
  ground_truth = [];
  schema_failures = [];
}

abbrev pub sample_setting : Setting Micro
sample_setting = record {
  db = empty_vault;
  codec = record sample_codec { loads = λ raw. some [] };
  registry = empty_registry;
  ratio = λ a b. pos 0;
  generate = λ s e. generated (codes "not JSON");
  loads = λ raw. none;
  percentile = λ xs q. pos 0;
  moments = λ n. moment;
  times = λ n. sample_times;
  readings = record {
    pipe = (pos 0, pos 1_000_000);
    ingest = (pos 0, pos 1_000_000);
    ingest_inner = (pos 0, pos 1_000_000);
    recon = (pos 0, pos 1_000_000);
    recon_inner = (pos 0, pos 1_000_000);
    ai = (pos 0, pos 1_000_000);
    lookup = λ n. (pos 0, pos 1_000);
    investigation = λ n. (pos 0, pos 1_000);
  };
}

abbrev pub sample_report : MatcherReport Micro
sample_report = record {
  total_evaluated = 0;
  matched_count = 0;
  exception_count = 0;
  matches = [];
  exceptions = [];
  order_matches = [];
  batch_matches = [];
  duration_sec = pos 0;
  throughput_records_per_sec = pos 0;
}

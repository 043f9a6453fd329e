-- ===== src/Matcher/Tests.antt =====
-- recon/matcher.py on the sample vault.
use vault_recon_ai.Prelude.{List, [], false, filter, length, map, none, refl, some, ℕ, ◌∷◌, ◌≡◌}
use vault_recon_ai.Exceptions.{Moment}
use vault_recon_ai.Float.Micro.{Micro, micro_float}
use vault_recon_ai.Matcher.{ReconciliationMatch}
use vault_recon_ai.Matcher.Answers.Whole.{IsAnswered, reconcile_all-IsAnswered}
use vault_recon_ai.Matcher.Batch.{reconcile_batch}
use vault_recon_ai.Matcher.Distinct.{Distinct, matched_ids}
use vault_recon_ai.Matcher.Index.{build_index, index_name, indexes_of}
use vault_recon_ai.Matcher.Index.Lookup.{build_index-filter, in_index}
use vault_recon_ai.Matcher.Index.Names.{index_name-index_key}
use vault_recon_ai.Matcher.Ledger.{Ledger, Steps, empty_ledger, pair_of, reconcile_all-Steps}
use vault_recon_ai.Matcher.OneToOne.{reconcile_order-unconsumed}
use vault_recon_ai.Matcher.Order.{reconcile_order}
use vault_recon_ai.Matcher.Order.Passes.{order_reason_code}
use vault_recon_ai.Matcher.Order.Targets.{Target}
use vault_recon_ai.Matcher.Outcomes.{OneResult, reconcile_order-OneResult}
use vault_recon_ai.Matcher.Payout.{PayoutAgrees, reconcile_batch-PayoutAgrees}
use vault_recon_ai.Matcher.Run.{MatcherReport, payments_of, reconcile_all}
use vault_recon_ai.Matcher.RunOneToOne.{reconcile_all-Distinct}
use vault_recon_ai.Matcher.Sound.{FoundTarget, IsSound, reconcile_order-IsSound}
use vault_recon_ai.Prelude.Int.{pos}
use vault_recon_ai.Result.{ok}
use vault_recon_ai.Sample.{batch_b1, moment, payment_p1, sample_engine, sample_vault}
use vault_recon_ai.Sample.Keyed.{sample-IsKeyed}
use vault_recon_ai.Schemas.{BankTransactionRecord, PaymentRecord}
use vault_recon_ai.Schemas.Keys.{index_key}
use vault_recon_ai.Text.{Text, codes, contains}
use vault_recon_ai.Value.{Value}

-- The match that is expected at the payment.
abbrev expected_match : ReconciliationMatch Micro
expected_match = record {
  match_id = codes "MATCH_ORD_AB12CD34";
  scope = "ORDER";
  work_key = codes "O1";
  internal_payment_id = some (codes "P1");
  processor_transaction_id = some (codes "X1");
  settlement_batch_id = some (codes "B1");
  bank_entry_id = none;
  amount = pos 5_000_000;
  fees = pos 0;
  net_amount = pos 5_000_000;
  confidence = pos 1_000_000;
  reason_code = "L1_EXACT_ORDER_MATCH";
  match_strategy = "EXACT";
  matched_at = pos 0;
  metadata =
      (codes "is_partial", Value.bool false)
      ∷ (codes "date_diff_days", Value.int (pos 0))
      ∷ (codes "amount_diff", Value.float (pos 0))
      ∷ (codes "desc_similarity", Value.float (pos 1_000_000))
      ∷ [];
}

abbrev expected_batch : ReconciliationMatch Micro
expected_batch = record {
  match_id = codes "MATCH_BATCH_AB12CD34";
  scope = "SETTLEMENT";
  work_key = codes "B1";
  internal_payment_id = none;
  processor_transaction_id = none;
  settlement_batch_id = some (codes "B1");
  bank_entry_id = some (codes "K1");
  amount = pos 5_000_000;
  fees = pos 0;
  net_amount = pos 5_000_000;
  confidence = pos 1_000_000;
  reason_code = "L2_EXACT_SETTLEMENT_MATCH";
  match_strategy = "EXACT";
  matched_at = pos 0;
  metadata = [];
}

abbrev expected_report : MatcherReport Micro
expected_report = record {
  total_evaluated = 2;
  matched_count = 2;
  exception_count = 0;
  matches = expected_match ∷ expected_batch ∷ [];
  exceptions = [];
  order_matches = expected_match ∷ [];
  batch_matches = expected_batch ∷ [];
  duration_sec = pos 1_000_000;
  throughput_records_per_sec = pos 2_000_000;
}

abbrev one_consumed : List Text
one_consumed = codes "X1" ∷ []

order_matches :
    reconcile_order sample_engine none none moment payment_p1 []
    ≡ ok ((some expected_match, none), one_consumed)
unfolding reconcile_order order_reason_code micro_float
order_matches = refl

batch_matches : reconcile_batch sample_engine none moment batch_b1 ≡ ok (some expected_batch, none)
unfolding reconcile_batch micro_float
batch_matches = refl

abbrev moments : ℕ → Moment Micro
moments n = moment

abbrev the_payment : List (PaymentRecord Micro)
the_payment = payment_p1 ∷ []

run_matches :
    reconcile_all sample_engine (pos 0) (pos 1_000_000) moments (some the_payment)
    ≡ ok expected_report
unfolding reconcile_all reconcile_order reconcile_batch order_reason_code micro_float
run_matches = refl

reconcile_order-IsSound_example :
    (t : Target Micro) × FoundTarget sample_engine none none payment_p1 [] t
    × IsSound sample_engine payment_p1 [] expected_match one_consumed t
reconcile_order-IsSound_example =
    reconcile_order-IsSound sample_engine none none moment payment_p1 [] order_matches

reconcile_order-OneResult_example :
    OneResult payment_p1 [] ((some expected_match, none), one_consumed)
reconcile_order-OneResult_example =
    reconcile_order-OneResult sample_engine none none moment payment_p1 [] order_matches

reconcile_order-unconsumed_example :
    (id : Text) × (expected_match.processor_transaction_id ≡ some id)
    × (one_consumed ≡ id ∷ [])
    × (contains [] id ≡ false)
reconcile_order-unconsumed_example =
    reconcile_order-unconsumed sample_engine sample-IsKeyed none none moment payment_p1 []
      order_matches

reconcile_all-Steps_example :
    (pays : List (PaymentRecord Micro)) × (payments_of sample_engine (some the_payment) ≡ ok pays)
    × ((l : Ledger) × Steps (map (λ p. p.transaction_id) pays) empty_ledger l
        × (l.settled ≡ map pair_of expected_report.order_matches))
reconcile_all-Steps_example =
    reconcile_all-Steps sample_engine sample-IsKeyed (pos 0) (pos 1_000_000) moments
      (some the_payment) run_matches

reconcile_all-Distinct_example :
    Distinct (matched_ids expected_report.order_matches)
    × (length (matched_ids expected_report.order_matches) ≡ length expected_report.order_matches)
reconcile_all-Distinct_example =
    reconcile_all-Distinct sample_engine sample-IsKeyed (pos 0) (pos 1_000_000) moments
      (some the_payment) run_matches

reconcile_all-IsAnswered_example :
    (pays : List (PaymentRecord Micro)) × (payments_of sample_engine (some the_payment) ≡ ok pays)
    × IsAnswered sample_engine pays expected_report
reconcile_all-IsAnswered_example =
    reconcile_all-IsAnswered sample_engine (pos 0) (pos 1_000_000) moments (some the_payment)
      run_matches

reconcile_batch-PayoutAgrees_example :
    (txn : BankTransactionRecord Micro) × PayoutAgrees sample_engine none batch_b1 txn
    × (expected_batch.settlement_batch_id ≡ some batch_b1.batch_id)
    × (expected_batch.bank_entry_id ≡ some txn.bank_transaction_id)
    × (expected_batch.net_amount ≡ batch_b1.total_net)
reconcile_batch-PayoutAgrees_example =
    reconcile_batch-PayoutAgrees sample_engine none moment batch_b1 batch_matches

build_index-filter_example :
    indexes_of (build_index sample_vault.entries) (codes "O1") (codes "PROCESSOR")
    ≡ filter (in_index (codes "O1") (codes "PROCESSOR")) sample_vault.entries
build_index-filter_example =
    build_index-filter sample_vault.entries (codes "O1") (codes "PROCESSOR")

index_name-index_key_example :
    index_name (index_key "ORDER" (codes "O:1") "PAYMENT" (codes "P1"))
    ≡ some (codes "O:1", codes "PAYMENT")
index_name-index_key_example =
    index_name-index_key "ORDER" (codes "O:1") "PAYMENT" (codes "P1")
      (refl, (refl, (refl, (refl, (refl, tt)))))
      (refl, (refl, (refl, (refl, (refl, (refl, (refl, tt))))))) (refl, (refl, tt))

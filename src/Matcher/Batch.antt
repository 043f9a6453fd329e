-- ===== src/Matcher/Batch.antt =====
-- recon/matcher.py: `reconcile_batch`, a settlement batch against the bank's payout.
use vault_recon_ai.Prelude.{
  List, Option, String, [], if◌then◌else◌, length, ltb, map, none, not, some, ◌++◌, ◌∷◌,
}
use vault_recon_ai.Exceptions.{Details, FinancialException, Moment, Reason}
use vault_recon_ai.Float.{Float}
use vault_recon_ai.Matcher.{Engine, Outcome, ReconciliationMatch, log_created, new_exception}
use vault_recon_ai.Matcher.Index.{Entry, IndexMap, indexes_of}
use vault_recon_ai.Matcher.Order.Targets.{load_first}
use vault_recon_ai.Prelude.Int.{distance, pos}
use vault_recon_ai.Result.{Result, ok, ◌>>=◌}
use vault_recon_ai.Rules.{is_amount_matching, is_currency_matching, is_within_time_window}
use vault_recon_ai.Schemas.{BankTransactionRecord, SettlementBatch}
use vault_recon_ai.Schemas.Keys.{index_prefix}
use vault_recon_ai.Text.{Text, clean_reference, codes}
use vault_recon_ai.Value.{Value}
use vault_recon_ai.Vault.{scan_prefix}

module _ {F : Type 0} ⦃d : Float F⦄ (eng : Engine F) where
  open d use {lit, sub, round, of_int}

  -- The bank entries under the cleaned batch id: from the map, or by a scan.
  unfoldable pub bank_indexes : Option IndexMap → Text → List Entry
  unfolding indexes_of scan_prefix clean_reference
  bank_indexes none batch_id =
      scan_prefix eng.db (index_prefix "REF" (clean_reference batch_id) "BANK")
  bank_indexes (some m) batch_id = indexes_of m (clean_reference batch_id) (codes "BANK")

  unfoldable pub batch_exception :
      Moment F
      → SettlementBatch F
      → String
      → String
      → List Text
      → Value F
      → Value F
      → F
      → FinancialException F
  unfolding new_exception
  batch_exception now b prefix type related expected actual diff =
      new_exception now prefix b.merchant_id type "BATCH" b.batch_id related expected actual diff

  unfoldable pub batch_match :
      Moment F → SettlementBatch F → BankTransactionRecord F → ReconciliationMatch F
  batch_match now b bank_txn = record {
    match_id = codes "MATCH_BATCH_" ++ now.hex;
    scope = "SETTLEMENT";
    work_key = b.batch_id;
    internal_payment_id = none;
    processor_transaction_id = none;
    settlement_batch_id = some b.batch_id;
    bank_entry_id = some bank_txn.bank_transaction_id;
    amount = b.total_gross;
    fees = b.total_fees;
    net_amount = b.total_net;
    confidence = lit 10 1;
    reason_code = "L2_EXACT_SETTLEMENT_MATCH";
    match_strategy = "EXACT";
    matched_at = now.time 0;
    metadata = [];
  }

  -- Steps 2 to 4, at the bank's entry. A currency mismatch logs no event.
  unfoldable pub check_payout : Moment F → SettlementBatch F → BankTransactionRecord F → Outcome F
  unfolding batch_match batch_exception log_created is_currency_matching is_amount_matching
      is_within_time_window
  check_payout now b bank_txn =
      if not (is_currency_matching b.currency bank_txn.currency)
      then (
        none,
        some (
            batch_exception now b "EXC_BATCH_" "CURRENCY_MISMATCH"
              (bank_txn.bank_transaction_id ∷ []) (Value.str b.currency)
              (Value.str bank_txn.currency) (lit 0 0)),
      )
      else if not (is_amount_matching b.total_net bank_txn.amount eng.rules.amount_tolerance)
      then (
        none,
        some (
            log_created now (Details.reason (Reason.batch_net_differs b.total_net bank_txn.amount))
              (batch_exception now b "EXC_BATCH_" "AMOUNT_MISMATCH"
                (bank_txn.bank_transaction_id ∷ []) (Value.float b.total_net)
                (Value.float bank_txn.amount) (round (sub b.total_net bank_txn.amount) 2))),
      )
      else if not (is_within_time_window eng.rules b.timestamp bank_txn.timestamp)
      then (
        none,
        some (
            log_created now (Details.reason Reason.late_payout) (
              batch_exception now b "EXC_BATCH_" "LATE_SETTLEMENT"
                (bank_txn.bank_transaction_id ∷ []) (Value.int b.timestamp)
                (Value.int bank_txn.timestamp)
                (of_int (pos (distance b.timestamp bank_txn.timestamp))))),
      )
      else (some (batch_match now b bank_txn), none)

  -- The result at the bank's record, or without one.
  unfoldable pub settle_batch :
      Moment F → SettlementBatch F → Option (BankTransactionRecord F) → Outcome F
  unfolding check_payout batch_exception log_created
  settle_batch now b none = (
    none,
    some (
        log_created now (Details.reason (Reason.no_bank_entry b.batch_id)) (
          batch_exception now b "EXC_BATCH_" "MISSING_BANK_SETTLEMENT" [] (Value.float b.total_net)
            (Value.float (lit 0 0)) b.total_net)),
  )
  settle_batch now b (some bank_txn) = check_payout now b bank_txn

  -- `reconcile_batch`, at the bank entries under the batch's id.
  unfoldable pub reconcile_entries : Moment F → SettlementBatch F → List Entry → Result (Outcome F)
  unfolding settle_batch batch_exception log_created load_first
  reconcile_entries now b found =
      if ltb 1 (length found)
      then ok (
        none,
        some (
            log_created now (Details.reason (Reason.duplicate_bank b.batch_id)) (
              batch_exception now b "EXC_DUP_BANK_" "DUPLICATE_BANK_ENTRY" (map (λ e. e.1) found)
                (Value.float b.total_net) (Value.float b.total_net) (lit 0 0))),
      )
      else do
        bank_txn ← load_first eng.db eng.codec.load_bank found
        ok (settle_batch now b bank_txn)

  -- `reconcile_batch`.
  unfoldable pub reconcile_batch :
      Option IndexMap → Moment F → SettlementBatch F → Result (Outcome F)
  unfolding bank_indexes reconcile_entries
  reconcile_batch rmap now b = reconcile_entries now b (bank_indexes rmap b.batch_id)
